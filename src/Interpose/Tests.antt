-- ===== src/Interpose/Tests.antt =====
-- Runs of the interposed calls, and the theorems at such runs.
use servant.Prelude.Int.{pos, minus_one, ℤ}
use servant.Prelude.{
  set, List, true, some, ◌≡◌, replicate, refl, ℕ, none, returns, ◌∷◌, arith, length, ◌++◌, ◌<◌, [],
  drop, undefined, take, inr,
}
use servant.Channel.ListRing.{
  ListRing, list_enqueue, list_rings, ring_of_4, runtime, application, made, made-IsStream,
}
use servant.Channel.{SharedChannel}
use servant.Channel.Receive.{received, filled}
use servant.Channel.Send.{sent, tx_msg-IsStream}
use servant.Channel.Span.{span}
use servant.Channel.Stream.{IsStream, messages}
use servant.Interpose.{
  EpollData, no_data, no_epoll, no_epolls, get_epoll_index, ctl_add, ctl_del, epoll_ctl, epoll_wait,
  from_libc, one_event, recvfrom, injected, wait_loop, first_followed,
}
use servant.Interpose.Epoll.{add-wait, epoll_wait-no_timeout}
use servant.Interpose.Removal.{del-wait, del_first-wait, first_other}
use servant.Interpose.Packet.{recvfrom-packet, recvfrom-undefined, sender_of}

-- The channel has a message in the third round.
abbrev rounds : List (ℕ × ℤ)
rounds = (0, pos 0) ∷ (0, pos 0) ∷ (1, pos 0) ∷ []

-- A registration of descriptor 7 under 5, in the first entry; and one of 8 under 6, in the second.
abbrev one_entry : List EpollData
one_entry =
    set no_epolls 0 (record {
      epfd = 5;
      following = set (replicate 8 no_data) 0 (record { fd = 7; payload = 70 });
    })

abbrev second : EpollData
second = record {
  epfd = 6;
  following = set (replicate 8 no_data) 0 (record { fd = 8; payload = 80 });
}

abbrev two_entries : List EpollData
two_entries = set one_entry 1 second

registered :
    epoll_ctl (some 8080) ctl_add 6 8 80 (epoll_ctl (some 8080) ctl_add 5 7 70 no_epolls)
    ≡ two_entries
unfolding epoll_ctl
registered = refl

found_0 : get_epoll_index no_epolls 5 ≡ some 0
unfolding get_epoll_index
found_0 = refl

found_1 : get_epoll_index two_entries 6 ≡ some 1
unfolding get_epoll_index
found_1 = refl

add-wait_example :
    epoll_wait (epoll_ctl (some 8080) ctl_add 5 7 70 no_epolls) 5 (pos 4) minus_one (pos 0) rounds
    ≡ some (one_event 70)
unfolding wait_loop
add-wait_example =
    add-wait no_epolls 5 7 70 0 3 minus_one (pos 0) rounds no_epoll no_data (replicate 7 no_data)
      found_0 refl refl (omega arith)

epoll_wait-no_timeout_example :
    (epoll_wait two_entries 6 (pos 1) (pos 10) (pos 0) (replicate 100 (0, pos 0)) ≡ none)
    × (epoll_wait two_entries 6
          (pos 1)
          (pos 10)
          (pos 0)
          (replicate 100 (0, pos 0) ++ (2, pos 0) ∷ [])
        ≡ some (one_event 80))
unfolding first_followed
epoll_wait-no_timeout_example =
    epoll_wait-no_timeout two_entries 6 1 0 100 1 (pos 10) (pos 0) (pos 0) [] second
      (record { fd = 8; payload = 80 }) found_1 refl refl refl

del-wait_example :
    epoll_wait (epoll_ctl (some 8080) ctl_del 6 8 0 two_entries) 6 (pos 1) (pos 0) (pos 0) rounds
    ≡ some (from_libc (pos 0))
unfolding first_other
del-wait_example = del-wait two_entries 6 8 0 0 0 (pos 0) (pos 0) rounds second found_1 refl refl

del_first-wait_example :
    epoll_wait
      (epoll_ctl (some 8080) ctl_del 5 7 70 (epoll_ctl (some 8080) ctl_add 5 7 70 no_epolls))
      5
      (pos 1)
      (pos 0)
      (pos 0)
      rounds
    ≡ some (one_event 70)
unfolding wait_loop
del_first-wait_example =
    del_first-wait no_epolls 5 7 70 0 (pos 0) (pos 0) rounds no_epoll no_data (replicate 7 no_data)
      found_0 refl refl refl (omega arith)

-- The same by running the code.
still_reported :
    epoll_wait
      (epoll_ctl (some 8080) ctl_del 5 7 70 (epoll_ctl (some 8080) ctl_add 5 7 70 no_epolls))
      5
      (pos 1)
      (pos 0)
      (pos 0)
      rounds
    ≡ some (one_event 70)
unfolding epoll_wait epoll_ctl
still_reported = refl

-- Headers of 28 bytes.
abbrev header : List ℕ
header =
    69 ∷ 0 ∷ 0 ∷ 30 ∷ 0 ∷ 0 ∷ 0 ∷ 0 ∷ 64 ∷ 17 ∷ 0 ∷ 0 ∷ 10 ∷ 0 ∷ 0 ∷ 1 ∷ 10 ∷ 0 ∷ 0 ∷ 2 ∷ 31 ∷ 144
    ∷ 31 ∷ 144 ∷ 0 ∷ 10 ∷ 0 ∷ 0 ∷ []

abbrev packet : List ℕ
packet = header ++ 104 ∷ 105 ∷ []

abbrev carrying : List ℕ → SharedChannel ListRing
carrying m = sent list_rings runtime m (length m) made ring_of_4

carrying-IsStream :
    (m : List ℕ)
    → length m < 1500
    → IsStream list_rings (carrying m) 1 (list_enqueue ring_of_4 made.ring_top).0 0 1
      × (messages (carrying m) 0 1 ≡ messages made 0 0 ++ take (length m) m ∷ [])
carrying-IsStream m h =
    let (_, t1, t2) =
      tx_msg-IsStream list_rings runtime m (length m) made ring_of_4 0 0 h (omega arith)
        (omega arith) (omega arith) made-IsStream in
    (t1, t2)

recvfrom-packet_example :
    recvfrom list_rings application true (replicate 40 0) 40 (carrying packet)
    ≡ returns (
      injected 2
          (104 ∷ 105 ∷ [] ++ drop 2 (filled packet (replicate 40 0) 40))
          (record { port = 31 ∷ 144 ∷ []; saddr = 10 ∷ 0 ∷ 0 ∷ 1 ∷ [] }),
      received list_rings application (carrying packet) (list_enqueue ring_of_4 made.ring_top).0 0,
    )
unfolding sender_of span
recvfrom-packet_example =
    recvfrom-packet list_rings application (carrying packet)
      (list_enqueue ring_of_4 made.ring_top).0 0 0 header (104 ∷ 105 ∷ []) (replicate 40 0) 40 []
      (carrying-IsStream packet (omega arith)).0 (carrying-IsStream packet (omega arith)).1 refl
      (omega arith) (omega arith)

recvfrom-undefined_example :
    recvfrom list_rings application true (replicate 40 0) 40 (carrying (1 ∷ 2 ∷ [])) ≡ undefined
unfolding span
recvfrom-undefined_example =
    recvfrom-undefined list_rings application (carrying (1 ∷ 2 ∷ []))
      (list_enqueue ring_of_4 made.ring_top).0 0 0 true (1 ∷ 2 ∷ []) (replicate 40 0) 40 []
      (carrying-IsStream (1 ∷ 2 ∷ []) (omega arith)).0
      (carrying-IsStream (1 ∷ 2 ∷ []) (omega arith)).1 (omega arith) (omega arith)
      (inr (omega arith))
