-- ===== src/Channel/Tests.antt =====
-- Runs of the channel over a ring kept as a list, and the theorems at such runs.
use servant.Channel.ListRing.{
  ListRing, list_enqueue, list_dequeue, list_rings, ring_of_4, runtime, application, made, zeros,
  made-IsStream, made-sent, made_1, ring_1, made_1-messages,
}
use servant.Channel.Overwrite.{flood, refused_overwrites}
use servant.Channel.Layout.{layout_disjoint}
use servant.Prelude.Int.{pos, minus_one}
use servant.Channel.Receive.{polled, received, count_msg_stream, rx_msg-IsStream, rx_msg_empty}
use servant.Channel.Send.{sent, tx_msg-IsStream}
use servant.Channel.Connect.Handshake.{fresh_channel-IsStream, attach_address, two_processes}
use servant.Channel.Connect.{
  ring_at, objs_at, fresh_channel, shared_region_size, ChannelAttr, attach, Answers, connect, remap,
  create, init_region, register,
}
use servant.Channel.Session.{Op, Answer, run, fifo, receiving, receive, send, sending, run-fifo}
use servant.Channel.Stream.{IsStream, messages}
use servant.Channel.Span.{span}
use servant.Channel.{tx_msg, rx_msg, count_msg, VChannel, SharedChannel}
use servant.Prelude.{
  ◌≡◌, ◌+◌, ℕ, ◌≤◌, arith, List, [], ◌*◌, none, ◌∷◌, some, ◌%◌, ◌++◌, refl, returns, replicate,
}

abbrev session : List Op
session =
    receive zeros 4
    ∷ send (1 ∷ 2 ∷ 3 ∷ []) 3
    ∷ send (7 ∷ 8 ∷ 9 ∷ []) 2
    ∷ receive zeros 4
    ∷ receive zeros 1
    ∷ receive zeros 4
    ∷ []

abbrev answers : List Answer
answers =
    receiving 0 zeros
    ∷ sending (pos 0)
    ∷ sending (pos 0)
    ∷ receiving 3 (1 ∷ 2 ∷ 3 ∷ 0 ∷ [])
    ∷ receiving 1 (7 ∷ 0 ∷ 0 ∷ 0 ∷ [])
    ∷ receiving 0 zeros
    ∷ []

fifo-session : fifo 3 [] session ≡ some answers
unfolding fifo
fifo-session = refl

run-fifo_example : run list_rings runtime application session made ≡ returns answers
unfolding span
run-fifo_example =
    run-fifo list_rings runtime application session made ring_of_4 0 0 answers (omega arith) refl
      made-IsStream (omega arith) fifo-session

-- The same by running the code.
run-session : run list_rings runtime application session made ≡ returns answers
unfolding run tx_msg rx_msg fresh_channel list_enqueue list_dequeue
run-session = refl

tx_msg-IsStream_example :
    (tx_msg list_rings runtime (5 ∷ 6 ∷ []) 2 made
      ≡ returns (pos 0, sent list_rings runtime (5 ∷ 6 ∷ []) 2 made ring_of_4))
    × IsStream list_rings
        (sent list_rings runtime (5 ∷ 6 ∷ []) 2 made ring_of_4)
        1
        (list_enqueue ring_of_4 made.ring_top).0
        0
        1
    × (messages (sent list_rings runtime (5 ∷ 6 ∷ []) 2 made ring_of_4) 0 1
        ≡ messages made 0 0 ++ (5 ∷ 6 ∷ []) ∷ [])
tx_msg-IsStream_example =
    tx_msg-IsStream list_rings runtime (5 ∷ 6 ∷ []) 2 made ring_of_4 0 0 (omega arith) (omega arith)
      (omega arith) (omega arith) made-IsStream

rx_msg-IsStream_example :
    rx_msg list_rings application zeros 4 made_1
    ≡ returns (2, 5 ∷ 6 ∷ 0 ∷ 0 ∷ [], received list_rings application made_1 ring_1 0)
rx_msg-IsStream_example =
    (rx_msg-IsStream list_rings application zeros 4 made_1 ring_1 0 0 (5 ∷ 6 ∷ []) [] made-sent.1
      made_1-messages (omega arith)).0

rx_msg_empty_example :
    rx_msg list_rings application zeros 4 made
    ≡ returns (0, zeros, polled list_rings application made ring_of_4)
rx_msg_empty_example =
    (rx_msg_empty list_rings application zeros 4 made ring_of_4 0 made-IsStream).0

counted_messages : count_msg list_rings application made_1 ≡ returns 1
unfolding list_enqueue
counted_messages =
    count_msg_stream list_rings application made_1 ring_1 0 1 (omega arith) made-sent.1

layout_disjoint_example :
    (4096 + 64 ≤ ring_at list_rings 4096 512 0)
    × (ring_at list_rings 4096 512 0 + 4352 ≤ ring_at list_rings 4096 512 1)
    × (ring_at list_rings 4096 512 1 + 4352 ≤ objs_at list_rings 4096 512)
    × (objs_at list_rings 4096 512 + 2 * 512 * 1536 ≤ 4096 + shared_region_size list_rings 512)
    × (ring_at list_rings 4096 512 1 % 64 ≡ 0)
    × (objs_at list_rings 4096 512 % 64 ≡ 0)
layout_disjoint_example =
    layout_disjoint list_rings 4096 512 (omega arith) (omega arith) (omega arith) (omega arith)

-- A ring of two slots holds one message; four slots for messages.
abbrev ring_of_2 : ListRing
ring_of_2 = record { size = 2; items = [] }

abbrev narrow : SharedChannel ListRing
narrow = fresh_channel list_rings 4096 2 ring_of_2 ring_of_2

abbrev clogged : SharedChannel ListRing
clogged = sent list_rings runtime (1 ∷ []) 1 narrow ring_of_2

clogged-IsStream : IsStream list_rings clogged 1 (list_enqueue ring_of_2 narrow.ring_top).0 0 1
clogged-IsStream =
    (tx_msg-IsStream list_rings runtime (1 ∷ []) 1 narrow ring_of_2 0 0 (omega arith) (omega arith)
      (omega arith) (omega arith)
      (fresh_channel-IsStream list_rings 4096 2 ring_of_2 1 refl (omega arith) (omega arith))).1

refused_overwrites_example :
    (ch' ch'' : SharedChannel ListRing) × (flood list_rings runtime (7 ∷ []) 1 4 clogged
      ≡ returns (replicate 4 minus_one, ch'))
    × (rx_msg list_rings application zeros 4 ch' ≡ returns (1, 7 ∷ 0 ∷ 0 ∷ 0 ∷ [], ch''))
unfolding list_enqueue fresh_channel
refused_overwrites_example =
    refused_overwrites list_rings runtime application (7 ∷ []) zeros 1 4 clogged
      (list_enqueue ring_of_2 narrow.ring_top).0 0 0 3 (omega arith) (omega arith) (omega arith)
      refl (omega arith) clogged-IsStream (omega arith) refl

abbrev link : ChannelAttr
link = record { name = b'l' ∷ []; ring_size = 4 }

-- The system's answers to the creator of the region, and to a process that finds it.
abbrev first : Answers
first = record {
  shm_open_excl = pos 3;
  shm_open = minus_one;
  ftruncate = pos 0;
  fstat = none;
  mmap = some 4096;
  munmap_ret = pos 0;
  mmap_at = λ a. some a;
}

abbrev later : Answers
later = record {
  shm_open_excl = minus_one;
  shm_open = pos 5;
  ftruncate = pos 0;
  fstat = some 20000;
  mmap = some 8192;
  munmap_ret = pos 0;
  mmap_at = λ a. some a;
}

abbrev connected_by : ℕ → SharedChannel ListRing
connected_by n = record made { connected = n }

abbrev process : ℕ → VChannel
process i = record { name = b'l' ∷ []; proc_id = i; ch = 4096 }

first_connects : (connect list_rings first link made).made ≡ some (process 0, connected_by 1)
unfolding connect create init_region register fresh_channel
first_connects = refl

second_connects :
    (connect list_rings later link (connected_by 1)).made ≡ some (process 1, connected_by 2)
unfolding connect attach remap register fresh_channel
second_connects = refl

two_processes_example :
    (◌≡◌ {A = ℕ} 0 0)
    × (◌≡◌ {A = ℕ} 1 1)
    × ((connect list_rings later link (connected_by 2)).made ≡ none)
    × ((connect list_rings later link (connected_by 2)).ret ≡ minus_one)
two_processes_example =
    two_processes list_rings first later later link link link made (connected_by 1) (connected_by 2)
      (process 0) (process 1) refl refl refl first_connects second_connects

second_attaches :
    (attach list_rings later link (connected_by 1)).made ≡ some (process 1, connected_by 2)
unfolding attach remap register fresh_channel
second_attaches = refl

second_process_address : (process 1).ch ≡ made.master_virt_addr
unfolding fresh_channel
second_process_address =
    attach_address list_rings later link (connected_by 1) (connected_by 2) (process 1) refl
      second_attaches
