-- ===== src/Channel/ListRing.antt =====
-- A ring kept as a list, which fills the interface of the rings, and a small channel over it.
use servant.Prelude.Int.{pos}
use servant.Channel.Send.{sent, tx_msg-IsStream}
use servant.Channel.Connect.Handshake.{fresh_channel-IsStream}
use servant.Channel.Connect.{fresh_channel}
use servant.Channel.Stream.{IsStream, messages}
use servant.Channel.Span.{span}
use servant.Channel.{tx_msg, VChannel, SharedChannel}
use servant.Prelude.{
  Option, ◌≡◌, ◌+◌, ℕ, length, if◌then◌else◌, ◌≤◌, arith, List, [], ◌*◌, none, ◌<◌, ltb, ◌∷◌, some,
  ◌%◌, sym, ◌^◌, ◌++◌, ap, some-injective, refl, returns,
}
use servant.Channel.Ring.{Rings}

pub record ListRing : Type 0 where
  pub size : ℕ
  pub items : List ℕ

unfoldable pub list_enqueue : ListRing → ℕ → ListRing × ℕ
list_enqueue r x =
    if ltb (length r.items + 1) r.size then (record r { items = r.items ++ x ∷ [] }, 1) else (r, 0)

unfoldable pub list_dequeue : ListRing → ListRing × Option ℕ
list_dequeue r = elim r.items [ [] ↦ (r, none) | x ∷ xs ↦ (record r { items = xs }, some x) ]

module _ (r : ListRing) (x : ℕ) where
  pub items-enqueue : length r.items + 1 < r.size → (list_enqueue r x).0.items ≡ r.items ++ x ∷ []
  unfolding list_enqueue
  items-enqueue h = ground arith

  pub one-enqueue : length r.items + 1 < r.size → (list_enqueue r x).1 % 2 ^ 31 ≡ 1
  unfolding list_enqueue
  one-enqueue h = ground arith

  pub items-enqueue_full : r.size ≤ length r.items + 1 → (list_enqueue r x).0.items ≡ r.items
  unfolding list_enqueue
  items-enqueue_full h = ground arith

  pub zero-enqueue_full : r.size ≤ length r.items + 1 → (list_enqueue r x).1 % 2 ^ 31 ≡ 0
  unfolding list_enqueue
  zero-enqueue_full h = ground arith

  pub size-enqueue : (list_enqueue r x).0.size ≡ r.size
  unfolding list_enqueue
  size-enqueue = ground arith

module _ (r : ListRing) where
  pub dequeue_none : r.items ≡ [] → (list_dequeue r).1 ≡ none
  unfolding list_dequeue
  dequeue_none h = ground arith

  pub items-dequeue_nil : r.items ≡ [] → (list_dequeue r).0.items ≡ []
  unfolding list_dequeue
  items-dequeue_nil h = ground arith

  pub dequeue_some : (x : ℕ) (xs : List ℕ) → r.items ≡ x ∷ xs → (list_dequeue r).1 ≡ some x
  unfolding list_dequeue
  dequeue_some x xs h = ground arith

  pub items-dequeue : (x : ℕ) (xs : List ℕ) → r.items ≡ x ∷ xs → (list_dequeue r).0.items ≡ xs
  unfolding list_dequeue
  items-dequeue x xs h = ground arith

  pub size-dequeue : (list_dequeue r).0.size ≡ r.size
  unfolding list_dequeue
  size-dequeue = ground arith

abbrev pub list_rings : Rings
list_rings = record {
  R = ListRing;
  bytes_with_slots = λ n. 256 + 8 * n;
  init = λ n. some (record { size = n; items = [] });
  sp_enqueue_burst = list_enqueue;
  sc_dequeue_burst = list_dequeue;
  count = λ r. length r.items;
  contents = λ r. r.items;
  slots = λ r. r.size;
  contents-init = λ n r h. sym (ap (λ (l : ListRing). l.items) (some-injective h));
  slots-init = λ n r h. sym (ap (λ (l : ListRing). l.size) (some-injective h));
  contents-enqueue = items-enqueue;
  enqueue-one = one-enqueue;
  contents-enqueue_full = items-enqueue_full;
  enqueue_full-zero = zero-enqueue_full;
  slots-enqueue = size-enqueue;
  dequeue-nil = dequeue_none;
  contents-dequeue_nil = items-dequeue_nil;
  dequeue-cons = dequeue_some;
  contents-dequeue = items-dequeue;
  slots-dequeue = size-dequeue;
  count-contents = λ r h. refl;
}

-- A channel of 4 slots to a ring, made at the address 4096: process 0 sends and process 1 receives.
abbrev pub ring_of_4 : ListRing
ring_of_4 = record { size = 4; items = [] }

abbrev pub runtime : VChannel
runtime = record { name = []; proc_id = 0; ch = 4096 }

abbrev pub application : VChannel
application = record { name = []; proc_id = 1; ch = 4096 }

abbrev pub made : SharedChannel ListRing
made = fresh_channel list_rings 4096 4 ring_of_4 ring_of_4

abbrev pub zeros : List ℕ
zeros = 0 ∷ 0 ∷ 0 ∷ 0 ∷ []

pub made-IsStream : IsStream list_rings made 1 ring_of_4 0 0
made-IsStream =
    fresh_channel-IsStream list_rings 4096 4 ring_of_4 1 refl (omega arith) (omega arith)

pub made-sent :
    (tx_msg list_rings runtime (5 ∷ 6 ∷ []) 2 made
      ≡ returns (pos 0, sent list_rings runtime (5 ∷ 6 ∷ []) 2 made ring_of_4))
    × IsStream list_rings
        (sent list_rings runtime (5 ∷ 6 ∷ []) 2 made ring_of_4)
        1
        (list_enqueue ring_of_4 made.ring_top).0
        0
        1
    × (messages (sent list_rings runtime (5 ∷ 6 ∷ []) 2 made ring_of_4) 0 1
        ≡ messages made 0 0 ++ (5 ∷ 6 ∷ []) ∷ [])
made-sent =
    tx_msg-IsStream list_rings runtime (5 ∷ 6 ∷ []) 2 made ring_of_4 0 0 (omega arith) (omega arith)
      (omega arith) (omega arith) made-IsStream

-- The channel with one message under way.
abbrev pub made_1 : SharedChannel ListRing
made_1 = sent list_rings runtime (5 ∷ 6 ∷ []) 2 made ring_of_4

abbrev pub ring_1 : ListRing
ring_1 = (list_enqueue ring_of_4 made.ring_top).0

pub made_1-messages : messages made_1 0 1 ≡ (5 ∷ 6 ∷ []) ∷ []
unfolding span
made_1-messages = made-sent.2
