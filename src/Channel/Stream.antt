-- ===== src/Channel/Stream.antt =====
-- One direction of a channel: what `vc_tx_msg` and `vc_rx_msg` do to the messages under way.
use servant.Prelude.{
  ℕ, ◌+◌, ◌%◌, ◌≤◌, ◌<◌, ◌≡◌, ◌≢◌, ap, ◌∙◌, List, [], ◌∷◌, some, map, length, get_elem?, get_or,
  set, take, drop, All, length-append, length-take, length-drop, length-set, take-append,
  get_or-set_ne, arith,
}
use servant.Channel.{Msg, SharedChannel, fill_msg, clear_msg}
use servant.Channel.Ring.{Rings}
use servant.Channel.Span.{span}

abbrev pub blank : Msg
blank = record { contents = []; size = 0; index = 0; valid = 0 }

-- The bytes that a slot carries.
abbrev pub payload : Msg → List ℕ
payload m = take m.size m.contents

-- A slot that `vc_tx_msg` has filled and `vc_rx_msg` has not emptied.
abbrev pub IsFull : List Msg → ℕ → Type 0
IsFull objs i = (i < length objs) × ((get_or objs i blank).valid ≡ 1)

-- A slot as the region lays it out: an array of 1500 bytes, of which `size` count.
pub record IsSlot (m : Msg) : Type 0 where
  pub room : length m.contents ≡ 1500
  pub sized : m.size ≤ 1500

pub fill_msg-IsSlot :
    (m : Msg) (i : ℕ) (buf : List ℕ) (size : ℕ)
    → size < 1500
    → size ≤ length buf
    → IsSlot m
    → IsSlot (fill_msg m i buf size)
unfolding fill_msg
fill_msg-IsSlot m i buf size h k v = record {
  room = omega (
    arith,
    length-append (take size buf) (drop size m.contents),
    length-take size buf,
    length-drop size m.contents,
    v.room,
  );
  sized = omega arith;
}

pub payload-fill_msg :
    (m : Msg) (i : ℕ) (buf : List ℕ) (size : ℕ)
    → size ≤ length buf
    → payload (fill_msg m i buf size) ≡ take size buf
unfolding fill_msg
payload-fill_msg m i buf size h =
    take-append (take size buf) (drop size m.contents) size (omega (arith, length-take size buf))

pub clear_msg-IsSlot : (m : Msg) → IsSlot m → IsSlot (clear_msg m)
unfolding clear_msg
clear_msg-IsSlot m v = record { room = v.room; sized = omega arith }

-- A write to another slot leaves the full slots full.
pub IsFull-set :
    (objs : List Msg) (i : ℕ) (v : Msg) (is : List ℕ)
    → All (λ j. i ≢ j) is
    → All (IsFull objs) is
    → All (IsFull (set objs i v)) is
IsFull-set objs i v [] h k = tt
IsFull-set objs i v (j ∷ is) h k = (
  (
    omega (arith, length-set objs i v, k.0.0),
    ap (λ (m : Msg). m.valid) (get_or-set_ne objs i j v blank h.0) ∙ k.0.1,
  ),
  IsFull-set objs i v is h.1 k.1,
)

-- The `n` slots from `start` on hold the messages under way to `receiver`, oldest first; its ring
-- `r` holds their indices, and `ring_top` stands behind them.
pub record IsStream (ring : Rings) (ch : SharedChannel ring.R) (receiver : ℕ) (r : ring.R)
    (start n : ℕ) : Type 0 where
  pub slots : All IsSlot ch.shared_objs
  pub count : length ch.shared_objs ≡ ch.count_elements
  pub start_lt : start < ch.count_elements
  pub fits : n < ch.count_elements
  pub ring_fits : ring.slots r ≤ ch.count_elements
  pub top : ch.ring_top ≡ (start + n) % ch.count_elements
  pub ring_of : get_elem? ch.rings receiver ≡ some r
  pub queued : ring.contents r ≡ span ch.count_elements start n
  pub full : All (IsFull ch.shared_objs) (span ch.count_elements start n)

-- The messages under way.
abbrev pub messages : {R : Type 0} → SharedChannel R → ℕ → ℕ → List (List ℕ)
messages ch start n =
    map payload (map (λ j. get_or ch.shared_objs j blank) (span ch.count_elements start n))
