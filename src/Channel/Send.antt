-- ===== src/Channel/Send.antt =====
-- `vc_tx_msg` on a channel that is in order.
use mathlib.Core.List.{map-append}
use native.Mathlib.Nat.{mod-add-mod, add_assoc}
use native.Mathlib.Numerals.{add-one}
use servant.Channel.Span.{span, length-span, span-snoc, span-ne}
use servant.Prelude.Int.{minus_one, pos}
use servant.Prelude.{
  refl, ◌≡◌, ◌<◌, get_elem?, ◌≤◌, ◌+◌, ◌-◌, ◌%◌, if◌then◌else◌, get_or, ltb, ◌^◌, lt→ltb, le→leb,
  get_elem?-some, List, ℕ, some, length, set, returns, ◌++◌, take, ◌∷◌, [], ap, arith, All-set, All,
  All-get, map, ◌≢◌, ◌∙◌, subst, sym, ap₂, length-set, map-get_or-set, All-append,
  get_elem?-set_self, get_or-set_self, aborted, ge→ltb,
}
use servant.Channel.Ring.{Rings}
use servant.Channel.Stream.{
  blank, IsStream, messages, payload, IsFull, IsSlot, IsFull-set, fill_msg-IsSlot, payload-fill_msg,
}
use servant.Channel.{SharedChannel, VChannel, fill_msg, put_index, tx_msg, Msg}

module _ (ring : Rings) (vc : VChannel) (buf : List ℕ) (size : ℕ) (ch : SharedChannel ring.R) where
  -- The channel as `vc_tx_msg` leaves it when the other process reads from `r`.
  abbrev pub sent : ring.R → SharedChannel ring.R
  sent r = record ch {
    ring_top = (ch.ring_top + 1) % ch.count_elements;
    shared_objs =
        set ch.shared_objs ch.ring_top
          (fill_msg (get_or ch.shared_objs ch.ring_top blank) ch.ring_top buf size);
    rings = set ch.rings (1 - vc.proc_id) (ring.sp_enqueue_burst r ch.ring_top).0;
  }

  pub put_index-some :
      (i : ℕ) (r : ring.R)
      → get_elem? ch.rings i ≡ some r
      → put_index ring ch.rings i ch.ring_top
        ≡ returns (
          set ch.rings i (ring.sp_enqueue_burst r ch.ring_top).0,
          (ring.sp_enqueue_burst r ch.ring_top).1,
        )
  unfolding put_index
  put_index-some i r h = rw h

  -- Whatever the ring answers, the slot at `ring_top` is written and `ring_top` moves on.
  pub tx_msg-eq :
      (r : ring.R)
      → size < 1500
      → vc.proc_id ≤ 1
      → 0 < ch.count_elements
      → ch.ring_top < length ch.shared_objs
      → get_elem? ch.rings (1 - vc.proc_id) ≡ some r
      → tx_msg ring vc buf size ch
        ≡ returns (
          if ltb ((ring.sp_enqueue_burst r ch.ring_top).1 % 2 ^ 31) 1 then minus_one else pos 0,
          sent r,
        )
  unfolding tx_msg
  tx_msg-eq r h1 h2 h3 h4 h5 = rw (
    lt→ltb size 1500 h1,
    le→leb vc.proc_id 1 h2,
    lt→ltb 0 ch.count_elements h3,
    get_elem?-some ch.shared_objs ch.ring_top blank h4,
    put_index-some (1 - vc.proc_id) r h5,
  )

-- The steps of the proof below.
module _ (ring : Rings) (vc : VChannel) (buf : List ℕ) (size : ℕ) (ch : SharedChannel ring.R)
    (r : ring.R) (start n : ℕ) (h1 : size < 1500) (h2 : size ≤ length buf)
    (h4 : n + 1 < ring.slots r) (s : IsStream ring ch (1 - vc.proc_id) r start n) where
  top_lt : ch.ring_top < length ch.shared_objs
  top_lt = omega (arith, s.top, s.count, s.start_lt)

  span_next :
      span ch.count_elements start (n + 1) ≡ span ch.count_elements start n ++ ch.ring_top ∷ []
  span_next =
      ap (span ch.count_elements start) (add-one n)
      ∙ span-snoc ch.count_elements start n s.start_lt
      ∙ ap (λ k. span ch.count_elements start n ++ k ∷ []) (sym s.top)

  others : All (λ j. ch.ring_top ≢ j) (span ch.count_elements start n)
  others = span-ne ch.count_elements start n ch.ring_top s.start_lt s.fits s.top

  room : length (ring.contents r) + 1 < ring.slots r
  room = omega (arith, ap length s.queued, length-span ch.count_elements start n, h4)

  new_slot : Msg
  new_slot = fill_msg (get_or ch.shared_objs ch.ring_top blank) ch.ring_top buf size

  sent-IsFull :
      All (IsFull (set ch.shared_objs ch.ring_top new_slot)) (span ch.count_elements start (n + 1))
  unfolding new_slot fill_msg
  sent-IsFull = subst (All (IsFull (set ch.shared_objs ch.ring_top new_slot))) (sym span_next) (
      All-append (IsFull (set ch.shared_objs ch.ring_top new_slot)) (span ch.count_elements start n)
        (ch.ring_top ∷ []) (IsFull-set ch.shared_objs ch.ring_top new_slot _ others s.full)
        (
          (
            omega (arith, length-set ch.shared_objs ch.ring_top new_slot, top_lt),
            ap (λ (m : Msg). m.valid)
                (get_or-set_self ch.shared_objs ch.ring_top new_slot blank top_lt),
          ),
          tt,
        ))

  sent-IsStream :
      IsStream ring
        (sent ring vc buf size ch r)
        (1 - vc.proc_id)
        (ring.sp_enqueue_burst r ch.ring_top).0
        start
        (n + 1)
  unfolding new_slot
  sent-IsStream = record {
    slots =
        All-set IsSlot ch.shared_objs ch.ring_top new_slot
          (fill_msg-IsSlot _ ch.ring_top buf size h1 h2
            (All-get IsSlot ch.shared_objs ch.ring_top blank top_lt s.slots))
          s.slots;
    count = length-set ch.shared_objs ch.ring_top new_slot ∙ s.count;
    start_lt = s.start_lt;
    fits = omega (arith, s.ring_fits, h4);
    ring_fits = omega (arith, s.ring_fits, ring.slots-enqueue r ch.ring_top);
    top = rw s.top (
        mod-add-mod (start + n) ch.count_elements 1
        ∙ ap (λ k. k % ch.count_elements) (add_assoc start n 1));
    ring_of = get_elem?-set_self ch.rings (1 - vc.proc_id) r _ s.ring_of;
    queued =
        ring.contents-enqueue r ch.ring_top room
        ∙ ap (λ l. l ++ ch.ring_top ∷ []) s.queued
        ∙ sym span_next;
    full = sent-IsFull;
  }

  messages-sent :
      messages (sent ring vc buf size ch r) start (n + 1)
      ≡ messages ch start n ++ take size buf ∷ []
  unfolding new_slot
  messages-sent =
      ap (λ l. map payload (map (λ j. get_or (set ch.shared_objs ch.ring_top new_slot) j blank) l))
        span_next
      ∙ rw (map-append, map-append)
          (ap₂ (λ a b. map payload a ++ b ∷ [])
            (map-get_or-set ch.shared_objs ch.ring_top new_slot blank _ others)
            (ap payload (get_or-set_self ch.shared_objs ch.ring_top new_slot blank top_lt)
              ∙ payload-fill_msg _ ch.ring_top buf size h2))

-- From a stream with room in the ring, `vc_tx_msg` of the other process succeeds: it appends the
-- first `size` bytes of `buf` as the newest message, keeps those under way, and the channel stays a
-- stream, one message longer.
pub tx_msg-IsStream :
    (ring : Rings) (vc : VChannel) (buf : List ℕ) (size : ℕ) (ch : SharedChannel ring.R)
    (r : ring.R) (start n : ℕ)
    → size < 1500
    → size ≤ length buf
    → vc.proc_id ≤ 1
    → n + 1 < ring.slots r
    → IsStream ring ch (1 - vc.proc_id) r start n
    → (tx_msg ring vc buf size ch ≡ returns (pos 0, sent ring vc buf size ch r))
      × IsStream ring
          (sent ring vc buf size ch r)
          (1 - vc.proc_id)
          (ring.sp_enqueue_burst r ch.ring_top).0
          start
          (n + 1)
      × (messages (sent ring vc buf size ch r) start (n + 1)
          ≡ messages ch start n ++ take size buf ∷ [])
tx_msg-IsStream ring vc buf size ch r start n h1 h2 h3 h4 s = (
  tx_msg-eq ring vc buf size ch r h1 h3 (omega (arith, s.start_lt))
        (top_lt ring vc buf size ch r start n h1 h2 h4 s) s.ring_of
      ∙ rw (ring.enqueue-one r ch.ring_top (room ring vc buf size ch r start n h1 h2 h4 s)) refl,
  sent-IsStream ring vc buf size ch r start n h1 h2 h4 s,
  messages-sent ring vc buf size ch r start n h1 h2 h4 s,
)

-- A message that has no room in a slot ends the process.
pub tx_msg_too_long :
    (ring : Rings) (vc : VChannel) (buf : List ℕ) (size : ℕ) (ch : SharedChannel ring.R)
    → 1500 ≤ size
    → tx_msg ring vc buf size ch ≡ aborted
unfolding tx_msg
tx_msg_too_long ring vc buf size ch h = rw (ge→ltb size 1500 h) refl
