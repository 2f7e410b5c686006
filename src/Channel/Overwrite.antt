-- ===== src/Channel/Overwrite.antt =====
-- What `vc_tx_msg` does when the ring has no room: it has written its slot and moved `ring_top`
-- before it asks the ring.
use servant.Channel.Receive.{filled, rx_msg-full}
use servant.Prelude.Int.{ℤ, minus_one}
use servant.Prelude.{
  length-take, zero, suc, ℕ, List, All, Outcome, ◌<◌, ◌≤◌, length, returns, ◌≡◌, ◌-◌, ◌+◌, [], ◌%◌,
  suc, arith, ap, ◌>>=◌, get_elem?, ◌∙◌, ◌∷◌, some, All-set, All-get, length-set,
  get_elem?-set_self, refl, replicate, take, get_or, set, subst, get_or-set_self, sym,
}
use native.Mathlib.Nat.{mod-add-mod, mod-eq_of_lt, mod-eq-sub-mod}
use servant.Channel.{SharedChannel, VChannel, tx_msg, rx_msg, fill_msg, Msg}
use servant.Channel.Ring.{Rings}
use servant.Channel.Span.{span, length-span}
use servant.Channel.Stream.{blank, IsSlot, fill_msg-IsSlot, IsStream, payload, payload-fill_msg}
use servant.Channel.Send.{sent, tx_msg-eq}

-- A full ring of `n` messages, and `k` calls since that were turned away.
pub record IsClogged (ring : Rings) (ch : SharedChannel ring.R) (receiver : ℕ) (r : ring.R)
    (start n k : ℕ) : Type 0 where
  pub slots : All IsSlot ch.shared_objs
  pub count : length ch.shared_objs ≡ ch.count_elements
  pub start_lt : start < ch.count_elements
  pub top : ch.ring_top ≡ (start + (n + k)) % ch.count_elements
  pub ring_of : get_elem? ch.rings receiver ≡ some r
  pub queued : ring.contents r ≡ span ch.count_elements start n
  pub no_room : ring.slots r ≤ n + 1

-- `k` calls of `vc_tx_msg` with one buffer, and what they returned.
unfoldable pub flood :
    (ring : Rings)
    → VChannel
    → List ℕ
    → ℕ
    → ℕ
    → SharedChannel ring.R
    → Outcome (List ℤ × SharedChannel ring.R)
flood ring vc buf size zero ch = returns ([], ch)
flood ring vc buf size (suc k) ch = do
  out ← tx_msg ring vc buf size ch
  rest ← flood ring vc buf size k out.1
  returns (out.0 ∷ rest.0, rest.1)

module _ (ring : Rings) (vc : VChannel) (buf : List ℕ) (size : ℕ) (h1 : size < 1500)
    (h2 : size ≤ length buf) (h3 : vc.proc_id ≤ 1) where
  -- One call that is turned away.
  turned_away :
      (ch : SharedChannel ring.R) (r : ring.R) (start n k : ℕ)
      → IsClogged ring ch (1 - vc.proc_id) r start n k
      → (tx_msg ring vc buf size ch ≡ returns (minus_one, sent ring vc buf size ch r))
        × IsClogged ring
            (sent ring vc buf size ch r)
            (1 - vc.proc_id)
            (ring.sp_enqueue_burst r ch.ring_top).0
            start
            n
            (k + 1)
  turned_away ch r start n k s = (
    tx_msg-eq ring vc buf size ch r h1 h3 (omega (arith, s.start_lt)) top_lt s.ring_of
        ∙ rw (ring.enqueue_full-zero r ch.ring_top full) refl,
    record {
      slots =
          All-set IsSlot ch.shared_objs ch.ring_top _
            (fill_msg-IsSlot (get_or ch.shared_objs ch.ring_top blank) ch.ring_top buf size h1 h2
              (All-get IsSlot ch.shared_objs ch.ring_top blank top_lt s.slots))
            s.slots;
      count = length-set ch.shared_objs ch.ring_top _ ∙ s.count;
      start_lt = s.start_lt;
      top = rw s.top (
          mod-add-mod (start + (n + k)) ch.count_elements 1
          ∙ ap (λ t. t % ch.count_elements) (omega arith));
      ring_of = get_elem?-set_self ch.rings (1 - vc.proc_id) r _ s.ring_of;
      queued = ring.contents-enqueue_full r ch.ring_top full ∙ s.queued;
      no_room = omega (arith, s.no_room, ring.slots-enqueue r ch.ring_top);
    },
  )
    where
      top_lt : ch.ring_top < length ch.shared_objs
      top_lt = omega (arith, s.top, s.count, s.start_lt)

      full : ring.slots r ≤ length (ring.contents r) + 1
      full = omega (arith, ap length s.queued, length-span ch.count_elements start n, s.no_room)

  -- With the oldest queued slot at `ring_top`, the call that is turned away replaces its message.
  last_call :
      (to : VChannel) (rbuf : List ℕ) (rsize : ℕ) (ch : SharedChannel ring.R) (r : ring.R)
      (start n k : ℕ)
      → to.proc_id ≡ 1 - vc.proc_id
      → rsize ≤ length rbuf
      → suc n + k ≡ ch.count_elements
      → IsClogged ring ch (1 - vc.proc_id) r start (suc n) k
      → (ch' : SharedChannel ring.R) × (rx_msg ring to rbuf rsize (sent ring vc buf size ch r)
          ≡ returns (length (take rsize (take size buf)), filled (take size buf) rbuf rsize, ch'))
  unfolding fill_msg span
  last_call to rbuf rsize ch r start n k ht fits hk s = (
    _,
    rx_msg-full ring to (sent ring vc buf size ch r) (ring.sp_enqueue_burst r ch.ring_top).0 start
        rbuf rsize (take size buf)
        (rw ht (get_elem?-set_self ch.rings (1 - vc.proc_id) r _ s.ring_of))
        (ring.dequeue-cons _ start _ ((turned_away ch r start (suc n) k s).1.queued))
        (
          omega (arith, length-set ch.shared_objs ch.ring_top new, s.count, s.start_lt),
          ap (λ (m : Msg). m.valid) written,
        )
        (subst IsSlot (sym written) (
          fill_msg-IsSlot (get_or ch.shared_objs ch.ring_top blank) ch.ring_top buf size h1 h2 (
            All-get IsSlot ch.shared_objs ch.ring_top blank
              (omega (arith, s.count, at_start, s.start_lt)) s.slots)))
        (ap payload written
          ∙ payload-fill_msg (get_or ch.shared_objs ch.ring_top blank) ch.ring_top buf size h2)
        (omega (arith, fits, length-take rsize (take size buf))),
  )
    where
      at_start : ch.ring_top ≡ start
      at_start = omega (
        arith,
        s.top,
        hk,
        mod-eq-sub-mod {n = start + (suc n + k)} {m = ch.count_elements} (omega arith),
        mod-eq_of_lt {n = start + (suc n + k) - ch.count_elements} {m = ch.count_elements}
            (omega (arith, hk, s.start_lt)),
      )

      new : Msg
      new = fill_msg (get_or ch.shared_objs ch.ring_top blank) ch.ring_top buf size

      written : get_or (set ch.shared_objs ch.ring_top new) start blank ≡ new
      written =
          subst (λ t. get_or (set ch.shared_objs ch.ring_top new) t blank ≡ new) at_start
            (get_or-set_self ch.shared_objs ch.ring_top new blank
              (omega (arith, s.count, at_start, s.start_lt)))

  overwritten :
      (to : VChannel) (rbuf : List ℕ) (rsize : ℕ) (ch : SharedChannel ring.R) (r : ring.R)
      (start n j k : ℕ)
      → to.proc_id ≡ 1 - vc.proc_id
      → rsize ≤ length rbuf
      → suc n + (j + k) ≡ ch.count_elements
      → IsClogged ring ch (1 - vc.proc_id) r start (suc n) j
      → (ch' ch'' : SharedChannel ring.R) × (flood ring vc buf size (suc k) ch
          ≡ returns (replicate (suc k) minus_one, ch'))
        × (rx_msg ring to rbuf rsize ch'
            ≡ returns
                (length (take rsize (take size buf)), filled (take size buf) rbuf rsize, ch''))
  unfolding flood
  overwritten to rbuf rsize ch r start n j zero ht fits hk s =
      let (t0, t1) = turned_away ch r start (suc n) j s in
      let (ch', e) = last_call to rbuf rsize ch r start n j ht fits (omega arith) s in
      (sent ring vc buf size ch r, ch', rw t0, e)
  overwritten to rbuf rsize ch r start n j (suc k) ht fits hk s =
      let (t0, t1) = turned_away ch r start (suc n) j s in
      let (ch', ch'', e, f) =
        overwritten to rbuf rsize (sent ring vc buf size ch r)
          (ring.sp_enqueue_burst r ch.ring_top).0 start n (j + 1) k ht fits (omega arith) t1 in
      (ch', ch'', rw (t0, e), f)

-- A call of `vc_tx_msg` that returns -1 for a full ring is not without effect. From a stream whose
-- ring is full, every further call returns -1; the one that `ring_top` brings back to the oldest
-- message writes over it, and the receiver, with a buffer of its size, then gets the bytes that were
-- refused.
pub refused_overwrites :
    (ring : Rings) (from to : VChannel) (buf rbuf : List ℕ) (size rsize : ℕ)
    (ch : SharedChannel ring.R) (r : ring.R) (start n k : ℕ)
    → size < 1500
    → size ≤ length buf
    → from.proc_id ≤ 1
    → to.proc_id ≡ 1 - from.proc_id
    → rsize ≤ length rbuf
    → IsStream ring ch (1 - from.proc_id) r start (suc n)
    → ring.slots r ≤ suc n + 1
    → suc n + k ≡ ch.count_elements
    → (ch' ch'' : SharedChannel ring.R) × (flood ring from buf size (suc k) ch
        ≡ returns (replicate (suc k) minus_one, ch'))
      × (rx_msg ring to rbuf rsize ch'
          ≡ returns (length (take rsize (take size buf)), filled (take size buf) rbuf rsize, ch''))
refused_overwrites ring from to buf rbuf size rsize ch r start n k h1 h2 h3 ht fits s full hk =
    overwritten ring from buf size h1 h2 h3 to rbuf rsize ch r start n 0 k ht fits (omega arith)
      (record {
        slots = s.slots;
        count = s.count;
        start_lt = s.start_lt;
        top = s.top ∙ ap (λ t. (start + t) % ch.count_elements) (omega arith);
        ring_of = s.ring_of;
        queued = s.queued;
        no_room = full;
      })
