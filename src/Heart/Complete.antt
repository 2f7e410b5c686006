-- ===== src/Heart/Complete.antt =====
-- `complete_tx` of src/heart.c: the frames whose transmission is over.
use servant.Prelude.{
  ◌<◌, ℕ, min, ◌^◌, ◌≡◌, returns, [], length, ◌==◌, ◌≤◌, if◌then◌else◌, List, drop, false, ◌++◌,
  take, ltb, ◌+◌, ne→==, arith, true, lt→ltb, refl, ◌∙◌, ap, sym, length-take, ◌-◌, ◌%◌,
  length-append, eq→==, length-drop,
}
use servant.Heart.{
  XskRings, Socket, Config, Sent, kick_if, put_back, refill, recycle, complete_tx, move_completed,
}
use servant.Heart.Publish.{publish, publish-capacity, refused, write_all}
use servant.Heart.Peek.{read_all, read-peek, move_completed-write_all}

-- The number of completions that are asked for.
abbrev pub asked : ℕ → Config → ℕ
asked outstanding config = min outstanding config.batch_size

module _ (r : XskRings) (config : Config) (kick : Sent) (xsk : Socket r)
    (some_out : 0 < xsk.outstanding_tx) (small : xsk.outstanding_tx < 2 ^ 32)
    (kicked : kick_if config.copy_mode kick ≡ returns tt) (idle : r.fill_ring.window xsk.fq ≡ [])
    (bound : length (r.comp_ring.peeked xsk.cq) + asked xsk.outstanding_tx config ≤ 2 ^ 32)
    (given : 0 < min (asked xsk.outstanding_tx config) (length (r.comp_ring.pending xsk.cq))) where
  abbrev done : List ℕ
  done = take (asked xsk.outstanding_tx config) (r.comp_ring.pending xsk.cq)

  ndescs :
      (if ltb config.batch_size xsk.outstanding_tx then config.batch_size else xsk.outstanding_tx)
      ≡ asked xsk.outstanding_tx config
  ndescs = ground arith

  abbrev got : ℕ × ℕ × r.comp_ring.C
  got = r.comp_ring.peek xsk.cq (asked xsk.outstanding_tx config)

  completed : complete_tx r config kick xsk ≡ refill r xsk got.2 got.0 got.1
  unfolding complete_tx recycle
  completed =
      let (p0, p1, p2, p3) = r.comp_ring.peek-pending xsk.cq (asked xsk.outstanding_tx config) in
      let z : xsk.outstanding_tx == 0 ≡ false = ne→== xsk.outstanding_tx 0 (omega arith) in
      let pos_got : ltb 0 got.0 ≡ true = lt→ltb 0 got.0 (omega arith) in
      rw (z, kicked) (ap (recycle r xsk) ndescs ∙ rw pos_got refl)

  -- With room in the fill ring for the frames whose transmission is over, at most `batch_size`, they
  -- go there, in order, and `outstanding_tx` no longer counts them. Of the entries of the completion
  -- ring as many are released; entries that an earlier call peeked and kept make these be the oldest,
  -- and as many are kept as before. The other rings and the size of the fill ring stay.
  pub complete_tx-recycles :
      length done ≤ r.fill_ring.free xsk.fq
      → (xsk' : Socket r) × (complete_tx r config kick xsk ≡ returns (length done, xsk'))
        × (r.fill_ring.queue xsk'.fq ≡ r.fill_ring.queue xsk.fq ++ done)
        × (r.fill_ring.window xsk'.fq ≡ [])
        × (xsk'.outstanding_tx + length done ≡ xsk.outstanding_tx)
        × (r.comp_ring.pending xsk'.cq
            ≡ drop (asked xsk.outstanding_tx config) (r.comp_ring.pending xsk.cq))
        × (length (r.comp_ring.peeked xsk'.cq) ≡ length (r.comp_ring.peeked xsk.cq))
        × (xsk'.tx ≡ xsk.tx)
        × (xsk'.rx ≡ xsk.rx)
        × (r.fill_ring.capacity xsk'.fq ≡ r.fill_ring.capacity xsk.fq)
  unfolding refill put_back
  complete_tx-recycles room =
      let (p0, p1, p2, p3) = r.comp_ring.peek-pending xsk.cq (asked xsk.outstanding_tx config) in
      let n = length done in
      let len : got.0 ≡ n = p0 ∙ sym (length-take _ (r.comp_ring.pending xsk.cq)) in
      let res = r.fill_ring.reserve xsk.fq n in
      let (q0, q1, q2) = publish r.fill_ring xsk.fq done n idle refl room in
      let nz : n == 0 ≡ false = ne→== n 0 (omega (arith, given, p0, len)) in
      let xsk' : Socket r = record xsk {
        cq = r.comp_ring.release got.2 n;
        fq = r.fill_ring.submit (move_completed r n got.1 res.1 got.2 res.2) n;
        outstanding_tx = (xsk.outstanding_tx + 2 ^ 32 - n) % 2 ^ 32;
      } in
      let whole : length (r.comp_ring.peeked got.2) ≡ length (r.comp_ring.peeked xsk.cq) + n =
        ap length p2 ∙ length-append (r.comp_ring.peeked xsk.cq) done in
      let (s0, s1) = r.comp_ring.release-peeked got.2 n (omega (arith, whole)) in
      let moved : move_completed r n got.1 res.1 got.2 res.2
          ≡ write_all r.fill_ring done res.1 res.2 =
        move_completed-write_all r n got.1 res.1 got.2 res.2
        ∙ ap (λ es. write_all r.fill_ring es res.1 res.2)
            (ap (λ k. read_all r.comp_ring k got.1 got.2) (sym len)
              ∙ read-peek r.comp_ring xsk.cq (asked xsk.outstanding_tx config) bound) in
      let few : n ≤ xsk.outstanding_tx = omega (arith, p0, len) in
      (
        xsk',
        completed ∙ rw (len, q0, nz, eq→== n n refl) refl,
        rw moved q1,
        rw moved q2,
        omega arith,
        s1 ∙ p3,
        ap length s0 ∙ length-drop n _ ∙ omega (arith, whole),
        refl,
        refl,
        rw moved (publish-capacity r.fill_ring xsk.fq done n res.1),
      )

  -- Without room for all of them none goes to the fill ring, and yet they are peeked: the function
  -- returns 0 and neither releases nor cancels the entries, which no later peek gives again.
  pub complete_tx-loses :
      r.fill_ring.free xsk.fq < length done
      → (xsk' : Socket r) × (complete_tx r config kick xsk ≡ returns (0, xsk'))
        × (r.fill_ring.queue xsk'.fq ≡ r.fill_ring.queue xsk.fq)
        × (xsk'.outstanding_tx ≡ xsk.outstanding_tx)
        × (r.comp_ring.pending xsk'.cq
            ≡ drop (asked xsk.outstanding_tx config) (r.comp_ring.pending xsk.cq))
        × (r.comp_ring.peeked xsk'.cq ≡ r.comp_ring.peeked xsk.cq ++ done)
  unfolding refill
  complete_tx-loses full =
      let (p0, p1, p2, p3) = r.comp_ring.peek-pending xsk.cq (asked xsk.outstanding_tx config) in
      let n = length done in
      let len : got.0 ≡ n = p0 ∙ sym (length-take _ (r.comp_ring.pending xsk.cq)) in
      let (q0, q1, q2) = refused r.fill_ring xsk.fq n idle full in
      (
        record xsk { cq = got.2; fq = (r.fill_ring.reserve xsk.fq n).2 },
        completed ∙ rw (len, q0) refl,
        q1,
        refl,
        p3,
        p2,
      )
