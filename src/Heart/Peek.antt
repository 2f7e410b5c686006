-- ===== src/Heart/Peek.antt =====
-- What is read from a consumer ring after a peek: `poll_rx_queue`, and the completed frames.
use servant.Prelude.{
  ℕ, List, get_elem?, [], ◌≡◌, suc, take, ◌++◌, zero, drop, ap, length, ◌∷◌, some, ◌∙◌, refl, sym,
  arith, length-take, length-append, ap₂, append_assoc, ◌≤◌, ◌+◌, ◌^◌, ◌<◌, ◌%◌, take_all,
}
use servant.Heart.{Desc, XskRings, Socket, move_completed, read_batch, poll_rx_queue}
use servant.Heart.Publish.{write_all}
use servant.Heart.Xsk.{Consumers, next_index}

get_elem?-middle {ℓ} :
    {A : Type ℓ} (pre : List A) (e : A) (es : List A)
    → get_elem? (pre ++ e ∷ es) (length pre) ≡ some e
get_elem?-middle [] e es = refl
get_elem?-middle (x ∷ pre) e es = get_elem?-middle pre e es

module _ {E : Type 0} (cons : Consumers E) where
  -- A read of `n` entries at consecutive indices.
  unfoldable pub read_all : ℕ → ℕ → cons.C → List E
  read_all zero idx c = []
  read_all (suc n) idx c = cons.read c idx ∷ read_all n (next_index idx) c

  read_all-peeked :
      (es pre : List E) (c : cons.C)
      → cons.peeked c ≡ pre ++ es
      → length (cons.peeked c) ≤ 2 ^ 32
      → read_all (length es) (cons.slot c (length pre)) c ≡ es
  unfolding read_all
  read_all-peeked [] pre c h b = refl
  read_all-peeked (e ∷ es) pre c h b =
      let here : get_elem? (cons.peeked c) (length pre) ≡ some e =
        rw h (get_elem?-middle pre e es) in
      let len : length (pre ++ e ∷ []) ≡ suc (length pre) =
        omega (arith, length-append pre (e ∷ [])) in
      let idx : cons.slot c (length (pre ++ e ∷ [])) ≡ next_index (cons.slot c (length pre)) =
        rw len (cons.slot-suc c (length pre)) in
      ap₂ ◌∷◌ (cons.read-peeked c (length pre) e here b) (
        ap (λ i. read_all (length es) i c) (sym idx)
        ∙ read_all-peeked es (pre ++ e ∷ []) c (h ∙ sym (append_assoc pre (e ∷ []) es)) b)

  -- What is read after a peek is what was pending.
  pub read-peek :
      (c : cons.C) (n : ℕ)
      → length (cons.peeked c) + n ≤ 2 ^ 32
      → let got = cons.peek c n in read_all got.0 got.1 got.2 ≡ take n (cons.pending c)
  read-peek c n b =
      let (p0, p1, p2, p3) = cons.peek-pending c n in
      let got = cons.peek c n in
      let len : got.0 ≡ length (take n (cons.pending c)) =
        p0 ∙ sym (length-take n (cons.pending c)) in
      rw (len, p1)
        (read_all-peeked (take n (cons.pending c)) (cons.peeked c) got.2 p2 (
          omega (
            arith,
            ap length p2,
            length-append (cons.peeked c) (take n (cons.pending c)),
            length-take n (cons.pending c),
          )))

module _ (r : XskRings) where
  read_batch-read_all :
      (n idx : ℕ) (rx : r.rx_ring.C) → read_batch r n idx rx ≡ read_all r.rx_ring n idx rx
  unfolding read_batch read_all
  read_batch-read_all zero idx rx = refl
  read_batch-read_all (suc n) idx rx =
      ap (λ l. r.rx_ring.read rx idx ∷ l) (read_batch-read_all n (next_index idx) rx)

  pub move_completed-write_all :
      (n idx_cq idx_fq : ℕ) (cq : r.comp_ring.C) (fq : r.fill_ring.P)
      → move_completed r n idx_cq idx_fq cq fq
        ≡ write_all r.fill_ring (read_all r.comp_ring n idx_cq cq) idx_fq fq
  unfolding move_completed read_all write_all
  move_completed-write_all zero idx_cq idx_fq cq fq = refl
  move_completed-write_all (suc n) idx_cq idx_fq cq fq =
      move_completed-write_all n (next_index idx_cq) (next_index idx_fq) cq _

  -- `poll_rx_queue` of fewer than 2 ^ 16 gives the first packets that are pending, at most `cnt`, in
  -- order, and leaves them in the ring, peeked.
  pub poll_rx_queue_lem :
      (cnt : ℕ) (xsk : Socket r)
      → cnt < 2 ^ 16
      → length (r.rx_ring.peeked xsk.rx) + cnt ≤ 2 ^ 32
      → let out = poll_rx_queue r cnt xsk in
        (out.0 ≡ take cnt (r.rx_ring.pending xsk.rx))
        × (r.rx_ring.peeked out.1.rx ≡ r.rx_ring.peeked xsk.rx ++ out.0)
        × (r.rx_ring.pending out.1.rx ≡ drop cnt (r.rx_ring.pending xsk.rx))
  unfolding poll_rx_queue
  poll_rx_queue_lem cnt xsk small b =
      let (p0, p1, p2, p3) = r.rx_ring.peek-pending xsk.rx cnt in
      let all = read_batch-read_all _ _ _ ∙ read-peek r.rx_ring xsk.rx cnt b in
      let got = r.rx_ring.peek xsk.rx cnt in
      let fits : got.0 % 2 ^ 16 ≡ got.0 = omega (arith, p0) in
      let read =
        ap₂ take fits all
        ∙ take_all (take cnt (r.rx_ring.pending xsk.rx)) got.0
            (omega (arith, p0, length-take cnt (r.rx_ring.pending xsk.rx))) in
      (read, p2 ∙ ap (λ l. r.rx_ring.peeked xsk.rx ++ l) (sym read), p3)

  -- Where 2 ^ 16 packets or more are pending and asked for, as many are peeked as `cnt` says, but only the
  -- last 16 bits of their number are returned: the caller gets that many of the first, and 2 ^ 16 of the
  -- peeked packets at least are not given to it.
  pub poll_rx_queue-cut :
      (cnt : ℕ) (xsk : Socket r)
      → 2 ^ 16 ≤ cnt
      → 2 ^ 16 ≤ length (r.rx_ring.pending xsk.rx)
      → length (r.rx_ring.peeked xsk.rx) + cnt ≤ 2 ^ 32
      → let out = poll_rx_queue r cnt xsk in
        let packets = take cnt (r.rx_ring.pending xsk.rx) in
        (out.0 ≡ take (length packets % 2 ^ 16) packets)
        × (r.rx_ring.peeked out.1.rx ≡ r.rx_ring.peeked xsk.rx ++ packets)
        × (r.rx_ring.pending out.1.rx ≡ drop cnt (r.rx_ring.pending xsk.rx))
        × (length out.0 + 2 ^ 16 ≤ length packets)
  unfolding poll_rx_queue
  poll_rx_queue-cut cnt xsk many waiting b =
      let (p0, p1, p2, p3) = r.rx_ring.peek-pending xsk.rx cnt in
      let all = read_batch-read_all _ _ _ ∙ read-peek r.rx_ring xsk.rx cnt b in
      let packets : List Desc = take cnt (r.rx_ring.pending xsk.rx) in
      let count = length-take cnt (r.rx_ring.pending xsk.rx) in
      let read = ap₂ take (ap (λ k. k % 2 ^ 16) (p0 ∙ sym count)) all in
      (
        read,
        p2,
        p3,
        omega (arith, ap length read, length-take (length packets % 2 ^ 16) packets, count),
      )
