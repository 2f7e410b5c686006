-- ===== src/Heart/Batch.antt =====
-- `drop` and `tx` of src/heart.c: all of a batch, or nothing.
use servant.Prelude.{
  List, ◌≡◌, ℕ, [], length, ◌<◌, ◌+◌, ◌^◌, ◌≤◌, ◌%◌, returns, map, drop, arith, ◌⊎◌, dec_lt, sym,
  length-map, eq→==, inl, append-nil, ◌∙◌, ap, ◌==◌, false, ne→==, inr, refl,
}
use servant.Heart.{Desc, XskRings, Socket, drop_batch, tx_batch}
use servant.Heart.Publish.{
  publish, publish-capacity, refused, write_all, fill_all-write_all, send_all-write_all,
}
use servant.Heart.Moved.{unchanged, IsIdle, Moved, frame_of, frame_desc}

module _ (r : XskRings) (batch : List Desc) (xsk : Socket r) (o : IsIdle r xsk)
    (h : length batch ≤ length (r.rx_ring.peeked xsk.rx)) where
  -- `drop` moves the whole batch to the fill ring, or, without room there, nothing.
  pub drop_batch-all_or_none :
      (n : ℕ) × (xsk' : Socket r) × (drop_batch r batch xsk ≡ returns (n, xsk'))
      × (((n ≡ length batch) × Moved r xsk xsk' (map (frame_of r) batch) [])
          ⊎ ((n ≡ 0) × (r.fill_ring.free xsk.fq < length batch) × Moved r xsk xsk' [] []))
  unfolding drop_batch
  drop_batch-all_or_none = elim (dec_lt (r.fill_ring.free xsk.fq) (length batch)) [
    | no room ↦
        let n = length batch in
        let got = r.fill_ring.reserve xsk.fq n in
        let (p0, p1, p2) =
          publish r.fill_ring xsk.fq (map (frame_of r) batch) n o.fill_idle
            (sym (length-map (frame_of r) batch)) (omega arith) in
        let xsk' : Socket r = record xsk {
          fq = r.fill_ring.submit (write_all r.fill_ring (map (frame_of r) batch) got.1 got.2) n;
          rx = r.rx_ring.release xsk.rx n;
        } in
        let (l0, l1) = r.rx_ring.release-peeked xsk.rx n h in
        (
          n,
          xsk',
          rw (p0, fill_all-write_all r batch got.1 got.2, eq→== n n refl) refl,
          inl (
            refl,
            record {
              idle = record { fill_idle = p2; tx_idle = o.tx_idle; small = o.small };
              filled = p1;
              queued = sym (append-nil _);
              cq_same = refl;
              counted = unchanged xsk.outstanding_tx o.small;
              released =
                  l0
                  ∙ ap (λ k. drop k (r.rx_ring.peeked xsk.rx))
                      (omega (arith, length-map (frame_of r) batch));
              size_same = publish-capacity r.fill_ring xsk.fq (map (frame_of r) batch) n got.1;
              pending_same = l1;
              tx_size_same = refl;
            },
          ),
        )
    | yes full ↦
        let n = length batch in
        let (f0, f1, f2) = refused r.fill_ring xsk.fq n o.fill_idle full in
        let z : 0 == n ≡ false = ne→== 0 n (omega arith) in
        (
          0,
          record xsk { fq = (r.fill_ring.reserve xsk.fq n).2 },
          rw (f0, z) refl,
          inr (
            refl,
            full,
            record {
              idle = record { fill_idle = f2; tx_idle = o.tx_idle; small = o.small };
              filled = f1 ∙ sym (append-nil _);
              queued = sym (append-nil _);
              cq_same = refl;
              counted = unchanged xsk.outstanding_tx o.small;
              released = refl;
              size_same = r.fill_ring.capacity-reserve xsk.fq n;
              pending_same = refl;
              tx_size_same = refl;
            },
          ),
        )
  ]

  -- `tx` moves the whole batch to the transmit ring and counts it, or, without room there, nothing.
  pub tx_batch-all_or_none :
      (n : ℕ) × (xsk' : Socket r) × (tx_batch r batch xsk ≡ returns (n, xsk'))
      × (((n ≡ length batch) × Moved r xsk xsk' [] (map (frame_desc r) batch))
          ⊎ ((n ≡ 0) × (r.tx_ring.free xsk.tx < length batch) × Moved r xsk xsk' [] []))
  unfolding tx_batch
  tx_batch-all_or_none = elim (dec_lt (r.tx_ring.free xsk.tx) (length batch)) [
    | no room ↦
        let n = length batch in
        let got = r.tx_ring.reserve xsk.tx n in
        let (p0, p1, p2) =
          publish r.tx_ring xsk.tx (map (frame_desc r) batch) n o.tx_idle
            (sym (length-map (frame_desc r) batch)) (omega arith) in
        let xsk' : Socket r = record xsk {
          tx = r.tx_ring.submit (write_all r.tx_ring (map (frame_desc r) batch) got.1 got.2) n;
          rx = r.rx_ring.release xsk.rx n;
          outstanding_tx = (xsk.outstanding_tx + n) % 2 ^ 32;
        } in
        let (l0, l1) = r.rx_ring.release-peeked xsk.rx n h in
        (
          n,
          xsk',
          rw (p0, send_all-write_all r batch got.1 got.2, eq→== n n refl) refl,
          inl (
            refl,
            record {
              idle = record { fill_idle = o.fill_idle; tx_idle = p2; small = omega arith };
              filled = sym (append-nil _);
              queued = p1;
              cq_same = refl;
              counted =
                  ap (λ k. (xsk.outstanding_tx + k) % 2 ^ 32)
                    (sym (length-map (frame_desc r) batch));
              released =
                  l0
                  ∙ ap (λ k. drop k (r.rx_ring.peeked xsk.rx))
                      (omega (arith, length-map (frame_desc r) batch));
              size_same = refl;
              pending_same = l1;
              tx_size_same = publish-capacity r.tx_ring xsk.tx (map (frame_desc r) batch) n got.1;
            },
          ),
        )
    | yes full ↦
        let n = length batch in
        let (f0, f1, f2) = refused r.tx_ring xsk.tx n o.tx_idle full in
        let z : 0 == n ≡ false = ne→== 0 n (omega arith) in
        (
          0,
          record xsk { tx = (r.tx_ring.reserve xsk.tx n).2 },
          rw (f0, z) refl,
          inr (
            refl,
            full,
            record {
              idle = record { fill_idle = o.fill_idle; tx_idle = f2; small = o.small };
              filled = sym (append-nil _);
              queued = f1 ∙ sym (append-nil _);
              cq_same = refl;
              counted = unchanged xsk.outstanding_tx o.small;
              released = refl;
              size_same = refl;
              pending_same = refl;
              tx_size_same = r.tx_ring.capacity-reserve xsk.tx n;
            },
          ),
        )
  ]
