-- ===== src/Heart/Frames/Packets.antt =====
-- A batch of `pump_packets` in src/heart.c loses no frame.
use servant.Prelude.{
  ℕ, Bool, List, [], ◌∷◌, if◌then◌else◌, returns, ◌<◌, ◌≤◌, ◌≡◌, refl, ap, ◌∙◌, length, take, drop,
  arith,
}
use servant.Heart.{Desc, XskRings, Socket, Config}
use servant.Heart.Actions.{Machine, World, run_program, pump_batch}
use servant.Heart.Moved.{IsIdle, Moved}
use servant.Heart.Packet.{
  Fate, recycled, transmitted, stuck, fills, sends, IsPassable, HadNoRoom, apply_action-Ends,
}
use servant.Heart.Frames.{
  countp, countp-true, held, held-Moved, any_frame, of_addr, of_received, StaysInFrame,
}

module _ (m : Machine) (r : XskRings) (chunk : ℕ → ℕ) where
  -- With a packet received, a fill ring that is large enough has room.
  has_room :
      (xsk : Socket r)
      → 0 < length (r.rx_ring.peeked xsk.rx)
      → held r chunk any_frame xsk ≤ r.fill_ring.capacity xsk.fq
      → length (r.fill_ring.queue xsk.fq) < r.fill_ring.capacity xsk.fq
  unfolding held
  has_room xsk h roomy =
      let q : countp (of_addr r chunk any_frame) (r.fill_ring.queue xsk.fq)
          ≡ length (r.fill_ring.queue xsk.fq) =
        countp-true (r.fill_ring.queue xsk.fq) in
      let k : countp (of_received r chunk any_frame) (r.rx_ring.peeked xsk.rx)
          ≡ length (r.rx_ring.peeked xsk.rx) =
        countp-true (r.rx_ring.peeked xsk.rx) in
      omega arith

  module _ (stays : StaysInFrame m r chunk) (d : Desc) (ds : List Desc) (w : World m)
      (xsk xsk' : Socket r) (e : r.rx_ring.peeked xsk.rx ≡ d ∷ ds)
      (roomy : held r chunk any_frame xsk ≤ r.fill_ring.capacity xsk.fq) where
    abbrev result : Desc × ℕ
    result = let o = run_program m r d w in (o.0, o.1)

    one_frame :
        (p : ℕ → Bool)
        → (if p (chunk (r.extract_addr result.0.addr)) then 1 else 0)
          ≡ countp (of_received r chunk p) (take 1 (r.rx_ring.peeked xsk.rx))
    unfolding run_program
    one_frame p =
        let same = ap {B = ℕ} (λ c. if p c then 1 else 0) (stays d w.memory) in
        omega (arith, ap (λ l. countp (of_received r chunk p) (take 1 l)) e)

    -- One packet that goes to a ring takes its frame with it.
    one_packet :
        (fate : Fate)
        → Moved r xsk xsk'
            (fills m r (result ∷ []) (fate ∷ []))
            (sends m r (result ∷ []) (fate ∷ []))
        → HadNoRoom m r fate xsk
        → (r.rx_ring.peeked xsk'.rx ≡ ds)
          × ((p : ℕ → Bool) → held r chunk p xsk' ≡ held r chunk p xsk)
    unfolding fills sends
    one_packet recycled mv full = (
      mv.released ∙ ap (drop 1) e,
      λ p. held-Moved r chunk p xsk xsk' _ _ mv (omega (arith, one_frame p)),
    )
    one_packet transmitted mv full = (
      mv.released ∙ ap (drop 1) e,
      λ p. held-Moved r chunk p xsk xsk' _ _ mv (omega (arith, one_frame p)),
    )
    one_packet stuck mv full =
        absurd (omega (arith, has_room xsk (omega (arith, ap length e)) roomy))

  -- A batch of the packets that were peeked: all of them leave the receive ring, and every frame is
  -- held as often as before.
  pub pump_batch-keeps :
      (config : Config)
      → StaysInFrame m r chunk
      → IsPassable m r config
      → (ds : List Desc) (w : World m) (xsk : Socket r) → IsIdle r xsk
      → r.rx_ring.peeked xsk.rx ≡ ds
      → held r chunk any_frame xsk ≤ r.fill_ring.capacity xsk.fq
      → (w' : World m) × (xsk' : Socket r) × (pump_batch m r config ds w xsk ≡ returns (w', xsk'))
        × IsIdle r xsk'
        × (r.rx_ring.peeked xsk'.rx ≡ [])
        × (xsk'.cq ≡ xsk.cq)
        × (r.fill_ring.capacity xsk'.fq ≡ r.fill_ring.capacity xsk.fq)
        × ((p : ℕ → Bool) → held r chunk p xsk' ≡ held r chunk p xsk)
  unfolding pump_batch
  pump_batch-keeps config stays passable [] w xsk idle e roomy =
      (w, xsk, refl, idle, e, refl, refl, λ p. refl)
  pump_batch-keeps config stays passable (d ∷ ds) w xsk idle e roomy =
      let o = run_program m r d w in
      let (w1, xsk1, e1, mem, (fate, _, mv, full, _)) =
        apply_action-Ends m r config o.0 o.1 o.2 xsk idle (omega (arith, ap length e))
          (passable d w) in
      let (rest, same) = one_packet stays d ds w xsk xsk1 e roomy fate mv full in
      let (w2, xsk2, e2, idle2, none2, cq2, size2, held2) =
        pump_batch-keeps config stays passable ds w1 xsk1 mv.idle rest
          (omega (arith, same any_frame, mv.size_same)) in
      (
        w2,
        xsk2,
        rw (e1, e2) refl,
        idle2,
        none2,
        cq2 ∙ mv.cq_same,
        size2 ∙ mv.size_same,
        λ p. held2 p ∙ same p,
      )
