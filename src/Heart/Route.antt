-- ===== src/Heart/Route.antt =====
-- The packets of a batch in `pump_packets` of src/heart.c.
use servant.Prelude.{suc, ℕ, ◌∷◌, [], length, arith, ◌+◌, ◌≤◌, length-drop}
use servant.Heart.{Desc, XskRings, Socket}
use servant.Heart.Actions.{Machine}
use servant.Heart.Moved.{Moved}
use servant.Heart.Packet.{Fate, recycled, transmitted, stuck, fills, sends}

module _ (m : Machine) (r : XskRings) where
  one_place :
      (o : Desc × ℕ) (fate : Fate)
      → length (fills m r (o ∷ []) (fate ∷ [])) + length (sends m r (o ∷ []) (fate ∷ [])) ≤ 1
  unfolding fills sends
  one_place o recycled = omega arith
  one_place o transmitted = omega arith
  one_place o stuck = omega arith

  -- After one packet the rest of the batch is still peeked.
  pub still_peeked :
      (o : Desc × ℕ) (fate : Fate) (xsk xsk' : Socket r) (n : ℕ)
      → Moved r xsk xsk' (fills m r (o ∷ []) (fate ∷ [])) (sends m r (o ∷ []) (fate ∷ []))
      → suc n ≤ length (r.rx_ring.peeked xsk.rx)
      → n ≤ length (r.rx_ring.peeked xsk'.rx)
  still_peeked o fate xsk xsk' n mv h =
      rw
        (
          mv.released,
          length-drop
              (length (fills m r (o ∷ []) (fate ∷ [])) + length (sends m r (o ∷ []) (fate ∷ [])))
              (r.rx_ring.peeked xsk.rx),
        )
        (omega (arith, one_place o fate))
