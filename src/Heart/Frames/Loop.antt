-- ===== src/Heart/Frames/Loop.antt =====
-- The loop of `pump_packets` in src/heart.c, with what the kernel does between its iterations: no frame
-- is lost, none is there twice, and the fill ring never overflows.
use servant.Prelude.{ℕ, List, [], ◌∷◌, Bool, returns, ◌+◌, ◌≡◌}
use servant.Heart.{XskRings, Socket, Config, kick_if}
use servant.Heart.Actions.{Machine, World, Round, pump_once}
use servant.Heart.Moved.{IsIdle}
use servant.Heart.Frames.{held}

module _ (m : Machine) (r : XskRings) (chunk : ℕ → ℕ) (config : Config) where
  -- What the kernel holds, by how many of its frames pass a test.
  abbrev pub Inside : Type 0
  Inside = (ℕ → Bool) → ℕ

  -- The kernel moves frames between the rings and itself, and its `sendto` does not fail. It leaves what
  -- is peeked and reserved, and the size of the fill ring.
  pub record IsKernelStep (round : Round m r) (xsk : Socket r) (inside inside' : Inside)
      : Type 0 where
    pub kicked : kick_if config.copy_mode round.kick ≡ returns tt
    pub idle : IsIdle r (round.kernel xsk)
    pub comp_none : r.comp_ring.peeked (round.kernel xsk).cq ≡ []
    pub rx_none : r.rx_ring.peeked (round.kernel xsk).rx ≡ []
    pub size_same : r.fill_ring.capacity (round.kernel xsk).fq ≡ r.fill_ring.capacity xsk.fq
    pub conserved :
        (p : ℕ → Bool)
        → held r chunk p (round.kernel xsk) + inside' p ≡ held r chunk p xsk + inside p

  -- So it does before each iteration of the loop.
  unfoldable pub AreKernelSteps : List (Round m r) → World m → Socket r → Inside → Type 0
  AreKernelSteps [] w xsk inside = Unit
  AreKernelSteps (round ∷ rounds) w xsk inside =
      (inside' : Inside) × IsKernelStep round xsk inside inside'
      × ((w' : World m) (xsk' : Socket r)
          → pump_once m r config round w xsk ≡ returns (w', xsk')
          → AreKernelSteps rounds w' xsk' inside')
