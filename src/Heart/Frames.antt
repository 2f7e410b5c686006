-- ===== src/Heart/Frames.antt =====
-- Where the frames of a socket are while the loop of src/heart.c runs: in the fill ring, received, in
-- the transmit ring, or completed.
pub mod Packets
pub mod Round
pub mod Loop
mod Tests
use servant.Prelude.{
  ℕ, zero, suc, List, [], ◌∷◌, ◌++◌, Bool, true, if◌then◌else◌, ◌+◌, ◌≤◌, ◌≡◌, refl, ap, ◌∙◌,
  length, take, drop, arith,
}
use servant.Heart.{Desc, XskRings, Socket}
use servant.Heart.Actions.{Machine, World, trim}
use servant.Heart.Moved.{IsIdle, Moved}

module _ {ℓ} {A : Type ℓ} (p : A → Bool) where
  -- How many entries pass the test.
  abbrev pub countp : List A → ℕ
  countp [] = 0
  countp (x ∷ xs) = (if p x then 1 else 0) + countp xs

  pub countp-append : (xs ys : List A) → countp (xs ++ ys) ≡ countp xs + countp ys
  countp-append [] ys = omega arith
  countp-append (x ∷ xs) ys = omega (arith, countp-append xs ys)

  pub countp-split : (n : ℕ) (xs : List A) → countp (take n xs) + countp (drop n xs) ≡ countp xs
  countp-split zero xs = omega arith
  countp-split (suc n) [] = refl
  countp-split (suc n) (x ∷ xs) = omega (arith, countp-split n xs)

pub countp-true {ℓ} : {A : Type ℓ} (xs : List A) → countp (λ (x : A). true) xs ≡ length xs
countp-true [] = refl
countp-true (x ∷ xs) = omega (arith, countp-true xs)

-- Every frame.
abbrev pub any_frame : ℕ → Bool
any_frame frame = true

module _ (r : XskRings) (chunk : ℕ → ℕ) (p : ℕ → Bool) where
  abbrev pub of_addr : ℕ → Bool
  of_addr a = p (chunk a)

  abbrev pub of_sent : Desc → Bool
  of_sent d = p (chunk d.addr)

  abbrev pub of_received : Desc → Bool
  of_received d = p (chunk (r.extract_addr d.addr))

  -- How many entries of the rings are frames that pass the test; `chunk` gives the frame that an
  -- address lies in.
  unfoldable pub held : Socket r → ℕ
  held xsk =
      countp of_addr (r.fill_ring.queue xsk.fq)
      + (countp of_addr (r.comp_ring.peeked xsk.cq) + countp of_addr (r.comp_ring.pending xsk.cq))
      + countp of_sent (r.tx_ring.queue xsk.tx)
      + (countp of_received (r.rx_ring.peeked xsk.rx)
          + countp of_received (r.rx_ring.pending xsk.rx))

-- The program moves the start of a packet within its frame only.
abbrev pub StaysInFrame : Machine → XskRings → (ℕ → ℕ) → Type 0
StaysInFrame m r chunk =
    (d : Desc) (memory : List ℕ)
    → let out = m.fn (r.add_offset_to_addr d.addr) d.len memory in
      chunk (r.extract_addr (trim d.addr out.2)) ≡ chunk (r.extract_addr d.addr)

module _ (r : XskRings) (chunk : ℕ → ℕ) where
  -- A socket between two iterations of the loop: nothing is reserved and nothing peeked, and the fill
  -- ring is large enough for every frame in the rings.
  pub record IsSettled (xsk : Socket r) : Type 0 where
    pub idle : IsIdle r xsk
    pub comp_none : r.comp_ring.peeked xsk.cq ≡ []
    pub rx_none : r.rx_ring.peeked xsk.rx ≡ []
    pub roomy : held r chunk any_frame xsk ≤ r.fill_ring.capacity xsk.fq

  -- Frames that leave the receive ring for the others are still held.
  pub held-Moved :
      (p : ℕ → Bool) (xsk xsk' : Socket r) (addrs : List ℕ) (descs : List Desc)
      → Moved r xsk xsk' addrs descs
      → countp (of_addr r chunk p) addrs + countp (of_sent r chunk p) descs
        ≡ countp
            (of_received r chunk p)
            (take (length addrs + length descs) (r.rx_ring.peeked xsk.rx))
      → held r chunk p xsk' ≡ held r chunk p xsk
  unfolding held
  held-Moved p xsk xsk' addrs descs mv h = omega (
    arith,
    ap (countp (of_addr r chunk p)) mv.filled
        ∙ countp-append (of_addr r chunk p) (r.fill_ring.queue xsk.fq) addrs,
    ap (countp (of_sent r chunk p)) mv.queued
        ∙ countp-append (of_sent r chunk p) (r.tx_ring.queue xsk.tx) descs,
    ap (λ c. countp (of_addr r chunk p) (r.comp_ring.peeked c)) mv.cq_same,
    ap (λ c. countp (of_addr r chunk p) (r.comp_ring.pending c)) mv.cq_same,
    ap (countp (of_received r chunk p)) mv.released,
    ap (countp (of_received r chunk p)) mv.pending_same,
    countp-split (of_received r chunk p) (length addrs + length descs) (r.rx_ring.peeked xsk.rx),
  )
