-- ===== src/Heart/Moved.antt =====
-- What the functions of src/heart.c may do to the rings of a socket on the receive side.
use servant.Prelude.{
  List, ◌≡◌, ℕ, [], length, ◌<◌, ◌++◌, ◌+◌, ◌^◌, ◌%◌, drop, arith, sym, append-nil, ◌∙◌, ap, refl,
  suc, append_assoc, ◌∷◌, length-append, zero,
}
use servant.Heart.{Desc, XskRings, Socket}

pub unchanged : (n : ℕ) → n < 2 ^ 32 → n ≡ (n + 0) % 2 ^ 32
unchanged n h = omega arith

drop-nil {ℓ} : {A : Type ℓ} (n : ℕ) → drop {A = A} n [] ≡ []
drop-nil zero = refl
drop-nil (suc n) = refl

drop-drop {ℓ} : {A : Type ℓ} (m n : ℕ) (xs : List A) → drop m (drop n xs) ≡ drop (n + m) xs
drop-drop m zero xs = ap (λ k. drop k xs) (omega arith)
drop-drop m (suc n) [] = drop-nil m ∙ sym (drop-nil (suc n + m))
drop-drop m (suc n) (x ∷ xs) =
    let e : suc n + m ≡ suc (n + m) = omega arith in rw e (drop-drop m n xs)

module _ (r : XskRings) where
  -- Nothing is reserved and left.
  pub record IsIdle (xsk : Socket r) : Type 0 where
    pub fill_idle : r.fill_ring.window xsk.fq ≡ []
    pub tx_idle : r.tx_ring.window xsk.tx ≡ []
    pub small : xsk.outstanding_tx < 2 ^ 32

  -- Between `xsk` and `xsk'` the addresses went to the fill ring and the descriptors to the transmit
  -- ring, in order, and as many entries of the receive ring were released.
  pub record Moved (xsk xsk' : Socket r) (addrs : List ℕ) (descs : List Desc) : Type 0 where
    pub idle : IsIdle xsk'
    pub filled : r.fill_ring.queue xsk'.fq ≡ r.fill_ring.queue xsk.fq ++ addrs
    pub queued : r.tx_ring.queue xsk'.tx ≡ r.tx_ring.queue xsk.tx ++ descs
    pub cq_same : xsk'.cq ≡ xsk.cq
    pub counted : xsk'.outstanding_tx ≡ (xsk.outstanding_tx + length descs) % 2 ^ 32
    pub released :
        r.rx_ring.peeked xsk'.rx ≡ drop (length addrs + length descs) (r.rx_ring.peeked xsk.rx)
    pub size_same : r.fill_ring.capacity xsk'.fq ≡ r.fill_ring.capacity xsk.fq
    pub pending_same : r.rx_ring.pending xsk'.rx ≡ r.rx_ring.pending xsk.rx
    pub tx_size_same : r.tx_ring.capacity xsk'.tx ≡ r.tx_ring.capacity xsk.tx

  abbrev pub frame_of : Desc → ℕ
  frame_of d = r.extract_addr d.addr

  abbrev pub frame_desc : Desc → Desc
  frame_desc d = record { addr = r.extract_addr d.addr; len = d.len }

  pub Moved-refl : (xsk : Socket r) → IsIdle xsk → Moved xsk xsk [] []
  Moved-refl xsk o = record {
    idle = o;
    filled = sym (append-nil _);
    queued = sym (append-nil _);
    cq_same = refl;
    counted = unchanged xsk.outstanding_tx o.small;
    released = refl;
    size_same = refl;
    pending_same = refl;
    tx_size_same = refl;
  }

  -- Two moves in a row.
  pub Moved-trans :
      (a b c : Socket r) (addrs addrs' : List ℕ) (descs descs' : List Desc)
      → Moved a b addrs descs
      → Moved b c addrs' descs'
      → Moved a c (addrs ++ addrs') (descs ++ descs')
  Moved-trans a b c addrs addrs' descs descs' p q = record {
    idle = q.idle;
    filled = q.filled ∙ ap (λ l. l ++ addrs') p.filled ∙ append_assoc _ addrs addrs';
    queued = q.queued ∙ ap (λ l. l ++ descs') p.queued ∙ append_assoc _ descs descs';
    cq_same = q.cq_same ∙ p.cq_same;
    counted = omega (arith, p.counted, q.counted, length-append descs descs');
    released =
        q.released
        ∙ ap (drop (length addrs' + length descs')) p.released
        ∙ drop-drop (length addrs' + length descs') (length addrs + length descs)
            (r.rx_ring.peeked a.rx)
        ∙ ap (λ k. drop k (r.rx_ring.peeked a.rx)) sum;
    size_same = q.size_same ∙ p.size_same;
    pending_same = q.pending_same ∙ p.pending_same;
    tx_size_same = q.tx_size_same ∙ p.tx_size_same;
  }
    where
      sum :
          (length addrs + length descs) + (length addrs' + length descs')
          ≡ length (addrs ++ addrs') + length (descs ++ descs')
      sum = omega (arith, length-append descs descs', length-append addrs addrs')

  -- What moves takes up its room.
  pub free-Moved :
      (a b : Socket r) (addrs : List ℕ) (descs : List Desc)
      → IsIdle a
      → Moved a b addrs descs
      → (r.fill_ring.free b.fq + length addrs ≡ r.fill_ring.free a.fq)
        × (r.tx_ring.free b.tx + length descs ≡ r.tx_ring.free a.tx)
  free-Moved a b addrs descs o p = (
    omega (
      arith,
      r.fill_ring.free-capacity a.fq,
      r.fill_ring.free-capacity b.fq,
      p.size_same,
      ap length p.filled,
      length-append (r.fill_ring.queue a.fq) addrs,
      ap length o.fill_idle,
      ap length p.idle.fill_idle,
    ),
    omega (
      arith,
      r.tx_ring.free-capacity a.tx,
      r.tx_ring.free-capacity b.tx,
      p.tx_size_same,
      ap length p.queued,
      length-append (r.tx_ring.queue a.tx) descs,
      ap length o.tx_idle,
      ap length p.idle.tx_idle,
    ),
  )
