-- ===== src/Heart/Frames/Round.antt =====
-- One iteration of `pump_packets` in src/heart.c on a socket whose fill ring is large enough for every
-- frame.
use servant.Prelude.{
  ℕ, List, [], ◌∷◌, ◌++◌, Bool, ◌==◌, ltb, if◌then◌else◌, true, false, Bool-cases, inl, inr, dec_lt,
  returns, ◌^◌, ◌<◌, ◌≤◌, min, ◌≡◌, refl, ap, ◌∙◌, length, take, append-nil, ge→ltb, length-take,
  arith,
}
use servant.Heart.{XskRings, Socket, Config, Sent, kick_if, recycle, complete_tx, poll_rx_queue}
use servant.Heart.Actions.{Machine, World, Round, pump_once}
use servant.Heart.Complete.{asked, complete_tx-recycles}
use servant.Heart.Moved.{IsIdle}
use servant.Heart.Packet.{IsPassable}
use servant.Heart.Peek.{poll_rx_queue_lem}
use servant.Heart.Frames.{
  countp, countp-append, countp-split, countp-true, held, any_frame, of_addr, of_received, of_sent,
  StaysInFrame, IsSettled,
}
use servant.Heart.Frames.Packets.{pump_batch-keeps}

length-zero {ℓ} : {A : Type ℓ} (xs : List A) → length xs ≡ 0 → xs ≡ []
length-zero [] h = refl
length-zero (x ∷ xs) h = absurd (omega arith)

module _ (r : XskRings) (chunk : ℕ → ℕ) (config : Config) (kick : Sent) (xsk : Socket r)
    (kicked : kick_if config.copy_mode kick ≡ returns tt) (settled : IsSettled r chunk xsk) where
  -- What `complete_tx` leaves.
  abbrev pub Completes : Socket r → Type 0
  Completes xsk' =
      (n : ℕ) × (complete_tx r config kick xsk ≡ returns (n, xsk'))
      × IsSettled r chunk xsk'
      × (r.rx_ring.pending xsk'.rx ≡ r.rx_ring.pending xsk.rx)
      × (r.fill_ring.capacity xsk'.fq ≡ r.fill_ring.capacity xsk.fq)
      × ((p : ℕ → Bool) → held r chunk p xsk' ≡ held r chunk p xsk)

  nothing_out : (xsk.outstanding_tx == 0) ≡ true → Completes xsk
  unfolding complete_tx
  nothing_out h = (0, rw h refl, settled, refl, refl, λ p. refl)

  abbrev waiting : ℕ
  waiting = length (r.comp_ring.pending xsk.cq)

  abbrev n : ℕ
  n = asked xsk.outstanding_tx config

  ndescs :
      (if ltb config.batch_size xsk.outstanding_tx then config.batch_size else xsk.outstanding_tx)
      ≡ n
  ndescs = ground arith

  -- `complete_tx` with nothing to take from the completion ring.
  nothing_done :
      (xsk.outstanding_tx == 0) ≡ false
      → min n waiting ≡ 0
      → Completes (record xsk { cq = (r.comp_ring.peek xsk.cq n).2 })
  unfolding complete_tx recycle held
  nothing_done h none_given =
      let (p0, p1, p2, p3) = r.comp_ring.peek-pending xsk.cq n in
      let empty : take n (r.comp_ring.pending xsk.cq) ≡ [] =
        length-zero _ (length-take n (r.comp_ring.pending xsk.cq) ∙ none_given) in
      let peeked : r.comp_ring.peeked (r.comp_ring.peek xsk.cq n).2 ≡ [] =
        p2 ∙ ap (λ l. r.comp_ring.peeked xsk.cq ++ l) empty ∙ append-nil _ ∙ settled.comp_none in
      let same =
        λ (p : ℕ → Bool). countp-split (of_addr r chunk p) n (r.comp_ring.pending xsk.cq) in
      let keeps : (p : ℕ → Bool)
          → held r chunk p (record xsk { cq = (r.comp_ring.peek xsk.cq n).2 })
            ≡ held r chunk p xsk =
        λ p. omega (
          arith,
          ap (countp (of_addr r chunk p)) peeked,
          ap (countp (of_addr r chunk p)) settled.comp_none,
          ap (countp (of_addr r chunk p)) p3,
          ap (countp (of_addr r chunk p)) empty,
          same p,
        ) in
      let zero_got : ltb 0 (r.comp_ring.peek xsk.cq n).0 ≡ false =
        ge→ltb 0 _ (omega (arith, p0, none_given)) in
      (
        0,
        rw (h, kicked) (ap (recycle r xsk) ndescs ∙ rw zero_got refl),
        record {
          idle = record {
            fill_idle = settled.idle.fill_idle;
            tx_idle = settled.idle.tx_idle;
            small = settled.idle.small;
          };
          comp_none = peeked;
          rx_none = settled.rx_none;
          roomy = omega (arith, keeps any_frame, settled.roomy);
        },
        refl,
        refl,
        keeps,
      )

  -- `complete_tx` with frames to take: the fill ring has room for them.
  some_done :
      0 < xsk.outstanding_tx
      → config.batch_size ≤ 2 ^ 32
      → 0 < min n waiting
      → (xsk' : Socket r) × Completes xsk'
  unfolding held
  some_done out small given =
      let done = take n (r.comp_ring.pending xsk.cq) in
      let all_done : countp (of_addr r chunk any_frame) (r.comp_ring.pending xsk.cq) ≡ waiting =
        countp-true (r.comp_ring.pending xsk.cq) in
      let all_filled : countp (of_addr r chunk any_frame) (r.fill_ring.queue xsk.fq)
          ≡ length (r.fill_ring.queue xsk.fq) =
        countp-true (r.fill_ring.queue xsk.fq) in
      let room : length done ≤ r.fill_ring.free xsk.fq = omega (
        arith,
        length-take n (r.comp_ring.pending xsk.cq),
        settled.roomy,
        r.fill_ring.free-capacity xsk.fq,
        ap length settled.idle.fill_idle,
      ) in
      let (xsk', e, filled, window, count, left, peeked, tx_same, rx_same, size) =
        complete_tx-recycles r config kick xsk out settled.idle.small kicked settled.idle.fill_idle
          (omega (arith, ap length settled.comp_none)) given room in
      let none_left : r.comp_ring.peeked xsk'.cq ≡ [] =
        length-zero _ (peeked ∙ ap length settled.comp_none) in
      let keeps : (p : ℕ → Bool) → held r chunk p xsk' ≡ held r chunk p xsk = λ p. omega (
        arith,
        ap (countp (of_addr r chunk p)) filled
            ∙ countp-append (of_addr r chunk p) (r.fill_ring.queue xsk.fq) done,
        ap (countp (of_addr r chunk p)) none_left,
        ap (countp (of_addr r chunk p)) settled.comp_none,
        ap (countp (of_addr r chunk p)) left,
        countp-split (of_addr r chunk p) n (r.comp_ring.pending xsk.cq),
        ap (λ t. countp (of_sent r chunk p) (r.tx_ring.queue t)) tx_same,
        ap (λ t. countp (of_received r chunk p) (r.rx_ring.peeked t)) rx_same,
        ap (λ t. countp (of_received r chunk p) (r.rx_ring.pending t)) rx_same,
      ) in
      (
        xsk',
        (
          length done,
          e,
          record {
            idle = record {
              fill_idle = window;
              tx_idle = ap r.tx_ring.window tx_same ∙ settled.idle.tx_idle;
              small = omega (arith, count, settled.idle.small);
            };
            comp_none = none_left;
            rx_none = ap r.rx_ring.peeked rx_same ∙ settled.rx_none;
            roomy = omega (arith, keeps any_frame, settled.roomy, size);
          },
          ap r.rx_ring.pending rx_same,
          size,
          keeps,
        ),
      )

  -- On a settled socket `complete_tx` moves frames to the fill ring, if any, and loses none.
  pub complete_tx-keeps : config.batch_size ≤ 2 ^ 32 → (xsk' : Socket r) × Completes xsk'
  complete_tx-keeps small = elim (Bool-cases (xsk.outstanding_tx == 0)) [
    | inl z ↦ (xsk, nothing_out z)
    | inr out ↦ elim (dec_lt 0 (min n waiting)) [
      | yes given ↦ some_done (ground (arith, out)) small given
      | no none_given ↦ (_, nothing_done out (omega arith))
    ]
  ]

module _ (r : XskRings) (chunk : ℕ → ℕ) where
  -- `poll_rx_queue` on a settled socket: the batch is what is peeked.
  poll_rx_queue-keeps :
      (cnt : ℕ) (xsk : Socket r)
      → cnt < 2 ^ 16
      → IsSettled r chunk xsk
      → let out = poll_rx_queue r cnt xsk in
        IsIdle r out.1
        × (r.rx_ring.peeked out.1.rx ≡ out.0)
        × (out.1.cq ≡ xsk.cq)
        × (out.1.fq ≡ xsk.fq)
        × ((p : ℕ → Bool) → held r chunk p out.1 ≡ held r chunk p xsk)
  unfolding poll_rx_queue held
  poll_rx_queue-keeps cnt xsk small settled =
      let out = poll_rx_queue r cnt xsk in
      let (q0, q1, q2) =
        poll_rx_queue_lem r cnt xsk small (omega (arith, ap length settled.rx_none)) in
      let batch : r.rx_ring.peeked out.1.rx ≡ out.0 = q1 ∙ ap (λ l. l ++ out.0) settled.rx_none in
      (
        record {
          fill_idle = settled.idle.fill_idle;
          tx_idle = settled.idle.tx_idle;
          small = settled.idle.small;
        },
        batch,
        refl,
        refl,
        λ p. omega (
          arith,
          ap (countp (of_received r chunk p)) (batch ∙ q0),
          ap (countp (of_received r chunk p)) q2,
          ap (countp (of_received r chunk p)) settled.rx_none,
          countp-split (of_received r chunk p) cnt (r.rx_ring.pending xsk.rx),
        ),
      )

module _ (m : Machine) (r : XskRings) (chunk : ℕ → ℕ) (config : Config)
    (small : config.batch_size < 2 ^ 16) (stays : StaysInFrame m r chunk)
    (passable : IsPassable m r config) where
  -- One iteration on a socket that the kernel leaves settled: it ends, the socket is settled again, and
  -- every frame is in the rings as often as before.
  pub pump_once-keeps :
      (round : Round m r) (w : World m) (xsk : Socket r)
      → kick_if config.copy_mode round.kick ≡ returns tt
      → IsSettled r chunk (round.kernel xsk)
      → (w' : World m) × (xsk' : Socket r) × (pump_once m r config round w xsk ≡ returns (w', xsk'))
        × IsSettled r chunk xsk'
        × (r.fill_ring.capacity xsk'.fq ≡ r.fill_ring.capacity (round.kernel xsk).fq)
        × ((p : ℕ → Bool) → held r chunk p xsk' ≡ held r chunk p (round.kernel xsk))
  unfolding pump_once
  pump_once-keeps round w xsk kicked settled =
      let (xsk1, (n, e1, settled1, _, size1, held1)) =
        complete_tx-keeps r chunk config round.kick (round.kernel xsk) kicked settled
          (omega arith) in
      let got = poll_rx_queue r config.batch_size xsk1 in
      let (idle2, batch, cq2, fq2, held2) =
        poll_rx_queue-keeps r chunk config.batch_size xsk1 small settled1 in
      let size2 = ap r.fill_ring.capacity fq2 in
      let (w', xsk', e3, idle3, none3, cq3, size3, held3) =
        pump_batch-keeps m r chunk config stays passable got.0 w got.1 idle2 batch
          (omega (arith, held2 any_frame, settled1.roomy, size2)) in
      let keeps : (p : ℕ → Bool) → held r chunk p xsk' ≡ held r chunk p (round.kernel xsk) =
        λ p. held3 p ∙ held2 p ∙ held1 p in
      let size = size3 ∙ size2 ∙ size1 in
      (
        w',
        xsk',
        rw (e1, e3) refl,
        record {
          idle = idle3;
          comp_none = ap r.comp_ring.peeked (cq3 ∙ cq2) ∙ settled1.comp_none;
          rx_none = none3;
          roomy = omega (arith, keeps any_frame, settled.roomy, size);
        },
        size,
        keeps,
      )
