-- ===== src/Heart/Packet.antt =====
-- `apply_action` in src/heart.c: where one packet goes.
use servant.Heart.Batch.{tx_batch-all_or_none, drop_batch-all_or_none}
use servant.Prelude.Int.{ℤ}
use servant.Prelude.{
  ◌-◌, ◌&&◌, ltb, if◌then◌else◌, eq→==, lt→ltb, ge→ltb, ap₂, ℕ, List, ◌≡◌, ◌<◌, ◌∷◌, [], ◌%◌,
  length, returns, arith, ◌^◌, inl, inr, Bool, Outcome, true, drop, >>=-returns, require, leb, ◌+◌,
  false, refl, Bool-cases, sym, ap, ◌==◌, returns-injective, ◌>>=◌, ◌∙◌, append-nil,
}
use servant.Channel.{tx_msg}
use servant.Heart.{Desc, pass_action, send_action, XskRings, Socket, Config, drop_batch}
use servant.Heart.Actions.{
  Machine, World, trim, send_interpose_msg, send_udp_socket_msg, pass_on, send_or_drop,
  apply_action, run_program,
}
use servant.Heart.Moved.{IsIdle, Moved, Moved-trans, free-Moved, frame_of, frame_desc}

and_false : (b : Bool) → (b && false) ≡ false
and_false true = refl
and_false false = refl

-- A packet's frame goes back to the fill ring, or the packet goes to the transmit ring, or neither has
-- room and it stays where it is.
pub data Fate : Type 0 where
  recycled transmitted stuck : Fate

-- The place of a packet by the free entries of the fill ring and of the transmit ring: a packet for which
-- the program says SEND is sent where there is room, and every other is recycled where there is.
unfoldable pub fate_of : ℕ → ℕ → ℕ → Fate
fate_of action fill_free tx_free =
    if action == send_action && ltb 0 tx_free
    then transmitted
    else if ltb 0 fill_free
    then recycled
    else stuck

abbrev pub fill_after : Fate → ℕ → ℕ
fill_after recycled n = n - 1
fill_after transmitted n = n
fill_after stuck n = n

abbrev pub tx_after : Fate → ℕ → ℕ
tx_after recycled n = n
tx_after transmitted n = n - 1
tx_after stuck n = n

-- The places of packets in turn, by the action of each and the entries that are free before the first.
unfoldable pub routes : List (Desc × ℕ) → ℕ → ℕ → List Fate
routes [] fill_free tx_free = []
routes (o ∷ os) fill_free tx_free =
    let fate = fate_of o.1 fill_free tx_free in
    fate ∷ routes os (fill_after fate fill_free) (tx_after fate tx_free)

fate-transmitted :
    (action fill_free tx_free : ℕ)
    → action ≡ send_action
    → 0 < tx_free
    → transmitted ≡ fate_of action fill_free tx_free
unfolding fate_of
fate-transmitted action fill_free tx_free a h =
    rw (eq→== action send_action a, lt→ltb 0 tx_free h) refl

fate-recycled :
    (action fill_free tx_free : ℕ)
    → (action == send_action && ltb 0 tx_free) ≡ false
    → 0 < fill_free
    → recycled ≡ fate_of action fill_free tx_free
unfolding fate_of
fate-recycled action fill_free tx_free a h = rw (a, lt→ltb 0 fill_free h) refl

fate-stuck :
    (action fill_free tx_free : ℕ)
    → (action == send_action && ltb 0 tx_free) ≡ false
    → fill_free < 1
    → stuck ≡ fate_of action fill_free tx_free
unfolding fate_of
fate-stuck action fill_free tx_free a h = rw (a, ge→ltb 0 fill_free (omega arith)) refl

module _ (m : Machine) where
  -- Passing a packet on leaves the memory.
  pass_on-memory :
      (inject : Bool) (addr len : ℕ) (w : World m) (out : ℤ × World m)
      → pass_on m inject addr len w ≡ returns out
      → out.1.memory ≡ w.memory
  unfolding pass_on send_interpose_msg send_udp_socket_msg
  pass_on-memory inject addr len w out h =
      let (_, _, h1) = >>=-returns (require (leb (addr + len) (length w.memory))) _ h in
      go inject h1
    where
      go :
          (i : Bool)
          → elim i as (λ b. Outcome (ℤ × World m)) [
            | true ↦ send_interpose_msg m (drop addr w.memory) len w
            | false ↦ returns (send_udp_socket_msg m (drop addr w.memory) len w)
          ]
            ≡ returns out
          → out.1.memory ≡ w.memory
      go true q =
          let (a, _, q1) =
            >>=-returns (tx_msg m.ring m.vc (drop addr w.memory) len w.channel) _ q in
          sym (ap (λ (o : ℤ × World m). o.1.memory) (returns-injective q1))
      go false q = sym (ap (λ (o : ℤ × World m). o.1.memory) (returns-injective q))

module _ (m : Machine) (r : XskRings) where
  -- What the program makes of the packets in turn, by the memory alone.
  unfoldable pub outputs : List Desc → List ℕ → List (Desc × ℕ)
  outputs [] memory = []
  outputs (d ∷ ds) memory =
      let out = m.fn (r.add_offset_to_addr d.addr) d.len memory in
      (record { addr = trim d.addr out.2; len = out.1 % 2 ^ 32 }, out.0 % 2 ^ 32) ∷ outputs ds out.3

  -- Where the program says PASS, the packet can be passed on.
  abbrev pub IsPassable : Config → Type 0
  IsPassable config =
      (d : Desc) (w : World m)
      → let out = run_program m r d w in
        out.1 ≡ pass_action
        → (passed : ℤ × World m) × (pass_on m config.use_packet_injection
              (r.add_offset_to_addr out.0.addr) out.0.len out.2
            ≡ returns passed)

  -- The frames for the fill ring and the descriptors for the transmit ring.
  unfoldable pub fills : List (Desc × ℕ) → List Fate → List ℕ
  fills [] fates = []
  fills (o ∷ os) [] = []
  fills (o ∷ os) (recycled ∷ fates) = frame_of r o.0 ∷ fills os fates
  fills (o ∷ os) (transmitted ∷ fates) = fills os fates
  fills (o ∷ os) (stuck ∷ fates) = fills os fates

  unfoldable pub sends : List (Desc × ℕ) → List Fate → List Desc
  sends [] fates = []
  sends (o ∷ os) [] = []
  sends (o ∷ os) (recycled ∷ fates) = sends os fates
  sends (o ∷ os) (transmitted ∷ fates) = frame_desc r o.0 ∷ sends os fates
  sends (o ∷ os) (stuck ∷ fates) = sends os fates

  fills-after :
      (o : Desc × ℕ) (fate : Fate) (n n' : ℕ)
      → n' + length (fills (o ∷ []) (fate ∷ [])) ≡ n
      → n' ≡ fill_after fate n
  unfolding fills
  fills-after o recycled n n' h = omega arith
  fills-after o transmitted n n' h = omega arith
  fills-after o stuck n n' h = omega arith

  sends-after :
      (o : Desc × ℕ) (fate : Fate) (n n' : ℕ)
      → n' + length (sends (o ∷ []) (fate ∷ [])) ≡ n
      → n' ≡ tx_after fate n
  unfolding sends
  sends-after o recycled n n' h = omega arith
  sends-after o transmitted n n' h = omega arith
  sends-after o stuck n n' h = omega arith

  -- After one packet the others go by the entries that it left.
  pub routes-cons :
      (o : Desc × ℕ) (os : List (Desc × ℕ)) (fate : Fate) (fill fill' tx tx' : ℕ)
      → fate ≡ fate_of o.1 fill tx
      → fill' + length (fills (o ∷ []) (fate ∷ [])) ≡ fill
      → tx' + length (sends (o ∷ []) (fate ∷ [])) ≡ tx
      → fate ∷ routes os fill' tx' ≡ routes (o ∷ os) fill tx
  unfolding routes
  routes-cons o os fate fill fill' tx tx' route f t =
      ap₂ (λ a b. fate ∷ routes os a b) (fills-after o fate fill fill' f)
        (sends-after o fate tx tx' t)
      ∙ ap (λ x. x ∷ routes os (fill_after x fill) (tx_after x tx)) route

  -- Only a packet for which the program says SEND is transmitted.
  unfoldable pub IsObeyed : List (Desc × ℕ) → List Fate → Type 0
  IsObeyed [] [] = Unit
  IsObeyed [] (f ∷ fates) = ⊥
  IsObeyed (o ∷ os) [] = ⊥
  IsObeyed (o ∷ os) (recycled ∷ fates) = IsObeyed os fates
  IsObeyed (o ∷ os) (transmitted ∷ fates) = (o.1 ≡ send_action) × IsObeyed os fates
  IsObeyed (o ∷ os) (stuck ∷ fates) = IsObeyed os fates

  -- A packet is stuck only at a full fill ring.
  abbrev pub HadNoRoom : Fate → Socket r → Type 0
  HadNoRoom recycled xsk = Unit
  HadNoRoom transmitted xsk = Unit
  HadNoRoom stuck xsk = length (r.fill_ring.queue xsk.fq) ≡ r.fill_ring.capacity xsk.fq

  full_ring :
      (xsk : Socket r)
      → IsIdle r xsk
      → r.fill_ring.free xsk.fq < 1
      → length (r.fill_ring.queue xsk.fq) ≡ r.fill_ring.capacity xsk.fq
  full_ring xsk o h = omega (arith, r.fill_ring.free-capacity xsk.fq, ap length o.fill_idle)

  -- What left the fill ring alone leaves a full one full.
  HadNoRoom-Moved :
      (fate : Fate) (xsk xsk' : Socket r) (descs : List Desc)
      → Moved r xsk xsk' [] descs
      → HadNoRoom fate xsk'
      → HadNoRoom fate xsk
  HadNoRoom-Moved recycled xsk xsk' descs mv h = tt
  HadNoRoom-Moved transmitted xsk xsk' descs mv h = tt
  HadNoRoom-Moved stuck xsk xsk' descs mv h =
      ap length (sym (append-nil (r.fill_ring.queue xsk.fq)) ∙ sym mv.filled) ∙ h ∙ mv.size_same

  module _ (d : Desc) (action : ℕ) (xsk : Socket r) (idle : IsIdle r xsk)
      (h : 0 < length (r.rx_ring.peeked xsk.rx)) where
    -- What may become of one packet.
    abbrev pub Ends : Socket r → Type 0
    Ends xsk' =
        (fate : Fate) × IsObeyed ((d, action) ∷ []) (fate ∷ [])
        × Moved r xsk xsk' (fills ((d, action) ∷ []) (fate ∷ []))
            (sends ((d, action) ∷ []) (fate ∷ []))
        × HadNoRoom fate xsk
        × (fate ≡ fate_of action (r.fill_ring.free xsk.fq) (r.tx_ring.free xsk.tx))

    dropped :
        (action == send_action && ltb 0 (r.tx_ring.free xsk.tx)) ≡ false
        → (n : ℕ) × (xsk' : Socket r) × (drop_batch r (d ∷ []) xsk ≡ returns (n, xsk')) × Ends xsk'
    unfolding fills sends IsObeyed
    dropped other =
        let (n, xsk', e, k) = drop_batch-all_or_none r (d ∷ []) xsk idle (omega arith) in
        (
          n,
          xsk',
          e,
          elim k [
            | inl p ↦ (
              recycled,
              tt,
              p.1,
              tt,
              fate-recycled action _ _ other
                  (omega (arith, (free-Moved r xsk xsk' _ _ idle p.1).0)),
            )
            | inr q ↦ (stuck, tt, q.2, full_ring xsk idle q.1, fate-stuck action _ _ other q.1)
          ],
        )

  module _ (d : Desc) (action : ℕ) (xsk : Socket r) (idle : IsIdle r xsk)
      (h : 0 < length (r.rx_ring.peeked xsk.rx)) where
    sent_or_dropped :
        action ≡ send_action
        → (xsk' : Socket r) × (send_or_drop m r d xsk ≡ returns xsk')
          × Ends d action xsk idle h xsk'
    unfolding fills sends IsObeyed send_or_drop
    sent_or_dropped a =
        let (n, xsk', e, k) = tx_batch-all_or_none r (d ∷ []) xsk idle (omega arith) in
        elim k [
          | inl p ↦ (
            xsk',
            rw (e, p.0) refl,
            (
              transmitted,
              (a, tt),
              p.1,
              tt,
              fate-transmitted action _ _ a (omega (arith, (free-Moved r xsk xsk' _ _ idle p.1).1)),
            ),
          )
          | inr q ↦
              let still : 0 < length (r.rx_ring.peeked xsk'.rx) = rw (q.2.released) h in
              let (fill_same, tx_same) = free-Moved r xsk xsk' [] [] idle q.2 in
              let none_free : ltb 0 (r.tx_ring.free xsk'.tx) ≡ false =
                ge→ltb 0 _ (omega (arith, tx_same, q.1)) in
              let (n2, xsk2, e2, ends2) =
                dropped d action xsk' q.2.idle still
                  (rw none_free (and_false (action == send_action))) in
              let (fate, o, mv, full, route) = ends2 in
              (
                xsk2,
                rw (e, q.0, e2) refl,
                (
                  fate,
                  o,
                  Moved-trans r xsk xsk' xsk2 [] _ [] _ q.2 mv,
                  HadNoRoom-Moved fate xsk xsk' [] q.2 full,
                  route ∙ ap₂ (fate_of action) (omega (arith, fill_same)) (omega (arith, tx_same)),
                ),
              )
        ]

  module _ (config : Config) (d : Desc) (action : ℕ) (w : World m) (xsk : Socket r) where
    pub apply-send :
        (action == send_action) ≡ true
        → apply_action m r config d action w xsk
          ≡ (send_or_drop m r d xsk >>= λ xsk'. returns (w, xsk'))
    unfolding apply_action
    apply-send s = ground (arith, s)

    pub apply-pass :
        (action == send_action) ≡ false
        → (action == pass_action) ≡ true
        → apply_action m r config d action w xsk ≡ (
            pass_on m config.use_packet_injection (r.add_offset_to_addr d.addr) d.len w
            >>= λ passed. drop_batch r (d ∷ []) xsk >>= λ out. returns (passed.1, out.1))
    unfolding apply_action
    apply-pass s p = ground (arith, s, p)

    pub apply-drop :
        (action == send_action) ≡ false
        → (action == pass_action) ≡ false
        → apply_action m r config d action w xsk
          ≡ (drop_batch r (d ∷ []) xsk >>= λ out. returns (w, out.1))
    unfolding apply_action
    apply-drop s p = ground (arith, s, p)

  -- One packet: it goes to exactly one place, and the memory is not touched.
  pub apply_action-Ends :
      (config : Config) (d : Desc) (action : ℕ) (w : World m) (xsk : Socket r) (idle : IsIdle r xsk)
      (h : 0 < length (r.rx_ring.peeked xsk.rx))
      → (action ≡ pass_action
          → (passed : ℤ × World m) × (pass_on m config.use_packet_injection
                (r.add_offset_to_addr d.addr)
                d.len
                w
              ≡ returns passed))
      → (w' : World m) × (xsk' : Socket r) × (apply_action m r config d action w xsk
          ≡ returns (w', xsk'))
        × (w'.memory ≡ w.memory)
        × Ends d action xsk idle h xsk'
  unfolding apply_action
  apply_action-Ends config d action w xsk idle h passes =
      elim (Bool-cases (action == send_action)) [
        | inl s ↦
            let (xsk', e, ends) = sent_or_dropped d action xsk idle h (ground (arith, s)) in
            (w, xsk', (apply-send config d action w xsk s ∙ rw e refl), refl, ends)
        | inr ns ↦
            let (n, xsk', e, ends) = dropped d action xsk idle h (rw ns refl) in
            elim (Bool-cases (action == pass_action)) [
              | inl p ↦
                  let (passed, pe) = passes (ground (arith, p)) in
                  (
                    passed.1,
                    xsk',
                    (apply-pass config d action w xsk ns p ∙ rw (pe, e) refl),
                    pass_on-memory m _ _ _ w passed pe,
                    ends,
                  )
              | inr np ↦ (w, xsk', (apply-drop config d action w xsk ns np ∙ rw e refl), refl, ends)
            ]
      ]
