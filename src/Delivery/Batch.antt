-- ===== src/Delivery/Batch.antt =====
-- A batch of `pump_packets` in src/heart.c and the messages that it puts into the channel.
use servant.Prelude.Int.{pos, ℤ}
use servant.Prelude.{
  ℕ, List, [], ◌∷◌, ◌++◌, returns, ◌>>=◌, >>=-returns, returns-injective, ◌+◌, ◌-◌, ◌<◌, ◌≤◌, ◌≡◌,
  ◌==◌, refl, sym, ap, ap₂, subst, ◌∙◌, length, take, drop, true, false, Bool-cases, inl, inr,
  le→leb, length-drop, append-nil, append_assoc, arith,
}
use servant.Channel.Stream.{IsStream, messages}
use servant.Channel.Send.{sent, tx_msg-IsStream}
use servant.Heart.{Desc, XskRings, Socket, Config, pass_action, send_action, drop_batch}
use servant.Heart.Actions.{
  Machine, World, run_program, pass_on, send_interpose_msg, send_or_drop, apply_action, pump_batch,
}
use servant.Heart.Moved.{IsIdle}
use servant.Heart.Packet.{apply-send, apply-pass, apply-drop, apply_action-Ends}
use servant.Heart.Route.{still_peeked}
use servant.Delivery.{passed_bytes, AreShort}

module _ (m : Machine) where
  -- The world after the message of `len` bytes at `addr`.
  abbrev told : ℕ → ℕ → World m → m.ring.R → World m
  told addr len w rr = record w { channel = sent m.ring m.vc (drop addr w.memory) len w.channel rr }

  -- Passing on a message that fits, over a channel in order with room in the ring.
  pass_on-IsStream :
      (addr len : ℕ) (w : World m) (rr : m.ring.R) (start n : ℕ)
      → addr + len ≤ length w.memory
      → len < 1500
      → m.vc.proc_id ≤ 1
      → n + 1 < m.ring.slots rr
      → IsStream m.ring w.channel (1 - m.vc.proc_id) rr start n
      → let w' = told addr len w rr in
        (pass_on m true addr len w ≡ returns (pos 0, w'))
        × IsStream m.ring w'.channel
            (1 - m.vc.proc_id)
            (m.ring.sp_enqueue_burst rr w.channel.ring_top).0
            start
            (n + 1)
        × (messages w'.channel start (n + 1)
            ≡ messages w.channel start n ++ take len (drop addr w.memory) ∷ [])
  unfolding pass_on send_interpose_msg
  pass_on-IsStream addr len w rr start n fits short p room s =
      let (e, s', k) =
        tx_msg-IsStream m.ring m.vc (drop addr w.memory) len w.channel rr start n short
          (omega (arith, length-drop addr w.memory)) p room s in
      (rw (le→leb (addr + len) (length w.memory) fits, e) refl, s', k)

module _ (m : Machine) (r : XskRings) (config : Config) (d : Desc) (action : ℕ) (w w' : World m)
    (xsk xsk' : Socket r) (e : apply_action m r config d action w xsk ≡ returns (w', xsk')) where
  -- A packet that is not passed leaves the world.
  kept_world : (action == pass_action) ≡ false → w' ≡ w
  kept_world np = elim (Bool-cases (action == send_action)) [
    | inl s ↦
        let (_, _, q) =
          >>=-returns (send_or_drop m r d xsk) _
            (sym (apply-send m r config d action w xsk s) ∙ e) in
        sym (ap (λ (o : World m × Socket r). o.0) (returns-injective q))
    | inr ns ↦
        let (_, _, q) =
          >>=-returns (drop_batch r (d ∷ []) xsk) _
            (sym (apply-drop m r config d action w xsk ns np) ∙ e) in
        sym (ap (λ (o : World m × Socket r). o.0) (returns-injective q))
  ]

  -- A packet that is passed leaves the world as passing it on does.
  passed_world :
      (passed : ℤ × World m)
      → (action == pass_action) ≡ true
      → pass_on m config.use_packet_injection (r.add_offset_to_addr d.addr) d.len w ≡ returns passed
      → w' ≡ passed.1
  passed_world passed p pe =
      let ns : (action == send_action) ≡ false = ground (arith, p) in
      let h : (drop_batch r (d ∷ []) xsk >>= λ out. returns (passed.1, out.1))
          ≡ returns (w', xsk') =
        rw pe at (sym (apply-pass m r config d action w xsk ns p) ∙ e) in
      let (_, _, q) = >>=-returns (drop_batch r (d ∷ []) xsk) _ h in
      sym (ap (λ (o : World m × Socket r). o.0) (returns-injective q))

module _ (m : Machine) (r : XskRings) (d : Desc) (ds : List Desc) (w : World m) where
  abbrev out : Desc × ℕ × World m
  out = run_program m r d w

  -- What the packet `d` sends if it is passed.
  abbrev message : List ℕ
  message = take out.0.len (drop (r.add_offset_to_addr out.0.addr) out.2.memory)

  passed_bytes-pass :
      (out.1 == pass_action) ≡ true
      → passed_bytes m r (d ∷ ds) w.memory ≡ message ∷ passed_bytes m r ds out.2.memory
  unfolding passed_bytes run_program
  passed_bytes-pass h = rw h refl

  passed_bytes-other :
      (out.1 == pass_action) ≡ false
      → passed_bytes m r (d ∷ ds) w.memory ≡ passed_bytes m r ds out.2.memory
  unfolding passed_bytes run_program
  passed_bytes-other h = rw h refl

  -- The program leaves the channel.
  ran_channel : out.2.channel ≡ w.channel
  unfolding run_program
  ran_channel = refl

  AreShort-head :
      AreShort m r (d ∷ ds) w.memory
      → (out.1 ≡ pass_action
          → (out.0.len < 1500)
            × (r.add_offset_to_addr out.0.addr + out.0.len ≤ length out.2.memory))
        × AreShort m r ds out.2.memory
  unfolding AreShort run_program
  AreShort-head h = h

module _ (m : Machine) (r : XskRings) (config : Config) (start : ℕ) where
  -- What a batch does: it ends, and the messages under way, which the ring has room for, are joined
  -- by those.
  abbrev pub Delivers : List Desc → World m → Socket r → ℕ → List (List ℕ) → Type 0
  Delivers ds w xsk n bs =
      (w' : World m) × (xsk' : Socket r) × (rr' : m.ring.R) × (n' : ℕ) × (pump_batch m r config ds w
          xsk
        ≡ returns (w', xsk'))
      × IsStream m.ring w'.channel (1 - m.vc.proc_id) rr' start n'
      × (messages w'.channel start n' ≡ messages w.channel start n ++ bs)
      × (n' < m.ring.slots rr')

  Delivers-next :
      (d : Desc) (ds : List Desc) (w w1 : World m) (xsk xsk1 : Socket r) (n n1 : ℕ)
      (bs bs' : List (List ℕ))
      → let o = run_program m r d w in
        apply_action m r config o.0 o.1 o.2 xsk ≡ returns (w1, xsk1)
        → messages w1.channel start n1 ++ bs ≡ messages w.channel start n ++ bs'
        → Delivers ds w1 xsk1 n1 bs
        → Delivers (d ∷ ds) w xsk n bs'
  unfolding pump_batch
  Delivers-next d ds w w1 xsk xsk1 n n1 bs bs' e k (w2, xsk2, rr2, n2, e2, s2, k2, room) =
      (w2, xsk2, rr2, n2, rw e e2, s2, k2 ∙ k, room)

  module _ (inject : config.use_packet_injection ≡ true) (p : m.vc.proc_id ≤ 1) where
    -- Where the program passes each packet of the batch that it passes as a message that fits, and the
    -- ring has room for them all, the loop puts them behind the messages under way, in order.
    pub pump_batch-Delivers :
        (ds : List Desc) (w : World m) (xsk : Socket r) (rr : m.ring.R) (n : ℕ)
        → IsIdle r xsk
        → length ds ≤ length (r.rx_ring.peeked xsk.rx)
        → AreShort m r ds w.memory
        → n + length (passed_bytes m r ds w.memory) < m.ring.slots rr
        → IsStream m.ring w.channel (1 - m.vc.proc_id) rr start n
        → Delivers ds w xsk n (passed_bytes m r ds w.memory)
    unfolding pump_batch passed_bytes
    pump_batch-Delivers [] w xsk rr n idle h short room s =
        (w, xsk, rr, n, refl, s, sym (append-nil _), omega arith)
    pump_batch-Delivers (d ∷ ds) w xsk rr n idle h short room s =
        let o = run_program m r d w in
        let (fits, shorts) = AreShort-head m r d ds w short in
        elim (Bool-cases (o.1 == pass_action)) [
          | inr np ↦
              let bytes = passed_bytes-other m r d ds w np in
              let (w1, xsk1, e, mem, (fate, _, mv, _, _)) =
                apply_action-Ends m r config o.0 o.1 o.2 xsk idle (omega arith)
                  (λ a. absurd (ground (arith, np, a))) in
              let same : w1.channel ≡ w.channel =
                ap (λ (v : World m). v.channel) (kept_world m r config o.0 o.1 o.2 w1 xsk xsk1 e np)
                ∙ ran_channel m r d ds w in
              let rest =
                pump_batch-Delivers ds w1 xsk1 rr n mv.idle
                  (still_peeked m r (o.0, o.1) fate xsk xsk1 (length ds) mv h)
                  (subst (AreShort m r ds) (sym mem) shorts)
                  (rw mem (omega (arith, ap length bytes)))
                  (subst (λ c. IsStream m.ring c (1 - m.vc.proc_id) rr start n) (sym same) s) in
              Delivers-next d ds w w1 xsk xsk1 n n (passed_bytes m r ds w1.memory)
                (passed_bytes m r (d ∷ ds) w.memory) e
                (ap₂ ◌++◌ (ap (λ c. messages c start n) same)
                  (ap (passed_bytes m r ds) mem ∙ sym bytes))
                rest
          | inl pass ↦
              let bytes = passed_bytes-pass m r d ds w pass in
              let (small, inside) = fits (ground (arith, pass)) in
              let at_addr = r.add_offset_to_addr o.0.addr in
              let more : n + 1 < m.ring.slots rr = omega (arith, ap length bytes) in
              let so =
                subst (λ c. IsStream m.ring c (1 - m.vc.proc_id) rr start n)
                  (sym (ran_channel m r d ds w)) s in
              let (pe, s1, k1) =
                pass_on-IsStream m at_addr o.0.len o.2 rr start n inside small p more so in
              let pe' : pass_on m config.use_packet_injection at_addr o.0.len o.2
                  ≡ returns (pos 0, told m at_addr o.0.len o.2 rr) =
                rw inject pe in
              let (w1, xsk1, e, mem, (fate, _, mv, _, _)) =
                apply_action-Ends m r config o.0 o.1 o.2 xsk idle (omega arith) (λ _. (_, pe')) in
              let same : w1.channel ≡ (told m at_addr o.0.len o.2 rr).channel =
                ap (λ (v : World m). v.channel)
                  (passed_world m r config o.0 o.1 o.2 w1 xsk xsk1 e _ pass pe') in
              let rr1 = (m.ring.sp_enqueue_burst rr o.2.channel.ring_top).0 in
              let rest =
                pump_batch-Delivers ds w1 xsk1 rr1 (n + 1) mv.idle
                  (still_peeked m r (o.0, o.1) fate xsk xsk1 (length ds) mv h)
                  (subst (AreShort m r ds) (sym mem) shorts)
                  (rw mem
                    (omega (arith, ap length bytes, m.ring.slots-enqueue rr o.2.channel.ring_top)))
                  (subst (λ c. IsStream m.ring c (1 - m.vc.proc_id) rr1 start (n + 1)) (sym same)
                    s1) in
              Delivers-next d ds w w1 xsk xsk1 n (n + 1) (passed_bytes m r ds w1.memory)
                (passed_bytes m r (d ∷ ds) w.memory) e
                (ap₂ ◌++◌ (ap (λ c. messages c start (n + 1)) same ∙ k1)
                    (ap (passed_bytes m r ds) mem)
                  ∙ append_assoc (messages o.2.channel start n) (message m r d ds w ∷ []) _
                  ∙ ap₂ ◌++◌ (ap (λ c. messages c start n) (ran_channel m r d ds w)) (sym bytes))
                rest
        ]
