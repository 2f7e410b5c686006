-- ===== src/Heart/Mix.antt =====
-- `apply_mix_action` of src/heart.c, which places a batch of packets by the verdicts on all of them.
use servant.Prelude.Int.{ℤ}
use servant.Prelude.{
  [], ◌∷◌, ℕ, Bool, List, map, ◌<◌, true, Outcome, false, ◌≤◌, ◌≡◌, if◌then◌else◌, ◌>>=◌, returns,
  ◌==◌, ne→==, ◌+◌, exited, ◌%◌, arith, ◌^◌, eq→==, refl,
}
use servant.Heart.{Desc, drop_action, send_action, XskRings, Socket, is_negative_int}
use servant.Heart.Actions.{trim}
use servant.Heart.Xsk.{Producers, next_index}

-- An entry of `pkts` and of `rets` in `struct pktctxbatch`.
pub record Verdict : Type 0 where
  pub pkt_len : ℕ
  pub trim_head : ℤ
  pub ret : ℕ

-- `batch[i]->len = ...; batch[i]->addr += ...`
unfoldable pub prepare : Desc × Verdict → Desc × ℕ
prepare (d, v) = (record { addr = trim d.addr v.trim_head; len = v.pkt_len }, v.ret)

-- `action_count[0]` and `action_count[1]`, by the action.
unfoldable pub action_count : ℕ → List (Desc × ℕ) → ℕ
action_count action [] = 0
action_count action ((d, ret) ∷ ps) =
    let rest = action_count action ps in if ret == action then 1 + rest else rest

-- A reservation: whether it was made, and `index_target`, which stays 0 where it was not.
pub try_reserve : {E : Type 0} → (prod : Producers E) → prod.P → ℕ → Outcome (Bool × ℕ × prod.P)
try_reserve prod p count =
    let got = prod.reserve p count in
    if count == 0
    then returns (false, 0, p)
    else if got.0 == count
    then returns (true, got.1, got.2)
    else if is_negative_int got.0
    then exited 1
    else returns (false, 0, got.2)

try_reserve_room :
    {E : Type 0} (prod : Producers E) (p : prod.P) (count : ℕ)
    → 0 < count
    → count ≤ prod.free p
    → try_reserve prod p count ≡ returns (true, (prod.reserve p count).1, (prod.reserve p count).2)
unfolding try_reserve
try_reserve_room prod p count h k =
    let (g0, g1, g2, g3) = prod.reserve_room p count k in
    rw (ne→== count 0 (omega arith), g0, eq→== count count refl) refl

try_reserve_full :
    {E : Type 0} (prod : Producers E) (p : prod.P) (count : ℕ)
    → prod.free p < count
    → try_reserve prod p count ≡ returns (false, 0, (prod.reserve p count).2)
unfolding try_reserve
try_reserve_full prod p count h =
    let (g0, g1, g2) = prod.reserve_full p count h in
    rw (ne→== count 0 (omega arith), g0, ne→== 0 count (omega arith)) refl

module _ (r : XskRings) where
  -- The loop that places the descriptors.
  pub place_all :
      List (Desc × ℕ) → ℕ → ℕ → r.fill_ring.P → r.tx_ring.P → r.fill_ring.P × r.tx_ring.P
  place_all [] i j fq tx = (fq, tx)
  place_all ((d, ret) ∷ ps) i j fq tx =
      let orig = r.extract_addr d.addr in
      if ret == drop_action
      then place_all ps (next_index i) j (r.fill_ring.write fq i orig) tx
      else if ret == send_action
      then place_all ps i (next_index j) fq
          (r.tx_ring.write tx j (record { addr = orig; len = d.len }))
      else place_all ps i j fq tx

  -- The entries of the receive ring that are released.
  pub release_if : Bool → r.rx_ring.C → ℕ → r.rx_ring.C
  release_if true rx count = r.rx_ring.release rx count
  release_if false rx count = rx

  pub apply_mix_action : List (Desc × Verdict) → Socket r → Outcome (Socket r)
  unfolding prepare action_count try_reserve place_all release_if
  apply_mix_action batch xsk = do
    let packets = map prepare batch
    let drops = action_count drop_action packets
    let sends = action_count send_action packets
    res0 ← try_reserve r.fill_ring xsk.fq drops
    res1 ← try_reserve r.tx_ring xsk.tx sends
    let placed = place_all packets res0.1 res1.1 res0.2 res1.2
    returns (record xsk {
      fq = if res0.0 then r.fill_ring.submit placed.0 drops else placed.0;
      tx = if res1.0 then r.tx_ring.submit placed.1 sends else placed.1;
      rx = release_if res1.0 (release_if res0.0 xsk.rx drops) sends;
      outstanding_tx = (xsk.outstanding_tx + sends) % 2 ^ 32;
    })

  -- When the transmit ring has no room for the packets to send of a batch, none of them is submitted
  -- and their receive entries are not released, but `outstanding_tx` counts them all the same.
  pub apply_mix_action-overcounts :
      (batch : List (Desc × Verdict)) (xsk : Socket r)
      → let packets = map prepare batch in
        let sends = action_count send_action packets in
        action_count drop_action packets ≤ r.fill_ring.free xsk.fq
        → 0 < action_count drop_action packets
        → r.tx_ring.free xsk.tx < sends
        → (xsk' : Socket r) × (apply_mix_action batch xsk ≡ returns xsk')
          × (xsk'.outstanding_tx ≡ (xsk.outstanding_tx + sends) % 2 ^ 32)
          × (xsk'.rx ≡ r.rx_ring.release xsk.rx (action_count drop_action packets))
  unfolding apply_mix_action release_if
  apply_mix_action-overcounts batch xsk room drop_some full =
      let packets = map prepare batch in
      let drops = action_count drop_action packets in
      let sends = action_count send_action packets in
      let res0 = r.fill_ring.reserve xsk.fq drops in
      let res1 = r.tx_ring.reserve xsk.tx sends in
      let placed = place_all packets res0.1 0 res0.2 res1.2 in
      (
        record xsk {
          fq = r.fill_ring.submit placed.0 drops;
          tx = placed.1;
          rx = r.rx_ring.release xsk.rx drops;
          outstanding_tx = (xsk.outstanding_tx + sends) % 2 ^ 32;
        },
        rw
            (
              try_reserve_room r.fill_ring xsk.fq drops drop_some room,
              try_reserve_full r.tx_ring xsk.tx sends full,
            )
            refl,
        refl,
        refl,
      )
