-- ===== src/Heart/Pass.antt =====
-- Packets that the program of `pump_packets` in src/heart.c passes to the application over the channel.
use servant.Prelude.{
  List, ◌≡◌, true, ◌≤◌, ◌+◌, length, ◌∷◌, aborted, ℕ, le→leb, drop, ne→==, arith, eq→==, refl,
}
use servant.Channel.Send.{tx_msg_too_long}
use servant.Heart.{Desc, pass_action, XskRings, Socket, Config}
use servant.Heart.Actions.{Machine, World, send_interpose_msg, pass_on, run_program, pump_batch}
use servant.Heart.Packet.{apply-pass}

-- A packet of 1500 bytes or more, what is left of a full Ethernet frame without its header included,
-- that the program passes while packet injection is on fails the assertion of `vc_tx_msg`: the runtime
-- ends, and the rest of the batch with it.
pub pass-aborts :
    (m : Machine) (r : XskRings) (config : Config) (d : Desc) (ds : List Desc) (w : World m)
    (xsk : Socket r)
    → config.use_packet_injection ≡ true
    → let out = run_program m r d w in
      out.1 ≡ pass_action
      → 1500 ≤ out.0.len
      → r.add_offset_to_addr out.0.addr + out.0.len ≤ length out.2.memory
      → pump_batch m r config (d ∷ ds) w xsk ≡ aborted
unfolding pump_batch pass_on send_interpose_msg
pass-aborts m r config d ds w xsk inj p long fits =
    rw
      (
        apply-pass m r config out.0 out.1 out.2 xsk (ne→== out.1 300 (omega (arith, p)))
            (eq→== out.1 100 p),
        passed,
      )
      refl
  where
    out : Desc × ℕ × World m
    out = run_program m r d w

    passed :
        pass_on m config.use_packet_injection (r.add_offset_to_addr out.0.addr) out.0.len out.2
        ≡ aborted
    passed =
        rw
          (
            inj,
            le→leb (r.add_offset_to_addr out.0.addr + out.0.len) (length out.2.memory) fits,
            tx_msg_too_long m.ring m.vc (drop (r.add_offset_to_addr out.0.addr) out.2.memory)
                out.0.len out.2.channel long,
          )
          refl
