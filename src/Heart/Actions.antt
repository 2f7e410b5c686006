-- ===== src/Heart/Actions.antt =====
-- The actions on packets and the loop of `pump_packets` in src/heart.c, with the functions of
-- src/interpose_link.c and src/udp_socket.c that pass a packet to the application. Built as it is,
-- without VM_CALL_BATCHING and USE_POLL; the throughput that SHOW_THROUGHPUT prints is left out.
use servant.Prelude.Int.{ℤ, pos, negsuc}
use servant.Prelude.{
  Outcome, ℕ, Bool, List, ◌>>=◌, ◌>>◌, take, ◌∷◌, returns, ◌+◌, require, [], leb, ◌%◌, length, ◌^◌,
  ◌==◌, drop, ◌-◌, true, false,
}
use servant.Channel.{SharedChannel, VChannel, tx_msg}
use servant.Channel.Ring.{Rings}
use servant.Heart.{
  Desc, XskRings, Socket, drop_batch, tx_batch, Config, Sent, send_action, complete_tx,
  poll_rx_queue, pass_action,
}

-- What the packets are handed to: the eBPF program that ubpf compiled, which gets the place of the
-- packet in the memory of the socket and its length, and gives its result, `pkt_len`, `trim_head` and
-- the memory; and the socket of the application, by the result of `sendto`.
pub record Machine : Type 1 where
  pub ring : Rings
  pub vc : VChannel
  pub fn : ℕ → ℕ → List ℕ → ℕ × ℕ × ℤ × List ℕ
  pub sendto : List ℕ → ℤ

pub record World (m : Machine) : Type 0 where
  pub memory : List ℕ
  pub channel : SharedChannel m.ring.R

-- `addr += trim_head`, a uint64_t and an int32_t.
unfoldable pub trim : ℕ → ℤ → ℕ
trim addr (pos n) = (addr + n) % 2 ^ 64
trim addr (negsuc n) = (addr + 2 ^ 64 - (n + 1)) % 2 ^ 64

module _ (m : Machine) where
  -- `send_interpose_msg`
  unfoldable pub send_interpose_msg : List ℕ → ℕ → World m → Outcome (ℤ × World m)
  send_interpose_msg buf size w = do
    out ← tx_msg m.ring m.vc buf size w.channel
    returns (out.0, record w { channel = out.1 })

  -- `send_udp_socket_msg`
  unfoldable pub send_udp_socket_msg : List ℕ → ℕ → World m → ℤ × World m
  send_udp_socket_msg buf size w = (m.sendto (take size buf), w)

  -- The bytes at `ctx`, and how the packet at hand is passed on. What it returns is only logged.
  unfoldable pub pass_on : Bool → ℕ → ℕ → World m → Outcome (ℤ × World m)
  unfolding send_interpose_msg send_udp_socket_msg
  pass_on use_packet_injection addr len w = do
    require (leb (addr + len) (length w.memory))
    let buf = drop addr w.memory
    elim use_packet_injection [
      | true ↦ send_interpose_msg buf len w
      | false ↦ returns (send_udp_socket_msg buf len w)
    ]

  module _ (r : XskRings) where
    -- The branch SEND of `apply_action`.
    unfoldable pub send_or_drop : Desc → Socket r → Outcome (Socket r)
    send_or_drop desc xsk = do
      out ← tx_batch r (desc ∷ []) xsk
      elim (out.0 == 1) [
        | true ↦ returns out.1
        | false ↦ do dropped ← drop_batch r (desc ∷ []) out.1; returns dropped.1
      ]

    -- `apply_action`; the results of `drop` are only logged.
    unfoldable pub apply_action :
        Config → Desc → ℕ → World m → Socket r → Outcome (World m × Socket r)
    unfolding send_or_drop pass_on
    apply_action config desc action w xsk = elim (action == send_action) [
      | true ↦ do xsk' ← send_or_drop desc xsk; returns (w, xsk')
      | false ↦ elim (action == pass_action) [
        | true ↦ do
          let addr = r.add_offset_to_addr desc.addr
          passed ← pass_on config.use_packet_injection addr desc.len w
          dropped ← drop_batch r (desc ∷ []) xsk
          returns (passed.1, dropped.1)
        | false ↦ do dropped ← drop_batch r (desc ∷ []) xsk; returns (w, dropped.1)
      ]
    ]

    -- What the program makes of a packet: the descriptor, the action and the memory.
    unfoldable pub run_program : Desc → World m → Desc × ℕ × World m
    unfolding trim
    run_program desc w =
        let out = m.fn (r.add_offset_to_addr desc.addr) desc.len w.memory in
        (
          record { addr = trim desc.addr out.2; len = out.1 % 2 ^ 32 },
          out.0 % 2 ^ 32,
          record w { memory = out.3 },
        )

    -- The `for` loop of `pump_packets` over the packets of a batch.
    unfoldable pub pump_batch :
        Config → List Desc → World m → Socket r → Outcome (World m × Socket r)
    unfolding run_program apply_action
    pump_batch config [] w xsk = returns (w, xsk)
    pump_batch config (d ∷ ds) w xsk = do
      let out = run_program d w
      next ← apply_action config out.0 out.1 out.2 xsk
      pump_batch config ds next.0 next.1

    -- What lies before an iteration of `for(;;)`: what the kernel did to the rings since the last
    -- one, and how a `sendto` ends.
    pub record Round : Type 0 where
      pub kernel : Socket r → Socket r
      pub kick : Sent

    -- One iteration.
    unfoldable pub pump_once : Config → Round → World m → Socket r → Outcome (World m × Socket r)
    unfolding pump_batch
    pump_once config round w xsk0 = do
      let xsk = round.kernel xsk0
      done ← complete_tx r config round.kick xsk
      let got = poll_rx_queue r config.batch_size done.1
      pump_batch config got.0 w got.1

    -- The loop of `pump_packets`: these iterations, and then `config.terminate` is set.
    unfoldable pub pump_packets :
        Config → List Round → World m → Socket r → Outcome (World m × Socket r)
    unfolding pump_once
    pump_packets config [] w xsk = returns (w, xsk)
    pump_packets config (round ∷ rounds) w xsk = do
      next ← pump_once config round w xsk
      pump_packets config rounds next.0 next.1
