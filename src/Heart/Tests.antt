-- ===== src/Heart/Tests.antt =====
-- Runs of the packet loop over rings kept as lists, and the theorems at such runs.
use servant.Prelude.Int.{pos}
use servant.Prelude.{
  take, drop, length-replicate, ◌≤◌, ◌≡◌, true, ℕ, [], if◌then◌else◌, List, arith, replicate, ◌==◌,
  false, refl, ◌∷◌, returns, ◌⊎◌, ◌++◌, ◌+◌, length, ◌<◌, aborted, ◌%◌, ◌^◌,
}
use servant.Channel.ListRing.{list_rings, runtime, made}
use servant.Heart.{
  Desc, Socket, Config, sendto_done, kick_if, drop_batch, tx_batch, poll_rx_queue, complete_tx,
}
use servant.Heart.Actions.{
  Machine, World, trim, run_program, pump_batch, apply_action, send_or_drop,
}
use servant.Heart.ListRings.{reserve_made, rings}
use servant.Heart.Moved.{IsIdle, Moved}
use servant.Heart.Batch.{drop_batch-all_or_none, tx_batch-all_or_none}
use servant.Heart.Mix.{
  Verdict, prepare, action_count, apply_mix_action, apply_mix_action-overcounts,
}
use servant.Heart.Pass.{pass-aborts}
use servant.Heart.Peek.{poll_rx_queue_lem, poll_rx_queue-cut}
use servant.Heart.Complete.{complete_tx-recycles, complete_tx-loses}

-- It sends packets of 60 bytes, and drops the others.
abbrev short_sender : Machine
short_sender = record {
  ring = list_rings;
  vc = runtime;
  fn = λ addr len memory. (if len == 60 then 300 else 200, len, pos 0, memory);
  sendto = λ buf. pos 0;
}

-- It passes every packet.
abbrev passer : Machine
passer = record {
  ring = list_rings;
  vc = runtime;
  fn = λ addr len memory. (100, len, pos 14, memory);
  sendto = λ buf. pos 0;
}

abbrev config : Config
config = record {
  copy_mode = true;
  busy_poll = false;
  batch_size = 64;
  use_packet_injection = true;
}

abbrev packets : List Desc
packets = record { addr = 0; len = 60 } ∷ record { addr = 2048; len = 90 } ∷ []

-- Two packets are peeked, one waits; the frames 4096 and 6144 were sent.
abbrev socket : Socket rings
socket = record {
  fq = record { room = 4; first = 0; submitted = []; reserved = [] };
  cq = record { first = 0; taken = []; waiting = 4096 ∷ 6144 ∷ [] };
  rx = record { first = 5; taken = packets; waiting = record { addr = 8192; len = 70 } ∷ [] };
  tx = record { room = 4; first = 0; submitted = []; reserved = [] };
  outstanding_tx = 2;
}

-- The same with a fill ring for one frame.
abbrev narrow : Socket rings
narrow = record socket { fq = record { room = 1; first = 0; submitted = []; reserved = [] } }

abbrev world : World short_sender
world = record { memory = []; channel = made }

abbrev large : World passer
large = record { memory = replicate 1600 0; channel = made }

socket-IsIdle : IsIdle rings socket
socket-IsIdle = record { fill_idle = refl; tx_idle = refl; small = omega arith }

dropped_packets :
    (n : ℕ) × (xsk' : Socket rings) × (drop_batch rings packets socket ≡ returns (n, xsk'))
    × (((n ≡ 2) × Moved rings socket xsk' (0 ∷ 2048 ∷ []) [])
        ⊎ ((n ≡ 0) × (4 < 2) × Moved rings socket xsk' [] []))
dropped_packets = drop_batch-all_or_none rings packets socket socket-IsIdle (omega arith)

sent_packets :
    (n : ℕ) × (xsk' : Socket rings) × (tx_batch rings packets socket ≡ returns (n, xsk'))
    × (((n ≡ 2) × Moved rings socket xsk' [] packets)
        ⊎ ((n ≡ 0) × (4 < 2) × Moved rings socket xsk' [] []))
sent_packets = tx_batch-all_or_none rings packets socket socket-IsIdle (omega arith)

pass-aborts_example :
    pump_batch passer rings config (record { addr = 0; len = 1500 } ∷ []) large socket ≡ aborted
unfolding run_program trim
pass-aborts_example =
    pass-aborts passer rings config (record { addr = 0; len = 1500 }) [] large socket refl refl
      (omega arith) (omega arith)

polled_packets :
    let out = poll_rx_queue rings 64 socket in
    (out.0 ≡ record { addr = 8192; len = 70 } ∷ [])
    × (out.1.rx.taken ≡ packets ++ out.0)
    × (out.1.rx.waiting ≡ [])
polled_packets = poll_rx_queue_lem rings 64 socket (omega arith) (omega arith)

abbrev short_packet : Desc
short_packet = record { addr = 0; len = 60 }

-- So many packets that their number is 0 in 16 bits.
abbrev flooded : Socket rings
flooded = record socket {
  rx = record { first = 0; taken = []; waiting = replicate 65536 short_packet };
}

poll_rx_queue-cut_example :
    let out = poll_rx_queue rings 65536 flooded in
    let packets = take 65536 (replicate 65536 short_packet) in
    (out.0 ≡ take (length packets % 2 ^ 16) packets)
    × (out.1.rx.taken ≡ packets)
    × (out.1.rx.waiting ≡ drop 65536 (replicate 65536 short_packet))
    × (length out.0 + 2 ^ 16 ≤ length packets)
poll_rx_queue-cut_example =
    poll_rx_queue-cut rings 65536 flooded (omega arith)
      (omega (arith, length-replicate 65536 short_packet)) (omega arith)

complete_tx-recycles_example :
    (xsk' : Socket rings) × (complete_tx rings config sendto_done socket ≡ returns (2, xsk'))
    × (xsk'.fq.submitted ≡ 4096 ∷ 6144 ∷ [])
    × (xsk'.fq.reserved ≡ [])
    × (xsk'.outstanding_tx + 2 ≡ 2)
    × (xsk'.cq.waiting ≡ [])
    × (length xsk'.cq.taken ≡ 0)
    × (xsk'.tx ≡ socket.tx)
    × (xsk'.rx ≡ socket.rx)
    × (rings.fill_ring.capacity xsk'.fq ≡ 4)
unfolding kick_if
complete_tx-recycles_example =
    complete_tx-recycles rings config sendto_done socket (omega arith) (omega arith) refl refl
      (omega arith) (omega arith) (omega arith)

complete_tx-loses_example :
    (xsk' : Socket rings) × (complete_tx rings config sendto_done narrow ≡ returns (0, xsk'))
    × (xsk'.fq.submitted ≡ [])
    × (xsk'.outstanding_tx ≡ 2)
    × (xsk'.cq.waiting ≡ [])
    × (xsk'.cq.taken ≡ 4096 ∷ 6144 ∷ [])
unfolding kick_if
complete_tx-loses_example =
    complete_tx-loses rings config sendto_done narrow (omega arith) (omega arith) refl refl
      (omega arith) (omega arith) (omega arith)

-- No room to send.
abbrev clogged : Socket rings
clogged = record socket { tx = record { room = 0; first = 0; submitted = []; reserved = [] } }

abbrev verdicts : List (Desc × Verdict)
verdicts =
    (record { addr = 0; len = 60 }, record { pkt_len = 60; trim_head = pos 0; ret = 300 })
    ∷ (record { addr = 2048; len = 90 }, record { pkt_len = 90; trim_head = pos 0; ret = 200 })
    ∷ []

mixed_overcount :
    (xsk' : Socket rings) × (apply_mix_action rings verdicts clogged ≡ returns xsk')
    × (xsk'.outstanding_tx ≡ 3)
    × (xsk'.rx ≡ record {
      first = 6;
      taken = record { addr = 2048; len = 90 } ∷ [];
      waiting = record { addr = 8192; len = 70 } ∷ [];
    })
unfolding action_count prepare
mixed_overcount =
    apply_mix_action-overcounts rings verdicts clogged (omega arith) (omega arith) (omega arith)

-- The batch by running the code: the packet of 60 bytes is sent, the other's frame recycled.
run-batch :
    pump_batch short_sender rings config packets world socket
    ≡ returns (
      world,
      record socket {
        fq = record { room = 4; first = 1; submitted = 2048 ∷ []; reserved = [] };
        rx = record { first = 7; taken = []; waiting = record { addr = 8192; len = 70 } ∷ [] };
        tx = record {
          room = 4;
          first = 1;
          submitted = record { addr = 0; len = 60 } ∷ [];
          reserved = [];
        };
        outstanding_tx = 3;
      },
    )
unfolding pump_batch apply_action send_or_drop tx_batch reserve_made drop_batch
run-batch = refl
