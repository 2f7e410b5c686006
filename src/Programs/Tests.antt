-- ===== src/Programs/Tests.antt =====
-- Runs of the programs, and the theorem at a packet of UDP.
use servant.Prelude.{
  length, true, ℕ, take, arith, replicate, ◌≡◌, List, none, undefined, refl, returns, ◌∷◌, [], set,
  ◌++◌, drop, suc, ◌>>=◌, Outcome,
}
use servant.Programs.{
  byte, echo, dump, count_packet, swap_fields, send_verdict, drop_verdict, pass_verdict,
}
use servant.Prelude.Text.{str_eq}
use servant.Programs.Process.{
  process, process_from_loop, process_rounds, process_l3_headers, process_ipv4, check_packet,
}
use servant.Programs.StateCopy.{mymemcpy, copy_loop}
use servant.Programs.StateCopy.Copied.{mymemcpy-memcpy}
use servant.Programs.HeadRoom.Answered.{IsAnswered, adjust_pkt_size-pushes}
use servant.Programs.HeadRoom.{Context, adjust_pkt_size, push_headers, push_header, increase_head}
use servant.Programs.Answer.{IsEchoable, origin}
use servant.Programs.Echo.{echo-echo}

-- From 10.0.0.1, port 1, to 10.0.0.2, port 2, with a header of 20 bytes and no payload.
abbrev packet : List ℕ
packet =
    2 ∷ 0 ∷ 0 ∷ 0 ∷ 0 ∷ 2 ∷ 1 ∷ 0 ∷ 0 ∷ 0 ∷ 0 ∷ 1 ∷ 8 ∷ 0 ∷ 69 ∷ 0 ∷ 0 ∷ 28 ∷ 0 ∷ 0 ∷ 0 ∷ 0 ∷ 64
    ∷ 17 ∷ 0 ∷ 0 ∷ 10 ∷ 0 ∷ 0 ∷ 1 ∷ 10 ∷ 0 ∷ 0 ∷ 2 ∷ 0 ∷ 1 ∷ 0 ∷ 2 ∷ 0 ∷ 8 ∷ 0 ∷ 0 ∷ []

abbrev answered : List ℕ
answered =
    1 ∷ 0 ∷ 0 ∷ 0 ∷ 0 ∷ 1 ∷ 2 ∷ 0 ∷ 0 ∷ 0 ∷ 0 ∷ 2 ∷ 8 ∷ 0 ∷ 69 ∷ 0 ∷ 0 ∷ 28 ∷ 0 ∷ 0 ∷ 0 ∷ 0 ∷ 64
    ∷ 17 ∷ 0 ∷ 0 ∷ 10 ∷ 0 ∷ 0 ∷ 2 ∷ 10 ∷ 0 ∷ 0 ∷ 1 ∷ 0 ∷ 2 ∷ 0 ∷ 1 ∷ 0 ∷ 8 ∷ 0 ∷ 0 ∷ []

echo-packet : echo packet ≡ (send_verdict, answered)
unfolding echo swap_fields
echo-packet = refl

-- A packet that is cut inside its UDP header is dropped, with its addresses exchanged.
echo-short : (echo (take 40 packet)).0 ≡ drop_verdict
unfolding echo swap_fields
echo-short = refl

echo-arp : echo (replicate 42 1) ≡ (pass_verdict, replicate 42 1)
unfolding echo
echo-arp = refl

-- The program does not test the length.
dump-short : dump (take 30 packet) ≡ undefined
unfolding dump swap_fields
dump-short = refl

-- The address that is counted is not that of the sender, 10.0.0.1.
count_packet-key :
    count_packet {M = List ℕ} (λ key m. none) (λ key n m. key) packet []
    ≡ returns (drop_verdict, packet, 0 ∷ 2 ∷ 0 ∷ 1 ∷ [])
unfolding count_packet
count_packet-key = refl

packet-IsEchoable : IsEchoable packet
packet-IsEchoable = (omega arith, refl, omega arith, λ h. omega arith)

echo-echo_example :
    (back : List ℕ) × (echo packet ≡ (send_verdict, back))
    × (dump packet ≡ returns (send_verdict, back))
    × (length back ≡ length packet)
    × ((k : ℕ) → byte back k ≡ byte packet (origin true 34 k))
    × (echo back ≡ (send_verdict, packet))
echo-echo_example = echo-echo packet packet-IsEchoable

-- Two rounds count the type of service to 2, and the MAC addresses change places.
process-packet :
    process packet
    ≡ returns (
      send_verdict,
      1 ∷ 0 ∷ 0 ∷ 0 ∷ 0 ∷ 1 ∷ 2 ∷ 0 ∷ 0 ∷ 0 ∷ 0 ∷ 2 ∷ 8 ∷ 0 ∷ 69 ∷ 2 ∷ drop 16 packet,
    )
unfolding process process_from_loop process_rounds process_l3_headers process_ipv4 check_packet
    swap_fields str_eq
process-packet = refl

process-fragment : process (set packet 20 1) ≡ returns (drop_verdict, set packet 20 1)
unfolding process process_from_loop process_rounds process_l3_headers process_ipv4
process-fragment = refl

-- A packet without room for the headers in front of it.
adjust_pkt_size-cramped :
    adjust_pkt_size {T = ℕ} suc
      (record { memory = packet; at_byte = 0; end_byte = 42; pkt_len = 42; trimmed = 0 })
      0
    ≡ undefined
unfolding adjust_pkt_size push_headers push_header increase_head
adjust_pkt_size-cramped = refl

-- With room for them, the last header is that of the packet, 160 bytes in front of it.
abbrev roomy : Context
roomy = record {
  memory = replicate 160 0 ++ packet;
  at_byte = 160;
  end_byte = 202;
  pkt_len = 42;
  trimmed = 0;
}

abbrev view : ℕ × Context × ℕ → Outcome (ℕ × List ℕ × ℕ × ℕ)
view out = returns (out.0, take 14 out.1.memory, out.1.pkt_len, out.2)

adjust_pkt_size-header :
    (adjust_pkt_size suc roomy 0 >>= view) ≡ returns (drop_verdict, take 14 answered, 202, 1)
unfolding adjust_pkt_size push_headers push_header increase_head swap_fields
adjust_pkt_size-header = refl

adjust_pkt_size-pushes_example :
    (c' : Context) × (adjust_pkt_size suc roomy 0 ≡ returns (drop_verdict, c', 1))
    × IsAnswered roomy c'
adjust_pkt_size-pushes_example =
    adjust_pkt_size-pushes suc roomy 0 (omega arith, omega arith, omega arith, omega arith)

mymemcpy-memcpy_example : mymemcpy (replicate 12 0) packet 11 ≡ returns (take 11 packet ++ 0 ∷ [])
mymemcpy-memcpy_example =
    mymemcpy-memcpy (replicate 12 0) packet 11 (omega arith) (omega arith) (omega arith)

-- One word and three bytes.
mymemcpy-eleven : mymemcpy (replicate 12 0) packet 11 ≡ returns (take 11 packet ++ 0 ∷ [])
unfolding mymemcpy copy_loop
mymemcpy-eleven = refl
