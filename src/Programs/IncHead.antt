-- ===== src/Programs/IncHead.antt =====
-- examples/benchmarks/test_inc_pkt_head.c, built for the runtime: a packet is made 32 bytes longer at its
-- front, without a move of its headers there, and then answered as if they had been moved.
pub mod Stale
mod Tests
use servant.Prelude.{
  ℕ, zero, suc, List, ◌+◌, ◌-◌, ◌*◌, ◌%◌, ◌/◌, ◌^◌, ◌==◌, ltb, leb, ◌||◌, ◌&&◌, Bool, true, false,
  if◌then◌else◌, length, set, Outcome, returns, ◌>>=◌, ◌>>◌, require,
}
use servant.Programs.{byte, swap_fields, drop_verdict}
use servant.Programs.HeadRoom.{Context, increase_head, mark_header}

-- `INCSIZE`
abbrev pub inc_size : ℕ
inc_size = 32

-- The two bytes of a field in the order of the network.
abbrev pub field_at : ℕ → List ℕ → ℕ
field_at i m = byte m i * 256 + byte m (i + 1)

abbrev pub set_field : ℕ → ℕ → List ℕ → List ℕ
set_field i v m = set (set m i (v / 256 % 256)) (i + 1) (v % 256)

-- `payload_extra`, behind the header at `udp`: `curlen` is a short, and negative from 2 ^ 15 on.
abbrev pub extra_at : ℕ → ℕ → Outcome ℕ
extra_at udp curlen = do
  require (ltb curlen (2 ^ 15) || leb (2 ^ 16) (udp + 8 + curlen))
  returns (if ltb curlen (2 ^ 15) then udp + 8 + curlen else udp + 8 + curlen - 2 ^ 16)

-- The loop that writes the payload, from the turn `k` on.
unfoldable pub fill_extra : ℕ → ℕ → ℕ → List ℕ → List ℕ
fill_extra zero k extra m = m
fill_extra (suc left) k extra m = fill_extra left (k + 1) extra (set m (extra + k) (k % 10 + 48))

-- The branch of UDP, with the header at `udp`: ports, lengths, and a payload wherever its length says.
unfoldable pub inc_udp : ℕ → Context → Outcome Context
inc_udp udp ctx = do
  let swapped = swap_fields 2 udp (udp + 2) ctx.memory
  let curlen = field_at (udp + 4) swapped
  extra ← extra_at udp curlen
  let longer = set_field (udp + 4) ((curlen + inc_size) % 2 ^ 16) swapped
  let ip = ctx.at_byte + 14
  let marked = set_field (ip + 2) ((ctx.end_byte - ip) % 2 ^ 16) longer
  require (leb (extra + inc_size) (length marked))
  returns (record ctx { memory = fill_extra inc_size 0 extra marked })

-- `bpf_prog` from the header of IP on: the addresses, and what UDP has more. The flag is that the packet
-- is dropped before it is counted.
unfoldable pub inc_ip : Context → Outcome (Bool × Context)
inc_ip ctx0 = do
  let a = ctx0.at_byte
  let ctx : Context = record ctx0 { memory = swap_fields 4 (a + 26) (a + 30) ctx0.memory }
  let udp = a + 14 + byte ctx.memory (a + 14) % 16 * 4
  elim (byte ctx.memory (a + 23) == 17) [
    | false ↦ returns (false, ctx)
    | true ↦ elim (ltb ctx.end_byte (udp + 8)) [
      | true ↦ returns (true, ctx)
      | false ↦ do answered ← inc_udp udp ctx; returns (false, answered)
    ]
  ]

-- `eth->h_proto == bpf_htons(ETH_P_IP)`
abbrev pub says_ip : ℕ → List ℕ → Bool
says_ip a m = byte m (a + 12) == 8 && byte m (a + 13) == 0

-- `bpf_prog` behind the adjustment. The protocol is tested after it was set to that of IP.
unfoldable pub inc_eth : {T : Type 0} → (T → T) → Context → T → Outcome (ℕ × Context × T)
inc_eth inc_tput ctx tput =
    let a : ℕ = ctx.at_byte in
    let marked : Context = record ctx { memory = mark_header a ctx.memory } in
    elim (ltb ctx.end_byte (a + 14)) [
      | true ↦ returns (drop_verdict, ctx, tput)
      | false ↦ elim (says_ip a marked.memory) [
        | false ↦ returns (drop_verdict, marked, inc_tput tput)
        | true ↦ elim (ltb ctx.end_byte (a + 34)) [
          | true ↦ returns (drop_verdict, marked, tput)
          | false ↦ do
            out ← inc_ip marked
            returns (drop_verdict, out.1, if out.0 then tput else inc_tput tput)
        ]
      ]
    ]

-- `bpf_prog`
unfoldable pub inc_pkt_head : {T : Type 0} → (T → T) → Context → T → Outcome (ℕ × Context × T)
inc_pkt_head inc_tput ctx0 tput = do ctx ← increase_head inc_size ctx0; inc_eth inc_tput ctx tput
