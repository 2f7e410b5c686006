-- ===== src/Programs/HeadRoom.antt =====
-- examples/benchmarks/adjust_pkt_size.c, built for the runtime: eight headers of 20 bytes are pushed in
-- front of a packet, which stands in a memory with room before it.
pub mod Pushed
pub mod Answered
use servant.Prelude.{
  ℕ, ◌<◌, List, Outcome, ◌>>=◌, Option, set, suc, ◌>>◌, take, ◌++◌, some, require, ◌≡◌, returns,
  ◌+◌, ltb, leb, undefined, none, if◌then◌else◌, drop, ◌||◌, ◌-◌, zero, gt→leb, ◌%◌, ◌^◌, refl,
}
use servant.Programs.{swap_fields, drop_verdict}

-- `struct pktctx`: `at_byte` and `end_byte` are the places of `data` and `data_end` in the memory; `trimmed` is how
-- much was taken off `trim_head`.
pub record Context : Type 0 where
  pub memory : List ℕ
  pub at_byte : ℕ
  pub end_byte : ℕ
  pub pkt_len : ℕ
  pub trimmed : ℕ

-- `ADJUST_HEAD_INCREASE`: before the memory there is nothing to point to.
unfoldable pub increase_head : ℕ → Context → Outcome Context
increase_head size ctx = do
  require (leb size ctx.at_byte)
  returns (record ctx {
    at_byte = ctx.at_byte - size;
    pkt_len = (ctx.pkt_len + size) % 2 ^ 32;
    trimmed = ctx.trimmed + size;
  })

-- `memcpy(new_eth, old_eth, sizeof(struct ethhdr))`, of the header 20 bytes behind.
abbrev pub copy_header : ℕ → List ℕ → List ℕ
copy_header at_byte memory =
    take at_byte memory ++ (take 14 (drop (at_byte + 20) memory) ++ drop (at_byte + 14) memory)

-- `push_header`: none is FURTHER_PROCESSING.
unfoldable pub push_header : Context → Outcome (Option ℕ × Context)
push_header ctx0 = do
  ctx ← increase_head 20 ctx0
  let out_of_pkt = ltb ctx.end_byte (ctx.at_byte + 14) || ltb ctx.end_byte (ctx.at_byte + 34)
  returns (
      if out_of_pkt
      then (some drop_verdict, ctx)
      else (none, record ctx { memory = copy_header ctx.at_byte ctx.memory }))

-- The loop of `bpf_prog`, with so many rounds left.
unfoldable pub push_headers : ℕ → Context → Outcome (Option ℕ × Context)
push_headers zero ctx = returns (none, ctx)
push_headers (suc left) ctx = do
  out ← push_header ctx
  elim out.0 [ some verdict ↦ returns (some verdict, out.1) | none ↦ push_headers left out.1 ]

-- `swap_mac`, and `eth->h_proto = bpf_htons(ETH_P_IP)`.
abbrev pub mark_header : ℕ → List ℕ → List ℕ
mark_header at_byte memory =
    set (set (swap_fields 6 at_byte (at_byte + 6) memory) (at_byte + 12) 8) (at_byte + 13) 0

-- `bpf_prog`; `inc_tput` is what INC_TPUT does to the map `tput`.
unfoldable pub adjust_pkt_size : {T : Type 0} → (T → T) → Context → T → Outcome (ℕ × Context × T)
adjust_pkt_size inc_tput ctx0 tput = do
  out ← push_headers 8 ctx0
  let ctx = out.1
  elim out.0 [
    | some verdict ↦ returns (verdict, ctx, tput)
    | none ↦ returns (
        if ltb ctx.end_byte (ctx.at_byte + 14) then (drop_verdict, ctx, tput) else (
          drop_verdict,
          record ctx { memory = mark_header ctx.at_byte ctx.memory },
          inc_tput tput,
        ))
  ]

-- Without 20 bytes in front of the packet a header has no place.
push_headers-undefined :
    (left : ℕ) (ctx : Context) → ctx.at_byte < 20 → push_headers (suc left) ctx ≡ undefined
unfolding push_headers push_header increase_head
push_headers-undefined left ctx h = rw (gt→leb 20 ctx.at_byte h) refl
