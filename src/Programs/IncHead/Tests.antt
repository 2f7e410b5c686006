-- ===== src/Programs/IncHead/Tests.antt =====
-- A run of examples/benchmarks/test_inc_pkt_head.c on a packet of 42 bytes.
use servant.Prelude.{
  ℕ, suc, List, [], ◌∷◌, ◌++◌, ◌≡◌, refl, set, take, drop, replicate, Outcome, returns, ◌>>=◌,
  undefined,
}
use servant.Programs.{drop_verdict, swap_fields}
use servant.Programs.HeadRoom.{Context, increase_head}
use servant.Programs.IncHead.{inc_pkt_head, inc_eth, inc_ip, inc_udp, fill_extra}

-- Its room has the bytes 7, and 64 bytes are free behind it.
abbrev stale_room : Context
stale_room = record {
  memory = replicate 32 7 ++ (replicate 42 1 ++ replicate 64 0);
  at_byte = 32;
  end_byte = 74;
  pkt_len = 42;
  trimmed = 0;
}

-- A room that says UDP, with a header of IP of 20 bytes: the packet's bytes are taken for the header of UDP.
abbrev udp_room : Context
udp_room = record stale_room { memory = set (set stale_room.memory 23 17) 14 69 }

-- The length that is read is then 257, and the payload would be written behind the memory.
inc_pkt_head-wild : inc_pkt_head suc udp_room 0 ≡ undefined
unfolding inc_pkt_head inc_eth inc_ip inc_udp increase_head swap_fields
inc_pkt_head-wild = refl

-- With the length 0 it is written over the packet, 8 bytes behind where the header is read.
abbrev short_room : Context
short_room = record udp_room { memory = set (set udp_room.memory 38 0) 39 0 }

abbrev shown : ℕ × Context × ℕ → Outcome (ℕ × List ℕ × ℕ)
shown out = returns (out.0, take 6 (drop 40 out.1.memory), out.2)

inc_pkt_head-payload :
    (inc_pkt_head suc short_room 0 >>= shown)
    ≡ returns (drop_verdict, 1 ∷ 1 ∷ 48 ∷ 49 ∷ 50 ∷ 51 ∷ [], 1)
unfolding inc_pkt_head inc_eth inc_ip inc_udp fill_extra increase_head swap_fields
inc_pkt_head-payload = refl
