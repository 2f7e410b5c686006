-- ===== src/Programs/IncHead/Stale.antt =====
-- examples/benchmarks/test_inc_pkt_head.c: the headers that it answers are what stood in front of the packet.
use servant.Prelude.{ℕ, List, ◌+◌, ◌-◌, ◌≤◌, ◌≡◌, ◌≢◌, length}
use servant.Programs.{byte, swap_fields}
use servant.Programs.HeadRoom.{Context, mark_header}

-- The memory after the addresses of IP were exchanged 26 bytes behind `a`.
abbrev pub answered_memory : ℕ → List ℕ → List ℕ
answered_memory a m = swap_fields 4 (a + 26) (a + 30) (mark_header a m)

-- A packet with room in front of it, whose byte where the longer packet has its protocol is not that of UDP.
abbrev pub HasStaleRoom : Context → Type 0
HasStaleRoom c =
    (32 ≤ c.at_byte)
    × (c.at_byte + 2 ≤ c.end_byte)
    × (c.end_byte ≤ length c.memory)
    × (byte c.memory (c.at_byte - 9) ≢ 17)

-- What the program has done to the packet itself.
abbrev pub IsStale : Context → Context → Type 0
IsStale c c' =
    (c'.at_byte + 32 ≡ c.at_byte)
    × (byte c'.memory c.at_byte ≡ byte c.memory (c.at_byte - 4))
    × (byte c'.memory (c.at_byte + 1) ≡ byte c.memory (c.at_byte - 3))
    × ((k : ℕ) → c.at_byte + 2 ≤ k → byte c'.memory k ≡ byte c.memory k)
