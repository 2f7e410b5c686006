-- ===== src/Channel/Layout.antt =====
-- Where the parts of the shared region lie.
use servant.Prelude.{ℕ, ◌+◌, ◌*◌, ◌%◌, ◌^◌, ◌≤◌, ◌<◌, ◌≡◌, arith}
use servant.Channel.{count_rings}
use servant.Channel.Connect.{
  round_to_64, sizeof_channel, sizeof_msg, ring_at, objs_at, shared_region_size,
}
use servant.Channel.Ring.{Rings}

-- `ROUND_TO_64` gives a multiple of 64 that is strictly above its argument, by at most 64.
pub round_to_64_bounds :
    (x : ℕ)
    → x + 64 < 2 ^ 64
    → (x < round_to_64 x) × (round_to_64 x ≤ x + 64) × (round_to_64 x % 64 ≡ 0)
round_to_64_bounds x h = omega arith

-- In a region that the creator mapped at `buf`, with at most 2^29 slots and rings of less than 2^32
-- bytes, below the end of the address space: the header, ring 0, ring 1 and the message slots follow
-- one another without overlap, each within the region; from a mapping aligned to 64 bytes each part
-- is aligned to 64 bytes too.
pub layout_disjoint :
    (ring : Rings) (buf slots : ℕ)
    → slots ≤ 2 ^ 29
    → ring.bytes_with_slots slots < 2 ^ 32
    → buf < 2 ^ 63
    → buf % 64 ≡ 0
    → (buf + sizeof_channel ≤ ring_at ring buf slots 0)
      × (ring_at ring buf slots 0 + ring.bytes_with_slots slots ≤ ring_at ring buf slots 1)
      × (ring_at ring buf slots 1 + ring.bytes_with_slots slots ≤ objs_at ring buf slots)
      × (objs_at ring buf slots + count_rings * slots * sizeof_msg
          ≤ buf + shared_region_size ring slots)
      × (ring_at ring buf slots 1 % 64 ≡ 0)
      × (objs_at ring buf slots % 64 ≡ 0)
layout_disjoint ring buf slots hs hr hb ha = omega arith
