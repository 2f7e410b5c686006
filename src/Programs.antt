-- ===== src/Programs.antt =====
-- The eBPF programs of examples that answer a packet: examples/benchmarks/echo.c built for the runtime,
-- examples/dump_packet/ubpf.c and examples/userspace_maps/ubpf.c. A packet is its bytes from `data` to
-- `data_end`. What the programs print is left out.
pub mod Swap
pub mod Answer
pub mod Echo
pub mod Process
pub mod HeadRoom
pub mod IncHead
pub mod KernelMap
pub mod HashMap
pub mod Loader
pub mod Report
pub mod TailCall
pub mod StateCopy
mod Tests
use servant.Prelude.{
  ℕ, List, get_or, suc, set, Outcome, Bool, Option, ◌+◌, if◌then◌else◌, take, zero, ◌==◌, ◌%◌, ◌>>◌,
  ltb, require, length, ◌&&◌, drop, ◌*◌, not, leb, true, ◌||◌, false, returns, none, some, ◌^◌,
}

-- `byte[k]` behind the bounds that are tested.
abbrev pub byte : List ℕ → ℕ → ℕ
byte pkt k = get_or pkt k 0

-- The bytes at two places change places.
abbrev pub swap_at : ℕ → ℕ → List ℕ → List ℕ
swap_at i j pkt = set (set pkt i (byte pkt j)) j (byte pkt i)

-- A loop that swaps so many bytes from `i` and from `j` on; it is what the exchange of two fields does.
unfoldable pub swap_fields : ℕ → ℕ → ℕ → List ℕ → List ℕ
swap_fields zero i j pkt = pkt
swap_fields (suc n) i j pkt = swap_fields n (i + 1) (j + 1) (swap_at i j pkt)

-- The verdicts.
abbrev pub pass_verdict : ℕ
pass_verdict = 100

abbrev pub drop_verdict : ℕ
drop_verdict = 200

abbrev pub send_verdict : ℕ
send_verdict = 300

-- `eth->h_proto == htons(ETH_P_IP)`
abbrev pub is_ip : List ℕ → Bool
is_ip pkt = byte pkt 12 == 8 && byte pkt 13 == 0

-- `h_source` and `h_dest`; `saddr` and `daddr`; `source` and `dest`.
abbrev pub swap_mac : List ℕ → List ℕ
swap_mac pkt = swap_fields 6 0 6 pkt

abbrev pub swap_ip : List ℕ → List ℕ
swap_ip pkt = swap_fields 4 26 30 pkt

-- Where the UDP header is: `sizeof(*eth) + (ip->ihl * 4)`.
abbrev pub udp_offset : List ℕ → ℕ
udp_offset pkt = 14 + byte pkt 14 % 16 * 4

abbrev pub swap_ports : List ℕ → List ℕ
swap_ports pkt = swap_fields 2 (udp_offset pkt) (udp_offset pkt + 2) pkt

-- `ip->protocol == IPPROTO_UDP`
abbrev pub is_udp : List ℕ → Bool
is_udp pkt = byte pkt 23 == 17

-- `bpf_prog` of echo.c from its second test of the protocol on, of the packet with its MAC addresses
-- swapped.
unfoldable pub echo_ip : List ℕ → ℕ × List ℕ
echo_ip pkt =
    if ltb (length pkt) 34
    then (drop_verdict, pkt)
    else if not (is_udp (swap_ip pkt))
    then (send_verdict, swap_ip pkt)
    else if ltb (length pkt) (udp_offset (swap_ip pkt) + 8)
    then (drop_verdict, swap_ip pkt)
    else (send_verdict, swap_ports (swap_ip pkt))

-- `bpf_prog` of echo.c: its result and the packet.
unfoldable pub echo : List ℕ → ℕ × List ℕ
unfolding echo_ip
echo pkt =
    if ltb (length pkt) 14
    then (drop_verdict, pkt)
    else if not (is_ip pkt)
    then (pass_verdict, pkt)
    else if is_ip (swap_mac pkt)
    then echo_ip (swap_mac pkt)
    else (send_verdict, swap_mac pkt)

-- `bpf_prog` of dump_packet/ubpf.c: the same without a test of the bounds.
unfoldable pub dump_ip : List ℕ → Outcome (ℕ × List ℕ)
dump_ip pkt = do
  require (leb 34 (length pkt))
  let swapped = swap_ip pkt
  require (not (is_udp swapped) || leb (udp_offset swapped + 4) (length pkt))
  returns (send_verdict, if is_udp swapped then swap_ports swapped else swapped)

unfoldable pub dump : List ℕ → Outcome (ℕ × List ℕ)
unfolding dump_ip
dump pkt = do
  require (leb 14 (length pkt))
  let swapped = swap_mac pkt
  elim (is_ip swapped) [ true ↦ dump_ip swapped | false ↦ returns (send_verdict, swapped) ]

-- The map of userspace_maps/ubpf.c, by what `userspace_lookup` finds: the count and the map behind it.
module _ {M : Type 0} (lookup : List ℕ → M → Option ℕ) (update : List ℕ → ℕ → M → M) where
  -- `(struct iphdr *)eth + 1` is 20 bytes behind the start of the packet.
  abbrev pub ip_at : ℕ
  ip_at = 20

  abbrev pub source_address : List ℕ → List ℕ
  source_address pkt = take 4 (drop (ip_at + 12) pkt)

  -- `bpf_prog` of userspace_maps/ubpf.c; the update of the count wraps at 32 bits.
  unfoldable pub count_packet : List ℕ → M → Outcome (ℕ × List ℕ × M)
  count_packet pkt m = do
    require (leb 14 (length pkt))
    elim (is_ip pkt) [
      | false ↦ returns (drop_verdict, pkt, m)
      | true ↦ do
        require (leb (ip_at + 16) (length pkt))
        elim (lookup (source_address pkt) m) [
          | none ↦ returns (drop_verdict, pkt, update (source_address pkt) 1 m)
          | some n ↦
              returns (send_verdict, swap_mac pkt, update (source_address pkt) ((n + 1) % 2 ^ 32) m)
        ]
    ]
