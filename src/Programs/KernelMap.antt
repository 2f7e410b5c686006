-- ===== src/Programs/KernelMap.antt =====
-- examples/kernel_map_example: the XDP program of xdp.c, which runs in the kernel and writes what it
-- finds in a packet to a map, and the program of ubpf.c, which runs on the same packet in Servant and
-- prints what the map has. `struct data` is that of common.h.
pub mod Handover
mod Tests
use servant.Prelude.Int.{word_bytes}
use servant.Prelude.{
  ℕ, zero, suc, List, [], ◌∷◌, ◌++◌, Bool, true, false, not, ◌&&◌, Option, some, none,
  if◌then◌else◌, ltb, leb, ◌==◌, ◌+◌, ◌-◌, ◌*◌, ◌%◌, ◌^◌, length, get_elem?, set, Outcome, returns,
  undefined, ◌>>=◌, or_undefined,
}
use servant.Programs.{byte, is_ip, drop_verdict}

abbrev pub max_payload_size : ℕ
max_payload_size = 256

abbrev pub num_entries : ℕ
num_entries = 1024

-- `struct data`; `payload` has `max_payload_size` bytes.
pub record Data : Type 0 where
  pub ether_type : ℕ
  pub ip_proto : ℕ
  pub len : ℕ
  pub payload : List ℕ
  pub count : ℕ

-- The maps: the value of `test_map`, and the entries of `data_map`.
pub record Maps : Type 0 where
  pub test_map : List ℕ
  pub data_map : List Data

-- What becomes of a packet: the kernel goes on with it, or it goes to the socket of its queue.
pub data XdpAction : Type 0 where
  xdp_pass redirect_map : XdpAction

-- `ntohs` of the two bytes at `k`.
abbrev pub ntohs : List ℕ → ℕ → ℕ
ntohs pkt k = byte pkt k * 256 + byte pkt (k + 1)

-- The loop that copies the payload, with so many rounds left, at the byte `i`.
unfoldable pub copy_payload : ℕ → ℕ → List ℕ → List ℕ → List ℕ
copy_payload zero i pkt payload = payload
copy_payload (suc left) i pkt payload =
    let rest = copy_payload left (i + 1) pkt (set payload i (byte pkt (42 + i))) in
    if leb (42 + i + 1) (length pkt) && ltb i max_payload_size then rest else payload

-- `len - sizeof(struct udphdr)`, an unsigned short.
abbrev pub payload_len : List ℕ → ℕ
payload_len pkt = (ntohs pkt 38 + 2 ^ 16 - 8) % 2 ^ 16

-- From the bound of the UDP header on.
unfoldable pub parse_udp : List ℕ → Data → XdpAction × Data
unfolding copy_payload
parse_udp pkt d = if ltb (length pkt) 42 then (xdp_pass, d) else (
  redirect_map,
  record d { len = payload_len pkt; payload = copy_payload (payload_len pkt) 0 pkt d.payload },
)

-- From the bound of the IP header on.
unfoldable pub parse_ip : List ℕ → Data → XdpAction × Data
unfolding parse_udp
parse_ip pkt d =
    let known = record d { ip_proto = byte pkt 23 } in
    if ltb (length pkt) 34
    then (xdp_pass, d)
    else if byte pkt 23 == 17
    then parse_udp pkt known
    else (xdp_pass, known)

-- From the bound of the Ethernet header on.
unfoldable pub parse_packet : List ℕ → Data → XdpAction × Data
unfolding parse_ip
parse_packet pkt d =
    let known = record d { ether_type = ntohs pkt 12 } in
    if ltb (length pkt) 14
    then (xdp_pass, d)
    else if ntohs pkt 12 == 0x800
    then parse_ip pkt known
    else (xdp_pass, known)

-- `_ubpf_map_test`
unfoldable pub ubpf_map_test : List ℕ → Maps → XdpAction × Maps
unfolding parse_packet
ubpf_map_test pkt m = elim (get_elem? m.test_map 0) [
  | none ↦ (xdp_pass, m)
  | some val ↦
      let counted = (val + 1) % 2 ^ 32 in
      let index = counted % num_entries in
      let m1 = record m { test_map = set m.test_map 0 counted } in
      elim (get_elem? m.data_map index) [
        | none ↦ (xdp_pass, m1)
        | some d ↦
            let out = parse_packet pkt (record d { count = counted }) in
            (out.0, record m1 { data_map = set m.data_map index out.1 })
      ]
]

-- What `%s` prints of bytes: those before the first zero. None: there is no zero, and the reading goes
-- on behind them.
unfoldable pub c_string : List ℕ → Option (List ℕ)
c_string [] = none
c_string (c ∷ cs) =
    let rest = c_string cs in
    if c == 0 then some [] else elim rest [ none ↦ none | some text ↦ some (c ∷ text) ]

-- What the program of ubpf.c prints.
pub record Printed : Type 0 where
  pub eth_proto : ℕ
  pub ip_proto : ℕ
  pub payload_size : ℕ
  pub payload : List ℕ
  pub count : ℕ
  pub total : ℕ

-- `bpf_prog` of ubpf.c: its verdict and what it prints. It tests no result of `lookup`. The bytes of
-- `count` stand behind those of `payload`.
unfoldable pub print_packet : Maps → Outcome (ℕ × Printed)
unfolding c_string
print_packet m = do
  count ← or_undefined (get_elem? m.test_map 0)
  d ← or_undefined (get_elem? m.data_map (count % num_entries))
  text ← or_undefined (c_string (d.payload ++ word_bytes d.count))
  returns (
    drop_verdict,
    record {
      eth_proto = d.ether_type;
      ip_proto = d.ip_proto;
      payload_size = d.len;
      payload = text;
      count = d.count;
      total = count;
    },
  )
