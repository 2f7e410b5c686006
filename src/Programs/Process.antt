-- ===== src/Programs/Process.antt =====
-- examples/benchmarks/packet_processing.c, built with USE_TX: the headers of a packet are read twice, as
-- the load balancer Katran does, and the packet is sent back.
use servant.Prelude.Text.{str_eq}
use servant.Prelude.{
  ℕ, Bool, List, replicate, take, ◌==◌, Outcome, not, ◌≤◌, ◌>>=◌, length, Option, ◌%◌, ◌++◌, drop,
  ◌&&◌, if◌then◌else◌, ◌+◌, ◌≡◌, ◌^◌, returns, some, ltb, none, false, true, undefined, ◌*◌, ◌≢◌,
  suc, ◌>>◌, set, require, zero, ◌-◌, arith, ge→ltb, ne→==, refl,
}
use servant.Prelude.Int.{word_bytes}
use servant.Prelude.Text.{str_eq}
use servant.Programs.{byte, swap_mac, drop_verdict, send_verdict, is_ip}

-- `struct packet_description`, as far as the program sets it.
pub record PacketDescription : Type 0 where
  pub src : List ℕ
  pub dst : List ℕ
  pub proto : ℕ
  pub tos : ℕ

abbrev pub no_description : PacketDescription
no_description = record { src = replicate 16 0; dst = replicate 16 0; proto = 0; tos = 0 }

-- Where `process_l3_headers` leaves off: with an action, or with `*pkt_bytes` and the packet.
pub data Processed : Type 0 where
  action : ℕ → Processed
  further : PacketDescription → ℕ → List ℕ → Processed

abbrev pub field : ℕ → ℕ → List ℕ → List ℕ
field at n pkt = take n (drop at pkt)

-- The branch of IPv6. Behind its tests `iph->tos++` is done through a pointer that was never set.
unfoldable pub process_ipv6 : List ℕ → Outcome Processed
process_ipv6 pkt =
    if ltb (length pkt) 54
    then returns (action drop_verdict)
    else if byte pkt 20 == 44
    then returns (action drop_verdict)
    else if byte pkt 20 == 58
    then returns (action drop_verdict)
    else undefined

-- `iph->frag_off & PCKT_FRAGMENTED`, 65343 on the bytes as they lie.
abbrev pub is_fragment : List ℕ → Bool
is_fragment pkt = not (byte pkt 20 % 64 == 0 && byte pkt 21 == 0)

-- The branch of IPv4. The unions `src` and `dst` keep what stands behind their first four bytes.
unfoldable pub process_ipv4 : PacketDescription → List ℕ → Outcome Processed
process_ipv4 pckt pkt =
    let described : PacketDescription = record {
      src = field 26 4 pkt ++ drop 4 pckt.src;
      dst = field 30 4 pkt ++ drop 4 pckt.dst;
      proto = byte pkt 23;
      tos = byte pkt 15;
    } in
    if ltb (length pkt) 34
    then returns (action drop_verdict)
    else if not (byte pkt 14 % 16 == 5)
    then returns (action drop_verdict)
    else if is_fragment pkt
    then returns (action drop_verdict)
    else if byte pkt 23 == 1
    then returns (action drop_verdict)
    else returns (
        further described (2 ^ 8 * byte pkt 16 + byte pkt 17)
          (set pkt 15 ((byte pkt 15 + 1) % 2 ^ 8)))

-- `process_l3_headers`
unfoldable pub process_l3_headers : Bool → PacketDescription → List ℕ → Outcome Processed
process_l3_headers is_ipv6 pckt pkt = if is_ipv6 then process_ipv6 pkt else process_ipv4 pckt pkt

-- `*((int *)(data + 23)) += 1`; the sum must be an int.
unfoldable pub bump : List ℕ → Outcome (List ℕ)
bump pkt = do
  let word = byte pkt 23 + 2 ^ 8 * byte pkt 24 + 2 ^ 16 * byte pkt 25 + 2 ^ 24 * byte pkt 26
  require (not (word == 2 ^ 31 - 1))
  returns (take 23 pkt ++ (word_bytes ((word + 1) % 2 ^ 32) ++ drop 27 pkt))

-- The rest of a round of the loop, behind `process_l3_headers`: none is that the program drops the packet.
unfoldable pub check_packet : PacketDescription → ℕ → List ℕ → Outcome (Option (List ℕ))
check_packet pckt pkt_bytes pkt =
    let bumped : Outcome (Option (List ℕ)) = bump pkt >>= λ p. returns (some p) in
    if pkt_bytes == 0
    then returns none
    else if str_eq (take 4 pckt.src) (take 4 pckt.dst)
    then returns none
    else if ltb 48 (length pkt)
    then bumped
    else returns (some pkt)

-- The loop, with so many rounds left: its verdict, or none if it goes on behind the loop.
unfoldable pub process_rounds : ℕ → Bool → PacketDescription → List ℕ → Outcome (Option ℕ × List ℕ)
process_rounds zero is_ipv6 pckt pkt = returns (none, pkt)
process_rounds (suc left) is_ipv6 pckt pkt = do
  out ← process_l3_headers is_ipv6 pckt pkt
  elim out [
    | action a ↦ returns (some a, pkt)
    | further described pkt_bytes marked ↦ do
      checked ← check_packet described pkt_bytes marked
      elim checked [
        | none ↦ returns (some drop_verdict, marked)
        | some next ↦ process_rounds left is_ipv6 described next
      ]
  ]

-- `eth_proto == BE_ETH_P_IPV6`
abbrev pub is_ip6 : List ℕ → Bool
is_ip6 pkt = byte pkt 12 == 0x86 && byte pkt 13 == 0xdd

-- `bpf_prog`, from the loop on.
unfoldable pub process_from_loop : Bool → List ℕ → Outcome (ℕ × List ℕ)
process_from_loop is_ipv6 pkt = do
  out ← process_rounds 2 is_ipv6 no_description pkt
  elim out.0 [
    | some verdict ↦ returns (verdict, out.1)
    | none ↦ returns (send_verdict, swap_mac out.1)
  ]

-- `bpf_prog`
unfoldable pub process : List ℕ → Outcome (ℕ × List ℕ)
process pkt =
    if ltb (length pkt) 14
    then returns (drop_verdict, pkt)
    else if is_ip pkt
    then process_from_loop false pkt
    else if is_ip6 pkt
    then process_from_loop true pkt
    else returns (drop_verdict, pkt)

process_ipv6_lem :
    (pkt : List ℕ)
    → 54 ≤ length pkt
    → byte pkt 20 ≢ 44
    → byte pkt 20 ≢ 58
    → process_ipv6 pkt ≡ undefined
unfolding process_ipv6
process_ipv6_lem pkt l f c =
    rw (ge→ltb (length pkt) 54 l, ne→== (byte pkt 20) 44 f, ne→== (byte pkt 20) 58 c) refl

-- A packet of IPv6 that is neither short, nor a fragment, nor of ICMP has no defined end.
process-ipv6_undefined :
    (pkt : List ℕ)
    → 54 ≤ length pkt
    → is_ip6 pkt ≡ true
    → byte pkt 20 ≢ 44
    → byte pkt 20 ≢ 58
    → process pkt ≡ undefined
unfolding process process_from_loop process_rounds process_l3_headers
process-ipv6_undefined pkt l i f c =
    let not_ip : is_ip pkt ≡ false = ground arith in
    rw (process, ge→ltb (length pkt) 14 (omega arith), not_ip, i, process_ipv6_lem pkt l f c) refl
