-- ===== src/Programs/Echo.antt =====
-- What comes back from the programs that answer a packet: the packet with its addresses and ports
-- exchanged, and after a second answer the packet itself.
use servant.Prelude.{
  ℕ, List, Bool, length, ◌≡◌, ◌+◌, ◌≤◌, true, ap, false, ◌∙◌, arith, ◌%◌, refl, ap₂, ◌==◌, ◌&&◌,
  ◌*◌, if◌then◌else◌, ltb, ge→ltb, not, sym, subst, returns, require, leb, le→leb, ◌>>◌, ◌||◌,
}
use servant.Programs.{
  byte, swap_fields, swap_mac, swap_ip, udp_offset, is_ip, is_udp, echo, send_verdict, dump,
  swap_ports,
}
use servant.Programs.Swap.{length-swap_fields}
use servant.Programs.Answer.{
  IsEchoable, HasPorts, origin, byte-answer-origin, answer, ports, length-answer, byte-kept_above,
  byte-swap_ip-swap_mac, byte-answer, answer-answer,
}

reply : List ℕ → List ℕ
reply pkt = answer (is_udp pkt) (udp_offset pkt) pkt

-- Tests of bytes that are the same give the same.
is_ip-eq : (p q : List ℕ) → byte p 12 ≡ byte q 12 → byte p 13 ≡ byte q 13 → is_ip p ≡ is_ip q
is_ip-eq p q a b = ap₂ (λ x y. x == 8 && y == 0) a b

echoable-HasPorts : (pkt : List ℕ) → IsEchoable pkt → HasPorts (is_udp pkt) (udp_offset pkt) pkt
echoable-HasPorts pkt (l, i, h, u) = (l, omega arith, u)

-- The way through the tests of a packet that is answered.
echo_path {ℓ} :
    {A : Type ℓ} (b1 b2 b3 b4 u b5 : Bool) (x1 x2 x3 x4 x5 : ℕ × A) (y z : A)
    → b1 ≡ false
    → b2 ≡ true
    → b3 ≡ true
    → b4 ≡ false
    → (u ≡ true → b5 ≡ false)
    → (if b1
        then x1
        else if not b2
        then x2
        else if b3
        then (if b4
            then x3
            else if not u
            then (send_verdict, y)
            else if b5
            then x5
            else (send_verdict, z))
        else x4)
      ≡ (send_verdict, if u then z else y)
echo_path b1 b2 b3 b4 true b5 x1 x2 x3 x4 x5 y z h1 h2 h3 h4 h = rw (h1, h2, h3, h4, h refl) refl
echo_path b1 b2 b3 b4 false b5 x1 x2 x3 x4 x5 y z h1 h2 h3 h4 h = rw (h1, h2, h3, h4) refl

ports_if :
    (u : Bool) (off : ℕ) (q : List ℕ)
    → (if u then swap_fields 2 off (off + 2) q else q) ≡ ports u off q
ports_if true off q = refl
ports_if false off q = refl

is_ip-swap_mac : (pkt : List ℕ) → IsEchoable pkt → is_ip (swap_mac pkt) ≡ true
is_ip-swap_mac pkt (l, i, h, u) =
    is_ip-eq (swap_mac pkt) pkt
      (byte-kept_above 6 0 6 12 pkt (omega arith) (omega arith) (omega arith))
      (byte-kept_above 6 0 6 13 pkt (omega arith) (omega arith) (omega arith))
    ∙ i

is_udp-swap_ip : (pkt : List ℕ) → 34 ≤ length pkt → is_udp (swap_ip (swap_mac pkt)) ≡ is_udp pkt
is_udp-swap_ip pkt l =
    ap (λ x. x == 17) (byte-swap_ip-swap_mac 23 pkt l (omega arith) (omega arith))

udp_offset-swap_ip :
    (pkt : List ℕ) → 34 ≤ length pkt → udp_offset (swap_ip (swap_mac pkt)) ≡ udp_offset pkt
udp_offset-swap_ip pkt l =
    ap (λ x. 14 + x % 16 * 4) (byte-swap_ip-swap_mac 14 pkt l (omega arith) (omega arith))

-- The answer, as the programs come to it.
swapped-reply :
    (pkt : List ℕ)
    → 34 ≤ length pkt
    → (let q = swap_ip (swap_mac pkt) in if is_udp q then swap_ports q else q) ≡ reply pkt
unfolding reply
swapped-reply pkt l =
    ports_if (is_udp (swap_ip (swap_mac pkt))) (udp_offset (swap_ip (swap_mac pkt)))
      (swap_ip (swap_mac pkt))
    ∙ ap₂ (λ b o. ports b o (swap_ip (swap_mac pkt))) (is_udp-swap_ip pkt l)
        (udp_offset-swap_ip pkt l)

echo-reply : (pkt : List ℕ) → IsEchoable pkt → echo pkt ≡ (send_verdict, reply pkt)
unfolding echo
echo-reply pkt e =
    let (l, i, h, u) = e in
    let m : length (swap_mac pkt) ≡ length pkt = length-swap_fields 6 0 6 pkt in
    echo_path (ltb (length pkt) 14) (is_ip pkt) (is_ip (swap_mac pkt))
      (ltb (length (swap_mac pkt)) 34) (is_udp (swap_ip (swap_mac pkt)))
      (ltb (length (swap_mac pkt)) (udp_offset (swap_ip (swap_mac pkt)) + 8)) _ _ _ _ _ _ _
      (ge→ltb (length pkt) 14 (omega arith)) i (is_ip-swap_mac pkt e)
      (ge→ltb (length (swap_mac pkt)) 34 (omega arith))
      (λ v.
        ge→ltb (length (swap_mac pkt)) (udp_offset (swap_ip (swap_mac pkt)) + 8)
          (omega (arith, udp_offset-swap_ip pkt l, m, u (sym (is_udp-swap_ip pkt l) ∙ v))))
    ∙ ap (λ x. (send_verdict, x)) (swapped-reply pkt l)

dump_path {ℓ} :
    {A : Type ℓ} (b1 i b2 u b3 : Bool) (x : ℕ × A) (y z : A)
    → b1 ≡ true
    → i ≡ true
    → b2 ≡ true
    → (u ≡ true → b3 ≡ true)
    → (require b1 >> elim i [
      | true ↦ require b2 >> (require (not u || b3) >> returns (send_verdict, if u then z else y))
      | false ↦ returns x
    ])
      ≡ returns (send_verdict, if u then z else y)
dump_path b1 i b2 true b3 x y z h1 hi h2 h3 = rw (h1, hi, h2, h3 refl) refl
dump_path b1 i b2 false b3 x y z h1 hi h2 h3 = rw (h1, hi, h2) refl

dump-reply : (pkt : List ℕ) → IsEchoable pkt → dump pkt ≡ returns (send_verdict, reply pkt)
unfolding dump
dump-reply pkt e =
    let (l, i, h, u) = e in
    let m : length (swap_mac pkt) ≡ length pkt = length-swap_fields 6 0 6 pkt in
    dump_path (leb 14 (length pkt)) (is_ip (swap_mac pkt)) (leb 34 (length (swap_mac pkt)))
      (is_udp (swap_ip (swap_mac pkt)))
      (leb (udp_offset (swap_ip (swap_mac pkt)) + 4) (length (swap_mac pkt))) _ _ _
      (le→leb 14 (length pkt) (omega arith)) (is_ip-swap_mac pkt e)
      (le→leb 34 (length (swap_mac pkt)) (omega arith))
      (λ v.
        le→leb (udp_offset (swap_ip (swap_mac pkt)) + 4) (length (swap_mac pkt))
          (omega (arith, udp_offset-swap_ip pkt l, m, u (sym (is_udp-swap_ip pkt l) ∙ v))))
    ∙ ap (λ x. returns (send_verdict, x)) (swapped-reply pkt l)

-- The tests of the answer are those of the packet.
is_udp-reply : (pkt : List ℕ) → IsEchoable pkt → is_udp (reply pkt) ≡ is_udp pkt
unfolding reply
is_udp-reply pkt e =
    ap (λ x. x == 17)
      (byte-answer (is_udp pkt) (udp_offset pkt) 23 pkt (echoable-HasPorts pkt e) (omega arith)
        (omega arith))

byte_14-reply : (pkt : List ℕ) → IsEchoable pkt → byte (reply pkt) 14 ≡ byte pkt 14
unfolding reply
byte_14-reply pkt e =
    byte-answer (is_udp pkt) (udp_offset pkt) 14 pkt (echoable-HasPorts pkt e) (omega arith)
      (omega arith)

udp_offset-reply : (pkt : List ℕ) → IsEchoable pkt → udp_offset (reply pkt) ≡ udp_offset pkt
udp_offset-reply pkt e = ap (λ x. 14 + x % 16 * 4) (byte_14-reply pkt e)

length-reply : (pkt : List ℕ) → length (reply pkt) ≡ length pkt
unfolding reply
length-reply pkt = length-answer (is_udp pkt) (udp_offset pkt) pkt

is_ip-reply : (pkt : List ℕ) → IsEchoable pkt → is_ip (reply pkt) ≡ is_ip pkt
unfolding reply
is_ip-reply pkt e =
    let p : HasPorts (is_udp pkt) (udp_offset pkt) pkt = echoable-HasPorts pkt e in
    is_ip-eq (reply pkt) pkt
      (byte-answer (is_udp pkt) (udp_offset pkt) 12 pkt p (omega arith) (omega arith))
      (byte-answer (is_udp pkt) (udp_offset pkt) 13 pkt p (omega arith) (omega arith))

reply-IsEchoable : (pkt : List ℕ) → IsEchoable pkt → IsEchoable (reply pkt)
reply-IsEchoable pkt e =
    let (l, i, h, u) = e in
    (
      omega (arith, length-reply pkt, l),
      is_ip-reply pkt e ∙ i,
      subst (λ x. 5 ≤ x % 16) (sym (byte_14-reply pkt e)) h,
      λ v.
          let room : udp_offset pkt + 8 ≤ length pkt = u (sym (is_udp-reply pkt e) ∙ v) in
          subst (λ o. o + 8 ≤ length (reply pkt)) (sym (udp_offset-reply pkt e))
            (subst (λ n. udp_offset pkt + 8 ≤ n) (sym (length-reply pkt)) room),
    )

reply-reply : (pkt : List ℕ) → IsEchoable pkt → reply (reply pkt) ≡ pkt
unfolding reply
reply-reply pkt e =
    ap₂ (λ b o. answer b o (reply pkt)) (is_udp-reply pkt e) (udp_offset-reply pkt e)
    ∙ answer-answer (is_udp pkt) (udp_offset pkt) pkt (echoable-HasPorts pkt e)

-- A packet of IP over Ethernet with its headers, of UDP or not, is sent back by echo.c in one step, by
-- dump_packet/ubpf.c alike. What is sent back is of the packet's length, with the addresses of MAC and of IP
-- and, for UDP, the ports changed over, and every other byte in its place. A second answer is the packet
-- itself.
pub echo-echo :
    (pkt : List ℕ)
    → IsEchoable pkt
    → (back : List ℕ) × (echo pkt ≡ (send_verdict, back))
      × (dump pkt ≡ returns (send_verdict, back))
      × (length back ≡ length pkt)
      × ((k : ℕ) → byte back k ≡ byte pkt (origin (is_udp pkt) (udp_offset pkt) k))
      × (echo back ≡ (send_verdict, pkt))
unfolding reply
echo-echo pkt e = (
  reply pkt,
  echo-reply pkt e,
  dump-reply pkt e,
  length-reply pkt,
  λ k. byte-answer-origin (is_udp pkt) (udp_offset pkt) k pkt (echoable-HasPorts pkt e),
  echo-reply (reply pkt) (reply-IsEchoable pkt e) ∙ ap (λ x. (send_verdict, x)) (reply-reply pkt e),
)
