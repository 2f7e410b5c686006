-- ===== src/Programs/Answer.antt =====
-- The exchange of all the fields of a packet undoes itself.
use servant.Prelude.{
  if◌then◌else◌, ltb, leb, ◌&&◌, ◌-◌, ℕ, Bool, List, length, ◌+◌, ◌≡◌, ◌≤◌, ◌∙◌, true, false, ◌<◌,
  ap, ◌%◌, arith, refl,
}
use servant.Programs.{byte, swap_fields, swap_mac, swap_ip, udp_offset, is_ip, is_udp}
use servant.Programs.Swap.{
  byte-swap_fields, swap_index, swap_index-below, swap_index-above, length-swap_fields,
  swap_fields-swap_fields, swap_fields_comm,
}

-- A byte in front of both fields, or behind them, stays.
pub byte-kept_below :
    (n i j k : ℕ) (pkt : List ℕ)
    → i + n ≤ j
    → j + n ≤ length pkt
    → k < i
    → byte (swap_fields n i j pkt) k ≡ byte pkt k
byte-kept_below n i j k pkt h l lt =
    byte-swap_fields n i j k pkt h l ∙ ap (byte pkt) (swap_index-below n i j k h lt)

pub byte-kept_above :
    (n i j k : ℕ) (pkt : List ℕ)
    → i + n ≤ j
    → j + n ≤ length pkt
    → j + n ≤ k
    → byte (swap_fields n i j pkt) k ≡ byte pkt k
byte-kept_above n i j k pkt h l le =
    byte-swap_fields n i j k pkt h l ∙ ap (byte pkt) (swap_index-above n i j k h le)

-- An IP packet that has its headers, with a header of IP of at least 20 bytes.
abbrev pub IsEchoable : List ℕ → Type 0
IsEchoable pkt =
    (34 ≤ length pkt)
    × (is_ip pkt ≡ true)
    × (5 ≤ byte pkt 14 % 16)
    × (is_udp pkt ≡ true → udp_offset pkt + 8 ≤ length pkt)

-- The ports, if the packet is one of UDP.
abbrev pub ports : Bool → ℕ → List ℕ → List ℕ
ports true off pkt = swap_fields 2 off (off + 2) pkt
ports false off pkt = pkt

-- The answer.
abbrev pub answer : Bool → ℕ → List ℕ → List ℕ
answer udp off pkt = ports udp off (swap_ip (swap_mac pkt))

pub length-answer : (udp : Bool) (off : ℕ) (pkt : List ℕ) → length (answer udp off pkt) ≡ length pkt
length-answer true off pkt =
    length-swap_fields 2 off (off + 2) (swap_ip (swap_mac pkt))
    ∙ length-swap_fields 4 26 30 (swap_mac pkt)
    ∙ length-swap_fields 6 0 6 pkt
length-answer false off pkt =
    length-swap_fields 4 26 30 (swap_mac pkt) ∙ length-swap_fields 6 0 6 pkt

abbrev pub HasPorts : Bool → ℕ → List ℕ → Type 0
HasPorts udp off pkt = (34 ≤ length pkt) × (34 ≤ off) × (udp ≡ true → off + 8 ≤ length pkt)

-- The bytes that decide what the programs do.
pub byte-swap_ip-swap_mac :
    (k : ℕ) (pkt : List ℕ)
    → 34 ≤ length pkt
    → 12 ≤ k
    → k < 26
    → byte (swap_ip (swap_mac pkt)) k ≡ byte pkt k
byte-swap_ip-swap_mac k pkt l a b =
    byte-kept_below 4 26 30 k (swap_mac pkt) (omega arith)
      (omega (arith, length-swap_fields 6 0 6 pkt)) b
    ∙ byte-kept_above 6 0 6 k pkt (omega arith) (omega arith) a

pub byte-answer :
    (udp : Bool) (off k : ℕ) (pkt : List ℕ)
    → HasPorts udp off pkt
    → 12 ≤ k
    → k < 26
    → byte (answer udp off pkt) k ≡ byte pkt k
byte-answer false off k pkt (l, o, p) a b = byte-swap_ip-swap_mac k pkt l a b
byte-answer true off k pkt (l, o, p) a b =
    byte-kept_below 2 off (off + 2) k (swap_ip (swap_mac pkt)) (omega arith)
      (omega (arith, length-answer false off pkt, p refl)) (omega arith)
    ∙ byte-swap_ip-swap_mac k pkt l a b

-- Without the ports an answer undoes itself.
answer-plain : (pkt : List ℕ) → 34 ≤ length pkt → swap_ip (swap_mac (swap_ip (swap_mac pkt))) ≡ pkt
answer-plain pkt l =
    let len : length (swap_mac pkt) ≡ length pkt = length-swap_fields 6 0 6 pkt in
    ap swap_ip (
      swap_fields_comm 6 0 6 4 26 30 (swap_mac pkt) (omega arith) (omega arith) (omega arith)
        (omega arith))
    ∙ swap_fields-swap_fields 4 26 30 (swap_mac (swap_mac pkt)) (omega arith)
        (omega (arith, length-swap_fields 6 0 6 (swap_mac pkt)))
    ∙ swap_fields-swap_fields 6 0 6 pkt (omega arith) (omega arith)

pub answer-answer :
    (udp : Bool) (off : ℕ) (pkt : List ℕ)
    → HasPorts udp off pkt
    → answer udp off (answer udp off pkt) ≡ pkt
answer-answer false off pkt (l, o, p) = answer-plain pkt l
answer-answer true off pkt (l, o, p) =
    let q : List ℕ = swap_ip (swap_mac pkt) in
    let len : length (swap_ip (swap_mac pkt)) ≡ length pkt = length-answer false off pkt in
    let len' : length (swap_mac (swap_ip (swap_mac pkt))) ≡ length pkt =
      length-swap_fields 6 0 6 (swap_ip (swap_mac pkt)) ∙ len in
    let room : off + 8 ≤ length pkt = p refl in
    let out : swap_ip (swap_mac (ports true off q)) ≡ ports true off (swap_ip (swap_mac q)) =
      ap swap_ip (
        swap_fields_comm 6 0 6 2 off (off + 2) q (omega arith) (omega arith) (omega arith)
          (omega arith))
      ∙ swap_fields_comm 4 26 30 2 off (off + 2) (swap_mac q) (omega arith) (omega arith)
          (omega arith) (omega arith) in
    ap (ports true off) (out ∙ ap (ports true off) (answer-plain pkt l))
    ∙ swap_fields-swap_fields 2 off (off + 2) pkt (omega arith) (omega arith)

-- Where the byte at `k` of an answer stands in the packet: the 6 bytes of a MAC address at 0 and at 6, the
-- 4 of an address of IP at 26 and at 30 and the 2 of a port at the header of UDP change places.
unfoldable pub origin : Bool → ℕ → ℕ → ℕ
origin udp off k =
    if ltb k 6
    then k + 6
    else if ltb k 12
    then k - 6
    else if leb 26 k && ltb k 30
    then k + 4
    else if leb 30 k && ltb k 34
    then k - 4
    else if udp && leb off k && ltb k (off + 2)
    then k + 2
    else if udp && leb (off + 2) k && ltb k (off + 4)
    then k - 2
    else k

origin-plain : (off k : ℕ) → swap_index 6 0 6 (swap_index 4 26 30 k) ≡ origin false off k
unfolding origin
origin-plain off k = ground arith

origin-ports :
    (off k : ℕ) → 34 ≤ off → origin false off (swap_index 2 off (off + 2) k) ≡ origin true off k
unfolding origin
origin-ports off k h = ground arith

byte-swap_ip :
    (off k : ℕ) (pkt : List ℕ)
    → 34 ≤ length pkt
    → byte (swap_ip (swap_mac pkt)) k ≡ byte pkt (origin false off k)
byte-swap_ip off k pkt l =
    byte-swap_fields 4 26 30 k (swap_mac pkt) (omega arith)
      (omega (arith, length-swap_fields 6 0 6 pkt))
    ∙ byte-swap_fields 6 0 6 (swap_index 4 26 30 k) pkt (omega arith) (omega arith)
    ∙ ap (byte pkt) (origin-plain off k)

pub byte-answer-origin :
    (udp : Bool) (off k : ℕ) (pkt : List ℕ)
    → HasPorts udp off pkt
    → byte (answer udp off pkt) k ≡ byte pkt (origin udp off k)
byte-answer-origin false off k pkt (l, o, p) = byte-swap_ip off k pkt l
byte-answer-origin true off k pkt (l, o, p) =
    byte-swap_fields 2 off (off + 2) k (swap_ip (swap_mac pkt)) (omega arith)
      (omega (arith, length-answer false off pkt, p refl))
    ∙ byte-swap_ip off (swap_index 2 off (off + 2) k) pkt l
    ∙ ap (byte pkt) (origin-ports off k o)
