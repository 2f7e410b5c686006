-- ===== src/Programs/HeadRoom/Answered.antt =====
-- examples/benchmarks/adjust_pkt_size.c: the packet with its new header.
use servant.Prelude.{
  ℕ, List, ◌+◌, ◌-◌, ◌≤◌, ◌<◌, ◌≡◌, refl, sym, ap, ◌∙◌, false, if◌then◌else◌, ltb, ◌==◌, length,
  set, length-set, get_or-set_self, get_or-set_ne, lt→ltb, Bool-cases, inl, inr, ℕ_discrete,
  returns, ge→ltb, dec_lt, arith,
}
use servant.Programs.{byte, drop_verdict, swap_fields}
use servant.Programs.Swap.{swap_index, byte-swap_fields, length-swap_fields}
use servant.Programs.Answer.{byte-kept_above}
use servant.Programs.HeadRoom.{Context, mark_header, adjust_pkt_size}
use servant.Programs.HeadRoom.Pushed.{IsPushed, HasRoom, push_headers-IsPushed}

-- The header that the program leaves in front: the one at `a` with its MAC addresses exchanged, of IP.
unfoldable pub front_byte : List ℕ → ℕ → ℕ → ℕ
front_byte m a k =
    if ltb k 6
    then byte m (a + k + 6)
    else if ltb k 12
    then byte m (a + k - 6)
    else if k == 12
    then 8
    else 0

pub byte-mark_header :
    (a : ℕ) (m : List ℕ) (k : ℕ)
    → a + 14 ≤ length m
    → k < 14
    → byte (mark_header a m) (a + k) ≡ front_byte m a k
unfolding front_byte
byte-mark_header a m k h l =
    let swapped : List ℕ = swap_fields 6 a (a + 6) m in
    let size : length swapped ≡ length m = length-swap_fields 6 a (a + 6) m in
    let size' : length (set swapped (a + 12) 8) ≡ length swapped = length-set swapped (a + 12) 8 in
    elim (dec_lt k 12) [
      | yes lt ↦
          let at_k : swap_index 6 a (a + 6) (a + k) ≡ (if ltb k 6 then a + k + 6 else a + k - 6) =
            ground arith in
          get_or-set_ne (set swapped (a + 12) 8) (a + 13) (a + k) 0 0 (omega arith)
          ∙ get_or-set_ne swapped (a + 12) (a + k) 8 0 (omega arith)
          ∙ byte-swap_fields 6 a (a + 6) (a + k) m (omega arith) (omega arith)
          ∙ ap (byte m) at_k
          ∙ rw (lt→ltb k 12 lt)
              (elim (Bool-cases (ltb k 6)) [ inl e ↦ rw e refl | inr e ↦ rw e refl ])
      | no ge ↦ elim (ℕ_discrete k 12) [
        | yes e ↦ rw e (
            get_or-set_ne (set swapped (a + 12) 8) (a + 13) (a + 12) 0 0 (omega arith)
            ∙ get_or-set_self swapped (a + 12) 8 0 (omega arith))
        | no ne ↦
            let last : k ≡ 13 = omega arith in
            rw last (get_or-set_self (set swapped (a + 12) 8) (a + 13) 0 0 (omega arith))
      ]
    ]

pub byte-mark_header_behind :
    (a : ℕ) (m : List ℕ) (k : ℕ)
    → a + 14 ≤ length m
    → a + 14 ≤ k
    → byte (mark_header a m) k ≡ byte m k
byte-mark_header_behind a m k h l =
    let swapped : List ℕ = swap_fields 6 a (a + 6) m in
    get_or-set_ne (set swapped (a + 12) 8) (a + 13) k 0 0 (omega arith)
    ∙ get_or-set_ne swapped (a + 12) k 8 0 (omega arith)
    ∙ byte-kept_above 6 a (a + 6) k m (omega arith) (omega arith) (omega arith)

front_byte-header :
    (m m' : List ℕ) (a a' k : ℕ)
    → ((i : ℕ) → i < 14 → byte m' (a' + i) ≡ byte m (a + i))
    → k < 14
    → front_byte m' a' k ≡ front_byte m a k
unfolding front_byte
front_byte-header m m' a a' k same l = elim (dec_lt k 6) [
  | yes lt ↦
      let up : (b : ℕ) → b + k + 6 ≡ b + (k + 6) = λ b. omega arith in
      rw (lt→ltb k 6 lt)
        (ap (byte m') (up a') ∙ same (k + 6) (omega arith) ∙ ap (byte m) (sym (up a)))
  | no ge ↦ elim (dec_lt k 12) [
    | yes lt ↦
        let down : (b : ℕ) → b + k - 6 ≡ b + (k - 6) = λ b. omega arith in
        rw (ge→ltb k 6 (omega arith), lt→ltb k 12 lt)
          (ap (byte m') (down a') ∙ same (k - 6) (omega arith) ∙ ap (byte m) (sym (down a)))
    | no ge' ↦ rw (ge→ltb k 6 (omega arith), ge→ltb k 12 (omega arith)) refl
  ]
]

-- What adjust_pkt_size.c leaves of a packet.
pub record IsAnswered (c c' : Context) : Type 0 where
  pub moved : c'.at_byte + 160 ≡ c.at_byte
  pub same_end : c'.end_byte ≡ c.end_byte
  pub longer : c'.pkt_len ≡ c.pkt_len + 160
  pub front : (k : ℕ) → k < 14 → byte c'.memory (c'.at_byte + k) ≡ front_byte c.memory c.at_byte k
  pub behind : (k : ℕ) → c.at_byte ≤ k → byte c'.memory k ≡ byte c.memory k

-- A packet with 160 bytes of room in front of it, its Ethernet header and a length that does not wrap gets
-- 160 bytes longer at its front: the new header there is its own with the MAC addresses exchanged and the
-- protocol IP, the packet itself stays as it is, the packet is counted and dropped.
pub adjust_pkt_size-pushes :
    {T : Type 0} (inc_tput : T → T) (c : Context) (tput : T)
    → HasRoom 8 c
    → (c' : Context) × (adjust_pkt_size inc_tput c tput ≡ returns (drop_verdict, c', inc_tput tput))
      × IsAnswered c c'
unfolding adjust_pkt_size
adjust_pkt_size-pushes inc_tput c tput h =
    let out = push_headers-IsPushed 8 c h in
    let d : Context = out.0 in
    let p : IsPushed 8 c d = out.2 in
    let fits : ltb d.end_byte (d.at_byte + 14) ≡ false =
      ge→ltb d.end_byte (d.at_byte + 14) (omega (arith, h.1, p.moved, p.same_end)) in
    let inside : d.at_byte + 14 ≤ length d.memory = omega (arith, h.1, h.2, p.moved, p.same_size) in
    (
      record d { memory = mark_header d.at_byte d.memory },
      rw out.1 (rw fits refl),
      record {
        moved = p.moved;
        same_end = p.same_end;
        longer = p.longer;
        front = λ k l.
            byte-mark_header d.at_byte d.memory k inside l
            ∙ front_byte-header c.memory d.memory c.at_byte d.at_byte k p.header l;
        behind = λ k l.
            byte-mark_header_behind d.at_byte d.memory k inside (omega (arith, p.moved))
            ∙ p.behind k l;
      },
    )
