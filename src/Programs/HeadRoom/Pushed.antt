-- ===== src/Programs/HeadRoom/Pushed.antt =====
-- The loop of examples/benchmarks/adjust_pkt_size.c: the header that it copies to the front, and that the
-- packet itself stays.
use servant.Prelude.{
  ℕ, zero, suc, List, ◌++◌, ◌+◌, ◌-◌, ◌*◌, ◌^◌, ◌%◌, ◌≤◌, ◌<◌, ◌≡◌, refl, ap, ◌∙◌, true, false,
  none, leb, ltb, length, take, drop, length-append, length-take, length-drop, get_or-append_left,
  get_or-append_right, get_or-take, get_or-drop, returns, le→leb, ge→ltb, arith,
}
use servant.Programs.{byte}
use servant.Programs.HeadRoom.{Context, increase_head, copy_header, push_header, push_headers}

length-copy_header : (a : ℕ) (m : List ℕ) → a + 34 ≤ length m → length (copy_header a m) ≡ length m
length-copy_header a m h = omega (
  arith,
  length-append (take a m) (take 14 (drop (a + 20) m) ++ drop (a + 14) m),
  length-append (take 14 (drop (a + 20) m)) (drop (a + 14) m),
  length-take a m,
  length-take 14 (drop (a + 20) m),
  length-drop (a + 20) m,
  length-drop (a + 14) m,
)

-- The copied header.
byte-copy_header :
    (a : ℕ) (m : List ℕ) (k : ℕ)
    → a + 34 ≤ length m
    → k < 14
    → byte (copy_header a m) (a + k) ≡ byte m (a + 20 + k)
byte-copy_header a m k h l =
    let front : length (take a m) ≡ a = omega (arith, length-take a m) in
    let header : length (take 14 (drop (a + 20) m)) ≡ 14 =
      omega (arith, length-take 14 (drop (a + 20) m), length-drop (a + 20) m) in
    let at_k : a + k - length (take a m) ≡ k = omega arith in
    get_or-append_right (take a m) _ (a + k) 0 (omega arith)
    ∙ ap (byte (take 14 (drop (a + 20) m) ++ drop (a + 14) m)) at_k
    ∙ get_or-append_left (take 14 (drop (a + 20) m)) (drop (a + 14) m) k 0 (omega arith)
    ∙ get_or-take 14 (drop (a + 20) m) k 0 l
    ∙ get_or-drop (a + 20) m k 0

-- What stands behind it.
byte-copy_header_behind :
    (a : ℕ) (m : List ℕ) (k : ℕ)
    → a + 34 ≤ length m
    → a + 14 ≤ k
    → byte (copy_header a m) k ≡ byte m k
byte-copy_header_behind a m k h l =
    let front : length (take a m) ≡ a = omega (arith, length-take a m) in
    let header : length (take 14 (drop (a + 20) m)) ≡ 14 =
      omega (arith, length-take 14 (drop (a + 20) m), length-drop (a + 20) m) in
    let at_k : a + 14 + (k - length (take a m) - length (take 14 (drop (a + 20) m))) ≡ k =
      omega arith in
    get_or-append_right (take a m) _ k 0 (omega arith)
    ∙ get_or-append_right (take 14 (drop (a + 20) m)) (drop (a + 14) m) (k - length (take a m)) 0
        (omega arith)
    ∙ get_or-drop (a + 14) m _ 0
    ∙ ap (byte m) at_k

-- So many headers of 20 bytes in front of a packet.
pub record IsPushed (n : ℕ) (c c' : Context) : Type 0 where
  pub moved : c'.at_byte + 20 * n ≡ c.at_byte
  pub same_end : c'.end_byte ≡ c.end_byte
  pub longer : c'.pkt_len ≡ c.pkt_len + 20 * n
  pub untrimmed : c'.trimmed ≡ c.trimmed + 20 * n
  pub same_size : length c'.memory ≡ length c.memory
  pub header : (k : ℕ) → k < 14 → byte c'.memory (c'.at_byte + k) ≡ byte c.memory (c.at_byte + k)
  pub behind : (k : ℕ) → c.at_byte ≤ k → byte c'.memory k ≡ byte c.memory k

-- A packet that has its first header and lies in the memory behind so much room.
abbrev pub HasRoom : ℕ → Context → Type 0
HasRoom n c =
    (20 * n ≤ c.at_byte)
    × (c.at_byte + 14 ≤ c.end_byte)
    × (c.end_byte ≤ length c.memory)
    × (c.pkt_len + 20 * n < 2 ^ 32)

push_header-pushes :
    (c : Context)
    → HasRoom 1 c
    → (c' : Context) × (push_header c ≡ returns (none, c')) × IsPushed 1 c c'
unfolding push_header increase_head
push_header-pushes c h =
    let a : ℕ = c.at_byte - 20 in
    let room : leb 20 c.at_byte ≡ true = le→leb 20 c.at_byte (omega (arith, h.0)) in
    let fits : ltb c.end_byte (a + 14) ≡ false = ge→ltb c.end_byte (a + 14) (omega (arith, h.1)) in
    let fits' : ltb c.end_byte (a + 34) ≡ false =
      ge→ltb c.end_byte (a + 34) (omega (arith, h.0, h.1)) in
    let small : (c.pkt_len + 20) % 2 ^ 32 ≡ c.pkt_len + 20 = omega (arith, h.3) in
    let at_20 : a + 20 ≡ c.at_byte = omega (arith, h.0) in
    let inside : a + 34 ≤ length c.memory = omega (arith, h.0, h.1, h.2) in
    let c' : Context = record c {
      memory = copy_header a c.memory;
      at_byte = a;
      pkt_len = (c.pkt_len + 20) % 2 ^ 32;
      trimmed = c.trimmed + 20;
    } in
    (
      c',
      rw (room, fits, fits') refl,
      record {
        moved = omega (arith, at_20);
        same_end = refl;
        longer = omega (arith, small);
        untrimmed = omega arith;
        same_size = length-copy_header a c.memory inside;
        header =
            λ k l. byte-copy_header a c.memory k inside l ∙ ap (λ i. byte c.memory (i + k)) at_20;
        behind = λ k l. byte-copy_header_behind a c.memory k inside (omega arith);
      },
    )

-- The headers of two parts of the loop are those of the whole.
IsPushed-step :
    (n : ℕ) (c c' c'' : Context) → IsPushed 1 c c' → IsPushed n c' c'' → IsPushed (suc n) c c''
IsPushed-step n c c' c'' p q = record {
  moved = omega (arith, p.moved, q.moved);
  same_end = q.same_end ∙ p.same_end;
  longer = omega (arith, p.longer, q.longer);
  untrimmed = omega (arith, p.untrimmed, q.untrimmed);
  same_size = q.same_size ∙ p.same_size;
  header = λ k l. q.header k l ∙ p.header k l;
  behind = λ k l. q.behind k (omega (arith, p.moved)) ∙ p.behind k l;
}

pub push_headers-IsPushed :
    (n : ℕ) (c : Context)
    → HasRoom n c
    → (c' : Context) × (push_headers n c ≡ returns (none, c')) × IsPushed n c c'
unfolding push_headers
push_headers-IsPushed zero c h = (
  c,
  refl,
  record {
    moved = omega arith;
    same_end = refl;
    longer = omega arith;
    untrimmed = omega arith;
    same_size = refl;
    header = λ k l. refl;
    behind = λ k l. refl;
  },
)
push_headers-IsPushed (suc n) c h =
    let one = push_header-pushes c (omega (arith, h.0), h.1, h.2, omega (arith, h.3)) in
    let p : IsPushed 1 c one.0 = one.2 in
    let rest = push_headers-IsPushed n one.0 (
      omega (arith, h.0, p.moved),
      omega (arith, h.1, p.moved, p.same_end),
      omega (arith, h.2, p.same_end, p.same_size),
      omega (arith, h.3, p.longer),
    ) in
    (rest.0, rw one.1 rest.1, IsPushed-step n c one.0 rest.0 p rest.2)
