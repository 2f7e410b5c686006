-- ===== src/Programs/Swap.antt =====
-- The exchange of two fields of a packet: which byte ends where.
use servant.Prelude.{
  [], ◌∷◌, ℕ, ◌+◌, List, if◌then◌else◌, leb, length, suc, ◌<◌, ◌≡◌, ◌&&◌, ◌≤◌, ℕ_discrete, ltb, ◌∙◌,
  arith, get_or, ◌-◌, length-set, set, zero, refl, ap₂, ap, sym, get_or-set_self, get_or-set_ne,
  dec_lt,
}
use servant.Programs.{byte, swap_at, swap_fields}

module _ {ℓ} {A : Type ℓ} where
  -- Two arrays of one length with the same entries are one.
  pub list_ext :
      (xs ys : List A) (d : A)
      → length xs ≡ length ys
      → ((k : ℕ) → get_or xs k d ≡ get_or ys k d)
      → xs ≡ ys
  list_ext [] [] d l h = refl
  list_ext [] (y ∷ ys) d l h = absurd (omega arith)
  list_ext (x ∷ xs) [] d l h = absurd (omega arith)
  list_ext (x ∷ xs) (y ∷ ys) d l h = ap₂ ◌∷◌ (h 0) (list_ext xs ys d (omega arith) (λ k. h (suc k)))

-- Where the byte comes from that an exchange of `n` bytes puts at `k`.
abbrev pub swap_index : ℕ → ℕ → ℕ → ℕ → ℕ
swap_index n i j k =
    if leb i k && ltb k (i + n)
    then k - i + j
    else if leb j k && ltb k (j + n)
    then k - j + i
    else k

pub length-swap_fields : (n i j : ℕ) (pkt : List ℕ) → length (swap_fields n i j pkt) ≡ length pkt
unfolding swap_fields
length-swap_fields zero i j pkt = refl
length-swap_fields (suc n) i j pkt =
    length-swap_fields n (i + 1) (j + 1) (swap_at i j pkt)
    ∙ length-set (set pkt i (byte pkt j)) j (byte pkt i)
    ∙ length-set pkt i (byte pkt j)

byte-swap_at :
    (i j k : ℕ) (pkt : List ℕ)
    → i < j
    → j < length pkt
    → byte (swap_at i j pkt) k ≡ byte pkt (swap_index 1 i j k)
byte-swap_at i j k pkt h l = elim (ℕ_discrete j k) [
  | yes e ↦
      let at_j : i ≡ swap_index 1 i j k = ground arith in
      ap (byte (swap_at i j pkt)) (sym e)
      ∙ get_or-set_self (set pkt i (byte pkt j)) j (byte pkt i) 0
          (omega (arith, length-set pkt i (byte pkt j)))
      ∙ ap (byte pkt) at_j
  | no ne ↦ get_or-set_ne (set pkt i (byte pkt j)) j k (byte pkt i) 0 ne ∙ elim (ℕ_discrete i k) [
    | yes e ↦
        let at_i : j ≡ swap_index 1 i j k = ground arith in
        ap (byte (set pkt i (byte pkt j))) (sym e)
        ∙ get_or-set_self pkt i (byte pkt j) 0 (omega arith)
        ∙ ap (byte pkt) at_i
    | no ne' ↦
        let at_k : k ≡ swap_index 1 i j k = ground arith in
        get_or-set_ne pkt i k (byte pkt j) 0 ne' ∙ ap (byte pkt) at_k
  ]
]

swap_index-step :
    (n i j k : ℕ)
    → i + suc n ≤ j
    → swap_index 1 i j (swap_index n (i + 1) (j + 1) k) ≡ swap_index (suc n) i j k
swap_index-step n i j k h = ground arith

-- The byte at `k` after the exchange of two fields that do not overlap.
pub byte-swap_fields :
    (n i j k : ℕ) (pkt : List ℕ)
    → i + n ≤ j
    → j + n ≤ length pkt
    → byte (swap_fields n i j pkt) k ≡ byte pkt (swap_index n i j k)
unfolding swap_fields
byte-swap_fields zero i j k pkt h l =
    let same : k ≡ swap_index 0 i j k = ground arith in ap (byte pkt) same
byte-swap_fields (suc n) i j k pkt h l =
    byte-swap_fields n (i + 1) (j + 1) k (swap_at i j pkt) (omega arith)
      (omega (arith, length-swap_fields 1 i j pkt))
    ∙ byte-swap_at i j (swap_index n (i + 1) (j + 1) k) pkt (omega arith) (omega arith)
    ∙ ap (byte pkt) (swap_index-step n i j k h)

-- An exchange undoes itself.
pub swap_fields-swap_fields :
    (n i j : ℕ) (pkt : List ℕ)
    → i + n ≤ j
    → j + n ≤ length pkt
    → swap_fields n i j (swap_fields n i j pkt) ≡ pkt
swap_fields-swap_fields n i j pkt h l =
    let len : length (swap_fields n i j pkt) ≡ length pkt = length-swap_fields n i j pkt in
    list_ext _ pkt 0 (length-swap_fields n i j (swap_fields n i j pkt) ∙ len) (λ k.
      let back : swap_index n i j (swap_index n i j k) ≡ k = ground arith in
      byte-swap_fields n i j k (swap_fields n i j pkt) h (omega arith)
      ∙ byte-swap_fields n i j (swap_index n i j k) pkt h l
      ∙ ap (byte pkt) back)

pub swap_index-below : (n i j k : ℕ) → i + n ≤ j → k < i → swap_index n i j k ≡ k
swap_index-below n i j k h l = ground arith

pub swap_index-above : (n i j k : ℕ) → i + n ≤ j → j + n ≤ k → swap_index n i j k ≡ k
swap_index-above n i j k h l = ground arith

swap_index_lt : (n i j k : ℕ) → i + n ≤ j → k < j + n → swap_index n i j k < j + n
swap_index_lt n i j k h l = ground arith

swap_index_ge : (n i j k : ℕ) → i + n ≤ j → i ≤ k → i ≤ swap_index n i j k
swap_index_ge n i j k h l = ground arith

swap_index_comm :
    (n i j m a b k : ℕ)
    → i + n ≤ j
    → j + n ≤ a
    → a + m ≤ b
    → swap_index m a b (swap_index n i j k) ≡ swap_index n i j (swap_index m a b k)
swap_index_comm n i j m a b k h1 h2 h3 = elim (dec_lt k (j + n)) [
  | yes l ↦
      swap_index-below m a b (swap_index n i j k) h3 (omega (arith, swap_index_lt n i j k h1 l))
      ∙ ap (swap_index n i j) (sym (swap_index-below m a b k h3 (omega arith)))
  | no l ↦ elim (dec_lt k a) [
    | yes l' ↦
        ap (swap_index m a b) (swap_index-above n i j k h1 (omega arith))
        ∙ swap_index-below m a b k h3 l'
        ∙ sym (
            ap (swap_index n i j) (swap_index-below m a b k h3 l')
            ∙ swap_index-above n i j k h1 (omega arith))
    | no l' ↦
        ap (swap_index m a b) (swap_index-above n i j k h1 (omega arith))
        ∙ sym (
            swap_index-above n i j (swap_index m a b k) h1
              (omega (arith, swap_index_ge m a b k h3 (omega arith))))
  ]
]

-- Exchanges of fields that do not meet can change places.
pub swap_fields_comm :
    (n i j m a b : ℕ) (pkt : List ℕ)
    → i + n ≤ j
    → j + n ≤ a
    → a + m ≤ b
    → b + m ≤ length pkt
    → swap_fields n i j (swap_fields m a b pkt) ≡ swap_fields m a b (swap_fields n i j pkt)
swap_fields_comm n i j m a b pkt h1 h2 h3 l =
    let len1 : length (swap_fields m a b pkt) ≡ length pkt = length-swap_fields m a b pkt in
    let len2 : length (swap_fields n i j pkt) ≡ length pkt = length-swap_fields n i j pkt in
    list_ext _ _ 0
      (length-swap_fields n i j (swap_fields m a b pkt)
        ∙ len1
        ∙ sym (length-swap_fields m a b (swap_fields n i j pkt) ∙ len2))
      (λ k.
        byte-swap_fields n i j k (swap_fields m a b pkt) h1 (omega arith)
        ∙ byte-swap_fields m a b (swap_index n i j k) pkt h3 l
        ∙ ap (byte pkt) (swap_index_comm n i j m a b k h1 h2 h3)
        ∙ sym (
            byte-swap_fields m a b k (swap_fields n i j pkt) h3 (omega arith)
            ∙ byte-swap_fields n i j (swap_index m a b k) pkt h1 (omega arith)))
