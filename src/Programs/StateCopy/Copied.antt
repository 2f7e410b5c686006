-- ===== src/Programs/StateCopy/Copied.antt =====
-- examples/benchmarks/state_overhead.c: `mymemcpy` is `memcpy`.
use servant.Prelude.{
  ℕ, zero, suc, List, [], ◌∷◌, ◌++◌, ◌+◌, ◌-◌, ◌^◌, ◌≤◌, ◌<◌, ◌≡◌, refl, sym, ap, ap₂, ◌∙◌, leb,
  length, take, drop, memcpy, take-append, length-append, length-take, length-drop, append_assoc,
  append-nil, returns, Bool-cases, inl, inr, le→leb, lt→ltb, leb→le, arith,
}
use servant.Programs.{drop_verdict}
use servant.Programs.StateCopy.{copy_part, copy_loop, mymemcpy, copy_state, state_prog}

module _ {ℓ} {A : Type ℓ} where
  take-drop_add : (i n : ℕ) (xs : List A) → take i xs ++ take n (drop i xs) ≡ take (i + n) xs
  take-drop_add zero n xs = let e : 0 + n ≡ n = omega arith in rw e refl
  take-drop_add (suc i) zero [] = let e : suc i + 0 ≡ suc i = omega arith in rw e refl
  take-drop_add (suc i) (suc n) [] =
      let e : suc i + suc n ≡ suc (i + suc n) = omega arith in rw e refl
  take-drop_add (suc i) n (x ∷ xs) =
      let e : suc i + n ≡ suc (i + n) = omega arith in rw e (ap (λ l. x ∷ l) (take-drop_add i n xs))

  drop-drop : (i n : ℕ) (xs : List A) → drop n (drop i xs) ≡ drop (i + n) xs
  drop-drop zero n xs = let e : 0 + n ≡ n = omega arith in rw e refl
  drop-drop (suc i) zero [] = let e : suc i + 0 ≡ suc i = omega arith in rw e refl
  drop-drop (suc i) (suc n) [] = let e : suc i + suc n ≡ suc (i + suc n) = omega arith in rw e refl
  drop-drop (suc i) n (x ∷ xs) =
      let e : suc i + n ≡ suc (i + n) = omega arith in rw e (drop-drop i n xs)

  drop-append_more :
      (xs ys : List A) (i n : ℕ) → i ≡ length xs → drop (i + n) (xs ++ ys) ≡ drop n ys
  drop-append_more [] ys zero n h = let e : 0 + n ≡ n = omega arith in rw e refl
  drop-append_more [] ys (suc i) n h = absurd (omega arith)
  drop-append_more (x ∷ xs) ys zero n h = absurd (omega arith)
  drop-append_more (x ∷ xs) ys (suc i) n h =
      let e : suc i + n ≡ suc (i + n) = omega arith in
      rw e (drop-append_more xs ys i n (omega arith))

-- A step extends what is copied.
copy_part-memcpy :
    (n i : ℕ) (dst src : List ℕ)
    → i ≤ length src
    → copy_part n i (memcpy dst src i) src ≡ memcpy dst src (i + n)
copy_part-memcpy n i dst src h =
    let front : i ≡ length (take i src) = omega (arith, length-take i src) in
    ap₂ (λ a b. a ++ (take n (drop i src) ++ b)) (take-append (take i src) (drop i dst) i front)
      (drop-append_more (take i src) (drop i dst) i n front ∙ drop-drop i n dst)
    ∙ sym (append_assoc (take i src) (take n (drop i src)) (drop (i + n) dst))
    ∙ ap (λ l. l ++ drop (i + n) dst) (take-drop_add i n src)

length-memcpy :
    (dst src : List ℕ) (i : ℕ)
    → i ≤ length src
    → i ≤ length dst
    → length (memcpy dst src i) ≡ length dst
length-memcpy dst src i h k =
    omega (arith, length-append (take i src) (drop i dst), length-take i src, length-drop i dst)

-- A step that fits.
copy_loop-step :
    (n fuel i size : ℕ) (dst src : List ℕ)
    → i + n ≤ size
    → size < 2 ^ 15
    → size ≤ length dst
    → size ≤ length src
    → copy_loop n (suc fuel) i size dst src
      ≡ copy_loop n fuel (i + n) size (copy_part n i dst src) src
unfolding copy_loop
copy_loop-step n fuel i size dst src h small in_dst in_src =
    rw
      (
        le→leb (i + n) size h,
        le→leb (i + n) (length dst) (omega arith),
        le→leb (i + n) (length src) (omega arith),
        lt→ltb (i + n) (2 ^ 15) (omega arith),
        copy_loop,
      )
      refl

module _ (n size : ℕ) (dst src : List ℕ) (some_bytes : 0 < n) (small : size < 2 ^ 15)
    (in_dst : size ≤ length dst) (in_src : size ≤ length src) where
  -- With fuel for the bytes that are left a loop ends where no step fits, and has copied so far.
  copy_loop-memcpy :
      (fuel i : ℕ)
      → i ≤ size
      → size - i < fuel
      → (j : ℕ) × (copy_loop n fuel i size (memcpy dst src i) src ≡ returns (j, memcpy dst src j))
        × (j ≤ size)
        × (size < j + n)
  unfolding copy_loop
  copy_loop-memcpy zero i h l = absurd (omega arith)
  copy_loop-memcpy (suc fuel) i h l = elim (Bool-cases (leb (i + n) size)) [
    | inr e ↦ (i, rw (e, copy_loop) refl, h, ground (arith, e))
    | inl e ↦
        let fits : i + n ≤ size = leb→le (i + n) size e in
        let (j, rest, le, lt) = copy_loop-memcpy fuel (i + n) fits (omega arith) in
        (
          j,
          copy_loop-step n fuel i size (memcpy dst src i) src fits small
                (omega (arith, length-memcpy dst src i (omega arith) (omega arith))) (omega arith)
              ∙ ap (λ d. copy_loop n fuel (i + n) size d src)
                  (copy_part-memcpy n i dst src (omega arith))
              ∙ rest,
          le,
          lt,
        )
  ]

-- For two buffers apart of `size` bytes at least, fewer than 2 ^ 15, the loops of `mymemcpy` end, and it
-- copies what `memcpy` copies.
pub mymemcpy-memcpy :
    (dst src : List ℕ) (size : ℕ)
    → size < 2 ^ 15
    → size ≤ length dst
    → size ≤ length src
    → mymemcpy dst src size ≡ returns (memcpy dst src size)
unfolding mymemcpy
mymemcpy-memcpy dst src size small in_dst in_src =
    let (j, words, le, _) =
      copy_loop-memcpy 8 size dst src (omega arith) small in_dst in_src (suc size) 0 (omega arith)
        (omega arith) in
    let (k, bytes, le', lt) =
      copy_loop-memcpy 1 size dst src (omega arith) small in_dst in_src (suc size) j le
        (omega arith) in
    let all : k ≡ size = omega arith in rw (words, bytes, all) refl

-- A packet with the state at its end, in the memory: the program reads exactly its last 32 bytes.
pub state_prog-reads :
    {T : Type 0} (inc_tput : T → T) (stack memory : List ℕ) (end_byte : ℕ) (tput : T)
    → length stack ≡ copy_state
    → copy_state ≤ end_byte
    → end_byte ≤ length memory
    → state_prog inc_tput stack memory end_byte tput
      ≡ returns (drop_verdict, take copy_state (drop (end_byte - copy_state) memory), inc_tput tput)
unfolding state_prog
state_prog-reads inc_tput stack memory end_byte tput h k l =
    let copied =
      mymemcpy-memcpy stack (drop (end_byte - copy_state) memory) copy_state (omega arith)
        (omega arith) (omega (arith, length-drop (end_byte - copy_state) memory)) in
    let whole : drop copy_state stack ≡ [] = drop_all stack copy_state (omega arith) in
    rw (le→leb copy_state end_byte k, copied, whole)
      (ap (λ s. returns (drop_verdict, s, inc_tput tput)) (append-nil _))
  where
    drop_all : (xs : List ℕ) (i : ℕ) → length xs ≤ i → drop i xs ≡ []
    drop_all [] zero p = refl
    drop_all [] (suc i) p = refl
    drop_all (x ∷ xs) zero p = absurd (omega arith)
    drop_all (x ∷ xs) (suc i) p = drop_all xs i (omega arith)
