-- ===== src/Prelude/Reads.antt =====
-- Reads of an array that is a part of another, or made of two.
use servant.Prelude.Lists.{length, get_or, take, drop}
use Prim.Native.Nat.{ℕ, zero, suc, ◌+◌, ◌-◌, ◌≤◌, ◌<◌}
use mathlib.Core.Path.{◌≡◌, refl}
use mathlib.Core.List.{List, [], ◌∷◌, ◌++◌}
use native.Mathlib.Omega.{arith}

module _ {ℓ} {A : Type ℓ} where
  pub get_or-append_left :
      (xs ys : List A) (k : ℕ) (d : A) → k < length xs → get_or (xs ++ ys) k d ≡ get_or xs k d
  get_or-append_left [] ys k d h = absurd (omega arith)
  get_or-append_left (x ∷ xs) ys zero d h = refl
  get_or-append_left (x ∷ xs) ys (suc k) d h = get_or-append_left xs ys k d (omega arith)

  pub get_or-append_right :
      (xs ys : List A) (k : ℕ) (d : A)
      → length xs ≤ k
      → get_or (xs ++ ys) k d ≡ get_or ys (k - length xs) d
  get_or-append_right [] ys k d h = let e : k - 0 ≡ k = omega arith in rw e
  get_or-append_right (x ∷ xs) ys zero d h = absurd (omega arith)
  get_or-append_right (x ∷ xs) ys (suc k) d h =
      let e : suc k - suc (length xs) ≡ k - length xs = omega arith in
      rw e (get_or-append_right xs ys k d (omega arith))

  pub get_or-take :
      (n : ℕ) (xs : List A) (k : ℕ) (d : A) → k < n → get_or (take n xs) k d ≡ get_or xs k d
  get_or-take zero xs k d h = absurd (omega arith)
  get_or-take (suc n) [] k d h = refl
  get_or-take (suc n) (x ∷ xs) zero d h = refl
  get_or-take (suc n) (x ∷ xs) (suc k) d h = get_or-take n xs k d (omega arith)

  pub get_or-drop :
      (n : ℕ) (xs : List A) (k : ℕ) (d : A) → get_or (drop n xs) k d ≡ get_or xs (n + k) d
  get_or-drop zero xs k d = let e : 0 + k ≡ k = omega arith in rw e
  get_or-drop (suc n) [] k d = refl
  get_or-drop (suc n) (x ∷ xs) k d =
      let e : suc n + k ≡ suc (n + k) = omega arith in rw e (get_or-drop n xs k d)
