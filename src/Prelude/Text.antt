-- ===== src/Prelude/Text.antt =====
-- C strings as lists of character codes: comparison, and `atoi` of the C library.
use Prim.Native.Nat.{ℕ, ◌+◌, ◌-◌, ◌*◌, ◌%◌, ◌^◌}
use mathlib.Core.Path.{◌≡◌, refl}
use mathlib.Core.Bool.{Bool, true, false, ◌&&◌, ◌||◌}
use mathlib.Core.List.{List, [], ◌∷◌}
use native.Mathlib.Omega.{arith}
use servant.Prelude.Int.{ℤ, pos, negsuc, to_int}
use servant.Prelude.Tests.{leb, ◌==◌, if◌then◌else◌}

-- `!strcmp(a, b)`
unfoldable pub str_eq : List ℕ → List ℕ → Bool
str_eq [] [] = true
str_eq [] (y ∷ ys) = false
str_eq (x ∷ xs) [] = false
str_eq (x ∷ xs) (y ∷ ys) = x == y && str_eq xs ys

pub str_eq_refl : (s : List ℕ) → str_eq s s ≡ true
unfolding str_eq
str_eq_refl [] = refl
str_eq_refl (x ∷ xs) = ground (arith, str_eq_refl xs)

abbrev pub is_digit : ℕ → Bool
is_digit c = leb b'0' c && leb c b'9'

abbrev is_space : ℕ → Bool
is_space c = c == 32 || (leb 9 c && leb c 13)

-- The number that the leading digits write, after `acc`.
pub digits : ℕ → List ℕ → ℕ
digits acc [] = acc
digits acc (c ∷ cs) =
    let rest = digits (acc * 10 + (c - b'0')) cs in if is_digit c then rest else acc

abbrev negate : ℕ → ℤ
negate n = if n == 0 then pos 0 else negsuc (n - 1)

pub signed : List ℕ → ℤ
unfolding digits
signed [] = pos 0
signed (c ∷ cs) =
    if c == b'-'
    then negate (digits 0 cs)
    else if c == b'+'
    then pos (digits 0 cs)
    else pos (digits 0 (c ∷ cs))

-- The number that `strtol` reads.
pub number : List ℕ → ℤ
unfolding signed
number [] = pos 0
number (c ∷ cs) = let rest = number cs in if is_space c then rest else signed (c ∷ cs)

-- The 32 bits of a long, as an `int`.
abbrev pub as_int : ℤ → ℤ
as_int (pos n) = to_int n
as_int (negsuc n) = to_int (2 ^ 32 - n % 2 ^ 32 - 1)

-- `atoi`, which is the result of `strtol` cut to an `int`; it reads numbers that 64 bits hold.
unfoldable pub atoi : List ℕ → ℤ
unfolding number
atoi s = as_int (number s)

atoi-plain : atoi (b'4' ∷ b'2' ∷ []) ≡ pos 42
unfolding atoi
atoi-plain = refl

atoi-negative : atoi (32 ∷ b'-' ∷ b'7' ∷ b'x' ∷ []) ≡ negsuc 6
unfolding atoi
atoi-negative = refl
