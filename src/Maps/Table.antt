-- ===== src/Maps/Table.antt =====
-- Tables without gaps: named entries first, unused ones behind. A lookup by name stops at the first
-- entry that has none.
use servant.Prelude.{
  ℕ, List, ◌≡◌, some, All, none, ◌≤◌, not, ◌<◌, Bool, suc, true, ◌-◌, false, length, drop, set, ◌∷◌,
  arith, ◌||◌, zero, [], ◌+◌, refl, subst,
}
use servant.Maps.{Entry, find_from, get_map_fd}
use servant.Prelude.Int.{pos, is_zero}
use servant.Prelude.Text.{str_eq}

abbrev pub IsUnused : Entry → Type 0
IsUnused e = (e.name ≡ none) × (is_zero e.fd ≡ true)

abbrev pub IsNamed : Entry → Type 0
IsNamed e = (n : List ℕ) × (e.name ≡ some n) × (is_zero e.fd ≡ false)

-- The first `n` entries are named and have a descriptor, the others are unused.
abbrev pub IsDense : ℕ → List Entry → Type 0
IsDense zero es = All IsUnused es
IsDense (suc n) [] = ⊥
IsDense (suc n) (e ∷ es) = IsNamed e × IsDense n es

abbrev pub entry_named : Entry → List ℕ → Bool
entry_named e wanted = elim e.name [ none ↦ false | some n ↦ str_eq n wanted ]

-- Whether some entry has the name, wherever it stands.
pub has_name : List Entry → List ℕ → Bool
has_name [] wanted = false
has_name (e ∷ es) wanted = entry_named e wanted || has_name es wanted

pub has_name-unused : (es : List Entry) (w : List ℕ) → All IsUnused es → has_name es w ≡ false
unfolding has_name
has_name-unused [] w h = refl
has_name-unused (e ∷ es) w h = ground (arith, has_name-unused es w h.1)

-- Over a table without gaps, `_get_map_fd` gives a descriptor exactly for the names it has.
fd_from :
    (i n : ℕ) (es : List Entry) (w : List ℕ)
    → IsDense n es
    → is_zero (elim (find_from i es w) [ none ↦ pos 0 | some (j, fd) ↦ fd ]) ≡ not (has_name es w)
unfolding find_from has_name
fd_from i zero [] w h = refl
fd_from i (suc n) [] w h = absurd h
fd_from i zero (e ∷ es) w h = ground (arith, has_name-unused es w h.1)
fd_from i (suc n) (e ∷ es) w h = ground (arith, fd_from (i + 1) n es w h.1)

pub get_map_fd-has_name :
    (n : ℕ) (es : List Entry) (w : List ℕ)
    → IsDense n es
    → is_zero (get_map_fd es w) ≡ not (has_name es w)
unfolding get_map_fd
get_map_fd-has_name n es w h = fd_from 0 n es w h

-- A named entry written behind the last one.
pub set-IsDense :
    (n : ℕ) (es : List Entry) (e : Entry)
    → IsDense n es
    → n < length es
    → IsNamed e
    → IsDense (suc n) (set es n e)
set-IsDense zero [] e h k l = absurd (omega arith)
set-IsDense (suc n) [] e h k l = absurd h
set-IsDense zero (x ∷ es) e h k l = (l, h.1)
set-IsDense (suc n) (x ∷ es) e h k l = (h.0, set-IsDense n es e h.1 (omega arith) l)

pub has_name-set :
    (n : ℕ) (es : List Entry) (e : Entry) (w : List ℕ)
    → IsDense n es
    → n < length es
    → has_name (set es n e) w ≡ (has_name es w || entry_named e w)
unfolding has_name
has_name-set zero [] e w h k = absurd (omega arith)
has_name-set (suc n) [] e w h k = absurd h
has_name-set zero (x ∷ es) e w h k = ground (arith, has_name-unused es w h.1)
has_name-set (suc n) (x ∷ es) e w h k = ground (arith, has_name-set n es e w h.1 (omega arith))

pub drop-IsDense : (k n : ℕ) (es : List Entry) → k ≤ n → IsDense n es → IsDense (n - k) (drop k es)
drop-IsDense zero n es h d = let same : n ≡ n - 0 = omega arith in subst (λ t. IsDense t es) same d
drop-IsDense (suc k) zero es h d = absurd (omega arith)
drop-IsDense (suc k) (suc n) [] h d = absurd d
drop-IsDense (suc k) (suc n) (e ∷ es) h d =
    let same : n - k ≡ suc n - suc k = omega arith in
    subst (λ t. IsDense t (drop k es)) same (drop-IsDense k n es (omega arith) d.1)
