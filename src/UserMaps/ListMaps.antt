-- ===== src/UserMaps/ListMaps.antt =====
-- Maps in user space as functions: an instance of `UbpfMaps` with the maps of Katran.
use servant.Prelude.{
  ℕ, Bool, List, none, eq→==, if◌then◌else◌, ne→==, ◌≡◌, ◌&&◌, Option, ◌∷◌, ◌+◌, some, [], true,
  ◌==◌, refl, false, if-split, ap₂, ◌≤◌, take, ==→eq, inl, arith, sym, some-injective, ◌∙◌, inr,
}
use servant.Prelude.Int.{ℤ, pos}
use servant.Prelude.Text.{str_eq, str_eq_refl}
use servant.UserMaps.{UbpfMaps, vip_map_name, ch_rings_name, reals_name}

and_true : (a b : Bool) → (a && b) ≡ true → (a ≡ true) × (b ≡ true)
and_true true b h = (refl, h)
and_true false b h = cc

str_eq_sound : (a b : List ℕ) → str_eq a b ≡ true → a ≡ b
unfolding str_eq
str_eq_sound [] [] h = refl
str_eq_sound [] (y ∷ ys) h = cc
str_eq_sound (x ∷ xs) [] h = cc
str_eq_sound (x ∷ xs) (y ∷ ys) h =
    let (e, es) = and_true (x == y) (str_eq xs ys) h in
    ap₂ ◌∷◌ (==→eq x y e) (str_eq_sound xs ys es)

-- The number of a map: its place among the names, the first counted by `i`.
unfoldable pub position : ℕ → List (List ℕ) → List ℕ → Option ℕ
position i [] a = none
position i (n ∷ ns) a = let rest = position (i + 1) ns a in if str_eq n a then some i else rest

position-bound :
    (i : ℕ) (ns : List (List ℕ)) (a : List ℕ) {j : ℕ} → position i ns a ≡ some j → i ≤ j
unfolding position
position-bound i [] a h = cc
position-bound i (n ∷ ns) a h = elim (if-split (str_eq n a) (some i) (position (i + 1) ns a) h) [
  | inl (c, e) ↦ omega (arith, some-injective e)
  | inr (c, e) ↦ omega (arith, position-bound (i + 1) ns a e)
]

pub position-injective :
    (i : ℕ) (ns : List (List ℕ)) (a b : List ℕ) {j k : ℕ}
    → position i ns a ≡ some j
    → position i ns b ≡ some k
    → j ≡ k
    → a ≡ b
unfolding position
position-injective i [] a b h k e = cc
position-injective i (n ∷ ns) a b h k e =
    elim (if-split (str_eq n a) (some i) (position (i + 1) ns a) h) [
      | inl (ca, ea) ↦ elim (if-split (str_eq n b) (some i) (position (i + 1) ns b) k) [
        | inl (cb, eb) ↦ sym (str_eq_sound n a ca) ∙ str_eq_sound n b cb
        | inr (cb, eb) ↦
            absurd (omega (arith, some-injective ea, e, position-bound (i + 1) ns b eb))
      ]
      | inr (ca, ea) ↦ elim (if-split (str_eq n b) (some i) (position (i + 1) ns b) k) [
        | inl (cb, eb) ↦
            absurd (omega (arith, some-injective eb, e, position-bound (i + 1) ns a ea))
        | inr (cb, eb) ↦ position-injective (i + 1) ns a b ea eb e
      ]
    ]

abbrev pub names : List (List ℕ)
names = vip_map_name ∷ ch_rings_name ∷ reals_name ∷ []

unfoldable pub Store : Type 0
Store = ℕ → List ℕ → Option (List ℕ)

unfoldable pub write : ℕ → List ℕ → List ℕ → Store → ℤ × Store
unfolding Store
write i key value m = (pos 0, λ j k. if i == j && str_eq key k then some (take 8 value) else m j k)

unfoldable pub list_maps : UbpfMaps
unfolding Store write
list_maps = record {
  M = Store;
  select_map = λ a m. position 0 names a;
  update_map = write;
  lookup_map = λ i key m. m i key;
  value_size = λ i. 8;
  select-ne = λ m a b ne h k e. ne (position-injective 0 names a b h k e);
  select-update = λ m a i key value. refl;
  lookup-update = λ m i key value h. rw (eq→== i i refl, str_eq_refl key) refl;
  lookup-other = λ m i j key value other ne. rw (ne→== i j ne) refl;
  update-other = λ m i j key value key2 value2 ne. refl;
}

pub empty : list_maps.M
unfolding Store list_maps
empty i key = none
