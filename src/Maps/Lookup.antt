-- ===== src/Maps/Lookup.antt =====
-- Lookups by name and by index.
use servant.Prelude.{
  ℕ, List, ◌≡◌, Option, some, ◌≤◌, false, get_elem?, ◌-◌, ◌∷◌, ◌+◌, none, arith, if◌then◌else◌, ap,
  if-split, sym, inl, ◌∙◌, inr, suc, [],
}
use servant.Maps.{Entry, find_from, get_map_fd_and_idx, lookup_elem_kern, lookup_elem_kern_fast}
use servant.Prelude.Int.{ℤ, is_zero}
use servant.Prelude.Text.{str_eq}

-- What `_get_map_fd_and_idx` gives is the descriptor of the entry at its index.
find_from-get :
    (i : ℕ) (es : List Entry) (w : List ℕ) (j : ℕ) (fd : ℤ)
    → find_from i es w ≡ some (j, fd)
    → (i ≤ j) × (e : Entry) × (get_elem? es (j - i) ≡ some e) × (e.fd ≡ fd)
unfolding find_from
find_from-get i [] w j fd h = cc
find_from-get i (x ∷ es) w j fd h = step x.name h (find_from-get (i + 1) es w j fd)
  where
    step :
        (o : Option (List ℕ))
        → (elim o [
          | none ↦ none
          | some n ↦ if str_eq n w then some (i, x.fd) else find_from (i + 1) es w
        ])
          ≡ some (j, fd)
        → (find_from (i + 1) es w ≡ some (j, fd)
            → (i + 1 ≤ j) × (e : Entry) × (get_elem? es (j - (i + 1)) ≡ some e) × (e.fd ≡ fd))
        → (i ≤ j) × (e : Entry) × (get_elem? (x ∷ es) (j - i) ≡ some e) × (e.fd ≡ fd)
    step none q rec = cc
    step (some n) q rec = elim (if-split (str_eq n w) _ _ q) [
      | inl (hit, p) ↦
          let same : (i ≡ j) × (x.fd ≡ fd) = ground arith in
          let off : j - i ≡ 0 = omega arith in (omega arith, x, rw off, same.1)
      | inr (miss, p) ↦
          let (le, e, at_e, fd_e) = rec p in
          let off : j - i ≡ suc (j - (i + 1)) = omega arith in (omega arith, e, rw off at_e, fd_e)
    ]

-- Where a name leads to index `i` of a map with a descriptor, the lookup by name and the lookup by
-- that index give the program the same, whatever the kernel holds and the map is, mapped or not.
pub lookup-fast :
    (kernel : ℤ → List ℕ → Option (List ℕ)) (table : List Entry) (w key : List ℕ) (i : ℕ) (fd : ℤ)
    → get_map_fd_and_idx table w ≡ some (i, fd)
    → is_zero fd ≡ false
    → lookup_elem_kern kernel table w key ≡ lookup_elem_kern_fast kernel table i key
unfolding lookup_elem_kern lookup_elem_kern_fast
lookup-fast kernel table w key i fd h used =
    let (le, e, at_e, fd_e) = find_from-get 0 table w i fd h in
    let same : i - 0 ≡ i = omega arith in
    let at_i : get_elem? table i ≡ some e = ap (get_elem? table) (sym same) ∙ at_e in
    ground (arith, h, used, at_i, fd_e)
