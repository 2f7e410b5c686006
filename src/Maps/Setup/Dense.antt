-- ===== src/Maps/Setup/Dense.antt =====
-- Without requested indices `setup_map_system` fills the table from the front, and every map can be
-- found by its name.
use servant.Prelude.Text.{str_eq}
use servant.Prelude.Int.{is_zero, minus_one, ℤ}
use servant.Prelude.{
  ℕ, List, ◌≤◌, ◌≡◌, false, returns, ◌+◌, suc, ◌<◌, ◌||◌, length, ◌∷◌, arith, zero, [], some, ◌&&◌,
  ◌-◌, returns-injective, Bool, All, drop, map, subst, if-split, ◌∙◌, sym, inl, ap, true,
  length-drop, >>=-returns, inr, set, not, ap₂, none, ltb, refl,
}
use servant.Maps.{Entry, get_map_fd, no_maps, max_nr_maps}
use servant.Maps.Table.{
  IsDense, has_name, has_name-unused, get_map_fd-has_name, set-IsDense, has_name-set, drop-IsDense,
}
use servant.Maps.Setup.{
  KernelMap, Scan, skip_used, choose_index, relocate, written_entry, no_buffer, place,
  match_request, match_requests, scan_maps, get_name_index_requested, setup_map_system, scan_start,
}
use servant.Maps.Setup.Place.{place-Placed}

-- What the loops leave: `n` maps in front, `lastGlobalIndex` not behind them, no failure.
pub record InOrder (s : Scan) (n : ℕ) : Type 0 where
  pub dense : IsDense n s.table
  pub last_le : s.last ≤ n
  pub fine : s.failed ≡ false

skip_used-IsDense :
    (n : ℕ) (es : List Entry) (i j : ℕ)
    → IsDense n es
    → skip_used es i ≡ returns j
    → (j ≡ i + n) × (n < length es)
unfolding skip_used
skip_used-IsDense zero [] i j d h = cc
skip_used-IsDense (suc n) [] i j d h = absurd d
skip_used-IsDense zero (e ∷ es) i j d h = ground arith
skip_used-IsDense (suc n) (e ∷ es) i j d h =
    let (eq, lt) = skip_used-IsDense n es (i + 1) j d.1 (rw d.0.2 at h) in
    (omega arith, omega arith)

written_entry-name :
    (page_size : ℕ) (k : KernelMap) (name : List ℕ) (now : Entry)
    → ((written_entry page_size k name now).name ≡ some name)
      × ((written_entry page_size k name now).fd ≡ k.map_fd)
unfolding written_entry
written_entry-name page_size k name now = ground arith

-- A map that no index is requested for goes behind the others.
place-InOrder :
    (page_size : ℕ) (k : KernelMap) (name w : List ℕ) (s s' : Scan) (n : ℕ)
    → InOrder s n
    → is_zero k.map_fd ≡ false
    → no_buffer k ≡ false
    → place page_size k name minus_one s ≡ returns s'
    → InOrder s' (suc n) × (has_name s'.table w ≡ (has_name s.table w || str_eq name w))
unfolding choose_index relocate
place-InOrder page_size k name w s s' n o fd buffer h =
    let p = place-Placed page_size k name minus_one s s' h in
    let (last_eq, room) =
      skip_used-IsDense (n - s.last) (drop s.last s.table) s.last p.last
        (drop-IsDense s.last n s.table o.last_le o.dense) p.skipped in
    let cur_eq : p.cur ≡ n = sym (returns-injective p.chosen) ∙ omega (arith, o.last_le, last_eq) in
    let fits : n < length s.table = omega (arith, room, length-drop s.last s.table, o.last_le) in
    let (named, given) = written_entry-name page_size k name p.now in
    let new = written_entry page_size k name p.now in
    let table_eq : s'.table ≡ set s.table n new =
      ap (λ (t : Scan). t.table) p.done ∙ ap (λ c. set s.table c new) cur_eq in
    (
      record {
        dense =
            subst (IsDense (suc n)) (sym table_eq)
              (set-IsDense n s.table new o.dense fits (name, named, ap is_zero given ∙ fd));
        last_le = omega (arith, ap (λ (t : Scan). t.last) p.done, last_eq, o.last_le);
        fine = ap (λ (t : Scan). t.failed) p.done ∙ buffer;
      },
      ap (λ t. has_name t w) table_eq
          ∙ has_name-set n s.table new w o.dense fits
          ∙ ap (λ o. has_name s.table w || elim o [ none ↦ false | some m ↦ str_eq m w ]) named,
    )

-- The names that the loop over the requests finds in one map of the kernel, and those that it finds
-- in all of them.
unfoldable pub asked : KernelMap → List (List ℕ) → List ℕ → Bool
asked k [] w = false
asked k (name ∷ names) w = (str_eq name k.info_name && str_eq name w) || asked k names w

unfoldable pub on_system : List KernelMap → List (List ℕ) → List ℕ → Bool
on_system [] names w = false
on_system (k ∷ ks) names w = asked k names w || on_system ks names w

abbrev pub plain : List (List ℕ) → List (List ℕ × ℤ)
plain = map (λ name. (name, minus_one))

-- What a run of the loops from a table in order does.
abbrev Extends : Scan → Scan → Bool → List ℕ → Type 0
Extends s s' found w =
    ((m : ℕ) × InOrder s' m) × (has_name s'.table w ≡ (has_name s.table w || found))

or_assoc : (a b c : Bool) → ((a || b) || c) ≡ (a || (b || c))
or_assoc a b c = ground arith

or-false : (a : Bool) → (a || false) ≡ a
or-false a = ground arith

Extends-trans :
    (s s1 s' : Scan) (a b : Bool) (w : List ℕ)
    → Extends s s1 a w
    → Extends s1 s' b w
    → Extends s s' (a || b) w
Extends-trans s s1 s' a b w e f =
    (f.0, f.1 ∙ ap (λ x. x || b) e.1 ∙ or_assoc (has_name s.table w) a b)

module _ (page_size : ℕ) (k : KernelMap) (w : List ℕ) (fd : is_zero k.map_fd ≡ false)
    (buffer : no_buffer k ≡ false) where
  match_request-Extends :
      (name : List ℕ) (s s' : Scan) (n : ℕ)
      → InOrder s n
      → match_request page_size k (name, minus_one) s ≡ returns s'
      → Extends s s' (str_eq name k.info_name && str_eq name w) w
  unfolding match_request
  match_request-Extends name s s' n o h = elim (if-split s.failed _ _ h) [
    | inl (stop, q) ↦ let clash : true ≡ false = sym stop ∙ o.fine in cc
    | inr (more, q) ↦ elim (if-split (str_eq name k.info_name) _ _ q) [
      | inl (hit, q') ↦
          let (o', e) = place-InOrder page_size k name w s s' n o fd buffer q' in
          ((suc n, o'), e ∙ ap (λ b. has_name s.table w || (b && str_eq name w)) (sym hit))
      | inr (miss, q') ↦
          let same = returns-injective q' in
          (
            (n, subst (λ t. InOrder t n) same o),
            sym (ap (λ (t : Scan). has_name t.table w) same)
                ∙ sym (or-false (has_name s.table w))
                ∙ ap (λ b. has_name s.table w || (b && str_eq name w)) (sym miss),
          )
    ]
  ]

  match_requests-Extends :
      (names : List (List ℕ)) (s s' : Scan) (n : ℕ)
      → InOrder s n
      → match_requests page_size k (plain names) s ≡ returns s'
      → Extends s s' (asked k names w) w
  unfolding match_requests asked
  match_requests-Extends [] s s' n o h =
      let same = returns-injective h in
      (
        (n, subst (λ t. InOrder t n) same o),
        sym (ap (λ (t : Scan). has_name t.table w) same) ∙ sym (or-false (has_name s.table w)),
      )
  match_requests-Extends (name ∷ names) s s' n o h =
      let (s1, h1, r1) = >>=-returns (match_request page_size k (name, minus_one) s) _ h in
      let e = match_request-Extends name s s1 n o h1 in
      Extends-trans s s1 s' _ (asked k names w) w e
        (match_requests-Extends names s1 s' e.0.0 e.0.1 r1)

-- The kernel's maps have descriptors, and `malloc` does not fail.
abbrev pub IsUsable : KernelMap → Type 0
IsUsable k = (is_zero k.map_fd ≡ false) × (no_buffer k ≡ false)

scan_maps-Extends :
    (page_size : ℕ) (kernel : List KernelMap) (names : List (List ℕ)) (w : List ℕ) (s s' : Scan)
    (n : ℕ)
    → All IsUsable kernel
    → InOrder s n
    → scan_maps page_size kernel (plain names) s ≡ returns s'
    → Extends s s' (on_system kernel names w) w
unfolding scan_maps on_system
scan_maps-Extends page_size [] names w s s' n u o h =
    let same = returns-injective h in
    (
      (n, subst (λ t. InOrder t n) same o),
      sym (ap (λ (t : Scan). has_name t.table w) same) ∙ sym (or-false (has_name s.table w)),
    )
scan_maps-Extends page_size (k ∷ ks) names w s s' n u o h =
    let (s1, h1, r1) = >>=-returns (match_requests page_size k (plain names) s) _ h in
    let e = match_requests-Extends page_size k w u.0.0 u.0.1 names s s1 n o h1 in
    Extends-trans s s1 s' _ (on_system ks names w) w e
      (scan_maps-Extends page_size ks names w s1 s' e.0.0 u.1 e.0.1 r1)

map-plain :
    (requests : List (List ℕ))
    → All (λ r. get_name_index_requested r ≡ (r, minus_one)) requests
    → map get_name_index_requested requests ≡ plain requests
map-plain [] h = refl
map-plain (r ∷ rs) h = ap₂ ◌∷◌ h.0 (map-plain rs h.1)

no_maps-InOrder : InOrder (scan_start no_maps) 0
no_maps-InOrder = ground arith

-- When no request names an index, every map of the kernel has a descriptor and `malloc` does not
-- fail, then after a `setup_map_system` that returns 0 a name leads to a descriptor exactly if it is
-- requested and the kernel has a map of that name.
pub setup-names :
    (page_size : ℕ) (kernel : List KernelMap) (requests : List (List ℕ)) (w : List ℕ)
    (table : List Entry)
    → All IsUsable kernel
    → All (λ r. get_name_index_requested r ≡ (r, minus_one)) requests
    → setup_map_system page_size kernel requests no_maps ≡ returns (0, table)
    → is_zero (get_map_fd table w) ≡ not (on_system kernel requests w)
unfolding setup_map_system
setup-names page_size kernel requests w table u p h =
    elim (if-split (ltb max_nr_maps (length requests)) _ _ h) [
      | inl (many, q) ↦ ground arith
      | inr (few, q) ↦
          let (s, h1, r1) =
            >>=-returns
              (scan_maps page_size kernel (map get_name_index_requested requests)
                (scan_start no_maps))
              _ q in
          let e =
            scan_maps-Extends page_size kernel requests w (scan_start no_maps) s 0 u no_maps-InOrder
              (subst (λ reqs. scan_maps page_size kernel reqs (scan_start no_maps) ≡ returns s)
                (map-plain requests p) h1) in
          let same : s.table ≡ table = ap (λ o. o.1) (returns-injective r1) in
          subst (λ t. is_zero (get_map_fd t w) ≡ not (on_system kernel requests w)) same
            (get_map_fd-has_name e.0.0 s.table w e.0.1.dense
              ∙ ap not (
                  e.1
                  ∙ ap (λ b. b || on_system kernel requests w)
                      (has_name-unused no_maps w no_maps-InOrder.dense)))
    ]
