-- ===== src/Maps/Setup/Place.antt =====
-- Where a map goes, and that the maps placed before it stay in the table.
use servant.Prelude.Text.{str_eq}
use servant.Prelude.{
  List, ℕ, get_elem?, ◌≡◌, returns, some, ◌≤◌, ◌-◌, true, ◌∷◌, [], Bool-cases, false, drop, inl,
  set, ◌+◌, returns-injective, suc, arith, sym, inr, get_elem?-set_ne, get_elem?-drop, ◌∙◌,
  ℕ_discrete, ap, zero, ◌≢◌, subst, some-injective, get_elem?-set_self, none, >>=-returns, at,
  at-returns, if-split,
}
use servant.Maps.{Entry}
use servant.Maps.Setup.{
  skip_used, choose_index, relocate, place, KernelMap, Scan, new_entry, written_entry,
  match_requests, scan_maps, no_buffer, match_request,
}
use servant.Prelude.Int.{ℤ, pos, negsuc, is_zero}

-- The entry is in the table, at some index.
abbrev pub Holds : List Entry → Entry → Type 0
Holds table e = (i : ℕ) × (get_elem? table i ≡ some e)

-- `skip_used` stops at a free entry.
skip_used-free :
    (es : List Entry) (i j : ℕ)
    → skip_used es i ≡ returns j
    → (i ≤ j) × (e : Entry) × (get_elem? es (j - i) ≡ some e) × (is_zero e.fd ≡ true)
unfolding skip_used
skip_used-free [] i j h = cc
skip_used-free (x ∷ es) i j h = elim (Bool-cases (is_zero x.fd)) [
  | inl free ↦
      let same : i ≡ j = returns-injective (rw free at h) in
      let zero_off : j - i ≡ 0 = omega arith in (omega arith, x, rw zero_off, free)
  | inr used ↦
      let (le, e, at_e, free) = skip_used-free es (i + 1) j (rw used at h) in
      let off : j - i ≡ suc (j - (i + 1)) = omega arith in (omega arith, e, rw off at_e, free)
]

place-skip :
    (table : List Entry) (last j : ℕ)
    → skip_used (drop last table) last ≡ returns j
    → (e : Entry) × (get_elem? table j ≡ some e) × (is_zero e.fd ≡ true)
place-skip table last j h =
    let (le, e, at_e, free) = skip_used-free (drop last table) last j h in
    let back : last + (j - last) ≡ j = omega arith in
    (e, sym (get_elem?-drop last table (j - last) ∙ ap (get_elem? table) back) ∙ at_e, free)

-- A free and a used entry stand at different indices.
free-ne-used :
    (table : List Entry) (a b : ℕ) (x y : Entry)
    → get_elem? table a ≡ some x
    → get_elem? table b ≡ some y
    → is_zero x.fd ≡ true
    → is_zero y.fd ≡ false
    → a ≢ b
free-ne-used table a b x y hx hy fx fy q =
    let same : x ≡ y = some-injective (sym hx ∙ ap (get_elem? table) q ∙ hy) in
    let clash : true ≡ false = sym fx ∙ ap (λ (e : Entry). is_zero e.fd) same ∙ fy in cc

-- Every used entry is in the table again once the entry at a requested index has moved and `cur` is
-- written.
relocate-Holds :
    (table : List Entry) (req : ℤ) (last cur : ℕ) (old new spare e : Entry) (i : ℕ)
    → choose_index req last ≡ returns cur
    → get_elem? table cur ≡ some old
    → get_elem? table last ≡ some spare
    → is_zero spare.fd ≡ true
    → get_elem? table i ≡ some e
    → is_zero e.fd ≡ false
    → Holds (set (relocate table req last cur old) cur new) e
unfolding relocate choose_index
relocate-Holds table (negsuc (suc n)) last cur old new spare e i c ho hs fs he fe = cc
relocate-Holds table (negsuc zero) last cur old new spare e i c ho hs fs he fe = (
  i,
  get_elem?-set_ne table cur i new
        (subst (λ k. k ≢ i) (returns-injective c) (free-ne-used table last i spare e hs he fs fe))
      ∙ he,
)
relocate-Holds table (pos n) last cur old new spare e i c ho hs fs he fe =
    elim (Bool-cases (is_zero old.fd)) [
      | inl free ↦ (
        i,
        rw free (
            get_elem?-set_ne table cur i new (
              subst (λ k. k ≢ i) (returns-injective c)
                (λ q. free-ne-used table cur i old e ho he free fe (sym (returns-injective c) ∙ q)))
            ∙ he),
      )
      | inr used ↦ elim (ℕ_discrete i cur) [
        | yes q ↦ (
          last,
          rw used (
              get_elem?-set_ne _ cur last new
                (λ r. free-ne-used table last cur spare old hs ho fs used (sym r))
              ∙ get_elem?-set_self table last spare old hs
              ∙ sym ho
              ∙ sym (ap (get_elem? table) q)
              ∙ he),
        )
        | no ne ↦ (
          i,
          rw used (
              get_elem?-set_ne _ cur i new (λ r. ne (sym r))
              ∙ get_elem?-set_ne table last i old (free-ne-used table last i spare e hs he fs fe)
              ∙ he),
        )
      ]
    ]

-- What a call of the body has done when it returns.
pub record Placed (page_size : ℕ) (k : KernelMap) (name : List ℕ) (req : ℤ) (s s' : Scan)
    : Type 0 where
  pub last : ℕ
  pub cur : ℕ
  pub old : Entry
  pub now : Entry
  pub skipped : skip_used (drop s.last s.table) s.last ≡ returns last
  pub chosen : choose_index req last ≡ returns cur
  pub at_cur : get_elem? s.table cur ≡ some old
  pub at_now : get_elem? (relocate s.table req last cur old) cur ≡ some now
  pub done : s' ≡ record {
    table = set (relocate s.table req last cur old) cur (written_entry page_size k name now);
    last = last;
    failed = no_buffer k;
  }

-- Inversion of the call.
pub place-Placed :
    (page_size : ℕ) (k : KernelMap) (name : List ℕ) (req : ℤ) (s s' : Scan)
    → place page_size k name req s ≡ returns s'
    → Placed page_size k name req s s'
unfolding place
place-Placed page_size k name req s s' h =
    let (last, h1, r1) = >>=-returns (skip_used (drop s.last s.table) s.last) _ h in
    let (cur, h2, r2) = >>=-returns (choose_index req last) _ r1 in
    let (old, h3, r3) = >>=-returns (at s.table cur) _ r2 in
    let (now, h4, r4) = >>=-returns (at (relocate s.table req last cur old) cur) _ r3 in
    record {
      last = last;
      cur = cur;
      old = old;
      now = now;
      skipped = h1;
      chosen = h2;
      at_cur = at-returns s.table cur h3;
      at_now = at-returns (relocate s.table req last cur old) cur h4;
      done = sym (returns-injective r4);
    }

-- A map that is placed takes no other map out of the table.
pub place-Holds :
    (page_size : ℕ) (k : KernelMap) (name : List ℕ) (req : ℤ) (s s' : Scan) (e : Entry)
    → place page_size k name req s ≡ returns s'
    → is_zero e.fd ≡ false
    → Holds s.table e
    → Holds s'.table e
place-Holds page_size k name req s s' e h used (i, he) =
    let p = place-Placed page_size k name req s s' h in
    let (spare, hs, fs) = place-skip s.table s.last p.last p.skipped in
    subst (λ (t : Scan). Holds t.table e) (sym p.done)
      (relocate-Holds s.table req p.last p.cur p.old _ spare e i p.chosen p.at_cur hs fs he used)

-- A map with a buffer stands whole at the index that was requested for it.
pub place-requested :
    (page_size : ℕ) (k : KernelMap) (name : List ℕ) (n b : ℕ) (s s' : Scan)
    → k.buffer ≡ some b
    → place page_size k name (pos n) s ≡ returns s'
    → get_elem? s'.table n ≡ some (new_entry page_size k name b)
unfolding written_entry choose_index
place-requested page_size k name n b s s' hb h =
    let p = place-Placed page_size k name (pos n) s s' h in
    let at_n : n ≡ p.cur = returns-injective p.chosen in
    ap (λ (t : Scan). get_elem? t.table n) p.done
    ∙ ap (get_elem? _) at_n
    ∙ get_elem?-set_self _ p.cur p.now _ p.at_now
    ∙ ap
        (λ o. some (elim o [
          | none ↦ record p.now { name = some name; fd = k.map_fd; value_size = k.value_size }
          | some buffer ↦ new_entry page_size k name buffer
        ]))
        hb

match_request-Holds :
    (page_size : ℕ) (k : KernelMap) (r : List ℕ × ℤ) (s s' : Scan) (e : Entry)
    → match_request page_size k r s ≡ returns s'
    → is_zero e.fd ≡ false
    → Holds s.table e
    → Holds s'.table e
unfolding match_request
match_request-Holds page_size k (name, req) s s' e h used held = elim (if-split s.failed _ _ h) [
  | inl (stop, q) ↦ subst (λ (t : Scan). Holds t.table e) (returns-injective q) held
  | inr (more, q) ↦ elim (if-split (str_eq name k.info_name) _ _ q) [
    | inl (hit, q') ↦ place-Holds page_size k name req s s' e q' used held
    | inr (miss, q') ↦ subst (λ (t : Scan). Holds t.table e) (returns-injective q') held
  ]
]

match_requests-Holds :
    (page_size : ℕ) (k : KernelMap) (reqs : List (List ℕ × ℤ)) (s s' : Scan) (e : Entry)
    → match_requests page_size k reqs s ≡ returns s'
    → is_zero e.fd ≡ false
    → Holds s.table e
    → Holds s'.table e
unfolding match_requests
match_requests-Holds page_size k [] s s' e h used held =
    subst (λ (t : Scan). Holds t.table e) (returns-injective h) held
match_requests-Holds page_size k (r ∷ reqs) s s' e h used held =
    let (s1, h1, r1) = >>=-returns (match_request page_size k r s) _ h in
    match_requests-Holds page_size k reqs s1 s' e r1 used
      (match_request-Holds page_size k r s s1 e h1 used held)

-- No map with a descriptor that is once in the table is lost by the rest of `setup_map_system`: a
-- request for an index that is in use moves what stands there.
pub scan_maps-Holds :
    (page_size : ℕ) (kernel : List KernelMap) (reqs : List (List ℕ × ℤ)) (s s' : Scan) (e : Entry)
    → scan_maps page_size kernel reqs s ≡ returns s'
    → is_zero e.fd ≡ false
    → Holds s.table e
    → Holds s'.table e
unfolding scan_maps
scan_maps-Holds page_size [] reqs s s' e h used held =
    subst (λ (t : Scan). Holds t.table e) (returns-injective h) held
scan_maps-Holds page_size (k ∷ ks) reqs s s' e h used held =
    let (s1, h1, r1) = >>=-returns (match_requests page_size k reqs s) _ h in
    scan_maps-Holds page_size ks reqs s1 s' e r1 used
      (match_requests-Holds page_size k reqs s s1 e h1 used held)
