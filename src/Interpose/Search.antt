-- ===== src/Interpose/Search.antt =====
-- `_get_epoll_index`: where the search for an epoll descriptor ends, before and after a write there.
use servant.Prelude.{
  List, ℕ, Option, ◌≡◌, some, ◌≢◌, set, get_elem?, ◌≤◌, ◌⊎◌, ◌-◌, ◌∷◌, arith, eq→==, subst, Bool,
  none, none≢some, ◌==◌, ap, Bool-cases, ◌&&◌, true, inl, some-injective, ◌+◌, inr, [], ℕ_discrete,
  suc, refl, if◌then◌else◌,
}
use servant.Interpose.{EpollData, improves, epoll_index_from, get_epoll_index}

-- An entry that is written for the descriptor where the search ends is what the next search finds.
pub index-set :
    (k : ℕ) (min_empty n : Option ℕ) (es : List EpollData) (epfd j : ℕ) (e' : EpollData)
    → epoll_index_from k min_empty es epfd ≡ some j
    → min_empty ≢ some j
    → e'.epfd ≡ epfd
    → (k ≤ j) × (epoll_index_from k n (set es (j - k) e') epfd ≡ some j)
unfolding epoll_index_from improves
index-set k m n [] epfd j e' h ne he = absurd (ne h)
index-set k m n (e ∷ es) epfd j e' h ne he = elim (Bool-cases (e.epfd == epfd)) [
  | inl same ↦ found (some-injective (rw same at h))
  | inr differs ↦ elim (ℕ_discrete k j) [
    | yes kj ↦ found kj
    | no kj ↦
        let m' : Option ℕ = if e.epfd == 0 && improves k m then some k else m in
        let ne' : m' ≢ some j = elim (Bool-cases (e.epfd == 0 && improves k m)) [
          | inl t ↦ λ q. kj (some-injective (rw t at q))
          | inr f ↦ λ q. ne (rw f at q)
        ] in
        let h' : epoll_index_from (k + 1) m' es epfd ≡ some j = rw differs at h in
        let (le, r) =
          index-set (k + 1) m' (if e.epfd == 0 && improves k n then some k else n) es epfd j e' h'
            ne' he in
        (omega arith, let d : j - k ≡ suc (j - (k + 1)) = omega arith in rw (d, differs) r)
  ]
]
  where
    found : k ≡ j → (k ≤ j) × (epoll_index_from k n (set (e ∷ es) (j - k) e') epfd ≡ some j)
    found kj =
        let d : j - k ≡ 0 = omega arith in (omega arith, rw (d, eq→== e'.epfd epfd he) (ap some kj))

-- What the search for a descriptor finds is found again once the entry is written for it.
pub get_epoll_index-set :
    (table : List EpollData) (epfd i : ℕ) (e' : EpollData)
    → get_epoll_index table epfd ≡ some i
    → e'.epfd ≡ epfd
    → get_epoll_index (set table i e') epfd ≡ some i
unfolding get_epoll_index
get_epoll_index-set table epfd i e' h he =
    subst (λ j. get_epoll_index (set table j e') epfd ≡ some i) zero_off
      (index-set 0 none none table epfd i e' h none≢some he).1
  where
    zero_off : i - 0 ≡ i
    zero_off = omega arith

-- The entry where the search for a descriptor ends is for the descriptor, or free.
index-entry :
    (k : ℕ) (min_empty : Option ℕ) (es : List EpollData) (epfd j : ℕ) (e' : EpollData)
    → epoll_index_from k min_empty es epfd ≡ some j
    → min_empty ≢ some j
    → get_elem? es (j - k) ≡ some e'
    → (k ≤ j) × ((e'.epfd ≡ epfd) ⊎ (e'.epfd ≡ 0))
unfolding epoll_index_from improves
index-entry k m [] epfd j e' h ne he = absurd (ne h)
index-entry k m (e ∷ es) epfd j e' h ne he = elim (Bool-cases (e.epfd == epfd)) [
  | inl same ↦
      let kj : k ≡ j = some-injective (rw same at h) in
      let z : j - k ≡ 0 = omega arith in
      let e_e' : e ≡ e' = some-injective (rw z at he) in
      (omega arith, inl (subst (λ x. x.epfd ≡ epfd) e_e' (ground (arith, same))))
  | inr differs ↦ elim (Bool-cases (e.epfd == 0 && improves k m)) [
    | inl free ↦ elim (ℕ_discrete k j) [
      | yes kj ↦
          let z : j - k ≡ 0 = omega arith in
          let e_e' : e ≡ e' = some-injective (rw z at he) in
          (omega arith, inr (subst (λ x. x.epfd ≡ 0) e_e' (free_zero (e.epfd) (improves k m) free)))
      | no kj ↦
          later (some k) (rw (differs, free) at h) (λ q. kj (some-injective q))
            (index-entry (k + 1) (some k) es epfd j e')
    ]
    | inr used ↦ later m (rw (differs, used) at h) ne (index-entry (k + 1) m es epfd j e')
  ]
]
  where
    free_zero : (a : ℕ) (b : Bool) → (a == 0 && b) ≡ true → a ≡ 0
    free_zero a b q = ground arith

    later :
        (m' : Option ℕ)
        → epoll_index_from (k + 1) m' es epfd ≡ some j
        → m' ≢ some j
        → (epoll_index_from (k + 1) m' es epfd ≡ some j
            → m' ≢ some j
            → get_elem? es (j - (k + 1)) ≡ some e'
            → (k + 1 ≤ j) × ((e'.epfd ≡ epfd) ⊎ (e'.epfd ≡ 0)))
        → (k ≤ j) × ((e'.epfd ≡ epfd) ⊎ (e'.epfd ≡ 0))
    later m' q ne' ih =
        let le =
          (index-set (k + 1) m' none es epfd j (record { epfd = epfd; following = [] }) q ne'
            refl).0 in
        let z : j - k ≡ suc (j - (k + 1)) = omega arith in (omega arith, (ih q ne' (rw z at he)).1)

pub found-entry :
    (table : List EpollData) (epfd i : ℕ) (ed : EpollData)
    → get_epoll_index table epfd ≡ some i
    → get_elem? table i ≡ some ed
    → (ed.epfd ≡ epfd) ⊎ (ed.epfd ≡ 0)
unfolding get_epoll_index
found-entry table epfd i ed h1 h2 =
    let z : i - 0 ≡ i = omega arith in (index-entry 0 none table epfd i ed h1 none≢some (rw z h2)).1
