-- ===== src/Programs/HashMap/Tests.antt =====
-- A hash map as a function, which fills the interface, and the benchmark on it.
use servant.Prelude.{
  ℕ, suc, List, Bool, true, false, Option, some, none, if◌then◌else◌, ltb, lt→ltb, ◌<◌, ◌≡◌, ◌≢◌,
  refl,
}
use servant.Programs.HashMap.{HashMaps}
use servant.Programs.HashMap.Keys.{bytes_discrete}

record Table : Type 0 where
  find : List ℕ → Option (List ℕ)
  used : ℕ
  room : ℕ

-- The function with another value at `k`.
abbrev put : List ℕ → List ℕ → (List ℕ → Option (List ℕ)) → List ℕ → Option (List ℕ)
put k v f j = elim (bytes_discrete k j) [ yes e ↦ some v | no ne ↦ f j ]

put_self : (k v : List ℕ) (f : List ℕ → Option (List ℕ)) → put k v f k ≡ some v
put_self k v f = go (bytes_discrete k k)
  where
    go :
        (d : Dec (k ≡ k))
        → elim d as (λ x. Option (List ℕ)) [ yes e ↦ some v | no ne ↦ f k ] ≡ some v
    go (yes e) = refl
    go (no ne) = absurd (ne refl)

put-other : (k v j : List ℕ) (f : List ℕ → Option (List ℕ)) → k ≢ j → put k v f j ≡ f j
put-other k v j f h = go (bytes_discrete k j)
  where
    go : (d : Dec (k ≡ j)) → elim d as (λ x. Option (List ℕ)) [ yes e ↦ some v | no ne ↦ f j ] ≡ f j
    go (yes e) = absurd (h e)
    go (no ne) = refl

-- A key that is there gets the value; a new one does if there is room.
insert : Table → List ℕ → List ℕ → Table × Bool
insert t k v = elim (t.find k) [
  | some old ↦ (record t { find = put k v t.find }, true)
  | none ↦
      if ltb t.used t.room
      then (record t { find = put k v t.find; used = suc t.used }, true)
      else (t, false)
]

insert-room :
    (t : Table) (k v : List ℕ)
    → t.find k ≡ none
    → t.used < t.room
    → ((insert t k v).0.find k ≡ some v)
      × ((insert t k v).0.used ≡ suc t.used)
      × ((insert t k v).0.room ≡ t.room)
unfolding insert
insert-room t k v h r = rw (h, insert, lt→ltb t.used t.room r) (put_self k v t.find, refl, refl)

insert-other : (t : Table) (k j v : List ℕ) → k ≢ j → (insert t k v).0.find j ≡ t.find j
unfolding insert
insert-other t k j v h = go (t.find k)
  where
    out : Option (List ℕ) → Table × Bool
    out o = elim o [
      | some old ↦ (record t { find = put k v t.find }, true)
      | none ↦
          if ltb t.used t.room
          then (record t { find = put k v t.find; used = suc t.used }, true)
          else (t, false)
    ]

    grown : Bool → Table × Bool
    grown b =
        if b then (record t { find = put k v t.find; used = suc t.used }, true) else (t, false)

    full : (b : Bool) → (grown b).0.find j ≡ t.find j
    full true = put-other k v j t.find h
    full false = refl

    go : (o : Option (List ℕ)) → (out o).0.find j ≡ t.find j
    go (some old) = put-other k v j t.find h
    go none = full (ltb t.used t.room)

abbrev tables : HashMaps
tables = record {
  M = Table;
  lookup = λ t k. t.find k;
  update = insert;
  write = λ t k w. record t { find = put k w t.find };
  size = λ t. t.used;
  max_entries = λ t. t.room;
  update-room = insert-room;
  update-other = insert-other;
  write-self = λ t k v w e. put_self k w t.find;
  write-other = λ t k j w ne. put-other k w j t.find ne;
}

abbrev empty_table : Table
empty_table = record { find = λ k. none; used = 0; room = 128 }
