-- ===== src/Maps.antt =====
-- src/map.h and src/map.c: the table of kernel maps that a program reaches by name or by index. The
-- five parallel arrays (`map_fds`, `map_names`, …) are one list of entries, read and written alike.
pub mod Setup
pub mod Table
pub mod Lookup
mod Tests
use servant.Prelude.{
  none, List, Option, ℕ, some, replicate, if◌then◌else◌, ◌∷◌, Outcome, ◌>>=◌, returns, ◌+◌, ◌*◌, at,
  ◌^◌, ◌%◌, [],
}
use servant.Prelude.Int.{ℤ, pos, is_zero}
use servant.Prelude.Text.{str_eq}

abbrev pub max_nr_maps : ℕ
max_nr_maps = 16

-- One index of the arrays: `map_names`, `map_fds`, `map_value_size`, `map_value_pool`, `mmap_area`.
-- A pointer is an address, none where it is NULL.
pub record Entry : Type 0 where
  pub name : Option (List ℕ)
  pub fd : ℤ
  pub value_size : ℕ
  pub value_pool : Option ℕ
  pub mmap_area : Option ℕ

abbrev pub unused : Entry
unused = record { name = none; fd = pos 0; value_size = 0; value_pool = none; mmap_area = none }

-- The arrays before `setup_map_system`.
abbrev pub no_maps : List Entry
no_maps = replicate max_nr_maps unused

-- `_get_map_fd_and_idx` over the entries from index `i` on; none is the result 0 with `idx` unset.
unfoldable pub find_from : ℕ → List Entry → List ℕ → Option (ℕ × ℤ)
find_from i [] wanted = none
find_from i (e ∷ es) wanted =
    let rest = find_from (i + 1) es wanted in
    elim e.name [ none ↦ none | some n ↦ if str_eq n wanted then some (i, e.fd) else rest ]

abbrev pub get_map_fd_and_idx : List Entry → List ℕ → Option (ℕ × ℤ)
get_map_fd_and_idx table wanted = find_from 0 table wanted

-- `_get_map_fd`
unfoldable pub get_map_fd : List Entry → List ℕ → ℤ
unfolding find_from
get_map_fd table wanted = elim (find_from 0 table wanted) [ none ↦ pos 0 | some (i, fd) ↦ fd ]

-- `*(uint32_t *)key_ptr`; undefined where the key has fewer than four bytes.
unfoldable pub key_index : List ℕ → Outcome ℕ
key_index key = do
  b0 ← at key 0
  b1 ← at key 1
  b2 ← at key 2
  b3 ← at key 3
  returns (b0 + 2 ^ 8 * b1 + 2 ^ 16 * b2 + 2 ^ 24 * b3)

-- What a lookup gives to the program: the pointer returned, and what was copied into the buffer
-- behind it.
pub record Found : Type 0 where
  pub pointer : Option ℕ
  pub copied : Option (List ℕ)

abbrev pub not_found : Found
not_found = record { pointer = none; copied = none }

-- The kernel's side of `bpf_map_lookup_elem`: the value of a key in the map of a descriptor.
module _ (kernel : ℤ → List ℕ → Option (List ℕ)) where
  -- The steps that both lookups share, once the entry and the descriptor are known.
  unfoldable pub lookup_entry : Entry → ℤ → List ℕ → Outcome Found
  unfolding key_index
  lookup_entry e fd key = elim e.mmap_area [
    | some area ↦ do
      i ← key_index key
      returns (record { pointer = some ((area + e.value_size * i) % 2 ^ 64); copied = none })
    | none ↦ elim e.value_pool [
      | none ↦ returns not_found
      | some buffer ↦ elim (kernel fd key) [
        | none ↦ returns not_found
        | some value ↦ returns (record { pointer = some buffer; copied = some value })
      ]
    ]
  ]

  -- `ubpf_map_lookup_elem_kern`
  unfoldable pub lookup_elem_kern : List Entry → List ℕ → List ℕ → Outcome Found
  unfolding lookup_entry find_from
  lookup_elem_kern table map_name key = elim (get_map_fd_and_idx table map_name) [
    | none ↦ returns not_found
    | some (i, fd) ↦
        if is_zero fd then returns not_found else do e ← at table i; lookup_entry e fd key
  ]

  -- `ubpf_map_lookup_elem_kern_fast`
  unfoldable pub lookup_elem_kern_fast : List Entry → ℕ → List ℕ → Outcome Found
  unfolding lookup_entry
  lookup_elem_kern_fast table index key = do e ← at table index; lookup_entry e e.fd key

-- `ubpf_map_update_elem_kern`; `update` is the kernel's `bpf_map_update_elem`.
unfoldable pub update_elem_kern :
    (ℤ → List ℕ → List ℕ → ℕ → ℤ) → List Entry → List ℕ → List ℕ → List ℕ → ℕ → ℤ
unfolding get_map_fd
update_elem_kern update table map_name key value flag =
    if is_zero (get_map_fd table map_name)
    then pos 1
    else update (get_map_fd table map_name) key value flag

-- `ubpf_map_elem_release` does nothing: the buffer stays with its map.
pub elem_release : Option ℕ → List Entry → List Entry
elem_release ptr table = table
