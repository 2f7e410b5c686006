-- ===== src/Programs/HashMap.antt =====
-- examples/benchmarks/hash_map.c built for XDP, and how `try_populate_maps` of
-- examples/benchmarks/loader.c fills its map. The sizes are those of map_detail.h.
pub mod Keys
mod Tests
use servant.Prelude.Int.{word_bytes}
use servant.Prelude.{
  ℕ, zero, suc, List, [], ◌∷◌, ◌++◌, Bool, true, Option, some, none, ◌+◌, ◌*◌, ◌%◌, ◌^◌, ◌<◌, ◌≡◌,
  ◌≢◌, get_or, drop, replicate,
}
use servant.Programs.{drop_verdict}

-- A hash map of the kernel: what it promises of the calls that are made here.
pub record HashMaps : Type 1 where
  pub M : Type 0
  -- `bpf_map_lookup_elem`
  pub lookup : M → List ℕ → Option (List ℕ)
  -- `bpf_map_update_elem` with the flag BPF_ANY; true is the result 0.
  pub update : M → List ℕ → List ℕ → M × Bool
  -- A write through the pointer that a lookup gave.
  pub write : M → List ℕ → List ℕ → M
  pub size : M → ℕ
  pub max_entries : M → ℕ
  pub update-room :
      (m : M) (k v : List ℕ)
      → lookup m k ≡ none
      → size m < max_entries m
      → (lookup (update m k v).0 k ≡ some v)
        × (size (update m k v).0 ≡ suc (size m))
        × (max_entries (update m k v).0 ≡ max_entries m)
  pub update-other : (m : M) (k j v : List ℕ) → k ≢ j → lookup (update m k v).0 j ≡ lookup m j
  pub write-self : (m : M) (k v w : List ℕ) → lookup m k ≡ some v → lookup (write m k w) k ≡ some w
  pub write-other : (m : M) (k j w : List ℕ) → k ≢ j → lookup (write m k w) j ≡ lookup m j

abbrev pub key_rest : List ℕ
key_rest = replicate 4 0

-- A `struct keyobj` whose first four bytes are the integer `i`, with the others behind it.
abbrev pub key_of : ℕ → List ℕ → List ℕ
key_of i rest = word_bytes i ++ rest

-- The first four bytes of a value as an integer.
abbrev pub word_at : List ℕ → ℕ
word_at v = get_or v 0 0 + get_or v 1 0 * 2 ^ 8 + get_or v 2 0 * 2 ^ 16 + get_or v 3 0 * 2 ^ 24

-- `*(int *)(&valptr->obj) += 1`
abbrev pub incremented : List ℕ → List ℕ
incremented v = word_bytes ((word_at v + 1) % 2 ^ 32) ++ drop 4 v

module _ (h : HashMaps) where
  -- The loop of `try_populate_maps`, with so many rounds left. `struct keyobj key` is not initialised:
  -- `rest` is what its last four bytes happen to be. A failed update is only printed.
  unfoldable pub fill_keys : ℕ → ℕ → List ℕ → h.M → h.M
  fill_keys zero i rest m = m
  fill_keys (suc left) i rest m =
      fill_keys left (i + 1) rest (h.update m (key_of i rest) (replicate 8 0)).0

  -- `try_populate_maps` of the map `hash_map`, where the object has one.
  unfoldable pub populate_hash_map : List ℕ → h.M → h.M
  unfolding fill_keys
  populate_hash_map rest m = fill_keys 128 0 rest m

  -- The loop of `bpf_prog`, with so many rounds left.
  unfoldable pub count_keys : ℕ → ℕ → h.M → h.M
  count_keys zero i m = m
  count_keys (suc left) i m = elim (h.lookup m (key_of i key_rest)) [
    | none ↦ m
    | some v ↦ count_keys left (i + 1) (h.write m (key_of i key_rest) (incremented v))
  ]

  -- `bpf_prog`
  unfoldable pub hash_map_prog : h.M → ℕ × h.M
  unfolding count_keys
  hash_map_prog m = (drop_verdict, count_keys 32 0 m)
