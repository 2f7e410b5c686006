-- ===== src/Maps/Tests.antt =====
-- A kernel with two maps, and the theorems at it.
use servant.Prelude.Text.{str_eq, atoi}
use servant.Prelude.{
  List, false, true, ℕ, some, ◌∷◌, none, Option, [], replicate, ◌≡◌, get_elem?, refl, returns,
  arith,
}
use servant.Prelude.Int.{pos, ℤ, is_zero, minus_one}
use servant.Maps.{
  Entry, no_maps, unused, get_map_fd, lookup_elem_kern, lookup_elem_kern_fast, update_elem_kern,
  find_from,
}
use servant.Maps.Lookup.{lookup-fast}
use servant.Maps.Setup.{
  KernelMap, scan_start, new_entry, get_name_index_requested, setup_map_system, scan_maps, place,
  match_requests, match_request, skip_used, choose_index, relocate, written_entry, no_buffer,
}
use servant.Maps.Setup.Place.{Holds, place-requested, scan_maps-Holds}
use servant.Maps.Setup.Dense.{setup-names, on_system, asked}
use servant.Maps.Setup.Gap.{requested-hidden}
use servant.Maps.Setup.Request.{get_name_index_requested_forms}

-- The names "a" and "b".
abbrev name_a : List ℕ
name_a = b'a' ∷ []

abbrev name_b : List ℕ
name_b = b'b' ∷ []

abbrev map_a : KernelMap
map_a = record {
  map_fd = pos 7;
  info_name = name_a;
  value_size = 8;
  max_entries = 100;
  mmapable = true;
  buffer = some 1000;
  mmap = λ sz. some 40960;
}

abbrev map_b : KernelMap
map_b = record {
  map_fd = pos 9;
  info_name = name_b;
  value_size = 4;
  max_entries = 10;
  mmapable = false;
  buffer = some 2000;
  mmap = λ sz. none;
}

abbrev kernel : List KernelMap
kernel = map_a ∷ map_b ∷ []

abbrev no_values : ℤ → List ℕ → Option (List ℕ)
no_values fd key = none

-- The table after a setup that requests "b" and "a", and one that requests "b" at the index of "a".
abbrev table_ab : List Entry
table_ab =
    record {
      name = some name_a;
      fd = pos 7;
      value_size = 8;
      value_pool = some 1000;
      mmap_area = some 40960;
    }
    ∷ record {
      name = some name_b;
      fd = pos 9;
      value_size = 4;
      value_pool = some 2000;
      mmap_area = none;
    }
    ∷ replicate 14 unused

setup_plain : setup_map_system 4096 kernel (name_b ∷ name_a ∷ []) no_maps ≡ returns (0, table_ab)
unfolding setup_map_system scan_maps match_requests match_request place skip_used choose_index
    relocate written_entry new_entry no_buffer get_name_index_requested str_eq
setup_plain = refl

setup-names_example : is_zero (get_map_fd table_ab name_b) ≡ false
unfolding on_system asked str_eq no_buffer get_name_index_requested
setup-names_example =
    setup-names 4096 kernel (name_b ∷ name_a ∷ []) name_b table_ab
      ((refl, refl), ((refl, refl), tt)) (refl, (refl, tt)) setup_plain

requested_name_index :
    (get_name_index_requested name_b ≡ (name_b, minus_one))
    × (get_name_index_requested (b'b' ∷ b':' ∷ b'5' ∷ []) ≡ (name_b, atoi (b'5' ∷ [])))
requested_name_index = get_name_index_requested_forms name_b (b'5' ∷ []) (omega arith)

requested-hidden_example :
    (table : List Entry) × (setup_map_system 4096
        (map_b ∷ [])
        ((b'b' ∷ b':' ∷ b'5' ∷ []) ∷ [])
        no_maps
      ≡ returns (0, table))
    × (get_elem? table 5 ≡ some (new_entry 4096 map_b name_b 2000))
    × (is_zero (get_map_fd table name_b) ≡ true)
    × (update_elem_kern (λ f k v g. pos 0) table name_b [] [] 0 ≡ pos 1)
unfolding str_eq get_name_index_requested atoi
requested-hidden_example =
    requested-hidden 4096 map_b (b'b' ∷ b':' ∷ b'5' ∷ []) name_b 4 2000 (λ f k v g. pos 0) name_b []
      [] 0 refl (omega arith) refl refl

looked_up_fast :
    lookup_elem_kern no_values table_ab name_a (3 ∷ 0 ∷ 0 ∷ 0 ∷ [])
    ≡ lookup_elem_kern_fast no_values table_ab 0 (3 ∷ 0 ∷ 0 ∷ 0 ∷ [])
unfolding find_from str_eq
looked_up_fast = lookup-fast no_values table_ab name_a (3 ∷ 0 ∷ 0 ∷ 0 ∷ []) 0 (pos 7) refl refl

-- Map "a" is requested at index 1, where "b" stands: "b" moves to index 0.
abbrev entry_b : Entry
entry_b = record {
  name = some name_b;
  fd = pos 9;
  value_size = 4;
  value_pool = some 2000;
  mmap_area = none;
}

abbrev entry_a : Entry
entry_a = record {
  name = some name_a;
  fd = pos 7;
  value_size = 8;
  value_pool = some 1000;
  mmap_area = some 40960;
}

abbrev table_b : List Entry
table_b = unused ∷ entry_b ∷ replicate 14 unused

abbrev table_ba : List Entry
table_ba = entry_b ∷ entry_a ∷ replicate 14 unused

a_after_b :
    scan_maps 4096 (map_a ∷ []) ((name_a, pos 1) ∷ []) (scan_start table_b)
    ≡ returns (record { table = table_ba; last = 0; failed = false })
unfolding scan_maps match_requests match_request place skip_used choose_index relocate written_entry
    new_entry no_buffer str_eq
a_after_b = refl

scan_maps-Holds_example : Holds table_ba entry_b
scan_maps-Holds_example =
    scan_maps-Holds 4096 (map_a ∷ []) ((name_a, pos 1) ∷ []) (scan_start table_b)
      (record { table = table_ba; last = 0; failed = false }) entry_b a_after_b refl (1, refl)

a_placed :
    place 4096 map_a name_a (pos 1) (scan_start table_b)
    ≡ returns (record { table = table_ba; last = 0; failed = false })
unfolding place skip_used choose_index relocate written_entry new_entry no_buffer
a_placed = refl

placed_as_requested : get_elem? table_ba 1 ≡ some (new_entry 4096 map_a name_a 1000)
placed_as_requested =
    place-requested 4096 map_a name_a 1 1000 (scan_start table_b)
      (record { table = table_ba; last = 0; failed = false }) refl a_placed
