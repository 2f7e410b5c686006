-- ===== src/Maps/Setup/Gap.antt =====
-- A requested index above 0, and the lookup by name that stops at the first gap.
use servant.Prelude.Text.{str_eq}
use servant.Prelude.Int.{ℤ, pos, is_zero}
use servant.Prelude.{
  ℕ, List, ◌≡◌, suc, ◌<◌, true, some, ◌∷◌, [], returns, get_elem?, set, arith, get_elem?-set_self,
  false, get_elem?-replicate, refl,
}
use servant.Maps.{Entry, get_map_fd, update_elem_kern, no_maps, unused}
use servant.Maps.Setup.{
  KernelMap, skip_used, choose_index, relocate, new_entry, written_entry, no_buffer, place,
  match_request, match_requests, scan_maps, get_name_index_requested, setup_map_system, scan_start,
}

placed :
    (page_size : ℕ) (k : KernelMap) (name : List ℕ) (m b : ℕ)
    → m < 15
    → str_eq name k.info_name ≡ true
    → k.buffer ≡ some b
    → match_request page_size k (name, pos (suc m)) (scan_start no_maps)
      ≡ returns (record {
        table = set no_maps (suc m) (new_entry page_size k name b);
        last = 0;
        failed = false;
      })
unfolding match_request place skip_used choose_index relocate written_entry no_buffer
placed page_size k name m b hm hn hb = ground (arith, get_elem?-replicate 15 m unused hm)

-- A map that is requested at an index from 1 to 15 of an empty table is stored there whole, where the
-- lookup by index finds it; but by its name, as by any other, no map is found: `_get_map_fd` stops at
-- the unused entry 0, and `ubpf_map_update_elem_kern` returns 1.
pub requested-hidden :
    (page_size : ℕ) (k : KernelMap) (req name : List ℕ) (m b : ℕ)
    (update : ℤ → List ℕ → List ℕ → ℕ → ℤ) (w key value : List ℕ) (flag : ℕ)
    → get_name_index_requested req ≡ (name, pos (suc m))
    → m < 15
    → str_eq name k.info_name ≡ true
    → k.buffer ≡ some b
    → (table : List Entry) × (setup_map_system page_size (k ∷ []) (req ∷ []) no_maps
        ≡ returns (0, table))
      × (get_elem? table (suc m) ≡ some (new_entry page_size k name b))
      × (is_zero (get_map_fd table w) ≡ true)
      × (update_elem_kern update table w key value flag ≡ pos 1)
unfolding setup_map_system scan_maps match_requests update_elem_kern get_map_fd
requested-hidden page_size k req name m b update w key value flag hr hm hn hb = (
  set no_maps (suc m) (new_entry page_size k name b),
  ground (arith, hr, placed page_size k name m b hm hn hb),
  get_elem?-set_self no_maps (suc m) unused _ (get_elem?-replicate 16 (suc m) unused (omega arith)),
  refl,
  refl,
)
