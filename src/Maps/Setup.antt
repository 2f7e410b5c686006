-- ===== src/Maps/Setup.antt =====
-- `setup_map_system` of src/map.c: the maps of the kernel in the order in which their ids come, each
-- compared with every request.
pub mod Place
pub mod Dense
pub mod Gap
pub mod Request
use servant.Prelude.{
  List, ℕ, Bool, some, ◌+◌, Option, if◌then◌else◌, Outcome, undefined, ◌*◌, none, set, ◌-◌, ltb,
  returns, ◌>>=◌, length, suc, drop, ◌∷◌, ◌%◌, map, zero, at, ◌==◌, ◌^◌, [], ◌/◌, true, false,
}
use servant.Maps.{Entry, max_nr_maps}
use servant.Prelude.Int.{ℤ, pos, negsuc, minus_one, is_zero}
use servant.Prelude.Text.{str_eq, atoi}

-- `strsep(&stringp, ":")`: what stands before the first colon, and what stands behind it.
unfoldable pub split_colon : List ℕ → List ℕ × Option (List ℕ)
split_colon [] = ([], none)
split_colon (c ∷ cs) =
    let (name, rest) = split_colon cs in if c == b':' then ([], some cs) else (c ∷ name, rest)

-- `get_name_index_requested`
unfoldable pub get_name_index_requested : List ℕ → List ℕ × ℤ
unfolding split_colon
get_name_index_requested req =
    let (name, rest) = split_colon req in
    elim rest [ none ↦ (req, minus_one) | some digits ↦ (name, atoi digits) ]

-- What the system answers about one map: its descriptor, its `bpf_map_info`, and what `malloc` and
-- `mmap` give for it (none is NULL or MAP_FAILED). `mmapable` is the flag BPF_F_MMAPABLE.
pub record KernelMap : Type 0 where
  pub map_fd : ℤ
  pub info_name : List ℕ
  pub value_size : ℕ
  pub max_entries : ℕ
  pub mmapable : Bool
  pub buffer : Option ℕ
  pub mmap : ℕ → Option ℕ

-- `roundup_page`, for the page size that `sysconf` reports.
unfoldable pub roundup_page : ℕ → ℕ → ℕ
roundup_page page_size sz = (sz + page_size - 1) % 2 ^ 64 / page_size * page_size

-- The arrays with `lastGlobalIndex`; `failed` is the early `return 1`.
pub record Scan : Type 0 where
  pub table : List Entry
  pub last : ℕ
  pub failed : Bool

-- `while (map_fds[lastGlobalIndex] != 0) lastGlobalIndex++;` over the entries from `i` on. Past the
-- arrays the read is undefined.
unfoldable pub skip_used : List Entry → ℕ → Outcome ℕ
skip_used [] i = undefined
skip_used (e ∷ es) i = let rest = skip_used es (i + 1) in if is_zero e.fd then returns i else rest

-- `cur_index`: where the map goes, by the index that was requested.
unfoldable pub choose_index : ℤ → ℕ → Outcome ℕ
choose_index (pos n) last = returns n
choose_index (negsuc zero) last = returns last
choose_index (negsuc (suc n)) last = undefined

-- The entry at a requested index that is in use moves to `last`.
unfoldable pub relocate : List Entry → ℤ → ℕ → ℕ → Entry → List Entry
relocate table (negsuc n) last cur old = table
relocate table (pos n) last cur old = if is_zero old.fd then table else set table last old

-- The entry that a map gets. `old_pool` and `old_area` stand there before.
unfoldable pub new_entry : ℕ → KernelMap → List ℕ → ℕ → Entry
unfolding roundup_page
new_entry page_size k name buffer = record {
  name = some name;
  fd = k.map_fd;
  value_size = k.value_size;
  value_pool = some buffer;
  mmap_area =
      if k.mmapable then k.mmap (roundup_page page_size (k.value_size * k.max_entries)) else none;
}

-- What is written at the index, where `now` stands: without a buffer the function returns before the
-- last two fields are set.
unfoldable pub written_entry : ℕ → KernelMap → List ℕ → Entry → Entry
unfolding new_entry
written_entry page_size k name now = elim k.buffer [
  | none ↦ record now { name = some name; fd = k.map_fd; value_size = k.value_size }
  | some buffer ↦ new_entry page_size k name buffer
]

unfoldable pub no_buffer : KernelMap → Bool
no_buffer k = elim k.buffer [ none ↦ true | some buffer ↦ false ]

-- The body of the `if (!strcmp(names[i], map_info.name))`.
unfoldable pub place : ℕ → KernelMap → List ℕ → ℤ → Scan → Outcome Scan
place page_size k name req s = do
  last ← skip_used (drop s.last s.table) s.last
  cur ← choose_index req last
  old ← at s.table cur
  let table = relocate s.table req last cur old
  now ← at table cur
  returns (record {
    table = set table cur (written_entry page_size k name now);
    last = last;
    failed = no_buffer k;
  })

-- One round of the loop over the requests; after the early `return 1` there is none.
unfoldable pub match_request : ℕ → KernelMap → List ℕ × ℤ → Scan → Outcome Scan
match_request page_size k (name, req) s =
    if s.failed
    then returns s
    else if str_eq name k.info_name
    then place page_size k name req s
    else returns s

-- `for (int i = 0; i < size; i++)` over the requests, for one map of the kernel.
unfoldable pub match_requests : ℕ → KernelMap → List (List ℕ × ℤ) → Scan → Outcome Scan
match_requests page_size k [] s = returns s
match_requests page_size k (r ∷ reqs) s = do
  s' ← match_request page_size k r s
  match_requests page_size k reqs s'

-- The `while (!ret)` over the ids: the list is what `bpf_map_get_next_id` walks before it fails.
unfoldable pub scan_maps : ℕ → List KernelMap → List (List ℕ × ℤ) → Scan → Outcome Scan
scan_maps page_size [] reqs s = returns s
scan_maps page_size (k ∷ ks) reqs s = do
  s' ← match_requests page_size k reqs s
  scan_maps page_size ks reqs s'

-- The arrays with `lastGlobalIndex` at 0.
abbrev pub scan_start : List Entry → Scan
scan_start table = record { table = table; last = 0; failed = false }

-- `setup_map_system`: its result and the arrays.
unfoldable pub setup_map_system :
    ℕ → List KernelMap → List (List ℕ) → List Entry → Outcome (ℕ × List Entry)
setup_map_system page_size kernel requests table =
    if ltb max_nr_maps (length requests) then returns (1, table) else do
      s ← scan_maps page_size kernel (map get_name_index_requested requests) (scan_start table)
      returns (if s.failed then 1 else 0, s.table)
