-- ===== src/Programs/Report.antt =====
-- examples/benchmarks/report_tput.c: it looks for the map of a benchmark and prints, from two seconds to two
-- seconds, how much its count has grown. The division of a line into a rate is left out: a line is the
-- growth and the time it took, both as 64 bits.
pub mod Total
mod Tests
use servant.Prelude.Int.{ℤ, minus_one}
use servant.Prelude.Text.{str_eq, atoi}
use servant.Config.{to_uint32}
use servant.Prelude.{
  ℕ, List, [], ◌∷◌, Option, none, some, ◌+◌, ◌-◌, ◌%◌, ◌^◌, ◌==◌, ◌||◌, ltb, if◌then◌else◌,
}

-- What the kernel answers about a map: its id, its descriptor, and the name of its `bpf_map_info`, none if
-- the call fails and leaves `map_info` as it is.
pub record ListedMap : Type 0 where
  pub id : ℕ
  pub map_fd : ℤ
  pub info_name : Option (List ℕ)

-- `target`
abbrev pub tput_name : List ℕ
tput_name = b't' ∷ b'p' ∷ b'u' ∷ b't' ∷ []

abbrev pub name_seen : List ℕ → Option (List ℕ) → List ℕ
name_seen before none = before
name_seen before (some name) = name

-- The loop over the maps of the kernel, with the name that `map_info` has before it.
unfoldable pub find_map : ℤ → List ℕ → List ListedMap → Option ℤ
find_map target_id before [] = none
find_map target_id before (m ∷ ms) =
    let name = name_seen before m.info_name in
    let rest = find_map target_id name ms in
    if str_eq tput_name name || to_uint32 target_id == m.id then some m.map_fd else rest

-- `main` to the end of the search, by the first argument.
unfoldable pub find_target : Option (List ℕ) → List ListedMap → Option ℤ
find_target arg ms = find_map (elim arg [ none ↦ minus_one | some digits ↦ atoi digits ]) [] ms

-- `lastReport`, `value` and `lastTs`.
pub record Reporter : Type 0 where
  pub last_report : ℕ
  pub value : ℕ
  pub last_ts : ℕ

abbrev pub new_reporter : Reporter
new_reporter = record { last_report = 0; value = 0; last_ts = 0 }

-- What a round finds: the time, and the count, none if the lookup fails.
pub record Reading : Type 0 where
  pub now : ℕ
  pub count : Option ℕ

pub record Line : Type 0 where
  pub gained : ℕ
  pub delta : ℕ

abbrev pub count_read : ℕ → Option ℕ → ℕ
count_read before none = before
count_read before (some n) = n

-- A difference of 64 bits.
abbrev pub minus_64 : ℕ → ℕ → ℕ
minus_64 a b = (a + 2 ^ 64 - b) % 2 ^ 64

-- A round of the endless loop: it sleeps, or it prints a line.
unfoldable pub report_round : Reading → Reporter → Option Line × Reporter
report_round x r =
    let delta = minus_64 x.now r.last_ts in
    let value = count_read r.value x.count in
    if ltb delta 2000000000 then (none, r) else (
      some (record { gained = minus_64 value r.last_report; delta = delta }),
      record { last_report = value; value = value; last_ts = x.now },
    )

abbrev pub with_line : Option Line → List Line → List Line
with_line none ls = ls
with_line (some l) ls = l ∷ ls

-- So many rounds.
unfoldable pub report_rounds : List Reading → Reporter → List Line × Reporter
report_rounds [] r = ([], r)
report_rounds (x ∷ xs) r =
    let one = report_round x r in
    let rest = report_rounds xs one.1 in (with_line one.0 rest.0, rest.1)
