-- ===== src/Programs/Report/Total.antt =====
-- examples/benchmarks/report_tput.c: what its lines add up to.
use servant.Prelude.{
  ℕ, List, [], ◌∷◌, ◌+◌, ◌^◌, ◌≤◌, ◌<◌, ◌≡◌, refl, Option, none, some, Bool-cases, inl, inr, ltb,
  not-ltb→le, All, arith,
}
use servant.Programs.Report.{
  Reporter, Reading, Line, count_read, minus_64, report_round, report_rounds,
}

abbrev pub total_gained : List Line → ℕ
total_gained [] = 0
total_gained (l ∷ ls) = l.gained + total_gained ls

abbrev pub total_time : List Line → ℕ
total_time [] = 0
total_time (l ∷ ls) = l.delta + total_time ls

-- Readings of 64 bits, a long each for the count, at which neither the time nor the count falls, from a count and a time on.
abbrev pub IsRising : ℕ → ℕ → List Reading → Type 0
IsRising v ts [] = Unit
IsRising v ts (x ∷ xs) =
    (ts ≤ x.now)
    × (x.now < 2 ^ 64)
    × (v ≤ count_read v x.count)
    × (count_read v x.count < 2 ^ 63)
    × IsRising (count_read v x.count) x.now xs

minus_64-le : (a b : ℕ) → b ≤ a → a < 2 ^ 64 → b + minus_64 a b ≡ a
minus_64-le a b h l = omega arith

-- The reporter is behind a count and a time.
abbrev pub IsBehind : ℕ → ℕ → Reporter → Type 0
IsBehind v ts r = (r.last_report ≡ r.value) × (r.value ≤ v) × (r.last_ts ≤ ts)

-- The lines lead from one state of the reporter to another, two seconds at least for each.
abbrev pub Leads : Reporter → List Line × Reporter → Type 0
Leads r (ls, r') =
    (r.last_report + total_gained ls ≡ r'.last_report)
    × (r.last_ts + total_time ls ≡ r'.last_ts)
    × All (λ l. 2000000000 ≤ l.delta) ls

count_read-le :
    (a v : ℕ) (o : Option ℕ)
    → a ≤ v
    → v ≤ count_read v o
    → (a ≤ count_read a o) × (count_read a o ≤ count_read v o)
count_read-le a v none h k = (omega arith, h)
count_read-le a v (some n) h k = (omega arith, omega arith)

-- Whenever the count is read, as long as neither it nor the clock falls, the growths that report_tput prints
-- add up to the last count read, their times to the last time, and each line stands for two
-- seconds at least.
pub report_rounds-Leads :
    (xs : List Reading) (v ts : ℕ) (r : Reporter)
    → IsBehind v ts r
    → IsRising v ts xs
    → Leads r (report_rounds xs r)
unfolding report_rounds report_round
report_rounds-Leads [] v ts r b h = (omega arith, omega arith, tt)
report_rounds-Leads (x ∷ xs) v ts r b h =
    let value : ℕ = count_read r.value x.count in
    let le : (r.value ≤ value) × (value ≤ count_read v x.count) =
      count_read-le r.value v x.count b.1 h.2 in
    elim (Bool-cases (ltb (minus_64 x.now r.last_ts) 2000000000)) [
      | inl early ↦
          rw (early, report_round)
            (report_rounds-Leads xs (count_read v x.count) x.now r
              (b.0, omega (arith, b.1, h.2), omega (arith, b.2, h.0)) h.4)
      | inr due ↦
          let rest =
            report_rounds-Leads xs (count_read v x.count) x.now
              (record { last_report = value; value = value; last_ts = x.now })
              (refl, le.1, omega arith) h.4 in
          let gained =
            minus_64-le value r.last_report (omega (arith, b.0, le.0)) (omega (arith, le.1, h.3)) in
          let passed = minus_64-le x.now r.last_ts (omega (arith, b.2, h.0)) h.1 in
          rw (due, report_round)
            (
              omega (arith, rest.0, gained),
              omega (arith, rest.1, passed),
              (not-ltb→le (minus_64 x.now r.last_ts) 2000000000 due, rest.2),
            )
    ]
