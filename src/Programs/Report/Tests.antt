-- ===== src/Programs/Report/Tests.antt =====
-- Runs of examples/benchmarks/report_tput.c.
use servant.Prelude.Int.{pos}
use servant.Prelude.Text.{str_eq, atoi}
use servant.Config.{to_uint32}
use servant.Prelude.{List, [], ◌∷◌, none, some, ◌≡◌, refl, arith}
use servant.Programs.Report.{
  ListedMap, find_map, find_target, Reading, new_reporter, report_round, report_rounds,
}
use servant.Programs.Report.Total.{Leads, report_rounds-Leads}

abbrev maps : List ListedMap
maps =
    record { id = 3; map_fd = pos 7; info_name = some (b'x' ∷ []) }
    ∷ record { id = 5; map_fd = pos 8; info_name = some (b't' ∷ b'p' ∷ b'u' ∷ b't' ∷ []) }
    ∷ []

find_target-name : find_target none maps ≡ some (pos 8)
unfolding find_target find_map str_eq to_uint32
find_target-name = refl

-- The number of a map that is in front of the one of the name.
find_target-id : find_target (some (b'3' ∷ [])) maps ≡ some (pos 7)
unfolding find_target find_map str_eq to_uint32 atoi
find_target-id = refl

-- 5 seconds after the start of the clock, one second later, and two more.
abbrev readings : List Reading
readings =
    record { now = 5000000000; count = some 90 }
    ∷ record { now = 6000000000; count = some 95 }
    ∷ record { now = 8000000000; count = some 100 }
    ∷ []

-- The first line has everything that was counted before, over the time since the clock began.
report_rounds-lines : report_rounds readings new_reporter ≡ (
  record { gained = 90; delta = 5000000000 } ∷ record { gained = 10; delta = 3000000000 } ∷ [],
  record { last_report = 100; value = 100; last_ts = 8000000000 },
)
unfolding report_rounds report_round
report_rounds-lines = refl

report_rounds-Leads_example : Leads new_reporter (report_rounds readings new_reporter)
report_rounds-Leads_example =
    report_rounds-Leads readings 0 0 new_reporter (refl, omega arith, omega arith)
      (
        omega arith,
        omega arith,
        omega arith,
        omega arith,
        (
          omega arith,
          omega arith,
          omega arith,
          omega arith,
          (omega arith, omega arith, omega arith, omega arith, tt),
        ),
      )
