-- ===== src/Tests/Archives.antt =====
-- The theorems on the program of the writer at concrete inputs.
use bsas_sc.Common.{
  ℕ, ◌-◌, ◌≤◌, ◌<◌, ltb, ◌≡◌, ◌↔◌, ◌⊎◌, true, false, refl, Option, none, some, List, [], ◌∷◌, ◌++◌,
  map, take, length, subst, sym, ap, Text, codes, ok, text_eq_refl, arith,
}
use bsas_sc.Stamp.{EpicsTimeStamp}
use bsas_sc.Pvxs.Concrete.{simple, Table}
use bsas_sc.Align.{decimal}
use bsas_sc.Archiver.{
  timeout, error, Tm, Mkdir, made, already_exists, slash, print_int, print_int2, file_name,
  printed_path, output_file_max, make_dirs, create_folder_and_file, Arguments,
}
use bsas_sc.Archiver.Paths.{
  IsTime, below, IsMade, create_folder_and_file_lem, create_folder_and_file-injective,
}
use bsas_sc.Archiver.Loop.{
  main_result, Update, value, disconnect, stopped, crashed, Clock, Pass, Run, new_run, released,
  drain, pass, passes,
}
use bsas_sc.Archiver.Loop.History.{History, values, Recorded, all_offered}
use bsas_sc.Archiver.Loop.Values.{passes-Recorded}
use bsas_sc.Archiver.Loop.Endings.{pass-ending, passes-IsQuiet}
use bsas_sc.Archiver.Loop.Failures.{pass-same_second, passes-crashed}
use bsas_sc.Tests.{two_rows}
use bsas_sc.Writer.Memory.{in_memory}
use bsas_sc.Tests.Writers.{empty_sets, writer4}
use bsas_sc.Tests.Threads.{whole}

-- The year 2024; the seconds of the stamp are those of the first minutes of a day.
abbrev day_tm : ℕ → Tm
day_tm sec = record {
  tm_year = 124;
  tm_mon = 4;
  tm_mday = 7;
  tm_hour = 0;
  tm_min = 0;
  tm_sec = sec;
}

abbrev clock : Clock whole
clock = record {
  minus = ◌-◌;
  diff_in_seconds = λ a b. a.sec_past_epoch - b.sec_past_epoch;
  to_tm = λ t. day_tm t.sec_past_epoch;
}

abbrev at : ℕ → EpicsTimeStamp
at sec = record { sec_past_epoch = sec; nsec = 0 }

abbrev arguments : Arguments whole
arguments = record {
  input_pv = codes "PV";
  base_directory = codes "data";
  file_prefix = codes "run";
  root_group = codes "root";
  timeout_sec = 5;
  max_duration_sec = 12;
  max_size_mb = 2;
  label_sep = codes ".";
  col_sep = codes "_";
}

abbrev makes : Text → Mkdir
makes dir = made

abbrev day_time : (sec : ℕ) → sec < 61 → IsTime (day_tm sec)
day_time sec h = record {
  year_low = omega arith;
  year = omega arith;
  mon = omega arith;
  mday = omega arith;
  hour = omega arith;
  min = omega arith;
  sec = h;
}

abbrev path9 : Text
path9 = codes "data/2024/05/07/run_20240507_000009.h5"

printed9 : printed_path (codes "data") (codes "run") (day_tm 9) ≡ path9
unfolding printed_path file_name print_int2 print_int decimal
printed9 = refl

short_path : length (printed_path (codes "data") (codes "run") (day_tm 9)) ≤ output_file_max
short_path = subst (λ n. length n ≤ output_file_max) (sym printed9) (omega arith)

created9 : create_folder_and_file makes (codes "data") (codes "run") (day_tm 9) ≡ ok path9
unfolding create_folder_and_file make_dirs
created9 = ap (λ n. ok (take output_file_max n)) printed9

create_folder_and_file_lem_example :
    (year month day : Text) × (year ≡ below (codes "data") 2024)
    × (month ≡ below year 5)
    × (day ≡ below month 7)
    × IsMade makes year
    × IsMade makes month
    × IsMade makes day
    × (path9 ≡ day ++ (slash ++ file_name (codes "run") (day_tm 9)))
create_folder_and_file_lem_example =
    create_folder_and_file_lem makes (codes "data") (codes "run") path9 (day_tm 9)
      (day_time 9 (omega arith)) short_path created9

create_folder_and_file-injective_example :
    ((day_tm 9).tm_year ≡ 124)
    × ((day_tm 9).tm_mon ≡ 4)
    × ((day_tm 9).tm_mday ≡ 7)
    × ((day_tm 9).tm_hour ≡ 0)
    × ((day_tm 9).tm_min ≡ 0)
    × ((day_tm 9).tm_sec ≡ 9)
unfolding create_folder_and_file make_dirs
create_folder_and_file-injective_example =
    create_folder_and_file-injective makes (λ dir. already_exists) (codes "data") (codes "run")
      path9 (day_tm 9) (day_tm 9) (day_time 9 (omega arith)) (day_time 9 (omega arith)) short_path
      short_path created9 created9

-- A pass that waits in vain, and one that finds updates.
abbrev quiet : ℕ → ℕ → Pass simple in_memory whole clock
quiet now again = record {
  now = at now;
  woken = false;
  interrupted_ = false;
  updates = [];
  file_time = at now;
  mkdir = makes;
  new_file = λ path. ok empty_sets;
  st_size = none;
  again = at again;
}

abbrev busy : ℕ → List (Update Table) → Option ℕ → Pass simple in_memory whole clock
busy now us size = record (quiet now now) { woken = true; updates = us; st_size = size }

abbrev recording : Run simple in_memory whole clock
recording = record (new_run simple in_memory whole clock (at 0)) { writer = some writer4 }

abbrev some_passes : List (Pass simple in_memory whole clock)
some_passes = quiet 1 6 ∷ busy 7 (value two_rows ∷ disconnect ∷ []) (some 9) ∷ []

passes-Recorded_example :
    (hist : History simple in_memory whole clock) × (rest : List Table) × Recorded simple in_memory
      whole clock arguments
      ((passes simple in_memory whole clock arguments some_passes
          (new_run simple in_memory whole clock (at 0))).closed
        ++ released simple in_memory whole clock
            (passes simple in_memory whole clock arguments some_passes
              (new_run simple in_memory whole clock (at 0))).writer)
      hist
    × ((passes simple in_memory whole clock arguments some_passes
          (new_run simple in_memory whole clock (at 0))).paths
        ≡ map (λ x. x.0) hist)
    × (values simple in_memory whole clock hist ++ rest
        ≡ all_offered simple in_memory whole clock arguments some_passes
            (new_run simple in_memory whole clock (at 0)))
    × ((rest ≡ [])
        ⊎ ((passes simple in_memory whole clock arguments some_passes
              (new_run simple in_memory whole clock (at 0))).ending
            ≡ some (stopped error)))
passes-Recorded_example = passes-Recorded simple in_memory whole clock arguments (at 0) some_passes

pass-ending_example :
    ((main_result (pass simple in_memory whole clock arguments (quiet 9 9) recording).ending
        ≡ some 0)
      ↔ ((false ≡ true) × (false ≡ true)))
    × (((pass simple in_memory whole clock arguments (quiet 9 9) recording).ending
          ≡ some (stopped timeout))
        ↔ ((false ≡ false) × (ltb 5 9 ≡ true)))
unfolding new_run
pass-ending_example = pass-ending simple in_memory whole clock arguments (quiet 9 9) recording refl

passes-IsQuiet_example :
    ((passes simple in_memory whole clock arguments (quiet 1 6 ∷ quiet 7 12 ∷ []) recording).ending
      ≡ none)
    × ((passes simple in_memory whole clock arguments
            (quiet 1 6 ∷ quiet 7 12 ∷ [])
            recording).closed
          ++ released simple in_memory whole clock
              (passes simple in_memory whole clock arguments
                (quiet 1 6 ∷ quiet 7 12 ∷ [])
                recording).writer
        ≡ writer4 ∷ [])
unfolding new_run
passes-IsQuiet_example =
    passes-IsQuiet simple in_memory whole clock arguments (quiet 1 6 ∷ quiet 7 12 ∷ []) recording
      refl (refl, refl, (refl, refl, tt))

abbrev held_path : Text
held_path = take output_file_max (printed_path (codes "data") (codes "run") (day_tm 9))

pass-same_second_example :
    (pass simple in_memory whole clock arguments
      (busy 9 (value two_rows ∷ []) none)
      (record (new_run simple in_memory whole clock (at 9)) { paths = held_path ∷ [] })).ending
    ≡ some (stopped error)
unfolding new_run
pass-same_second_example =
    pass-same_second simple in_memory whole clock arguments (busy 9 (value two_rows ∷ []) none)
      (record (new_run simple in_memory whole clock (at 9)) { paths = held_path ∷ [] }) two_rows []
      refl refl refl refl refl (rw (text_eq_refl held_path) refl)

-- The file has three megabytes.
passes-crashed_example :
    (passes simple in_memory whole clock arguments
      (busy 1 [] (some 3145728) ∷ busy 2 [] none ∷ [])
      recording).ending
    ≡ some crashed
unfolding new_run drain
passes-crashed_example =
    passes-crashed simple in_memory whole clock arguments (busy 1 [] (some 3145728))
      (busy 2 [] none) recording recording writer4 3145728 refl refl refl refl refl refl refl refl
      refl refl
