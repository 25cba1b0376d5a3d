-- ===== src/Tests/Stackers.antt =====
-- The theorems on the stacker at concrete inputs.
use bsas_sc.Common.{ℕ, true, false, ◌≡◌, refl, List, [], ◌∷◌, ◌++◌, ok, leb, not, ◌+◌}
use mathlib.Core.List.{flatten}
use bsas_sc.Stamp.{EpicsTimeStamp}
use bsas_sc.Pvxs.Concrete.{simple, Table}
use bsas_sc.Table.{TimeTable}
use bsas_sc.Stacker.{EpicsDiff, Config, Sample, Stacker, new_stacker}
use bsas_sc.Stacker.Samples.{IsCollected, collect_all, collect}
use bsas_sc.Stacker.Refine.{stacker_of}
use bsas_sc.Stacker.Runs.{push_all, push_all-posts, Hold, push_all-samples}
use bsas_sc.Tests.{earlier}

-- A difference as its two times; its size is compared by the seconds.
abbrev clock : EpicsDiff
clock = record {
  Double = EpicsTimeStamp × EpicsTimeStamp;
  diff_in_seconds = λ a b. (a, b);
  le_zero = λ d. not (earlier d.1 d.0);
  ge = λ d e.
      leb (e.0.sec_past_epoch + d.1.sec_past_epoch) (d.0.sec_past_epoch + e.1.sec_past_epoch);
}

abbrev at_sec : ℕ → EpicsTimeStamp
at_sec n = record { sec_past_epoch = n; nsec = 0 }

abbrev sample : ℕ → ℕ → Sample ℕ
sample sec x = record {
  timestamp = at_sec sec;
  value = x;
  utag = sec;
  severity = 0;
  condition = 0;
  message = 0;
}

abbrev three : List (Sample ℕ)
three = sample 10 1 ∷ sample 11 2 ∷ sample 14 3 ∷ []

abbrev with_utag : Config
with_utag = record { utag = true; alarm_sev = false; alarm_cond = false; alarm_message = false }

-- Two samples are posted when the third comes, three seconds or more after the first.
collect_three :
    collect_all clock (at_sec 3, at_sec 0) (record { posted = []; current = [] }) three
    ≡ record { posted = (sample 10 1 ∷ sample 11 2 ∷ []) ∷ []; current = sample 14 3 ∷ [] }
unfolding collect_all collect
collect_three = refl

abbrev three_sec : EpicsTimeStamp × EpicsTimeStamp
three_sec = (at_sec 3, at_sec 0)

push_all-posts_example :
    (type : TimeTable) × (initial : Table) × (s : Stacker (EpicsTimeStamp × EpicsTimeStamp) ℕ Table)
    × (posted : List Table) × (new_stacker simple clock with_utag three_sec ≡ ok (s, initial))
    × (let q = collect_all clock three_sec (record { posted = []; current = [] }) three in
        (push_all simple clock s three
          ≡ ok (stacker_of simple clock with_utag three_sec type posted q.current))
        × Hold simple clock with_utag posted q.posted
        × IsCollected clock three_sec q)
push_all-posts_example = push_all-posts simple clock with_utag three_sec three

push_all-samples_example :
    (type : TimeTable) × (initial : Table) × (s : Stacker (EpicsTimeStamp × EpicsTimeStamp) ℕ Table)
    × (posted : List Table) × (batches : List (List (Sample ℕ))) × (current : List (Sample ℕ))
    × (new_stacker simple clock with_utag three_sec ≡ ok (s, initial))
    × (push_all simple clock s three
        ≡ ok (stacker_of simple clock with_utag three_sec type posted current))
    × Hold simple clock with_utag posted batches
    × (flatten batches ++ current ≡ three)
push_all-samples_example =
    push_all-samples simple clock with_utag three_sec three (refl, (refl, tt))
