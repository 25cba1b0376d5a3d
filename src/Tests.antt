-- ===== src/Tests.antt =====
-- Concrete data for the tests: a comparison of EPICS times, and tables with two data rows.
mod Tables
mod Buffers
mod Stackers
mod Writers
mod Merging
mod Merges
mod Threads
mod Archives
mod Aligned
mod Stored
mod Rounds
use bsas_sc.Common.{
  ℕ, Bool, true, false, ◌&&◌, ◌||◌, ◌==◌, ltb, ◌≡◌, ◌<◌, ◌⊎◌, ◌↔◌, List, [], ◌∷◌, none, some,
  Option, Text, codes, arith,
}
use bsas_sc.Stamp.{EpicsTimeStamp, EpicsTime, TimeStamp}
use bsas_sc.Pvxs.{ScalarType, TypeCode, array, of_scalar, Member}
use bsas_sc.Pvxs.Concrete.{Table}
use bsas_sc.Table.{
  ColumnSpec, TimeTable, nt_table, seconds_past_epoch, nanoseconds, pulse_id,
  seconds_past_epoch_col, nanoseconds_col, pulse_id_col,
}

abbrev pub same_time : EpicsTimeStamp → EpicsTimeStamp → Bool
same_time a b = a.sec_past_epoch == b.sec_past_epoch && a.nsec == b.nsec

abbrev pub earlier : EpicsTimeStamp → EpicsTimeStamp → Bool
earlier a b =
    ltb a.sec_past_epoch b.sec_past_epoch
    || a.sec_past_epoch == b.sec_past_epoch && ltb a.nsec b.nsec

pub same_time_iff :
    (a b : EpicsTimeStamp)
    → (same_time a b ≡ true) ↔ ((a.sec_past_epoch ≡ b.sec_past_epoch) × (a.nsec ≡ b.nsec))
same_time_iff a b = ((λ h. ground arith), (λ h. ground arith))

pub earlier_iff :
    (a b : EpicsTimeStamp)
    → (earlier a b ≡ true) ↔ (
        (a.sec_past_epoch < b.sec_past_epoch)
        ⊎ ((a.sec_past_epoch ≡ b.sec_past_epoch) × (a.nsec < b.nsec)))
earlier_iff a b = ((λ h. ground arith), (λ h. ground arith))

abbrev pub epics : EpicsTime
epics = record {
  time_equal = same_time;
  time_less_than = earlier;
  time_equal_iff = same_time_iff;
  time_less_than_iff = earlier_iff;
}

abbrev pub stamp_at : ℕ → ℕ → TimeStamp
stamp_at sec id = record { ts = record { sec_past_epoch = sec; nsec = 0 }; utag = id }

abbrev pub column : Text → ScalarType → List ℕ → Member ℕ
column n s xs = record {
  name = n;
  type_code = array s;
  array = record { original_type = of_scalar s; elems = xs };
}

abbrev pub value_col : ColumnSpec
value_col = record {
  type_code = array ScalarType.float64;
  name = codes "value";
  label = codes "value";
}

abbrev pub labels4 : List Text
labels4 = seconds_past_epoch_col ∷ nanoseconds_col ∷ pulse_id_col ∷ codes "value" ∷ []

abbrev pub specs4 : List ColumnSpec
specs4 = seconds_past_epoch ∷ nanoseconds ∷ pulse_id ∷ value_col ∷ []

abbrev pub members4 : List ℕ → List ℕ → List ℕ → List ℕ → List (Member ℕ)
members4 secs nsecs ids xs =
    column seconds_past_epoch_col ScalarType.uint32 secs
    ∷ column nanoseconds_col ScalarType.uint32 nsecs
    ∷ column pulse_id_col ScalarType.uint64 ids
    ∷ column (codes "value") ScalarType.float64 xs
    ∷ []

abbrev pub table_of : List ℕ → List ℕ → List ℕ → List ℕ → Table
table_of secs nsecs ids xs = record {
  usable = true;
  labels = some labels4;
  columns = some (members4 secs nsecs ids xs);
}

-- Two rows, at 5 and 6 seconds.
abbrev pub two_rows : Table
two_rows = table_of (5 ∷ 6 ∷ []) (0 ∷ 0 ∷ []) (70 ∷ 71 ∷ []) (10 ∷ 20 ∷ [])

abbrev pub no_rows : Table
no_rows = table_of [] [] [] []

-- The columns have different lengths.
abbrev pub ragged : Table
ragged = table_of (5 ∷ 6 ∷ []) (0 ∷ 0 ∷ []) (70 ∷ 71 ∷ []) (10 ∷ [])

abbrev pub type4 : TimeTable
type4 = record {
  columns = specs4;
  time_columns = seconds_past_epoch ∷ nanoseconds ∷ pulse_id ∷ [];
  data_columns = value_col ∷ [];
  nttable = record {
    labels = labels4;
    members =
        (array ScalarType.uint32, seconds_past_epoch_col)
        ∷ (array ScalarType.uint32, nanoseconds_col)
        ∷ (array ScalarType.uint64, pulse_id_col)
        ∷ (array ScalarType.float64, codes "value")
        ∷ [];
  };
}
