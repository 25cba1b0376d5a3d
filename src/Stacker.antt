-- ===== src/Stacker.antt =====
-- test/stackerApp/src/stackerSup.cpp: `Stacker`, which collects the samples of a record and posts them as
-- tables; and `TimeTableScalar` of commonApp/tab/timetable.h and timetable.cpp, the type of these tables.
-- Differences of times are floating point numbers of EPICS base: a parameter.
pub mod Samples
pub mod Refine
pub mod Contents
pub mod Runs
use bsas_sc.Common.{
  ℕ, ◌-◌, Bool, true, false, ◌==◌, if◌then◌else◌, Option, some, none, List, [], ◌∷◌, ◌++◌, map,
  length, Text, codes, Result, ok, err, ◌>>=◌,
}
use bsas_sc.Stamp.{EpicsTimeStamp}
use bsas_sc.Pvxs.{Pvxs, ScalarType, array, of_scalar, Array}
use bsas_sc.Table.{
  labelled, ColumnSpec, TimeTable, seconds_past_epoch_col, nanoseconds_col, time_table_of_columns,
  create_table,
}
use bsas_sc.Buffer.{read}

-- `double`, `epicsTimeDiffInSeconds(&a, &b)`, and the tests `d <= 0` and `d >= e`.
pub record EpicsDiff : Type 1 where
  pub Double : Type 0
  pub diff_in_seconds : EpicsTimeStamp → EpicsTimeStamp → Double
  pub le_zero : Double → Bool
  pub ge : Double → Double → Bool

-- `TimeTableScalar::Config`
pub record Config : Type 0 where
  pub utag : Bool
  pub alarm_sev : Bool
  pub alarm_cond : Bool
  pub alarm_message : Bool

-- The columns of `TimeTableScalar`.
abbrev pub value_col : Text
value_col = codes "value"

abbrev pub utag_col : Text
utag_col = codes "utag"

abbrev pub alarm_sev_col : Text
alarm_sev_col = codes "severity"

abbrev pub alarm_cond_col : Text
alarm_cond_col = codes "condition"

abbrev pub alarm_msg_col : Text
alarm_msg_col = codes "message"

-- `if (test) cols.push_back(c)`
abbrev pub push_if {ℓ} : {A : Type ℓ} → Bool → A → List A → List A
push_if test x xs = if test then xs ++ x ∷ [] else xs

unfoldable pub from_columns_config : Config → List ColumnSpec
from_columns_config config =
    push_if config.alarm_message (labelled ScalarType.string alarm_msg_col) (
      push_if config.alarm_cond (labelled ScalarType.uint16 alarm_cond_col) (
        push_if config.alarm_sev (labelled ScalarType.uint16 alarm_sev_col) (
          push_if config.utag (labelled ScalarType.uint64 utag_col)
            (labelled ScalarType.float64 value_col ∷ []))))

unfoldable pub time_table_scalar : Config → Result TimeTable
time_table_scalar config = time_table_of_columns (from_columns_config config)

-- The arguments of `push`; `E` is the type of the elements of columns.
pub record Sample (E : Type 0) : Type 0 where
  pub timestamp : EpicsTimeStamp
  pub value : E
  pub utag : E
  pub severity : E
  pub condition : E
  pub message : E

-- `struct Stacker`; `posted` are the values given to `pv.post`, oldest first.
pub record Stacker (D E V : Type 0) : Type 0 where
  pub config : Config
  pub period_sec : D
  pub type_ : TimeTable
  pub posted : List V
  pub seconds_past_epoch : List ℕ
  pub nanoseconds : List ℕ
  pub values : List E
  pub utags : List E
  pub severities : List E
  pub conditions : List E
  pub messages : List E

module _ (p : Pvxs) (k : EpicsDiff) where
  open p use {Elem, Value, uint_elem, set_column}
  open k use {Double, diff_in_seconds, le_zero, ge}

  -- The constructor; the table that it opens the PV with has no rows.
  unfoldable pub new_stacker : Config → Double → Result (Stacker Double Elem Value × Value)
  new_stacker config period_sec = do
    type ← time_table_scalar config
    ok (
      record {
        config = config;
        period_sec = period_sec;
        type_ = type;
        posted = [];
        seconds_past_epoch = [];
        nanoseconds = [];
        values = [];
        utags = [];
        severities = [];
        conditions = [];
        messages = [];
      },
      create_table p type,
    )

  unfoldable pub reset : Stacker Double Elem Value → Stacker Double Elem Value
  reset s = record s {
    seconds_past_epoch = [];
    nanoseconds = [];
    values = [];
    utags = [];
    severities = [];
    conditions = [];
    messages = [];
  }

  -- `{secondsPastEpoch[i], nanoseconds[i]}`
  unfoldable pub time_at : Stacker Double Elem Value → ℕ → Result EpicsTimeStamp
  time_at s i = do
    sec ← read s.seconds_past_epoch i
    nsec ← read s.nanoseconds i
    ok (record { sec_past_epoch = sec; nsec = nsec })

  -- `SET_IF`
  abbrev pub set_if : Bool → Text → ScalarType → List Elem → Value → Value
  set_if test name s xs val =
      if test then set_column val name (record { original_type = of_scalar s; elems = xs }) else val

  -- The columns that `publish` sets, one after the other.
  unfoldable pub fill_table : Stacker Double Elem Value → Value → Value
  fill_table s val = set_if s.config.alarm_message alarm_msg_col ScalarType.string s.messages (
      set_if s.config.alarm_cond alarm_cond_col ScalarType.uint16 s.conditions (
        set_if s.config.alarm_sev alarm_sev_col ScalarType.uint16 s.severities (
          set_if s.config.utag utag_col ScalarType.uint64 s.utags (
            set_if true value_col ScalarType.float64 s.values (
              set_if true nanoseconds_col ScalarType.uint32
                (map (uint_elem ScalarType.uint32) s.nanoseconds)
                (set_if true seconds_past_epoch_col ScalarType.uint32
                  (map (uint_elem ScalarType.uint32) s.seconds_past_epoch) val))))))

  -- The two times at the end are only printed.
  unfoldable pub publish : Stacker Double Elem Value → Result (Stacker Double Elem Value)
  publish s = do
    let val = fill_table s (create_table p s.type_)
    let t = record s { posted = s.posted ++ val ∷ [] }
    first ← time_at s 0
    last ← time_at s (length s.seconds_past_epoch - 1)
    ok t

  -- The end of `push`: the sample is appended.
  unfoldable pub store : Stacker Double Elem Value → Sample Elem → Stacker Double Elem Value
  store s x = record s {
    seconds_past_epoch = s.seconds_past_epoch ++ x.timestamp.sec_past_epoch ∷ [];
    nanoseconds = s.nanoseconds ++ x.timestamp.nsec ∷ [];
    values = s.values ++ x.value ∷ [];
    utags = push_if s.config.utag x.utag s.utags;
    severities = push_if s.config.alarm_sev x.severity s.severities;
    conditions = push_if s.config.alarm_cond x.condition s.conditions;
    messages = push_if s.config.alarm_message x.message s.messages;
  }

  -- `if (time_diff >= period_sec) { publish(); reset(); }`
  unfoldable pub publish_if_due :
      Stacker Double Elem Value
      → EpicsTimeStamp
      → EpicsTimeStamp
      → Result (Stacker Double Elem Value)
  publish_if_due s timestamp oldest =
      if ge (diff_in_seconds timestamp oldest) s.period_sec
      then publish s >>= (λ t. ok (reset t))
      else ok s

  -- What `push` does once there is a sample before the new one.
  unfoldable pub push_after :
      Stacker Double Elem Value → Sample Elem → EpicsTimeStamp → Result (Stacker Double Elem Value)
  push_after s x prev =
      if le_zero (diff_in_seconds x.timestamp prev)
      then ok (reset s)
      else time_at s 0 >>= λ oldest. publish_if_due s x.timestamp oldest >>= λ t. ok (store t x)

  unfoldable pub push : Stacker Double Elem Value → Sample Elem → Result (Stacker Double Elem Value)
  push s x =
      let n = length s.seconds_past_epoch in
      if n == 0 then ok (store s x) else time_at s (n - 1) >>= push_after s x
