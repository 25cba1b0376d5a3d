-- ===== src/Table.antt =====
-- nttableApp/tab/nttable.h and nttable.cpp (`NTTable`), commonApp/tab/timetable.h and
-- commonApp/timetable.cpp (`TimeTable`, `TimeTableValue`). A `TimeTableValue` is its `pvxs::Value`: the
-- type beside it is that of the object that wraps it.
pub mod Valid
pub mod Create
pub mod Columns
pub mod Read
pub mod Stat
use bsas_sc.Common.{
  ℕ, zero, suc, Bool, true, false, not, ◌||◌, ◌==◌, ltb, if◌then◌else◌, Option, none, some, List,
  [], ◌∷◌, ◌++◌, map, length, take, drop, Text, codes, text_eq, Result, ok, err, runtime_error,
  assertion, bad_access, ◌>>=◌, ◌>>◌, guard, or_fail,
}
use bsas_sc.Pvxs.{Pvxs, ScalarType, TypeCode, array, no_scalar, Array, Member}

-- `NTTable::ColumnSpec`
pub record ColumnSpec : Type 0 where
  pub type_code : TypeCode
  pub name : Text
  pub label : Text

-- `NTTable`: `_labels`, and the members of the field `value` of `_def`.
pub record NtTable : Type 0 where
  pub labels : List Text
  pub members : List (TypeCode × Text)

-- The constructor of `NTTable` from a range of column specifications.
unfoldable pub nt_table : List ColumnSpec → NtTable
nt_table [] = record { labels = []; members = [] }
nt_table (c ∷ cs) =
    let t = nt_table cs in
    record { labels = c.label ∷ t.labels; members = (c.type_code, c.name) ∷ t.members }

-- `COLSPEC`: an array column with its name as its label.
abbrev pub labelled : ScalarType → Text → ColumnSpec
labelled s name = record { type_code = array s; name = name; label = name }

-- The names of the three time columns.
abbrev pub seconds_past_epoch_col : Text
seconds_past_epoch_col = codes "secondsPastEpoch"

abbrev pub nanoseconds_col : Text
nanoseconds_col = codes "nanoseconds"

abbrev pub pulse_id_col : Text
pulse_id_col = codes "pulseId"

-- `TimeTable::SECONDS_PAST_EPOCH`, `NANOSECONDS`, `PULSE_ID`: a column is labelled by its name.
abbrev pub seconds_past_epoch : ColumnSpec
seconds_past_epoch = record {
  type_code = array ScalarType.uint32;
  name = seconds_past_epoch_col;
  label = seconds_past_epoch_col;
}

abbrev pub nanoseconds : ColumnSpec
nanoseconds = record {
  type_code = array ScalarType.uint32;
  name = nanoseconds_col;
  label = nanoseconds_col;
}

abbrev pub pulse_id : ColumnSpec
pulse_id = record { type_code = array ScalarType.uint64; name = pulse_id_col; label = pulse_id_col }

abbrev pub num_time_cols : ℕ
num_time_cols = 3

unfoldable pub from_data_columns : List ColumnSpec → List ColumnSpec
from_data_columns data_columns = (seconds_past_epoch ∷ nanoseconds ∷ pulse_id ∷ []) ++ data_columns

-- `struct TimeTable`
pub record TimeTable : Type 0 where
  pub columns : List ColumnSpec
  pub time_columns : List ColumnSpec
  pub data_columns : List ColumnSpec
  pub nttable : NtTable

-- What both constructors do with the columns. With fewer than three columns the iterator
-- `columns.begin() + NUM_TIME_COLS` is past the end.
unfoldable pub split_columns : List ColumnSpec → Result TimeTable
unfolding nt_table
split_columns columns =
    if ltb (length columns) num_time_cols
    then err bad_access
    else ok (record {
      columns = columns;
      time_columns = take num_time_cols columns;
      data_columns = drop num_time_cols columns;
      nttable = nt_table columns;
    })

-- `TimeTable(data_columns)`
unfoldable pub time_table_of_columns : List ColumnSpec → Result TimeTable
unfolding split_columns from_data_columns
time_table_of_columns data_columns = split_columns (from_data_columns data_columns)

-- `EXPECTED_COLS.find(idx)`
abbrev pub expected_col : ℕ → Option Text
expected_col zero = some seconds_past_epoch_col
expected_col (suc zero) = some nanoseconds_col
expected_col (suc (suc zero)) = some pulse_id_col
expected_col (suc (suc (suc idx))) = none

-- The test on the name of the column at `idx`.
abbrev pub is_expected : ℕ → Text → Bool
is_expected idx name = elim (expected_col idx) [
  | none ↦ true
  | some expected ↦ text_eq expected name
]

-- `vcolumn_lengths.insert(n)`: a set of sizes.
abbrev pub has_length : ℕ → List ℕ → Bool
has_length n [] = false
has_length n (m ∷ lengths) = n == m || has_length n lengths

abbrev pub insert_length : ℕ → List ℕ → List ℕ
insert_length n lengths = if has_length n lengths then lengths else n ∷ lengths

module _ (p : Pvxs) where
  open p use {Elem, Value, type_eq, is_compound, is_null, is_array, as_uint, valid, labels, columns}

  -- The constructor of `NTTable::ColumnSpec`, with its assertions.
  unfoldable pub column_spec : TypeCode → Text → Text → Result ColumnSpec
  column_spec type_code name label = do
    guard (not (is_compound type_code)) assertion
    guard (not (is_null type_code)) assertion
    guard (is_array type_code) assertion
    ok (record { type_code = type_code; name = name; label = label })

  -- The loop of `from_value` over the columns, from index `idx`; the labels are those from `idx` on.
  unfoldable pub from_members : ℕ → List Text → List (Member Elem) → Result (List ColumnSpec)
  unfolding column_spec
  from_members idx ls [] = ok []
  from_members idx [] (m ∷ ms) = guard (is_expected idx m.name) runtime_error >> err bad_access
  from_members idx (l ∷ ls) (m ∷ ms) = do
    guard (is_expected idx m.name) runtime_error
    spec ← column_spec m.type_code m.name l
    specs ← from_members (suc idx) ls ms
    ok (spec ∷ specs)

  unfoldable pub from_value : Value → Result (List ColumnSpec)
  unfolding from_members
  from_value value = do
    ls ← or_fail (labels value) runtime_error
    ms ← or_fail (columns value) runtime_error
    guard (length ls == length ms) runtime_error
    from_members 0 ls ms

  -- `TimeTable(value)`
  unfoldable pub time_table_of_value : Value → Result TimeTable
  unfolding from_value split_columns
  time_table_of_value value = from_value value >>= split_columns

  -- The loop of `is_valid` over the columns: the labels and specifications are those from the index
  -- on, and `lengths` is the set of the column lengths so far.
  unfoldable pub check_columns :
      List Text → List ColumnSpec → List (Member Elem) → List ℕ → Result Bool
  check_columns ls cs [] lengths = ok (not (ltb 1 (length lengths)))
  check_columns [] cs (m ∷ ms) lengths = err bad_access
  check_columns (l ∷ ls) [] (m ∷ ms) lengths = err bad_access
  check_columns (l ∷ ls) (c ∷ cs) (m ∷ ms) lengths =
      let rest = check_columns ls cs ms (insert_length (length m.array.elems) lengths) in
      if not (text_eq l c.label)
      then ok false
      else if not (text_eq m.name c.name)
      then ok false
      else if not (type_eq m.type_code c.type_code)
      then ok false
      else rest

  -- What `is_valid` does once it has the labels and the columns of the value.
  abbrev pub check_fields :
      TimeTable → Option (List Text) → Option (List (Member Elem)) → Result Bool
  check_fields t none ms = ok false
  check_fields t (some ls) none = ok false
  check_fields t (some ls) (some ms) =
      if not (length ls == length t.columns)
      then ok false
      else if not (length ms == length t.columns)
      then ok false
      else check_columns ls t.columns ms []

  -- `TimeTable::is_valid`
  unfoldable pub is_valid : TimeTable → Value → Result Bool
  is_valid t value =
      if not (valid value) then ok false else check_fields t (labels value) (columns value)

  -- `NTTable::create` and `TimeTable::create`
  unfoldable pub create_table : TimeTable → Value
  create_table t = p.set_labels (p.create t.nttable.members) t.nttable.labels

  -- `TimeTable::wrap`
  unfoldable pub wrap : TimeTable → Value → Bool → Result Value
  wrap t value validate =
      if validate
      then is_valid t value >>= (λ b. if b then ok value else err runtime_error)
      else ok value

  -- `value_[COLUMNS_FIELD][col_name]`
  unfoldable pub find_member : Text → List (Member Elem) → Option (Member Elem)
  find_member n [] = none
  find_member n (m ∷ ms) = if text_eq n m.name then some m else find_member n ms

  unfoldable pub get_column : Value → Text → Option (Member Elem)
  get_column v col_name = elim (columns v) [ none ↦ none | some ms ↦ find_member col_name ms ]

  -- `get_column_as` at an unsigned type, and at `void`; an empty array if there is no such column.
  unfoldable pub get_column_as_uint : ScalarType → Value → Text → List ℕ
  get_column_as_uint s v col_name = elim (get_column v col_name) [
    | none ↦ []
    | some m ↦ map (as_uint s) m.array.elems
  ]

  unfoldable pub get_column_as_void : Value → Text → Array Elem
  get_column_as_void v col_name = elim (get_column v col_name) [
    | none ↦ record { original_type = no_scalar; elems = [] }
    | some m ↦ m.array
  ]
