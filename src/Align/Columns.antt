-- ===== src/Align/Columns.antt =====
-- mergerApp/src/taligntable.h and taligntable.cpp: the map of buffers of `TimeAlignedTable`, and the columns
-- that the merged table has for them.
use bsas_sc.Common.{
  ℕ, zero, suc, ◌+◌, ◌-◌, ◌/◌, ◌%◌, ◌^◌, Bool, true, false, not, ◌&&◌, ◌||◌, ltb, leb, ◌==◌,
  if◌then◌else◌, Option, none, some, List, [], ◌∷◌, ◌++◌, length, replicate, Text, codes, Result,
  ok, ◌>>=◌,
}
use bsas_sc.Stamp.{EpicsTime}
use bsas_sc.Stamp.Span.{TimeSpan, TimeBounds, bounds_of}
use bsas_sc.Pvxs.{ScalarType, array}
use bsas_sc.Table.{ColumnSpec, TimeTable, time_table_of_columns}
use bsas_sc.Buffer.{TableBuffer, empty_buffer, initialized, buffer_data_columns, time_span}

-- The digits of a number in base ten; the fuel bounds their number.
unfoldable pub decimal : ℕ → ℕ → Text
decimal zero n = []
decimal (suc fuel) n =
    let front = decimal fuel (n / 10) in
    if ltb n 10 then (48 + n) ∷ [] else front ++ (48 + n % 10) ∷ []

-- `ceil(log2(total) / log2(16))`: the least `w` with `total ≤ 16 ^ w`.
unfoldable pub hex_width : ℕ → ℕ → ℕ → ℕ
hex_width zero w total = w
hex_width (suc fuel) w total =
    let more = hex_width fuel (w + 1) total in if leb total (16 ^ w) then w else more

-- `%0*lu`: the number in base ten, with zeros in front up to the width.
abbrev pub pad_zeros : ℕ → Text → Text
pad_zeros width digits = replicate (width - length digits) 48 ++ digits

unfoldable pub col_prefix : ℕ → ℕ → Text
unfolding decimal hex_width
col_prefix idx total = codes "tbl" ++ pad_zeros (hex_width total 0 total) (decimal (suc idx) idx)

-- `valid`, the first column of each input table.
abbrev pub valid_spec : ColumnSpec
valid_spec = record {
  type_code = array ScalarType.bool;
  name = codes "valid";
  label = codes "valid";
}

-- `a < b` on strings, the order of the keys of a map.
unfoldable pub text_lt : Text → Text → Bool
text_lt [] [] = false
text_lt [] (b ∷ bs) = true
text_lt (a ∷ as') [] = false
text_lt (a ∷ as') (b ∷ bs) = ltb a b || a == b && text_lt as' bs

-- `class TimeAlignedTable`: the map `buffers_` in the order of its keys.
pub record TimeAligned (V : Type 0) : Type 0 where
  pub label_sep : Text
  pub col_sep : Text
  pub buffers : List (Text × TableBuffer V)
  pub type_ : Option TimeTable

module _ {V : Type 0} where
  -- `prefixed_colspec`
  unfoldable pub prefixed_colspec : TimeAligned V → ℕ → ℕ → Text → ColumnSpec → ColumnSpec
  prefixed_colspec t idx total pvname spec = record {
    type_code = spec.type_code;
    name = col_prefix idx total ++ (t.col_sep ++ spec.name);
    label = pvname ++ (t.label_sep ++ spec.label);
  }

  -- `buffers_[pv] = {}`
  unfoldable pub set_buffer : Text → List (Text × TableBuffer V) → List (Text × TableBuffer V)
  set_buffer pv [] = (pv, empty_buffer) ∷ []
  set_buffer pv ((k, b) ∷ m) =
      if text_lt pv k
      then (pv, empty_buffer) ∷ (k, b) ∷ m
      else if text_lt k pv
      then (k, b) ∷ set_buffer pv m
      else (pv, empty_buffer) ∷ m

  unfoldable pub set_buffers : List Text → List (Text × TableBuffer V) → List (Text × TableBuffer V)
  set_buffers [] m = m
  set_buffers (pv ∷ pvs) m = set_buffers pvs (set_buffer pv m)

  -- The constructor.
  unfoldable pub time_aligned : List Text → Text → Text → TimeAligned V
  time_aligned pvlist label_sep col_sep = record {
    label_sep = label_sep;
    col_sep = col_sep;
    buffers = set_buffers pvlist [];
    type_ = none;
  }

  -- Whether every buffer is initialized.
  unfoldable pub all_initialized : List (Text × TableBuffer V) → Bool
  all_initialized [] = true
  all_initialized ((k, b) ∷ m) = initialized b && all_initialized m

  -- The columns of one buffer, and of the buffers from `idx` on.
  unfoldable pub prefixed_columns : TimeAligned V → ℕ → ℕ → Text → List ColumnSpec → List ColumnSpec
  prefixed_columns t idx total pvname [] = []
  prefixed_columns t idx total pvname (c ∷ cs) =
      prefixed_colspec t idx total pvname c ∷ prefixed_columns t idx total pvname cs

  unfoldable pub merged_columns :
      TimeAligned V → ℕ → ℕ → List (Text × TableBuffer V) → List ColumnSpec
  merged_columns t idx total [] = []
  merged_columns t idx total ((pvname, b) ∷ m) =
      prefixed_columns t idx total pvname (valid_spec ∷ buffer_data_columns b)
      ++ merged_columns t (suc idx) total m

  -- `initialize`
  unfoldable pub initialize : TimeAligned V → Result (TimeAligned V)
  initialize t = elim t.type_ [
    | some type ↦ ok t
    | none ↦
        if not (all_initialized t.buffers)
        then ok t
        else time_table_of_columns (merged_columns t 0 (length t.buffers) t.buffers)
          >>= (λ type. ok (record t { type_ = some type }))
  ]

  unfoldable pub is_initialized : TimeAligned V → Bool
  is_initialized t = elim t.type_ [ none ↦ false | some type ↦ true ]

  -- `buffers_` without the buffers that are not initialized.
  unfoldable pub keep_initialized : List (Text × TableBuffer V) → List (Text × TableBuffer V)
  keep_initialized [] = []
  keep_initialized ((k, b) ∷ m) =
      if initialized b then (k, b) ∷ keep_initialized m else keep_initialized m

  unfoldable pub force_initialize : TimeAligned V → Result (TimeAligned V × ℕ)
  force_initialize t = initialize (record t { buffers = keep_initialized t.buffers }) >>= λ u.
      ok (u, length u.buffers)

  unfoldable pub time_spans : List (Text × TableBuffer V) → List TimeSpan
  time_spans [] = []
  time_spans ((k, b) ∷ m) = time_span b ∷ time_spans m

  unfoldable pub get_timebounds : EpicsTime → TimeAligned V → TimeBounds
  get_timebounds e t = bounds_of e (time_spans t.buffers)
