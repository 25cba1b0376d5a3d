-- ===== src/Align.antt =====
-- mergerApp/src/taligntable.h and taligntable.cpp: `TimeAlignedTable`. Each method holds the lock from
-- beginning to end, so a method is one step. A method that changes the table returns the new one; what an
-- exception of `extract` leaves behind is not kept, as nothing catches it before the thread ends.
mod Columns
pub mod Row
pub mod Complete
pub mod Ahead
pub mod Extract
pub mod Merge
pub mod Initialize
pub mod Pushed
pub mod Prefix
pub mod Taken
pub mod Progress
pub mod Oldest
pub mod Going
pub mod Returns
pub mod Usable
pub use Columns.*
unfoldable pub use Columns.{
  decimal, hex_width, col_prefix, text_lt, prefixed_colspec, set_buffer, set_buffers, time_aligned,
  all_initialized, prefixed_columns, merged_columns, initialize, is_initialized, keep_initialized,
  force_initialize, time_spans, get_timebounds,
}
use bsas_sc.Common.{
  ℕ, zero, suc, ◌+◌, ◌-◌, ◌/◌, ◌%◌, ◌^◌, Bool, true, false, not, ◌&&◌, ◌||◌, ltb, leb, ◌==◌,
  if◌then◌else◌, Option, none, some, List, [], ◌∷◌, ◌++◌, map, length, set, replicate, Text, codes,
  text_eq, Result, ok, err, Error, logic_error, runtime_error, out_of_range, bad_access, ◌>>=◌,
  ◌>>◌, guard, or_fail,
}
use bsas_sc.Stamp.{EpicsTime, TimeStamp, stamp_eq, stamp_gt}
use bsas_sc.Stamp.Span.{TimeSpan, TimeBounds, bounds_of}
use bsas_sc.Pvxs.{Pvxs, ScalarType, array, ArrayType, of_scalar, no_scalar, Array}
use bsas_sc.Table.{ColumnSpec, TimeTable, time_table_of_columns, create_table}
use bsas_sc.Buffer.{
  TableBuffer, read, empty_buffer, initialized, buffer_data_columns, time_span, allocate_containers,
  consume_each_row, extract_timestamps_between,
}
use bsas_sc.Buffer

module _ (p : Pvxs) where
  open p use {Elem, Value, zero_elem, bool_elem, uint_elem, alloc_elems}

  -- `buffers_.at(name).push(value)`: the map afterwards, and the result.
  unfoldable pub push_at :
      Text
      → Value
      → List (Text × TableBuffer Value)
      → List (Text × TableBuffer Value) × Result (Unit {0})
  push_at name value [] = ([], err out_of_range)
  push_at name value ((k, b) ∷ m) =
      let rest = push_at name value m in
      let pushed = Buffer.push p b value in
      if text_eq name k then ((k, pushed.0) ∷ m, pushed.1) else ((k, b) ∷ rest.0, rest.1)

  -- The call of `initialize` behind it, which an exception skips.
  unfoldable pub after_push :
      TimeAligned Value
      → List (Text × TableBuffer Value) × Result (Unit {0})
      → TimeAligned Value × Result (Unit {0})
  after_push t (m, err x) = (record t { buffers = m }, err x)
  after_push t (m, ok pushed) = elim (initialize (record t { buffers = m })) [
    | err x ↦ (record t { buffers = m }, err x)
    | ok w ↦ (w, ok tt)
  ]

  unfoldable pub push : TimeAligned Value → Text → Value → TimeAligned Value × Result (Unit {0})
  push t name value = after_push t (push_at name value t.buffers)

  -- `create`; `none` for the value that `{}` makes.
  unfoldable pub create : TimeAligned Value → Option Value
  create t = elim t.type_ [ none ↦ none | some type ↦ some (create_table p type) ]

  -- `xs[i] = x`
  unfoldable pub write : List Elem → ℕ → Elem → Result (List Elem)
  write xs i x = if ltb i (length xs) then ok (set xs i x) else err bad_access

  -- The loops of `copy_row` and `set_empty_row`.
  unfoldable pub copy_elems :
      List (Array Elem) → ℕ → List (Array Elem) → ℕ → Result (List (Array Elem))
  copy_elems [] i srcs j = ok []
  copy_elems (d ∷ dests) i [] j = ok (d ∷ dests)
  copy_elems (d ∷ dests) i (s ∷ srcs) j = elim d.original_type [
    | no_scalar ↦ err runtime_error
    | of_scalar type ↦ do
      x ← read s.elems j
      xs ← write d.elems i x
      rest ← copy_elems dests i srcs j
      ok (record d { elems = xs } ∷ rest)
  ]

  unfoldable pub copy_row :
      List (Array Elem) → ℕ → List (Array Elem) → ℕ → Result (List (Array Elem))
  copy_row dest i src j = do guard (length dest == length src) logic_error; copy_elems dest i src j

  unfoldable pub set_empty_row : List (Array Elem) → ℕ → Result (List (Array Elem))
  set_empty_row [] i = ok []
  set_empty_row (d ∷ dests) i = elim d.original_type [
    | no_scalar ↦ err runtime_error
    | of_scalar type ↦ do
      xs ← write d.elems i (zero_elem type)
      rest ← set_empty_row dests i
      ok (record d { elems = xs } ∷ rest)
  ]

  -- What the function given to `consume_each_row` changes: `row` (`row_ts_it` points at the same row of
  -- the timestamps), `valid` and `column_values`.
  pub record Filling : Type 0 where
    pub row : ℕ
    pub valid : List Elem
    pub columns : List (Array Elem)

  -- `valid[row] = false; set_empty_row(column_values, row)`
  unfoldable pub fill_empty : Filling → Result Filling
  unfolding write
  fill_empty s = do
    v ← write s.valid s.row (bool_elem false)
    cols ← set_empty_row s.columns s.row
    ok (record s { valid = v; columns = cols })

  -- The branch for equal timestamps.
  unfoldable pub fill_copy : Filling → List (Array Elem) → ℕ → Result Filling
  unfolding write
  fill_copy s cols idx = do
    v ← write s.valid s.row (bool_elem true)
    cs ← copy_row s.columns s.row cols idx
    ok (record { row = s.row + 1; valid = v; columns = cs })

  -- The remaining rows, `rounds` of them.
  unfoldable pub fill_rest : ℕ → Filling → Result Filling
  fill_rest zero s = ok s
  fill_rest (suc rounds) s = do s' ← fill_empty s; fill_rest rounds (record s' { row = s'.row + 1 })

  module _ (e : EpicsTime) where
    -- The tests of the function that `extract` gives to `consume_each_row`, at the timestamp `row_ts`
    -- of the current row.
    unfoldable pub align_at :
        TimeStamp → Filling → TimeStamp → List (Array Elem) → ℕ → Result (Filling × Bool)
    align_at row_ts s buf_row_ts buf_cols buf_idx =
        if stamp_eq e buf_row_ts row_ts
        then fill_copy s buf_cols buf_idx >>= (λ s'. ok (s', false))
        else if stamp_gt e buf_row_ts row_ts
        then fill_empty s >>= (λ s'. ok (s', false))
        else ok (record s { row = s.row + 1 }, false)

    -- The whole function. `*row_ts_it` is read before the first test, also where the iterator is at the
    -- end of the timestamps: an access out of bounds.
    unfoldable pub align_row :
        List TimeStamp
        → TimeStamp
        → Filling
        → TimeStamp
        → List (Array Elem)
        → ℕ
        → Result (Filling × Bool)
    align_row timestamps end_ts s buf_row_ts buf_cols buf_idx = do
      row_ts ← read timestamps s.row
      if leb (length timestamps) s.row || stamp_gt e buf_row_ts end_ts
          then ok (s, true)
          else align_at row_ts s buf_row_ts buf_cols buf_idx

    -- One round of the loop of `extract` over the buffers: the buffer afterwards, and its columns.
    unfoldable pub extract_buffer :
        List TimeStamp
        → TimeStamp
        → TableBuffer Value
        → Result (TableBuffer Value × List (Array Elem))
    extract_buffer timestamps end_ts b = do
      let num_rows = length timestamps
      cols ← allocate_containers p b num_rows
      (s, b') ←
          consume_each_row p (align_row timestamps end_ts) b
            (record { row = 0; valid = alloc_elems ScalarType.bool num_rows; columns = cols })
      s' ← fill_rest (num_rows - s.row) s
      ok (b', record { original_type = of_scalar ScalarType.bool; elems = s'.valid } ∷ s'.columns)

    unfoldable pub extract_buffers :
        List TimeStamp
        → TimeStamp
        → List (Text × TableBuffer Value)
        → Result (List (Text × TableBuffer Value) × List (Array Elem))
    extract_buffers timestamps end_ts [] = ok ([], [])
    extract_buffers timestamps end_ts ((k, b) ∷ m) = do
      (b', cols) ← extract_buffer timestamps end_ts b
      (m', rest) ← extract_buffers timestamps end_ts m
      ok ((k, b') ∷ m', cols ++ rest)

    -- The sorted set of the timestamps of all buffers.
    unfoldable pub collect_timestamps :
        TimeStamp → TimeStamp → List (Text × TableBuffer Value) → List TimeStamp → List TimeStamp
    collect_timestamps start end [] timestamps = timestamps
    collect_timestamps start end ((k, b) ∷ m) timestamps =
        collect_timestamps start end m (extract_timestamps_between e p b start end timestamps).0

    -- The three timestamp columns.
    unfoldable pub time_arrays : List TimeStamp → List (Array Elem)
    time_arrays timestamps =
        record {
          original_type = of_scalar ScalarType.uint32;
          elems = map (λ t. uint_elem ScalarType.uint32 t.ts.sec_past_epoch) timestamps;
        }
        ∷ record {
          original_type = of_scalar ScalarType.uint32;
          elems = map (λ t. uint_elem ScalarType.uint32 t.ts.nsec) timestamps;
        }
        ∷ record {
          original_type = of_scalar ScalarType.uint64;
          elems = map (λ t. uint_elem ScalarType.uint64 t.utag) timestamps;
        }
        ∷ []

    -- The loop that sets the columns of the value.
    unfoldable pub set_columns : Value → List ColumnSpec → List (Array Elem) → Value
    set_columns v [] arrays = v
    set_columns v (c ∷ cs) [] = v
    set_columns v (c ∷ cs) (a ∷ arrays) = set_columns (p.set_column v c.name a) cs arrays

    unfoldable pub extract :
        TimeAligned Value → TimeStamp → TimeStamp → Result (TimeAligned Value × Value)
    extract t start_ts end_ts = do
      guard (not (stamp_gt e start_ts end_ts)) runtime_error
      let timestamps = collect_timestamps start_ts end_ts t.buffers []
      type ← or_fail t.type_ bad_access
      (m, data_arrays) ← extract_buffers timestamps end_ts t.buffers
      let output = time_arrays timestamps ++ data_arrays
      guard (length type.columns == length output) logic_error
      ok (record t { buffers = m }, set_columns (create_table p type) type.columns output)
