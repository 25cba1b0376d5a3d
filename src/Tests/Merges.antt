-- ===== src/Tests/Merges.antt =====
-- The theorems on the whole of `extract`, for two PVs that hold the same two rows.
use bsas_sc.Common.{
  ℕ, ◌≡◌, refl, sym, subst, text_eq, arith, List, [], ◌∷◌, some, codes, err, bad_access, inl,
}
use bsas_sc.Stamp.{TimeStamp, stamp_ge, stamp_gt, stamp_le, stamp_lt, stamp_eq}
use bsas_sc.Pvxs.{ScalarType, of_scalar, Array}
use bsas_sc.Pvxs.Concrete.{simple, Table}
use bsas_sc.Table.{
  ColumnSpec, TimeTable, nt_table, seconds_past_epoch, nanoseconds, pulse_id, get_column_as_uint,
  get_column_as_void, get_column, find_member,
}
use bsas_sc.Buffer.Rows.{Row}
use bsas_sc.Buffer.{extract_timestamps_between, extract_values, extract_rows, insert_stamp}
use bsas_sc.Align.{TimeAligned, valid_spec, collect_timestamps, extract}
use bsas_sc.Align.Merge.{Buffers, HasMore, SomeHasMore, extract-overruns}
use bsas_sc.Tests.{epics, stamp_at, type4, value_col}
use bsas_sc.Tests.Buffers.{held, held-IsValid}

abbrev pub two_pvs : Buffers simple epics [] (stamp_at 7 0)
two_pvs = (codes "A", held) ∷ (codes "B", held) ∷ []

abbrev pub columns7 : List ColumnSpec
columns7 =
    seconds_past_epoch ∷ nanoseconds ∷ pulse_id ∷ valid_spec ∷ value_col ∷ valid_spec ∷ value_col
    ∷ []

abbrev pub type7 : TimeTable
type7 = record {
  columns = columns7;
  time_columns = seconds_past_epoch ∷ nanoseconds ∷ pulse_id ∷ [];
  data_columns = valid_spec ∷ value_col ∷ valid_spec ∷ value_col ∷ [];
  nttable = nt_table columns7;
}

abbrev pub merged7 : TimeAligned Table
merged7 = record {
  label_sep = codes ".";
  col_sep = codes "_";
  buffers = two_pvs;
  type_ = some type7;
}

abbrev stamps7 : List TimeStamp
stamps7 = collect_timestamps simple epics (stamp_at 5 0) (stamp_at 7 0) two_pvs []

-- A range with only the first row: the second is after its end.
abbrev first_only : List TimeStamp
first_only = stamp_at 5 70 ∷ []

abbrev column_10_20 : Array ℕ
column_10_20 = record { original_type = of_scalar ScalarType.float64; elems = 10 ∷ 20 ∷ [] }

abbrev first_row : Row simple
first_row = (stamp_at 5 70, column_10_20 ∷ [], 0)

stamps6-first :
    collect_timestamps simple epics (stamp_at 5 0) (stamp_at 6 0) two_pvs [] ≡ first_only
unfolding collect_timestamps extract_timestamps_between extract_values extract_rows insert_stamp
    stamp_ge stamp_gt stamp_le stamp_lt stamp_eq get_column_as_uint get_column find_member text_eq
stamps6-first = refl

held-HasMore : HasMore simple epics first_only (stamp_at 6 0) held
unfolding get_column_as_uint get_column_as_void get_column find_member text_eq stamp_gt stamp_le
    stamp_lt stamp_eq
held-HasMore = record {
  type_ = type4;
  arrays = ((ScalarType.float64, refl), tt);
  taken = first_row ∷ [];
  next = (stamp_at 6 71, column_10_20 ∷ [], 1);
  later = [];
  valid = held-IsValid;
  typed = refl;
  held = refl;
  stamps = refl;
  in_time = (refl, tt);
  fits = ((omega arith, tt), tt);
}

extract-overruns_example :
    extract simple epics merged7 (stamp_at 5 0) (stamp_at 6 0) ≡ err bad_access
unfolding stamp_gt stamp_le stamp_lt stamp_eq
extract-overruns_example =
    extract-overruns simple epics merged7 type7 (stamp_at 5 0) (stamp_at 6 0) refl refl (
      subst (λ ts. SomeHasMore simple epics ts (stamp_at 6 0) two_pvs) (sym stamps6-first)
        (inl held-HasMore))
