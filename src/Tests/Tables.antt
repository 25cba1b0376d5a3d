-- ===== src/Tests/Tables.antt =====
-- The theorems on stamps, spans and table types at concrete inputs.
use bsas_sc.Common.{
  true, false, ◌≡◌, ◌≢◌, refl, ◌↔◌, List, [], ◌∷◌, map, some, ok, err, bad_access, All, text_eq,
}
use bsas_sc.Stamp.{stamp_lt}
use bsas_sc.Stamp.Order.{Before, operators_order}
use bsas_sc.Stamp.Span.{TimeSpan, TimeBounds, bounds_of, reset_bounds}
use bsas_sc.Stamp.Span.Laws.{valid_spans, Encloses, Within, bounds_of-Encloses, bounds_of-narrowest}
use bsas_sc.Pvxs.{ScalarType}
use bsas_sc.Pvxs.Concrete.{simple, Table, code_eq}
use bsas_sc.Table.{
  TimeTable, is_valid, from_data_columns, time_table_of_value, time_table_of_columns, create_table,
  seconds_past_epoch, seconds_past_epoch_col, nanoseconds_col, pulse_id_col, from_value,
  from_members, column_spec, split_columns, nt_table, check_columns,
}
use bsas_sc.Table.Valid.{Conforms, is_valid_iff}
use bsas_sc.Table.Create.{time_table_of_value_lem, create_table-is_valid}
use bsas_sc.Table.Read.{time_table_of_value-few}
use bsas_sc.Tests.{epics, stamp_at, two_rows, ragged, type4, column, value_col}

is_valid-two_rows : is_valid simple type4 two_rows ≡ ok true
unfolding is_valid check_columns text_eq code_eq
is_valid-two_rows = refl

is_valid-ragged : is_valid simple type4 ragged ≡ ok false
unfolding is_valid check_columns text_eq code_eq
is_valid-ragged = refl

type_of_two_rows : time_table_of_value simple two_rows ≡ ok type4
unfolding time_table_of_value from_value from_members column_spec split_columns nt_table text_eq
type_of_two_rows = refl

operators_order_example :
    ((stamp_lt epics (stamp_at 5 1) (stamp_at 5 2) ≡ true) ↔ Before (stamp_at 5 1) (stamp_at 5 2))
operators_order_example = (operators_order epics (stamp_at 5 1) (stamp_at 5 2)).0

abbrev spans : List TimeSpan
spans =
    record { valid = true; start = stamp_at 5 1; end = stamp_at 9 1 }
    ∷ record { valid = false; start = stamp_at 1 1; end = stamp_at 2 1 }
    ∷ []

bounds_of-Encloses_example :
    (((bounds_of epics spans).valid ≡ true) ↔ (valid_spans epics spans ≢ []))
    × All (Encloses epics (bounds_of epics spans)) (valid_spans epics spans)
bounds_of-Encloses_example = bounds_of-Encloses epics spans

abbrev wide : TimeBounds
wide = record {
  valid = true;
  earliest_start = stamp_at 3 0;
  earliest_end = stamp_at 4 0;
  latest_start = stamp_at 20 0;
  latest_end = stamp_at 21 0;
}

bounds_of-narrowest_example : Within epics (bounds_of epics spans) wide
unfolding reset_bounds stamp_lt
bounds_of-narrowest_example =
    bounds_of-narrowest epics spans wide
      (record { start_after = refl; end_after = refl; start_before = refl; end_before = refl })
      (record { start_above = refl; end_above = refl; start_below = refl; end_below = refl }, tt)

is_valid_iff_example : Conforms simple type4 two_rows
is_valid_iff_example = (is_valid_iff simple type4 two_rows).0 is_valid-two_rows

time_table_of_value_lem_example :
    map (λ c. c.name) type4.time_columns ≡ map (λ c. c.name) (from_data_columns [])
unfolding from_data_columns
time_table_of_value_lem_example = (time_table_of_value_lem simple two_rows type4 type_of_two_rows).5

abbrev one_column : Table
one_column = record {
  usable = true;
  labels = some (seconds_past_epoch_col ∷ []);
  columns = some (column seconds_past_epoch_col ScalarType.uint32 [] ∷ []);
}

time_table_of_value-few_example : time_table_of_value simple one_column ≡ err bad_access
unfolding from_value from_members column_spec text_eq
time_table_of_value-few_example =
    time_table_of_value-few simple one_column (seconds_past_epoch_col ∷ [])
      (seconds_past_epoch ∷ []) (column seconds_past_epoch_col ScalarType.uint32 [] ∷ [])
      nanoseconds_col (pulse_id_col ∷ []) refl refl (refl, refl, refl, tt) ((_, refl), tt) refl

create_table-is_valid_example :
    (t : TimeTable) × (time_table_of_columns (value_col ∷ []) ≡ ok t)
    × (t.columns ≡ from_data_columns (value_col ∷ []))
    × (t.data_columns ≡ value_col ∷ [])
    × (is_valid simple t (create_table simple t) ≡ ok true)
unfolding text_eq from_data_columns
create_table-is_valid_example =
    create_table-is_valid simple (value_col ∷ [])
      ((refl, (refl, (refl, tt))), ((refl, (refl, tt)), ((refl, tt), (tt, tt))))
