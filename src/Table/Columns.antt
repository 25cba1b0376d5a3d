-- ===== src/Table/Columns.antt =====
-- The constructor of `TimeTable` from data columns never fails.
use bsas_sc.Common.{ℕ, suc, ◌+◌, ltb, ◌≡◌, refl, false, List, length, take, ok, arith}
use bsas_sc.Table.{
  ColumnSpec, TimeTable, nt_table, from_data_columns, split_columns, time_table_of_columns,
}

few : (n : ℕ) → ltb (suc (suc (suc n))) 3 ≡ false
few n = ground arith

-- The type that it makes.
abbrev pub full_table : List ColumnSpec → TimeTable
full_table cs = record {
  columns = from_data_columns cs;
  time_columns = take 3 (from_data_columns cs);
  data_columns = cs;
  nttable = nt_table (from_data_columns cs);
}

pub time_table_of_columns-full :
    (cs : List ColumnSpec) → time_table_of_columns cs ≡ ok (full_table cs)
unfolding time_table_of_columns split_columns from_data_columns
time_table_of_columns-full cs = rw (few (length cs)) refl

pub time_table_of_columns-total :
    (cs : List ColumnSpec)
    → (t : TimeTable) × (time_table_of_columns cs ≡ ok t)
      × (t.columns ≡ from_data_columns cs)
      × (t.data_columns ≡ cs)
time_table_of_columns-total cs = (full_table cs, time_table_of_columns-full cs, refl, refl)

pub length-from_data_columns :
    (cs : List ColumnSpec) → length (from_data_columns cs) ≡ 3 + length cs
unfolding from_data_columns
length-from_data_columns cs = omega arith
