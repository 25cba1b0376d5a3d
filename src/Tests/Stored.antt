-- ===== src/Tests/Stored.antt =====
-- The theorem on merged tables in files, for two tables with one column each, and two values.
use bsas_sc.Common.{
  ℕ, Bool, true, false, ◌||◌, ◌==◌, ◌≡◌, ◌≢◌, refl, none, some, List, [], ◌∷◌, All, Text, codes,
  text_eq, ok, arith,
}
use bsas_sc.Pvxs.{ScalarType}
use bsas_sc.Pvxs.Concrete.{simple, code_eq, Table}
use bsas_sc.Table.Read.{time_table_of_value-is_valid}
use bsas_sc.Table.{
  time_table_of_value, ColumnSpec, TimeTable, nt_table, is_valid, check_columns, find_member,
  get_column, get_column_as_uint, seconds_past_epoch, nanoseconds, pulse_id, seconds_past_epoch_col,
  nanoseconds_col, pulse_id_col, from_data_columns, split_columns, time_table_of_columns,
}
use bsas_sc.Buffer.{TableBuffer, empty_buffer, buffer_data_columns}
use bsas_sc.Align.{
  TimeAligned, valid_spec, col_prefix, prefixed_colspec, prefixed_columns, merged_columns,
}
use bsas_sc.Writer.Files.{ObjectPath}
use bsas_sc.Writer.{Writer, new_writer}
use bsas_sc.Writer.Memory.{Contents, nothing, group, in_memory}
use bsas_sc.Writer.Parts.{Lacks}
use bsas_sc.Writer.Append.{write_all}
use bsas_sc.Writer.Structure.{in_root, entry_path}
use bsas_sc.Writer.Structure.Opened.{IsNewFile}
use bsas_sc.Writer.Stored.{IsAcceptable, column_of}
use bsas_sc.Writer.Structure.{IsWritable}
use bsas_sc.Writer.Merged.{IsPlain, IsPlainTable, merged_entries, time_specs}
use bsas_sc.Writer.Tables.{write_all-merged}
use bsas_sc.Tests.{column, type4, value_col}

-- A file with nothing but its root group.
abbrev at_root : ObjectPath → Contents
at_root [] x = group
at_root (n ∷ ns) x = nothing

abbrev new_file : Contents
new_file x = at_root x x

new_file-IsNewFile : IsNewFile simple in_memory new_file
new_file-IsNewFile = record { root = refl; free = free }
  where
    free : (x : ObjectPath) → x ≢ [] → in_memory.objects.is_free new_file x ≡ true
    free [] h = absurd (h refl)
    free (n ∷ ns) h = refl

-- Two PVs with the same type.
abbrev typed : TableBuffer Table
typed = record empty_buffer { type_ = some type4 }

abbrev two_tables : TimeAligned Table
two_tables = record {
  label_sep = 46 ∷ [];
  col_sep = 95 ∷ [];
  buffers = (codes "A", typed) ∷ (codes "B", typed) ∷ [];
  type_ = none;
}

abbrev merged_cs : List ColumnSpec
merged_cs =
    record { type_code = valid_spec.type_code; name = codes "tbl0_valid"; label = codes "A.valid" }
    ∷ record { type_code = value_col.type_code; name = codes "tbl0_value"; label = codes "A.value" }
    ∷ record {
      type_code = valid_spec.type_code;
      name = codes "tbl1_valid";
      label = codes "B.valid";
    }
    ∷ record { type_code = value_col.type_code; name = codes "tbl1_value"; label = codes "B.value" }
    ∷ []

abbrev merged_type : TimeTable
merged_type = record {
  columns = seconds_past_epoch ∷ nanoseconds ∷ pulse_id ∷ merged_cs;
  time_columns = seconds_past_epoch ∷ nanoseconds ∷ pulse_id ∷ [];
  data_columns = merged_cs;
  nttable = nt_table (seconds_past_epoch ∷ nanoseconds ∷ pulse_id ∷ merged_cs);
}

merged_cs_lem : merged_columns two_tables 0 2 two_tables.buffers ≡ merged_cs
unfolding merged_columns prefixed_columns prefixed_colspec col_prefix buffer_data_columns
    empty_buffer
merged_cs_lem = refl

merged_type_lem :
    time_table_of_columns (merged_columns two_tables 0 2 two_tables.buffers) ≡ ok merged_type
unfolding time_table_of_columns from_data_columns split_columns
merged_type_lem = rw merged_cs_lem refl

-- A value with one row.
abbrev row : ℕ → Table
row n = record {
  usable = true;
  labels = some (
      seconds_past_epoch_col
      ∷ nanoseconds_col
      ∷ pulse_id_col
      ∷ codes "A.valid"
      ∷ codes "A.value"
      ∷ codes "B.valid"
      ∷ codes "B.value"
      ∷ []);
  columns = some (
      column seconds_past_epoch_col ScalarType.uint32 (n ∷ [])
      ∷ column nanoseconds_col ScalarType.uint32 (0 ∷ [])
      ∷ column pulse_id_col ScalarType.uint64 (70 ∷ [])
      ∷ column (codes "tbl0_valid") ScalarType.bool (1 ∷ [])
      ∷ column (codes "tbl0_value") ScalarType.float64 (10 ∷ [])
      ∷ column (codes "tbl1_valid") ScalarType.bool (0 ∷ [])
      ∷ column (codes "tbl1_value") ScalarType.float64 (20 ∷ [])
      ∷ []);
}

row-IsAcceptable : (n : ℕ) → IsAcceptable simple in_memory merged_type (row n)
unfolding is_valid check_columns text_eq code_eq get_column_as_uint get_column find_member
row-IsAcceptable n = (refl, omega arith)

-- The separators do not occur.
abbrev occurs : ℕ → Text → Bool
occurs c [] = false
occurs c (x ∷ xs) = x == c || occurs c xs

occurs_not : (c : ℕ) (xs : Text) → occurs c xs ≡ false → Lacks c xs
occurs_not c [] h = tt
occurs_not c (x ∷ xs) h = ((λ e. ground (arith, e)), occurs_not c xs (ground arith))

typed-IsPlainTable : IsPlainTable 46 95 typed
unfolding buffer_data_columns text_eq empty_buffer
typed-IsPlainTable = record {
  plain =
      (plain valid_spec (_, refl, refl) refl refl, (plain value_col (_, refl, refl) refl refl, tt));
  distinct = ((refl, tt), (tt, tt));
}
  where
    plain :
        (c : ColumnSpec)
        → IsWritable c
        → occurs 95 c.name ≡ false
        → occurs 46 c.label ≡ false
        → IsPlain 46 95 c
    plain c a n l = record {
      plain_name = occurs_not 95 c.name n;
      plain_label = occurs_not 46 c.label l;
      is_array = a;
    }

write_all-merged_example :
    (w : Writer simple in_memory) × (write_all simple in_memory
        (new_writer simple in_memory
          (codes "PV")
          (codes "out.h5")
          new_file
          (codes "root")
          (46 ∷ [])
          (95 ∷ []))
        (row 5 ∷ row 6 ∷ [])
      ≡ ok w)
    × All
        (λ c.
          in_memory.objects.contents w.file (in_root (codes "root") c.name)
          ≡ column_of simple in_memory (row 5 ∷ row 6 ∷ []) c)
        time_specs
    × All
        (λ e.
          in_memory.objects.contents w.file (entry_path (codes "root") e)
          ≡ column_of simple in_memory (row 5 ∷ row 6 ∷ []) e.spec)
        (merged_entries two_tables 2 0 two_tables.buffers)
unfolding text_eq
write_all-merged_example =
    write_all-merged simple in_memory two_tables 46 95 merged_type (codes "PV") (codes "out.h5")
      (codes "root") new_file (row 5) (row 6 ∷ []) refl refl ((refl, tt), (tt, tt))
      (typed-IsPlainTable, (typed-IsPlainTable, tt)) merged_type_lem new_file-IsNewFile
      (row-IsAcceptable 5, (row-IsAcceptable 6, tt))

time_table_of_value-is_valid_example : time_table_of_value simple (row 5) ≡ ok merged_type
unfolding time_table_of_columns from_data_columns split_columns
time_table_of_value-is_valid_example =
    time_table_of_value-is_valid simple merged_cs merged_type (row 5) refl
      ((_, refl), ((_, refl), ((_, refl), ((_, refl), tt)))) (row-IsAcceptable 5).0
