-- ===== src/Tests/Writers.antt =====
-- The theorems on the writer at concrete inputs.
use bsas_sc.Common.{
  true, false, ◌≡◌, ◌≢◌, refl, some, List, [], ◌∷◌, map, All, Text, codes, text_eq, ok, err,
  runtime_error, arith,
}
use bsas_sc.Pvxs.Concrete.{simple, code_eq}
use bsas_sc.Table.{
  ColumnSpec, is_valid, check_columns, find_member, get_column, get_column_as_uint,
  seconds_past_epoch_col, nanoseconds_col, pulse_id_col,
}
use bsas_sc.Writer.Files.{ObjectPath}
use bsas_sc.Writer.Memory.{data_set, Contents, in_memory, path_eq, path_eq_refl}
use bsas_sc.Writer.{Writer, column_parts, label_parts, write, find_dataset}
use bsas_sc.Writer.Parts.{column_parts_lem}
use bsas_sc.Writer.Append.{Appended, write-appends}
use bsas_sc.Tests.{two_rows, type4, value_col}

-- A file of empty data sets.
abbrev pub empty_sets : Contents
empty_sets x = data_set []

-- A writer whose type is that of the table with two rows.
abbrev pub path_of : Text → ObjectPath
path_of n = codes "data" ∷ codes "root" ∷ n ∷ []

abbrev pub names4 : List (Text × ObjectPath)
names4 =
    (seconds_past_epoch_col, path_of seconds_past_epoch_col)
    ∷ (nanoseconds_col, path_of nanoseconds_col)
    ∷ (pulse_id_col, path_of pulse_id_col)
    ∷ (value_col.name, path_of value_col.name)
    ∷ []

abbrev pub writer4 : Writer simple in_memory
writer4 = record {
  input_pv = codes "PV";
  type_ = some type4;
  file_path = codes "out.h5";
  file = empty_sets;
  root_group = codes "root";
  label_sep = codes ".";
  col_sep = codes "_";
  datasets = names4;
}

abbrev places4 : List (ColumnSpec × ObjectPath)
places4 = map (λ c. (c, path_of c.name)) type4.columns

ne_of_path_eq : {x y : ObjectPath} → path_eq x y ≡ false → path_eq y x ≡ false → (x ≢ y) × (y ≢ x)
ne_of_path_eq {x = x} {y = y} h k =
    ((λ e. cc (path_eq_refl x, e, h)), (λ e. cc (path_eq_refl y, e, k)))

two_rows_accepted : is_valid simple type4 two_rows ≡ ok true
unfolding is_valid check_columns text_eq code_eq
two_rows_accepted = refl

write-appends_example :
    (w' : Writer simple in_memory) × (write simple in_memory writer4 two_rows ≡ ok w')
    × (w'.type_ ≡ some type4)
    × (w'.datasets ≡ names4)
    × All (Appended simple in_memory two_rows empty_sets w'.file) places4
unfolding find_dataset text_eq path_eq get_column_as_uint get_column find_member
write-appends_example =
    write-appends simple in_memory writer4 type4 two_rows places4 refl two_rows_accepted
      (omega arith) refl
      (
        ((_, refl, refl), refl),
        (((_, refl, refl), refl), (((_, refl, refl), refl), (((_, refl, refl), refl), tt))),
      )
      (
        (ne_of_path_eq refl refl, (ne_of_path_eq refl refl, (ne_of_path_eq refl refl, tt))),
        (
          (ne_of_path_eq refl refl, (ne_of_path_eq refl refl, tt)),
          ((ne_of_path_eq refl refl, tt), (tt, tt)),
        ),
      )

column_parts_lem_example :
    (column_parts (1 ∷ 95 ∷ 2 ∷ 95 ∷ 3 ∷ []) (95 ∷ []) ≡ ok (1 ∷ 95 ∷ 2 ∷ [], 3 ∷ []))
    × (label_parts (1 ∷ 95 ∷ 2 ∷ 95 ∷ 3 ∷ []) (95 ∷ []) ≡ ok (1 ∷ 95 ∷ 2 ∷ []))
    × (column_parts (4 ∷ []) (95 ∷ []) ≡ err runtime_error)
    × (label_parts (4 ∷ []) (95 ∷ []) ≡ err runtime_error)
column_parts_lem_example =
    column_parts_lem 95 (1 ∷ 95 ∷ 2 ∷ []) (3 ∷ []) (4 ∷ []) ((λ e. omega arith), tt)
      ((λ e. omega arith), tt)
