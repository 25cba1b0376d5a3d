-- ===== src/Table/Stat.antt =====
-- commonApp/tab/timetable.h and timetable.cpp: `TimeTableStat`, the type of the tables of statistics.
use bsas_sc.Common.{◌≡◌, refl, true, List, [], ◌∷◌, Text, codes, text_eq, Result, ok}
use bsas_sc.Pvxs.{Pvxs, ScalarType}
use bsas_sc.Table.{
  ColumnSpec, TimeTable, labelled, time_table_of_columns, from_data_columns, create_table, is_valid,
}
use bsas_sc.Table.Create.{create_table-is_valid}

abbrev pub val_col : Text
val_col = codes "VAL"

abbrev pub num_samp_col : Text
num_samp_col = codes "CNT"

abbrev pub min_col : Text
min_col = codes "MIN"

abbrev pub max_col : Text
max_col = codes "MAX"

abbrev pub mean_col : Text
mean_col = codes "AVG"

abbrev pub rms_col : Text
rms_col = codes "RMS"

abbrev pub stat_columns : List ColumnSpec
stat_columns =
    labelled ScalarType.float64 val_col
    ∷ labelled ScalarType.uint32 num_samp_col
    ∷ labelled ScalarType.float64 min_col
    ∷ labelled ScalarType.float64 max_col
    ∷ labelled ScalarType.float64 mean_col
    ∷ labelled ScalarType.float64 rms_col
    ∷ []

unfoldable pub time_table_stat : Result TimeTable
time_table_stat = time_table_of_columns stat_columns

-- The constructor returns a type with the three time columns and the six statistics, and the empty table
-- of this type is one that `is_valid` accepts.
time_table_stat_lem :
    (p : Pvxs)
    → (t : TimeTable) × (time_table_stat ≡ ok t)
      × (t.columns ≡ from_data_columns stat_columns)
      × (t.data_columns ≡ stat_columns)
      × (is_valid p t (create_table p t) ≡ ok true)
unfolding time_table_stat from_data_columns text_eq
time_table_stat_lem p = create_table-is_valid p stat_columns (
  (refl, (refl, (refl, (refl, (refl, (refl, (refl, (refl, tt)))))))),
  (
    (refl, (refl, (refl, (refl, (refl, (refl, (refl, tt))))))),
    (
      (refl, (refl, (refl, (refl, (refl, (refl, tt)))))),
      (
        (refl, (refl, (refl, (refl, (refl, tt))))),
        (
          (refl, (refl, (refl, (refl, tt)))),
          ((refl, (refl, (refl, tt))), ((refl, (refl, tt)), ((refl, tt), (tt, tt)))),
        ),
      ),
    ),
  ),
)
