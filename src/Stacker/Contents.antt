-- ===== src/Stacker/Contents.antt =====
-- mergerApp/src/stacker.h: what a posted table holds.
use bsas_sc.Common.{
  Bool, true, false, ◌≡◌, refl, ◌∙◌, ap, sym, subst, if◌then◌else◌, some, List, [], ◌∷◌, ◌++◌, map,
  Text, text_eq, ok, from_ok, arith,
}
use bsas_sc.Pvxs.{Pvxs, ScalarType, TypeCode, array, of_scalar, Member, put_member, IsDistinct}
use bsas_sc.Table.{
  TimeTable, nt_table, create_table, from_data_columns, seconds_past_epoch_col, nanoseconds_col,
  pulse_id_col,
}
use bsas_sc.Table.Columns.{full_table, time_table_of_columns-full}
use bsas_sc.Stacker.{
  EpicsDiff, Config, Sample, fill_table, from_columns_config, time_table_scalar, set_if, value_col,
  utag_col, alarm_sev_col, alarm_cond_col, alarm_msg_col,
}
use bsas_sc.Stacker.Refine.{column_if, table_of}

module _ (p : Pvxs) where
  open p use {Elem, Value, columns, uint_elem}

  abbrev member_of : Text → ScalarType → List Elem → Member Elem
  member_of name s xs = record {
    name = name;
    type_code = array s;
    array = record { original_type = of_scalar s; elems = xs };
  }

  abbrev created_member : TypeCode × Text → Member Elem
  created_member m = record {
    name = m.1;
    type_code = m.0;
    array = record { original_type = p.array_type m.0; elems = [] };
  }

  -- The columns of the table of a batch of samples: the times, no pulse ids, the values and what else is
  -- configured.
  abbrev pub sample_columns : Config → List (Sample Elem) → List (Member Elem)
  sample_columns config xs =
      member_of seconds_past_epoch_col ScalarType.uint32
        (map (uint_elem ScalarType.uint32) (map (λ x. x.timestamp.sec_past_epoch) xs))
      ∷ member_of nanoseconds_col ScalarType.uint32
          (map (uint_elem ScalarType.uint32) (map (λ x. x.timestamp.nsec) xs))
      ∷ created_member (array ScalarType.uint64, pulse_id_col)
      ∷ member_of value_col ScalarType.float64 (map (λ x. x.value) xs)
      ∷ (column_if config.utag (member_of utag_col ScalarType.uint64 (map (λ x. x.utag) xs) ∷ [])
          ++ (column_if config.alarm_sev
                (member_of alarm_sev_col ScalarType.uint16 (map (λ x. x.severity) xs) ∷ [])
              ++ (column_if config.alarm_cond
                    (member_of alarm_cond_col ScalarType.uint16 (map (λ x. x.condition) xs) ∷ [])
                  ++ column_if config.alarm_message
                      (member_of alarm_msg_col ScalarType.string (map (λ x. x.message) xs) ∷ []))))

  abbrev created_columns : Config → List (Member Elem)
  created_columns config =
      map created_member (nt_table (from_data_columns (from_columns_config config))).members

  names-IsDistinct :
      (config : Config)
      → IsDistinct
          (map (λ m. m.1) (nt_table (from_data_columns (from_columns_config config))).members)
  unfolding nt_table from_data_columns from_columns_config text_eq
  names-IsDistinct config =
      by_flags config.utag config.alarm_sev config.alarm_cond config.alarm_message
    where
      by_flags :
          (u s c m : Bool)
          → let cs =
              from_columns_config
                (record { utag = u; alarm_sev = s; alarm_cond = c; alarm_message = m }) in
            IsDistinct (map (λ m. m.1) (nt_table (from_data_columns cs)).members)
      by_flags u s c m = ground arith

  created_scalar :
      (config : Config) (type : TimeTable)
      → time_table_scalar config ≡ ok type
      → columns (create_table p type) ≡ some (created_columns config)
  unfolding time_table_scalar create_table
  created_scalar config type e =
      let full = full_table (from_columns_config config) in
      let same : full ≡ type =
        ap (from_ok type) (sym (time_table_of_columns-full (from_columns_config config)) ∙ e) in
      subst (λ t. columns (create_table p t) ≡ some (created_columns config)) same
        (p.columns-set_labels _ _ ∙ p.columns-create full.nttable.members (names-IsDistinct config))

  -- `SET_IF` on the columns.
  abbrev put_if : Bool → Text → ScalarType → List Elem → List (Member Elem) → List (Member Elem)
  put_if test name s xs ms =
      if test
      then map (put_member name (record { original_type = of_scalar s; elems = xs })) ms
      else ms

  module _ (k : EpicsDiff) where
    columns-set_if :
        (test : Bool) (name : Text) (s : ScalarType) (xs : List Elem) (v : Value)
        (ms : List (Member Elem))
        → columns v ≡ some ms
        → columns (set_if p k test name s xs v) ≡ some (put_if test name s xs ms)
    columns-set_if true name s xs v ms h = p.columns-set_column v name _ ms h
    columns-set_if false name s xs v ms h = h

    -- All columns that `publish` sets, on those that the table was created with.
    filled : Config → List (Sample Elem) → List (Member Elem)
    filled config xs =
        put_if config.alarm_message alarm_msg_col ScalarType.string
          (column_if config.alarm_message (map (λ x. x.message) xs))
          (put_if config.alarm_cond alarm_cond_col ScalarType.uint16
            (column_if config.alarm_cond (map (λ x. x.condition) xs))
            (put_if config.alarm_sev alarm_sev_col ScalarType.uint16
              (column_if config.alarm_sev (map (λ x. x.severity) xs))
              (put_if config.utag utag_col ScalarType.uint64
                (column_if config.utag (map (λ x. x.utag) xs))
                (put_if true value_col ScalarType.float64 (map (λ x. x.value) xs) (
                  put_if true nanoseconds_col ScalarType.uint32
                    (map (uint_elem ScalarType.uint32) (map (λ x. x.timestamp.nsec) xs))
                    (put_if true seconds_past_epoch_col ScalarType.uint32
                      (map (uint_elem ScalarType.uint32) (map (λ x. x.timestamp.sec_past_epoch) xs))
                      (created_columns config)))))))

    -- A table filled by `publish` holds exactly the samples.
    filled-sample_columns :
        (config : Config) (xs : List (Sample Elem)) → filled config xs ≡ sample_columns config xs
    unfolding filled nt_table from_data_columns from_columns_config text_eq
    filled-sample_columns config xs =
        by_flags config.utag config.alarm_sev config.alarm_cond config.alarm_message
      where
        by_flags :
            (u s c m : Bool)
            → let flags : Config = record {
              utag = u;
              alarm_sev = s;
              alarm_cond = c;
              alarm_message = m;
            } in
              filled flags xs ≡ sample_columns flags xs
        by_flags true true true true = refl
        by_flags true true true false = refl
        by_flags true true false true = refl
        by_flags true true false false = refl
        by_flags true false true true = refl
        by_flags true false true false = refl
        by_flags true false false true = refl
        by_flags true false false false = refl
        by_flags false true true true = refl
        by_flags false true true false = refl
        by_flags false true false true = refl
        by_flags false true false false = refl
        by_flags false false true true = refl
        by_flags false false true false = refl
        by_flags false false false true = refl
        by_flags false false false false = refl

    -- A table filled by `publish` holds exactly the samples.
    pub columns-table_of :
        (config : Config) (period : k.Double) (type : TimeTable) (xs : List (Sample Elem))
        → time_table_scalar config ≡ ok type
        → columns (table_of p k config period type xs) ≡ some (sample_columns config xs)
    unfolding fill_table filled
    columns-table_of config period type xs e =
        columns-set_if config.alarm_message alarm_msg_col ScalarType.string _ _ _ (
          columns-set_if config.alarm_cond alarm_cond_col ScalarType.uint16 _ _ _ (
            columns-set_if config.alarm_sev alarm_sev_col ScalarType.uint16 _ _ _ (
              columns-set_if config.utag utag_col ScalarType.uint64 _ _ _ (
                columns-set_if true value_col ScalarType.float64 _ _ _ (
                  columns-set_if true nanoseconds_col ScalarType.uint32 _ _ _ (
                    columns-set_if true seconds_past_epoch_col ScalarType.uint32 _ _ _
                      (created_scalar config type e)))))))
        ∙ ap some (filled-sample_columns config xs)
