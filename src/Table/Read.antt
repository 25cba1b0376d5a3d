-- ===== src/Table/Read.antt =====
-- The constructor of `TimeTable` from a value, on the values of a type that is already known.
use bsas_sc.Common.{
  ℕ, suc, true, ◌≡◌, refl, sym, ◌∙◌, subst, ==_iff, List, [], ◌∷◌, length, length-append, All, Text,
  text_eq_refl, ok, err, bad_access, some, map, ◌<◌, ◌++◌, ap, arith, text_eq,
}
use bsas_sc.Pvxs.{Pvxs, ScalarType, Member, array}
use bsas_sc.Table.{
  ColumnSpec, TimeTable, from_data_columns, time_table_of_columns, column_spec, from_members,
  from_value, time_table_of_value, is_valid, is_expected, num_time_cols, split_columns,
  seconds_past_epoch_col, nanoseconds_col, pulse_id_col,
}
use bsas_sc.Table.Valid.{Matches, Matches-length, is_valid_iff}
use bsas_sc.Table.Create.{Expected, split_columns_inv}

-- The column holds arrays.
abbrev pub IsArray : ColumnSpec → Type 0
IsArray c = (s : ScalarType) × (c.type_code ≡ array s)

Expected-later : (n : ℕ) (cs : List ColumnSpec) → Expected (suc (suc (suc n))) cs
Expected-later n [] = tt
Expected-later n (c ∷ cs) = (refl, Expected-later (suc n) cs)

Expected-from_data_columns : (cs : List ColumnSpec) → Expected 0 (from_data_columns cs)
unfolding from_data_columns
Expected-from_data_columns cs =
    (text_eq_refl _, (text_eq_refl _, (text_eq_refl _, Expected-later 0 cs)))

pub IsArray-from_data_columns :
    (cs : List ColumnSpec) → All IsArray cs → All IsArray (from_data_columns cs)
unfolding from_data_columns
IsArray-from_data_columns cs h = ((_, refl), ((_, refl), ((_, refl), h)))

module _ (p : Pvxs) where
  open p use {Elem, Value}

  column_spec-array : (c : ColumnSpec) → IsArray c → column_spec p c.type_code c.name c.label ≡ ok c
  unfolding column_spec
  column_spec-array c (s, e) =
      let (no_compound, no_null, is) = p.is_array-array s in rw (e, no_compound, no_null, is) refl

  from_members_known :
      (idx : ℕ) (ls : List Text) (cs : List ColumnSpec) (ms : List (Member Elem))
      → Matches p ls cs ms
      → All IsArray cs
      → Expected idx cs
      → from_members p idx ls ms ≡ ok cs
  unfolding from_members
  from_members_known idx [] [] [] m a e = refl
  from_members_known idx (l ∷ ls) (c ∷ cs) (x ∷ ms) (label, name, code, m) a e =
      rw
        (
          label,
          name,
          code,
          e.0,
          column_spec-array c a.0,
          from_members_known (suc idx) ls cs ms m a.1 e.1,
        )
        refl
  from_members_known idx [] [] (x ∷ ms) m a e = absurd m
  from_members_known idx [] (c ∷ cs) ms m a e = absurd m
  from_members_known idx (l ∷ ls) [] ms m a e = absurd m
  from_members_known idx (l ∷ ls) (c ∷ cs) [] m a e = absurd m

  -- From a value that a type accepts, the type itself is read again. It is supposed that the type was made
  -- from data columns, which hold arrays.
  pub time_table_of_value-is_valid :
      (cs : List ColumnSpec) (t : TimeTable) (v : Value)
      → time_table_of_columns cs ≡ ok t
      → All IsArray cs
      → is_valid p t v ≡ ok true
      → time_table_of_value p v ≡ ok t
  unfolding time_table_of_columns time_table_of_value from_value
  time_table_of_value-is_valid cs t v made arrays valid =
      let c = (is_valid_iff p t v).0 valid in
      let (split, same) = split_columns_inv (from_data_columns cs) t made in
      let (n, m) = Matches-length p c.ls t.columns c.ms c.matches in
      let read =
        from_members_known 0 c.ls (from_data_columns cs) c.ms
          (subst (λ cols. Matches p c.ls cols c.ms) same c.matches)
          (IsArray-from_data_columns cs arrays) (Expected-from_data_columns cs) in
      rw (c.has_labels, c.has_columns, (==_iff (length c.ls) (length c.ms)).1 (n ∙ sym m), read)
        made

  expected_as :
      (idx : ℕ) (name expected : Text)
      → name ≡ expected
      → is_expected idx expected ≡ true
      → is_expected idx name ≡ true
  expected_as idx name expected e h = subst (λ n. is_expected idx n ≡ true) (sym e) h

  names-Expected :
      (cs : List ColumnSpec) (missing : Text) (rest : List Text)
      → map (λ c. c.name) cs ++ (missing ∷ rest)
        ≡ seconds_past_epoch_col ∷ nanoseconds_col ∷ pulse_id_col ∷ []
      → Expected 0 cs × (length cs < num_time_cols)
  unfolding text_eq
  names-Expected [] missing rest e = (tt, omega arith)
  names-Expected (a ∷ []) missing rest e =
      let first : a.name ≡ seconds_past_epoch_col = cc in
      ((expected_as 0 a.name _ first refl, tt), omega arith)
  names-Expected (a ∷ b ∷ []) missing rest e =
      let first : a.name ≡ seconds_past_epoch_col = cc in
      let second : b.name ≡ nanoseconds_col = cc in
      ((expected_as 0 a.name _ first refl, (expected_as 1 b.name _ second refl, tt)), omega arith)
  names-Expected (a ∷ b ∷ c ∷ cs) missing rest e =
      absurd (omega (arith, ap length e, length-append (map (λ c. c.name) cs) (missing ∷ rest)))

  few_specs :
      (v : Value) (cs : List ColumnSpec)
      → from_value p v ≡ ok cs
      → length cs < num_time_cols
      → time_table_of_value p v ≡ err bad_access
  unfolding time_table_of_value split_columns
  few_specs v cs h n = rw h (ground arith)

  -- A value whose columns are arrays, fewer than three, with the first of the names of the time columns, and
  -- with as many labels, is refused by no check: the constructor of the type forms an iterator past the end
  -- of the columns.
  pub time_table_of_value-few :
      (v : Value) (ls : List Text) (cs : List ColumnSpec) (ms : List (Member Elem)) (missing : Text)
      (rest : List Text)
      → p.labels v ≡ some ls
      → p.columns v ≡ some ms
      → Matches p ls cs ms
      → All IsArray cs
      → map (λ c. c.name) cs ++ (missing ∷ rest)
        ≡ seconds_past_epoch_col ∷ nanoseconds_col ∷ pulse_id_col ∷ []
      → time_table_of_value p v ≡ err bad_access
  unfolding from_value
  time_table_of_value-few v ls cs ms missing rest labelled listed m arrays names =
      let (n, k) = Matches-length p ls cs ms m in
      let (expected, few) = names-Expected cs missing rest names in
      let read = from_members_known 0 ls cs ms m arrays expected in
      few_specs v cs (rw (labelled, listed, (==_iff (length ls) (length ms)).1 (n ∙ sym k)) read)
        few
