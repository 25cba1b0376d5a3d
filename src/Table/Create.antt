-- ===== src/Table/Create.antt =====
-- The constructors of `TimeTable`: the type extracted from a value describes that value, and the value
-- that a type creates is of that type.
use bsas_sc.Common.{
  ℕ, suc, true, false, ◌≡◌, refl, subst, ap, sym, ◌∙◌, ◌↔◌, List, [], ◌∷◌, ◌++◌, map, length, Text,
  text_eq_iff, ok, some, arith, ◌≤◌, ltb, >>=-eq-ok, take, drop,
}
use bsas_sc.Pvxs.{Pvxs, Member, TypeCode, IsDistinct}
use bsas_sc.Table.{
  ColumnSpec, TimeTable, nt_table, from_data_columns, split_columns, time_table_of_columns,
  is_expected, seconds_past_epoch_col, nanoseconds_col, pulse_id_col, from_members, from_value,
  time_table_of_value, create_table, is_valid, num_time_cols,
}
use bsas_sc.Table.Valid.{Matches, HaveRows, Conforms, is_valid_iff}

nt_table_lem :
    (cs : List ColumnSpec)
    → ((nt_table cs).labels ≡ map (λ c. c.label) cs)
      × ((nt_table cs).members ≡ map (λ c. (c.type_code, c.name)) cs)
unfolding nt_table
nt_table_lem [] = (refl, refl)
nt_table_lem (c ∷ cs) =
    (ap (◌∷◌ c.label) (nt_table_lem cs).0, ap (◌∷◌ (c.type_code, c.name)) (nt_table_lem cs).1)

take-drop_three {ℓ} : {A : Type ℓ} (xs : List A) → take 3 xs ++ drop 3 xs ≡ xs
take-drop_three [] = refl
take-drop_three (a ∷ []) = refl
take-drop_three (a ∷ b ∷ []) = refl
take-drop_three (a ∷ b ∷ c ∷ xs) = refl

-- A table splits its columns in the three time columns and the others.
pub record IsSplit (t : TimeTable) : Type 0 where
  pub enough : num_time_cols ≤ length t.columns
  pub time : t.time_columns ≡ take num_time_cols t.columns
  pub others : t.data_columns ≡ drop num_time_cols t.columns
  pub table : t.nttable ≡ nt_table t.columns

pub split_columns_inv :
    (cs : List ColumnSpec) (t : TimeTable) → split_columns cs ≡ ok t → IsSplit t × (t.columns ≡ cs)
unfolding split_columns
split_columns_inv cs t h = (
  record {
    enough = ground arith;
    time = ground arith;
    others = ground arith;
    table = ground arith;
  },
  ground arith,
)

-- The columns from index `idx` on have the names that `from_value` expects there.
abbrev pub Expected : ℕ → List ColumnSpec → Type 0
Expected idx [] = Unit
Expected idx (c ∷ cs) = (is_expected idx c.name ≡ true) × Expected (suc idx) cs

module _ (p : Pvxs) where
  open p use {Elem, Value, valid, labels, columns}

  from_members_inv :
      (idx : ℕ) (l : Text) (ls : List Text) (m : Member Elem) (ms : List (Member Elem))
      (specs : List ColumnSpec)
      → from_members p idx (l ∷ ls) (m ∷ ms) ≡ ok specs
      → (rest : List ColumnSpec) × (is_expected idx m.name ≡ true)
        × (from_members p (suc idx) ls ms ≡ ok rest)
        × (specs ≡ record { type_code = m.type_code; name = m.name; label = l } ∷ rest)
  unfolding from_members
  from_members_inv idx l ls m ms specs h = ground arith

  from_members-nil :
      (idx : ℕ) (specs : List ColumnSpec) → from_members p idx [] [] ≡ ok specs → specs ≡ []
  unfolding from_members
  from_members-nil idx specs h = cc

  from_members-Matches :
      (idx : ℕ) (ls : List Text) (ms : List (Member Elem)) (specs : List ColumnSpec)
      → length ls ≡ length ms
      → from_members p idx ls ms ≡ ok specs
      → Matches p ls specs ms × Expected idx specs
  from_members-Matches idx [] [] specs e h = rw (from_members-nil idx specs h) (tt, tt)
  from_members-Matches idx (l ∷ ls) (m ∷ ms) specs e h =
      let q = from_members_inv idx l ls m ms specs h in
      let ih = from_members-Matches (suc idx) ls ms q.0 (omega arith) q.2 in
      rw q.3 ((refl, refl, refl, ih.0), (q.1, ih.1))
  from_members-Matches idx [] (m ∷ ms) specs e h = absurd (omega arith)
  from_members-Matches idx (l ∷ ls) [] specs e h = absurd (omega arith)

  from_value_inv :
      (v : Value) (specs : List ColumnSpec)
      → from_value p v ≡ ok specs
      → (ls : List Text) × (ms : List (Member Elem)) × (labels v ≡ some ls)
        × (columns v ≡ some ms)
        × (length ls ≡ length ms)
        × (from_members p 0 ls ms ≡ ok specs)
  unfolding from_value
  from_value_inv v specs h = ground arith

  take-Expected :
      (cs : List ColumnSpec)
      → num_time_cols ≤ length cs
      → Expected 0 cs
      → map (λ c. c.name) (take num_time_cols cs)
        ≡ seconds_past_epoch_col ∷ nanoseconds_col ∷ pulse_id_col ∷ []
  take-Expected (a ∷ b ∷ c ∷ cs) n h = simp (
    (text_eq_iff _ a.name).0 h.0,
    (text_eq_iff _ b.name).0 h.1.0,
    (text_eq_iff _ c.name).0 h.1.1.0,
  )
  take-Expected [] n h = absurd (omega arith)
  take-Expected (a ∷ []) n h = absurd (omega arith)
  take-Expected (a ∷ b ∷ []) n h = absurd (omega arith)

  pub time_table_of_value-names :
      (v : Value) (t : TimeTable)
      → time_table_of_value p v ≡ ok t
      → map (λ c. c.name) (take num_time_cols t.columns)
        ≡ seconds_past_epoch_col ∷ nanoseconds_col ∷ pulse_id_col ∷ []
  unfolding time_table_of_value
  time_table_of_value-names v t h =
      let (cs, e, f) = >>=-eq-ok (from_value p v) split_columns h in
      let (split, same) = split_columns_inv cs t f in
      let (ls, ms, hl, hc, n, g) = from_value_inv v cs e in
      take-Expected t.columns split.enough
        (subst (Expected 0) (sym same) (from_members-Matches 0 ls ms cs n g).1)

  -- A type extracted from a value has in front the columns `secondsPastEpoch`, `nanoseconds` and
  -- `pulseId`, in this order, and has the labels, names and types of the value's columns; so the type
  -- accepts the value itself exactly if the value is usable and its columns have one length.
  pub time_table_of_value_lem :
      (v : Value) (t : TimeTable)
      → time_table_of_value p v ≡ ok t
      → (ls : List Text) × (ms : List (Member Elem)) × (labels v ≡ some ls)
        × (columns v ≡ some ms)
        × Matches p ls t.columns ms
        × (map (λ c. c.name) t.time_columns
            ≡ seconds_past_epoch_col ∷ nanoseconds_col ∷ pulse_id_col ∷ [])
        × (t.columns ≡ t.time_columns ++ t.data_columns)
        × ((is_valid p t v ≡ ok true) ↔ ((valid v ≡ true) × ((n : ℕ) × HaveRows p n ms)))
  unfolding time_table_of_value
  time_table_of_value_lem v t h =
      let (cs, e, f) = >>=-eq-ok (from_value p v) split_columns h in
      let (split, same) = split_columns_inv cs t f in
      let (ls, ms, hl, hc, n, g) = from_value_inv v cs e in
      let q = from_members-Matches 0 ls ms cs n g in
      let m : Matches p ls t.columns ms = subst (λ cols. Matches p ls cols ms) (sym same) q.0 in
      (
        ls,
        ms,
        hl,
        hc,
        m,
        rw split.time (take-Expected t.columns split.enough (subst (Expected 0) (sym same) q.1)),
        rw (split.time, split.others) (sym (take-drop_three t.columns)),
        (
          (λ a.
              let c = (is_valid_iff p t v).0 a in
              (c.usable, (c.rows, subst (HaveRows p c.rows) (cc (c.has_columns, hc)) c.have_rows))),
          (λ a. (is_valid_iff p t v).1 (record {
            usable = a.0;
            ls = ls;
            ms = ms;
            rows = a.1.0;
            has_labels = hl;
            has_columns = hc;
            matches = m;
            have_rows = a.1.1;
          })),
        ),
      )

  created : List ColumnSpec → List (Member Elem)
  created [] = []
  created (c ∷ cs) =
      record {
        name = c.name;
        type_code = c.type_code;
        array = record { original_type = p.array_type c.type_code; elems = [] };
      }
      ∷ created cs

  created-Matches : (cs : List ColumnSpec) → Matches p (map (λ c. c.label) cs) cs (created cs)
  unfolding created
  created-Matches [] = tt
  created-Matches (c ∷ cs) = (refl, refl, refl, created-Matches cs)

  created-HaveRows : (cs : List ColumnSpec) → HaveRows p 0 (created cs)
  unfolding created
  created-HaveRows [] = tt
  created-HaveRows (c ∷ cs) = (refl, created-HaveRows cs)

  names_of_members :
      (cs : List ColumnSpec) → map (λ m. m.1) (nt_table cs).members ≡ map (λ c. c.name) cs
  unfolding nt_table
  names_of_members [] = refl
  names_of_members (c ∷ cs) = ap (◌∷◌ c.name) (names_of_members cs)

  blank : TypeCode × Text → Member Elem
  blank m = record {
    name = m.1;
    type_code = m.0;
    array = record { original_type = p.array_type m.0; elems = [] };
  }

  blank_members : (cs : List ColumnSpec) → map blank (nt_table cs).members ≡ created cs
  unfolding nt_table created blank
  blank_members [] = refl
  blank_members (c ∷ cs) = ap (◌∷◌ (blank (c.type_code, c.name))) (blank_members cs)

  columns-created :
      (cs : List ColumnSpec)
      → IsDistinct (map (λ c. c.name) cs)
      → columns (p.create (nt_table cs).members) ≡ some (created cs)
  unfolding blank
  columns-created cs d =
      p.columns-create (nt_table cs).members (subst IsDistinct (sym (names_of_members cs)) d)
      ∙ ap some (blank_members cs)

  create_table-Conforms :
      (t : TimeTable)
      → t.nttable ≡ nt_table t.columns
      → IsDistinct (map (λ c. c.name) t.columns)
      → Conforms p t (create_table p t)
  unfolding create_table
  create_table-Conforms t e d = record {
    usable = p.valid-set_labels _ _ ∙ p.valid-create _;
    ls = map (λ c. c.label) t.columns;
    ms = created t.columns;
    rows = 0;
    has_labels =
        p.labels-set_labels _ _ (p.valid-create _) ∙ ap some (rw e (nt_table_lem t.columns).0);
    has_columns = p.columns-set_labels _ _ ∙ rw e (columns-created t.columns d);
    matches = created-Matches t.columns;
    have_rows = created-HaveRows t.columns;
  }

  -- Between columns with distinct names, `TimeTable(data_columns)` always succeeds, its columns are the
  -- three time columns and the given ones, and the value that it creates is one that `is_valid`
  -- accepts.
  pub create_table-is_valid :
      (data_columns : List ColumnSpec)
      → IsDistinct (map (λ c. c.name) (from_data_columns data_columns))
      → (t : TimeTable) × (time_table_of_columns data_columns ≡ ok t)
        × (t.columns ≡ from_data_columns data_columns)
        × (t.data_columns ≡ data_columns)
        × (is_valid p t (create_table p t) ≡ ok true)
  unfolding time_table_of_columns split_columns from_data_columns
  create_table-is_valid data_columns d = (
    t,
    rw (few data_columns) refl,
    refl,
    refl,
    (is_valid_iff p t _).1 (create_table-Conforms t refl d),
  )
    where
      t : TimeTable
      t = record {
        columns = from_data_columns data_columns;
        time_columns = take num_time_cols (from_data_columns data_columns);
        data_columns = data_columns;
        nttable = nt_table (from_data_columns data_columns);
      }

      few : (cs : List ColumnSpec) → ltb (length (from_data_columns cs)) num_time_cols ≡ false
      few cs = ground arith
