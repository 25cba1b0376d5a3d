-- ===== src/Align/Initialize.antt =====
-- When a `TimeAlignedTable` gets its type, and what that type is.
use bsas_sc.Common.{
  ℕ, suc, ◌+◌, true, false, ◌≡◌, refl, sym, ap, ◌∙◌, inl, inr, Option, Option-cases, ◌⊎◌, ◌++◌, All,
  none, some, List, [], ◌∷◌, length, Text, ok, subst,
}
use bsas_sc.Table.{
  ColumnSpec, TimeTable, seconds_past_epoch, nanoseconds, pulse_id, from_data_columns,
}
use bsas_sc.Table.Columns.{time_table_of_columns-total}
use bsas_sc.Buffer.{TableBuffer, initialized, buffer_data_columns}
use bsas_sc.Align.{
  TimeAligned, col_prefix, prefixed_colspec, all_initialized, keep_initialized, prefixed_columns,
  merged_columns, valid_spec, initialize, force_initialize,
}

module _ {V : Type 0} where
  -- The columns of all buffers, with one more for each.
  abbrev pub column_count : List (Text × TableBuffer V) → ℕ
  column_count [] = 0
  column_count ((k, b) ∷ m) = suc (length (buffer_data_columns b)) + column_count m

  abbrev pub IsTyped : TableBuffer V → Type 0
  IsTyped b = (type : TimeTable) × (b.type_ ≡ some type)

  abbrev pub AllTyped : List (Text × TableBuffer V) → Type 0
  AllTyped m = All (λ x. IsTyped x.1) m

  -- Exactly the buffers with a type, in order.
  abbrev pub Kept : List (Text × TableBuffer V) → List (Text × TableBuffer V) → Type 0
  Kept [] kept = kept ≡ []
  Kept ((k, b) ∷ m) kept =
      (IsTyped b × ((rest : List (Text × TableBuffer V)) × (kept ≡ (k, b) ∷ rest) × Kept m rest))
      ⊎ ((b.type_ ≡ none) × Kept m kept)

  -- The columns of one input table, each with its type: its name behind the prefix of the table's index and
  -- the separator of columns, its label behind the name of the PV and the separator of labels.
  abbrev pub ArePrefixed : TimeAligned V → ℕ → ℕ → Text → List ColumnSpec → List ColumnSpec → Type 0
  ArePrefixed t total idx pv [] ds = ds ≡ []
  ArePrefixed t total idx pv (c ∷ cs) [] = ⊥
  ArePrefixed t total idx pv (c ∷ cs) (d ∷ ds) =
      (d.type_code ≡ c.type_code)
      × (d.name ≡ col_prefix idx total ++ (t.col_sep ++ c.name))
      × (d.label ≡ pv ++ (t.label_sep ++ c.label))
      × ArePrefixed t total idx pv cs ds

  -- Those of the input tables from the index on: for each a `valid` column and its data columns.
  abbrev pub AreMerged :
      TimeAligned V → ℕ → ℕ → List (Text × TableBuffer V) → List ColumnSpec → Type 0
  AreMerged t total idx [] ds = ds ≡ []
  AreMerged t total idx ((k, b) ∷ m) ds =
      (front rest : List ColumnSpec) × (ds ≡ front ++ rest)
      × ArePrefixed t total idx k (valid_spec ∷ buffer_data_columns b) front
      × AreMerged t total (suc idx) m rest

  -- The type of a merged table: the three time columns, and those of all its buffers.
  abbrev pub HasMergedType : TimeAligned V → Type 0
  HasMergedType u =
      (type : TimeTable) × (u.type_ ≡ some type)
      × (type.columns ≡ seconds_past_epoch ∷ nanoseconds ∷ pulse_id ∷ type.data_columns)
      × AreMerged u (length u.buffers) 0 u.buffers type.data_columns

  initialized-cases :
      (b : TableBuffer V)
      → (IsTyped b × (initialized b ≡ true)) ⊎ ((b.type_ ≡ none) × (initialized b ≡ false))
  unfolding initialized
  initialized-cases b = elim (Option-cases b.type_) [
    | inl x ↦ inr (x, rw x refl)
    | inr (type, x) ↦ inl ((type, x), rw x refl)
  ]

  all_initialized-cases :
      (m : List (Text × TableBuffer V))
      → (AllTyped m × (all_initialized m ≡ true)) ⊎ (¬ AllTyped m × (all_initialized m ≡ false))
  unfolding all_initialized
  all_initialized-cases [] = inl (tt, refl)
  all_initialized-cases ((k, b) ∷ m) = elim (initialized-cases b) [
    | inr (x, i) ↦ inr ((λ all. let q = sym x ∙ all.0.1 in cc q), rw i refl)
    | inl (typed, i) ↦ elim (all_initialized-cases m) [
      | inl (all, is) ↦ inl ((typed, all), rw (i, is) refl)
      | inr (missing, is) ↦ inr ((λ all. missing all.1), rw (i, is) refl)
    ]
  ]

  keep_initialized-Kept :
      (m : List (Text × TableBuffer V))
      → Kept m (keep_initialized m) × (all_initialized (keep_initialized m) ≡ true)
  unfolding all_initialized keep_initialized
  keep_initialized-Kept [] = (refl, refl)
  keep_initialized-Kept ((k, b) ∷ m) =
      let (kept, all) = keep_initialized-Kept m in
      elim (initialized-cases b) [
        | inl (typed, i) ↦ rw i (inl (typed, (keep_initialized m, refl, kept)), rw i all)
        | inr (x, i) ↦ rw i (inr (x, kept), all)
      ]

  prefixed_columns-ArePrefixed :
      (t : TimeAligned V) (idx total : ℕ) (pv : Text) (cs : List ColumnSpec)
      → ArePrefixed t total idx pv cs (prefixed_columns t idx total pv cs)
  unfolding prefixed_columns prefixed_colspec
  prefixed_columns-ArePrefixed t idx total pv [] = refl
  prefixed_columns-ArePrefixed t idx total pv (c ∷ cs) =
      (refl, refl, refl, prefixed_columns-ArePrefixed t idx total pv cs)

  merged_columns-AreMerged :
      (t : TimeAligned V) (o : Option TimeTable) (idx total : ℕ) (m : List (Text × TableBuffer V))
      → AreMerged (record t { type_ = o }) total idx m (merged_columns t idx total m)
  unfolding merged_columns
  merged_columns-AreMerged t o idx total [] = refl
  merged_columns-AreMerged t o idx total ((k, b) ∷ m) = (
    prefixed_columns t idx total k (valid_spec ∷ buffer_data_columns b),
    merged_columns t (suc idx) total m,
    refl,
    prefixed_columns-ArePrefixed t idx total k (valid_spec ∷ buffer_data_columns b),
    merged_columns-AreMerged t o (suc idx) total m,
  )

  -- `initialize` on a table without a type all of whose buffers have theirs.
  initialize-HasMergedType :
      (t : TimeAligned V)
      → t.type_ ≡ none
      → all_initialized t.buffers ≡ true
      → (u : TimeAligned V) × (initialize t ≡ ok u) × (u.buffers ≡ t.buffers) × HasMergedType u
  unfolding initialize from_data_columns
  initialize-HasMergedType t none_yet all =
      let untyped : TimeAligned V = record t { type_ = none } in
      let cs = merged_columns untyped 0 (length t.buffers) t.buffers in
      let (type, made, cols, data_cols) = time_table_of_columns-total cs in
      (
        record t { type_ = some type },
        rw (none_yet, all, made) refl,
        refl,
        (
          type,
          refl,
          cols ∙ ap (λ ds. seconds_past_epoch ∷ nanoseconds ∷ pulse_id ∷ ds) (sym data_cols),
          subst (AreMerged (record t { type_ = some type }) (length t.buffers) 0 t.buffers)
              (sym data_cols)
              (merged_columns-AreMerged untyped (some type) 0 (length t.buffers) t.buffers),
        ),
      )

  -- On a table without a type, `force_initialize` succeeds: it keeps exactly the buffers that have a type,
  -- in order, returns their number, and the table has a type from then on: the time columns, and for each
  -- buffer kept a `valid` column and its data columns, each with its type, its name behind the prefix
  -- of the buffer's new index and a separator, and its label behind the PV's name and a separator.
  pub force_initialize_lem :
      (t : TimeAligned V)
      → t.type_ ≡ none
      → (u : TimeAligned V) × (force_initialize t ≡ ok (u, length u.buffers))
        × Kept t.buffers u.buffers
        × HasMergedType u
  unfolding force_initialize
  force_initialize_lem t none_yet =
      let (kept, all) = keep_initialized-Kept t.buffers in
      let (u, made, same, typed) =
        initialize-HasMergedType (record t { buffers = keep_initialized t.buffers }) none_yet all in
      (u, simp made, subst (Kept t.buffers) (sym same) kept, typed)

  -- What `initialize` does for a table whose type was as given: a type stays; without one, the table gets
  -- one exactly if all its buffers have theirs.
  abbrev pub Settles : Option TimeTable → TimeAligned V → Type 0
  Settles (some type) u = u.type_ ≡ some type
  Settles none u =
      (AllTyped u.buffers × HasMergedType u) ⊎ (¬ AllTyped u.buffers × (u.type_ ≡ none))

  pub initialize-Settles :
      (t : TimeAligned V)
      → (u : TimeAligned V) × (initialize t ≡ ok u) × (u.buffers ≡ t.buffers) × Settles t.type_ u
  unfolding initialize
  initialize-Settles t = elim (Option-cases t.type_) [
    | inr (type, x) ↦ (t, rw x refl, refl, subst (λ o. Settles o t) (sym x) x)
    | inl x ↦ elim (all_initialized-cases t.buffers) [
      | inr (missing, is) ↦
          (t, rw (x, is) refl, refl, subst (λ o. Settles o t) (sym x) (inr (missing, x)))
      | inl (all, is) ↦
          let (u, made, same, typed) = initialize-HasMergedType t x is in
          (
            u,
            made,
            same,
            subst (λ o. Settles o u) (sym x) (inl (subst AllTyped (sym same) all, typed)),
          )
    ]
  ]
