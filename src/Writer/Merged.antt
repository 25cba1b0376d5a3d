-- ===== src/Writer/Merged.antt =====
-- The columns of a merged table as the entries that the writer reads in them.
use bsas_sc.Common.{
  ℕ, suc, ◌<◌, ◌≡◌, ◌≢◌, refl, sym, ◌∙◌, ap, ap₂, subst, List, [], ◌∷◌, ◌++◌, map, map-append, All,
  All-append, All-map, All-each, All-image, Pairwise, Pairwise-append, Pairwise-image, Text, arith,
}
use bsas_sc.Pvxs.{IsFresh, IsDistinct}
use bsas_sc.Table.{ColumnSpec, seconds_past_epoch, nanoseconds, pulse_id}
use bsas_sc.Buffer.{TableBuffer, buffer_data_columns}
use bsas_sc.Align.{
  TimeAligned, valid_spec, col_prefix, prefixed_colspec, prefixed_columns, merged_columns,
}
use bsas_sc.Align.Prefix.{col_prefix_injective}
use bsas_sc.Writer.Parts.{Lacks, column_parts-prefixed_colspec}
use bsas_sc.Writer.Structure.{Entry, IsParsed, AreApart, IsWritable}
use bsas_sc.Writer.Structure.Objects.{ne_of_text_eq}
use bsas_sc.Writer.Structure.Build.{IsOther}
use bsas_sc.Writer.Stored.{HasType-array}

-- The columns of an input table, with `valid` in front.
abbrev pub input_columns : {V : Type 0} → TableBuffer V → List ColumnSpec
input_columns b = valid_spec ∷ buffer_data_columns b

-- A column whose name and label do not have the separators.
pub record IsPlain (label col : ℕ) (c : ColumnSpec) : Type 0 where
  pub plain_name : Lacks col c.name
  pub plain_label : Lacks label c.label
  pub is_array : IsWritable c

-- The columns of an input table can be told apart.
pub record IsPlainTable {V : Type 0} (label col : ℕ) (b : TableBuffer V) : Type 0 where
  pub plain : All (IsPlain label col) (input_columns b)
  pub distinct : IsDistinct (map (λ c. c.name) (input_columns b))

-- The first character.
abbrev head : Text → ℕ
head [] = 0
head (c ∷ cs) = c

head-merged :
    {V : Type 0} (t : TimeAligned V) (idx total : ℕ) (pvname : Text) (c : ColumnSpec)
    → (head (col_prefix idx total) ≡ 116)
      × (head (prefixed_colspec t idx total pvname c).name ≡ 116)
unfolding col_prefix prefixed_colspec
head-merged t idx total pvname c = (refl, refl)

-- No time column begins with the letter of the prefixes.
abbrev pub time_specs : List ColumnSpec
time_specs = seconds_past_epoch ∷ nanoseconds ∷ pulse_id ∷ []

other_head : (n m : Text) → head n ≡ 116 → head m ≢ 116 → n ≢ m
other_head n m h k q = k (sym (ap head q) ∙ h)

module _ {V : Type 0} (t : TimeAligned V) (total : ℕ) where
  abbrev pub merged_entry : ℕ → Text → ColumnSpec → Entry
  merged_entry idx pvname c = record {
    spec = prefixed_colspec t idx total pvname c;
    pvname = pvname;
    prefix = col_prefix idx total;
    suffix = c.name;
  }

  -- The entries of the merged columns.
  abbrev pub merged_entries : ℕ → List (Text × TableBuffer V) → List Entry
  merged_entries idx [] = []
  merged_entries idx ((pvname, b) ∷ m) =
      map (merged_entry idx pvname) (input_columns b) ++ merged_entries (suc idx) m

  spec-merged_entry :
      (idx : ℕ) (pvname : Text) (cs : List ColumnSpec)
      → map (λ e. e.spec) (map (merged_entry idx pvname) cs)
        ≡ prefixed_columns t idx total pvname cs
  unfolding prefixed_columns
  spec-merged_entry idx pvname [] = refl
  spec-merged_entry idx pvname (c ∷ cs) =
      ap (λ xs. prefixed_colspec t idx total pvname c ∷ xs) (spec-merged_entry idx pvname cs)

  pub spec-merged_entries :
      (idx : ℕ) (m : List (Text × TableBuffer V))
      → merged_columns t idx total m ≡ map (λ e. e.spec) (merged_entries idx m)
  unfolding merged_columns
  spec-merged_entries idx [] = refl
  spec-merged_entries idx ((pvname, b) ∷ m) =
      ap₂ (λ xs ys. xs ++ ys) (sym (spec-merged_entry idx pvname (input_columns b)))
        (spec-merged_entries (suc idx) m)
      ∙ sym (
          map-append (λ e. e.spec) (map (merged_entry idx pvname) (input_columns b))
            (merged_entries (suc idx) m))

  -- The columns of one table.
  AreApart-table :
      (idx : ℕ) (pvname : Text) (cs : List ColumnSpec)
      → IsDistinct (map (λ c. c.name) cs)
      → Pairwise (λ c d. AreApart (merged_entry idx pvname c) (merged_entry idx pvname d)) cs
  AreApart-table idx pvname [] h = tt
  AreApart-table idx pvname (c ∷ cs) h = (each cs h.0, AreApart-table idx pvname cs h.1)
    where
      each :
          (ds : List ColumnSpec)
          → IsFresh c.name (map (λ d. d.name) ds)
          → All (λ d. AreApart (merged_entry idx pvname c) (merged_entry idx pvname d)) ds
      each [] k = tt
      each (d ∷ ds) k = (
        record {
          same_pv = λ q. refl;
          same_prefix = λ q. refl;
          suffixes = λ q. ne_of_text_eq c.name d.name k.0;
        },
        each ds k.1,
      )

  -- The columns of the later tables.
  abbrev IsLater : ℕ → Text → Entry → Type 0
  IsLater idx pvname r = (pvname ≢ r.pvname) × (col_prefix idx total ≢ r.prefix)

  IsLater-merged :
      (idx j : ℕ) (pvname : Text) (m : List (Text × TableBuffer V))
      → idx < j
      → IsFresh pvname (map (λ x. x.0) m)
      → All (IsLater idx pvname) (merged_entries j m)
  IsLater-merged idx j pvname [] lt fresh = tt
  IsLater-merged idx j pvname ((k, b) ∷ m) lt fresh =
      All-append _ (map (merged_entry j k) (input_columns b)) _
        (All-image (merged_entry j k) (IsLater idx pvname) (input_columns b) (
          All-each _ (input_columns b) (λ c. (
            ne_of_text_eq pvname k fresh.0,
            col_prefix_injective idx j total (λ q. omega (arith, q, lt)),
          ))))
        (IsLater-merged idx (suc j) pvname m (omega (arith, lt)) fresh.1)

  IsOther-merged_entry :
      (idx : ℕ) (pvname : Text) (c : ColumnSpec) → IsOther time_specs (merged_entry idx pvname c)
  IsOther-merged_entry idx pvname c =
      let (front, name) = head-merged t idx total pvname c in
      let apart : (m : Text)
          → head m ≢ 116
          → (col_prefix idx total ≢ m) × ((prefixed_colspec t idx total pvname c).name ≢ m) =
        λ m k. (other_head _ m front k, other_head _ m name k) in
      (
        apart _ (λ q. omega (arith, q)),
        (apart _ (λ q. omega (arith, q)), (apart _ (λ q. omega (arith, q)), tt)),
      )

  pub IsOther-merged :
      (idx : ℕ) (m : List (Text × TableBuffer V)) → All (IsOther time_specs) (merged_entries idx m)
  IsOther-merged idx [] = tt
  IsOther-merged idx ((pvname, b) ∷ m) =
      All-append _ (map (merged_entry idx pvname) (input_columns b)) _
        (All-image (merged_entry idx pvname) (IsOther time_specs) (input_columns b)
          (All-each _ (input_columns b) (IsOther-merged_entry idx pvname)))
        (IsOther-merged (suc idx) m)

module _ {V : Type 0} (t : TimeAligned V) (label col total : ℕ) where
  pub IsWritable-merged_entries :
      (idx : ℕ) (m : List (Text × TableBuffer V))
      → All (λ x. IsPlainTable label col x.1) m
      → All (λ e. IsWritable e.spec) (merged_entries t total idx m)
  unfolding prefixed_colspec
  IsWritable-merged_entries idx [] h = tt
  IsWritable-merged_entries idx ((pvname, b) ∷ m) h =
      All-append _ (map (merged_entry t total idx pvname) (input_columns b)) _
        (All-image (merged_entry t total idx pvname) (λ e. IsWritable e.spec) (input_columns b)
          (All-map _ _ (input_columns b) (λ c k. k.is_array) h.0.plain))
        (IsWritable-merged_entries (suc idx) m h.1)

  pub IsWritable-merged_columns :
      (idx : ℕ) (m : List (Text × TableBuffer V))
      → All (λ x. IsPlainTable label col x.1) m
      → All IsWritable (merged_columns t idx total m)
  IsWritable-merged_columns idx m h =
      subst (All IsWritable) (sym (spec-merged_entries t total idx m)) (
        All-image (λ e. e.spec) IsWritable (merged_entries t total idx m)
          (IsWritable-merged_entries idx m h))

  pub IsParsed-merged :
      t.col_sep ≡ col ∷ []
      → t.label_sep ≡ label ∷ []
      → (idx : ℕ) (m : List (Text × TableBuffer V)) → All (λ x. IsPlainTable label col x.1) m
      → All (IsParsed t.label_sep t.col_sep) (merged_entries t total idx m)
  unfolding prefixed_colspec
  IsParsed-merged cq lq idx [] h = tt
  IsParsed-merged cq lq idx ((pvname, b) ∷ m) h =
      All-append _ (map (merged_entry t total idx pvname) (input_columns b)) _
        (All-image (merged_entry t total idx pvname) (IsParsed t.label_sep t.col_sep)
          (input_columns b)
          (All-map _ _ (input_columns b)
            (λ c k.
              let (column, pv) =
                column_parts-prefixed_colspec t idx total pvname c col label cq lq k.plain_name
                  k.plain_label in
              record { typed = HasType-array c k.is_array; label = pv; column = column })
            h.0.plain))
        (IsParsed-merged cq lq (suc idx) m h.1)

  pub AreApart-merged :
      (idx : ℕ) (m : List (Text × TableBuffer V))
      → IsDistinct (map (λ x. x.0) m)
      → All (λ x. IsPlainTable label col x.1) m
      → Pairwise AreApart (merged_entries t total idx m)
  AreApart-merged idx [] d h = tt
  AreApart-merged idx ((pvname, b) ∷ m) d h =
      let later = IsLater-merged t total idx (suc idx) pvname m (omega arith) d.0 in
      Pairwise-append AreApart (map (merged_entry t total idx pvname) (input_columns b)) _
        (Pairwise-image (merged_entry t total idx pvname) AreApart (input_columns b)
          (AreApart-table t total idx pvname (input_columns b) h.0.distinct))
        (AreApart-merged (suc idx) m d.1 h.1)
        (All-image (merged_entry t total idx pvname) _ (input_columns b) (
          All-each _ (input_columns b) (λ c.
            All-map (IsLater t total idx pvname) (AreApart (merged_entry t total idx pvname c))
              (merged_entries t total (suc idx) m)
              (λ r k. record {
                same_pv = λ q. absurd (k.0 q);
                same_prefix = λ q. absurd (k.1 q);
                suffixes = λ q. absurd (k.1 q);
              })
              later)))
