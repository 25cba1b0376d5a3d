-- ===== src/Writer/Storable.antt =====
-- The type that `TimeAlignedTable` gives its values, against what the writer needs to place its columns.
use bsas_sc.Common.{
  ℕ, ◌≡◌, refl, sym, ◌∙◌, ap, ap₂, subst, List, [], ◌∷◌, ◌++◌, map, length, take, drop, All,
  text_eq, ok,
}
use bsas_sc.Pvxs.{IsDistinct}
use bsas_sc.Table.{ColumnSpec, TimeTable, from_data_columns, time_table_of_columns}
use bsas_sc.Table.Create.{split_columns_inv}
use bsas_sc.Align.{TimeAligned, merged_columns}
use bsas_sc.Writer.Structure.{IsWritable}
use bsas_sc.Writer.Structure.Build.{IsOther}
use bsas_sc.Writer.Locations.{IsStorable}
use bsas_sc.Writer.Merged.{
  IsPlainTable, merged_entries, time_specs, spec-merged_entries, IsOther-merged, IsParsed-merged,
  AreApart-merged, IsWritable-merged_columns,
}

pub time_columns-merged :
    (cs : List ColumnSpec) (type : TimeTable)
    → time_table_of_columns cs ≡ ok type
    → (type.time_columns ≡ time_specs)
      × (type.data_columns ≡ cs)
      × (type.columns ≡ time_specs ++ cs)
unfolding time_table_of_columns from_data_columns
time_columns-merged cs type made =
    let (split, same) = split_columns_inv (from_data_columns cs) type made in
    (split.time ∙ ap (take 3) same, split.others ∙ ap (drop 3) same, same)

-- The type of a merged table is one whose columns the writer can place.
IsWritable-from_data_columns :
    (cs : List ColumnSpec) → All IsWritable cs → All IsWritable (from_data_columns cs)
unfolding from_data_columns
IsWritable-from_data_columns cs h = ((_, refl, refl), ((_, refl, refl), ((_, refl, refl), h)))

pub IsStorable-merged :
    {V : Type 0} (t : TimeAligned V) (label col : ℕ) (type : TimeTable)
    → t.label_sep ≡ label ∷ []
    → t.col_sep ≡ col ∷ []
    → IsDistinct (map (λ x. x.0) t.buffers)
    → All (λ x. IsPlainTable label col x.1) t.buffers
    → time_table_of_columns (merged_columns t 0 (length t.buffers) t.buffers) ≡ ok type
    → IsStorable t.label_sep t.col_sep type (merged_entries t (length t.buffers) 0 t.buffers)
unfolding from_data_columns text_eq
IsStorable-merged t label col type lq cq distinct plain made =
    let total = length t.buffers in
    let cs = merged_columns t 0 total t.buffers in
    let es = merged_entries t total 0 t.buffers in
    let (times, data_cols, same) = time_columns-merged cs type made in
    let specs = spec-merged_entries t total 0 t.buffers in
    let arrays = IsWritable-merged_columns t label col total 0 t.buffers plain in
    record {
      columns = same ∙ ap₂ (λ xs ys. xs ++ ys) (sym times) (sym data_cols);
      entries = data_cols ∙ specs;
      distinct =
          subst (λ ts. IsDistinct (map (λ c. c.name) ts)) (sym times)
            ((refl, (refl, tt)), ((refl, tt), (tt, tt)));
      arrays = subst (All IsWritable) (sym same) (IsWritable-from_data_columns cs arrays);
      parsed = IsParsed-merged t label col total cq lq 0 t.buffers plain;
      apart = AreApart-merged t label col total 0 t.buffers distinct plain;
      others = subst (λ ts. All (IsOther ts) es) (sym times) (IsOther-merged t total 0 t.buffers);
    }
