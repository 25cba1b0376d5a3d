-- ===== src/Writer/Tables.antt =====
-- The whole way of a merged table into a file: the values of a `TimeAlignedTable`, given to a new writer.
use bsas_sc.Common.{
  ℕ, subst, All-split, ◌≡◌, refl, List, [], ◌∷◌, map, length, All, All-map, All-preimage, Text, ok,
}
use bsas_sc.Pvxs.{Pvxs, IsDistinct}
use bsas_sc.Table.{TimeTable, time_table_of_columns}
use bsas_sc.Table.Read.{time_table_of_value-is_valid}
use bsas_sc.Align.{TimeAligned, merged_columns}
use bsas_sc.Writer.Files.{Hdf5}
use bsas_sc.Writer.{Writer, new_writer}
use bsas_sc.Writer.Append.{write_all}
use bsas_sc.Writer.Structure.{in_root, entry_path}
use bsas_sc.Writer.Structure.Opened.{IsNewFile}
use bsas_sc.Writer.Locations.{time_location, entry_location}
use bsas_sc.Writer.Stored.{IsAcceptable, column_of, write_all-stores}
use bsas_sc.Writer.Merged.{IsPlainTable, merged_entries, time_specs, IsWritable-merged_columns}
use bsas_sc.Writer.Storable.{IsStorable-merged, time_columns-merged}

module _ (p : Pvxs) (h : Hdf5 p.Elem) where
  open p use {Value}
  open h use {File}
  open h.objects use {contents}

  -- The values of a merged table are given to a new writer on a new file. Every call of `write` returns, and
  -- in the end `/data/<root>/<column>`, for each time column, and `/data/<root>/<prefix>/<column>`, for
  -- each column of each input table and its `valid`, hold that column of all values, one after the other.
  -- It is supposed that the merger's type describes the values and each has rows, that the PVs have
  -- distinct names, that the columns of a table are arrays, not of strings, with distinct names other than
  -- `valid`, and that the separators are single characters, the one for columns in none of these names, the
  -- one for labels in none of the labels of the columns.
  pub write_all-merged :
      (t : TimeAligned Value) (label col : ℕ) (type : TimeTable) (input_pv path root : Text)
      (file : File) (value : Value) (vs : List Value)
      → t.label_sep ≡ label ∷ []
      → t.col_sep ≡ col ∷ []
      → IsDistinct (map (λ x. x.0) t.buffers)
      → All (λ x. IsPlainTable label col x.1) t.buffers
      → time_table_of_columns (merged_columns t 0 (length t.buffers) t.buffers) ≡ ok type
      → IsNewFile p h file
      → All (IsAcceptable p h type) (value ∷ vs)
      → (w : Writer p h) × (write_all p h
            (new_writer p h input_pv path file root t.label_sep t.col_sep)
            (value ∷ vs)
          ≡ ok w)
        × All (λ c. contents w.file (in_root root c.name) ≡ column_of p h (value ∷ vs) c) time_specs
        × All
            (λ e. contents w.file (entry_path root e) ≡ column_of p h (value ∷ vs) e.spec)
            (merged_entries t (length t.buffers) 0 t.buffers)
  unfolding new_writer
  write_all-merged t label col type input_pv path root file value vs lq cq distinct plain made new
        ok_all =
      let es = merged_entries t (length t.buffers) 0 t.buffers in
      let s = IsStorable-merged t label col type lq cq distinct plain made in
      let cs = merged_columns t 0 (length t.buffers) t.buffers in
      let arrays = IsWritable-merged_columns t label col (length t.buffers) 0 t.buffers plain in
      let read =
        time_table_of_value-is_valid p cs type value made
          (All-map _ _ cs (λ c k. (k.0, k.1)) arrays) ok_all.0.0 in
      let (times, _, _) = time_columns-merged cs type made in
      let (w, ran, cols, stored) =
        write_all-stores p h (new_writer p h input_pv path file root t.label_sep t.col_sep) type es
          value vs refl refl new read ok_all.0.0 ok_all.1 s in
      let (first, rest) =
        All-split _ (map (time_location root) type.time_columns) (map (entry_location root) es)
          stored in
      (
        w,
        ran,
        subst (All _) times (All-preimage (time_location root) _ type.time_columns first),
        All-preimage (entry_location root) _ es rest,
      )
