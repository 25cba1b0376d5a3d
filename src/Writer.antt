-- ===== src/Writer.antt =====
-- writerApp/src/writer.h and writer.cpp: `Writer`, which appends table values to an HDF5 file. A call
-- returns the writer afterwards; what an exception leaves behind is not kept, as the program ends.
mod Names
pub mod Files
pub mod Parts
pub mod Append
pub mod Memory
pub mod Structure
pub mod Locations
pub mod Stored
pub mod Merged
pub mod Storable
pub mod Tables
pub use Names.*
unfoldable pub use Names.{
  pvxs_to_h5_type, begins_with, rfind, parts_at, parts, label_parts, column_parts, find_dataset,
  emplace,
}
use bsas_sc.Common.{
  ℕ, suc, ◌+◌, ◌-◌, Bool, true, false, not, ◌&&◌, ltb, ◌==◌, if◌then◌else◌, Option, none, some,
  List, [], ◌∷◌, ◌++◌, map, length, take, drop, Text, codes, text_eq, Result, ok, err, Error,
  logic_error, runtime_error, bad_access, out_of_range, bad_type, ◌>>=◌, ◌>>◌, guard, or_fail,
}
use bsas_sc.Pvxs.{Pvxs, ScalarType, TypeCode, scalar, array, other}
use bsas_sc.Table.{
  ColumnSpec, TimeTable, seconds_past_epoch_col, time_table_of_value, wrap, get_column_as_uint,
  get_column_as_void,
}
use bsas_sc.Writer.Files.{Hdf5, ObjectPath}

module _ (p : Pvxs) (h : Hdf5 p.Elem) where
  open p use {Elem, Value, valid}
  open h use {
    File, create_group, get_group, create_data_set, create_attribute, create_texts, create_codes,
  }

  -- `class Writer`
  pub record Writer : Type 0 where
    pub input_pv : Text
    pub type_ : Option TimeTable
    pub file_path : Text
    pub file : File
    pub root_group : Text
    pub label_sep : Text
    pub col_sep : Text
    pub datasets : List (Text × ObjectPath)

  -- The constructor, on the file that it has created.
  unfoldable pub new_writer : Text → Text → File → Text → Text → Text → Writer
  new_writer input_pv path file root_group label_sep col_sep = record {
    input_pv = input_pv;
    type_ = none;
    file_path = path;
    file = file;
    root_group = root_group;
    label_sep = label_sep;
    col_sep = col_sep;
    datasets = [];
  }

  -- `/data/<root_group>`
  abbrev pub root_path : Writer → ObjectPath
  root_path w = data_group ∷ w.root_group ∷ []

  -- A data set for a column, with its attributes and its entry in `datasets_`.
  unfoldable pub add_dataset : Writer → ColumnSpec → ObjectPath → ℕ → Result Writer
  add_dataset w c d chunk_size = do
    s ← pvxs_to_h5_type c.type_code
    f ← create_data_set w.file d s chunk_size
    ok (record w {
      file = create_attribute (create_attribute f d attr_label c.label) d attr_column c.name;
      datasets = emplace c.name d w.datasets;
    })

  -- The loop over the time columns.
  unfoldable pub add_time_columns : Writer → List ColumnSpec → ℕ → Result Writer
  add_time_columns w [] chunk_size = ok w
  add_time_columns w (c ∷ cs) chunk_size = do
    w' ← add_dataset w c (root_path w ++ c.name ∷ []) chunk_size
    add_time_columns w' cs chunk_size

  -- The names and prefixes seen so far, in order.
  pub record Seen : Type 0 where
    pub pvnames : List Text
    pub column_prefixes : List Text

  -- The group of a PV that is seen for the first time.
  unfoldable pub add_group : Writer → Seen → Text → Text → Result (Writer × Seen)
  add_group w seen pvname column_prefix =
      if contains pvname seen.pvnames
      then ok (w, seen)
      else create_group w.file (root_path w ++ column_prefix ∷ []) >>= λ f. ok (
        record w {
          file = create_attribute f (root_path w ++ column_prefix ∷ []) attr_signal pvname;
        },
        record {
          pvnames = seen.pvnames ++ pvname ∷ [];
          column_prefixes = seen.column_prefixes ++ column_prefix ∷ [];
        },
      )

  -- The loop over the data columns.
  unfoldable pub add_data_column : Writer → Seen → ColumnSpec → ℕ → Result (Writer × Seen)
  add_data_column w seen c chunk_size = do
    pvname ← label_parts c.label w.label_sep
    (column_prefix, column_suffix) ← column_parts c.name w.col_sep
    (w', seen') ← add_group w seen pvname column_prefix
    get_group w'.file (root_path w ++ column_prefix ∷ [])
    w'' ← add_dataset w' c (root_path w ++ column_prefix ∷ column_suffix ∷ []) chunk_size
    ok (w'', seen')

  unfoldable pub add_data_columns : Writer → Seen → List ColumnSpec → ℕ → Result (Writer × Seen)
  add_data_columns w seen [] chunk_size = ok (w, seen)
  add_data_columns w seen (c ∷ cs) chunk_size = do
    (w', seen') ← add_data_column w seen c chunk_size
    add_data_columns w' seen' cs chunk_size

  -- The data sets of the group `/meta`.
  unfoldable pub fill_meta : File → TimeTable → Seen → Result File
  fill_meta f type seen = do
    f₁ ← create_texts f (meta_group ∷ meta_pvnames ∷ []) seen.pvnames
    f₂ ← create_texts f₁ (meta_group ∷ meta_column_prefixes ∷ []) seen.column_prefixes
    f₃ ← create_texts f₂ (meta_group ∷ meta_columns ∷ []) (map (λ c. c.name) type.columns)
    f₄ ← create_texts f₃ (meta_group ∷ meta_labels ∷ []) (map (λ c. c.label) type.columns)
    create_codes f₄ (meta_group ∷ meta_types ∷ []) (map (λ c. c.type_code) type.columns)

  unfoldable pub build_file_structure : Writer → TimeTable → ℕ → Result Writer
  build_file_structure w type chunk_size = do
    let f = create_attribute w.file [] attr_input_pv w.input_pv
    f₁ ← create_group f (meta_group ∷ [])
    f₂ ← create_group f₁ (data_group ∷ [])
    f₃ ← create_group f₂ (root_path w)
    w₁ ← add_time_columns (record w { file = f₃ }) type.time_columns chunk_size
    (w₂, seen) ←
        add_data_columns w₁ (record { pvnames = []; column_prefixes = [] }) type.data_columns
          chunk_size
    f₄ ← fill_meta w₂.file type seen
    ok (record w₂ { file = f₄ })

  -- `write_dataset`
  unfoldable pub write_dataset : File → ObjectPath → List Elem → File
  write_dataset f d elems =
      let len = length elems in
      let dims = h.get_dimensions f d + len in h.write_raw (h.resize f d dims) d (dims - len) elems

  -- The loop of `write`. The type of each column was checked before, so `get_column_as` at that type
  -- converts nothing. For strings `write_raw` is given the `std::string` objects themselves, where the file
  -- has the memory layout of its own type: an access out of bounds.
  unfoldable pub write_columns :
      List (Text × ObjectPath) → Value → List ColumnSpec → File → Result File
  write_columns datasets v [] f = ok f
  write_columns datasets v (c ∷ cs) f = do
    d ← or_fail (find_dataset c.name datasets) logic_error
    elim c.type_code [
      | scalar s ↦ err runtime_error
      | array s ↦
          let elems = (get_column_as_void p v c.name).elems in
          let rest = write_columns datasets v cs (write_dataset f d elems) in
          if is_string s && not (length elems == 0) then err bad_access else rest
      | other n ↦ err runtime_error
    ]

  -- The end of `write`.
  unfoldable pub write_rows : Writer → TimeTable → Value → Result Writer
  write_rows w type value = do
    v ← wrap p type value true
    f ← write_columns w.datasets v type.columns w.file
    ok (record w { file = h.flush f })

  unfoldable pub first_chunk : ℕ
  first_chunk = 1024

  -- The first value brings the type; later ones are skipped if they have no rows.
  unfoldable pub write_typed : Writer → Value → Option TimeTable → Result Writer
  write_typed w value none = do
    type ← time_table_of_value p value
    w' ← build_file_structure (record w { type_ = some type }) type first_chunk
    write_rows w' type value
  write_typed w value (some type) =
      if length (get_column_as_uint p ScalarType.uint32 value seconds_past_epoch_col) == 0
      then ok w
      else write_rows w type value

  unfoldable pub write : Writer → Value → Result Writer
  write w value = if not (valid value) then ok w else write_typed w value w.type_

  unfoldable pub get_file_path : Writer → Text
  get_file_path w = w.file_path
