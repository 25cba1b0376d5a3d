-- ===== src/Writer/Structure.antt =====
-- What `build_file_structure` makes of a new file: the columns of the type, and where each is put.
pub mod Objects
pub mod Columns
pub mod Loops
pub mod Opened
pub mod Build
use bsas_sc.Common.{false, ℕ, ◌≡◌, ◌≢◌, ok, List, [], ◌∷◌, ◌++◌, All, Text}
use bsas_sc.Pvxs.{ScalarType, array}
use bsas_sc.Table.{ColumnSpec}
use bsas_sc.Writer.Files.{ObjectPath}
use bsas_sc.Writer.{data_group, pvxs_to_h5_type, is_string, label_parts, column_parts}

-- A data column, and what the writer reads in its label and its name.
pub record Entry : Type 0 where
  pub spec : ColumnSpec
  pub pvname : Text
  pub prefix : Text
  pub suffix : Text

abbrev pub in_root : Text → Text → ObjectPath
in_root root n = data_group ∷ root ∷ n ∷ []

abbrev pub entry_path : Text → Entry → ObjectPath
entry_path root e = data_group ∷ root ∷ e.prefix ∷ e.suffix ∷ []

-- The column has an element type that the file knows.
abbrev pub HasType : ColumnSpec → Type 0
HasType c = (s : ScalarType) × (pvxs_to_h5_type c.type_code ≡ ok s)

-- The column holds arrays that can be written, which arrays of strings cannot.
abbrev pub IsWritable : ColumnSpec → Type 0
IsWritable c = (s : ScalarType) × (c.type_code ≡ array s) × (is_string s ≡ false)

pub record IsParsed (label_sep col_sep : Text) (e : Entry) : Type 0 where
  pub typed : HasType e.spec
  pub label : label_parts e.spec.label label_sep ≡ ok e.pvname
  pub column : column_parts e.spec.name col_sep ≡ ok (e.prefix, e.suffix)

-- The columns of one PV have one prefix, those of different PVs different ones, and no two columns of a
-- prefix have one suffix.
pub record AreApart (e r : Entry) : Type 0 where
  pub same_pv : e.pvname ≡ r.pvname → e.prefix ≡ r.prefix
  pub same_prefix : e.prefix ≡ r.prefix → e.pvname ≡ r.pvname
  pub suffixes : e.prefix ≡ r.prefix → e.suffix ≢ r.suffix
