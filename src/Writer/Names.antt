-- ===== src/Writer/Names.antt =====
-- writerApp/src/writer.h and writer.cpp: the names that the writer gives to objects of the file, and how it takes
-- labels and column names apart.
use bsas_sc.Common.{
  ℕ, suc, ◌+◌, Bool, true, false, not, ◌&&◌, ltb, ◌==◌, if◌then◌else◌, Option, none, some, List, [],
  ◌∷◌, ◌++◌, length, take, drop, Text, codes, text_eq, Result, ok, err, runtime_error, out_of_range,
  bad_type, ◌>>=◌, or_fail,
}
use bsas_sc.Pvxs.{ScalarType, TypeCode, scalar, array, other}
use bsas_sc.Writer.Files.{ObjectPath}

-- The constants.
abbrev pub meta_group : Text
meta_group = codes "meta"

abbrev pub meta_pvnames : Text
meta_pvnames = codes "pvnames"

abbrev pub meta_column_prefixes : Text
meta_column_prefixes = codes "column_prefixes"

abbrev pub meta_labels : Text
meta_labels = codes "labels"

abbrev pub meta_columns : Text
meta_columns = codes "columns"

abbrev pub meta_types : Text
meta_types = codes "pvxs_types"

abbrev pub attr_input_pv : Text
attr_input_pv = codes "Input PV"

abbrev pub attr_signal : Text
attr_signal = codes "Signal"

abbrev pub attr_label : Text
attr_label = codes "NTTable label"

abbrev pub attr_column : Text
attr_column = codes "NTTable column"

abbrev pub data_group : Text
data_group = codes "data"

-- The element type of a data set; the scalars and the arrays have the same.
unfoldable pub pvxs_to_h5_type : TypeCode → Result ScalarType
pvxs_to_h5_type (scalar s) = ok s
pvxs_to_h5_type (array s) = ok s
pvxs_to_h5_type (other n) = err bad_type

-- Elements that are objects of C++.
abbrev pub is_string : ScalarType → Bool
is_string ScalarType.string = true
is_string s = false

-- Whether the text begins with the other.
unfoldable pub begins_with : Text → Text → Bool
begins_with xs [] = true
begins_with [] (y ∷ ys) = false
begins_with (x ∷ xs) (y ∷ ys) = x == y && begins_with xs ys

-- `name.rfind(sep)`
unfoldable pub rfind : Text → Text → Option ℕ
rfind [] sep = if begins_with [] sep then some 0 else none
rfind (c ∷ cs) sep =
    let here = if begins_with (c ∷ cs) sep then some 0 else none in
    elim (rfind cs sep) [ some i ↦ some (suc i) | none ↦ here ]

-- `name.substr(i)`
abbrev pub substr_from : Text → ℕ → Result Text
substr_from name i = if ltb (length name) i then err out_of_range else ok (drop i name)

-- What `parts` gives back: nothing if it returns false, else what it stores where it is asked to.
abbrev pub FoundParts : Type 0
FoundParts = Option (Option Text × Option Text)

unfoldable pub parts_at : Text → Bool → Bool → ℕ → Result FoundParts
parts_at name prefix suffix i =
    let front = if prefix then some (take i name) else none in
    if suffix
    then substr_from name (i + 1) >>= (λ rest. ok (some (front, some rest)))
    else ok (some (front, none))

-- `parts`; the flags say which of the two pointers are not null.
unfoldable pub parts : Text → Text → Bool → Bool → Result FoundParts
parts name sep prefix suffix =
    if not prefix && not suffix
    then ok (some (none, none))
    else elim (rfind name sep) [ none ↦ ok none | some i ↦ parts_at name prefix suffix i ]

-- The two calls of `parts`.
unfoldable pub label_parts : Text → Text → Result Text
label_parts label label_sep = parts label label_sep true false >>= λ r. elim r [
  | none ↦ err runtime_error
  | some (prefix, suffix) ↦ or_fail prefix runtime_error
]

unfoldable pub column_parts : Text → Text → Result (Text × Text)
column_parts name col_sep = parts name col_sep true true >>= λ r. elim r [
  | none ↦ err runtime_error
  | some (prefix, suffix) ↦
      or_fail prefix runtime_error >>= (λ a. or_fail suffix runtime_error >>= λ b. ok (a, b))
]

-- `pvnames_set.find(pvname) != pvnames_set.end()`; the set has the elements of the list.
abbrev pub contains : Text → List Text → Bool
contains n [] = false
contains n (m ∷ ms) = if text_eq n m then true else contains n ms

-- `datasets_.find(name)` and `datasets_.emplace(name, ds)`, which keeps what is there.
unfoldable pub find_dataset : Text → List (Text × ObjectPath) → Option ObjectPath
find_dataset n [] = none
find_dataset n ((m, d) ∷ ds) = if text_eq n m then some d else find_dataset n ds

unfoldable pub emplace : Text → ObjectPath → List (Text × ObjectPath) → List (Text × ObjectPath)
emplace n d ds = elim (find_dataset n ds) [ none ↦ ds ++ (n, d) ∷ [] | some x ↦ ds ]
