-- ===== src/Writer/Locations.antt =====
-- The data sets that `build_file_structure` makes, as places of the columns.
use bsas_sc.Common.{
  ◌≡◌, ◌≢◌, refl, sym, ◌∙◌, ap, some, List, [], ◌∷◌, ◌++◌, map, All, All-map, All-map₂, All-image,
  Pairwise, Pairwise-append, Pairwise-image, Text, text_eq_refl,
}
use bsas_sc.Pvxs.{IsFresh, IsDistinct}
use bsas_sc.Table.{ColumnSpec, TimeTable}
use bsas_sc.Writer.Files.{ObjectPath}
use bsas_sc.Writer.{find_dataset}
use bsas_sc.Writer.Structure.{Entry, in_root, entry_path, IsParsed, AreApart, IsWritable}
use bsas_sc.Writer.Structure.Objects.{ne_of_text_eq, text_eq_of_ne}
use bsas_sc.Writer.Structure.Columns.{longer, other_group, other_entry, other_name}
use bsas_sc.Writer.Structure.Loops.{entry_place, time_place}
use bsas_sc.Writer.Structure.Build.{IsOther, all_places}

-- A column and the path of its data set.
abbrev pub Location : Type 0
Location = ColumnSpec × ObjectPath

abbrev pub name_path : Location → Text × ObjectPath
name_path q = (q.0.name, q.1)

abbrev pub time_location : Text → ColumnSpec → Location
time_location root c = (c, in_root root c.name)

abbrev pub entry_location : Text → Entry → Location
entry_location root e = (e.spec, entry_path root e)

abbrev pub locations : Text → List ColumnSpec → List Entry → List Location
locations root cs es = map (time_location root) cs ++ map (entry_location root) es

-- A type whose columns the writer can place: arrays, not of strings, that are taken apart into PVs and names, with no clash.
pub record IsStorable (label_sep col_sep : Text) (type : TimeTable) (es : List Entry) : Type 0 where
  pub columns : type.columns ≡ type.time_columns ++ type.data_columns
  pub entries : type.data_columns ≡ map (λ e. e.spec) es
  pub distinct : IsDistinct (map (λ c. c.name) type.time_columns)
  pub arrays : All IsWritable type.columns
  pub parsed : All (IsParsed label_sep col_sep) es
  pub apart : Pairwise AreApart es
  pub others : All (IsOther type.time_columns) es

-- Two columns differ in their names and their paths.
abbrev pub Differ : Location → Location → Type 0
Differ q r = (q.0.name ≢ r.0.name) × (q.1 ≢ r.1)

pub name_path-locations :
    (root : Text) (cs : List ColumnSpec) (es : List Entry)
    → map name_path (locations root cs es) ≡ all_places root cs es
name_path-locations root [] [] = refl
name_path-locations root [] (e ∷ es) =
    ap (λ xs. entry_place root e ∷ xs) (name_path-locations root [] es)
name_path-locations root (c ∷ cs) es =
    ap (λ xs. time_place root c ∷ xs) (name_path-locations root cs es)

pub columns-locations :
    (root : Text) (cs : List ColumnSpec) (es : List Entry)
    → map (λ q. q.0) (locations root cs es) ≡ cs ++ map (λ e. e.spec) es
columns-locations root [] [] = refl
columns-locations root [] (e ∷ es) = ap (λ xs. e.spec ∷ xs) (columns-locations root [] es)
columns-locations root (c ∷ cs) es = ap (λ xs. c ∷ xs) (columns-locations root cs es)

find_dataset_here :
    (n : Text) (d : ObjectPath) (ds : List (Text × ObjectPath))
    → find_dataset n ((n, d) ∷ ds) ≡ some d
unfolding find_dataset
find_dataset_here n d ds = rw (text_eq_refl n) refl

find_dataset_later :
    (n m : Text) (d : ObjectPath) (ds : List (Text × ObjectPath))
    → n ≢ m
    → find_dataset n ((m, d) ∷ ds) ≡ find_dataset n ds
unfolding find_dataset
find_dataset_later n m d ds h = rw (text_eq_of_ne n m h) refl

-- Each column is found where it was put.
pub find_dataset-Differ :
    (qs : List Location)
    → Pairwise Differ qs
    → All (λ q. find_dataset q.0.name (map name_path qs) ≡ some q.1) qs
find_dataset-Differ [] h = tt
find_dataset-Differ (q ∷ qs) h = (
  find_dataset_here q.0.name q.1 (map name_path qs),
  All-map₂ (Differ q) (λ r. find_dataset r.0.name (map name_path qs) ≡ some r.1) _ qs
      (λ r d k. find_dataset_later r.0.name q.0.name q.1 (map name_path qs) (λ e. d.0 (sym e)) ∙ k)
      h.0 (find_dataset-Differ qs h.1),
)

Differ-times :
    (root : Text) (cs : List ColumnSpec)
    → IsDistinct (map (λ c. c.name) cs)
    → Pairwise (λ a b. Differ (time_location root a) (time_location root b)) cs
Differ-times root [] h = tt
Differ-times root (c ∷ cs) h = (each cs h.0, Differ-times root cs h.1)
  where
    each :
        (rs : List ColumnSpec)
        → IsFresh c.name (map (λ x. x.name) rs)
        → All (λ r. Differ (time_location root c) (time_location root r)) rs
    each [] k = tt
    each (r ∷ rs) k =
        let other = ne_of_text_eq c.name r.name k.0 in
        ((other, other_group root c.name r.name other), each rs k.1)

Differ-entries :
    (root label_sep col_sep : Text) (es : List Entry)
    → All (IsParsed label_sep col_sep) es
    → Pairwise AreApart es
    → Pairwise (λ a b. Differ (entry_location root a) (entry_location root b)) es
Differ-entries root label_sep col_sep [] h k = tt
Differ-entries root label_sep col_sep (e ∷ es) h k = (
  All-map₂ (IsParsed label_sep col_sep) (AreApart e) _ es
      (λ r parsed apart. (
        (λ q. other_name label_sep col_sep e r h.0 parsed apart (sym q)),
        (λ q. other_entry root e r apart (sym q)),
      ))
      h.1 k.0,
  Differ-entries root label_sep col_sep es h.1 k.1,
)

-- A time column against the data columns.
Differ-other :
    (root : Text) (c : ColumnSpec) (es : List Entry)
    → All (λ e. e.spec.name ≢ c.name) es
    → All (λ e. Differ (time_location root c) (entry_location root e)) es
Differ-other root c es h =
    All-map _ _ es (λ e k. ((λ q. k (sym q)), (λ q. longer root c.name e (sym q)))) h

IsOther_column :
    (c : ColumnSpec) (cs : List ColumnSpec) (es : List Entry)
    → All (IsOther (c ∷ cs)) es
    → All (λ e. e.spec.name ≢ c.name) es × All (IsOther cs) es
IsOther_column c cs es h = (All-map _ _ es (λ e k. k.0.1) h, All-map _ _ es (λ e k. k.1) h)

Differ-others :
    (root : Text) (cs : List ColumnSpec) (es : List Entry)
    → All (IsOther cs) es
    → All (λ c. All (λ e. Differ (time_location root c) (entry_location root e)) es) cs
Differ-others root [] es h = tt
Differ-others root (c ∷ cs) es h =
    let (here, later) = IsOther_column c cs es h in
    (Differ-other root c es here, Differ-others root cs es later)

pub Pairwise-locations :
    (root label_sep col_sep : Text) (type : TimeTable) (es : List Entry)
    → IsStorable label_sep col_sep type es
    → Pairwise Differ (locations root type.time_columns es)
Pairwise-locations root label_sep col_sep type es s =
    Pairwise-append Differ (map (time_location root) type.time_columns) _
      (Pairwise-image (time_location root) Differ type.time_columns
        (Differ-times root type.time_columns s.distinct))
      (Pairwise-image (entry_location root) Differ es
        (Differ-entries root label_sep col_sep es s.parsed s.apart))
      (All-image (time_location root) _ type.time_columns (
        All-map _ _ type.time_columns
          (λ c k. All-image (entry_location root) (Differ (time_location root c)) es k)
          (Differ-others root type.time_columns es s.others)))
