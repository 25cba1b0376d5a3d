-- ===== src/Writer/Structure/Build.antt =====
-- `build_file_structure` on a new file.
use bsas_sc.Common.{
  ℕ, true, ◌≡◌, ◌≢◌, refl, sym, ◌∙◌, ap, subst, inr, none, List, [], ◌∷◌, ◌++◌, append-nil,
  append_assoc, map, length, All, All-map, Pairwise, All-each, All-append, Text, ok, arith,
}
use bsas_sc.Pvxs.{Pvxs, IsDistinct}
use bsas_sc.Table.{ColumnSpec, TimeTable}
use bsas_sc.Writer.Files.{Hdf5, ObjectPath}
use bsas_sc.Writer.{
  add_data_columns, Writer, meta_group, attr_input_pv, root_path, build_file_structure,
  find_dataset,
}
use bsas_sc.Writer.Structure.{Entry, in_root, entry_path, HasType, IsParsed, AreApart}
use bsas_sc.Writer.Structure.Objects.{find_dataset-snoc_none, Grows-trans}
use bsas_sc.Writer.Structure.Columns.{longer, other_group, IsReady}
use bsas_sc.Writer.Structure.Loops.{
  entry_place, time_place, AreEmpty, AreEmpty-Grows, IsReadyTime, add_data_columns-Keeps,
  add_time_columns-Keeps,
}
use bsas_sc.Writer.Structure.Opened.{
  IsNewFile, IsNewFile-attribute, IsOpened, open_groups, fill_meta-Grows,
}

-- A time column has neither the name nor the prefix of a data column.
abbrev pub IsOther : List ColumnSpec → Entry → Type 0
IsOther cs e = All (λ c. (e.prefix ≢ c.name) × (e.spec.name ≢ c.name)) cs

-- The places of all columns.
abbrev pub all_places : Text → List ColumnSpec → List Entry → List (Text × ObjectPath)
all_places root cs es = map (time_place root) cs ++ map (entry_place root) es

find_dataset-nil : (n : Text) → find_dataset n [] ≡ none
unfolding find_dataset
find_dataset-nil n = refl

find_dataset-time :
    (root n : Text) (cs : List ColumnSpec) (datasets : List (Text × ObjectPath))
    → find_dataset n datasets ≡ none
    → All (λ c. n ≢ c.name) cs
    → find_dataset n (datasets ++ map (time_place root) cs) ≡ none
find_dataset-time root n [] datasets h k =
    subst (λ ds. find_dataset n ds ≡ none) (sym (append-nil datasets)) h
find_dataset-time root n (c ∷ cs) datasets h k =
    subst (λ ds. find_dataset n ds ≡ none)
      (append_assoc datasets (time_place root c ∷ []) (map (time_place root) cs))
      (find_dataset-time root n cs (datasets ++ time_place root c ∷ [])
        (find_dataset-snoc_none n c.name (in_root root c.name) datasets h k.0) k.1)

module _ (p : Pvxs) (h : Hdf5 p.Elem) where
  open h use {File, objects, create_group, create_attribute, create_attribute_lem, group_exists}
  open h.objects use {is_free, is_group, contents}

  -- The data columns are ready once the time columns are there.
  IsReady-opened :
      (root : Text) (f f' : File) (datasets : List (Text × ObjectPath)) (cs : List ColumnSpec)
      (es : List Entry)
      → IsOpened p h root f
      → ((x : ObjectPath) → All (λ c. x ≢ in_root root c.name) cs → is_free f' x ≡ is_free f x)
      → ((n : Text) → find_dataset n datasets ≡ none)
      → All (IsOther cs) es
      → All (IsReady p h root f' (datasets ++ map (time_place root) cs) []) es
  IsReady-opened root f f' datasets cs [] opened others absent k = tt
  IsReady-opened root f f' datasets cs (e ∷ es) opened others absent k = (
    record {
      group = inr (
        refl,
        others (in_root root e.prefix)
              (All-map _ _ cs (λ c q. other_group root e.prefix c.name q.0) k.0)
            ∙ opened.below (in_root root e.prefix) (omega arith),
      );
      free =
          others (entry_path root e) (All-each _ cs (λ c. longer root c.name e))
          ∙ opened.below (entry_path root e) (omega arith);
      absent =
          find_dataset-time root e.spec.name cs datasets (absent e.spec.name)
            (All-map _ _ cs (λ c q. q.1) k.0);
    },
    IsReady-opened root f f' datasets cs es opened others absent k.1,
  )

  IsReadyTime-opened :
      (root : Text) (f : File) (datasets : List (Text × ObjectPath)) (cs : List ColumnSpec)
      → IsOpened p h root f
      → ((n : Text) → find_dataset n datasets ≡ none)
      → All HasType cs
      → All (IsReadyTime p h root f datasets) cs
  IsReadyTime-opened root f datasets cs opened absent typed =
      All-map _ _ cs (λ c q. (q, opened.below (in_root root c.name) (omega arith), absent c.name))
        typed

  pub build_file_structure-AreEmpty :
      (w : Writer p h) (type : TimeTable) (es : List Entry) (chunk_size : ℕ)
      → w.datasets ≡ []
      → IsNewFile p h w.file
      → type.data_columns ≡ map (λ e. e.spec) es
      → IsDistinct (map (λ c. c.name) type.time_columns)
      → All HasType type.time_columns
      → All (IsParsed w.label_sep w.col_sep) es
      → Pairwise AreApart es
      → All (IsOther type.time_columns) es
      → (f : File) × (build_file_structure p h w type chunk_size
          ≡ ok (record w { file = f; datasets = all_places w.root_group type.time_columns es }))
        × AreEmpty p h f (all_places w.root_group type.time_columns es)
  unfolding build_file_structure
  build_file_structure-AreEmpty w type es chunk_size none_yet new columns distinct typed parsed
        apart other =
      let f0 = create_attribute w.file [] attr_input_pv w.input_pv in
      let absent : (n : Text) → find_dataset n w.datasets ≡ none =
        λ n. ap (find_dataset n) none_yet ∙ find_dataset-nil n in
      let (f1, f2, f3, made1, made2, made3, opened) =
        open_groups p h f0 w.root_group
          (IsNewFile-attribute p h w.file attr_input_pv w.input_pv new) in
      let w3 : Writer p h = record w { file = f3 } in
      let (f4, made4, grows4, empty4, others4) =
        add_time_columns-Keeps p h w3 type.time_columns chunk_size opened.root_there distinct
          (IsReadyTime-opened w.root_group f3 w.datasets type.time_columns opened absent typed) in
      let w4 : Writer p h = record w {
        file = f4;
        datasets = w.datasets ++ map (time_place w.root_group) type.time_columns;
      } in
      let root4 =
        (grows4 (root_path p h w) (group_exists f3 _ opened.root_there)).1 ∙ opened.root_there in
      let (f5, seen, made5, grows5, empty5, meta5) =
        add_data_columns-Keeps p h w4 (record { pvnames = []; column_prefixes = [] }) es chunk_size
          root4 parsed apart
          (IsReady-opened w.root_group f3 f4 w.datasets type.time_columns es opened others4 absent
            other) in
      let listed =
        ap
          (λ cs.
            add_data_columns p h w4 (record { pvnames = []; column_prefixes = [] }) cs chunk_size)
          columns
        ∙ made5 in
      let meta_free : (n : Text) → is_free f5 (meta_group ∷ n ∷ []) ≡ true = λ n.
        meta5 n
        ∙ others4 (meta_group ∷ n ∷ [])
            (All-each _ type.time_columns (λ c q. omega (arith, ap length q)))
        ∙ opened.meta_below n in
      let meta4 =
        (grows4 (meta_group ∷ []) (group_exists f3 _ opened.meta_there)).1 ∙ opened.meta_there in
      let meta_there = (grows5 (meta_group ∷ []) (group_exists f4 _ meta4)).1 ∙ meta4 in
      let (f6, made6, grows6) = fill_meta-Grows p h f5 type seen (
        meta_there,
        (meta_free _, (meta_free _, (meta_free _, (meta_free _, (meta_free _, tt))))),
      ) in
      (
        f6,
        rw (made1, made2, made3, made4, listed, made6)
            (ap
              (λ ds. ok (record w {
                file = f6;
                datasets =
                    (ds ++ map (time_place w.root_group) type.time_columns)
                    ++ map (entry_place w.root_group) es;
              }))
              none_yet),
        All-append _ (map (time_place w.root_group) type.time_columns) _
            (AreEmpty-Grows p h f4 f6 _ (Grows-trans objects f4 f5 f6 grows5 grows6) empty4)
            (AreEmpty-Grows p h f5 f6 _ grows6 empty5),
      )
