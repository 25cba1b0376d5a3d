-- ===== src/Writer/Stored.antt =====
-- A new writer that is given values, one after the other: what the data sets of its file hold in the end.
use bsas_sc.Common.{
  ◌<◌, true, ◌≡◌, refl, sym, ◌∙◌, ap, subst, none, some, List, [], ◌∷◌, ◌++◌, append-nil,
  append_assoc, map, All, All-map, All-map₂, All-each, All-preimage, All-split, Pairwise, ok,
}
use bsas_sc.Pvxs.{Pvxs}
use bsas_sc.Table.{ColumnSpec, TimeTable, time_table_of_value, is_valid, wrap}
use bsas_sc.Table.Valid.{is_valid_iff}
use bsas_sc.Writer.Files.{Hdf5}
use bsas_sc.Writer.{
  Writer, find_dataset, pvxs_to_h5_type, write, write_typed, write_rows, write_columns, first_chunk,
}
use bsas_sc.Writer.Append.{
  elems_of, IsLocated, IsApart, write_all, row_count, write_columns-Written, write-appends,
}
use bsas_sc.Writer.Structure.{Entry, HasType, IsWritable}
use bsas_sc.Writer.Structure.Opened.{IsNewFile}
use bsas_sc.Writer.Structure.Build.{all_places, build_file_structure-AreEmpty}
use bsas_sc.Writer.Locations.{
  Location, name_path, locations, IsStorable, Differ, name_path-locations, columns-locations,
  find_dataset-Differ, Pairwise-locations,
}

pub HasType-array : (c : ColumnSpec) → IsWritable c → HasType c
unfolding pvxs_to_h5_type
HasType-array c (s, e, no_string) = (s, ap pvxs_to_h5_type e)

module _ (p : Pvxs) (h : Hdf5 p.Elem) where
  open p use {Elem, Value}
  open h use {File}
  open h.objects use {contents}

  -- A column of several values.
  abbrev pub column_of : List Value → ColumnSpec → List Elem
  column_of [] c = []
  column_of (v ∷ vs) c = elems_of p h v c ++ column_of vs c

  -- The type describes the value, and the value has rows.
  abbrev pub IsAcceptable : TimeTable → Value → Type 0
  IsAcceptable type v = (is_valid p type v ≡ ok true) × (0 < row_count p h v)

  -- The locations of a type of the writer.
  abbrev pub writer_locations : Writer p h → TimeTable → List Entry → List Location
  writer_locations w type es = locations w.root_group type.time_columns es

  -- All that the later calls of `write` need to know of the writer.
  pub record IsSetUp (w : Writer p h) (type : TimeTable) (qs : List Location) : Type 0 where
    pub typed : w.type_ ≡ some type
    pub columns : map (λ q. q.0) qs ≡ type.columns
    pub located : All (IsLocated p h w.datasets) qs
    pub apart : IsApart p h qs

  -- The places of the columns, once they are the entries of `datasets_`.
  IsLocated-locations :
      (w : Writer p h) (type : TimeTable) (es : List Entry)
      → IsStorable w.label_sep w.col_sep type es
      → All
          (IsLocated p h (all_places w.root_group type.time_columns es))
          (writer_locations w type es)
  IsLocated-locations w type es s =
      let qs = writer_locations w type es in
      let found =
        subst (λ ds. All (λ q. find_dataset q.0.name ds ≡ some q.1) qs)
          (name_path-locations w.root_group type.time_columns es)
          (find_dataset-Differ qs
            (Pairwise-locations w.root_group w.label_sep w.col_sep type es s)) in
      let cols =
        columns-locations w.root_group type.time_columns es
        ∙ ap (λ ds. type.time_columns ++ ds) (sym s.entries)
        ∙ sym s.columns in
      let arrays =
        All-preimage (λ q. q.0) IsWritable qs (subst (All IsWritable) (sym cols) s.arrays) in
      All-map₂ _ _ _ qs (λ q a f. (a, f)) arrays found

  IsApart-Differ : (qs : List Location) → Pairwise Differ qs → IsApart p h qs
  IsApart-Differ [] k = tt
  IsApart-Differ (q ∷ qs) k =
      (All-map _ _ qs (λ r d. (d.1, (λ e. d.1 (sym e)))) k.0, IsApart-Differ qs k.1)

  -- The first value makes the file: `write` returns, and each column has its data set with its elements.
  write-creates :
      (w : Writer p h) (type : TimeTable) (es : List Entry) (value : Value)
      → w.type_ ≡ none
      → w.datasets ≡ []
      → IsNewFile p h w.file
      → time_table_of_value p value ≡ ok type
      → is_valid p type value ≡ ok true
      → IsStorable w.label_sep w.col_sep type es
      → (w' : Writer p h) × (write p h w value ≡ ok w')
        × IsSetUp w' type (writer_locations w type es)
        × All (λ q. contents w'.file q.1 ≡ elems_of p h value q.0) (writer_locations w type es)
  unfolding write write_typed write_rows wrap
  write-creates w type es value untyped no_sets new read valid s =
      let qs = writer_locations w type es in
      let w1 : Writer p h = record w { type_ = some type } in
      let typed =
        All-map _ _ type.time_columns HasType-array
          (All-split _ type.time_columns type.data_columns (subst (All _) s.columns s.arrays)).0 in
      let (f, built, empty) =
        build_file_structure-AreEmpty p h w1 type es (first_chunk p h) no_sets new s.entries
          s.distinct typed s.parsed s.apart s.others in
      let places = all_places w.root_group type.time_columns es in
      let located = IsLocated-locations w type es s in
      let apart =
        IsApart-Differ qs (Pairwise-locations w.root_group w.label_sep w.col_sep type es s) in
      let cols =
        columns-locations w.root_group type.time_columns es
        ∙ ap (λ ds. type.time_columns ++ ds) (sym s.entries)
        ∙ sym s.columns in
      let run = write_columns-Written p h places value qs f located apart in
      let returns = ap (λ cs. write_columns p h places value cs f) (sym cols) ∙ run.returns in
      let usable = ((is_valid_iff p type value).0 valid).usable in
      let were_empty =
        All-preimage name_path (λ x. contents f x.1 ≡ []) qs
          (subst (All (λ x. contents f x.1 ≡ []))
            (sym (name_path-locations w.root_group type.time_columns es))
            (All-map _ _ places (λ x k. k.1) empty)) in
      (
        record w { type_ = some type; datasets = places; file = h.flush run.after },
        simp (usable, untyped, read, built, valid, returns),
        record { typed = refl; columns = cols; located = located; apart = apart },
        All-map₂ _ _ _ qs
            (λ q a e.
              h.contents-flush run.after q.1 ∙ a ∙ ap (λ xs. xs ++ elems_of p h value q.0) e)
            run.appended were_empty,
      )

  -- Later values are appended.
  write_all-appends :
      (w : Writer p h) (type : TimeTable) (qs : List Location) (vs : List Value)
      → IsSetUp w type qs
      → All (IsAcceptable type) vs
      → (w' : Writer p h) × (write_all p h w vs ≡ ok w')
        × All (λ q. contents w'.file q.1 ≡ contents w.file q.1 ++ column_of vs q.0) qs
  write_all-appends w type qs [] s k =
      (w, refl, All-each _ qs (λ q. sym (append-nil (contents w.file q.1))))
  write_all-appends w type qs (v ∷ vs) s k =
      let (w1, wrote, typed, same, appended) =
        write-appends p h w type v qs s.typed k.0.0 k.0.1 s.columns s.located s.apart in
      let s1 : IsSetUp w1 type qs = record {
        typed = typed;
        columns = s.columns;
        located = subst (λ ds. All (IsLocated p h ds) qs) (sym same) s.located;
        apart = s.apart;
      } in
      let (w2, ran, later) = write_all-appends w1 type qs vs s1 k.1 in
      (
        w2,
        rw wrote ran,
        All-map₂ _ _ _ qs
            (λ q a b.
              b
              ∙ ap (λ xs. xs ++ column_of vs q.0) a
              ∙ append_assoc (contents w.file q.1) (elems_of p h v q.0) (column_of vs q.0))
            appended later,
      )

  -- A new writer on a new file is given values with rows that the type of the first one describes. Every
  -- call of `write` returns, and in the end the data set of each column holds that column of all values,
  -- one after the other. It is supposed that the writer can take the labels and the names of the data
  -- columns apart, that they do not clash, and that all columns are arrays.
  pub write_all-stores :
      (w : Writer p h) (type : TimeTable) (es : List Entry) (value : Value) (vs : List Value)
      → w.type_ ≡ none
      → w.datasets ≡ []
      → IsNewFile p h w.file
      → time_table_of_value p value ≡ ok type
      → is_valid p type value ≡ ok true
      → All (IsAcceptable type) vs
      → IsStorable w.label_sep w.col_sep type es
      → (w' : Writer p h) × (write_all p h w (value ∷ vs) ≡ ok w')
        × (map (λ q. q.0) (writer_locations w type es) ≡ type.columns)
        × All (λ q. contents w'.file q.1 ≡ column_of (value ∷ vs) q.0) (writer_locations w type es)
  write_all-stores w type es value vs untyped no_sets new read valid k s =
      let qs = writer_locations w type es in
      let (w1, wrote, ready, first) =
        write-creates w type es value untyped no_sets new read valid s in
      let (w2, ran, later) = write_all-appends w1 type qs vs ready k in
      (
        w2,
        rw wrote ran,
        ready.columns,
        All-map₂ _ _ _ qs (λ q a b. b ∙ ap (λ xs. xs ++ column_of vs q.0) a) first later,
      )
