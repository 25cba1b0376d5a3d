-- ===== src/Writer/Structure/Loops.antt =====
-- The two loops of `build_file_structure` from beginning to end.
use bsas_sc.Common.{
  ℕ, true, false, ◌≡◌, ◌≢◌, refl, sym, ◌∙◌, ap, none, List, [], ◌∷◌, ◌++◌, append-nil, append_assoc,
  map, length, All, All-map, Pairwise, Text, ok, arith,
}
use bsas_sc.Pvxs.{Pvxs, IsFresh, IsDistinct}
use bsas_sc.Table.{ColumnSpec}
use bsas_sc.Writer.Files.{Hdf5, ObjectPath, Grows}
use bsas_sc.Writer.{
  Writer, Seen, meta_group, root_path, add_data_columns, add_time_columns, find_dataset,
}
use bsas_sc.Writer.Structure.{Entry, in_root, entry_path, HasType, IsParsed, AreApart}
use bsas_sc.Writer.Structure.Objects.{
  ne_of_text_eq, find_dataset-snoc_none, Grows-refl, Grows-trans, add_dataset-Added,
}
use bsas_sc.Writer.Structure.Columns.{
  name_at, IsReady, Keeps, Sees, add_data_column-Keeps, IsReady-after,
}

-- Where the columns are put.
abbrev pub entry_place : Text → Entry → Text × ObjectPath
entry_place root e = (e.spec.name, entry_path root e)

abbrev pub time_place : Text → ColumnSpec → Text × ObjectPath
time_place root c = (c.name, in_root root c.name)

module _ (p : Pvxs) (h : Hdf5 p.Elem) where
  open h use {File, objects}
  open h.objects use {is_free, is_group, contents}

  -- The group of the metadata is left alone.
  abbrev pub SameMeta : File → File → Type 0
  SameMeta f f' = (n : Text) → is_free f' (meta_group ∷ n ∷ []) ≡ is_free f (meta_group ∷ n ∷ [])

  abbrev pub AreEmpty : File → List (Text × ObjectPath) → Type 0
  AreEmpty f places = All (λ x. (is_free f x.1 ≡ false) × (contents f x.1 ≡ [])) places

  pub AreEmpty-Grows :
      (f f' : File) (places : List (Text × ObjectPath))
      → Grows objects f f'
      → AreEmpty f places
      → AreEmpty f' places
  AreEmpty-Grows f f' places g k =
      All-map _ _ places (λ x q. ((g x.1 q.0).0, (g x.1 q.0).2 ∙ q.1)) k

  pub add_data_columns-Keeps :
      (w : Writer p h) (seen : Seen p h) (es : List Entry) (chunk_size : ℕ)
      → is_group w.file (root_path p h w) ≡ true
      → All (IsParsed w.label_sep w.col_sep) es
      → Pairwise AreApart es
      → All (IsReady p h w.root_group w.file w.datasets seen.pvnames) es
      → (f : File) × (seen' : Seen p h) × (add_data_columns p h w seen
            (map (λ e. e.spec) es)
            chunk_size
          ≡ ok (
            record w { file = f; datasets = w.datasets ++ map (entry_place w.root_group) es },
            seen',
          ))
        × Grows objects w.file f
        × AreEmpty f (map (entry_place w.root_group) es)
        × SameMeta w.file f
  unfolding add_data_columns
  add_data_columns-Keeps w seen [] chunk_size root parsed apart ready = (
    w.file,
    seen,
    ap (λ ds. ok (record w { datasets = ds }, seen)) (sym (append-nil w.datasets)),
    Grows-refl objects w.file,
    tt,
    (λ n. refl),
  )
  add_data_columns-Keeps w seen (e ∷ es) chunk_size root parsed apart ready =
      let (f1, seen1, made, g, keeps, taken, empty, sees) =
        add_data_column-Keeps p h w seen e chunk_size root parsed.0 ready.0 in
      let place = entry_place w.root_group e in
      let w1 : Writer p h = record w { file = f1; datasets = w.datasets ++ place ∷ [] } in
      let later = after w seen f1 seen1 e es parsed.0 g keeps sees parsed.1 apart.0 ready.1 in
      let root1 = (keeps.grows (root_path p h w) (h.group_exists w.file _ root)).1 ∙ root in
      let (f2, seen2, ran, grows, empties, meta) =
        add_data_columns-Keeps w1 seen1 es chunk_size root1 parsed.1 apart.1 later in
      let moved = grows place.1 taken in
      (
        f2,
        seen2,
        rw (made, ran)
            (ap (λ ds. ok (record w { file = f2; datasets = ds }, seen2))
              (append_assoc w.datasets (place ∷ []) (map (entry_place w.root_group) es))),
        Grows-trans objects w.file f1 f2 keeps.grows grows,
        ((moved.0, moved.2 ∙ empty), empties),
        (λ n.
            meta n
            ∙ keeps.others (meta_group ∷ n ∷ []) (λ q. omega (arith, ap length q))
                (λ q. omega (arith, ap length q))),
      )
    where
      after :
          (w : Writer p h) (seen : Seen p h) (f1 : File) (seen1 : Seen p h) (e : Entry)
          (rs : List Entry)
          → IsParsed w.label_sep w.col_sep e
          → is_group f1 (in_root w.root_group e.prefix) ≡ true
          → Keeps p h w.root_group e w.file f1
          → Sees p h e.pvname seen.pvnames seen1.pvnames
          → All (IsParsed w.label_sep w.col_sep) rs
          → All (AreApart e) rs
          → All (IsReady p h w.root_group w.file w.datasets seen.pvnames) rs
          → All
              (IsReady p h w.root_group f1
                (w.datasets ++ entry_place w.root_group e ∷ [])
                seen1.pvnames)
              rs
      after w seen f1 seen1 e [] parsed g keeps sees ps apart rs = tt
      after w seen f1 seen1 e (r ∷ more) parsed g keeps sees ps apart rs = (
        IsReady-after p h w.root_group w.label_sep w.col_sep w.file f1 w.datasets seen.pvnames
            seen1.pvnames e r parsed ps.0 apart.0 g keeps sees rs.0,
        after w seen f1 seen1 e more parsed g keeps sees ps.1 apart.1 rs.1,
      )

  -- A time column that is still to come.
  abbrev pub IsReadyTime : Text → File → List (Text × ObjectPath) → ColumnSpec → Type 0
  IsReadyTime root f datasets c =
      HasType c × (is_free f (in_root root c.name) ≡ true) × (find_dataset c.name datasets ≡ none)

  IsReadyTime-after :
      (root : Text) (f f' : File) (datasets : List (Text × ObjectPath)) (c : ColumnSpec)
      (cs : List ColumnSpec)
      → ((x : ObjectPath) → x ≢ in_root root c.name → is_free f' x ≡ is_free f x)
      → IsFresh c.name (map (λ x. x.name) cs)
      → All (IsReadyTime root f datasets) cs
      → All (IsReadyTime root f' (datasets ++ time_place root c ∷ [])) cs
  IsReadyTime-after root f f' datasets c [] others fresh ready = tt
  IsReadyTime-after root f f' datasets c (r ∷ cs) others fresh ((typed, free, absent), ready) =
      let other : r.name ≢ c.name = λ q. ne_of_text_eq c.name r.name fresh.0 (sym q) in
      (
        (
          typed,
          others (in_root root r.name) (λ q. other (ap (name_at 2) q)) ∙ free,
          find_dataset-snoc_none r.name c.name (in_root root c.name) datasets absent other,
        ),
        IsReadyTime-after root f f' datasets c cs others fresh.1 ready,
      )

  pub add_time_columns-Keeps :
      (w : Writer p h) (cs : List ColumnSpec) (chunk_size : ℕ)
      → is_group w.file (root_path p h w) ≡ true
      → IsDistinct (map (λ x. x.name) cs)
      → All (IsReadyTime w.root_group w.file w.datasets) cs
      → (f : File) × (add_time_columns p h w cs chunk_size
          ≡ ok (record w { file = f; datasets = w.datasets ++ map (time_place w.root_group) cs }))
        × Grows objects w.file f
        × AreEmpty f (map (time_place w.root_group) cs)
        × ((x : ObjectPath)
            → All (λ c. x ≢ in_root w.root_group c.name) cs
            → is_free f x ≡ is_free w.file x)
  unfolding add_time_columns
  add_time_columns-Keeps w [] chunk_size root distinct ready = (
    w.file,
    ap (λ ds. ok (record w { datasets = ds })) (sym (append-nil w.datasets)),
    Grows-refl objects w.file,
    tt,
    (λ x n. refl),
  )
  add_time_columns-Keeps w (c ∷ cs) chunk_size root (fresh, distinct)
        ((typed, free, absent), ready) =
      let (f1, made, added, empty) =
        add_dataset-Added p h w c (root_path p h w) c.name chunk_size typed root free absent in
      let place = time_place w.root_group c in
      let w1 : Writer p h = record w { file = f1; datasets = w.datasets ++ place ∷ [] } in
      let root1 = (added.grows (root_path p h w) (h.group_exists w.file _ root)).1 ∙ root in
      let (f2, ran, grows, empties, others) =
        add_time_columns-Keeps w1 cs chunk_size root1 distinct
          (IsReadyTime-after w.root_group w.file f1 w.datasets c cs added.others fresh ready) in
      let moved = grows place.1 added.taken in
      (
        f2,
        rw (made, ran)
            (ap (λ ds. ok (record w { file = f2; datasets = ds }))
              (append_assoc w.datasets (place ∷ []) (map (time_place w.root_group) cs))),
        Grows-trans objects w.file f1 f2 added.grows grows,
        ((moved.0, moved.2 ∙ empty), empties),
        (λ x n. others x n.1 ∙ added.others x n.0),
      )
