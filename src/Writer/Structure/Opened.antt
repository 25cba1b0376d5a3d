-- ===== src/Writer/Structure/Opened.antt =====
-- The groups of a new file that `build_file_structure` creates first, and the metadata that it writes last.
use bsas_sc.Common.{
  ◌<◌, true, false, ◌≡◌, ◌≢◌, refl, sym, ◌∙◌, ap, List, [], ◌∷◌, map, length, All, Text, text_eq,
  ok, arith,
}
use bsas_sc.Pvxs.{Pvxs}
use bsas_sc.Table.{TimeTable}
use bsas_sc.Writer.Files.{Hdf5, ObjectPath, Grows, Added}
use bsas_sc.Writer.{
  Seen, data_group, meta_group, meta_pvnames, meta_column_prefixes, meta_labels, meta_columns,
  meta_types, fill_meta,
}
use bsas_sc.Writer.Structure.Objects.{ne_of_text_eq, Grows-trans}
use bsas_sc.Writer.Structure.Columns.{name_at}

module _ (p : Pvxs) (h : Hdf5 p.Elem) where
  open h use {File, objects, create_group, create_attribute, create_attribute_lem, group_exists}
  open h.objects use {is_free, is_group, contents}

  -- A file that was just created has its root group and nothing else.
  pub record IsNewFile (f : File) : Type 0 where
    pub root : is_group f [] ≡ true
    pub free : (x : ObjectPath) → x ≢ [] → is_free f x ≡ true

  pub IsNewFile-attribute :
      (f : File) (n t : Text) → IsNewFile f → IsNewFile (create_attribute f [] n t)
  IsNewFile-attribute f n t new = record {
    root = (create_attribute_lem f [] n t []).1 ∙ new.root;
    free = λ x k. (create_attribute_lem f [] n t x).0 ∙ new.free x k;
  }

  -- What the groups at the top leave.
  pub record IsOpened (root : Text) (f : File) : Type 0 where
    pub meta_there : is_group f (meta_group ∷ []) ≡ true
    pub root_there : is_group f (data_group ∷ root ∷ []) ≡ true
    pub below : (x : ObjectPath) → 2 < length x → is_free f x ≡ true
    pub meta_below : (n : Text) → is_free f (meta_group ∷ n ∷ []) ≡ true

  meta_is_not_data : meta_group ≢ data_group
  unfolding text_eq
  meta_is_not_data = ne_of_text_eq meta_group data_group refl

  pub open_groups :
      (f : File) (root : Text)
      → IsNewFile f
      → (f1 f2 f3 : File) × (create_group f (meta_group ∷ []) ≡ ok f1)
        × (create_group f1 (data_group ∷ []) ≡ ok f2)
        × (create_group f2 (data_group ∷ root ∷ []) ≡ ok f3)
        × IsOpened root f3
  open_groups f root new =
      let (f1, made1, added1, g1) =
        h.create_group_lem f [] meta_group new.root (new.free _ (λ q. cc)) in
      let top1 = (added1.grows [] (group_exists f [] new.root)).1 ∙ new.root in
      let free1 : (x : ObjectPath) → x ≢ [] → x ≢ meta_group ∷ [] → is_free f1 x ≡ true =
        λ x a b. added1.others x b ∙ new.free x a in
      let (f2, made2, added2, g2) =
        h.create_group_lem f1 [] data_group top1
          (free1 (data_group ∷ []) (λ q. cc) (λ q. meta_is_not_data (sym (ap (name_at 0) q)))) in
      let free2 : (x : ObjectPath) → 1 < length x → is_free f2 x ≡ true = λ x lt.
        added2.others x (λ q. omega (arith, ap length q, lt))
        ∙ free1 x (λ q. omega (arith, ap length q, lt)) (λ q. omega (arith, ap length q, lt)) in
      let (f3, made3, added3, g3) =
        h.create_group_lem f2 (data_group ∷ []) root g2
          (free2 (data_group ∷ root ∷ []) (omega arith)) in
      let meta2 = (added2.grows (meta_group ∷ []) (group_exists f1 _ g1)).1 ∙ g1 in
      (
        f1,
        f2,
        f3,
        made1,
        made2,
        made3,
        record {
          meta_there = (added3.grows (meta_group ∷ []) (group_exists f2 _ meta2)).1 ∙ meta2;
          root_there = g3;
          below = λ x lt.
              added3.others x (λ q. omega (arith, ap length q, lt)) ∙ free2 x (omega (arith, lt));
          meta_below = λ n.
              added3.others (meta_group ∷ n ∷ []) (λ q. meta_is_not_data (ap (name_at 0) q))
              ∙ free2 (meta_group ∷ n ∷ []) (omega arith);
        },
      )

  -- The group of the metadata is free for these names.
  abbrev pub MetaFree : File → List Text → Type 0
  MetaFree f ns =
      (is_group f (meta_group ∷ []) ≡ true) × All (λ n. is_free f (meta_group ∷ n ∷ []) ≡ true) ns

  MetaFree-Added :
      (f f' : File) (m : Text) (ns : List Text)
      → Added objects f f' (meta_group ∷ m ∷ [])
      → All (λ n. text_eq n m ≡ false) ns
      → MetaFree f ns
      → MetaFree f' ns
  MetaFree-Added f f' m ns added other (g, free) =
      ((added.grows (meta_group ∷ []) (group_exists f _ g)).1 ∙ g, each ns other free)
    where
      each :
          (ns : List Text)
          → All (λ n. text_eq n m ≡ false) ns
          → All (λ n. is_free f (meta_group ∷ n ∷ []) ≡ true) ns
          → All (λ n. is_free f' (meta_group ∷ n ∷ []) ≡ true) ns
      each [] other free = tt
      each (n ∷ ns) other free = (
        added.others (meta_group ∷ n ∷ []) (λ q. ne_of_text_eq n m other.0 (ap (name_at 1) q))
            ∙ free.0,
        each ns other.1 free.1,
      )

  pub fill_meta-Grows :
      (f : File) (type : TimeTable) (seen : Seen p h)
      → MetaFree f
          (meta_pvnames ∷ meta_column_prefixes ∷ meta_columns ∷ meta_labels ∷ meta_types ∷ [])
      → (f' : File) × (fill_meta p h f type seen ≡ ok f') × Grows objects f f'
  unfolding fill_meta text_eq
  fill_meta-Grows f type seen (g, free) =
      let top = meta_group ∷ [] in
      let (f1, made1, added1) = h.create_texts_lem f top meta_pvnames seen.pvnames g free.0 in
      let (g1, free1) =
        MetaFree-Added f f1 meta_pvnames
          (meta_column_prefixes ∷ meta_columns ∷ meta_labels ∷ meta_types ∷ []) added1
          (refl, (refl, (refl, (refl, tt)))) (g, free.1) in
      let (f2, made2, added2) =
        h.create_texts_lem f1 top meta_column_prefixes seen.column_prefixes g1 free1.0 in
      let (g2, free2) =
        MetaFree-Added f1 f2 meta_column_prefixes (meta_columns ∷ meta_labels ∷ meta_types ∷ [])
          added2 (refl, (refl, (refl, tt))) (g1, free1.1) in
      let (f3, made3, added3) =
        h.create_texts_lem f2 top meta_columns (map (λ c. c.name) type.columns) g2 free2.0 in
      let (g3, free3) =
        MetaFree-Added f2 f3 meta_columns (meta_labels ∷ meta_types ∷ []) added3 (refl, (refl, tt))
          (g2, free2.1) in
      let (f4, made4, added4) =
        h.create_texts_lem f3 top meta_labels (map (λ c. c.label) type.columns) g3 free3.0 in
      let (g4, free4) =
        MetaFree-Added f3 f4 meta_labels (meta_types ∷ []) added4 (refl, tt) (g3, free3.1) in
      let (f5, made5, added5) =
        h.create_codes_lem f4 top meta_types (map (λ c. c.type_code) type.columns) g4 free4.0 in
      (
        f5,
        rw (made1, made2, made3, made4) made5,
        Grows-trans objects f f1 f5 added1.grows (
            Grows-trans objects f1 f2 f5 added2.grows (
              Grows-trans objects f2 f3 f5 added3.grows
                (Grows-trans objects f3 f4 f5 added4.grows added5.grows))),
      )
