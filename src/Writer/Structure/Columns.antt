-- ===== src/Writer/Structure/Columns.antt =====
-- The loop of `build_file_structure` over the data columns.
use bsas_sc.Common.{
  from_ok, ℕ, suc, true, false, ◌≡◌, ◌≢◌, refl, sym, ◌∙◌, ap, subst, ◌⊎◌, inl, inr, none, List, [],
  ◌∷◌, ◌++◌, length, Text, text_eq, text_eq_iff, text_eq_refl, zero, Bool-cases, ok, arith,
}
use bsas_sc.Pvxs.{Pvxs}
use bsas_sc.Writer.Files.{Hdf5, ObjectPath, Grows}
use bsas_sc.Writer.{
  Writer, Seen, attr_signal, root_path, column_parts, add_group, add_data_column, find_dataset,
  contains,
}
use bsas_sc.Writer.Structure.{Entry, in_root, entry_path, IsParsed, AreApart}
use bsas_sc.Writer.Structure.Objects.{
  ne_of_text_eq, text_eq_of_ne, contains-snoc, find_dataset-snoc_none, Grows-refl, Grows-trans,
  Added-Same, add_dataset-Added,
}

pub longer : (root a : Text) (e : Entry) → entry_path root e ≢ in_root root a
longer root a e q = omega (arith, ap length q)

-- The names below the root group.
abbrev pub name_at : ℕ → ObjectPath → Text
name_at i [] = []
name_at zero (x ∷ xs) = x
name_at (suc i) (x ∷ xs) = name_at i xs

pub other_group : (root a b : Text) → a ≢ b → in_root root a ≢ in_root root b
other_group root a b k q = k (ap (name_at 2) q)

pub other_entry : (root : Text) (e r : Entry) → AreApart e r → entry_path root r ≢ entry_path root e
other_entry root e r apart q = apart.suffixes (sym (ap (name_at 2) q)) (sym (ap (name_at 3) q))

-- Two columns whose names are taken apart differently have different names.
pub other_name :
    (label_sep col_sep : Text) (e r : Entry)
    → IsParsed label_sep col_sep e
    → IsParsed label_sep col_sep r
    → AreApart e r
    → r.spec.name ≢ e.spec.name
other_name label_sep col_sep e r parsed parsed2 apart q =
    let same : (e.prefix, e.suffix) ≡ (r.prefix, r.suffix) =
      ap (from_ok (e.prefix, e.suffix))
        (sym parsed.column ∙ ap (λ n. column_parts n col_sep) (sym q) ∙ parsed2.column) in
    apart.suffixes (ap (λ x. x.0) same) (ap (λ x. x.1) same)

contains_self : (n : Text) (ns : List Text) → contains n (ns ++ n ∷ []) ≡ true
contains_self n ns = contains-snoc n n ns ∙ ground (arith, text_eq_refl n)

contains_other : (n m : Text) (ns : List Text) → n ≢ m → contains n (ns ++ m ∷ []) ≡ contains n ns
contains_other n m ns k = contains-snoc n m ns ∙ ground (arith, text_eq_of_ne n m k)

module _ (p : Pvxs) (h : Hdf5 p.Elem) where
  open h use {File, objects, create_attribute_lem, group_exists}
  open h.objects use {is_free, is_group, contents}

  -- A column that is still to come: its group is there if its PV was seen, and neither its group nor its data
  -- set is there if not.
  pub record IsReady (root : Text) (f : File) (datasets : List (Text × ObjectPath))
      (seen : List Text) (r : Entry) : Type 0 where
    pub group :
        ((contains r.pvname seen ≡ true) × (is_group f (in_root root r.prefix) ≡ true))
        ⊎ ((contains r.pvname seen ≡ false) × (is_free f (in_root root r.prefix) ≡ true))
    pub free : is_free f (entry_path root r) ≡ true
    pub absent : find_dataset r.spec.name datasets ≡ none

  -- What a part of the loop leaves as it was.
  pub record Keeps (root : Text) (e : Entry) (f f' : File) : Type 0 where
    pub grows : Grows objects f f'
    pub others :
        (x : ObjectPath)
        → x ≢ in_root root e.prefix
        → x ≢ entry_path root e
        → is_free f' x ≡ is_free f x

  -- The PV of the column counts as seen, and no other one anew.
  pub record Sees (pvname : Text) (seen seen' : List Text) : Type 0 where
    pub sees : contains pvname seen' ≡ true
    pub no_other : (n : Text) → n ≢ pvname → contains n seen' ≡ contains n seen

  add_group-Keeps :
      (w : Writer p h) (seen : Seen p h) (e : Entry)
      → is_group w.file (root_path p h w) ≡ true
      → IsReady w.root_group w.file w.datasets seen.pvnames e
      → (f : File) × (seen' : Seen p h) × (add_group p h w seen e.pvname e.prefix
          ≡ ok (record w { file = f }, seen'))
        × (is_group f (in_root w.root_group e.prefix) ≡ true)
        × Keeps w.root_group e w.file f
        × (is_free f (entry_path w.root_group e) ≡ true)
        × Sees e.pvname seen.pvnames seen'.pvnames
  unfolding add_group
  add_group-Keeps w seen e root r = elim r.group [
    | inl (was_seen, g) ↦ (
      w.file,
      seen,
      rw was_seen refl,
      g,
      record { grows = Grows-refl objects w.file; others = λ x a b. refl },
      r.free,
      record { sees = was_seen; no_other = λ n k. refl },
    )
    | inr (new, free) ↦
        let d = in_root w.root_group e.prefix in
        let (f, made, added, g) = h.create_group_lem w.file (root_path p h w) e.prefix root free in
        let named = create_attribute_lem f d attr_signal e.pvname in
        let added2 =
          Added-Same objects w.file f (h.create_attribute f d attr_signal e.pvname) d added named in
        (
          h.create_attribute f d attr_signal e.pvname,
          record {
            pvnames = seen.pvnames ++ e.pvname ∷ [];
            column_prefixes = seen.column_prefixes ++ e.prefix ∷ [];
          },
          rw (new, made) refl,
          (named d).1 ∙ g,
          record { grows = added2.grows; others = λ x a b. added2.others x a },
          added2.others (entry_path w.root_group e) (longer w.root_group e.prefix e) ∙ r.free,
          record {
            sees = contains_self e.pvname seen.pvnames;
            no_other = λ n k. contains_other n e.pvname seen.pvnames k;
          },
        )
  ]

  -- A column is added: its group is there, and its data set is empty.
  pub add_data_column-Keeps :
      (w : Writer p h) (seen : Seen p h) (e : Entry) (chunk_size : ℕ)
      → is_group w.file (root_path p h w) ≡ true
      → IsParsed w.label_sep w.col_sep e
      → IsReady w.root_group w.file w.datasets seen.pvnames e
      → (f : File) × (seen' : Seen p h) × (add_data_column p h w seen e.spec chunk_size
          ≡ ok (
            record w {
              file = f;
              datasets = w.datasets ++ (e.spec.name, entry_path w.root_group e) ∷ [];
            },
            seen',
          ))
        × (is_group f (in_root w.root_group e.prefix) ≡ true)
        × Keeps w.root_group e w.file f
        × (is_free f (entry_path w.root_group e) ≡ false)
        × (contents f (entry_path w.root_group e) ≡ [])
        × Sees e.pvname seen.pvnames seen'.pvnames
  unfolding add_data_column
  add_data_column-Keeps w seen e chunk_size root parsed r =
      let (f1, seen', grouped, g, keeps, free, sees) = add_group-Keeps w seen e root r in
      let (f2, made, added, empty) =
        add_dataset-Added p h (record w { file = f1 }) e.spec (in_root w.root_group e.prefix)
          e.suffix chunk_size parsed.typed g free r.absent in
      (
        f2,
        seen',
        rw
            (
              parsed.label,
              parsed.column,
              grouped,
              h.get_group_lem f1 (in_root w.root_group e.prefix) g,
              made,
            )
            refl,
        (added.grows (in_root w.root_group e.prefix) (group_exists f1 _ g)).1 ∙ g,
        record {
          grows = Grows-trans objects w.file f1 f2 keeps.grows added.grows;
          others = λ x a b. added.others x b ∙ keeps.others x a b;
        },
        added.taken,
        empty,
        sees,
      )

  -- A later column is as ready as before.
  pub IsReady-after :
      (root label_sep col_sep : Text) (f f' : File) (datasets : List (Text × ObjectPath))
      (seen seen' : List Text) (e r : Entry)
      → IsParsed label_sep col_sep e
      → IsParsed label_sep col_sep r
      → AreApart e r
      → is_group f' (in_root root e.prefix) ≡ true
      → Keeps root e f f'
      → Sees e.pvname seen seen'
      → IsReady root f datasets seen r
      → IsReady root f' (datasets ++ (e.spec.name, entry_path root e) ∷ []) seen' r
  IsReady-after root label_sep col_sep f f' datasets seen seen' e r parsed parsed2 apart g keeps
        sees ready =
      record {
        group = elim (Bool-cases (text_eq r.pvname e.pvname)) [
          | inl same ↦
              let pv = (text_eq_iff r.pvname e.pvname).0 same in
              inl (
                subst (λ n. contains n seen' ≡ true) (sym pv) sees.sees,
                subst (λ n. is_group f' (in_root root n) ≡ true) (apart.same_pv (sym pv)) g,
              )
          | inr other ↦
              let pv = ne_of_text_eq r.pvname e.pvname other in
              let prefix : r.prefix ≢ e.prefix = λ q. pv (sym (apart.same_prefix (sym q))) in
              elim ready.group [
                | inl (was_seen, group) ↦ inl (
                  sees.no_other r.pvname pv ∙ was_seen,
                  (keeps.grows (in_root root r.prefix) (group_exists f _ group)).1 ∙ group,
                )
                | inr (new, free) ↦ inr (
                  sees.no_other r.pvname pv ∙ new,
                  keeps.others (in_root root r.prefix) (other_group root r.prefix e.prefix prefix)
                        (λ q. longer root r.prefix e (sym q))
                      ∙ free,
                )
              ]
        ];
        free =
            keeps.others (entry_path root r) (longer root e.prefix r) (other_entry root e r apart)
            ∙ ready.free;
        absent =
            find_dataset-snoc_none r.spec.name e.spec.name (entry_path root e) datasets ready.absent
              (other_name label_sep col_sep e r parsed parsed2 apart);
      }
