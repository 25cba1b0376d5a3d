-- ===== src/Writer/Structure/Objects.antt =====
-- The objects of a file and the entries of `datasets_`, when one is created.
use bsas_sc.Common.{
  ℕ, true, false, ◌||◌, ◌≡◌, ◌≢◌, refl, ◌∙◌, none, List, [], ◌∷◌, ◌++◌, Text, text_eq, text_eq_iff,
  not_true→false, ok, arith,
}
use bsas_sc.Pvxs.{ScalarType}
use bsas_sc.Table.{ColumnSpec}
use bsas_sc.Writer.Files.{Hdf5, ObjectPath, Objects, Grows, Added, Same}
use bsas_sc.Writer.{
  Writer, pvxs_to_h5_type, add_dataset, find_dataset, emplace, contains, attr_label, attr_column,
}
use bsas_sc.Pvxs.{Pvxs}

pub ne_of_text_eq : (a b : Text) → text_eq a b ≡ false → a ≢ b
ne_of_text_eq a b h e = cc ((text_eq_iff a b).1 e, h)

pub text_eq_of_ne : (a b : Text) → a ≢ b → text_eq a b ≡ false
text_eq_of_ne a b h = not_true→false (text_eq a b) (λ e. h ((text_eq_iff a b).0 e))

pub contains-snoc :
    (n m : Text) (ns : List Text) → contains n (ns ++ m ∷ []) ≡ (contains n ns || text_eq n m)
contains-snoc n m [] = ground arith
contains-snoc n m (k ∷ ns) = ground (arith, contains-snoc n m ns)

pub find_dataset-snoc_none :
    (n m : Text) (d : ObjectPath) (ds : List (Text × ObjectPath))
    → find_dataset n ds ≡ none
    → n ≢ m
    → find_dataset n (ds ++ (m, d) ∷ []) ≡ none
unfolding find_dataset
find_dataset-snoc_none n m d [] h k = rw (text_eq_of_ne n m k) refl
find_dataset-snoc_none n m d ((j, x) ∷ ds) h k = ground (arith, find_dataset-snoc_none n m d ds, k)

pub emplace_new :
    (n : Text) (d : ObjectPath) (ds : List (Text × ObjectPath))
    → find_dataset n ds ≡ none
    → emplace n d ds ≡ ds ++ (n, d) ∷ []
unfolding emplace
emplace_new n d ds h = rw (h, emplace) refl

module _ {E File : Type 0} (o : Objects E File) where
  pub Grows-refl : (f : File) → Grows o f f
  Grows-refl f x h = (h, refl, refl)

  pub Grows-trans : (f g k : File) → Grows o f g → Grows o g k → Grows o f k
  Grows-trans f g k a b x h =
      let (h1, g1, c1) = a x h in let (h2, g2, c2) = b x h1 in (h2, g2 ∙ g1, c2 ∙ c1)

  pub Same-Grows : (f g : File) → Same o f g → Grows o f g
  Same-Grows f g a x h = let (q, g1, c1) = a x in (q ∙ h, g1, c1)

  pub Added-Same : (f g k : File) (d : ObjectPath) → Added o f g d → Same o g k → Added o f k d
  Added-Same f g k d a s = record {
    grows = Grows-trans f g k a.grows (Same-Grows g k s);
    taken = (s d).0 ∙ a.taken;
    others = λ x n. (s x).0 ∙ a.others x n;
  }

  pub Same-trans : (f g k : File) → Same o f g → Same o g k → Same o f k
  Same-trans f g k a b x =
      let (a0, a1, a2) = a x in let (b0, b1, b2) = b x in (b0 ∙ a0, b1 ∙ a1, b2 ∙ a2)

module _ (p : Pvxs) (h : Hdf5 p.Elem) where
  open h use {File, objects, create_attribute, create_attribute_lem}
  open h.objects use {is_free, is_group, contents}

  -- A data set with its entry and its attributes.
  pub add_dataset-Added :
      (w : Writer p h) (c : ColumnSpec) (parent : ObjectPath) (n : Text) (chunk_size : ℕ)
      → (s : ScalarType) × (pvxs_to_h5_type c.type_code ≡ ok s)
      → is_group w.file parent ≡ true
      → is_free w.file (parent ++ n ∷ []) ≡ true
      → find_dataset c.name w.datasets ≡ none
      → (f : File) × (add_dataset p h w c (parent ++ n ∷ []) chunk_size
          ≡ ok (record w { file = f; datasets = w.datasets ++ (c.name, parent ++ n ∷ []) ∷ [] }))
        × Added objects w.file f (parent ++ n ∷ [])
        × (contents f (parent ++ n ∷ []) ≡ [])
  unfolding add_dataset
  add_dataset-Added w c parent n chunk_size (s, typed) g free absent =
      let d = parent ++ n ∷ [] in
      let (f, made, added, empty) = h.create_data_set_lem w.file parent n s chunk_size g free in
      let f1 = create_attribute f d attr_label c.label in
      let f2 = create_attribute f1 d attr_column c.name in
      let same =
        Same-trans objects f f1 f2 (create_attribute_lem f d attr_label c.label)
          (create_attribute_lem f1 d attr_column c.name) in
      (
        f2,
        rw (typed, made, emplace_new c.name d w.datasets absent) refl,
        Added-Same objects w.file f f2 d added same,
        (same d).2 ∙ empty,
      )
