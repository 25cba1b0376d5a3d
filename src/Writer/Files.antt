-- ===== src/Writer/Files.antt =====
-- What the writer uses of the HDF5 library HighFive, which is not part of this repository, as an interface
-- with the laws that it documents. Failures of the file system are left out: an operation on a data set
-- that the writer has created returns.
use bsas_sc.Common.{
  Bool, true, false, [], ◌∷◌, ok, ℕ, ◌≡◌, ◌≢◌, ◌+◌, ◌≤◌, List, ◌++◌, length, Text, Result, take,
}
use bsas_sc.Pvxs.{ScalarType, TypeCode}

-- The names from the root down.
abbrev pub ObjectPath : Type 0
ObjectPath = List Text

-- What a file holds, as far as the writer can see it: whether nothing has this path, whether it is a group,
-- and the elements of a data set.
pub record Objects (E File : Type 0) : Type 0 where
  pub is_free : File → ObjectPath → Bool
  pub is_group : File → ObjectPath → Bool
  pub contents : File → ObjectPath → List E

-- Nothing that the first file holds is changed in the second.
abbrev pub Grows : {E File : Type 0} → Objects E File → File → File → Type 0
Grows o f f' =
    (x : ObjectPath)
    → o.is_free f x ≡ false
    → (o.is_free f' x ≡ false)
      × (o.is_group f' x ≡ o.is_group f x)
      × (o.contents f' x ≡ o.contents f x)

-- One object is new.
pub record Added {E File : Type 0} (o : Objects E File) (f f' : File) (d : ObjectPath)
    : Type 0 where
  pub grows : Grows o f f'
  pub taken : o.is_free f' d ≡ false
  pub others : (x : ObjectPath) → x ≢ d → o.is_free f' x ≡ o.is_free f x

-- An attribute is none of the objects.
abbrev pub Same : {E File : Type 0} → Objects E File → File → File → Type 0
Same o f f' =
    (x : ObjectPath)
    → (o.is_free f' x ≡ o.is_free f x)
      × (o.is_group f' x ≡ o.is_group f x)
      × (o.contents f' x ≡ o.contents f x)

pub record Hdf5 (E : Type 0) : Type 1 where
  pub File : Type 0
  pub objects : Objects E File
  -- Groups.
  pub create_group : File → ObjectPath → Result File
  pub get_group : File → ObjectPath → Result (Unit {0})
  -- `createDataSet` with the dimensions {0} and no limit, and the attributes and data sets of texts.
  pub create_data_set : File → ObjectPath → ScalarType → ℕ → Result File
  pub create_attribute : File → ObjectPath → Text → Text → File
  pub create_texts : File → ObjectPath → List Text → Result File
  pub create_codes : File → ObjectPath → List TypeCode → Result File
  pub flush : File → File
  -- `getDimensions`, `resize`, and `select` with `write_raw`.
  pub get_dimensions : File → ObjectPath → ℕ
  pub resize : File → ObjectPath → ℕ → File
  pub write_raw : File → ObjectPath → ℕ → List E → File
  pub group_exists :
      (f : File) (d : ObjectPath) → objects.is_group f d ≡ true → objects.is_free f d ≡ false
  -- An object is created in a group, where nothing has its name.
  pub create_group_lem :
      (f : File) (parent : ObjectPath) (n : Text)
      → objects.is_group f parent ≡ true
      → objects.is_free f (parent ++ n ∷ []) ≡ true
      → (f' : File) × (create_group f (parent ++ n ∷ []) ≡ ok f')
        × Added objects f f' (parent ++ n ∷ [])
        × (objects.is_group f' (parent ++ n ∷ []) ≡ true)
  pub get_group_lem :
      (f : File) (d : ObjectPath) → objects.is_group f d ≡ true → get_group f d ≡ ok tt
  pub create_data_set_lem :
      (f : File) (parent : ObjectPath) (n : Text) (s : ScalarType) (chunk_size : ℕ)
      → objects.is_group f parent ≡ true
      → objects.is_free f (parent ++ n ∷ []) ≡ true
      → (f' : File) × (create_data_set f (parent ++ n ∷ []) s chunk_size ≡ ok f')
        × Added objects f f' (parent ++ n ∷ [])
        × (objects.contents f' (parent ++ n ∷ []) ≡ [])
  pub create_texts_lem :
      (f : File) (parent : ObjectPath) (n : Text) (ts : List Text)
      → objects.is_group f parent ≡ true
      → objects.is_free f (parent ++ n ∷ []) ≡ true
      → (f' : File) × (create_texts f (parent ++ n ∷ []) ts ≡ ok f')
        × Added objects f f' (parent ++ n ∷ [])
  pub create_codes_lem :
      (f : File) (parent : ObjectPath) (n : Text) (ts : List TypeCode)
      → objects.is_group f parent ≡ true
      → objects.is_free f (parent ++ n ∷ []) ≡ true
      → (f' : File) × (create_codes f (parent ++ n ∷ []) ts ≡ ok f')
        × Added objects f f' (parent ++ n ∷ [])
  pub create_attribute_lem :
      (f : File) (d : ObjectPath) (n t : Text) → Same objects f (create_attribute f d n t)
  pub get_dimensions_lem :
      (f : File) (d : ObjectPath) → get_dimensions f d ≡ length (objects.contents f d)
  pub length-resize :
      (f : File) (d : ObjectPath) (n : ℕ) → length (objects.contents (resize f d n) d) ≡ n
  pub take-resize :
      (f : File) (d : ObjectPath) (n : ℕ)
      → length (objects.contents f d) ≤ n
      → take (length (objects.contents f d)) (objects.contents (resize f d n) d)
        ≡ objects.contents f d
  pub resize_other :
      (f : File) (d : ObjectPath) (n : ℕ) (x : ObjectPath)
      → x ≢ d
      → objects.contents (resize f d n) x ≡ objects.contents f x
  -- A selection that reaches to the end.
  pub write_raw-end :
      (f : File) (d : ObjectPath) (n : ℕ) (xs : List E)
      → n + length xs ≡ length (objects.contents f d)
      → objects.contents (write_raw f d n xs) d ≡ take n (objects.contents f d) ++ xs
  pub write_raw-other :
      (f : File) (d : ObjectPath) (n : ℕ) (xs : List E) (x : ObjectPath)
      → x ≢ d
      → objects.contents (write_raw f d n xs) x ≡ objects.contents f x
  pub contents-flush :
      (f : File) (d : ObjectPath) → objects.contents (flush f) d ≡ objects.contents f d
