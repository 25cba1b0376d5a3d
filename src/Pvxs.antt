-- ===== src/Pvxs.antt =====
-- What the programs use of the pvxs library, which is not part of this repository: type codes, arrays
-- and structured values, as an interface of operations with the laws that pvxs documents of them.
pub mod Concrete
use bsas_sc.Common.{
  ℕ, ◌≡◌, Bool, true, false, Option, some, List, [], ◌∷◌, map, length, Text, text_eq, if◌then◌else◌,
  ◌&&◌, not, ◌==◌,
}

-- The element types that the sources name.
pub data ScalarType : Type 0 where
  bool int8 int16 int32 int64 uint8 uint16 uint32 uint64 float32 float64 string : ScalarType

-- `pvxs::TypeCode`: a scalar, an array of scalars (`BoolA`, `Int8A`, …), or any other code.
pub data TypeCode : Type 0 where
  scalar : ScalarType → TypeCode
  array : ScalarType → TypeCode
  other : ℕ → TypeCode

-- `pvxs::ArrayType`
pub data ArrayType : Type 0 where
  of_scalar : ScalarType → ArrayType
  no_scalar : ArrayType

-- `pvxs::shared_array<void>`: the type of the elements, and the elements.
pub record Array (E : Type 0) : Type 0 where
  pub original_type : ArrayType
  pub elems : List E

-- A child of the field `value` of an NTTable: a column.
pub record Member (E : Type 0) : Type 0 where
  pub name : Text
  pub type_code : TypeCode
  pub array : Array E

-- No two names are equal.
abbrev pub IsFresh : Text → List Text → Type 0
IsFresh n [] = Unit
IsFresh n (m ∷ ms) = (text_eq n m ≡ false) × IsFresh n ms

abbrev pub IsDistinct : List Text → Type 0
IsDistinct [] = Unit
IsDistinct (n ∷ ns) = IsFresh n ns × IsDistinct ns

-- The column of that name holds the given array, the others are as they were.
abbrev pub put_member : {E : Type 0} → Text → Array E → Member E → Member E
put_member n a m = if text_eq n m.name then record m { array = a } else m

pub record Pvxs : Type 1 where
  -- The equality of type codes, and the questions that `ColumnSpec` asserts.
  pub type_eq : TypeCode → TypeCode → Bool
  pub type_eq_refl : (a : TypeCode) → type_eq a a ≡ true
  pub eq_of_type_eq : (a b : TypeCode) → type_eq a b ≡ true → a ≡ b
  pub is_compound : TypeCode → Bool
  pub is_null : TypeCode → Bool
  pub is_array : TypeCode → Bool
  pub is_array-array :
      (s : ScalarType)
      → (is_compound (array s) ≡ false) × (is_null (array s) ≡ false) × (is_array (array s) ≡ true)
  pub array_type : TypeCode → ArrayType
  pub array_type-array : (s : ScalarType) → array_type (array s) ≡ of_scalar s
  -- Elements, and the conversion of an element to an unsigned integer by `as`.
  pub Elem : Type 0
  pub zero_elem : ScalarType → Elem
  pub bool_elem : Bool → Elem
  pub uint_elem : ScalarType → ℕ → Elem
  pub as_uint : ScalarType → Elem → ℕ
  -- `allocArray`: it fails for no element type that the sources name, and gives that many elements.
  pub alloc_array : ArrayType → ℕ → Option (Array Elem)
  pub alloc_elems : ScalarType → ℕ → List Elem
  pub length-alloc_elems : (s : ScalarType) (n : ℕ) → length (alloc_elems s n) ≡ n
  pub alloc_array-of_scalar :
      (s : ScalarType) (n : ℕ)
      → alloc_array (of_scalar s) n
        ≡ some (record { original_type = of_scalar s; elems = alloc_elems s n })
  -- Values. `labels` and `columns` read the fields `labels` and `value` of an NTTable, `none` where
  -- the field is not valid.
  pub Value : Type 0
  pub valid : Value → Bool
  pub labels : Value → Option (List Text)
  pub columns : Value → Option (List (Member Elem))
  -- `TypeDef::create` of an NTTable with the given columns, assignment to the field `labels`, and
  -- assignment to a column.
  pub create : List (TypeCode × Text) → Value
  pub set_labels : Value → List Text → Value
  pub set_column : Value → Text → Array Elem → Value
  -- A new value is valid and has its columns, all empty.
  pub valid-create : (ms : List (TypeCode × Text)) → valid (create ms) ≡ true
  pub columns-create :
      (ms : List (TypeCode × Text))
      → IsDistinct (map (λ m. m.1) ms)
      → columns (create ms)
        ≡ some (
            map
              (λ m. record {
                name = m.1;
                type_code = m.0;
                array = record { original_type = array_type m.0; elems = [] };
              })
              ms)
  -- Assignment changes what it assigns, and nothing else.
  pub valid-set_labels : (v : Value) (l : List Text) → valid (set_labels v l) ≡ valid v
  pub labels-set_labels :
      (v : Value) (l : List Text) → valid v ≡ true → labels (set_labels v l) ≡ some l
  pub columns-set_labels : (v : Value) (l : List Text) → columns (set_labels v l) ≡ columns v
  pub valid-set_column :
      (v : Value) (n : Text) (a : Array Elem) → valid (set_column v n a) ≡ valid v
  pub labels-set_column :
      (v : Value) (n : Text) (a : Array Elem) → labels (set_column v n a) ≡ labels v
  pub columns-set_column :
      (v : Value) (n : Text) (a : Array Elem) (ms : List (Member Elem))
      → columns v ≡ some ms
      → columns (set_column v n a) ≡ some (map (put_member n a) ms)
