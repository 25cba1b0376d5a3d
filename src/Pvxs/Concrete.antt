-- ===== src/Pvxs/Concrete.antt =====
-- A concrete instance of the interface, which shows that its laws can hold together and serves the
-- tests: a value is the list of its labels and columns, and every element is a number.
use bsas_sc.Common.{
  ℕ, ◌≡◌, refl, Bool, true, false, some, none, List, [], map, Text, arith, replicate,
  length-replicate, ap, ◌==◌, ==_iff, Option,
}
use bsas_sc.Pvxs.{
  Pvxs, ScalarType, TypeCode, scalar, array, other, ArrayType, of_scalar, no_scalar, Array, Member,
  put_member,
}

rank : ScalarType → ℕ
rank ScalarType.bool = 0
rank ScalarType.int8 = 1
rank ScalarType.int16 = 2
rank ScalarType.int32 = 3
rank ScalarType.int64 = 4
rank ScalarType.uint8 = 5
rank ScalarType.uint16 = 6
rank ScalarType.uint32 = 7
rank ScalarType.uint64 = 8
rank ScalarType.float32 = 9
rank ScalarType.float64 = 10
rank ScalarType.string = 11

unfoldable pub code_eq : TypeCode → TypeCode → Bool
unfolding rank
code_eq (scalar a) (scalar b) = rank a == rank b
code_eq (array a) (array b) = rank a == rank b
code_eq (other a) (other b) = a == b
code_eq _ _ = false

rank-injective : (a b : ScalarType) → rank a ≡ rank b → a ≡ b
unfolding rank
rank-injective a b h = ground arith

pub code_eq_refl : (a : TypeCode) → code_eq a a ≡ true
unfolding code_eq
code_eq_refl (scalar a) = ground arith
code_eq_refl (array a) = ground arith
code_eq_refl (other a) = ground arith

pub eq_of_code_eq : (a b : TypeCode) → code_eq a b ≡ true → a ≡ b
unfolding code_eq
eq_of_code_eq (scalar a) (scalar b) h =
    ap scalar (rank-injective a b ((==_iff (rank a) (rank b)).0 h))
eq_of_code_eq (array a) (array b) h = ap array (rank-injective a b ((==_iff (rank a) (rank b)).0 h))
eq_of_code_eq (other a) (other b) h = ap other ((==_iff a b).0 h)
eq_of_code_eq (scalar a) (array b) h = cc
eq_of_code_eq (scalar a) (other b) h = cc
eq_of_code_eq (array a) (scalar b) h = cc
eq_of_code_eq (array a) (other b) h = cc
eq_of_code_eq (other a) (scalar b) h = cc
eq_of_code_eq (other a) (array b) h = cc

-- A value with its labels and its columns.
pub record Table : Type 0 where
  pub usable : Bool
  pub labels : Option (List Text)
  pub columns : Option (List (Member ℕ))

abbrev pub type_of : TypeCode → ArrayType
type_of (array s) = of_scalar s
type_of (scalar s) = no_scalar
type_of (other n) = no_scalar

abbrev pub is_array_code : TypeCode → Bool
is_array_code (array s) = true
is_array_code (scalar s) = false
is_array_code (other n) = false

abbrev pub empty_column : TypeCode × Text → Member ℕ
empty_column m = record {
  name = m.1;
  type_code = m.0;
  array = record { original_type = type_of m.0; elems = [] };
}

abbrev pub put : Text → Array ℕ → Option (List (Member ℕ)) → Option (List (Member ℕ))
put n a none = none
put n a (some ms) = some (map (put_member n a) ms)

pub put-some :
    (n : Text) (a : Array ℕ) (o : Option (List (Member ℕ))) (ms : List (Member ℕ))
    → o ≡ some ms
    → put n a o ≡ some (map (put_member n a) ms)
put-some n a o ms h = rw h

abbrev pub bit : Bool → ℕ
bit true = 1
bit false = 0

abbrev pub alloc : ArrayType → ℕ → Option (Array ℕ)
alloc (of_scalar s) n = some (record { original_type = of_scalar s; elems = replicate n 0 })
alloc no_scalar n = none

abbrev pub simple : Pvxs
simple = record {
  type_eq = code_eq;
  type_eq_refl = code_eq_refl;
  eq_of_type_eq = eq_of_code_eq;
  is_compound = λ t. false;
  is_null = λ t. false;
  is_array = is_array_code;
  is_array-array = λ s. (refl, refl, refl);
  array_type = type_of;
  array_type-array = λ s. refl;
  Elem = ℕ;
  zero_elem = λ s. 0;
  bool_elem = bit;
  uint_elem = λ s n. n;
  as_uint = λ s n. n;
  alloc_array = alloc;
  alloc_elems = λ s n. replicate n 0;
  length-alloc_elems = λ s n. length-replicate n 0;
  alloc_array-of_scalar = λ s n. refl;
  Value = Table;
  valid = λ v. v.usable;
  labels = λ v. v.labels;
  columns = λ v. v.columns;
  create = λ ms. record { usable = true; labels = some []; columns = some (map empty_column ms) };
  set_labels = λ v l. record v { labels = some l };
  set_column = λ v n a. record v { columns = put n a v.columns };
  valid-create = λ ms. refl;
  columns-create = λ ms h. refl;
  valid-set_labels = λ v l. refl;
  labels-set_labels = λ v l h. refl;
  columns-set_labels = λ v l. refl;
  valid-set_column = λ v n a. refl;
  labels-set_column = λ v n a. refl;
  columns-set_column = λ v n a ms h. put-some n a v.columns ms h;
}
