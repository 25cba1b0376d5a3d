-- ===== src/Writer/Parts.antt =====
-- How the writer takes labels and column names apart, against how the merger puts them together.
use bsas_sc.Common.{
  ℕ, suc, ◌+◌, true, false, ◌≡◌, ◌≢◌, refl, ap, ◌==◌, ltb, ==_iff, none, some, [], ◌∷◌, ◌++◌,
  length, take, drop, All, Text, ok, err, runtime_error, length-append, arith, not_true→false,
}
use bsas_sc.Table.{ColumnSpec}
use bsas_sc.Align.{TimeAligned, col_prefix, prefixed_colspec}
use bsas_sc.Writer.{begins_with, rfind, parts_at, parts, label_parts, column_parts}

-- A character does not occur.
abbrev pub Lacks : ℕ → Text → Type 0
Lacks c xs = All (λ x. x ≢ c) xs

begins_with-nil : (xs : Text) → begins_with xs [] ≡ true
unfolding begins_with
begins_with-nil [] = refl
begins_with-nil (x ∷ xs) = refl

begins_with_self : (c : ℕ) (xs : Text) → begins_with (c ∷ xs) (c ∷ []) ≡ true
unfolding begins_with
begins_with_self c xs = rw ((==_iff c c).1 refl, begins_with-nil xs) refl

begins_with-other : (c x : ℕ) (xs : Text) → x ≢ c → begins_with (x ∷ xs) (c ∷ []) ≡ false
unfolding begins_with
begins_with-other c x xs n = rw (not_true→false (x == c) (λ e. n ((==_iff x c).0 e))) refl

rfind-none : (c : ℕ) (xs : Text) → Lacks c xs → rfind xs (c ∷ []) ≡ none
unfolding rfind begins_with
rfind-none c [] h = refl
rfind-none c (x ∷ xs) h = rw (rfind-none c xs h.1, begins_with-other c x xs h.0) refl

rfind-append : (c : ℕ) (a b : Text) → Lacks c b → rfind (a ++ c ∷ b) (c ∷ []) ≡ some (length a)
unfolding rfind
rfind-append c [] b h = rw (rfind-none c b h, begins_with_self c b) refl
rfind-append c (x ∷ a) b h = rw (rfind-append c a b h) refl

take-front : (a b : Text) → take (length a) (a ++ b) ≡ a
take-front [] b = refl
take-front (x ∷ a) b = ap (λ xs. x ∷ xs) (take-front a b)

drop-suc_front : (a : Text) (c : ℕ) (b : Text) → drop (suc (length a)) (a ++ c ∷ b) ≡ b
drop-suc_front [] c b = refl
drop-suc_front (x ∷ a) c b = drop-suc_front a c b

add_one : (n : ℕ) → n + 1 ≡ suc n
add_one n = omega arith

in_range : (a : Text) (c : ℕ) (b : Text) → ltb (length (a ++ c ∷ b)) (suc (length a)) ≡ false
in_range a c b = rw (length-append a (c ∷ b)) (below (length a) (length b))
  where
    below : (n m : ℕ) → ltb (n + suc m) (suc n) ≡ false
    below n m = ground arith

parts_at-both :
    (a : Text) (c : ℕ) (b : Text)
    → parts_at (a ++ c ∷ b) true true (length a) ≡ ok (some (some a, some b))
unfolding parts_at
parts_at-both a c b =
    rw (take-front a (c ∷ b), add_one (length a), in_range a c b, drop-suc_front a c b) refl

parts_at-front :
    (a : Text) (c : ℕ) (b : Text)
    → parts_at (a ++ c ∷ b) true false (length a) ≡ ok (some (some a, none))
unfolding parts_at
parts_at-front a c b = rw (take-front a (c ∷ b)) refl

-- A name is split at the last occurrence of a separator of one character, and a label is cut there;
-- a name and a label without the separator are refused.
pub column_parts_lem :
    (c : ℕ) (a b name : Text)
    → Lacks c b
    → Lacks c name
    → (column_parts (a ++ c ∷ b) (c ∷ []) ≡ ok (a, b))
      × (label_parts (a ++ c ∷ b) (c ∷ []) ≡ ok a)
      × (column_parts name (c ∷ []) ≡ err runtime_error)
      × (label_parts name (c ∷ []) ≡ err runtime_error)
unfolding column_parts label_parts parts
column_parts_lem c a b name h lacks = (
  rw (rfind-append c a b h, parts_at-both a c b) refl,
  rw (rfind-append c a b h, parts_at-front a c b) refl,
  rw (rfind-none c name lacks) refl,
  rw (rfind-none c name lacks) refl,
)

-- Where the separators are single characters and do not occur in the name and the label of an input
-- column, the writer finds in the label of the merged column the PV, and in its name the prefix of the
-- PV and the name of the input column.
pub column_parts-prefixed_colspec :
    {V : Type 0} (t : TimeAligned V) (idx total : ℕ) (pvname : Text) (spec : ColumnSpec)
    (col label : ℕ)
    → t.col_sep ≡ col ∷ []
    → t.label_sep ≡ label ∷ []
    → Lacks col spec.name
    → Lacks label spec.label
    → (column_parts (prefixed_colspec t idx total pvname spec).name t.col_sep
        ≡ ok (col_prefix idx total, spec.name))
      × (label_parts (prefixed_colspec t idx total pvname spec).label t.label_sep ≡ ok pvname)
unfolding prefixed_colspec
column_parts-prefixed_colspec t idx total pvname spec col label e f g h = (
  rw e (column_parts_lem col (col_prefix idx total) spec.name [] g tt).0,
  rw f (column_parts_lem label pvname spec.label [] h tt).1,
)
