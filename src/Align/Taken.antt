-- ===== src/Align/Taken.antt =====
-- Which rows of a list the loop of `extract` takes, whatever the function does with them.
use bsas_sc.Common.{
  ℕ, suc, ◌+◌, ◌<◌, ◌≤◌, Bool, true, false, ◌≡◌, refl, ap, subst, if◌then◌else◌, leb, Bool-cases,
  inl, inr, List, [], ◌∷◌, length, get_elem?-some, All, Result, ok, err, ◌>>=◌, arith,
}
use bsas_sc.Stamp.{EpicsTime, TimeStamp, stamp_eq, stamp_lt, stamp_gt}
use bsas_sc.Pvxs.{Pvxs, Array}
use bsas_sc.Buffer.Rows.{Row}
use bsas_sc.Buffer.Inner.{consume_list}
use bsas_sc.Align.{Filling, align_at, align_row, fill_empty, fill_copy}

module _ (p : Pvxs) where
  open p use {Elem, Value}

  module _ {S : Type 0} where
    abbrev rest_of : Result (S × List (Row p)) → List (Row p)
    rest_of (err x) = []
    rest_of (ok r) = r.1

    abbrev pub is_done : Result (S × Bool) → Bool
    is_done (err x) = false
    is_done (ok r) = r.1

    -- One row of the loop.
    left_by :
        (row : Row p) (rs : List (Row p)) (r : Result (S × Bool))
        (g : S → Result (S × List (Row p))) (s' : S) (rest : List (Row p))
        → ((x : S) → g x ≡ ok (s', rest) → length rest ≤ length rs)
        → (r >>= λ y. if y.1 then ok (y.0, row ∷ rs) else g y.0) ≡ ok (s', rest)
        → (length rest ≤ suc (length rs)) × (length rest ≤ length rs + (if is_done r then 1 else 0))
    left_by row rs (err x) g s' rest k h = cc
    left_by row rs (ok (x, true)) g s' rest k h =
        let e : row ∷ rs ≡ rest = ap rest_of h in
        (omega (arith, ap length e), omega (arith, ap length e))
    left_by row rs (ok (x, false)) g s' rest k h =
        let le = k x h in (omega (arith, le), omega (arith, le))

    pub consume_list-shorter :
        (f : S → TimeStamp → List (Array Elem) → ℕ → Result (S × Bool)) (rs : List (Row p))
        (s s' : S) (rest : List (Row p))
        → consume_list p f s rs ≡ ok (s', rest)
        → length rest ≤ length rs
    consume_list-shorter f [] s s' rest h =
        let e : [] ≡ rest = ap rest_of h in omega (arith, ap length e)
    consume_list-shorter f ((t, cols, i) ∷ rs) s s' rest h =
        (left_by (t, cols, i) rs (f s t cols i) (λ x. consume_list p f x rs) s' rest
          (λ x q. consume_list-shorter f rs x s' rest q) h).0

    -- The first row is taken unless it is where the loop is done.
    pub consume_list-first :
        (f : S → TimeStamp → List (Array Elem) → ℕ → Result (S × Bool)) (t : TimeStamp)
        (cols : List (Array Elem)) (i : ℕ) (rs : List (Row p)) (s s' : S) (rest : List (Row p))
        → consume_list p f s ((t, cols, i) ∷ rs) ≡ ok (s', rest)
        → length rest ≤ length rs + (if is_done (f s t cols i) then 1 else 0)
    consume_list-first f t cols i rs s s' rest h =
        (left_by (t, cols, i) rs (f s t cols i) (λ x. consume_list p f x rs) s' rest
          (λ x q. consume_list-shorter f rs x s' rest q) h).1

    -- What holds of all rows holds of those that are left.
    pub consume_list-All :
        (f : S → TimeStamp → List (Array Elem) → ℕ → Result (S × Bool)) (P : Row p → Type 0)
        (rs : List (Row p)) (s s' : S) (rest : List (Row p))
        → All P rs
        → consume_list p f s rs ≡ ok (s', rest)
        → All P rest
    consume_list-All f P [] s s' rest all h = subst (All P) (ap rest_of h) tt
    consume_list-All f P ((t, cols, i) ∷ rs) s s' rest all h =
        by_row (f s t cols i) (λ x q. consume_list-All f P rs x s' rest all.1 q) h
      where
        by_row :
            (r : Result (S × Bool))
            → ((x : S) → consume_list p f x rs ≡ ok (s', rest) → All P rest)
            → (r >>= λ y. if y.1 then ok (y.0, (t, cols, i) ∷ rs) else consume_list p f y.0 rs)
              ≡ ok (s', rest)
            → All P rest
        by_row (err x) k h = cc
        by_row (ok (x, true)) k h = subst (All P) (ap rest_of h) all
        by_row (ok (x, false)) k h = k x h

  -- The rows are before the stamp.
  abbrev pub AreBefore : EpicsTime → TimeStamp → List (Row p) → Type 0
  AreBefore e bound rs = All (λ r. stamp_lt e r.0 bound ≡ true) rs

  is_done-bind : (r : Result (Filling p)) → is_done (r >>= λ s. ok (s, false)) ≡ false
  is_done-bind (err x) = refl
  is_done-bind (ok s) = refl

  module _ (e : EpicsTime) (timestamps : List TimeStamp) (end_ts : TimeStamp) where
    align_at-goes_on :
        (row_ts : TimeStamp) (s : Filling p) (t : TimeStamp) (cols : List (Array Elem)) (j : ℕ)
        → is_done (align_at p e row_ts s t cols j) ≡ false
    unfolding align_at
    align_at-goes_on row_ts s t cols j = elim (Bool-cases (stamp_eq e t row_ts)) [
      | inl x ↦ rw x (is_done-bind (fill_copy p s cols j))
      | inr x ↦ elim (Bool-cases (stamp_gt e t row_ts)) [
        | inl y ↦ rw (x, y) (is_done-bind (fill_empty p s))
        | inr y ↦ rw (x, y) refl
      ]
    ]

    pub align_row-goes_on :
        (s : Filling p) (t : TimeStamp) (cols : List (Array Elem)) (j : ℕ)
        → s.row < length timestamps
        → is_done (align_row p e timestamps end_ts s t cols j) ≡ stamp_gt e t end_ts
    unfolding align_row
    align_row-goes_on s t cols j lt =
        let (row_ts, at) = get_elem?-some timestamps s.row lt in
        elim (Bool-cases (stamp_gt e t end_ts)) [
          | inl x ↦ simp (past s.row (length timestamps) lt, x, at)
          | inr x ↦
              simp (past s.row (length timestamps) lt, x, at, align_at-goes_on row_ts s t cols j)
        ]
      where
        past : (i n : ℕ) → i < n → leb n i ≡ false
        past i n k = ground arith
