-- ===== src/Align/Going.antt =====
-- The loops of `extract` over one buffer, whose rows have any timestamps.
use bsas_sc.Common.{
  ℕ, zero, suc, ◌+◌, ◌<◌, ◌≤◌, Bool, true, false, ◌≡◌, ◌≢◌, refl, sym, ◌∙◌, ap, leb, Bool-cases,
  inl, inr, List, [], ◌∷◌, length, get_elem?-some, get_elem?-past, All, Result, ok, err, bad_access,
  ◌>>=◌, if◌then◌else◌, arith,
}
use bsas_sc.Stamp.{EpicsTime, TimeStamp, stamp_eq, stamp_gt}
use bsas_sc.Pvxs.{Pvxs, Array}
use bsas_sc.Buffer.Rows.{Row}
use bsas_sc.Buffer.Inner.{consume_list}
use bsas_sc.Align.{Filling, align_at, align_row, fill_rest}
use bsas_sc.Align.Row.{IsReady, Same, HaveRow, fill_empty-ok, fill_copy-ok}

module _ (p : Pvxs) where
  open p use {Elem, Value}

  -- The row stands in all of so many arrays.
  abbrev pub RowFits : ℕ → Row p → Type 0
  RowFits width (t, cols, j) = (length cols ≡ width) × All (λ a. j < length a.elems) cols

  RowFits-HaveRow :
      (j : ℕ) (cols srcs : List (Array Elem))
      → length cols ≡ length srcs
      → All (λ a. j < length a.elems) srcs
      → HaveRow p j cols srcs
  RowFits-HaveRow j [] [] e h = tt
  RowFits-HaveRow j [] (s ∷ srcs) e h = absurd (omega (arith, e))
  RowFits-HaveRow j (c ∷ cols) [] e h = absurd (omega (arith, e))
  RowFits-HaveRow j (c ∷ cols) (s ∷ srcs) e h =
      (h.0, RowFits-HaveRow j cols srcs (omega (arith, e)) h.1)

  length-Same : (r : ℕ) (cs ds : List (Array Elem)) → Same p r cs ds → length ds ≡ length cs
  length-Same r [] [] h = refl
  length-Same r [] (d ∷ ds) h = absurd h
  length-Same r (c ∷ cs) [] h = absurd h
  length-Same r (c ∷ cs) (d ∷ ds) h = ap suc (length-Same r cs ds h.1)

  next_row : (n : ℕ) → suc n ≢ n
  next_row n q = omega (arith, q)

  -- What the loops keep: the arrays have their length, and the current row is at most one past them.
  pub record IsGoing (n width : ℕ) (s : Filling p) : Type 0 where
    pub ready : IsReady p n s
    pub within : s.row ≤ n
    pub wide : length s.columns ≡ width

  pub fill_rest-returns :
      (n width rounds : ℕ) (s : Filling p)
      → IsGoing n width s
      → rounds + s.row ≡ n
      → (s' : Filling p) × (fill_rest p rounds s ≡ ok s') × (length s'.columns ≡ width)
  unfolding fill_rest
  fill_rest-returns n width zero s g e = (s, refl, g.wide)
  fill_rest-returns n width (suc rounds) s g e =
      let (s1, ran, emptied) = fill_empty-ok p n s g.ready (omega (arith, e)) in
      let next : Filling p = record s1 { row = s1.row + 1 } in
      let going : IsGoing n width next = record {
        ready = record { valid_sized = emptied.ready.valid_sized; ready = emptied.ready.ready };
        within = omega (arith, e, emptied.same_row);
        wide =
            length-Same (suc s.row) s.columns s1.columns
              (emptied.others (suc s.row) (next_row s.row))
            ∙ g.wide;
      } in
      let (s2, later, wide) =
        fill_rest-returns n width rounds next going (omega (arith, e, emptied.same_row)) in
      (s2, rw (ran, later) refl, wide)

  module _ (e : EpicsTime) (timestamps : List TimeStamp) (end_ts : TimeStamp) (width : ℕ) where
    abbrev step : Filling p → TimeStamp → List (Array Elem) → ℕ → Result (Filling p × Bool)
    step = align_row p e timestamps end_ts

    -- What a call of the function for one row at row `i` does. It throws only where no timestamp is left.
    abbrev Goes : ℕ → Result (Filling p × Bool) → Type 0
    Goes i (err x) = (x ≡ bad_access) × (length timestamps ≤ i)
    Goes i (ok (s', done)) = IsGoing (length timestamps) width s' × (s'.row ≤ suc i)

    align_at-Goes :
        (row_ts : TimeStamp) (s : Filling p) (t : TimeStamp) (cols : List (Array Elem)) (j : ℕ)
        → IsGoing (length timestamps) width s
        → s.row < length timestamps
        → RowFits width (t, cols, j)
        → Goes s.row (align_at p e row_ts s t cols j)
    unfolding align_at
    align_at-Goes row_ts s t cols j g lt fits = elim (Bool-cases (stamp_eq e t row_ts)) [
      | inl x ↦
          let (s1, ran, copied) =
            fill_copy-ok p (length timestamps) s j cols g.ready
              (RowFits-HaveRow j s.columns cols (g.wide ∙ sym fits.0) fits.1) lt in
          rw (x, ran)
            (
              record {
                ready = copied.ready;
                within = omega (arith, copied.next_row, lt);
                wide =
                    length-Same (suc s.row) s.columns s1.columns
                      (copied.others (suc s.row) (next_row s.row))
                    ∙ g.wide;
              },
              omega (arith, copied.next_row),
            )
      | inr x ↦ elim (Bool-cases (stamp_gt e t row_ts)) [
        | inl y ↦
            let (s1, ran, emptied) = fill_empty-ok p (length timestamps) s g.ready lt in
            rw (x, y, ran)
              (
                record {
                  ready = emptied.ready;
                  within = omega (arith, emptied.same_row, lt);
                  wide =
                      length-Same (suc s.row) s.columns s1.columns
                        (emptied.others (suc s.row) (next_row s.row))
                      ∙ g.wide;
                },
                omega (arith, emptied.same_row),
              )
        | inr y ↦
            rw (x, y)
              (
                record {
                  ready = record { valid_sized = g.ready.valid_sized; ready = g.ready.ready };
                  within = omega (arith, lt);
                  wide = g.wide;
                },
                omega arith,
              )
      ]
    ]

    align_row-Goes :
        (s : Filling p) (t : TimeStamp) (cols : List (Array Elem)) (j : ℕ)
        → IsGoing (length timestamps) width s
        → RowFits width (t, cols, j)
        → Goes s.row (step s t cols j)
    unfolding align_row
    align_row-Goes s t cols j g fits = elim (Bool-cases (leb (length timestamps) s.row)) [
      | inl x ↦
          let le : length timestamps ≤ s.row = leb_le (length timestamps) s.row x in
          rw (get_elem?-past timestamps s.row le) (refl, le)
      | inr x ↦
          let lt : s.row < length timestamps = not_leb (length timestamps) s.row x in
          let (row_ts, at) = get_elem?-some timestamps s.row lt in
          elim (Bool-cases (stamp_gt e t end_ts)) [
            | inl y ↦ rw (at, x, y) (g, omega arith)
            | inr y ↦ rw (at, x, y) (align_at-Goes row_ts s t cols j g lt fits)
          ]
    ]
      where
        leb_le : (n i : ℕ) → leb n i ≡ true → n ≤ i
        leb_le n i h = ground arith

        not_leb : (n i : ℕ) → leb n i ≡ false → i < n
        not_leb n i h = ground arith

    -- What the loop over such rows does. It throws only where there are more rows than timestamps.
    abbrev pub Consumed : ℕ → Result (Filling p × List (Row p)) → Type 0
    Consumed held (err x) = (x ≡ bad_access) × (length timestamps < held)
    Consumed held (ok (s', rest)) = IsGoing (length timestamps) width s' × All (RowFits width) rest

    more_held :
        (n m : ℕ) (r : Result (Filling p × List (Row p))) → n ≤ m → Consumed n r → Consumed m r
    more_held n m (err x) le h = (h.0, omega (arith, h.1))
    more_held n m (ok r) le h = h

    pub consume_list-Consumed :
        (rs : List (Row p)) (s : Filling p)
        → IsGoing (length timestamps) width s
        → All (RowFits width) rs
        → Consumed (s.row + length rs) (consume_list p step s rs)
    consume_list-Consumed [] s g fits = (g, tt)
    consume_list-Consumed ((t, cols, j) ∷ rs) s g fits =
        by_row (step s t cols j) (align_row-Goes s t cols j g fits.0)
          (λ x k. consume_list-Consumed rs x k fits.1)
      where
        by_row :
            (r : Result (Filling p × Bool))
            → Goes s.row r
            → ((x : Filling p)
                → IsGoing (length timestamps) width x
                → Consumed (x.row + length rs) (consume_list p step x rs))
            → Consumed
                (s.row + suc (length rs))
                (r >>= λ y. if y.1 then ok (y.0, (t, cols, j) ∷ rs) else consume_list p step y.0 rs)
        by_row (err x) h k = (h.0, omega (arith, h.1))
        by_row (ok (s1, true)) h k = (h.0, fits)
        by_row (ok (s1, false)) h k =
            more_held (s1.row + length rs) (s.row + suc (length rs)) (consume_list p step s1 rs)
              (omega (arith, h.1)) (k s1 h.0)
