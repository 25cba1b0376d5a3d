-- ===== src/Align/Ahead.antt =====
-- A buffer whose rows are all later than the timestamp of the current row, and the loop that fills the
-- rows that are left.
use bsas_sc.Common.{
  ℕ, zero, suc, ◌+◌, ◌<◌, ◌≤◌, ◌≡◌, refl, ap, ◌∙◌, subst, Bool, true, false, some, List, [], ◌∷◌,
  length, set, get_elem?, get_elem?-set_self, get_elem?-set_ne, All, Result, ok, arith, leb,
  if◌then◌else◌, Bool-cases, inl, inr, ℕ_discrete,
}
use bsas_sc.Stamp.{EpicsTime, TimeStamp, stamp_eq, stamp_gt}
use bsas_sc.Stamp.Order.{stamp_eq_iff, stamp_gt_iff, Before}
use bsas_sc.Pvxs.{Pvxs, Array}
use bsas_sc.Buffer.Rows.{Row}
use bsas_sc.Buffer.Inner.{consume_list}
use bsas_sc.Align.{Filling, align_at, align_row, fill_empty, fill_rest}
use bsas_sc.Align.Row.{IsReady, fill_empty-ok}

module _ (p : Pvxs) where
  open p use {Elem, bool_elem}

  -- The rows from `lo` on are marked as invalid in `v'`, those below are as in `v`.
  pub record Cleared (lo n : ℕ) (v v' : List Elem) : Type 0 where
    pub sized : length v' ≡ n
    pub cleared : (r : ℕ) → lo ≤ r → r < n → get_elem? v' r ≡ some (bool_elem false)
    pub below : (r : ℕ) → r < lo → get_elem? v' r ≡ get_elem? v r

  -- The loop over the remaining rows marks all of them as invalid, and ends.
  pub fill_rest-ok :
      (n rounds : ℕ) (s : Filling p)
      → IsReady p n s
      → rounds + s.row ≡ n
      → (s' : Filling p) × (fill_rest p rounds s ≡ ok s')
        × IsReady p n s'
        × Cleared s.row n s.valid s'.valid
  unfolding fill_rest
  fill_rest-ok n zero s h e = (
    s,
    refl,
    h,
    record {
      sized = h.valid_sized;
      cleared = λ r lo lt. absurd (omega arith);
      below = λ r lt. refl;
    },
  )
  fill_rest-ok n (suc rounds) s h e =
      let (s1, c, empt) = fill_empty-ok p n s h (omega arith) in
      let next : Filling p = record s1 { row = s1.row + 1 } in
      let ready : IsReady p n next = record {
        valid_sized = empt.ready.valid_sized;
        ready = empt.ready.ready;
      } in
      let (s2, d, q, cl) = fill_rest-ok n rounds next ready (omega (arith, empt.same_row)) in
      let fits : s.row < length s.valid = omega (arith, h.valid_sized) in
      (
        s2,
        rw (c, d),
        q,
        record {
          sized = cl.sized;
          cleared = λ r lo lt. elim (ℕ_discrete r s.row) [
            | yes x ↦
                cl.below r (omega (arith, empt.same_row))
                ∙ ap (λ v. get_elem? v r) empt.marked
                ∙ ap (get_elem? (set s.valid s.row (bool_elem false))) x
                ∙ get_elem?-set_self s.valid s.row (bool_elem false) fits
            | no x ↦ cl.cleared r (omega (arith, empt.same_row)) lt
          ];
          below = λ r lt.
              cl.below r (omega (arith, empt.same_row))
              ∙ ap (λ v. get_elem? v r) empt.marked
              ∙ get_elem?-set_ne s.valid (bool_elem false) (λ x. omega arith);
        },
      )

  module _ (e : EpicsTime) (timestamps : List TimeStamp) (end_ts : TimeStamp) where
    -- The rows from the first that is after the end.
    abbrev pub after_end : List (Row p) → List (Row p)
    after_end [] = []
    after_end (r ∷ rs) = if stamp_gt e r.0 end_ts then r ∷ rs else after_end rs

    abbrev step : Filling p → TimeStamp → List (Array Elem) → ℕ → Result (Filling p × Bool)
    step = align_row p e timestamps end_ts

    -- A row after the current timestamp and not after the end empties the current row.
    align_row-ahead :
        (s : Filling p) (row_ts t : TimeStamp) (cols : List (Array Elem)) (j : ℕ) (s' : Filling p)
        → s.row < length timestamps
        → get_elem? timestamps s.row ≡ some row_ts
        → stamp_gt e t row_ts ≡ true
        → stamp_gt e t end_ts ≡ false
        → fill_empty p s ≡ ok s'
        → step s t cols j ≡ ok (s', false)
    unfolding align_row align_at
    align_row-ahead s row_ts t cols j s' lt at ahead in_time c =
        simp (past, in_time, at, ne, ahead, c)
      where
        past : leb (length timestamps) s.row ≡ false
        past = ground arith

        ne : stamp_eq e t row_ts ≡ false
        ne = elim (Bool-cases (stamp_eq e t row_ts)) [
          | inl x ↦
              let same = (stamp_eq_iff e t row_ts).0 x in
              let b = (stamp_gt_iff e t row_ts).0 ahead in
              let b' : Before row_ts row_ts = subst (Before row_ts) same b in absurd (omega arith)
          | inr x ↦ x
        ]

    align_row-after_end :
        (s : Filling p) (row_ts t : TimeStamp) (cols : List (Array Elem)) (j : ℕ)
        → get_elem? timestamps s.row ≡ some row_ts
        → stamp_gt e t end_ts ≡ true
        → step s t cols j ≡ ok (s, true)
    unfolding align_row
    align_row-after_end s row_ts t cols j at h = elim (Bool-cases (leb (length timestamps) s.row)) [
      | inl x ↦ simp (at, x)
      | inr x ↦ simp (at, x, h)
    ]

    -- A run over rows that are all after the current timestamp: it stays at the current row, and takes
    -- every row up to the end.
    pub record Stuck (s s' : Filling p) : Type 0 where
      pub ready : IsReady p (length timestamps) s'
      pub same_row : s'.row ≡ s.row

    pub ahead_run :
        (rs : List (Row p)) (s : Filling p) (row_ts : TimeStamp)
        → IsReady p (length timestamps) s
        → s.row < length timestamps
        → get_elem? timestamps s.row ≡ some row_ts
        → All (λ r. stamp_gt e r.0 row_ts ≡ true) rs
        → (s' : Filling p) × (consume_list p step s rs ≡ ok (s', after_end rs)) × Stuck s s'
    ahead_run [] s row_ts h lt at ahead = (s, refl, record { ready = h; same_row = refl })
    ahead_run ((t, cols, j) ∷ rs) s row_ts h lt at ahead = elim (Bool-cases (stamp_gt e t end_ts)) [
      | inl x ↦ (
        s,
        rw (align_row-after_end s row_ts t cols j at x, x),
        record { ready = h; same_row = refl },
      )
      | inr x ↦
          let (s1, c, empt) = fill_empty-ok p (length timestamps) s h lt in
          let (s2, run, st) =
            ahead_run rs s1 row_ts empt.ready (omega (arith, empt.same_row))
              (ap (get_elem? timestamps) empt.same_row ∙ at) ahead.1 in
          (
            s2,
            rw (align_row-ahead s row_ts t cols j s1 lt at ahead.0 x c, x) run,
            record { ready = st.ready; same_row = st.same_row ∙ empt.same_row },
          )
    ]
