-- ===== src/Align/Complete.antt =====
-- A buffer that has a row for every timestamp of the extracted range, and the loop that fills the rows
-- that are left.
use bsas_sc.Common.{
  ℕ, zero, suc, ◌<◌, ◌≤◌, ◌≡◌, ◌≢◌, refl, ap, sym, ◌∙◌, subst, Bool, true, false, some, List, [],
  ◌∷◌, ◌++◌, map, length, drop, get_elem?, get_elem?-set_self, get_elem?-set_ne, All, Result, ok,
  err, bad_access, get_elem?-past, arith, leb,
}
use bsas_sc.Stamp.{EpicsTime, TimeStamp, stamp_gt}
use bsas_sc.Stamp.Order.{stamp_eq_iff}
use bsas_sc.Pvxs.{Pvxs, Array}
use bsas_sc.Buffer.Rows.{Row}
use bsas_sc.Buffer.Inner.{consume_list}
use bsas_sc.Align.{Filling, align_at, align_row, fill_copy}
use bsas_sc.Align.Row.{
  IsReady, Same, Same-refl, Same-trans, Holds, Holds-Same, HaveRow, fill_copy-ok,
}

pub drop-cons {ℓ} :
    {A : Type ℓ} (xs : List A) (i : ℕ) (y : A) (ys : List A)
    → drop i xs ≡ y ∷ ys
    → (get_elem? xs i ≡ some y) × (drop (suc i) xs ≡ ys) × (i < length xs)
drop-cons [] zero y ys h = cc
drop-cons [] (suc i) y ys h = cc
drop-cons (x ∷ xs) zero y ys h = (cc, cc, omega arith)
drop-cons (x ∷ xs) (suc i) y ys h = let q = drop-cons xs i y ys h in (q.0, q.1, omega (arith, q.2))

drop-eq-nil {ℓ} : {A : Type ℓ} (xs : List A) (i : ℕ) → drop i xs ≡ [] → length xs ≤ i
drop-eq-nil [] i h = omega arith
drop-eq-nil (x ∷ xs) zero h = cc
drop-eq-nil (x ∷ xs) (suc i) h = omega (arith, drop-eq-nil xs i h)

module _ (p : Pvxs) (e : EpicsTime) (timestamps : List TimeStamp) (end_ts : TimeStamp) where
  open p use {Elem, bool_elem}

  -- At row `r` nothing has changed.
  pub record Kept (r : ℕ) (s s' : Filling p) : Type 0 where
    pub same_columns : Same p r s.columns s'.columns
    pub same_valid : get_elem? s'.valid r ≡ get_elem? s.valid r

  -- From row `i` on, the rows are marked as valid and hold the given rows of the buffer.
  abbrev pub AllHold : ℕ → List (Row p) → List Elem → List (Array Elem) → Type 0
  AllHold i [] valid columns = Unit
  AllHold i ((t, cols, j) ∷ rs) valid columns =
      (get_elem? valid i ≡ some (bool_elem true))
      × Holds p i columns j cols
      × AllHold (suc i) rs valid columns

  abbrev pub RowFits : List (Array Elem) → Row p → Type 0
  RowFits columns (t, cols, j) = HaveRow p j columns cols

  abbrev pub InTime : Row p → Type 0
  InTime r = stamp_gt e r.0 end_ts ≡ false

  HaveRow-Same :
      (r j : ℕ) (cs ds ss : List (Array Elem))
      → HaveRow p j cs ss
      → Same p r cs ds
      → HaveRow p j ds ss
  HaveRow-Same r j [] [] [] h k = tt
  HaveRow-Same r j (c ∷ cs) (d ∷ ds) (s ∷ ss) h k = (h.0, HaveRow-Same r j cs ds ss h.1 k.1)
  HaveRow-Same r j [] ds (s ∷ ss) h k = absurd h
  HaveRow-Same r j [] (d ∷ ds) [] h k = absurd k
  HaveRow-Same r j (c ∷ cs) ds [] h k = absurd h
  HaveRow-Same r j (c ∷ cs) [] (s ∷ ss) h k = absurd k

  fits-Same :
      (r : ℕ) (cs ds : List (Array Elem)) (rs : List (Row p))
      → Same p r cs ds
      → All (RowFits cs) rs
      → All (RowFits ds) rs
  fits-Same r cs ds [] h k = tt
  fits-Same r cs ds ((t, cols, j) ∷ rs) h k =
      (HaveRow-Same r j cs ds cols k.0 h, fits-Same r cs ds rs h k.1)

  -- One row with the timestamp of the current row is copied.
  align_row-equal :
      (s : Filling p) (t : TimeStamp) (cols : List (Array Elem)) (j : ℕ) (s' : Filling p)
      → s.row < length timestamps
      → get_elem? timestamps s.row ≡ some t
      → stamp_gt e t end_ts ≡ false
      → fill_copy p s cols j ≡ ok s'
      → align_row p e timestamps end_ts s t cols j ≡ ok (s', false)
  unfolding align_row align_at
  align_row-equal s t cols j s' lt at in_time c =
      simp (past, in_time, at, (stamp_eq_iff e t t).1 refl, c)
    where
      past : leb (length timestamps) s.row ≡ false
      past = ground arith

  abbrev step : Filling p → TimeStamp → List (Array Elem) → ℕ → Result (Filling p × Bool)
  step = align_row p e timestamps end_ts

  -- One more row, whatever it holds, is an access out of bounds.
  pub consume_list-overruns :
      (s : Filling p) (r : Row p) (later : List (Row p))
      → s.row ≡ length timestamps
      → consume_list p step s (r ∷ later) ≡ err bad_access
  unfolding align_row
  consume_list-overruns s (t, cols, j) later h =
      simp (get_elem?-past timestamps s.row (omega (arith, h)))

  Same-length : (r : ℕ) (cs ds : List (Array Elem)) → Same p r cs ds → length cs ≡ length ds
  Same-length r [] [] h = refl
  Same-length r [] (d ∷ ds) h = absurd h
  Same-length r (c ∷ cs) [] h = absurd h
  Same-length r (c ∷ cs) (d ∷ ds) h = ap suc (Same-length r cs ds h.1)

  -- What the run leaves.
  pub record Ran (s s' : Filling p) (rs : List (Row p)) : Type 0 where
    pub ready : IsReady p (length timestamps) s'
    pub at_end : s'.row ≡ length timestamps
    pub holds : AllHold s.row rs s'.valid s'.columns
    pub count : length s'.columns ≡ length s.columns
    pub kept : (r : ℕ) → r < s.row → Kept r s s'

  pub aligned_run :
      (rs later : List (Row p)) (s : Filling p)
      → IsReady p (length timestamps) s
      → s.row ≤ length timestamps
      → drop s.row timestamps ≡ map (λ r. r.0) rs
      → All InTime rs
      → All (RowFits s.columns) rs
      → (s' : Filling p) × (consume_list p step s (rs ++ later) ≡ consume_list p step s' later)
        × Ran s s' rs
  aligned_run [] later s h le d t f =
      let past = drop-eq-nil timestamps s.row d in
      (
        s,
        refl,
        record {
          ready = h;
          at_end = omega arith;
          holds = tt;
          count = refl;
          kept = λ r lt. record { same_columns = Same-refl p r s.columns; same_valid = refl };
        },
      )
  aligned_run ((t, cols, j) ∷ rs) later s h le d in_time f =
      let q = drop-cons timestamps s.row t (map (λ r. r.0) rs) d in
      let (s1, c, copied) = fill_copy-ok p (length timestamps) s j cols h f.0 q.2 in
      let other : suc s.row ≢ s.row = omega arith in
      let (s2, run, ran) =
        aligned_run rs later s1 copied.ready (omega (arith, copied.next_row, q.2))
          (ap (λ n. drop n timestamps) copied.next_row ∙ q.1) in_time.1
          (fits-Same (suc s.row) s.columns s1.columns rs (copied.others (suc s.row) other) f.1) in
      let kept_now = ran.kept s.row (omega (arith, copied.next_row)) in
      (
        s2,
        rw (align_row-equal s t cols j s1 q.2 q.0 in_time.0 c) run,
        record {
          ready = ran.ready;
          at_end = ran.at_end;
          holds = (
            kept_now.same_valid
                ∙ ap (λ v. get_elem? v s.row) copied.marked
                ∙ get_elem?-set_self s.valid s.row (bool_elem true)
                    (omega (arith, h.valid_sized, q.2)),
            Holds-Same p s.row j s1.columns s2.columns cols copied.holds kept_now.same_columns,
            subst (λ n. AllHold n rs s2.valid s2.columns) copied.next_row ran.holds,
          );
          count =
              ran.count
              ∙ sym
                  (Same-length (suc s.row) s.columns s1.columns (copied.others (suc s.row) other));
          kept = λ r lt.
              let k = ran.kept r (omega (arith, copied.next_row, lt)) in
              let ne : r ≢ s.row = omega (arith, lt) in
              record {
                same_columns =
                    Same-trans p r s.columns s1.columns s2.columns (copied.others r ne)
                      k.same_columns;
                same_valid =
                    k.same_valid
                    ∙ ap (λ v. get_elem? v r) copied.marked
                    ∙ get_elem?-set_ne s.valid (bool_elem true) (λ x. ne (sym x));
              };
        },
      )
