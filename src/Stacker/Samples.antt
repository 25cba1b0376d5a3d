-- ===== src/Stacker/Samples.antt =====
-- What a `Stacker` promises: batches of samples, in the order of their times, none as long as the period.
use bsas_sc.Common.{
  subst, false, ◌≡◌, refl, ◌∙◌, ap, inl, inr, Bool-cases, if◌then◌else◌, List, [], ◌∷◌, ◌++◌,
  length, All, All-append, append-nil, append_assoc, ◌<◌, sym, arith,
}
use mathlib.Core.List.{flatten}
use bsas_sc.Buffer.{back}
use bsas_sc.Stacker.{EpicsDiff, Sample}

-- The samples of the table to come, and those of the tables posted.
pub record Collected (E : Type 0) : Type 0 where
  pub posted : List (List (Sample E))
  pub current : List (Sample E)

module _ {E : Type 0} (k : EpicsDiff) where
  open k use {Double, diff_in_seconds, le_zero, ge}

  -- A difference of the times of two samples.
  abbrev pub between : Sample E → Sample E → Double
  between x y = diff_in_seconds x.timestamp y.timestamp

  -- A sample that is not later than the one before it empties the table to come and is itself dropped.
  unfoldable pub collect : Double → Collected E → Sample E → Collected E
  collect period q x = elim q.current [
    | [] ↦ record q { current = x ∷ [] }
    | first ∷ rest ↦
        if le_zero (between x (back first rest))
        then record q { current = [] }
        else if ge (between x first) period
        then record { posted = q.posted ++ (first ∷ rest) ∷ []; current = x ∷ [] }
        else record q { current = first ∷ (rest ++ x ∷ []) }
  ]

  unfoldable pub collect_all : Double → Collected E → List (Sample E) → Collected E
  collect_all period q [] = q
  collect_all period q (x ∷ xs) = collect_all period (collect period q x) xs

  -- Every sample is later than the one before it.
  abbrev pub Rising : Sample E → List (Sample E) → Type 0
  Rising x [] = Unit
  Rising x (y ∷ ys) = (le_zero (between y x) ≡ false) × Rising y ys

  abbrev pub AreRising : List (Sample E) → Type 0
  AreRising [] = Unit
  AreRising (x ∷ xs) = Rising x xs

  -- In order, and all within the period of the first.
  abbrev pub IsBatch : Double → List (Sample E) → Type 0
  IsBatch period [] = Unit
  IsBatch period (x ∷ xs) = Rising x xs × All (λ y. ge (between y x) period ≡ false) xs

  pub record IsCollected (period : Double) (q : Collected E) : Type 0 where
    pub batches : All (λ b. (0 < length b) × IsBatch period b) q.posted
    pub batch : IsBatch period q.current

  Rising-append :
      (x : Sample E) (xs : List (Sample E)) (y : Sample E)
      → Rising x xs
      → le_zero (between y (back x xs)) ≡ false
      → Rising x (xs ++ y ∷ [])
  Rising-append x [] y h l = (l, tt)
  Rising-append x (z ∷ zs) y h l = (h.0, Rising-append z zs y h.1 l)

  pub collect-IsCollected :
      (period : Double) (q : Collected E) (x : Sample E)
      → IsCollected period q
      → IsCollected period (collect period q x)
  unfolding collect
  collect-IsCollected period q x h = by_current q.posted q.current h.batches h.batch
    where
      by_current :
          (posted : List (List (Sample E))) (c : List (Sample E))
          → All (λ b. (0 < length b) × IsBatch period b) posted
          → IsBatch period c
          → IsCollected period (collect period (record { posted = posted; current = c }) x)
      by_current posted [] bs b = record { batches = bs; batch = (tt, tt) }
      by_current posted (first ∷ rest) bs b =
          elim (Bool-cases (le_zero (between x (back first rest)))) [
            | inl l ↦ rw l record { batches = bs; batch = tt }
            | inr l ↦ elim (Bool-cases (ge (between x first) period)) [
              | inl g ↦
                  rw (l, g)
                    record {
                      batches = All-append _ posted _ bs ((omega arith, b), tt);
                      batch = (tt, tt);
                    }
              | inr g ↦
                  rw (l, g)
                    record {
                      batches = bs;
                      batch = (Rising-append first rest x b.0 l, All-append _ rest _ b.1 (g, tt));
                    }
            ]
          ]

  pub collect_all-IsCollected :
      (period : Double) (q : Collected E) (xs : List (Sample E))
      → IsCollected period q
      → IsCollected period (collect_all period q xs)
  unfolding collect_all
  collect_all-IsCollected period q [] h = h
  collect_all-IsCollected period q (x ∷ xs) h =
      collect_all-IsCollected period (collect period q x) xs (collect-IsCollected period q x h)

  -- All samples collected, oldest first.
  abbrev pub samples : Collected E → List (Sample E)
  samples q = flatten q.posted ++ q.current

  -- The samples to come follow those collected.
  abbrev Continues : List (Sample E) → List (Sample E) → Type 0
  Continues [] xs = AreRising xs
  Continues (first ∷ rest) xs = Rising (back first rest) xs

  flatten-append :
      (bs : List (List (Sample E))) (b : List (Sample E)) → flatten (bs ++ b ∷ []) ≡ flatten bs ++ b
  unfolding flatten
  flatten-append [] b = append-nil b
  flatten-append (c ∷ bs) b =
      ap (λ xs. c ++ xs) (flatten-append bs b) ∙ sym (append_assoc c (flatten bs) b)

  back-append : (f : Sample E) (rest : List (Sample E)) (x : Sample E) → back f (rest ++ x ∷ []) ≡ x
  back-append f [] x = refl
  back-append f (y ∷ rest) x = back-append y rest x

  collect-samples :
      (period : Double) (q : Collected E) (x : Sample E) (xs : List (Sample E))
      → Continues q.current (x ∷ xs)
      → (samples (collect period q x) ≡ samples q ++ x ∷ [])
        × Continues (collect period q x).current xs
  unfolding collect
  collect-samples period q x xs h = by_current q.posted q.current h
    where
      by_current :
          (posted : List (List (Sample E))) (c : List (Sample E))
          → Continues c (x ∷ xs)
          → (samples (collect period (record { posted = posted; current = c }) x)
              ≡ (flatten posted ++ c) ++ x ∷ [])
            × Continues (collect period (record { posted = posted; current = c }) x).current xs
      by_current posted [] h = (ap (λ ys. ys ++ x ∷ []) (sym (append-nil (flatten posted))), h)
      by_current posted (first ∷ rest) h = elim (Bool-cases (ge (between x first) period)) [
        | inl g ↦ rw (h.0, g) (ap (λ ys. ys ++ x ∷ []) (flatten-append posted (first ∷ rest)), h.1)
        | inr g ↦
            rw (h.0, g)
              (
                sym (append_assoc (flatten posted) (first ∷ rest) (x ∷ [])),
                subst (λ y. Rising y xs) (sym (back-append first rest x)) h.1,
              )
      ]

  pub collect_all-samples :
      (period : Double) (q : Collected E) (xs : List (Sample E))
      → Continues q.current xs
      → samples (collect_all period q xs) ≡ samples q ++ xs
  unfolding collect_all
  collect_all-samples period q [] h = sym (append-nil (samples q))
  collect_all-samples period q (x ∷ xs) h =
      let (e, c) = collect-samples period q x xs h in
      collect_all-samples period (collect period q x) xs c
      ∙ ap (λ ys. ys ++ xs) e
      ∙ append_assoc (samples q) (x ∷ []) xs
