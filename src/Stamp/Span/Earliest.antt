-- ===== src/Stamp/Span/Earliest.antt =====
-- Which of the time spans the earliest start is taken from.
use bsas_sc.Common.{
  true, ◌≡◌, ◌≢◌, refl, sym, ◌∙◌, ap, ◌⊎◌, inl, inr, Bool-cases, List, [], ◌∷◌, All, arith,
}
use bsas_sc.Stamp.{EpicsTime, TimeStamp, stamp_lt, stamp_min}
use bsas_sc.Stamp.Span.{
  TimeSpan, TimeBounds, bounds_step, bounds_loop, bounds_of, reset_bounds, max_ts,
}
use bsas_sc.Stamp.Span.Laws.{Encloses, valid_spans, bounds_of-Encloses}

-- One of the spans is valid and starts there.
abbrev pub StartsAt : TimeStamp → List TimeSpan → Type 0
StartsAt t [] = ⊥
StartsAt t (s ∷ spans) = ((s.valid ≡ true) × (s.start ≡ t)) ⊎ StartsAt t spans

module _ (e : EpicsTime) where
  stamp_min_cases : (a b : TimeStamp) → (stamp_min e a b ≡ a) ⊎ (stamp_min e a b ≡ b)
  unfolding stamp_min
  stamp_min_cases a b = ground arith

  bounds_step-earliest :
      (b : TimeBounds) (s : TimeSpan)
      → ((bounds_step e b s).earliest_start ≡ b.earliest_start)
        ⊎ ((s.valid ≡ true) × (s.start ≡ (bounds_step e b s).earliest_start))
  unfolding bounds_step
  bounds_step-earliest b s = elim (Bool-cases s.valid) [
    | inr v ↦ rw v (inl refl)
    | inl v ↦ elim (stamp_min_cases s.start b.earliest_start) [
      | inl m ↦ inr (v, rw v (sym m))
      | inr m ↦ inl (rw v m)
    ]
  ]

  bounds_loop-earliest :
      (b : TimeBounds) (spans : List TimeSpan)
      → ((bounds_loop e b spans).earliest_start ≡ b.earliest_start)
        ⊎ StartsAt (bounds_loop e b spans).earliest_start spans
  unfolding bounds_loop
  bounds_loop-earliest b [] = inl refl
  bounds_loop-earliest b (s ∷ spans) = elim (bounds_loop-earliest (bounds_step e b s) spans) [
    | inr later ↦ inr (inr later)
    | inl kept ↦ elim (bounds_step-earliest b s) [
      | inl same ↦ inl (kept ∙ same)
      | inr (v, start) ↦ inr (inl (v, start ∙ sym kept))
    ]
  ]

  first_below :
      (b : TimeBounds) (spans : List TimeSpan)
      → spans ≢ []
      → All (Encloses e b) spans
      → All (λ s. stamp_lt e s.start max_ts ≡ true) spans
      → b.earliest_start ≢ max_ts
  first_below b [] some_span enc below q = some_span refl
  first_below b (s ∷ spans) some_span enc below q =
      cc (ap (λ t. stamp_lt e s.start t) q, enc.0.start_above, below.0)

  -- If there are bounds at all, one of the spans starts where they do.
  pub bounds_of-earliest :
      (spans : List TimeSpan)
      → (bounds_of e spans).valid ≡ true
      → All (λ s. stamp_lt e s.start max_ts ≡ true) (valid_spans e spans)
      → StartsAt (bounds_of e spans).earliest_start spans
  unfolding bounds_of reset_bounds
  bounds_of-earliest spans v below =
      let (valid, enclosed) = bounds_of-Encloses e spans in
      elim (bounds_loop-earliest reset_bounds spans) [
        | inr found ↦ found
        | inl top ↦
            absurd
              (first_below (bounds_of e spans) (valid_spans e spans) (valid.0 v) enclosed below top)
      ]
