-- ===== src/Stamp/Span/Laws.antt =====
-- What the constructor of `TimeBounds` computes from a list of time spans.
use bsas_sc.Common.{
  Bool, true, false, ◌≡◌, inl, inr, refl, List, [], ◌∷◌, All, arith, Bool-cases, ◌||◌, ◌↔◌, ◌≢◌,
  if◌then◌else◌,
}
use bsas_sc.Stamp.{EpicsTime, TimeStamp, stamp_lt, stamp_min, stamp_max}
use bsas_sc.Stamp.Order.{stamp_lt_trans, stamp_lt_irrefl, stamp_lt_connected, stamp_lt_asymm}
use bsas_sc.Stamp.Span.{TimeSpan, TimeBounds, bounds_step, bounds_loop, bounds_of, reset_bounds}

module _ (e : EpicsTime) where
  -- `a` is not after `b`.
  abbrev pub NotAfter : TimeStamp → TimeStamp → Type 0
  NotAfter a b = stamp_lt e b a ≡ false

  NotAfter-trans : (a b c : TimeStamp) → NotAfter a b → NotAfter b c → NotAfter a c
  NotAfter-trans a b c h k = elim (Bool-cases (stamp_lt e c a)) [
    | inl ca ↦ elim (Bool-cases (stamp_lt e b c)) [
      | inl bc ↦ cc (stamp_lt_trans e b c a bc ca, h)
      | inr bc ↦ let p = stamp_lt_connected e b c bc k in cc
    ]
    | inr no_ca ↦ no_ca
  ]

  stamp_min_left : (a b : TimeStamp) → NotAfter (stamp_min e a b) a
  unfolding stamp_min
  stamp_min_left a b = ground (arith, stamp_lt_irrefl e a, stamp_lt_asymm e b a)

  stamp_min_right : (a b : TimeStamp) → NotAfter (stamp_min e a b) b
  unfolding stamp_min
  stamp_min_right a b = ground (arith, stamp_lt_irrefl e b)

  stamp_max_left : (a b : TimeStamp) → NotAfter a (stamp_max e a b)
  unfolding stamp_max
  stamp_max_left a b = ground (arith, stamp_lt_irrefl e a, stamp_lt_asymm e a b)

  stamp_max_right : (a b : TimeStamp) → NotAfter b (stamp_max e a b)
  unfolding stamp_max
  stamp_max_right a b = ground (arith, stamp_lt_irrefl e b)

  -- The bounds enclose a span.
  pub record Encloses (b : TimeBounds) (s : TimeSpan) : Type 0 where
    pub start_above : NotAfter b.earliest_start s.start
    pub end_above : NotAfter b.earliest_end s.end
    pub start_below : NotAfter s.start b.latest_start
    pub end_below : NotAfter s.end b.latest_end

  -- The first bounds are nowhere outside the second.
  pub record Within (b c : TimeBounds) : Type 0 where
    pub start_after : NotAfter c.earliest_start b.earliest_start
    pub end_after : NotAfter c.earliest_end b.earliest_end
    pub start_before : NotAfter b.latest_start c.latest_start
    pub end_before : NotAfter b.latest_end c.latest_end

  bounds_step-Within : (b : TimeBounds) (s : TimeSpan) → Within b (bounds_step e b s)
  unfolding bounds_step
  bounds_step-Within b s = elim (Bool-cases s.valid) [
    | inl v ↦ rw v (record {
      start_after = stamp_min_right s.start b.earliest_start;
      end_after = stamp_min_right s.end b.earliest_end;
      start_before = stamp_max_right s.start b.latest_start;
      end_before = stamp_max_right s.end b.latest_end;
    })
    | inr v ↦ rw v (record {
      start_after = stamp_lt_irrefl e b.earliest_start;
      end_after = stamp_lt_irrefl e b.earliest_end;
      start_before = stamp_lt_irrefl e b.latest_start;
      end_before = stamp_lt_irrefl e b.latest_end;
    })
  ]

  bounds_step-Encloses :
      (b : TimeBounds) (s : TimeSpan) → s.valid ≡ true → Encloses (bounds_step e b s) s
  unfolding bounds_step
  bounds_step-Encloses b s v = rw v (record {
    start_above = stamp_min_left s.start b.earliest_start;
    end_above = stamp_min_left s.end b.earliest_end;
    start_below = stamp_max_left s.start b.latest_start;
    end_below = stamp_max_left s.end b.latest_end;
  })

  Within-Encloses : (b c : TimeBounds) (s : TimeSpan) → Within b c → Encloses b s → Encloses c s
  Within-Encloses b c s w h = record {
    start_above = NotAfter-trans _ b.earliest_start _ w.start_after h.start_above;
    end_above = NotAfter-trans _ b.earliest_end _ w.end_after h.end_above;
    start_below = NotAfter-trans _ b.latest_start _ h.start_below w.start_before;
    end_below = NotAfter-trans _ b.latest_end _ h.end_below w.end_before;
  }

  bounds_loop-keeps :
      (spans : List TimeSpan) (b : TimeBounds) (s : TimeSpan)
      → Encloses b s
      → Encloses (bounds_loop e b spans) s
  unfolding bounds_loop
  bounds_loop-keeps [] b s h = h
  bounds_loop-keeps (it ∷ spans) b s h =
      bounds_loop-keeps spans (bounds_step e b it) s
        (Within-Encloses b (bounds_step e b it) s (bounds_step-Within b it) h)

  abbrev EnclosesValid : TimeBounds → TimeSpan → Type 0
  EnclosesValid b s = s.valid ≡ true → Encloses b s

  bounds_loop-Encloses :
      (spans : List TimeSpan) (b : TimeBounds) → All (EnclosesValid (bounds_loop e b spans)) spans
  unfolding bounds_loop
  bounds_loop-Encloses [] b = tt
  bounds_loop-Encloses (it ∷ spans) b = (
    (λ v. bounds_loop-keeps spans (bounds_step e b it) it (bounds_step-Encloses b it v)),
    bounds_loop-Encloses spans (bounds_step e b it),
  )

  -- What `c` promises of every valid span and of `b`, the loop promises of its result.
  abbrev Tight : TimeBounds → TimeSpan → Type 0
  Tight c s =
      s.valid ≡ true
      → NotAfter c.earliest_start s.start
        × NotAfter c.earliest_end s.end
        × NotAfter s.start c.latest_start
        × NotAfter s.end c.latest_end

  stamp_min_cases : (t a b : TimeStamp) → NotAfter t a → NotAfter t b → NotAfter t (stamp_min e a b)
  unfolding stamp_min
  stamp_min_cases t a b h k = ground arith

  stamp_max_cases : (t a b : TimeStamp) → NotAfter a t → NotAfter b t → NotAfter (stamp_max e a b) t
  unfolding stamp_max
  stamp_max_cases t a b h k = ground arith

  bounds_step-Tight :
      (b c : TimeBounds) (s : TimeSpan) → Within b c → Tight c s → Within (bounds_step e b s) c
  unfolding bounds_step
  bounds_step-Tight b c s w t = elim (Bool-cases s.valid) [
    | inl v ↦ rw v (record {
      start_after = stamp_min_cases _ s.start b.earliest_start (t v).0 w.start_after;
      end_after = stamp_min_cases _ s.end b.earliest_end (t v).1 w.end_after;
      start_before = stamp_max_cases _ s.start b.latest_start (t v).2 w.start_before;
      end_before = stamp_max_cases _ s.end b.latest_end (t v).3 w.end_before;
    })
    | inr v ↦ rw v w
  ]

  bounds_loop-Tight :
      (spans : List TimeSpan) (b c : TimeBounds)
      → Within b c
      → All (Tight c) spans
      → Within (bounds_loop e b spans) c
  unfolding bounds_loop
  bounds_loop-Tight [] b c w t = w
  bounds_loop-Tight (it ∷ spans) b c w t =
      bounds_loop-Tight spans (bounds_step e b it) c (bounds_step-Tight b c it w t.0) t.1

  abbrev any_valid : List TimeSpan → Bool
  any_valid [] = false
  any_valid (s ∷ spans) = s.valid || any_valid spans

  bounds_loop-valid :
      (spans : List TimeSpan) (b : TimeBounds)
      → (bounds_loop e b spans).valid ≡ (b.valid || any_valid spans)
  unfolding bounds_loop bounds_step
  bounds_loop-valid [] b = ground arith
  bounds_loop-valid (it ∷ spans) b = ground (arith, bounds_loop-valid spans (bounds_step e b it))

  -- The spans that the loop reads.
  abbrev pub valid_spans : List TimeSpan → List TimeSpan
  valid_spans [] = []
  valid_spans (s ∷ spans) = if s.valid then s ∷ valid_spans spans else valid_spans spans

  valid_spans-Encloses :
      (spans : List TimeSpan) (b : TimeBounds)
      → All (EnclosesValid b) spans
      → All (Encloses b) (valid_spans spans)
  valid_spans-Encloses [] b h = tt
  valid_spans-Encloses (s ∷ spans) b h = elim (Bool-cases s.valid) [
    | inl v ↦ simp v (h.0 v, valid_spans-Encloses spans b h.1)
    | inr v ↦ simp v (valid_spans-Encloses spans b h.1)
  ]

  valid_spans-Tight :
      (spans : List TimeSpan) (c : TimeBounds)
      → All (Encloses c) (valid_spans spans)
      → All (Tight c) spans
  valid_spans-Tight [] c h = tt
  valid_spans-Tight (s ∷ spans) c h = elim (Bool-cases s.valid) [
    | inl v ↦
        let k : Encloses c s × All (Encloses c) (valid_spans spans) = simp v at h in
        (
          (λ _. (k.0.start_above, k.0.end_above, k.0.start_below, k.0.end_below)),
          valid_spans-Tight spans c k.1,
        )
    | inr v ↦
        let k : All (Encloses c) (valid_spans spans) = simp v at h in
        ((λ w. cc), valid_spans-Tight spans c k)
  ]

  any_valid-valid_spans :
      (spans : List TimeSpan) → (any_valid spans ≡ true) ↔ (valid_spans spans ≢ [])
  any_valid-valid_spans [] = ((λ h. cc), (λ h. absurd (h refl)))
  any_valid-valid_spans (s ∷ spans) = (
    (λ h. ground (arith, any_valid-valid_spans spans)),
    (λ h. ground (arith, any_valid-valid_spans spans)),
  )

  -- The bounds of a list of spans are valid exactly if some span is, and they enclose every valid
  -- span, whatever the others hold.
  pub bounds_of-Encloses :
      (spans : List TimeSpan)
      → (((bounds_of e spans).valid ≡ true) ↔ (valid_spans spans ≢ []))
        × All (Encloses (bounds_of e spans)) (valid_spans spans)
  unfolding bounds_of
  bounds_of-Encloses spans = (
    rw (bounds_loop-valid spans reset_bounds) (any_valid-valid_spans spans),
    valid_spans-Encloses spans _ (bounds_loop-Encloses spans reset_bounds),
  )

  -- The bounds of a list of spans are the narrowest: they lie within any bounds that enclose every
  -- valid span and that lie within the stamps `MIN_TS` and `MAX_TS` from which the search starts.
  pub bounds_of-narrowest :
      (spans : List TimeSpan) (c : TimeBounds)
      → Within reset_bounds c
      → All (Encloses c) (valid_spans spans)
      → Within (bounds_of e spans) c
  unfolding bounds_of
  bounds_of-narrowest spans c w h =
      bounds_loop-Tight spans reset_bounds c w (valid_spans-Tight spans c h)
