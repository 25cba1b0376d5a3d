-- ===== src/Merger/Ranges.antt =====
-- The range that a round of the reactor extracts, against the spans of the buffers.
use bsas_sc.Common.{true, ◌&&◌, ◌≡◌, refl, inl, inr, Bool-cases, List, [], ◌∷◌, Text}
use bsas_sc.Stamp.{EpicsTime, EpicsTimeStamp, TimeStamp}
use bsas_sc.Stamp.Span.{reset_span, time_span_of}
use bsas_sc.Stamp.Span.Earliest.{StartsAt}
use bsas_sc.Pvxs.{Pvxs}
use bsas_sc.Buffer.{TableBuffer, is_empty, time_span}
use bsas_sc.Align.{time_spans, get_timebounds}
use bsas_sc.Align.Oldest.{AnyStarts}
use bsas_sc.Merger.{
  EpicsClock, Reactor, Decision, timed_out, sleep, extract_range, decide_bounds, decide, span_sec,
}

module _ (p : Pvxs) (e : EpicsTime) (c : EpicsClock e) where
  open p use {Value}
  open c use {Double, zero_sec, lt, diff_in_seconds, add_seconds}

  -- The buffer that the bounds start with.
  pub AnyStarts-time_spans :
      (start end : TimeStamp) (m : List (Text × TableBuffer Value))
      → StartsAt start (time_spans m)
      → AnyStarts p e start end m
  unfolding time_spans time_span reset_span time_span_of
  AnyStarts-time_spans start end [] h = h
  AnyStarts-time_spans start end ((k, b) ∷ m) (inr h) = inr (AnyStarts-time_spans start end m h)
  AnyStarts-time_spans start end ((k, b) ∷ m) (inl h) = elim (Bool-cases (is_empty b)) [
    | inl x ↦ absurd (let q = simp x at h in cc)
    | inr x ↦ inl (x, (simp x at h).1)
  ]

  -- Where a round extracts, from the start of the bounds for a period.
  pub record Extracts (period : Double) (s : Reactor p e c) (start end : TimeStamp) : Type 0 where
    pub bounded : (get_timebounds e s.table).valid ≡ true
    pub from : start ≡ (get_timebounds e s.table).earliest_start
    pub for_period : end.ts ≡ add_seconds start.ts period

  abbrev pub Chosen : Double → Reactor p e c → Decision p e c → Type 0
  Chosen period s timed_out = Unit
  Chosen period s sleep = Unit
  Chosen period s (extract_range start end) = Extracts period s start end

  decide_bounds-Chosen :
      (period timeout : Double) (s : Reactor p e c)
      → Chosen period s (decide_bounds p e c period timeout (get_timebounds e s.table))
  unfolding decide_bounds
  decide_bounds-Chosen period timeout s =
      let bounds = get_timebounds e s.table in
      let shortest = time_span_of bounds.earliest_start bounds.earliest_end in
      let longest = time_span_of bounds.earliest_start bounds.latest_end in
      elim (Bool-cases bounds.valid) [
        | inr v ↦ rw v tt
        | inl v ↦
            elim (Bool-cases
              (lt (span_sec p e c shortest) period && lt (span_sec p e c longest) timeout)) [
                | inl w ↦ rw (v, w) tt
                | inr w ↦ rw (v, w) (record { bounded = v; from = refl; for_period = refl })
              ]
      ]

  pub decide-Chosen :
      (period timeout : Double) (now : EpicsTimeStamp) (s : Reactor p e c)
      → Chosen period s (decide p e c period timeout now s)
  unfolding decide
  decide-Chosen period timeout now s =
      elim (Bool-cases (lt zero_sec timeout && lt timeout (diff_in_seconds now s.last_update))) [
        | inl x ↦ rw x tt
        | inr x ↦ rw x (decide_bounds-Chosen period timeout s)
      ]
