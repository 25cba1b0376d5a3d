-- ===== src/Merger/Progress.antt =====
-- The rounds of the reactor against the rows that the buffers hold.
use bsas_sc.Common.{
  false, ℕ, ◌+◌, ◌≤◌, true, ◌≡◌, refl, sym, subst, inl, inr, Bool-cases, not_true→false, Option,
  none, some, List, [], ◌∷◌, ◌++◌, length, length-append, All, Text, Result, ok, err, bad_access,
  ◌>>=◌, arith,
}
use bsas_sc.Stamp.{EpicsTime, EpicsTimeStamp, TimeStamp, stamp_lt, stamp_le, stamp_gt}
use bsas_sc.Stamp.Order.{stamp_gt_iff, stamp_lt_iff, stamp_le_iff, stamp_lt_trans}
use bsas_sc.Stamp.Span.{reset_span, time_span_of, max_ts}
use bsas_sc.Stamp.Span.Laws.{valid_spans}
use bsas_sc.Stamp.Span.Earliest.{StartsAt, bounds_of-earliest}
use bsas_sc.Pvxs.{Pvxs}
use bsas_sc.Buffer.{TableBuffer, is_empty, time_span}
use bsas_sc.Align.{TimeAligned, time_spans, get_timebounds, extract, collect_timestamps}
use bsas_sc.Align.Progress.{AreSound, total_rows, extract-shrinks}
use bsas_sc.Align.Returns.{IsMergeable, ExtractDone, extract-Done}
use bsas_sc.Align.Oldest.{AnyStarts, start-IsSound, length-collect_timestamps, total_due-AnyStarts}
use bsas_sc.Merger.{EpicsClock, Reactor, Decision, timed_out, sleep, extract_range, decide, round}
use bsas_sc.Merger.Ranges.{AnyStarts-time_spans, Chosen, decide-Chosen}

module _ (p : Pvxs) (e : EpicsTime) (c : EpicsClock e) where
  open p use {Value}
  open c use {Double, zero_sec, lt, diff_in_seconds, add_seconds}

  -- The values posted and the rows that are still to be posted.
  abbrev pub posted_and_held : Reactor p e c → ℕ
  posted_and_held s = length s.posted + total_rows p s.table.buffers

  -- What rounds lead to from a reactor, for buffers whose rows are all before the bound: the loop is left,
  -- or the table is as sound as before and the values posted and the rows held are together no more; the
  -- only exception is an access out of bounds.
  pub record IsAfter (bound : TimeStamp) (s s' : Reactor p e c) : Type 0 where
    pub sound : AreSound p e bound s'.table.buffers
    pub mergeable : IsMergeable p s'.table
    pub no_more : posted_and_held s' ≤ posted_and_held s

  abbrev pub Leads : TimeStamp → Reactor p e c → Result (Option (Reactor p e c)) → Type 0
  Leads bound s (err x) = x ≡ bad_access
  Leads bound s (ok none) = Unit
  Leads bound s (ok (some s')) = IsAfter bound s s'

  not_after :
      (start end : TimeStamp)
      → e.time_less_than start.ts end.ts ≡ true
      → stamp_gt e start end ≡ false
  not_after start end h = not_true→false (stamp_gt e start end) (λ q.
      let before = (e.time_less_than_iff start.ts end.ts).0 h in
      let after = (stamp_gt_iff e start end).0 q in omega (arith, before, after))

  AnyStarts-before :
      (bound start end : TimeStamp) (m : List (Text × TableBuffer Value))
      → AreSound p e bound m
      → AnyStarts p e start end m
      → stamp_lt e start bound ≡ true
  AnyStarts-before bound start end [] sound any = absurd any
  AnyStarts-before bound start end ((k, b) ∷ m) sound (inr any) =
      AnyStarts-before bound start end m sound.1 any
  AnyStarts-before bound start end ((k, b) ∷ m) sound (inl (some_row, at)) =
      subst (λ t. stamp_lt e t bound ≡ true) at (start-IsSound p e bound b sound.0 some_row)

  extract_round :
      (bound : TimeStamp) (later : EpicsTimeStamp) (s : Reactor p e c) (start end : TimeStamp)
      → AreSound p e bound s.table.buffers
      → IsMergeable p s.table
      → AnyStarts p e start end s.table.buffers
      → e.time_less_than start.ts end.ts ≡ true
      → Leads bound s (
          extract p e s.table start end >>= λ (t, value).
          ok (some (record { table = t; last_update = later; posted = s.posted ++ value ∷ [] })))
  extract_round bound later s start end sound mergeable any lt_end =
      by_result (extract p e s.table start end) refl
        (extract-Done p e s.table start end (not_after start end lt_end) mergeable)
    where
      by_result :
          (r : Result (TimeAligned Value × Value))
          → extract p e s.table start end ≡ r
          → ExtractDone p e s.table start end r
          → Leads bound s (
              r >>= λ (t, value).
              ok
                (some (record { table = t; last_update = later; posted = s.posted ++ value ∷ [] })))
      by_result (err x) ran done = done.0
      by_result (ok (t, value)) ran mergeable' =
          let m = s.table.buffers in
          let ts = collect_timestamps p e start end m [] in
          let (sound', le) =
            extract-shrinks p e bound s.table t value start end sound
              (length-collect_timestamps p e start end bound m sound any lt_end) ran in
          let pos = total_due-AnyStarts p e start end bound ts m sound any lt_end in
          record {
            sound = sound';
            mergeable = mergeable';
            no_more = omega (arith, le, pos, length-append s.posted (value ∷ []));
          }

  below_max :
      (a bound : TimeStamp)
      → stamp_lt e a bound ≡ true
      → stamp_le e bound max_ts ≡ true
      → stamp_lt e a max_ts ≡ true
  below_max a bound lt le = elim ((stamp_le_iff e bound max_ts).0 le) [
    | inl before ↦ stamp_lt_trans e a bound max_ts lt ((stamp_lt_iff e bound max_ts).1 before)
    | inr same ↦ subst (λ t. stamp_lt e a t ≡ true) same lt
  ]

  -- Every span starts before `MAX_TS`, with which the search for the earliest start begins.
  valid_spans-AreSound :
      (bound : TimeStamp) (m : List (Text × TableBuffer Value))
      → stamp_le e bound max_ts ≡ true
      → AreSound p e bound m
      → All (λ s. stamp_lt e s.start max_ts ≡ true) (valid_spans e (time_spans m))
  unfolding time_spans time_span reset_span time_span_of
  valid_spans-AreSound bound [] le sound = tt
  valid_spans-AreSound bound ((k, b) ∷ m) le sound = elim (Bool-cases (is_empty b)) [
    | inl x ↦ rw x (valid_spans-AreSound bound m le sound.1)
    | inr x ↦ rw x (
      below_max b.start_ts bound (start-IsSound p e bound b sound.0 x) le,
      valid_spans-AreSound bound m le sound.1,
    )
  ]

  -- The period added to a time before the bound gives a later one.
  abbrev pub GoesOn : TimeStamp → Double → Type 0
  GoesOn bound period =
      (t : TimeStamp)
      → stamp_lt e t bound ≡ true
      → e.time_less_than t.ts (add_seconds t.ts period) ≡ true

  round-Leads :
      (bound : TimeStamp) (period timeout : Double) (now later : EpicsTimeStamp) (s : Reactor p e c)
      → stamp_le e bound max_ts ≡ true
      → GoesOn bound period
      → AreSound p e bound s.table.buffers
      → IsMergeable p s.table
      → Leads bound s (round p e c period timeout now later s)
  unfolding round get_timebounds
  round-Leads bound period timeout now later s le goes_on sound mergeable =
      by_decision (decide p e c period timeout now s) (decide-Chosen p e c period timeout now s)
    where
      by_decision :
          (d : Decision p e c)
          → Chosen p e c period s d
          → Leads bound s (elim d [
            | timed_out ↦ ok none
            | sleep ↦ ok (some s)
            | extract_range start end ↦ extract p e s.table start end >>= λ (t, value).
                ok (
                  some (record { table = t; last_update = later; posted = s.posted ++ value ∷ [] }))
          ])
      by_decision timed_out k = tt
      by_decision sleep k = record { sound = sound; mergeable = mergeable; no_more = omega arith }
      by_decision (extract_range start end) k =
          let m = s.table.buffers in
          let found =
            bounds_of-earliest e (time_spans m) k.bounded (valid_spans-AreSound bound m le sound) in
          let starts = subst (λ t. StartsAt t (time_spans m)) (sym k.from) found in
          let any = AnyStarts-time_spans p e c start end m starts in
          let before = AnyStarts-before bound start end m sound any in
          let lt_end =
            subst (λ t. e.time_less_than start.ts t ≡ true) (sym k.for_period)
              (goes_on start before) in
          extract_round bound later s start end sound mergeable any lt_end

  -- Rounds at the given times, with no update between them; `none` once the loop is left.
  abbrev pub rounds :
      Double
      → Double
      → List (EpicsTimeStamp × EpicsTimeStamp)
      → Reactor p e c
      → Result (Option (Reactor p e c))
  rounds period timeout [] s = ok (some s)
  rounds period timeout ((now, later) ∷ times) s =
      let rest = λ (s' : Reactor p e c). rounds period timeout times s' in
      round p e c period timeout now later s >>= λ o. elim o [ none ↦ ok none | some s' ↦ rest s' ]

  IsAfter-trans :
      (bound : TimeStamp) (s t : Reactor p e c) (r : Result (Option (Reactor p e c)))
      → IsAfter bound s t
      → Leads bound t r
      → Leads bound s r
  IsAfter-trans bound s t (err x) a h = h
  IsAfter-trans bound s t (ok none) a h = tt
  IsAfter-trans bound s t (ok (some u)) a h = record {
    sound = h.sound;
    mergeable = h.mergeable;
    no_more = omega (arith, h.no_more, a.no_more);
  }

  -- Rounds without an update between them, any number of them: until the loop is left, the values posted
  -- and the rows held are together never more than at the beginning, so that the reactor posts at most as
  -- many values as the buffers held rows, and the buffers and the merged table stay as sound as they were.
  -- The only exception that the rounds can throw is an access out of bounds in `extract`. It is supposed
  -- that the buffers are valid, with a type of array columns in all of which their rows stand, and the
  -- stamps of their oldest and newest rows; that the merged table has its type, with one column for each of
  -- theirs; and that all rows are before some stamp, not after `MAX_TS`, before which the period added to a
  -- time gives a later one, so that the seconds do not wrap around.
  pub rounds-Leads :
      (bound : TimeStamp) (period timeout : Double) (times : List (EpicsTimeStamp × EpicsTimeStamp))
      (s : Reactor p e c)
      → stamp_le e bound max_ts ≡ true
      → GoesOn bound period
      → AreSound p e bound s.table.buffers
      → IsMergeable p s.table
      → Leads bound s (rounds period timeout times s)
  rounds-Leads bound period timeout [] s le goes_on sound mergeable = record {
    sound = sound;
    mergeable = mergeable;
    no_more = omega arith;
  }
  rounds-Leads bound period timeout ((now, later) ∷ times) s le goes_on sound mergeable =
      by_round (round p e c period timeout now later s)
        (round-Leads bound period timeout now later s le goes_on sound mergeable)
        (λ s1 sound1 mergeable1.
          rounds-Leads bound period timeout times s1 le goes_on sound1 mergeable1)
    where
      by_round :
          (r : Result (Option (Reactor p e c)))
          → Leads bound s r
          → ((s1 : Reactor p e c)
              → AreSound p e bound s1.table.buffers
              → IsMergeable p s1.table
              → Leads bound s1 (rounds period timeout times s1))
          → Leads bound s
              (r >>= λ o. elim o [ none ↦ ok none | some s' ↦ rounds period timeout times s' ])
      by_round (err x) h k = h
      by_round (ok none) h k = tt
      by_round (ok (some s1)) after k =
          IsAfter-trans bound s s1 (rounds period timeout times s1) after
            (k s1 after.sound after.mergeable)
