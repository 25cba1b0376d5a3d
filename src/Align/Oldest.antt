-- ===== src/Align/Oldest.antt =====
-- The oldest row of a buffer, against the stamp that the buffer keeps of it.
use bsas_sc.Common.{
  ℕ, zero, suc, ◌<◌, true, false, ◌≡◌, refl, sym, ◌∙◌, ap, subst, ◌⊎◌, inl, inr, Option, none, some,
  List, [], ◌∷◌, ◌++◌, length, drop, get_elem?, get_elem?-some, All, Text, not_true→false, arith,
}
use bsas_sc.Stamp.{EpicsTime, EpicsTimeStamp, TimeStamp, stamp_lt, stamp_ge, stamp_gt}
use bsas_sc.Stamp.Order.{stamp_lt_iff, stamp_gt_iff}
use bsas_sc.Pvxs.{Pvxs, Array}
use bsas_sc.Table.{TimeTable}
use bsas_sc.Buffer.{
  TableBuffer, stamp, seconds_of, nanoseconds_of, pulse_ids_of, column_values, is_empty,
  extract_timestamps_between,
}
use bsas_sc.Buffer.Rows.{
  Row, number_rows, stamps_of, values_rows, typed_rows, rows, IsStored, IsPosition, HasType,
  IsValid, SpanOf,
}
use bsas_sc.Buffer.Inner.{drop-zip_stamps}
use bsas_sc.Buffer.Extract.{
  Has, Has-append, all_stamps, IsSorted, in_range, extract_timestamps_between_lem,
}
use bsas_sc.Align.{collect_timestamps}
use bsas_sc.Align.Taken.{AreBefore}
use bsas_sc.Align.Progress.{due, total_due, IsSound, AreSound}

Has-drop :
    (n : ℕ) (xs : List TimeStamp) (a : TimeStamp) (ys : List TimeStamp)
    → drop n xs ≡ a ∷ ys
    → Has a xs
Has-drop zero xs a ys h = subst (Has a) (sym h) (inl refl)
Has-drop (suc n) [] a ys h = cc
Has-drop (suc n) (x ∷ xs) a ys h = inr (Has-drop n xs a ys h)

module _ (p : Pvxs) where
  open p use {Elem, Value}

  -- The first of the rows has that time, and a stamp that the values hold.
  pub record Oldest (ts : EpicsTimeStamp) (vs : List Value) (rs : List (Row p)) : Type 0 where
    pub first : TimeStamp
    pub rest : List (Row p)
    pub cols : List (Array Elem)
    pub index : ℕ
    pub rows_are : rs ≡ (first, cols, index) ∷ rest
    pub time : first.ts ≡ ts
    pub held : Has first (all_stamps p vs)

  first_of :
      (start : TimeStamp) (t : TimeTable) (inner : ℕ) (v : Value) (vs : List Value)
      → IsStored p v
      → inner < length (seconds_of p v)
      → get_elem? (seconds_of p v) inner ≡ some start.ts.sec_past_epoch
      → get_elem? (nanoseconds_of p v) inner ≡ some start.ts.nsec
      → Oldest start.ts (v ∷ vs) (values_rows p t inner (v ∷ vs))
  first_of start t inner v vs stored lt sec nsec =
      let (id, at) =
        get_elem?-some (pulse_ids_of p v) inner (omega (arith, stored.pulse_ids_rows)) in
      let first = stamp start.ts.sec_past_epoch start.ts.nsec id in
      let rest = drop (suc inner) (stamps_of p v) in
      let e =
        drop-zip_stamps (seconds_of p v) (nanoseconds_of p v) (pulse_ids_of p v) inner
          start.ts.sec_past_epoch start.ts.nsec id sec nsec at in
      record {
        first = first;
        rest = number_rows p (column_values p t v) (suc inner) rest ++ values_rows p t 0 vs;
        cols = column_values p t v;
        index = inner;
        rows_are =
            ap (λ ts. number_rows p (column_values p t v) inner ts ++ values_rows p t 0 vs) e;
        time = refl;
        held =
            (Has-append first (stamps_of p v) (all_stamps p vs)).1
              (inl (Has-drop inner (stamps_of p v) first rest e));
      }

  first_by :
      (b : TableBuffer Value) (o : Option TimeTable) (vs : List Value)
      → All (IsStored p) vs
      → IsPosition p b.inner_idx vs
      → HasType p o vs
      → SpanOf p b vs
      → 0 < length vs
      → Oldest b.start_ts.ts vs (typed_rows p o b.inner_idx vs)
  first_by b o [] stored pos typed span lt = absurd (omega (arith, lt))
  first_by b none (v ∷ vs) stored pos typed span lt = absurd typed
  first_by b (some t) (v ∷ vs) stored pos typed span lt =
      first_of b.start_ts t b.inner_idx v vs stored.0 pos span.0 span.1

  not_empty :
      (b : TableBuffer Value) (vs : List Value) → b.buffer ≡ vs → is_empty b ≡ false → 0 < length vs
  unfolding is_empty
  not_empty b [] e h = cc h
  not_empty b (v ∷ vs) e h = omega arith

  oldest :
      (b : TableBuffer Value)
      → IsValid p b
      → SpanOf p b b.buffer
      → is_empty b ≡ false
      → Oldest b.start_ts.ts b.buffer (rows p b)
  oldest b valid span h =
      first_by b b.type_ b.buffer valid.stored valid.position valid.typed span
        (not_empty b b.buffer refl h)

  start_utag :
      (b : TableBuffer Value) (vs : List Value)
      → SpanOf p b vs
      → 0 < length vs
      → b.start_ts.utag ≡ 0
  start_utag b [] span lt = absurd (omega (arith, lt))
  start_utag b (v ∷ vs) span lt = span.4

module _ (p : Pvxs) (e : EpicsTime) (start end : TimeStamp) where
  open p use {Value}

  range_start :
      (a : TimeStamp)
      → a.ts ≡ start.ts
      → start.utag ≡ 0
      → e.time_less_than start.ts end.ts ≡ true
      → (in_range e start end a ≡ true) × (stamp_gt e a end ≡ false)
  unfolding stamp_ge
  range_start a same zero_id later =
      let secs = ap (λ x. x.sec_past_epoch) same in
      let nsecs = ap (λ x. x.nsec) same in
      let before = (e.time_less_than_iff start.ts end.ts).0 later in
      (
        rw (not_before a secs nsecs zero_id)
            ((stamp_lt_iff e a end).1 (omega (arith, before, secs, nsecs))),
        not_true→false (stamp_gt e a end)
            (λ q. let k = (stamp_gt_iff e a end).0 q in omega (arith, k, before, secs, nsecs)),
      )
    where
      not_before :
          (a : TimeStamp)
          → a.ts.sec_past_epoch ≡ start.ts.sec_past_epoch
          → a.ts.nsec ≡ start.ts.nsec
          → start.utag ≡ 0
          → stamp_lt e a start ≡ false
      not_before a secs nsecs zero_id =
          not_true→false (stamp_lt e a start)
            (λ q. let k = (stamp_lt_iff e a start).0 q in omega (arith, k, secs, nsecs, zero_id))

  -- A buffer that is not empty starts there.
  abbrev pub AnyStarts : List (Text × TableBuffer Value) → Type 0
  AnyStarts [] = ⊥
  AnyStarts ((k, b) ∷ m) = ((is_empty b ≡ false) × (b.start_ts ≡ start)) ⊎ AnyStarts m

  collect_timestamps-keeps :
      (m : List (Text × TableBuffer Value)) (ts : List TimeStamp) (a : TimeStamp)
      → IsSorted e ts
      → Has a ts
      → Has a (collect_timestamps p e start end m ts)
  unfolding collect_timestamps
  collect_timestamps-keeps [] ts a sorted h = h
  collect_timestamps-keeps ((k, b) ∷ m) ts a sorted h =
      let (sorted', has, _) = extract_timestamps_between_lem e start end p b ts a sorted in
      collect_timestamps-keeps m (extract_timestamps_between e p b start end ts).0 a sorted'
        (has.1 (inl h))

  collect_timestamps-finds :
      (bound : TimeStamp) (m : List (Text × TableBuffer Value)) (ts : List TimeStamp)
      → AreSound p e bound m
      → AnyStarts m
      → e.time_less_than start.ts end.ts ≡ true
      → IsSorted e ts
      → (a : TimeStamp) × Has a (collect_timestamps p e start end m ts)
  unfolding collect_timestamps
  collect_timestamps-finds bound [] ts sound any later sorted = absurd any
  collect_timestamps-finds bound ((k, b) ∷ m) ts sound (inr any) later sorted =
      let (sorted', _, _) = extract_timestamps_between_lem e start end p b ts start sorted in
      collect_timestamps-finds bound m (extract_timestamps_between e p b start end ts).0 sound.1 any
        later sorted'
  collect_timestamps-finds bound ((k, b) ∷ m) ts sound (inl (some_row, at)) later sorted =
      let o = oldest p b sound.0.valid sound.0.spans some_row in
      let zero_id =
        ap (λ t. t.utag) (sym at)
        ∙ start_utag p b b.buffer sound.0.spans (not_empty p b b.buffer refl some_row) in
      let (ranged, _) = range_start o.first (o.time ∙ ap (λ t. t.ts) at) zero_id later in
      let (sorted', has, _) = extract_timestamps_between_lem e start end p b ts o.first sorted in
      (
        o.first,
        collect_timestamps-keeps m (extract_timestamps_between e p b start end ts).0 o.first sorted'
            (has.1 (inr (o.held, ranged))),
      )

  length-Has : (a : TimeStamp) (ts : List TimeStamp) → Has a ts → 0 < length ts
  length-Has a [] h = absurd h
  length-Has a (t ∷ ts) h = omega arith

  -- Then there is a timestamp.
  pub length-collect_timestamps :
      (bound : TimeStamp) (m : List (Text × TableBuffer Value))
      → AreSound p e bound m
      → AnyStarts m
      → e.time_less_than start.ts end.ts ≡ true
      → 0 < length (collect_timestamps p e start end m [])
  length-collect_timestamps bound m sound any later =
      let (a, has) = collect_timestamps-finds bound m [] sound any later tt in
      length-Has a (collect_timestamps p e start end m []) has

  -- Then the oldest row of that buffer is due.
  pub total_due-AnyStarts :
      (bound : TimeStamp) (ts : List TimeStamp) (m : List (Text × TableBuffer Value))
      → AreSound p e bound m
      → AnyStarts m
      → e.time_less_than start.ts end.ts ≡ true
      → 0 < total_due p e ts end m
  total_due-AnyStarts bound ts [] sound any later = absurd any
  total_due-AnyStarts bound ts ((k, b) ∷ m) sound (inr any) later =
      let lt = total_due-AnyStarts bound ts m sound.1 any later in omega (arith, lt)
  total_due-AnyStarts bound ts ((k, b) ∷ m) sound (inl (some_row, at)) later =
      let o = oldest p b sound.0.valid sound.0.spans some_row in
      let zero_id =
        ap (λ t. t.utag) (sym at)
        ∙ start_utag p b b.buffer sound.0.spans (not_empty p b b.buffer refl some_row) in
      let (_, not_after) = range_start o.first (o.time ∙ ap (λ t. t.ts) at) zero_id later in
      let one : due p e ts end (rows p b) ≡ 1 = rw (o.rows_are, not_after) refl in
      omega (arith, one)

-- The stamp that a buffer keeps of its oldest row is before the bound, too.
pub start-IsSound :
    (p : Pvxs) (e : EpicsTime) (bound : TimeStamp) (b : TableBuffer p.Value)
    → IsSound p e bound b
    → is_empty b ≡ false
    → stamp_lt e b.start_ts bound ≡ true
start-IsSound p e bound b sound some_row =
    let o = oldest p b sound.valid sound.spans some_row in
    let zero_id = start_utag p b b.buffer sound.spans (not_empty p b b.buffer refl some_row) in
    let below = subst (AreBefore p e bound) o.rows_are sound.before in
    let k = (stamp_lt_iff e o.first bound).0 below.0 in
    let secs = ap (λ t. t.sec_past_epoch) o.time in
    let nsecs = ap (λ t. t.nsec) o.time in
    (stamp_lt_iff e b.start_ts bound).1 (omega (arith, k, secs, nsecs, zero_id))
