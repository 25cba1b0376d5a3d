-- ===== src/Buffer/Rows.antt =====
-- What a `TableBuffer` holds: the rows that are still to be consumed, oldest first; and the invariant
-- under which no access of the buffer is out of range.
use bsas_sc.Common.{
  ℕ, zero, suc, ◌-◌, ◌<◌, ◌≡◌, refl, sym, subst, Option, none, some, List, [], ◌∷◌, ◌++◌, map,
  length, drop, take, get_elem?, get_elem?-some, All, ok, arith,
}
use bsas_sc.Stamp.{TimeStamp}
use bsas_sc.Pvxs.{Pvxs, Array}
use bsas_sc.Table.{TimeTable, num_time_cols, seconds_past_epoch_col, nanoseconds_col, pulse_id_col}
use bsas_sc.Buffer.{
  TableBuffer, stamp, back, read_last, seconds_of, nanoseconds_of, pulse_ids_of, column_values,
  refresh, refresh_from, update_timestamps,
}

-- The stamps of the rows of one value.
abbrev pub zip_stamps : List ℕ → List ℕ → List ℕ → List TimeStamp
zip_stamps (s ∷ ss) (n ∷ ns) (u ∷ us) = stamp s n u ∷ zip_stamps ss ns us
zip_stamps _ _ _ = []

-- The type names the three time columns first.
abbrev pub IsTimed : Option TimeTable → Type 0
IsTimed none = Unit
IsTimed (some t) =
    map (λ c. c.name) (take num_time_cols t.columns)
    ≡ seconds_past_epoch_col ∷ nanoseconds_col ∷ pulse_id_col ∷ []

module _ (p : Pvxs) where
  open p use {Elem, Value}

  -- A row: its stamp, the columns of its value, its index in them.
  abbrev pub Row : Type 0
  Row = TimeStamp × List (Array Elem) × ℕ

  abbrev pub number_rows : List (Array Elem) → ℕ → List TimeStamp → List Row
  number_rows cols idx [] = []
  number_rows cols idx (t ∷ ts) = (t, cols, idx) ∷ number_rows cols (suc idx) ts

  abbrev pub stamps_of : Value → List TimeStamp
  stamps_of v = zip_stamps (seconds_of p v) (nanoseconds_of p v) (pulse_ids_of p v)

  -- The rows of a value from `idx` on.
  abbrev pub value_rows : TimeTable → Value → ℕ → List Row
  value_rows t v idx = number_rows (column_values p t v) idx (drop idx (stamps_of v))

  abbrev pub values_rows : TimeTable → ℕ → List Value → List Row
  values_rows t inner [] = []
  values_rows t inner (v ∷ vs) = value_rows t v inner ++ values_rows t 0 vs

  abbrev pub typed_rows : Option TimeTable → ℕ → List Value → List Row
  typed_rows none inner vs = []
  typed_rows (some t) inner vs = values_rows t inner vs

  -- The contents of a buffer.
  abbrev pub rows : TableBuffer Value → List Row
  rows b = typed_rows b.type_ b.inner_idx b.buffer

  -- A value with rows, as many in each time column.
  pub record IsStored (v : Value) : Type 0 where
    pub has_rows : 0 < length (seconds_of p v)
    pub nanoseconds_rows : length (nanoseconds_of p v) ≡ length (seconds_of p v)
    pub pulse_ids_rows : length (pulse_ids_of p v) ≡ length (seconds_of p v)

  abbrev pub IsPosition : ℕ → List Value → Type 0
  IsPosition i [] = i ≡ 0
  IsPosition i (v ∷ vs) = i < length (seconds_of p v)

  abbrev pub HasType : Option TimeTable → List Value → Type 0
  HasType o [] = Unit
  HasType none (v ∷ vs) = ⊥
  HasType (some t) (v ∷ vs) = Unit

  pub record IsValid (b : TableBuffer Value) : Type 0 where
    pub stored : All IsStored b.buffer
    pub position : IsPosition b.inner_idx b.buffer
    pub typed : HasType b.type_ b.buffer
    pub timed : IsTimed b.type_

  -- The stamps that the buffer keeps are those of its oldest and of its newest row, with pulse id zero.
  abbrev pub SpanOf : TableBuffer Value → List Value → Type 0
  SpanOf b [] = Unit
  SpanOf b (v ∷ vs) =
      (get_elem? (seconds_of p v) b.inner_idx ≡ some b.start_ts.ts.sec_past_epoch)
      × (get_elem? (nanoseconds_of p v) b.inner_idx ≡ some b.start_ts.ts.nsec)
      × (get_elem? (seconds_of p (back v vs)) (length (seconds_of p (back v vs)) - 1)
          ≡ some b.end_ts.ts.sec_past_epoch)
      × (get_elem? (nanoseconds_of p (back v vs)) (length (seconds_of p (back v vs)) - 1)
          ≡ some b.end_ts.ts.nsec)
      × (b.start_ts.utag ≡ 0)
      × (b.end_ts.utag ≡ 0)

  -- What `update_timestamps` makes of a buffer: only the two stamps change.
  pub record IsUpdated (b c : TableBuffer Value) : Type 0 where
    pub same_type : c.type_ ≡ b.type_
    pub same_buffer : c.buffer ≡ b.buffer
    pub same_position : c.inner_idx ≡ b.inner_idx
    pub spans : SpanOf c c.buffer

  back-IsStored :
      (v : Value) (vs : List Value) → IsStored v → All IsStored vs → IsStored (back v vs)
  back-IsStored v [] h k = h
  back-IsStored v (w ∷ ws) h k = back-IsStored w ws k.0 k.1

  read_last-some :
      (xs : List ℕ) (n : ℕ)
      → 0 < n
      → length xs ≡ n
      → (x : ℕ) × (read_last xs n ≡ ok x) × (get_elem? xs (n - 1) ≡ some x)
  read_last-some xs zero h k = absurd (omega arith)
  read_last-some xs (suc n) h k =
      let (x, e) = get_elem?-some xs n (omega arith) in
      let m : suc n - 1 ≡ n = omega arith in (x, rw e, rw m e)

  refresh-ok :
      (b : TableBuffer Value) (v : Value) (vs : List Value)
      → b.buffer ≡ v ∷ vs
      → IsStored v
      → All IsStored vs
      → b.inner_idx < length (seconds_of p v)
      → (c : TableBuffer Value) × (refresh p b v vs ≡ ok c) × IsUpdated b c
  unfolding refresh
  refresh-ok b v vs e h k i =
      let w = back-IsStored v vs h k in
      let (s, hs) = get_elem?-some (seconds_of p v) b.inner_idx i in
      let (n, hn) =
        get_elem?-some (nanoseconds_of p v) b.inner_idx (omega (arith, h.nanoseconds_rows)) in
      let (s', hs', gs) =
        read_last-some (seconds_of p (back v vs)) (length (seconds_of p (back v vs))) w.has_rows
          refl in
      let (n', hn', gn) =
        read_last-some (nanoseconds_of p (back v vs)) (length (seconds_of p (back v vs))) w.has_rows
          w.nanoseconds_rows in
      let c : TableBuffer Value = record b { start_ts = stamp s n 0; end_ts = stamp s' n' 0 } in
      (
        c,
        rw (hs, hn, hs', hn'),
        record {
          same_type = refl;
          same_buffer = refl;
          same_position = refl;
          spans = subst (SpanOf c) (sym e) (hs, hn, gs, gn, refl, refl);
        },
      )

  refresh_buffer :
      (b : TableBuffer Value) (vs : List Value)
      → b.buffer ≡ vs
      → All IsStored vs
      → IsPosition b.inner_idx vs
      → (c : TableBuffer Value) × (refresh_from p b vs ≡ ok c) × IsUpdated b c
  unfolding refresh_from
  refresh_buffer b [] e h i = (
    b,
    refl,
    record {
      same_type = refl;
      same_buffer = refl;
      same_position = refl;
      spans = subst (SpanOf b) (sym e) tt;
    },
  )
  refresh_buffer b (v ∷ vs) e h i = let (c, d, u) = refresh-ok b v vs e h.0 h.1 i in (c, d, u)

  -- On a valid buffer `update_timestamps` reads nothing out of range, sets the two stamps from the
  -- oldest and the newest row, and changes nothing else.
  pub update_timestamps-ok :
      (b : TableBuffer Value)
      → IsValid b
      → (c : TableBuffer Value) × (update_timestamps p b ≡ ok c) × IsUpdated b c
  unfolding update_timestamps
  update_timestamps-ok b h = refresh_buffer b b.buffer refl h.stored h.position

  pub IsUpdated-IsValid : {b c : TableBuffer Value} → IsUpdated b c → IsValid b → IsValid c
  IsUpdated-IsValid {b} {c} u h = record {
    stored = subst (All IsStored) (sym u.same_buffer) h.stored;
    position = rw (u.same_position, u.same_buffer) h.position;
    typed = rw (u.same_type, u.same_buffer) h.typed;
    timed = subst IsTimed (sym u.same_type) h.timed;
  }

  pub rows-IsUpdated : {b c : TableBuffer Value} → IsUpdated b c → rows c ≡ rows b
  rows-IsUpdated {b} {c} u = rw (u.same_type, u.same_position, u.same_buffer)
