-- ===== src/Buffer.antt =====
-- mergerApp/src/tablebuffer.h and tablebuffer.cpp: `TableBuffer`, a FIFO of table values with a position
-- in the oldest. A function that changes the buffer returns the new one. `bad_access` marks a read past
-- the end of an array and the use of a null `type_`.
pub mod Rows
pub mod Inner
pub mod Consume
pub mod Push
pub mod Extract
use bsas_sc.Common.{
  ℕ, zero, suc, ◌+◌, ◌-◌, Bool, true, false, ◌&&◌, if◌then◌else◌, Option, none, some, List, [], ◌∷◌,
  ◌++◌, map, length, drop, get_elem?, Result, ok, err, Error, bad_access, ◌>>=◌, or_fail,
  map_result,
}
use bsas_sc.Stamp.{EpicsTime, TimeStamp, stamp_lt, stamp_ge}
use bsas_sc.Stamp.Span.{TimeSpan, reset_span, time_span_of}
use bsas_sc.Pvxs.{Pvxs, ScalarType, Array}
use bsas_sc.Table.{
  ColumnSpec, TimeTable, seconds_past_epoch_col, nanoseconds_col, pulse_id_col, time_table_of_value,
  wrap, get_column_as_uint, get_column_as_void,
}

-- `class TableBuffer`, over the type of the values.
pub record TableBuffer (V : Type 0) : Type 0 where
  pub type_ : Option TimeTable
  pub start_ts : TimeStamp
  pub end_ts : TimeStamp
  pub buffer : List V
  pub inner_idx : ℕ

-- A stamp as the buffer keeps it: the pulse id is left at zero.
abbrev pub stamp : ℕ → ℕ → ℕ → TimeStamp
stamp sec nsec utag = record { ts = record { sec_past_epoch = sec; nsec = nsec }; utag = utag }

abbrev pub no_stamp : TimeStamp
no_stamp = stamp 0 0 0

-- `xs[i]`
abbrev pub read {ℓ} : {A : Type ℓ} → List A → ℕ → Result A
read xs i = or_fail (get_elem? xs i) bad_access

-- `xs[n - 1]`, where `n` is the size of another array. At zero the index wraps and is past the end.
abbrev pub read_last {ℓ} : {A : Type ℓ} → List A → ℕ → Result A
read_last xs zero = err bad_access
read_last xs (suc n) = read xs n

-- `buffer_.back()`
abbrev pub back {ℓ} : {A : Type ℓ} → A → List A → A
back v [] = v
back v (w ∷ ws) = back w ws

module _ {V : Type 0} where
  -- The constructor.
  unfoldable pub empty_buffer : TableBuffer V
  empty_buffer = record {
    type_ = none;
    start_ts = no_stamp;
    end_ts = no_stamp;
    buffer = [];
    inner_idx = 0;
  }

  unfoldable pub initialized : TableBuffer V → Bool
  initialized b = elim b.type_ [ none ↦ false | some t ↦ true ]

  unfoldable pub is_empty : TableBuffer V → Bool
  is_empty b = elim b.buffer [ [] ↦ true | v ∷ vs ↦ false ]

  unfoldable pub buffer_columns : TableBuffer V → List ColumnSpec
  buffer_columns b = elim b.type_ [ none ↦ [] | some t ↦ t.columns ]

  unfoldable pub buffer_data_columns : TableBuffer V → List ColumnSpec
  buffer_data_columns b = elim b.type_ [ none ↦ [] | some t ↦ t.data_columns ]

  unfoldable pub time_span : TableBuffer V → TimeSpan
  unfolding is_empty reset_span time_span_of
  time_span b = if is_empty b then reset_span else time_span_of b.start_ts b.end_ts

module _ (p : Pvxs) where
  open p use {Elem, Value}

  -- The three time columns of a value.
  abbrev pub seconds_of : Value → List ℕ
  seconds_of v = get_column_as_uint p ScalarType.uint32 v seconds_past_epoch_col

  abbrev pub nanoseconds_of : Value → List ℕ
  nanoseconds_of v = get_column_as_uint p ScalarType.uint32 v nanoseconds_col

  abbrev pub pulse_ids_of : Value → List ℕ
  pulse_ids_of v = get_column_as_uint p ScalarType.uint64 v pulse_id_col

  -- `update_timestamps` on a buffer whose values are `first ∷ rest`.
  unfoldable pub refresh : TableBuffer Value → Value → List Value → Result (TableBuffer Value)
  refresh b first rest = do
    start_sec ← read (seconds_of first) b.inner_idx
    start_nsec ← read (nanoseconds_of first) b.inner_idx
    let last = back first rest
    let n = length (seconds_of last)
    end_sec ← read_last (seconds_of last) n
    end_nsec ← read_last (nanoseconds_of last) n
    ok (record b { start_ts = stamp start_sec start_nsec 0; end_ts = stamp end_sec end_nsec 0 })

  unfoldable pub refresh_from : TableBuffer Value → List Value → Result (TableBuffer Value)
  refresh_from b [] = ok b
  refresh_from b (first ∷ rest) = refresh b first rest

  unfoldable pub update_timestamps : TableBuffer Value → Result (TableBuffer Value)
  update_timestamps b = refresh_from b b.buffer

  -- The type of the buffer, taken from the value if there is none yet.
  unfoldable pub ensure_type : TableBuffer Value → Value → Result TimeTable
  ensure_type b value = elim b.type_ [ none ↦ time_table_of_value p value | some t ↦ ok t ]

  -- The rest of `push` once the type is known: what is left in the buffer if it throws, and the result.
  unfoldable pub append :
      TableBuffer Value → TimeTable → Value → TableBuffer Value × Result (Unit {0})
  append b t value = elim (wrap p t value true) [
    | err e ↦ (record b { type_ = some t }, err e)
    | ok v ↦
        let c = record b { type_ = some t; buffer = b.buffer ++ (v ∷ []) } in
        elim (update_timestamps c) [ err e ↦ (c, err e) | ok d ↦ (d, ok tt) ]
  ]

  unfoldable pub push : TableBuffer Value → Value → TableBuffer Value × Result (Unit {0})
  push b value = elim (ensure_type b value) [ err e ↦ (b, err e) | ok t ↦ append b t value ]

  unfoldable pub allocate : ℕ → ColumnSpec → Result (Array Elem)
  allocate num_rows c =
      or_fail (p.alloc_array (p.array_type c.type_code) num_rows) Error.logic_error

  unfoldable pub allocate_containers : TableBuffer Value → ℕ → Result (List (Array Elem))
  allocate_containers b num_rows = do
    t ← or_fail b.type_ bad_access
    map_result (allocate num_rows) t.data_columns

  -- The data columns of a value, as `consume_each_row_inner` hands them to its argument.
  abbrev pub column_values : TimeTable → Value → List (Array Elem)
  column_values t v = map (λ c. get_column_as_void p v c.name) t.data_columns

  module _ {S : Type 0} (f : S → TimeStamp → List (Array Elem) → ℕ → Result (S × Bool)) where
    -- The rows of one value from `idx`, `rounds` of them: the state of `f` at the end, and the row at
    -- which it was done.
    unfoldable pub consume_rows :
        List ℕ → List ℕ → List ℕ → List (Array Elem) → ℕ → ℕ → S → Result (S × Option ℕ)
    consume_rows secs nsecs ids cols zero idx s = ok (s, none)
    consume_rows secs nsecs ids cols (suc rounds) idx s = do
      sec ← read secs idx
      nsec ← read nsecs idx
      id ← read ids idx
      (s', done) ← f s (stamp sec nsec id) cols idx
      let rest = consume_rows secs nsecs ids cols rounds (suc idx) s'
      if done then ok (s', some idx) else rest

    -- The values from `outer_idx` on, the first of them from row `inner`.
    unfoldable pub consume_values : Option TimeTable → List Value → ℕ → ℕ → S → Result (S × ℕ × ℕ)
    consume_values type_ [] outer inner s = ok (s, outer, 0)
    consume_values type_ (v ∷ vs) outer inner s = do
      t ← or_fail type_ bad_access
      (s', stop) ←
          consume_rows (seconds_of v) (nanoseconds_of v) (pulse_ids_of v) (column_values t v)
            (length (seconds_of v) - inner) inner s
      let rest = consume_values type_ vs (suc outer) 0 s'
      elim stop [ some idx ↦ ok (s', outer, idx) | none ↦ rest ]

    unfoldable pub consume_each_row : TableBuffer Value → S → Result (S × TableBuffer Value)
    consume_each_row b s = do
      (s', outer, inner) ← consume_values b.type_ b.buffer 0 b.inner_idx s
      c ← update_timestamps (record b { buffer = drop outer b.buffer; inner_idx = inner })
      ok (s', c)

-- `std::set<TimeStamp>::insert`: a set is the list of its members in order.
module _ (e : EpicsTime) where
  unfoldable pub insert_stamp : TimeStamp → List TimeStamp → List TimeStamp
  insert_stamp t [] = t ∷ []
  insert_stamp t (u ∷ us) =
      if stamp_lt e t u
      then t ∷ u ∷ us
      else if stamp_lt e u t
      then u ∷ insert_stamp t us
      else u ∷ us

  -- The rows of one value, read until the shortest column ends; the count of those in the range.
  unfoldable pub extract_rows :
      TimeStamp → TimeStamp → List ℕ → List ℕ → List ℕ → List TimeStamp × ℕ → List TimeStamp × ℕ
  extract_rows start end (s ∷ ss) (n ∷ ns) (u ∷ us) (timestamps, processed) =
      extract_rows start end ss ns us (
        if stamp_ge e (stamp s n u) start && stamp_lt e (stamp s n u) end
        then (insert_stamp (stamp s n u) timestamps, processed + 1)
        else (timestamps, processed))
  extract_rows start end _ _ _ acc = acc

  unfoldable pub extract_values :
      (p : Pvxs) → TimeStamp → TimeStamp → List p.Value → List TimeStamp × ℕ → List TimeStamp × ℕ
  extract_values p start end [] acc = acc
  extract_values p start end (v ∷ vs) acc =
      extract_values p start end vs
        (extract_rows start end (seconds_of p v) (nanoseconds_of p v) (pulse_ids_of p v) acc)

  unfoldable pub extract_timestamps_between :
      (p : Pvxs) → TableBuffer p.Value → TimeStamp → TimeStamp → List TimeStamp → List TimeStamp × ℕ
  extract_timestamps_between p b start end timestamps =
      extract_values p start end b.buffer (timestamps, 0)
