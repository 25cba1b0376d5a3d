-- ===== src/Buffer/Push.antt =====
-- `push`: which values it stores, what the buffer holds afterwards, and what it does with the others.
use bsas_sc.Common.{
  ℕ, ◌<◌, ◌≡◌, refl, ap, sym, ◌∙◌, subst, false, Option, none, some, List, [], ◌∷◌, ◌++◌,
  append-nil, append_assoc, map, length, take, get_elem?, All, All-append, ok, err, runtime_error,
  bad_access, arith, Option-cases, Text, text_eq, text_eq_iff, length-map,
}
use bsas_sc.Pvxs.{Pvxs, ScalarType, Member}
use bsas_sc.Table.{
  ColumnSpec, TimeTable, num_time_cols, seconds_past_epoch_col, nanoseconds_col, pulse_id_col,
  find_member, get_column, get_column_as_uint, time_table_of_value,
}
use bsas_sc.Table.Valid.{Matches, HaveRows, Conforms, wrap_lem}
use bsas_sc.Table.Create.{time_table_of_value-names}
use bsas_sc.Buffer.{
  TableBuffer, back, refresh, refresh_from, seconds_of, nanoseconds_of, pulse_ids_of,
  update_timestamps, ensure_type, append, push,
}
use bsas_sc.Buffer.Rows.{
  Row, value_rows, values_rows, rows, IsStored, IsPosition, HasType, IsValid, IsTimed, SpanOf,
  update_timestamps-ok, IsUpdated-IsValid, rows-IsUpdated,
}

module _ (p : Pvxs) where
  open p use {Elem, Value, columns}

  Matches-cons :
      (ls : List Text) (c : ColumnSpec) (cs : List ColumnSpec) (ms : List (Member Elem))
      → Matches p ls (c ∷ cs) ms
      → (ls' : List Text) × (m : Member Elem) × (ms' : List (Member Elem)) × (ms ≡ m ∷ ms')
        × (m.name ≡ c.name)
        × Matches p ls' cs ms'
  Matches-cons [] c cs ms h = absurd h
  Matches-cons (l ∷ ls) c cs [] h = absurd h
  Matches-cons (l ∷ ls) c cs (m ∷ ms) h = (ls, m, ms, refl, h.1, h.3)

  abbrev TimeNames : List ColumnSpec → Type 0
  TimeNames cs =
      map (λ c. c.name) (take num_time_cols cs)
      ≡ seconds_past_epoch_col ∷ nanoseconds_col ∷ pulse_id_col ∷ []

  -- The three time columns are found where they are expected.
  record HasTimeColumns (ms : List (Member Elem)) : Type 0 where
    seconds : Member Elem
    nanoseconds : Member Elem
    pulse_ids : Member Elem
    rest : List (Member Elem)
    shape : ms ≡ seconds ∷ nanoseconds ∷ pulse_ids ∷ rest
    seconds_name : seconds.name ≡ seconds_past_epoch_col
    nanoseconds_name : nanoseconds.name ≡ nanoseconds_col
    pulse_ids_name : pulse_ids.name ≡ pulse_id_col

  time_columns_found :
      (ls : List Text) (cs : List ColumnSpec) (ms : List (Member Elem))
      → Matches p ls cs ms
      → TimeNames cs
      → HasTimeColumns ms
  time_columns_found ls [] ms h e = cc
  time_columns_found ls (a ∷ []) ms h e = cc
  time_columns_found ls (a ∷ b ∷ []) ms h e = cc
  time_columns_found ls (a ∷ b ∷ c ∷ cs) ms h e =
      let (l0, m0, ms0, e0, n0, h0) = Matches-cons ls a (b ∷ c ∷ cs) ms h in
      let (l1, m1, ms1, e1, n1, h1) = Matches-cons l0 b (c ∷ cs) ms0 h0 in
      let (l2, m2, ms2, e2, n2, h2) = Matches-cons l1 c cs ms1 h1 in
      record {
        seconds = m0;
        nanoseconds = m1;
        pulse_ids = m2;
        rest = ms2;
        shape = e0 ∙ ap (◌∷◌ m0) (e1 ∙ ap (◌∷◌ m1) e2);
        seconds_name = n0 ∙ cc e;
        nanoseconds_name = n1 ∙ cc e;
        pulse_ids_name = n2 ∙ cc e;
      }

  find_member-at :
      (n : Text) (m : Member Elem) (ms : List (Member Elem))
      → m.name ≡ n
      → find_member p n (m ∷ ms) ≡ some m
  unfolding find_member
  find_member-at n m ms e = rw ((text_eq_iff n m.name).1 (sym e))

  find_member-past :
      (n k : Text) (m : Member Elem) (ms : List (Member Elem))
      → m.name ≡ k
      → text_eq n k ≡ false
      → find_member p n (m ∷ ms) ≡ find_member p n ms
  unfolding find_member
  find_member-past n k m ms e d = simp (e, d)

  length_column :
      (s : ScalarType) (v : Value) (n : Text) (ms : List (Member Elem)) (m : Member Elem) (k : ℕ)
      → columns v ≡ some ms
      → find_member p n ms ≡ some m
      → length m.array.elems ≡ k
      → length (get_column_as_uint p s v n) ≡ k
  unfolding get_column_as_uint get_column
  length_column s v n ms m k hc hf hk =
      rw (hc, get_column, hf, get_column_as_uint) (length-map m.array.elems (p.as_uint s) ∙ hk)

  pub Conforms-lengths :
      (t : TimeTable) (v : Value) (c : Conforms p t v)
      → TimeNames t.columns
      → (length (seconds_of p v) ≡ c.rows)
        × (length (nanoseconds_of p v) ≡ c.rows)
        × (length (pulse_ids_of p v) ≡ c.rows)
  unfolding text_eq
  Conforms-lengths t v c e =
      let q = time_columns_found c.ls t.columns c.ms c.matches e in
      let r : HaveRows p c.rows (q.seconds ∷ q.nanoseconds ∷ q.pulse_ids ∷ q.rest) =
        subst (HaveRows p c.rows) q.shape c.have_rows in
      let found : columns v ≡ some (q.seconds ∷ q.nanoseconds ∷ q.pulse_ids ∷ q.rest) =
        c.has_columns ∙ ap some q.shape in
      (
        length_column _ v _ _ q.seconds c.rows found (find_member-at _ _ _ q.seconds_name) r.0,
        length_column _ v _ _ q.nanoseconds c.rows found
            (find_member-past _ _ _ _ q.seconds_name refl ∙ find_member-at _ _ _ q.nanoseconds_name)
            r.1.0,
        length_column _ v _ _ q.pulse_ids c.rows found
            (find_member-past _ _ _ _ q.seconds_name refl
              ∙ find_member-past _ _ _ _ q.nanoseconds_name refl
              ∙ find_member-at _ _ _ q.pulse_ids_name)
            r.1.1.0,
      )

  pub ensure_type-IsTimed :
      (b : TableBuffer Value) (v : Value) (t : TimeTable)
      → IsTimed b.type_
      → ensure_type p b v ≡ ok t
      → TimeNames t.columns
  unfolding ensure_type
  ensure_type-IsTimed b v t h e = from b.type_ h e
    where
      from :
          (o : Option TimeTable)
          → IsTimed o
          → (elim o [ none ↦ time_table_of_value p v | some u ↦ ok u ]) ≡ ok t
          → TimeNames t.columns
      from none h e = time_table_of_value-names p v t e
      from (some u) h e = let same : u ≡ t = cc e in subst (λ w. TimeNames w.columns) same h

  first-IsPosition : (vs : List Value) → All (IsStored p) vs → IsPosition p 0 vs
  first-IsPosition [] h = refl
  first-IsPosition (v ∷ vs) h = h.0.has_rows

  values_rows-append :
      (t : TimeTable) (i : ℕ) (vs : List Value) (v : Value)
      → All (IsStored p) vs
      → IsPosition p i vs
      → values_rows p t i (vs ++ (v ∷ [])) ≡ values_rows p t i vs ++ value_rows p t v 0
  values_rows-append t i [] v st h = rw h (append-nil (value_rows p t v 0))
  values_rows-append t i (w ∷ vs) v st h =
      ap (◌++◌ (value_rows p t w i)) (values_rows-append t 0 vs v st.1 (first-IsPosition vs st.1))
      ∙ sym (append_assoc (value_rows p t w i) (values_rows p t 0 vs) (value_rows p t v 0))

  append-IsPosition :
      (i : ℕ) (vs : List Value) (v : Value)
      → IsPosition p i vs
      → 0 < length (seconds_of p v)
      → IsPosition p i (vs ++ (v ∷ []))
  append-IsPosition i [] v h k = omega arith
  append-IsPosition i (w ∷ vs) v h k = h

  any_typed : (t : TimeTable) (vs : List Value) → HasType p (some t) vs
  any_typed t [] = tt
  any_typed t (v ∷ vs) = tt

  -- What the buffer holds, seen through the type that `push` gives it.
  abbrev pub rows_by : TimeTable → TableBuffer Value → List (Row p)
  rows_by t b = values_rows p t b.inner_idx b.buffer

  -- The invariant survives `push` of a value that the buffer's type accepts and that has rows: the
  -- call succeeds, the rows of the value stand behind those already held, and the stamps are those of
  -- the oldest and the newest row.
  pub push-stores :
      (b : TableBuffer Value) (v : Value) (t : TimeTable)
      → IsValid p b
      → ensure_type p b v ≡ ok t
      → (c : Conforms p t v) → 0 < c.rows
      → (b' : TableBuffer Value) × (push p b v ≡ (b', ok tt))
        × IsValid p b'
        × SpanOf p b' b'.buffer
        × (b'.type_ ≡ some t)
        × (rows p b' ≡ rows_by t b ++ value_rows p t v 0)
  unfolding push append
  push-stores b v t h e c n =
      let names = ensure_type-IsTimed b v t h.timed e in
      let len = Conforms-lengths t v c names in
      let stored : IsStored p v = record {
        has_rows = omega (arith, len.0);
        nanoseconds_rows = len.1 ∙ sym len.0;
        pulse_ids_rows = len.2 ∙ sym len.0;
      } in
      let d : TableBuffer Value = record b { type_ = some t; buffer = b.buffer ++ (v ∷ []) } in
      let valid : IsValid p d = record {
        stored = All-append (IsStored p) b.buffer (v ∷ []) h.stored (stored, tt);
        position = append-IsPosition b.inner_idx b.buffer v h.position stored.has_rows;
        typed = any_typed t d.buffer;
        timed = names;
      } in
      let (b', f, u) = update_timestamps-ok p d valid in
      (
        b',
        rw (e, push, (wrap_lem p t v).1.1 c, append, f),
        IsUpdated-IsValid p u valid,
        u.spans,
        u.same_type,
        rows-IsUpdated p u ∙ values_rows-append t b.inner_idx b.buffer v h.stored h.position,
      )

  -- A value that the type does not describe is refused by an exception. Nothing is stored; but the
  -- buffer counts as initialized from then on, also if the refused value was its first.
  pub push-refuses :
      (b : TableBuffer Value) (v : Value) (t : TimeTable)
      → ensure_type p b v ≡ ok t
      → ¬ (Conforms p t v)
      → push p b v ≡ (record b { type_ = some t }, err runtime_error)
  unfolding push append
  push-refuses b v t e n = rw (e, push, (wrap_lem p t v).2.1 n, append)

  back-append : (w : Value) (ws : List Value) (v : Value) → back w (ws ++ (v ∷ [])) ≡ v
  back-append w [] v = refl
  back-append w (x ∷ ws) v = back-append x ws v

  refresh_no_rows :
      (b : TableBuffer Value) (first : Value) (rest : List Value)
      → length (seconds_of p (back first rest)) ≡ 0
      → refresh p b first rest ≡ err bad_access
  unfolding refresh
  refresh_no_rows b first rest z = rw z (
      ground (
        arith,
        Option-cases (get_elem? (seconds_of p first) b.inner_idx),
        Option-cases (get_elem? (nanoseconds_of p first) b.inner_idx),
      ))

  refresh_from_no_rows :
      (b : TableBuffer Value) (vs : List Value) (v : Value)
      → length (seconds_of p v) ≡ 0
      → refresh_from p b (vs ++ (v ∷ [])) ≡ err bad_access
  unfolding refresh_from
  refresh_from_no_rows b [] v z = refresh_no_rows b v [] z
  refresh_from_no_rows b (w ∷ ws) v z =
      refresh_no_rows b w (ws ++ (v ∷ []))
        (ap (λ x. length (seconds_of p x)) (back-append w ws v) ∙ z)

  -- A value with no rows is accepted by the type, and then `update_timestamps` reads past the end of its
  -- columns.
  pub push-no_rows :
      (b : TableBuffer Value) (v : Value) (t : TimeTable)
      → ensure_type p b v ≡ ok t
      → TimeNames t.columns
      → (c : Conforms p t v) → c.rows ≡ 0
      → (push p b v).1 ≡ err bad_access
  unfolding push append update_timestamps
  push-no_rows b v t e names c z = rw (
    e,
    push,
    (wrap_lem p t v).1.1 c,
    append,
    refresh_from_no_rows (record b { type_ = some t; buffer = b.buffer ++ (v ∷ []) }) b.buffer v
        ((Conforms-lengths t v c names).0 ∙ z),
  )
