-- ===== src/Buffer/Consume.antt =====
-- `consume_each_row` refines the consumption of a list of rows, and keeps the buffer valid.
use bsas_sc.Common.{
  ℕ, zero, suc, ◌+◌, ◌-◌, ◌<◌, ◌≡◌, refl, ap, sym, ◌∙◌, Bool, Option, none, some, List, [], ◌∷◌,
  ◌++◌, length, drop, All, Result, ok, err, ◌>>=◌, arith,
}
use bsas_sc.Stamp.{TimeStamp}
use bsas_sc.Pvxs.{Pvxs, Array}
use bsas_sc.Table.{TimeTable}
use bsas_sc.Buffer.{
  TableBuffer, seconds_of, nanoseconds_of, pulse_ids_of, column_values, update_timestamps,
  consume_rows, consume_values, consume_each_row,
}
use bsas_sc.Buffer.Rows.{
  Row, number_rows, stamps_of, value_rows, values_rows, typed_rows, rows, IsStored, IsPosition,
  HasType, IsValid, SpanOf, update_timestamps-ok, IsUpdated-IsValid, rows-IsUpdated,
}
use bsas_sc.Buffer.Inner.{
  drop-drop, length-drop_lt, length-zip_stamps, first-IsPosition, consume_list, stop_of,
  consume_rows_lem, continue_list, consume_list-append, Suffix, consume_list-Suffix,
}

module _ (p : Pvxs) where
  open p use {Elem, Value}

  module _ {S : Type 0} (f : S → TimeStamp → List (Array Elem) → ℕ → Result (S × Bool)) where
    -- Where the loop over the values stops, and what it leaves, against the rest of the list of rows.
    abbrev Agrees :
        TimeTable → List Value → ℕ → Result (S × List (Row p)) → Result (S × ℕ × ℕ) → Type 0
    Agrees t vs outer (err x) q = q ≡ err x
    Agrees t vs outer (ok (s, rest)) q =
        (k : ℕ) × (i : ℕ) × (q ≡ ok (s, outer + k, i))
        × (values_rows p t i (drop k vs) ≡ rest)
        × IsPosition p i (drop k vs)

    abbrev AgreesAny :
        Option TimeTable → List Value → Result (S × List (Row p)) → Result (S × ℕ × ℕ) → Type 0
    AgreesAny o vs (err x) q = q ≡ err x
    AgreesAny o vs (ok (s, rest)) q =
        (k : ℕ) × (i : ℕ) × (q ≡ ok (s, k, i))
        × (typed_rows p o i (drop k vs) ≡ rest)
        × IsPosition p i (drop k vs)

    abbrev resume :
        (List Value → ℕ → ℕ → S → Result (S × ℕ × ℕ))
        → List Value
        → ℕ
        → Result (S × Option ℕ)
        → Result (S × ℕ × ℕ)
    resume next vs outer (err x) = err x
    resume next vs outer (ok (s, none)) = next vs (suc outer) 0 s
    resume next vs outer (ok (s, some i)) = ok (s, outer, i)

    agree_value :
        (t : TimeTable) (v : Value) (vs : List Value) (outer inner : ℕ)
        (next : List Value → ℕ → ℕ → S → Result (S × ℕ × ℕ)) (r : Result (S × List (Row p)))
        → Suffix p f (column_values p t v) inner (drop inner (stamps_of p v)) r
        → length (stamps_of p v) ≡ length (seconds_of p v)
        → inner < length (seconds_of p v)
        → ((s : S)
            → Agrees t vs
                (suc outer)
                (consume_list p f s (values_rows p t 0 vs))
                (next vs (suc outer) 0 s))
        → Agrees t
            (v ∷ vs)
            outer
            (continue_list p f (values_rows p t 0 vs) r)
            (resume next vs outer (stop_of p f r))
    agree_value t v vs outer inner next (err x) sfx len pos ih = refl
    agree_value t v vs outer inner next (ok (s, [])) sfx len pos ih = shift _ _ (ih s)
      where
        shift :
            (r : Result (S × List (Row p))) (q : Result (S × ℕ × ℕ))
            → Agrees t vs (suc outer) r q
            → Agrees t (v ∷ vs) outer r q
        shift (err x) q h = h
        shift (ok (s, rest)) q (k, i, e, l, w) =
            (suc k, i, e ∙ ap (λ n. ok (s, n, i)) (omega arith), l, w)
    agree_value t v vs outer inner next (ok (s, (ts, c, i) ∷ rest)) (d, e, lt, same) len pos ih = (
      0,
      i,
      ap (λ n. ok (s, n, i)) (omega arith),
      ap (λ rs. rs ++ values_rows p t 0 vs)
          (ap (λ n. number_rows p (column_values p t v) i n)
              (ap (λ n. drop n (stamps_of p v)) e ∙ sym (drop-drop inner d (stamps_of p v)))
            ∙ sym same),
      omega (arith, e, len, length-drop_lt inner d (stamps_of p v) lt),
    )

    consume_values-resume :
        (t : TimeTable) (v : Value) (vs : List Value) (outer inner : ℕ) (s : S)
        → consume_values p f (some t) (v ∷ vs) outer inner s
          ≡ resume
              (λ vs outer inner s. consume_values p f (some t) vs outer inner s)
              vs
              outer
              (consume_rows p f
                (seconds_of p v)
                (nanoseconds_of p v)
                (pulse_ids_of p v)
                (column_values p t v)
                (length (seconds_of p v) - inner)
                inner
                s)
    unfolding consume_values
    consume_values-resume t v vs outer inner s = ground arith

    consume_values-Agrees :
        (t : TimeTable) (vs : List Value) (outer inner : ℕ) (s : S)
        → All (IsStored p) vs
        → IsPosition p inner vs
        → Agrees t vs outer
            (consume_list p f s (values_rows p t inner vs))
            (consume_values p f (some t) vs outer inner s)
    unfolding consume_values
    consume_values-Agrees t [] outer inner s st pos =
        (0, 0, ap (λ n. ok (s, n, 0)) (omega arith), refl, refl)
    consume_values-Agrees t (v ∷ vs) outer inner s st pos =
        rw
          (
            consume_values-resume t v vs outer inner s,
            consume_list-append p f (value_rows p t v inner) (values_rows p t 0 vs) s,
            consume_rows_lem p f (seconds_of p v) (nanoseconds_of p v) (pulse_ids_of p v)
                (column_values p t v) (length (seconds_of p v) - inner) inner s
                st.0.nanoseconds_rows st.0.pulse_ids_rows (omega arith),
          )
          (agree_value t v vs outer inner
            (λ vs outer inner s. consume_values p f (some t) vs outer inner s) _
            (consume_list-Suffix p f (column_values p t v) inner (drop inner (stamps_of p v)) s)
            (length-zip_stamps _ _ _ st.0.nanoseconds_rows st.0.pulse_ids_rows) pos
            (λ s'. consume_values-Agrees t vs (suc outer) 0 s' st.1 (first-IsPosition p vs st.1)))

    from_start :
        (t : TimeTable) (vs : List Value) (r : Result (S × List (Row p))) (q : Result (S × ℕ × ℕ))
        → Agrees t vs 0 r q
        → AgreesAny (some t) vs r q
    from_start t vs (err x) q h = h
    from_start t vs (ok (s, rest)) q (k, i, e, l, w) =
        (k, i, e ∙ ap (λ n. ok (s, n, i)) (omega arith), l, w)

    consume_values-AgreesAny :
        (o : Option TimeTable) (vs : List Value) (inner : ℕ) (s : S)
        → All (IsStored p) vs
        → IsPosition p inner vs
        → HasType p o vs
        → AgreesAny o vs
            (consume_list p f s (typed_rows p o inner vs))
            (consume_values p f o vs 0 inner s)
    unfolding consume_values
    consume_values-AgreesAny none [] inner s st pos h = (0, 0, refl, refl, refl)
    consume_values-AgreesAny none (v ∷ vs) inner s st pos h = absurd h
    consume_values-AgreesAny (some t) vs inner s st pos h =
        from_start t vs _ _ (consume_values-Agrees t vs 0 inner s st pos)

    -- The result of the operation on a buffer, against that of the operation on its rows.
    abbrev pub Consumes :
        TableBuffer Value → Result (S × List (Row p)) → Result (S × TableBuffer Value) → Type 0
    Consumes b (err x) q = q ≡ err x
    Consumes b (ok (s, rest)) q =
        (c : TableBuffer Value) × (q ≡ ok (s, c))
        × IsValid p c
        × SpanOf p c c.buffer
        × (rows p c ≡ rest)
        × (c.type_ ≡ b.type_)

    drop-IsStored : (k : ℕ) (vs : List Value) → All (IsStored p) vs → All (IsStored p) (drop k vs)
    drop-IsStored zero vs h = h
    drop-IsStored (suc k) [] h = tt
    drop-IsStored (suc k) (v ∷ vs) h = drop-IsStored k vs h.1

    drop-typed :
        (o : Option TimeTable) (k : ℕ) (vs : List Value) → HasType p o vs → HasType p o (drop k vs)
    drop-typed o zero vs h = h
    drop-typed o (suc k) [] h = tt
    drop-typed none (suc k) (v ∷ vs) h = absurd h
    drop-typed (some t) (suc k) (v ∷ vs) h = drop-typed (some t) k vs (any vs)
      where
        any : (vs : List Value) → HasType p (some t) vs
        any [] = tt
        any (v ∷ vs) = tt

    abbrev finish : TableBuffer Value → Result (S × ℕ × ℕ) → Result (S × TableBuffer Value)
    finish b q = q >>= λ x.
        update_timestamps p (record b { buffer = drop x.1 b.buffer; inner_idx = x.2 }) >>= λ c.
        ok (x.0, c)

    finish-Consumes :
        (b : TableBuffer Value) (r : Result (S × List (Row p))) (q : Result (S × ℕ × ℕ))
        → IsValid p b
        → AgreesAny b.type_ b.buffer r q
        → Consumes b r (finish b q)
    finish-Consumes b (err x) q h a = rw a
    finish-Consumes b (ok (s, rest)) q h (k, i, e, l, w) =
        let d : TableBuffer Value = record b { buffer = drop k b.buffer; inner_idx = i } in
        let valid : IsValid p d = record {
          stored = drop-IsStored k b.buffer h.stored;
          position = w;
          typed = drop-typed b.type_ k b.buffer h.typed;
          timed = h.timed;
        } in
        let (c, f, u) = update_timestamps-ok p d valid in
        (c, rw (e, f), IsUpdated-IsValid p u valid, u.spans, rows-IsUpdated p u ∙ l, u.same_type)

    -- On a valid buffer, `consume_each_row` calls `f` on the rows held, oldest first, until it answers
    -- that it is done or throws. If `f` throws, so does the operation, with the same error. If not, what
    -- is left are exactly the rows that `f` did not take, the row at which it was done first among
    -- them; the buffer is valid again, keeps its type, and its stamps are those of its first and last
    -- row.
    pub consume_each_row-refines :
        (b : TableBuffer Value) (s : S)
        → IsValid p b
        → Consumes b (consume_list p f s (rows p b)) (consume_each_row p f b s)
    unfolding consume_each_row
    consume_each_row-refines b s h =
        finish-Consumes b _ _ h
          (consume_values-AgreesAny b.type_ b.buffer b.inner_idx s h.stored h.position h.typed)
