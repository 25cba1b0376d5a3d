-- ===== src/Align/Progress.antt =====
-- How many rows `extract` takes out of the buffers, whatever they hold.
use bsas_sc.Common.{
  guard, or_fail, not, ◌==◌, runtime_error, bad_access, logic_error, from_ok, ℕ, ◌+◌, ◌-◌, ◌<◌, ◌≤◌,
  ◌≡◌, refl, sym, ◌∙◌, ap, subst, if◌then◌else◌, Bool-cases, inl, inr, List, [], ◌∷◌, ◌++◌, length,
  All, Text, Result, ok, err, >>=-eq-ok, arith,
}
use bsas_sc.Stamp.{EpicsTime, TimeStamp, stamp_gt}
use bsas_sc.Pvxs.{Pvxs, ScalarType, Array}
use bsas_sc.Buffer.{TableBuffer, allocate_containers, consume_each_row}
use bsas_sc.Buffer.Rows.{Row, rows, IsValid, SpanOf}
use bsas_sc.Buffer.Inner.{consume_list}
use bsas_sc.Buffer.Consume.{Consumes, consume_each_row-refines}
use bsas_sc.Align.{
  Filling, align_row, fill_rest, extract_buffer, extract_buffers, extract, collect_timestamps,
  time_arrays, TimeAligned,
}
use bsas_sc.Align.Taken.{
  consume_list-shorter, consume_list-first, consume_list-All, align_row-goes_on, AreBefore,
}

module _ (p : Pvxs) where
  open p use {Elem, Value}

  module _ (e : EpicsTime) (timestamps : List TimeStamp) (end_ts : TimeStamp) where
    -- One if the oldest of the rows is not after the end.
    abbrev pub due : List (Row p) → ℕ
    due [] = 0
    due (r ∷ rs) = if stamp_gt e r.0 end_ts then 0 else 1

    -- A buffer afterwards: it is as sound as before, and at least its due row is gone.
    pub record Shrinks (b b' : TableBuffer Value) : Type 0 where
      pub valid : IsValid p b'
      pub spans : SpanOf p b' b'.buffer
      pub same_type : b'.type_ ≡ b.type_
      pub fewer : length (rows p b') + due (rows p b) ≤ length (rows p b)
      pub before :
          (bound : TimeStamp) → AreBefore p e bound (rows p b) → AreBefore p e bound (rows p b')

    consume_list-due :
        (rs : List (Row p)) (s s' : Filling p) (rest : List (Row p))
        → s.row < length timestamps
        → consume_list p (align_row p e timestamps end_ts) s rs ≡ ok (s', rest)
        → length rest + due rs ≤ length rs
    consume_list-due [] s s' rest lt h =
        let le = consume_list-shorter p (align_row p e timestamps end_ts) [] s s' rest h in
        omega (arith, le)
    consume_list-due ((t, cols, i) ∷ rs) s s' rest lt h =
        let le = consume_list-first p (align_row p e timestamps end_ts) t cols i rs s s' rest h in
        let done = align_row-goes_on p e timestamps end_ts s t cols i lt in
        elim (Bool-cases (stamp_gt e t end_ts)) [
          | inl x ↦ rw x (
              omega
                (arith, subst (λ b. length rest ≤ length rs + (if b then 1 else 0)) (done ∙ x) le))
          | inr x ↦ rw x (
              omega
                (arith, subst (λ b. length rest ≤ length rs + (if b then 1 else 0)) (done ∙ x) le))
        ]

    -- What the refinement gives for a call that returned.
    consumed_by :
        (b b' : TableBuffer Value) (s' : Filling p) (r : Result (Filling p × List (Row p)))
        (q : Result (Filling p × TableBuffer Value))
        → Consumes p (align_row p e timestamps end_ts) b r q
        → q ≡ ok (s', b')
        → (rest : List (Row p)) × (s2 : Filling p) × (r ≡ ok (s2, rest))
          × IsValid p b'
          × SpanOf p b' b'.buffer
          × (rows p b' ≡ rest)
          × (b'.type_ ≡ b.type_)
    consumed_by b b' s' (err x) q c h = cc
    consumed_by b b' s' (ok (s2, rest)) q (d, made, valid, spans, left, typed) h =
        let pair = ap (from_ok (s', b')) (sym made ∙ h) in
        let same : d ≡ b' = ap (λ x. x.1) pair in
        let (a, b, c, d) =
          subst (λ z. IsValid p z × SpanOf p z z.buffer × (rows p z ≡ rest) × (z.type_ ≡ b.type_))
            same (valid, spans, left, typed) in
        (rest, s2, refl, a, b, c, d)

    extract_buffer-Shrinks :
        (b b' : TableBuffer Value) (cols : List (Array Elem))
        → IsValid p b
        → 0 < length timestamps
        → extract_buffer p e timestamps end_ts b ≡ ok (b', cols)
        → Shrinks b b'
    unfolding extract_buffer
    extract_buffer-Shrinks b b' cols valid lt h =
        let (containers, _, h1) = >>=-eq-ok (allocate_containers p b (length timestamps)) _ h in
        let start : Filling p = record {
          row = 0;
          valid = p.alloc_elems ScalarType.bool (length timestamps);
          columns = containers;
        } in
        let (x, ran, h2) =
          >>=-eq-ok (consume_each_row p (align_row p e timestamps end_ts) b start) _ h1 in
        let (s2, _, h3) = >>=-eq-ok (fill_rest p (length timestamps - x.0.row) x.0) _ h2 in
        let pair = ap (from_ok (b', cols)) h3 in
        let same : x.1 ≡ b' = ap (λ z. z.0) pair in
        let refined = consume_each_row-refines p (align_row p e timestamps end_ts) b start valid in
        let (rest, s3, listed, sound, spans, left, typed) =
          consumed_by b b' x.0 _ _ refined (ran ∙ ap (λ z. ok (x.0, z)) same) in
        let le = consume_list-due (rows p b) start s3 rest lt listed in
        record {
          valid = sound;
          spans = spans;
          same_type = typed;
          fewer = omega (arith, le, ap length left);
          before = λ bound all. subst (AreBefore p e bound) (sym left) (
              consume_list-All p (align_row p e timestamps end_ts) _ (rows p b) start s3 rest all
                listed);
        }

    -- The rows that all buffers hold, and how many of these have a due row.
    abbrev pub total_due : List (Text × TableBuffer Value) → ℕ
    total_due [] = 0
    total_due ((k, b) ∷ m) = due (rows p b) + total_due m

  abbrev pub total_rows : List (Text × TableBuffer Value) → ℕ
  total_rows [] = 0
  total_rows ((k, b) ∷ m) = length (rows p b) + total_rows m

  -- The buffers are valid, keep the stamps of their rows, and these are all before the bound.
  pub record IsSound (e : EpicsTime) (bound : TimeStamp) (b : TableBuffer Value) : Type 0 where
    pub valid : IsValid p b
    pub spans : SpanOf p b b.buffer
    pub before : AreBefore p e bound (rows p b)

  abbrev pub AreSound : EpicsTime → TimeStamp → List (Text × TableBuffer Value) → Type 0
  AreSound e bound m = All (λ x. IsSound e bound x.1) m

  extract_buffers-shrink :
      (e : EpicsTime) (bound : TimeStamp) (timestamps : List TimeStamp) (end_ts : TimeStamp)
      (m m' : List (Text × TableBuffer Value)) (cols : List (Array Elem))
      → AreSound e bound m
      → 0 < length timestamps
      → extract_buffers p e timestamps end_ts m ≡ ok (m', cols)
      → AreSound e bound m' × (total_rows m' + total_due e timestamps end_ts m ≤ total_rows m)
  unfolding extract_buffers
  extract_buffers-shrink e bound timestamps end_ts [] m' cols sound lt h =
      let pair = ap (from_ok (m', cols)) h in
      let same : [] ≡ m' = ap (λ z. z.0) pair in
      subst (λ z. AreSound e bound z × (total_rows z + 0 ≤ 0)) same (tt, omega arith)
  extract_buffers-shrink e bound timestamps end_ts ((k, b) ∷ m) m' cols sound lt h =
      let (x, one, h1) = >>=-eq-ok (extract_buffer p e timestamps end_ts b) _ h in
      let (y, others, h2) = >>=-eq-ok (extract_buffers p e timestamps end_ts m) _ h1 in
      let pair = ap (from_ok (m', cols)) h2 in
      let same : (k, x.0) ∷ y.0 ≡ m' = ap (λ z. z.0) pair in
      let shrunk = extract_buffer-Shrinks e timestamps end_ts b x.0 x.1 sound.0.valid lt one in
      let (rest, le) =
        extract_buffers-shrink e bound timestamps end_ts m y.0 y.1 sound.1 lt others in
      subst
        (λ z.
          AreSound e bound z
          × (total_rows z + (due e timestamps end_ts (rows p b) + total_due e timestamps end_ts m)
              ≤ length (rows p b) + total_rows m))
        same
        (
          (
            record {
              valid = shrunk.valid;
              spans = shrunk.spans;
              before = shrunk.before bound sound.0.before;
            },
            rest,
          ),
          omega (arith, shrunk.fewer, le),
        )

  -- `extract` takes the oldest row out of every buffer where it is not after the end of the range, if there
  -- is a timestamp at all.
  pub extract-shrinks :
      (e : EpicsTime) (bound : TimeStamp) (t u : TimeAligned Value) (v : Value)
      (start end_ts : TimeStamp)
      → AreSound e bound t.buffers
      → 0 < length (collect_timestamps p e start end_ts t.buffers [])
      → extract p e t start end_ts ≡ ok (u, v)
      → AreSound e bound u.buffers
        × (total_rows u.buffers
              + total_due e (collect_timestamps p e start end_ts t.buffers []) end_ts t.buffers
            ≤ total_rows t.buffers)
  unfolding extract
  extract-shrinks e bound t u v start end_ts sound lt h =
      let timestamps = collect_timestamps p e start end_ts t.buffers [] in
      let (d, dq, q1) = >>=-eq-ok (guard (not (stamp_gt e start end_ts)) runtime_error) _ h in
      let (type, has, q2) = >>=-eq-ok (or_fail t.type_ bad_access) _ q1 in
      let ((m, arrays), ran, q3) =
        >>=-eq-ok (extract_buffers p e timestamps end_ts t.buffers) _ q2 in
      let output = time_arrays p e timestamps ++ arrays in
      let (f, fq, q4) = >>=-eq-ok (guard (length type.columns == length output) logic_error) _ q3 in
      let pair = ap (from_ok (u, v)) q4 in
      let same : m ≡ u.buffers = ap (λ x. x.0.buffers) pair in
      subst
        (λ z.
          AreSound e bound z
          × (total_rows z + total_due e timestamps end_ts t.buffers ≤ total_rows t.buffers))
        same (extract_buffers-shrink e bound timestamps end_ts t.buffers m arrays sound lt ran)
