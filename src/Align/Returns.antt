-- ===== src/Align/Returns.antt =====
-- `extract` on buffers whose rows have any timestamps.
use bsas_sc.Common.{
  suc, ◌+◌, ◌-◌, true, false, ◌==◌, ==_iff, ◌≡◌, refl, sym, ◌∙◌, ap, subst, some, List, [], ◌∷◌, ℕ,
  ◌<◌, ◌⊎◌, inl, inr, Result, err, guard, ◌>>=◌, bad_access, logic_error, ◌++◌, length,
  length-append, All, Text, ok, arith,
}
use bsas_sc.Stamp.{EpicsTime, TimeStamp, stamp_gt}
use bsas_sc.Pvxs.{Pvxs, Array}
use bsas_sc.Table.{TimeTable, create_table}
use bsas_sc.Buffer.{TableBuffer, buffer_data_columns}
use bsas_sc.Buffer.Inner.{consume_list}
use bsas_sc.Buffer.Rows.{Row, rows, IsValid}
use bsas_sc.Align.{
  TimeAligned, Filling, align_row, extract_buffer, extract_buffers, collect_timestamps, time_arrays,
  set_columns, extract,
}
use bsas_sc.Align.Extract.{
  AreArrays, length-containers, start_of, start-IsReady, extract_buffer-by, extract_buffer-throws,
}
use bsas_sc.Align.Initialize.{column_count}
use bsas_sc.Align.Going.{RowFits, IsGoing, fill_rest-returns, Consumed, consume_list-Consumed}

module _ (p : Pvxs) where
  open p use {Elem, Value}

  -- A buffer with a type, whose rows stand in all its data columns.
  pub record IsUsable (b : TableBuffer Value) : Type 0 where
    pub type_ : TimeTable
    pub arrays : AreArrays p type_.data_columns
    pub valid : IsValid p b
    pub typed : b.type_ ≡ some type_
    pub fits : All (RowFits p (length type_.data_columns)) (rows p b)

  abbrev pub AreUsable : List (Text × TableBuffer Value) → Type 0
  AreUsable m = All (λ x. IsUsable x.1) m

  module _ (e : EpicsTime) (timestamps : List TimeStamp) (end_ts : TimeStamp) where
    -- How the round for one buffer ends. It throws only where the buffer has more rows than there are
    -- timestamps.
    abbrev BufferDone : TableBuffer Value → Result (TableBuffer Value × List (Array Elem)) → Type 0
    BufferDone b (err x) = (x ≡ bad_access) × (length timestamps < length (rows p b))
    BufferDone b (ok (b', cols)) =
        (length cols ≡ suc (length (buffer_data_columns b))) × (b'.type_ ≡ b.type_) × IsUsable b'

    extract_buffer-Done :
        (b : TableBuffer Value) → IsUsable b → BufferDone b (extract_buffer p e timestamps end_ts b)
    unfolding buffer_data_columns
    extract_buffer-Done b u =
        by_rows (consume_list p (align_row p e timestamps end_ts) start (rows p b)) refl
          (consume_list-Consumed p e timestamps end_ts width (rows p b) start going u.fits)
      where
        n : ℕ
        n = length timestamps

        width : ℕ
        width = length u.type_.data_columns

        start : Filling p
        start = start_of p e timestamps end_ts u.type_.data_columns u.arrays

        going : IsGoing p n width start
        going = record {
          ready = start-IsReady p e timestamps end_ts u.type_.data_columns u.arrays;
          within = omega arith;
          wide = length-containers p n u.type_.data_columns u.arrays;
        }

        by_rows :
            (r : Result (Filling p × List (Row p)))
            → consume_list p (align_row p e timestamps end_ts) start (rows p b) ≡ r
            → Consumed p e timestamps end_ts width (0 + length (rows p b)) r
            → BufferDone b (extract_buffer p e timestamps end_ts b)
        by_rows (err x) ran (same, more) =
            rw
              (extract_buffer-throws p e timestamps end_ts b u.type_ u.arrays x u.valid u.typed ran)
              (same, omega (arith, more))
        by_rows (ok (s, rest)) ran (g, left) =
            let (s', filled, wide) =
              fill_rest-returns p n width (n - s.row) s g (omega (arith, g.within)) in
            let (b', made, valid, rows_left, same) =
              extract_buffer-by p e timestamps end_ts b u.type_ u.arrays s s' rest u.valid u.typed
                ran filled in
            rw made (
              ap suc (
                  wide
                  ∙ sym (ap (λ o. length (buffer_data_columns (record b { type_ = o }))) u.typed)),
              same,
              record {
                type_ = u.type_;
                arrays = u.arrays;
                valid = valid;
                typed = same ∙ u.typed;
                fits = subst (All (RowFits p width)) (sym rows_left) left;
              },
            )

    -- Some buffer has more rows than there are timestamps.
    abbrev pub SomeOverruns : List (Text × TableBuffer Value) → Type 0
    SomeOverruns [] = ⊥
    SomeOverruns ((k, b) ∷ m) = (length timestamps < length (rows p b)) ⊎ SomeOverruns m

    abbrev pub BuffersDone :
        List (Text × TableBuffer Value)
        → Result (List (Text × TableBuffer Value) × List (Array Elem))
        → Type 0
    BuffersDone m (err x) = (x ≡ bad_access) × SomeOverruns m
    BuffersDone m (ok (m', arrays)) =
        (length arrays ≡ column_count m) × (column_count m' ≡ column_count m) × AreUsable m'

    extract_buffers-Done :
        (m : List (Text × TableBuffer Value))
        → AreUsable m
        → BuffersDone m (extract_buffers p e timestamps end_ts m)
    unfolding extract_buffers buffer_data_columns
    extract_buffers-Done [] us = (refl, refl, tt)
    extract_buffers-Done ((k, b) ∷ m) us =
        by_first (extract_buffer p e timestamps end_ts b) (extract_buffer-Done b us.0)
          (extract_buffers p e timestamps end_ts m) (extract_buffers-Done m us.1)
      where
        by_first :
            (r : Result (TableBuffer Value × List (Array Elem)))
            → BufferDone b r
            → (q : Result (List (Text × TableBuffer Value) × List (Array Elem))) → BuffersDone m q
            → BuffersDone
                ((k, b) ∷ m)
                (do (b', cols) ← r; (m', rest) ← q; ok ((k, b') ∷ m', cols ++ rest))
        by_first (err x) h q hs = (h.0, inl h.1)
        by_first (ok (b', cols)) h (err x) hs = (hs.0, inr hs.1)
        by_first (ok (b', cols)) (wide, same, usable) (ok (m', arrays)) (width, count, rest) =
            let same_width =
              ap (λ o. length (buffer_data_columns (record b' { type_ = o }))) same in
            (
              omega (arith, length-append cols arrays, wide, width),
              omega (arith, same_width, count),
              (usable, rest),
            )

  -- A table that can be merged: its buffers are usable, and its type has a column for each of theirs.
  pub record IsMergeable (t : TimeAligned Value) : Type 0 where
    pub type_ : TimeTable
    pub typed : t.type_ ≡ some type_
    pub enough : length type_.columns ≡ 3 + column_count t.buffers
    pub usable : AreUsable t.buffers

  -- How a call of `extract` on such a table may end: with a table that can be merged again, or with an access
  -- out of bounds, where some buffer has more rows than there are timestamps in the range.
  abbrev pub ExtractDone :
      EpicsTime
      → TimeAligned Value
      → TimeStamp
      → TimeStamp
      → Result (TimeAligned Value × Value)
      → Type 0
  ExtractDone e t start end_ts (err x) =
      (x ≡ bad_access)
      × SomeOverruns e (collect_timestamps p e start end_ts t.buffers []) end_ts t.buffers
  ExtractDone e t start end_ts (ok (u, v)) = IsMergeable u

  -- In a range that does not end before it begins, on a merged table that has its type, with one column for
  -- each of those of its buffers, which are valid, with a type of array columns in all of which their rows
  -- stand: `extract` returns and leaves such a table, whichever timestamps the rows have, unless some buffer
  -- has more rows than there are timestamps in the range. The only exception that it then can throw is an
  -- access out of bounds.
  pub extract-Done :
      (e : EpicsTime) (t : TimeAligned Value) (start end_ts : TimeStamp)
      → stamp_gt e start end_ts ≡ false
      → IsMergeable t
      → ExtractDone e t start end_ts (extract p e t start end_ts)
  unfolding extract time_arrays
  extract-Done e t start end_ts order k = subst (ExtractDone e t start end_ts) (sym ran) (
      by_buffers (extract_buffers p e stamps end_ts t.buffers)
        (extract_buffers-Done e stamps end_ts t.buffers k.usable))
    where
      stamps : List TimeStamp
      stamps = collect_timestamps p e start end_ts t.buffers []

      finish :
          List (Text × TableBuffer Value) × List (Array Elem) → Result (TimeAligned Value × Value)
      finish (m, data_arrays) =
          let output = time_arrays p e stamps ++ data_arrays in
          guard (length k.type_.columns == length output) logic_error >>= λ done. ok (
            record t { buffers = m },
            set_columns p e (create_table p k.type_) k.type_.columns output,
          )

      ran :
          extract p e t start end_ts
          ≡ (extract_buffers p e stamps end_ts t.buffers >>= λ r. finish r)
      ran = simp (order, k.typed)

      by_buffers :
          (r : Result (List (Text × TableBuffer Value) × List (Array Elem)))
          → BuffersDone e stamps end_ts t.buffers r
          → ExtractDone e t start end_ts (r >>= λ r. finish r)
      by_buffers (err x) h = h
      by_buffers (ok (m', arrays)) (width, count, usable) =
          let output = time_arrays p e stamps ++ arrays in
          let sized : length output ≡ 3 + length arrays = omega arith in
          let same : (length k.type_.columns == length output) ≡ true =
            (==_iff _ _).1 (omega (arith, k.enough, sized, width)) in
          rw same (record {
            type_ = k.type_;
            typed = k.typed;
            enough = omega (arith, k.enough, count);
            usable = usable;
          })
