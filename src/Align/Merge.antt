-- ===== src/Align/Merge.antt =====
-- What `extract` makes of all buffers, where none misses a timestamp.
use bsas_sc.Common.{
  ℕ, suc, ◌+◌, false, length-append, ap₂, ◌≡◌, refl, ap, ◌∙◌, some, List, [], ◌∷◌, ◌++◌, map,
  length, All, Text, ok, err, bad_access, ◌⊎◌, inl, inr,
}
use bsas_sc.Stamp.{EpicsTime, TimeStamp, stamp_gt}
use bsas_sc.Pvxs.{Pvxs, Array}
use bsas_sc.Table.{TimeTable}
use bsas_sc.Buffer.{TableBuffer}
use bsas_sc.Buffer.Rows.{Row, rows, IsValid}
use bsas_sc.Align.{TimeAligned, extract_buffers, collect_timestamps, extract}
use bsas_sc.Align.Complete.{AllHold, RowFits, InTime}
use bsas_sc.Align.Extract.{
  AreArrays, containers, column_of, extract_buffer_complete, extract_buffer-overruns,
}

module _ (p : Pvxs) (e : EpicsTime) (timestamps : List TimeStamp) (end_ts : TimeStamp) where
  open p use {Elem, Value}

  abbrev pub Buffers : Type 0
  Buffers = List (Text × TableBuffer Value)

  -- A buffer holds exactly one row for every timestamp, none of them after the end and each with all data
  -- columns.
  pub record IsComplete (b : TableBuffer Value) : Type 0 where
    pub type_ : TimeTable
    pub arrays : AreArrays p type_.data_columns
    pub valid : IsValid p b
    pub typed : b.type_ ≡ some type_
    pub stamps : map (λ r. r.0) (rows p b) ≡ timestamps
    pub in_time : All (InTime p e timestamps end_ts) (rows p b)
    pub fits :
        All
          (RowFits p e timestamps end_ts
            (containers p (length timestamps) type_.data_columns arrays))
          (rows p b)

  abbrev pub AreComplete : Buffers → Type 0
  AreComplete m = All (λ x. IsComplete x.1) m

  -- What comes out of each buffer, in order: the buffer without rows, and behind
  -- the columns of the buffers before it a column of marks and the columns with exactly those rows.
  abbrev pub Merged : (m : Buffers) → AreComplete m → Buffers → List (Array Elem) → Type 0
  Merged [] h [] arrays = arrays ≡ []
  Merged [] h (x ∷ m') arrays = ⊥
  Merged (x ∷ m) h [] arrays = ⊥
  Merged ((k, b) ∷ m) (h, hs) ((k', b') ∷ m') arrays =
      (k' ≡ k)
      × IsValid p b'
      × (rows p b' ≡ [])
      × ((marks : List Elem) × (columns rest : List (Array Elem)) × (arrays
            ≡ (column_of p e timestamps end_ts marks ∷ columns) ++ rest)
          × (length columns ≡ length h.type_.data_columns)
          × AllHold p e timestamps end_ts 0 (rows p b) marks columns
          × Merged m hs m' rest)

  -- Where every buffer holds exactly one row for each of the timestamps, the loop of `extract` over the buffers
  -- returns. Each buffer gives a column of marks, which are all set, and its data columns, with exactly its
  -- rows, and is left without rows; the columns stand in the order of the names.
  pub extract_buffers_complete :
      (m : Buffers) (h : AreComplete m)
      → (m' : Buffers) × (arrays : List (Array Elem)) × (extract_buffers p e timestamps end_ts m
          ≡ ok (m', arrays))
        × Merged m h m' arrays
  unfolding extract_buffers
  extract_buffers_complete [] h = ([], [], refl, refl)
  extract_buffers_complete ((k, b) ∷ m) (h, hs) =
      let (b', marks, columns, ran, v, left, count, holds) =
        extract_buffer_complete p e timestamps end_ts b h.type_ h.arrays h.valid h.typed h.stamps
          h.in_time h.fits in
      let (m', rest, ran_rest, merged) = extract_buffers_complete m hs in
      (
        (k, b') ∷ m',
        (column_of p e timestamps end_ts marks ∷ columns) ++ rest,
        simp (ran, ran_rest),
        (refl, v, left, (marks, columns, rest, refl, count, holds, merged)),
      )

  -- A buffer holds one row for every timestamp, as if it were complete, and at least one more behind them.
  pub record HasMore (b : TableBuffer Value) : Type 0 where
    pub type_ : TimeTable
    pub arrays : AreArrays p type_.data_columns
    pub taken : List (Row p)
    pub next : Row p
    pub later : List (Row p)
    pub valid : IsValid p b
    pub typed : b.type_ ≡ some type_
    pub held : rows p b ≡ taken ++ (next ∷ later)
    pub stamps : map (λ r. r.0) taken ≡ timestamps
    pub in_time : All (InTime p e timestamps end_ts) taken
    pub fits :
        All
          (RowFits p e timestamps end_ts
            (containers p (length timestamps) type_.data_columns arrays))
          taken

  -- One buffer has more, and those before it are complete.
  abbrev pub SomeHasMore : Buffers → Type 0
  SomeHasMore [] = ⊥
  SomeHasMore ((k, b) ∷ m) = HasMore b ⊎ (IsComplete b × SomeHasMore m)

  extract_buffers-overrun :
      (m : Buffers) → SomeHasMore m → extract_buffers p e timestamps end_ts m ≡ err bad_access
  unfolding extract_buffers
  extract_buffers-overrun [] more = absurd more
  extract_buffers-overrun ((k, b) ∷ m) (inl h) = simp (
      extract_buffer-overruns p e timestamps end_ts b h.type_ h.taken h.later h.next h.arrays
        h.valid h.typed h.held h.stamps h.in_time h.fits)
  extract_buffers-overrun ((k, b) ∷ m) (inr (h, more)) =
      let (b', marks, columns, ran, v, left, count, holds) =
        extract_buffer_complete p e timestamps end_ts b h.type_ h.arrays h.valid h.typed h.stamps
          h.in_time h.fits in
      simp (ran, extract_buffers-overrun m more)

  -- The columns of all buffers: one of marks and the data columns of each.
  abbrev pub column_count : (m : Buffers) → AreComplete m → ℕ
  column_count [] h = 0
  column_count ((k, b) ∷ m) (h, hs) = suc (length h.type_.data_columns) + column_count m hs

  pub length-Merged :
      (m : Buffers) (h : AreComplete m) (m' : Buffers) (arrays : List (Array Elem))
      → Merged m h m' arrays
      → length arrays ≡ column_count m h
  length-Merged [] h [] arrays r = ap length r
  length-Merged [] h (x ∷ m') arrays r = absurd r
  length-Merged (x ∷ m) h [] arrays r = absurd r
  length-Merged ((k, b) ∷ m) (h, hs) ((k', b') ∷ m') arrays
        (same, v, left, (marks, columns, rest, q, count, holds, merged)) =
      ap length q
      ∙ length-append (column_of p e timestamps end_ts marks ∷ columns) rest
      ∙ ap₂ (λ x y. suc x + y) count (length-Merged m hs m' rest merged)

module _ (p : Pvxs) (e : EpicsTime) where
  open p use {Elem, Value}

  -- A bug. In a range that does not end before it begins, on a merged table with a type: if some valid buffer
  -- with a type of array columns holds one row for each of the timestamps that any of the buffers has in the
  -- range, none of them after the end and each with all data columns, and at least one more row behind
  -- them, be it after the end or not, and each buffer before it holds exactly such rows, then `extract`
  -- reads past the last timestamp.
  pub extract-overruns :
      (t : TimeAligned Value) (type : TimeTable) (start_ts end_ts : TimeStamp)
      → stamp_gt e start_ts end_ts ≡ false
      → t.type_ ≡ some type
      → SomeHasMore p e (collect_timestamps p e start_ts end_ts t.buffers []) end_ts t.buffers
      → extract p e t start_ts end_ts ≡ err bad_access
  unfolding extract
  extract-overruns t type start_ts end_ts order typed more =
      let stamps = collect_timestamps p e start_ts end_ts t.buffers [] in
      simp (order, typed, extract_buffers-overrun p e stamps end_ts t.buffers more)
