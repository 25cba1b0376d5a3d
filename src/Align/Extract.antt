-- ===== src/Align/Extract.antt =====
-- What `extract` makes of one buffer: complete rows, and the rows lost where a timestamp is missing.
use bsas_sc.Common.{
  ℕ, suc, ◌-◌, ◌<◌, ◌≡◌, refl, ap, sym, ◌∙◌, subst, Bool, true, false, some, List, [], ◌∷◌, ◌++◌,
  map, length, get_elem?, All, Result, ok, err, Error, bad_access, append-nil, arith, map_result,
}
use bsas_sc.Stamp.{EpicsTime, TimeStamp, stamp_gt}
use bsas_sc.Pvxs.{Pvxs, ScalarType, array, of_scalar, Array}
use bsas_sc.Table.{ColumnSpec, TimeTable}
use bsas_sc.Buffer.{TableBuffer, allocate, allocate_containers, consume_each_row}
use bsas_sc.Buffer.Rows.{Row, rows, IsValid}
use bsas_sc.Buffer.Inner.{consume_list}
use bsas_sc.Buffer.Consume.{Consumes, consume_each_row-refines}
use bsas_sc.Align.{Filling, align_row, fill_rest, extract_buffer}
use bsas_sc.Align.Row.{IsColumn, IsReady}
use bsas_sc.Align.Complete.{AllHold, RowFits, InTime, consume_list-overruns, aligned_run}
use bsas_sc.Align.Ahead.{fill_rest-ok, after_end, ahead_run}

module _ (p : Pvxs) where
  open p use {
    Elem, Value, bool_elem, alloc_elems, length-alloc_elems, array_type-array,
    alloc_array-of_scalar,
  }

  -- All columns have array types.
  abbrev pub AreArrays : List ColumnSpec → Type 0
  AreArrays cs = All (λ c. (s : ScalarType) × (c.type_code ≡ array s)) cs

  -- The arrays that `allocate_containers` makes.
  abbrev pub containers : ℕ → (cs : List ColumnSpec) → AreArrays cs → List (Array Elem)
  containers n [] h = []
  containers n (c ∷ cs) h =
      record { original_type = of_scalar h.0.0; elems = alloc_elems h.0.0 n } ∷ containers n cs h.1

  pub length-containers :
      (n : ℕ) (cs : List ColumnSpec) (h : AreArrays cs) → length (containers n cs h) ≡ length cs
  length-containers n [] h = refl
  length-containers n (c ∷ cs) h = ap suc (length-containers n cs h.1)

  containers-ready :
      (n : ℕ) (cs : List ColumnSpec) (h : AreArrays cs) → All (IsColumn p n) (containers n cs h)
  containers-ready n [] h = tt
  containers-ready n (c ∷ cs) h = (
    record { elem_type = h.0.0; typed = refl; sized = length-alloc_elems h.0.0 n },
    containers-ready n cs h.1,
  )

  allocate-ok :
      (n : ℕ) (cs : List ColumnSpec) (h : AreArrays cs)
      → map_result (allocate p n) cs ≡ ok (containers n cs h)
  unfolding allocate
  allocate-ok n [] h = refl
  allocate-ok n (c ∷ cs) h =
      rw (h.0.1, array_type-array h.0.0, alloc_array-of_scalar h.0.0 n, allocate-ok n cs h.1)

  module _ (e : EpicsTime) (timestamps : List TimeStamp) (end_ts : TimeStamp) where
    abbrev pub start_of : (cs : List ColumnSpec) → AreArrays cs → Filling p
    start_of cs h = record {
      row = 0;
      valid = alloc_elems ScalarType.bool (length timestamps);
      columns = containers (length timestamps) cs h;
    }

    pub start-IsReady :
        (cs : List ColumnSpec) (h : AreArrays cs) → IsReady p (length timestamps) (start_of cs h)
    start-IsReady cs h = record {
      valid_sized = length-alloc_elems ScalarType.bool (length timestamps);
      ready = containers-ready (length timestamps) cs h;
    }

    abbrev step : Filling p → TimeStamp → List (Array Elem) → ℕ → Result (Filling p × Bool)
    step = align_row p e timestamps end_ts

    abbrev pub column_of : List Elem → Array Elem
    column_of v = record { original_type = of_scalar ScalarType.bool; elems = v }

    allocated :
        (b : TableBuffer Value) (t : TimeTable) (h : AreArrays t.data_columns)
        → b.type_ ≡ some t
        → allocate_containers p b (length timestamps)
          ≡ ok (containers (length timestamps) t.data_columns h)
    unfolding allocate_containers
    allocated b t h ty = simp (ty, allocate-ok (length timestamps) t.data_columns h)

    extract_buffer-parts :
        (b b' : TableBuffer Value) (cols : List (Array Elem)) (s s' : Filling p)
        → allocate_containers p b (length timestamps) ≡ ok cols
        → consume_each_row p step b (record {
          row = 0;
          valid = alloc_elems ScalarType.bool (length timestamps);
          columns = cols;
        })
          ≡ ok (s, b')
        → fill_rest p (length timestamps - s.row) s ≡ ok s'
        → extract_buffer p e timestamps end_ts b ≡ ok (b', column_of s'.valid ∷ s'.columns)
    unfolding extract_buffer
    extract_buffer-parts b b' cols s s' a q fill = simp (a, q, fill)

    -- The round of the loop, once the consumption of the rows and the last loop are known.
    pub extract_buffer-by :
        (b : TableBuffer Value) (t : TimeTable) (h : AreArrays t.data_columns) (s s' : Filling p)
        (rest : List (Row p))
        → IsValid p b
        → b.type_ ≡ some t
        → consume_list p step (start_of t.data_columns h) (rows p b) ≡ ok (s, rest)
        → fill_rest p (length timestamps - s.row) s ≡ ok s'
        → (b' : TableBuffer Value) × (extract_buffer p e timestamps end_ts b
            ≡ ok (b', column_of s'.valid ∷ s'.columns))
          × IsValid p b'
          × (rows p b' ≡ rest)
          × (b'.type_ ≡ b.type_)
    extract_buffer-by b t h s s' rest v ty run fill =
        let c = consume_each_row-refines p step b (start_of t.data_columns h) v in
        let (b', q, v', sp, r, same) =
          subst (λ x. Consumes p step b x (consume_each_row p step b (start_of t.data_columns h)))
            run c in
        (b', extract_buffer-parts b b' _ s s' (allocated b t h ty) q fill, v', r, same)

    -- The round of the loop, where the consumption of the rows throws.
    pub extract_buffer-throws :
        (b : TableBuffer Value) (t : TimeTable) (h : AreArrays t.data_columns) (x : Error)
        → IsValid p b
        → b.type_ ≡ some t
        → consume_list p step (start_of t.data_columns h) (rows p b) ≡ err x
        → extract_buffer p e timestamps end_ts b ≡ err x
    unfolding extract_buffer
    extract_buffer-throws b t h x v ty run =
        let c = consume_each_row-refines p step b (start_of t.data_columns h) v in
        let q =
          subst (λ r. Consumes p step b r (consume_each_row p step b (start_of t.data_columns h)))
            run c in
        simp (allocated b t h ty, q)

    fill_none :
        (s : Filling p)
        → s.row ≡ length timestamps
        → fill_rest p (length timestamps - s.row) s ≡ ok s
    unfolding fill_rest
    fill_none s h =
        let z : length timestamps - s.row ≡ 0 = omega arith in ap (λ n. fill_rest p n s) z

    -- Where a valid buffer with a type of array columns holds exactly one row for every extracted
    -- timestamp, none of them after the end and each with all data columns, there are as many columns as
    -- data columns, every row is marked as valid and holds the elements of its row of the buffer, and the
    -- buffer is left without rows.
    pub extract_buffer_complete :
        (b : TableBuffer Value) (t : TimeTable) (h : AreArrays t.data_columns)
        → IsValid p b
        → b.type_ ≡ some t
        → map (λ r. r.0) (rows p b) ≡ timestamps
        → All (InTime p e timestamps end_ts) (rows p b)
        → All
            (RowFits p e timestamps end_ts (containers (length timestamps) t.data_columns h))
            (rows p b)
        → (b' : TableBuffer Value) × (valid : List Elem) × (columns : List (Array Elem))
          × (extract_buffer p e timestamps end_ts b ≡ ok (b', column_of valid ∷ columns))
          × IsValid p b'
          × (rows p b' ≡ [])
          × (length columns ≡ length t.data_columns)
          × AllHold p e timestamps end_ts 0 (rows p b) valid columns
    extract_buffer_complete b t h v ty m in_time fits =
        let (s, run, ran) =
          aligned_run p e timestamps end_ts (rows p b) [] (start_of t.data_columns h)
            (start-IsReady t.data_columns h) (omega arith) (sym m) in_time fits in
        let (b', q, v', left, _) =
          extract_buffer-by b t h s s [] v ty
            (ap (consume_list p step (start_of t.data_columns h)) (sym (append-nil (rows p b)))
              ∙ run)
            (fill_none s ran.at_end) in
        (
          b',
          s.valid,
          s.columns,
          q,
          v',
          left,
          ran.count ∙ length-containers (length timestamps) t.data_columns h,
          ran.holds,
        )

    -- A bug. Where a valid buffer with a type of array columns holds a row for every extracted timestamp,
    -- none of them after the end and each with all data columns, and any further row behind them, be it
    -- after the end or not, `extract` reads past the last timestamp.
    pub extract_buffer-overruns :
        (b : TableBuffer Value) (t : TimeTable) (taken later : List (Row p)) (next : Row p)
        (h : AreArrays t.data_columns)
        → IsValid p b
        → b.type_ ≡ some t
        → rows p b ≡ taken ++ (next ∷ later)
        → map (λ r. r.0) taken ≡ timestamps
        → All (InTime p e timestamps end_ts) taken
        → All
            (RowFits p e timestamps end_ts (containers (length timestamps) t.data_columns h))
            taken
        → extract_buffer p e timestamps end_ts b ≡ err bad_access
    extract_buffer-overruns b t taken later next h v ty r m in_time fits =
        let start = start_of t.data_columns h in
        let (s, run, ran) =
          aligned_run p e timestamps end_ts taken (next ∷ later) start
            (start-IsReady t.data_columns h) (omega arith) (sym m) in_time fits in
        extract_buffer-throws b t h bad_access v ty (
          ap (consume_list p step start) r
          ∙ run
          ∙ consume_list-overruns p e timestamps end_ts s next later ran.at_end)

    -- A bug. Where a buffer has no row for the first extracted timestamp, and so all its rows are later,
    -- no row of the result is valid for this buffer, and all its rows up to the end are gone: the branch
    -- for a row that is ahead goes on to the next row of the buffer in place of the next timestamp.
    pub extract_buffer-ahead :
        (b : TableBuffer Value) (t : TimeTable) (first : TimeStamp) (h : AreArrays t.data_columns)
        → IsValid p b
        → b.type_ ≡ some t
        → get_elem? timestamps 0 ≡ some first
        → All (λ r. stamp_gt e r.0 first ≡ true) (rows p b)
        → (b' : TableBuffer Value) × (valid : List Elem) × (columns : List (Array Elem))
          × (extract_buffer p e timestamps end_ts b ≡ ok (b', column_of valid ∷ columns))
          × (length valid ≡ length timestamps)
          × All (λ x. x ≡ bool_elem false) valid
          × (rows p b' ≡ after_end p e timestamps end_ts (rows p b))
    extract_buffer-ahead b t first h v ty at ahead =
        let lt = in_list timestamps at in
        let (s, run, stuck) =
          ahead_run p e timestamps end_ts (rows p b) (start_of t.data_columns h) first
            (start-IsReady t.data_columns h) lt at ahead in
        let (s', fill, ready, clear) =
          fill_rest-ok p (length timestamps) (length timestamps - s.row) s stuck.ready
            (omega (arith, stuck.same_row)) in
        let (b', q, v', left, _) = extract_buffer-by b t h s s' _ v ty run fill in
        (
          b',
          s'.valid,
          s'.columns,
          q,
          clear.sized,
          all_at s'.valid (λ i lt.
              clear.cleared i (omega (arith, stuck.same_row)) (omega (arith, clear.sized))),
          left,
        )
      where
        in_list : (ts : List TimeStamp) → get_elem? ts 0 ≡ some first → 0 < length ts
        in_list [] h = cc
        in_list (t ∷ ts) h = omega arith

        all_at :
            (xs : List Elem)
            → ((i : ℕ) → i < length xs → get_elem? xs i ≡ some (bool_elem false))
            → All (λ x. x ≡ bool_elem false) xs
        all_at [] h = tt
        all_at (x ∷ xs) h = (cc (h 0 (omega arith)), all_at xs (λ i lt. h (suc i) (omega arith)))
