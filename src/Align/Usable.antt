-- ===== src/Align/Usable.antt =====
-- `push` on a buffer, and what `extract` needs of it.
use bsas_sc.Common.{
  ℕ, suc, ◌+◌, ◌<◌, ◌≤◌, ◌≡◌, refl, sym, ◌∙◌, ap, subst, ◌⊎◌, inl, inr, Bool-cases, some, List, [],
  ◌∷◌, ◌++◌, length, length-map, All, All-append, All-map, All-split, All-image, Text, text_eq,
  text_eq_iff, ok, arith,
}
use bsas_sc.Stamp.{TimeStamp}
use bsas_sc.Pvxs.{Pvxs, Array, Member}
use bsas_sc.Table.{ColumnSpec, TimeTable, find_member, get_column, get_column_as_void}
use bsas_sc.Table.Valid.{Matches, HaveRows, Conforms}
use bsas_sc.Buffer.{
  TableBuffer, column_values, ensure_type, push, seconds_of, nanoseconds_of, pulse_ids_of,
}
use bsas_sc.Buffer.Rows.{number_rows, stamps_of, value_rows, IsValid}
use bsas_sc.Buffer.Inner.{length-zip_stamps}
use bsas_sc.Buffer.Push.{rows_by, push-stores, ensure_type-IsTimed, Conforms-lengths}
use bsas_sc.Align.Extract.{AreArrays}
use bsas_sc.Align.Going.{RowFits}
use bsas_sc.Align.Returns.{IsUsable}

module _ (p : Pvxs) where
  open p use {Elem, Value}

  abbrev HasName : Text → List (Member Elem) → Type 0
  HasName n [] = ⊥
  HasName n (m ∷ ms) = (m.name ≡ n) ⊎ HasName n ms

  Matches-HasName :
      (ls : List Text) (cs : List ColumnSpec) (ms : List (Member Elem))
      → Matches p ls cs ms
      → All (λ c. HasName c.name ms) cs
  Matches-HasName [] [] [] h = tt
  Matches-HasName (l ∷ ls) (c ∷ cs) (m ∷ ms) (label, name, code, h) =
      (inl name, All-map _ _ cs (λ d k. inr k) (Matches-HasName ls cs ms h))
  Matches-HasName [] [] (m ∷ ms) h = absurd h
  Matches-HasName [] (c ∷ cs) ms h = absurd h
  Matches-HasName (l ∷ ls) [] ms h = absurd h
  Matches-HasName (l ∷ ls) (c ∷ cs) [] h = absurd h

  find_member-HasName :
      (n : Text) (k : ℕ) (ms : List (Member Elem))
      → HaveRows p k ms
      → HasName n ms
      → (m : Member Elem) × (find_member p n ms ≡ some m) × (length m.array.elems ≡ k)
  unfolding find_member
  find_member-HasName n k [] h has = absurd has
  find_member-HasName n k (m ∷ ms) h has = elim (Bool-cases (text_eq n m.name)) [
    | inl e ↦ (m, rw e refl, h.0)
    | inr e ↦ elim has [
      | inl same ↦ absurd (let q = (text_eq_iff n m.name).1 (sym same) in cc (q, e))
      | inr later ↦
          let (x, found, len) = find_member-HasName n k ms h.1 later in (x, rw e found, len)
    ]
  ]

  get_column_as_void-found :
      (v : Value) (n : Text) (ms : List (Member Elem)) (m : Member Elem)
      → p.columns v ≡ some ms
      → find_member p n ms ≡ some m
      → get_column_as_void p v n ≡ m.array
  unfolding get_column_as_void get_column
  get_column_as_void-found v n ms m h k = ground (arith, h, k)

  -- Every column of a value of the type has as many elements as the value has rows.
  length-get_column_as_void :
      (t : TimeTable) (v : Value) (c : Conforms p t v)
      → All (λ d. length (get_column_as_void p v d.name).elems ≡ c.rows) t.columns
  length-get_column_as_void t v c =
      All-map _ _ t.columns
        (λ d has.
          let (m, found, len) = find_member-HasName d.name c.rows c.ms c.have_rows has in
          ap (λ a. length a.elems) (get_column_as_void-found v d.name c.ms m c.has_columns found)
          ∙ len)
        (Matches-HasName c.ls t.columns c.ms c.matches)

  number_rows-RowFits :
      (n : ℕ) (cols : List (Array Elem)) (idx : ℕ) (ts : List TimeStamp)
      → All (λ a. length a.elems ≡ n) cols
      → idx + length ts ≤ n
      → All (RowFits p (length cols)) (number_rows p cols idx ts)
  number_rows-RowFits n cols idx [] h le = tt
  number_rows-RowFits n cols idx (t ∷ ts) h le = (
    (refl, All-map _ _ cols (λ a k. omega (arith, k, le)) h),
    number_rows-RowFits n cols (suc idx) ts h (omega (arith, le)),
  )

  value_rows-RowFits :
      (t : TimeTable) (v : Value) (c : Conforms p t v)
      → t.columns ≡ t.time_columns ++ t.data_columns
      → length (stamps_of p v) ≤ c.rows
      → All (RowFits p (length t.data_columns)) (value_rows p t v 0)
  value_rows-RowFits t v c split le =
      let (_, sized) = All-split _ t.time_columns t.data_columns (
        subst (All (λ d. length (get_column_as_void p v d.name).elems ≡ c.rows)) split
          (length-get_column_as_void t v c)) in
      let cols =
        All-image (λ d. get_column_as_void p v d.name) (λ a. length a.elems ≡ c.rows) t.data_columns
          sized in
      subst (λ n. All (RowFits p n) (value_rows p t v 0))
        (length-map t.data_columns (λ d. get_column_as_void p v d.name))
        (number_rows-RowFits c.rows (column_values p t v) 0 (stamps_of p v) cols
          (omega (arith, le)))

  -- `push` of a value with rows that the buffer's type accepts succeeds, and keeps a valid buffer as `extract`
  -- needs it: it is valid, its columns are arrays, and all rows held, the old ones and the new, stand in
  -- each of them. It is supposed that this was so of the old rows, that the type's data columns are arrays, and
  -- that its columns are the time columns and the data columns.
  pub push-IsUsable :
      (b : TableBuffer Value) (v : Value) (t : TimeTable)
      → IsValid p b
      → ensure_type p b v ≡ ok t
      → (c : Conforms p t v) → 0 < c.rows
      → t.columns ≡ t.time_columns ++ t.data_columns
      → AreArrays p t.data_columns
      → All (RowFits p (length t.data_columns)) (rows_by p t b)
      → (b' : TableBuffer Value) × (push p b v ≡ (b', ok tt)) × IsUsable p b'
  push-IsUsable b v t valid typed c some_rows split arrays fits =
      let (b', pushed, valid', spans, typed', are) = push-stores p b v t valid typed c some_rows in
      let names = ensure_type-IsTimed p b v t valid.timed typed in
      let len = Conforms-lengths p t v c names in
      let le : length (stamps_of p v) ≤ c.rows = omega (
        arith,
        length-zip_stamps (seconds_of p v) (nanoseconds_of p v) (pulse_ids_of p v)
            (len.1 ∙ sym len.0) (len.2 ∙ sym len.0),
        len.0,
      ) in
      (
        b',
        pushed,
        record {
          type_ = t;
          arrays = arrays;
          valid = valid';
          typed = typed';
          fits =
              subst (All (RowFits p (length t.data_columns))) (sym are)
                (All-append _ (rows_by p t b) _ fits (value_rows-RowFits t v c split le));
        },
      )
