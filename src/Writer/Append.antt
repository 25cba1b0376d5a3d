-- ===== src/Writer/Append.antt =====
-- What a call of `write` does to the data sets of the file.
use bsas_sc.Common.{
  ℕ, ◌+◌, ◌-◌, true, false, ◌≡◌, ◌≢◌, refl, sym, ap, ◌∙◌, ◌==◌, some, List, [], ◌∷◌, ◌++◌, length,
  map, All, All-map, Pairwise, Text, Result, ok, arith, ◌<◌, ◌>>=◌,
}
use bsas_sc.Pvxs.{Pvxs, ScalarType}
use bsas_sc.Table.{
  ColumnSpec, TimeTable, seconds_past_epoch_col, is_valid, wrap, get_column_as_uint,
  get_column_as_void,
}
use bsas_sc.Table.Valid.{is_valid_iff}
use bsas_sc.Writer.Files.{Hdf5, ObjectPath}
use bsas_sc.Writer.Structure.{IsWritable}
use bsas_sc.Writer.{
  Writer, find_dataset, write_dataset, write_columns, write_rows, write_typed, write,
}

add_sub : (n m : ℕ) → (n + m) - m ≡ n
add_sub n m = omega arith

not_zero : (n : ℕ) → 0 < n → (n == 0) ≡ false
not_zero n h = ground arith

module _ (p : Pvxs) (h : Hdf5 p.Elem) where
  open p use {Elem, Value}
  open h use {File, get_dimensions}
  open h.objects use {contents}

  -- The elements of a column of the value.
  abbrev pub elems_of : Value → ColumnSpec → List Elem
  elems_of v c = (get_column_as_void p v c.name).elems

  write_dataset-contents :
      (f : File) (d : ObjectPath) (xs : List Elem)
      → contents (write_dataset p h f d xs) d ≡ contents f d ++ xs
  unfolding write_dataset
  write_dataset-contents f d xs =
      let n = length (contents f d) in
      let grown = h.resize f d (n + length xs) in
      let fits : n + length xs ≡ length (contents grown d) =
        sym (h.length-resize f d (n + length xs)) in
      rw (h.get_dimensions_lem f d, write_dataset, add_sub n (length xs))
        (h.write_raw-end grown d n xs fits
          ∙ ap (λ ys. ys ++ xs) (h.take-resize f d (n + length xs) (omega arith)))

  write_dataset_other :
      (f : File) (d : ObjectPath) (xs : List Elem) (x : ObjectPath)
      → x ≢ d
      → contents (write_dataset p h f d xs) x ≡ contents f x
  unfolding write_dataset
  write_dataset_other f d xs x n = h.write_raw-other _ d _ xs x n ∙ h.resize_other f d _ x n

  -- A column and its data set.
  abbrev pub Place : Type 0
  Place = ColumnSpec × ObjectPath

  -- The column holds arrays, not of strings, and `datasets_` names its data set.
  abbrev pub IsLocated : List (Text × ObjectPath) → Place → Type 0
  IsLocated datasets (c, d) = IsWritable c × (find_dataset c.name datasets ≡ some d)

  abbrev pub IsApart : List Place → Type 0
  IsApart places = Pairwise (λ q r. (q.1 ≢ r.1) × (r.1 ≢ q.1)) places

  -- The elements of the column stand behind what the data set held.
  abbrev pub Appended : Value → File → File → Place → Type 0
  Appended v f f' (c, d) = contents f' d ≡ contents f d ++ elems_of v c

  -- The loop over the columns, and the data sets that it leaves alone.
  pub record Written (v : Value) (places : List Place) (f : File) (r : Result File) : Type 0 where
    pub after : File
    pub returns : r ≡ ok after
    pub appended : All (Appended v f after) places
    pub others : (x : ObjectPath) → All (λ q. x ≢ q.1) places → contents after x ≡ contents f x

  pub write_columns-Written :
      (datasets : List (Text × ObjectPath)) (v : Value) (places : List Place) (f : File)
      → All (IsLocated datasets) places
      → IsApart places
      → Written v places f (write_columns p h datasets v (map (λ q. q.0) places) f)
  unfolding write_columns
  write_columns-Written datasets v [] f l a = record {
    after = f;
    returns = refl;
    appended = tt;
    others = λ x _. refl;
  }
  write_columns-Written datasets v ((c, d) ∷ qs) f l a =
      let ((s, e, no_string), at) = l.0 in
      let f' = write_dataset p h f d (elems_of v c) in
      let rest = write_columns-Written datasets v qs f' l.1 a.1 in
      record {
        after = rest.after;
        returns = rw (at, e, no_string) rest.returns;
        appended = (
          rest.others d (All-map _ _ qs (λ q n. n.0) a.0)
              ∙ write_dataset-contents f d (elems_of v c),
          still rest.after qs a.0 rest.appended,
        );
        others = λ x n. rest.others x n.1 ∙ write_dataset_other f d (elems_of v c) x n.0;
      }
    where
      still :
          (f'' : File) (qs : List Place)
          → All (λ r. (d ≢ r.1) × (r.1 ≢ d)) qs
          → All (Appended v (write_dataset p h f d (elems_of v c)) f'') qs
          → All (Appended v f f'') qs
      still f'' [] n k = tt
      still f'' (q ∷ qs) n k = (
        k.0 ∙ ap (λ ys. ys ++ elems_of v q.0) (write_dataset_other f d (elems_of v c) q.1 n.0.1),
        still f'' qs n.1 k.1,
      )

  -- Calls of `write`, one after the other.
  abbrev pub write_all : Writer p h → List Value → Result (Writer p h)
  write_all w [] = ok w
  write_all w (v ∷ vs) = write p h w v >>= λ x. write_all x vs

  -- The number of rows that `write` finds.
  abbrev pub row_count : Value → ℕ
  row_count v = length (get_column_as_uint p ScalarType.uint32 v seconds_past_epoch_col)

  flushed : (v : Value) (f f' : File) (q : Place) → Appended v f f' q → Appended v f (h.flush f') q
  flushed v f f' (c, d) e = h.contents-flush f' d ∙ e

  -- A value with rows that the type of the file describes is written: `write` returns, what each column
  -- holds stands behind what its data set held before, and the type and the data sets are the same. It
  -- is supposed that no column holds strings, each has a data set, and no two the same.
  pub write-appends :
      (w : Writer p h) (type : TimeTable) (value : Value) (places : List Place)
      → w.type_ ≡ some type
      → is_valid p type value ≡ ok true
      → 0 < row_count value
      → map (λ q. q.0) places ≡ type.columns
      → All (IsLocated w.datasets) places
      → IsApart places
      → (w' : Writer p h) × (write p h w value ≡ ok w')
        × (w'.type_ ≡ some type)
        × (w'.datasets ≡ w.datasets)
        × All (Appended value w.file w'.file) places
  unfolding write write_typed write_rows wrap
  write-appends w type value places ty v rows cols located apart =
      let usable = ((is_valid_iff p type value).0 v).usable in
      let run = write_columns-Written w.datasets value places w.file located apart in
      (
        record w { file = h.flush run.after },
        rw (usable, ty, not_zero (row_count value) rows, v, sym cols, run.returns) refl,
        ty,
        refl,
        All-map _ _ places (λ q e. flushed value w.file run.after q e) run.appended,
      )
