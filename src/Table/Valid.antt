-- ===== src/Table/Valid.antt =====
-- `TimeTable::is_valid` against an independent description of the values that it accepts.
use bsas_sc.Common.{
  ℕ, suc, ◌≤◌, Bool, true, false, not, ◌≡◌, refl, ap, ◌↔◌, inl, inr, List, [], ◌∷◌, length, All,
  Text, text_eq, text_eq_iff, Result, ok, err, runtime_error, some, none, Option, arith, ltb, ◌==◌,
  ==_iff, if◌then◌else◌, ◌>>=◌, Bool-cases, ◌∙◌,
}
use bsas_sc.Pvxs.{Pvxs, Member}
use bsas_sc.Table.{
  ColumnSpec, TimeTable, has_length, insert_length, check_columns, check_fields, is_valid, wrap,
}

module _ (p : Pvxs) where
  open p use {Elem, Value, type_eq, type_eq_refl, eq_of_type_eq, valid, labels, columns}

  abbrev rows_of : Member Elem → ℕ
  rows_of m = length m.array.elems

  -- Label by label and column by column, the names and types are those of the specifications.
  abbrev pub Matches : List Text → List ColumnSpec → List (Member Elem) → Type 0
  Matches [] [] [] = Unit
  Matches (l ∷ ls) (c ∷ cs) (m ∷ ms) =
      (l ≡ c.label) × (m.name ≡ c.name) × (m.type_code ≡ c.type_code) × Matches ls cs ms
  Matches _ _ _ = ⊥

  -- All columns have `n` rows.
  abbrev pub HaveRows : ℕ → List (Member Elem) → Type 0
  HaveRows n = All (λ m. length m.array.elems ≡ n)

  -- The values that `is_valid` is to accept.
  pub record Conforms (t : TimeTable) (v : Value) : Type 0 where
    pub usable : valid v ≡ true
    pub ls : List Text
    pub ms : List (Member Elem)
    pub rows : ℕ
    pub has_labels : labels v ≡ some ls
    pub has_columns : columns v ≡ some ms
    pub matches : Matches ls t.columns ms
    pub have_rows : HaveRows rows ms

  -- The set of lengths that the loop has collected at its end.
  abbrev collect : List (Member Elem) → List ℕ → List ℕ
  collect [] lengths = lengths
  collect (m ∷ ms) lengths = collect ms (insert_length (length m.array.elems) lengths)

  collect_grows : (ms : List (Member Elem)) (s : List ℕ) → length s ≤ length (collect ms s)
  collect_grows [] s = omega arith
  collect_grows (m ∷ ms) s = elim (Bool-cases (has_length (rows_of m) s)) [
    | inl h ↦ rw h (collect_grows ms s)
    | inr h ↦ rw h (omega (arith, collect_grows ms (rows_of m ∷ s)))
  ]

  collect-HaveRows :
      (ms : List (Member Elem)) (n : ℕ)
      → ltb 1 (length (collect ms (n ∷ []))) ≡ false
      → HaveRows n ms
  collect-HaveRows [] n h = tt
  collect-HaveRows (m ∷ ms) n h = elim (Bool-cases (rows_of m == n)) [
    | inl e ↦ ((==_iff (rows_of m) n).0 e, collect-HaveRows ms n (rw e at h))
    | inr e ↦ absurd (ground (arith, collect_grows ms (rows_of m ∷ n ∷ []), h))
  ]

  HaveRows-collect :
      (ms : List (Member Elem)) (n : ℕ) → HaveRows n ms → collect ms (n ∷ []) ≡ n ∷ []
  HaveRows-collect [] n h = refl
  HaveRows-collect (m ∷ ms) n h = rw ((==_iff (rows_of m) n).1 h.0) (HaveRows-collect ms n h.1)

  check_step :
      (l : Text) (c : ColumnSpec) (m : Member Elem) (rest : Result Bool)
      → (if not (text_eq l c.label)
          then ok false
          else if not (text_eq m.name c.name)
          then ok false
          else if not (type_eq m.type_code c.type_code)
          then ok false
          else rest)
        ≡ ok true
      → (text_eq l c.label ≡ true)
        × (text_eq m.name c.name ≡ true)
        × (type_eq m.type_code c.type_code ≡ true)
        × (rest ≡ ok true)
  check_step l c m rest e = ground arith

  -- The loop answers true exactly if everything matches and the lengths are at most one.
  check_columns_iff :
      (ls : List Text) (cs : List ColumnSpec) (ms : List (Member Elem)) (s : List ℕ)
      → length ls ≡ length cs
      → length ms ≡ length cs
      → (check_columns p ls cs ms s ≡ ok true)
        ↔ (Matches ls cs ms × (ltb 1 (length (collect ms s)) ≡ false))
  unfolding check_columns
  check_columns_iff [] [] [] s h k = ((λ e. ground arith), (λ e. ground arith))
  check_columns_iff (l ∷ ls) (c ∷ cs) (m ∷ ms) s h k =
      let ih =
        check_columns_iff ls cs ms (insert_length (length m.array.elems) s) (omega arith)
          (omega arith) in
      (
        (λ e.
            let q = check_step l c m (check_columns p ls cs ms (insert_length (rows_of m) s)) e in
            let r = ih.0 q.3 in
            (
              (
                (text_eq_iff l c.label).0 q.0,
                (text_eq_iff m.name c.name).0 q.1,
                eq_of_type_eq m.type_code c.type_code q.2,
                r.0,
              ),
              r.1,
            )),
        (λ e.
            rw
              (
                (text_eq_iff l c.label).1 e.0.0,
                (text_eq_iff m.name c.name).1 e.0.1,
                ap (λ x. type_eq x c.type_code) e.0.2 ∙ type_eq_refl c.type_code,
              )
              (ih.1 (e.0.3, e.1))),
      )
  check_columns_iff [] (c ∷ cs) ms s h k = absurd (omega arith)
  check_columns_iff [] [] (m ∷ ms) s h k = absurd (omega arith)
  check_columns_iff (l ∷ ls) [] ms s h k = absurd (omega arith)
  check_columns_iff (l ∷ ls) (c ∷ cs) [] s h k = absurd (omega arith)

  lengths_iff :
      (ms : List (Member Elem))
      → (ltb 1 (length (collect ms [])) ≡ false) ↔ ((n : ℕ) × HaveRows n ms)
  lengths_iff [] = ((λ e. (0, tt)), (λ e. refl))
  lengths_iff (m ∷ ms) = (
    (λ e. (rows_of m, (refl, collect-HaveRows ms (rows_of m) e))),
    (λ e. rw (e.1.0) (rw (HaveRows-collect ms e.0 e.1.1))),
  )

  pub Matches-length :
      (ls : List Text) (cs : List ColumnSpec) (ms : List (Member Elem))
      → Matches ls cs ms
      → (length ls ≡ length cs) × (length ms ≡ length cs)
  Matches-length [] [] [] h = (refl, refl)
  Matches-length (l ∷ ls) (c ∷ cs) (m ∷ ms) h =
      let q = Matches-length ls cs ms h.3 in (ap suc q.0, ap suc q.1)
  Matches-length [] [] (m ∷ ms) h = absurd h
  Matches-length [] (c ∷ cs) ms h = absurd h
  Matches-length (l ∷ ls) [] ms h = absurd h
  Matches-length (l ∷ ls) (c ∷ cs) [] h = absurd h

  check_fields_inv :
      (t : TimeTable) (o : Option (List Text)) (q : Option (List (Member Elem)))
      → check_fields p t o q ≡ ok true
      → (ls : List Text) × (ms : List (Member Elem)) × (o ≡ some ls)
        × (q ≡ some ms)
        × (length ls ≡ length t.columns)
        × (length ms ≡ length t.columns)
        × (check_columns p ls t.columns ms [] ≡ ok true)
  check_fields_inv t none q h = cc
  check_fields_inv t (some ls) none h = cc
  check_fields_inv t (some ls) (some ms) h =
      (ls, ms, refl, refl, ground arith, ground arith, ground arith)

  is_valid-Conforms : (t : TimeTable) (v : Value) → is_valid p t v ≡ ok true → Conforms t v
  unfolding is_valid
  is_valid-Conforms t v h =
      let f = check_fields_inv t (labels v) (columns v) (ground arith) in
      let q = (check_columns_iff f.0 t.columns f.1 [] f.4 f.5).0 f.6 in
      let n = (lengths_iff f.1).0 q.1 in
      record {
        usable = ground arith;
        ls = f.0;
        ms = f.1;
        rows = n.0;
        has_labels = f.2;
        has_columns = f.3;
        matches = q.0;
        have_rows = n.1;
      }

  Conforms-is_valid : (t : TimeTable) (v : Value) → Conforms t v → is_valid p t v ≡ ok true
  unfolding is_valid
  Conforms-is_valid t v c =
      let q = Matches-length c.ls t.columns c.ms c.matches in
      rw (c.usable, c.has_labels, c.has_columns, (==_iff _ _).1 q.0, (==_iff _ _).1 q.1)
        ((check_columns_iff c.ls t.columns c.ms [] q.0 q.1).1
          (c.matches, (lengths_iff c.ms).1 (c.rows, c.have_rows)))

  -- `is_valid` accepts a value exactly if it is usable, its labels and columns have, in order, the
  -- labels, names and types of the table's specifications, and all columns have one length.
  pub is_valid_iff : (t : TimeTable) (v : Value) → (is_valid p t v ≡ ok true) ↔ Conforms t v
  is_valid_iff t v = (is_valid-Conforms t v, Conforms-is_valid t v)

  check_columns_total :
      (ls : List Text) (cs : List ColumnSpec) (ms : List (Member Elem)) (s : List ℕ)
      → length ls ≡ length cs
      → length ms ≡ length cs
      → (b : Bool) × (check_columns p ls cs ms s ≡ ok b)
  unfolding check_columns
  check_columns_total ls cs [] s h k = (_, refl)
  check_columns_total [] [] (m ∷ ms) s h k = absurd (omega arith)
  check_columns_total [] (c ∷ cs) (m ∷ ms) s h k = absurd (omega arith)
  check_columns_total (l ∷ ls) [] (m ∷ ms) s h k = absurd (omega arith)
  check_columns_total (l ∷ ls) (c ∷ cs) (m ∷ ms) s h k =
      let (b, e) =
        check_columns_total ls cs ms (insert_length (rows_of m) s) (omega arith) (omega arith) in
      pick (not (text_eq l c.label)) (not (text_eq m.name c.name))
        (not (type_eq m.type_code c.type_code)) b e
    where
      pick :
          (x y z b : Bool) {r : Result Bool}
          → r ≡ ok b
          → (a : Bool) × ((if x
                then ok false
                else if y
                then ok false
                else if z
                then ok false
                else r)
              ≡ ok a)
      pick true y z b e = (false, refl)
      pick false true z b e = (false, refl)
      pick false false true b e = (false, refl)
      pick false false false b e = (b, e)

  check_fields_total :
      (t : TimeTable) (o : Option (List Text)) (q : Option (List (Member Elem)))
      → (b : Bool) × (check_fields p t o q ≡ ok b)
  check_fields_total t none q = (false, refl)
  check_fields_total t (some ls) none = (false, refl)
  check_fields_total t (some ls) (some ms) = elim (Bool-cases (length ls == length t.columns)) [
    | inr n ↦ (false, rw n)
    | inl e ↦ elim (Bool-cases (length ms == length t.columns)) [
      | inr n ↦ (false, rw (e, n))
      | inl f ↦
          let (b, g) =
            check_columns_total ls t.columns ms [] ((==_iff _ _).0 e) ((==_iff _ _).0 f) in
          (b, rw (e, f) g)
    ]
  ]

  -- `is_valid` answers on every value: it indexes neither the labels nor the specifications out of
  -- range.
  is_valid_total : (t : TimeTable) (v : Value) → (b : Bool) × (is_valid p t v ≡ ok b)
  unfolding is_valid
  is_valid_total t v = elim (Bool-cases (valid v)) [
    | inr n ↦ (false, rw n)
    | inl e ↦ let (b, g) = check_fields_total t (labels v) (columns v) in (b, rw e g)
  ]

  -- `wrap` with validation returns the value if `is_valid` accepts it, and throws otherwise; without
  -- validation it returns the value.
  pub wrap_lem :
      (t : TimeTable) (v : Value)
      → (wrap p t v false ≡ ok v)
        × ((wrap p t v true ≡ ok v) ↔ Conforms t v)
        × ((wrap p t v true ≡ err runtime_error) ↔ ¬ (Conforms t v))
  unfolding wrap
  wrap_lem t v =
      let (b, e) = is_valid_total t v in
      let iff = is_valid_iff t v in
      (
        refl,
        ((λ h. iff.0 (accepted b e h)), (λ c. rw (iff.1 c))),
        ((λ h c. rejected (is_valid p t v) (iff.1 c) h), (λ n. refused b e (λ h. n (iff.0 h)))),
      )
    where
      answer : Result Bool → Result Value
      answer r = r >>= (λ b. if b then ok v else err runtime_error)

      accepted : (b : Bool) {r : Result Bool} → r ≡ ok b → answer r ≡ ok v → r ≡ ok true
      accepted true e h = e
      accepted false e h = ground arith

      rejected : (r : Result Bool) → r ≡ ok true → answer r ≡ err runtime_error → ⊥
      rejected r e h = ground arith

      refused :
          (b : Bool) {r : Result Bool} → r ≡ ok b → ¬ (r ≡ ok true) → answer r ≡ err runtime_error
      refused true e n = absurd (n e)
      refused false e n = rw e
