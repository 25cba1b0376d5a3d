-- ===== src/Align/Row.antt =====
-- The rows that `extract` writes: `write`, `copy_row`, `set_empty_row` and the functions that use them
-- on well-formed columns.
use bsas_sc.Common.{
  ℕ, suc, ◌+◌, ◌<◌, ◌≡◌, ◌≢◌, refl, ap, sym, ◌∙◌, true, false, List, [], ◌∷◌, length, set,
  get_elem?, get_elem?-some, get_elem?-set_self, get_elem?-set_ne, length-set, All, ok, arith,
  lt→ltb, ==_iff,
}
use bsas_sc.Pvxs.{Pvxs, ScalarType, of_scalar, Array}
use bsas_sc.Align.{Filling, write, copy_elems, copy_row, set_empty_row, fill_empty, fill_copy}

module _ (p : Pvxs) where
  open p use {Elem, zero_elem, bool_elem}

  -- A column of `n` elements of a type that can be copied.
  pub record IsColumn (n : ℕ) (a : Array Elem) : Type 0 where
    pub elem_type : ScalarType
    pub typed : a.original_type ≡ of_scalar elem_type
    pub sized : length a.elems ≡ n

  pub record IsReady (n : ℕ) (s : Filling p) : Type 0 where
    pub valid_sized : length s.valid ≡ n
    pub ready : All (IsColumn n) s.columns

  write-ok : (xs : List Elem) (i : ℕ) (x : Elem) → i < length xs → write p xs i x ≡ ok (set xs i x)
  unfolding write
  write-ok xs i x h = rw (lt→ltb i (length xs) h)

  -- Two lists of columns have the same elements at row `r`, and the same columns.
  abbrev pub Same : ℕ → List (Array Elem) → List (Array Elem) → Type 0
  Same r [] [] = Unit
  Same r (c ∷ cs) (d ∷ ds) = (get_elem? c.elems r ≡ get_elem? d.elems r) × Same r cs ds
  Same r _ _ = ⊥

  -- Row `r` of the columns holds row `j` of the source arrays.
  abbrev pub Holds : ℕ → List (Array Elem) → ℕ → List (Array Elem) → Type 0
  Holds r [] j [] = Unit
  Holds r (c ∷ cs) j (s ∷ ss) = (get_elem? c.elems r ≡ get_elem? s.elems j) × Holds r cs j ss
  Holds r _ j _ = ⊥

  pub Same-refl : (r : ℕ) (cs : List (Array Elem)) → Same r cs cs
  Same-refl r [] = tt
  Same-refl r (c ∷ cs) = (refl, Same-refl r cs)

  pub Same-trans :
      (r : ℕ) (cs ds es : List (Array Elem)) → Same r cs ds → Same r ds es → Same r cs es
  Same-trans r [] [] [] h k = tt
  Same-trans r (c ∷ cs) (d ∷ ds) (x ∷ es) h k = (h.0 ∙ k.0, Same-trans r cs ds es h.1 k.1)
  Same-trans r [] [] (x ∷ es) h k = absurd k
  Same-trans r [] (d ∷ ds) es h k = absurd h
  Same-trans r (c ∷ cs) [] es h k = absurd h
  Same-trans r (c ∷ cs) (d ∷ ds) [] h k = absurd k

  pub Holds-Same :
      (r j : ℕ) (cs ds ss : List (Array Elem)) → Holds r cs j ss → Same r cs ds → Holds r ds j ss
  Holds-Same r j [] [] [] h k = tt
  Holds-Same r j (c ∷ cs) (d ∷ ds) (s ∷ ss) h k = (sym k.0 ∙ h.0, Holds-Same r j cs ds ss h.1 k.1)
  Holds-Same r j [] ds (s ∷ ss) h k = absurd h
  Holds-Same r j [] (d ∷ ds) [] h k = absurd k
  Holds-Same r j (c ∷ cs) [] ss h k = absurd k
  Holds-Same r j (c ∷ cs) (d ∷ ds) [] h k = absurd h

  -- What a write of row `i` keeps.
  pub record Written (n i : ℕ) (cols cols' : List (Array Elem)) : Type 0 where
    pub ready : All (IsColumn n) cols'
    pub others : (r : ℕ) → r ≢ i → Same r cols cols'

  set_column : Array Elem → ℕ → Elem → Array Elem
  set_column d i x = record d { elems = set d.elems i x }

  Written-cons :
      (n i : ℕ) (d : Array Elem) (x : Elem) (cols cols' : List (Array Elem))
      → IsColumn n d
      → Written n i cols cols'
      → Written n i (d ∷ cols) (set_column d i x ∷ cols')
  unfolding set_column
  Written-cons n i d x cols cols' c w = record {
    ready = (
      record { elem_type = c.elem_type; typed = c.typed; sized = length-set d.elems i x ∙ c.sized },
      w.ready,
    );
    others = λ r ne. (sym (get_elem?-set_ne d.elems x (λ e. ne (sym e))), w.others r ne);
  }

  pub set_empty_row-ok :
      (n i : ℕ) (cols : List (Array Elem))
      → All (IsColumn n) cols
      → i < n
      → (cols' : List (Array Elem)) × (set_empty_row p cols i ≡ ok cols') × Written n i cols cols'
  unfolding set_empty_row set_column
  set_empty_row-ok n i [] h lt = ([], refl, record { ready = tt; others = λ r ne. tt })
  set_empty_row-ok n i (d ∷ cols) h lt =
      let (cols', e, w) = set_empty_row-ok n i cols h.1 lt in
      (
        set_column d i (zero_elem h.0.elem_type) ∷ cols',
        simp
            (h.0.typed, write-ok d.elems i (zero_elem h.0.elem_type) (omega (arith, h.0.sized)), e),
        Written-cons n i d (zero_elem h.0.elem_type) cols cols' h.0 w,
      )

  -- The source arrays have a row `j`, and are as many as the columns.
  abbrev pub HaveRow : ℕ → List (Array Elem) → List (Array Elem) → Type 0
  HaveRow j [] [] = Unit
  HaveRow j (c ∷ cs) (s ∷ ss) = (j < length s.elems) × HaveRow j cs ss
  HaveRow j _ _ = ⊥

  HaveRow-length :
      (j : ℕ) (cols srcs : List (Array Elem)) → HaveRow j cols srcs → length cols ≡ length srcs
  HaveRow-length j [] [] h = refl
  HaveRow-length j (c ∷ cs) (s ∷ ss) h = ap suc (HaveRow-length j cs ss h.1)
  HaveRow-length j [] (s ∷ ss) h = absurd h
  HaveRow-length j (c ∷ cs) [] h = absurd h

  copy_elems-ok :
      (n i j : ℕ) (cols srcs : List (Array Elem))
      → All (IsColumn n) cols
      → HaveRow j cols srcs
      → i < n
      → (cols' : List (Array Elem)) × (copy_elems p cols i srcs j ≡ ok cols')
        × Written n i cols cols'
        × Holds i cols' j srcs
  unfolding copy_elems set_column
  copy_elems-ok n i j [] [] h k lt = ([], refl, record { ready = tt; others = λ r ne. tt }, tt)
  copy_elems-ok n i j (d ∷ cols) (s ∷ srcs) h k lt =
      let (cols', e, w, q) = copy_elems-ok n i j cols srcs h.1 k.1 lt in
      let (x, hx) = get_elem?-some s.elems j k.0 in
      let fits : i < length d.elems = omega (arith, h.0.sized) in
      (
        set_column d i x ∷ cols',
        simp (h.0.typed, hx, write-ok d.elems i x fits, e),
        Written-cons n i d x cols cols' h.0 w,
        (get_elem?-set_self d.elems i x fits ∙ sym hx, q),
      )
  copy_elems-ok n i j [] (s ∷ srcs) h k lt = absurd k
  copy_elems-ok n i j (d ∷ cols) [] h k lt = absurd k

  pub copy_row-ok :
      (n i j : ℕ) (cols srcs : List (Array Elem))
      → All (IsColumn n) cols
      → HaveRow j cols srcs
      → i < n
      → (cols' : List (Array Elem)) × (copy_row p cols i srcs j ≡ ok cols')
        × Written n i cols cols'
        × Holds i cols' j srcs
  unfolding copy_row
  copy_row-ok n i j cols srcs h k lt =
      let (cols', e, w, q) = copy_elems-ok n i j cols srcs h k lt in
      (cols', rw ((==_iff _ _).1 (HaveRow-length j cols srcs k)) e, w, q)

  -- `fill_empty` marks the current row as invalid and stays at it.
  pub record Emptied (n : ℕ) (s s' : Filling p) : Type 0 where
    pub ready : IsReady n s'
    pub same_row : s'.row ≡ s.row
    pub marked : s'.valid ≡ set s.valid s.row (bool_elem false)
    pub others : (r : ℕ) → r ≢ s.row → Same r s.columns s'.columns

  pub fill_empty-ok :
      (n : ℕ) (s : Filling p)
      → IsReady n s
      → s.row < n
      → (s' : Filling p) × (fill_empty p s ≡ ok s') × Emptied n s s'
  unfolding fill_empty
  fill_empty-ok n s h lt =
      let (cols', e, w) = set_empty_row-ok n s.row s.columns h.ready lt in
      let valid' = set s.valid s.row (bool_elem false) in
      let s' : Filling p = record { row = s.row; valid = valid'; columns = cols' } in
      (
        s',
        rw (write-ok s.valid s.row (bool_elem false) (omega (arith, h.valid_sized)), e),
        record {
          ready = record {
            valid_sized = length-set s.valid s.row _ ∙ h.valid_sized;
            ready = w.ready;
          };
          same_row = refl;
          marked = refl;
          others = w.others;
        },
      )

  -- `fill_copy` marks the current row as valid, copies the row of the source and goes on to the next.
  pub record Copied (n : ℕ) (s s' : Filling p) (j : ℕ) (srcs : List (Array Elem)) : Type 0 where
    pub ready : IsReady n s'
    pub next_row : s'.row ≡ suc s.row
    pub marked : s'.valid ≡ set s.valid s.row (bool_elem true)
    pub others : (r : ℕ) → r ≢ s.row → Same r s.columns s'.columns
    pub holds : Holds s.row s'.columns j srcs

  pub fill_copy-ok :
      (n : ℕ) (s : Filling p) (j : ℕ) (srcs : List (Array Elem))
      → IsReady n s
      → HaveRow j s.columns srcs
      → s.row < n
      → (s' : Filling p) × (fill_copy p s srcs j ≡ ok s') × Copied n s s' j srcs
  unfolding fill_copy
  fill_copy-ok n s j srcs h k lt =
      let (cols', e, w, q) = copy_row-ok n s.row j s.columns srcs h.ready k lt in
      let valid' = set s.valid s.row (bool_elem true) in
      let s' : Filling p = record { row = s.row + 1; valid = valid'; columns = cols' } in
      (
        s',
        rw (write-ok s.valid s.row (bool_elem true) (omega (arith, h.valid_sized)), e),
        record {
          ready = record {
            valid_sized = length-set s.valid s.row _ ∙ h.valid_sized;
            ready = w.ready;
          };
          next_row = omega arith;
          marked = refl;
          others = w.others;
          holds = q;
        },
      )
