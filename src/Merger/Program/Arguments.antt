-- ===== src/Merger/Program/Arguments.antt =====
-- What `main` reads from the file of PV names, and which arguments it accepts.
use bsas_sc.Common.{
  ℕ, Bool, true, false, ◌&&◌, ◌||◌, ◌==◌, ==_iff, not_true→false, ◌≡◌, ◌≢◌, refl, sym, ◌∙◌, ap, ◌⊎◌,
  inl, inr, some, none, List, [], ◌∷◌, ◌++◌, append-nil, append_assoc, All, Text, ok, err,
  assertion,
}
use bsas_sc.Align.{time_aligned}
use bsas_sc.Merger.Program.{
  lines_from, pvlist_from_file, Doubles, validate_args, check_reactor, set_up,
}

-- A file with one name on each line.
abbrev pub file_of : List Text → Text
file_of [] = []
file_of (n ∷ names) = n ++ 10 ∷ file_of names

-- No newline occurs.
abbrev pub IsLine : Text → Type 0
IsLine n = All (λ c. c ≢ 10) n

no_newline : (c : ℕ) → c ≢ 10 → (c == 10) ≡ false
no_newline c h = not_true→false (c == 10) (λ e. h ((==_iff c 10).0 e))

lines_from-line :
    (line n : Text) (rest : Text)
    → IsLine n
    → lines_from line (n ++ 10 ∷ rest) ≡ (line ++ n) ∷ lines_from [] rest
unfolding lines_from
lines_from-line line [] rest h = ap (λ l. l ∷ lines_from [] rest) (sym (append-nil line))
lines_from-line line (c ∷ n) rest h =
    rw (no_newline c h.0, lines_from)
      (lines_from-line (line ++ c ∷ []) n rest h.1
        ∙ ap (λ l. l ∷ lines_from [] rest) (append_assoc line (c ∷ []) n))

-- The last line, with no newline after it.
abbrev pub last_line : Text → List Text
last_line [] = []
last_line (c ∷ cs) = (c ∷ cs) ∷ []

lines_from-last : (line n : Text) → IsLine n → lines_from line n ≡ last_line (line ++ n)
unfolding lines_from
lines_from-last [] [] h = refl
lines_from-last (d ∷ line) [] h = ap last_line (sym (append-nil (d ∷ line)))
lines_from-last line (c ∷ n) h =
    rw (no_newline c h.0, lines_from)
      (lines_from-last (line ++ c ∷ []) n h.1 ∙ ap last_line (append_assoc line (c ∷ []) n))

-- The names written one on each line are read back, in order, empty ones too; what stands behind the last
-- newline is one more name if it is not empty.
pvlist_from_file-file_of :
    (names : List Text) (last : Text)
    → All IsLine names
    → IsLine last
    → pvlist_from_file (file_of names ++ last) ≡ names ++ last_line last
unfolding pvlist_from_file
pvlist_from_file-file_of [] last h g = lines_from-last [] last g
pvlist_from_file-file_of (n ∷ names) last h g =
    ap (lines_from []) (append_assoc n (10 ∷ file_of names) last)
    ∙ lines_from-line [] n (file_of names ++ last) h.0
    ∙ ap (λ ns. n ∷ ns) (pvlist_from_file-file_of names last h.1 g)

and_false : (b : Bool) → (b && false) ≡ false
and_false true = refl
and_false false = refl

or_true : (b : Bool) → (b || true) ≡ true
or_true true = refl
or_true false = refl

module _ (d : Doubles) where
  open d use {Double, zero_sec, lt, eq}

  set_up-accepts :
      {V : Type 0} (contents label_sep col_sep : Text) (period timeout short : Double)
      → lt zero_sec period ≡ true
      → (eq timeout zero_sec ≡ true) ⊎ (lt period timeout ≡ true)
      → lt zero_sec short ≡ true
      → lt short period ≡ true
      → (set_up d {V = V} contents period timeout label_sep col_sep
          ≡ ok (some (time_aligned (pvlist_from_file contents) label_sep col_sep)))
        × (set_up d {V = V} contents period short label_sep col_sep ≡ ok none)
  unfolding set_up validate_args check_reactor
  set_up-accepts contents label_sep col_sep period timeout short pos t s_pos s_lt = (
    elim t [
      | inl e ↦
          rw
            (
              d.lt_asymm zero_sec period pos,
              d.eq_of_lt zero_sec period pos,
              (d.lt_of_eq timeout zero_sec e).0,
              (d.lt_of_eq timeout zero_sec e).1,
              pos,
              e,
            )
            refl
      | inr above ↦
          rw
            (
              d.lt_asymm zero_sec period pos,
              d.eq_of_lt zero_sec period pos,
              d.lt_asymm zero_sec timeout (d.lt_trans zero_sec period timeout pos above),
              d.lt_asymm period timeout above,
              and_false (lt zero_sec timeout),
              pos,
              above,
              or_true (eq timeout zero_sec),
            )
            refl
    ],
    rw
        (
          d.lt_asymm zero_sec period pos,
          d.eq_of_lt zero_sec period pos,
          d.lt_asymm zero_sec short s_pos,
          s_pos,
          s_lt,
        )
        refl,
  )

  set_up-assertion :
      {V : Type 0} (contents label_sep col_sep : Text) (period timeout : Double)
      → lt zero_sec period ≡ true
      → lt zero_sec timeout ≡ true
      → lt timeout period ≡ false
      → lt period timeout ≡ false
      → set_up d {V = V} contents period timeout label_sep col_sep ≡ err assertion
  unfolding set_up validate_args check_reactor
  set_up-assertion contents label_sep col_sep period timeout pos t a b =
      rw
        (
          d.lt_asymm zero_sec period pos,
          d.eq_of_lt zero_sec period pos,
          d.lt_asymm zero_sec timeout t,
          t,
          a,
          pos,
          d.eq_of_lt zero_sec timeout t,
          b,
        )
        refl

  -- The file has the names one on each line, and a last line that may be empty. With a positive period, a
  -- timeout of zero and every timeout above the period start the program, on the table of the PVs in the
  -- file, in order; a positive timeout below the period is refused; and a positive timeout that is neither
  -- below nor above the period passes the tests of the arguments, and then fails an assertion of the
  -- constructor of `Reactor`.
  pub set_up_lem :
      {V : Type 0} (names : List Text) (last label_sep col_sep : Text)
      (period timeout short same : Double)
      → All IsLine names
      → IsLine last
      → lt zero_sec period ≡ true
      → (eq timeout zero_sec ≡ true) ⊎ (lt period timeout ≡ true)
      → lt zero_sec short ≡ true
      → lt short period ≡ true
      → lt zero_sec same ≡ true
      → lt same period ≡ false
      → lt period same ≡ false
      → (set_up d {V = V} (file_of names ++ last) period timeout label_sep col_sep
          ≡ ok (some (time_aligned (names ++ last_line last) label_sep col_sep)))
        × (set_up d {V = V} (file_of names ++ last) period short label_sep col_sep ≡ ok none)
        × (set_up d {V = V} (file_of names ++ last) period same label_sep col_sep ≡ err assertion)
  set_up_lem names last label_sep col_sep period timeout short same h g pos t s_pos s_lt m_pos m_lt
        m_gt =
      let contents = file_of names ++ last in
      let (accepted, refused) =
        set_up-accepts contents label_sep col_sep period timeout short pos t s_pos s_lt in
      (
        accepted
            ∙ ap (λ ns. ok (some (time_aligned ns label_sep col_sep)))
                (pvlist_from_file-file_of names last h g),
        refused,
        set_up-assertion contents label_sep col_sep period same pos m_pos m_lt m_gt,
      )
