-- ===== src/Buffer/Inner.antt =====
-- The loop over the rows of one value, `consume_rows`, as the consumption of a list of rows.
use bsas_sc.Common.{
  ℕ, zero, suc, ◌+◌, ◌<◌, ◌≤◌, ◌≡◌, refl, ap, sym, ◌∙◌, Bool, true, false, Option, none, some, List,
  [], ◌∷◌, ◌++◌, length, drop, get_elem?, get_elem?-some, All, Result, ok, err, ◌>>=◌, arith,
  if◌then◌else◌,
}
use bsas_sc.Stamp.{TimeStamp}
use bsas_sc.Pvxs.{Pvxs, Array}
use bsas_sc.Buffer.{stamp, consume_rows}
use bsas_sc.Buffer.Rows.{zip_stamps, Row, number_rows, IsStored, IsPosition}

drop-nil {ℓ} : (A : Type ℓ) (n : ℕ) → drop {A = A} n [] ≡ []
drop-nil A zero = refl
drop-nil A (suc n) = refl

pub drop-drop {ℓ} : {A : Type ℓ} (i d : ℕ) (xs : List A) → drop d (drop i xs) ≡ drop (i + d) xs
drop-drop zero d xs = let e : d ≡ 0 + d = omega arith in ap (λ n. drop n xs) e
drop-drop {A} (suc i) d [] = drop-nil A d ∙ sym (drop-nil A (suc i + d))
drop-drop (suc i) d (x ∷ xs) =
    let e : suc (i + d) ≡ suc i + d = omega arith in drop-drop i d xs ∙ ap (λ n. drop n (x ∷ xs)) e

pub length-drop_lt {ℓ} :
    {A : Type ℓ} (i d : ℕ) (xs : List A) → d < length (drop i xs) → i + d < length xs
length-drop_lt zero d xs h = omega arith
length-drop_lt (suc i) d [] h = elim h [ ]
length-drop_lt (suc i) d (x ∷ xs) h = omega (arith, length-drop_lt i d xs h)

pub drop-zip_stamps :
    (ss ns us : List ℕ) (i : ℕ) (s n u : ℕ)
    → get_elem? ss i ≡ some s
    → get_elem? ns i ≡ some n
    → get_elem? us i ≡ some u
    → drop i (zip_stamps ss ns us) ≡ stamp s n u ∷ drop (suc i) (zip_stamps ss ns us)
drop-zip_stamps (s' ∷ ss) (n' ∷ ns) (u' ∷ us) zero s n u a b c = ground arith
drop-zip_stamps (s' ∷ ss) (n' ∷ ns) (u' ∷ us) (suc i) s n u a b c =
    drop-zip_stamps ss ns us i s n u a b c
drop-zip_stamps [] ns us i s n u a b c = cc
drop-zip_stamps (s' ∷ ss) [] us i s n u a b c = cc
drop-zip_stamps (s' ∷ ss) (n' ∷ ns) [] i s n u a b c = cc

drop-past {ℓ} : {A : Type ℓ} (xs : List A) (i : ℕ) → length xs ≤ i → drop i xs ≡ []
drop-past [] zero h = refl
drop-past [] (suc i) h = refl
drop-past (x ∷ xs) zero h = absurd (omega arith)
drop-past (x ∷ xs) (suc i) h = drop-past xs i (omega arith)

pub length-zip_stamps :
    (ss ns us : List ℕ)
    → length ns ≡ length ss
    → length us ≡ length ss
    → length (zip_stamps ss ns us) ≡ length ss
length-zip_stamps [] ns us h k = refl
length-zip_stamps (s ∷ ss) (n ∷ ns) (u ∷ us) h k =
    ap suc (length-zip_stamps ss ns us (omega arith) (omega arith))
length-zip_stamps (s ∷ ss) [] us h k = absurd (omega arith)
length-zip_stamps (s ∷ ss) (n ∷ ns) [] h k = absurd (omega arith)

pub first-IsPosition : (p : Pvxs) (vs : List p.Value) → All (IsStored p) vs → IsPosition p 0 vs
first-IsPosition p [] h = refl
first-IsPosition p (v ∷ vs) h = h.0.has_rows

module _ (p : Pvxs) where
  open p use {Elem, Value}

  module _ {S : Type 0} (f : S → TimeStamp → List (Array Elem) → ℕ → Result (S × Bool)) where
    -- The abstract operation: `f` on each row until it is done; the row at which it is done stays.
    abbrev pub consume_list : S → List (Row p) → Result (S × List (Row p))
    consume_list s [] = ok (s, [])
    consume_list s ((t, cols, i) ∷ rs) =
        let rest = λ (s' : S). consume_list s' rs in
        f s t cols i >>= (λ r. if r.1 then ok (r.0, (t, cols, i) ∷ rs) else rest r.0)

    abbrev pub stop_at : List (Row p) → Option ℕ
    stop_at [] = none
    stop_at ((t, cols, i) ∷ rs) = some i

    abbrev pub stop_of : Result (S × List (Row p)) → Result (S × Option ℕ)
    stop_of (err x) = err x
    stop_of (ok (s, rest)) = ok (s, stop_at rest)

    one_row :
        (r : Result (S × Bool)) (g : S → Result (S × Option ℕ)) (h : S → Result (S × List (Row p)))
        (t : TimeStamp) (cols : List (Array Elem)) (i : ℕ) (rs : List (Row p))
        → ((s : S) → g s ≡ stop_of (h s))
        → (r >>= λ x. if x.1 then ok (x.0, some i) else g x.0)
          ≡ stop_of (r >>= λ x. if x.1 then ok (x.0, (t, cols, i) ∷ rs) else h x.0)
    one_row (err x) g h t cols i rs ih = refl
    one_row (ok (s, true)) g h t cols i rs ih = refl
    one_row (ok (s, false)) g h t cols i rs ih = ih s

    -- The indexed loop over one value consumes its rows as a list.
    pub consume_rows_lem :
        (ss ns us : List ℕ) (cols : List (Array Elem)) (rounds idx : ℕ) (s : S)
        → length ns ≡ length ss
        → length us ≡ length ss
        → rounds + idx ≡ length ss
        → consume_rows p f ss ns us cols rounds idx s
          ≡ stop_of (consume_list s (number_rows p cols idx (drop idx (zip_stamps ss ns us))))
    unfolding consume_rows
    consume_rows_lem ss ns us cols zero idx s h k e =
        rw (drop-past (zip_stamps ss ns us) idx (omega (arith, length-zip_stamps ss ns us h k)))
    consume_rows_lem ss ns us cols (suc rounds) idx s h k e =
        at_row (get_elem?-some ss idx (omega arith)) (get_elem?-some ns idx (omega arith))
          (get_elem?-some us idx (omega arith))
          (λ s'. consume_rows_lem ss ns us cols rounds (suc idx) s' h k (omega arith))
      where
        at_row :
            (a : (x : ℕ) × (get_elem? ss idx ≡ some x)) (b : (x : ℕ) × (get_elem? ns idx ≡ some x))
            (c : (x : ℕ) × (get_elem? us idx ≡ some x))
            → ((s' : S)
                → consume_rows p f ss ns us cols rounds (suc idx) s'
                  ≡ stop_of (
                      consume_list s'
                        (number_rows p cols (suc idx) (drop (suc idx) (zip_stamps ss ns us)))))
            → consume_rows p f ss ns us cols (suc rounds) idx s
              ≡ stop_of (consume_list s (number_rows p cols idx (drop idx (zip_stamps ss ns us))))
        at_row (a, ha) (b, hb) (c, hc) ih =
            rw (ha, hb, hc, drop-zip_stamps ss ns us idx a b c ha hb hc)
              (one_row (f s (stamp a b c) cols idx) _ _ (stamp a b c) cols idx _ ih)

    abbrev pub continue_list : List (Row p) → Result (S × List (Row p)) → Result (S × List (Row p))
    continue_list B (err x) = err x
    continue_list B (ok (s, [])) = consume_list s B
    continue_list B (ok (s, r ∷ rs)) = ok (s, r ∷ (rs ++ B))

    continue_row :
        (r : Result (S × Bool)) (g h : S → Result (S × List (Row p))) (x : Row p)
        (A B : List (Row p))
        → ((s : S) → g s ≡ continue_list B (h s))
        → (r >>= λ y. if y.1 then ok (y.0, x ∷ (A ++ B)) else g y.0)
          ≡ continue_list B (r >>= λ y. if y.1 then ok (y.0, x ∷ A) else h y.0)
    continue_row (err x) g h _ A B ih = refl
    continue_row (ok (s, true)) g h _ A B ih = refl
    continue_row (ok (s, false)) g h _ A B ih = ih s

    pub consume_list-append :
        (A B : List (Row p)) (s : S) → consume_list s (A ++ B) ≡ continue_list B (consume_list s A)
    consume_list-append [] B s = refl
    consume_list-append ((t, cols, i) ∷ A) B s =
        continue_row (f s t cols i) (λ s'. consume_list s' (A ++ B)) (λ s'. consume_list s' A)
          (t, cols, i) A B (λ s'. consume_list-append A B s')

    -- What is left of numbered rows is a suffix of them.
    abbrev pub Suffix : List (Array Elem) → ℕ → List TimeStamp → Result (S × List (Row p)) → Type 0
    Suffix cols idx zs (err x) = Unit
    Suffix cols idx zs (ok (s, [])) = Unit
    Suffix cols idx zs (ok (s, (t, c, i) ∷ rest)) =
        (d : ℕ) × (i ≡ idx + d)
        × (d < length zs)
        × ((t, c, i) ∷ rest ≡ number_rows p cols i (drop d zs))

    suffix_step :
        (cols : List (Array Elem)) (idx : ℕ) (z : TimeStamp) (zs : List TimeStamp)
        (r : Result (S × List (Row p)))
        → Suffix cols (suc idx) zs r
        → Suffix cols idx (z ∷ zs) r
    suffix_step cols idx z zs (err x) h = tt
    suffix_step cols idx z zs (ok (s, [])) h = tt
    suffix_step cols idx z zs (ok (s, (t, c, i) ∷ rest)) h =
        (suc h.0, omega (arith, h.1), omega (arith, h.2), h.3)

    suffix_row :
        (cols : List (Array Elem)) (idx : ℕ) (z : TimeStamp) (zs : List TimeStamp)
        (r : Result (S × Bool)) (h : S → Result (S × List (Row p)))
        → ((s : S) → Suffix cols (suc idx) zs (h s))
        → Suffix cols idx (z ∷ zs) (
            r >>= λ y.
            if y.1 then ok (y.0, (z, cols, idx) ∷ number_rows p cols (suc idx) zs) else h y.0)
    suffix_row cols idx z zs (err x) h k = tt
    suffix_row cols idx z zs (ok (s, true)) h k = (0, omega arith, omega arith, refl)
    suffix_row cols idx z zs (ok (s, false)) h k = suffix_step cols idx z zs (h s) (k s)

    pub consume_list-Suffix :
        (cols : List (Array Elem)) (idx : ℕ) (zs : List TimeStamp) (s : S)
        → Suffix cols idx zs (consume_list s (number_rows p cols idx zs))
    consume_list-Suffix cols idx [] s = tt
    consume_list-Suffix cols idx (z ∷ zs) s =
        suffix_row cols idx z zs (f s z cols idx) _ (λ s'. consume_list-Suffix cols (suc idx) zs s')
