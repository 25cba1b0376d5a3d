-- ===== src/Buffer/Extract.antt =====
-- `extract_timestamps_between`: the set of stamps that it fills.
use bsas_sc.Common.{
  ℕ, suc, ◌+◌, ◌≡◌, refl, ap, sym, ◌∙◌, Bool, true, false, ◌&&◌, List, [], ◌∷◌, ◌++◌, All, arith,
  if◌then◌else◌, Bool-cases, ◌⊎◌, inl, inr, ◌↔◌, All-map,
}
use bsas_sc.Stamp.{EpicsTime, TimeStamp, stamp_lt, stamp_ge}
use bsas_sc.Stamp.Order.{stamp_lt_trans, stamp_lt_connected}
use bsas_sc.Pvxs.{Pvxs}
use bsas_sc.Buffer.{
  TableBuffer, stamp, seconds_of, nanoseconds_of, pulse_ids_of, insert_stamp, extract_rows,
  extract_values, extract_timestamps_between,
}
use bsas_sc.Buffer.Rows.{zip_stamps, stamps_of}

-- A stamp stands in a list.
abbrev pub Has : TimeStamp → List TimeStamp → Type 0
Has t [] = ⊥
Has t (u ∷ us) = (t ≡ u) ⊎ Has t us

pub Has-append : (t : TimeStamp) (us vs : List TimeStamp) → Has t (us ++ vs) ↔ (Has t us ⊎ Has t vs)
Has-append t [] vs = ((λ h. inr h), (λ h. elim h [ inl x ↦ absurd x | inr y ↦ y ]))
Has-append t (u ∷ us) vs =
    ((λ h. ground (arith, Has-append t us vs)), (λ h. ground (arith, Has-append t us vs)))

-- The stamps of all rows of all values, consumed or not.
abbrev pub all_stamps : (p : Pvxs) → List p.Value → List TimeStamp
all_stamps p [] = []
all_stamps p (v ∷ vs) = stamps_of p v ++ all_stamps p vs

module _ (e : EpicsTime) where
  -- In order, with no stamp twice.
  abbrev pub IsSorted : List TimeStamp → Type 0
  IsSorted [] = Unit
  IsSorted (u ∷ us) = All (λ v. stamp_lt e u v ≡ true) us × IsSorted us

  pub Has-insert_stamp :
      (a t : TimeStamp) (us : List TimeStamp) → Has a (insert_stamp e t us) ↔ ((a ≡ t) ⊎ Has a us)
  unfolding insert_stamp
  Has-insert_stamp a t [] = ((λ h. h), (λ h. h))
  Has-insert_stamp a t (u ∷ us) = (
    (λ h. ground (arith, Has-insert_stamp a t us)),
    (λ h. ground (arith, Has-insert_stamp a t us, stamp_lt_connected e t u)),
  )

  insert_stamp-above :
      (a t : TimeStamp) (us : List TimeStamp)
      → stamp_lt e a t ≡ true
      → All (λ v. stamp_lt e a v ≡ true) us
      → All (λ v. stamp_lt e a v ≡ true) (insert_stamp e t us)
  unfolding insert_stamp
  insert_stamp-above a t [] h k = (h, tt)
  insert_stamp-above a t (u ∷ us) h k = elim (Bool-cases (stamp_lt e t u)) [
    | inl x ↦ rw x (h, k)
    | inr x ↦ elim (Bool-cases (stamp_lt e u t)) [
      | inl y ↦ rw (x, y) (k.0, insert_stamp-above a t us h k.1)
      | inr y ↦ rw (x, y) k
    ]
  ]

  pub insert_stamp-IsSorted :
      (t : TimeStamp) (us : List TimeStamp) → IsSorted us → IsSorted (insert_stamp e t us)
  unfolding insert_stamp
  insert_stamp-IsSorted t [] h = (tt, tt)
  insert_stamp-IsSorted t (u ∷ us) h = elim (Bool-cases (stamp_lt e t u)) [
    | inl x ↦ rw x ((x, All-map _ _ us (λ v k. stamp_lt_trans e t u v x k) h.0), h)
    | inr x ↦ elim (Bool-cases (stamp_lt e u t)) [
      | inl y ↦ rw (x, y) (insert_stamp-above u t us y h.0, insert_stamp-IsSorted t us h.1)
      | inr y ↦ rw (x, y) h
    ]
  ]

  module _ (start end : TimeStamp) where
    -- `start ≤ t < end`
    abbrev pub in_range : TimeStamp → Bool
    in_range t = stamp_ge e t start && stamp_lt e t end

    abbrev pub count_in_range : List TimeStamp → ℕ
    count_in_range [] = 0
    count_in_range (t ∷ ts) = if in_range t then suc (count_in_range ts) else count_in_range ts

    abbrev Acc : Type 0
    Acc = List TimeStamp × ℕ

    abbrev add_stamp : TimeStamp → Acc → Acc
    add_stamp t acc = if in_range t then (insert_stamp e t acc.0, acc.1 + 1) else acc

    abbrev add_stamps : List TimeStamp → Acc → Acc
    add_stamps [] acc = acc
    add_stamps (t ∷ ts) acc = add_stamps ts (add_stamp t acc)

    extract_rows_lem :
        (ss ns us : List ℕ) (acc : Acc)
        → extract_rows e start end ss ns us acc ≡ add_stamps (zip_stamps ss ns us) acc
    unfolding extract_rows
    extract_rows_lem (s ∷ ss) (n ∷ ns) (u ∷ us) acc =
        extract_rows_lem ss ns us (add_stamp (stamp s n u) acc)
    extract_rows_lem [] ns us acc = refl
    extract_rows_lem (s ∷ ss) [] us acc = refl
    extract_rows_lem (s ∷ ss) (n ∷ ns) [] acc = refl

    add_stamps-append :
        (ts us : List TimeStamp) (acc : Acc)
        → add_stamps (ts ++ us) acc ≡ add_stamps us (add_stamps ts acc)
    add_stamps-append [] us acc = refl
    add_stamps-append (t ∷ ts) us acc = add_stamps-append ts us (add_stamp t acc)

    extract_values_lem :
        (p : Pvxs) (vs : List p.Value) (acc : Acc)
        → extract_values e p start end vs acc ≡ add_stamps (all_stamps p vs) acc
    unfolding extract_values
    extract_values_lem p [] acc = refl
    extract_values_lem p (v ∷ vs) acc =
        extract_values_lem p vs _
        ∙ ap (add_stamps (all_stamps p vs))
            (extract_rows_lem (seconds_of p v) (nanoseconds_of p v) (pulse_ids_of p v) acc)
        ∙ sym (add_stamps-append (stamps_of p v) (all_stamps p vs) acc)

    add_stamps-IsSorted :
        (ts : List TimeStamp) (acc : Acc) → IsSorted acc.0 → IsSorted (add_stamps ts acc).0
    add_stamps-IsSorted [] acc h = h
    add_stamps-IsSorted (t ∷ ts) acc h = add_stamps-IsSorted ts (add_stamp t acc) (one (in_range t))
      where
        one : (b : Bool) → IsSorted (if b then (insert_stamp e t acc.0, acc.1 + 1) else acc).0
        one true = insert_stamp-IsSorted t acc.0 h
        one false = h

    Has-add_stamp :
        (a t : TimeStamp) (acc : Acc)
        → Has a (add_stamp t acc).0 ↔ (Has a acc.0 ⊎ ((a ≡ t) × (in_range a ≡ true)))
    Has-add_stamp a t acc = by_range (in_range t) refl
      where
        true_not_false : true ≡ false → ⊥
        true_not_false h = cc

        by_range :
            (b : Bool)
            → in_range t ≡ b
            → Has a (if b then (insert_stamp e t acc.0, acc.1 + 1) else acc).0
              ↔ (Has a acc.0 ⊎ ((a ≡ t) × (in_range a ≡ true)))
        by_range true h = (
          (λ k. elim ((Has-insert_stamp a t acc.0).0 k) [
            | inl x ↦ inr (x, ap in_range x ∙ h)
            | inr y ↦ inl y
          ]),
          (λ k. (Has-insert_stamp a t acc.0).1 (elim k [ inl x ↦ inr x | inr y ↦ inl y.0 ])),
        )
        by_range false h = (
          (λ k. inl k),
          (λ k. elim k [
            | inl x ↦ x
            | inr y ↦ absurd (true_not_false (sym y.1 ∙ ap in_range y.0 ∙ h))
          ]),
        )

    Has-add_stamps :
        (a : TimeStamp) (ts : List TimeStamp) (acc : Acc)
        → Has a (add_stamps ts acc).0 ↔ (Has a acc.0 ⊎ (Has a ts × (in_range a ≡ true)))
    Has-add_stamps a [] acc = ((λ h. inl h), (λ h. elim h [ inl x ↦ x | inr y ↦ absurd y.0 ]))
    Has-add_stamps a (t ∷ ts) acc = (
      (λ h. ground (arith, Has-add_stamps a ts (add_stamp t acc), Has-add_stamp a t acc)),
      (λ h. ground (arith, Has-add_stamps a ts (add_stamp t acc), Has-add_stamp a t acc)),
    )

    count-add_stamps :
        (ts : List TimeStamp) (acc : Acc) → (add_stamps ts acc).1 ≡ acc.1 + count_in_range ts
    count-add_stamps [] acc = omega arith
    count-add_stamps (t ∷ ts) acc = count-add_stamps ts (add_stamp t acc) ∙ one (in_range t)
      where
        one :
            (b : Bool)
            → (if b then (insert_stamp e t acc.0, acc.1 + 1) else acc).1 + count_in_range ts
              ≡ acc.1 + (if b then suc (count_in_range ts) else count_in_range ts)
        one true = omega arith
        one false = refl

    -- `extract_timestamps_between` adds to the set exactly the stamps of rows of the buffer that are
    -- not before `start` and before `end`, keeps the set in order and without repetition, and returns
    -- the number of such rows. It looks at every row of every value held, also at those that were
    -- already consumed.
    pub extract_timestamps_between_lem :
        (p : Pvxs) (b : TableBuffer p.Value) (timestamps : List TimeStamp) (a : TimeStamp)
        → IsSorted timestamps
        → let r = extract_timestamps_between e p b start end timestamps in
          IsSorted r.0
          × (Has a r.0 ↔ (Has a timestamps ⊎ (Has a (all_stamps p b.buffer) × (in_range a ≡ true))))
          × (r.1 ≡ count_in_range (all_stamps p b.buffer))
    unfolding extract_timestamps_between
    extract_timestamps_between_lem p b timestamps a h =
        rw (extract_values_lem p b.buffer (timestamps, 0)) (
          add_stamps-IsSorted (all_stamps p b.buffer) (timestamps, 0) h,
          Has-add_stamps a (all_stamps p b.buffer) (timestamps, 0),
          count-add_stamps (all_stamps p b.buffer) (timestamps, 0) ∙ omega arith,
        )
