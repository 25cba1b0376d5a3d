-- ===== src/Stacker/Refine.antt =====
-- `Stacker` implements `Collected`: its lists are the columns of the samples collected.
use bsas_sc.Common.{
  ℕ, ◌-◌, Bool, true, false, ◌≡◌, refl, ◌∙◌, ap, sym, Bool-cases, inl, inr, if◌then◌else◌, List, [],
  ◌∷◌, ◌++◌, map, length, map-append, Result, ok, arith, ◌==◌, length-map, suc,
}
use bsas_sc.Pvxs.{Pvxs}
use bsas_sc.Table.{TimeTable, create_table}
use bsas_sc.Buffer.{back, read}
use bsas_sc.Stacker.{
  EpicsDiff, Config, Sample, Stacker, push_if, reset, time_at, fill_table, publish, store,
  publish_if_due, push_after, push,
}
use bsas_sc.Stacker.Samples.{Collected, collect}

-- A column that a table has only if it is configured.
abbrev pub column_if {ℓ} : {A : Type ℓ} → Bool → List A → List A
column_if test xs = if test then xs else []

push_if-column_if {ℓ κ} :
    {A : Type ℓ} {B : Type κ} (test : Bool) (f : A → B) (xs : List A) (x : A)
    → push_if test (f x) (column_if test (map f xs)) ≡ column_if test (map f (xs ++ x ∷ []))
push_if-column_if true f xs x = sym (map-append f xs (x ∷ []))
push_if-column_if false f xs x = refl

suc_sub_one : (n : ℕ) → suc n - 1 ≡ n
suc_sub_one n = omega arith

suc_not_zero : (n : ℕ) → (suc n == 0) ≡ false
suc_not_zero n = ground arith

pub column_if-nil {ℓ} : {A : Type ℓ} (test : Bool) → column_if {A = A} test [] ≡ []
column_if-nil true = refl
column_if-nil false = refl

read-back {ℓ κ} :
    {A : Type ℓ} {B : Type κ} (f : A → B) (x : A) (xs : List A)
    → read (map f (x ∷ xs)) (length xs) ≡ ok (f (back x xs))
read-back f x [] = refl
read-back f x (y ∷ ys) = read-back f y ys

module _ (p : Pvxs) (k : EpicsDiff) (config : Config) (period : k.Double) (type : TimeTable) where
  open p use {Elem, Value}
  open k use {Double, diff_in_seconds, le_zero, ge}

  -- The stacker that holds the given samples.
  abbrev pub stacker_of : List Value → List (Sample Elem) → Stacker Double Elem Value
  stacker_of posted xs = record {
    config = config;
    period_sec = period;
    type_ = type;
    posted = posted;
    seconds_past_epoch = map (λ x. x.timestamp.sec_past_epoch) xs;
    nanoseconds = map (λ x. x.timestamp.nsec) xs;
    values = map (λ x. x.value) xs;
    utags = column_if config.utag (map (λ x. x.utag) xs);
    severities = column_if config.alarm_sev (map (λ x. x.severity) xs);
    conditions = column_if config.alarm_cond (map (λ x. x.condition) xs);
    messages = column_if config.alarm_message (map (λ x. x.message) xs);
  }

  -- The table of a batch of samples.
  abbrev pub table_of : List (Sample Elem) → Value
  table_of xs = fill_table p k (stacker_of [] xs) (create_table p type)

  abbrev pub concrete : Collected Elem → Stacker Double Elem Value
  concrete q = stacker_of (map table_of q.posted) q.current

  store-stacker_of :
      (posted : List Value) (xs : List (Sample Elem)) (x : Sample Elem)
      → store p k (stacker_of posted xs) x ≡ stacker_of posted (xs ++ x ∷ [])
  unfolding store
  store-stacker_of posted xs x =
      rw
        (
          push_if-column_if config.utag (λ x. x.utag) xs x,
          push_if-column_if config.alarm_sev (λ x. x.severity) xs x,
          push_if-column_if config.alarm_cond (λ x. x.condition) xs x,
          push_if-column_if config.alarm_message (λ x. x.message) xs x,
          map-append (λ (x : Sample Elem). x.timestamp.sec_past_epoch) xs (x ∷ []),
          map-append (λ (x : Sample Elem). x.timestamp.nsec) xs (x ∷ []),
          map-append (λ (x : Sample Elem). x.value) xs (x ∷ []),
        )
        refl

  reset-stacker_of :
      (posted : List Value) (xs : List (Sample Elem))
      → reset p k (stacker_of posted xs) ≡ stacker_of posted []
  unfolding reset
  reset-stacker_of posted xs =
      rw
        (
          column_if-nil {A = Elem} config.utag,
          column_if-nil {A = Elem} config.alarm_sev,
          column_if-nil {A = Elem} config.alarm_cond,
          column_if-nil {A = Elem} config.alarm_message,
        )
        refl

  time_at-back :
      (posted : List Value) (x : Sample Elem) (xs : List (Sample Elem))
      → time_at p k (stacker_of posted (x ∷ xs)) (length xs) ≡ ok (back x xs).timestamp
  unfolding time_at
  time_at-back posted x xs =
      rw
        (
          read-back (λ (x : Sample Elem). x.timestamp.sec_past_epoch) x xs,
          read-back (λ (x : Sample Elem). x.timestamp.nsec) x xs,
        )
        refl

  -- Where a sample is held, the last one is the one that `push` looks at.
  time_at-last :
      (posted : List Value) (x : Sample Elem) (xs : List (Sample Elem))
      → time_at p k
          (stacker_of posted (x ∷ xs))
          (length (stacker_of posted (x ∷ xs)).seconds_past_epoch - 1)
        ≡ ok (back x xs).timestamp
  time_at-last posted x xs =
      rw (length-map xs (λ (x : Sample Elem). x.timestamp.sec_past_epoch), suc_sub_one (length xs))
        (time_at-back posted x xs)

  time_at-first :
      (posted : List Value) (x : Sample Elem) (xs : List (Sample Elem))
      → time_at p k (stacker_of posted (x ∷ xs)) 0 ≡ ok x.timestamp
  unfolding time_at
  time_at-first posted x xs = refl

  publish-stacker_of :
      (posted : List Value) (x : Sample Elem) (xs : List (Sample Elem))
      → publish p k (stacker_of posted (x ∷ xs))
        ≡ ok (stacker_of (posted ++ table_of (x ∷ xs) ∷ []) (x ∷ xs))
  unfolding publish fill_table
  publish-stacker_of posted x xs = rw (time_at-first posted x xs, time_at-last posted x xs) refl

  push-held :
      (posted : List Value) (x : Sample Elem) (xs : List (Sample Elem)) (y : Sample Elem)
      → push p k (stacker_of posted (x ∷ xs)) y
        ≡ push_after p k (stacker_of posted (x ∷ xs)) y (back x xs).timestamp
  unfolding push
  push-held posted x xs y =
      rw
        (
          suc_not_zero (length (map (λ (x : Sample Elem). x.timestamp.sec_past_epoch) xs)),
          time_at-last posted x xs,
        )
        refl

  publish_if_due-due :
      (posted : List Value) (x : Sample Elem) (xs : List (Sample Elem)) (y : Sample Elem)
      → ge (diff_in_seconds y.timestamp x.timestamp) period ≡ true
      → publish_if_due p k (stacker_of posted (x ∷ xs)) y.timestamp x.timestamp
        ≡ ok (stacker_of (posted ++ table_of (x ∷ xs) ∷ []) [])
  unfolding publish_if_due
  publish_if_due-due posted x xs y g =
      rw
        (
          g,
          publish-stacker_of posted x xs,
          reset-stacker_of (posted ++ table_of (x ∷ xs) ∷ []) (x ∷ xs),
        )
        refl

  publish_if_due-early :
      (posted : List Value) (x : Sample Elem) (xs : List (Sample Elem)) (y : Sample Elem)
      → ge (diff_in_seconds y.timestamp x.timestamp) period ≡ false
      → publish_if_due p k (stacker_of posted (x ∷ xs)) y.timestamp x.timestamp
        ≡ ok (stacker_of posted (x ∷ xs))
  unfolding publish_if_due
  publish_if_due-early posted x xs y g = rw g refl

  -- The stacker of some samples after one more, by what `collect` makes of them.
  Collects :
      List (List (Sample Elem))
      → List (Sample Elem)
      → Sample Elem
      → Result (Stacker Double Elem Value)
      → Type 0
  Collects bs c y r = r ≡ ok (concrete (collect k period (record { posted = bs; current = c }) y))

  push_after-concrete :
      (bs : List (List (Sample Elem))) (x : Sample Elem) (xs : List (Sample Elem)) (y : Sample Elem)
      → Collects bs
          (x ∷ xs)
          y
          (push_after p k (stacker_of (map table_of bs) (x ∷ xs)) y (back x xs).timestamp)
  unfolding Collects push_after collect
  push_after-concrete bs x xs y =
      elim (Bool-cases (le_zero (diff_in_seconds y.timestamp (back x xs).timestamp))) [
        | inl l ↦ rw l (ap ok (reset-stacker_of (map table_of bs) (x ∷ xs)))
        | inr l ↦ elim (Bool-cases (ge (diff_in_seconds y.timestamp x.timestamp) period)) [
          | inl g ↦
              rw
                (
                  l,
                  g,
                  time_at-first (map table_of bs) x xs,
                  publish_if_due-due (map table_of bs) x xs y g,
                  store-stacker_of (map table_of bs ++ table_of (x ∷ xs) ∷ []) [] y,
                  map-append table_of bs ((x ∷ xs) ∷ []),
                )
                refl
          | inr g ↦
              rw
                (
                  l,
                  time_at-first (map table_of bs) x xs,
                  publish_if_due-early (map table_of bs) x xs y g,
                  g,
                  store-stacker_of (map table_of bs) (x ∷ xs) y,
                )
                refl
        ]
      ]

  -- `push` on the stacker of some samples is `collect`; it never reads past the end of a list.
  pub push-concrete :
      (q : Collected Elem) (x : Sample Elem)
      → push p k (concrete q) x ≡ ok (concrete (collect k period q x))
  unfolding Collects push collect
  push-concrete q y = by_current q.posted q.current
    where
      by_current :
          (bs : List (List (Sample Elem))) (c : List (Sample Elem))
          → Collects bs c y (push p k (concrete (record { posted = bs; current = c })) y)
      by_current bs [] = ap ok (store-stacker_of (map table_of bs) [] y)
      by_current bs (x ∷ xs) = push-held (map table_of bs) x xs y ∙ push_after-concrete bs x xs y
