-- ===== src/Align/Pushed.antt =====
-- `push` of `TimeAlignedTable`: the buffer that takes the value, and the type of the merged table afterwards.
use bsas_sc.Common.{
  false, ◌≡◌, refl, sym, ap, ◌∙◌, Bool-cases, inl, inr, ◌≢◌, ◌⊎◌, text_eq_iff, List, [], ◌∷◌, Text,
  text_eq, Result, ok, err, out_of_range, Error, subst,
}
use bsas_sc.Pvxs.{Pvxs}
use bsas_sc.Buffer
use bsas_sc.Buffer.{TableBuffer, initialized, buffer_data_columns}
use bsas_sc.Align.{TimeAligned, initialize, push_at, after_push, push}
use bsas_sc.Align.Initialize.{Settles, initialize-Settles}

module _ (p : Pvxs) where
  open p use {Value}

  -- No buffer has that name.
  abbrev pub Unknown : Text → List (Text × TableBuffer Value) → Type 0
  Unknown name [] = Unit
  Unknown name ((k, b) ∷ m) = (text_eq name k ≡ false) × Unknown name m

  push_at-Unknown :
      (name : Text) (value : Value) (m : List (Text × TableBuffer Value))
      → Unknown name m
      → push_at p name value m ≡ (m, err out_of_range)
  unfolding push_at
  push_at-Unknown name value [] h = refl
  push_at-Unknown name value ((k, b) ∷ m) h = rw (h.0, push_at-Unknown name value m h.1) refl

  abbrev raised : Error → Result (Unit {0})
  raised x = err x

  err-ne-ok : {x : Error} → ¬ (raised x ≡ ok tt)
  err-ne-ok h = cc

  push-err :
      (t : TimeAligned Value) (name : Text) (value : Value) (m : List (Text × TableBuffer Value))
      (x : Error)
      → push_at p name value t.buffers ≡ (m, err x)
      → push p t name value ≡ (record t { buffers = m }, err x)
  unfolding push after_push
  push-err t name value m x e = ap (after_push p t) e

  push-ok :
      (t w : TimeAligned Value) (name : Text) (value : Value) (m : List (Text × TableBuffer Value))
      → push_at p name value t.buffers ≡ (m, ok tt)
      → initialize (record t { buffers = m }) ≡ ok w
      → push p t name value ≡ (w, ok tt)
  unfolding push after_push
  push-ok t w name value m e made = ap (after_push p t) e ∙ rw (made, after_push) refl

  -- A value for a name that the table has no buffer for, as that of a dropped PV, throws `out_of_range`
  -- and changes nothing.
  pub push-Unknown :
      (t : TimeAligned Value) (name : Text) (value : Value)
      → Unknown name t.buffers
      → push p t name value ≡ (t, err out_of_range)
  push-Unknown t name value h =
      push-err t name value t.buffers out_of_range (push_at-Unknown name value t.buffers h)

  -- The first buffer of that name has pushed the value; the others are as before.
  abbrev pub Pushed :
      Text → Value → List (Text × TableBuffer Value) → List (Text × TableBuffer Value) → Type 0
  Pushed name value [] m' = ⊥
  Pushed name value (x ∷ m) [] = ⊥
  Pushed name value ((k, b) ∷ m) ((k', b') ∷ m') =
      (k' ≡ k)
      × (((name ≡ k) × (Buffer.push p b value ≡ (b', ok tt)) × (m' ≡ m))
          ⊎ ((name ≢ k) × (b' ≡ b) × Pushed name value m m'))

  push_at-Pushed :
      (name : Text) (value : Value) (m m' : List (Text × TableBuffer Value))
      → push_at p name value m ≡ (m', ok tt)
      → Pushed name value m m'
  unfolding push_at
  push_at-Pushed name value [] m' h = cc (ap (λ r. r.1) h)
  push_at-Pushed name value ((k, b) ∷ m) m' h = elim (Bool-cases (text_eq name k)) [
    | inl x ↦
        let q = simp x at h in
        subst (Pushed name value ((k, b) ∷ m)) (ap (λ r. r.0) q) (
          refl,
          inl (
            (text_eq_iff name k).0 x,
            ap (λ y. ((Buffer.push p b value).0, y)) (ap (λ r. r.1) q),
            refl,
          ),
        )
    | inr x ↦
        let q = simp x at h in
        subst (Pushed name value ((k, b) ∷ m)) (ap (λ r. r.0) q) (
          refl,
          inr (
            (λ same. let y = (text_eq_iff name k).1 same in cc (x, y)),
            refl,
            push_at-Pushed name value m (push_at p name value m).0
                (ap (λ y. ((push_at p name value m).0, y)) (ap (λ r. r.1) q)),
          ),
        )
  ]

  -- After a `push` that throws nothing, the value's own buffer has pushed it, and the others are as before.
  -- A type that the merged table had stays. If it had none, it has one afterwards exactly if all its
  -- buffers have theirs: the time columns, and for each buffer a `valid` column and its data columns, with
  -- prefixed names and labels.
  pub push-Settles :
      (t u : TimeAligned Value) (name : Text) (value : Value)
      → push p t name value ≡ (u, ok tt)
      → Settles t.type_ u × Pushed name value t.buffers u.buffers
  push-Settles t u name value h = by_result (push_at p name value t.buffers) refl
    where
      by_result :
          (r : List (Text × TableBuffer Value) × Result (Unit {0}))
          → push_at p name value t.buffers ≡ r
          → Settles t.type_ u × Pushed name value t.buffers u.buffers
      by_result (m, err x) e =
          absurd (err-ne-ok (ap (λ r. r.1) (sym (push-err t name value m x e) ∙ h)))
      by_result (m, ok x) e =
          let (w, made, same, settled) = initialize-Settles (record t { buffers = m }) in
          let reached : w ≡ u = ap (λ r. r.0) (sym (push-ok t w name value m e made) ∙ h) in
          (
            subst (Settles t.type_) reached settled,
            push_at-Pushed name value t.buffers u.buffers
                (e ∙ ap (λ bs. (bs, ok tt)) (sym same ∙ ap (λ v. v.buffers) reached)),
          )
