-- ===== src/Archiver/Loop/Draining.antt =====
-- The loop over the queue of the subscription: what becomes of the values that it takes.
use bsas_sc.Common.{
  from_ok, ◌≡◌, refl, sym, ◌∙◌, ap, subst, ◌⊎◌, inl, inr, Option, none, some, List, [], ◌∷◌, ◌++◌,
  append-nil, append_assoc, map-append, Result, ok, err, >>=-eq-ok,
}
use bsas_sc.Pvxs.{Pvxs}
use bsas_sc.Merger.Program.{Doubles}
use bsas_sc.Writer.Files.{Hdf5}
use bsas_sc.Writer.{Writer, write}
use bsas_sc.Archiver.{Arguments, create_folder_and_file}
use bsas_sc.Archiver.Loop.{
  Update, value, disconnect, Drained, threw, Clock, Pass, Run, released, create_file, open_writer,
  ensure_writer, write_value, drain,
}
use bsas_sc.Archiver.Loop.History.{
  History, values, Recorded, values_of, Holds, Recorded-snoc, values-snoc, update_last,
}

module _ (p : Pvxs) (h : Hdf5 p.Elem) (d : Doubles) (c : Clock d) where
  open p use {Value}

  -- Both hold after the call: a writer is there, and nothing was lost.
  ensure_writer-Holds :
      (a : Arguments d) (w : Pass p h d c) (r s : Run p h d c) (o : Option (Writer p h))
      (hist : History p h d c)
      → r.writer ≡ o
      → ensure_writer p h d c a w r o ≡ ok s
      → Holds p h d c a r hist
      → (after : History p h d c) × Holds p h d c a s after
        × (values p h d c after ≡ values p h d c hist)
  unfolding ensure_writer open_writer
  ensure_writer-Holds a w r s (some x) hist at e k =
      (hist, subst (λ t. Holds p h d c a t hist) (ap (from_ok r) e) k, refl)
  ensure_writer-Holds a w r s none hist at e (k, m) =
      let (path, made, e1) =
        >>=-eq-ok
          (create_folder_and_file w.mkdir a.base_directory a.file_prefix (c.to_tm w.file_time)) _
          e in
      let (file, new, e2) = >>=-eq-ok (create_file p h d c w r path) _ e1 in
      let before : Recorded p h d c a r.closed hist =
        subst (λ ws. Recorded p h d c a ws hist)
          (ap (λ x. r.closed ++ released p h d c x) at ∙ append-nil r.closed) k in
      (
        hist ++ (path, []) ∷ [],
        subst (λ t. Holds p h d c a t (hist ++ (path, []) ∷ [])) (ap (from_ok r) e2)
            (
              Recorded-snoc p h d c a r.closed hist _ (path, []) before (file, refl),
              ap (λ ps. ps ++ path ∷ []) m ∙ sym (map-append (λ x. x.0) hist ((path, []) ∷ [])),
            ),
        values-snoc p h d c hist path,
      )

  write_value-Holds :
      (a : Arguments d) (r s : Run p h d c) (v : Value) (o : Option (Writer p h))
      (hist : History p h d c)
      → r.writer ≡ o
      → write_value p h d c r v o ≡ ok s
      → Holds p h d c a r hist
      → (after : History p h d c) × Holds p h d c a s after
        × (values p h d c after ≡ values p h d c hist ++ v ∷ [])
  unfolding write_value
  write_value-Holds a r s v none hist at e k = cc
  write_value-Holds a r s v (some x) hist at e (k, m) =
      let (y, wrote, e1) = >>=-eq-ok (write p h x v) _ e in
      let (after, r', m', q) =
        update_last p h d c a r.closed hist x y v
          (subst (λ t. Recorded p h d c a (r.closed ++ released p h d c t) hist) at k) wrote in
      (after, subst (λ t. Holds p h d c a t after) (ap (from_ok r) e1) (r', m ∙ sym m'), q)

  -- The loop over the queue: what it takes is written, but for what follows an exception.
  abbrev pub Drains : Arguments d → History p h d c → List Value → Run p h d c × Drained → Type 0
  Drains a hist vs (s, x) =
      (after : History p h d c) × (rest : List Value) × Holds p h d c a s after
      × (values p h d c after ++ rest ≡ values p h d c hist ++ vs)
      × ((rest ≡ []) ⊎ (x ≡ threw))

  pub drain-Drains :
      (a : Arguments d) (w : Pass p h d c) (r : Run p h d c) (us : List (Update Value))
      (hist : History p h d c)
      → Holds p h d c a r hist
      → Drains a hist (values_of p h d c us) (drain p h d c a w r us)
  unfolding drain
  drain-Drains a w r [] hist k = (hist, [], k, refl, inl refl)
  drain-Drains a w r (disconnect ∷ us) hist k = (hist, [], k, refl, inl refl)
  drain-Drains a w r (value v ∷ us) hist k =
      opened (λ t x q. drain-Drains a w t us x q) (ensure_writer p h d c a w r r.writer) refl
    where
      wrote :
          ((t : Run p h d c) (x : History p h d c)
            → Holds p h d c a t x
            → Drains a x (values_of p h d c us) (drain p h d c a w t us))
          → (s : Run p h d c) (after : History p h d c) (q : Result (Run p h d c))
          → write_value p h d c s v s.writer ≡ q
          → Holds p h d c a s after
          → values p h d c after ≡ values p h d c hist
          → Drains a hist
              (v ∷ values_of p h d c us)
              (elim q [ err e ↦ (s, threw) | ok t ↦ drain p h d c a w t us ])
      wrote more s after (err e) ran k1 same = (
        after,
        v ∷ values_of p h d c us,
        k1,
        ap (λ xs. xs ++ v ∷ values_of p h d c us) same,
        inr refl,
      )
      wrote more s after (ok t) ran k1 same =
          let (after2, k2, q2) = write_value-Holds a s t v s.writer after refl ran k1 in
          let (after3, rest, k3, q3, x) = more t after2 k2 in
          (
            after3,
            rest,
            k3,
            q3
                ∙ ap (λ xs. xs ++ values_of p h d c us) q2
                ∙ append_assoc (values p h d c after) (v ∷ []) (values_of p h d c us)
                ∙ ap (λ xs. xs ++ v ∷ values_of p h d c us) same,
            x,
          )

      opened :
          ((t : Run p h d c) (x : History p h d c)
            → Holds p h d c a t x
            → Drains a x (values_of p h d c us) (drain p h d c a w t us))
          → (q : Result (Run p h d c)) → ensure_writer p h d c a w r r.writer ≡ q
          → Drains a hist (v ∷ values_of p h d c us) (elim q [
            | err e ↦ (r, threw)
            | ok s ↦ elim (write_value p h d c s v s.writer) [
              | err e ↦ (s, threw)
              | ok t ↦ drain p h d c a w t us
            ]
          ])
      opened more (err e) ran = (hist, v ∷ values_of p h d c us, k, refl, inr refl)
      opened more (ok s) ran =
          let (after, k1, same) = ensure_writer-Holds a w r s r.writer hist refl ran k in
          wrote more s after (write_value p h d c s v s.writer) refl k1 same
