-- ===== src/Archiver/Loop/Values.antt =====
-- What becomes of the values that the program takes out of its subscription.
use bsas_sc.Common.{
  ℕ, ◌/◌, leb, Bool, true, false, ◌≡◌, refl, sym, ◌∙◌, ap, subst, ◌⊎◌, inl, inr, if◌then◌else◌,
  Option, none, some, List, [], ◌∷◌, ◌++◌, append-nil, append_assoc, map,
}
use bsas_sc.Stamp.{EpicsTimeStamp}
use bsas_sc.Pvxs.{Pvxs}
use bsas_sc.Merger.Program.{Doubles}
use bsas_sc.Writer.Files.{Hdf5}
use bsas_sc.Writer.{Writer}
use bsas_sc.Archiver.{Arguments, interrupted, timeout, error}
use bsas_sc.Archiver.Loop.{
  Drained, emptied, lost, threw, Ending, stopped, Clock, Pass, Run, new_run, released, release,
  begin_again, finish, drain, check_size, after_drain, on_quiet, on_event, pass_at, pass, passes,
}
use bsas_sc.Archiver.Loop.History.{
  History, values, Recorded, values_of, offered, all_offered, Holds,
}
use bsas_sc.Archiver.Loop.Draining.{Drains, drain-Drains}

module _ (p : Pvxs) (h : Hdf5 p.Elem) (d : Doubles) (c : Clock d) where
  open p use {Value}

  release-Holds :
      (a : Arguments d) (r : Run p h d c) (hist : History p h d c)
      → Holds p h d c a r hist
      → Holds p h d c a (release p h d c r) hist
  unfolding release
  release-Holds a r hist (k, m) = (
    subst (λ ws. Recorded p h d c a ws hist)
        (sym (append-nil (r.closed ++ released p h d c r.writer))) k,
    m,
  )

  check_size-Holds :
      (a : Arguments d) (w : Pass p h d c) (r : Run p h d c) (o : Option (Writer p h))
      (size : Option ℕ) (hist : History p h d c)
      → Holds p h d c a r hist
      → Holds p h d c a (check_size p h d c a w r o size) hist
  unfolding check_size begin_again finish
  check_size-Holds a w r none size hist k = k
  check_size-Holds a w r (some x) none hist k = release-Holds a r hist k
  check_size-Holds a w r (some x) (some n) hist k = by_size (leb a.max_size_mb (n / 1024 / 1024))
    where
      by_size : (b : Bool) → Holds p h d c a (if b then begin_again p h d c w r else r) hist
      by_size true = release-Holds a r hist k
      by_size false = k

  -- A pass of the inner loop, or several, on the values that wait in them.
  abbrev pub Takes : Arguments d → History p h d c → List Value → Run p h d c → Type 0
  Takes a hist vs r =
      (after : History p h d c) × (rest : List Value) × Holds p h d c a r after
      × (values p h d c after ++ rest ≡ values p h d c hist ++ vs)
      × ((rest ≡ []) ⊎ (r.ending ≡ some (stopped error)))

  after_drain-Takes :
      (a : Arguments d) (w : Pass p h d c) (hist : History p h d c) (vs : List Value)
      (q : Run p h d c × Drained)
      → Drains p h d c a hist vs q
      → Takes a hist vs (after_drain p h d c a w q)
  unfolding after_drain finish
  after_drain-Takes a w hist vs (s, emptied) (after, rest, k, same, inl x) =
      (after, rest, check_size-Holds a w s s.writer w.st_size after k, same, inl x)
  after_drain-Takes a w hist vs (s, emptied) (after, rest, k, same, inr x) = cc
  after_drain-Takes a w hist vs (s, lost) (after, rest, k, same, inl x) =
      (after, rest, release-Holds a s after k, same, inl x)
  after_drain-Takes a w hist vs (s, lost) (after, rest, k, same, inr x) = cc
  after_drain-Takes a w hist vs (s, threw) (after, rest, k, same, x) =
      (after, rest, release-Holds a s after k, same, inr refl)

  pass-Takes :
      (a : Arguments d) (w : Pass p h d c) (r : Run p h d c) (hist : History p h d c)
      → Holds p h d c a r hist
      → Takes a hist (offered p h d c w r.ending) (pass p h d c a w r)
  unfolding pass pass_at on_event on_quiet begin_again finish
  pass-Takes a w r hist k = by_ending r.ending
    where
      by_timeout :
          (b : Bool)
          → Takes a hist [] (if b then finish p h d c timeout r else begin_again p h d c w r)
      by_timeout true = (hist, [], release-Holds a r hist k, refl, inl refl)
      by_timeout false = (hist, [], release-Holds a r hist k, refl, inl refl)

      by_event :
          (b : Bool)
          → Takes a hist (if b then [] else values_of p h d c w.updates) (
              if b
              then finish p h d c interrupted r
              else after_drain p h d c a w (drain p h d c a w r w.updates))
      by_event true = (hist, [], release-Holds a r hist k, refl, inl refl)
      by_event false =
          after_drain-Takes a w hist (values_of p h d c w.updates) _
            (drain-Drains p h d c a w r w.updates hist k)

      by_woken :
          (b : Bool)
          → Takes a hist
              (if b then (if w.interrupted_ then [] else values_of p h d c w.updates) else [])
              (if b then on_event p h d c a w r else on_quiet p h d c a w r)
      by_woken true = by_event w.interrupted_
      by_woken false = by_timeout _

      by_ending : (o : Option Ending) → Takes a hist (offered p h d c w o) (pass_at p h d c a w r o)
      by_ending (some e) = (hist, [], k, refl, inl refl)
      by_ending none = by_woken w.woken

  -- A program that has ended takes nothing.
  passes-ended :
      (a : Arguments d) (ws : List (Pass p h d c)) (r : Run p h d c) (e : Ending)
      → r.ending ≡ some e
      → (passes p h d c a ws r ≡ r) × (all_offered p h d c a ws r ≡ [])
  unfolding passes pass pass_at
  passes-ended a [] r e at = (refl, refl)
  passes-ended a (w ∷ ws) r e at =
      let same : pass p h d c a w r ≡ r = rw (at) refl in
      let (stays, nothing) = passes-ended a ws r e at in
      (
        ap (passes p h d c a ws) same ∙ stays,
        ap (λ o. offered p h d c w o ++ all_offered p h d c a ws (pass p h d c a w r)) at
            ∙ ap (all_offered p h d c a ws) same
            ∙ nothing,
      )

  passes-Takes :
      (a : Arguments d) (ws : List (Pass p h d c)) (r : Run p h d c) (hist : History p h d c)
      → Holds p h d c a r hist
      → Takes a hist (all_offered p h d c a ws r) (passes p h d c a ws r)
  unfolding passes
  passes-Takes a [] r hist k = (hist, [], k, refl, inl refl)
  passes-Takes a (w ∷ ws) r hist k =
      let s = pass p h d c a w r in
      let now = offered p h d c w r.ending in
      let (after, rest, k1, same, x) = pass-Takes a w r hist k in
      elim x [
        | inl none_left ↦
            let (after2, rest2, k2, same2, y) = passes-Takes a ws s after k1 in
            let all_kept : values p h d c after ≡ values p h d c hist ++ now =
              sym (append-nil (values p h d c after))
              ∙ ap (λ us. values p h d c after ++ us) (sym none_left)
              ∙ same in
            (
              after2,
              rest2,
              k2,
              same2
                  ∙ ap (λ us. us ++ all_offered p h d c a ws s) all_kept
                  ∙ append_assoc (values p h d c hist) now (all_offered p h d c a ws s),
              y,
            )
        | inr failed ↦
            let (stays, nothing) = passes-ended a ws s (stopped error) failed in
            (
              after,
              rest,
              subst (λ t. Holds p h d c a t after) (sym stays) k1,
              same
                  ∙ ap (λ us. values p h d c hist ++ us)
                      (sym (append-nil now) ∙ ap (λ us. now ++ us) (sym nothing)),
              inr (ap (λ t. t.ending) stays ∙ failed),
            )
      ]

  -- The files are those the program created, each writer was given the values of its file one after the
  -- other and nothing else, and the values of all files together are, in order, the values that the
  -- subscription gave to the program. What follows an exception is lost, and then the program ends with
  -- the reason `ERROR`.
  pub passes-Recorded :
      (a : Arguments d) (now : EpicsTimeStamp) (ws : List (Pass p h d c))
      → (hist : History p h d c) × (rest : List Value) × Recorded p h d c a
          ((passes p h d c a ws (new_run p h d c now)).closed
            ++ released p h d c (passes p h d c a ws (new_run p h d c now)).writer)
          hist
        × ((passes p h d c a ws (new_run p h d c now)).paths ≡ map (λ x. x.0) hist)
        × (values p h d c hist ++ rest ≡ all_offered p h d c a ws (new_run p h d c now))
        × ((rest ≡ [])
            ⊎ ((passes p h d c a ws (new_run p h d c now)).ending ≡ some (stopped error)))
  unfolding new_run
  passes-Recorded a now ws =
      let (hist, rest, (k, m), same, x) = passes-Takes a ws (new_run p h d c now) [] (tt, refl) in
      (hist, rest, k, m, same, x)
