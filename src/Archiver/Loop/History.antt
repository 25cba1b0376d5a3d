-- ===== src/Archiver/Loop/History.antt =====
-- The files that the program has written, and what was written to each.
use bsas_sc.Common.{
  from_ok, ◌≡◌, refl, sym, ◌∙◌, ap, if◌then◌else◌, Option, none, some, List, [], ◌∷◌, ◌++◌,
  append-nil, append_assoc, map, Text, ok, >>=-eq-ok,
}
use bsas_sc.Pvxs.{Pvxs}
use bsas_sc.Merger.Program.{Doubles}
use bsas_sc.Writer.Files.{Hdf5}
use bsas_sc.Writer.{Writer, new_writer, write}
use bsas_sc.Writer.Append.{write_all}
use bsas_sc.Archiver.{Arguments}
use bsas_sc.Archiver.Loop.{Update, value, disconnect, Ending, Clock, Pass, Run, released, pass}

module _ (p : Pvxs) (h : Hdf5 p.Elem) (d : Doubles) (c : Clock d) where
  open p use {Value}

  -- The files that the program has written, each with its path and the values given to it.
  abbrev pub History : Type 0
  History = List (Text × List Value)

  abbrev pub values : History → List Value
  values [] = []
  values ((path, vs) ∷ hist) = vs ++ values hist

  -- The writer was created on the path and was given the values.
  abbrev pub IsRecord : Arguments d → Writer p h → Text × List Value → Type 0
  IsRecord a w (path, vs) =
      (file : h.File) × (write_all p h
          (new_writer p h a.input_pv path file a.root_group a.label_sep a.col_sep) vs
        ≡ ok w)

  abbrev pub Recorded : Arguments d → List (Writer p h) → History → Type 0
  Recorded a [] [] = Unit {0}
  Recorded a [] (x ∷ hist) = ⊥
  Recorded a (w ∷ ws) [] = ⊥
  Recorded a (w ∷ ws) (x ∷ hist) = IsRecord a w x × Recorded a ws hist

  -- The values that `pop` gives before the queue is empty or the PV disconnects.
  abbrev pub values_of : List (Update Value) → List Value
  values_of [] = []
  values_of (value v ∷ us) = v ∷ values_of us
  values_of (disconnect ∷ us) = []

  -- The values that wait for the program in a pass.
  abbrev pub offered : Pass p h d c → Option Ending → List Value
  offered w (some e) = []
  offered w none = if w.woken then (if w.interrupted_ then [] else values_of w.updates) else []

  abbrev pub all_offered : Arguments d → List (Pass p h d c) → Run p h d c → List Value
  all_offered a [] r = []
  all_offered a (w ∷ ws) r = offered w r.ending ++ all_offered a ws (pass p h d c a w r)

  -- The writers of the program, and the paths of its files, are those of the history.
  abbrev pub Holds : Arguments d → Run p h d c → History → Type 0
  Holds a r hist =
      Recorded a (r.closed ++ released p h d c r.writer) hist × (r.paths ≡ map (λ x. x.0) hist)

  pub write_all-snoc :
      (w x y : Writer p h) (vs : List Value) (v : Value)
      → write_all p h w vs ≡ ok x
      → write p h x v ≡ ok y
      → write_all p h w (vs ++ v ∷ []) ≡ ok y
  write_all-snoc w x y [] v e f = let same : w ≡ x = ap (from_ok w) e in rw (same, f) refl
  write_all-snoc w x y (u ∷ vs) v e f =
      let (t, q, g) = >>=-eq-ok (write p h w u) _ e in rw (q) (write_all-snoc t x y vs v g f)

  pub Recorded-snoc :
      (a : Arguments d) (ws : List (Writer p h)) (hist : History) (w : Writer p h)
      (x : Text × List Value)
      → Recorded a ws hist
      → IsRecord a w x
      → Recorded a (ws ++ w ∷ []) (hist ++ x ∷ [])
  Recorded-snoc a [] [] w x r k = (k, tt)
  Recorded-snoc a [] (y ∷ hist) w x r k = absurd r
  Recorded-snoc a (u ∷ ws) [] w x r k = absurd r
  Recorded-snoc a (u ∷ ws) (y ∷ hist) w x (k0, r) k = (k0, Recorded-snoc a ws hist w x r k)

  pub values-snoc : (hist : History) (path : Text) → values (hist ++ (path, []) ∷ []) ≡ values hist
  values-snoc [] path = refl
  values-snoc ((q, vs) ∷ hist) path = ap (λ us. vs ++ us) (values-snoc hist path)

  -- The last writer gets another value.
  pub update_last :
      (a : Arguments d) (ws : List (Writer p h)) (hist : History) (x y : Writer p h) (v : Value)
      → Recorded a (ws ++ x ∷ []) hist
      → write p h x v ≡ ok y
      → (after : History) × Recorded a (ws ++ y ∷ []) after
        × (map (λ z. z.0) after ≡ map (λ z. z.0) hist)
        × (values after ≡ values hist ++ v ∷ [])
  update_last a [] [] x y v r f = absurd r
  update_last a [] ((path, vs) ∷ []) x y v ((file, k), r) f = (
    (path, vs ++ v ∷ []) ∷ [],
    ((file, write_all-snoc _ x y vs v k f), tt),
    refl,
    append-nil (vs ++ v ∷ []) ∙ ap (λ us. us ++ v ∷ []) (sym (append-nil vs)),
  )
  update_last a [] ((path, vs) ∷ z ∷ hist) x y v (k, r) f = absurd r
  update_last a (w ∷ ws) [] x y v r f = absurd r
  update_last a (w ∷ ws) ((path, vs) ∷ hist) x y v (k, r) f =
      let (after, r', m, e) = update_last a ws hist x y v r f in
      (
        (path, vs) ∷ after,
        (k, r'),
        ap (λ ps. path ∷ ps) m,
        ap (λ us. vs ++ us) e ∙ sym (append_assoc vs (values hist) (v ∷ [])),
      )
