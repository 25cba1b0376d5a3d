-- ===== src/Archiver/Loop/Endings.antt =====
-- How the program ends.
use bsas_sc.Common.{
  from_ok, ℕ, ◌/◌, leb, Bool, true, false, ◌≡◌, ◌↔◌, ◌≢◌, refl, sym, ◌∙◌, ap, subst, if◌then◌else◌,
  Option, none, some, List, [], ◌∷◌, ◌++◌, append-nil, Result, ok, err, >>=-eq-ok,
}
use bsas_sc.Stamp.{EpicsTimeStamp}
use bsas_sc.Pvxs.{Pvxs}
use bsas_sc.Merger.Program.{Doubles}
use bsas_sc.Writer.Files.{Hdf5}
use bsas_sc.Writer.{Writer, write}
use bsas_sc.Archiver.{exit_code, is_err, Arguments, interrupted, timeout, create_folder_and_file}
use bsas_sc.Archiver.Loop.{
  main_result, Update, value, disconnect, Drained, emptied, lost, threw, Ending, stopped, Clock,
  Pass, Run, released, release, begin_again, finish, create_file, open_writer, ensure_writer,
  write_value, drain, check_size, after_drain, on_quiet, on_event, pass_at, pass, passes,
}

module _ (p : Pvxs) (h : Hdf5 p.Elem) (d : Doubles) (c : Clock d) where
  open p use {Value}
  open d use {zero_sec, lt}
  open c use {minus, diff_in_seconds}

  ensure_writer-ending :
      (a : Arguments d) (w : Pass p h d c) (r s : Run p h d c) (o : Option (Writer p h))
      → ensure_writer p h d c a w r o ≡ ok s
      → s.ending ≡ r.ending
  unfolding ensure_writer open_writer
  ensure_writer-ending a w r s (some x) e = ap (λ t. t.ending) (sym (ap (from_ok r) e))
  ensure_writer-ending a w r s none e =
      let (path, made, e1) =
        >>=-eq-ok
          (create_folder_and_file w.mkdir a.base_directory a.file_prefix (c.to_tm w.file_time)) _
          e in
      let (file, new, e2) = >>=-eq-ok (create_file p h d c w r path) _ e1 in
      ap (λ t. t.ending) (sym (ap (from_ok r) e2))

  write_value-ending :
      (r s : Run p h d c) (v : Value) (o : Option (Writer p h))
      → write_value p h d c r v o ≡ ok s
      → s.ending ≡ r.ending
  unfolding write_value
  write_value-ending r s v none e = cc
  write_value-ending r s v (some x) e =
      let (y, wrote, e1) = >>=-eq-ok (write p h x v) _ e in
      ap (λ t. t.ending) (sym (ap (from_ok r) e1))

  abbrev pub ending_of : Run p h d c × Drained → Option Ending
  ending_of q = q.0.ending

  pub drain-ending :
      (a : Arguments d) (w : Pass p h d c) (r : Run p h d c) (us : List (Update Value))
      → (drain p h d c a w r us).0.ending ≡ r.ending
  unfolding drain
  drain-ending a w r [] = refl
  drain-ending a w r (disconnect ∷ us) = refl
  drain-ending a w r (value v ∷ us) =
      opened (λ t. drain-ending a w t us) (ensure_writer p h d c a w r r.writer) refl
    where
      wrote :
          ((t : Run p h d c) → (drain p h d c a w t us).0.ending ≡ t.ending)
          → (s : Run p h d c) (q : Result (Run p h d c)) → write_value p h d c s v s.writer ≡ q
          → ending_of (elim q [ err e ↦ (s, threw) | ok t ↦ drain p h d c a w t us ]) ≡ s.ending
      wrote more s (err e) ran = refl
      wrote more s (ok t) ran = more t ∙ write_value-ending s t v s.writer ran

      opened :
          ((t : Run p h d c) → (drain p h d c a w t us).0.ending ≡ t.ending)
          → (q : Result (Run p h d c)) → ensure_writer p h d c a w r r.writer ≡ q
          → ending_of (elim q [
            | err e ↦ (r, threw)
            | ok s ↦ elim (write_value p h d c s v s.writer) [
              | err e ↦ (s, threw)
              | ok t ↦ drain p h d c a w t us
            ]
          ])
            ≡ r.ending
      opened more (err e) ran = refl
      opened more (ok s) ran =
          wrote more s (write_value p h d c s v s.writer) refl
          ∙ ensure_writer-ending a w r s r.writer ran

  -- A running program has not ended for these reasons after the loop over the queue.
  abbrev IsOther : Option Ending → Type 0
  IsOther o = (main_result o ≢ some 0) × (o ≢ some (stopped timeout))

  running-IsOther : (o : Option Ending) → o ≡ none → IsOther o
  unfolding main_result
  running-IsOther none e = ((λ q. cc), (λ q. cc))
  running-IsOther (some x) e = cc

  after_drain-IsOther :
      (a : Arguments d) (w : Pass p h d c) (q : Run p h d c × Drained)
      → ending_of q ≡ none
      → IsOther (after_drain p h d c a w q).ending
  unfolding after_drain check_size finish begin_again release main_result exit_code is_err
  after_drain-IsOther a w (s, emptied) e = by_writer s.writer w.st_size
    where
      by_size : (b : Bool) → IsOther (if b then begin_again p h d c w s else s).ending
      by_size true = running-IsOther _ e
      by_size false = running-IsOther _ e

      by_writer :
          (o : Option (Writer p h)) (n : Option ℕ) → IsOther (check_size p h d c a w s o n).ending
      by_writer none n = ((λ q. cc), (λ q. cc))
      by_writer (some x) none = ((λ q. cc), (λ q. cc))
      by_writer (some x) (some n) = by_size (leb a.max_size_mb (n / 1024 / 1024))
  after_drain-IsOther a w (s, lost) e = ((λ q. cc), (λ q. cc))
  after_drain-IsOther a w (s, threw) e = ((λ q. cc), (λ q. cc))

  -- A running program ends with the result 0 in exactly the passes that are woken and find the interruption,
  -- and with the reason `TIMEOUT` in exactly the passes that are not woken and began later after `start` than
  -- the timeout.
  pub pass-ending :
      (a : Arguments d) (w : Pass p h d c) (r : Run p h d c)
      → r.ending ≡ none
      → ((main_result (pass p h d c a w r).ending ≡ some 0)
          ↔ ((w.woken ≡ true) × (w.interrupted_ ≡ true)))
        × (((pass p h d c a w r).ending ≡ some (stopped timeout))
            ↔ ((w.woken ≡ false) × (lt a.timeout_sec (diff_in_seconds w.now r.start) ≡ true)))
  unfolding pass pass_at on_event on_quiet finish begin_again release main_result exit_code is_err
  pass-ending a w r on =
      subst
        (λ o.
          ((main_result (pass_at p h d c a w r o).ending ≡ some 0)
            ↔ ((w.woken ≡ true) × (w.interrupted_ ≡ true)))
          × (((pass_at p h d c a w r o).ending ≡ some (stopped timeout))
              ↔ ((w.woken ≡ false) × (lt a.timeout_sec (diff_in_seconds w.now r.start) ≡ true))))
        (sym on)
        (by_woken w.woken w.interrupted_ (lt a.timeout_sec (diff_in_seconds w.now r.start)))
    where
      run_of : Bool → Bool → Bool → Run p h d c
      run_of b i t =
          if b
          then (if i
              then finish p h d c interrupted r
              else after_drain p h d c a w (drain p h d c a w r w.updates))
          else (if t then finish p h d c timeout r else begin_again p h d c w r)

      by_woken :
          (b i t : Bool)
          → ((main_result (run_of b i t).ending ≡ some 0) ↔ ((b ≡ true) × (i ≡ true)))
            × (((run_of b i t).ending ≡ some (stopped timeout)) ↔ ((b ≡ false) × (t ≡ true)))
      by_woken true true t = (((λ q. (refl, refl)), (λ q. refl)), ((λ q. cc), (λ q. cc)))
      by_woken true false t =
          let (x, y) =
            after_drain-IsOther a w (drain p h d c a w r w.updates)
              (drain-ending a w r w.updates ∙ on) in
          (((λ q. absurd (x q)), (λ q. cc)), ((λ q. absurd (y q)), (λ q. cc)))
      by_woken false i true = (((λ q. cc), (λ q. cc)), ((λ q. (refl, refl)), (λ q. refl)))
      by_woken false i false =
          let (x, y) = running-IsOther r.ending on in
          (((λ q. absurd (x q)), (λ q. cc)), ((λ q. absurd (y q)), (λ q. cc)))

  -- No pass is woken, and each begins so soon after `start` that the timeout has not passed.
  abbrev pub IsQuiet : Arguments d → EpicsTimeStamp → List (Pass p h d c) → Type 0
  IsQuiet a start [] = Unit {0}
  IsQuiet a start (w ∷ ws) =
      (w.woken ≡ false)
      × (lt a.timeout_sec (diff_in_seconds w.now start) ≡ false)
      × IsQuiet a w.again ws

  -- If no pass is woken, as when no update arrives, and each begins within the timeout after `start`, a
  -- running program never ends, and so never times out: each wait that fails begins the inner loop again
  -- with a new `start`, and what is compared with the timeout is the time before the wait. No file is
  -- created.
  pub passes-IsQuiet :
      (a : Arguments d) (ws : List (Pass p h d c)) (r : Run p h d c)
      → r.ending ≡ none
      → IsQuiet a r.start ws
      → ((passes p h d c a ws r).ending ≡ none)
        × ((passes p h d c a ws r).closed ++ released p h d c (passes p h d c a ws r).writer
            ≡ r.closed ++ released p h d c r.writer)
  unfolding passes pass pass_at on_quiet begin_again release
  passes-IsQuiet a [] r on q = (on, refl)
  passes-IsQuiet a (w ∷ ws) r on (still, soon, q) =
      let same : pass p h d c a w r ≡ begin_again p h d c w r = rw (on, still, soon) refl in
      let (e, k) = passes-IsQuiet a ws (begin_again p h d c w r) on q in
      subst
        (λ s.
          ((passes p h d c a ws s).ending ≡ none)
          × ((passes p h d c a ws s).closed ++ released p h d c (passes p h d c a ws s).writer
              ≡ r.closed ++ released p h d c r.writer))
        (sym same) (e, k ∙ append-nil (r.closed ++ released p h d c r.writer))
