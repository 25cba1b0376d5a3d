-- ===== src/Archiver/Loop/Failures.antt =====
-- How the program fails, where it should go on.
use bsas_sc.Common.{
  ℕ, ◌/◌, leb, true, false, ◌≡◌, refl, sym, ◌∙◌, ap, if◌then◌else◌, none, some, List, [], ◌∷◌, ◌++◌,
  take, Text, Result, ok, err, Error, runtime_error, ◌>>=◌,
}
use bsas_sc.Pvxs.{Pvxs}
use bsas_sc.Merger.Program.{Doubles}
use bsas_sc.Writer.Files.{Hdf5}
use bsas_sc.Writer.{Writer, new_writer, contains}
use bsas_sc.Archiver.{
  Arguments, interrupted, error, create_folder_and_file, make_dirs, output_file_max, printed_path,
}
use bsas_sc.Archiver.Loop.{
  Update, value, emptied, threw, stopped, crashed, Clock, Pass, Run, release, begin_again, finish,
  create_file, open_writer, ensure_writer, write_value, drain, check_size, after_drain, on_quiet,
  on_event, pass_at, pass, passes,
}
use bsas_sc.Archiver.Loop.Endings.{ending_of, drain-ending}

module _ (p : Pvxs) (h : Hdf5 p.Elem) (d : Doubles) (c : Clock d) where
  open p use {Value}
  open d use {zero_sec, lt}
  open c use {minus, diff_in_seconds}

  pass-event :
      (a : Arguments d) (w : Pass p h d c) (r : Run p h d c)
      → r.ending ≡ none
      → w.woken ≡ true
      → w.interrupted_ ≡ false
      → pass p h d c a w r ≡ after_drain p h d c a w (drain p h d c a w r w.updates)
  unfolding pass pass_at on_event
  pass-event a w r on woken calm =
      ap (pass_at p h d c a w r) on
      ∙ ap (λ b. if b then on_event p h d c a w r else on_quiet p h d c a w r) woken
      ∙ ap
          (λ b.
            if b
            then finish p h d c interrupted r
            else after_drain p h d c a w (drain p h d c a w r w.updates))
          calm

  open_writer-err :
      (a : Arguments d) (w : Pass p h d c) (r : Run p h d c)
      → contains
          (take output_file_max (printed_path a.base_directory a.file_prefix (c.to_tm w.file_time)))
          r.paths
        ≡ true
      → (e : Error) × (open_writer p h d c a w r ≡ err e)
  unfolding open_writer create_folder_and_file create_file
  open_writer-err a w r found = by_dirs (make_dirs w.mkdir a.base_directory _)
    where
      path : Text
      path =
          take output_file_max (printed_path a.base_directory a.file_prefix (c.to_tm w.file_time))

      opened : Text → Result (Run p h d c)
      opened q = create_file p h d c w r q >>= λ file. ok (record r {
        start = w.file_time;
        writer = some (new_writer p h a.input_pv q file a.root_group a.label_sep a.col_sep);
        paths = r.paths ++ q ∷ [];
      })

      by_dirs : (q : Result Text) → (e : Error) × (((q >>= λ dir. ok path) >>= opened) ≡ err e)
      by_dirs (err e) = (e, refl)
      by_dirs (ok dir) = (runtime_error, rw (found) refl)

  -- If no file is open, a woken pass without an interruption finds a value, and the path for its time is
  -- that of a file which the program has created before, the file cannot be created and the program ends
  -- with the reason `ERROR`.
  pub pass-same_second :
      (a : Arguments d) (w : Pass p h d c) (r : Run p h d c) (v : Value) (us : List (Update Value))
      → r.ending ≡ none
      → w.woken ≡ true
      → w.interrupted_ ≡ false
      → r.writer ≡ none
      → w.updates ≡ value v ∷ us
      → contains
          (take output_file_max (printed_path a.base_directory a.file_prefix (c.to_tm w.file_time)))
          r.paths
        ≡ true
      → (pass p h d c a w r).ending ≡ some (stopped error)
  unfolding drain after_drain finish ensure_writer
  pass-same_second a w r v us on woken calm closed some_left found =
      let (e, failed) = open_writer-err a w r found in
      ap (λ t. t.ending)
        (pass-event a w r on woken calm
          ∙ ap (λ xs. after_drain p h d c a w (drain p h d c a w r xs)) some_left
          ∙ ap after_ensuring (ap (ensure_writer p h d c a w r) closed ∙ failed))
    where
      after_ensuring : Result (Run p h d c) → Run p h d c
      after_ensuring q = after_drain p h d c a w (elim q [
        | err e ↦ (r, threw)
        | ok s ↦ elim (write_value p h d c s v s.writer) [
          | err e ↦ (s, threw)
          | ok t ↦ drain p h d c a w t us
        ]
      ])

  -- Where a woken pass without an interruption empties the queue and leaves a file open that has reached
  -- its maximal size, and the next pass is woken without an interruption and finds no update, the program
  -- asks the writer that is no longer there for its path.
  pub passes-crashed :
      (a : Arguments d) (w x : Pass p h d c) (r s : Run p h d c) (y : Writer p h) (n : ℕ)
      → r.ending ≡ none
      → w.woken ≡ true
      → w.interrupted_ ≡ false
      → drain p h d c a w r w.updates ≡ (s, emptied)
      → s.writer ≡ some y
      → w.st_size ≡ some n
      → leb a.max_size_mb (n / 1024 / 1024) ≡ true
      → x.woken ≡ true
      → x.interrupted_ ≡ false
      → x.updates ≡ []
      → (passes p h d c a (w ∷ x ∷ []) r).ending ≡ some crashed
  unfolding passes after_drain check_size begin_again release drain
  passes-crashed a w x r s y n on woken calm ran held size full woken2 calm2 nothing =
      let first =
        pass-event a w r on woken calm
        ∙ ap (after_drain p h d c a w) ran
        ∙ ap (λ o. check_size p h d c a w s o w.st_size) held
        ∙ ap (check_size p h d c a w s (some y)) size
        ∙ ap (λ b. if b then begin_again p h d c w s else s) full in
      let off : s.ending ≡ none =
        ap (ending_of p h d c) (sym ran) ∙ drain-ending p h d c a w r w.updates ∙ on in
      let second =
        pass-event a x (begin_again p h d c w s) off woken2 calm2
        ∙ ap (λ us. after_drain p h d c a x (drain p h d c a x (begin_again p h d c w s) us))
            nothing in
      ap (λ t. t.ending) (ap (pass p h d c a x) first ∙ second)
