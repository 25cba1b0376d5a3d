-- ===== src/Archiver/Loop.antt =====
-- writerApp/src/writerMain.cpp: the loops of `main`. A step is one pass of the inner loop; what the program
-- observes in it (the clock, the event, the queue of the subscription, the file system) is its input.
pub mod History
pub mod Draining
pub mod Values
pub mod Endings
pub mod Failures
use bsas_sc.Common.{
  ℕ, ◌/◌, Bool, true, false, not, ◌&&◌, ◌||◌, ◌==◌, leb, ltb, if◌then◌else◌, Option, none, some,
  List, [], ◌∷◌, ◌++◌, take, Text, Result, ok, err, logic_error, runtime_error, ◌>>=◌,
}
use bsas_sc.Stamp.{EpicsTimeStamp}
use bsas_sc.Pvxs.{Pvxs}
use bsas_sc.Merger.Program.{Doubles}
use bsas_sc.Writer.Files.{Hdf5}
use bsas_sc.Writer.{Writer, new_writer, write, get_file_path, contains}
use bsas_sc.Archiver.{
  Arguments, StopReason, exit_code, interrupted, timeout, disconnected, error, Tm, Mkdir,
  create_folder_and_file,
}

-- What `subscription->pop()` gives as long as it is not the empty value; the exception of a connection is
-- masked, that of a disconnection is not.
pub data Update (V : Type 0) : Type 0 where
  value : V → Update V
  disconnect : Update V

-- How the loop over the queue is left: it is empty, `Disconnect` was thrown, or another exception.
pub data Drained : Type 0 where
  emptied lost threw : Drained

-- How the program ends: for a reason, or as it uses a writer that there is not.
pub data Ending : Type 0 where
  stopped : StopReason → Ending
  crashed : Ending

-- The arithmetic of seconds and the calendar, of the C++ compiler and of EPICS.
pub record Clock (d : Doubles) : Type 0 where
  pub minus : d.Double → d.Double → d.Double
  pub diff_in_seconds : EpicsTimeStamp → EpicsTimeStamp → d.Double
  pub to_tm : EpicsTimeStamp → Tm

module _ (p : Pvxs) (h : Hdf5 p.Elem) (d : Doubles) (c : Clock d) where
  open p use {Value}
  open h use {File}
  open d use {Double, zero_sec, lt}
  open c use {minus, diff_in_seconds, to_tm}

  -- What a pass of the inner loop observes: the time at its begin, whether `event.wait` was woken, whether
  -- the program was interrupted, the updates that `pop` gives until the queue is empty, the time at which a
  -- file is created and what the file system says then, the size of the file, and the time at which the
  -- inner loop is begun again.
  pub record Pass : Type 0 where
    pub now : EpicsTimeStamp
    pub woken : Bool
    pub interrupted_ : Bool
    pub updates : List (Update Value)
    pub file_time : EpicsTimeStamp
    pub mkdir : Text → Mkdir
    pub new_file : Text → Result File
    pub st_size : Option ℕ
    pub again : EpicsTimeStamp

  -- `start` and `writer`; `closed` are the writers that were released, oldest first, and `paths` the files
  -- that the program has created.
  pub record Run : Type 0 where
    pub start : EpicsTimeStamp
    pub writer : Option (Writer p h)
    pub closed : List (Writer p h)
    pub paths : List Text
    pub ending : Option Ending

  unfoldable pub new_run : EpicsTimeStamp → Run
  new_run now = record { start = now; writer = none; closed = []; paths = []; ending = none }

  abbrev pub released : Option (Writer p h) → List (Writer p h)
  released none = []
  released (some w) = w ∷ []

  -- `writer` goes out of scope, which closes its file.
  unfoldable pub release : Run → Run
  release r = record r { writer = none; closed = r.closed ++ released r.writer }

  -- `break`, and the next pass of the outer loop.
  unfoldable pub begin_again : Pass → Run → Run
  begin_again w r = record (release r) { start = w.again }

  unfoldable pub finish : StopReason → Run → Run
  finish reason r = record (release r) { ending = some (stopped reason) }

  -- `new H5::File(path, H5F_ACC_EXCL)`: a file that exists is an error.
  unfoldable pub create_file : Pass → Run → Text → Result File
  create_file w r path = if contains path r.paths then err runtime_error else w.new_file path

  -- `writer.reset(new Writer(...))`
  unfoldable pub open_writer : Arguments d → Pass → Run → Result Run
  open_writer a w r =
      create_folder_and_file w.mkdir a.base_directory a.file_prefix (to_tm w.file_time) >>= λ path.
      create_file w r path >>= λ file. ok (record r {
        start = w.file_time;
        writer = some (new_writer p h a.input_pv path file a.root_group a.label_sep a.col_sep);
        paths = r.paths ++ path ∷ [];
      })

  -- `if (!writer) ...`
  unfoldable pub ensure_writer : Arguments d → Pass → Run → Option (Writer p h) → Result Run
  ensure_writer a w r none = open_writer a w r
  ensure_writer a w r (some x) = ok r

  -- `writer->write(v)`
  unfoldable pub write_value : Run → Value → Option (Writer p h) → Result Run
  write_value r v none = err logic_error
  write_value r v (some x) = write p h x v >>= λ y. ok (record r { writer = some y })

  -- The loop over the queue. An exception leaves the writer as it was before the call.
  unfoldable pub drain : Arguments d → Pass → Run → List (Update Value) → Run × Drained
  drain a w r [] = (r, emptied)
  drain a w r (disconnect ∷ us) = (r, lost)
  drain a w r (value v ∷ us) = elim (ensure_writer a w r r.writer) [
    | err e ↦ (r, threw)
    | ok s ↦ elim (write_value s v s.writer) [ err e ↦ (s, threw) | ok t ↦ drain a w t us ]
  ]

  -- The test of the size of the file.
  unfoldable pub check_size : Arguments d → Pass → Run → Option (Writer p h) → Option ℕ → Run
  check_size a w r none size = record r { ending = some crashed }
  check_size a w r (some x) none = finish error r
  check_size a w r (some x) (some n) =
      if leb a.max_size_mb (n / 1024 / 1024) then begin_again w r else r

  unfoldable pub after_drain : Arguments d → Pass → Run × Drained → Run
  after_drain a w (r, emptied) = check_size a w r r.writer w.st_size
  after_drain a w (r, lost) = finish disconnected r
  after_drain a w (r, threw) = finish error r

  -- `event.wait` returned false; whether there is a writer decides only what is logged.
  unfoldable pub on_quiet : Arguments d → Pass → Run → Run
  on_quiet a w r =
      if lt a.timeout_sec (diff_in_seconds w.now r.start) then finish timeout r else begin_again w r

  unfoldable pub on_event : Arguments d → Pass → Run → Run
  on_event a w r =
      if w.interrupted_ then finish interrupted r else after_drain a w (drain a w r w.updates)

  -- How long `event.wait` waits.
  unfoldable pub wait_for_sec : Arguments d → Pass → Run → Double
  wait_for_sec a w r =
      let elapsed = diff_in_seconds w.now r.start in
      let left =
        if lt zero_sec a.max_duration_sec
        then minus a.max_duration_sec elapsed
        else a.timeout_sec in
      if lt left a.timeout_sec then left else a.timeout_sec

  unfoldable pub pass_at : Arguments d → Pass → Run → Option Ending → Run
  pass_at a w r (some e) = r
  pass_at a w r none = if w.woken then on_event a w r else on_quiet a w r

  unfoldable pub pass : Arguments d → Pass → Run → Run
  pass a w r = pass_at a w r r.ending

  unfoldable pub passes : Arguments d → List Pass → Run → Run
  passes a [] r = r
  passes a (w ∷ ws) r = passes a ws (pass a w r)

-- The value that `main` returns, if it returns.
unfoldable pub main_result : Option Ending → Option ℕ
main_result none = none
main_result (some (stopped reason)) = some (exit_code reason)
main_result (some crashed) = none
