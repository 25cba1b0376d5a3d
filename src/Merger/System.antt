-- ===== src/Merger/System.antt =====
-- mergerApp/src/mergerMain.cpp: `Reactor`, its thread, and the whole merger: the threads of the listener and
-- of the reactor share the table. A step of the reactor is what it does between two calls of the table.
pub mod Typed
pub mod Posted
use bsas_sc.Common.{
  ℕ, Bool, true, false, not, ◌&&◌, ◌≡◌, if◌then◌else◌, Option, none, some, List, [], ◌∷◌, ◌++◌,
  Text, Result, ok, err, bad_access, ◌>>=◌, or_fail,
}
use bsas_sc.Stamp.{EpicsTime, EpicsTimeStamp, TimeStamp}
use bsas_sc.Pvxs.{Pvxs}
use bsas_sc.Align.{TimeAligned, create, extract}
use bsas_sc.Merger.{
  EpicsClock, keeps_waiting, prepare, Reactor, Decision, timed_out, sleep, extract_range, decide,
}
use bsas_sc.Merger.Queue.{Subscriptions, Listener, new_listener}
use bsas_sc.Merger.Queue

-- Where the thread of the reactor stands: in the loop of `prepare`, which began at that time, before the PV
-- is opened, at the test of the loop of `run`, before the call of `extract`, or behind the loop.
pub data ReactorPhase : Type 0 where
  preparing : EpicsTimeStamp → ReactorPhase
  opening at_loop ended : ReactorPhase
  extracting : TimeStamp → TimeStamp → ReactorPhase

module _ (p : Pvxs) (k : Subscriptions p.Value) (e : EpicsTime) (c : EpicsClock e) where
  open p use {Value}
  open c use {Double}

  -- `opened` is the value given to `pv_.open`, `posted` are those given to `pv_.post`, oldest first.
  pub record System : Type 0 where
    pub listener : Listener p k
    pub running : Bool
    pub phase : ReactorPhase
    pub last_update : EpicsTimeStamp
    pub opened : Option Value
    pub posted : List Value

  -- `main` once it has started both threads at the time `now`.
  unfoldable pub start_system : List Text → TimeAligned Value → EpicsTimeStamp → System
  start_system pvlist table now = record {
    listener = new_listener p k pvlist table;
    running = true;
    phase = preparing now;
    last_update = now;
    opened = none;
    posted = [];
  }

  unfoldable pub with_table : System → TimeAligned Value → System
  with_table s t = record s { listener = record (s.listener) { table = t } }

  -- The loop of `prepare`, and its end.
  unfoldable pub prepare_step : Double → EpicsTimeStamp → EpicsTimeStamp → System → Result System
  prepare_step timeout start now s =
      let waits = s.running && keeps_waiting p e c timeout start now s.listener.table in
      let prepared = prepare p e c s.listener.table >>= λ (t, go_on).
      ok (record (with_table s t) { phase = if go_on then opening else ended }) in
      if waits then ok s else if s.running then prepared else ok (record s { phase = ended })

  -- `create` and `pv_.open`.
  unfoldable pub open_step : EpicsTimeStamp → System → Result System
  open_step now s = or_fail (create p s.listener.table) bad_access >>= λ initial.
      ok (record s { phase = at_loop; last_update = now; opened = some initial })

  abbrev pub phase_of : Decision p e c → ReactorPhase
  phase_of timed_out = ended
  phase_of sleep = at_loop
  phase_of (extract_range start end) = extracting start end

  -- The tests of a round of `run`.
  unfoldable pub loop_step : Double → Double → EpicsTimeStamp → System → System
  loop_step period timeout now s =
      let view : Reactor p e c = record {
        table = s.listener.table;
        last_update = s.last_update;
        posted = s.posted;
      } in
      record s {
        phase = if s.running then phase_of (decide p e c period timeout now view) else ended;
      }

  -- `extract` and `pv_.post`.
  unfoldable pub extract_step : TimeStamp → TimeStamp → EpicsTimeStamp → System → Result System
  extract_step start end now s = extract p e s.listener.table start end >>= λ (t, value).
      ok (record (with_table s t) {
        phase = at_loop;
        last_update = now;
        posted = s.posted ++ value ∷ [];
      })

  -- A step of the reactor at the time `now`. An exception ends the program.
  unfoldable pub react_at : Double → Double → EpicsTimeStamp → System → ReactorPhase → Result System
  react_at period timeout now s (preparing start) = prepare_step timeout start now s
  react_at period timeout now s opening = open_step now s
  react_at period timeout now s at_loop = ok (loop_step period timeout now s)
  react_at period timeout now s (extracting start end) = extract_step start end now s
  react_at period timeout now s ended = ok s

  unfoldable pub react : Double → Double → EpicsTimeStamp → System → Result System
  react period timeout now s = react_at period timeout now s s.phase

  -- The steps of the program, in any order.
  pub data Step (period timeout : Double) (s u : System) : Type 0 where
    reacting : (now : EpicsTimeStamp) → react period timeout now s ≡ ok u → Step period timeout s u
    listening :
        (l : Listener p k)
        → Queue.Step p k s.listener l
        → record s { listener = l } ≡ u
        → Step period timeout s u
    stopping : record s { running = false } ≡ u → Step period timeout s u

  pub data Reach (period timeout : Double) (s : System) : System → Type 0 where
    here : Reach period timeout s s
    next :
        {t u : System}
        → Reach period timeout s t
        → Step period timeout t u
        → Reach period timeout s u
