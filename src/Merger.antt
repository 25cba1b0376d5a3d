-- ===== src/Merger.antt =====
-- mergerApp/src/mergerMain.cpp: the work of `Listener::run` on one item of its queue, and of
-- `Reactor::prepare` and `Reactor::run` between two tests of `running_`. Merger/Queue and Merger/System
-- put these together to the threads of the program; each call of the table is one step, under its lock.
pub mod Rounds
pub mod Ranges
pub mod Progress
pub mod Queue
pub mod Program
pub mod System
use bsas_sc.Common.{
  Bool, true, false, not, ◌&&◌, ◌||◌, ◌==◌, ◌≡◌, if◌then◌else◌, Option, none, some, List, [], ◌∷◌,
  ◌++◌, Text, Result, ok, err, Error, logic_error, runtime_error, out_of_range, assertion,
  bad_access, bad_type, ◌>>=◌, ◌>>◌, guard, or_fail,
}
use bsas_sc.Stamp.{EpicsTime, EpicsTimeStamp, TimeStamp}
use bsas_sc.Stamp.Span.{TimeSpan, TimeBounds, time_span_of}
use bsas_sc.Pvxs.{Pvxs}
use bsas_sc.Align.{TimeAligned, is_initialized, force_initialize, get_timebounds, create, extract}
use bsas_sc.Align

-- Times in seconds, as floating point numbers, and what the code uses of them: `a < b`, the difference of
-- two times, `epicsTimeAddSeconds`. A difference is not negative if the first time is not the earlier.
pub record EpicsClock (e : EpicsTime) : Type 1 where
  pub Double : Type 0
  pub zero_sec : Double
  pub lt : Double → Double → Bool
  pub diff_in_seconds : EpicsTimeStamp → EpicsTimeStamp → Double
  pub add_seconds : EpicsTimeStamp → Double → EpicsTimeStamp
  pub lt_irrefl : (d : Double) → lt d d ≡ false
  pub diff_not_negative :
      (a b : EpicsTimeStamp)
      → e.time_less_than a b ≡ false
      → lt (diff_in_seconds a b) zero_sec ≡ false

-- What a subscription delivers: a value, or one of the two exceptions of a connection.
pub data Notice (V : Type 0) : Type 0 where
  connected disconnected : Notice V
  update : V → Notice V

-- What `sub->pop()` gives; `none` is the empty value.
abbrev pub Popped : Type 0 → Type 0
Popped V = Option (Notice V)

-- What becomes of the subscription: it waits for its next event, goes back to the queue, is cancelled and
-- goes back to the queue; or the listener ends.
pub data Next : Type 0 where
  wait requeue cancel end_listener : Next

-- The `catch` clauses around `push`; what they do not name ends the program.
unfoldable pub catch_push : Result (Unit {0}) → Next
catch_push (ok done) = requeue
catch_push (err out_of_range) = cancel
catch_push (err runtime_error) = end_listener
catch_push (err logic_error) = end_listener
catch_push (err assertion) = end_listener
catch_push (err bad_access) = end_listener
catch_push (err bad_type) = end_listener

module _ (p : Pvxs) where
  open p use {Value}

  -- One item of the queue of `Listener::run`, from the subscription to `name`.
  unfoldable pub listen : TimeAligned Value → Text → Popped Value → TimeAligned Value × Next
  listen t name none = (t, wait)
  listen t name (some connected) = (t, requeue)
  listen t name (some disconnected) = (t, requeue)
  listen t name (some (update value)) = let (u, r) = Align.push p t name value in (u, catch_push r)

  module _ (e : EpicsTime) (c : EpicsClock e) where
    open c use {Double, zero_sec, lt, diff_in_seconds, add_seconds}

    -- The condition of the loop of `prepare`; `timeout_ == 0` is `!(timeout_ > 0)` for a timeout that the
    -- constructor admits.
    unfoldable pub keeps_waiting :
        Double → EpicsTimeStamp → EpicsTimeStamp → TimeAligned Value → Bool
    keeps_waiting timeout start_ts now_ts t =
        (not (lt zero_sec timeout) || lt (diff_in_seconds now_ts start_ts) timeout)
        && not (is_initialized t)

    -- The end of `prepare`, once the loop is left and the thread is still running.
    unfoldable pub prepare : TimeAligned Value → Result (TimeAligned Value × Bool)
    prepare t = do
      (u, remaining) ← force_initialize t
      if remaining == 0 then ok (u, false) else guard (is_initialized u) logic_error >> ok (u, true)

    -- `class Reactor`; `posted` are the values given to `pv_.post`, oldest first.
    pub record Reactor : Type 0 where
      pub table : TimeAligned Value
      pub last_update : EpicsTimeStamp
      pub posted : List Value

    -- What a round of `run` does: it stops, sleeps, or extracts a range.
    pub data Decision : Type 0 where
      timed_out sleep : Decision
      extract_range : TimeStamp → TimeStamp → Decision

    -- `TimeSpan::span_sec`
    abbrev pub span_sec : TimeSpan → Double
    span_sec s = diff_in_seconds s.end.ts s.start.ts

    unfoldable pub decide_bounds : Double → Double → TimeBounds → Decision
    unfolding time_span_of
    decide_bounds period timeout bounds =
        let shortest = time_span_of bounds.earliest_start bounds.earliest_end in
        let longest = time_span_of bounds.earliest_start bounds.latest_end in
        let start = bounds.earliest_start in
        if not bounds.valid
        then sleep
        else if lt (span_sec shortest) period && lt (span_sec longest) timeout
        then sleep
        else extract_range start (record start { ts = add_seconds start.ts period })

    unfoldable pub decide : Double → Double → EpicsTimeStamp → Reactor → Decision
    decide period timeout now s =
        if lt zero_sec timeout && lt timeout (diff_in_seconds now s.last_update)
        then timed_out
        else decide_bounds period timeout (get_timebounds e s.table)

    -- A round at the time `now`; `later` is the time after the post. `none` where the loop is left.
    unfoldable pub round :
        Double → Double → EpicsTimeStamp → EpicsTimeStamp → Reactor → Result (Option Reactor)
    round period timeout now later s = elim (decide period timeout now s) [
      | timed_out ↦ ok none
      | sleep ↦ ok (some s)
      | extract_range start end ↦ do
        (t, value) ← extract p e s.table start end
        ok (some (record { table = t; last_update = later; posted = s.posted ++ value ∷ [] }))
    ]
