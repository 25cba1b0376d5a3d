-- ===== src/Merger/Program.antt =====
-- mergerApp/src/mergerMain.cpp: `Runnable`, the arguments and the file of PV names, and the end of `main`.
pub mod Arguments
pub mod Shutdown
use bsas_sc.Common.{
  ℕ, ◌+◌, ltb, Bool, true, false, not, ◌&&◌, ◌||◌, ◌==◌, ◌≡◌, if◌then◌else◌, Option, none, some,
  List, [], ◌∷◌, ◌++◌, Text, Result, ok, err, assertion, ◌>>=◌, ◌>>◌, guard,
}
use bsas_sc.Merger.Queue.{queue_size}
use mathlib.Core.Option
use bsas_sc.Align.{TimeAligned, time_aligned}

-- The two objects whose threads `main` starts.
pub data Worker : Type 0 where
  listener reactor : Worker

abbrev pub same_worker : Worker → Worker → Bool
same_worker listener listener = true
same_worker reactor reactor = true
same_worker listener reactor = false
same_worker reactor listener = false

-- The fields of the two `Runnable`s, the queue `dead_` that they share, the threads that were waited for by
-- `exitWait`, and how many items the queue of the listener holds.
pub record Workers : Type 0 where
  pub listener_running : Bool
  pub reactor_running : Bool
  pub dead : List Worker
  pub joined : List Worker
  pub queued : ℕ

-- The constructors.
unfoldable pub new_workers : Workers
new_workers = record {
  listener_running = false;
  reactor_running = false;
  dead = [];
  joined = [];
  queued = 0;
}

unfoldable pub is_running : Worker → Workers → Bool
is_running listener s = s.listener_running
is_running reactor s = s.reactor_running

unfoldable pub set_running : Worker → Bool → Workers → Workers
set_running listener b s = record s { listener_running = b }
set_running reactor b s = record s { reactor_running = b }

-- `dead_->push(this)`
unfoldable pub push_dead : Worker → Workers → Workers
push_dead w s = record s { dead = s.dead ++ w ∷ [] }

-- `Runnable::start`
unfoldable pub start : Worker → Workers → Workers
start w s = set_running w true s

-- `Runnable::stopped`
unfoldable pub stopped : Worker → Workers → Workers
stopped w s = push_dead w (set_running w false s)

-- `thread_.exitWait(delay)`
unfoldable pub exit_wait : Worker → Workers → Workers
exit_wait w s = record s { joined = s.joined ++ w ∷ [] }

-- `Runnable::stop`
unfoldable pub stop_runnable : Worker → Workers → Workers
stop_runnable w s = if is_running w s then push_dead w (exit_wait w (set_running w false s)) else s

-- `Listener::stop`; `none` where `queue_.emplace` waits, as the queue is full.
unfoldable pub stop_listener : Workers → Option Workers
stop_listener s =
    if ltb s.queued queue_size
    then some
        (stop_runnable listener (record (set_running listener false s) { queued = s.queued + 1 }))
    else none

-- The end of `main`, from `dead_queue->pop()` on, which waits while the queue is empty.
unfoldable pub stop_others : Worker → Workers → Option Workers
stop_others first s =
    let stopped_listener = if not (same_worker listener first) then stop_listener s else some s in
    Option.map (λ t. if not (same_worker reactor first) then stop_runnable reactor t else t)
      stopped_listener

unfoldable pub shut_down_from : Workers → List Worker → Option Workers
shut_down_from s [] = none
shut_down_from s (first ∷ rest) = stop_others first (record s { dead = rest })

unfoldable pub shut_down : Workers → Option Workers
shut_down s = shut_down_from s s.dead

-- The lines that `std::getline` reads: each ends at a newline, and the last one is there only if it has
-- characters.
unfoldable pub lines_from : Text → Text → List Text
lines_from line [] = elim line [ [] ↦ [] | c ∷ cs ↦ (c ∷ cs) ∷ [] ]
lines_from line (c ∷ cs) = elim (c == 10) [
  | true ↦ line ∷ lines_from [] cs
  | false ↦ lines_from (line ++ c ∷ []) cs
]

-- `pvlist_from_file`, on the contents of the file.
unfoldable pub pvlist_from_file : Text → List Text
pvlist_from_file contents = lines_from [] contents

-- Floating point numbers, as `main` and the constructor of `Reactor` test them.
pub record Doubles : Type 1 where
  pub Double : Type 0
  pub zero_sec : Double
  pub lt : Double → Double → Bool
  pub eq : Double → Double → Bool
  pub lt_asymm : (a b : Double) → lt a b ≡ true → lt b a ≡ false
  pub eq_of_lt : (a b : Double) → lt a b ≡ true → eq b a ≡ false
  pub lt_trans : (a b c : Double) → lt a b ≡ true → lt b c ≡ true → lt a c ≡ true
  pub lt_of_eq : (a b : Double) → eq a b ≡ true → (lt a b ≡ false) × (lt b a ≡ false)

module _ (d : Doubles) where
  open d use {Double, zero_sec, lt, eq}

  -- `a <= b`
  abbrev pub le : Double → Double → Bool
  le a b = lt a b || eq a b

  -- The two `VALIDATE_ARG`: whether both pass.
  unfoldable pub validate_args : Double → Double → Bool
  validate_args period timeout =
      not (le period zero_sec)
      && not (lt timeout zero_sec || lt zero_sec timeout && lt timeout period)

  -- The assertions of the constructor of `Reactor`.
  unfoldable pub check_reactor : Double → Double → Result (Unit {0})
  check_reactor period timeout =
      guard (lt zero_sec period) assertion
      >> guard (eq timeout zero_sec || lt period timeout) assertion

  -- `main` up to the start of the threads: the table that they share, or `none` where it returns 1.
  unfoldable pub set_up :
      {V : Type 0} → Text → Double → Double → Text → Text → Result (Option (TimeAligned V))
  set_up pvlist_file period timeout label_sep col_sep =
      if validate_args period timeout
      then check_reactor period timeout
        >> ok (some (time_aligned (pvlist_from_file pvlist_file) label_sep col_sep))
      else ok none
