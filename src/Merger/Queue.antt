-- ===== src/Merger/Queue.antt =====
-- mergerApp/src/mergerMain.cpp: `Listener`, its thread, and the events of its subscriptions. A step is what
-- a thread does between two points where it can wait: the call of `pop` or `push` on the queue.
pub mod Served
pub mod Awake
pub mod Stuck
pub mod Full
use bsas_sc.Common.{
  ℕ, zero, suc, ◌+◌, Bool, true, false, not, ◌&&◌, ◌||◌, ◌==◌, ltb, ◌≡◌, if◌then◌else◌, Option,
  none, some, List, [], ◌∷◌, ◌++◌, map, length, set, get_elem?, Text,
}
use bsas_sc.Pvxs.{Pvxs}
use bsas_sc.Align.{TimeAligned}
use bsas_sc.Merger.{Notice, Popped, Next, wait, requeue, cancel, end_listener, listen}

-- `pvxs::client::Subscription`, which is not part of this repository: a queue of its own, that `pop` takes
-- from, and that the library delivers to. The library calls the event function whenever something is
-- delivered to an empty subscription.
pub record Subscriptions (V : Type 0) : Type 1 where
  pub Sub : Type 0
  pub monitor : Text → Sub
  pub name : Sub → Text
  pub pending : Sub → List (Notice V)
  pub pop : Sub → Popped V × Sub
  pub cancel_sub : Sub → Sub
  pub deliver : Sub → Notice V → Sub × Bool
  pub pending-monitor : (n : Text) → pending (monitor n) ≡ []
  pub pop-nil : (s : Sub) → pending s ≡ [] → (pop s).0 ≡ none
  pub pending-pop_nil : (s : Sub) → pending s ≡ [] → pending (pop s).1 ≡ []
  pub pop-cons :
      (s : Sub) (x : Notice V) (xs : List (Notice V)) → pending s ≡ x ∷ xs → (pop s).0 ≡ some x
  pub pending-pop_cons :
      (s : Sub) (x : Notice V) (xs : List (Notice V)) → pending s ≡ x ∷ xs → pending (pop s).1 ≡ xs
  pub deliver-empty : (s : Sub) (x : Notice V) → pending s ≡ [] → (deliver s x).1 ≡ true

-- `QUEUE_SIZE`
abbrev pub queue_size : ℕ
queue_size = 1024

-- Where the thread of the listener stands: at the test of the loop, in `queue_.pop()`, with the item of a
-- subscription, in `queue_.push()` of that item, or behind the loop.
pub data Phase : Type 0 where
  at_test in_pop left_loop : Phase
  holding in_push : ℕ → Phase

-- The phase after `queue_.pop()` has returned an item.
unfoldable pub after_pop : Bool → Option ℕ → Phase
after_pop running none = left_loop
after_pop running (some i) = if running then holding i else left_loop

-- The phase after an item has been worked on.
unfoldable pub after_item : ℕ → Next → Phase
after_item i wait = at_test
after_item i requeue = in_push i
after_item i cancel = in_push i
after_item i end_listener = left_loop

module _ (p : Pvxs) (k : Subscriptions p.Value) where
  open p use {Value}
  open k use {Sub}

  -- `class Listener`. An item of the queue is the number of a subscription, or none for `nullptr`;
  -- `calling` are the event functions that have been called and have not pushed their item yet.
  pub record Listener : Type 0 where
    pub subscriptions : List Sub
    pub queue : List (Option ℕ)
    pub calling : List ℕ
    pub running : Bool
    pub phase : Phase
    pub table : TimeAligned Value

  -- The constructor and `start`.
  unfoldable pub new_listener : List Text → TimeAligned Value → Listener
  new_listener pvlist table = record {
    subscriptions = map k.monitor pvlist;
    queue = [];
    calling = [];
    running = true;
    phase = at_test;
    table = table;
  }

  -- `push` on a queue with a limit waits while it is full.
  unfoldable pub has_room : Listener → Bool
  has_room l = ltb (length l.queue) queue_size

  unfoldable pub push_item : Option ℕ → Listener → Listener
  push_item x l = record l { queue = l.queue ++ x ∷ [] }

  unfoldable pub cancelled : Next → Sub → Sub
  cancelled cancel s = k.cancel_sub s
  cancelled wait s = s
  cancelled requeue s = s
  cancelled end_listener s = s

  -- The body of `try` on the subscription `s`, of number `i`.
  unfoldable pub work_on : Listener → ℕ → Sub → Listener
  work_on l i s =
      let (x, s') = k.pop s in
      let (t, n) = listen p l.table (k.name s) x in
      record l {
        subscriptions = set l.subscriptions i (cancelled n s');
        phase = after_item i n;
        table = t;
      }

  unfoldable pub work_at : Listener → ℕ → Option Sub → Option Listener
  work_at l i none = none
  work_at l i (some s) = some (work_on l i s)

  unfoldable pub pop_from : Listener → List (Option ℕ) → Option Listener
  pop_from l [] = none
  pop_from l (x ∷ queue) = some (record l { queue = queue; phase = after_pop l.running x })

  -- A step of `run`; none where the thread waits or has ended.
  unfoldable pub advance_at : Listener → Phase → Option Listener
  advance_at l at_test = some (record l { phase = if l.running then in_pop else left_loop })
  advance_at l in_pop = pop_from l l.queue
  advance_at l (holding i) = work_at l i (get_elem? l.subscriptions i)
  advance_at l (in_push i) =
      if has_room l then some (record (push_item (some i) l) { phase = at_test }) else none
  advance_at l left_loop = none

  unfoldable pub advance : Listener → Option Listener
  advance l = advance_at l l.phase

  -- Something arrives for the subscription of number `i`.
  unfoldable pub receive_at : Listener → ℕ → Notice Value → Option Sub → Option Listener
  receive_at l i x none = none
  receive_at l i x (some s) =
      let (s', event) = k.deliver s x in
      some (record l {
        subscriptions = set l.subscriptions i s';
        calling = if event then l.calling ++ i ∷ [] else l.calling;
      })

  unfoldable pub receive : Listener → ℕ → Notice Value → Option Listener
  receive l i x = receive_at l i x (get_elem? l.subscriptions i)

  -- The event function pushes its item.
  unfoldable pub run_callback_of : Listener → List ℕ → Option Listener
  run_callback_of l [] = none
  run_callback_of l (i ∷ is) =
      if has_room l then some (record (push_item (some i) l) { calling = is }) else none

  unfoldable pub run_callback : Listener → Option Listener
  run_callback l = run_callback_of l l.calling

  -- `Listener::stop`, its two halves.
  unfoldable pub clear_running : Listener → Listener
  clear_running l = record l { running = false }

  unfoldable pub pump : Listener → Option Listener
  pump l = if has_room l then some (push_item none l) else none

  -- What the threads of the program do to the listener.
  pub data Step (l u : Listener) : Type 0 where
    working : advance l ≡ some u → Step l u
    arriving : (i : ℕ) (x : Notice Value) → receive l i x ≡ some u → Step l u
    calling_back : run_callback l ≡ some u → Step l u
    stopping : clear_running l ≡ u → Step l u
    pumping : pump l ≡ some u → Step l u

  pub data Reach (s : Listener) : Listener → Type 0 where
    here : Reach s s
    next : {t u : Listener} → Reach s t → Step t u → Reach s u
