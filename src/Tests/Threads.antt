-- ===== src/Tests/Threads.antt =====
-- The theorems on the threads of the merger at concrete inputs. A subscription is its name and its queue.
use bsas_sc.Common.{
  ℕ, suc, ltb, ◌==◌, Bool, true, false, ◌≡◌, ◌⊎◌, inr, refl, Option, none, some, List, [], ◌∷◌,
  ◌++◌, Text, codes, ok, err, assertion, length, replicate, length-replicate, ap, arith,
}
use bsas_sc.Stamp.{EpicsTimeStamp}
use bsas_sc.Pvxs.Concrete.{simple, Table}
use bsas_sc.Align.{TimeAligned, time_aligned}
use bsas_sc.Merger.{Notice, connected, update, Popped}
use bsas_sc.Merger.Queue.{
  receive_at, Subscriptions, queue_size, in_pop, in_push, Listener, new_listener, receive, Reach,
  here, next, arriving,
}
use bsas_sc.Merger.Queue.Served.{awake_at}
use bsas_sc.Merger.Queue.Awake.{Reach-IsAwake}
use bsas_sc.Merger.Queue.Stuck.{Idle}
use bsas_sc.Merger.Queue.Full.{full_queue-Idle}
use bsas_sc.Merger.Program.{reactor, Workers, Doubles, set_up}
use bsas_sc.Merger.Program.Arguments.{file_of, last_line, set_up_lem}
use bsas_sc.Merger.System
use bsas_sc.Merger.System.{System, start_system, ended, react, react_at, prepare_step, with_table}
use bsas_sc.Merger.System.Posted.{IsPosted, Reach-IsPosted}
use bsas_sc.Tests.{epics, two_rows}
use bsas_sc.Tests.Merging.{whole_seconds}

record Subscription : Type 0 where
  title : Text
  waiting : List (Notice Table)

abbrev first_of : List (Notice Table) → Popped Table
first_of [] = none
first_of (x ∷ xs) = some x

abbrev rest_of : List (Notice Table) → List (Notice Table)
rest_of [] = []
rest_of (x ∷ xs) = xs

abbrev is_empty : List (Notice Table) → Bool
is_empty [] = true
is_empty (x ∷ xs) = false

abbrev queues : Subscriptions Table
queues = record {
  Sub = Subscription;
  monitor = λ n. record { title = n; waiting = [] };
  name = λ s. s.title;
  pending = λ s. s.waiting;
  pop = λ s. (first_of s.waiting, record s { waiting = rest_of s.waiting });
  cancel_sub = λ s. s;
  deliver = λ s x. (record s { waiting = s.waiting ++ x ∷ [] }, is_empty s.waiting);
  pending-monitor = λ n. refl;
  pop-nil = λ s e. ap first_of e;
  pending-pop_nil = λ s e. ap rest_of e;
  pop-cons = λ s x xs e. ap first_of e;
  pending-pop_cons = λ s x xs e. ap rest_of e;
  deliver-empty = λ s x e. ap is_empty e;
}

abbrev pvs : List Text
pvs = codes "A" ∷ codes "B" ∷ []

abbrev merged : TimeAligned Table
merged = time_aligned pvs (codes ".") (codes "_")

-- The second PV has connected, and its event function was called.
abbrev sub_b : Subscription
sub_b = record { title = codes "B"; waiting = connected ∷ [] }

abbrev after_connect : Listener simple queues
after_connect = record (new_listener simple queues pvs merged) {
  subscriptions = record { title = codes "A"; waiting = [] } ∷ sub_b ∷ [];
  calling = 1 ∷ [];
}

Reach-IsAwake_example :
    (queues.pending sub_b ≡ [])
    ⊎ (awake_at after_connect.queue after_connect.calling after_connect.phase 1 ≡ true)
unfolding receive receive_at new_listener
Reach-IsAwake_example =
    Reach-IsAwake simple queues pvs merged after_connect 1 sub_b
      (next here (arriving 1 connected refl)) refl

-- The queue is full, and the first item is that of the second PV.
abbrev others : List (Option ℕ)
others = replicate 1023 (some 0)

abbrev crowded : Listener simple queues
crowded = record after_connect { queue = some 1 ∷ others; calling = []; phase = in_pop }

crowded-length : length crowded.queue ≡ queue_size
crowded-length = ap suc (length-replicate {A = Option ℕ} 1023 (some 0))

full_queue-Idle_example :
    (u : Listener simple queues) × Reach simple queues crowded u
    × (u.phase ≡ in_push 1)
    × ((v : Listener simple queues) → Reach simple queues u v → Idle simple queues u v)
unfolding new_listener
full_queue-Idle_example =
    full_queue-Idle simple queues crowded 1 sub_b others (update two_rows) refl refl refl
      crowded-length refl refl refl

-- The reactor has stopped, the listener runs, and its queue is full.
abbrev reactor_dead : Workers
reactor_dead = record {
  listener_running = true;
  reactor_running = false;
  dead = reactor ∷ [];
  joined = [];
  queued = 1024;
}

pub ltb_asymm : (a b : ℕ) → ltb a b ≡ true → ltb b a ≡ false
ltb_asymm a b h = ground arith

pub eq_of_ltb : (a b : ℕ) → ltb a b ≡ true → (b == a) ≡ false
eq_of_ltb a b h = ground arith

pub ltb_trans : (a b c : ℕ) → ltb a b ≡ true → ltb b c ≡ true → ltb a c ≡ true
ltb_trans a b c h k = ground arith

pub ltb_of_eq : (a b : ℕ) → (a == b) ≡ true → (ltb a b ≡ false) × (ltb b a ≡ false)
ltb_of_eq a b h = (ground arith, ground arith)

-- Seconds as whole numbers.
abbrev pub whole : Doubles
whole = record {
  Double = ℕ;
  zero_sec = 0;
  lt = ltb;
  eq = ◌==◌;
  lt_asymm = ltb_asymm;
  eq_of_lt = eq_of_ltb;
  lt_trans = ltb_trans;
  lt_of_eq = ltb_of_eq;
}

-- A period of two seconds, with timeouts of three seconds, one second and two seconds.
set_up_lem_example :
    (set_up whole {V = Table}
        (file_of ((1 ∷ 2 ∷ []) ∷ (3 ∷ []) ∷ []) ++ 4 ∷ [])
        2
        3
        (46 ∷ [])
        (95 ∷ [])
      ≡ ok (
          some (
            time_aligned
              (((1 ∷ 2 ∷ []) ∷ (3 ∷ []) ∷ []) ++ last_line (4 ∷ []))
              (46 ∷ [])
              (95 ∷ []))))
    × (set_up whole {V = Table}
          (file_of ((1 ∷ 2 ∷ []) ∷ (3 ∷ []) ∷ []) ++ 4 ∷ [])
          2
          1
          (46 ∷ [])
          (95 ∷ [])
        ≡ ok none)
    × (set_up whole {V = Table}
          (file_of ((1 ∷ 2 ∷ []) ∷ (3 ∷ []) ∷ []) ++ 4 ∷ [])
          2
          2
          (46 ∷ [])
          (95 ∷ [])
        ≡ err assertion)
set_up_lem_example =
    set_up_lem whole {V = Table} ((1 ∷ 2 ∷ []) ∷ (3 ∷ []) ∷ []) (4 ∷ []) (46 ∷ []) (95 ∷ []) 2 3 1 2
      (((λ e. omega arith), ((λ e. omega arith), tt)), (((λ e. omega arith), tt), tt))
      ((λ e. omega arith), tt) refl (inr refl) refl refl refl refl refl

abbrev at_zero : EpicsTimeStamp
at_zero = record { sec_past_epoch = 0; nsec = 0 }

-- The program was stopped before any PV had connected.
abbrev gave_up : System simple queues epics whole_seconds
gave_up = record {
  listener = new_listener simple queues pvs merged;
  running = false;
  phase = ended;
  last_update = at_zero;
  opened = none;
  posted = [];
}

Reach-IsPosted_example : IsPosted simple queues epics whole_seconds gave_up
unfolding start_system react react_at prepare_step
Reach-IsPosted_example =
    Reach-IsPosted simple queues epics whole_seconds 2 3 pvs merged at_zero gave_up
      (System.next (System.next System.here (System.stopping refl)) (System.reacting at_zero refl))
