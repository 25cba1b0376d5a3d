-- ===== src/Merger/Queue/Full.antt =====
-- How the listener comes to wait forever.
use bsas_sc.Common.{
  ℕ, true, ltb, ◌≡◌, refl, sym, ◌∙◌, ap, Option, some, List, [], ◌∷◌, length, set, get_elem?,
  get_elem?-set_found, ◌++◌, length-append, suc, arith,
}
use bsas_sc.Pvxs.{Pvxs}
use bsas_sc.Merger.{Notice, connected, listen}
use bsas_sc.Merger.Queue.{
  Subscriptions, queue_size, in_push, in_pop, holding, pop_from, after_pop, work_at, work_on,
  after_item, cancelled, push_item, Listener, has_room, advance, advance_at, receive, receive_at,
  run_callback, run_callback_of, working, arriving, calling_back, Reach, here, next,
}
use bsas_sc.Merger.Queue.Stuck.{IsStuck, Idle, Reach-Idle}

module _ (p : Pvxs) (k : Subscriptions p.Value) where
  -- The steps from a full queue: the thread takes an item, works on it, and before it puts it back
  -- something arrives for the same subscription.
  taken : (l : Listener p k) (i : ℕ) (rest : List (Option ℕ)) → Listener p k
  taken l i rest = record l { queue = rest; phase = holding i }

  worked : (l : Listener p k) (i : ℕ) (s : k.Sub) (rest : List (Option ℕ)) → Listener p k
  worked l i s rest = record l {
    queue = rest;
    phase = in_push i;
    subscriptions = set l.subscriptions i (k.pop s).1;
  }

  called_again :
      (l : Listener p k) (i : ℕ) (s : k.Sub) (rest : List (Option ℕ)) (x : Notice p.Value)
      → Listener p k
  called_again l i s rest x = record l {
    queue = rest;
    phase = in_push i;
    subscriptions = set (set l.subscriptions i (k.pop s).1) i (k.deliver (k.pop s).1 x).0;
    calling = i ∷ [];
  }

  refilled :
      (l : Listener p k) (i : ℕ) (s : k.Sub) (rest : List (Option ℕ)) (x : Notice p.Value)
      → Listener p k
  unfolding called_again
  refilled l i s rest x = record (called_again l i s rest x) {
    queue = rest ++ some i ∷ [];
    calling = [];
  }

  step_taken :
      (l : Listener p k) (i : ℕ) (rest : List (Option ℕ))
      → l.running ≡ true
      → l.phase ≡ in_pop
      → l.queue ≡ some i ∷ rest
      → advance p k l ≡ some (taken l i rest)
  unfolding advance advance_at pop_from after_pop taken
  step_taken l i rest on at q = ap (advance_at p k l) at ∙ ap (pop_from p k l) q ∙ simp (on) refl

  step_worked :
      (l : Listener p k) (i : ℕ) (s : k.Sub) (rest : List (Option ℕ))
      → get_elem? l.subscriptions i ≡ some s
      → k.pending s ≡ connected ∷ []
      → advance p k (taken l i rest) ≡ some (worked l i s rest)
  unfolding advance advance_at work_at work_on listen after_item cancelled taken worked
  step_worked l i s rest at w =
      ap (work_at p k (taken l i rest) i) at ∙ rw (k.pop-cons s connected [] w) refl

  step_called_again :
      (l : Listener p k) (i : ℕ) (s : k.Sub) (rest : List (Option ℕ)) (x : Notice p.Value)
      → get_elem? l.subscriptions i ≡ some s
      → k.pending s ≡ connected ∷ []
      → l.calling ≡ []
      → receive p k (worked l i s rest) i x ≡ some (called_again l i s rest x)
  unfolding receive receive_at worked called_again
  step_called_again l i s rest x at w none_called =
      ap (receive_at p k (worked l i s rest) i x)
        (get_elem?-set_found l.subscriptions i (k.pop s).1 at)
      ∙ rw (k.deliver-empty (k.pop s).1 x (k.pending-pop_cons s connected [] w))
          (simp (none_called) refl)

  step_refilled :
      (l : Listener p k) (i : ℕ) (s : k.Sub) (rest : List (Option ℕ)) (x : Notice p.Value)
      → suc (length rest) ≡ queue_size
      → run_callback p k (called_again l i s rest x) ≡ some (refilled l i s rest x)
  unfolding run_callback run_callback_of has_room push_item called_again refilled
  step_refilled l i s rest x full = rw (room (length rest) full) refl
    where
      room : (n : ℕ) → suc n ≡ queue_size → ltb n queue_size ≡ true
      room n h = ground arith

  -- A deadlock. From a full queue, with the thread about to take an item and no event function waiting,
  -- the thread can take the item of a subscription that has one notice of a connection waiting, work on
  -- it, and before it puts the item back another notice can arrive for the same subscription, whose event
  -- function takes the place in the queue. Then, whatever arrives and whoever asks the thread to stop, no
  -- step of the listener, of its event functions or of `stop` changes its phase, its queue or the merged
  -- table any more. The steps of the reactor, which can still take rows out of the table, are not among
  -- them.
  pub full_queue-Idle :
      (l : Listener p k) (i : ℕ) (s : k.Sub) (rest : List (Option ℕ)) (x : Notice p.Value)
      → l.running ≡ true
      → l.phase ≡ in_pop
      → l.queue ≡ some i ∷ rest
      → length l.queue ≡ queue_size
      → l.calling ≡ []
      → get_elem? l.subscriptions i ≡ some s
      → k.pending s ≡ connected ∷ []
      → (u : Listener p k) × Reach p k l u
        × (u.phase ≡ in_push i)
        × ((v : Listener p k) → Reach p k u v → Idle p k u v)
  unfolding refilled called_again
  full_queue-Idle l i s rest x on phase queue full none_called at w =
      let count : suc (length rest) ≡ queue_size = ap length (sym queue) ∙ full in
      let stuck : IsStuck p k i (refilled l i s rest x) = record {
        pushing = refl;
        full = omega (arith, count, length-append rest (some i ∷ []));
      } in
      (
        refilled l i s rest x,
        next
            (next
              (next (next here (working (step_taken l i rest on phase queue)))
                (working (step_worked l i s rest at w)))
              (arriving i x (step_called_again l i s rest x at w none_called)))
            (calling_back (step_refilled l i s rest x count)),
        refl,
        (λ v r. Reach-Idle p k i (refilled l i s rest x) v stuck r),
      )
