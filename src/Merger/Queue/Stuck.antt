-- ===== src/Merger/Queue/Stuck.antt =====
-- What becomes of a listener whose queue is full when it puts an item back.
use bsas_sc.Common.{
  subst, ℕ, ◌≤◌, false, ltb, ◌≡◌, refl, sym, ◌∙◌, ap, Option, none, some, List, [], ◌∷◌, length,
  get_elem?, arith,
}
use mathlib.Core.Option.{none-ne-some, some-injective}
use bsas_sc.Pvxs.{Pvxs}
use bsas_sc.Merger.{Notice}
use bsas_sc.Merger.Queue.{
  Subscriptions, queue_size, in_push, Listener, has_room, advance, advance_at, receive, receive_at,
  run_callback, run_callback_of, clear_running, pump, Step, working, arriving, calling_back,
  stopping, pumping, Reach, here, next,
}

module _ (p : Pvxs) (k : Subscriptions p.Value) where
  -- The thread of the listener waits in `queue_.push()`, and the queue is full.
  pub record IsStuck (i : ℕ) (l : Listener p k) : Type 0 where
    pub pushing : l.phase ≡ in_push i
    pub full : queue_size ≤ length l.queue

  -- Nothing of the work of the listener has changed.
  pub record Idle (l u : Listener p k) : Type 0 where
    pub phase : u.phase ≡ l.phase
    pub queue : u.queue ≡ l.queue
    pub table : u.table ≡ l.table

  Idle-by :
      (l u v : Listener p k)
      → v ≡ u
      → v.phase ≡ l.phase
      → v.queue ≡ l.queue
      → v.table ≡ l.table
      → Idle l u
  Idle-by l u v e a b c = record {
    phase = ap (λ x. x.phase) (sym e) ∙ a;
    queue = ap (λ x. x.queue) (sym e) ∙ b;
    table = ap (λ x. x.table) (sym e) ∙ c;
  }

  no_room : (n : ℕ) → queue_size ≤ n → ltb n queue_size ≡ false
  no_room n h = ground arith

  full-has_room : (i : ℕ) (l : Listener p k) → IsStuck i l → has_room p k l ≡ false
  unfolding has_room
  full-has_room i l h = no_room (length l.queue) h.full

  stuck-advance : (i : ℕ) (l : Listener p k) → IsStuck i l → advance p k l ≡ none
  unfolding advance advance_at
  stuck-advance i l h = ap (advance_at p k l) h.pushing ∙ rw (full-has_room i l h) refl

  stuck-run_callback : (i : ℕ) (l : Listener p k) → IsStuck i l → run_callback p k l ≡ none
  unfolding run_callback run_callback_of
  stuck-run_callback i l h = by_calls l.calling
    where
      by_calls : (is : List ℕ) → run_callback_of p k l is ≡ none
      by_calls [] = refl
      by_calls (j ∷ is) = rw (full-has_room i l h) refl

  stuck-pump : (i : ℕ) (l : Listener p k) → IsStuck i l → pump p k l ≡ none
  unfolding pump
  stuck-pump i l h = rw (full-has_room i l h) refl

  receive-Idle :
      (l u : Listener p k) (i : ℕ) (x : Notice p.Value) → receive p k l i x ≡ some u → Idle l u
  unfolding receive receive_at
  receive-Idle l u i x h = by_sub (get_elem? l.subscriptions i) h
    where
      by_sub : (o : Option k.Sub) → receive_at p k l i x o ≡ some u → Idle l u
      by_sub none e = cc
      by_sub (some s) e = Idle-by l u _ (some-injective _ _ e) refl refl refl

  Step-Idle : (i : ℕ) (l u : Listener p k) → IsStuck i l → Step p k l u → Idle l u
  unfolding clear_running
  Step-Idle i l u h (working e) = absurd (none-ne-some _ (sym (stuck-advance i l h) ∙ e))
  Step-Idle i l u h (calling_back e) = absurd (none-ne-some _ (sym (stuck-run_callback i l h) ∙ e))
  Step-Idle i l u h (arriving j x e) = receive-Idle l u j x e
  Step-Idle i l u h (stopping e) = Idle-by l u _ e refl refl refl
  Step-Idle i l u h (pumping e) = absurd (none-ne-some _ (sym (stuck-pump i l h) ∙ e))

  Idle-IsStuck : (i : ℕ) (l u : Listener p k) → IsStuck i l → Idle l u → IsStuck i u
  Idle-IsStuck i l u h c = record {
    pushing = c.phase ∙ h.pushing;
    full = subst (λ q. queue_size ≤ length q) (sym c.queue) h.full;
  }

  -- A deadlock. Once the thread of the listener puts an item back into a queue that is full, it waits
  -- forever, as it alone takes items out: whatever arrives and whoever asks it to stop, the phase, the
  -- queue and the merged table never change again.
  pub Reach-Idle : (i : ℕ) (l u : Listener p k) → IsStuck i l → Reach p k l u → Idle l u
  Reach-Idle i l u h here = record { phase = refl; queue = refl; table = refl }
  Reach-Idle i l u h (next {t} r step) =
      let before = Reach-Idle i l t h r in
      let after = Step-Idle i t u (Idle-IsStuck i l t h before) step in
      record {
        phase = after.phase ∙ before.phase;
        queue = after.queue ∙ before.queue;
        table = after.table ∙ before.table;
      }
