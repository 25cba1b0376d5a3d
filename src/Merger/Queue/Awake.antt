-- ===== src/Merger/Queue/Awake.antt =====
-- No delivery of a subscription is forgotten.
use bsas_sc.Common.{
  ℕ, zero, suc, Bool, true, false, ==_iff, ◌≡◌, ◌≢◌, refl, sym, ◌∙◌, ap, subst, ◌⊎◌, inl, inr,
  if◌then◌else◌, Option, none, some, List, [], ◌∷◌, ◌++◌, map, set, get_elem?, get_elem?-set_found,
  get_elem?-set_ne, Text,
}
use mathlib.Core.Option.{some-injective}
use bsas_sc.Common.{ℕ_discrete}
use bsas_sc.Pvxs.{Pvxs}
use bsas_sc.Align.{TimeAligned}
use bsas_sc.Align
use bsas_sc.Merger.{Notice, connected, disconnected, update, listen}
use bsas_sc.Merger.Queue.{
  Subscriptions, Phase, at_test, in_pop, left_loop, holding, in_push, Listener, new_listener,
  has_room, push_item, after_item, cancelled, work_on, work_at, pop_from, advance, advance_at,
  receive, receive_at, run_callback, run_callback_of, clear_running, pump, Step, working, arriving,
  calling_back, stopping, pumping, Reach, here, next,
}
use bsas_sc.Merger.Queue.Served.{
  serves, same_item, serves-catch_push, awake_at, serves_more, awake-after_pop, awake-in_push,
  awake-callback, awake-pump, awake-event, awake-called, served,
}

module _ (p : Pvxs) (k : Subscriptions p.Value) where
  open k use {Sub, pending}

  pub IsAwake : Listener p k → Type 0
  IsAwake l =
      (i : ℕ) (s : Sub)
      → get_elem? l.subscriptions i ≡ some s
      → (pending s ≡ []) ⊎ (awake_at l.queue l.calling l.phase i ≡ true)

  serves-listen :
      (i : ℕ) (t : TimeAligned p.Value) (n : Text) (x : Notice p.Value)
      → serves i (after_item i (listen p t n (some x)).1) ≡ true
  unfolding listen after_item
  serves-listen i t n connected = same_item i
  serves-listen i t n disconnected = same_item i
  serves-listen i t n (update v) = serves-catch_push i (Align.push p t n v).1

  -- The subscriptions are the same, and whatever was awake still is.
  keeps :
      (l u : Listener p k)
      → u.subscriptions ≡ l.subscriptions
      → ((i : ℕ)
          → awake_at l.queue l.calling l.phase i ≡ true
          → awake_at u.queue u.calling u.phase i ≡ true)
      → IsAwake l
      → IsAwake u
  unfolding IsAwake
  keeps l u e mono h i s at = elim (h i s (ap (λ xs. get_elem? xs i) (sym e) ∙ at)) [
    | inl none_left ↦ inl none_left
    | inr a ↦ inr (mono i a)
  ]

  -- One subscription has changed.
  replaces :
      (l u : Listener p k) (j : ℕ) (old new : Sub)
      → get_elem? l.subscriptions j ≡ some old
      → u.subscriptions ≡ set l.subscriptions j new
      → ((i : ℕ)
          → j ≢ i
          → awake_at l.queue l.calling l.phase i ≡ true
          → awake_at u.queue u.calling u.phase i ≡ true)
      → (pending new ≡ []) ⊎ (awake_at u.queue u.calling u.phase j ≡ true)
      → IsAwake l
      → IsAwake u
  unfolding IsAwake
  replaces l u j old new was e mono h_new h i s at = elim (ℕ_discrete j i) [
    | yes same ↦
        let held : get_elem? u.subscriptions j ≡ some s =
          subst (λ n. get_elem? u.subscriptions n ≡ some s) (sym same) at in
        let found =
          sym (get_elem?-set_found l.subscriptions j new was)
          ∙ ap (λ xs. get_elem? xs j) (sym e)
          ∙ held in
        subst (λ n. (pending s ≡ []) ⊎ (awake_at u.queue u.calling u.phase n ≡ true)) same
          (subst (λ x. (pending x ≡ []) ⊎ (awake_at u.queue u.calling u.phase j ≡ true))
            (some-injective _ _ found) h_new)
    | no other ↦
        elim (h i s (
          sym (get_elem?-set_ne l.subscriptions new other)
          ∙ ap (λ xs. get_elem? xs i) (sym e)
          ∙ at)) [ inl none_left ↦ inl none_left | inr a ↦ inr (mono i other a) ]
  ]

  at_phase :
      (l : Listener p k) (a : Phase) (i : ℕ)
      → l.phase ≡ a
      → awake_at l.queue l.calling l.phase i ≡ true
      → awake_at l.queue l.calling a i ≡ true
  at_phase l a i e h = ap (λ x. awake_at l.queue l.calling x i) (sym e) ∙ h

  -- The step of the loop at each phase.
  pop_from-IsAwake :
      (l u : Listener p k) (q : List (Option ℕ))
      → l.queue ≡ q
      → l.phase ≡ in_pop
      → pop_from p k l q ≡ some u
      → IsAwake l
      → IsAwake u
  unfolding pop_from
  pop_from-IsAwake l u [] qe at e h = cc
  pop_from-IsAwake l u (x ∷ q) qe at e h = subst IsAwake (some-injective _ _ e) (
      keeps l _ refl
        (λ i a.
          awake-after_pop q l.calling l.running x i
            (subst (λ xs. awake_at xs l.calling in_pop i ≡ true) qe (at_phase l in_pop i at a)))
        h)

  work_on-IsAwake :
      (l : Listener p k) (j : ℕ) (s : Sub)
      → get_elem? l.subscriptions j ≡ some s
      → l.phase ≡ holding j
      → IsAwake l
      → IsAwake (work_on p k l j s)
  unfolding work_on listen cancelled
  work_on-IsAwake l j s was at h =
      replaces l _ j s _ was refl
        (λ i other a.
          serves_more l.queue l.calling (holding j) _ i
            (λ x. absurd (other (sym ((==_iff i j).0 x)))) (at_phase l (holding j) i at a))
        (by_pending (pending s) refl) h
    where
      by_pending :
          (xs : List (Notice p.Value))
          → pending s ≡ xs
          → (pending (cancelled p k (listen p l.table (k.name s) (k.pop s).0).1 (k.pop s).1) ≡ [])
            ⊎ (awake_at l.queue l.calling
                  (after_item j (listen p l.table (k.name s) (k.pop s).0).1)
                  j
                ≡ true)
      by_pending [] e = inl (rw (k.pop-nil s e) (k.pending-pop_nil s e))
      by_pending (x ∷ xs) e = inr (
          served l.queue l.calling _ j
            (rw (k.pop-cons s x xs e) (serves-listen j l.table (k.name s) x)))

  work_at-IsAwake :
      (l u : Listener p k) (j : ℕ) (o : Option Sub)
      → get_elem? l.subscriptions j ≡ o
      → l.phase ≡ holding j
      → work_at p k l j o ≡ some u
      → IsAwake l
      → IsAwake u
  unfolding work_at
  work_at-IsAwake l u j none was at e h = cc
  work_at-IsAwake l u j (some s) was at e h =
      subst IsAwake (some-injective _ _ e) (work_on-IsAwake l j s was at h)

  -- A push that waits for room.
  pushed :
      (room : Bool) (l v u : Listener p k)
      → (if room then some v else none) ≡ some u
      → IsAwake v
      → IsAwake u
  pushed true l v u e h = subst IsAwake (some-injective _ _ e) h
  pushed false l v u e h = cc

  advance_at-IsAwake :
      (l u : Listener p k) (a : Phase)
      → l.phase ≡ a
      → advance_at p k l a ≡ some u
      → IsAwake l
      → IsAwake u
  unfolding advance_at push_item
  advance_at-IsAwake l u at_test at e h = subst IsAwake (some-injective _ _ e) (
      keeps l _ refl
        (λ i a. serves_more l.queue l.calling at_test _ i (λ x. cc) (at_phase l at_test i at a)) h)
  advance_at-IsAwake l u in_pop at e h = pop_from-IsAwake l u l.queue refl at e h
  advance_at-IsAwake l u (holding j) at e h = work_at-IsAwake l u j _ refl at e h
  advance_at-IsAwake l u (in_push j) at e h = pushed (has_room p k l) l _ u e (
      keeps l _ refl (λ i a. awake-in_push l.queue l.calling j i (at_phase l (in_push j) i at a)) h)
  advance_at-IsAwake l u left_loop at e h = cc

  receive_at-IsAwake :
      (l u : Listener p k) (j : ℕ) (x : Notice p.Value) (o : Option Sub)
      → get_elem? l.subscriptions j ≡ o
      → receive_at p k l j x o ≡ some u
      → IsAwake l
      → IsAwake u
  unfolding receive_at IsAwake
  receive_at-IsAwake l u j x none was e h = cc
  receive_at-IsAwake l u j x (some s) was e h = subst IsAwake (some-injective _ _ e) (
      replaces l
        (record l {
          subscriptions = set l.subscriptions j (k.deliver s x).0;
          calling = if (k.deliver s x).1 then l.calling ++ j ∷ [] else l.calling;
        })
        j s (k.deliver s x).0 was refl
        (λ i other a. awake-event l.queue l.calling l.phase (k.deliver s x).1 j i a)
        (inr (elim (h j s was) [
          | inl nothing ↦
              rw (k.deliver-empty s x nothing) (awake-called l.queue l.calling l.phase j)
          | inr a ↦ awake-event l.queue l.calling l.phase (k.deliver s x).1 j j a
        ]))
        h)

  run_callback_of-IsAwake :
      (l u : Listener p k) (js : List ℕ)
      → l.calling ≡ js
      → run_callback_of p k l js ≡ some u
      → IsAwake l
      → IsAwake u
  unfolding run_callback_of push_item
  run_callback_of-IsAwake l u [] c e h = cc
  run_callback_of-IsAwake l u (j ∷ js) c e h = pushed (has_room p k l) l _ u e (
      keeps l _ refl
        (λ i a.
          awake-callback l.queue js l.phase j i
            (subst (λ is. awake_at l.queue is l.phase i ≡ true) c a))
        h)

  -- Every step of a thread keeps it.
  Step-IsAwake : (l u : Listener p k) → Step p k l u → IsAwake l → IsAwake u
  unfolding advance receive run_callback clear_running pump push_item
  Step-IsAwake l u (working e) h = advance_at-IsAwake l u l.phase refl e h
  Step-IsAwake l u (arriving i x e) h = receive_at-IsAwake l u i x _ refl e h
  Step-IsAwake l u (calling_back e) h = run_callback_of-IsAwake l u l.calling refl e h
  Step-IsAwake l u (stopping e) h = subst IsAwake e (keeps l _ refl (λ i a. a) h)
  Step-IsAwake l u (pumping e) h =
      pushed (has_room p k l) l _ u e
        (keeps l _ refl (λ i a. awake-pump l.queue l.calling l.phase i a) h)

  nothing-monitor :
      (names : List Text) (i : ℕ) (s : Sub)
      → get_elem? (map k.monitor names) i ≡ some s
      → pending s ≡ []
  nothing-monitor [] i s e = cc
  nothing-monitor (n ∷ names) zero s e =
      subst (λ x. pending x ≡ []) (some-injective _ _ e) (k.pending-monitor n)
  nothing-monitor (n ∷ names) (suc i) s e = nothing-monitor names i s e

  -- From the start of the listener on, whatever the threads do in whatever order: a subscription for which
  -- something waits has an item in the queue, or an event function that is about to put one there, or the
  -- thread at work on it; so nothing that arrives is forgotten while the listener runs.
  pub Reach-IsAwake :
      (pvlist : List Text) (table : TimeAligned p.Value) (l : Listener p k) (i : ℕ) (s : Sub)
      → Reach p k (new_listener p k pvlist table) l
      → get_elem? l.subscriptions i ≡ some s
      → (pending s ≡ []) ⊎ (awake_at l.queue l.calling l.phase i ≡ true)
  unfolding IsAwake new_listener
  Reach-IsAwake pvlist table l i s r at = reached r i s at
    where
      reached : {u : Listener p k} → Reach p k (new_listener p k pvlist table) u → IsAwake u
      reached here = λ j x e. inl (nothing-monitor pvlist j x e)
      reached {u} (next {t} before step) = Step-IsAwake t u step (reached before)
