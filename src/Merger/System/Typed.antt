-- ===== src/Merger/System/Typed.antt =====
-- The type of the merged table, once it is there, is the type of everything that the merger posts.
use bsas_sc.Common.{
  from_ok, ℕ, Bool, true, false, not, ◌==◌, ◌≡◌, refl, sym, ◌∙◌, ap, subst, if◌then◌else◌, Option,
  none, some, List, [], ◌∷◌, ◌++◌, length, Text, Result, ok, err, >>=-eq-ok, or_fail, guard,
  runtime_error, logic_error, bad_access,
}
use mathlib.Core.Option.{some-injective}
use bsas_sc.Stamp.{EpicsTime, TimeStamp, stamp_gt}
use bsas_sc.Pvxs.{Pvxs, Array}
use bsas_sc.Table.{TimeTable, create_table}
use bsas_sc.Buffer.{TableBuffer}
use bsas_sc.Align.{
  TimeAligned, initialize, is_initialized, push_at, after_push, create, extract, extract_buffers,
  collect_timestamps, set_columns, time_arrays,
}
use bsas_sc.Align
use bsas_sc.Merger.{Notice, connected, disconnected, update, listen}
use bsas_sc.Merger.Queue.{
  Subscriptions, Listener, work_on, work_at, pop_from, advance, advance_at, Phase, at_test, in_pop,
  holding, in_push, left_loop, push_item, has_room, receive, receive_at, run_callback,
  run_callback_of, clear_running, pump, Step, working, arriving, calling_back, stopping, pumping,
}

-- The table has that type.
abbrev pub Has : {V : Type 0} → TimeTable → TimeAligned V → Type 0
Has type t = t.type_ ≡ some type

module _ (p : Pvxs) where
  open p use {Value, Elem}

  -- A value of the type whose columns have been set.
  abbrev pub IsFilled : EpicsTime → TimeTable → Value → Type 0
  IsFilled e type v =
      (output : List (Array Elem)) × (v ≡ set_columns p e (create_table p type) type.columns output)

  pub initialize-Has :
      {V : Type 0} (t : TimeAligned V) (type : TimeTable) → Has type t → initialize t ≡ ok t
  unfolding initialize
  initialize-Has t type h =
      subst (λ o. initialize (record t { type_ = o }) ≡ ok (record t { type_ = o })) (sym h) refl

  after_push-Has :
      (t : TimeAligned Value) (type : TimeTable)
      (r : List (Text × TableBuffer Value) × Result (Unit {0}))
      → Has type t
      → Has type (after_push p t r).0
  unfolding after_push
  after_push-Has t type (m, err x) h = h
  after_push-Has t type (m, ok x) h =
      rw (initialize-Has (record t { buffers = m }) type h, after_push) h

  pub listen-Has :
      (t : TimeAligned Value) (type : TimeTable) (name : Text) (x : Option (Notice Value))
      → Has type t
      → Has type (listen p t name x).0
  unfolding listen Align.push
  listen-Has t type name none h = h
  listen-Has t type name (some connected) h = h
  listen-Has t type name (some disconnected) h = h
  listen-Has t type name (some (update v)) h = after_push-Has t type (push_at p name v t.buffers) h

  pub extract-Has :
      (e : EpicsTime) (t u : TimeAligned Value) (start end : TimeStamp) (type : TimeTable)
      (v : Value)
      → Has type t
      → extract p e t start end ≡ ok (u, v)
      → Has type u × IsFilled e type v
  unfolding extract
  extract-Has e t u start end type v h q =
      let timestamps = collect_timestamps p e start end t.buffers [] in
      let (d, dq, q1) = >>=-eq-ok (guard (not (stamp_gt e start end)) runtime_error) _ q in
      let (type', has, q2) = >>=-eq-ok (or_fail t.type_ bad_access) _ q1 in
      let ((m, arrays), ran, q3) = >>=-eq-ok (extract_buffers p e timestamps end t.buffers) _ q2 in
      let output = time_arrays p e timestamps ++ arrays in
      let (f, fq, q4) =
        >>=-eq-ok (guard (length type'.columns == length output) logic_error) _ q3 in
      let pair = ap (from_ok (u, v)) q4 in
      let same = ap (from_ok type) (sym (ap (λ o. or_fail o bad_access) h) ∙ has) in
      (
        ap (λ x. x.0.type_) (sym pair) ∙ h,
        subst (λ y. IsFilled e y v) (sym same) (output, ap (λ x. x.1) (sym pair)),
      )

module _ (p : Pvxs) (k : Subscriptions p.Value) where
  open p use {Value}

  -- No step of the listener takes the type away.
  pop_from-Has :
      (l u : Listener p k) (q : List (Option ℕ)) (type : TimeTable)
      → pop_from p k l q ≡ some u
      → Has type l.table
      → Has type u.table
  unfolding pop_from
  pop_from-Has l u [] type e h = cc
  pop_from-Has l u (x ∷ q) type e h = subst (λ v. Has type v.table) (some-injective _ _ e) h

  room-Has :
      (room : Bool) (l v u : Listener p k) (type : TimeTable)
      → (if room then some v else none) ≡ some u
      → Has type v.table
      → Has type u.table
  room-Has true l v u type e h = subst (λ v. Has type v.table) (some-injective _ _ e) h
  room-Has false l v u type e h = cc

  work_at-Has :
      (l u : Listener p k) (i : ℕ) (o : Option k.Sub) (type : TimeTable)
      → work_at p k l i o ≡ some u
      → Has type l.table
      → Has type u.table
  unfolding work_at work_on
  work_at-Has l u i none type e h = cc
  work_at-Has l u i (some s) type e h =
      subst (λ v. Has type v.table) (some-injective _ _ e)
        (listen-Has p l.table type (k.name s) (k.pop s).0 h)

  advance_at-Has :
      (l u : Listener p k) (a : Phase) (type : TimeTable)
      → advance_at p k l a ≡ some u
      → Has type l.table
      → Has type u.table
  unfolding advance_at push_item
  advance_at-Has l u at_test type e h = subst (λ v. Has type v.table) (some-injective _ _ e) h
  advance_at-Has l u in_pop type e h = pop_from-Has l u l.queue type e h
  advance_at-Has l u (holding i) type e h = work_at-Has l u i _ type e h
  advance_at-Has l u (in_push i) type e h = room-Has (has_room p k l) l _ u type e h
  advance_at-Has l u left_loop type e h = cc

  receive_at-table :
      (l u : Listener p k) (i : ℕ) (x : Notice Value) (o : Option k.Sub)
      → receive_at p k l i x o ≡ some u
      → u.table ≡ l.table
  unfolding receive_at
  receive_at-table l u i x none e = cc
  receive_at-table l u i x (some s) e = ap (λ v. v.table) (sym (some-injective _ _ e))

  run_callback_of-Has :
      (l u : Listener p k) (is : List ℕ) (type : TimeTable)
      → run_callback_of p k l is ≡ some u
      → Has type l.table
      → Has type u.table
  unfolding run_callback_of push_item
  run_callback_of-Has l u [] type e h = cc
  run_callback_of-Has l u (i ∷ is) type e h = room-Has (has_room p k l) l _ u type e h

  pub Step-Has :
      (l u : Listener p k) (type : TimeTable) → Step p k l u → Has type l.table → Has type u.table
  unfolding advance receive run_callback clear_running pump push_item
  Step-Has l u type (working e) h = advance_at-Has l u l.phase type e h
  Step-Has l u type (arriving i x e) h = ap (λ t. t.type_) (receive_at-table l u i x _ e) ∙ h
  Step-Has l u type (calling_back e) h = run_callback_of-Has l u l.calling type e h
  Step-Has l u type (stopping e) h = subst (λ v. Has type v.table) e h
  Step-Has l u type (pumping e) h = room-Has (has_room p k l) l _ u type e h
