-- ===== src/Merger/System/Posted.antt =====
-- What the merger gives to its PV, over every run of the program.
use bsas_sc.Common.{
  from_ok, Bool, true, false, ◌==◌, ◌≡◌, refl, sym, ◌∙◌, ap, subst, ◌⊎◌, inl, inr, if◌then◌else◌,
  Option, none, some, List, [], All, All-append, Text, Result, ok, >>=-eq-ok, ◌>>=◌, ◌>>◌, or_fail,
  guard, logic_error, bad_access,
}
use bsas_sc.Stamp.{EpicsTime, EpicsTimeStamp, TimeStamp}
use bsas_sc.Pvxs.{Pvxs}
use bsas_sc.Table.{TimeTable, create_table}
use bsas_sc.Align.{TimeAligned, is_initialized, create, extract, force_initialize}
use bsas_sc.Merger.{EpicsClock, prepare, Decision, timed_out, sleep, extract_range}
use bsas_sc.Merger.Queue.{Subscriptions, Listener}
use bsas_sc.Merger.Queue
use bsas_sc.Merger.System.{
  ReactorPhase, preparing, opening, at_loop, ended, extracting, System, start_system, with_table,
  prepare_step, open_step, phase_of, loop_step, extract_step, react_at, react, Step, reacting,
  listening, stopping, Reach, here, next,
}
use bsas_sc.Merger.System.Typed.{Has, IsFilled, extract-Has, Step-Has}

module _ (p : Pvxs) (k : Subscriptions p.Value) (e : EpicsTime) (c : EpicsClock e) where
  open p use {Value}
  open c use {Double}

  abbrev Sys : Type 0
  Sys = System p k e c

  -- The PV is not open, and nothing was posted.
  abbrev pub IsClosed : Sys → Type 0
  IsClosed s = (s.opened ≡ none) × (s.posted ≡ [])

  -- The PV was opened with an empty table of the type, and only tables of this type were posted.
  abbrev pub IsOpen : TimeTable → Sys → Type 0
  IsOpen type s =
      Has type s.listener.table
      × (s.opened ≡ some (create_table p type))
      × All (IsFilled p e type) s.posted

  abbrev pub IsPosted : Sys → Type 0
  IsPosted s = IsClosed s ⊎ ((type : TimeTable) × IsOpen type s)

  -- What holds at each phase of the reactor.
  abbrev At : ReactorPhase → Sys → Type 0
  At (preparing start) s = IsClosed s
  At opening s = ((type : TimeTable) × Has type s.listener.table) × IsClosed s
  At at_loop s = (type : TimeTable) × IsOpen type s
  At (extracting start end) s = (type : TimeTable) × IsOpen type s
  At ended s = IsPosted s

  At-IsPosted : (a : ReactorPhase) (s : Sys) → At a s → IsPosted s
  At-IsPosted (preparing start) s h = inl h
  At-IsPosted opening s h = inl h.1
  At-IsPosted at_loop s h = inr h
  At-IsPosted (extracting start end) s h = inr h
  At-IsPosted ended s h = h

  -- The listener changes the table, and keeps its type.
  listening-At :
      (a : ReactorPhase) (s : Sys) (l : Listener p k)
      → Queue.Step p k s.listener l
      → At a s
      → At a (record s { listener = l })
  listening-At (preparing start) s l st h = h
  listening-At opening s l st ((type, has), h) = ((type, Step-Has p k s.listener l type st has), h)
  listening-At at_loop s l st (type, (has, open_, h)) =
      (type, (Step-Has p k s.listener l type st has, open_, h))
  listening-At (extracting start end) s l st (type, (has, open_, h)) =
      (type, (Step-Has p k s.listener l type st has, open_, h))
  listening-At ended s l st (inl h) = inl h
  listening-At ended s l st (inr (type, (has, open_, h))) =
      inr (type, (Step-Has p k s.listener l type st has, open_, h))

  stopping-At : (a : ReactorPhase) (s : Sys) → At a s → At a (record s { running = false })
  stopping-At (preparing start) s h = h
  stopping-At opening s h = h
  stopping-At at_loop s h = h
  stopping-At (extracting start end) s h = h
  stopping-At ended s h = h

  initialized-Has :
      {V : Type 0} (t : TimeAligned V) → is_initialized t ≡ true → (type : TimeTable) × Has type t
  unfolding is_initialized
  initialized-Has t h = by_type t.type_ h
    where
      by_type :
          (o : Option TimeTable)
          → elim o [ none ↦ false | some type ↦ true ] ≡ true
          → (type : TimeTable) × (o ≡ some type)
      by_type none h = cc
      by_type (some type) h = (type, refl)

  guard-true : (b : Bool) (x : Unit {0}) → guard b logic_error ≡ ok x → b ≡ true
  guard-true true x h = refl
  guard-true false x h = cc

  abbrev prepared : Bool → TimeAligned Value → Result (TimeAligned Value × Bool)
  prepared b w = if b then ok (w, false) else (guard (is_initialized w) logic_error >> ok (w, true))

  prepared-is_initialized :
      (b : Bool) (w u : TimeAligned Value) → prepared b w ≡ ok (u, true) → is_initialized u ≡ true
  prepared-is_initialized true w u h = cc (ap (from_ok (w, false)) h)
  prepared-is_initialized false w u h =
      let (x, g, q) = >>=-eq-ok (guard (is_initialized w) logic_error) _ h in
      subst (λ v. is_initialized v ≡ true) (ap (λ r. r.0) (ap (from_ok (u, true)) q))
        (guard-true (is_initialized w) x g)

  prepare-Has :
      (t u : TimeAligned Value) → prepare p e c t ≡ ok (u, true) → (type : TimeTable) × Has type u
  unfolding prepare
  prepare-Has t u h =
      let ((w, n), ran, q) = >>=-eq-ok (force_initialize t) _ h in
      initialized-Has u (prepared-is_initialized (n == 0) w u q)

  -- The end of `prepare`.
  abbrev after_prepare : Sys → TimeAligned Value → Bool → Sys
  unfolding with_table
  after_prepare s t go_on = record (with_table p k e c s t) {
    phase = if go_on then opening else ended;
  }

  after_prepare-At :
      (s : Sys) (t : TimeAligned Value) (go_on : Bool)
      → IsClosed s
      → prepare p e c s.listener.table ≡ ok (t, go_on)
      → At (after_prepare s t go_on).phase (after_prepare s t go_on)
  unfolding after_prepare with_table
  after_prepare-At s t true h q = (prepare-Has s.listener.table t q, h)
  after_prepare-At s t false h q = inl h

  prepare_step-At :
      (waits running : Bool) (s u : Sys) (start : EpicsTimeStamp)
      → s.phase ≡ preparing start
      → IsClosed s
      → (if waits
          then ok s
          else if running
          then prepare p e c s.listener.table
            >>= (λ (r : TimeAligned Value × Bool). ok (after_prepare s r.0 r.1))
          else ok (record s { phase = ended }))
        ≡ ok u
      → At u.phase u
  prepare_step-At true running s u start at h q =
      let same = ap (from_ok u) q in subst (λ v. At v.phase v) same (subst (λ a. At a s) (sym at) h)
  prepare_step-At false true s u start at h q =
      let (r, ran, q1) = >>=-eq-ok (prepare p e c s.listener.table) _ q in
      subst (λ v. At v.phase v) (ap (from_ok u) q1) (after_prepare-At s r.0 r.1 h ran)
  prepare_step-At false false s u start at h q =
      subst (λ v. At v.phase v) (ap (from_ok u) q) (inl h)

  -- The value that the PV is opened with, and what `create` returns for a type.
  abbrev from_opened : Value → Result Value → Option Value
  from_opened v r = some (from_ok v r)

  abbrev opened_of : Option TimeTable → Result Value
  opened_of o = or_fail (elim o [ none ↦ none | some type ↦ some (create_table p type) ]) bad_access

  open_step-At :
      (s u : Sys) (now : EpicsTimeStamp)
      → At opening s
      → open_step p k e c now s ≡ ok u
      → At u.phase u
  unfolding open_step create
  open_step-At s u now ((type, has), (closed, nothing)) q =
      let (v, got, q1) = >>=-eq-ok (or_fail (create p s.listener.table) bad_access) _ q in
      let made : some v ≡ some (create_table p type) =
        ap (from_opened v) (sym got ∙ ap opened_of has) in
      subst (λ v. At v.phase v) (ap (from_ok u) q1)
        (type, (has, made, subst (All (IsFilled p e type)) (sym nothing) tt))

  loop_step-At :
      (s : Sys) (period timeout : Double) (now : EpicsTimeStamp)
      → At at_loop s
      → At (loop_step p k e c period timeout now s).phase (loop_step p k e c period timeout now s)
  unfolding loop_step
  loop_step-At s period timeout now h = by_running s.running _
    where
      by_running :
          (b : Bool) (d : Decision p e c)
          → At
              (if b then phase_of p k e c d else ended)
              (record s { phase = if b then phase_of p k e c d else ended })
      by_running true timed_out = inr h
      by_running true sleep = h
      by_running true (extract_range a b) = h
      by_running false d = inr h

  extract_step-At :
      (s u : Sys) (start end : TimeStamp) (now : EpicsTimeStamp)
      → At at_loop s
      → extract_step p k e c start end now s ≡ ok u
      → At u.phase u
  unfolding extract_step with_table
  extract_step-At s u start end now (type, (has, opened, filled)) q =
      let (r, ran, q1) = >>=-eq-ok (extract p e s.listener.table start end) _ q in
      let (kept, value) = extract-Has p e s.listener.table r.0 start end type r.1 has ran in
      subst (λ v. At v.phase v) (ap (from_ok u) q1)
        (type, (kept, opened, All-append _ s.posted _ filled (value, tt)))

  react_at-At :
      (a : ReactorPhase) (s u : Sys) (period timeout : Double) (now : EpicsTimeStamp)
      → s.phase ≡ a
      → At a s
      → react_at p k e c period timeout now s a ≡ ok u
      → At u.phase u
  unfolding react_at prepare_step after_prepare
  react_at-At (preparing start) s u period timeout now at h q =
      prepare_step-At _ s.running s u start at h q
  react_at-At opening s u period timeout now at h q = open_step-At s u now h q
  react_at-At at_loop s u period timeout now at h q =
      subst (λ v. At v.phase v) (ap (from_ok u) q) (loop_step-At s period timeout now h)
  react_at-At (extracting a b) s u period timeout now at h q = extract_step-At s u a b now h q
  react_at-At ended s u period timeout now at h q =
      subst (λ v. At v.phase v) (ap (from_ok u) q) (subst (λ a. At a s) (sym at) h)

  Step-At :
      (period timeout : Double) (s u : Sys)
      → Step p k e c period timeout s u
      → At s.phase s
      → At u.phase u
  unfolding react
  Step-At period timeout s u (reacting now q) h =
      react_at-At s.phase s u period timeout now refl h q
  Step-At period timeout s u (listening l st q) h =
      subst (λ v. At v.phase v) q (listening-At s.phase s l st h)
  Step-At period timeout s u (stopping q) h = subst (λ v. At v.phase v) q (stopping-At s.phase s h)

  -- Over every run of the merger, the threads in any order and at any times: as long as its PV is not open
  -- nothing is posted; the PV is opened with an empty table of the type that the merged table has then, the
  -- merged table keeps this type for good, and every value posted is a table of this type.
  pub Reach-IsPosted :
      (period timeout : Double) (pvlist : List Text) (table : TimeAligned Value)
      (now : EpicsTimeStamp) (u : Sys)
      → Reach p k e c period timeout (start_system p k e c pvlist table now) u
      → IsPosted u
  unfolding start_system
  Reach-IsPosted period timeout pvlist table now u r = At-IsPosted u.phase u (reached r)
    where
      reached :
          {v : Sys}
          → Reach p k e c period timeout (start_system p k e c pvlist table now) v
          → At v.phase v
      reached here = (refl, refl)
      reached {v} (next {t} before step) = Step-At period timeout t v step (reached before)
