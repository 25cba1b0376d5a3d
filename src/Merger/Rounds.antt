-- ===== src/Merger/Rounds.antt =====
-- What a round of the merger does about buffers that lag behind and names that it has dropped.
use bsas_sc.Common.{some, Bool, true, false, ◌≡◌, refl, ◌&&◌, Text}
use bsas_sc.Stamp.{EpicsTime, EpicsTimeStamp}
use bsas_sc.Pvxs.{Pvxs}
use bsas_sc.Align.{TimeAligned, get_timebounds}
use bsas_sc.Align.Pushed.{Unknown, push-Unknown}
use bsas_sc.Merger.{
  EpicsClock, Reactor, extract_range, update, cancel, catch_push, listen, decide, decide_bounds,
}

and_false : (b : Bool) → (b && false) ≡ false
and_false true = refl
and_false false = refl

module _ (p : Pvxs) where
  -- An update for a PV that the table has dropped cancels the subscription and changes nothing else; the
  -- listener goes on.
  listen-Unknown :
      (t : TimeAligned p.Value) (name : Text) (value : p.Value)
      → Unknown p name t.buffers
      → listen p t name (some (update value)) ≡ (t, cancel)
  unfolding listen catch_push
  listen-Unknown t name value h = rw (push-Unknown p t name value h) refl

  -- With a timeout of zero, which is to wait forever for buffers that lag behind, a round waits for none:
  -- as soon as there are bounds, whose latest end is not before their earliest start, it extracts a
  -- period, however short the shortest of the spans is.
  pub decide-no_timeout :
      (e : EpicsTime) (c : EpicsClock e) (period : c.Double) (now : EpicsTimeStamp)
      (s : Reactor p e c)
      → (get_timebounds e s.table).valid ≡ true
      → e.time_less_than
          (get_timebounds e s.table).latest_end.ts
          (get_timebounds e s.table).earliest_start.ts
        ≡ false
      → decide p e c period c.zero_sec now s
        ≡ extract_range
            (get_timebounds e s.table).earliest_start
            (record (get_timebounds e s.table).earliest_start {
              ts = c.add_seconds (get_timebounds e s.table).earliest_start.ts period;
            })
  unfolding decide decide_bounds
  decide-no_timeout e c period now s v h =
      rw (c.lt_irrefl c.zero_sec, v, c.diff_not_negative _ _ h, and_false _) refl
