-- ===== src/Stamp/Span.antt =====
-- `TimeSpan` of mergerApp/src/tablebuffer.h and tablebuffer.cpp, and `TimeBounds` of
-- mergerApp/src/taligntable.h and taligntable.cpp.
pub mod Laws
pub mod Earliest
use bsas_sc.Common.{ℕ, ◌^◌, ◌-◌, Bool, true, false, List, [], ◌∷◌, if◌then◌else◌}
use bsas_sc.Stamp.{EpicsTimeStamp, EpicsTime, TimeStamp, stamp_min, stamp_max}

-- `TimeSpan::MAX_U32`, `MAX_U64`, `MAX_TS` and `MIN_TS`
abbrev pub max_u32 : ℕ
max_u32 = 2 ^ 32 - 1

abbrev pub max_u64 : ℕ
max_u64 = 2 ^ 64 - 1

abbrev pub max_ts : TimeStamp
max_ts = record { ts = record { sec_past_epoch = max_u32; nsec = 999999999 }; utag = max_u64 }

abbrev pub min_ts : TimeStamp
min_ts = record { ts = record { sec_past_epoch = 0; nsec = 0 }; utag = 0 }

-- `struct TimeSpan`
pub record TimeSpan : Type 0 where
  pub valid : Bool
  pub start : TimeStamp
  pub end : TimeStamp

-- `TimeSpan::reset`, and the constructor with no argument, which calls it.
unfoldable pub reset_span : TimeSpan
reset_span = record { valid = false; start = max_ts; end = min_ts }

-- The constructor from two stamps. It formats a message and throws nothing, also where `start` is
-- after `end`.
unfoldable pub time_span_of : TimeStamp → TimeStamp → TimeSpan
time_span_of start end = record { valid = true; start = start; end = end }

-- `struct TimeBounds`
pub record TimeBounds : Type 0 where
  pub valid : Bool
  pub earliest_start : TimeStamp
  pub earliest_end : TimeStamp
  pub latest_start : TimeStamp
  pub latest_end : TimeStamp

-- `TimeBounds::reset`
unfoldable pub reset_bounds : TimeBounds
reset_bounds = record {
  valid = false;
  earliest_start = max_ts;
  earliest_end = max_ts;
  latest_start = min_ts;
  latest_end = min_ts;
}

module _ (e : EpicsTime) where
  -- `TimeSpan::update`
  unfoldable pub update_span : TimeSpan → TimeStamp → TimeStamp → TimeSpan
  update_span s start end = record {
    valid = true;
    start = stamp_min e s.start start;
    end = stamp_max e s.end end;
  }

  -- One round of the loop of the constructor of `TimeBounds`.
  unfoldable pub bounds_step : TimeBounds → TimeSpan → TimeBounds
  bounds_step b it =
      if it.valid
      then record {
        valid = true;
        earliest_start = stamp_min e it.start b.earliest_start;
        earliest_end = stamp_min e it.end b.earliest_end;
        latest_start = stamp_max e it.start b.latest_start;
        latest_end = stamp_max e it.end b.latest_end;
      }
      else b

  unfoldable pub bounds_loop : TimeBounds → List TimeSpan → TimeBounds
  unfolding bounds_step
  bounds_loop b [] = b
  bounds_loop b (it ∷ spans) = bounds_loop (bounds_step b it) spans

  -- `TimeBounds::TimeBounds(begin, end)`
  unfoldable pub bounds_of : List TimeSpan → TimeBounds
  unfolding bounds_loop reset_bounds
  bounds_of spans = bounds_loop reset_bounds spans
