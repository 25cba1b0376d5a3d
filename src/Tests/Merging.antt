-- ===== src/Tests/Merging.antt =====
-- The theorems on the merger at concrete inputs.
use bsas_sc.Common.{ℕ, ◌+◌, ◌-◌, false, ◌≡◌, refl, [], ◌∷◌, none, ltb, codes, arith, some}
use bsas_sc.Stamp.{stamp_max, stamp_lt, stamp_min}
use bsas_sc.Stamp.Span.{bounds_of}
use bsas_sc.Pvxs.Concrete.{simple, Table}
use bsas_sc.Buffer.{TableBuffer, time_span}
use bsas_sc.Align.{TimeAligned, get_timebounds, time_spans}
use bsas_sc.Merger.{EpicsClock, Reactor, extract_range, decide}
use bsas_sc.Merger.Rounds.{decide-no_timeout}
use bsas_sc.Tests.{epics, stamp_at, two_rows, type4}

abbrev held : TableBuffer Table
held = record {
  type_ = some type4;
  start_ts = stamp_at 5 0;
  end_ts = stamp_at 6 0;
  buffer = two_rows ∷ [];
  inner_idx = 0;
}

abbrev one_buffer : TimeAligned Table
one_buffer = record {
  label_sep = codes ".";
  col_sep = codes "_";
  buffers = (65 ∷ [], held) ∷ [];
  type_ = none;
}

pub ltb_irrefl : (n : ℕ) → ltb n n ≡ false
ltb_irrefl n = ground arith

pub ltb_zero : (n : ℕ) → ltb n 0 ≡ false
ltb_zero n = ground arith

-- Times in whole seconds.
abbrev pub whole_seconds : EpicsClock epics
whole_seconds = record {
  Double = ℕ;
  zero_sec = 0;
  lt = ltb;
  diff_in_seconds = λ a b. a.sec_past_epoch - b.sec_past_epoch;
  add_seconds = λ t d. record t { sec_past_epoch = t.sec_past_epoch + d };
  lt_irrefl = ltb_irrefl;
  diff_not_negative = λ a b h. ltb_zero (a.sec_past_epoch - b.sec_past_epoch);
}

abbrev started : Reactor simple epics whole_seconds
started = record {
  table = one_buffer;
  last_update = record { sec_past_epoch = 6; nsec = 0 };
  posted = [];
}

-- The period is ten seconds, and the buffer holds one.
decide-no_timeout_example :
    decide simple epics whole_seconds 10 0 (record { sec_past_epoch = 7; nsec = 0 }) started
    ≡ extract_range (stamp_at 5 0) (stamp_at 15 0)
unfolding get_timebounds bounds_of time_spans time_span stamp_max stamp_lt stamp_min
decide-no_timeout_example =
    decide-no_timeout simple epics whole_seconds 10 (record { sec_past_epoch = 7; nsec = 0 })
      started refl refl
