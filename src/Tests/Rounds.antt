-- ===== src/Tests/Rounds.antt =====
-- The theorem on the rounds of the reactor, for two PVs that hold the same two rows.
use bsas_sc.Common.{ℕ, ◌+◌, ◌≡◌, refl, [], ◌∷◌, some, codes, text_eq, ok, arith, ltb, true}
use bsas_sc.Stamp.{
  EpicsTimeStamp, TimeStamp, stamp_ge, stamp_gt, stamp_le, stamp_lt, stamp_eq, stamp_min, stamp_max,
}
use bsas_sc.Stamp.Span.{bounds_of}
use bsas_sc.Pvxs.{ScalarType}
use bsas_sc.Pvxs.Concrete.{simple, Table}
use bsas_sc.Table.{
  get_column_as_uint, get_column_as_void, get_column, find_member, create_table, nt_table,
}
use bsas_sc.Buffer.{
  push, ensure_type, buffer_data_columns, TableBuffer, time_span, allocate_containers, allocate,
  consume_each_row, consume_values, consume_rows, update_timestamps, refresh_from,
  extract_timestamps_between, extract_values, extract_rows, insert_stamp,
}
use bsas_sc.Align.{
  get_timebounds, time_spans, collect_timestamps, extract, extract_buffers, extract_buffer,
  align_row, align_at, fill_copy, fill_rest, copy_row, copy_elems, set_columns, time_arrays,
}
use bsas_sc.Align.Progress.{IsSound}
use bsas_sc.Merger.{Reactor, round, decide, decide_bounds}
use bsas_sc.Align.Returns.{IsUsable, IsMergeable, ExtractDone, extract-Done}
use bsas_sc.Merger.Progress.{rounds, GoesOn, Leads, rounds-Leads}
use bsas_sc.Tests.{two_rows, type4, epics, column, stamp_at}
use bsas_sc.Align.Usable.{push-IsUsable}
use bsas_sc.Tests.Buffers.{two_rows-Conforms, held, held-IsValid}
use bsas_sc.Tests.Merging.{whole_seconds}
use bsas_sc.Tests.Merges.{merged7, type7}

abbrev at_seven : EpicsTimeStamp
at_seven = record { sec_past_epoch = 7; nsec = 0 }

abbrev reactor7 : Reactor simple epics whole_seconds
reactor7 = record { table = merged7; last_update = at_seven; posted = [] }

abbrev drained : TableBuffer Table
drained = record held { buffer = [] }

abbrev value7 : Table
value7 = record {
  usable = true;
  labels = some type7.nttable.labels;
  columns = some (
      column (codes "secondsPastEpoch") ScalarType.uint32 (5 ∷ 6 ∷ [])
      ∷ column (codes "nanoseconds") ScalarType.uint32 (0 ∷ 0 ∷ [])
      ∷ column (codes "pulseId") ScalarType.uint64 (70 ∷ 71 ∷ [])
      ∷ column (codes "valid") ScalarType.bool (1 ∷ 1 ∷ [])
      ∷ column (codes "value") ScalarType.float64 (10 ∷ 20 ∷ [])
      ∷ column (codes "valid") ScalarType.bool (1 ∷ 1 ∷ [])
      ∷ column (codes "value") ScalarType.float64 (10 ∷ 20 ∷ [])
      ∷ []);
}

abbrev after7 : Reactor simple epics whole_seconds
after7 = record {
  table = record merged7 { buffers = (codes "A", drained) ∷ (codes "B", drained) ∷ [] };
  last_update = at_seven;
  posted = value7 ∷ [];
}

one_round :
    rounds simple epics whole_seconds 2 0 ((at_seven, at_seven) ∷ []) reactor7 ≡ ok (some after7)
unfolding round decide decide_bounds get_timebounds bounds_of time_spans time_span stamp_max
    stamp_lt stamp_min extract collect_timestamps extract_timestamps_between extract_values
    extract_rows insert_stamp stamp_ge stamp_gt stamp_le stamp_eq get_column_as_uint
    get_column_as_void get_column find_member text_eq extract_buffers extract_buffer
    allocate_containers allocate consume_each_row consume_values consume_rows align_row align_at
    fill_copy fill_rest copy_row copy_elems update_timestamps refresh_from set_columns time_arrays
    create_table nt_table
one_round = refl

later_than : (n : ℕ) → ltb n (n + 2) ≡ true
later_than n = ground arith

abbrev bound9 : TimeStamp
bound9 = record { ts = record { sec_past_epoch = 9; nsec = 0 }; utag = 0 }

goes_on : GoesOn simple epics whole_seconds bound9 2
goes_on t before = rw (later_than t.ts.sec_past_epoch) refl

held-IsSound : IsSound simple epics bound9 held
unfolding get_column_as_uint get_column find_member text_eq stamp_lt
held-IsSound = record {
  valid = held-IsValid;
  spans = (refl, refl, refl, refl, refl, refl);
  before = (refl, (refl, tt));
}

held-IsUsable : IsUsable simple held
unfolding get_column_as_uint get_column_as_void get_column find_member text_eq
held-IsUsable = record {
  type_ = type4;
  arrays = ((ScalarType.float64, refl), tt);
  valid = held-IsValid;
  typed = refl;
  fits = ((refl, (omega arith, tt)), ((refl, (omega arith, tt)), tt));
}

merged7-IsMergeable : IsMergeable simple merged7
unfolding buffer_data_columns
merged7-IsMergeable = record {
  type_ = type7;
  typed = refl;
  enough = refl;
  usable = (held-IsUsable, (held-IsUsable, tt));
}

rounds-Leads_example : Leads simple epics whole_seconds bound9 reactor7 (
    rounds simple epics whole_seconds 2 0
      ((at_seven, at_seven) ∷ (at_seven, at_seven) ∷ [])
      reactor7)
unfolding stamp_le stamp_lt stamp_eq
rounds-Leads_example =
    rounds-Leads simple epics whole_seconds bound9 2 0
      ((at_seven, at_seven) ∷ (at_seven, at_seven) ∷ []) reactor7 refl goes_on
      (held-IsSound, (held-IsSound, tt)) merged7-IsMergeable

extract-Done_example :
    ExtractDone simple epics merged7
      (stamp_at 5 0)
      (stamp_at 7 0)
      (extract simple epics merged7 (stamp_at 5 0) (stamp_at 7 0))
unfolding stamp_gt stamp_le stamp_lt stamp_eq
extract-Done_example =
    extract-Done simple epics merged7 (stamp_at 5 0) (stamp_at 7 0) refl merged7-IsMergeable

push-IsUsable_example :
    (b : TableBuffer Table) × (push simple held two_rows ≡ (b, ok tt)) × IsUsable simple b
unfolding ensure_type get_column_as_uint get_column_as_void get_column find_member text_eq
push-IsUsable_example =
    push-IsUsable simple held two_rows type4 held-IsValid refl two_rows-Conforms (omega arith) refl
      ((ScalarType.float64, refl), tt) ((refl, (omega arith, tt)), ((refl, (omega arith, tt)), tt))
