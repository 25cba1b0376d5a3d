-- ===== src/Tests/Buffers.antt =====
-- The theorems on buffers and on the extraction of aligned rows at concrete inputs.
use bsas_sc.Common.{
  ℕ, suc, Bool, true, false, ◌≡◌, refl, ◌⊎◌, ◌↔◌, List, [], ◌∷◌, ◌++◌, some, Result, ok, err,
  runtime_error, bad_access, length, All, text_eq, arith,
}
use bsas_sc.Stamp.{TimeStamp, stamp_lt, stamp_gt, stamp_le, stamp_eq}
use bsas_sc.Pvxs.{ScalarType, of_scalar, Array}
use bsas_sc.Pvxs.Concrete.{simple, Table, code_eq}
use bsas_sc.Table.{
  find_member, get_column, get_column_as_uint, get_column_as_void, is_valid, check_columns,
}
use bsas_sc.Table.Valid.{Conforms, is_valid_iff}
use bsas_sc.Buffer.{TableBuffer, ensure_type, push, consume_each_row, extract_timestamps_between}
use bsas_sc.Buffer.Rows.{rows, value_rows, IsValid, SpanOf}
use bsas_sc.Buffer.Consume.{Consumes, consume_each_row-refines}
use bsas_sc.Buffer.Push.{rows_by, push-stores, push-refuses, push-no_rows}
use bsas_sc.Buffer.Extract.{
  Has, IsSorted, in_range, count_in_range, all_stamps, extract_timestamps_between_lem,
}
use bsas_sc.Align.{extract_buffer}
use bsas_sc.Align.Complete.{AllHold}
use bsas_sc.Align.Extract.{extract_buffer_complete, extract_buffer-ahead}
use bsas_sc.Tests.{epics, stamp_at, two_rows, ragged, no_rows, type4, labels4, members4}

-- A buffer with one table of two rows.
abbrev pub held : TableBuffer Table
held = record {
  type_ = some type4;
  start_ts = stamp_at 5 0;
  end_ts = stamp_at 6 0;
  buffer = two_rows ∷ [];
  inner_idx = 0;
}

pub held-IsValid : IsValid simple held
unfolding get_column_as_uint get_column find_member text_eq
held-IsValid = record {
  stored = (record { has_rows = omega arith; nanoseconds_rows = refl; pulse_ids_rows = refl }, tt);
  position = omega arith;
  typed = tt;
  timed = refl;
}

-- Counts the rows.
abbrev count_rows : ℕ → TimeStamp → List (Array ℕ) → ℕ → Result (ℕ × Bool)
count_rows n t cols i = ok (suc n, false)

consume_each_row-refines_example :
    Consumes simple count_rows held (ok (2, [])) (consume_each_row simple count_rows held 0)
unfolding get_column_as_uint get_column find_member text_eq
consume_each_row-refines_example = consume_each_row-refines simple count_rows held 0 held-IsValid

abbrev pub two_rows-Conforms : Conforms simple type4 two_rows
two_rows-Conforms = record {
  usable = refl;
  ls = labels4;
  ms = members4 (5 ∷ 6 ∷ []) (0 ∷ 0 ∷ []) (70 ∷ 71 ∷ []) (10 ∷ 20 ∷ []);
  rows = 2;
  has_labels = refl;
  has_columns = refl;
  matches = (refl, refl, refl, (refl, refl, refl, (refl, refl, refl, (refl, refl, refl, tt))));
  have_rows = (refl, (refl, (refl, (refl, tt))));
}

abbrev no_rows-Conforms : Conforms simple type4 no_rows
no_rows-Conforms = record {
  usable = refl;
  ls = labels4;
  ms = members4 [] [] [] [];
  rows = 0;
  has_labels = refl;
  has_columns = refl;
  matches = (refl, refl, refl, (refl, refl, refl, (refl, refl, refl, (refl, refl, refl, tt))));
  have_rows = (refl, (refl, (refl, (refl, tt))));
}

push-stores_example :
    (b : TableBuffer Table) × (push simple held two_rows ≡ (b, ok tt))
    × IsValid simple b
    × SpanOf simple b b.buffer
    × (b.type_ ≡ some type4)
    × (rows simple b ≡ rows_by simple type4 held ++ value_rows simple type4 two_rows 0)
unfolding ensure_type
push-stores_example =
    push-stores simple held two_rows type4 held-IsValid refl two_rows-Conforms (omega arith)

ragged-refused : ¬ (Conforms simple type4 ragged)
unfolding is_valid check_columns text_eq code_eq
ragged-refused c = cc ((is_valid_iff simple type4 ragged).1 c)

push-refuses_example : push simple held ragged ≡ (held, err runtime_error)
unfolding ensure_type
push-refuses_example = push-refuses simple held ragged type4 refl ragged-refused

push-no_rows_example : (push simple held no_rows).1 ≡ err bad_access
unfolding ensure_type
push-no_rows_example = push-no_rows simple held no_rows type4 refl refl no_rows-Conforms refl

extract_timestamps_between_lem_example :
    let r = extract_timestamps_between epics simple held (stamp_at 5 0) (stamp_at 6 0) [] in
    IsSorted epics r.0
    × (Has (stamp_at 5 70) r.0 ↔ (
        Has (stamp_at 5 70) []
        ⊎ (Has (stamp_at 5 70) (all_stamps simple held.buffer)
            × (in_range epics (stamp_at 5 0) (stamp_at 6 0) (stamp_at 5 70) ≡ true))))
    × (r.1 ≡ count_in_range epics (stamp_at 5 0) (stamp_at 6 0) (all_stamps simple held.buffer))
extract_timestamps_between_lem_example =
    extract_timestamps_between_lem epics (stamp_at 5 0) (stamp_at 6 0) simple held []
      (stamp_at 5 70) tt

-- A range with both rows, and one with a row of another table before them.
abbrev pub both : List TimeStamp
both = stamp_at 5 70 ∷ stamp_at 6 71 ∷ []

abbrev missing : List TimeStamp
missing = stamp_at 4 69 ∷ both

extract_buffer_complete_example :
    (b : TableBuffer Table) × (valid : List ℕ) × (columns : List (Array ℕ)) × (extract_buffer simple
        epics both
        (stamp_at 7 0)
        held
      ≡ ok (b, record { original_type = of_scalar ScalarType.bool; elems = valid } ∷ columns))
    × IsValid simple b
    × (rows simple b ≡ [])
    × (length columns ≡ 1)
    × AllHold simple epics both (stamp_at 7 0) 0 (rows simple held) valid columns
unfolding get_column_as_uint get_column_as_void get_column find_member text_eq stamp_gt stamp_le
    stamp_lt stamp_eq
extract_buffer_complete_example =
    extract_buffer_complete simple epics both (stamp_at 7 0) held type4
      ((ScalarType.float64, refl), tt) held-IsValid refl refl (refl, (refl, tt))
      ((omega arith, tt), ((omega arith, tt), tt))

extract_buffer-ahead_example :
    (b : TableBuffer Table) × (valid : List ℕ) × (columns : List (Array ℕ)) × (extract_buffer simple
        epics missing
        (stamp_at 7 0)
        held
      ≡ ok (b, record { original_type = of_scalar ScalarType.bool; elems = valid } ∷ columns))
    × (length valid ≡ 3)
    × All (λ x. x ≡ 0) valid
    × (rows simple b ≡ [])
unfolding get_column_as_uint get_column_as_void get_column find_member text_eq stamp_gt stamp_le
    stamp_lt stamp_eq
extract_buffer-ahead_example =
    extract_buffer-ahead simple epics missing (stamp_at 7 0) held type4 (stamp_at 4 69)
      ((ScalarType.float64, refl), tt) held-IsValid refl refl (refl, (refl, tt))
