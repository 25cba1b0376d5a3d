-- ===== src/Tests/Aligned.antt =====
-- The theorems on the type of the merged table at concrete inputs.
use bsas_sc.Common.{◌≡◌, refl, [], ◌∷◌, none, some, codes, length, text_eq, ok}
use bsas_sc.Pvxs.Concrete.{simple, Table, code_eq}
use bsas_sc.Table.{
  is_valid, check_columns, find_member, get_column, get_column_as_uint, time_table_of_value, wrap,
  time_table_of_columns,
}
use bsas_sc.Buffer.{
  TableBuffer, empty_buffer, ensure_type, push, append, initialized, update_timestamps, refresh,
  refresh_from, buffer_data_columns,
}
use bsas_sc.Align.{
  TimeAligned, force_initialize, merged_columns, all_initialized, keep_initialized, push_at,
}
use bsas_sc.Align
use bsas_sc.Align.Pushed.{Pushed, push-Settles}
use bsas_sc.Align.Initialize.{Kept, HasMergedType, Settles, force_initialize_lem}
use bsas_sc.Tests.{stamp_at, two_rows, type4}

abbrev held : TableBuffer Table
held = record {
  type_ = some type4;
  start_ts = stamp_at 5 0;
  end_ts = stamp_at 6 0;
  buffer = two_rows ∷ [];
  inner_idx = 0;
}

-- A buffer that holds a table, and one that has never seen one.
abbrev waiting : TimeAligned Table
waiting = record {
  label_sep = codes ".";
  col_sep = codes "_";
  buffers = (65 ∷ [], held) ∷ (66 ∷ [], empty_buffer) ∷ [];
  type_ = none;
}

force_initialize_lem_example :
    (u : TimeAligned Table) × (force_initialize waiting ≡ ok (u, length u.buffers))
    × Kept waiting.buffers u.buffers
    × HasMergedType u
force_initialize_lem_example = force_initialize_lem waiting refl

-- The first value of the only buffer.
abbrev fresh : TimeAligned Table
fresh = record waiting { buffers = (65 ∷ [], empty_buffer) ∷ [] }

abbrev after : TimeAligned Table
after = (Align.push simple fresh (65 ∷ []) two_rows).0

pushed : Align.push simple fresh (65 ∷ []) two_rows ≡ (after, ok tt)
unfolding text_eq code_eq is_valid check_columns get_column_as_uint get_column find_member
    Align.push Align.after_push push_at push ensure_type empty_buffer time_table_of_value append
    wrap update_timestamps refresh_from refresh Align.initialize all_initialized initialized
    time_table_of_columns merged_columns Align.prefixed_columns buffer_data_columns
pushed = refl

push-Settles_example :
    Settles none after × Pushed simple (65 ∷ []) two_rows fresh.buffers after.buffers
push-Settles_example = push-Settles simple fresh after (65 ∷ []) two_rows pushed
