-- ===== src/Stacker/Runs.antt =====
-- `Stacker` over a run of samples.
use bsas_sc.Common.{◌≡◌, refl, List, [], ◌∷◌, ◌++◌, map, Result, ok, ◌>>=◌, some}
use mathlib.Core.List.{flatten}
use bsas_sc.Pvxs.{Pvxs}
use bsas_sc.Table.{TimeTable, create_table}
use bsas_sc.Stacker.{
  EpicsDiff, Config, from_columns_config, Sample, Stacker, new_stacker, time_table_scalar, push,
}
use bsas_sc.Stacker.Samples.{
  Collected, collect, collect_all, IsCollected, AreRising, collect_all-IsCollected,
  collect_all-samples,
}
use bsas_sc.Table.Columns.{time_table_of_columns-total}
use bsas_sc.Stacker.Contents.{sample_columns, columns-table_of}
use bsas_sc.Stacker.Refine.{column_if-nil, stacker_of, table_of, concrete, push-concrete}

-- The type of the tables.
time_table_scalar-total : (config : Config) → (t : TimeTable) × (time_table_scalar config ≡ ok t)
unfolding time_table_scalar
time_table_scalar-total config =
    let (t, made, cols, data_cols) = time_table_of_columns-total (from_columns_config config) in
    (t, made)

module _ (p : Pvxs) (k : EpicsDiff) where
  open p use {Elem, Value}
  open k use {Double}

  -- `push` called with one sample after another.
  unfoldable pub push_all :
      Stacker Double Elem Value → List (Sample Elem) → Result (Stacker Double Elem Value)
  push_all s [] = ok s
  push_all s (x ∷ xs) = push p k s x >>= λ t. push_all t xs

module _ (p : Pvxs) (k : EpicsDiff) (config : Config) (period : k.Double) (type : TimeTable) where
  open p use {Elem, Value}

  push_all-concrete :
      (q : Collected Elem) (xs : List (Sample Elem))
      → push_all p k (concrete p k config period type q) xs
        ≡ ok (concrete p k config period type (collect_all k period q xs))
  unfolding push_all collect_all
  push_all-concrete q [] = refl
  push_all-concrete q (x ∷ xs) =
      rw (push-concrete p k config period type q x) (push_all-concrete (collect k period q x) xs)

  new_stacker-concrete :
      time_table_scalar config ≡ ok type
      → new_stacker p k config period
        ≡ ok (
          concrete p k config period type (record { posted = []; current = [] }),
          create_table p type,
        )
  unfolding new_stacker
  new_stacker-concrete e =
      rw
        (
          e,
          column_if-nil {A = Elem} config.utag,
          column_if-nil {A = Elem} config.alarm_sev,
          column_if-nil {A = Elem} config.alarm_cond,
          column_if-nil {A = Elem} config.alarm_message,
        )
        refl

module _ (p : Pvxs) (k : EpicsDiff) where
  open p use {Elem, Value}

  -- The values are tables with exactly the samples of the batches, in their order.
  abbrev pub Hold : Config → List Value → List (List (Sample Elem)) → Type 0
  Hold config [] [] = Unit
  Hold config [] (b ∷ bs) = ⊥
  Hold config (v ∷ vs) [] = ⊥
  Hold config (v ∷ vs) (b ∷ bs) =
      (p.columns v ≡ some (sample_columns p config b)) × Hold config vs bs

  tables-Hold :
      (config : Config) (period : k.Double) (type : TimeTable) (bs : List (List (Sample Elem)))
      → time_table_scalar config ≡ ok type
      → Hold config (map (table_of p k config period type) bs) bs
  tables-Hold config period type [] e = tt
  tables-Hold config period type (b ∷ bs) e =
      (columns-table_of p k config period type b e, tables-Hold config period type bs e)

  -- The constructor and then `push` of each sample always succeed. Every posted value has the columns of
  -- the samples of one batch: their seconds, nanoseconds, values, and what else is configured, and an empty
  -- `pulseId`. The batches are those that `collect_all` makes of the samples, where a sample that is not
  -- later than the last one held is dropped with all that are held. None is empty, each is in the order of
  -- strictly increasing times, and no sample in it is a period or more after its first. The samples not
  -- yet posted are such a batch too.
  pub push_all-posts :
      (config : Config) (period : k.Double) (xs : List (Sample Elem))
      → (type : TimeTable) × (initial : Value) × (s : Stacker k.Double Elem Value) × (posted : List
          Value)
        × (new_stacker p k config period ≡ ok (s, initial))
        × (let q = collect_all k period (record { posted = []; current = [] }) xs in
            (push_all p k s xs ≡ ok (stacker_of p k config period type posted q.current))
            × Hold config posted q.posted
            × IsCollected k period q)
  push_all-posts config period xs =
      let (type, e) = time_table_scalar-total config in
      let q = collect_all k period (record { posted = []; current = [] }) xs in
      (
        type,
        create_table p type,
        concrete p k config period type (record { posted = []; current = [] }),
        map (table_of p k config period type) q.posted,
        new_stacker-concrete p k config period type e,
        (
          push_all-concrete p k config period type (record { posted = []; current = [] }) xs,
          tables-Hold config period type q.posted e,
          collect_all-IsCollected k period (record { posted = []; current = [] }) xs
              (record { batches = tt; batch = tt }),
        ),
      )

  -- Where each sample is later than the one before, none is lost and none is moved: the samples whose
  -- times, values and configured fields are the columns of the posted values, in their order, and then
  -- those still held are the samples pushed.
  pub push_all-samples :
      (config : Config) (period : k.Double) (xs : List (Sample Elem))
      → AreRising k xs
      → (type : TimeTable) × (initial : Value) × (s : Stacker k.Double Elem Value) × (posted : List
          Value)
        × (batches : List (List (Sample Elem))) × (current : List (Sample Elem)) × (new_stacker p k
              config period
            ≡ ok (s, initial))
        × (push_all p k s xs ≡ ok (stacker_of p k config period type posted current))
        × Hold config posted batches
        × (flatten batches ++ current ≡ xs)
  unfolding flatten
  push_all-samples config period xs rising =
      let (type, initial, s, posted, made, (run, held, h)) = push_all-posts config period xs in
      let q = collect_all k period (record { posted = []; current = [] }) xs in
      (
        type,
        initial,
        s,
        posted,
        q.posted,
        q.current,
        made,
        run,
        held,
        collect_all-samples k period (record { posted = []; current = [] }) xs rising,
      )
