-- ===== src/Manager/Compaction/Steps.antt =====
-- The compactions of sstable_manager.rs that merge tables: `size_tiered_compact_l0`, `compact_l1_to_l2` and
-- `maybe_compact`, over the files, the levels, the manifest and the counter of the paths. What a merge wrote
-- before it failed is left out.
use arch_db.Prelude.{
  ℕ, zero, suc, ◌+◌, Bool, true, false, none, some, List, [], ◌∷◌, length, leb, ◌==◌, get_elem?,
  if◌then◌else◌, Result, ok, err, panic, ◌>>=◌, io, not_found,
}
use mathlib.Core.List.{reverse}
use arch_db.Prelude.Str.{Str}
use arch_db.Sstable.Formats.{Formats}
use arch_db.Manager.{Level, SsTable, Levels, CompactionCandidate, register_table, pick_l0, pick_l1}
use arch_db.Manager.Manifest
use arch_db.Manager.Manifest.{
  ManifestRecord, add_table, remove_table, Manifest, should_checkpoint, checkpoint_manifest,
}
use arch_db.Manager.Compaction.{
  Store, CreatedTable, MergeOutput, put_file, candidate_tables, write_merged_tables,
}

-- A call and the call after it, which an error or a panic of the first leaves out.
abbrev pub and_then :
    Store × Result (Unit {0}) → (Store → Store × Result (Unit {0})) → Store × Result (Unit {0})
and_then (s, panic) next = (s, panic)
and_then (s, err why) next = (s, err why)
and_then (s, ok done) next = next s

module _ (env : Formats) where
  abbrev sorted_down : ℕ → List ℕ → List ℕ
  sorted_down i [] = i ∷ []
  sorted_down i (j ∷ js) = if leb j i then i ∷ j ∷ js else j ∷ sorted_down i js

  -- `sort_by(|a, b| b.cmp(a))`
  unfoldable pub sort_down : List ℕ → List ℕ
  sort_down [] = []
  sort_down (i ∷ is) = sorted_down i (sort_down is)

  abbrev removed_at : List SsTable → ℕ → List SsTable
  removed_at [] i = []
  removed_at (t ∷ ts) zero = ts
  removed_at (t ∷ ts) (suc i) = t ∷ removed_at ts i

  abbrev pub tables_of : Level → Levels → List SsTable
  tables_of Level.l0 m = m.l0
  tables_of Level.l1 m = m.l1
  tables_of Level.l2 m = m.l2

  abbrev pub with_tables : Level → List SsTable → Levels → Levels
  with_tables Level.l0 ts m = record m { l0 = ts }
  with_tables Level.l1 ts m = record m { l1 = ts }
  with_tables Level.l2 ts m = record m { l2 = ts }

  -- `fs::remove_file`
  unfoldable pub remove_file : Str → Store → Store × Result (Unit {0})
  remove_file path s = elim (s.disk path) [
    | none ↦ (s, err (io not_found))
    | some file ↦ (record s { disk = put_file s.disk path none }, ok tt)
  ]

  -- The body of the loop of `remove_tables`: `remove` of the vector, the manifest, the file.
  unfoldable pub remove_table_at : Level → ℕ → Store → Store × Result (Unit {0})
  unfolding remove_file Manifest.append
  remove_table_at level i s = elim (get_elem? (tables_of level s.levels) i) [
    | none ↦ (s, panic)
    | some t ↦ remove_file t.path (record s {
      levels = with_tables level (removed_at (tables_of level s.levels) i) s.levels;
      manifest = Manifest.append (remove_table t.path) s.manifest;
    })
  ]

  unfoldable pub remove_each : Level → List ℕ → Store → Store × Result (Unit {0})
  unfolding remove_table_at
  remove_each level [] s = (s, ok tt)
  remove_each level (i ∷ is) s = and_then (remove_table_at level i s) (remove_each level is)

  -- `remove_l0_tables`, and likewise those of the other levels
  unfoldable pub remove_tables : Level → List ℕ → Store → Store × Result (Unit {0})
  unfolding sort_down remove_each
  remove_tables level indices s = remove_each level (sort_down indices) s

  -- `add_table`
  unfoldable pub add_to_levels : SsTable → Store → Store
  unfolding register_table Manifest.append
  add_to_levels t s = record s {
    levels = register_table t s.levels;
    manifest =
        Manifest.append (add_table t.level t.path t.min_key t.max_key t.file_size) s.manifest;
  }

  unfoldable pub install_table : Level → CreatedTable → Store → Store
  unfolding add_to_levels should_checkpoint checkpoint_manifest
  install_table level t s =
      let table : SsTable = record {
        path = t.path;
        index = t.index;
        bloom = t.bloom;
        level = level;
        min_key = t.min_key;
        max_key = t.max_key;
        file_size = t.file_size;
      } in
      let added = add_to_levels table s in
      if should_checkpoint added.manifest
      then record added { manifest = checkpoint_manifest added.levels added.manifest }
      else added

  unfoldable pub install_tables : Level → List CreatedTable → Store → Store
  unfolding install_table
  install_tables level [] s = s
  install_tables level (t ∷ ts) s = install_tables level ts (install_table level t s)

  -- The tables of a candidate as one stream, in tables of the level
  unfoldable pub merge_candidate :
      ℕ → CompactionCandidate → Level → Bool → Store → Result MergeOutput
  unfolding candidate_tables write_merged_tables
  merge_candidate fuel c level drop_tombstones s = do
    tables ← candidate_tables c s.levels
    write_merged_tables env fuel s.disk (s.counter + 1) tables level drop_tombstones

  abbrev pub after_merge :
      Store
      → Result MergeOutput
      → (List CreatedTable → Store → Store × Result (Unit {0}))
      → Store × Result (Unit {0})
  after_merge s panic next = (s, panic)
  after_merge s (err why) next = (s, err why)
  after_merge s (ok o) next = next o.created (record s { disk = o.disk; counter = o.counter })

  unfoldable pub size_tiered_compact_l0 :
      ℕ → CompactionCandidate → Store → Store × Result (Unit {0})
  unfolding merge_candidate remove_tables install_tables
  size_tiered_compact_l0 fuel c s =
      if length c.input_tables == 0
      then (s, ok tt)
      else after_merge s (merge_candidate fuel c Level.l1 false s) (λ created s'.
        and_then (remove_tables Level.l0 c.input_tables s')
          (λ s''. (install_tables Level.l1 created s'', ok tt)))

  -- The overlapping tables are removed in the reverse of their order; the manifest names the table of L1
  -- and its file is removed before it leaves the level.
  unfoldable pub remove_first : ℕ → Store → Store × Result (Unit {0})
  unfolding remove_file Manifest.append
  remove_first i s = elim (get_elem? s.levels.l1 i) [
    | none ↦ (s, panic)
    | some t ↦
        and_then
          (remove_file t.path
            (record s { manifest = Manifest.append (remove_table t.path) s.manifest }))
          (λ s'.
            (record s' { levels = record s'.levels { l1 = removed_at s'.levels.l1 i } }, ok tt))
  ]

  unfoldable pub compact_l1_to_l2 : ℕ → CompactionCandidate → Store → Store × Result (Unit {0})
  unfolding merge_candidate remove_each remove_first install_tables
  compact_l1_to_l2 fuel c s = elim c.input_tables [
    | [] ↦ (s, panic)
    | i ∷ is ↦ after_merge s (merge_candidate fuel c Level.l2 true s) (λ created s'.
        and_then (remove_each Level.l2 (reverse c.output_tables) s')
          (λ s''. and_then (remove_first i s'') (λ t. (install_tables Level.l2 created t, ok tt))))
  ]

  -- `if let Some(candidate) = CompactionPicker::pick_l0(self) { … }`
  unfoldable pub compact_picked_l0 : ℕ → Store → Store × Result (Unit {0})
  unfolding pick_l0 size_tiered_compact_l0
  compact_picked_l0 fuel s = elim (pick_l0 s.levels) [
    | none ↦ (s, ok tt)
    | some c ↦ size_tiered_compact_l0 fuel c s
  ]

  -- The strategy is always `Leveled`.
  unfoldable pub maybe_compact : ℕ → Store → Store × Result (Unit {0})
  unfolding compact_picked_l0 pick_l1 compact_l1_to_l2
  maybe_compact fuel s =
      and_then (compact_picked_l0 fuel s) (λ s'. elim (pick_l1 s'.levels) [
        | none ↦ (s', ok tt)
        | some c ↦ compact_l1_to_l2 fuel c s'
      ])
