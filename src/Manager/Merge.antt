-- ===== src/Manager/Merge.antt =====
-- The merge of `compact`: what it keeps for a key is what the table read last says of it.
use arch_db.Prelude.{
  ◌≡◌, refl, Bool, true, false, Option, none, some, List, [], ◌∷◌, ◌++◌, ap, sym, subst, ◌∙◌, ok,
  ◌>>=◌, if◌then◌else◌, arith,
}
use mathlib.Core.List.{reverse, reverse-cons}
use arch_db.Prelude.Str.{Str, str_eq, str_eq_iff, str_cmp-eq}
use arch_db.Prelude.TreeMap
use arch_db.Prelude.TreeMap.{TreeMap, lookup, IsSorted}
use arch_db.Prelude.Dict
use arch_db.Prelude.Dict.{Dict, IsDict, str_eq_instance}
use arch_db.Value.{Value, data_of, tombstone, BlockRecord, find}
use arch_db.Sstable.Formats.{Formats, Disk}
use arch_db.Sstable.Index.Search.{all_records}
use arch_db.Sstable.Reader.{read_sstable}
use arch_db.Manager.{
  SsTable, Levels, merge_record, merge_records, insert_entry, sort_entries, merge_tables, merge_all,
}
use arch_db.Manager.Reads.{or_else, find-append}

-- A tombstone keeps nothing, and where nothing is said the value before stays.
abbrev pub kept : Option Value → Option Value → Option Value
kept none before = before
kept (some (data_of v)) before = some (data_of v)
kept (some tombstone) before = none

merge_record-IsDict : (r : BlockRecord) (m : Dict Str Value) → IsDict m → IsDict (merge_record r m)
unfolding merge_record
merge_record-IsDict r m s = by_value r.value
  where
    by_value : (v : Value) → IsDict (merge_record (record r { value = v }) m)
    by_value (data_of v) = Dict.insert-IsDict r.key (data_of v) m s
    by_value tombstone = Dict.remove-IsDict r.key m s

lookup-merge_record :
    (key : Str) (r : BlockRecord) (m : Dict Str Value)
    → IsDict m
    → Dict.lookup key (merge_record r m) ≡ kept (find key (r ∷ [])) (Dict.lookup key m)
unfolding merge_record find
lookup-merge_record key r m s = by_value r.value
  where
    by_test :
        (b : Bool) (v : Str)
        → (if b then some (data_of v) else Dict.lookup key m)
          ≡ kept (if b then some (data_of v) else none) (Dict.lookup key m)
    by_test true v = refl
    by_test false v = refl

    removed :
        (b : Bool)
        → (if b then none else Dict.lookup key m)
          ≡ kept (if b then some tombstone else none) (Dict.lookup key m)
    removed true = refl
    removed false = refl

    by_value :
        (v : Value)
        → Dict.lookup key (merge_record (record r { value = v }) m)
          ≡ kept (if str_eq r.key key then some v else none) (Dict.lookup key m)
    by_value (data_of v) = Dict.lookup-insert r.key key (data_of v) m ∙ by_test (str_eq r.key key) v
    by_value tombstone = Dict.lookup-remove r.key key m s ∙ removed (str_eq r.key key)

kept_lem : (a b before : Option Value) → kept a (kept b before) ≡ kept (or_else a b) before
kept_lem none b before = refl
kept_lem (some (data_of v)) b before = refl
kept_lem (some tombstone) b before = refl

kept-append :
    (key : Str) (rs : List BlockRecord) (r : BlockRecord) (before : Option Value)
    → kept (find key rs) (kept (find key (r ∷ [])) before) ≡ kept (find key (rs ++ r ∷ [])) before
kept-append key rs r before =
    kept_lem (find key rs) (find key (r ∷ [])) before
    ∙ ap (λ f. kept f before) (sym (find-append key rs (r ∷ [])))

merge_records-IsDict :
    (rs : List BlockRecord) (m : Dict Str Value) → IsDict m → IsDict (merge_records rs m)
unfolding merge_records
merge_records-IsDict [] m s = s
merge_records-IsDict (r ∷ rs) m s =
    merge_records-IsDict rs (merge_record r m) (merge_record-IsDict r m s)

lookup-merge_records :
    (key : Str) (rs : List BlockRecord) (m : Dict Str Value)
    → IsDict m
    → Dict.lookup key (merge_records rs m) ≡ kept (find key (reverse rs)) (Dict.lookup key m)
unfolding merge_records
lookup-merge_records key [] m s = unfold find in refl
lookup-merge_records key (r ∷ rs) m s =
    lookup-merge_records key rs (merge_record r m) (merge_record-IsDict r m s)
    ∙ ap (kept (find key (reverse rs))) (lookup-merge_record key r m s)
    ∙ kept-append key (reverse rs) r (Dict.lookup key m)
    ∙ ap (λ l. kept (find key l) (Dict.lookup key m)) (sym (reverse-cons r rs))

merge_records-append :
    (rs ss : List BlockRecord) (m : Dict Str Value)
    → merge_records ss (merge_records rs m) ≡ merge_records (rs ++ ss) m
unfolding merge_records
merge_records-append [] ss m = refl
merge_records-append (r ∷ rs) ss m = merge_records-append rs ss (merge_record r m)

insert_entry-insert :
    (k : Str) (v : Value) (m : TreeMap Value)
    → TreeMap.lookup k m ≡ none
    → insert_entry (k, v) m ≡ TreeMap.insert k v m
unfolding insert_entry TreeMap.insert TreeMap.lookup
insert_entry-insert k v [] h = refl
insert_entry-insert k v ((j, w) ∷ m) h =
    ground (arith, h, str_cmp-eq k j, str_eq_iff j k, insert_entry-insert k v m)

-- The sorted entries are the map.
record Sorts (m : Dict Str Value) : Type 0 where
  sorted : IsSorted (sort_entries m)
  same : (key : Str) → TreeMap.lookup key (sort_entries m) ≡ Dict.lookup key m

sort_entries-Sorts : (m : Dict Str Value) → IsDict m → Sorts m
unfolding sort_entries
sort_entries-Sorts [] d = record {
  sorted = tt;
  same = λ key. unfold TreeMap.lookup Dict.lookup in refl;
}
sort_entries-Sorts ((j, v) ∷ m) d =
    let later = sort_entries-Sorts m d.1 in
    let added =
      insert_entry-insert j v (sort_entries m) (later.same j ∙ Dict.lookup_absent j m d.0) in
    record {
      sorted =
          subst IsSorted (sym added) (TreeMap.insert-IsSorted j v (sort_entries m) later.sorted);
      same = λ key.
          ap (TreeMap.lookup key) added
          ∙ TreeMap.lookup-insert j key v (sort_entries m)
          ∙ ap (λ x. if str_eq j key then some v else x) (later.same key)
          ∙ unfold Dict.lookup in refl;
    }

module _ (env : Formats) where
  -- The tables are read as these records.
  abbrev pub AllRead : Disk → List SsTable → List (List BlockRecord) → Type 0
  AllRead disk [] [] = Unit {0}
  AllRead disk (t ∷ ts) (g ∷ gs) = (read_sstable env disk t.path ≡ ok g) × AllRead disk ts gs
  AllRead disk _ _ = ⊥

  merge_tables_step :
      (disk : Disk) (t : SsTable) (ts : List SsTable) (g : List BlockRecord) (m : Dict Str Value)
      → read_sstable env disk t.path ≡ ok g
      → merge_tables env disk (t ∷ ts) m ≡ merge_tables env disk ts (merge_records g m)
  unfolding merge_tables
  merge_tables_step disk t ts g m e =
      ap (λ x. x >>= λ records. merge_tables env disk ts (merge_records records m)) e

  merge_tables-AllRead :
      (disk : Disk) (ts : List SsTable) (gs : List (List BlockRecord)) (m : Dict Str Value)
      → AllRead disk ts gs
      → merge_tables env disk ts m ≡ ok (merge_records (all_records gs) m)
  merge_tables-AllRead disk [] [] m a = unfold merge_tables merge_records in refl
  merge_tables-AllRead disk [] (g ∷ gs) m a = absurd a
  merge_tables-AllRead disk (t ∷ ts) [] m a = absurd a
  merge_tables-AllRead disk (t ∷ ts) (g ∷ gs) m a =
      merge_tables_step disk t ts g m a.0
      ∙ merge_tables-AllRead disk ts gs (merge_records g m) a.1
      ∙ ap ok (merge_records-append g (all_records gs) m)

  -- When the tables are read as records, those of L0 before those of L1 and L2, the merge succeeds and is
  -- sorted; for a key it has the value of the last of these records with the key, unless it is a tombstone.
  pub lookup-merge_all :
      (disk : Disk) (m : Levels) (gs : List (List BlockRecord)) (key : Str)
      → AllRead disk (m.l0 ++ (m.l1 ++ m.l2)) gs
      → (merged : TreeMap Value) × (merge_all env disk m ≡ ok merged)
        × IsSorted merged
        × (lookup key merged ≡ kept (find key (reverse (all_records gs))) none)
  unfolding merge_all
  lookup-merge_all disk m gs key a =
      let rs = all_records gs in
      let merged = merge_records rs [] in
      let sorts = sort_entries-Sorts merged (merge_records-IsDict rs [] tt) in
      (
        sort_entries merged,
        ap (λ x. x >>= λ entries. ok (sort_entries entries))
            (merge_tables-AllRead disk (m.l0 ++ (m.l1 ++ m.l2)) gs [] a),
        sorts.sorted,
        sorts.same key ∙ lookup-merge_records key rs [] tt ∙ unfold Dict.lookup in refl,
      )
