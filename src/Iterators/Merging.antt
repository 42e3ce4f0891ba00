-- ===== src/Iterators/Merging.antt =====
-- merge_iterator.rs and unified_storage_iterator.rs: several iterators as one. The heap is the list of its
-- items, the one that `pop` gives first: no two items are equal, since each iterator has at most one.
use arch_db.Prelude.{
  ℕ, zero, suc, ◌+◌, Bool, true, false, not, ◌&&◌, ◌||◌, Option, none, some, List, [], ◌∷◌, ltb,
  set, get_elem?, if◌then◌else◌, Result, ok, panic, ◌>>=◌,
}
use arch_db.Prelude.Str.{Str, str_lt, str_eq}
use arch_db.Value.{Value, data_of, tombstone, BlockRecord}
use arch_db.Iterators.{StorageIterator}

pub record HeapItem : Type 0 where
  pub key : Str
  pub value : Value
  pub iter_index : ℕ

-- `Ord` of merge_iterator.rs: of equal keys the one of the higher index is greater.
unfoldable pub newer_first : HeapItem → HeapItem → Bool
newer_first a b = str_lt a.key b.key || (str_eq a.key b.key && ltb b.iter_index a.iter_index)

-- `Ord` of unified_storage_iterator.rs: of equal keys the one of the lower index is greater.
unfoldable pub lower_first : HeapItem → HeapItem → Bool
lower_first a b = str_lt a.key b.key || (str_eq a.key b.key && ltb a.iter_index b.iter_index)

-- `BinaryHeap::push`
unfoldable pub heap_push : (HeapItem → HeapItem → Bool) → HeapItem → List HeapItem → List HeapItem
heap_push first a [] = a ∷ []
heap_push first a (b ∷ bs) =
    let later = heap_push first a bs in if first a b then a ∷ b ∷ bs else b ∷ later

abbrev pub item_of : BlockRecord → ℕ → HeapItem
item_of r i = record { key = r.key; value = r.value; iter_index = i }

-- Both merging iterators; `UnifiedStorageIterator` has no `drop_tombstones`.
pub record MergeIterator (It : Type 0) : Type 0 where
  pub iters : List It
  pub heap : List HeapItem
  pub drop_tombstones : Bool

abbrev pub push_found :
    (HeapItem → HeapItem → Bool) → Option BlockRecord → ℕ → List HeapItem → List HeapItem
push_found first found i heap = elim found [
  | none ↦ heap
  | some r ↦ heap_push first (item_of r i) heap
]

abbrev is_tombstone : Value → Bool
is_tombstone (data_of v) = false
is_tombstone tombstone = true

module _ {It : Type 0} (inner : StorageIterator It) (first : HeapItem → HeapItem → Bool) where
  -- The loop of `new`, over the iterators from the index `i` on
  unfoldable pub fill : ℕ → List It → List HeapItem → Result (List It × List HeapItem)
  unfolding heap_push
  fill i [] heap = ok ([], heap)
  fill i (it ∷ its) heap = do
    (found, it') ← inner.next it
    (its', heap') ← fill (i + 1) its (push_found first found i heap)
    ok (it' ∷ its', heap')

  unfoldable pub new : List It → Bool → Result (MergeIterator It)
  unfolding fill
  new iters drop_tombstones = do
    (iters', heap) ← fill 0 iters []
    ok (record { iters = iters'; heap = heap; drop_tombstones = drop_tombstones })

  -- `if let Some(record) = self.iters[i].next()? { self.heap.push(…) }`
  unfoldable pub advance : ℕ → MergeIterator It → Result (MergeIterator It)
  unfolding heap_push
  advance i m = elim (get_elem? m.iters i) [
    | none ↦ panic
    | some it ↦ do
      (found, it') ← inner.next it
      ok (record m { iters = set m.iters i it'; heap = push_found first found i m.heap })
  ]

  -- The `while` loop. The fuel exceeds the number of records that the iterators still give;
  -- less of it ends in a panic.
  unfoldable pub drop_duplicates : ℕ → Str → MergeIterator It → Result (MergeIterator It)
  unfolding advance
  drop_duplicates zero key m = panic
  drop_duplicates (suc fuel) key m = elim m.heap [
    | [] ↦ ok m
    | top ∷ later ↦
        if not (str_eq top.key key)
        then ok m
        else do m' ← advance top.iter_index (record m { heap = later }); drop_duplicates fuel key m'
  ]

  -- `next` of `MergeIterator`
  unfoldable pub merge_next : ℕ → MergeIterator It → Result (Option BlockRecord × MergeIterator It)
  unfolding drop_duplicates advance
  merge_next zero m = panic
  merge_next (suc fuel) m = elim m.heap [
    | [] ↦ ok (none, m)
    | item ∷ later ↦ do
      unique ← drop_duplicates (suc fuel) item.key (record m { heap = later })
      m' ← advance item.iter_index unique
      if m.drop_tombstones && is_tombstone item.value
          then merge_next fuel m'
          else ok (some (record { key = item.key; value = item.value }), m')
  ]

  -- `next` of `UnifiedStorageIterator`
  unfoldable pub unified_next :
      ℕ → MergeIterator It → Result (Option BlockRecord × MergeIterator It)
  unfolding drop_duplicates advance
  unified_next fuel m = elim m.heap [
    | [] ↦ ok (none, m)
    | item ∷ later ↦ do
      m' ← advance item.iter_index (record m { heap = later })
      unique ← drop_duplicates fuel item.key m'
      ok (some (record { key = item.key; value = item.value }), unique)
  ]
