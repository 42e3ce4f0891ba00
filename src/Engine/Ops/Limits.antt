-- ===== src/Engine/Ops/Limits.antt =====
-- The memtable between the calls: sorted, and smaller than its limit after every call that succeeds.
use arch_db.Prelude.{
  ℕ, ◌<◌, ◌≡◌, refl, [], ◌∷◌, arith, Result, ok, err, panic, leb, length, Bool-cases, inl, inr,
  if_true, if_false, ap, ◌∙◌, sym, subst,
}
use arch_db.Prelude.Str.{Str}
use arch_db.Prelude.TreeMap.{TreeMap, IsSorted, insert-IsSorted}
use arch_db.Value.{Value, data_of, tombstone}
use arch_db.Command.{Command}
use arch_db.Sstable.Formats.{Formats, Disk}
use arch_db.Manager.{Levels}
use arch_db.Engine.{add_memtable}
use arch_db.Engine.Ops.{
  Engine, cleared, settle, flush_to_sstable, flush_next, maybe_flush, replay_command, record_write,
  put, delete,
}
use arch_db.Engine.Ops.Restart.{Write, putting, deleting}

-- The engine is ready for the next call.
pub record IsReady (limit : ℕ) (e : Engine) : Type 0 where
  pub sorted : IsSorted e.memtable
  pub below : length e.memtable < limit
  pub same_limit : e.memtable_limit ≡ limit

replay_command-IsSorted :
    (c : Command) (m : TreeMap Value) → IsSorted m → IsSorted (replay_command c m)
unfolding replay_command
replay_command-IsSorted (Command.set key value) m s = insert-IsSorted key (data_of value) m s
replay_command-IsSorted (Command.del key) m s = insert-IsSorted key tombstone m s
replay_command-IsSorted (Command.get key) m s = s
replay_command-IsSorted Command.exit m s = s
replay_command-IsSorted Command.invalid m s = s
replay_command-IsSorted Command.compact m s = s
replay_command-IsSorted (Command.scan start end) m s = s

empty-IsReady :
    (limit : ℕ) (e : Engine)
    → 0 < limit
    → e.memtable_limit ≡ limit
    → e.memtable ≡ []
    → IsReady limit e
empty-IsReady limit e positive same empty = record {
  sorted = subst IsSorted (sym empty) tt;
  below = subst (λ m. length m < limit) (sym empty) positive;
  same_limit = same;
}

cleared_lem : (r : Result (Unit {0})) (m : TreeMap Value) → r ≡ ok tt → cleared r m ≡ []
cleared_lem r m h = ap (λ x. cleared x m) h

module _ (env : Formats) where
  settle-IsReady :
      (fuel : ℕ) (e : Engine) (made : Disk × Levels)
      → 0 < e.memtable_limit
      → (settle env fuel e made).1 ≡ ok tt
      → IsReady e.memtable_limit (settle env fuel e made).0
  unfolding settle
  settle-IsReady fuel e made positive h =
      empty-IsReady e.memtable_limit (settle env fuel e made).0 positive refl
        (cleared_lem _ e.memtable h)

  abbrev made_of : ℕ → Engine → Result (Disk × Levels) → Engine × Result (Unit {0})
  made_of fuel e made = elim made [
    | panic ↦ (e, panic)
    | err why ↦ (e, err why)
    | ok made' ↦ settle env fuel e made'
  ]

  made_of-IsReady :
      (fuel : ℕ) (e : Engine) (made : Result (Disk × Levels))
      → 0 < e.memtable_limit
      → (made_of fuel e made).1 ≡ ok tt
      → IsReady e.memtable_limit (made_of fuel e made).0
  made_of-IsReady fuel e panic positive h = cc
  made_of-IsReady fuel e (err why) positive h = cc
  made_of-IsReady fuel e (ok made) positive h = settle-IsReady fuel e made positive h

  abbrev flush_of : ℕ → Str → Engine → TreeMap Value → Engine × Result (Unit {0})
  flush_of fuel path e memtable = elim memtable [
    | [] ↦ (e, ok tt)
    | entry ∷ entries ↦
        made_of fuel e (add_memtable env e.store.disk path e.memtable e.store.levels)
  ]

  flush_of-IsReady :
      (fuel : ℕ) (path : Str) (e : Engine) (memtable : TreeMap Value)
      → e.memtable ≡ memtable
      → 0 < e.memtable_limit
      → (flush_of fuel path e memtable).1 ≡ ok tt
      → IsReady e.memtable_limit (flush_of fuel path e memtable).0
  flush_of-IsReady fuel path e [] same positive h =
      empty-IsReady e.memtable_limit e positive refl same
  flush_of-IsReady fuel path e (entry ∷ entries) same positive h =
      made_of-IsReady fuel e _ positive h

  flush_to_sstable-IsReady :
      (fuel : ℕ) (path : Str) (e : Engine)
      → 0 < e.memtable_limit
      → (flush_to_sstable env fuel path e).1 ≡ ok tt
      → IsReady e.memtable_limit (flush_to_sstable env fuel path e).0
  unfolding flush_to_sstable
  flush_to_sstable-IsReady fuel path e positive h =
      flush_of-IsReady fuel path e e.memtable refl positive h

  maybe_flush-IsReady :
      (fuel : ℕ) (e : Engine)
      → IsSorted e.memtable
      → 0 < e.memtable_limit
      → (maybe_flush env fuel e).1 ≡ ok tt
      → IsReady e.memtable_limit (maybe_flush env fuel e).0
  unfolding maybe_flush flush_next
  maybe_flush-IsReady fuel e s positive h =
      elim (Bool-cases (leb e.memtable_limit (length e.memtable))) [
        | inl full ↦
            let flushed =
              if_true (leb e.memtable_limit (length e.memtable)) (flush_next env fuel e) (e, ok tt)
                full in
            subst (λ r. IsReady e.memtable_limit r.0) (sym flushed)
              (flush_to_sstable-IsReady fuel _ _ positive (ap (λ r. r.1) (sym flushed) ∙ h))
        | inr room ↦
            subst (λ r. IsReady e.memtable_limit r.0)
              (sym (
                if_false (leb e.memtable_limit (length e.memtable)) (flush_next env fuel e)
                  (e, ok tt) room))
              (record { sorted = s; below = ground (arith, room); same_limit = refl })
      ]

  -- A call of `put` or `delete`, with its result
  unfoldable pub call : ℕ → ℕ × Write → Engine → Engine × Result (Unit {0})
  unfolding put delete
  call fuel (now, putting key value) e = put env fuel now key value e
  call fuel (now, deleting key) e = delete env fuel now key e

  -- From an engine with a sorted memtable and a positive limit, every call of `put` or `delete` that succeeds
  -- leaves a sorted memtable of fewer keys than the limit, and the same limit.
  pub call-IsReady :
      (fuel : ℕ) (w : ℕ × Write) (e : Engine)
      → IsSorted e.memtable
      → 0 < e.memtable_limit
      → (call fuel w e).1 ≡ ok tt
      → IsReady e.memtable_limit (call fuel w e).0
  unfolding call put delete record_write
  call-IsReady fuel (now, putting key value) e s positive h =
      maybe_flush-IsReady fuel (record_write env now (Command.set key value) e)
        (replay_command-IsSorted (Command.set key value) e.memtable s) positive h
  call-IsReady fuel (now, deleting key) e s positive h =
      maybe_flush-IsReady fuel (record_write env now (Command.del key) e)
        (replay_command-IsSorted (Command.del key) e.memtable s) positive h
