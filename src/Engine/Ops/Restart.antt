-- ===== src/Engine/Ops/Restart.antt =====
-- The engine opened again on its log: every key that was written reads as it was written last, whatever was
-- flushed and compacted in between.
use arch_db.Prelude.{
  ◌>>=◌, subst, ℕ, ◌≡◌, refl, Bool, Option, none, some, List, [], ◌∷◌, Result, ok, err, panic, ap,
  ◌∙◌, if◌then◌else◌, leb, length, inl, inr, Bool-cases, true, false, suc, ◌<◌,
}
use arch_db.Prelude.Str.{Str, str_eq}
use arch_db.Prelude.TreeMap
use arch_db.Prelude.TreeMap.{TreeMap, lookup, lookup-insert}
use arch_db.Value.{Value, data_of, tombstone}
use arch_db.Command.{Command}
use arch_db.Storage
use arch_db.Storage.{Storage, SyncPolicy, Files}
use arch_db.Storage.Recovery.{append_all, commands_of}
use arch_db.Sstable.Formats.{Formats, Disk}
use arch_db.Manager.{Levels}
use arch_db.Cache
use arch_db.Storage.Frames.{AllLogged}
use arch_db.Storage.Reopen.{load_after_restart}
use arch_db.Manager.Compaction.{Store}
use arch_db.Engine.{add_memtable}
use arch_db.Engine.Ops.{
  Engine, replay_command, replay, settle, flush_to_sstable, flush_next, maybe_flush, record_write,
  put, delete, with_storage, get_key, read_tables,
}

-- A call of `put` or of `delete`
pub data Write : Type 0 where
  putting : Str → Str → Write
  deleting : Str → Write

abbrev pub command_of : Write → Command
command_of (putting key value) = Command.set key value
command_of (deleting key) = Command.del key

abbrev pub logged_calls : List (ℕ × Write) → List (ℕ × Command)
logged_calls [] = []
logged_calls ((now, w) ∷ ws) = (now, command_of w) ∷ logged_calls ws

-- What the last of the writes has left of the key.
unfoldable pub last_write : Str → List (ℕ × Write) → Option Value
last_write key [] = none
last_write key ((now, putting k value) ∷ ws) = elim (last_write key ws) [
  | some v ↦ some v
  | none ↦ if str_eq k key then some (data_of value) else none
]
last_write key ((now, deleting k) ∷ ws) = elim (last_write key ws) [
  | some v ↦ some v
  | none ↦ if str_eq k key then some tombstone else none
]

abbrev or_before : Option Value → Option Value → Option Value
or_before found before = elim found [ some v ↦ some v | none ↦ before ]

or_before-none : (found : Option Value) → or_before found none ≡ found
or_before-none none = refl
or_before-none (some v) = refl

or_before_if :
    (found before : Option Value) (b : Bool) (v : Value)
    → or_before found (if b then some v else before)
      ≡ or_before (or_before found (if b then some v else none)) before
or_before_if (some w) before b v = refl
or_before_if none before true v = refl
or_before_if none before false v = refl

-- Replaying the writes leaves of each key the last of them, and what was there before where there is none.
lookup-replay :
    (key : Str) (ws : List (ℕ × Write)) (m : TreeMap Value)
    → lookup key (replay (commands_of (logged_calls ws)) m)
      ≡ or_before (last_write key ws) (lookup key m)
unfolding replay replay_command last_write
lookup-replay key [] m = refl
lookup-replay key ((now, putting k value) ∷ ws) m =
    lookup-replay key ws (TreeMap.insert k (data_of value) m)
    ∙ ap (or_before (last_write key ws)) (lookup-insert k key (data_of value) m)
    ∙ or_before_if (last_write key ws) (lookup key m) (str_eq k key) (data_of value)
lookup-replay key ((now, deleting k) ∷ ws) m =
    lookup-replay key ws (TreeMap.insert k tombstone m)
    ∙ ap (or_before (last_write key ws)) (lookup-insert k key tombstone m)
    ∙ or_before_if (last_write key ws) (lookup key m) (str_eq k key) tombstone

module _ (env : Formats) where
  -- The call, its result apart
  unfoldable pub perform : ℕ → ℕ × Write → Engine → Engine
  unfolding put delete
  perform fuel (now, putting key value) e = (put env fuel now key value e).0
  perform fuel (now, deleting key) e = (delete env fuel now key e).0

  unfoldable pub perform_all : ℕ → List (ℕ × Write) → Engine → Engine
  unfolding perform
  perform_all fuel [] e = e
  perform_all fuel (w ∷ ws) e = perform_all fuel ws (perform fuel w e)

  abbrev flushed : ℕ → Engine → Result (Disk × Levels) → Engine × Result (Unit {0})
  flushed fuel e made = elim made [
    | panic ↦ (e, panic)
    | err why ↦ (e, err why)
    | ok made' ↦ settle env fuel e made'
  ]

  storage-flushed :
      (fuel : ℕ) (e : Engine) (made : Result (Disk × Levels))
      → (flushed fuel e made).0.storage ≡ e.storage
  unfolding settle
  storage-flushed fuel e panic = refl
  storage-flushed fuel e (err why) = refl
  storage-flushed fuel e (ok made) = refl

  abbrev when_some : ℕ → Str → Engine → TreeMap Value → Engine × Result (Unit {0})
  when_some fuel path e memtable = elim memtable [
    | [] ↦ (e, ok tt)
    | entry ∷ entries ↦
        flushed fuel e (add_memtable env e.store.disk path e.memtable e.store.levels)
  ]

  storage-when_some :
      (fuel : ℕ) (path : Str) (e : Engine) (memtable : TreeMap Value)
      → (when_some fuel path e memtable).0.storage ≡ e.storage
  storage-when_some fuel path e [] = refl
  storage-when_some fuel path e (entry ∷ entries) =
      storage-flushed fuel e (add_memtable env e.store.disk path e.memtable e.store.levels)

  -- A flush leaves the log as it is, whether it succeeds or not.
  storage-flush_to_sstable :
      (fuel : ℕ) (path : Str) (e : Engine)
      → (flush_to_sstable env fuel path e).0.storage ≡ e.storage
  unfolding flush_to_sstable
  storage-flush_to_sstable fuel path e = storage-when_some fuel path e e.memtable

  storage-maybe_flush : (fuel : ℕ) (e : Engine) → (maybe_flush env fuel e).0.storage ≡ e.storage
  unfolding maybe_flush flush_next
  storage-maybe_flush fuel e = elim (Bool-cases (leb e.memtable_limit (length e.memtable))) [
    | inl full ↦ rw full (storage-flush_to_sstable fuel _ _)
    | inr room ↦ rw room refl
  ]

  storage-perform :
      (fuel now : ℕ) (w : Write) (e : Engine)
      → (perform fuel (now, w) e).storage ≡ Storage.append env.crc now (command_of w) e.storage
  unfolding perform put delete record_write
  storage-perform fuel now (putting key value) e =
      storage-maybe_flush fuel (record_write env now (Command.set key value) e)
  storage-perform fuel now (deleting key) e =
      storage-maybe_flush fuel (record_write env now (Command.del key) e)

  -- The log of the engine is the log of its writes, whatever the flushes between them do.
  pub storage-perform_all :
      (fuel : ℕ) (ws : List (ℕ × Write)) (e : Engine)
      → (perform_all fuel ws e).storage ≡ append_all env.crc (logged_calls ws) e.storage
  unfolding perform_all append_all
  storage-perform_all fuel [] e = refl
  storage-perform_all fuel ((now, w) ∷ ws) e =
      storage-perform_all fuel ws (perform fuel (now, w) e)
      ∙ ap (append_all env.crc (logged_calls ws)) (storage-perform fuel now w e)

  abbrev opened_with : Files → ℕ → ℕ → Store → List Command → Engine
  opened_with files fuel now store commands = record {
    memtable = replay commands [];
    store = store;
    memtable_limit = 1000;
    block_cache = Cache.new 64;
    storage = Storage.new fuel now SyncPolicy.always files;
  }

  with_storage_lem :
      (files : Files) (fuel now : ℕ) (store : Store) (commands : List Command)
      → Storage.load env.crc (Storage.new fuel now SyncPolicy.always files) ≡ ok commands
      → with_storage env files fuel now store ≡ ok (opened_with files fuel now store commands)
  unfolding with_storage
  with_storage_lem files fuel now store commands e =
      ap (λ r. r >>= λ cs. ok (opened_with files fuel now store cs)) e

  abbrev looked_up : Str → Engine → Option Value → Result (Option Value × Engine)
  looked_up key e found = elim found [ some v ↦ ok (some v, e) | none ↦ read_tables env key e ]

  -- What the memtable has for a key is the answer.
  pub get_key-lookup :
      (key : Str) (e : Engine) (v : Value)
      → lookup key e.memtable ≡ some v
      → get_key env key e ≡ ok (some v, e)
  unfolding get_key
  get_key-lookup key e v h = ap (looked_up key e) h

  -- The engine that is opened again, and its answer.
  pub record Reopened (files : Files) (fuel now : ℕ) (store : Store) (key : Str) (v : Value)
      : Type 0 where
    pub engine : Engine
    pub opens : with_storage env files fuel now store ≡ ok engine
    pub answers : get_key env key engine ≡ ok (some v, engine)

  -- An engine whose log was opened on an empty directory takes any calls of `put` and `delete`, of loggable
  -- commands, with whatever flushes and compactions they start. When its log is opened again, with fuel for
  -- its segments, over any tables, this succeeds, and every key that was written reads as it was written last.
  pub with_storage-perform_all :
      (fuel steps now : ℕ) (policy : SyncPolicy) (files : Files) (e : Engine)
      (ws : List (ℕ × Write)) (fuel' now' : ℕ) (store : Store) (key : Str) (v : Value)
      → ((s : ℕ) → files s ≡ none)
      → e.storage ≡ Storage.new (suc fuel) now policy files
      → AllLogged env.crc (commands_of (logged_calls ws))
      → (perform_all steps ws e).storage.current_segment < fuel'
      → last_write key ws ≡ some v
      → Reopened (perform_all steps ws e).storage.files fuel' now' store key v
  unfolding lookup
  with_storage-perform_all fuel steps now policy files e ws fuel' now' store key v empty fresh l
        short wrote =
      let calls = logged_calls ws in
      let after = storage-perform_all steps ws e ∙ ap (append_all env.crc calls) fresh in
      let loaded =
        ap (λ st. Storage.load env.crc (Storage.new fuel' now' SyncPolicy.always st.files)) after
        ∙ load_after_restart env.crc fuel now policy files calls fuel' now' SyncPolicy.always empty
            l (subst (λ st. st.current_segment < fuel') after short) in
      let again =
        opened_with (perform_all steps ws e).storage.files fuel' now' store (commands_of calls) in
      record {
        engine = again;
        opens =
            with_storage_lem (perform_all steps ws e).storage.files fuel' now' store
              (commands_of calls) loaded;
        answers =
            get_key-lookup key again v
              (lookup-replay key ws [] ∙ or_before-none (last_write key ws) ∙ wrote);
      }
