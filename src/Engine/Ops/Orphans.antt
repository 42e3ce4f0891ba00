-- ===== src/Engine/Ops/Orphans.antt =====
-- `get_key` after the tables that the manifest does not name were loaded. `get` of the manager, `scan` and
-- `iter` do not ask for the range of keys, and read these tables.
use arch_db.Prelude.{
  ◌>>=◌, ◌≡◌, refl, ℕ, Option, none, some, List, ◌∷◌, ◌++◌, Result, ok, err, panic, ap, sym, ◌∙◌,
}
use mathlib.Core.List.{reverse}
use arch_db.Prelude.Str.{Str}
use arch_db.Prelude.TreeMap.{lookup}
use arch_db.Value.{Value, BlockRecord}
use arch_db.Cache.{BlockCache}
use arch_db.Sstable.Formats.{Formats, Disk}
use arch_db.Manager.{SsTable, Levels}
use arch_db.Manager.Recovery.{load_orphans}
use arch_db.Manager.Recovery.Orphans.{IsUnread, load_orphans-IsUnread}
use arch_db.Engine.Ops.{Engine, candidates, search_candidates, read_tables, get_key}

-- The engine over other levels.
abbrev pub with_levels : Levels → Engine → Engine
with_levels m e = record e { store = record e.store { levels = m } }

-- The result of `get_key`, with the cache that it leaves.
abbrev Answer : Type 0
Answer = Result (Option Value × BlockCache (List BlockRecord))

abbrev pub answer_of :
    Result (Option Value × Engine) → Result (Option Value × BlockCache (List BlockRecord))
answer_of result = result >>= λ found. ok (found.0, found.1.block_cache)

module _ (env : Formats) where
  abbrev searched :
      Str → Engine → Result (List SsTable) → Result (List SsTable) → Result (List SsTable) → Answer
  searched key e a b c = a >>= λ in_l0. b >>= λ in_l1. c >>= λ in_l2.
      search_candidates env e.store.disk key (in_l0 ++ (in_l1 ++ in_l2)) e.block_cache

  abbrev chained :
      Str
      → Engine
      → Result (List SsTable)
      → Result (List SsTable)
      → Result (List SsTable)
      → Result (Option Value × Engine)
  chained key e a b c = a >>= λ in_l0. b >>= λ in_l1. c >>= λ in_l2.
      search_candidates env e.store.disk key (in_l0 ++ (in_l1 ++ in_l2)) e.block_cache >>= λ found.
      ok (found.0, record e { block_cache = found.1 })

  answer_of-found :
      (e : Engine) (r : Answer)
      → answer_of (r >>= λ found. ok (found.0, record e { block_cache = found.1 })) ≡ r
  answer_of-found e panic = refl
  answer_of-found e (err why) = refl
  answer_of-found e (ok found) = refl

  answer_of-chained :
      (key : Str) (e : Engine) (a b c : Result (List SsTable))
      → answer_of (chained key e a b c) ≡ searched key e a b c
  answer_of-chained key e panic b c = refl
  answer_of-chained key e (err why) b c = refl
  answer_of-chained key e (ok x) panic c = refl
  answer_of-chained key e (ok x) (err why) c = refl
  answer_of-chained key e (ok x) (ok y) panic = refl
  answer_of-chained key e (ok x) (ok y) (err why) = refl
  answer_of-chained key e (ok x) (ok y) (ok z) =
      answer_of-found e (search_candidates env e.store.disk key (x ++ (y ++ z)) e.block_cache)

  answer_of-read_tables :
      (key : Str) (e : Engine)
      → answer_of (read_tables env key e)
        ≡ searched key e
            (candidates env key (reverse e.store.levels.l0))
            (candidates env key (reverse e.store.levels.l1))
            (candidates env key (reverse e.store.levels.l2))
  unfolding read_tables
  answer_of-read_tables key e =
      answer_of-chained key e (candidates env key (reverse e.store.levels.l0))
        (candidates env key (reverse e.store.levels.l1))
        (candidates env key (reverse e.store.levels.l2))

  read_tables-IsUnread :
      (c : ℕ) (key : Str) (e : Engine) (m' : Levels)
      → IsUnread env e.store.levels m'
      → answer_of (read_tables env (c ∷ key) (with_levels m' e))
        ≡ answer_of (read_tables env (c ∷ key) e)
  read_tables-IsUnread c key e m' h =
      let tables : List SsTable → Result (List SsTable) =
        λ ts. candidates env (c ∷ key) (reverse ts) in
      answer_of-read_tables (c ∷ key) (with_levels m' e)
      ∙ ap (λ x. searched (c ∷ key) e x (tables m'.l1) (tables m'.l2)) (h.same_l0 c key)
      ∙ ap (λ x. searched (c ∷ key) e (tables e.store.levels.l0) (tables x) (tables m'.l2))
          h.same_l1
      ∙ ap
          (λ x.
            searched (c ∷ key) e (tables e.store.levels.l0) (tables e.store.levels.l1) (tables x))
          h.same_l2
      ∙ sym (answer_of-read_tables (c ∷ key) e)

  abbrev memtable_first : Str → Engine → Option Value → Result (Option Value × Engine)
  memtable_first key e found = elim found [ some v ↦ ok (some v, e) | none ↦ read_tables env key e ]

  memtable_first-IsUnread :
      (c : ℕ) (key : Str) (e : Engine) (m' : Levels) (found : Option Value)
      → IsUnread env e.store.levels m'
      → answer_of (memtable_first (c ∷ key) (with_levels m' e) found)
        ≡ answer_of (memtable_first (c ∷ key) e found)
  memtable_first-IsUnread c key e m' (some v) h = refl
  memtable_first-IsUnread c key e m' none h = read_tables-IsUnread c key e m' h

  -- For every key that is not empty, `get_key` has the same result and leaves the same cache whether the files
  -- that the manifest does not name were loaded into the levels or not, whatever these files hold.
  pub get_key-load_orphans :
      (disk : Disk) (known : List SsTable) (names : List Str) (e : Engine) (m' : Levels) (c : ℕ)
      (key : Str)
      → load_orphans env disk known names e.store.levels ≡ ok m'
      → answer_of (get_key env (c ∷ key) (with_levels m' e)) ≡ answer_of (get_key env (c ∷ key) e)
  unfolding get_key
  get_key-load_orphans disk known names e m' c key h =
      memtable_first-IsUnread c key e m' (lookup (c ∷ key) e.memtable)
        (load_orphans-IsUnread env disk known names e.store.levels m' h)
