-- ===== src/Engine/Ops/Ranges.antt =====
-- What a flush writes: the range of the keys of its table, and the blocks that were on the disk before.
use arch_db.Prelude.{
  ◌>>=◌, ◌>>◌, ◌≡◌, refl, ℕ, true, Option, none, some, List, [], ◌∷◌, Result, ok, err, io,
  not_found, ap, sym, ◌∙◌, subst, ◌&&◌, inl, inr, Bool-cases, arith,
}
use arch_db.Prelude.Str.{Str, str_lt, str_le, str_cmp-eq, str_cmp_self, str_lt_trans}
use arch_db.Prelude.TreeMap.{TreeMap, IsSorted, IsAbove}
use arch_db.Prelude.Dict.{Dict}
use arch_db.Value.{Value, BlockRecord}
use arch_db.Cache.{CacheKey}
use arch_db.Sstable.Formats.{Formats, Disk}
use arch_db.Sstable.Block.{verify_header, read_block_from_file}
use arch_db.Sstable.Reader.{read_block}
use arch_db.Manager.{SsTable, contains_key_range}
use arch_db.Engine.{snapshot, with_file, last_key}
use arch_db.Engine.Flush.{with_file_other}
use arch_db.Engine.Ops.Cached.{IsFaithful}
use arch_db.Engine.Ops.Candidates.{AllWithin}

pub le_self : (s : Str) → str_le s s ≡ true
le_self s = ground (arith, str_cmp_self s)

lt_le : (s t : Str) → str_lt s t ≡ true → str_le s t ≡ true
lt_le s t h = ground (arith, h)

lt_le_trans : (s t u : Str) → str_lt s t ≡ true → str_le t u ≡ true → str_lt s u ≡ true
lt_le_trans s t u h k = elim (Bool-cases (str_lt t u)) [
  | inl less ↦ str_lt_trans s t u h less
  | inr same ↦ subst (λ v. str_lt s v ≡ true) (str_cmp-eq t u (ground (arith, same, k))) h
]

abbrev pub AllFrom : Str → TreeMap Value → Type 0
AllFrom k [] = Unit {0}
AllFrom k ((j, v) ∷ m) = (str_le k j ≡ true) × AllFrom k m

abbrev pub AllUpTo : Str → TreeMap Value → Type 0
AllUpTo k [] = Unit {0}
AllUpTo k ((j, v) ∷ m) = (str_le j k ≡ true) × AllUpTo k m

pub AllFrom-IsAbove : (k : Str) (m : TreeMap Value) → IsAbove k m → AllFrom k m
AllFrom-IsAbove k [] a = tt
AllFrom-IsAbove k ((j, v) ∷ m) a = (lt_le k j a.0, AllFrom-IsAbove k m a.1)

some_injective : (a b : Str) → Path (Option Str) (some a) (some b) → a ≡ b
some_injective a b e = cc

-- No key comes after the last one.
pub last_key-AllUpTo :
    (e : Str × Value) (es : TreeMap Value) (k : Str)
    → IsSorted (e ∷ es)
    → last_key (snapshot (e ∷ es)) ≡ some k
    → AllUpTo k (e ∷ es)
unfolding last_key snapshot
last_key-AllUpTo e [] k s h =
    (subst (λ j. str_le e.0 j ≡ true) (some_injective (e.0) k h) (le_self (e.0)), tt)
last_key-AllUpTo e (e' ∷ es) k s h =
    let later = last_key-AllUpTo e' es k s.1 h in
    (lt_le (e.0) k (lt_le_trans (e.0) (e'.0) k s.0.0 later.0), later)

pub snapshot-AllWithin :
    (t : SsTable) (m : TreeMap Value)
    → AllFrom t.min_key m
    → AllUpTo t.max_key m
    → AllWithin t (snapshot m)
unfolding snapshot contains_key_range
snapshot-AllWithin t [] a b = tt
snapshot-AllWithin t ((j, v) ∷ m) a b =
    (ap (λ c. c && str_le j t.max_key) a.0 ∙ b.0, snapshot-AllWithin t m a.1 b.1)

module _ (env : Formats) where
  abbrev block_in : ℕ → Option (List ℕ) → Result (List BlockRecord)
  block_in offset file = elim file [ none ↦ err (io not_found) | some bytes ↦ ok bytes ] >>= λ f.
      verify_header f >> read_block_from_file env f offset

  -- A block on the disk is the same after another file was written.
  read_block_at :
      (disk : Disk) (path p : Str) (file : List ℕ) (offset : ℕ) (rs : List BlockRecord)
      (found : Option (List ℕ))
      → disk path ≡ none
      → disk p ≡ found
      → read_block env disk p offset ≡ ok rs
      → read_block env (with_file disk path file) p offset ≡ ok rs
  unfolding read_block
  read_block_at disk path p file offset rs none n d e =
      absurd (impossible rs (sym (ap (block_in offset) d) ∙ e))
    where
      impossible :
          (rs : List BlockRecord)
          → Path (Result (List BlockRecord)) (err (io not_found)) (ok rs)
          → ⊥
      impossible rs e = cc
  read_block_at disk path p file offset rs (some bytes) n d e =
      ap (block_in offset) (with_file_other disk path p file bytes n d)
      ∙ sym (ap (block_in offset) d)
      ∙ e

  pub IsFaithful-with_file :
      (disk : Disk) (path : Str) (file : List ℕ) (m : Dict CacheKey (List BlockRecord))
      → disk path ≡ none
      → IsFaithful env disk m
      → IsFaithful env (with_file disk path file) m
  IsFaithful-with_file disk path file [] n h = tt
  IsFaithful-with_file disk path file ((k, rs) ∷ m) n h = (
    read_block_at disk path k.path file k.offset rs _ n refl h.0,
    IsFaithful-with_file disk path file m n h.1,
  )
