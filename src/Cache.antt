-- ===== src/Cache.antt =====
-- cache.rs: the least-recently-used cache of decoded blocks. A method returns the new cache.
pub mod Usage
pub mod Reads
use arch_db.Prelude.{
  ℕ, ◌≡◌, ◌↔◌, refl, Bool, true, false, ◌&&◌, Option, none, some, List, [], ◌∷◌, ◌++◌, arith, ltb,
  length, if◌then◌else◌, ◌==◌,
}
use arch_db.Prelude.Str.{Str, str_eq, str_eq_iff}
use arch_db.Prelude.Dict.{Dict, Eq, lookup, has, insert, remove}

pub record CacheKey : Type 0 where
  pub path : Str
  pub offset : ℕ

-- the derived `PartialEq`
abbrev pub key_eq : CacheKey → CacheKey → Bool
key_eq a b = str_eq a.path b.path && (a.offset == b.offset)

pub key_eq_iff : (a b : CacheKey) → (key_eq a b ≡ true) ↔ (a ≡ b)
key_eq_iff a b = ground (arith, str_eq_iff a.path b.path)

instance abbrev pub CacheKey_eq : Eq CacheKey
CacheKey_eq = record { eqb = key_eq; eqb_iff = key_eq_iff }

-- `V` stands for `Vec<BlockRecord>`, which the cache only stores and clones.
pub record BlockCache (V : Type 0) : Type 0 where
  pub capacity : ℕ
  pub entries : Dict CacheKey V
  pub usage : List CacheKey

-- `usage.retain(|k| k != key)`
unfoldable pub retain_ne : CacheKey → List CacheKey → List CacheKey
retain_ne key [] = []
retain_ne key (k ∷ ks) = let rest = retain_ne key ks in if key_eq k key then rest else k ∷ rest

module _ {V : Type 0} where
  unfoldable pub new : ℕ → BlockCache V
  new capacity = record { capacity = capacity; entries = []; usage = [] }

  unfoldable pub get : CacheKey → BlockCache V → Option V × BlockCache V
  unfolding retain_ne
  get key c = elim (lookup key c.entries) [
    | some value ↦ (some value, record c { usage = retain_ne key c.usage ++ key ∷ [] })
    | none ↦ (none, c)
  ]

  -- `if self.map.len() > self.capacity { … pop_front … }`
  unfoldable pub evict : BlockCache V → BlockCache V
  evict c =
      if ltb c.capacity (length c.entries)
      then elim c.usage [
        | [] ↦ c
        | oldest ∷ later ↦ record c { entries = remove oldest c.entries; usage = later }
      ]
      else c

  unfoldable pub put : CacheKey → V → BlockCache V → BlockCache V
  unfolding retain_ne evict
  put key value c =
      let kept = if has key c.entries then retain_ne key c.usage else c.usage in
      evict (record c { entries = insert key value c.entries; usage = kept ++ key ∷ [] })
