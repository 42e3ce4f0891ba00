-- ===== src/Cache/Usage.antt =====
-- The recency list: no key twice, and exactly the keys of the map.
use arch_db.Prelude.{◌≡◌, refl, Bool, false, ◌||◌, List, [], ◌∷◌, ◌++◌, arith, if◌then◌else◌}
use arch_db.Cache.{CacheKey, key_eq, key_eq_iff, retain_ne}

unfoldable pub contains : CacheKey → List CacheKey → Bool
contains key [] = false
contains key (k ∷ ks) = key_eq k key || contains key ks

abbrev pub IsDistinct : List CacheKey → Type 0
IsDistinct [] = Unit {0}
IsDistinct (k ∷ ks) = (contains k ks ≡ false) × IsDistinct ks

pub contains-retain_ne :
    (key k : CacheKey) (ks : List CacheKey)
    → contains k (retain_ne key ks) ≡ (if key_eq key k then false else contains k ks)
unfolding contains retain_ne
contains-retain_ne key k [] = ground arith
contains-retain_ne key k (j ∷ ks) =
    ground (arith, key_eq_iff key k, key_eq_iff j k, key_eq_iff j key, contains-retain_ne key k ks)

pub contains-snoc :
    (k j : CacheKey) (ks : List CacheKey)
    → contains k (ks ++ j ∷ []) ≡ (contains k ks || key_eq j k)
unfolding contains
contains-snoc k j [] = ground arith
contains-snoc k j (i ∷ ks) = ground (arith, contains-snoc k j ks)

pub snoc-IsDistinct :
    (ks : List CacheKey) (j : CacheKey)
    → contains j ks ≡ false
    → IsDistinct ks
    → IsDistinct (ks ++ j ∷ [])
unfolding contains
snoc-IsDistinct [] j h d = (refl, tt)
snoc-IsDistinct (i ∷ ks) j h d =
    ground (arith, contains-snoc i j ks, key_eq_iff i j, key_eq_iff j i, snoc-IsDistinct ks j)

pub retain_ne-IsDistinct :
    (key : CacheKey) (ks : List CacheKey) → IsDistinct ks → IsDistinct (retain_ne key ks)
unfolding retain_ne
retain_ne-IsDistinct key [] d = tt
retain_ne-IsDistinct key (j ∷ ks) d =
    ground (arith, contains-retain_ne key j ks, retain_ne-IsDistinct key ks)

pub retain_ne_absent :
    (key : CacheKey) (ks : List CacheKey) → contains key ks ≡ false → retain_ne key ks ≡ ks
unfolding contains retain_ne
retain_ne_absent key [] h = refl
retain_ne_absent key (j ∷ ks) h = ground (arith, retain_ne_absent key ks)
