-- ===== src/Value.antt =====
-- The values of the store, `engine.rs`, and the records of its tables, `sstable.rs`.
use arch_db.Prelude.{Option, none, some, List, [], ◌∷◌, if◌then◌else◌}
use arch_db.Prelude.Str.{Str, str_eq}

pub data Value : Type 0 where
  data_of : Str → Value
  tombstone : Value

pub record BlockRecord : Type 0 where
  pub key : Str
  pub value : Value

-- The value of the first record with the key.
unfoldable pub find : Str → List BlockRecord → Option Value
find key [] = none
find key (r ∷ rs) = if str_eq r.key key then some r.value else find key rs

-- The keys, as they are inserted into a filter.
abbrev pub keys : List BlockRecord → List Str
keys [] = []
keys (r ∷ rs) = r.key ∷ keys rs
