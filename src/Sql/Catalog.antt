-- ===== src/Sql/Catalog.antt =====
-- sql/catalog.rs: the tables and indexes that are known, and the text forms in which they are stored.
pub mod RoundTrip
pub mod Loading
use arch_db.Prelude.{
  ℕ, Bool, true, false, Option, none, some, List, [], ◌∷◌, ◌++◌, get_elem?, if◌then◌else◌, Result,
  ok, err, panic, ◌>>=◌, unwrap, other,
}
use arch_db.Prelude.Str.{Str, codes, str_eq}
use arch_db.Prelude.Dict
use arch_db.Prelude.Dict.{Dict, str_eq_instance}
use arch_db.Prelude.Text.{split, split_once, join, strip_prefix}
use arch_db.Value.{Value, data_of, tombstone, BlockRecord}

pub data CatalogDataType : Type 0 where
  integer text : CatalogDataType

pub record Column : Type 0 where
  pub name : Str
  pub data_type : CatalogDataType
  pub primary_key : Bool
  pub nullable : Bool

pub record TableSchema : Type 0 where
  pub name : Str
  pub columns : List Column

pub record IndexSchema : Type 0 where
  pub name : Str
  pub table_name : Str
  pub column_name : Str

pub record Catalog : Type 0 where
  pub tables : Dict Str TableSchema
  pub indexes : Dict Str IndexSchema

abbrev pub new : Catalog
new = record { tables = []; indexes = [] }

unfoldable pub create_table : TableSchema → Catalog → Result Catalog
create_table schema c =
    if Dict.has schema.name c.tables
    then err (other (codes "table already exists"))
    else ok (record c { tables = Dict.insert schema.name schema c.tables })

-- The error message is left without the name that the source prints in it.
unfoldable pub create_index : IndexSchema → Catalog → Result Catalog
create_index index c =
    if Dict.has index.name c.indexes
    then err (other (codes "index already exists"))
    else ok (record c { indexes = Dict.insert index.name index c.indexes })

unfoldable pub table : Str → Catalog → Option TableSchema
table name c = Dict.lookup name c.tables

unfoldable pub index : Str → Catalog → Option IndexSchema
index name c = Dict.lookup name c.indexes

unfoldable pub exists : Str → Catalog → Bool
exists name c = Dict.has name c.tables

-- The filter over `self.indexes.values()`
unfoldable pub indexes_of : Str → Dict Str IndexSchema → List IndexSchema
indexes_of table_name [] = []
indexes_of table_name ((name, i) ∷ indexes) =
    let rest = indexes_of table_name indexes in
    if str_eq i.table_name table_name then i ∷ rest else rest

unfoldable pub indexes_for_table : Str → Catalog → List IndexSchema
unfolding indexes_of
indexes_for_table table_name c = indexes_of table_name c.indexes

-- `iter().find(|c| c.name == name)`
unfoldable pub find_column : Str → List Column → Option Column
find_column name [] = none
find_column name (c ∷ columns) = if str_eq c.name name then some c else find_column name columns

unfoldable pub column : Str → TableSchema → Option Column
unfolding find_column
column name schema = find_column name schema.columns

-- `iter().find(|c| c.primary_key)`
unfoldable pub find_primary : List Column → Option Column
find_primary [] = none
find_primary (c ∷ columns) = if c.primary_key then some c else find_primary columns

unfoldable pub primary_key : TableSchema → Option Column
unfolding find_primary
primary_key schema = find_primary schema.columns

unfoldable pub type_text : CatalogDataType → Str
type_text integer = codes "INTEGER"
type_text text = codes "TEXT"

unfoldable pub column_texts : List Column → List Str
unfolding type_text
column_texts [] = []
column_texts (c ∷ columns) =
    (c.name ++ b':' ∷ (type_text c.data_type ++ b':' ∷ (if c.primary_key then codes "PK" else [])))
    ∷ column_texts columns

unfoldable pub serialize : TableSchema → Str
unfolding column_texts join
serialize schema = schema.name ++ b'|' ∷ join (codes ",") (column_texts schema.columns)

unfoldable pub read_type : Str → Result CatalogDataType
read_type ty =
    if str_eq ty (codes "INTEGER")
    then ok integer
    else if str_eq ty (codes "TEXT")
    then ok text
    else panic

-- `parts.get(2).copied() == Some("PK")`
unfoldable pub is_pk : Option Str → Bool
is_pk none = false
is_pk (some flag) = str_eq flag (codes "PK")

unfoldable pub read_column : Str → Result Column
unfolding split read_type is_pk
read_column s = do
  let parts = split b':' s
  name ← unwrap (get_elem? parts 0)
  ty ← unwrap (get_elem? parts 1)
  data_type ← read_type ty
  ok (record {
    name = name;
    data_type = data_type;
    primary_key = is_pk (get_elem? parts 2);
    nullable = false;
  })

unfoldable pub read_columns : List Str → Result (List Column)
unfolding read_column
read_columns [] = ok []
read_columns (s ∷ later) = do c ← read_column s; columns ← read_columns later; ok (c ∷ columns)

-- `if !columns_part.is_empty()` and the loop over its parts
unfoldable pub columns_of : Str → Result (List Column)
unfolding read_columns split
columns_of [] = ok []
columns_of (c ∷ s) = read_columns (split b',' (c ∷ s))

unfoldable pub deserialize : Str → Result TableSchema
unfolding split_once columns_of
deserialize input = do
  (name, columns_part) ← unwrap (split_once b'|' input)
  columns ← columns_of columns_part
  ok (record { name = name; columns = columns })

unfoldable pub serialize_index_schema : IndexSchema → Str
serialize_index_schema i = i.name ++ b'|' ∷ (i.table_name ++ b'|' ∷ i.column_name)

abbrev invalid : Result Str
invalid = err (other (codes "invalid index schema"))

unfoldable pub deserialize_index_schema : Str → Result IndexSchema
unfolding split
deserialize_index_schema s = do
  let parts = split b'|' s
  name ← elim (get_elem? parts 0) [ none ↦ invalid | some part ↦ ok part ]
  table_name ← elim (get_elem? parts 1) [ none ↦ invalid | some part ↦ ok part ]
  column_name ← elim (get_elem? parts 2) [ none ↦ invalid | some part ↦ ok part ]
  ok (record { name = name; table_name = table_name; column_name = column_name })

-- The loop of `load_from_engine`, over the records that the iterator of the engine gives.
unfoldable pub load_tables : List BlockRecord → Catalog → Result Catalog
unfolding strip_prefix deserialize create_table
load_tables [] c = ok c
load_tables (r ∷ records) c = elim (strip_prefix (codes "__schema__:") r.key) [
  | none ↦ load_tables records c
  | some rest ↦ elim r.value [
    | tombstone ↦ load_tables records c
    | data_of serialized ↦ do
      schema ← deserialize serialized
      c' ← create_table schema c
      load_tables records c'
  ]
]

-- The loop of `load_indexes_from_engine`, likewise.
unfoldable pub load_indexes : List BlockRecord → Catalog → Result Catalog
unfolding strip_prefix deserialize_index_schema create_index
load_indexes [] c = ok c
load_indexes (r ∷ records) c = elim (strip_prefix (codes "__index_meta__:") r.key) [
  | none ↦ load_indexes records c
  | some rest ↦ elim r.value [
    | tombstone ↦ load_indexes records c
    | data_of serialized ↦ do
      schema ← deserialize_index_schema serialized
      elim (Dict.lookup schema.name c.indexes) [
        | some known ↦ load_indexes records c
        | none ↦ do c' ← create_index schema c; load_indexes records c'
      ]
  ]
]
