-- ===== src/Sql/Catalog/Loading.antt =====
-- The catalog that is loaded when the program starts, from the records of the store.
use arch_db.Prelude.{
  ◌>>=◌, ◌≡◌, refl, Bool, true, false, Option, none, some, List, [], ◌∷◌, ◌++◌, Result, ok, ap, ◌∙◌,
  if◌then◌else◌, if_false,
}
use arch_db.Prelude.Str.{Str, codes, str_eq}
use arch_db.Prelude.Text.{strip_prefix, Lacks}
use arch_db.Prelude.Dict
use arch_db.Prelude.Dict.{str_eq_instance}
use arch_db.Value.{data_of, tombstone, BlockRecord}
use arch_db.Sql.Catalog.{
  TableSchema, Catalog, serialize, deserialize, create_table, table, load_tables,
}
use arch_db.Sql.Catalog.RoundTrip.{AllNamed, without_nullable, deserialize-serialize_schema}

-- What reading a schema gives.
abbrev pub as_read : TableSchema → TableSchema
as_read schema = record schema { columns = without_nullable schema.columns }

-- The record that creating a table stores.
abbrev pub record_of : TableSchema → BlockRecord
record_of schema = record {
  key = codes "__schema__:" ++ schema.name;
  value = data_of (serialize schema);
}

abbrev pub with_schema : TableSchema → Catalog → Catalog
with_schema schema c = record c { tables = Dict.insert schema.name schema c.tables }

-- The records of a store from which the schemas are loaded into the catalog, among records of other keys and
-- deleted ones; no two schemas have the same name, and none has the name of a table that is there.
pub data Stores : Catalog → List BlockRecord → List TableSchema → Type 0 where
  finished : {c : Catalog} → Stores c [] []
  schema_stored :
      {c : Catalog} {rs : List BlockRecord} {ss : List TableSchema} (s : TableSchema)
      → Lacks b'|' s.name
      → AllNamed s.columns
      → Dict.has s.name c.tables ≡ false
      → Stores (with_schema (as_read s) c) rs ss
      → Stores c (record_of s ∷ rs) (s ∷ ss)
  unrelated :
      {c : Catalog} {rs : List BlockRecord} {ss : List TableSchema} (r : BlockRecord)
      → strip_prefix (codes "__schema__:") r.key ≡ none
      → Stores c rs ss
      → Stores c (r ∷ rs) ss
  deleted :
      {c : Catalog} {rs : List BlockRecord} {ss : List TableSchema} (name : Str)
      → Stores c rs ss
      → Stores c (record { key = codes "__schema__:" ++ name; value = tombstone } ∷ rs) ss

abbrev with_all : List TableSchema → Catalog → Catalog
with_all [] c = c
with_all (s ∷ ss) c = with_all ss (with_schema (as_read s) c)

-- The schema with the name, as it is read.
unfoldable pub schema_of : Str → List TableSchema → Option TableSchema
schema_of name [] = none
schema_of name (s ∷ ss) = elim (schema_of name ss) [
  | some found ↦ some found
  | none ↦ if str_eq s.name name then some (as_read s) else none
]

abbrev pub or_known : Option TableSchema → Option TableSchema → Option TableSchema
or_known found known = elim found [ some s ↦ some s | none ↦ known ]

or_known-if :
    (found known : Option TableSchema) (b : Bool) (s : TableSchema)
    → or_known found (if b then some s else known)
      ≡ or_known (or_known found (if b then some s else none)) known
or_known-if (some t) known b s = refl
or_known-if none known true s = refl
or_known-if none known false s = refl

abbrev and_load : List BlockRecord → Catalog → Result TableSchema → Result Catalog
and_load rs c schema = schema >>= λ s. create_table s c >>= λ c'. load_tables rs c'

load_schema :
    (s : TableSchema) (rs : List BlockRecord) (c : Catalog)
    → Lacks b'|' s.name
    → AllNamed s.columns
    → Dict.has s.name c.tables ≡ false
    → load_tables (record_of s ∷ rs) c ≡ load_tables rs (with_schema (as_read s) c)
unfolding load_tables strip_prefix create_table
load_schema s rs c h a fresh =
    ap (and_load rs c) (deserialize-serialize_schema s h a)
    ∙ ap (λ r. r >>= λ c'. load_tables rs c') (if_false (Dict.has s.name c.tables) _ _ fresh)

abbrev passing : List BlockRecord → Catalog → BlockRecord → Option Str → Result Catalog
passing rs c r found = elim found [
  | none ↦ load_tables rs c
  | some rest ↦ elim r.value [
    | tombstone ↦ load_tables rs c
    | data_of serialized ↦ and_load rs c (deserialize serialized)
  ]
]

load_unrelated :
    (r : BlockRecord) (rs : List BlockRecord) (c : Catalog)
    → strip_prefix (codes "__schema__:") r.key ≡ none
    → load_tables (r ∷ rs) c ≡ load_tables rs c
unfolding load_tables
load_unrelated r rs c e = ap (passing rs c r) e

load_deleted :
    (name : Str) (rs : List BlockRecord) (c : Catalog)
    → load_tables (record { key = codes "__schema__:" ++ name; value = tombstone } ∷ rs) c
      ≡ load_tables rs c
unfolding load_tables strip_prefix
load_deleted name rs c = refl

load_tables-with_all :
    {c : Catalog} {rs : List BlockRecord} {ss : List TableSchema}
    → Stores c rs ss
    → load_tables rs c ≡ ok (with_all ss c)
load_tables-with_all finished = unfold load_tables in refl
load_tables-with_all {c} (schema_stored {rs = rs} s h a fresh later) =
    load_schema s rs c h a fresh ∙ load_tables-with_all later
load_tables-with_all {c} (unrelated {rs = rs} r e later) =
    load_unrelated r rs c e ∙ load_tables-with_all later
load_tables-with_all {c} (deleted {rs = rs} name later) =
    load_deleted name rs c ∙ load_tables-with_all later

table-with_all :
    (name : Str) (ss : List TableSchema) (c : Catalog)
    → table name (with_all ss c) ≡ or_known (schema_of name ss) (table name c)
unfolding table schema_of
table-with_all name [] c = refl
table-with_all name (s ∷ ss) c =
    table-with_all name ss (with_schema (as_read s) c)
    ∙ ap (or_known (schema_of name ss)) (Dict.lookup-insert s.name name (as_read s) c.tables)
    ∙ or_known-if (schema_of name ss) (Dict.lookup name c.tables) (str_eq s.name name) (as_read s)

-- When the schemas that a store holds have different names that are not in the catalog, and no name in them
-- holds a separator, loading them succeeds, and the catalog has then for every name the schema with the name,
-- no column of it nullable, or what it had before when there is none.
pub table-load_tables :
    (c : Catalog) (rs : List BlockRecord) (ss : List TableSchema)
    → Stores c rs ss
    → (c' : Catalog) × (load_tables rs c ≡ ok c')
      × ((name : Str) → table name c' ≡ or_known (schema_of name ss) (table name c))
table-load_tables c rs ss h =
    (with_all ss c, load_tables-with_all h, λ name. table-with_all name ss c)
