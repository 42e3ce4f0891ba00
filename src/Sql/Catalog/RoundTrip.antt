-- ===== src/Sql/Catalog/RoundTrip.antt =====
-- Schemas and index schemas are read back from their texts; whether a column is nullable is lost.
use arch_db.Prelude.{
  ℕ, ◌≡◌, refl, Bool, true, false, some, List, [], ◌∷◌, ◌++◌, ok, ap, ◌∙◌, if◌then◌else◌,
}
use arch_db.Prelude.Str.{Str, codes, str_eq}
use arch_db.Prelude.Text.{
  lacks, Lacks-lacks, split, split_once, join, Lacks, AllLack, split-join, split-append,
  split-Lacks, split_once-append, Lacks-append, join-first,
}
use arch_db.Sql.Catalog.{
  CatalogDataType, integer, text, Column, TableSchema, IndexSchema, type_text, column_texts,
  serialize, read_type, is_pk, read_column, read_columns, columns_of, deserialize,
  serialize_index_schema, deserialize_index_schema,
}

-- The names hold none of the separators `:` and `,`.
abbrev pub AllNamed : List Column → Type 0
AllNamed [] = Unit {0}
AllNamed (c ∷ columns) = Lacks b':' c.name × Lacks b',' c.name × AllNamed columns

-- What reading gives: no column is nullable.
abbrev pub without_nullable : List Column → List Column
without_nullable [] = []
without_nullable (c ∷ columns) = record c { nullable = false } ∷ without_nullable columns

abbrev flag : Bool → Str
flag b = if b then codes "PK" else []

type_text-Lacks :
    (c : ℕ) (t : CatalogDataType)
    → lacks c (codes "INTEGER") ≡ true
    → lacks c (codes "TEXT") ≡ true
    → Lacks c (type_text t)
unfolding type_text
type_text-Lacks c integer h k = Lacks-lacks c (codes "INTEGER") h
type_text-Lacks c text h k = Lacks-lacks c (codes "TEXT") k

flag-Lacks : (c : ℕ) (b : Bool) → lacks c (codes "PK") ≡ true → Lacks c (flag b)
flag-Lacks c true h = Lacks-lacks c (codes "PK") h
flag-Lacks c false h = tt

read_type-type_text : (t : CatalogDataType) → read_type (type_text t) ≡ ok t
unfolding read_type type_text str_eq
read_type-type_text integer = refl
read_type-type_text text = refl

is_pk-flag : (b : Bool) → is_pk (some (flag b)) ≡ b
unfolding is_pk str_eq
is_pk-flag true = refl
is_pk-flag false = refl

column_step :
    (s name ty f : Str) (t : CatalogDataType) (pk : Bool)
    → split b':' s ≡ name ∷ ty ∷ f ∷ []
    → read_type ty ≡ ok t
    → is_pk (some f) ≡ pk
    → read_column s ≡ ok (record { name = name; data_type = t; primary_key = pk; nullable = false })
unfolding read_column
column_step s name ty f t pk a b c = rw (a, b, c) refl

abbrev column_text : Column → Str
column_text c = c.name ++ b':' ∷ (type_text c.data_type ++ b':' ∷ flag c.primary_key)

read_column-column_text :
    (c : Column)
    → Lacks b':' c.name
    → read_column (column_text c) ≡ ok (record c { nullable = false })
read_column-column_text c h =
    column_step (column_text c) c.name (type_text c.data_type) (flag c.primary_key) c.data_type
      c.primary_key
      (split-append b':' c.name (type_text c.data_type ++ b':' ∷ flag c.primary_key) h
        ∙ ap (λ l. c.name ∷ l)
            (split-append b':' (type_text c.data_type) (flag c.primary_key)
                (type_text-Lacks b':' c.data_type refl refl)
              ∙ ap (λ l. type_text c.data_type ∷ l)
                  (split-Lacks b':' (flag c.primary_key) (flag-Lacks b':' c.primary_key refl))))
      (read_type-type_text c.data_type) (is_pk-flag c.primary_key)

columns_step :
    (s : Str) (later : List Str) (c : Column) (columns : List Column)
    → read_column s ≡ ok c
    → read_columns later ≡ ok columns
    → read_columns (s ∷ later) ≡ ok (c ∷ columns)
unfolding read_columns
columns_step s later c columns a b = rw (a, b) refl

read_columns-column_texts :
    (columns : List Column)
    → AllNamed columns
    → read_columns (column_texts columns) ≡ ok (without_nullable columns)
unfolding column_texts
read_columns-column_texts [] a = unfold read_columns in refl
read_columns-column_texts (c ∷ columns) a =
    columns_step (column_text c) (column_texts columns) (record c { nullable = false })
      (without_nullable columns) (read_column-column_text c a.0)
      (read_columns-column_texts columns a.2)

column_texts-AllLack :
    (columns : List Column) → AllNamed columns → AllLack b',' (column_texts columns)
unfolding column_texts
column_texts-AllLack [] a = tt
column_texts-AllLack (c ∷ columns) a = (
  Lacks-append b',' c.name _ a.1 (
    refl,
    Lacks-append b',' (type_text c.data_type) _ (type_text-Lacks b',' c.data_type refl refl)
        (refl, flag-Lacks b',' c.primary_key refl),
  ),
  column_texts-AllLack columns a.2,
)

deserialize_step :
    (s name part : Str) (columns : List Column)
    → split_once b'|' s ≡ some (name, part)
    → columns_of part ≡ ok columns
    → deserialize s ≡ ok (record { name = name; columns = columns })
unfolding deserialize
deserialize_step s name part columns a b = rw (a, b) refl

columns_of_lem :
    (s head tail : Str) (c : ℕ) → s ≡ head ++ c ∷ tail → columns_of s ≡ read_columns (split b',' s)
unfolding columns_of
columns_of_lem [] [] tail c e = cc
columns_of_lem [] (h ∷ head) tail c e = cc
columns_of_lem (x ∷ s) head tail c e = refl

columns_of-join :
    (columns : List Column)
    → AllNamed columns
    → columns_of (join (codes ",") (column_texts columns)) ≡ ok (without_nullable columns)
columns_of-join [] a = unfold columns_of column_texts join in refl
columns_of-join (c ∷ columns) a =
    let first =
      join-first (codes ",") (column_text c) (column_texts columns) b':' c.name
        (type_text c.data_type ++ b':' ∷ flag c.primary_key) refl in
    unfold column_texts in
    columns_of_lem (join (codes ",") (column_text c ∷ column_texts columns)) c.name first.0 b':'
      first.1
    ∙ ap read_columns (
        split-join b',' (column_text c) (column_texts columns)
          (unfold column_texts in column_texts-AllLack (c ∷ columns) a))
    ∙ unfold column_texts in read_columns-column_texts (c ∷ columns) a

-- A schema whose name does not hold `|`, and whose columns' names hold neither `:` nor `,`, is read back
-- from its text, but no column of it is nullable then.
pub deserialize-serialize_schema :
    (schema : TableSchema)
    → Lacks b'|' schema.name
    → AllNamed schema.columns
    → deserialize (serialize schema)
      ≡ ok (record schema { columns = without_nullable schema.columns })
unfolding serialize
deserialize-serialize_schema schema h a =
    let part = join (codes ",") (column_texts schema.columns) in
    deserialize_step (schema.name ++ b'|' ∷ part) schema.name part (without_nullable schema.columns)
      (split_once-append b'|' schema.name part h) (columns_of-join schema.columns a)

index_step :
    (s name table_name column_name : Str)
    → split b'|' s ≡ name ∷ table_name ∷ column_name ∷ []
    → deserialize_index_schema s
      ≡ ok (record { name = name; table_name = table_name; column_name = column_name })
unfolding deserialize_index_schema
index_step s name table_name column_name e = rw e refl

-- An index schema whose names do not hold `|` is read back from its text.
pub deserialize_index_schema-serialize_index_schema :
    (i : IndexSchema)
    → Lacks b'|' i.name
    → Lacks b'|' i.table_name
    → Lacks b'|' i.column_name
    → deserialize_index_schema (serialize_index_schema i) ≡ ok i
unfolding serialize_index_schema
deserialize_index_schema-serialize_index_schema i h k l =
    index_step _ i.name i.table_name i.column_name (
      split-append b'|' i.name (i.table_name ++ b'|' ∷ i.column_name) h
      ∙ ap (λ x. i.name ∷ x)
          (split-append b'|' i.table_name i.column_name k
            ∙ ap (λ x. i.table_name ∷ x) (split-Lacks b'|' i.column_name l)))
