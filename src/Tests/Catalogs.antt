-- ===== src/Tests/Catalogs.antt =====
-- The texts of rows, schemas and the manifest, and the index forms of numbers.
use arch_db.Prelude.{
  ◌≡◌, refl, true, false, some, [], ◌∷◌, arith, ok, panic, Bool, List, ◌++◌, if◌then◌else◌, none,
}
use arch_db.Prelude.Str.{codes, str_lt, str_cmp, str_eq, Str}
use arch_db.Prelude.Int.{pos, negsuc}
use arch_db.Prelude.TreeMap.{IsSorted}
use arch_db.Prelude.Text.{Lacks-lacks}
use arch_db.Prelude.Utf8.{is_utf8}
use arch_db.Sql.Row.{Row, RowValue, integer, text}
use arch_db.Sql.Row.Text.Separators.{deserialize-serialize_panics}
use arch_db.Sql.Row.Text.{deserialize, serialize}
use arch_db.Sql.Row.Text.RoundTrip.{AllPlain, deserialize-serialize_row}
use arch_db.Value.{data_of, tombstone, BlockRecord}
use arch_db.Prelude.Dict.{has, lookup}
use arch_db.Prelude.Text.{strip_prefix}
use arch_db.Sql.Catalog.{CatalogDataType, Column, TableSchema, Catalog, table, load_tables}
use arch_db.Sql.Catalog.Loading.{
  record_of, Stores, finished, schema_stored, unrelated, deleted, schema_of, or_known,
  table-load_tables,
}
use arch_db.Sql.Table.{encode_index_value}
use arch_db.Sql.Table.Order.{str_lt-encode_index_value}
use arch_db.Prelude.Decimal.{decimal}
use arch_db.Manager.{Level}
use arch_db.Manager.Manifest.{ManifestRecord, add_table, remove_table, line_of, load_log}
use arch_db.Manager.Manifest.RoundTrip.{IsLogged, log_of, load_log-log_of}

abbrev ann : Row
ann = record {
  values = (codes "age", integer (negsuc 4)) ∷ (codes "name", text (codes "Ann = A")) ∷ [];
}

ann-IsSorted : IsSorted ann.values
unfolding str_cmp
ann-IsSorted = ((refl, tt), (tt, tt))

ann-AllPlain : AllPlain ann.values
ann-AllPlain = (
  Lacks-lacks b'|' (codes "age") refl,
  Lacks-lacks b'=' (codes "age") refl,
  omega arith,
  (
    Lacks-lacks b'|' (codes "name") refl,
    Lacks-lacks b'=' (codes "name") refl,
    Lacks-lacks b'|' (codes "Ann = A") refl,
    tt,
  ),
)

deserialize-serialize_row_example : deserialize (serialize ann) ≡ ok ann
deserialize-serialize_row_example = deserialize-serialize_row ann ann-IsSorted ann-AllPlain

abbrev noted : List (Str × RowValue)
noted = (codes "note", text (codes "a|b|c")) ∷ (codes "title", text (codes "x = y")) ∷ []

-- The text `a|b|c`, between two other columns.
deserialize-serialize_panics_example :
    deserialize (serialize (record { values = (codes "age", integer (negsuc 4)) ∷ noted })) ≡ panic
deserialize-serialize_panics_example =
    deserialize-serialize_panics ((codes "age", integer (negsuc 4)) ∷ [])
      ((codes "title", text (codes "x = y")) ∷ []) (codes "note") (codes "a") (codes "b|c")
      (Lacks-lacks b'|' (codes "age") refl, Lacks-lacks b'=' (codes "age") refl, omega arith, tt)
      (Lacks-lacks b'|' (codes "note") refl) (Lacks-lacks b'=' (codes "note") refl)
      (Lacks-lacks b'|' (codes "a") refl) (Lacks-lacks b'=' (codes "b|c") refl)

abbrev name_column : Bool → Column
name_column nullable = record {
  name = codes "name";
  data_type = CatalogDataType.text;
  primary_key = false;
  nullable = nullable;
}

abbrev people : Bool → TableSchema
people nullable = record { name = codes "people"; columns = name_column nullable ∷ [] }

abbrev no_tables : Catalog
no_tables = record { tables = []; indexes = [] }

abbrev user_row : BlockRecord
user_row = record { key = codes "people:1"; value = data_of (codes "name=t:Ann") }

abbrev stored_records : List BlockRecord
stored_records =
    record { key = codes "__schema__:" ++ codes "old"; value = tombstone }
    ∷ record_of (people true)
    ∷ user_row
    ∷ []

stored_records-Stores : Stores no_tables stored_records (people true ∷ [])
unfolding strip_prefix has
stored_records-Stores = deleted (codes "old") (
    schema_stored (people true) (Lacks-lacks b'|' (codes "people") refl)
      (Lacks-lacks b':' (codes "name") refl, Lacks-lacks b',' (codes "name") refl, tt) refl
      (unrelated user_row refl finished))

-- A column that was nullable is not nullable when it was loaded.
table-load_tables_example :
    (c : Catalog) × (load_tables stored_records no_tables ≡ ok c)
    × ((name : Str)
        → table name c
          ≡ or_known (if str_eq (codes "people") name then some (people false) else none) none)
unfolding schema_of table lookup
table-load_tables_example =
    table-load_tables no_tables stored_records (people true ∷ []) stored_records-Stores

-- 9 stands before 10, and -10 before -11.
str_lt-encode_index_value_example :
    (str_lt (encode_index_value (integer (pos 9))) (encode_index_value (integer (pos 10))) ≡ true)
    × (str_lt (encode_index_value (integer (negsuc 9))) (encode_index_value (integer (negsuc 10)))
        ≡ true)
str_lt-encode_index_value_example = str_lt-encode_index_value 9 10 (omega arith) (omega arith)

abbrev added : ManifestRecord
added = add_table Level.l1 (codes "sst_l1_7.bin") (codes "a") (codes "m") 120

abbrev removed : ManifestRecord
removed = remove_table (codes "sst_l0_3.bin")

added-IsLogged : IsLogged added
unfolding line_of is_utf8 decimal
added-IsLogged = record {
  parts = (
    Lacks-lacks b'|' (codes "sst_l1_7.bin") refl,
    Lacks-lacks b'|' (codes "a") refl,
    Lacks-lacks b'|' (codes "m") refl,
    omega arith,
  );
  utf8 = refl;
  one_line = Lacks-lacks 10 (line_of added) refl;
}

removed-IsLogged : IsLogged removed
unfolding line_of is_utf8
removed-IsLogged = record {
  parts = (
    Lacks-lacks b'|' (codes "sst_l0_3.bin") refl,
    codes "sst_l0_3.bi",
    b'n',
    refl,
    omega arith,
    omega arith,
  );
  utf8 = refl;
  one_line = Lacks-lacks 10 (line_of removed) refl;
}

load_log-log_of_example :
    load_log (some (log_of (added ∷ removed ∷ []))) ≡ ok (added ∷ removed ∷ [])
load_log-log_of_example =
    load_log-log_of (added ∷ removed ∷ []) (added-IsLogged, (removed-IsLogged, tt))
