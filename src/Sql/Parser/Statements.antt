-- ===== src/Sql/Parser/Statements.antt =====
-- The statements. `fuel` bounds the lengths of lists and the depth of expressions.
use arch_db.Prelude.{
  ℕ, ◌-◌, suc, ◌&&◌, Bool, not, Option, none, some, List, [], length, ◌==◌, if◌then◌else◌, Result,
}
use arch_db.Prelude.Str.{Str}
use arch_db.Prelude.Int.{ℤ, pos, negsuc}
use arch_db.Prelude.Bytes.{u64_mod}
use arch_db.Sql.Ast.{Expr, Statement, OrderBy, OrderDirection}
use arch_db.Sql.Token.{Token}
use arch_db.Sql.Parser.Cursor.{
  Parser, ◌>>=◌, ◌>>◌, pure, fail, current_token, advance, expect, accept, parse_identifier,
  comma_list, consume_optional_semicolon,
}
use arch_db.Sql.Parser.Exprs.{parse_primary, parse_expression}
use arch_db.Sql.Parser.Items.{parse_column_definition, parse_select_items, parse_assignment_list}

-- `n as usize` of an `i64`, on a target of 64 bits.
unfoldable pub as_usize : ℤ → ℕ
as_usize (pos n) = n
as_usize (negsuc n) = u64_mod - suc n

module _ {S : Type 0} (next_token : S → Result (Token × S)) where
  -- `if self.current_token == token { self.advance(); Some(parser()) } else { None }`
  abbrev pub optional : {A : Type 0} → Token → Parser S A → Parser S (Option A)
  optional token parser = do
    given ← accept next_token token
    if given then (do a ← parser; pure (some a)) else pure none

  -- After CREATE INDEX.
  unfoldable pub parse_create_index : Parser S Statement
  unfolding parse_identifier expect
  parse_create_index = do
    index_name ← parse_identifier next_token
    expect next_token Token.on
    table_name ← parse_identifier next_token
    expect next_token Token.left_paren
    column_name ← parse_identifier next_token
    expect next_token Token.right_paren
    pure (
        Statement.create_index
          (record { index_name = index_name; table_name = table_name; column_name = column_name }))

  -- After CREATE TABLE.
  unfoldable pub parse_columns : ℕ → Parser S Statement
  unfolding parse_identifier expect comma_list parse_column_definition consume_optional_semicolon
  parse_columns fuel = do
    table_name ← parse_identifier next_token
    expect next_token Token.left_paren
    columns ← comma_list next_token fuel (parse_column_definition next_token)
    expect next_token Token.right_paren
    consume_optional_semicolon next_token
    pure (Statement.create_table (record { table_name = table_name; columns = columns }))

  -- The `match` after CREATE.
  unfoldable pub parse_created : ℕ → Token → Parser S Statement
  unfolding advance parse_columns parse_create_index
  parse_created fuel Token.table = do advance next_token; parse_columns fuel
  parse_created fuel Token.index = do advance next_token; parse_create_index
  parse_created fuel _ = fail

  unfoldable pub parse_create_table : ℕ → Parser S Statement
  unfolding expect parse_created
  parse_create_table fuel = do
    expect next_token Token.create
    token ← current_token
    parse_created fuel token

  unfoldable pub parse_where : ℕ → Parser S (Option Expr)
  unfolding accept parse_expression
  parse_where fuel = optional Token.where_ (parse_expression next_token fuel)

  unfoldable pub parse_group_by : ℕ → Parser S (Option (List Str))
  unfolding accept expect comma_list parse_identifier
  parse_group_by fuel =
      optional Token.group
        (do expect next_token Token.by; comma_list next_token fuel (parse_identifier next_token))

  unfoldable pub direction_of : Token → Parser S OrderDirection
  unfolding advance
  direction_of Token.desc = do advance next_token; pure OrderDirection.desc
  direction_of Token.asc = do advance next_token; pure OrderDirection.asc
  direction_of _ = pure OrderDirection.asc

  -- After ORDER.
  unfoldable pub parse_order : Parser S OrderBy
  unfolding expect parse_identifier direction_of
  parse_order = do
    expect next_token Token.by
    column ← parse_identifier next_token
    token ← current_token
    direction ← direction_of token
    pure (record { column = column; direction = direction })

  unfoldable pub limit_of : Token → Parser S ℕ
  unfolding advance as_usize
  limit_of (Token.number n) = do advance next_token; pure (as_usize n)
  limit_of _ = fail

  unfoldable pub parse_select : ℕ → Parser S Statement
  unfolding expect accept parse_select_items parse_identifier parse_where parse_group_by
      parse_expression parse_order limit_of
  parse_select fuel = do
    expect next_token Token.select
    distinct ← accept next_token Token.distinct
    columns ← parse_select_items next_token fuel
    expect next_token Token.from
    table_name ← parse_identifier next_token
    where_clause ← parse_where fuel
    group_by ← parse_group_by fuel
    having ← optional Token.having (parse_expression next_token fuel)
    order_by ← optional Token.order parse_order
    limit ← optional Token.limit (do token ← current_token; limit_of token)
    pure (
        Statement.select (record {
          columns = columns;
          table_name = table_name;
          where_clause = where_clause;
          group_by = group_by;
          having = having;
          order_by = order_by;
          limit = limit;
          distinct = distinct;
        }))

  -- The optional list of columns of an INSERT.
  unfoldable pub parse_insert_columns : ℕ → Parser S (List Str)
  unfolding accept comma_list parse_identifier expect
  parse_insert_columns fuel = do
    given ← accept next_token Token.left_paren
    if given
        then (do
          cols ← comma_list next_token fuel (parse_identifier next_token)
          expect next_token Token.right_paren
          pure cols)
        else pure []

  -- `!columns.is_empty() && columns.len() != values.len()`
  unfoldable pub is_mismatch : List Str → List Expr → Bool
  is_mismatch columns values = not (length columns == 0) && not (length columns == length values)

  unfoldable pub parse_insert : ℕ → Parser S Statement
  unfolding expect parse_identifier parse_insert_columns comma_list parse_primary parse_expression
      is_mismatch consume_optional_semicolon
  parse_insert fuel = do
    expect next_token Token.insert
    expect next_token Token.into
    table_name ← parse_identifier next_token
    columns ← parse_insert_columns fuel
    expect next_token Token.values
    expect next_token Token.left_paren
    values ←
        comma_list next_token fuel (parse_primary next_token (parse_expression next_token fuel))
    expect next_token Token.right_paren
    if is_mismatch columns values then fail else do
      consume_optional_semicolon next_token
      pure (
          Statement.insert (record { table_name = table_name; columns = columns; values = values }))

  unfoldable pub parse_delete : ℕ → Parser S Statement
  unfolding expect parse_identifier parse_where consume_optional_semicolon
  parse_delete fuel = do
    expect next_token Token.delete
    expect next_token Token.from
    table_name ← parse_identifier next_token
    where_clause ← parse_where fuel
    consume_optional_semicolon next_token
    pure (Statement.delete (record { table_name = table_name; where_clause = where_clause }))

  unfoldable pub parse_update : ℕ → Parser S Statement
  unfolding expect parse_identifier parse_assignment_list parse_expression parse_where
      consume_optional_semicolon
  parse_update fuel = do
    expect next_token Token.update
    table_name ← parse_identifier next_token
    expect next_token Token.set
    assignments ← parse_assignment_list next_token (parse_expression next_token fuel) fuel
    where_clause ← parse_where fuel
    consume_optional_semicolon next_token
    pure (
        Statement.update (record {
          table_name = table_name;
          assignments = assignments;
          where_clause = where_clause;
        }))

  unfoldable pub statement_of : ℕ → Token → Parser S Statement
  unfolding parse_select parse_insert parse_create_table parse_delete parse_update
  statement_of fuel Token.select = parse_select fuel
  statement_of fuel Token.insert = parse_insert fuel
  statement_of fuel Token.create = parse_create_table fuel
  statement_of fuel Token.delete = parse_delete fuel
  statement_of fuel Token.update = parse_update fuel
  statement_of fuel _ = fail

  unfoldable pub parse_statement : ℕ → Parser S Statement
  unfolding statement_of
  parse_statement fuel = do token ← current_token; statement_of fuel token
