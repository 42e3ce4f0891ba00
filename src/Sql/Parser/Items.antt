-- ===== src/Sql/Parser/Items.antt =====
-- The parts of statements: column definitions, the items of a SELECT, assignments.
use arch_db.Prelude.{
  ℕ, zero, suc, Bool, true, false, Option, none, some, List, [], ◌∷◌, if◌then◌else◌, Result,
}
use arch_db.Prelude.Str.{codes, str_eq}
use arch_db.Sql.Ast.{Expr, DataType, ColumnDef, SelectItem, Assignment}
use arch_db.Sql.Token.{Token}
use arch_db.Sql.Lexer.{to_ascii_uppercase}
use arch_db.Sql.Parser.Cursor.{
  Parser, ◌>>=◌, ◌>>◌, pure, fail, starve, current_token, current_is, advance, expect, accept,
  parse_identifier, comma_list,
}
use arch_db.Sql.Parser.Exprs.{or_fail, parse_aggregate_expr, parse_primary}

-- `eq_ignore_ascii_case` with INT and with TEXT.
unfoldable pub data_type_of : Token → Option DataType
unfolding to_ascii_uppercase
data_type_of (Token.identifier name) =
    if str_eq (to_ascii_uppercase name) (codes "INT")
    then some DataType.int
    else if str_eq (to_ascii_uppercase name) (codes "TEXT")
    then some DataType.text
    else none
data_type_of _ = none

-- The tokens that may follow the assignments of an UPDATE.
unfoldable pub ends_assignments : Token → Bool
ends_assignments Token.where_ = true
ends_assignments Token.semicolon = true
ends_assignments Token.eof = true
ends_assignments _ = false

-- The `match` on what `parse_aggregate_expr` returned; its last arm is `unreachable!()`.
unfoldable pub select_item_of : Expr → Option SelectItem
select_item_of (Expr.aggregate function argument) = some (SelectItem.aggregate function argument)
select_item_of _ = none

module _ {S : Type 0} (next_token : S → Result (Token × S)) where
  unfoldable pub parse_data_type : Parser S DataType
  unfolding data_type_of advance
  parse_data_type = do
    token ← current_token
    or_fail (data_type_of token) λ data_type. do advance next_token; pure data_type

  unfoldable pub parse_column_definition : Parser S ColumnDef
  unfolding parse_identifier parse_data_type accept expect
  parse_column_definition = do
    name ← parse_identifier next_token
    data_type ← parse_data_type
    primary_key ← accept next_token Token.primary
    if primary_key
        then (do
          expect next_token Token.key
          pure (record { name = name; data_type = data_type; primary_key = true }))
        else pure (record { name = name; data_type = data_type; primary_key = false })

  unfoldable pub parse_aggregate_select_item : Parser S SelectItem
  unfolding parse_identifier parse_aggregate_expr select_item_of
  parse_aggregate_select_item = do
    function_name ← parse_identifier next_token
    call ← current_is Token.left_paren
    if call
        then (do
          expr ← parse_aggregate_expr next_token function_name
          or_fail (select_item_of expr) pure)
        else pure (SelectItem.column function_name)

  -- One round of the loop of `parse_select_items`: the item, and `wildcard_seen` after it.
  unfoldable pub select_item : Bool → Token → Parser S (SelectItem × Bool)
  unfolding advance parse_aggregate_select_item
  select_item wildcard_seen Token.star =
      if wildcard_seen then fail else do advance next_token; pure (SelectItem.wildcard, true)
  select_item wildcard_seen (Token.identifier _) = do
    item ← parse_aggregate_select_item
    pure (item, wildcard_seen)
  select_item wildcard_seen _ = fail

  unfoldable pub select_items_loop : ℕ → Bool → Parser S (List SelectItem)
  unfolding select_item accept
  select_items_loop zero wildcard_seen = starve
  select_items_loop (suc fuel) wildcard_seen = do
    token ← current_token
    (item, seen) ← select_item wildcard_seen token
    more ← accept next_token Token.comma
    let rest = select_items_loop fuel seen
    if more then (do items ← rest; pure (item ∷ items)) else pure (item ∷ [])

  unfoldable pub parse_select_items : ℕ → Parser S (List SelectItem)
  unfolding select_items_loop
  parse_select_items fuel = select_items_loop fuel false

  module _ (inner : Parser S Expr) where
    unfoldable pub parse_assignment : Parser S Assignment
    unfolding parse_identifier expect parse_primary
    parse_assignment = do
      column ← parse_identifier next_token
      expect next_token Token.equal
      value ← parse_primary next_token inner
      pure (record { column = column; value = value })

    unfoldable pub parse_assignment_list : ℕ → Parser S (List Assignment)
    unfolding comma_list parse_assignment ends_assignments
    parse_assignment_list fuel = do
      assignments ← comma_list next_token fuel parse_assignment
      token ← current_token
      if ends_assignments token then pure assignments else fail
