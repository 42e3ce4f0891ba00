-- ===== src/Sql/Parser.antt =====
-- sql/sql_parser.rs: the recursive-descent parser, over any source of tokens.
pub mod Cursor
pub mod Exprs
pub mod Items
pub mod Statements
pub mod Grammar
pub mod Complete
pub mod Judgement
pub mod Sound
