-- ===== src/Sql.antt =====
-- sql/: the SQL layer.
pub mod Ast
pub mod Row
pub mod Catalog
pub mod Table
pub mod Expression
pub mod Token
pub mod Lexer
pub mod Parser
