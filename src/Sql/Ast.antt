-- ===== src/Sql/Ast.antt =====
-- sql/ast.rs: the abstract syntax of statements.
use arch_db.Prelude.{ℕ, Bool, Option, List}
use arch_db.Prelude.Str.{Str}
use arch_db.Prelude.Int.{ℤ}

pub data DataType : Type 0 where
  int text : DataType

pub data AggregateFunction : Type 0 where
  count min max sum avg : AggregateFunction

pub data BinaryOperator : Type 0 where
  equal not_equal greater_than greater_than_or_equal less_than less_than_or_equal and or :
      BinaryOperator

pub data Expr : Type 0 where
  identifier : Str → Expr
  wildcard : Expr
  number : ℤ → Expr
  string : Str → Expr
  aggregate : AggregateFunction → Expr → Expr
  binary : Expr → BinaryOperator → Expr → Expr

pub data SelectItem : Type 0 where
  wildcard : SelectItem
  column : Str → SelectItem
  aggregate : AggregateFunction → Expr → SelectItem

pub data OrderDirection : Type 0 where
  asc desc : OrderDirection

pub record OrderBy : Type 0 where
  pub column : Str
  pub direction : OrderDirection

pub record ColumnDef : Type 0 where
  pub name : Str
  pub data_type : DataType
  pub primary_key : Bool

pub record CreateTable : Type 0 where
  pub table_name : Str
  pub columns : List ColumnDef

pub record CreateIndex : Type 0 where
  pub index_name : Str
  pub table_name : Str
  pub column_name : Str

pub record Insert : Type 0 where
  pub table_name : Str
  pub columns : List Str
  pub values : List Expr

pub record Select : Type 0 where
  pub columns : List SelectItem
  pub table_name : Str
  pub where_clause : Option Expr
  pub group_by : Option (List Str)
  pub having : Option Expr
  pub order_by : Option OrderBy
  pub limit : Option ℕ
  pub distinct : Bool

pub record Delete : Type 0 where
  pub table_name : Str
  pub where_clause : Option Expr

pub record Assignment : Type 0 where
  pub column : Str
  pub value : Expr

pub record Update : Type 0 where
  pub table_name : Str
  pub assignments : List Assignment
  pub where_clause : Option Expr

pub data Statement : Type 0 where
  create_table : CreateTable → Statement
  create_index : CreateIndex → Statement
  insert : Insert → Statement
  select : Select → Statement
  delete : Delete → Statement
  update : Update → Statement
