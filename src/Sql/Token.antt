-- ===== src/Sql/Token.antt =====
-- sql/token.rs: the tokens of SQL, and their derived equality.
use arch_db.Prelude.{ℕ, Bool, ◌==◌}
use arch_db.Prelude.Str.{Str, str_eq}
use arch_db.Prelude.Int.{ℤ, eqb_ℤ}

pub data Token : Type 0 where
  select insert delete update create set into values from where_ table order by limit asc desc :
      Token
  index on and or group having distinct primary key : Token
  left_paren right_paren comma semicolon star equal not_equal : Token
  greater_than greater_than_or_equal less_than less_than_or_equal : Token
  identifier : Str → Token
  string : Str → Token
  number : ℤ → Token
  eof : Token

-- The constructor's place in the declaration.
unfoldable pub tag : Token → ℕ
tag select = 0
tag insert = 1
tag delete = 2
tag update = 3
tag create = 4
tag set = 5
tag into = 6
tag values = 7
tag from = 8
tag where_ = 9
tag table = 10
tag order = 11
tag by = 12
tag limit = 13
tag asc = 14
tag desc = 15
tag index = 16
tag on = 17
tag and = 18
tag or = 19
tag group = 20
tag having = 21
tag distinct = 22
tag primary = 23
tag key = 24
tag left_paren = 25
tag right_paren = 26
tag comma = 27
tag semicolon = 28
tag star = 29
tag equal = 30
tag not_equal = 31
tag greater_than = 32
tag greater_than_or_equal = 33
tag less_than = 34
tag less_than_or_equal = 35
tag (identifier s) = 36
tag (string s) = 37
tag (number n) = 38
tag eof = 39

unfoldable pub token_eq : Token → Token → Bool
unfolding tag
token_eq (identifier s) (identifier t) = str_eq s t
token_eq (string s) (string t) = str_eq s t
token_eq (number a) (number b) = eqb_ℤ a b
token_eq a b = tag a == tag b
