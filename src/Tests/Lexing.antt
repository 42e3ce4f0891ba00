-- ===== src/Tests/Lexing.antt =====
-- The lexer with the Latin letters and the white space up to U+00FF.
use arch_db.Prelude.{ℕ, ◌<◌, ◌≡◌, refl, Bool, none, ◌&&◌, ◌||◌, ◌==◌, ◌⊎◌, [], ◌∷◌, arith, leb, ok}
use arch_db.Prelude.Str.{codes, str_eq}
use arch_db.Sql.Token.{identifier, eof, select}
use arch_db.Sql.Lexer.{Lexer, CharClasses, current_char, skip_whitespace, next_token}
use arch_db.Sql.Lexer.Progress.{Moves, next_token-Moves, next_token_stuck}

abbrev is_letter : ℕ → Bool
is_letter c = (leb b'a' c && leb c b'z') || (leb b'A' c && leb c b'Z') || leb 0xc0 c

abbrev is_space : ℕ → Bool
is_space c = (leb 9 c && leb c 13) || c == 32 || c == 0xa0

is_letter_ascii :
    (c : ℕ) → c < 128 → is_letter c ≡ ((leb b'a' c && leb c b'z') || (leb b'A' c && leb c b'Z'))
is_letter_ascii c lt = ground arith

is_space_ascii : (c : ℕ) → c < 128 → is_space c ≡ ((leb 9 c && leb c 13) || c == 32)
is_space_ascii c lt = ground arith

abbrev latin : CharClasses
latin = record {
  is_alphabetic = is_letter;
  is_whitespace = is_space;
  ascii_alphabetic = is_letter_ascii;
  ascii_whitespace = is_space_ascii;
}

-- ` select *`
abbrev query : Lexer
query = record { input = codes " select *"; position = 0 }

query_token :
    next_token latin query ≡ ok (select, record { input = codes " select *"; position = 7 })
unfolding next_token str_eq
query_token = refl

next_token-Moves_example :
    ((select ≡ eof) × (current_char (record { input = codes " select *"; position = 7 }) ≡ none))
    ⊎ Moves query (record { input = codes " select *"; position = 7 })
next_token-Moves_example =
    next_token-Moves latin query (record { input = codes " select *"; position = 7 }) select
      (ground arith) query_token

-- A space, and then the letter U+00E9.
abbrev accented : Lexer
accented = record { input = 32 ∷ 0xe9 ∷ []; position = 0 }

next_token_stuck_example :
    next_token latin accented ≡ ok (identifier [], skip_whitespace latin accented)
unfolding skip_whitespace
next_token_stuck_example = next_token_stuck latin accented 0xe9 refl (omega arith) refl
