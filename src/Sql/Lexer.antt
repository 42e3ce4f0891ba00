-- ===== src/Sql/Lexer.antt =====
-- sql/lexer.rs: the tokens of a text. A character is its code point. The Unicode classes of `char`
-- are parameters; the ASCII classes are written out.
pub mod Progress
use arch_db.Prelude.{
  ℕ, zero, suc, ◌+◌, ◌-◌, ◌*◌, ◌/◌, ◌%◌, ◌^◌, ◌<◌, ◌≡◌, Bool, true, false, ◌&&◌, ◌||◌, Option, none,
  some, List, [], ◌∷◌, ◌++◌, map, length, get_elem?, take, drop, ltb, leb, ◌==◌, if◌then◌else◌,
  Result, ok, panic, ◌>>=◌,
}
use arch_db.Prelude.Str.{Str, codes, str_eq}
use arch_db.Prelude.Int.{ℤ, pos}
use arch_db.Sql.Token.{
  Token, select, insert, delete, update, create, set, into, values, from, where_, table, order, by,
  limit, asc, desc, index, on, and, or, group, having, distinct, primary, key, left_paren,
  right_paren, comma, semicolon, star, equal, not_equal, greater_than, greater_than_or_equal,
  less_than, less_than_or_equal, identifier, string, number, eof,
}

pub record Lexer : Type 0 where
  pub input : List ℕ
  pub position : ℕ

unfoldable pub new : List ℕ → Lexer
new input = record { input = input; position = 0 }

abbrev pub current_char : Lexer → Option ℕ
current_char l = get_elem? l.input l.position

abbrev pub advance : Lexer → Lexer
advance l = record l { position = l.position + 1 }

abbrev pub peek : Lexer → Option ℕ
peek l = get_elem? l.input (l.position + 1)

unfoldable pub is_ascii_digit : ℕ → Bool
is_ascii_digit c = leb b'0' c && leb c b'9'

unfoldable pub is_ascii_alphanumeric : ℕ → Bool
unfolding is_ascii_digit
is_ascii_alphanumeric c =
    is_ascii_digit c || (leb b'a' c && leb c b'z') || (leb b'A' c && leb c b'Z')

unfoldable pub is_identifier_char : ℕ → Bool
unfolding is_ascii_alphanumeric
is_identifier_char c = is_ascii_alphanumeric c || c == b'_'

-- `while let Some(ch) = self.current_char() { if test(ch) { self.advance() } else { break } }`; the
-- length of the input is fuel enough.
unfoldable pub advance_while : ℕ → (ℕ → Bool) → Lexer → Lexer
advance_while zero test l = l
advance_while (suc fuel) test l = elim (current_char l) [
  | none ↦ l
  | some ch ↦ elim (test ch) [ true ↦ advance_while fuel test (advance l) | false ↦ l ]
]

-- `self.input[start..self.position]`
abbrev pub read_from : ℕ → Lexer → List ℕ
read_from start l = take (l.position - start) (drop start l.input)

-- One character in UTF-8.
unfoldable pub encode_char : ℕ → Str
encode_char c =
    if ltb c 0x80
    then c ∷ []
    else if ltb c 0x800
    then (0xc0 + c / 64) ∷ (0x80 + c % 64) ∷ []
    else if ltb c 0x10000
    then (0xe0 + c / 4096) ∷ (0x80 + c / 64 % 64) ∷ (0x80 + c % 64) ∷ []
    else (0xf0 + c / 262144) ∷ (0x80 + c / 4096 % 64) ∷ (0x80 + c / 64 % 64) ∷ (0x80 + c % 64) ∷ []

-- `.iter().collect::<String>()`
unfoldable pub collect : List ℕ → Str
unfolding encode_char
collect [] = []
collect (c ∷ cs) = encode_char c ++ collect cs

unfoldable pub read_identifier : Lexer → Str × Lexer
unfolding advance_while is_identifier_char collect
read_identifier l =
    let l' = advance_while (length l.input) is_identifier_char l in
    (collect (read_from l.position l'), l')

-- The digits of `str::parse`, without its bound.
unfoldable pub decimal : ℕ → List ℕ → ℕ
decimal acc [] = acc
decimal acc (c ∷ cs) = decimal (acc * 10 + (c - b'0')) cs

-- `parse::<i64>().expect(…)` panics on no digit, and beyond 2 ^ 63 - 1.
unfoldable pub read_number : Lexer → Result (ℤ × Lexer)
unfolding advance_while is_ascii_digit decimal
read_number l =
    let l' = advance_while (length l.input) is_ascii_digit l in
    let digits = read_from l.position l' in
    if length digits == 0
    then panic
    else if ltb (decimal 0 digits) (2 ^ 63)
    then ok (pos (decimal 0 digits), l')
    else panic

unfoldable pub is_not_quote : ℕ → Bool
is_not_quote c = if c == 39 then false else true

-- The text up to the closing quote, or to the end of the input.
unfoldable pub read_string : Lexer → Str × Lexer
unfolding advance_while is_not_quote collect
read_string l =
    let opened = advance l in
    let l' = advance_while (length l.input) is_not_quote opened in
    let value = collect (read_from opened.position l') in
    elim (current_char l') [
      | none ↦ (value, l')
      | some ch ↦ if ch == 39 then (value, advance l') else (value, l')
    ]

unfoldable pub to_ascii_uppercase : Str → Str
to_ascii_uppercase = map (λ c. if leb b'a' c && leb c b'z' then c - 32 else c)

abbrev pub keywords : List (Str × Token)
keywords =
    (codes "SELECT", select)
    ∷ (codes "INSERT", insert)
    ∷ (codes "DELETE", delete)
    ∷ (codes "UPDATE", update)
    ∷ (codes "CREATE", create)
    ∷ (codes "SET", set)
    ∷ (codes "FROM", from)
    ∷ (codes "WHERE", where_)
    ∷ (codes "INTO", into)
    ∷ (codes "VALUES", values)
    ∷ (codes "TABLE", table)
    ∷ (codes "ORDER", order)
    ∷ (codes "BY", by)
    ∷ (codes "LIMIT", limit)
    ∷ (codes "ASC", asc)
    ∷ (codes "DESC", desc)
    ∷ (codes "INDEX", index)
    ∷ (codes "ON", on)
    ∷ (codes "AND", and)
    ∷ (codes "OR", or)
    ∷ (codes "PRIMARY", primary)
    ∷ (codes "KEY", key)
    ∷ (codes "GROUP", group)
    ∷ (codes "HAVING", having)
    ∷ (codes "DISTINCT", distinct)
    ∷ []

-- The arms of a `match` on a text, in order.
unfoldable pub match_text : Str → List (Str × Token) → Option Token
match_text s [] = none
match_text s ((t, token) ∷ arms) = if str_eq s t then some token else match_text s arms

unfoldable pub lookup_keyword : Str → Token
unfolding to_ascii_uppercase match_text
lookup_keyword name = elim (match_text (to_ascii_uppercase name) keywords) [
  | some token ↦ token
  | none ↦ identifier name
]

-- `char::is_alphabetic` and `char::is_whitespace`, with what they are on ASCII.
pub record CharClasses : Type 0 where
  pub is_alphabetic : ℕ → Bool
  pub is_whitespace : ℕ → Bool
  pub ascii_alphabetic :
      (c : ℕ)
      → c < 128
      → is_alphabetic c ≡ ((leb b'a' c && leb c b'z') || (leb b'A' c && leb c b'Z'))
  pub ascii_whitespace : (c : ℕ) → c < 128 → is_whitespace c ≡ ((leb 9 c && leb c 13) || c == 32)

-- Two characters, the second of which must be `=`.
unfoldable pub with_equal : Token → Result (Token × Lexer) → Lexer → Result (Token × Lexer)
with_equal both otherwise l = elim (peek l) [
  | some ch ↦ if ch == b'=' then ok (both, advance (advance l)) else otherwise
  | none ↦ otherwise
]

-- The arms of `next_token` for a character that starts no word, number or text.
unfoldable pub symbol : ℕ → Lexer → Result (Token × Lexer)
unfolding with_equal
symbol ch l =
    if ch == b'*'
    then ok (star, advance l)
    else if ch == b'='
    then ok (equal, advance l)
    else if ch == b'!'
    then with_equal not_equal panic l
    else if ch == b'>'
    then with_equal greater_than_or_equal (ok (greater_than, advance l)) l
    else if ch == b'<'
    then with_equal less_than_or_equal (ok (less_than, advance l)) l
    else if ch == b'('
    then ok (left_paren, advance l)
    else if ch == b')'
    then ok (right_paren, advance l)
    else if ch == b','
    then ok (comma, advance l)
    else if ch == b';'
    then ok (semicolon, advance l)
    else panic

module _ (class : CharClasses) where
  unfoldable pub skip_whitespace : Lexer → Lexer
  unfolding advance_while
  skip_whitespace l = advance_while (length l.input) class.is_whitespace l

  unfoldable pub next_token : Lexer → Result (Token × Lexer)
  unfolding skip_whitespace read_identifier read_number read_string lookup_keyword symbol
      is_ascii_digit
  next_token l =
      let l' = skip_whitespace l in
      elim (current_char l') [
        | none ↦ ok (eof, l')
        | some ch ↦
            if class.is_alphabetic ch || ch == b'_'
            then (let (name, next) = read_identifier l' in ok (lookup_keyword name, next))
            else if is_ascii_digit ch
            then (do (n, next) ← read_number l'; ok (number n, next))
            else if ch == 39
            then (let (text, next) = read_string l' in ok (string text, next))
            else symbol ch l'
      ]
