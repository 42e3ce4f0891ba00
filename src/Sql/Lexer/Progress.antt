-- ===== src/Sql/Lexer/Progress.antt =====
-- `next_token` moves on, on ASCII; where it does not, elsewhere.
use arch_db.Prelude.{
  ℕ, zero, suc, ◌-◌, ◌≤◌, ◌<◌, ◌≡◌, refl, Bool, true, ◌||◌, inl, inr, some, arith, length,
  List-cases, Bool-cases, Result, ok, ◌>>=◌, if◌then◌else◌, ◌==◌, List, false, none, ◌∷◌, get_elem?,
  [], ◌⊎◌, Option-cases, ◌∙◌,
}
use arch_db.Prelude.Str.{str_eq}
use arch_db.Sql.Token.{Token}
use arch_db.Sql.Lexer.{
  Lexer, current_char, advance, advance_while, is_identifier_char, is_ascii_digit, is_not_quote,
  read_identifier, read_number, read_string, symbol, CharClasses, skip_whitespace, next_token,
  number, lookup_keyword, string, eof, identifier,
}

-- The lexer stands at or after where it stood, in the same text.
pub record Follows (l l' : Lexer) : Type 0 where
  pub same : l'.input ≡ l.input
  pub later : l.position ≤ l'.position

-- It has moved on.
pub record Moves (l l' : Lexer) : Type 0 where
  pub same : l'.input ≡ l.input
  pub further : l.position < l'.position

advance_while-Follows :
    (fuel : ℕ) (test : ℕ → Bool) (l : Lexer) → Follows l (advance_while fuel test l)
unfolding advance_while
advance_while-Follows zero test l = record { same = refl; later = omega arith }
advance_while-Follows (suc fuel) test l =
    ground (arith, advance_while-Follows fuel test (advance l))

advance_while-Moves :
    (fuel : ℕ) (test : ℕ → Bool) (l : Lexer) (ch : ℕ)
    → 0 < fuel
    → current_char l ≡ some ch
    → test ch ≡ true
    → Moves l (advance_while fuel test l)
unfolding advance_while
advance_while-Moves zero test l ch lt h k = absurd (omega arith)
advance_while-Moves (suc fuel) test l ch lt h k =
    ground (arith, advance_while-Follows fuel test (advance l))

-- Where there is a character the text is not empty.
length-current_char : (l : Lexer) (ch : ℕ) → current_char l ≡ some ch → 0 < length l.input
length-current_char l ch h = elim (List-cases l.input) [
  | inl e ↦ ground arith
  | inr (c, cs, e) ↦ ground arith
]

read_identifier-Moves :
    (l : Lexer) (ch : ℕ)
    → current_char l ≡ some ch
    → is_identifier_char ch ≡ true
    → Moves l (read_identifier l).1
unfolding read_identifier
read_identifier-Moves l ch h k =
    advance_while-Moves (length l.input) is_identifier_char l ch (length-current_char l ch h) h k

-- The arms of `next_token` for a letter, a quote and a digit.
abbrev word_token : Lexer → Result (Token × Lexer)
word_token l = let (name, next) = read_identifier l in ok (lookup_keyword name, next)

abbrev text_end : Lexer → Result (Token × Lexer)
text_end l = ok (eof, l)

abbrev text_token : Lexer → Result (Token × Lexer)
text_token l = let (text, next) = read_string l in ok (string text, next)

abbrev number_token : Lexer → Result (Token × Lexer)
number_token l = do (n, next) ← read_number l; ok (number n, next)

number_token-Moves :
    (l l' : Lexer) (ch : ℕ) (t : Token)
    → current_char l ≡ some ch
    → is_ascii_digit ch ≡ true
    → number_token l ≡ ok (t, l')
    → Moves l l'
unfolding read_number
number_token-Moves l l' ch t h k r = ground (
  arith,
  advance_while-Moves (length l.input) is_ascii_digit l ch (length-current_char l ch h) h k,
)

read_string-Moves : (l : Lexer) → Moves l (read_string l).1
unfolding read_string
read_string-Moves l =
    ground (arith, advance_while-Follows (length l.input) is_not_quote (advance l))

symbol-Moves : (l l' : Lexer) (ch : ℕ) (t : Token) → symbol ch l ≡ ok (t, l') → Moves l l'
unfolding symbol
symbol-Moves l l' ch t h = ground arith

abbrev pub IsAscii : List ℕ → Type 0
IsAscii [] = Unit {0}
IsAscii (c ∷ cs) = (c < 128) × IsAscii cs

IsAscii-lt : (cs : List ℕ) (c i : ℕ) → IsAscii cs → get_elem? cs i ≡ some c → c < 128
IsAscii-lt [] c i a h = cc
IsAscii-lt (d ∷ cs) c zero a h = ground (arith, a)
IsAscii-lt (d ∷ cs) c (suc i) a h = IsAscii-lt cs c i a.1 h

advance_while_stop :
    (fuel : ℕ) (test : ℕ → Bool) (l : Lexer) (ch : ℕ)
    → current_char l ≡ some ch
    → test ch ≡ false
    → advance_while fuel test l ≡ l
unfolding advance_while
advance_while_stop zero test l ch h k = refl
advance_while_stop (suc fuel) test l ch h k = ground (arith, h, k)

identifier_lem : (ch : ℕ) → 128 ≤ ch → is_identifier_char ch ≡ false
unfolding is_identifier_char
identifier_lem ch le = ground arith

self_sub : (n : ℕ) → n - n ≡ 0
self_sub n = omega arith

stuck_word :
    (l : Lexer) (ch : ℕ)
    → current_char l ≡ some ch
    → 128 ≤ ch
    → word_token l ≡ ok (identifier [], l)
unfolding read_identifier lookup_keyword str_eq
stuck_word l ch h le =
    rw
      (
        advance_while_stop (length l.input) is_identifier_char l ch h (identifier_lem ch le),
        self_sub l.position,
      )
      refl

module _ (class : CharClasses) where
  skip_whitespace-Follows : (l : Lexer) → Follows l (skip_whitespace class l)
  unfolding skip_whitespace
  skip_whitespace-Follows l = advance_while-Follows (length l.input) class.is_whitespace l

  -- On ASCII a letter goes on as an identifier.
  alphabetic_lem :
      (ch : ℕ)
      → ch < 128
      → (class.is_alphabetic ch || ch == b'_') ≡ true
      → is_identifier_char ch ≡ true
  unfolding is_identifier_char
  alphabetic_lem ch lt h = ground (arith, class.ascii_alphabetic ch lt)

  -- `next_token` where the white space has been skipped, at a character.
  token_at-Moves :
      (l l' : Lexer) (ch : ℕ) (t : Token)
      → current_char (skip_whitespace class l) ≡ some ch
      → ch < 128
      → next_token class l ≡ ok (t, l')
      → Moves (skip_whitespace class l) l'
  unfolding next_token
  token_at-Moves l l' ch t h lt r =
      let m = skip_whitespace class l in
      elim (Bool-cases (class.is_alphabetic ch || ch == b'_')) [
        | inl word ↦
            let same : word_token m ≡ ok (t, l') = rw (next_token, h, word) at r in
            ground (arith, read_identifier-Moves m ch h (alphabetic_lem ch lt word), same)
        | inr no_word ↦ elim (Bool-cases (is_ascii_digit ch)) [
          | inl digit ↦
              number_token-Moves m l' ch t h digit (rw (next_token, h, no_word, digit) at r)
          | inr no_digit ↦
              let rest : (if ch == 39 then text_token m else symbol ch m) ≡ ok (t, l') =
                rw (next_token, h, no_word, no_digit) at r in
              ground (arith, read_string-Moves m, symbol-Moves m l' ch t, rest)
        ]
      ]

  at_end :
      (l l' : Lexer) (t : Token)
      → current_char (skip_whitespace class l) ≡ none
      → next_token class l ≡ ok (t, l')
      → (t ≡ eof) × (current_char l' ≡ none)
  unfolding next_token
  at_end l l' t h r =
      let same : text_end (skip_whitespace class l) ≡ ok (t, l') = rw (next_token, h) at r in
      ground (arith, h, same)

  -- On an ASCII text each token that `next_token` returns is EOF, and then the text is at its end, or
  -- the lexer has moved on in the same text.
  pub next_token-Moves :
      (l l' : Lexer) (t : Token)
      → IsAscii l.input
      → next_token class l ≡ ok (t, l')
      → ((t ≡ eof) × (current_char l' ≡ none)) ⊎ Moves l l'
  next_token-Moves l l' t ascii r =
      let m = skip_whitespace class l in
      let follows = skip_whitespace-Follows l in
      elim (Option-cases (current_char m)) [
        | inl end ↦ inl (at_end l l' t end r)
        | inr (ch, h) ↦
            let step =
              token_at-Moves l l' ch t h
                (IsAscii-lt m.input ch m.position (rw follows.same ascii) h) r in
            inr (record {
              same = step.same ∙ follows.same;
              further = omega (arith, step.further, follows.later);
            })
      ]

  -- At a letter beyond ASCII, after white space, `next_token` returns the identifier with no
  -- character and does not move past the letter.
  pub next_token_stuck :
      (l : Lexer) (ch : ℕ)
      → current_char (skip_whitespace class l) ≡ some ch
      → 128 ≤ ch
      → class.is_alphabetic ch ≡ true
      → next_token class l ≡ ok (identifier [], skip_whitespace class l)
  unfolding next_token skip_whitespace
  next_token_stuck l ch h le k =
      rw (next_token, h, k) (stuck_word (skip_whitespace class l) ch h le)
