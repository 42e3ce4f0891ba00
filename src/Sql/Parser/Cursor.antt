-- ===== src/Sql/Parser/Cursor.antt =====
-- The parser's state and its elementary moves. The source of the tokens is a parameter: the lexer's
-- `next_token`, which panics on a character that starts no token.
use arch_db.Prelude.{Bool, true, false, List, [], ◌∷◌, if◌then◌else◌, Result, ok, ℕ, suc}
use arch_db.Prelude.Str.{Str}
use arch_db.Sql.Token.{Token, token_eq, identifier, comma, semicolon}
use Prim.Native.Nat.{zero}

pub record Cursor (S : Type 0) : Type 0 where
  pub source : S
  pub current : Token

-- A parser returns, panics, or has used up the fuel of the model.
pub data Outcome (A : Type 0) : Type 0 where
  done : A → Outcome A
  panicked : Outcome A
  starved : Outcome A

abbrev pub Parser : Type 0 → Type 0 → Type 0
Parser S A = Cursor S → Outcome (A × Cursor S)

infixl 5 ◌>>=◌ ◌>>◌
abbrev pub ◌>>=◌ : {S A B : Type 0} → Parser S A → (A → Parser S B) → Parser S B
◌>>=◌ m f p = elim (m p) [ done (a, p') ↦ f a p' | panicked ↦ panicked | starved ↦ starved ]

abbrev pub ◌>>◌ : {S A B : Type 0} → Parser S A → Parser S B → Parser S B
m >> k = m >>= λ _. k

abbrev pub pure : {S A : Type 0} → A → Parser S A
pure a p = done (a, p)

-- `panic!(…)`
abbrev pub fail : {S A : Type 0} → Parser S A
fail p = panicked

abbrev pub starve : {S A : Type 0} → Parser S A
starve p = starved

abbrev pub current_token : {S : Type 0} → Parser S Token
current_token p = done (p.current, p)

-- `current_is`
abbrev pub current_is : {S : Type 0} → Token → Parser S Bool
current_is token p = done (token_eq p.current token, p)

module _ {S : Type 0} (next_token : S → Result (Token × S)) where
  unfoldable pub new : S → Outcome (Cursor S)
  new source = elim (next_token source) [
    | ok (token, later) ↦ done (record { source = later; current = token })
    | _ ↦ panicked
  ]

  unfoldable pub advance : Parser S (Unit {0})
  advance p = elim (next_token p.source) [
    | ok (token, later) ↦ done (tt, record { source = later; current = token })
    | _ ↦ panicked
  ]

  unfoldable pub expect : Token → Parser S (Unit {0})
  unfolding advance token_eq
  expect expected = do same ← current_is expected; if same then advance else fail

  -- `if self.current_token == token { self.advance(); true } else { false }`
  unfoldable pub accept : Token → Parser S Bool
  unfolding advance token_eq
  accept token = do same ← current_is token; if same then (do advance; pure true) else pure false

  unfoldable pub identifier_of : Token → Parser S Str
  unfolding advance
  identifier_of (identifier name) = do advance; pure name
  identifier_of _ = fail

  unfoldable pub parse_identifier : Parser S Str
  unfolding identifier_of
  parse_identifier = do token ← current_token; identifier_of token

  -- `loop { items.push(item()); if comma { advance; continue; } break; }`, on fuel.
  unfoldable pub comma_list : {A : Type 0} → ℕ → Parser S A → Parser S (List A)
  unfolding accept
  comma_list zero item = starve
  comma_list (suc fuel) item = do
    first ← item
    more ← accept comma
    let rest = comma_list fuel item
    if more then (do items ← rest; pure (first ∷ items)) else pure (first ∷ [])

  -- `consume_optional_semicolon`
  unfoldable pub consume_optional_semicolon : Parser S (Unit {0})
  unfolding accept
  consume_optional_semicolon = do accept semicolon; pure tt
