-- ===== src/Sql/Parser/Judgement.antt =====
-- What the parser may do at a list of tokens, and the calls of aggregate functions.
use arch_db.Prelude.{◌≡◌, refl, none, some, List, [], ◌∷◌, ◌≢◌}
use arch_db.Prelude.Str.{Str}
use arch_db.Sql.Ast.{Expr, AggregateFunction}
use arch_db.Sql.Token.{Token}
use arch_db.Sql.Parser.Cursor.{Cursor, Parser, Outcome, done, panicked, starved, ◌>>=◌}
use arch_db.Sql.Parser.Exprs.{or_fail, aggregate_function, parse_aggregate_expr}
use arch_db.Sql.Parser.Grammar.{
  Level, next, at, next-at, Derives, operand, primary, count, aggregate, plain,
}

-- What the parser may do before the tokens `ts`: return a phrase of the level and stand behind it, or
-- panic.
abbrev pub Judged : Level → List Token → Outcome (Expr × Cursor (List Token)) → Type 0
Judged v ts (done (e, p)) = (us : List Token) × (p ≡ at us) × Derives v ts us e
Judged v ts panicked = Unit {0}
Judged v ts starved = ⊥

-- A step that is judged, and then one that is judged wherever the first one ends.
pub bind_lem :
    (v w : Level) (ts ts' : List Token) (m : Parser (List Token) Expr)
    (k : Expr → Parser (List Token) Expr) (p : Cursor (List Token))
    → Judged v ts (m p)
    → ((us : List Token) (e : Expr) → Derives v ts us e → Judged w ts' (k e (at us)))
    → Judged w ts' ((m >>= k) p)
bind_lem v w ts ts' m k p = go (m p)
  where
    go :
        (r : Outcome (Expr × Cursor (List Token)))
        → Judged v ts r
        → ((us : List Token) (e : Expr) → Derives v ts us e → Judged w ts' (k e (at us)))
        → Judged w ts' (elim r [ done (e, p') ↦ k e p' | panicked ↦ panicked | starved ↦ starved ])
    go (done (e, p')) (us, q, d) h = rw q (h us e d)
    go panicked j h = tt
    go starved j h = absurd j

pub as_primary :
    (ts : List Token) (r : Outcome (Expr × Cursor (List Token)))
    → Judged operand ts r
    → Judged primary ts r
as_primary ts (done (e, p)) (us, q, d) = (us, q, plain ts us e d)
as_primary ts panicked j = tt
as_primary ts starved j = j

pub unknown-Judged :
    (name : Str) (ts : List Token)
    → aggregate_function name ≡ none
    → Judged operand
        (Token.identifier name ∷ Token.left_paren ∷ ts)
        (parse_aggregate_expr next name (at (Token.left_paren ∷ ts)))
unfolding parse_aggregate_expr
unknown-Judged name [] h = rw (h, or_fail) tt
unknown-Judged name (t ∷ ts) h = rw (h, or_fail) tt

pub count-Judged :
    (name : Str) (ts : List Token)
    → aggregate_function name ≡ some AggregateFunction.count
    → Judged operand
        (Token.identifier name ∷ Token.left_paren ∷ ts)
        (parse_aggregate_expr next name (at (Token.left_paren ∷ ts)))
unfolding parse_aggregate_expr
count-Judged name (Token.star ∷ Token.right_paren ∷ us) h =
    rw (h, or_fail, ◌>>=◌, next-at us) (us, refl, count name us h)
count-Judged name [] h = rw (h, or_fail) tt
count-Judged name (Token.star ∷ []) h = rw (h, or_fail) tt
count-Judged name (Token.star ∷ t ∷ us) h = rw (h, or_fail) tt
count-Judged name (t ∷ us) h = rw (h, or_fail) tt

pub column-Judged :
    (name : Str) (f : AggregateFunction) (ts : List Token)
    → aggregate_function name ≡ some f
    → f ≢ AggregateFunction.count
    → Judged operand
        (Token.identifier name ∷ Token.left_paren ∷ ts)
        (parse_aggregate_expr next name (at (Token.left_paren ∷ ts)))
unfolding parse_aggregate_expr
column-Judged name AggregateFunction.count ts h k = absurd (k refl)
column-Judged name AggregateFunction.min (Token.identifier c ∷ Token.right_paren ∷ us) h k =
    rw (h, or_fail, ◌>>=◌, next-at us) (us, refl, aggregate name c AggregateFunction.min us h k)
column-Judged name f (Token.identifier c ∷ Token.right_paren ∷ us) h k =
    rw (h, or_fail, ◌>>=◌, next-at us) (us, refl, aggregate name c f us h k)
column-Judged name f [] h k = rw (h, or_fail) tt
column-Judged name f (Token.identifier c ∷ []) h k = rw (h, or_fail) tt
column-Judged name f (Token.identifier c ∷ t ∷ us) h k = rw (h, or_fail) tt
column-Judged name f (t ∷ us) h k = rw (h, or_fail) tt
