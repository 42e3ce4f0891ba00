-- ===== src/Prelude/Text.antt =====
-- Texts as the program takes them apart and puts them together: `split`, `split_once`, `join`,
-- `strip_prefix`, and the decimal form of numbers. The separators are ASCII, so that splitting the bytes
-- is splitting the characters.
use arch_db.Prelude.{
  append_assoc, ap, ◌∙◌, ℕ, ◌≡◌, refl, false, Option, none, some, List, [], ◌∷◌, ◌++◌, ◌==◌,
  if◌then◌else◌, ==_self, Bool, true, arith,
}
use arch_db.Prelude.Str.{Str}

-- `x` is put before the first part.
unfoldable pub before_first : ℕ → List Str → List Str
before_first x [] = (x ∷ []) ∷ []
before_first x (p ∷ ps) = (x ∷ p) ∷ ps

-- `s.split(c)`
unfoldable pub split : ℕ → Str → List Str
unfolding before_first
split c [] = [] ∷ []
split c (x ∷ s) = let parts = split c s in if x == c then [] ∷ parts else before_first x parts

-- `s.split_once(c)`
unfoldable pub split_once : ℕ → Str → Option (Str × Str)
split_once c [] = none
split_once c (x ∷ s) =
    let later = split_once c s in
    if x == c
    then some ([], s)
    else elim later [ none ↦ none | some parts ↦ some (x ∷ parts.0, parts.1) ]

-- `parts.join(sep)`
unfoldable pub join : Str → List Str → Str
join sep [] = []
join sep (p ∷ []) = p
join sep (p ∷ q ∷ ps) = p ++ (sep ++ join sep (q ∷ ps))

-- `s.strip_prefix(prefix)`
unfoldable pub strip_prefix : Str → Str → Option Str
strip_prefix [] s = some s
strip_prefix (a ∷ prefix) [] = none
strip_prefix (a ∷ prefix) (b ∷ s) = if a == b then strip_prefix prefix s else none

-- The separator does not stand in the text.
abbrev pub Lacks : ℕ → Str → Type 0
Lacks c [] = Unit {0}
Lacks c (x ∷ s) = (x == c ≡ false) × Lacks c s

pub split-Lacks : (c : ℕ) (s : Str) → Lacks c s → split c s ≡ s ∷ []
unfolding split before_first
split-Lacks c [] h = refl
split-Lacks c (x ∷ s) h = rw (h.0, split-Lacks c s h.1) refl

pub split-append : (c : ℕ) (p s : Str) → Lacks c p → split c (p ++ c ∷ s) ≡ p ∷ split c s
unfolding split before_first
split-append c [] s h = rw (==_self c) refl
split-append c (x ∷ p) s h = rw (h.0, split-append c p s h.1) refl

pub split_once-append : (c : ℕ) (p s : Str) → Lacks c p → split_once c (p ++ c ∷ s) ≡ some (p, s)
unfolding split_once
split_once-append c [] s h = rw (==_self c) refl
split_once-append c (x ∷ p) s h = rw (h.0, split_once-append c p s h.1) refl

pub split_once-Lacks : (c : ℕ) (s : Str) → Lacks c s → split_once c s ≡ none
unfolding split_once
split_once-Lacks c [] h = refl
split_once-Lacks c (x ∷ s) h = rw (h.0, split_once-Lacks c s h.1) refl

abbrev pub AllLack : ℕ → List Str → Type 0
AllLack c [] = Unit {0}
AllLack c (p ∷ ps) = Lacks c p × AllLack c ps

-- Splitting what was joined gives the parts back, if there is one and none holds the separator.
pub split-join :
    (c : ℕ) (p : Str) (ps : List Str)
    → AllLack c (p ∷ ps)
    → split c (join (c ∷ []) (p ∷ ps)) ≡ p ∷ ps
unfolding join
split-join c p [] h = split-Lacks c p h.0
split-join c p (q ∷ ps) h =
    rw (split-append c p (join (c ∷ []) (q ∷ ps)) h.0, split-join c q ps h.1) refl

pub Lacks-append : (c : ℕ) (s t : Str) → Lacks c s → Lacks c t → Lacks c (s ++ t)
Lacks-append c [] t h k = k
Lacks-append c (x ∷ s) t h k = (h.0, Lacks-append c s t h.1 k)

abbrev pub lacks : ℕ → Str → Bool
lacks c [] = true
lacks c (x ∷ s) = if x == c then false else lacks c s

pub Lacks-lacks : (c : ℕ) (s : Str) → lacks c s ≡ true → Lacks c s
Lacks-lacks c [] h = tt
Lacks-lacks c (x ∷ s) h = (ground (arith, h), Lacks-lacks c s (ground (arith, h)))

-- A text stands in front of the texts that it is joined to.
pub join-first :
    (sep p : Str) (ps : List Str) (c : ℕ) (q r : Str)
    → p ≡ q ++ c ∷ r
    → (tail : Str) × (join sep (p ∷ ps) ≡ q ++ c ∷ tail)
unfolding join
join-first sep p [] c q r e = (r, e)
join-first sep p (p' ∷ ps) c q r e =
    let later = sep ++ join sep (p' ∷ ps) in
    (r ++ later, ap (λ s. s ++ later) e ∙ append_assoc q (c ∷ r) later)
