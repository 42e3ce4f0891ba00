-- ===== src/Manager/Manifest/Lines.antt =====
-- A line of the manifest is read as the record that it was written for: `trim` leaves it as it is, and its
-- parts are found again.
use arch_db.Prelude.{
  if_false, ℕ, zero, suc, ◌+◌, ◌<◌, ◌≡◌, refl, Bool, true, false, ◌&&◌, ◌||◌, Option, none, some,
  List, [], ◌∷◌, ◌++◌, arith, length, leb, ◌==◌, ap, sym, ◌∙◌, append_assoc, ◌^◌,
}
use mathlib.Core.List.{reverse, reverse-append, reverse-reverse}
use arch_db.Prelude.Str.{Str, codes, str_eq}
use arch_db.Prelude.Text.{split, strip_prefix, Lacks, Lacks-lacks, split-append, split-Lacks}
use arch_db.Prelude.Decimal.{decimal, decimal-Lacks, decimal_ends, parse_u64, parse_u64-decimal}
use arch_db.Manager.{Level}
use arch_db.Manager.Manifest.{
  ManifestRecord, add_table, remove_table, level_text, line_of, whites, reversed_whites, strip_any,
  strip_all, trim, read_level, read_add, read_parts, deserialize,
}

-- Every prefix of the list begins with a byte at which no printed ASCII character stands.
abbrev all_edges : List Str → Bool
all_edges [] = true
all_edges ([] ∷ ws) = false
all_edges ((k ∷ w) ∷ ws) = (leb k 32 || leb 128 k) && all_edges ws

-- The first byte is a printed ASCII character.
abbrev pub IsPrinted : ℕ → Type 0
IsPrinted c = (32 < c) × (c < 128)

first_edge : (a b : Bool) → (a && b) ≡ true → (a ≡ true) × (b ≡ true)
first_edge true b h = (refl, h)
first_edge false b h = cc

edge_differs : (k c : ℕ) → (leb k 32 || leb 128 k) ≡ true → IsPrinted c → k == c ≡ false
edge_differs k c h p = ground (arith, h, p.0, p.1)

strip_prefix-edge : (k c : ℕ) (w s : Str) → k == c ≡ false → strip_prefix (k ∷ w) (c ∷ s) ≡ none
unfolding strip_prefix
strip_prefix-edge k c w s h = if_false (k == c) _ none h

abbrev tried : List Str → Str → Option Str → Option Str
tried ws s found = elim found [ some rest ↦ some rest | none ↦ strip_any ws s ]

strip_any-printed :
    (ws : List Str) (c : ℕ) (s : Str)
    → all_edges ws ≡ true
    → IsPrinted c
    → strip_any ws (c ∷ s) ≡ none
unfolding strip_any
strip_any-printed [] c s e p = refl
strip_any-printed ([] ∷ ws) c s e p = cc
strip_any-printed ((k ∷ w) ∷ ws) c s e p =
    let h = first_edge (leb k 32 || leb 128 k) (all_edges ws) e in
    ap (tried ws (c ∷ s)) (strip_prefix-edge k c w s (edge_differs k c h.0 p))
    ∙ strip_any-printed ws c s h.1 p

abbrev stripped : ℕ → List Str → Str → Option Str → Str
stripped fuel ws s found = elim found [ some rest ↦ strip_all fuel ws rest | none ↦ s ]

strip_all-printed :
    (fuel : ℕ) (ws : List Str) (c : ℕ) (s : Str)
    → all_edges ws ≡ true
    → IsPrinted c
    → strip_all fuel ws (c ∷ s) ≡ c ∷ s
unfolding strip_all
strip_all-printed zero ws c s e p = refl
strip_all-printed (suc fuel) ws c s e p =
    ap (stripped fuel ws (c ∷ s)) (strip_any-printed ws c s e p)

-- A text that begins and ends with printed characters is not trimmed.
trim_lem :
    (s front later : Str) (c d : ℕ)
    → s ≡ c ∷ later
    → s ≡ front ++ d ∷ []
    → IsPrinted c
    → IsPrinted d
    → trim s ≡ s
unfolding trim
trim_lem s front later c d e k p q =
    let start =
      ap (strip_all (length s) whites) e
      ∙ strip_all-printed (length s) whites c later refl p
      ∙ sym e in
    ap (λ f. reverse (strip_all (length f) (reversed_whites whites) (reverse f))) start
    ∙ ap (λ f. reverse (strip_all (length s) (reversed_whites whites) f))
        (ap reverse k ∙ reverse-append front (d ∷ []))
    ∙ ap reverse (strip_all-printed (length s) (reversed_whites whites) d (reverse front) refl q)
    ∙ ap reverse (sym (ap reverse k ∙ reverse-append front (d ∷ [])))
    ∙ reverse-reverse s

-- The texts hold no separator, and a path that is removed ends with a printed character.
abbrev pub HasParts : ManifestRecord → Type 0
HasParts (add_table level path min_key max_key file_size) =
    Lacks b'|' path × Lacks b'|' min_key × Lacks b'|' max_key × (file_size < 2 ^ 64)
HasParts (remove_table path) =
    Lacks b'|' path × (front : Str) × (c : ℕ) × (path ≡ front ++ c ∷ []) × (32 < c) × (c < 128)

level_text-Lacks : (l : Level) → Lacks b'|' (level_text l)
unfolding level_text
level_text-Lacks Level.l0 = Lacks-lacks b'|' (codes "L0") refl
level_text-Lacks Level.l1 = Lacks-lacks b'|' (codes "L1") refl
level_text-Lacks Level.l2 = Lacks-lacks b'|' (codes "L2") refl

read_level-level_text : (l : Level) → read_level (level_text l) ≡ some l
unfolding read_level level_text str_eq
read_level-level_text Level.l0 = refl
read_level-level_text Level.l1 = refl
read_level-level_text Level.l2 = refl

abbrev with_size : Level → Str → Str → Str → Option ℕ → Option ManifestRecord
with_size l path min_key max_key size = elim size [
  | none ↦ none
  | some n ↦ some (add_table l path min_key max_key n)
]

abbrev with_level : Str → Str → Str → Str → Option Level → Option ManifestRecord
with_level path min_key max_key size level = elim level [
  | none ↦ none
  | some l ↦ with_size l path min_key max_key (parse_u64 size)
]

read_add_lem :
    (l : Level) (path min_key max_key : Str) (n : ℕ)
    → n < 2 ^ 64
    → read_add (level_text l) path min_key max_key (decimal n)
      ≡ some (add_table l path min_key max_key n)
unfolding read_add
read_add_lem l path min_key max_key n h =
    ap (with_level path min_key max_key (decimal n)) (read_level-level_text l)
    ∙ ap (with_size l path min_key max_key) (parse_u64-decimal n h)

read_parts-add :
    (level path min_key max_key size : Str)
    → read_parts (codes "ADD" ∷ level ∷ path ∷ min_key ∷ max_key ∷ size ∷ [])
      ≡ read_add level path min_key max_key size
unfolding read_parts str_eq
read_parts-add level path min_key max_key size = refl

-- The end of a text with a separator in it is the end of its last part.
ends_lem : (a x y z : Str) (c : ℕ) → x ≡ y ++ z → a ++ c ∷ x ≡ (a ++ c ∷ y) ++ z
ends_lem a x y z c e = ap (λ t. a ++ c ∷ t) e ∙ sym (append_assoc a (c ∷ y) z)

deserialize_lem :
    (line : Str) (parts : List Str) (r : ManifestRecord)
    → trim line ≡ line
    → split b'|' line ≡ parts
    → read_parts parts ≡ some r
    → deserialize line ≡ some r
unfolding deserialize
deserialize_lem line parts r t s h = ap (λ x. read_parts (split b'|' x)) t ∙ ap read_parts s ∙ h

-- The last character of a line is printed.
pub line_end :
    (r : ManifestRecord)
    → HasParts r
    → (front : Str) × (c : ℕ) × (line_of r ≡ front ++ c ∷ []) × (32 < c) × (c < 128)
unfolding line_of
line_end (add_table l path min_key max_key n) h =
    let end = decimal_ends n in
    let last = max_key ++ b'|' ∷ decimal n in
    let third = min_key ++ b'|' ∷ last in
    let second = path ++ b'|' ∷ third in
    let front =
      codes "ADD|"
      ++ (level_text l ++ b'|' ∷ (path ++ b'|' ∷ (min_key ++ b'|' ∷ (max_key ++ b'|' ∷ end.0)))) in
    let digit = (48 + end.1) ∷ [] in
    let ends =
      ap (λ t. codes "ADD|" ++ t)
        (ends_lem (level_text l) second _ digit b'|' (
          ends_lem path third _ digit b'|' (
            ends_lem min_key last _ digit b'|'
              (ends_lem max_key (decimal n) (end.0) digit b'|' (end.3))))) in
    (front, 48 + end.1, ends, omega arith, omega (arith, end.2))
line_end (remove_table path) h =
    (codes "REMOVE|" ++ h.1, h.2, ap (λ p. codes "REMOVE|" ++ p) h.3, h.4, h.5)

-- A line is read as the record that it was written for.
pub deserialize-line_of : (r : ManifestRecord) → HasParts r → deserialize (line_of r) ≡ some r
unfolding line_of
deserialize-line_of (add_table l path min_key max_key n) h =
    let end = line_end (add_table l path min_key max_key n) h in
    let last = max_key ++ b'|' ∷ decimal n in
    let third = min_key ++ b'|' ∷ last in
    let second = path ++ b'|' ∷ third in
    let line = codes "ADD|" ++ (level_text l ++ b'|' ∷ second) in
    deserialize_lem line (codes "ADD" ∷ level_text l ∷ path ∷ min_key ∷ max_key ∷ decimal n ∷ [])
      (add_table l path min_key max_key n)
      (trim_lem line (end.0) (codes "DD|" ++ (level_text l ++ b'|' ∷ second)) b'A' (end.1) refl
        (end.2) (omega arith, omega arith) (end.3, end.4))
      (split-append b'|' (codes "ADD") (level_text l ++ b'|' ∷ second)
          (Lacks-lacks b'|' (codes "ADD") refl)
        ∙ ap (λ x. codes "ADD" ∷ x)
            (split-append b'|' (level_text l) second (level_text-Lacks l)
              ∙ ap (λ x. level_text l ∷ x)
                  (split-append b'|' path third h.0
                    ∙ ap (λ x. path ∷ x)
                        (split-append b'|' min_key last h.1
                          ∙ ap (λ x. min_key ∷ x)
                              (split-append b'|' max_key (decimal n) h.2
                                ∙ ap (λ x. max_key ∷ x)
                                    (split-Lacks b'|' (decimal n) (decimal-Lacks b'|' n refl)))))))
      (read_parts-add (level_text l) path min_key max_key (decimal n)
        ∙ read_add_lem l path min_key max_key n h.3)
deserialize-line_of (remove_table path) h =
    let end = line_end (remove_table path) h in
    deserialize_lem (codes "REMOVE|" ++ path) (codes "REMOVE" ∷ path ∷ []) (remove_table path)
      (trim_lem (codes "REMOVE|" ++ path) (end.0) (codes "EMOVE|" ++ path) b'R' (end.1) refl (end.2)
        (omega arith, omega arith) (end.3, end.4))
      (split-append b'|' (codes "REMOVE") path (Lacks-lacks b'|' (codes "REMOVE") refl)
        ∙ ap (λ x. codes "REMOVE" ∷ x) (split-Lacks b'|' path h.0))
      (unfold read_parts str_eq in refl)
