-- ===== src/Sql/Row/Text/Separators.antt =====
-- A row with a text that holds a `|`: it is stored, and reading it panics.
use arch_db.Prelude.{
  ℕ, ◌≡◌, refl, true, false, none, List, [], ◌∷◌, ◌++◌, panic, ◌==◌, append_assoc, ap, sym, ◌∙◌,
  append-nil, Bool-cases, inl, inr, if_true,
}
use arch_db.Prelude.Str.{Str, codes}
use arch_db.Prelude.TreeMap.{TreeMap}
use arch_db.Prelude.Text.{
  before_first, split, split_once, join, Lacks, split-append, split_once-append, split_once-Lacks,
  Lacks-append,
}
use arch_db.Sql.Row.{Row, RowValue, text, new, insert}
use arch_db.Sql.Row.Text.{value_text, pair_texts, serialize, read_pairs, deserialize}
use arch_db.Sql.Row.Text.RoundTrip.{AllPlain, pair_text-Lacks, read_step, read_value-value_text}

no_pair :
    (b : Str) (pairs : List Str) (row : Row)
    → split_once b'=' b ≡ none
    → read_pairs (b ∷ pairs) row ≡ panic
unfolding read_pairs
no_pair b pairs row e = rw e refl

-- Columns that can be read are read.
pairs_pass :
    (before : TreeMap RowValue) (rest : List Str) (row : Row)
    → AllPlain before
    → (row' : Row) × (read_pairs (pair_texts before ++ rest) row ≡ read_pairs rest row')
unfolding pair_texts
pairs_pass [] rest row a = (row, refl)
pairs_pass ((column, value) ∷ before) rest row a =
    let later = pairs_pass before rest (insert column value row) a.3 in
    (
      later.0,
      read_step column (column ++ b'=' ∷ value_text value) (value_text value) value
            (pair_texts before ++ rest) row (split_once-append b'=' column (value_text value) a.1)
            (read_value-value_text value a.2)
          ∙ later.1,
    )

-- Nothing follows, or a `|`.
abbrev IsEnd : Str → Type 0
IsEnd [] = Unit {0}
IsEnd (c ∷ tail) = c == b'|' ≡ true

-- A list of parts whose first one does not hold the character.
record HasFirst (c : ℕ) (parts : List Str) : Type 0 where
  first : Str
  later : List Str
  same : parts ≡ first ∷ later
  lacking : Lacks c first

HasFirst-before_first :
    (x : ℕ) (parts : List Str)
    → x == b'=' ≡ false
    → HasFirst b'=' parts
    → HasFirst b'=' (before_first x parts)
unfolding before_first
HasFirst-before_first x parts e h = record {
  first = x ∷ h.first;
  later = h.later;
  same = ap (before_first x) h.same;
  lacking = (e, h.lacking);
}

-- The first part of a text without `=`, up to the end of the text.
split-HasFirst : (b tail : Str) → Lacks b'=' b → IsEnd tail → HasFirst b'=' (split b'|' (b ++ tail))
unfolding split
split-HasFirst [] [] h e = record { first = []; later = []; same = refl; lacking = tt }
split-HasFirst [] (c ∷ tail) h e = record {
  first = [];
  later = split b'|' tail;
  same = if_true (c == b'|') _ _ e;
  lacking = tt;
}
split-HasFirst (x ∷ b) tail h e = elim (Bool-cases (x == b'|')) [
  | inl bar ↦ record {
    first = [];
    later = split b'|' (b ++ tail);
    same = if_true (x == b'|') _ _ bar;
    lacking = tt;
  }
  | inr other ↦
      rw other (HasFirst-before_first x (split b'|' (b ++ tail)) h.0 (split-HasFirst b tail h.1 e))
]

split-join_cons :
    (p : Str) (xs : List Str) (y : Str) (ys : List Str)
    → Lacks b'|' p
    → split b'|' (join (codes "|") (p ∷ xs ++ y ∷ ys))
      ≡ p ∷ split b'|' (join (codes "|") (xs ++ y ∷ ys))
unfolding join
split-join_cons p [] y ys h = split-append b'|' p (join (codes "|") (y ∷ ys)) h
split-join_cons p (x ∷ xs) y ys h = split-append b'|' p (join (codes "|") (x ∷ xs ++ y ∷ ys)) h

-- What stands between the end of a text and the texts that are joined behind it.
join-IsEnd :
    (p : Str) (ps : List Str) → (tail : Str) × (join (codes "|") (p ∷ ps) ≡ p ++ tail) × IsEnd tail
unfolding join
join-IsEnd p [] = ([], sym (append-nil p), tt)
join-IsEnd p (q ∷ ps) = (b'|' ∷ join (codes "|") (q ∷ ps), refl, refl)

record Parted (xs : List Str) (front : Str) (s : Str) : Type 0 where
  second : Str
  pairs : List Str
  parts : split b'|' s ≡ xs ++ front ∷ second ∷ pairs
  lacking : Lacks b'=' second

-- The part with the `|` is taken for two.
split-last :
    (front b : Str) (later : List Str)
    → Lacks b'|' front
    → Lacks b'=' b
    → Parted [] front (join (codes "|") ((front ++ b'|' ∷ b) ∷ later))
split-last front b later h k =
    let end = join-IsEnd (front ++ b'|' ∷ b) later in
    let behind = split-HasFirst b (end.0) k (end.2) in
    record {
      second = behind.first;
      pairs = behind.later;
      parts =
          ap (split b'|') (end.1 ∙ append_assoc front (b'|' ∷ b) (end.0))
          ∙ split-append b'|' front (b ++ end.0) h
          ∙ ap (λ ps. front ∷ ps) behind.same;
      lacking = behind.lacking;
    }

split-pairs :
    (before : TreeMap RowValue) (front b : Str) (later : List Str)
    → AllPlain before
    → Lacks b'|' front
    → Lacks b'=' b
    → Parted
        (pair_texts before)
        front
        (join (codes "|") (pair_texts before ++ (front ++ b'|' ∷ b) ∷ later))
unfolding pair_texts
split-pairs [] front b later a h k = split-last front b later h k
split-pairs ((column, value) ∷ before) front b later a h k =
    let behind = split-pairs before front b later a.3 h k in
    let pair = column ++ b'=' ∷ value_text value in
    record {
      second = behind.second;
      pairs = behind.pairs;
      parts =
          split-join_cons pair (pair_texts before) (front ++ b'|' ∷ b) later
            (pair_text-Lacks column value a.0 a.2)
          ∙ ap (λ ps. pair ∷ ps) behind.parts;
      lacking = behind.lacking;
    }

-- A text of more than one part is not empty.
deserialize-Parted :
    (s : Str) (xs : List Str) (x y : Str) (ys : List Str)
    → split b'|' s ≡ xs ++ x ∷ y ∷ ys
    → deserialize s ≡ read_pairs (xs ++ x ∷ y ∷ ys) new
unfolding deserialize split
deserialize-Parted [] [] x y ys e = cc
deserialize-Parted [] (p ∷ []) x y ys e = cc
deserialize-Parted [] (p ∷ q ∷ xs) x y ys e = cc
deserialize-Parted (c ∷ s) xs x y ys e = ap (λ parts. read_pairs parts new) e

pair_texts-append :
    (before : TreeMap RowValue) (column : Str) (value : RowValue) (later : TreeMap RowValue)
    → pair_texts (before ++ (column, value) ∷ later)
      ≡ pair_texts before ++ (column ++ b'=' ∷ value_text value) ∷ pair_texts later
unfolding pair_texts
pair_texts-append [] column value later = refl
pair_texts-append ((c, v) ∷ before) column value later =
    ap (λ ps. (c ++ b'=' ∷ value_text v) ∷ ps) (pair_texts-append before column value later)

-- A row is stored in which a text holds a `|` and no `=` behind the first one, in a column whose name holds
-- neither, behind columns that can be read back: reading it panics, whatever columns follow.
pub deserialize-serialize_panics :
    (before later : TreeMap RowValue) (column a b : Str)
    → AllPlain before
    → Lacks b'|' column
    → Lacks b'=' column
    → Lacks b'|' a
    → Lacks b'=' b
    → deserialize (serialize (record { values = before ++ (column, text (a ++ b'|' ∷ b)) ∷ later }))
      ≡ panic
unfolding serialize value_text
deserialize-serialize_panics before later column a b plain h k la lb =
    let front = column ++ b'=' ∷ value_text (text a) in
    let s = join (codes "|") (pair_texts before ++ (front ++ b'|' ∷ b) ∷ pair_texts later) in
    let bars = Lacks-append b'|' column (b'=' ∷ value_text (text a)) h (refl, (refl, (refl, la))) in
    let found = split-pairs before front b (pair_texts later) plain bars lb in
    let passed = pairs_pass before (front ∷ found.second ∷ found.pairs) new plain in
    ap (λ ps. deserialize (join (codes "|") ps))
      (pair_texts-append before column (text (a ++ b'|' ∷ b)) later
        ∙ ap (λ p. pair_texts before ++ p ∷ pair_texts later)
            (sym (append_assoc column (b'=' ∷ value_text (text a)) (b'|' ∷ b))))
    ∙ deserialize-Parted s (pair_texts before) front found.second found.pairs found.parts
    ∙ passed.1
    ∙ read_step column front (value_text (text a)) (text a) (found.second ∷ found.pairs) (passed.0)
        (split_once-append b'=' column (value_text (text a)) k) (read_value-value_text (text a) la)
    ∙ no_pair found.second found.pairs _ (split_once-Lacks b'=' found.second found.lacking)
