-- ===== src/Manager/Manifest/RoundTrip.antt =====
-- The log of the manifest is read back as the records that were appended to it.
use arch_db.Prelude.{
  if_false, if_true, ℕ, ◌≡◌, refl, true, Option, none, some, List, [], ◌∷◌, ◌++◌, arith, ◌==◌,
  Result, ok, err, ◌>>=◌, io, invalid_data, ap, sym, ◌∙◌, append_assoc, Bool-cases, inl, inr,
}
use arch_db.Prelude.Str.{Str}
use arch_db.Prelude.Utf8.{is_utf8, from_utf8-some}
use arch_db.Prelude.Text.{split, Lacks, split-append, before_first}
use arch_db.Manager.Manifest.{
  ManifestRecord, line_of, serialize, deserialize, strip_cr, lines_of, read_lines, load_log,
}
use arch_db.Manager.Manifest.Lines.{IsPrinted, HasParts, line_end, deserialize-line_of}

-- The texts of the record hold no separator, and the line is a text of one line.
pub record IsLogged (r : ManifestRecord) : Type 0 where
  pub parts : HasParts r
  pub utf8 : is_utf8 (line_of r) ≡ true
  pub one_line : Lacks 10 (line_of r)

abbrev pub AllLogged : List ManifestRecord → Type 0
AllLogged [] = Unit {0}
AllLogged (r ∷ rs) = IsLogged r × AllLogged rs

unfoldable pub log_of : List ManifestRecord → List ℕ
unfolding serialize
log_of [] = []
log_of (r ∷ rs) = serialize r ++ log_of rs

single_end : (d c : ℕ) (front : Str) → d ∷ [] ≡ front ++ c ∷ [] → d ≡ c
single_end d c [] e = cc
single_end d c (x ∷ []) e = cc
single_end d c (x ∷ y ∷ front) e = cc

strip_cr-last : (s front : Str) (c : ℕ) → s ≡ front ++ c ∷ [] → IsPrinted c → strip_cr s ≡ s
unfolding strip_cr
strip_cr-last [] [] c e p = cc
strip_cr-last [] (x ∷ front) c e p = cc
strip_cr-last (d ∷ []) front c e p =
    let same = single_end d c front e in
    if_false (d == 13) [] (d ∷ []) (ap (λ k. k == 13) same ∙ ground (arith, p.0))
strip_cr-last (d ∷ f ∷ s) [] c e p = cc
strip_cr-last (d ∷ f ∷ s) (x ∷ front) c e p = ap (λ t. d ∷ t) (strip_cr-last (f ∷ s) front c (cc) p)

before_parts :
    (x : ℕ) (parts : List Str) → (p : Str) × (ps : List Str) × (before_first x parts ≡ p ∷ ps)
unfolding before_first
before_parts x [] = (x ∷ [], [], refl)
before_parts x (p ∷ ps) = (x ∷ p, ps, refl)

-- A text has a first part.
split_parts : (c : ℕ) (s : Str) → (p : Str) × (ps : List Str) × (split c s ≡ p ∷ ps)
unfolding split
split_parts c [] = ([], [], refl)
split_parts c (x ∷ s) =
    let later = before_parts x (split c s) in
    elim (Bool-cases (x == c)) [
      | inl e ↦ ([], split c s, if_true (x == c) _ _ e)
      | inr e ↦ (later.0, later.1, if_false (x == c) _ _ e ∙ later.2)
    ]

lines_of-split : (c : ℕ) (p s : Str) → lines_of (p ∷ split c s) ≡ strip_cr p ∷ lines_of (split c s)
unfolding lines_of
lines_of-split c p s =
    let later = split_parts c s in
    ap (λ ps. lines_of (p ∷ ps)) later.2 ∙ ap (λ ps. strip_cr p ∷ lines_of ps) (sym (later.2))

abbrev read_on : List Str → Option Str → Result (List ManifestRecord)
read_on lines text = elim text [
  | none ↦ err (io invalid_data)
  | some s ↦ do
    records ← read_lines lines
    ok (elim (deserialize s) [ some r ↦ r ∷ records | none ↦ records ])
]

abbrev kept : Option ManifestRecord → Result (List ManifestRecord) → Result (List ManifestRecord)
kept found later = do records ← later; ok (elim found [ some r ↦ r ∷ records | none ↦ records ])

-- A line is read before those that follow it.
read_lines-Logged :
    (r : ManifestRecord) (lines : List Str) (rs : List ManifestRecord)
    → IsLogged r
    → read_lines lines ≡ ok rs
    → read_lines (line_of r ∷ lines) ≡ ok (r ∷ rs)
unfolding read_lines
read_lines-Logged r lines rs h later =
    ap (read_on lines) (from_utf8-some (line_of r) h.utf8)
    ∙ ap (λ found. kept found (read_lines lines)) (deserialize-line_of r h.parts)
    ∙ ap (kept (some r)) later

split-log_of :
    (r : ManifestRecord) (rs : List ManifestRecord)
    → IsLogged r
    → lines_of (split 10 (log_of (r ∷ rs))) ≡ line_of r ∷ lines_of (split 10 (log_of rs))
unfolding log_of serialize
split-log_of r rs h =
    let end = line_end r h.parts in
    ap (λ file. lines_of (split 10 file)) (append_assoc (line_of r) (10 ∷ []) (log_of rs))
    ∙ ap lines_of (split-append 10 (line_of r) (log_of rs) h.one_line)
    ∙ lines_of-split 10 (line_of r) (log_of rs)
    ∙ ap (λ line. line ∷ lines_of (split 10 (log_of rs)))
        (strip_cr-last (line_of r) (end.0) (end.1) (end.2) (end.3, end.4))

read_lines-log_of :
    (rs : List ManifestRecord) → AllLogged rs → read_lines (lines_of (split 10 (log_of rs))) ≡ ok rs
read_lines-log_of [] h = unfold log_of split lines_of read_lines in refl
read_lines-log_of (r ∷ rs) h =
    ap read_lines (split-log_of r rs h.0)
    ∙ read_lines-Logged r (lines_of (split 10 (log_of rs))) rs h.0 (read_lines-log_of rs h.1)

-- The log is read as the records that it was written for, in their order, when their lines are UTF-8 without an
-- end of line in them, no path and no key holds a `|`, sizes are 64-bit words, and the path of a removed table is
-- not empty and ends with a printed ASCII character, which `trim` leaves.
pub load_log-log_of :
    (rs : List ManifestRecord) → AllLogged rs → load_log (some (log_of rs)) ≡ ok rs
unfolding load_log
load_log-log_of rs h = read_lines-log_of rs h
