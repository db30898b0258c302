-- ===== src/Docs/Text/Escape.antt =====
-- Escaped labels read back: by the lexer of DOT, and by a reader of HTML entities.
use reflect_pytest.Prelude.{
  ℕ, zero, suc, ◌≡◌, refl, ◌∙◌, ap, ◌==◌, Bool, true, false, if◌then◌else◌, Option, none, some, [],
  ◌∷◌, ◌++◌, length, arith, chars,
}
use reflect_pytest.Docs.Text.{Bytes, dot_escape_label, html_escape_char, html_escape}

-- One more byte in front of what is read.
abbrev pub prepend : ℕ → Option (Bytes × Bytes) → Option (Bytes × Bytes)
prepend c none = none
prepend c (some (text, rest)) = some (c ∷ text, rest)

-- The byte that `\c` stands for in a DOT label.
abbrev pub reveal : ℕ → ℕ
reveal c = if c == b'n' then b'\n' else c

-- A quoted string of DOT behind its first quote: the text that it stands for, and what follows its
-- last quote. The flag tells that a backslash has just been read.
unfoldable pub read_quoted : Bool → Bytes → Option (Bytes × Bytes)
read_quoted pending [] = none
read_quoted true (c ∷ s) = prepend (reveal c) (read_quoted false s)
read_quoted false (c ∷ s) =
    let escaped = read_quoted true s in
    let plain = prepend c (read_quoted false s) in
    if c == b'"' then some ([], s) else if c == b'\\' then escaped else plain

-- A text without its carriage returns.
unfoldable pub drop_returns : Bytes → Bytes
drop_returns [] = []
drop_returns (c ∷ s) = if c == b'\r' then drop_returns s else c ∷ drop_returns s

-- A label that dot_escape_label has made, between quotes, ends at the quote put behind it and not
-- before, and stands for the label that was given, without its carriage returns.
pub read_quoted-dot_escape_label :
    (s rest : Bytes)
    → read_quoted false (dot_escape_label s ++ (b'"' ∷ rest)) ≡ some (drop_returns s, rest)
unfolding read_quoted dot_escape_label drop_returns
read_quoted-dot_escape_label [] rest = refl
read_quoted-dot_escape_label (c ∷ s) rest = ground (arith, read_quoted-dot_escape_label s rest)

-- What is left behind a prefix.
unfoldable pub strip : Bytes → Bytes → Option Bytes
strip [] s = some s
strip (p ∷ ps) [] = none
strip (p ∷ ps) (c ∷ s) = if p == c then strip ps s else none

-- The first entity or tag of html_escape at the head of a text, with the byte that it stands for.
abbrev pub first_of : Option Bytes → ℕ → Option (ℕ × Bytes) → Option (ℕ × Bytes)
first_of (some rest) c o = some (c, rest)
first_of none c o = o

unfoldable pub read_entity : Bytes → Option (ℕ × Bytes)
unfolding strip
read_entity [] = none
read_entity (c ∷ s) = first_of (strip (chars "&amp;") (c ∷ s)) b'&' (
    first_of (strip (chars "&lt;") (c ∷ s)) b'<' (
      first_of (strip (chars "&gt;") (c ∷ s)) b'>' (
        first_of (strip (chars "&quot;") (c ∷ s)) b'"' (
          first_of (strip (chars "&apos;") (c ∷ s)) b'\''
            (first_of (strip (chars "<BR/>") (c ∷ s)) b'\n' (some (c, s)))))))

-- A text of entities, read on fuel.
unfoldable pub html_text : ℕ → Bytes → Bytes
unfolding read_entity
html_text zero s = []
html_text (suc fuel) s = elim (read_entity s) [
  | none ↦ []
  | some (c, rest) ↦ c ∷ html_text fuel rest
]

read_entity-html_escape_char :
    (c : ℕ) (rest : Bytes) → read_entity (html_escape_char c ++ rest) ≡ some (c, rest)
unfolding read_entity html_escape_char
read_entity-html_escape_char c rest = ground arith

html_text-step :
    (fuel c : ℕ) (s rest : Bytes)
    → read_entity s ≡ some (c, rest)
    → html_text (suc fuel) s ≡ c ∷ html_text fuel rest
unfolding html_text
html_text-step fuel c s rest e = rw (e, html_text) refl

-- An escaped text reads back as the text that was given, whatever characters it holds.
pub html_text-html_escape : (s : Bytes) → html_text (suc (length s)) (html_escape s) ≡ s
unfolding html_text html_escape
html_text-html_escape [] = refl
html_text-html_escape (c ∷ s) =
    html_text-step (suc (length s)) c (html_escape_char c ++ html_escape s) (html_escape s)
      (read_entity-html_escape_char c (html_escape s))
    ∙ ap (λ t. c ∷ t) (html_text-html_escape s)
