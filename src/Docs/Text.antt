-- ===== src/Docs/Text.antt =====
-- generator/doc_generator.h: the text of the labels of the diagram.
pub mod Escape
pub mod Wrapping
pub mod Lines
pub mod Names
use reflect_pytest.Prelude.{
  ℕ, zero, suc, ◌+◌, ltb, leb, ◌==◌, Bool, true, false, ◌&&◌, ◌||◌, if◌then◌else◌, Option, none,
  some, List, [], ◌∷◌, ◌++◌, length, take, chars,
}

abbrev pub Bytes : Type 0
Bytes = List ℕ

-- The switch of dot_escape_label.
unfoldable pub dot_escape_char : ℕ → Bytes
dot_escape_char ch =
    if ch == b'\\'
    then b'\\' ∷ b'\\' ∷ []
    else if ch == b'"'
    then b'\\' ∷ b'"' ∷ []
    else if ch == b'\n'
    then b'\\' ∷ b'n' ∷ []
    else if ch == b'\r'
    then []
    else ch ∷ []

unfoldable pub dot_escape_label : Bytes → Bytes
unfolding dot_escape_char
dot_escape_label [] = []
dot_escape_label (ch ∷ s) = dot_escape_char ch ++ dot_escape_label s

-- The switch of html_escape.
unfoldable pub html_escape_char : ℕ → Bytes
html_escape_char c =
    if c == b'&'
    then chars "&amp;"
    else if c == b'<'
    then chars "&lt;"
    else if c == b'>'
    then chars "&gt;"
    else if c == b'"'
    then chars "&quot;"
    else if c == b'\''
    then chars "&apos;"
    else if c == b'\n'
    then chars "<BR/>"
    else c ∷ []

unfoldable pub html_escape : Bytes → Bytes
unfolding html_escape_char
html_escape [] = []
html_escape (c ∷ s) = html_escape_char c ++ html_escape s

-- std::isdigit and std::isalnum in the "C" locale.
abbrev pub is_digit : ℕ → Bool
is_digit c = leb b'0' c && leb c b'9'

abbrev pub is_alnum : ℕ → Bool
is_alnum c = is_digit c || (leb b'A' c && leb c b'Z') || (leb b'a' c && leb c b'z')

-- The loop of dot_id.
unfoldable pub id_chars : Bytes → Bytes
id_chars [] = []
id_chars (ch ∷ s) = (if is_alnum ch then ch else b'_') ∷ id_chars s

-- The last test of dot_id: out.empty() || isdigit(out[0]).
abbrev pub needs_underscore : Bytes → Bool
needs_underscore [] = true
needs_underscore (c ∷ out) = is_digit c

unfoldable pub dot_id : Bytes → Bytes
unfolding id_chars
dot_id s = let out = id_chars s in if needs_underscore out then b'_' ∷ out else out

-- std::string_view::find of a character; `none` is npos.
unfoldable pub find : ℕ → Bytes → Option ℕ
find ch [] = none
find ch (c ∷ s) =
    if c == ch then some 0 else elim (find ch s) [ none ↦ none | some i ↦ some (suc i) ]

unfoldable pub first_sentence : Bytes → Bytes
unfolding find
first_sentence s = elim (find b'.' s) [ none ↦ s | some dot ↦ take (suc dot) s ]

-- The local variables of wrap_words.
pub record Wrap : Type 0 where
  pub out : Bytes
  pub word : Bytes
  pub col : ℕ

abbrev pub is_blank : ℕ → Bool
is_blank ch = ch == b' ' || ch == b'\n' || ch == b'\r' || ch == b'\t'

-- The end of flush_word, which clears a word that is not empty.
unfoldable pub place_word : ℕ → Wrap → Wrap
place_word width p =
    if p.col == 0
    then record { out = p.out ++ p.word; col = length p.word; word = [] }
    else if leb (p.col + 1 + length p.word) width
    then record { out = p.out ++ (b' ' ∷ p.word); col = p.col + (1 + length p.word); word = [] }
    else record { out = p.out ++ (b'\n' ∷ p.word); col = length p.word; word = [] }

unfoldable pub flush_word : ℕ → Wrap → Wrap
unfolding place_word
flush_word width p = if length p.word == 0 then p else place_word width p

unfoldable pub wrap_loop : ℕ → Bytes → Wrap → Wrap
unfolding flush_word
wrap_loop width [] p = flush_word width p
wrap_loop width (ch ∷ s) p =
    wrap_loop width s
      (if is_blank ch then flush_word width p else record p { word = p.word ++ ch ∷ [] })

unfoldable pub wrap_words : Bytes → ℕ → Bytes
unfolding wrap_loop
wrap_words s width = (wrap_loop width s (record { out = []; word = []; col = 0 })).out
