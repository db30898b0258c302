-- ===== src/Generator/Source/Formats.antt =====
-- The formats of Python's struct module, read back from the text that the generator writes.
use Prim.Native.Nat.{zero, suc}
use reflect_pytest.Prelude.{
  ℕ, ◌+◌, ◌^◌, ◌<◌, ◌≡◌, refl, sym, ◌∙◌, ap, ◌==◌, true, false, if◌then◌else◌, Option, none, some,
  List, [], ◌∷◌, ◌++◌, length, All, to_string, to_string-All, number-to_string, number, digits, ◌/◌,
  ◌%◌, digit_test,
}
use mathlib.Core.List.{append_assoc}
use reflect_pytest.Docs.Text.{Bytes}
use reflect_pytest.Generator.{
  Letter, letter_bool, letter_b, letter_ub, letter_h, letter_uh, letter_i, letter_ui, letter_q,
  letter_uq, letter_f, letter_d, FormatItem, pad, raw, char,
}
use reflect_pytest.Generator.Source.{letter_char, item_text, items_text}

-- The digits at the head of a text, and what follows them.
unfoldable pub span_digits : Bytes → Bytes × Bytes
span_digits [] = ([], [])
span_digits (c ∷ s) =
    let (ds, rest) = span_digits s in if digit_test c then (c ∷ ds, rest) else ([], c ∷ s)

-- The characters of the struct module that the generator uses.
abbrev pub letter_of : ℕ → Option Letter
letter_of c =
    if c == b'?'
    then some letter_bool
    else if c == b'b'
    then some letter_b
    else if c == b'B'
    then some letter_ub
    else if c == b'h'
    then some letter_h
    else if c == b'H'
    then some letter_uh
    else if c == b'i'
    then some letter_i
    else if c == b'I'
    then some letter_ui
    else if c == b'q'
    then some letter_q
    else if c == b'Q'
    then some letter_uq
    else if c == b'f'
    then some letter_f
    else if c == b'd'
    then some letter_d
    else none

-- A count and a character: "x" is padding, "s" a string of bytes, which a count makes longer; the
-- other characters stand for one value each, here without a count.
abbrev pub item_of : Bytes → ℕ → Option FormatItem
item_of [] c =
    if c == b'x'
    then some (pad 1)
    else if c == b's'
    then some (raw 1)
    else elim (letter_of c) [ none ↦ none | some l ↦ some (char l) ]
item_of (d ∷ ds) c =
    if c == b'x'
    then some (pad (number 0 (d ∷ ds)))
    else if c == b's'
    then some (raw (number 0 (d ∷ ds)))
    else none

abbrev pub behind : Option FormatItem → Option (List FormatItem) → Option (List FormatItem)
behind (some i) (some fmt) = some (i ∷ fmt)
behind _ _ = none

abbrev pub next_item : Bytes → Bytes → (Bytes → Option (List FormatItem)) → Option (List FormatItem)
next_item ds [] read = none
next_item ds (l ∷ rest) read = behind (item_of ds l) (read rest)

-- A format behind its "<", on fuel: one round for each item.
unfoldable pub read_items : ℕ → Bytes → Option (List FormatItem)
unfolding span_digits number
read_items fuel [] = some []
read_items zero (c ∷ s) = none
read_items (suc fuel) (c ∷ s) =
    let (ds, rest) = span_digits (c ∷ s) in next_item ds rest (read_items fuel)

-- The counts are numbers of 64 bits, with room to spare.
abbrev pub IsCount : FormatItem → Type 0
IsCount (pad n) = n < 10 ^ 20
IsCount (raw n) = n < 10 ^ 20
IsCount (char l) = Unit

span_digits_lem :
    (ds rest : Bytes) (l : ℕ)
    → All (λ c. digit_test c ≡ true) ds
    → digit_test l ≡ false
    → span_digits (ds ++ l ∷ rest) ≡ (ds, l ∷ rest)
unfolding span_digits
span_digits_lem [] rest l h other = rw other refl
span_digits_lem (d ∷ ds) rest l (h, hs) other = rw (h, span_digits_lem ds rest l hs other) refl

to_string-cons : (n : ℕ) → (c : ℕ) × (s : Bytes) × (to_string n ≡ c ∷ s)
unfolding to_string digits
to_string-cons n = last (if n / 10 == 0 then [] else digits 19 (n / 10)) (b'0' + n % 10)
  where
    last : (s : Bytes) (c : ℕ) → (d : ℕ) × (r : Bytes) × (s ++ (c ∷ []) ≡ d ∷ r)
    last [] c = (c, [], refl)
    last (d ∷ s) c = (d, s ++ (c ∷ []), refl)

read_step :
    (fuel l : ℕ) (ds rest : Bytes)
    → All (λ c. digit_test c ≡ true) ds
    → digit_test l ≡ false
    → read_items (suc fuel) (ds ++ l ∷ rest) ≡ behind (item_of ds l) (read_items fuel rest)
unfolding read_items
read_step fuel l [] rest h other = rw (span_digits_lem [] rest l h other) refl
read_step fuel l (d ∷ ds) rest h other = rw (span_digits_lem (d ∷ ds) rest l h other) refl

item_of-count :
    (n : ℕ)
    → n < 10 ^ 20
    → (item_of (to_string n) b'x' ≡ some (pad n)) × (item_of (to_string n) b's' ≡ some (raw n))
item_of-count n h =
    let (c, s, e) = to_string-cons n in
    let value : number 0 (c ∷ s) ≡ n = ap (number 0) (sym e) ∙ number-to_string n h in
    rw e (ap (λ k. some (pad k)) value, ap (λ k. some (raw k)) value)

item_of-letter : (l : Letter) → item_of [] (letter_char l) ≡ some (char l)
item_of-letter letter_bool = refl
item_of-letter letter_b = refl
item_of-letter letter_ub = refl
item_of-letter letter_h = refl
item_of-letter letter_uh = refl
item_of-letter letter_i = refl
item_of-letter letter_ui = refl
item_of-letter letter_q = refl
item_of-letter letter_uq = refl
item_of-letter letter_f = refl
item_of-letter letter_d = refl

letter_char-other : (l : Letter) → digit_test (letter_char l) ≡ false
letter_char-other letter_bool = refl
letter_char-other letter_b = refl
letter_char-other letter_ub = refl
letter_char-other letter_h = refl
letter_char-other letter_uh = refl
letter_char-other letter_i = refl
letter_char-other letter_ui = refl
letter_char-other letter_q = refl
letter_char-other letter_uq = refl
letter_char-other letter_f = refl
letter_char-other letter_d = refl

item_lem :
    (i : FormatItem) (fuel : ℕ) (rest : Bytes)
    → IsCount i
    → read_items (suc fuel) (item_text i ++ rest) ≡ behind (some i) (read_items fuel rest)
unfolding item_text
item_lem (pad n) fuel rest h =
    rw
      (
        append_assoc (to_string n) (b'x' ∷ []) rest,
        read_step fuel b'x' (to_string n) rest (to_string-All n) refl,
        (item_of-count n h).0,
      )
      refl
item_lem (raw n) fuel rest h =
    rw
      (
        append_assoc (to_string n) (b's' ∷ []) rest,
        read_step fuel b's' (to_string n) rest (to_string-All n) refl,
        (item_of-count n h).1,
      )
      refl
item_lem (char l) fuel rest h =
    rw (read_step fuel (letter_char l) [] rest tt (letter_char-other l), item_of-letter l) refl

-- The text of a format is read back as its items, each with its count, by the grammar of Python's struct module:
-- the counts, the padding and the characters are not confused. Assumed: the counts are below 10 ^ 20.
pub read_items-items_text :
    (fmt : List FormatItem) → All IsCount fmt → read_items (length fmt) (items_text fmt) ≡ some fmt
unfolding read_items items_text
read_items-items_text [] h = refl
read_items-items_text (i ∷ fmt) (h, hs) =
    item_lem i (length fmt) (items_text fmt) h ∙ ap (behind (some i)) (read_items-items_text fmt hs)
