-- ===== src/Generator/Python.antt =====
-- What the generated statements do in Python: the struct module's formats, and the offsets that
-- unpack_wire reads at; and the layout of the C++ struct.

use Prim.Native.String.{String}
use reflect_pytest.Prelude.{ℕ, ◌+◌, ◌*◌, ◌≤◌, ◌≡◌, List, [], ◌∷◌, ◌++◌}
use reflect_pytest.Generator.{
  Letter, letter_bool, letter_b, letter_ub, letter_h, letter_uh, letter_i, letter_ui, letter_q,
  letter_uq, letter_f, letter_d, get_struct_format_char, byte_like, other, FieldType, scalar,
  std_array, c_array, class_type, Field, FormatItem, pad, raw, char, UnpackStep, unpack_single,
  unpack_many, unpack_object, unpack_items, scalar_size,
}

-- struct.calcsize of a character in the standard sizes that "<" selects.
abbrev pub letter_size : Letter → ℕ
letter_size letter_bool = 1
letter_size letter_b = 1
letter_size letter_ub = 1
letter_size letter_h = 2
letter_size letter_uh = 2
letter_size letter_i = 4
letter_size letter_ui = 4
letter_size letter_q = 8
letter_size letter_uq = 8
letter_size letter_f = 4
letter_size letter_d = 8

abbrev pub item_size : FormatItem → ℕ
item_size (pad n) = n
item_size (raw n) = n
item_size (char l) = letter_size l

abbrev pub calcsize : List FormatItem → ℕ
calcsize [] = 0
calcsize (i ∷ fmt) = item_size i + calcsize fmt

-- A name with the position and the number of the bytes that it stands for.
abbrev pub Span : Type 0
Span = String × ℕ × ℕ

-- The values of a format at a position: padding has no name.
unfoldable pub format_spans : List FormatItem → List String → ℕ → List Span
format_spans (pad n ∷ fmt) args o = format_spans fmt args (o + n)
format_spans (i ∷ fmt) (a ∷ args) o = (a, o, item_size i) ∷ format_spans fmt args (o + item_size i)
format_spans _ _ o = []

module _ (wire_size : String → ℕ) where
  -- The bytes that a statement moves the offset by.
  abbrev pub advance : UnpackStep → ℕ
  advance (unpack_single fmt args) = calcsize fmt
  advance (unpack_many fmt args) = calcsize fmt
  advance (unpack_object name sub_type) = wire_size sub_type
  advance (unpack_items name sub_type n) = n * wire_size sub_type

  abbrev pub step_spans : UnpackStep → ℕ → List Span
  step_spans (unpack_single fmt args) o = format_spans fmt args o
  step_spans (unpack_many fmt args) o = format_spans fmt args o
  step_spans (unpack_object name sub_type) o = (name, o, wire_size sub_type) ∷ []
  step_spans (unpack_items name sub_type n) o = (name, o, n * wire_size sub_type) ∷ []

  -- The offset after a list of statements, and what they read.
  unfoldable pub end_offset : List UnpackStep → ℕ → ℕ
  end_offset [] o = o
  end_offset (s ∷ ss) o = end_offset ss (o + advance s)

  unfoldable pub spans : List UnpackStep → ℕ → List Span
  spans [] o = []
  spans (s ∷ ss) o = step_spans s o ++ spans ss (o + advance s)

abbrev pub type_size : FieldType → ℕ
type_size (scalar s) = scalar_size s
type_size (std_array byte_like n) = n
type_size (std_array (other sub_type size) n) = n * size
type_size (c_array byte_like n) = n
type_size (c_array (other sub_type size) n) = n * size
type_size (class_type sub_type size) = size

abbrev pub field_span : Field → Span
field_span f = (f.name, f.offset, type_size f.type)

-- The format character of a scalar is as wide as the scalar; the struct of another field is generated
-- with the size of its C++ type.
abbrev pub IsKnown : (String → ℕ) → FieldType → Type 0
IsKnown wire_size (scalar s) = letter_size (get_struct_format_char s) ≡ scalar_size s
IsKnown wire_size (std_array (other sub_type size) n) = wire_size sub_type ≡ size
IsKnown wire_size (c_array (other sub_type size) n) = wire_size sub_type ≡ size
IsKnown wire_size (class_type sub_type size) = wire_size sub_type ≡ size
IsKnown wire_size _ = Unit

-- The fields from an offset on lie one after another and end by `size`.
abbrev pub IsLaidOut : ℕ → ℕ → List Field → Type 0
IsLaidOut o size [] = o ≤ size
IsLaidOut o size (f ∷ fs) = (o ≤ f.offset) × IsLaidOut (f.offset + type_size f.type) size fs
