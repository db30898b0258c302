-- ===== src/Generator.antt =====
-- generator/python_code_generator.h: the Python class that is generated for a C++ struct, with the
-- statements of its `pack_wire` and `unpack_wire`.
pub mod Python
pub mod Pieces
pub mod Spans
pub mod Layout
pub mod Reads
pub mod Agree
pub mod Characters
pub mod Types
pub mod Source
pub mod Values
use Prim.Native.String.{String}
use reflect_pytest.Prelude.{
  ℕ, zero, suc, ◌+◌, ◌-◌, ◌*◌, ltb, leb, ◌==◌, Bool, true, false, if◌then◌else◌, List, [], ◌∷◌,
  ◌++◌, length,
}

-- A type that fits one character of a format; the numbers are sizeof.
pub data Scalar : Type 0 where
  boolean : Scalar
  integral : Bool → ℕ → Scalar
  floating : ℕ → Scalar
  enumeration : ℕ → Scalar

-- The format characters ? b B h H i I q Q f d of Python's struct module.
pub data Letter : Type 0 where
  letter_bool letter_b letter_ub letter_h letter_uh letter_i letter_ui letter_q letter_uq letter_f
        letter_d :
      Letter

unfoldable pub get_struct_format_char : Scalar → Letter
get_struct_format_char boolean = letter_bool
get_struct_format_char (integral signed n) =
    if n == 1
    then (if signed then letter_b else letter_ub)
    else if n == 2
    then (if signed then letter_h else letter_uh)
    else if n == 4
    then (if signed then letter_i else letter_ui)
    else if n == 8
    then (if signed then letter_q else letter_uq)
    else letter_bool
get_struct_format_char (floating n) =
    if n == 4 then letter_f else if n == 8 then letter_d else letter_bool
get_struct_format_char (enumeration n) =
    if n == 1
    then letter_ub
    else if n == 2
    then letter_uh
    else if n == 8
    then letter_uq
    else letter_bool

-- The elements of an array: uint8_t, char or int8_t, or another type with its Python name and size.
pub data Element : Type 0 where
  byte_like : Element
  other : String → ℕ → Element

pub data FieldType : Type 0 where
  scalar : Scalar → FieldType
  std_array c_array : Element → ℕ → FieldType
  class_type : String → ℕ → FieldType

-- A data member, with std::meta::offset_of in bytes.
pub record Field : Type 0 where
  pub name : String
  pub type : FieldType
  pub offset : ℕ

-- A piece of a format: "3x", "32s", or a character.
pub data FormatItem : Type 0 where
  pad : ℕ → FormatItem
  raw : ℕ → FormatItem
  char : Letter → FormatItem

-- What is appended to pack_instructions: data.extend of a struct.pack, of `self.f.pack_wire()`, or
-- of a loop over the items of `self.f`. The last one first tests whether the field is bytes already.
pub data PackStep : Type 0 where
  pack_format : List FormatItem → List String → PackStep
  extend_object : String → PackStep
  extend_items : String → String → PackStep
  extend_bytes_or_items : String → String → PackStep

-- What is appended to unpack_instructions: a struct.unpack_from into the names, with its `[0]` in
-- the first of the two; a `sub_type.unpack_wire`; or a loop of those.
pub data UnpackStep : Type 0 where
  unpack_single unpack_many : List FormatItem → List String → UnpackStep
  unpack_object : String → String → UnpackStep
  unpack_items : String → String → ℕ → UnpackStep

-- The local variables of generate_struct.
pub record Plan : Type 0 where
  pub pack_fmt : List FormatItem
  pub pack_args : List String
  pub unpack_args : List String
  pub pack_instructions : List PackStep
  pub unpack_instructions : List UnpackStep
  pub current_offset : ℕ

abbrev pub empty_plan : Plan
empty_plan = record {
  pack_fmt = [];
  pack_args = [];
  unpack_args = [];
  pack_instructions = [];
  unpack_instructions = [];
  current_offset = 0;
}

abbrev pub is_empty : List FormatItem → Bool
is_empty [] = true
is_empty (i ∷ fmt) = false

-- At most one name: no comma in unpack_args.
abbrev pub is_single_val : List String → Bool
is_single_val args = leb (length args) 1

abbrev pub unpack_step : List FormatItem → List String → UnpackStep
unpack_step fmt args = if is_single_val args then unpack_single fmt args else unpack_many fmt args

unfoldable pub flush_format : Plan → Plan
flush_format p = if is_empty p.pack_fmt then p else record p {
  pack_instructions = p.pack_instructions ++ pack_format p.pack_fmt p.pack_args ∷ [];
  unpack_instructions = p.unpack_instructions ++ unpack_step p.pack_fmt p.unpack_args ∷ [];
  pack_fmt = [];
  pack_args = [];
  unpack_args = [];
}

-- Padding up to an offset: before a field, and at the end of the struct.
unfoldable pub pad_to : ℕ → Plan → Plan
pad_to offset p =
    if ltb p.current_offset offset
    then record p {
      pack_fmt = p.pack_fmt ++ pad (offset - p.current_offset) ∷ [];
      current_offset = p.current_offset + (offset - p.current_offset);
    }
    else p

-- One more value in the current format.
unfoldable pub add_value : String → FormatItem → ℕ → Plan → Plan
add_value name item size p = record p {
  pack_fmt = p.pack_fmt ++ item ∷ [];
  pack_args = p.pack_args ++ name ∷ [];
  unpack_args = p.unpack_args ++ name ∷ [];
  current_offset = p.current_offset + size;
}

-- Statements of their own for a field, after what the format holds so far.
unfoldable pub add_steps : PackStep → UnpackStep → ℕ → Plan → Plan
unfolding flush_format
add_steps pack unpack size p =
    let q = flush_format p in
    record q {
      pack_instructions = q.pack_instructions ++ pack ∷ [];
      unpack_instructions = q.unpack_instructions ++ unpack ∷ [];
      current_offset = q.current_offset + size;
    }

abbrev pub scalar_size : Scalar → ℕ
scalar_size boolean = 1
scalar_size (integral signed n) = n
scalar_size (floating n) = n
scalar_size (enumeration n) = n

-- The branches on the type of a field.
unfoldable pub add_field : String → FieldType → Plan → Plan
unfolding add_value add_steps get_struct_format_char
add_field name (std_array byte_like n) = add_value name (raw n) n
add_field name (std_array (other sub_type size) n) =
    add_steps (extend_items name sub_type) (unpack_items name sub_type n) (n * size)
add_field name (c_array byte_like n) = add_value name (raw n) n
add_field name (c_array (other sub_type size) n) =
    add_steps (extend_bytes_or_items name sub_type) (unpack_items name sub_type n) (n * size)
add_field name (class_type sub_type size) =
    add_steps (extend_object name) (unpack_object name sub_type) size
add_field name (scalar s) = add_value name (char (get_struct_format_char s)) (scalar_size s)

unfoldable pub add_fields : List Field → Plan → Plan
unfolding pad_to add_field
add_fields [] p = p
add_fields (f ∷ fs) p = add_fields fs (add_field f.name f.type (pad_to f.offset p))

-- The statements for a struct of at least one field, of `size` bytes.
unfoldable pub generate_struct : List Field → ℕ → Plan
unfolding add_fields pad_to flush_format
generate_struct fields size = flush_format (pad_to size (add_fields fields empty_plan))
