-- ===== src/Generator/Source.antt =====
-- generator/python_code_generator.h: the text of the generated Python.
pub mod Formats
pub mod Classes
use Prim.Native.String.{String}
use reflect_pytest.Prelude.{
  ℕ, ltb, ◌==◌, Bool, true, false, if◌then◌else◌, List, [], ◌∷◌, ◌++◌, length, chars, to_string,
}
use reflect_pytest.Docs.Text.{Bytes}
use reflect_pytest.Generator.{
  Scalar, boolean, integral, floating, enumeration, Letter, letter_bool, letter_b, letter_ub,
  letter_h, letter_uh, letter_i, letter_ui, letter_q, letter_uq, letter_f, letter_d,
  get_struct_format_char, byte_like, other, Element, FieldType, scalar, std_array, c_array,
  class_type, Field, FormatItem, pad, raw, char, PackStep, pack_format, extend_object, extend_items,
  extend_bytes_or_items, UnpackStep, unpack_single, unpack_many, unpack_object, unpack_items,
  generate_struct,
}

abbrev pub letter_char : Letter → ℕ
letter_char letter_bool = b'?'
letter_char letter_b = b'b'
letter_char letter_ub = b'B'
letter_char letter_h = b'h'
letter_char letter_uh = b'H'
letter_char letter_i = b'i'
letter_char letter_ui = b'I'
letter_char letter_q = b'q'
letter_char letter_uq = b'Q'
letter_char letter_f = b'f'
letter_char letter_d = b'd'

-- What is appended to pack_fmt.
unfoldable pub item_text : FormatItem → Bytes
unfolding to_string
item_text (pad n) = to_string n ++ chars "x"
item_text (raw n) = to_string n ++ chars "s"
item_text (char l) = letter_char l ∷ []

unfoldable pub items_text : List FormatItem → Bytes
unfolding item_text
items_text [] = []
items_text (i ∷ fmt) = item_text i ++ items_text fmt

abbrev pub format_text : List FormatItem → Bytes
unfolding items_text
format_text fmt = chars "<" ++ items_text fmt

-- Names with ", " between them, each behind a prefix: pack_args, unpack_args.
unfoldable pub args_text : Bytes → List String → Bytes
args_text prefix [] = []
args_text prefix (a ∷ []) = prefix ++ chars a
args_text prefix (a ∷ b ∷ args) = prefix ++ (chars a ++ (chars ", " ++ args_text prefix (b ∷ args)))

-- Lines of Python: the texts one after another, each behind its indentation.
unfoldable pub lines_text : Bytes → List Bytes → Bytes
lines_text indent [] = []
lines_text indent (l ∷ ls) = indent ++ (l ++ (chars "\n" ++ lines_text indent ls))

-- The loop over the items of a field, which turns tuples, dicts and other values into objects.
unfoldable pub loop_lines : String → String → List Bytes
loop_lines name sub_type =
    (chars "for item in self." ++ (chars name ++ chars ":"))
    ∷ chars "    if not hasattr(item, 'pack_wire'):"
    ∷ chars "        if isinstance(item, tuple):"
    ∷ (chars "            item = " ++ (chars sub_type ++ chars "(*item)"))
    ∷ chars "        elif isinstance(item, dict):"
    ∷ (chars "            item = " ++ (chars sub_type ++ chars "(**item)"))
    ∷ chars "        else:"
    ∷ (chars "            item = " ++ (chars sub_type ++ chars "(item)"))
    ∷ chars "    data.extend(item.pack_wire())"
    ∷ []

abbrev pub method_indent : Bytes
method_indent = chars "        "

unfoldable pub pack_step_text : PackStep → Bytes
unfolding lines_text loop_lines items_text args_text
pack_step_text (pack_format fmt names) = lines_text method_indent (
    (chars "data.extend(struct.pack(\""
      ++ (format_text fmt ++ (chars "\", " ++ (args_text (chars "self.") names ++ chars "))"))))
    ∷ [])
pack_step_text (extend_object name) =
    lines_text method_indent
      ((chars "data.extend(self." ++ (chars name ++ chars ".pack_wire())")) ∷ [])
pack_step_text (extend_items name sub_type) = lines_text method_indent (loop_lines name sub_type)
pack_step_text (extend_bytes_or_items name sub_type) =
    lines_text method_indent (
      (chars "if isinstance(self." ++ (chars name ++ chars ", (bytes, bytearray)):"))
      ∷ (chars "    data.extend(self." ++ (chars name ++ chars ")"))
      ∷ chars "else:"
      ∷ [])
    ++ lines_text (chars "            ") (loop_lines name sub_type)

abbrev pub unpack_from_text : Bytes → List FormatItem → List String → Bytes
unfolding lines_text items_text args_text
unpack_from_text suffix fmt names = lines_text method_indent (
    (args_text [] names
      ++ (chars " = struct.unpack_from(\""
          ++ (format_text fmt ++ (chars "\", data, offset)" ++ suffix))))
    ∷ (chars "offset += struct.calcsize(\"" ++ (format_text fmt ++ chars "\")"))
    ∷ [])

unfoldable pub unpack_step_text : UnpackStep → Bytes
unfolding unpack_from_text lines_text
unpack_step_text (unpack_single fmt names) = unpack_from_text (chars "[0]") fmt names
unpack_step_text (unpack_many fmt names) = unpack_from_text [] fmt names
unpack_step_text (unpack_object name sub_type) = lines_text method_indent (
    (chars "sub_size = " ++ (chars sub_type ++ chars ".WIRE_SIZE"))
    ∷ (chars name
        ++ (chars " = " ++ (chars sub_type ++ chars ".unpack_wire(data[offset:offset+sub_size])")))
    ∷ chars "offset += sub_size"
    ∷ [])
unpack_step_text (unpack_items name sub_type n) = lines_text method_indent (
    (chars name ++ chars " = []")
    ∷ (chars "for _ in range(" ++ (to_string n ++ chars "):"))
    ∷ (chars "    sub_size = " ++ (chars sub_type ++ chars ".WIRE_SIZE"))
    ∷ (chars "    item = "
        ++ (chars sub_type ++ chars ".unpack_wire(data[offset:offset+sub_size])"))
    ∷ (chars "    " ++ (chars name ++ chars ".append(item)"))
    ∷ chars "    offset += sub_size"
    ∷ [])
