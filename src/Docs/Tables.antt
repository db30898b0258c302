-- ===== src/Docs/Tables.antt =====
-- generator/doc_generator.h and generator/generate_docs.cpp: the tables of fields and enumerators, the
-- sections of classes, messages and components.
pub mod Sections
pub mod Nested
use Prim.Native.String.{String}
use reflect_pytest.Prelude.{
  ℕ, ◌%◌, ◌^◌, ◌==◌, if◌then◌else◌, Bool, true, false, Option, none, some, List, [], ◌∷◌, ◌++◌,
  length, chars, to_string, has_name,
}
use reflect_pytest.Messages.{MsgId}
use reflect_pytest.World.{Service}
use reflect_pytest.Generator.Types.{
  Fundamental, bool, char, uint8, int8, uint16, int16, uint32, int32, uint64, int64, float, double,
  fundamental_name,
}
use reflect_pytest.Docs.Text.{Bytes}
use reflect_pytest.Docs.Flow.{component_name, message_name, insert_name, Names}
use reflect_pytest.Docs.Page.{
  Direction, internal, inbound, outbound, bidirectional, direction, component_lines,
}

-- A class: identifier_of, or what get_cxx_type_name returns for a template; its DOC_DESC and sizeof.
pub record ClassDoc : Type 0 where
  pub name : String
  pub description : String
  pub size : ℕ

pub record FieldDoc : Type 0 where
  pub name : String
  pub size : ℕ
  pub offset : ℕ

-- What the reflection tells of the types of fields. A std::array is a class with a member _M_elems.
mutual
  pub data DocType : Type 0 where
    fundamental : Fundamental → DocType
    enumeration : String → DocType
    array_of : DocType → ℕ → DocType
    structure : ClassDoc → DocFields → DocType

  pub data DocFields : Type 0 where
    no_fields : DocFields
    field : FieldDoc → DocType → DocFields → DocFields

unfoldable pub cpp_type_name_str : DocType → Bytes
unfolding to_string
cpp_type_name_str (fundamental f) = chars (fundamental_name f)
cpp_type_name_str (enumeration name) = chars name
cpp_type_name_str (structure c fs) = chars c.name
cpp_type_name_str (array_of t n) = cpp_type_name_str t ++ (chars "[" ++ (to_string n ++ chars "]"))

abbrev fundamental_hint : Fundamental → Bytes
fundamental_hint bool = chars "bool"
fundamental_hint float = chars "float"
fundamental_hint double = chars "float"
fundamental_hint _ = chars "int"

abbrev pub py_type_hint : DocType → Bytes
py_type_hint (fundamental f) = fundamental_hint f
py_type_hint (enumeration name) = chars name
py_type_hint (array_of t n) = chars "bytes"
py_type_hint (structure c fs) = chars "Any"

-- A cell of the table.
abbrev cell : Bytes → Bytes
cell text = chars "      <td>" ++ (text ++ chars "</td>\n")

unfoldable pub field_row : FieldDoc → DocType → Bytes
unfolding cpp_type_name_str to_string
field_row f t =
    chars "    <tr>\n"
    ++ (cell (chars f.name)
        ++ (cell (cpp_type_name_str t)
            ++ (cell (py_type_hint t)
                ++ (cell (to_string f.size)
                    ++ (cell (to_string f.offset) ++ chars "    </tr>\n")))))

unfoldable pub field_rows : DocFields → Bytes
unfolding field_row
field_rows no_fields = []
field_rows (field f t fs) = field_row f t ++ field_rows fs

unfoldable pub table : DocFields → Bytes
unfolding field_rows
table fs =
    chars
      "<table>\n  <thead>\n    <tr><th>Field</th><th>C++ Type</th><th>Py Type</th><th>Bytes</th><th>Offset</th></tr>\n  </thead>\n  <tbody>\n"
    ++ (field_rows fs ++ chars "  </tbody>\n</table>\n\n")

-- A DOC_DESC, if there is one, as a quotation.
unfoldable pub quotation : String → Bytes
quotation description =
    if length (chars description) == 0
    then []
    else chars "> " ++ (chars description ++ chars "\n\n")

-- The set of the sections printed so far, and the output.
pub record Printed : Type 0 where
  pub visited : Names
  pub out : Bytes

abbrev pub print : Bytes → Printed → Printed
print text p = record p { out = p.out ++ text }

abbrev pub heading : Bytes → Bytes
heading name = chars "#### Sub-struct: `" ++ (name ++ chars "`\n\n")

unfoldable pub section_head : ClassDoc → Bytes
unfolding quotation to_string
section_head c =
    heading (chars c.name)
    ++ (quotation c.description
        ++ (chars "**Wire size:** " ++ (to_string c.size ++ chars " bytes\n\n")))

-- emit_md_struct_section of a type without its extents, if it is a class, with the table of its fields
-- and the sections of those; and the loop over the fields.
unfoldable mutual
  unfolding insert_name section_head table

  pub emit_md_struct_section : DocType → Printed → Printed
  emit_md_struct_section (fundamental f) p = p
  emit_md_struct_section (enumeration name) p = p
  emit_md_struct_section (array_of t n) p = emit_md_struct_section t p
  emit_md_struct_section (structure c fs) p =
      let printed =
        emit_field_table fs
          (print (section_head c) (record p { visited = insert_name (chars c.name) p.visited })) in
      if has_name (chars c.name) p.visited then p else printed

  pub emit_field_table : DocFields → Printed → Printed
  emit_field_table no_fields p = print (chars "_No fields._\n\n") p
  emit_field_table (field f t fs) p =
      field_sections fs (emit_md_struct_section t (print (table (field f t fs)) p))

  pub field_sections : DocFields → Printed → Printed
  field_sections no_fields p = p
  field_sections (field f t fs) p = field_sections fs (emit_md_struct_section t p)

abbrev pub direction_text : Direction → Bytes
direction_text internal = chars "Internal"
direction_text inbound = chars "Inbound"
direction_text outbound = chars "Outbound"
direction_text bidirectional = chars "Bidirectional"

-- The section of a message: its payload is a class with fields.
unfoldable pub emit_md_payload_section : List Service → MsgId → ClassDoc → DocFields → Bytes
unfolding quotation direction component_lines to_string emit_field_table
emit_md_payload_section cs id c fs =
    chars "<details>\n<summary><font size=\"+1\"><b>MsgId::"
    ++ (chars (message_name id)
        ++ (chars " ("
            ++ (chars c.name
                ++ (chars ")</b></font></summary>\n\n"
                    ++ (quotation c.description
                        ++ (chars "**Direction:** `"
                            ++ (direction_text (direction cs id)
                                ++ (chars "`<br>\n"
                                    ++ (component_lines cs id
                                        ++ (chars "**Wire size:** "
                                            ++ (to_string c.size
                                                ++ (chars " bytes\n\n"
                                                    ++ ((emit_field_table fs
                                                          (record { visited = []; out = [] })).out
                                                        ++ chars "</details>\n\n")))))))))))))

-- The sections of the messages, each with its payload, in the order of the enumerators.
unfoldable pub emit_payloads :
    List Service → (MsgId → ClassDoc) → (MsgId → DocFields) → List MsgId → Bytes
unfolding emit_md_payload_section
emit_payloads cs payload fields [] = []
emit_payloads cs payload fields (id ∷ ids) =
    emit_md_payload_section cs id (payload id) (fields id) ++ emit_payloads cs payload fields ids

-- The paragraphs of the components with a DOC_DESC.
unfoldable pub emit_components : (Service → String) → List Service → Bytes
emit_components get_desc [] = []
emit_components get_desc (c ∷ cs) =
    (if length (chars (get_desc c)) == 0
      then []
      else chars "### `"
        ++ (chars (component_name c) ++ (chars "`\n\n> " ++ (chars (get_desc c) ++ chars "\n\n"))))
    ++ emit_components get_desc cs

-- The table of an enumeration, with the name of its underlying type; the values are cast to uint32_t.
unfoldable pub enumerator_rows : List (String × ℕ) → Bytes
unfolding to_string
enumerator_rows [] = []
enumerator_rows ((name, value) ∷ es) =
    chars "| `"
    ++ (chars name
        ++ (chars "` | `" ++ (to_string (value % 2 ^ 32) ++ (chars "` |\n" ++ enumerator_rows es))))

abbrev pub underlying_name : Fundamental → Bytes
underlying_name uint8 = chars "uint8_t"
underlying_name uint16 = chars "uint16_t"
underlying_name uint32 = chars "uint32_t"
underlying_name int8 = chars "int8_t"
underlying_name int16 = chars "int16_t"
underlying_name int32 = chars "int32_t"
underlying_name _ = chars "int"

unfoldable pub emit_md_enum_section : String → Fundamental → String → List (String × ℕ) → Bytes
unfolding quotation enumerator_rows
emit_md_enum_section name underlying description es =
    chars "### `"
    ++ (chars name
        ++ (chars "` (`"
            ++ (underlying_name underlying
                ++ (chars "`)\n\n"
                    ++ (quotation description
                        ++ (chars "| Enumerator | Value |\n|---|---|\n"
                            ++ (enumerator_rows es ++ chars "\n")))))))
