-- ===== src/Generator/Source/Classes.antt =====
-- generator/python_code_generator.h and generator/generate_bindings.cpp: the text of the enumerations,
-- of the classes and of the two tables.
use Prim.Native.String.{String}
use reflect_pytest.Prelude.{
  ℕ, ◌%◌, ◌^◌, if◌then◌else◌, List, [], ◌∷◌, ◌++◌, length, ◌==◌, chars, to_string, map,
}
use reflect_pytest.Docs.Text.{Bytes}
use reflect_pytest.Generator.{
  Scalar, boolean, integral, floating, enumeration, byte_like, other, Element, FieldType, scalar,
  std_array, c_array, class_type, Field, PackStep, UnpackStep, generate_struct,
}
use reflect_pytest.Generator.Source.{pack_step_text, unpack_step_text}

-- A DOC_DESC, if there is one, as the docstring behind an indentation.
unfoldable pub docstring : String → Bytes
docstring description =
    if length (chars description) == 0
    then []
    else chars "    \"\"\"" ++ (chars description ++ chars "\"\"\"\n")

-- What the reflection tells of an enumeration: its enumerators with their values.
pub record EnumInfo : Type 0 where
  pub name : String
  pub description : String
  pub enumerators : List (String × ℕ)

-- The values are cast to uint16_t.
unfoldable pub enumerator_lines : List (String × ℕ) → Bytes
unfolding to_string
enumerator_lines [] = []
enumerator_lines ((name, value) ∷ es) =
    chars "    "
    ++ (chars name
        ++ (chars " = " ++ (to_string (value % 2 ^ 16) ++ (chars "\n" ++ enumerator_lines es))))

unfoldable pub generate_enum : EnumInfo → Bytes
unfolding enumerator_lines docstring
generate_enum e =
    chars "class "
    ++ (chars e.name
        ++ (chars "(IntEnum):\n"
            ++ (docstring e.description ++ (enumerator_lines e.enumerators ++ chars "\n"))))

-- A data member, with the name of its enumeration, if it is one, and its DOC_DESC.
pub record Member : Type 0 where
  pub field : Field
  pub enum_name : String
  pub description : String

pub record StructInfo : Type 0 where
  pub class_name : String
  pub description : String
  pub size : ℕ
  pub members : List Member

-- get_python_type_hint of a type that is neither a class nor an array.
abbrev pub get_python_type_hint : String → Scalar → Bytes
get_python_type_hint enum_name boolean = chars "bool"
get_python_type_hint enum_name (integral signed n) = chars "int"
get_python_type_hint enum_name (floating n) = chars "float"
get_python_type_hint enum_name (enumeration n) = chars enum_name

abbrev pub element_hint : Element → Bytes
element_hint byte_like = chars "bytes"
element_hint (other elem_type size) = chars "list[" ++ (chars elem_type ++ chars "]")

abbrev pub annotation : String → FieldType → Bytes
annotation enum_name (std_array t n) = element_hint t
annotation enum_name (c_array t n) = element_hint t
annotation enum_name (class_type name size) = chars name
annotation enum_name (scalar s) = get_python_type_hint enum_name s

unfoldable pub member_lines : List Member → Bytes
unfolding docstring
member_lines [] = []
member_lines (m ∷ ms) =
    chars "    "
    ++ (chars m.field.name
        ++ (chars ": "
            ++ (annotation m.enum_name m.field.type
                ++ (chars "\n" ++ (docstring m.description ++ member_lines ms)))))

unfoldable pub pack_steps_text : List PackStep → Bytes
unfolding pack_step_text
pack_steps_text [] = []
pack_steps_text (s ∷ ss) = pack_step_text s ++ pack_steps_text ss

unfoldable pub unpack_steps_text : List UnpackStep → Bytes
unfolding unpack_step_text
unpack_steps_text [] = []
unpack_steps_text (s ∷ ss) = unpack_step_text s ++ unpack_steps_text ss

-- The arguments of the constructor call at the end of unpack_wire.
unfoldable pub keyword_args : List Member → Bytes
keyword_args [] = []
keyword_args (m ∷ []) = chars m.field.name ++ (chars "=" ++ chars m.field.name)
keyword_args (m ∷ n ∷ ms) =
    chars m.field.name
    ++ (chars "=" ++ (chars m.field.name ++ (chars ", " ++ keyword_args (n ∷ ms))))

abbrev fields_of : List Member → List Field
fields_of = map (λ m. m.field)

-- The body of the class: members, pack_wire, and what unpack_wire does.
unfoldable pub class_body : StructInfo → Bytes
unfolding member_lines pack_steps_text unpack_steps_text keyword_args generate_struct
class_body t =
    let plan = generate_struct (fields_of t.members) t.size in
    member_lines t.members
    ++ (chars "\n    def pack_wire(self) -> bytes:\n        data = bytearray()\n"
        ++ (pack_steps_text plan.pack_instructions
            ++ (chars
                  "        return bytes(data)\n\n    @classmethod\n    def unpack_wire(cls, data: bytes) -> \""
                ++ (chars t.class_name
                    ++ (chars "\":\n        offset = 0\n"
                        ++ (unpack_steps_text plan.unpack_instructions
                            ++ (chars "        return cls("
                                ++ (keyword_args t.members ++ chars ")\n\n"))))))))

-- The body for a struct without members.
unfoldable pub empty_body : StructInfo → Bytes
empty_body t =
    chars
      "    pass\n\n    def pack_wire(self) -> bytes:\n        return b\"\"\n\n    @classmethod\n    def unpack_wire(cls, data: bytes) -> \""
    ++ (chars t.class_name ++ chars "\":\n        return cls()\n\n")

unfoldable pub class_text : StructInfo → Bytes
unfolding class_body empty_body docstring to_string
class_text t =
    chars "@dataclass\nclass "
    ++ (chars t.class_name
        ++ (chars ":\n"
            ++ (docstring t.description
                ++ (chars "    WIRE_SIZE = "
                    ++ (to_string t.size
                        ++ (chars "\n"
                            ++ (if length t.members == 0 then empty_body t else class_body t)))))))

-- A message: its name, the class of its payload and the size of that.
pub record Row : Type 0 where
  pub message : String
  pub class_name : String
  pub size : ℕ

-- The lines of MESSAGE_BY_ID and of PAYLOAD_SIZE_BY_ID.
unfoldable pub metadata_lines : List Row → Bytes
metadata_lines [] = []
metadata_lines (r ∷ rs) =
    chars "    MsgId."
    ++ (chars r.message
        ++ (chars ": " ++ (chars r.class_name ++ (chars ",\n" ++ metadata_lines rs))))

unfoldable pub size_lines : List Row → Bytes
unfolding to_string
size_lines [] = []
size_lines (r ∷ rs) =
    chars "    MsgId."
    ++ (chars r.message ++ (chars ": " ++ (to_string r.size ++ (chars ",\n" ++ size_lines rs))))

unfoldable pub concat_text {ℓ} : {A : Type ℓ} → (A → Bytes) → List A → Bytes
concat_text f [] = []
concat_text f (a ∷ rest) = f a ++ concat_text f rest

-- The whole module: the enumerations, the classes in the order of their generation, and the tables.
unfoldable pub generate_bindings : List EnumInfo → List StructInfo → List Row → Bytes
unfolding concat_text generate_enum class_text metadata_lines size_lines
generate_bindings enums structs rows =
    chars
      "\"\"\"Auto-generated IPC bindings using C++26 static reflection.\"\"\"\n\nimport struct\nfrom dataclasses import dataclass\nfrom enum import IntEnum\n\n"
    ++ (concat_text generate_enum enums
        ++ (concat_text class_text structs
            ++ (chars "MESSAGE_BY_ID = {\n"
                ++ (metadata_lines rows
                    ++ (chars "}\n\nPAYLOAD_SIZE_BY_ID = {\n"
                        ++ (size_lines rows ++ chars "}\n\n"))))))
