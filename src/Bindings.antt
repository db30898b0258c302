-- ===== src/Bindings.antt =====
-- The generator of generator/python_code_generator.h on the structs of messages/simulation_msgs.h.
use reflect_pytest.Docs.Text.{Bytes}
use reflect_pytest.Generator.Types.{
  CxxType, fundamental, int16, uint32, uint8, c_array, class_type, no_members, member, python_name,
  generate_all, generate_nested, print_class, get_python_type_name, get_cxx_type_name,
  strip_namespaces, erase_first, replace_special, pop_underscores, refs, no_output, generate_enums,
}
use reflect_pytest.Generator.Types.Order.{Ordered, printed, Fits}
use reflect_pytest.Generator.Types.Once.{all_refs, generate_all_once}
use reflect_pytest.Prelude.{
  ℕ, chars, text_eq, if◌then◌else◌, All, true, ◌≡◌, ◌⊎◌, refl, false, List, [], ◌∷◌, map, arith,
  inl, inr, none,
}
use reflect_pytest.Generator
use reflect_pytest.Generator.Types
use reflect_pytest.Generator.{
  enumeration, floating, integral, get_struct_format_char, other, scalar, std_array, Field, pad,
  char, letter_ui, letter_ub, unpack_single, unpack_many, unpack_object, unpack_items,
  generate_struct, add_fields, add_field, add_value, add_steps, pad_to, flush_format,
}
use reflect_pytest.Generator.Python.{letter_size}
use reflect_pytest.Generator.Reads.{read_spans}
use reflect_pytest.Generator.Characters.{format_char_width}
use reflect_pytest.Generator.Agree.{written, all_spans, total_size, pack_wire_layout}

-- MotorSequencePayload, 48 bytes.
abbrev sequence_fields : List Field
sequence_fields =
    record { name = "cmd_id"; type = scalar (integral false 4); offset = 0 }
    ∷ record { name = "num_steps"; type = scalar (integral false 1); offset = 4 }
    ∷ record { name = "steps"; type = std_array (other "MotorSubCmd" 8) 5; offset = 8 }
    ∷ []

sequence_unpacked :
    (generate_struct sequence_fields 48).unpack_instructions
    ≡ unpack_many (char letter_ui ∷ char letter_ub ∷ pad 3 ∷ []) ("cmd_id" ∷ "num_steps" ∷ [])
      ∷ unpack_items "steps" "MotorSubCmd" 5
      ∷ []
unfolding generate_struct add_fields add_field add_value add_steps pad_to flush_format
    get_struct_format_char
sequence_unpacked = refl

-- Padding between two objects: a struct.unpack_from without a name to assign to.
pad_between_objects :
    (generate_struct
      (record { name = "flag"; type = Generator.class_type "Flag" 1; offset = 0 }
        ∷ record { name = "point"; type = Generator.class_type "Point2D" 8; offset = 4 }
        ∷ [])
      12).unpack_instructions
    ≡ unpack_object "flag" "Flag"
      ∷ unpack_single (pad 3 ∷ []) []
      ∷ unpack_object "point" "Point2D"
      ∷ []
unfolding generate_struct add_fields add_field add_value add_steps pad_to flush_format
pad_between_objects = refl

-- It is no valid Python.
pad_between_unread :
    read_spans (λ s. 8) (unpack_object "flag" "Flag" ∷ unpack_single (pad 3 ∷ []) [] ∷ []) 0 ≡ none
unfolding read_spans
pad_between_unread = refl

pack_wire_layout_example :
    (all_spans (map (written (λ f. 40)) (generate_struct sequence_fields 48).pack_instructions) 0
      ≡ ("cmd_id", 0, 4) ∷ ("num_steps", 4, 1) ∷ ("steps", 8, 40) ∷ [])
    × (total_size (map (written (λ f. 40)) (generate_struct sequence_fields 48).pack_instructions) 0
        ≡ 48)
unfolding get_struct_format_char
pack_wire_layout_example =
    pack_wire_layout (λ f. 40) (λ s. 8) sequence_fields 48 (refl, (refl, (refl, tt)))
      (tt, (tt, (refl, tt))) (omega arith, (omega arith, (omega arith, omega arith)))

format_char_width_example :
    (letter_size (get_struct_format_char (enumeration 2)) ≡ 2)
    ⊎ (((enumeration 2 ≡ enumeration 4) ⊎ (enumeration 2 ≡ floating 16))
        × (letter_size (get_struct_format_char (enumeration 2)) ≡ 1))
format_char_width_example = format_char_width (enumeration 2) (inr (inl refl))

-- The classes of MotorSequencePayload and of an array of its commands.
abbrev sub_cmd : CxxType
sub_cmd =
    class_type (chars "MotorSubCmd")
      (member (fundamental int16) (member (fundamental uint32) no_members))

abbrev motor_sequence : CxxType
motor_sequence = class_type (chars "ipc::MotorSequence<5, true>") (
    member (fundamental uint32)
      (member (fundamental uint8) (member (c_array sub_cmd 5) no_members)))

abbrev no_array_text : CxxType → ℕ → Bytes
no_array_text t n = []

-- The commands were declared before the sequence.
abbrev place : Bytes → ℕ
place name = if text_eq name (chars "MotorSubCmd") then 0 else 1

class_order :
    map
      (λ (c : Bytes × List Bytes). c.0)
      (generate_all no_array_text (motor_sequence ∷ sub_cmd ∷ []) no_output).classes
    ≡ chars "MotorSequence_5__true" ∷ chars "MotorSubCmd" ∷ []
unfolding generate_all generate_nested print_class get_python_type_name get_cxx_type_name
    strip_namespaces erase_first python_name replace_special pop_underscores refs
class_order = refl

-- The state data, with an enumeration as its member.
abbrev state_data : CxxType
state_data =
    class_type (chars "ipc::State<true>")
      (member (Types.enumeration (chars "sil::SystemState") (chars "SystemState")) no_members)

abbrev enum_ids : List Bytes
enum_ids = chars "MsgId" ∷ chars "Severity" ∷ chars "SystemState" ∷ chars "DriveMode" ∷ []

generate_all_once_example :
    let classes =
      (generate_all no_array_text
        (motor_sequence ∷ state_data ∷ [])
        (generate_enums enum_ids no_output)).classes in
    Ordered classes
    × All
        (λ m. printed m classes ≡ true)
        (all_refs no_array_text place enum_ids (motor_sequence ∷ state_data ∷ []))
unfolding Fits get_python_type_name get_cxx_type_name strip_namespaces erase_first python_name
    replace_special pop_underscores
generate_all_once_example =
    generate_all_once no_array_text place enum_ids (motor_sequence ∷ state_data ∷ []) 2
      (refl, (refl, (refl, (refl, tt))))
      (
        ((omega arith, refl), (tt, (tt, (((omega arith, refl), (tt, (tt, tt))), tt)))),
        (((omega arith, refl), (refl, tt)), tt),
      )
