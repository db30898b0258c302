-- ===== src/Objects.antt =====
-- The generated class of MotorSequencePayload (messages/simulation_msgs.h) on an object: the generator
-- is generator/python_code_generator.h. And a format of the class, read back.
use reflect_pytest.Docs.Text.{Bytes}
use reflect_pytest.Generator.{
  integral, other, scalar, std_array, Field, char, pad, letter_ui, letter_ub, generate_struct,
  add_fields, add_field, add_value, add_steps, pad_to, flush_format, get_struct_format_char,
}
use reflect_pytest.Generator.Python.{letter_size}
use reflect_pytest.Generator.Source.{items_text}
use reflect_pytest.Generator.Source.Formats.{read_items, read_items-items_text}
use reflect_pytest.Generator.Values.{
  Python, Attribute, Locals, number_value, list_value, pack_wire, unpack_wire, run_pack,
  run_pack_step, pack_items, extend_all,
}
use reflect_pytest.Generator.Values.Shapes.{Shaped}
use reflect_pytest.Generator.Values.AnyBytes.{unpack_wire-Shaped}
use reflect_pytest.Generator.Values.RoundTrip.{pack_wire-unpack_wire}
use reflect_pytest.Prelude.{
  ℕ, zero, suc, ◌+◌, ◌*◌, ◌^◌, ◌/◌, ◌%◌, ◌≡◌, refl, true, false, if◌then◌else◌, ltb, some, none,
  List, [], ◌∷◌, ◌++◌, chars, text_eq, arith, replicate,
}

-- Unsigned numbers, little-endian, as "<" selects.
abbrev little : ℕ → ℕ → Bytes
little zero v = []
little (suc n) v = v % 256 ∷ little n (v / 256)

abbrev big : Bytes → ℕ
big [] = 0
big (b ∷ bytes) = b + 256 * big bytes

-- Objects of one class with eight bytes, each a number here.
abbrev numbers : Python
numbers = record {
  Number = ℕ;
  Object = ℕ;
  pack_letter =
      λ l v. if ltb v (256 ^ letter_size l) then some (little (letter_size l) v) else none;
  unpack_letter = λ l bytes. big bytes;
  has_pack_wire = λ o. true;
  construct = λ sub_type o. none;
  pack_object = λ o. some (little 8 o);
  unpack_class = λ sub_type bytes. some (big bytes);
  wire_size = λ sub_type. 8;
}

abbrev sequence_fields : List Field
sequence_fields =
    record { name = "cmd_id"; type = scalar (integral false 4); offset = 0 }
    ∷ record { name = "num_steps"; type = scalar (integral false 1); offset = 4 }
    ∷ record { name = "steps"; type = std_array (other "MotorSubCmd" 8) 2; offset = 8 }
    ∷ []

abbrev two_steps : Bytes → Attribute numbers
two_steps name =
    if text_eq name (chars "cmd_id")
    then number_value 258
    else if text_eq name (chars "num_steps")
    then number_value 2
    else list_value (7 ∷ 65536 ∷ [])

two_steps_packed :
    pack_wire numbers sequence_fields 24 two_steps
    ≡ some (
        2 ∷ 1 ∷ 0 ∷ 0 ∷ 2 ∷ 0 ∷ 0 ∷ 0 ∷ 7 ∷ 0 ∷ 0 ∷ 0 ∷ 0 ∷ 0 ∷ 0 ∷ 0 ∷ 0 ∷ 0 ∷ 1 ∷ 0 ∷ 0 ∷ 0 ∷ 0
        ∷ 0 ∷ [])
unfolding pack_wire run_pack run_pack_step pack_items extend_all generate_struct add_fields
    add_field add_value add_steps pad_to flush_format get_struct_format_char
two_steps_packed = refl

pack_wire-unpack_wire_example :
    (bytes : Bytes) × (pack_wire numbers sequence_fields 24 two_steps ≡ some bytes)
    × ((rest : Bytes)
        → unpack_wire numbers sequence_fields 24 (bytes ++ rest)
          ≡ some (
              (chars "cmd_id", number_value 258)
              ∷ (chars "num_steps", number_value 2)
              ∷ (chars "steps", list_value (7 ∷ 65536 ∷ []))
              ∷ []))
unfolding generate_struct add_fields add_field add_value add_steps pad_to flush_format
    get_struct_format_char
pack_wire-unpack_wire_example =
    pack_wire-unpack_wire numbers two_steps sequence_fields 24
      (
        (2 ∷ 1 ∷ 0 ∷ 0 ∷ [], refl, refl, refl),
        (
          (2 ∷ [], refl, refl, refl),
          (
            (
              refl,
              (
                (refl, (little 8 7, refl, refl, refl)),
                ((refl, (little 8 65536, refl, refl, refl)), tt),
              ),
            ),
            tt,
          ),
        ),
      )
      (refl, (refl, (refl, tt))) (tt, (tt, tt))

-- "IB3x"
read_items-items_text_example :
    read_items 3 (items_text (char letter_ui ∷ char letter_ub ∷ pad 3 ∷ []))
    ≡ some (char letter_ui ∷ char letter_ub ∷ pad 3 ∷ [])
read_items-items_text_example =
    read_items-items_text (char letter_ui ∷ char letter_ub ∷ pad 3 ∷ [])
      (tt, (tt, (omega arith, tt)))

-- Bytes that no object was packed to.
unpack_wire-Shaped_example :
    (values : Locals numbers) × (unpack_wire numbers sequence_fields 24 (replicate 24 9)
      ≡ some values)
    × Shaped numbers sequence_fields values
unfolding generate_struct add_fields add_field add_value add_steps pad_to flush_format
    get_struct_format_char
unpack_wire-Shaped_example =
    unpack_wire-Shaped numbers sequence_fields 24 (tt, (tt, ((λ bytes h. (big bytes, refl)), tt)))
      (refl, (refl, (refl, tt))) (refl, (refl, (refl, tt))) (tt, (tt, tt))
      (refl, (refl, (refl, tt))) (omega arith, (omega arith, (omega arith, omega arith)))
      (replicate 24 9) (omega arith)
