-- ===== src/Generated.antt =====
-- The output of the generator, against tests/python/reflect_pytest/generated.py.
use reflect_pytest.Prelude.{◌≡◌, refl, List, [], ◌∷◌, false, chars, to_string, digits}
use reflect_pytest.Generator.{
  integral, other, scalar, std_array, generate_struct, add_fields, add_field, add_value, add_steps,
  pad_to, flush_format, get_struct_format_char,
}
use reflect_pytest.Generator.Source.{
  pack_step_text, unpack_step_text, lines_text, loop_lines, items_text, item_text, args_text,
}
use reflect_pytest.Generator.Source.Classes.{
  StructInfo, Row, generate_enum, class_text, class_body, empty_body, metadata_lines, size_lines,
  member_lines, pack_steps_text, unpack_steps_text, keyword_args, docstring, enumerator_lines,
}

abbrev motor_sequence : StructInfo
motor_sequence = record {
  class_name = "MotorSequencePayloadTemplate_5";
  description =
      "Deliver a sequence of up to 10 timed motor sub-commands to the simulator. The simulator executes steps[0..num_steps-1] in real time; a new command preempts any currently running sequence.";
  size = 48;
  members =
      record {
        field = record { name = "cmd_id"; type = scalar (integral false 4); offset = 0 };
        enum_name = "";
        description = "";
      }
      ∷ record {
        field = record { name = "num_steps"; type = scalar (integral false 1); offset = 4 };
        enum_name = "";
        description = "";
      }
      ∷ record {
        field = record { name = "steps"; type = std_array (other "MotorSubCmd" 8) 5; offset = 8 };
        enum_name = "";
        description = "";
      }
      ∷ [];
}

motor_sequence_class :
    class_text motor_sequence
    ≡ chars
        "@dataclass\nclass MotorSequencePayloadTemplate_5:\n    \"\"\"Deliver a sequence of up to 10 timed motor sub-commands to the simulator. The simulator executes steps[0..num_steps-1] in real time; a new command preempts any currently running sequence.\"\"\"\n    WIRE_SIZE = 48\n    cmd_id: int\n    num_steps: int\n    steps: list[MotorSubCmd]\n\n    def pack_wire(self) -> bytes:\n        data = bytearray()\n        data.extend(struct.pack(\"<IB3x\", self.cmd_id, self.num_steps))\n        for item in self.steps:\n            if not hasattr(item, 'pack_wire'):\n                if isinstance(item, tuple):\n                    item = MotorSubCmd(*item)\n                elif isinstance(item, dict):\n                    item = MotorSubCmd(**item)\n                else:\n                    item = MotorSubCmd(item)\n            data.extend(item.pack_wire())\n        return bytes(data)\n\n    @classmethod\n    def unpack_wire(cls, data: bytes) -> \"MotorSequencePayloadTemplate_5\":\n        offset = 0\n        cmd_id, num_steps = struct.unpack_from(\"<IB3x\", data, offset)\n        offset += struct.calcsize(\"<IB3x\")\n        steps = []\n        for _ in range(5):\n            sub_size = MotorSubCmd.WIRE_SIZE\n            item = MotorSubCmd.unpack_wire(data[offset:offset+sub_size])\n            steps.append(item)\n            offset += sub_size\n        return cls(cmd_id=cmd_id, num_steps=num_steps, steps=steps)\n\n"
unfolding class_text class_body member_lines pack_steps_text unpack_steps_text keyword_args
    docstring pack_step_text unpack_step_text lines_text loop_lines items_text item_text args_text
    generate_struct add_fields add_field add_value add_steps pad_to flush_format
    get_struct_format_char to_string digits
motor_sequence_class = refl

severity :
    generate_enum (record {
      name = "Severity";
      description = "";
      enumerators = ("Debug", 0) ∷ ("Info", 1) ∷ ("Warn", 2) ∷ ("Error", 3) ∷ [];
    })
    ≡ chars "class Severity(IntEnum):\n    Debug = 0\n    Info = 1\n    Warn = 2\n    Error = 3\n\n"
unfolding generate_enum enumerator_lines docstring to_string digits
severity = refl

drive_mode :
    generate_enum (record {
      name = "DriveMode";
      description = "Control strategy for the autonomous service.";
      enumerators = ("Eco", 0) ∷ ("Performance", 1) ∷ ("ManualTuning", 2) ∷ [];
    })
    ≡ chars
        "class DriveMode(IntEnum):\n    \"\"\"Control strategy for the autonomous service.\"\"\"\n    Eco = 0\n    Performance = 1\n    ManualTuning = 2\n\n"
unfolding generate_enum enumerator_lines docstring to_string digits
drive_mode = refl

abbrev rows : List Row
rows =
    record { message = "Log"; class_name = "LogPayload"; size = 288 }
    ∷ record { message = "PhysicsTick"; class_name = "PhysicsTickPayload"; size = 12 }
    ∷ []

tables :
    (metadata_lines rows
      ≡ chars "    MsgId.Log: LogPayload,\n    MsgId.PhysicsTick: PhysicsTickPayload,\n")
    × (size_lines rows ≡ chars "    MsgId.Log: 288,\n    MsgId.PhysicsTick: 12,\n")
unfolding metadata_lines size_lines to_string digits
tables = (refl, refl)

-- A struct without members.
empty_class :
    class_text (record { class_name = "Empty"; description = ""; size = 1; members = [] })
    ≡ chars
        "@dataclass\nclass Empty:\n    WIRE_SIZE = 1\n    pass\n\n    def pack_wire(self) -> bytes:\n        return b\"\"\n\n    @classmethod\n    def unpack_wire(cls, data: bytes) -> \"Empty\":\n        return cls()\n\n"
unfolding class_text empty_body docstring to_string digits
empty_class = refl
