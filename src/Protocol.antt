-- ===== src/Protocol.antt =====
-- The tables and sections of generator/doc_generator.h for some messages, against doc/ipc/protocol.md.
use reflect_pytest.Prelude.{◌≡◌, refl, ◌∷◌, [], chars, to_string, digits, text_eq, if◌then◌else◌}
use reflect_pytest.Messages.{MsgId}
use reflect_pytest.World.{motor}
use reflect_pytest.Bridge.{subscribes, publishes}
use reflect_pytest.App.{app_services}
use reflect_pytest.Generator.Types.{uint32, uint8, int16}
use reflect_pytest.Docs.Flow.{any_component, contains_msg, insert_name}
use reflect_pytest.Docs.Page.{direction, print_components, components_line, component_lines}
use reflect_pytest.Docs.Tables.{
  ClassDoc, DocType, DocFields, fundamental, array_of, structure, no_fields, field,
  cpp_type_name_str, field_row, field_rows, table, quotation, section_head, emit_md_struct_section,
  emit_field_table, field_sections, emit_md_payload_section, emit_md_enum_section, enumerator_rows,
  emit_components,
}
use reflect_pytest.Docs.Tables.Nested.{HaveSections, nested_documented}

abbrev environment_ack : ClassDoc
environment_ack = record {
  name = "EnvironmentAckPayload";
  description = "ACK sent by the application when it accepts new environment data.";
  size = 4;
}

environment_ack_section :
    emit_md_payload_section app_services MsgId.environment_ack environment_ack
      (field (record { name = "region_id"; size = 4; offset = 0 }) (fundamental uint32) no_fields)
    ≡ chars
        "<details>\n<summary><font size=\"+1\"><b>MsgId::EnvironmentAck (EnvironmentAckPayload)</b></font></summary>\n\n> ACK sent by the application when it accepts new environment data.\n\n**Direction:** `Outbound`<br>\n**Publishes:** `EnvironmentService`<br>\n**Wire size:** 4 bytes\n\n<table>\n  <thead>\n    <tr><th>Field</th><th>C++ Type</th><th>Py Type</th><th>Bytes</th><th>Offset</th></tr>\n  </thead>\n  <tbody>\n    <tr>\n      <td>region_id</td>\n      <td>uint32_t</td>\n      <td>int</td>\n      <td>4</td>\n      <td>0</td>\n    </tr>\n  </tbody>\n</table>\n\n</details>\n\n"
unfolding emit_md_payload_section emit_field_table emit_md_struct_section field_sections
    section_head quotation table field_rows field_row cpp_type_name_str to_string digits direction
    component_lines components_line print_components any_component contains_msg subscribes publishes
    insert_name
environment_ack_section = refl

abbrev sub_cmd_fields : DocFields
sub_cmd_fields =
    field (record { name = "speed_rpm"; size = 2; offset = 0 }) (fundamental int16)
      (field (record { name = "duration_us"; size = 4; offset = 4 }) (fundamental uint32) no_fields)

abbrev sub_cmd : DocType
sub_cmd =
    structure
      (record {
        name = "MotorSubCmd";
        description = "One timed motor command step, embedded in MotorSequencePayload.";
        size = 8;
      })
      sub_cmd_fields

abbrev array_fields : DocFields
array_fields =
    field (record { name = "_M_elems"; size = 40; offset = 0 }) (array_of sub_cmd 5) no_fields

abbrev sub_cmds : DocType
sub_cmds =
    structure (record { name = "std::array<MotorSubCmd, 5>"; description = ""; size = 40 })
      array_fields

abbrev sequence_fields : DocFields
sequence_fields =
    field (record { name = "cmd_id"; size = 4; offset = 0 }) (fundamental uint32)
      (field (record { name = "num_steps"; size = 1; offset = 4 }) (fundamental uint8)
        (field (record { name = "steps"; size = 40; offset = 8 }) sub_cmds no_fields))

abbrev motor_sequence : ClassDoc
motor_sequence = record {
  name = "MotorSequencePayloadTemplate<5>";
  description =
      "Deliver a sequence of up to 10 timed motor sub-commands to the simulator. The simulator executes steps[0..num_steps-1] in real time; a new command preempts any currently running sequence.";
  size = 48;
}

motor_sequence_section :
    emit_md_payload_section app_services MsgId.motor_sequence motor_sequence sequence_fields
    ≡ chars
        "<details>\n<summary><font size=\"+1\"><b>MsgId::MotorSequence (MotorSequencePayloadTemplate<5>)</b></font></summary>\n\n> Deliver a sequence of up to 10 timed motor sub-commands to the simulator. The simulator executes steps[0..num_steps-1] in real time; a new command preempts any currently running sequence.\n\n**Direction:** `Bidirectional`<br>\n**Publishes:** `AutonomousService`<br>\n**Subscribes:** `MotorService`<br>\n**Wire size:** 48 bytes\n\n<table>\n  <thead>\n    <tr><th>Field</th><th>C++ Type</th><th>Py Type</th><th>Bytes</th><th>Offset</th></tr>\n  </thead>\n  <tbody>\n    <tr>\n      <td>cmd_id</td>\n      <td>uint32_t</td>\n      <td>int</td>\n      <td>4</td>\n      <td>0</td>\n    </tr>\n    <tr>\n      <td>num_steps</td>\n      <td>uint8_t</td>\n      <td>int</td>\n      <td>1</td>\n      <td>4</td>\n    </tr>\n    <tr>\n      <td>steps</td>\n      <td>std::array<MotorSubCmd, 5></td>\n      <td>Any</td>\n      <td>40</td>\n      <td>8</td>\n    </tr>\n  </tbody>\n</table>\n\n#### Sub-struct: `std::array<MotorSubCmd, 5>`\n\n**Wire size:** 40 bytes\n\n<table>\n  <thead>\n    <tr><th>Field</th><th>C++ Type</th><th>Py Type</th><th>Bytes</th><th>Offset</th></tr>\n  </thead>\n  <tbody>\n    <tr>\n      <td>_M_elems</td>\n      <td>MotorSubCmd[5]</td>\n      <td>bytes</td>\n      <td>40</td>\n      <td>0</td>\n    </tr>\n  </tbody>\n</table>\n\n#### Sub-struct: `MotorSubCmd`\n\n> One timed motor command step, embedded in MotorSequencePayload.\n\n**Wire size:** 8 bytes\n\n<table>\n  <thead>\n    <tr><th>Field</th><th>C++ Type</th><th>Py Type</th><th>Bytes</th><th>Offset</th></tr>\n  </thead>\n  <tbody>\n    <tr>\n      <td>speed_rpm</td>\n      <td>int16_t</td>\n      <td>int</td>\n      <td>2</td>\n      <td>0</td>\n    </tr>\n    <tr>\n      <td>duration_us</td>\n      <td>uint32_t</td>\n      <td>int</td>\n      <td>4</td>\n      <td>4</td>\n    </tr>\n  </tbody>\n</table>\n\n</details>\n\n"
unfolding emit_md_payload_section emit_field_table emit_md_struct_section field_sections
    section_head quotation table field_rows field_row cpp_type_name_str to_string digits direction
    component_lines components_line print_components any_component contains_msg subscribes publishes
    insert_name
motor_sequence_section = refl

motor_service_paragraph :
    emit_components
      (λ c.
        "Reactive service that executes motor command sequences.\n\nThis service is responsible for stepping through a sequence of motor commands in response to `PhysicsTick` events, and reporting its status via `MotorStatus` messages.")
      (motor ∷ [])
    ≡ chars
        "### `MotorService`\n\n> Reactive service that executes motor command sequences.\n\nThis service is responsible for stepping through a sequence of motor commands in response to `PhysicsTick` events, and reporting its status via `MotorStatus` messages.\n\n"
unfolding emit_components
motor_service_paragraph = refl

severity_section :
    emit_md_enum_section "Severity" uint8 "" (("Debug", 0) ∷ ("Info", 1) ∷ [])
    ≡ chars
        "### `Severity` (`uint8_t`)\n\n| Enumerator | Value |\n|---|---|\n| `Debug` | `0` |\n| `Info` | `1` |\n\n"
unfolding emit_md_enum_section enumerator_rows quotation to_string digits
severity_section = refl

nested_documented_example :
    HaveSections sequence_fields
      (emit_field_table sequence_fields (record { visited = []; out = [] })).out
nested_documented_example =
    nested_documented
      (λ name. if text_eq name (chars "MotorSubCmd") then sub_cmd_fields else array_fields)
      sequence_fields (tt, (tt, ((refl, ((refl, (tt, (tt, tt))), tt)), tt)))
