-- ===== src/Docs/Document.antt =====
-- generator/generate_docs.cpp: the whole document.
use Prim.Native.String.{String}
use reflect_pytest.Prelude.{Bool, List, [], ◌∷◌, ◌++◌, chars}
use reflect_pytest.Messages.{MsgId}
use reflect_pytest.World.{Service}
use reflect_pytest.Docs.Text.{Bytes}
use reflect_pytest.Docs.Flow.{message_ids}
use reflect_pytest.Docs.Dot.{Written, write_graphviz_flow_dot_file}
use reflect_pytest.Docs.Tables.{ClassDoc, DocFields, emit_components, emit_payloads}

-- The text before the wire format; the dashes are in UTF-8.
abbrev front_matter : List Bytes
front_matter =
    chars "# IPC Protocol Reference\n"
    ∷ chars "\n"
    ∷ chars "[Home](../../README.md)\n"
    ∷ chars "\n"
    ∷ chars
        "> **Auto-generated** by `generate_docs` using C++26 static reflection (P2996 + P3394).\n"
    ∷ chars "> Do not edit by hand "
    ∷ (226 ∷ 128 ∷ 148 ∷ [])
    ∷ chars " re-run `cmake --build build --target generate_docs` to refresh.\n"
    ∷ chars "\n"
    ∷ chars "## System Architecture\n"
    ∷ chars "\n"
    ∷ chars "The complete system architecture, wire format, and message flow are detailed below.\n"
    ∷ chars "\n"
    ∷ chars "![IPC Flow Diagram](ipc_flow.svg)\n"
    ∷ chars "\n"
    ∷ chars "### How to Read the Diagram\n"
    ∷ chars "\n"
    ∷ chars "The architecture is divided into three logical vertical layers:\n"
    ∷ chars "\n"
    ∷ chars
        "1.  **Test Harness (Left)**: The `pytest` environment. Test cases use the `UdpClient` to orchestrate scenarios, sending commands and receiving telemetry via the auto-generated Python bindings.\n"
    ∷ chars
        "2.  **Network Layer (Middle)**: The UDP transport bridging the two processes. It shows the explicit socket mapping (Port 9000 for Inbound SIL traffic, Port 9001 for Outbound) handled by the host OS.\n"
    ∷ chars
        "3.  **Simulator (Right)**: The C++ `sil_app`. The `UdpBridge` acts as a gateway, translating UDP packets into internal `MessageBus` events which are then routed to decoupled services.\n"
    ∷ chars "\n"
    ∷ chars "**Legend**:\n"
    ∷ chars
        "- **Solid White Lines**: External UDP socket traffic between the harness and the bridge.\n"
    ∷ chars "- **Dotted Slate Lines**: Internal C++ `MessageBus` Publish/Subscribe routing.\n"
    ∷ chars "- **Colored Nodes**: Services and components grouped by their logical domain.\n"
    ∷ chars "\n"
    ∷ []

-- The text on the wire format and the threads.
abbrev wire_format : List Bytes
wire_format =
    chars "**Wire format:** Every datagram starts with a `uint16_t` message ID (host-byte\n"
    ∷ chars "order) followed immediately by the fixed-size payload struct (packed, no padding).\n"
    ∷ chars "If `sizeof(received payload) != sizeof(Payload)` the message is silently discarded.\n"
    ∷ chars "\n"
    ∷ chars "**Threads (C++ side):**\n"
    ∷ chars "\n"
    ∷ chars "| Thread | Purpose | Location |\n"
    ∷ chars "|---|---|---|\n"
    ∷ chars "| `main` | Entry point; waits on shutdown signal (futex wait) | `main.cpp` |\n"
    ∷ chars "| `heartbeat` | Publishes standard \"Heartbeat\" logs every 500ms | `main.cpp` |\n"
    ∷ chars "| `bus-listener` | Listens to AF_UNIX socket for message routing | `MessageBus` |\n"
    ∷ chars "| `bridge-rx` | Receives and injects UDP packets into the local bus | `UdpBridge` |\n"
    ∷ chars
        "| `sim-clock` | **100Hz Heartbeat**: Drives physics ticks for all services | `StateService` |\n"
    ∷ chars "| `log-worker` | Async processing: prints logs and publishes to bus | `LogService` |\n"
    ∷ chars "\n"
    ∷ chars "---\n"
    ∷ []

-- The text at the end.
abbrev footer : List Bytes
footer =
    chars "---\n"
    ∷ chars "\n"
    ∷ chars "## Regenerating This File\n"
    ∷ chars "\n"
    ∷ chars "```bash\n"
    ∷ chars "# From the repo root:\n"
    ∷ chars "cmake -B build -G Ninja\n"
    ∷ chars "cmake --build build --target generate_docs\n"
    ∷ chars "# Output: doc/ipc/protocol.md\n"
    ∷ chars "```\n"
    ∷ chars "\n"
    ∷ chars "_Generated with GCC trunk `-std=c++26 -freflection` (P2996R13 + P3394R4)._\n"
    ∷ []

unfoldable pub pieces : List Bytes → Bytes
pieces [] = []
pieces (t ∷ ts) = t ++ pieces ts

-- What main prints.
unfoldable pub print_document :
    (Service → String) → List Service → (MsgId → ClassDoc) → (MsgId → DocFields) → Bytes
unfolding pieces emit_components emit_payloads
print_document get_desc cs payload fields =
    pieces front_matter
    ++ (pieces wire_format
        ++ (chars
              "---\n\n## Component Services\n\nThe application is composed of the following services:\n\n"
            ++ (emit_components get_desc cs
                ++ (chars
                      "---\n\n## Message Payloads\n\nEach section corresponds to one `MsgId` enumerator. The **direction badge** shows which side initiates the message.\n\n"
                    ++ (emit_payloads cs payload fields message_ids ++ pieces footer)))))

-- main, with the path of the diagram and whether it can be opened: the document is printed in any case.
unfoldable pub generate_docs :
    (Service → String)
    → List Service
    → (MsgId → ClassDoc)
    → (MsgId → DocFields)
    → Bytes
    → Bool
    → Written × Bytes
unfolding write_graphviz_flow_dot_file print_document
generate_docs get_desc cs payload fields dot_path opens = (
  write_graphviz_flow_dot_file (λ c. chars (get_desc c)) cs dot_path opens,
  print_document get_desc cs payload fields,
)
