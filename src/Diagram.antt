-- ===== src/Diagram.antt =====
-- The diagram that generator/doc_generator.h writes for the application, against doc/ipc/ipc_flow.dot.
use reflect_pytest.Prelude.{◌≡◌, refl, All, false, chars}
use reflect_pytest.World.{
  Service, motor, kinematics, power, state, thermal, environment, autonomous, log, udp_bridge,
}
use reflect_pytest.App.{app_services}
use reflect_pytest.Bridge.{subscribes, publishes}
use reflect_pytest.Docs.Text.{
  Bytes, html_escape, html_escape_char, wrap_words, wrap_loop, flush_word, place_word,
  first_sentence, find, dot_id, id_chars, dot_escape_label, dot_escape_char,
}
use reflect_pytest.Docs.Flow.{
  component_id, emit_edges, emit_edge, build_label, collect_all, collect_msg_edges, message_ids,
  no_traffic, any_component, contains_msg, insert_name, insert_edge, collect_inbound_edges,
  collect_outbound_edges, collect_internal_edges, collect_internal_edges_impl,
}
use reflect_pytest.Docs.Dot.{
  emit_graphviz_flow_dot, text_lines, emit_nodes, emit_node, node_lines, description_lines,
  emit_inbound, emit_outbound, write_graphviz_flow_dot_file,
}
use reflect_pytest.Docs.Dot.Arrows.{IsDrawn, fixed_arrows, arrows-IsDrawn}
use reflect_pytest.Docs.Flow.Edges.{in_tuple}

-- The DOC_DESCs of src/services/*.h and src/udp_bridge.h.
abbrev descriptions : Service → Bytes
descriptions motor =
    chars
      "Reactive service that executes motor command sequences.\n\nThis service is responsible for stepping through a sequence of motor commands in response to `PhysicsTick` events, and reporting its status via `MotorStatus` messages."
descriptions kinematics =
    chars
      "Simulates vehicle motion by integrating motor RPM over time to track position and linear velocity.\n\nThe physics model applies a linear conversion from RPM to meters-per-second, and integrates this velocity over the `PhysicsTick` delta-time to continuously evaluate the vehicle's position:\n\n$$ v = \\text{RPM} \\times 0.01 \\text{ (m/s)} $$\n\n$$ x = \\int v \\, dt $$"
descriptions power =
    chars
      "Models a simple battery pack dynamically responding to motor load.\n\nThe simulation estimates motor current draw from speed using a non-linear power-law curve, then applies Ohm's law over the internal resistance to calculate the per-tick voltage drop. The state of charge (SOC) is linearly interpolated between the maximum and minimum voltage limits.\n\n$$ I = I_{idle} + k\\,|\\mathrm{RPM}|^{p} \\quad (\\mathrm{A}) $$\n\n$$ V \\mathrel{-}= I\\,R_{int}\\,\\Delta t $$\n\n$$ SOC = \\frac{V - V_{min}}{V_{max} - V_{min}} \\times 100 $$"
descriptions state =
    chars
      "Maintains the central lifecycle state machine and the master simulation clock.\n\nThis component tracks the system state and generates the 100Hz `PhysicsTick` heartbeat that drives all other simulation services."
descriptions thermal =
    chars
      "Simulates basic motor and battery temperature dynamics.\n\nOn each physics tick, the service updates motor and battery temperatures using a simple first-order heat balance: a speed-proportional heat generation term minus a linear cooling term to ambient. Ambient temperature is updated from EnvironmentData. A ThermalRequest publishes the latest temperatures.\n\nMotor model:\n$$ \\dot{T}_m = q_m - c_m \\,(T_m - T_a) $$\n$$ q_m = 0.005\\,|\\mathrm{RPM}|,\\quad c_m = 0.05 $$\n\nBattery model:\n$$ \\dot{T}_b = q_b - c_b \\,(T_b - T_a) $$\n$$ q_b = 0.002\\,|\\mathrm{RPM}|,\\quad c_b = 0.02 $$\n\nDiscrete update per tick (for each body):\n$$ T \\leftarrow T + \\bigl(\\dot{T}\\bigr)\\,\\Delta t $$\n\nWhere $T_a$ is ambient temperature from EnvironmentData, and $\\Delta t$ is the physics timestep in seconds."
descriptions environment =
    chars
      "Centralized service for managing environmental simulation data.\n\nIt maintains a spatial cache of environmental regions (temperature, incline, friction) and provides efficient, lifetime-tracked access to this data via in-process bus messages. By publishing InternalEnvData messages containing std::shared_ptr, it allows consumers like AutonomousService to access stable map regions without data copying or direct component coupling."
descriptions autonomous =
    chars
      "High-level autonomous driving service executing a waypoint (node) route.\n\nThe service accepts an AutoDriveCommand containing a list of ManeuverNodes (1D x targets). While a route is active, it periodically requests Kinematics and Power data on each physics tick, decides when the current node has been reached, and publishes MotorSequence commands to drive toward the node."
descriptions log =
    chars
      "Asynchronous logging sink.\n\nCollects LogPayloads into a queue and processes them on a background thread to avoid blocking simulation services."
descriptions udp_bridge =
    chars
      "Stateful bridge that relays IPC messages between the internal MessageBus and external UDP clients.\n\nIt remembers the IP address and port of the last connected test harness and bidirectionally routes all subscribed C++ events out through the UDP socket while safely injecting incoming UDP datagrams onto the internal MessageBus."

application_diagram :
    emit_graphviz_flow_dot descriptions app_services
    ≡ chars
        "digraph IPC {\n  rankdir=LR;\n  bgcolor=\"#0F172A\";\n  pad=0.22;\n  nodesep=0.62;\n  ranksep=0.70;\n  splines=spline;\n  remincross=true;\n\n  fontname=\"Helvetica,Arial,sans-serif\";\n  fontsize=52;\n  fontcolor=\"#F1F5F9\";\n  label=<<B>System Architecture and Message Flow</B>>;\n  labelloc=\"t\";\n\n  node [\n    fontname=\"Helvetica,Arial,sans-serif\",\n    shape=rect,\n    style=\"filled,rounded\",\n    fixedsize=false,\n    margin=\"0.12,0.08\",\n    fontsize=28,\n    fontcolor=\"#FFFFFF\",\n    penwidth=4,\n    color=\"#F1F5F9\"\n  ];\n\n  edge [\n    fontname=\"Helvetica,Arial,sans-serif\",\n    fontsize=22,\n    fontcolor=\"#CBD5E1\",\n    color=\"#64748B\",\n    penwidth=3.0,\n    arrowsize=1.4,\n    labelfloat=false,\n    labeldistance=0.8,\n    labelangle=10\n  ];\n\n  // --- Simulator ---\n  subgraph cluster_sim {\n    label=<<B><FONT POINT-SIZE=\"40\">Simulator</FONT></B>>;\n    fontcolor=\"#F1F5F9\";\n    style=\"rounded,filled\";\n    color=\"#475569\";\n    penwidth=4;\n    fillcolor=\"#1E293B\";\n    margin=34;\n    MotorService [\n      fillcolor=\"#0369A1\",\n      label=<<B><FONT POINT-SIZE=\"30\">MotorService</FONT></B><BR/><FONT POINT-SIZE=\"24\">Reactive service that executes motor<BR/>command sequences.</FONT>>\n    ];\n    KinematicsService [\n      fillcolor=\"#0369A1\",\n      label=<<B><FONT POINT-SIZE=\"30\">KinematicsService</FONT></B><BR/><FONT POINT-SIZE=\"24\">Simulates vehicle motion by integrating<BR/>motor RPM over time to track position<BR/>and linear velocity.</FONT>>\n    ];\n    PowerService [\n      fillcolor=\"#0369A1\",\n      label=<<B><FONT POINT-SIZE=\"30\">PowerService</FONT></B><BR/><FONT POINT-SIZE=\"24\">Models a simple battery pack dynamically<BR/>responding to motor load.</FONT>>\n    ];\n    StateService [\n      fillcolor=\"#0369A1\",\n      label=<<B><FONT POINT-SIZE=\"30\">StateService</FONT></B><BR/><FONT POINT-SIZE=\"24\">Maintains the central lifecycle state<BR/>machine and the master simulation clock.</FONT>>\n    ];\n    ThermalService [\n      fillcolor=\"#0369A1\",\n      label=<<B><FONT POINT-SIZE=\"30\">ThermalService</FONT></B><BR/><FONT POINT-SIZE=\"24\">Simulates basic motor and battery<BR/>temperature dynamics.</FONT>>\n    ];\n    EnvironmentService [\n      fillcolor=\"#0369A1\",\n      label=<<B><FONT POINT-SIZE=\"30\">EnvironmentService</FONT></B><BR/><FONT POINT-SIZE=\"24\">Centralized service for managing<BR/>environmental simulation data.</FONT>>\n    ];\n    AutonomousService [\n      fillcolor=\"#0369A1\",\n      label=<<B><FONT POINT-SIZE=\"30\">AutonomousService</FONT></B><BR/><FONT POINT-SIZE=\"24\">High-level autonomous driving service<BR/>executing a waypoint (node) route.</FONT>>\n    ];\n    LogService [\n      fillcolor=\"#0369A1\",\n      label=<<B><FONT POINT-SIZE=\"30\">LogService</FONT></B><BR/><FONT POINT-SIZE=\"24\">Asynchronous logging sink.</FONT>>\n    ];\n    UdpBridge [\n      fillcolor=\"#0F766E\",\n      label=<<B><FONT POINT-SIZE=\"38\">UdpBridge</FONT></B><BR/><FONT POINT-SIZE=\"26\">Stateful bridge that relays IPC messages<BR/>between the internal MessageBus and<BR/>external UDP clients.</FONT>>\n    ];\n  }\n\n  // --- Network Layer bounding box (TX/RX) ---\n  subgraph cluster_sockets {\n    label=<<B><FONT POINT-SIZE=\"40\">Network Layer</FONT></B>>;\n    fontcolor=\"#F1F5F9\";\n    style=\"rounded,filled\";\n    color=\"#F59E0B\";\n    penwidth=6;\n    fillcolor=\"#2A1B07\";\n    margin=24;\n\n    { rank=same; TX; RX; }\n\n    TX [\n      fillcolor=\"#B45309\",\n      label=<<B><FONT POINT-SIZE=\"30\">TX Socket</FONT></B><BR/><FONT POINT-SIZE=\"24\">Port 9000 (SIL Inbound)</FONT>>\n    ];\n    RX [\n      fillcolor=\"#B45309\",\n      label=<<B><FONT POINT-SIZE=\"30\">RX Socket</FONT></B><BR/><FONT POINT-SIZE=\"24\">Port 9001 (SIL Outbound)</FONT>>\n    ];\n\n    TX -> RX [style=invis, weight=50, constraint=false];\n  }\n\n  // --- Test Harness bounding box ---\n  subgraph cluster_fixtures {\n    label=<<B><FONT POINT-SIZE=\"40\">Test Harness</FONT></B>>;\n    fontcolor=\"#F1F5F9\";\n    style=\"rounded,filled\";\n    color=\"#22C55E\";\n    penwidth=6;\n    fillcolor=\"#0B2A20\";\n    margin=24;\n\n    TestCase [\n      fillcolor=\"#047857\",\n      label=<<B><FONT POINT-SIZE=\"34\">Test Case / Fixtures</FONT></B>>\n    ];\n  }\n\n  TestCase -> TX [label=\"send_msg\", color=\"#F1F5F9\", penwidth=5];\n  TX -> UdpBridge [label=\"Inbound Traffic:\\nAutoDriveCommand, EnvironmentData\\nKinematicsData, KinematicsRequest\\nMotorSequence, PowerData\\nPowerRequest, StateRequest\\nThermalRequest\", color=\"#F1F5F9\", penwidth=5, fontsize=25];\n\n  // Internal Simulator Logic\n  AutonomousService -> EnvironmentService [label=\"InternalEnvRequest\", style=dashed];\n  AutonomousService -> UdpBridge [label=\"AutoDriveStatus, KinematicsRequest\\nMotorSequence, PowerRequest\", style=dashed];\n  EnvironmentService -> AutonomousService [label=\"InternalEnvData\", style=dashed];\n  EnvironmentService -> UdpBridge [label=\"EnvironmentAck, EnvironmentRequest\", style=dashed];\n  KinematicsService -> UdpBridge [label=\"KinematicsData\", style=dashed];\n  LogService -> UdpBridge [label=\"Log\", style=dashed];\n  MotorService -> KinematicsService [label=\"MotorStatus\", style=dashed];\n  MotorService -> PowerService [label=\"MotorStatus\", style=dashed];\n  MotorService -> StateService [label=\"MotorStatus\", style=dashed];\n  PowerService -> UdpBridge [label=\"PowerData\", style=dashed];\n  StateService -> AutonomousService [label=\"PhysicsTick\", style=dashed];\n  StateService -> KinematicsService [label=\"PhysicsTick\", style=dashed];\n  StateService -> MotorService [label=\"PhysicsTick\", style=dashed];\n  StateService -> PowerService [label=\"PhysicsTick\", style=dashed];\n  StateService -> ThermalService [label=\"PhysicsTick\", style=dashed];\n  StateService -> UdpBridge [label=\"StateData\", style=dashed];\n  ThermalService -> UdpBridge [label=\"ThermalData\", style=dashed];\n  UdpBridge -> AutonomousService [label=\"AutoDriveCommand, KinematicsData\\nPowerData\", style=dashed];\n  UdpBridge -> EnvironmentService [label=\"EnvironmentData\", style=dashed];\n  UdpBridge -> KinematicsService [label=\"KinematicsRequest\", style=dashed];\n  UdpBridge -> MotorService [label=\"MotorSequence\", style=dashed];\n  UdpBridge -> PowerService [label=\"PowerRequest\", style=dashed];\n  UdpBridge -> StateService [label=\"StateRequest\", style=dashed];\n  UdpBridge -> ThermalService [label=\"EnvironmentData, ThermalRequest\", style=dashed];\n\n  // Flow: Simulator -> Network -> Test Harness\n  RX -> UdpBridge [label=\"Outbound Traffic:\\nAutoDriveStatus, EnvironmentAck\\nEnvironmentRequest, KinematicsData\\nKinematicsRequest, Log\\nMotorSequence, PowerData\\nPowerRequest, StateData\\nThermalData\", color=\"#F1F5F9\", penwidth=5, dir=back, fontsize=25, arrowtail=normal];\n  TestCase -> RX [label=\"recv_msg\", color=\"#F1F5F9\", penwidth=5, dir=back, arrowtail=normal];\n}\n"
unfolding emit_graphviz_flow_dot text_lines emit_nodes emit_node node_lines description_lines
    emit_inbound emit_outbound html_escape html_escape_char wrap_words wrap_loop flush_word
    place_word first_sentence find dot_id id_chars component_id emit_edges emit_edge build_label
    dot_escape_label dot_escape_char collect_all collect_msg_edges any_component contains_msg
    subscribes publishes insert_name insert_edge collect_inbound_edges collect_outbound_edges
    collect_internal_edges collect_internal_edges_impl
application_diagram = refl

arrows-IsDrawn_example :
    let text = emit_graphviz_flow_dot descriptions app_services in
    All (IsDrawn text) fixed_arrows
    × All (λ e. IsDrawn text e.0) (collect_all app_services message_ids no_traffic).edges
unfolding component_id dot_id id_chars in_tuple
arrows-IsDrawn_example = arrows-IsDrawn descriptions app_services refl

-- The file cannot be opened.
not_opened :
    (write_graphviz_flow_dot_file descriptions app_services
      (chars "out/ipc_flow.dot")
      false).standard_error
    ≡ chars "generate_docs: failed to open DOT output: out/ipc_flow.dot\n"
unfolding write_graphviz_flow_dot_file
not_opened = refl
