-- ===== src/Docs/Dot.antt =====
-- generator/doc_generator.h: the text of the diagram, and its file.
pub mod Declared
pub mod Arrows
use Prim.Native.String.{String}
use reflect_pytest.Prelude.{
  if◌then◌else◌, ◌==◌, Bool, true, false, List, [], ◌∷◌, ◌++◌, length, chars,
}
use reflect_pytest.Messages.{MsgId}
use reflect_pytest.World.{Service, udp_bridge}
use reflect_pytest.Docs.Text.{Bytes, html_escape, dot_escape_label, wrap_words, first_sentence}
use reflect_pytest.Docs.Flow.{
  component_name, component_id, is_bridge, Names, Traffic, build_label, emit_edges, collect_all,
  no_traffic, message_ids,
}

-- Lines of fixed text.
unfoldable pub text_lines : List String → Bytes
text_lines [] = []
text_lines (l ∷ ls) = chars l ++ (chars "\n" ++ text_lines ls)

-- The attributes of the graph.
abbrev pub graph_lines : List String
graph_lines =
    "digraph IPC {" ∷ "  rankdir=LR;" ∷ "  bgcolor=\"#0F172A\";" ∷ "  pad=0.22;" ∷ "  nodesep=0.62;"
    ∷ "  ranksep=0.70;" ∷ "  splines=spline;" ∷ "  remincross=true;" ∷ ""
    ∷ "  fontname=\"Helvetica,Arial,sans-serif\";" ∷ "  fontsize=52;" ∷ "  fontcolor=\"#F1F5F9\";"
    ∷ "  label=<<B>System Architecture and Message Flow</B>>;" ∷ "  labelloc=\"t\";" ∷ "" ∷ []

-- The attributes of nodes and edges.
abbrev pub style_lines : List String
style_lines =
    "  node [" ∷ "    fontname=\"Helvetica,Arial,sans-serif\"," ∷ "    shape=rect,"
    ∷ "    style=\"filled,rounded\"," ∷ "    fixedsize=false," ∷ "    margin=\"0.12,0.08\","
    ∷ "    fontsize=28," ∷ "    fontcolor=\"#FFFFFF\"," ∷ "    penwidth=4,"
    ∷ "    color=\"#F1F5F9\"" ∷ "  ];" ∷ "" ∷ "  edge ["
    ∷ "    fontname=\"Helvetica,Arial,sans-serif\"," ∷ "    fontsize=22,"
    ∷ "    fontcolor=\"#CBD5E1\"," ∷ "    color=\"#64748B\"," ∷ "    penwidth=3.0,"
    ∷ "    arrowsize=1.4," ∷ "    labelfloat=false," ∷ "    labeldistance=0.8,"
    ∷ "    labelangle=10" ∷ "  ];" ∷ "" ∷ []

-- The head of the cluster of the services.
abbrev pub simulator_lines : List String
simulator_lines =
    "  // --- Simulator ---" ∷ "  subgraph cluster_sim {"
    ∷ "    label=<<B><FONT POINT-SIZE=\"40\">Simulator</FONT></B>>;" ∷ "    fontcolor=\"#F1F5F9\";"
    ∷ "    style=\"rounded,filled\";" ∷ "    color=\"#475569\";" ∷ "    penwidth=4;"
    ∷ "    fillcolor=\"#1E293B\";" ∷ "    margin=34;" ∷ []

-- The two sockets.
abbrev pub network_lines : List String
network_lines =
    "" ∷ "  // --- Network Layer bounding box (TX/RX) ---" ∷ "  subgraph cluster_sockets {"
    ∷ "    label=<<B><FONT POINT-SIZE=\"40\">Network Layer</FONT></B>>;"
    ∷ "    fontcolor=\"#F1F5F9\";" ∷ "    style=\"rounded,filled\";" ∷ "    color=\"#F59E0B\";"
    ∷ "    penwidth=6;" ∷ "    fillcolor=\"#2A1B07\";" ∷ "    margin=24;" ∷ ""
    ∷ "    { rank=same; TX; RX; }" ∷ "" ∷ "    TX [" ∷ "      fillcolor=\"#B45309\","
    ∷ "      label=<<B><FONT POINT-SIZE=\"30\">TX Socket</FONT></B><BR/><FONT POINT-SIZE=\"24\">Port 9000 (SIL Inbound)</FONT>>"
    ∷ "    ];" ∷ "    RX [" ∷ "      fillcolor=\"#B45309\","
    ∷ "      label=<<B><FONT POINT-SIZE=\"30\">RX Socket</FONT></B><BR/><FONT POINT-SIZE=\"24\">Port 9001 (SIL Outbound)</FONT>>"
    ∷ "    ];" ∷ "" ∷ "    TX -> RX [style=invis, weight=50, constraint=false];" ∷ "  }" ∷ "" ∷ []

-- The test cases.
abbrev pub harness_lines : List String
harness_lines =
    "  // --- Test Harness bounding box ---" ∷ "  subgraph cluster_fixtures {"
    ∷ "    label=<<B><FONT POINT-SIZE=\"40\">Test Harness</FONT></B>>;"
    ∷ "    fontcolor=\"#F1F5F9\";" ∷ "    style=\"rounded,filled\";" ∷ "    color=\"#22C55E\";"
    ∷ "    penwidth=6;" ∷ "    fillcolor=\"#0B2A20\";" ∷ "    margin=24;" ∷ "" ∷ "    TestCase ["
    ∷ "      fillcolor=\"#047857\","
    ∷ "      label=<<B><FONT POINT-SIZE=\"34\">Test Case / Fixtures</FONT></B>>" ∷ "    ];" ∷ "  }"
    ∷ "" ∷ []

-- The description of a component: the first sentence of its DOC_DESC in lines of 40, or else its name.
unfoldable pub description_lines : (Service → Bytes) → Service → Bytes
unfolding wrap_words first_sentence
description_lines get_desc c =
    let desc_text = wrap_words (first_sentence (get_desc c)) 40 in
    if length desc_text == 0 then chars (component_name c) else desc_text

-- A color and the sizes of the two lines of the label.
unfoldable pub node_lines : Bytes → Bytes → Bytes → Bytes → Bytes → Bytes → Bytes
unfolding html_escape
node_lines id color name_size text_size cname desc_text =
    chars "    "
    ++ (id
        ++ (chars " [\n      fillcolor=\""
            ++ (color
                ++ (chars "\",\n      label=<<B><FONT POINT-SIZE=\""
                    ++ (name_size
                        ++ (chars "\">"
                            ++ (html_escape cname
                                ++ (chars "</FONT></B><BR/><FONT POINT-SIZE=\""
                                    ++ (text_size
                                        ++ (chars "\">"
                                            ++ (html_escape desc_text
                                                ++ chars "</FONT>>\n    ];\n")))))))))))

-- The node of a component.
unfoldable pub emit_node : (Service → Bytes) → Service → Bytes
unfolding node_lines description_lines component_id
emit_node get_desc c =
    let cname = chars (component_name c) in
    if is_bridge c
    then node_lines (component_id udp_bridge) (chars "#0F766E") (chars "38") (chars "26") cname
        (description_lines get_desc c)
    else node_lines (component_id c) (chars "#0369A1") (chars "30") (chars "24") cname
        (description_lines get_desc c)

-- The loop over the components.
unfoldable pub emit_nodes : (Service → Bytes) → List Service → Bytes
unfolding emit_node
emit_nodes get_desc [] = []
emit_nodes get_desc (c ∷ cs) = emit_node get_desc c ++ emit_nodes get_desc cs

-- The flow from the harness through the socket TX to the bridge.
unfoldable pub emit_inbound : Names → Bytes
unfolding build_label dot_escape_label component_id
emit_inbound names =
    chars "  TestCase -> TX [label=\"send_msg\", color=\"#F1F5F9\", penwidth=5];\n  TX -> "
    ++ (component_id udp_bridge
        ++ (chars " [label=\"Inbound Traffic:\\n"
            ++ (dot_escape_label (build_label 0 names)
                ++ chars "\", color=\"#F1F5F9\", penwidth=5, fontsize=25];\n\n")))

-- The flow from the bridge through the socket RX to the harness.
unfoldable pub emit_outbound : Names → Bytes
unfolding build_label dot_escape_label component_id
emit_outbound names =
    chars "\n  // Flow: Simulator -> Network -> Test Harness\n  RX -> "
    ++ (component_id udp_bridge
        ++ (chars " [label=\"Outbound Traffic:\\n"
            ++ (dot_escape_label (build_label 0 names)
                ++ chars
                    "\", color=\"#F1F5F9\", penwidth=5, dir=back, fontsize=25, arrowtail=normal];\n  TestCase -> RX [label=\"recv_msg\", color=\"#F1F5F9\", penwidth=5, dir=back, arrowtail=normal];\n")))

-- The whole file, for the components with their DOC_DESCs.
unfoldable pub emit_graphviz_flow_dot : (Service → Bytes) → List Service → Bytes
unfolding text_lines emit_nodes emit_inbound emit_edges emit_outbound collect_all
emit_graphviz_flow_dot get_desc cs =
    let traffic = collect_all cs message_ids no_traffic in
    text_lines graph_lines
    ++ (text_lines style_lines
        ++ (text_lines simulator_lines
            ++ (emit_nodes get_desc cs
                ++ (chars "  }\n"
                    ++ (text_lines network_lines
                        ++ (text_lines harness_lines
                            ++ (emit_inbound traffic.inbound_msg_names
                                ++ (chars "  // Internal Simulator Logic\n"
                                    ++ (emit_edges traffic.edges
                                        ++ (emit_outbound traffic.outbound_msg_names
                                            ++ chars "}\n"))))))))))

-- The files that exist, and what was printed to the standard error.
pub record Written : Type 0 where
  pub files : List (Bytes × Bytes)
  pub standard_error : Bytes

-- `opens` is whether the output file can be opened; opening it makes it or empties it.
unfoldable pub write_graphviz_flow_dot_file :
    (Service → Bytes) → List Service → Bytes → Bool → Written
unfolding emit_graphviz_flow_dot
write_graphviz_flow_dot_file get_desc cs path opens =
    if opens
    then record { files = (path, emit_graphviz_flow_dot get_desc cs) ∷ []; standard_error = [] }
    else record {
      files = [];
      standard_error = chars "generate_docs: failed to open DOT output: " ++ (path ++ chars "\n");
    }
