-- ===== src/Docs/Dot/Arrows.antt =====
-- generator/doc_generator.h: every arrow of the diagram is drawn, between nodes that the diagram declares.
use mathlib.Core.List.{append_assoc}
use reflect_pytest.Prelude.{
  ℕ, ◌≡◌, refl, sym, ◌∙◌, ap, true, List, [], ◌∷◌, ◌++◌, take, drop, chars, All, All-map,
}
use reflect_pytest.World.{Service, udp_bridge}
use reflect_pytest.Docs.Text.{Bytes, dot_escape_label, dot_id, id_chars}
use reflect_pytest.Docs.Flow.{
  component_id, Names, Arrow, EdgeMap, build_label, emit_edge, emit_edges, collect_all, message_ids,
  no_traffic,
}
use reflect_pytest.Docs.Flow.Edges.{in_tuple}
use reflect_pytest.Docs.Dot.{
  text_lines, graph_lines, style_lines, simulator_lines, network_lines, harness_lines, emit_nodes,
  emit_inbound, emit_outbound, emit_graphviz_flow_dot,
}
use reflect_pytest.Docs.Dot.Declared.{
  Contains, in_front, behind, node_head, Declares, IsDeclared, emit_nodes-Declares,
  edges-IsDeclared,
}

-- The start of the statement for an arrow.
abbrev pub arrow_head : Arrow → Bytes
arrow_head (from, to) = from ++ (chars " -> " ++ (to ++ chars " ["))

-- The text has a statement for the arrow, and a node for either end.
abbrev pub IsDrawn : Bytes → Arrow → Type 0
IsDrawn text a = Contains (arrow_head a) text × IsDeclared text a

-- The nodes that are no components, and the arrows at them.
abbrev pub test_case : Bytes
test_case = chars "TestCase"

abbrev pub tx : Bytes
tx = chars "TX"

abbrev pub rx : Bytes
rx = chars "RX"

abbrev pub fixed_arrows : List Arrow
fixed_arrows =
    (tx, rx)
    ∷ (test_case, tx)
    ∷ (tx, component_id udp_bridge)
    ∷ (rx, component_id udp_bridge)
    ∷ (test_case, rx)
    ∷ []

-- A part that stands behind the first `n` bytes of the text.
at :
    (n m : ℕ) (part text : Bytes) → text ≡ take n text ++ (part ++ drop m text) → Contains part text
at n m part text e = (take n text, drop m text, e)

tx_node : Declares tx (text_lines network_lines)
unfolding text_lines
tx_node = at 300 309 (node_head tx) (text_lines network_lines) refl

rx_node : Declares rx (text_lines network_lines)
unfolding text_lines
rx_node = at 460 469 (node_head rx) (text_lines network_lines) refl

test_case_node : Declares test_case (text_lines harness_lines)
unfolding text_lines
test_case_node = at 262 277 (node_head test_case) (text_lines harness_lines) refl

tx-rx : Contains (arrow_head (tx, rx)) (text_lines network_lines)
unfolding text_lines
tx-rx = at 626 636 (arrow_head (tx, rx)) (text_lines network_lines) refl

test_case-tx : (names : Names) → Contains (arrow_head (test_case, tx)) (emit_inbound names)
unfolding emit_inbound
test_case-tx names = (chars "  ", _, refl)

tx-bridge :
    (names : Names) → Contains (arrow_head (tx, component_id udp_bridge)) (emit_inbound names)
unfolding emit_inbound component_id dot_id id_chars
tx-bridge names =
    (chars "  TestCase -> TX [label=\"send_msg\", color=\"#F1F5F9\", penwidth=5];\n  ", _, refl)

rx-bridge :
    (names : Names) → Contains (arrow_head (rx, component_id udp_bridge)) (emit_outbound names)
unfolding emit_outbound component_id dot_id id_chars
rx-bridge names = (chars "\n  // Flow: Simulator -> Network -> Test Harness\n  ", _, refl)

test_case-rx : (names : Names) → Contains (arrow_head (test_case, rx)) (emit_outbound names)
unfolding emit_outbound component_id dot_id id_chars
test_case-rx names =
    let part = arrow_head (test_case, rx) in
    let label = dot_escape_label (build_label 0 names) in
    behind part _
      (chars
        "\n  // Flow: Simulator -> Network -> Test Harness\n  RX -> UdpBridge [label=\"Outbound Traffic:\\n")
      (behind part _ label (
        chars "\", color=\"#F1F5F9\", penwidth=5, dir=back, fontsize=25, arrowtail=normal];\n  ",
        _,
        refl,
      ))

emit_edge-Contains : (a : Arrow) (names : Names) → Contains (arrow_head a) (emit_edge (a, names))
unfolding emit_edge
emit_edge-Contains (from, to) names =
    let tail =
      chars "label=\""
      ++ (dot_escape_label (build_label 0 names) ++ chars "\", style=dashed];\n") in
    (
      chars "  ",
      tail,
      ap (λ t. chars "  " ++ t)
          (sym (
            append_assoc from (chars " -> " ++ (to ++ chars " [")) tail
            ∙ ap (λ t. from ++ (chars " -> " ++ t)) (append_assoc to (chars " [") tail))),
    )

emit_edges-Contains :
    (edges : EdgeMap) → All (λ e. Contains (arrow_head e.0) (emit_edges edges)) edges
unfolding emit_edges
emit_edges-Contains [] = tt
emit_edges-Contains ((a, names) ∷ edges) = (
  in_front (arrow_head a) _ (emit_edges edges) (emit_edge-Contains a names),
  All-map _ _ edges (λ e. behind (arrow_head e.0) _ (emit_edge (a, names)))
      (emit_edges-Contains edges),
)

module _ (get_desc : Service → Bytes) (cs : List Service) where
  -- The parts of the file.
  in_nodes :
      (part : Bytes)
      → Contains part (emit_nodes get_desc cs)
      → Contains part (emit_graphviz_flow_dot get_desc cs)
  unfolding emit_graphviz_flow_dot
  in_nodes part c = behind part _ (text_lines graph_lines) (
      behind part _ (text_lines style_lines)
        (behind part _ (text_lines simulator_lines) (in_front part _ _ c)))

  behind_nodes :
      (part rest : Bytes)
      → Contains part rest
      → Contains part (
          text_lines graph_lines
          ++ (text_lines style_lines
              ++ (text_lines simulator_lines ++ (emit_nodes get_desc cs ++ rest))))
  behind_nodes part rest c = behind part _ (text_lines graph_lines) (
      behind part _ (text_lines style_lines)
        (behind part _ (text_lines simulator_lines) (behind part rest (emit_nodes get_desc cs) c)))

  in_network :
      (part : Bytes)
      → Contains part (text_lines network_lines)
      → Contains part (emit_graphviz_flow_dot get_desc cs)
  unfolding emit_graphviz_flow_dot
  in_network part c = behind_nodes part _ (behind part _ (chars "  }\n") (in_front part _ _ c))

  in_harness :
      (part : Bytes)
      → Contains part (text_lines harness_lines)
      → Contains part (emit_graphviz_flow_dot get_desc cs)
  unfolding emit_graphviz_flow_dot
  in_harness part c = behind_nodes part _ (
      behind part _ (chars "  }\n")
        (behind part _ (text_lines network_lines) (in_front part _ _ c)))

  behind_harness :
      (part rest : Bytes)
      → Contains part rest
      → Contains part (
          text_lines graph_lines
          ++ (text_lines style_lines
              ++ (text_lines simulator_lines
                  ++ (emit_nodes get_desc cs
                      ++ (chars "  }\n"
                          ++ (text_lines network_lines ++ (text_lines harness_lines ++ rest)))))))
  behind_harness part rest c = behind_nodes part _ (
      behind part _ (chars "  }\n")
        (behind part _ (text_lines network_lines) (behind part rest (text_lines harness_lines) c)))

  in_inbound :
      (part : Bytes)
      → Contains part (emit_inbound (collect_all cs message_ids no_traffic).inbound_msg_names)
      → Contains part (emit_graphviz_flow_dot get_desc cs)
  unfolding emit_graphviz_flow_dot
  in_inbound part c = behind_harness part _ (in_front part _ _ c)

  in_edges :
      (part : Bytes)
      → Contains part (emit_edges (collect_all cs message_ids no_traffic).edges)
      → Contains part (emit_graphviz_flow_dot get_desc cs)
  unfolding emit_graphviz_flow_dot
  in_edges part c =
      let traffic = collect_all cs message_ids no_traffic in
      behind_harness part _ (
        behind part _ (emit_inbound traffic.inbound_msg_names) (
          behind part _ (chars "  // Internal Simulator Logic\n")
            (in_front part _ (emit_outbound traffic.outbound_msg_names ++ chars "}\n") c)))

  in_outbound :
      (part : Bytes)
      → Contains part (emit_outbound (collect_all cs message_ids no_traffic).outbound_msg_names)
      → Contains part (emit_graphviz_flow_dot get_desc cs)
  unfolding emit_graphviz_flow_dot
  in_outbound part c =
      let traffic = collect_all cs message_ids no_traffic in
      behind_harness part _ (
        behind part _ (emit_inbound traffic.inbound_msg_names) (
          behind part _ (chars "  // Internal Simulator Logic\n")
            (behind part _ (emit_edges traffic.edges) (in_front part _ (chars "}\n") c))))

  All-both :
      (P Q : Bytes → Arrow → Type 0) (t : Bytes) (edges : EdgeMap)
      → All (λ e. P t e.0) edges
      → All (λ e. Q t e.0) edges
      → All (λ e. P t e.0 × Q t e.0) edges
  All-both P Q t [] p q = tt
  All-both P Q t (e ∷ edges) (p, ps) (q, qs) = ((p, q), All-both P Q t edges ps qs)

  -- The file has a statement for each arrow between the sockets TX and RX, the test case and the bridge, and for each
  -- edge that was collected between components, and it declares a node for either end of each of
  -- these. Assumed: the bridge is one of the components.
  pub arrows-IsDrawn :
      in_tuple udp_bridge cs ≡ true
      → let text = emit_graphviz_flow_dot get_desc cs in
        All (IsDrawn text) fixed_arrows
        × All (λ e. IsDrawn text e.0) (collect_all cs message_ids no_traffic).edges
  arrows-IsDrawn bridge =
      let text = emit_graphviz_flow_dot get_desc cs in
      let edges = (collect_all cs message_ids no_traffic).edges in
      let at_tx = in_network (node_head tx) tx_node in
      let at_rx = in_network (node_head rx) rx_node in
      let at_test = in_harness (node_head test_case) test_case_node in
      let at_bridge =
        in_nodes (node_head (component_id udp_bridge))
          (emit_nodes-Declares get_desc udp_bridge cs bridge) in
      (
        (
          (in_network (arrow_head (tx, rx)) tx-rx, (at_tx, at_rx)),
          (
            (in_inbound (arrow_head (test_case, tx)) (test_case-tx _), (at_test, at_tx)),
            (
              (
                in_inbound (arrow_head (tx, component_id udp_bridge)) (tx-bridge _),
                (at_tx, at_bridge),
              ),
              (
                (
                  in_outbound (arrow_head (rx, component_id udp_bridge)) (rx-bridge _),
                  (at_rx, at_bridge),
                ),
                ((in_outbound (arrow_head (test_case, rx)) (test_case-rx _), (at_test, at_rx)), tt),
              ),
            ),
          ),
        ),
        All-both (λ t a. Contains (arrow_head a) t) IsDeclared text edges
            (All-map _ _ edges (λ e. in_edges (arrow_head e.0)) (emit_edges-Contains edges))
            (All-map _ _ edges
              (λ e d. (in_nodes (node_head e.0.0) d.0, in_nodes (node_head e.0.1) d.1))
              (edges-IsDeclared get_desc cs message_ids bridge)),
      )
