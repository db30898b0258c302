-- ===== src/Documents.antt =====
-- The generator of the protocol document (generator/doc_generator.h) on the components and messages
-- of the application, and each theorem at an input.

use reflect_pytest.Docs.Text.Wrapping.{words, words_from, words-wrap_words}
use reflect_pytest.Docs.Text.Lines.{FitsIn, lines, lines-wrap_words}
use reflect_pytest.Prelude.{
  length, map, has_name, ◌≡◌, refl, true, false, some, [], ◌∷◌, ◌++◌, All, chars,
}
use reflect_pytest.Messages.{MsgId}
use reflect_pytest.World.{autonomous, udp_bridge}
use reflect_pytest.Bridge.{subscribes, publishes}
use reflect_pytest.App.{app_services}
use reflect_pytest.Docs.Text.{dot_escape_label, dot_id, id_chars, wrap_words}
use reflect_pytest.Docs.Text.Escape.{read_quoted, read_quoted-dot_escape_label, drop_returns}
use reflect_pytest.Docs.Flow.{
  component_id, message_ids, collect_all, no_traffic, contains_msg, any_component,
}
use reflect_pytest.Docs.Flow.Edges.{has_edge, between, in_tuple}
use reflect_pytest.Docs.Flow.Diagram.{flows, any_message, diagram_edges}
use reflect_pytest.Docs.Flow.{emit_edges}
use reflect_pytest.Docs.Flow.Statements.{label_of, read_edges}
use reflect_pytest.Docs.Flow.Readable.{read_edges-collect_all}
use reflect_pytest.Docs.Flow.Direction.{socket_labels}
use reflect_pytest.Docs.Page.{direction, bidirectional}

-- Kinematics data go from the kinematics service to the autonomous service and to the bridge.
kinematics_data_badge : direction app_services MsgId.kinematics_data ≡ bidirectional
unfolding direction contains_msg any_component subscribes publishes
kinematics_data_badge = refl

-- The diagram has them come from the bridge.
diagram_edges_example :
    has_edge
      (between udp_bridge autonomous)
      (chars "KinematicsData")
      (collect_all app_services message_ids no_traffic).edges
    ≡ true
unfolding any_message flows contains_msg any_component subscribes publishes in_tuple component_id
    dot_id id_chars
diagram_edges_example =
    diagram_edges app_services (chars "KinematicsData") udp_bridge autonomous message_ids

socket_labels_example :
    (has_name
        (chars "KinematicsData")
        (collect_all app_services message_ids no_traffic).inbound_msg_names
      ≡ true)
    × (has_name
          (chars "KinematicsData")
          (collect_all app_services message_ids no_traffic).outbound_msg_names
        ≡ true)
unfolding any_message direction contains_msg any_component subscribes publishes
socket_labels_example = socket_labels app_services (chars "KinematicsData") message_ids

read_quoted-dot_escape_label_example :
    read_quoted false (dot_escape_label (chars "a \"b\"\nc") ++ (b'"' ∷ chars "];"))
    ≡ some (chars "a \"b\"\nc", chars "];")
unfolding drop_returns
read_quoted-dot_escape_label_example =
    read_quoted-dot_escape_label (chars "a \"b\"\nc") (chars "];")

words-wrap_words_example :
    words (wrap_words (chars "relays IPC messages") 10)
    ≡ chars "relays" ∷ chars "IPC" ∷ chars "messages" ∷ []
unfolding words_from
words-wrap_words_example = words-wrap_words (chars "relays IPC messages") 10

lines-wrap_words_example : All (FitsIn 10) (lines (wrap_words (chars "relays IPC messages") 10))
lines-wrap_words_example = lines-wrap_words (chars "relays IPC messages") 10

read_edges-collect_all_example :
    let edges = (collect_all app_services (MsgId.kinematics_data ∷ []) no_traffic).edges in
    read_edges (length edges) (emit_edges edges ++ chars "}\n")
    ≡ some (map (λ e. (e.0, label_of e.1)) edges, chars "}\n")
read_edges-collect_all_example =
    read_edges-collect_all app_services (MsgId.kinematics_data ∷ []) (chars "}\n")
