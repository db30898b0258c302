-- ===== src/Docs/Flow.antt =====
-- generator/doc_generator.h: the edges of the diagram, and the statements for them.
mod Roles
unfoldable pub use Roles.*
pub mod Ids
pub mod Edges
pub mod Diagram
pub mod Direction
pub mod Statements
pub mod Kept
pub mod Readable
use Prim.Native.String.{String}
use reflect_pytest.Prelude.{
  text_eq, has_name, text_eq→eq, text_eq_refl, ℕ, suc, ◌+◌, ◌%◌, ltb, ◌==◌, Bool, true, false, not,
  ◌&&◌, ◌||◌, if◌then◌else◌, List, [], ◌∷◌, ◌++◌, chars,
}
use reflect_pytest.Messages.{MsgId, id_eq, id_value}
use reflect_pytest.World.{
  Service, motor, kinematics, power, state, thermal, environment, autonomous, log, udp_bridge,
}
use reflect_pytest.Bridge.{subscribes, publishes}
use reflect_pytest.Docs.Text.{Bytes, dot_id, dot_escape_label}

-- The order of std::string.
abbrev pub text_lt : Bytes → Bytes → Bool
text_lt [] [] = false
text_lt [] (d ∷ t) = true
text_lt (c ∷ s) [] = false
text_lt (c ∷ s) (d ∷ t) = ltb c d || (c == d && text_lt s t)

-- std::set<std::string>: its elements in order, and insert.
abbrev pub Names : Type 0
Names = List Bytes

unfoldable pub insert_name : Bytes → Names → Names
insert_name n [] = n ∷ []
insert_name n (m ∷ ns) =
    if text_eq n m then m ∷ ns else if text_lt n m then n ∷ m ∷ ns else m ∷ insert_name n ns

-- A pair of identifiers, with the order of std::pair.
abbrev pub Arrow : Type 0
Arrow = Bytes × Bytes

abbrev pub arrow_eq : Arrow → Arrow → Bool
arrow_eq (a, b) (c, d) = text_eq a c && text_eq b d

abbrev pub arrow_lt : Arrow → Arrow → Bool
arrow_lt (a, b) (c, d) = text_lt a c || (text_eq a c && text_lt b d)

abbrev pub EdgeMap : Type 0
EdgeMap = List (Arrow × Names)

-- edges[arrow].insert(name).
unfoldable pub insert_edge : Arrow → Bytes → EdgeMap → EdgeMap
unfolding insert_name
insert_edge a n [] = (a, n ∷ []) ∷ []
insert_edge a n ((b, ns) ∷ edges) =
    if arrow_eq a b
    then (b, insert_name n ns) ∷ edges
    else if arrow_lt a b
    then (a, n ∷ []) ∷ (b, ns) ∷ edges
    else (b, ns) ∷ insert_edge a n edges

unfoldable pub component_id : Service → Bytes
unfolding dot_id
component_id c = dot_id (chars (component_name c))

unfoldable pub collect_inbound_edges : List Service → MsgId → Bytes → EdgeMap → EdgeMap
unfolding insert_edge contains_msg subscribes
collect_inbound_edges [] id mname edges = edges
collect_inbound_edges (c ∷ cs) id mname edges = collect_inbound_edges cs id mname (
    if component_subscribes c id && not (is_bridge c)
    then insert_edge (component_id udp_bridge, component_id c) mname edges
    else edges)

unfoldable pub collect_outbound_edges : List Service → MsgId → Bytes → EdgeMap → EdgeMap
unfolding insert_edge contains_msg publishes
collect_outbound_edges [] id mname edges = edges
collect_outbound_edges (c ∷ cs) id mname edges = collect_outbound_edges cs id mname (
    if component_publishes c id && not (is_bridge c)
    then insert_edge (component_id c, component_id udp_bridge) mname edges
    else edges)

-- The subscribers of a message, for one publisher.
unfoldable pub collect_internal_edges_impl :
    List Service → MsgId → Bytes → Service → EdgeMap → EdgeMap
unfolding insert_edge contains_msg subscribes
collect_internal_edges_impl [] id mname publisher edges = edges
collect_internal_edges_impl (c ∷ cs) id mname publisher edges =
    collect_internal_edges_impl cs id mname publisher (
      if component_subscribes c id && not (is_bridge c)
      then insert_edge (component_id publisher, component_id c) mname edges
      else edges)

-- The publishers in turn, each over the whole tuple `all`.
unfoldable pub collect_internal_edges :
    List Service → List Service → MsgId → Bytes → EdgeMap → EdgeMap
unfolding collect_internal_edges_impl contains_msg publishes
collect_internal_edges all [] id mname edges = edges
collect_internal_edges all (c ∷ cs) id mname edges = collect_internal_edges all cs id mname (
    if component_publishes c id && not (is_bridge c)
    then collect_internal_edges_impl all id mname c edges
    else edges)

-- The three containers that collect_msg_edges fills.
pub record Traffic : Type 0 where
  pub edges : EdgeMap
  pub inbound_msg_names : Names
  pub outbound_msg_names : Names

abbrev pub no_traffic : Traffic
no_traffic = record { edges = []; inbound_msg_names = []; outbound_msg_names = [] }

unfoldable pub collect_msg_edges : List Service → MsgId → Traffic → Traffic
unfolding any_component contains_msg subscribes publishes insert_name collect_inbound_edges
    collect_outbound_edges collect_internal_edges
collect_msg_edges cs id t =
    let mname = chars (message_name id) in
    let cxx_sub = internal_cxx_subscribes cs id in
    let cxx_pub = internal_cxx_publishes cs id in
    let py_sub = py_subscribes cs id in
    let py_pub = py_publishes cs id in
    if py_pub && cxx_sub && not cxx_pub && not py_sub
    then record t {
      inbound_msg_names = insert_name mname t.inbound_msg_names;
      edges = collect_inbound_edges cs id mname t.edges;
    }
    else if cxx_pub && py_sub && not py_pub && not cxx_sub
    then record t {
      outbound_msg_names = insert_name mname t.outbound_msg_names;
      edges = collect_outbound_edges cs id mname t.edges;
    }
    else if (py_pub || py_sub) && (cxx_pub || cxx_sub)
    then record {
      inbound_msg_names = insert_name mname t.inbound_msg_names;
      outbound_msg_names = insert_name mname t.outbound_msg_names;
      edges = collect_outbound_edges cs id mname (collect_inbound_edges cs id mname t.edges);
    }
    else if not py_pub && not py_sub && cxx_pub && cxx_sub
    then record t { edges = collect_internal_edges cs cs id mname t.edges }
    else t

-- The enumerators of MsgId, in the order of their declaration.
abbrev pub message_ids : List MsgId
message_ids =
    MsgId.log ∷ MsgId.physics_tick ∷ MsgId.state_request ∷ MsgId.state_data ∷ MsgId.motor_sequence
    ∷ MsgId.motor_status ∷ MsgId.kinematics_request ∷ MsgId.kinematics_data ∷ MsgId.power_request
    ∷ MsgId.power_data ∷ MsgId.thermal_request ∷ MsgId.thermal_data ∷ MsgId.environment_ack
    ∷ MsgId.environment_request ∷ MsgId.environment_data ∷ MsgId.auto_drive_command
    ∷ MsgId.auto_drive_status ∷ MsgId.internal_env_request ∷ MsgId.internal_env_data ∷ []

-- The loop over the enumerators.
unfoldable pub collect_all : List Service → List MsgId → Traffic → Traffic
unfolding collect_msg_edges
collect_all cs [] t = t
collect_all cs (id ∷ ids) t = collect_all cs ids (collect_msg_edges cs id t)

-- build_label, from the name with the number `count`: two names in a line.
unfoldable pub build_label : ℕ → Names → Bytes
build_label count [] = []
build_label count (n ∷ ns) =
    (if ltb 0 count then (if count % 2 == 0 then chars "\n" else chars ", ") else [])
    ++ (n ++ build_label (suc count) ns)

-- The statement for an edge between components.
unfoldable pub emit_edge : Arrow × Names → Bytes
unfolding build_label dot_escape_label
emit_edge ((from, to), names) =
    chars "  "
    ++ (from
        ++ (chars " -> "
            ++ (to
                ++ (chars " [label=\""
                    ++ (dot_escape_label (build_label 0 names) ++ chars "\", style=dashed];\n")))))

-- The loop over the edges.
unfoldable pub emit_edges : EdgeMap → Bytes
unfolding emit_edge
emit_edges [] = []
emit_edges (e ∷ edges) = emit_edge e ++ emit_edges edges
