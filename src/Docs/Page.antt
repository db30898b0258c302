-- ===== src/Docs/Page.antt =====
-- generator/doc_generator.h and generator/generate_docs.cpp: the section of a message in the document.
pub mod Listing
use reflect_pytest.Prelude.{
  text_eq, has_name, text_eq→eq, text_eq_refl, Bool, true, false, not, ◌&&◌, ◌||◌, if◌then◌else◌,
  List, [], ◌∷◌, ◌++◌, chars,
}
use reflect_pytest.Messages.{MsgId}
use reflect_pytest.World.{Service}
use reflect_pytest.Docs.Text.{Bytes}
use reflect_pytest.Docs.Flow.{
  component_name, component_subscribes, component_publishes, contains_msg, any_component,
  internal_cxx_subscribes, internal_cxx_publishes, py_subscribes, py_publishes,
}
use reflect_pytest.Bridge.{subscribes, publishes}

-- The words "Internal", "Inbound", "Outbound" and "Bidirectional".
pub data Direction : Type 0 where
  internal inbound outbound bidirectional : Direction

unfoldable pub direction : List Service → MsgId → Direction
unfolding any_component contains_msg subscribes publishes
direction cs id =
    let cxx_sub = internal_cxx_subscribes cs id in
    let cxx_pub = internal_cxx_publishes cs id in
    let py_sub = py_subscribes cs id in
    let py_pub = py_publishes cs id in
    if py_pub && cxx_sub && not py_sub && not cxx_pub
    then inbound
    else if cxx_pub && py_sub && not cxx_sub && not py_pub
    then outbound
    else if (py_pub || py_sub) && (cxx_pub || cxx_sub)
    then bidirectional
    else internal

-- The loop of print_subscribers and print_publishers, with the test that they differ in. It has
-- printed `out`, and returns what it printed with the negation of `first`.
unfoldable pub print_components : (Service → Bool) → List Service → Bool → Bytes → Bytes × Bool
print_components test [] first out = (out, not first)
print_components test (c ∷ cs) first out =
    let cname = chars (component_name c) in
    if test c && not (text_eq cname (chars "UdpBridge"))
    then print_components test cs false
        (out ++ ((if first then [] else chars ", ") ++ (chars "`" ++ (cname ++ chars "`"))))
    else print_components test cs first out

abbrev pub print_subscribers : List Service → MsgId → Bytes × Bool
unfolding print_components
print_subscribers cs id = print_components (λ c. component_subscribes c id) cs true []

abbrev pub print_publishers : List Service → MsgId → Bytes × Bool
unfolding print_components
print_publishers cs id = print_components (λ c. component_publishes c id) cs true []

-- A line of the section, if the message has internal components on its side.
unfoldable pub components_line : Bool → Bytes → Bytes × Bool → Bytes
components_line present heading (listed, any) =
    if present
    then heading ++ (listed ++ ((if any then [] else chars "_None_") ++ chars "<br>\n"))
    else []

-- The two lines of emit_md_payload_section that list components.
unfoldable pub component_lines : List Service → MsgId → Bytes
unfolding components_line any_component contains_msg
component_lines cs id =
    components_line (internal_cxx_publishes cs id) (chars "**Publishes:** ")
      (print_publishers cs id)
    ++ components_line (internal_cxx_subscribes cs id) (chars "**Subscribes:** ")
        (print_subscribers cs id)
