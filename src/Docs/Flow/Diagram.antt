-- ===== src/Docs/Flow/Diagram.antt =====
-- The edges between components in the diagram of the message flow.
use reflect_pytest.Prelude.{
  or_none, text_eq, ◌≡◌, refl, ◌∙◌, Bool, true, false, not, ◌&&◌, ◌||◌, if◌then◌else◌, List, [],
  ◌∷◌, arith, Bool-cases, inl, inr, chars,
}
use reflect_pytest.Messages.{MsgId}
use reflect_pytest.World.{Service}
use reflect_pytest.Docs.Text.{Bytes}
use reflect_pytest.Docs.Flow.{
  message_name, is_bridge, component_subscribes, component_publishes, any_component,
  internal_cxx_subscribes, internal_cxx_publishes, py_subscribes, py_publishes,
  collect_inbound_edges, collect_outbound_edges, collect_internal_edges, Traffic, collect_msg_edges,
  collect_all, no_traffic,
}
use reflect_pytest.Docs.Flow.Ids.{service_eq, service_eq→eq, service_eq_bridge}
use reflect_pytest.Docs.Flow.Edges.{
  has_edge, in_tuple, between, has_edge-collect_inbound_edges, has_edge-collect_outbound_edges,
  has_edge-collect_internal_edges,
}

unfoldable pub pick {ℓ} : {A : Type ℓ} → Bool → Bool → Bool → Bool → A → A → A → A → A → A
pick pp ps cs cp inbound outbound both internal none =
    if pp && cs && not cp && not ps
    then inbound
    else if cp && ps && not pp && not cs
    then outbound
    else if (pp || ps) && (cp || cs)
    then both
    else if not pp && not ps && cp && cs
    then internal
    else none

decide :
    (pp ps cs cp bp bs x h y g k e : Bool)
    → (x && h ≡ true → cs ≡ true)
    → (y && g ≡ true → cp ≡ true)
    → (bp ≡ true → g ≡ false)
    → (bs ≡ true → h ≡ false)
    → pick pp ps cs cp
        ((x && (h && (bp && k))) || e)
        ((y && (g && (bs && k))) || e)
        ((y && (g && (bs && k))) || ((x && (h && (bp && k))) || e))
        ((y && (g && (x && (h && k)))) || e)
        e
      ≡ ((if bp
            then (pp || ps) && (x && h)
            else if bs
            then (pp || ps) && (y && g)
            else not (pp || ps) && ((y && g) && (x && h)))
          && k)
        || e
unfolding pick
decide pp ps cs cp bp bs x h y g k e a b c d = ground arith

apply-pick {ℓ κ} :
    {A : Type ℓ} {B : Type κ} (f : A → B) (pp ps cs cp : Bool) (i o b n e : A)
    → f (pick pp ps cs cp i o b n e) ≡ pick pp ps cs cp (f i) (f o) (f b) (f n) (f e)
unfolding pick
apply-pick f pp ps cs cp i o b n e = ground arith

any_component_lem :
    (test : Service → Bool) (s : Service) (cs : List Service)
    → in_tuple s cs && test s ≡ true
    → any_component test cs ≡ true
unfolding in_tuple any_component
any_component_lem test s [] h = h
any_component_lem test s (c ∷ cs) h = elim (Bool-cases (service_eq s c)) [
  | inl same ↦
      let passes : test s ≡ true = ground (arith, h) in rw (← service_eq→eq s c same, passes) refl
  | inr other ↦ ground (arith, any_component_lem test s cs)
]

-- The bridge publishes the message or subscribes to it.
abbrev pub crosses_bridge : List Service → MsgId → Bool
crosses_bridge cs i = py_publishes cs i || py_subscribes cs i

abbrev hears : List Service → Service → MsgId → Bool
hears cs s i = in_tuple s cs && (component_subscribes s i && not (is_bridge s))

abbrev tells : List Service → Service → MsgId → Bool
tells cs p i = in_tuple p cs && (component_publishes p i && not (is_bridge p))

-- What an edge from p to s stands for. The service at one end of an edge of the bridge sends or
-- receives a message that the bridge sends or receives. The services at the ends of another edge
-- send and receive a message that the bridge has no part in.
unfoldable pub flows : List Service → Service → Service → MsgId → Bool
flows cs p s i =
    if is_bridge p
    then crosses_bridge cs i && hears cs s i
    else if is_bridge s
    then crosses_bridge cs i && tells cs p i
    else not (crosses_bridge cs i) && (tells cs p i && hears cs s i)

unfoldable pub any_message : (MsgId → Bool) → List MsgId → Bool
any_message test [] = false
any_message test (i ∷ ids) = test i || any_message test ids

or_rotate : (a b c : Bool) → a || (b || c) ≡ (b || a) || c
or_rotate a b c = ground arith

edges-if :
    (b : Bool) (x y : Traffic) → (if b then x else y).edges ≡ (if b then x.edges else y.edges)
edges-if true x y = refl
edges-if false x y = refl

pub edges-collect_msg_edges :
    (cs : List Service) (i : MsgId) (t : Traffic)
    → let m = chars (message_name i) in
      let inbound = collect_inbound_edges cs i m t.edges in
      (collect_msg_edges cs i t).edges
      ≡ pick
          (py_publishes cs i)
          (py_subscribes cs i)
          (internal_cxx_subscribes cs i)
          (internal_cxx_publishes cs i)
          inbound
          (collect_outbound_edges cs i m t.edges)
          (collect_outbound_edges cs i m inbound)
          (collect_internal_edges cs cs i m t.edges)
          t.edges
unfolding collect_msg_edges pick
edges-collect_msg_edges cs i t = simp (edges-if)

module _ (cs : List Service) (n : Bytes) (p s : Service) where
  collect_msg_edges_lem :
      (i : MsgId) (t : Traffic)
      → has_edge (between p s) n (collect_msg_edges cs i t).edges
        ≡ (flows cs p s i && text_eq n (chars (message_name i))) || has_edge (between p s) n t.edges
  unfolding flows
  collect_msg_edges_lem i t =
      let m = chars (message_name i) in
      let has = has_edge (between p s) n in
      let inbound = collect_inbound_edges cs i m t.edges in
      rw
        (
          edges-collect_msg_edges cs i t,
          apply-pick has,
          has_edge-collect_outbound_edges i n m p s cs inbound,
          has_edge-collect_outbound_edges i n m p s cs t.edges,
          has_edge-collect_inbound_edges i n m p s cs t.edges,
          has_edge-collect_internal_edges i n m p s cs cs t.edges,
          service_eq_bridge p,
          service_eq_bridge s,
        )
        (decide (py_publishes cs i) (py_subscribes cs i) (internal_cxx_subscribes cs i)
          (internal_cxx_publishes cs i) (is_bridge p) (is_bridge s) (in_tuple s cs)
          (component_subscribes s i && not (is_bridge s)) (in_tuple p cs)
          (component_publishes p i && not (is_bridge p)) (text_eq n m) (has t.edges)
          (any_component_lem (λ c. component_subscribes c i && not (is_bridge c)) s cs)
          (any_component_lem (λ c. component_publishes c i && not (is_bridge c)) p cs)
          (λ h. ground arith) (λ h. ground arith))

  collect_all_lem :
      (ids : List MsgId) (t : Traffic)
      → has_edge (between p s) n (collect_all cs ids t).edges
        ≡ any_message (λ i. flows cs p s i && text_eq n (chars (message_name i))) ids
          || has_edge (between p s) n t.edges
  unfolding collect_all any_message
  collect_all_lem [] t = refl
  collect_all_lem (i ∷ ids) t =
      rw (collect_all_lem ids (collect_msg_edges cs i t), collect_msg_edges_lem i t)
        (or_rotate _ (flows cs p s i && text_eq n (chars (message_name i)))
          (has_edge (between p s) n t.edges))

  -- For any two components, and any text: the diagram has an arrow from the first to the second
  -- whose label lists the text if and only if one of the messages has the text as its name and goes from
  -- the first to the second. Here a message goes from the bridge to a service that subscribes to it,
  -- and from a service that publishes it to the bridge, if the bridge publishes it or subscribes to it.
  -- It goes between two services if one publishes it, the other subscribes to it, and the bridge does
  -- neither. The services are those of the tuple.
  pub diagram_edges :
      (ids : List MsgId)
      → has_edge (between p s) n (collect_all cs ids no_traffic).edges
        ≡ any_message (λ i. flows cs p s i && text_eq n (chars (message_name i))) ids
  unfolding has_edge
  diagram_edges ids = collect_all_lem ids no_traffic ∙ or_none _
