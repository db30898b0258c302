-- ===== src/Docs/Dot/Declared.antt =====
-- generator/doc_generator.h: the declarations of the nodes of the diagram.
use mathlib.Core.List.{append_assoc}
use reflect_pytest.Prelude.{
  ◌≡◌, refl, sym, ◌∙◌, ap, true, List, [], ◌∷◌, ◌++◌, chars, All, text_eq_refl, arith, Bool-cases,
  inl, inr,
}
use reflect_pytest.Messages.{MsgId}
use reflect_pytest.World.{Service, udp_bridge}
use reflect_pytest.Docs.Text.{Bytes}
use reflect_pytest.Docs.Flow.{
  component_id, is_bridge, Arrow, arrow_eq, arrow_lt, EdgeMap, insert_edge, collect_all, no_traffic,
}
use reflect_pytest.Docs.Flow.Ids.{is_bridge→eq, service_eq, service_eq→eq}
use reflect_pytest.Docs.Flow.Edges.{in_tuple, between}
use reflect_pytest.Docs.Flow.Kept.{collect_all-Keeps}
use reflect_pytest.Docs.Dot.{node_lines, emit_node, emit_nodes}

-- The part stands somewhere in the text.
abbrev pub Contains : Bytes → Bytes → Type 0
Contains part text = (before : Bytes) × (after : Bytes) × (text ≡ before ++ (part ++ after))

pub in_front : (part text more : Bytes) → Contains part text → Contains part (text ++ more)
in_front part text more (before, after, e) = (
  before,
  after ++ more,
  rw (e, append_assoc before (part ++ after) more, append_assoc part after more) refl,
)

pub behind : (part text more : Bytes) → Contains part text → Contains part (more ++ text)
behind part text more (before, after, e) =
    (more ++ before, after, rw (e, append_assoc more before (part ++ after)) refl)

-- The start of a node's declaration.
abbrev pub node_head : Bytes → Bytes
node_head id = chars "    " ++ (id ++ chars " [\n")

-- The text declares a node of this identifier.
abbrev pub Declares : Bytes → Bytes → Type 0
Declares id text = Contains (node_head id) text

abbrev pub IsDeclared : Bytes → Arrow → Type 0
IsDeclared text a = Declares a.0 text × Declares a.1 text

module _ (get_desc : Service → Bytes) where
  node_start :
      (c : Service)
      → (after : Bytes) × (emit_node get_desc c
          ≡ chars "    " ++ (component_id c ++ (chars " [\n" ++ after)))
  unfolding emit_node node_lines
  node_start c = elim (Bool-cases (is_bridge c)) [
    | inl bridge ↦ rw (bridge, is_bridge→eq c bridge) (_, refl)
    | inr service ↦ rw service (_, refl)
  ]

  node_declared : (c : Service) → Declares (component_id c) (emit_node get_desc c)
  node_declared c =
      let (after, start) = node_start c in
      (
        [],
        after,
        start
            ∙ ap (λ t. chars "    " ++ t)
                (sym (append_assoc (component_id c) (chars " [\n") after)),
      )

  pub emit_nodes-Declares :
      (c : Service) (cs : List Service)
      → in_tuple c cs ≡ true
      → Declares (component_id c) (emit_nodes get_desc cs)
  unfolding in_tuple emit_nodes
  emit_nodes-Declares c [] h = absurd (ground arith)
  emit_nodes-Declares c (d ∷ cs) h = elim (Bool-cases (service_eq c d)) [
    | inl same ↦
        rw (service_eq→eq c d same)
          (in_front (node_head (component_id d)) _ (emit_nodes get_desc cs) (node_declared d))
    | inr other ↦
        behind (node_head (component_id c)) _ (emit_node get_desc d)
          (emit_nodes-Declares c cs (ground arith))
  ]

  All-declared :
      (all cs : List Service)
      → ((c : Service) → in_tuple c cs ≡ true → in_tuple c all ≡ true)
      → All (λ c. Declares (component_id c) (emit_nodes get_desc all)) cs
  unfolding in_tuple
  All-declared all [] inside = tt
  All-declared all (c ∷ cs) inside = (
    emit_nodes-Declares c all (inside c (rw (text_eq_refl (component_id c)) refl)),
    All-declared all cs (λ d h. inside d (ground (arith, h))),
  )

  insert_edge-IsDeclared :
      (text : Bytes) (a : Arrow) (n : Bytes) (edges : EdgeMap)
      → IsDeclared text a
      → All (λ e. IsDeclared text e.0) edges
      → All (λ e. IsDeclared text e.0) (insert_edge a n edges)
  unfolding insert_edge
  insert_edge-IsDeclared text a n [] d h = (d, tt)
  insert_edge-IsDeclared text a n ((b, ns) ∷ edges) d (h, hs) = elim (Bool-cases (arrow_eq a b)) [
    | inl same ↦ rw same (h, hs)
    | inr other ↦ elim (Bool-cases (arrow_lt a b)) [
      | inl less ↦ rw (other, less) (d, (h, hs))
      | inr greater ↦ rw (other, greater) (h, insert_edge-IsDeclared text a n edges d hs)
    ]
  ]

  -- The edges between components run between declared nodes.
  pub edges-IsDeclared :
      (cs : List Service) (ids : List MsgId)
      → in_tuple udp_bridge cs ≡ true
      → All (λ e. IsDeclared (emit_nodes get_desc cs) e.0) (collect_all cs ids no_traffic).edges
  edges-IsDeclared cs ids bridge =
      let text = emit_nodes get_desc cs in
      collect_all-Keeps (λ c. Declares (component_id c) text)
        (λ edges. All (λ e. IsDeclared text e.0) edges) (emit_nodes-Declares udp_bridge cs bridge)
        (λ c d n edges kc kd h. insert_edge-IsDeclared text (between c d) n edges (kc, kd) h) cs ids
        no_traffic (All-declared cs cs (λ c h. h)) tt
