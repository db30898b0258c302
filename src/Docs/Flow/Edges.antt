-- ===== src/Docs/Flow/Edges.antt =====
-- What each loop adds to the edges of the diagram.
use reflect_pytest.Prelude.{
  or_none, and_none, text_eq, has_name, text_eq→eq, ◌≡◌, refl, sym, ◌∙◌, ap, Bool, true, false, not,
  ◌&&◌, ◌||◌, if◌then◌else◌, List, [], ◌∷◌, Bool-cases, inl, inr,
}
use reflect_pytest.Messages.{MsgId}
use reflect_pytest.World.{Service, udp_bridge}
use reflect_pytest.Docs.Text.{Bytes}
use reflect_pytest.Docs.Flow.{
  component_id, Arrow, arrow_eq, arrow_lt, text_lt, Names, insert_name, EdgeMap, insert_edge,
  is_bridge, component_subscribes, component_publishes, collect_inbound_edges,
  collect_outbound_edges, collect_internal_edges_impl, collect_internal_edges,
}
use reflect_pytest.Docs.Flow.Ids.{arrow_eq→eq, service_eq, service_eq→eq}

-- The diagram has an edge for the arrow, and its label lists the name.
unfoldable pub has_edge : Arrow → Bytes → EdgeMap → Bool
has_edge a n [] = false
has_edge a n ((b, ns) ∷ edges) = (arrow_eq a b && has_name n ns) || has_edge a n edges

or_twice : (a b : Bool) → a || (a || b) ≡ a || b
or_twice true b = refl
or_twice false b = refl

or_swap : (a b c : Bool) → a || (b || c) ≡ b || (a || c)
or_swap true true c = refl
or_swap true false c = refl
or_swap false b c = refl

or_assoc : (a b c : Bool) → (a || b) || c ≡ b || (a || c)
or_assoc true true c = refl
or_assoc true false c = refl
or_assoc false b c = refl

and_or : (a b c d : Bool) → (a && (b || c)) || d ≡ (a && b) || ((a && c) || d)
and_or true true c d = refl
and_or true false c d = refl
and_or false b c d = refl

pub has_name-insert_name :
    (n m : Bytes) (ns : Names) → has_name n (insert_name m ns) ≡ text_eq n m || has_name n ns
unfolding insert_name
has_name-insert_name n m [] = refl
has_name-insert_name n m (k ∷ ns) = elim (Bool-cases (text_eq m k)) [
  | inl same ↦ rw same (rw (text_eq→eq m k same) (sym (or_twice (text_eq n k) (has_name n ns))))
  | inr other ↦ elim (Bool-cases (text_lt m k)) [
    | inl less ↦ rw (other, less) refl
    | inr greater ↦
        rw (other, greater, has_name-insert_name n m ns)
          (or_swap (text_eq n k) (text_eq n m) (has_name n ns))
  ]
]

pub has_edge-insert_edge :
    (a b : Arrow) (n m : Bytes) (edges : EdgeMap)
    → has_edge a n (insert_edge b m edges) ≡ (arrow_eq a b && text_eq n m) || has_edge a n edges
unfolding has_edge insert_edge
has_edge-insert_edge a b n m [] = rw (or_none (text_eq n m)) refl
has_edge-insert_edge a b n m ((c, ns) ∷ edges) = elim (Bool-cases (arrow_eq b c)) [
  | inl same ↦ rw same (
      rw (has_name-insert_name n m ns, arrow_eq→eq b c same)
        (and_or (arrow_eq a c) (text_eq n m) (has_name n ns) (has_edge a n edges)))
  | inr other ↦ elim (Bool-cases (arrow_lt b c)) [
    | inl less ↦ rw (other, less, or_none (text_eq n m)) refl
    | inr greater ↦
        rw (other, greater, has_edge-insert_edge a b n m edges)
          (or_swap (arrow_eq a c && has_name n ns) (arrow_eq a b && text_eq n m)
            (has_edge a n edges))
  ]
]

-- The tuple has the component.
unfoldable pub in_tuple : Service → List Service → Bool
in_tuple s [] = false
in_tuple s (c ∷ cs) = service_eq s c || in_tuple s cs

absorb : (a b c : Bool) → (a && b) || (b || c) ≡ b || c
absorb true b c = or_twice b c
absorb false b c = refl

and_left : (a b c : Bool) → (a && b) && c ≡ b && (a && c)
and_left true true c = refl
and_left true false c = refl
and_left false true c = refl
and_left false false c = refl

and_assoc : (a b c : Bool) → (a && b) && c ≡ a && (b && c)
and_assoc true b c = refl
and_assoc false b c = refl

-- A loop that tests each component, and acts on the ones that pass.
fold_step :
    (test : Service → Bool) (k : Service → Bool) (s c : Service) (cs : List Service) (rest : Bool)
    → (in_tuple s cs && (test s && k s)) || ((test c && (service_eq s c && k c)) || rest)
      ≡ (in_tuple s (c ∷ cs) && (test s && k s)) || rest
unfolding in_tuple
fold_step test k s c cs rest = elim (Bool-cases (service_eq s c)) [
  | inl same ↦ rw same (rw (service_eq→eq s c same) (absorb (in_tuple c cs) (test c && k c) rest))
  | inr other ↦ rw (other, and_none (test c)) refl
]

insert_if :
    (test : Bool) (a b : Arrow) (n m : Bytes) (edges : EdgeMap)
    → has_edge a n (if test then insert_edge b m edges else edges)
      ≡ (test && (arrow_eq a b && text_eq n m)) || has_edge a n edges
insert_if true a b n m edges = has_edge-insert_edge a b n m edges
insert_if false a b n m edges = refl

-- The edge that a diagram may have, with one of the messages.
abbrev pub between : Service → Service → Arrow
between p s = (component_id p, component_id s)

module _ (i : MsgId) (n m : Bytes) (p s : Service) where
  abbrev hears : Service → Bool
  hears c = component_subscribes c i && not (is_bridge c)

  abbrev tells : Service → Bool
  tells c = component_publishes c i && not (is_bridge c)

  pub has_edge-collect_inbound_edges :
      (cs : List Service) (edges : EdgeMap)
      → has_edge (between p s) n (collect_inbound_edges cs i m edges)
        ≡ (in_tuple s cs && (hears s && (service_eq p udp_bridge && text_eq n m)))
          || has_edge (between p s) n edges
  unfolding collect_inbound_edges in_tuple
  has_edge-collect_inbound_edges [] edges = refl
  has_edge-collect_inbound_edges (c ∷ cs) edges =
      rw
        (
          has_edge-collect_inbound_edges cs
              (if hears c then insert_edge (between udp_bridge c) m edges else edges),
          insert_if (hears c) (between p s) (between udp_bridge c) n m edges,
          and_left (service_eq p udp_bridge) (service_eq s c) (text_eq n m),
        )
        (fold_step hears (λ c. service_eq p udp_bridge && text_eq n m) s c cs
          (has_edge (between p s) n edges))

  pub has_edge-collect_outbound_edges :
      (cs : List Service) (edges : EdgeMap)
      → has_edge (between p s) n (collect_outbound_edges cs i m edges)
        ≡ (in_tuple p cs && (tells p && (service_eq s udp_bridge && text_eq n m)))
          || has_edge (between p s) n edges
  unfolding collect_outbound_edges in_tuple
  has_edge-collect_outbound_edges [] edges = refl
  has_edge-collect_outbound_edges (c ∷ cs) edges =
      rw
        (
          has_edge-collect_outbound_edges cs
              (if tells c then insert_edge (between c udp_bridge) m edges else edges),
          insert_if (tells c) (between p s) (between c udp_bridge) n m edges,
          and_assoc (service_eq p c) (service_eq s udp_bridge) (text_eq n m),
        )
        (fold_step tells (λ c. service_eq s udp_bridge && text_eq n m) p c cs
          (has_edge (between p s) n edges))

  has_edge-collect_internal_edges_impl :
      (publisher : Service) (cs : List Service) (edges : EdgeMap)
      → has_edge (between p s) n (collect_internal_edges_impl cs i m publisher edges)
        ≡ (in_tuple s cs && (hears s && (service_eq p publisher && text_eq n m)))
          || has_edge (between p s) n edges
  unfolding collect_internal_edges_impl in_tuple
  has_edge-collect_internal_edges_impl q [] edges = refl
  has_edge-collect_internal_edges_impl q (c ∷ cs) edges =
      rw
        (
          has_edge-collect_internal_edges_impl q cs
              (if hears c then insert_edge (between q c) m edges else edges),
          insert_if (hears c) (between p s) (between q c) n m edges,
          and_left (service_eq p q) (service_eq s c) (text_eq n m),
        )
        (fold_step hears (λ c. service_eq p q && text_eq n m) s c cs
          (has_edge (between p s) n edges))

  -- The subscribers of one publisher are those of any.
  impl_if :
      (test : Bool) (c : Service) (all : List Service) (edges : EdgeMap)
      → has_edge
          (between p s)
          n
          (if test then collect_internal_edges_impl all i m c edges else edges)
        ≡ (test && (service_eq p c && (in_tuple s all && (hears s && text_eq n m))))
          || has_edge (between p s) n edges
  impl_if true c all edges =
      has_edge-collect_internal_edges_impl c all edges
      ∙ ap (λ x. x || has_edge (between p s) n edges)
          (and_out (in_tuple s all) (hears s) (service_eq p c) (text_eq n m))
    where
      and_out : (a b e k : Bool) → a && (b && (e && k)) ≡ e && (a && (b && k))
      and_out true true e k = refl
      and_out true false e k = sym (and_none e)
      and_out false b e k = sym (and_none e)
  impl_if false c all edges = refl

  pub has_edge-collect_internal_edges :
      (all cs : List Service) (edges : EdgeMap)
      → has_edge (between p s) n (collect_internal_edges all cs i m edges)
        ≡ (in_tuple p cs && (tells p && (in_tuple s all && (hears s && text_eq n m))))
          || has_edge (between p s) n edges
  unfolding collect_internal_edges in_tuple
  has_edge-collect_internal_edges all [] edges = refl
  has_edge-collect_internal_edges all (c ∷ cs) edges =
      rw
        (
          has_edge-collect_internal_edges all cs
              (if tells c then collect_internal_edges_impl all i m c edges else edges),
          impl_if (tells c) c all edges,
        )
        (fold_step tells (λ c. in_tuple s all && (hears s && text_eq n m)) p c cs
          (has_edge (between p s) n edges))
