-- ===== src/Docs/Flow/Kept.antt =====
-- What every insertion of an edge between some components keeps is kept by the collection of all
-- edges, if the components of the tuple and the bridge are among them.
use reflect_pytest.Prelude.{
  Bool, true, false, not, ◌&&◌, if◌then◌else◌, List, [], ◌∷◌, chars, All, arith, Bool-cases, inl,
  inr,
}
use reflect_pytest.Messages.{MsgId}
use reflect_pytest.World.{Service, udp_bridge}
use reflect_pytest.Docs.Text.{Bytes}
use reflect_pytest.Docs.Flow.Edges.{between}
use reflect_pytest.Docs.Flow.Diagram.{pick, edges-collect_msg_edges}
use reflect_pytest.Docs.Flow.{
  insert_edge, component_publishes, is_bridge, message_name, Traffic, collect_inbound_edges,
  collect_outbound_edges, collect_internal_edges_impl, collect_internal_edges, collect_all, EdgeMap,
}

module _ (Known : Service → Type 0) (Keeps : EdgeMap → Type 0) (bridge-Known : Known udp_bridge)
    (kept : (c d : Service) (n : Bytes) (edges : EdgeMap)
      → Known c
      → Known d
      → Keeps edges
      → Keeps (insert_edge (between c d) n edges)) where
  insert_if :
      (test : Bool) (c d : Service) (n : Bytes) (edges : EdgeMap)
      → Known c
      → Known d
      → Keeps edges
      → Keeps (if test then insert_edge (between c d) n edges else edges)
  insert_if true c d n edges kc kd h = kept c d n edges kc kd h
  insert_if false c d n edges kc kd h = h

  module _ (i : MsgId) (n : Bytes) where
    inbound-Keeps :
        (cs : List Service) (edges : EdgeMap)
        → All Known cs
        → Keeps edges
        → Keeps (collect_inbound_edges cs i n edges)
    unfolding collect_inbound_edges
    inbound-Keeps [] edges k h = h
    inbound-Keeps (c ∷ cs) edges (k, ks) h =
        inbound-Keeps cs _ ks (insert_if _ udp_bridge c n edges bridge-Known k h)

    outbound-Keeps :
        (cs : List Service) (edges : EdgeMap)
        → All Known cs
        → Keeps edges
        → Keeps (collect_outbound_edges cs i n edges)
    unfolding collect_outbound_edges
    outbound-Keeps [] edges k h = h
    outbound-Keeps (c ∷ cs) edges (k, ks) h =
        outbound-Keeps cs _ ks (insert_if _ c udp_bridge n edges k bridge-Known h)

    internal_impl-Keeps :
        (p : Service) (cs : List Service) (edges : EdgeMap)
        → Known p
        → All Known cs
        → Keeps edges
        → Keeps (collect_internal_edges_impl cs i n p edges)
    unfolding collect_internal_edges_impl
    internal_impl-Keeps p [] edges kp k h = h
    internal_impl-Keeps p (c ∷ cs) edges kp (k, ks) h =
        internal_impl-Keeps p cs _ kp ks (insert_if _ p c n edges kp k h)

    internal-Keeps :
        (all cs : List Service) (edges : EdgeMap)
        → All Known all
        → All Known cs
        → Keeps edges
        → Keeps (collect_internal_edges all cs i n edges)
    unfolding collect_internal_edges
    internal-Keeps all [] edges ka k h = h
    internal-Keeps all (c ∷ cs) edges ka (k, ks) h =
        internal-Keeps all cs _ ka ks
          (elim (Bool-cases (component_publishes c i && not (is_bridge c))) [
            | inl sends ↦ rw sends (internal_impl-Keeps c all edges k ka h)
            | inr silent ↦ rw silent h
          ])

  pick-Keeps :
      (pp ps cs cp : Bool) (i o b n e : EdgeMap)
      → Keeps i
      → Keeps o
      → Keeps b
      → Keeps n
      → Keeps e
      → Keeps (pick pp ps cs cp i o b n e)
  unfolding pick
  pick-Keeps pp ps cs cp i o b n e hi ho hb hn he = ground arith

  pub collect_all-Keeps :
      (cs : List Service) (ids : List MsgId) (t : Traffic)
      → All Known cs
      → Keeps t.edges
      → Keeps (collect_all cs ids t).edges
  unfolding collect_all
  collect_all-Keeps cs [] t k h = h
  collect_all-Keeps cs (i ∷ ids) t k h =
      let m = chars (message_name i) in
      let inbound = inbound-Keeps i m cs t.edges k h in
      collect_all-Keeps cs ids _ k (
        rw (edges-collect_msg_edges cs i t) (
          pick-Keeps _ _ _ _ _ _ _ _ _ inbound (outbound-Keeps i m cs t.edges k h)
            (outbound-Keeps i m cs _ k inbound) (internal-Keeps i m cs cs t.edges k k h) h))

-- Any components.
pub All-known : (cs : List Service) → All (λ c. Unit {0}) cs
All-known [] = tt
All-known (c ∷ cs) = (tt, All-known cs)
