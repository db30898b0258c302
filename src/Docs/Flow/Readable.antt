-- ===== src/Docs/Flow/Readable.antt =====
-- The edges that are collected run between identifiers, so that their statements are read back.
use reflect_pytest.Prelude.{
  ◌≡◌, some, List, [], ◌∷◌, ◌++◌, length, map, chars, Bool-cases, inl, inr,
}
use reflect_pytest.Messages.{MsgId}
use reflect_pytest.World.{Service}
use reflect_pytest.Docs.Text.{Bytes}
use reflect_pytest.Docs.Text.Names.{dot_id-IsIdentifier}
use reflect_pytest.Docs.Flow.Edges.{between}
use reflect_pytest.Docs.Flow.Kept.{collect_all-Keeps, All-known}
use reflect_pytest.Docs.Flow.{
  insert_edge, arrow_eq, arrow_lt, component_id, component_name, no_traffic, collect_all, Arrow,
  EdgeMap, emit_edges,
}
use reflect_pytest.Docs.Flow.Statements.{
  IsWord, label_of, read_edges, IsReadable, read_edges-emit_edges,
}

insert_edge-IsReadable :
    (a : Arrow) (n : Bytes) (edges : EdgeMap)
    → IsWord a.0 × IsWord a.1
    → IsReadable edges
    → IsReadable (insert_edge a n edges)
unfolding insert_edge
insert_edge-IsReadable a n [] w h = (w, tt)
insert_edge-IsReadable a n ((b, ns) ∷ edges) w (h, hs) = elim (Bool-cases (arrow_eq a b)) [
  | inl same ↦ rw same (h, hs)
  | inr other ↦ elim (Bool-cases (arrow_lt a b)) [
    | inl less ↦ rw (other, less) (w, (h, hs))
    | inr greater ↦ rw (other, greater) (h, insert_edge-IsReadable a n edges w hs)
  ]
]

between-IsReadable :
    (c d : Service) (n : Bytes) (edges : EdgeMap)
    → IsReadable edges
    → IsReadable (insert_edge (between c d) n edges)
unfolding component_id
between-IsReadable c d n edges = insert_edge-IsReadable (between c d) n edges (
  (dot_id-IsIdentifier (chars (component_name c))).0.1,
  (dot_id-IsIdentifier (chars (component_name d))).0.1,
)

-- The statements that the generator prints for the edges between the components, followed by any
-- text, are read back as the edges that it collected: the same arrows in the same order, each
-- with its label without carriage returns, and the text that follows.
pub read_edges-collect_all :
    (cs : List Service) (ids : List MsgId) (s : Bytes)
    → let edges = (collect_all cs ids no_traffic).edges in
      read_edges (length edges) (emit_edges edges ++ s)
      ≡ some (map (λ e. (e.0, label_of e.1)) edges, s)
read_edges-collect_all cs ids s = read_edges-emit_edges _ s (
    collect_all-Keeps (λ c. Unit) IsReadable tt (λ c d n edges _ _. between-IsReadable c d n edges)
      cs ids no_traffic (All-known cs) tt)
