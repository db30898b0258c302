-- ===== src/Docs/Flow/Direction.antt =====
-- The badge of a message on its page, and the labels of the two arrows of the sockets.
use reflect_pytest.Prelude.{
  or_none, text_eq, has_name, ◌≡◌, ◌∙◌, refl, Bool, true, false, ◌&&◌, ◌||◌, if◌then◌else◌, List,
  [], ◌∷◌, arith, chars,
}
use reflect_pytest.Messages.{MsgId}
use reflect_pytest.World.{Service}
use reflect_pytest.Docs.Text.{Bytes}
use reflect_pytest.Docs.Flow.{
  message_name, Names, insert_name, Traffic, collect_msg_edges, collect_all, no_traffic,
}
use reflect_pytest.Docs.Page.{Direction, inbound, outbound, bidirectional, direction}
use reflect_pytest.Docs.Flow.Edges.{has_name-insert_name}
use reflect_pytest.Docs.Flow.Diagram.{any_message}

abbrev pub enters : Direction → Bool
enters inbound = true
enters bidirectional = true
enters _ = false

abbrev pub leaves : Direction → Bool
leaves outbound = true
leaves bidirectional = true
leaves _ = false

insert_if :
    (b : Bool) (n m : Bytes) (ns : Names)
    → has_name n (if b then insert_name m ns else ns) ≡ (b && text_eq n m) || has_name n ns
insert_if true n m ns = has_name-insert_name n m ns
insert_if false n m ns = refl

module _ (cs : List Service) (n : Bytes) where
  names-collect_msg_edges :
      (i : MsgId) (t : Traffic)
      → let m = chars (message_name i) in
        ((collect_msg_edges cs i t).inbound_msg_names ≡ (
          if enters (direction cs i)
          then insert_name m t.inbound_msg_names
          else t.inbound_msg_names))
        × ((collect_msg_edges cs i t).outbound_msg_names ≡ (
            if leaves (direction cs i)
            then insert_name m t.outbound_msg_names
            else t.outbound_msg_names))
  unfolding collect_msg_edges direction
  names-collect_msg_edges i t = ground arith

  names-collect_all :
      (ids : List MsgId) (t : Traffic)
      → (has_name n (collect_all cs ids t).inbound_msg_names
          ≡ any_message (λ i. enters (direction cs i) && text_eq n (chars (message_name i))) ids
            || has_name n t.inbound_msg_names)
        × (has_name n (collect_all cs ids t).outbound_msg_names
            ≡ any_message (λ i. leaves (direction cs i) && text_eq n (chars (message_name i))) ids
              || has_name n t.outbound_msg_names)
  unfolding collect_all any_message
  names-collect_all [] t = (refl, refl)
  names-collect_all (i ∷ ids) t =
      let m = chars (message_name i) in
      let (entered, left) = names-collect_msg_edges i t in
      let (enter, leave) = names-collect_all ids (collect_msg_edges cs i t) in
      (
        rw (enter, entered, insert_if (enters (direction cs i)) n m t.inbound_msg_names)
            (ground arith),
        rw (leave, left, insert_if (leaves (direction cs i)) n m t.outbound_msg_names)
            (ground arith),
      )

  -- For any text: the label of the arrow into the simulator lists the text if and only if it is the name of one of
  -- the messages whose section says "Inbound" or "Bidirectional", and the label of the arrow out
  -- of it if and only if the section of such a message says "Outbound" or "Bidirectional".
  pub socket_labels :
      (ids : List MsgId)
      → (has_name n (collect_all cs ids no_traffic).inbound_msg_names
          ≡ any_message (λ i. enters (direction cs i) && text_eq n (chars (message_name i))) ids)
        × (has_name n (collect_all cs ids no_traffic).outbound_msg_names
            ≡ any_message (λ i. leaves (direction cs i) && text_eq n (chars (message_name i))) ids)
  socket_labels ids =
      let (enter, leave) = names-collect_all ids no_traffic in
      (enter ∙ or_none _, leave ∙ or_none _)
