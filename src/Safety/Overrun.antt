-- ===== src/Safety/Overrun.antt =====
-- A route with more than eight nodes: the command is stored with its number of nodes, and the array
-- of the route is read past its end.
use reflect_pytest.Prelude.{
  ◌<◌, ◌≡◌, true, false, none, some, List, [], ◌∷◌, length, get_elem?, get_elem?-none, arith,
  Option-cases, inl, inr,
}
use reflect_pytest.Float.{Float}
use reflect_pytest.Messages.{Msg, info, ManeuverNode, KinematicsPayload}
use reflect_pytest.World.{World, Lock, Platform, LogCall, Cmd, autonomous_mu}
use reflect_pytest.Services.Autonomous.{
  next_node, publish_motor_sequence_for_current_node, on_kinematics, arrive, record_stats, ask,
  has_reached,
}
use reflect_pytest.Safety.Rules.{Below, with_lock-InOrder, took}
use reflect_pytest.Safety.Log.{log_info-eq, after_log}

module _ {F : Type 0} ⦃fl : Float F⦄ ⦃pl : Platform F⦄ (publish : Msg F → Cmd F) where
  next_node_overruns :
      (held : List Lock) (w : World F)
      → length w.autonomous.cmd.route ≡ 8
      → w.autonomous.current_node_idx ≡ 7
      → 8 < w.autonomous.cmd.num_nodes
      → next_node publish held w ≡ none
  unfolding next_node publish_motor_sequence_for_current_node
  next_node_overruns held w l i h =
      let past = get_elem?-none w.autonomous.cmd.route 8 (omega arith) in ground arith

  record_stats-keeps :
      (place : F) (held : List Lock) (w w' : World F)
      → record_stats publish place held w ≡ some w'
      → (w'.autonomous.cmd ≡ w.autonomous.cmd)
        × (w'.autonomous.current_node_idx ≡ w.autonomous.current_node_idx)
  unfolding record_stats
  record_stats-keeps place held w w' e = ground arith

  arrive_overruns :
      (place : F) (held : List Lock) (w : World F)
      → Below 8 held
      → length w.autonomous.cmd.route ≡ 8
      → w.autonomous.current_node_idx ≡ 7
      → 8 < w.autonomous.cmd.num_nodes
      → arrive publish place held w ≡ none
  unfolding arrive
  arrive_overruns place held w b l i h =
      rw (log_info-eq "auto" (LogCall.reached_node w.autonomous.current_node_idx) held w b)
        (elim (Option-cases (record_stats publish place held w1)) [
          | inl e ↦ rw e
          | inr (w2, e) ↦
              let (cmd, idx) = record_stats-keeps place held w1 w2 e in
              rw e (next_node_overruns held w2 (ground arith) (ground arith) (ground arith))
        ])
    where
      w1 : World F
      w1 = after_log info "auto" (LogCall.reached_node w.autonomous.current_node_idx) held w

  -- When a vehicle without environment tuning reaches the eighth node of an active route that names
  -- more than eight nodes, the handler reads past the end of the route's array. That holds
  -- whatever the bus does, with no mutex held.
  pub on_kinematics_overruns :
      (kin : KinematicsPayload F) (node : ManeuverNode F) (w : World F)
      → length w.autonomous.cmd.route ≡ 8
      → w.autonomous.route_active ≡ true
      → w.autonomous.cmd.use_environment_tuning ≡ false
      → w.autonomous.current_node_idx ≡ 7
      → 8 < w.autonomous.cmd.num_nodes
      → get_elem? w.autonomous.cmd.route 7 ≡ some node
      → has_reached node w.autonomous.last_pos_m kin.position_m ≡ true
      → on_kinematics publish kin [] w ≡ none
  unfolding on_kinematics ask
  on_kinematics_overruns kin node w l a t i h n r =
      let w1 = took autonomous_mu [] w in
      let over = arrive_overruns kin.position_m (autonomous_mu ∷ []) w1 (omega arith) l i h in
      rw (with_lock-InOrder autonomous_mu _ [] w (inr tt)) (ground arith)
