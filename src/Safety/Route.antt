-- ===== src/Safety/Route.antt =====
-- Reaching the nodes of a route keeps the invariant: the kinematics handler of the autonomous service.
use reflect_pytest.Prelude.{
  ℕ, ◌+◌, ◌%◌, ◌^◌, ◌≡◌, refl, inl, inr, true, not, ◌||◌, List, ◌∷◌, get_elem?-some, length-set,
  arith, ltb, leb, Bool-cases,
}
use reflect_pytest.Float.{Float}
use reflect_pytest.Messages.{Msg, KinematicsPayload, ManeuverNode}
use reflect_pytest.World.{World, Lock, holds, autonomous_mu, Platform, Cmd, when, bind}
use reflect_pytest.Services.Autonomous.{
  is_outside, has_reached, stats_at, record_stats, next_node, arrive, ask, set_autonomous,
  on_kinematics,
}
use reflect_pytest.Safety.Rules.{
  Returns, returns, Returns-bind, Returns-read, Returns-lock, Below, Below-mono, InOrder-first,
  took,
}
use reflect_pytest.Safety.Inv.{Inv, Sound}
use reflect_pytest.Safety.Log.{log-Returns}
use reflect_pytest.Safety.Autonomous.{deref-Returns, publish_motor-Returns}

module _ {F : Type 0} ⦃fl : Float F⦄ ⦃pl : Platform F⦄ (publish : Msg F → Cmd F) where
  record_stats-Returns :
      (n : ℕ) (place : F) (held : List Lock) (w : World F)
      → Inv n w
      → Returns (Inv n) (record_stats publish place held w)
  unfolding record_stats
  record_stats-Returns n place held w i =
      let a = w.autonomous in
      elim (Bool-cases (ltb a.status.num_stats 8)) [
        | inl room ↦
            let slots = a.status.node_stats in
            let (slot, at) = get_elem?-some slots a.status.num_stats (ground arith) in
            let written = length-set slots a.status.num_stats (stats_at a place) in
            rw room (Returns-read _ at (returns (ground arith)))
        | inr full ↦ rw full (returns i)
      ]

  -- The two ways on from a node that has been reached.
  next_node-Returns :
      (sound : Sound publish 2) (n : ℕ) (held : List Lock) (w : World F)
      → Below 2 held
      → Inv n w
      → Returns (Inv n) (next_node publish held w)
  unfolding next_node
  next_node-Returns sound n held w b i =
      let a = w.autonomous in
      let idx = (a.current_node_idx + 1) % 2 ^ 8 in
      let low : Below 7 held = Below-mono held (omega arith) b in
      elim (Bool-cases (leb a.cmd.num_nodes idx)) [
        | inl over ↦ rw over (
            Returns-bind (log-Returns n _ _ held _ (Below-mono held (omega arith) b) (ground arith))
              λ w1 i1.
                Returns-bind (sound.returns_from n _ held w1 (omega arith) low tt i1)
                  λ w2 i2. sound.returns_from n _ held w2 (omega arith) b refl i2)
        | inr more ↦ rw more (
            publish_motor-Returns publish sound n held _ b (ground arith)
              (i.route_speed (ground arith)) (ground arith))
      ]

  arrive-Returns :
      (sound : Sound publish 2) (n : ℕ) (place : F) (held : List Lock) (w : World F)
      → Below 2 held
      → Inv n w
      → Returns (Inv n) (arrive publish place held w)
  unfolding arrive
  arrive-Returns sound n place held w b i =
      Returns-bind (log-Returns n _ _ held w (Below-mono held (omega arith) b) i) λ w1 i1.
        Returns-bind (record_stats-Returns n place held w1 i1)
          λ w2 i2. next_node-Returns sound n held w2 b i2

  ask-Returns :
      (sound : Sound publish 4) (n : ℕ) (kin : KinematicsPayload F) (held : List Lock) (w : World F)
      → Below 1 held
      → holds autonomous_mu held ≡ true
      → Inv n w
      → Returns (Inv n) (ask publish kin held w)
  unfolding ask
  ask-Returns sound n kin held w b h i =
      let (env, e) = deref-Returns w.heap w.autonomous.current_env_ptr i.env_ptr_valid in
      elim (Bool-cases w.autonomous.cmd.use_environment_tuning) [
        | inl tuning ↦ rw tuning (
            Returns-read _ e (elim (Bool-cases (is_outside kin.position_m env)) [
              | inl out ↦
                  rw out (sound.returns_from n _ held _ (omega arith) (b, h) tt (ground arith))
              | inr within ↦ rw within (returns (ground arith))
            ]))
        | inr off ↦ rw off (returns (ground arith))
      ]

  weaker : Sound publish 4 → Sound publish 2
  weaker sound = record {
    returns_from = λ n m held w h. sound.returns_from n m held w (omega arith);
  }

  -- The end of the handler, after the request for a region.
  check-Returns :
      (sound : Sound publish 2) (n : ℕ) (node : ManeuverNode F) (place : F) (held : List Lock)
      (w : World F)
      → Below 2 held
      → Inv n w
      → Returns (Inv n) (
          bind
            (when (has_reached node w.autonomous.last_pos_m place) (arrive publish place) held w)
            (set_autonomous (λ a. record a { last_pos_m = place }) held))
  check-Returns sound n node place held w b i =
      elim (Bool-cases (has_reached node w.autonomous.last_pos_m place)) [
        | inl reached ↦
            rw reached (
              Returns-bind (arrive-Returns sound n place held w b i)
                λ w' i'. returns (ground arith))
        | inr not_yet ↦ rw not_yet (returns (ground arith))
      ]

  pub on_kinematics-Returns :
      (sound : Sound publish 4) (n : ℕ) (kin : KinematicsPayload F) (held : List Lock) (w : World F)
      → Below 1 held
      → Inv n w
      → Returns (Inv n) (on_kinematics publish kin held w)
  unfolding on_kinematics holds
  on_kinematics-Returns sound n kin held w b i =
      let a = w.autonomous in
      let o = InOrder-first held b in
      let inner : Below 1 (autonomous_mu ∷ held) = (omega arith, b) in
      Returns-lock autonomous_mu _ held _ o
        (elim (Bool-cases (not a.route_active || leb a.cmd.num_nodes a.current_node_idx)) [
          | inl idle ↦ rw idle (returns (ground arith))
          | inr driving ↦
              let (node, at) = get_elem?-some a.cmd.route a.current_node_idx (ground arith) in
              rw driving (
                Returns-read _ at (
                  Returns-bind
                    (ask-Returns sound n kin (autonomous_mu ∷ held) (took autonomous_mu held w)
                      inner refl (ground arith))
                    λ w' i'.
                      check-Returns (weaker sound) n node kin.position_m (autonomous_mu ∷ held) w'
                        (Below-mono (autonomous_mu ∷ held) (omega arith) inner) i'))
        ])
