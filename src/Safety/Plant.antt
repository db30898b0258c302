-- ===== src/Safety/Plant.antt =====
-- The handlers of the state, kinematics, power and thermal services, of the log worker and of the
-- bridge return and keep the invariant.
use reflect_pytest.Prelude.{
  ℕ, ◌+◌, ◌%◌, ◌^◌, inl, inr, List, [], ◌∷◌, arith, ◌==◌, not, Bool-cases, if◌then◌else◌,
}
use reflect_pytest.Float.{Float}
use reflect_pytest.Messages.{
  Msg, PhysicsTickPayload, MotorStatusPayload, EnvironmentPayload, LogPayload, ready, executing,
}
use reflect_pytest.World.{
  World, Lock, state_mu, kinematics_mu, power_mu, thermal_mu, peer_mu, log_mu, Platform, Cmd,
}
use reflect_pytest.Services.State
use reflect_pytest.Services.State.{state_eq}
use reflect_pytest.Services.Kinematics
use reflect_pytest.Services.Power
use reflect_pytest.Services.Thermal
use reflect_pytest.Services.Log.{process, worker_round, beat}
use reflect_pytest.Bridge.{forward_to_udp}
use reflect_pytest.Safety.Rules.{
  Returns, returns, Returns-bind, Returns-lock, Returns-locked, Below, Below-mono,
}
use reflect_pytest.Safety.Inv.{Inv, Sound}
use reflect_pytest.Safety.Log.{log-eq, log-Returns}

module _ {F : Type 0} ⦃fl : Float F⦄ ⦃pl : Platform F⦄ where
  pub forward_to_udp-Returns :
      (n : ℕ) (m : Msg F) (held : List Lock) (w : World F)
      → Below 7 held
      → Inv n w
      → Returns (Inv n) (forward_to_udp m held w)
  unfolding forward_to_udp
  forward_to_udp-Returns n m held w b i =
      Returns-lock peer_mu _ held _ (inr b) (elim (Bool-cases w.bridge.peer_valid) [
        | inl on ↦ rw on (returns (ground arith))
        | inr off ↦ rw off (returns (ground arith))
      ])

  pub beat-Returns : (n : ℕ) (w : World F) → Inv n w → Returns (Inv n) (beat [] w)
  unfolding beat
  beat-Returns n w i = rw (log-eq _ [] _ tt) (returns (ground arith))

module _ {F : Type 0} ⦃fl : Float F⦄ ⦃pl : Platform F⦄ (publish : Msg F → Cmd F) where
  pub state-on_motor_status-Returns :
      (n : ℕ) (ms : MotorStatusPayload) (held : List Lock) (w : World F)
      → Below 3 held
      → Inv n w
      → Returns (Inv n) (State.on_motor_status publish ms held w)
  unfolding State.on_motor_status
  state-on_motor_status-Returns n ms held w b i =
      let next = if ms.is_active then executing else ready in
      Returns-lock state_mu _ held _ (inr b)
        (elim (Bool-cases (not (state_eq next w.state.state))) [
          | inl on ↦
              rw on (
                log-Returns _ _ _ _ _ (omega arith, Below-mono held (omega arith) b) (ground arith))
          | inr off ↦ rw off (returns (ground arith))
        ])

module _ {F : Type 0} ⦃fl : Float F⦄ ⦃pl : Platform F⦄ (publish : Msg F → Cmd F)
    (sound : Sound publish 1) where
  pub on_state_request-Returns :
      (n r : ℕ) (held : List Lock) (w : World F)
      → Below 1 held
      → Inv n w
      → Returns (Inv n) (State.on_state_request publish r held w)
  unfolding State.on_state_request
  on_state_request-Returns n r held w b i =
      let low : Below 3 held = Below-mono held (omega arith) b in
      Returns-locked state_mu _ _ held w low
        (sound.returns_from n _ _ _ (omega arith) b tt (ground arith))

  process-Returns :
      (n : ℕ) (ps : List LogPayload) (held : List Lock) (w : World F)
      → Below 1 held
      → Inv n w
      → Returns (Inv n) (process publish ps held w)
  unfolding process
  process-Returns n [] held w b i = returns i
  process-Returns n (p ∷ ps) held w b i =
      Returns-bind (sound.returns_from n _ _ _ (omega arith) b tt (ground arith))
        λ w' i'. process-Returns n ps held w' b i'

  pub worker_round-Returns :
      (n : ℕ) (w : World F) → Inv n w → Returns (Inv n) (worker_round publish [] w)
  unfolding worker_round
  worker_round-Returns n w i =
      Returns-locked log_mu _ _ [] w tt (process-Returns n _ [] _ tt (ground arith))

module _ {F : Type 0} ⦃fl : Float F⦄ ⦃pl : Platform F⦄ (publish : Msg F → Cmd F) where
  pub kinematics-on_physics_tick-Returns :
      (n : ℕ) (p : PhysicsTickPayload) (held : List Lock) (w : World F)
      → Below 1 held
      → Inv n w
      → Returns (Inv n) (Kinematics.on_physics_tick publish p held w)
  unfolding Kinematics.on_physics_tick
  kinematics-on_physics_tick-Returns n p held w b i =
      let low : Below 4 held = Below-mono held (omega arith) b in
      Returns-lock kinematics_mu _ held _ (inr low)
        (elim (Bool-cases ((w.kinematics.count + 1) % 2 ^ 32 % 100 == 0)) [
          | inl on ↦
              rw on (
                log-Returns _ _ _ _ _ (omega arith, Below-mono held (omega arith) b) (ground arith))
          | inr off ↦ rw off (returns (ground arith))
        ])

  pub kinematics-on_motor_status-Returns :
      (n : ℕ) (ms : MotorStatusPayload) (held : List Lock) (w : World F)
      → Below 3 held
      → Inv n w
      → Returns (Inv n) (Kinematics.on_motor_status publish ms held w)
  unfolding Kinematics.on_motor_status
  kinematics-on_motor_status-Returns n ms held w b i =
      let low : Below 4 held = Below-mono held (omega arith) b in
      Returns-lock kinematics_mu _ held _ (inr low) (returns (ground arith))

  pub power-on_physics_tick-Returns :
      (n : ℕ) (p : PhysicsTickPayload) (held : List Lock) (w : World F)
      → Below 1 held
      → Inv n w
      → Returns (Inv n) (Power.on_physics_tick publish p held w)
  unfolding Power.on_physics_tick
  power-on_physics_tick-Returns n p held w b i =
      let low : Below 5 held = Below-mono held (omega arith) b in
      Returns-lock power_mu _ held _ (inr low)
        (elim (Bool-cases ((w.power.count + 1) % 2 ^ 32 % 100 == 0)) [
          | inl on ↦
              rw on (
                log-Returns _ _ _ _ _ (omega arith, Below-mono held (omega arith) b) (ground arith))
          | inr off ↦ rw off (returns (ground arith))
        ])

  pub power-on_motor_status-Returns :
      (n : ℕ) (ms : MotorStatusPayload) (held : List Lock) (w : World F)
      → Below 3 held
      → Inv n w
      → Returns (Inv n) (Power.on_motor_status publish ms held w)
  unfolding Power.on_motor_status
  power-on_motor_status-Returns n ms held w b i =
      let low : Below 5 held = Below-mono held (omega arith) b in
      Returns-lock power_mu _ held _ (inr low) (returns (ground arith))

  pub thermal-on_physics_tick-Returns :
      (n : ℕ) (p : PhysicsTickPayload) (held : List Lock) (w : World F)
      → Below 1 held
      → Inv n w
      → Returns (Inv n) (Thermal.on_physics_tick publish p held w)
  unfolding Thermal.on_physics_tick
  thermal-on_physics_tick-Returns n p held w b i =
      let low : Below 6 held = Below-mono held (omega arith) b in
      Returns-lock thermal_mu _ held _ (inr low)
        (elim (Bool-cases ((w.thermal.count + 1) % 2 ^ 32 % 100 == 0)) [
          | inl on ↦
              rw on (
                log-Returns _ _ _ _ _ (omega arith, Below-mono held (omega arith) b) (ground arith))
          | inr off ↦ rw off (returns (ground arith))
        ])

  pub thermal-on_environment-Returns :
      (n : ℕ) (e : EnvironmentPayload F) (held : List Lock) (w : World F)
      → Below 1 held
      → Inv n w
      → Returns (Inv n) (Thermal.on_environment publish e held w)
  unfolding Thermal.on_environment
  thermal-on_environment-Returns n e held w b i =
      let low : Below 6 held = Below-mono held (omega arith) b in
      Returns-lock thermal_mu _ held _ (inr low) (returns (ground arith))

module _ {F : Type 0} ⦃fl : Float F⦄ ⦃pl : Platform F⦄ (publish : Msg F → Cmd F)
    (sound : Sound publish 1) where
  pub on_power_request-Returns :
      (n r : ℕ) (held : List Lock) (w : World F)
      → Below 1 held
      → Inv n w
      → Returns (Inv n) (Power.on_power_request publish r held w)
  unfolding Power.on_power_request
  on_power_request-Returns n r held w b i =
      let low : Below 5 held = Below-mono held (omega arith) b in
      Returns-locked power_mu _ _ held w low
        (sound.returns_from n _ _ _ (omega arith) b tt (ground arith))

  pub on_thermal_request-Returns :
      (n r : ℕ) (held : List Lock) (w : World F)
      → Below 1 held
      → Inv n w
      → Returns (Inv n) (Thermal.on_thermal_request publish r held w)
  unfolding Thermal.on_thermal_request
  on_thermal_request-Returns n r held w b i =
      let low : Below 6 held = Below-mono held (omega arith) b in
      Returns-locked thermal_mu _ _ held w low
        (sound.returns_from n _ _ _ (omega arith) b tt (ground arith))

module _ {F : Type 0} ⦃fl : Float F⦄ ⦃pl : Platform F⦄ (publish : Msg F → Cmd F)
    (sound : Sound publish 5) where
  pub on_kinematics_request-Returns :
      (n r : ℕ) (held : List Lock) (w : World F)
      → Below 1 held
      → Inv n w
      → Returns (Inv n) (Kinematics.on_kinematics_request publish r held w)
  unfolding Kinematics.on_kinematics_request
  on_kinematics_request-Returns n r held w b i =
      let low : Below 4 held = Below-mono held (omega arith) b in
      Returns-locked kinematics_mu _ _ held w low
        (sound.returns_from n _ _ _ (omega arith) b tt (ground arith))
