-- ===== src/Safety/Motor.antt =====
-- The handlers of the motor service return and keep the invariant.
use Prim.Native.Nat.{min}
use reflect_pytest.Prelude.{
  ℕ, ◌+◌, ◌%◌, ◌^◌, ◌≡◌, inl, inr, List, ◌∷◌, length, get_elem?-some, arith, ltb, leb, ◌==◌, ◌&&◌,
  ◌||◌, not, Bool-cases,
}
use reflect_pytest.Float.{Float}
use reflect_pytest.Messages.{Msg, MotorSequencePayload, PhysicsTickPayload, info}
use reflect_pytest.World.{World, Lock, motor_mu, Platform, LogCall, Cmd}
use reflect_pytest.Services.Motor.{limit_sequence, on_motor_sequence, on_physics_tick, advance_step}
use reflect_pytest.Services.Motor.Limits.{length-clamp_steps}
use reflect_pytest.Safety.Rules.{
  Returns, returns, Returns-bind, Returns-step, Returns-read, Returns-lock, Below, Below-mono, took,
}
use reflect_pytest.Safety.Inv.{Inv, Sound}
use reflect_pytest.Safety.Log.{log_info-eq, log-Returns, after_log-Inv}

module _ {F : Type 0} ⦃fl : Float F⦄ ⦃pl : Platform F⦄ (publish : Msg F → Cmd F)
    (sound : Sound publish 1) where
  pub on_motor_sequence-Returns :
      (n : ℕ) (p : MotorSequencePayload) (held : List Lock) (w : World F)
      → Below 2 held
      → length p.steps ≡ 5
      → Inv n w
      → Returns (Inv n) (on_motor_sequence publish p held w)
  unfolding on_motor_sequence
  on_motor_sequence-Returns n p held w b l i =
      let five = length-clamp_steps (min p.num_steps 5) p.steps in
      let low : Below 3 held = Below-mono held (omega arith) b in
      let inner : Below 3 (motor_mu ∷ held) = (omega arith, low) in
      let (first, e) = get_elem?-some (limit_sequence p).steps 0 (omega arith) in
      let high : Below 8 held = Below-mono held (omega arith) b in
      let j =
        after_log-Inv n info "motor" (LogCall.received_motor_sequence p.num_steps) held w high i in
      Returns-step _ (log_info-eq _ _ held w high) (
        Returns-lock motor_mu _ held _ (inr b) (
          Returns-read _ e
            (elim (Bool-cases (ltb 0 (limit_sequence p).num_steps && ltb 0 first.duration_us)) [
              | inl on ↦ rw on (sound.returns_from n _ _ _ (omega arith) inner tt (ground arith))
              | inr off ↦ rw off (
                  Returns-bind (sound.returns_from n _ _ _ (omega arith) inner tt (ground arith))
                    (λ w' i'.
                      log-Returns _ _ _ _ _ (Below-mono (motor_mu ∷ held) (omega arith) inner) i'))
            ])))

  advance_step-Returns :
      (n : ℕ) (held : List Lock) (w : World F)
      → Below 3 held
      → Inv n w
      → Returns (Inv n) (advance_step publish held w)
  unfolding advance_step
  advance_step-Returns n held w b i =
      let idx = (w.motor.current_step_idx + 1) % 2 ^ 8 in
      elim (Bool-cases (ltb idx w.motor.current_cmd.num_steps)) [
        | inl more ↦
            let (step, e) = get_elem?-some w.motor.current_cmd.steps idx (ground arith) in
            rw more (
              Returns-read _ e (
                Returns-bind (sound.returns_from n _ _ _ (omega arith) b tt (ground arith))
                  (λ w' i'. log-Returns _ _ _ _ _ (Below-mono held (omega arith) b) i')))
        | inr over ↦ rw over (
            Returns-bind (sound.returns_from n _ _ _ (omega arith) b tt (ground arith))
              (λ w' i'. log-Returns _ _ _ _ _ (Below-mono held (omega arith) b) i'))
      ]

  pub on_physics_tick-Returns :
      (n : ℕ) (p : PhysicsTickPayload) (held : List Lock) (w : World F)
      → Below 1 held
      → Inv n w
      → Returns (Inv n) (on_physics_tick publish p held w)
  unfolding on_physics_tick
  on_physics_tick-Returns n p held w b i =
      let low : Below 2 held = Below-mono held (omega arith) b in
      let inner : Below 3 (motor_mu ∷ held) = (omega arith, Below-mono held (omega arith) b) in
      Returns-lock motor_mu _ held _ (inr low)
        (elim (Bool-cases (not w.motor.active || not (p.cmd_id == w.motor.current_cmd.cmd_id))) [
          | inl off ↦ rw off (returns (ground arith))
          | inr on ↦ rw on (elim (Bool-cases (leb w.motor.step_remaining_us p.dt_us)) [
            | inl over ↦ rw over (
                advance_step-Returns n (motor_mu ∷ held) (took motor_mu held w) inner
                  (ground arith))
            | inr still ↦ rw still (returns (ground arith))
          ])
        ])
