-- ===== src/App/Lifecycle.antt =====
-- The lifecycle state follows the reports of the motor, and the clock ticks at the reported speed
-- while the motor runs, and at speed 0 otherwise.
use reflect_pytest.Prelude.{
  pos, ◌≡◌, ap, ◌∙◌, inr, inl, not, if◌then◌else◌, [], ◌∷◌, arith, Bool-cases,
}
use reflect_pytest.Messages.{Msg, MotorStatusPayload, ready, executing}
use reflect_pytest.World.{World, Platform, Cmd, ◌>>◌, bind, state_mu, holds, locked, StateService}
use reflect_pytest.Safety.Rules.{Returns, returns, Returns-some, Returns-lock}
use reflect_pytest.Safety.Log.{log-after}
use reflect_pytest.Services.State.{on_motor_status, clock_round, tick_us, state_eq}

module _ {F : Type 0} ⦃pl : Platform F⦄ (publish : Msg F → Cmd F) where
  -- The members of the state service after a report.
  abbrev reported : MotorStatusPayload → StateService
  reported ms = record {
    state = if ms.is_active then executing else ready;
    last_cmd_id = ms.cmd_id;
    last_rpm = ms.speed_rpm;
    last_active = ms.is_active;
  }

  on_motor_status-reported :
      (ms : MotorStatusPayload) (w : World F)
      → Returns (λ w'. w'.state ≡ reported ms) (on_motor_status publish ms [] w)
  unfolding on_motor_status
  on_motor_status-reported ms w =
      let next = if ms.is_active then executing else ready in
      Returns-lock state_mu _ [] w (inr tt) (elim (Bool-cases (not (state_eq next w.state.state))) [
        | inl on ↦ rw on (log-after _ _ _ _ (omega arith, tt) (ground arith))
        | inr off ↦ rw off (returns (ground arith))
      ])

  -- A report of the motor decides the lifecycle state, Executing for an active motor and Ready for
  -- any other, whatever it was before; and if the clock comes round next, it publishes one tick of
  -- 10 ms with the command and speed of the report, the speed 0 if the motor is not active.
  pub status_then_clock :
      (ms : MotorStatusPayload) (w : World F)
      → (w' : World F) × ((on_motor_status publish ms >> clock_round publish) [] w
          ≡ publish
              (Msg.physics_tick (record {
                cmd_id = ms.cmd_id;
                speed_rpm = if ms.is_active then ms.speed_rpm else pos 0;
                dt_us = tick_us;
              }))
              []
              w')
        × (w'.state ≡ record {
          state = if ms.is_active then executing else ready;
          last_cmd_id = ms.cmd_id;
          last_rpm = ms.speed_rpm;
          last_active = ms.is_active;
        })
  unfolding clock_round locked holds
  status_then_clock ms w =
      let (w1, e, reported) =
        Returns-some (λ v. v.state ≡ reported ms) (on_motor_status-reported ms w) in
      (
        record w1 { acquired = (state_mu, []) ∷ w1.acquired },
        ap (λ o. bind o (clock_round publish [])) e ∙ ground arith,
        reported,
      )
