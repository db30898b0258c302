-- ===== src/Services/State.antt =====
-- src/services/state_service.cpp: the lifecycle state and the 100 Hz clock.
use reflect_pytest.Prelude.{ℕ, pos, Bool, not, ◌==◌, if◌then◌else◌}
use reflect_pytest.Messages.{
  SystemState, init, ready, executing, stopping, fault, Msg, MotorStatusPayload,
}
use reflect_pytest.World.{
  StateService, Platform, LogCall, Cmd, ◌>>◌, ◌>>=◌, modify, the, when, locked, copy, with_lock,
  state_mu,
}
use reflect_pytest.Services.Log.{log_info}

abbrev pub tick_us : ℕ
tick_us = 10_000

abbrev pub state_value : SystemState → ℕ
state_value init = 0
state_value ready = 1
state_value executing = 2
state_value stopping = 3
state_value fault = 4

abbrev pub state_eq : SystemState → SystemState → Bool
state_eq a b = state_value a == state_value b

module _ {F : Type 0} where
  abbrev pub set_state : (StateService → StateService) → Cmd F
  set_state f = modify (λ w. record w { state = f w.state })

module _ {F : Type 0} ⦃pl : Platform F⦄ (publish : Msg F → Cmd F) where
  unfoldable pub on_state_request : ℕ → Cmd F
  on_state_request reserved =
      locked state_mu (copy λ w. w.state) λ s. publish (Msg.state_data s.state)

  unfoldable pub on_motor_status : MotorStatusPayload → Cmd F
  on_motor_status ms = with_lock state_mu do
    set_state (λ s. record s {
      last_cmd_id = ms.cmd_id;
      last_rpm = ms.speed_rpm;
      last_active = ms.is_active;
    })
    s ← the (λ w. w.state)
    let next_state = if ms.is_active then executing else ready
    when (not (state_eq next_state s.state)) (
        set_state (λ s. record s { state = next_state })
        >> log_info "state" (LogCall.state_transition next_state))

  -- One round of clock_loop; the wait at its end is the time that passes until the next round.
  unfoldable pub clock_round : Cmd F
  clock_round = locked state_mu (copy λ w. w.state) λ s. publish (
      Msg.physics_tick (record {
        cmd_id = s.last_cmd_id;
        speed_rpm = if not (state_eq s.state executing) then pos 0 else s.last_rpm;
        dt_us = tick_us;
      }))
