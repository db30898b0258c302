-- ===== src/Services/Motor.antt =====
-- src/services/motor_service.cpp: the motor steps through a sequence of timed sub-commands.
pub mod Limits
pub mod Ticks
pub mod Speeds
pub mod Schedule
use Prim.Native.Nat.{min}
use reflect_pytest.Prelude.{
  ℕ, zero, suc, ◌+◌, ◌-◌, ◌%◌, ◌^◌, ℤ, pos, negsuc, ltb_ℤ, ltb, leb, ◌==◌, Bool, true, false, not,
  ◌&&◌, ◌||◌, if◌then◌else◌, List, [], ◌∷◌, get_elem?,
}
use reflect_pytest.Messages.{
  Msg, MotorSequencePayload, MotorSubCmd, PhysicsTickPayload, max_sub_cmds,
}
use reflect_pytest.World.{
  MotorService, Platform, LogCall, Cmd, ◌>>◌, ◌>>=◌, done, modify, the, with_lock, motor_mu,
}
use reflect_pytest.Services.Log.{log_info}

-- std::clamp(v, -6000, 6000).
unfoldable pub clamp_rpm : ℤ → ℤ
clamp_rpm v =
    if ltb_ℤ v (negsuc 5999) then negsuc 5999 else if ltb_ℤ (pos 6000) v then pos 6000 else v

-- The loop over the first `n` steps.
unfoldable pub clamp_steps : ℕ → List MotorSubCmd → List MotorSubCmd
unfolding clamp_rpm
clamp_steps zero steps = steps
clamp_steps (suc n) [] = []
clamp_steps (suc n) (s ∷ steps) =
    record s { speed_rpm = clamp_rpm s.speed_rpm } ∷ clamp_steps n steps

-- `cmd` as it is stored: at most five steps, with their speeds clamped.
unfoldable pub limit_sequence : MotorSequencePayload → MotorSequencePayload
unfolding clamp_steps
limit_sequence cmd =
    let n = min cmd.num_steps max_sub_cmds in
    record cmd { num_steps = n; steps = clamp_steps n cmd.steps }

module _ {F : Type 0} where
  abbrev pub set_motor : (MotorService → MotorService) → Cmd F
  set_motor f = modify (λ w. record w { motor = f w.motor })

  abbrev pub motor_status : ℕ → ℤ → Bool → Msg F
  motor_status cmd_id speed_rpm is_active =
      Msg.motor_status (record { cmd_id = cmd_id; speed_rpm = speed_rpm; is_active = is_active })

module _ {F : Type 0} ⦃pl : Platform F⦄ (publish : Msg F → Cmd F) where
  abbrev info : LogCall F → Cmd F
  info = log_info "motor"

  unfoldable pub on_motor_sequence : MotorSequencePayload → Cmd F
  unfolding limit_sequence
  on_motor_sequence cmd =
      info (LogCall.received_motor_sequence cmd.num_steps)
      >> with_lock motor_mu do
        let stored = limit_sequence cmd
        first ← (λ w. get_elem? stored.steps 0)
        if ltb 0 stored.num_steps && ltb 0 first.duration_us
            then set_motor (λ m. record m {
              current_cmd = stored;
              current_step_idx = 0;
              active = true;
              step_remaining_us = first.duration_us;
            })
              >> publish (motor_status stored.cmd_id first.speed_rpm true)
            else set_motor
                (λ m. record m { current_cmd = stored; current_step_idx = 0; active = false })
              >> publish (motor_status stored.cmd_id (pos 0) false)
              >> info (LogCall.motor_sequence_stopped stored.cmd_id)

  unfoldable pub advance_step : Cmd F
  advance_step = do
    set_motor (λ m. record m { current_step_idx = (m.current_step_idx + 1) % 2 ^ 8 })
    m ← the (λ w. w.motor)
    if ltb m.current_step_idx m.current_cmd.num_steps
        then (do
          step ← (λ w. get_elem? m.current_cmd.steps m.current_step_idx)
          set_motor (λ m. record m { step_remaining_us = step.duration_us })
          publish (motor_status m.current_cmd.cmd_id step.speed_rpm true)
          info (LogCall.advancing_to_step m.current_step_idx step.speed_rpm))
        else (do
          set_motor (λ m. record m { active = false })
          publish (motor_status m.current_cmd.cmd_id (pos 0) false)
          info (LogCall.motor_sequence_complete m.current_cmd.cmd_id))

  unfoldable pub on_physics_tick : PhysicsTickPayload → Cmd F
  unfolding advance_step
  on_physics_tick tick = with_lock motor_mu do
    m ← the (λ w. w.motor)
    if not m.active || not (tick.cmd_id == m.current_cmd.cmd_id)
        then done
        else if leb m.step_remaining_us tick.dt_us
        then advance_step
        else set_motor (λ m. record m { step_remaining_us = m.step_remaining_us - tick.dt_us })
