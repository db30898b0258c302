-- ===== src/Services/Power.antt =====
-- src/services/power_service.cpp: the battery, drained by the load of the motor.
pub mod Limits
use reflect_pytest.Prelude.{ℕ, ◌+◌, ◌%◌, ◌^◌, ◌==◌, if◌then◌else◌}
use reflect_pytest.Float.{Float, nought, max_f, clamp_f}
use reflect_pytest.Messages.{Msg, MotorStatusPayload, PhysicsTickPayload}
use reflect_pytest.World.{
  PowerService, Platform, LogCall, Cmd, ◌>>◌, ◌>>=◌, modify, the, when, locked, copy, with_lock,
  power_mu,
}
use reflect_pytest.Services.Log.{log_info}
use reflect_pytest.Services.Kinematics.{seconds}

module _ {F : Type 0} where
  abbrev pub set_power : (PowerService F → PowerService F) → Cmd F
  set_power f = modify (λ w. record w { power = f w.power })

module _ {F : Type 0} ⦃fl : Float F⦄ where
  abbrev pub v_max : F
  v_max = fl.lit 126 1

  abbrev pub v_min : F
  v_min = fl.lit 105 1

  -- The current that the motor draws at a speed.
  abbrev pub load : F → F
  load rpm_abs = fl.add (fl.lit 1 1) (fl.mul (fl.lit 1863 7) (fl.pow rpm_abs (fl.lit 16 1)))

  -- The state of charge at a voltage, before the cast.
  abbrev pub charge : F → F
  charge v =
      clamp_f (fl.mul (fl.div (fl.sub v v_min) (fl.sub v_max v_min)) (fl.lit 100 0)) nought
        (fl.lit 100 0)

  -- The members after a tick.
  unfoldable pub drain : PhysicsTickPayload → PowerService F → PowerService F
  drain tick p =
      let current = load (fl.abs (fl.of_int tick.speed_rpm)) in
      let dv = fl.mul (fl.mul current (fl.lit 5 1)) (seconds tick.dt_us) in
      let voltage = max_f v_min (fl.sub p.voltage_v dv) in
      record {
        cmd_id = tick.cmd_id;
        voltage_v = voltage;
        current_a = current;
        soc = fl.to_u8 (charge voltage);
        count = (p.count + 1) % 2 ^ 32;
      }

  -- The members after a report of the motor.
  unfoldable pub observe : MotorStatusPayload → PowerService F → PowerService F
  observe ms p = record p {
    cmd_id = ms.cmd_id;
    current_a = if ms.is_active then p.current_a else nought;
  }

module _ {F : Type 0} ⦃fl : Float F⦄ ⦃pl : Platform F⦄ (publish : Msg F → Cmd F) where
  unfoldable pub on_physics_tick : PhysicsTickPayload → Cmd F
  unfolding drain
  on_physics_tick tick = with_lock power_mu do
    set_power (drain tick)
    p ← the (λ w. w.power)
    when (p.count % 100 == 0)
        (log_info "power" (LogCall.battery_levels p.voltage_v p.current_a p.soc))

  unfoldable pub on_motor_status : MotorStatusPayload → Cmd F
  unfolding observe
  on_motor_status ms = with_lock power_mu (set_power (observe ms))

  unfoldable pub on_power_request : ℕ → Cmd F
  on_power_request reserved = locked power_mu (copy λ w. w.power) λ p. publish (
      Msg.power_data (record {
        cmd_id = p.cmd_id;
        voltage_v = p.voltage_v;
        current_a = p.current_a;
        state_of_charge = p.soc;
      }))
