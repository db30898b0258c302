-- ===== src/Services/Thermal.antt =====
-- src/services/thermal_service.cpp: the temperatures of motor and battery.
use reflect_pytest.Prelude.{ℕ, ◌+◌, ◌%◌, ◌^◌, pos, nat_abs, ◌==◌}
use reflect_pytest.Float.{Float}
use reflect_pytest.Messages.{Msg, EnvironmentPayload, PhysicsTickPayload}
use reflect_pytest.World.{
  ThermalService, Platform, LogCall, Cmd, ◌>>◌, ◌>>=◌, modify, the, when, locked, copy, with_lock,
  thermal_mu,
}
use reflect_pytest.Services.Log.{log_info}
use reflect_pytest.Services.Kinematics.{seconds}

module _ {F : Type 0} where
  abbrev pub set_thermal : (ThermalService F → ThermalService F) → Cmd F
  set_thermal f = modify (λ w. record w { thermal = f w.thermal })

module _ {F : Type 0} ⦃fl : Float F⦄ where
  -- A body's temperature after a tick: heat by the speed, less cooling to the ambient temperature.
  abbrev pub heat : F → F → PhysicsTickPayload → F → F → F
  heat generated cooled tick ambient temp =
      let heat_rate = fl.mul (fl.of_int (pos (nat_abs tick.speed_rpm))) generated in
      let cooling_rate = fl.mul (fl.sub temp ambient) cooled in
      fl.add temp (fl.mul (fl.sub heat_rate cooling_rate) (seconds tick.dt_us))

  -- The members after a tick.
  unfoldable pub warm : PhysicsTickPayload → ThermalService F → ThermalService F
  warm tick t = record t {
    motor_temp_c = heat (fl.lit 5 3) (fl.lit 5 2) tick t.ambient_temp_c t.motor_temp_c;
    battery_temp_c = heat (fl.lit 2 3) (fl.lit 2 2) tick t.ambient_temp_c t.battery_temp_c;
    count = (t.count + 1) % 2 ^ 32;
  }

module _ {F : Type 0} ⦃fl : Float F⦄ ⦃pl : Platform F⦄ (publish : Msg F → Cmd F) where
  unfoldable pub on_physics_tick : PhysicsTickPayload → Cmd F
  unfolding warm
  on_physics_tick tick = with_lock thermal_mu do
    set_thermal (warm tick)
    t ← the (λ w. w.thermal)
    when (t.count % 100 == 0)
        (log_info "thermal" (LogCall.temperatures t.motor_temp_c t.battery_temp_c))

  unfoldable pub on_environment : EnvironmentPayload F → Cmd F
  on_environment env =
      with_lock thermal_mu (set_thermal λ t. record t { ambient_temp_c = env.ambient_temp_c })

  -- on_message(ThermalRequestPayload), which is publish_data.
  unfoldable pub on_thermal_request : ℕ → Cmd F
  on_thermal_request reserved = locked thermal_mu (copy λ w. w.thermal) λ t. publish (
      Msg.thermal_data
        (record { motor_temp_c = t.motor_temp_c; battery_temp_c = t.battery_temp_c }))
