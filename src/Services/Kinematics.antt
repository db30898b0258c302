-- ===== src/Services/Kinematics.antt =====
-- src/services/kinematics_service.cpp: position and speed, integrated tick by tick.
pub mod Clock
use reflect_pytest.Prelude.{ℕ, ◌+◌, ◌%◌, ◌^◌, pos, not, ◌&&◌, ◌==◌, if◌then◌else◌}
use reflect_pytest.Float.{Float, nought}
use reflect_pytest.Messages.{Msg, MotorStatusPayload, PhysicsTickPayload}
use reflect_pytest.World.{
  KinematicsService, Platform, LogCall, Cmd, ◌>>◌, ◌>>=◌, modify, the, when, locked, copy,
  with_lock, kinematics_mu,
}
use reflect_pytest.Services.Log.{log_info}

module _ {F : Type 0} where
  abbrev pub set_kinematics : (KinematicsService F → KinematicsService F) → Cmd F
  set_kinematics f = modify (λ w. record w { kinematics = f w.kinematics })

module _ {F : Type 0} ⦃fl : Float F⦄ where
  -- tick.dt_us / 1e6f, as every simulation service computes it.
  abbrev pub seconds : ℕ → F
  seconds dt_us = fl.div (fl.of_int (pos dt_us)) (fl.lit 1_000_000 0)

  -- The members after a tick.
  unfoldable pub integrate : PhysicsTickPayload → KinematicsService F → KinematicsService F
  integrate tick k =
      let speed = fl.mul (fl.of_int tick.speed_rpm) (fl.lit 1 2) in
      record {
        cmd_id = tick.cmd_id;
        elapsed_us = (k.elapsed_us + tick.dt_us) % 2 ^ 32;
        position_m = fl.add k.position_m (fl.mul speed (seconds tick.dt_us));
        speed_mps = speed;
        count = (k.count + 1) % 2 ^ 32;
      }

  -- The members after a report of the motor.
  unfoldable pub observe : MotorStatusPayload → KinematicsService F → KinematicsService F
  observe ms k =
      if ms.is_active && not (ms.cmd_id == k.cmd_id)
      then record k { cmd_id = ms.cmd_id; elapsed_us = 0 }
      else if not ms.is_active
      then record k { speed_mps = nought }
      else k

module _ {F : Type 0} ⦃fl : Float F⦄ ⦃pl : Platform F⦄ (publish : Msg F → Cmd F) where
  unfoldable pub on_physics_tick : PhysicsTickPayload → Cmd F
  unfolding integrate
  on_physics_tick tick = with_lock kinematics_mu do
    set_kinematics (integrate tick)
    k ← the (λ w. w.kinematics)
    when (k.count % 100 == 0)
        (log_info "kinematics" (LogCall.position_and_speed k.position_m k.speed_mps))

  unfoldable pub on_motor_status : MotorStatusPayload → Cmd F
  unfolding observe
  on_motor_status ms = with_lock kinematics_mu (set_kinematics (observe ms))

  unfoldable pub on_kinematics_request : ℕ → Cmd F
  on_kinematics_request reserved = locked kinematics_mu (copy λ w. w.kinematics) λ k. publish (
      Msg.kinematics_data (record {
        cmd_id = k.cmd_id;
        elapsed_us = k.elapsed_us;
        position_m = k.position_m;
        speed_mps = k.speed_mps;
      }))
