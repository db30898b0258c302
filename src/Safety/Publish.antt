-- ===== src/Safety/Publish.antt =====
-- A publish on the wired bus returns: no handler faults, and the fuel covers the nesting.
use reflect_pytest.Prelude.{ℕ, zero, suc, ◌≤◌, ◌≡◌, true, List, [], ◌∷◌, All, arith}
use reflect_pytest.Float.{Float}
use reflect_pytest.Messages.{Msg, msg_id}
use reflect_pytest.World.{
  World, Lock, Service, motor, kinematics, power, state, thermal, environment, autonomous,
  udp_bridge, Platform, Cmd,
}
use reflect_pytest.Bridge.{subscribes, is_in_list}
use reflect_pytest.Bus.{wire_services, each, handle, publish}
use reflect_pytest.Bus.Wiring.{subscribers, handlers-wire_services, subscribers_subscribe}
use reflect_pytest.Safety.Rules.{Returns, returns, Returns-bind, Below-mono}
use reflect_pytest.Safety.Inv.{Inv, Sound, height, MayHold, IsSafe}
use reflect_pytest.Safety.Motor
use reflect_pytest.Safety.Plant
use reflect_pytest.Safety.Environment
use reflect_pytest.Safety.Autonomous
use reflect_pytest.Safety.Route

module _ {F : Type 0} ⦃fl : Float F⦄ where
  pub Sound-le : {send : Msg F → Cmd F} {k : ℕ} (j : ℕ) → Sound send k → j ≤ k → Sound send j
  Sound-le j s h = record {
    returns_from = λ n m held w le. s.returns_from n m held w (omega arith);
  }

  no_height : (m : Msg F) → ¬ (height m ≤ 0)
  no_height (Msg.log p) h = omega arith
  no_height _ h = omega arith

module _ {F : Type 0} ⦃fl : Float F⦄ ⦃pl : Platform F⦄ (send : Msg F → Cmd F) (k : ℕ)
    (sound : Sound send k) where
  handle-Returns :
      (s : Service) (m : Msg F) (n : ℕ) (held : List Lock) (w : World F)
      → is_in_list (msg_id m) (subscribes s) ≡ true
      → height m ≤ suc k
      → MayHold m held
      → IsSafe n m
      → Inv n w
      → Returns (Inv n) (handle send s m held w)
  unfolding handle is_in_list subscribes
  handle-Returns motor (Msg.motor_sequence p) n held w e h b f i =
      Motor.on_motor_sequence-Returns send (Sound-le 1 sound (omega arith)) n p held w b f i
  handle-Returns motor (Msg.physics_tick p) n held w e h b f i =
      Motor.on_physics_tick-Returns send (Sound-le 1 sound (omega arith)) n p held w b i
  handle-Returns kinematics (Msg.physics_tick p) n held w e h b f i =
      Plant.kinematics-on_physics_tick-Returns send n p held w b i
  handle-Returns kinematics (Msg.kinematics_request p) n held w e h b f i =
      Plant.on_kinematics_request-Returns send (Sound-le 5 sound (omega arith)) n p held w b i
  handle-Returns kinematics (Msg.motor_status p) n held w e h b f i =
      Plant.kinematics-on_motor_status-Returns send n p held w b i
  handle-Returns power (Msg.physics_tick p) n held w e h b f i =
      Plant.power-on_physics_tick-Returns send n p held w b i
  handle-Returns power (Msg.power_request p) n held w e h b f i =
      Plant.on_power_request-Returns send (Sound-le 1 sound (omega arith)) n p held w b i
  handle-Returns power (Msg.motor_status p) n held w e h b f i =
      Plant.power-on_motor_status-Returns send n p held w b i
  handle-Returns state (Msg.state_request p) n held w e h b f i =
      Plant.on_state_request-Returns send (Sound-le 1 sound (omega arith)) n p held w b i
  handle-Returns state (Msg.motor_status p) n held w e h b f i =
      Plant.state-on_motor_status-Returns send n p held w b i
  handle-Returns thermal (Msg.physics_tick p) n held w e h b f i =
      Plant.thermal-on_physics_tick-Returns send n p held w b i
  handle-Returns thermal (Msg.environment_data p) n held w e h b f i =
      Plant.thermal-on_environment-Returns send n p held w b i
  handle-Returns thermal (Msg.thermal_request p) n held w e h b f i =
      Plant.on_thermal_request-Returns send (Sound-le 1 sound (omega arith)) n p held w b i
  handle-Returns environment (Msg.environment_data p) n held w e h b f i =
      Environment.on_environment-Returns send (Sound-le 1 sound (omega arith)) n p held w b f i
  handle-Returns environment (Msg.internal_env_request p) n held w e h b f i =
      Environment.on_internal_env_request-Returns send (Sound-le 3 sound (omega arith)) n p held w
        b.0 b.1 i
  handle-Returns autonomous (Msg.auto_drive_command p) n held w e h b f i =
      Autonomous.on_auto_drive_command-Returns send (Sound-le 2 sound (omega arith)) n p held w b
        f.0 f.1 f.2 f.3 i
  handle-Returns autonomous (Msg.kinematics_data p) n held w e h b f i =
      Route.on_kinematics-Returns send (Sound-le 4 sound (omega arith)) n p held w b i
  handle-Returns autonomous (Msg.physics_tick p) n held w e h b f i =
      Autonomous.on_physics_tick-Returns send (Sound-le 6 sound (omega arith)) n p held w b i
  handle-Returns autonomous (Msg.power_data p) n held w e h b f i =
      Autonomous.on_power-Returns send n p held w b i
  handle-Returns autonomous (Msg.internal_env_data p) n held w e h b f i =
      Autonomous.on_internal_env_data-Returns send (Sound-le 2 sound (omega arith)) n p held w b.0
        b.1 f i
  handle-Returns udp_bridge (Msg.log p) n held w e h b f i =
      Plant.forward_to_udp-Returns n _ held w (Below-mono held (omega arith) b) i
  handle-Returns udp_bridge (Msg.state_data p) n held w e h b f i =
      Plant.forward_to_udp-Returns n _ held w (Below-mono held (omega arith) b) i
  handle-Returns udp_bridge (Msg.kinematics_data p) n held w e h b f i =
      Plant.forward_to_udp-Returns n _ held w (Below-mono held (omega arith) b) i
  handle-Returns udp_bridge (Msg.power_data p) n held w e h b f i =
      Plant.forward_to_udp-Returns n _ held w (Below-mono held (omega arith) b) i
  handle-Returns udp_bridge (Msg.thermal_data p) n held w e h b f i =
      Plant.forward_to_udp-Returns n _ held w (Below-mono held (omega arith) b) i
  handle-Returns udp_bridge (Msg.environment_ack p) n held w e h b f i =
      Plant.forward_to_udp-Returns n _ held w b i
  handle-Returns udp_bridge (Msg.auto_drive_status p) n held w e h b f i =
      Plant.forward_to_udp-Returns n _ held w b i
  handle-Returns udp_bridge (Msg.environment_request p) n held w e h b f i =
      Plant.forward_to_udp-Returns n _ held w b i
  handle-Returns s m n held w e h b f i = cc

  each-Returns :
      (ss : List Service) (m : Msg F) (n : ℕ) (held : List Lock) (w : World F)
      → All (λ s. is_in_list (msg_id m) (subscribes s) ≡ true) ss
      → height m ≤ suc k
      → MayHold m held
      → IsSafe n m
      → Inv n w
      → Returns (Inv n) (each (λ s. handle send s m) ss held w)
  unfolding each
  each-Returns [] m n held w a h b f i = returns i
  each-Returns (s ∷ ss) m n held w (a, as_) h b f i =
      Returns-bind (handle-Returns s m n held w a h b f i)
        λ w' i'. each-Returns ss m n held w' as_ h b f i'

module _ {F : Type 0} ⦃fl : Float F⦄ ⦃pl : Platform F⦄ (order : List Service) where
  -- Fuel as high as a message is enough for it.
  pub publish-Sound : (fuel : ℕ) → Sound {F = F} (publish (wire_services order []) fuel) fuel
  unfolding publish
  publish-Sound zero = record { returns_from = λ n m held w h. absurd (no_height m h) }
  publish-Sound (suc fuel) =
      let inner = publish-Sound fuel in
      record {
        returns_from = λ n m held w h b f i. rw (handlers-wire_services (msg_id m) order) (
            each-Returns (publish (wire_services order []) fuel) fuel inner
              (subscribers (msg_id m) order) m n held _ (subscribers_subscribe (msg_id m) order) h b
              f (ground arith));
      }
