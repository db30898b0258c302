-- ===== src/Bus.antt =====
-- src/message_bus.*: the table of handlers, subscription and dispatch; with the wiring of component.h
-- and of app_components.h, where every service subscribes in its constructor.
pub mod Wiring
pub mod Broadcast
use reflect_pytest.Prelude.{ℕ, zero, suc, ◌==◌, if◌then◌else◌, Option, none, List, [], ◌∷◌, ◌++◌}
use reflect_pytest.Float.{Float}
use reflect_pytest.Messages.{Msg, MsgId, id_value, msg_id}
use reflect_pytest.World.{
  World, Service, motor, kinematics, power, state, thermal, environment, autonomous, log,
  udp_bridge, Platform, Cmd, ◌>>◌, done,
}
use reflect_pytest.Bridge.{subscribes, forward_to_udp}
use reflect_pytest.Services.Motor
use reflect_pytest.Services.State
use reflect_pytest.Services.Kinematics
use reflect_pytest.Services.Power
use reflect_pytest.Services.Thermal
use reflect_pytest.Services.Environment
use reflect_pytest.Services.Autonomous

-- handlers_: for each key the handlers in the order of subscription. A handler is named by the
-- service that registered it.
abbrev pub Bus : Type 0
Bus = List (ℕ × List Service)

-- MessageBus::subscribe: handlers_[key].push_back(h).
unfoldable pub subscribe : ℕ → Service → Bus → Bus
subscribe key s [] = (key, s ∷ []) ∷ []
subscribe key s ((k, hs) ∷ bus) =
    if k == key then (k, hs ++ s ∷ []) ∷ bus else (k, hs) ∷ subscribe key s bus

-- handlers_.find(key); a missing key has no handlers to call.
unfoldable pub handlers : ℕ → Bus → List Service
handlers key [] = []
handlers key ((k, hs) ∷ bus) = if k == key then hs else handlers key bus

-- bind_all over a list of ids.
unfoldable pub bind_all : Service → List MsgId → Bus → Bus
unfolding subscribe id_value
bind_all s [] bus = bus
bind_all s (i ∷ ids) bus = bind_all s ids (subscribe (id_value i) s bus)

-- The constructors run one after another; C++ leaves the order of the tuple's elements open.
unfoldable pub wire_services : List Service → Bus → Bus
unfolding bind_all subscribes
wire_services [] bus = bus
wire_services (s ∷ ss) bus = wire_services ss (bind_all s (subscribes s) bus)

module _ {F : Type 0} where
  -- The loop of dispatch.
  unfoldable pub each : (Service → Cmd F) → List Service → Cmd F
  each h [] = done
  each h (s ∷ ss) = h s >> each h ss

-- The handler that a service registered for a message. Another pair of service and message is a
-- handler that meets a payload of the wrong type: std::any_cast throws.
unfoldable pub handle :
    {F : Type 0} ⦃fl : Float F⦄ ⦃pl : Platform F⦄ → (Msg F → Cmd F) → Service → Msg F → Cmd F
handle publish motor (Msg.motor_sequence p) = Motor.on_motor_sequence publish p
handle publish motor (Msg.physics_tick p) = Motor.on_physics_tick publish p
handle publish kinematics (Msg.physics_tick p) = Kinematics.on_physics_tick publish p
handle publish kinematics (Msg.kinematics_request p) = Kinematics.on_kinematics_request publish p
handle publish kinematics (Msg.motor_status p) = Kinematics.on_motor_status publish p
handle publish power (Msg.physics_tick p) = Power.on_physics_tick publish p
handle publish power (Msg.power_request p) = Power.on_power_request publish p
handle publish power (Msg.motor_status p) = Power.on_motor_status publish p
handle publish state (Msg.state_request p) = State.on_state_request publish p
handle publish state (Msg.motor_status p) = State.on_motor_status publish p
handle publish thermal (Msg.physics_tick p) = Thermal.on_physics_tick publish p
handle publish thermal (Msg.environment_data p) = Thermal.on_environment publish p
handle publish thermal (Msg.thermal_request p) = Thermal.on_thermal_request publish p
handle publish environment (Msg.environment_data p) = Environment.on_environment publish p
handle publish environment (Msg.internal_env_request p) =
    Environment.on_internal_env_request publish p
handle publish autonomous (Msg.auto_drive_command p) = Autonomous.on_auto_drive_command publish p
handle publish autonomous (Msg.kinematics_data p) = Autonomous.on_kinematics publish p
handle publish autonomous (Msg.physics_tick p) = Autonomous.on_physics_tick publish p
handle publish autonomous (Msg.power_data p) = Autonomous.on_power publish p
handle publish autonomous (Msg.internal_env_data p) = Autonomous.on_internal_env_data publish p
handle publish udp_bridge (Msg.log p) = forward_to_udp (Msg.log p)
handle publish udp_bridge (Msg.state_data p) = forward_to_udp (Msg.state_data p)
handle publish udp_bridge (Msg.kinematics_data p) = forward_to_udp (Msg.kinematics_data p)
handle publish udp_bridge (Msg.power_data p) = forward_to_udp (Msg.power_data p)
handle publish udp_bridge (Msg.thermal_data p) = forward_to_udp (Msg.thermal_data p)
handle publish udp_bridge (Msg.environment_ack p) = forward_to_udp (Msg.environment_ack p)
handle publish udp_bridge (Msg.auto_drive_status p) = forward_to_udp (Msg.auto_drive_status p)
handle publish udp_bridge (Msg.environment_request p) = forward_to_udp (Msg.environment_request p)
handle publish s m = λ held w. none

module _ {F : Type 0} ⦃fl : Float F⦄ ⦃pl : Platform F⦄ where
  -- MessageBus::publish: every handler of the message runs before it returns, and may publish in
  -- turn. The fuel bounds the depth of that nesting.
  unfoldable pub publish : Bus → ℕ → Msg F → Cmd F
  publish bus zero m held w = none
  publish bus (suc fuel) m held w =
      each (λ s. handle (publish bus fuel) s m) (handlers (id_value (msg_id m)) bus) held
        (record w { published = m ∷ w.published })
