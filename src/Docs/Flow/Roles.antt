-- ===== src/Docs/Flow/Roles.antt =====
-- generator/doc_generator.h: the components and messages by name, and who sends and receives what.
use Prim.Native.String.{String}
use reflect_pytest.Prelude.{Bool, true, false, not, ◌&&◌, ◌||◌, if◌then◌else◌, List, [], ◌∷◌}
use reflect_pytest.Messages.{MsgId, id_eq, id_value}
use reflect_pytest.World.{
  Service, motor, kinematics, power, state, thermal, environment, autonomous, log, udp_bridge,
}
use reflect_pytest.Bridge.{subscribes, publishes}

-- std::meta::identifier_of a component.
abbrev pub component_name : Service → String
component_name motor = "MotorService"
component_name kinematics = "KinematicsService"
component_name power = "PowerService"
component_name state = "StateService"
component_name thermal = "ThermalService"
component_name environment = "EnvironmentService"
component_name autonomous = "AutonomousService"
component_name log = "LogService"
component_name udp_bridge = "UdpBridge"

-- MessageTraits<id>::name.
abbrev pub message_name : MsgId → String
message_name MsgId.log = "Log"
message_name MsgId.physics_tick = "PhysicsTick"
message_name MsgId.state_request = "StateRequest"
message_name MsgId.state_data = "StateData"
message_name MsgId.motor_sequence = "MotorSequence"
message_name MsgId.motor_status = "MotorStatus"
message_name MsgId.kinematics_request = "KinematicsRequest"
message_name MsgId.kinematics_data = "KinematicsData"
message_name MsgId.power_request = "PowerRequest"
message_name MsgId.power_data = "PowerData"
message_name MsgId.thermal_request = "ThermalRequest"
message_name MsgId.thermal_data = "ThermalData"
message_name MsgId.environment_ack = "EnvironmentAck"
message_name MsgId.environment_request = "EnvironmentRequest"
message_name MsgId.environment_data = "EnvironmentData"
message_name MsgId.auto_drive_command = "AutoDriveCommand"
message_name MsgId.auto_drive_status = "AutoDriveStatus"
message_name MsgId.internal_env_request = "InternalEnvRequest"
message_name MsgId.internal_env_data = "InternalEnvData"

unfoldable pub contains_msg : MsgId → List MsgId → Bool
unfolding id_value
contains_msg id [] = false
contains_msg id (first ∷ rest) = if id_eq id first then true else contains_msg id rest

abbrev pub component_subscribes : Service → MsgId → Bool
component_subscribes c id = contains_msg id (subscribes c)

abbrev pub component_publishes : Service → MsgId → Bool
component_publishes c id = contains_msg id (publishes c)

-- std::is_same_v<Comp, ipc::UdpBridge>.
abbrev pub is_bridge : Service → Bool
is_bridge udp_bridge = true
is_bridge _ = false

-- A fold over || of a test at each component of the tuple.
unfoldable pub any_component : (Service → Bool) → List Service → Bool
any_component test [] = false
any_component test (c ∷ cs) = test c || any_component test cs

abbrev pub internal_cxx_subscribes : List Service → MsgId → Bool
internal_cxx_subscribes cs id =
    any_component (λ c. component_subscribes c id && not (is_bridge c)) cs

abbrev pub internal_cxx_publishes : List Service → MsgId → Bool
internal_cxx_publishes cs id = any_component (λ c. component_publishes c id && not (is_bridge c)) cs

abbrev pub py_subscribes : List Service → MsgId → Bool
py_subscribes cs id = any_component (λ c. component_subscribes c id && is_bridge c) cs

abbrev pub py_publishes : List Service → MsgId → Bool
py_publishes cs id = any_component (λ c. component_publishes c id && is_bridge c) cs
