-- ===== src/Messages/Payloads.antt =====
-- The payload structs of messages/core_msgs.h, simulation_msgs.h and autonomous_msgs.h. A
-- `std::array` is a list whose length is part of `IsFormed`; a `char` array that the
-- program fills itself, which is always terminated, is the list of its characters up to the NUL; the one of
-- AutoDriveCommandPayload, which comes from the wire, is the list of all its bytes.
use reflect_pytest.Prelude.{
  ℕ, ◌≡◌, ◌==◌, Bool, if◌then◌else◌, Option, none, some, List, [], ◌∷◌, length, ℤ,
}
use reflect_pytest.Messages.Ids.{Severity, SystemState, MsgId}

pub record LogPayload : Type 0 where
  pub text : List ℕ
  pub severity : Severity
  pub component : List ℕ

pub record PhysicsTickPayload : Type 0 where
  pub cmd_id : ℕ
  pub speed_rpm : ℤ
  pub dt_us : ℕ

pub record MotorSubCmd : Type 0 where
  pub speed_rpm : ℤ
  pub duration_us : ℕ

abbrev pub max_sub_cmds : ℕ
max_sub_cmds = 5

pub record MotorSequencePayload : Type 0 where
  pub cmd_id : ℕ
  pub num_steps : ℕ
  pub steps : List MotorSubCmd

pub record MotorStatusPayload : Type 0 where
  pub cmd_id : ℕ
  pub speed_rpm : ℤ
  pub is_active : Bool

pub record EnvironmentAckPayload : Type 0 where
  pub region_id : ℕ

-- An `uint8_t` enumeration that came from the wire may hold a byte that no enumerator names.
pub data DriveMode : Type 0 where
  eco performance manual_tuning : DriveMode
  unnamed : ℕ → DriveMode

-- A pointer to an EnvironmentPayload: its place among the allocations.
pub record InternalEnvDataPayload : Type 0 where
  pub ptr : ℕ

module _ (F : Type 0) where
  pub record Point2D : Type 0 where
    pub x : F
    pub y : F

  pub record BoundingBox2D : Type 0 where
    pub min_pt : Point2D
    pub max_pt : Point2D

  pub record Vector3 : Type 0 where
    pub x : F
    pub y : F
    pub z : F

  pub record KinematicsPayload : Type 0 where
    pub cmd_id : ℕ
    pub elapsed_us : ℕ
    pub position_m : F
    pub speed_mps : F

  pub record PowerPayload : Type 0 where
    pub cmd_id : ℕ
    pub voltage_v : F
    pub current_a : F
    pub state_of_charge : ℕ

  pub record ThermalPayload : Type 0 where
    pub motor_temp_c : F
    pub battery_temp_c : F

  pub record EnvironmentRequestPayload : Type 0 where
    pub target_location : Point2D

  pub record EnvironmentPayload : Type 0 where
    pub region_id : ℕ
    pub bounds : BoundingBox2D
    pub ambient_temp_c : F
    pub incline_percent : F
    pub surface_friction : F
    pub max_speed_rpm : F

  pub record ManeuverNode : Type 0 where
    pub target_pos : Point2D
    pub timeout_ms : ℕ

  pub record AutoDriveCommandPayload : Type 0 where
    pub route_name : List ℕ  -- char[32]
    pub mode : DriveMode
    pub p_gain : F
    pub use_environment_tuning : Bool
    pub route_transform : List Vector3
    pub num_nodes : ℕ
    pub route : List ManeuverNode

  pub record ManeuverStats : Type 0 where
    pub initial_energy_mj : F
    pub final_energy_mj : F
    pub energy_per_meter_mj : F
    pub total_energy_used_mj : F

  pub record AutoDriveStatusPayload : Type 0 where
    pub cmd_id : ℕ
    pub current_node_idx : ℕ
    pub route_complete : Bool
    pub num_stats : ℕ
    pub node_stats : List ManeuverStats
    pub num_environments_used : ℕ
    pub environment_ids : List ℕ

  pub record InternalEnvRequestPayload : Type 0 where
    pub x : F
    pub y : F

  -- A message: the identifier with the payload that MessageTraits gives it. The sentinel of a
  -- request is its one byte `reserved`.
  pub data Msg : Type 0 where
    log : LogPayload → Msg
    physics_tick : PhysicsTickPayload → Msg
    state_request : ℕ → Msg
    state_data : SystemState → Msg
    motor_sequence : MotorSequencePayload → Msg
    motor_status : MotorStatusPayload → Msg
    kinematics_request : ℕ → Msg
    kinematics_data : KinematicsPayload → Msg
    power_request : ℕ → Msg
    power_data : PowerPayload → Msg
    thermal_request : ℕ → Msg
    thermal_data : ThermalPayload → Msg
    environment_ack : EnvironmentAckPayload → Msg
    environment_request : EnvironmentRequestPayload → Msg
    environment_data : EnvironmentPayload → Msg
    auto_drive_command : AutoDriveCommandPayload → Msg
    auto_drive_status : AutoDriveStatusPayload → Msg
    internal_env_request : InternalEnvRequestPayload → Msg
    internal_env_data : InternalEnvDataPayload → Msg

-- The identifier that a payload is bound to.
abbrev pub msg_id : {F : Type 0} → Msg F → MsgId
msg_id (Msg.log p) = MsgId.log
msg_id (Msg.physics_tick p) = MsgId.physics_tick
msg_id (Msg.state_request p) = MsgId.state_request
msg_id (Msg.state_data p) = MsgId.state_data
msg_id (Msg.motor_sequence p) = MsgId.motor_sequence
msg_id (Msg.motor_status p) = MsgId.motor_status
msg_id (Msg.kinematics_request p) = MsgId.kinematics_request
msg_id (Msg.kinematics_data p) = MsgId.kinematics_data
msg_id (Msg.power_request p) = MsgId.power_request
msg_id (Msg.power_data p) = MsgId.power_data
msg_id (Msg.thermal_request p) = MsgId.thermal_request
msg_id (Msg.thermal_data p) = MsgId.thermal_data
msg_id (Msg.environment_ack p) = MsgId.environment_ack
msg_id (Msg.environment_request p) = MsgId.environment_request
msg_id (Msg.environment_data p) = MsgId.environment_data
msg_id (Msg.auto_drive_command p) = MsgId.auto_drive_command
msg_id (Msg.auto_drive_status p) = MsgId.auto_drive_status
msg_id (Msg.internal_env_request p) = MsgId.internal_env_request
msg_id (Msg.internal_env_data p) = MsgId.internal_env_data

abbrev prefixed : ℕ → Option (List ℕ) → Option (List ℕ)
prefixed c none = none
prefixed c (some s) = some (c ∷ s)

-- What `%s` prints of a char array: the characters up to a NUL. Without one it reads past the end.
unfoldable pub c_string : List ℕ → Option (List ℕ)
c_string [] = none
c_string (c ∷ cs) = let rest = c_string cs in if c == 0 then some [] else prefixed c rest

-- The lengths of the fixed arrays.
abbrev pub IsFormed : {F : Type 0} → Msg F → Type 0
IsFormed (Msg.motor_sequence p) = length p.steps ≡ max_sub_cmds
IsFormed (Msg.auto_drive_command p) = length p.route ≡ 8
IsFormed _ = Unit
