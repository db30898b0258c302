-- ===== src/Messages/Ids.antt =====
-- messages/msg_base.h: the enumerations, with the values that travel on the wire.
use reflect_pytest.Prelude.{ℕ, Bool, ◌==◌}

pub data Severity : Type 0 where
  debug info warn error : Severity

pub data SystemState : Type 0 where
  init ready executing stopping fault : SystemState

pub data MsgId : Type 0 where
  log : MsgId
  physics_tick : MsgId
  state_request : MsgId
  state_data : MsgId
  motor_sequence : MsgId
  motor_status : MsgId
  kinematics_request : MsgId
  kinematics_data : MsgId
  power_request : MsgId
  power_data : MsgId
  thermal_request : MsgId
  thermal_data : MsgId
  environment_ack : MsgId
  environment_request : MsgId
  environment_data : MsgId
  auto_drive_command : MsgId
  auto_drive_status : MsgId
  internal_env_request : MsgId
  internal_env_data : MsgId

-- static_cast<uint16_t>(Id).
unfoldable pub id_value : MsgId → ℕ
id_value MsgId.log = 0
id_value MsgId.physics_tick = 1
id_value MsgId.state_request = 2
id_value MsgId.state_data = 3
id_value MsgId.motor_sequence = 10
id_value MsgId.motor_status = 11
id_value MsgId.kinematics_request = 20
id_value MsgId.kinematics_data = 21
id_value MsgId.power_request = 30
id_value MsgId.power_data = 31
id_value MsgId.thermal_request = 40
id_value MsgId.thermal_data = 41
id_value MsgId.environment_ack = 50
id_value MsgId.environment_request = 51
id_value MsgId.environment_data = 52
id_value MsgId.auto_drive_command = 60
id_value MsgId.auto_drive_status = 61
id_value MsgId.internal_env_request = 1000
id_value MsgId.internal_env_data = 1001

-- Comparison of identifiers is comparison of their values.
abbrev pub id_eq : MsgId → MsgId → Bool
unfolding id_value
id_eq a b = id_value a == id_value b
