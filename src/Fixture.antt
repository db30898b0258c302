-- ===== src/Fixture.antt =====
-- Concrete instances for the tests and witnesses: a `float` as a whole number of millionths, and a
-- platform with the payload sizes of x86-64. They show that the assumptions on both can be met.
use reflect_pytest.Prelude.{
  ℕ, ◌+◌, some, inl, ◌/◌, ◌*◌, ◌^◌, ℤ, pos, ◌+ℤ◌, ◌-ℤ◌, ◌*ℤ◌, sub_ℕ, pos_part, neg_part, nat_abs,
  ltb_ℤ, leb_ℤ, List, [], ◌∷◌, replicate, refl, false, true, arith, negsuc, zero, suc, ◌≡◌, length,
  ap, All,
}
use reflect_pytest.Float.{Float, IsOrdered}
use reflect_pytest.Messages.{
  Msg, MsgId, msg_id, IsFormed, ready, info, performance, ManeuverNode, AutoDriveCommandPayload,
  EnvironmentPayload, MotorSequencePayload,
}
use reflect_pytest.Bridge.{datagram}
use reflect_pytest.App.{Event, receive}
use reflect_pytest.Safety.Run.{RoutesFit, PayloadFits}
use reflect_pytest.Safety.Inv.{SpeedFits, speed_fits}
use reflect_pytest.World.{Platform, IsAbi, no_sub_cmd, no_command, no_status}

-- n / d, rounded towards zero.
abbrev quotient : ℤ → ℕ → ℤ
quotient n d = sub_ℕ (pos_part n / d) (neg_part n / d)

abbrev divide : ℤ → ℤ → ℤ
unfolding ◌*ℤ◌ ◌-ℤ◌
divide a b =
    sub_ℕ
      ((pos_part a * pos_part b + neg_part a * neg_part b) * 1_000_000 / (nat_abs b * nat_abs b))
      ((pos_part a * neg_part b + neg_part a * pos_part b) * 1_000_000 / (nat_abs b * nat_abs b))

instance unfoldable pub fixed_float : Float ℤ
unfolding ◌+ℤ◌ ◌-ℤ◌ ◌*ℤ◌
fixed_float = record {
  lit = λ m e. pos (m * 1_000_000 / 10 ^ e);
  of_int = λ n. n *ℤ pos 1_000_000;
  add = λ a b. a +ℤ b;
  sub = λ a b. a -ℤ b;
  mul = λ a b. quotient (a *ℤ b) 1_000_000;
  div = divide;
  pow = λ a b. a;
  abs = λ a. pos (nat_abs a);
  lt = ltb_ℤ;
  le = leb_ℤ;
  to_i16 = λ a. some (quotient a 1_000_000);
  to_u8 = λ a. pos_part a / 1_000_000;
}

pub fixed-IsOrdered : IsOrdered ℤ
unfolding fixed_float ◌+ℤ◌ ◌-ℤ◌ ◌*ℤ◌
fixed-IsOrdered = ground arith

abbrev sizes : MsgId → ℕ
sizes MsgId.log = 288
sizes MsgId.physics_tick = 12
sizes MsgId.state_request = 1
sizes MsgId.state_data = 1
sizes MsgId.motor_sequence = 48
sizes MsgId.motor_status = 8
sizes MsgId.kinematics_request = 1
sizes MsgId.kinematics_data = 16
sizes MsgId.power_request = 1
sizes MsgId.power_data = 16
sizes MsgId.thermal_request = 1
sizes MsgId.thermal_data = 8
sizes MsgId.environment_ack = 4
sizes MsgId.environment_request = 8
sizes MsgId.environment_data = 36
sizes MsgId.auto_drive_command = 180
sizes MsgId.auto_drive_status = 156
sizes MsgId.internal_env_request = 8
sizes MsgId.internal_env_data = 16

abbrev pub node_at : ℕ → ManeuverNode ℤ
node_at metres = record {
  target_pos = record { x = pos (metres * 1_000_000); y = pos 0 };
  timeout_ms = 500;
}

-- A route over one and two metres.
abbrev pub short_route : AutoDriveCommandPayload ℤ
short_route = record no_command {
  mode = performance;
  use_environment_tuning = true;
  num_nodes = 2;
  route = node_at 1 ∷ node_at 2 ∷ replicate 6 (node_at 0);
}

-- A region from 0 to 10 metres.
abbrev pub region : ℕ → EnvironmentPayload ℤ
region i = record {
  region_id = i;
  bounds = record {
    min_pt = record { x = pos 0; y = pos 0 };
    max_pt = record { x = pos 10_000_000; y = pos 10_000_000 };
  };
  ambient_temp_c = pos 30_000_000;
  incline_percent = pos 6_000_000;
  surface_friction = pos 1_000_000;
  max_speed_rpm = pos 2000_000_000;
}

-- Two steps, of 20 and of 10 milliseconds; the first one too fast.
abbrev pub two_steps : MotorSequencePayload
two_steps = record {
  cmd_id = 7;
  num_steps = 2;
  steps =
      record { speed_rpm = pos 9000; duration_us = 20_000 }
      ∷ record { speed_rpm = negsuc 99; duration_us = 10_000 }
      ∷ replicate 3 no_sub_cmd;
}

abbrev first_or_zero : List ℕ → ℕ
first_or_zero [] = 0
first_or_zero (b ∷ bs) = b

-- A payload of each type; the bytes decide nothing but the region of an EnvironmentPayload.
abbrev payload_for : MsgId → List ℕ → Msg ℤ
payload_for MsgId.log bs = Msg.log (record { text = []; severity = info; component = [] })
payload_for MsgId.physics_tick bs =
    Msg.physics_tick (record { cmd_id = 0; speed_rpm = pos 0; dt_us = 0 })
payload_for MsgId.state_request bs = Msg.state_request 0
payload_for MsgId.state_data bs = Msg.state_data ready
payload_for MsgId.motor_sequence bs = Msg.motor_sequence two_steps
payload_for MsgId.motor_status bs =
    Msg.motor_status (record { cmd_id = 0; speed_rpm = pos 0; is_active = false })
payload_for MsgId.kinematics_request bs = Msg.kinematics_request 0
payload_for MsgId.kinematics_data bs =
    Msg.kinematics_data
      (record { cmd_id = 0; elapsed_us = 0; position_m = pos 0; speed_mps = pos 0 })
payload_for MsgId.power_request bs = Msg.power_request 0
payload_for MsgId.power_data bs =
    Msg.power_data
      (record { cmd_id = 0; voltage_v = pos 0; current_a = pos 0; state_of_charge = 0 })
payload_for MsgId.thermal_request bs = Msg.thermal_request 0
payload_for MsgId.thermal_data bs =
    Msg.thermal_data (record { motor_temp_c = pos 0; battery_temp_c = pos 0 })
payload_for MsgId.environment_ack bs = Msg.environment_ack (record { region_id = 0 })
payload_for MsgId.environment_request bs =
    Msg.environment_request (record { target_location = record { x = pos 0; y = pos 0 } })
payload_for MsgId.environment_data bs = Msg.environment_data (region (first_or_zero bs))
payload_for MsgId.auto_drive_command bs = Msg.auto_drive_command short_route
payload_for MsgId.auto_drive_status bs = Msg.auto_drive_status no_status
payload_for MsgId.internal_env_request bs =
    Msg.internal_env_request (record { x = pos 0; y = pos 0 })
payload_for MsgId.internal_env_data bs = Msg.internal_env_data (record { ptr = 0 })

instance abbrev pub fixed_platform : Platform ℤ
fixed_platform = record {
  format = λ call. [];
  size_of = sizes;
  to_bytes = λ m. replicate (sizes (msg_id m)) 0;
  of_bytes = payload_for;
}

length-replicate : (n a : ℕ) → length (replicate n a) ≡ n
length-replicate zero a = refl
length-replicate (suc n) a = ap suc (length-replicate n a)

msg_id-payload_for : (i : MsgId) (bs : List ℕ) → msg_id (payload_for i bs) ≡ i
msg_id-payload_for MsgId.log bs = refl
msg_id-payload_for _ bs = refl

payload_for-IsFormed : (i : MsgId) (bs : List ℕ) → IsFormed (payload_for i bs)
payload_for-IsFormed MsgId.motor_sequence bs = refl
payload_for-IsFormed MsgId.auto_drive_command bs = refl
payload_for-IsFormed _ bs = tt

pub fixed-IsAbi : IsAbi ℤ
fixed-IsAbi = record {
  length-to_bytes = λ m. length-replicate (sizes (msg_id m)) 0;
  msg_id-of_bytes = msg_id-payload_for;
  of_bytes-IsFormed = payload_for-IsFormed;
}

-- The route of the fixture has two nodes, its region 2000 RPM, and every conversion of the fixture is defined.
every-SpeedFits : (p : AutoDriveCommandPayload ℤ) → SpeedFits p
unfolding fixed_float
every-SpeedFits p = speed_fits (λ place h. (_, refl))

payloads-Fit : (i : MsgId) (bs : List ℕ) → PayloadFits ℤ (payload_for i bs)
unfolding fixed_float
payloads-Fit MsgId.auto_drive_command bs = (omega arith, every-SpeedFits short_route, inl refl)
payloads-Fit MsgId.environment_data bs = refl
payloads-Fit _ bs = tt

fixed-RoutesFit : (e : Event) → RoutesFit ℤ e
fixed-RoutesFit (receive (datagram sender bytes)) = λ i e. payloads-Fit i _
fixed-RoutesFit _ = tt

pub events-RoutesFit : (es : List Event) → All (RoutesFit ℤ) es
events-RoutesFit [] = tt
events-RoutesFit (e ∷ es) = (fixed-RoutesFit e, events-RoutesFit es)
