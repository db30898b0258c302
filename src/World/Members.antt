-- ===== src/World/Members.antt =====
-- The members of each service class of src/services/*.h and of src/udp_bridge.h, and the world that
-- holds them with what lies outside the process: the clock, the socket and the console.
use reflect_pytest.Prelude.{ℕ, ℤ, pos, Bool, true, false, Option, none, List, [], replicate}
use reflect_pytest.Float.{Float, nought}
use reflect_pytest.Messages.{
  SystemState, ready, Msg, LogPayload, MotorSequencePayload, MotorSubCmd, EnvironmentPayload,
  AutoDriveCommandPayload, AutoDriveStatusPayload, ManeuverNode, ManeuverStats, eco,
}

-- The services of AppServices, in the order of the tuple.
pub data Service : Type 0 where
  motor kinematics power state thermal environment autonomous log udp_bridge : Service

-- The mutexes: `mu_` of each service, and `peer_mu_` of the bridge.
pub data Lock : Type 0 where
  motor_mu kinematics_mu power_mu state_mu thermal_mu environment_mu autonomous_mu log_mu peer_mu :
      Lock

-- The address of a UDP client: `sockaddr_in` read as a number.
abbrev pub Peer : Type 0
Peer = ℕ

pub record MotorService : Type 0 where
  pub active : Bool
  pub current_cmd : MotorSequencePayload
  pub current_step_idx : ℕ  -- uint8_t
  pub step_remaining_us : ℕ  -- uint32_t

pub record StateService : Type 0 where
  pub state : SystemState
  pub last_cmd_id : ℕ
  pub last_rpm : ℤ
  pub last_active : Bool

pub record LogService : Type 0 where
  pub running : Bool
  pub queue : List LogPayload

pub record UdpBridge : Type 0 where
  pub peer : Peer
  pub peer_valid : Bool

-- The cache holds pointers: places in the list of allocations.
pub record EnvironmentService : Type 0 where
  pub cache : List ℕ
  pub last_request_time : ℕ

module _ (F : Type 0) where
  pub record KinematicsService : Type 0 where
    pub cmd_id : ℕ
    pub elapsed_us : ℕ  -- uint32_t
    pub position_m : F
    pub speed_mps : F
    pub count : ℕ  -- the static uint32_t of the tick handler

  pub record PowerService : Type 0 where
    pub cmd_id : ℕ
    pub voltage_v : F
    pub current_a : F
    pub soc : ℕ
    pub count : ℕ

  pub record ThermalService : Type 0 where
    pub ambient_temp_c : F
    pub motor_temp_c : F
    pub battery_temp_c : F
    pub count : ℕ

  pub record AutonomousService : Type 0 where
    pub cmd : AutoDriveCommandPayload F
    pub current_node_idx : ℕ  -- uint8_t
    pub route_active : Bool
    pub current_env_ptr : Option ℕ
    pub status : AutoDriveStatusPayload F
    pub current_total_energy_j : F
    pub node_start_energy_j : F
    pub node_start_pos_m : F
    pub last_pos_m : F
    pub used_envs : List ℕ

  pub record World : Type 0 where
    pub motor : MotorService
    pub kinematics : KinematicsService
    pub power : PowerService
    pub state : StateService
    pub thermal : ThermalService
    pub environment : EnvironmentService
    pub autonomous : AutonomousService
    pub logs : LogService
    pub bridge : UdpBridge
    pub heartbeats : ℕ  -- `n` of the heartbeat thread, uint32_t
    pub sink : Bool  -- ComponentLogger::sink_ is set
    pub heap : List (EnvironmentPayload F)  -- what make_shared allocated
    pub now : ℕ  -- steady_clock, in nanoseconds
    pub sent : List (Peer × List ℕ)  -- datagrams handed to sendto, the last one first
    pub console : List LogPayload  -- lines handed to printf, the last one first
    pub acquired : List (Lock × List Lock)  -- history: each mutex taken, with those held then
    pub published : List (Msg F)  -- history: each message published, the last one first

abbrev pub no_sub_cmd : MotorSubCmd
no_sub_cmd = record { speed_rpm = pos 0; duration_us = 0 }

-- MotorSequencePayload{}.
abbrev pub no_sequence : MotorSequencePayload
no_sequence = record { cmd_id = 0; num_steps = 0; steps = replicate 5 no_sub_cmd }

module _ {F : Type 0} ⦃fl : Float F⦄ where
  abbrev pub no_stats : ManeuverStats F
  no_stats = record {
    initial_energy_mj = nought;
    final_energy_mj = nought;
    energy_per_meter_mj = nought;
    total_energy_used_mj = nought;
  }

  -- AutoDriveStatusPayload{}.
  abbrev pub no_status : AutoDriveStatusPayload F
  no_status = record {
    cmd_id = 0;
    current_node_idx = 0;
    route_complete = false;
    num_stats = 0;
    node_stats = replicate 8 no_stats;
    num_environments_used = 0;
    environment_ids = replicate 4 0;
  }

  abbrev no_node : ManeuverNode F
  no_node = record { target_pos = record { x = nought; y = nought }; timeout_ms = 0 }

  -- AutoDriveCommandPayload{}.
  abbrev pub no_command : AutoDriveCommandPayload F
  no_command = record {
    route_name = replicate 32 0;
    mode = eco;
    p_gain = nought;
    use_environment_tuning = false;
    route_transform = replicate 3 (record { x = nought; y = nought; z = nought });
    num_nodes = 0;
    route = replicate 8 no_node;
  }

  -- Every member with its default initialiser, at time `t`.
  unfoldable pub initial_world : ℕ → World F
  initial_world t = record {
    motor = record {
      active = false;
      current_cmd = no_sequence;
      current_step_idx = 0;
      step_remaining_us = 0;
    };
    kinematics = record {
      cmd_id = 0;
      elapsed_us = 0;
      position_m = nought;
      speed_mps = nought;
      count = 0;
    };
    power = record {
      cmd_id = 0;
      voltage_v = fl.lit 126 1;
      current_a = nought;
      soc = 100;
      count = 0;
    };
    state = record { state = ready; last_cmd_id = 0; last_rpm = pos 0; last_active = false };
    thermal = record {
      ambient_temp_c = fl.lit 20 0;
      motor_temp_c = fl.lit 20 0;
      battery_temp_c = fl.lit 20 0;
      count = 0;
    };
    environment = record { cache = []; last_request_time = 0 };
    autonomous = record {
      cmd = no_command;
      current_node_idx = 0;
      route_active = false;
      current_env_ptr = none;
      status = no_status;
      current_total_energy_j = nought;
      node_start_energy_j = nought;
      node_start_pos_m = nought;
      last_pos_m = nought;
      used_envs = [];
    };
    logs = record { running = true; queue = [] };
    bridge = record { peer = 0; peer_valid = false };
    heartbeats = 0;
    sink = true;
    heap = [];
    now = t;
    sent = [];
    console = [];
    acquired = [];
    published = [];
  }
