-- ===== src/Scenarios.antt =====
-- Runs of the application of src/main.cpp on concrete inputs, and each theorem that has conditions
-- at an input where they hold.
use reflect_pytest.Prelude.{
  inl, negsuc, ℕ, ◌+◌, ◌≤◌, ◌<◌, ℤ, pos, List, [], ◌∷◌, replicate, some, none, ◌≡◌, ◌⊎◌, refl, All,
  length, arith, true, false,
}
use reflect_pytest.Messages.{
  Msg, MsgId, id_value, msg_id, info, LogPayload, PhysicsTickPayload, KinematicsPayload, ready,
  executing,
}
use reflect_pytest.World.{
  World, Cmd, initial_world, motor, kinematics, power, thermal, autonomous, ◌>>◌, udp_bridge,
}
use reflect_pytest.Services.Autonomous.{on_kinematics, has_reached}
use reflect_pytest.World.{peer_mu, state_mu, with_lock, locked, holds}
use reflect_pytest.App.{on_event}
use reflect_pytest.Bus.{bind_all, subscribe, each, handle}
use reflect_pytest.Bridge.{
  rx_round, try_publish_raw, matching, publish_as, forward_to_udp, subscribes,
}
use reflect_pytest.Services.State.{on_state_request}
use reflect_pytest.Services.Log.{worker_round}
use reflect_pytest.Services.State.{on_motor_status, clock_round}
use reflect_pytest.Bridge.{datagram, wire, inject, publishes, is_in_list}
use reflect_pytest.Bridge.Wire.{inject-wire, rx_round_cases}
use reflect_pytest.Bus.{wire_services, Bus, handlers, publish}
use reflect_pytest.Bus.Wiring.{subscribers, handlers-wire_services}
use reflect_pytest.App.{
  Event, clock, receive, log_worker, heartbeat, elapse, app_services, depth, run,
}
use reflect_pytest.Bus.Broadcast.{broadcast, publish_refines}
use reflect_pytest.Services.Log.{worker_loop, left_loop}
use reflect_pytest.App.Requests.{state_request_answered}
use reflect_pytest.App.Logging.{worker_loop_ends}
use reflect_pytest.Bridge.{rx_loop, interrupted, woken}
use reflect_pytest.Bridge.Receiver.{rounds, rx_loop_ends}
use reflect_pytest.Services.Motor.{on_motor_sequence, limit_sequence, clamp_steps, clamp_rpm}
use reflect_pytest.Services.Motor.Speeds.{speed_at}
use reflect_pytest.Services.Motor.Ticks.{ticks_of}
use reflect_pytest.Services.Motor.Schedule.{ticks}
use reflect_pytest.App.Status.{sequence_ends}
use reflect_pytest.App.Lifecycle.{status_then_clock}
use reflect_pytest.App.Logging.{worker_round_fifo}
use reflect_pytest.Safety.Rules.{InOrder}
use reflect_pytest.Safety.Run.{run_total, run-InOrder, run_telemetry}
use reflect_pytest.Safety.Overrun.{on_kinematics_overruns}
use reflect_pytest.Fixture.{
  fixed_float, fixed_platform, fixed-IsAbi, events-RoutesFit, short_route, two_steps, node_at,
}

abbrev pub app_bus : Bus
app_bus = wire_services app_services []

abbrev pub send_app : Msg ℤ → Cmd ℤ
send_app = publish app_bus depth

abbrev pub start : World ℤ
start = initial_world 0

-- A client sends a route, the first request for the environment goes out, the client answers it.
abbrev route_script : List Event
route_script =
    receive (datagram 5 (60 ∷ 0 ∷ replicate 180 0))
    ∷ elapse 600_000_000
    ∷ clock
    ∷ receive (datagram 5 (52 ∷ 0 ∷ replicate 36 3))
    ∷ clock
    ∷ log_worker
    ∷ heartbeat
    ∷ []

route_runs : (w : World ℤ) × (run app_bus route_script start ≡ some w)
route_runs = run_total fixed-IsAbi app_services 0 route_script (events-RoutesFit route_script)

-- A request for the lifecycle state is answered to the client that sent it.
state_answered :
    run app_bus (receive (datagram 5 (2 ∷ 0 ∷ 0 ∷ [])) ∷ []) start
    ≡ some (record start {
      bridge = record { peer = 5; peer_valid = true };
      published = Msg.state_data ready ∷ Msg.state_request 0 ∷ [];
      acquired = (peer_mu, []) ∷ (state_mu, []) ∷ (peer_mu, []) ∷ [];
      sent = (5, 3 ∷ 0 ∷ 0 ∷ []) ∷ [];
    })
unfolding run on_event wire_services bind_all subscribe rx_round inject try_publish_raw matching
    publishes publish_as publish each handlers handle on_state_request forward_to_udp wire with_lock
    locked holds subscribes id_value initial_world
state_answered = refl

run_total_example : (w : World ℤ) × (run app_bus route_script start ≡ some w)
run_total_example =
    run_total fixed-IsAbi app_services 0 route_script (events-RoutesFit route_script)

run-InOrder_example : All InOrder route_runs.0.acquired
run-InOrder_example =
    run-InOrder fixed-IsAbi app_services 0 route_script route_runs.0 (events-RoutesFit route_script)
      route_runs.1

run_telemetry_example :
    (route_runs.0.autonomous.status.num_environments_used
      ≡ length route_runs.0.autonomous.used_envs)
    × (length route_runs.0.autonomous.used_envs ≤ 4)
    × (route_runs.0.autonomous.route_active ≡ true
        → (route_runs.0.autonomous.current_node_idx < route_runs.0.autonomous.cmd.num_nodes)
          × (route_runs.0.autonomous.cmd.num_nodes ≤ 8))
run_telemetry_example =
    run_telemetry fixed-IsAbi app_services 0 route_script route_runs.0
      (events-RoutesFit route_script) route_runs.1

handlers-wire_services_example :
    handlers (id_value MsgId.physics_tick) app_bus
    ≡ motor ∷ kinematics ∷ power ∷ thermal ∷ autonomous ∷ []
unfolding subscribers is_in_list subscribes
handlers-wire_services_example = handlers-wire_services MsgId.physics_tick app_services

inject-wire_example :
    inject send_app (wire (Msg.auto_drive_command short_route)) [] start
    ≡ send_app (Msg.auto_drive_command short_route) [] start
unfolding is_in_list publishes
inject-wire_example =
    inject-wire fixed-IsAbi send_app (Msg.auto_drive_command short_route) [] start refl refl

-- A datagram with a payload of the wrong size.
abbrev short_datagram : List ℕ
short_datagram = 10 ∷ 0 ∷ replicate 48 0

rx_round_cases_example :
    let known = record start {
      bridge = record { peer = 5; peer_valid = true };
      acquired = (peer_mu, []) ∷ start.acquired;
    } in
    (rx_round send_app (datagram 5 short_datagram) [] start ≡ some known)
    ⊎ ((m : Msg ℤ) × (rx_round send_app (datagram 5 short_datagram) [] start ≡ send_app m [] known)
        × (is_in_list (msg_id m) (publishes udp_bridge) ≡ true)
        × (10 ≡ id_value (msg_id m))
        × (50 ≡ 2 + fixed_platform.size_of (msg_id m)))
unfolding holds
rx_round_cases_example = rx_round_cases fixed-IsAbi send_app 5 short_datagram [] start refl

-- A tick of 10 ms at 500 RPM.
abbrev pub tick : PhysicsTickPayload
tick = record { cmd_id = 7; speed_rpm = pos 500; dt_us = 10_000 }

status_then_clock_example :
    (w : World ℤ) × ((on_motor_status send_app
            (record { cmd_id = 7; speed_rpm = pos 500; is_active = true })
          >> clock_round send_app)
        [] start
      ≡ send_app (Msg.physics_tick tick) [] w)
    × (w.state
        ≡ record { state = executing; last_cmd_id = 7; last_rpm = pos 500; last_active = true })
status_then_clock_example =
    status_then_clock send_app (record { cmd_id = 7; speed_rpm = pos 500; is_active = true }) start

abbrev entry : ℕ → LogPayload
entry c = record { text = c ∷ []; severity = info; component = [] }

abbrev two_entries : World ℤ
two_entries = record start {
  logs = record start.logs { queue = entry 1 ∷ entry 2 ∷ [] };
  bridge = record { peer = 5; peer_valid = true };
}

worker_round_fifo_example :
    (w : World ℤ) × (worker_round send_app [] two_entries ≡ some w)
    × (w.logs.queue ≡ [])
    × (w.console ≡ entry 2 ∷ entry 1 ∷ [])
    × (w.sent ≡ (5, wire {F = ℤ} (Msg.log (entry 2))) ∷ (5, wire {F = ℤ} (Msg.log (entry 1))) ∷ [])
unfolding subscribers initial_world is_in_list subscribes
worker_round_fifo_example = worker_round_fifo app_services 7 refl two_entries

-- Eight nodes are stored, nine are named, and the vehicle is under way to the eighth.
abbrev long_route : World ℤ
long_route = record start {
  autonomous = record start.autonomous {
    cmd = record short_route {
      num_nodes = 9;
      use_environment_tuning = false;
      route = replicate 8 (node_at 1);
    };
    current_node_idx = 7;
    route_active = true;
  };
}

abbrev at_one_metre : KinematicsPayload ℤ
at_one_metre = record {
  cmd_id = 999;
  elapsed_us = 0;
  position_m = pos 1_000_000;
  speed_mps = pos 0;
}

on_kinematics_overruns_example : on_kinematics send_app at_one_metre [] long_route ≡ none
unfolding initial_world has_reached fixed_float
on_kinematics_overruns_example =
    on_kinematics_overruns send_app at_one_metre (node_at 1) long_route refl refl refl refl
      (omega arith) refl refl

sequence_ends_example :
    (w : World ℤ) × ((on_motor_sequence send_app two_steps >> ticks send_app 2 tick) [] start
      ≡ some w)
    × (w.motor.active ≡ true)
    × (w.state.last_rpm ≡ negsuc 99)
unfolding subscribers is_in_list subscribes ticks_of speed_at limit_sequence clamp_steps clamp_rpm
sequence_ends_example =
    sequence_ends app_services 7 refl two_steps
      (record { speed_rpm = pos 9000; duration_us = 20_000 }) tick 2 start refl refl (omega arith)
      (omega arith) refl refl

-- The bus of the application broadcasts a request for the state.
publish_refines_example :
    publish {F = ℤ} (wire_services app_services []) depth (Msg.state_request 0)
    ≡ broadcast app_services depth (Msg.state_request 0)
publish_refines_example = publish_refines app_services depth (Msg.state_request 0)

worker_loop_ends_example :
    (w : World ℤ) × (worker_loop send_app 2 false two_entries ≡ left_loop w)
    × (w.logs.queue ≡ [])
    × (w.console ≡ entry 2 ∷ entry 1 ∷ [])
    × (w.sent ≡ (5, wire {F = ℤ} (Msg.log (entry 2))) ∷ (5, wire {F = ℤ} (Msg.log (entry 1))) ∷ [])
unfolding subscribers initial_world is_in_list subscribes
worker_loop_ends_example = worker_loop_ends app_services 7 refl 0 false two_entries

-- A datagram is received, the next `select` is interrupted, and the third meets the wake pipe; the
-- datagram after it is not received.
rx_loop_ends_example :
    rx_loop send_app (datagram 5 (2 ∷ 0 ∷ 0 ∷ []) ∷ interrupted ∷ woken ∷ datagram 5 [] ∷ [])
    ≡ rounds send_app (datagram 5 (2 ∷ 0 ∷ 0 ∷ []) ∷ interrupted ∷ [])
rx_loop_ends_example =
    rx_loop_ends send_app (datagram 5 (2 ∷ 0 ∷ 0 ∷ []) ∷ interrupted ∷ []) (datagram 5 [] ∷ [])
      woken (tt, (tt, tt)) (inl refl)

state_request_answered_example :
    (w : World ℤ) × (rx_round send_app (datagram 5 (wire {F = ℤ} (Msg.state_request 0))) [] start
      ≡ some w)
    × (w.sent ≡ (5, wire {F = ℤ} (Msg.state_data ready)) ∷ [])
    × (w.bridge ≡ record { peer = 5; peer_valid = true })
    × (w.state ≡ start.state)
unfolding initial_world subscribers is_in_list subscribes
state_request_answered_example =
    state_request_answered app_services 6 fixed-IsAbi 0 5 start refl refl refl (omega arith)
