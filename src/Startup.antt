-- ===== src/Startup.antt =====
-- The main thread of the application (src/main.cpp, src/app_components.h) at concrete points.
use reflect_pytest.Prelude.{◌≡◌, refl, List, [], ◌∷◌}
use reflect_pytest.Messages.{MsgId, id_value}
use reflect_pytest.World.{
  Service, motor, kinematics, power, state, thermal, environment, autonomous, log, udp_bridge,
}
use reflect_pytest.Bridge.{subscribes}
use reflect_pytest.Bus.{handlers, bind_all, subscribe}
use reflect_pytest.App.{app_services}
use reflect_pytest.App.Process.{
  Process, launch, main_steps, main_step, move_from, shutdown, destroy_next, join_thread,
  call_start_if_exists, begins, moves, waiting, joining, in_join, ended, heartbeat_leaves,
  thread_leaves, without,
}
use reflect_pytest.App.Process.Threads.{IsThreadSafe, process_safe}
use reflect_pytest.App.Process.Returns.{rounds, main_returns}
use reflect_pytest.Docs.Flow.{component_id}
use reflect_pytest.Docs.Flow.Edges.{in_tuple}
use reflect_pytest.Docs.Text.{dot_id, id_chars}

abbrev last_first : List Service
last_first =
    udp_bridge ∷ log ∷ autonomous ∷ environment ∷ thermal ∷ state ∷ power ∷ kinematics ∷ motor ∷ []

-- The process at the first destructor after a signal, when the heartbeat has ended.
abbrev first_destroyed : List Service → Process
first_destroyed order = main_steps 2 (heartbeat_leaves (main_steps 22 (shutdown (launch order))))

up_and_waiting :
    ((main_steps 21 (launch app_services)).pc ≡ waiting)
    × ((main_steps 21 (launch app_services)).threads ≡ udp_bridge ∷ log ∷ state ∷ [])
unfolding main_steps main_step move_from call_start_if_exists
up_and_waiting = (refl, refl)

-- The motor service is constructed last, and destroyed first: the clock thread still runs, and its
-- ticks go to the handler of the motor service.
motor_destroyed :
    ((first_destroyed last_first).threads ≡ udp_bridge ∷ log ∷ state ∷ [])
    × ((first_destroyed last_first).built
        ≡ kinematics ∷ power ∷ state ∷ thermal ∷ environment ∷ autonomous ∷ log ∷ udp_bridge ∷ [])
    × (handlers (id_value MsgId.physics_tick) (first_destroyed last_first).bus
        ≡ autonomous ∷ thermal ∷ power ∷ kinematics ∷ motor ∷ [])
unfolding main_steps main_step move_from shutdown destroy_next join_thread call_start_if_exists
    heartbeat_leaves thread_leaves without in_tuple handlers bind_all subscribe subscribes
    component_id dot_id id_chars
motor_destroyed = (refl, refl, refl)

-- The receiver thread was told to stop, and has left its loop.
abbrev bridge_joined : Process
bridge_joined = main_step (thread_leaves udp_bridge (first_destroyed app_services))

-- The heartbeat and the receiver thread that do not end block the main thread.
still_joining :
    ((main_steps 30 (shutdown (launch app_services))).pc ≡ joining)
    × ((main_steps 30 (first_destroyed app_services)).pc ≡ in_join)
unfolding main_steps main_step move_from shutdown destroy_next join_thread call_start_if_exists
    heartbeat_leaves in_tuple component_id dot_id id_chars
still_joining = (refl, refl)

-- The bridge is constructed last, and destroyed first: the clock thread still runs, and the power data that its
-- ticks cause go to the handler of the bridge.
bridge_destroyed :
    (bridge_joined.threads ≡ log ∷ state ∷ [])
    × (bridge_joined.built
        ≡ log ∷ autonomous ∷ environment ∷ thermal ∷ state ∷ power ∷ kinematics ∷ motor ∷ [])
    × (handlers (id_value MsgId.power_data) bridge_joined.bus ≡ autonomous ∷ udp_bridge ∷ [])
unfolding main_steps main_step move_from shutdown destroy_next join_thread call_start_if_exists
    heartbeat_leaves thread_leaves without in_tuple handlers bind_all subscribe subscribes
    component_id dot_id id_chars
bridge_destroyed = (refl, refl, refl)

process_safe_example :
    IsThreadSafe app_services (main_step (launch app_services)).pc (main_step (launch app_services))
process_safe_example =
    process_safe app_services (main_step (launch app_services)) (λ s h. h)
      (moves (launch app_services) begins)

-- The main thread waits for a signal, and gets it.
abbrev signalled : Process
signalled = shutdown (main_steps 21 (launch app_services))

main_returns_example : (rounds 21 signalled).pc ≡ ended
unfolding main_steps main_step move_from shutdown call_start_if_exists
main_returns_example = main_returns signalled refl refl
