-- ===== src/App/Process.antt =====
-- src/app_components.h and src/main.cpp: the main thread, from the construction of the services over
-- the start of the threads to their end, with the moves by which the other threads end. A signal and the moves of
-- the threads may come between any two moves of the main thread. A join blocks: it goes on only when the thread has ended. The
-- constructors succeed here; what the one of the bridge does on an error is in Bridge/Sockets.antt.
pub mod Threads
pub mod Returns
use reflect_pytest.Prelude.{ℕ, zero, suc, Bool, true, false, not, if◌then◌else◌, List, [], ◌∷◌}
use reflect_pytest.World.{
  Service, motor, kinematics, power, state, thermal, environment, autonomous, log, udp_bridge,
}
use reflect_pytest.Bridge.{subscribes}
use reflect_pytest.Bus.{Bus, bind_all}
use reflect_pytest.App.{app_services}
use reflect_pytest.Docs.Flow.Ids.{service_eq}
use reflect_pytest.Docs.Flow.Edges.{in_tuple}

-- Where the main thread is: in the constructors of some services, in start_all_services before some
-- services, before the heartbeat, in g_running.wait, in heartbeat.join, before the next
-- destructor, in the join of a destructor, or behind them.
pub data Pc : Type 0 where
  constructing starting : List Service → Pc
  spawning waiting joining destroying in_join ended : Pc

-- `built` are the services that exist, the one that was constructed last first; `threads` are those
-- whose thread runs, and `stopping` those whose thread was told to leave its loop.
pub record Process : Type 0 where
  pub pc : Pc
  pub bus : Bus
  pub built : List Service
  pub threads : List Service
  pub stopping : List Service
  pub heartbeat : Bool
  pub running : Bool

-- The services are constructed in an order that C++ leaves open.
abbrev pub launch : List Service → Process
launch order = record {
  pc = constructing order;
  bus = [];
  built = [];
  threads = [];
  stopping = [];
  heartbeat = false;
  running = true;
}

-- The services with a member function start(), which starts a thread.
abbrev pub has_start : Service → Bool
has_start state = true
has_start log = true
has_start udp_bridge = true
has_start s = false

unfoldable pub call_start_if_exists : Service → List Service → List Service
call_start_if_exists s threads = if has_start s then s ∷ threads else threads

-- The next destructor: the services are destroyed in the reverse order of their construction. The one of a service
-- whose thread runs tells it to leave its loop (`running_ = false` and the notify, or the byte for the wake pipe),
-- and joins it.
unfoldable pub destroy_next : List Service → Process → Process
destroy_next [] p = record p { pc = ended }
destroy_next (s ∷ ss) p =
    if in_tuple s p.threads
    then record p { pc = in_join; stopping = s ∷ p.stopping }
    else record p { built = ss }

-- The join of a destructor, which ends when the thread has.
unfoldable pub join_thread : List Service → Process → Process
join_thread [] p = p
join_thread (s ∷ ss) p =
    if in_tuple s p.threads then p else record p { pc = destroying; built = ss }

unfoldable pub move_from : Pc → Process → Process
unfolding bind_all subscribes call_start_if_exists destroy_next join_thread
move_from (constructing (s ∷ ss)) p = record p {
  pc = constructing ss;
  bus = bind_all s (subscribes s) p.bus;
  built = s ∷ p.built;
}
move_from (constructing []) p = record p { pc = starting app_services }
move_from (starting (s ∷ ss)) p = record p {
  pc = starting ss;
  threads = call_start_if_exists s p.threads;
}
move_from (starting []) p = record p { pc = spawning }
move_from spawning p = record p { pc = waiting; heartbeat = true }
move_from waiting p = if p.running then p else record p { pc = joining }
move_from joining p = if p.heartbeat then p else record p { pc = destroying }
move_from destroying p = destroy_next p.built p
move_from in_join p = join_thread p.built p
move_from ended p = p

-- The next move of the main thread; in g_running.wait it stays where it is until a signal, and in a
-- join until the thread has ended.
unfoldable pub main_step : Process → Process
unfolding move_from
main_step p = move_from p.pc p

-- The signal handler.
unfoldable pub shutdown : Process → Process
shutdown p = record p { running = false }

unfoldable pub without : Service → List Service → List Service
without s [] = []
without s (t ∷ ts) = let rest = without s ts in if service_eq s t then rest else t ∷ rest

-- The thread of a service leaves its loop, once it was told to.
unfoldable pub thread_leaves : Service → Process → Process
unfolding without
thread_leaves s p = if in_tuple s p.stopping then record p { threads = without s p.threads } else p

-- The heartbeat leaves its loop once g_running is false.
unfoldable pub heartbeat_leaves : Process → Process
heartbeat_leaves p = if p.running then p else record p { heartbeat = false }

-- The states that the process can reach.
pub data Reach (order : List Service) : Process → Type 0 where
  begins : Reach order (launch order)
  moves : (p : Process) → Reach order p → Reach order (main_step p)
  interrupted : (p : Process) → Reach order p → Reach order (shutdown p)
  leaves : (s : Service) (p : Process) → Reach order p → Reach order (thread_leaves s p)
  beats_last : (p : Process) → Reach order p → Reach order (heartbeat_leaves p)

unfoldable pub main_steps : ℕ → Process → Process
unfolding main_step
main_steps zero p = p
main_steps (suc n) p = main_steps n (main_step p)
