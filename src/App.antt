-- ===== src/App.antt =====
-- src/main.cpp and src/app_components.h: the application as a whole. Its threads (the clock, the
-- receiver, the log worker, the heartbeat) are interleaved as a list of events: each event is one
-- round of a thread's loop, and runs to its end before the next one starts.
pub mod Logging
pub mod Lifecycle
pub mod Status
pub mod Requests
pub mod Process
use reflect_pytest.Prelude.{ℕ, ◌+◌, Option, some, none, List, [], ◌∷◌}
use reflect_pytest.Float.{Float}
use reflect_pytest.Messages.{Msg}
use reflect_pytest.World.{
  World, Service, motor, kinematics, power, state, thermal, environment, autonomous, log,
  udp_bridge, Platform, Cmd, bind, ◌>>◌, done, modify, initial_world,
}
use reflect_pytest.Bridge.{RxEvent, rx_round}
use reflect_pytest.Bus.{Bus, publish, wire_services}
use reflect_pytest.Services.State.{clock_round}
use reflect_pytest.Services.Log.{worker_round, beat}

pub data Event : Type 0 where
  clock : Event
  receive : RxEvent → Event
  log_worker : Event
  heartbeat : Event
  elapse : ℕ → Event

-- AppServices, in the order of the tuple.
abbrev pub app_services : List Service
app_services =
    motor ∷ kinematics ∷ power ∷ state ∷ thermal ∷ environment ∷ autonomous ∷ log ∷ udp_bridge ∷ []

-- How deep handlers may publish within handlers.
abbrev pub depth : ℕ
depth = 8

module _ {F : Type 0} ⦃fl : Float F⦄ ⦃pl : Platform F⦄ (bus : Bus) where
  abbrev pub send : Msg F → Cmd F
  send = publish bus depth

  unfoldable pub on_event : Event → Cmd F
  on_event clock = clock_round send
  on_event (receive e) = rx_round send e
  on_event log_worker = worker_round send
  on_event heartbeat = beat
  on_event (elapse ns) = modify (λ w. record w { now = w.now + ns })

  unfoldable pub run : List Event → World F → Option (World F)
  run [] w = some w
  run (e ∷ es) w = bind (on_event e [] w) (run es)
