-- ===== src/Units.antt =====
-- The services of src/services one by one, on concrete inputs.
use reflect_pytest.Bridge.{subscribes}
use reflect_pytest.Bridge.Sockets.{
  Answers, Host, bridge, construct, open_bound, open_pipe, destroy, close, is_constructed,
  construct_cases,
}
use reflect_pytest.Bus.{bind_all}
use reflect_pytest.World.{udp_bridge}
use reflect_pytest.Prelude.{
  ◌++◌, ℕ, ◌+◌, ◌≤◌, ◌<◌, ℤ, pos, nat_abs, List, [], ◌∷◌, some, none, ◌≡◌, refl, All, get_elem?,
  arith, true, false,
}
use reflect_pytest.Float.{nought}
use reflect_pytest.Messages.{Msg, EnvironmentPayload, MotorSubCmd}
use reflect_pytest.World.{World, Cmd, initial_world}
use reflect_pytest.Services.Motor.{limit_sequence}
use reflect_pytest.Services.Motor.Limits.{limit_sequence_bounds}
use reflect_pytest.Services.Environment.{store, find_region}
use reflect_pytest.Services.Environment.Cache.{region_data, store_region}
use reflect_pytest.Services.Power.{drain, charge, v_min}
use reflect_pytest.Services.Power.Limits.{drain_bounds}
use reflect_pytest.Services.Kinematics.Clock.{integrate_all, integrate_all-elapsed}
use reflect_pytest.World.{with_lock, holds}
use reflect_pytest.Services.Environment.{
  covers, find_covering, answer, on_internal_env_request, throttle_ns,
}
use reflect_pytest.Services.Environment.Requests.{PassedOver, find_covering_first, requests_spaced}
use reflect_pytest.Services.Log.{log_info}
use reflect_pytest.Safety.Rules.{took}
use reflect_pytest.Messages.{InternalEnvRequestPayload}
use reflect_pytest.World.{environment_mu}
use reflect_pytest.Fixture.{fixed_float, fixed_platform, fixed-IsOrdered, two_steps, region}
use reflect_pytest.Scenarios.{start, tick}

limit_sequence_bounds_example :
    ((limit_sequence two_steps).num_steps ≤ 5)
    × ((limit_sequence two_steps).num_steps ≤ 2)
    × ((i : ℕ) (s : MotorSubCmd)
        → i < (limit_sequence two_steps).num_steps
        → get_elem? (limit_sequence two_steps).steps i ≡ some s
        → nat_abs s.speed_rpm ≤ 6000)
limit_sequence_bounds_example = limit_sequence_bounds two_steps

-- A cache that holds the regions 4 and 1, at the pointers 1 and 0.
abbrev two_regions : World ℤ
two_regions = record start {
  heap = region 1 ∷ region 4 ∷ [];
  environment = record start.environment { cache = 1 ∷ 0 ∷ [] };
}

abbrev cold_region : EnvironmentPayload ℤ
cold_region = record (region 1) { ambient_temp_c = pos 0 }

abbrev one_cold : World ℤ
one_cold = record two_regions { heap = cold_region ∷ region 4 ∷ [] }

store_region_example : region_data one_cold.heap (1 ∷ 0 ∷ []) 1 ≡ some cold_region
unfolding initial_world store find_region
store_region_example =
    store_region cold_region (some 0) [] two_regions one_cold 1 (omega arith, (omega arith, tt))
      refl refl

drain_bounds_example :
    (fixed_float.lt (drain tick start.power).voltage_v v_min ≡ false)
    × ((drain tick start.power).soc ≡ fixed_float.to_u8 (charge (drain tick start.power).voltage_v))
    × (fixed_float.lt (charge (drain tick start.power).voltage_v) nought ≡ false)
    × (fixed_float.lt (fixed_float.lit 100 0) (charge (drain tick start.power).voltage_v) ≡ false)
drain_bounds_example = drain_bounds fixed-IsOrdered tick start.power

integrate_all-elapsed_example :
    (integrate_all
      (tick ∷ tick ∷ [])
      (record start.kinematics { elapsed_us = 4_294_967_295 })).elapsed_us
    ≡ 19_999
integrate_all-elapsed_example =
    integrate_all-elapsed (tick ∷ tick ∷ [])
      (record start.kinematics { elapsed_us = 4_294_967_295 }) (omega arith)

-- The place at one metre, which both regions cover: the first one of the cache answers.
abbrev one_metre : InternalEnvRequestPayload ℤ
one_metre = record { x = pos 1_000_000; y = pos 0 }

find_covering_first_example :
    (get_elem? two_regions.heap 1 ≡ some (region 4))
    × (covers (region 4) one_metre ≡ true)
    × ((before : List ℕ) × (after : List ℕ) × (1 ∷ 0 ∷ [] ≡ before ++ 1 ∷ after)
        × All (PassedOver two_regions.heap one_metre) before)
unfolding find_covering fixed_float initial_world
find_covering_first_example =
    find_covering_first two_regions.heap (1 ∷ 0 ∷ []) one_metre 1 (region 4) refl

-- A bus without handlers.
abbrev silent : Msg ℤ → Cmd ℤ
silent m held w = some w

abbrev later_start : World ℤ
later_start = record start { now = 600_000_000; sink = false }

abbrev asked : World ℤ
asked = record later_start {
  environment = record later_start.environment { last_request_time = 600_000_000 };
  acquired = (environment_mu, []) ∷ [];
}

requests_spaced_example :
    (asked.environment.last_request_time ≡ later_start.now)
    × ((next : InternalEnvRequestPayload ℤ) (v : World ℤ)
        → v.environment.last_request_time ≡ asked.environment.last_request_time
        → find_covering v.heap v.environment.cache next ≡ some none
        → v.now ≤ later_start.now + throttle_ns
        → on_internal_env_request silent next [] v ≡ some (took environment_mu [] v))
unfolding on_internal_env_request answer find_covering with_lock holds log_info initial_world
requests_spaced_example = requests_spaced silent one_metre later_start asked refl (omega arith) refl

-- The socket is descriptor 3, and `bind` finds the port in use.
abbrev port_in_use : Answers
port_in_use = record { socket = some 3; bind_succeeds = false; pipe = some (4, 5) }

abbrev idle_host : Host
idle_host = record { open_fds = 0 ∷ 1 ∷ 2 ∷ []; bus = [] }

bridge_closes :
    (destroy
      (bridge 3 4 5)
      (construct (record port_in_use { bind_succeeds = true }) idle_host).1).open_fds
    ≡ 0 ∷ 1 ∷ 2 ∷ []
unfolding construct open_bound open_pipe destroy close
bridge_closes = refl

construct_cases_example :
    (is_constructed (construct port_in_use idle_host).0 ≡ false)
    × (is_constructed (construct port_in_use idle_host).0 ≡ false
        → (construct port_in_use idle_host).1 ≡ idle_host)
    × (is_constructed (construct port_in_use idle_host).0 ≡ true
        → (construct port_in_use idle_host).1.bus ≡ bind_all udp_bridge (subscribes udp_bridge) [])
    × ((destroy (construct port_in_use idle_host).0 (construct port_in_use idle_host).1).open_fds
        ≡ 0 ∷ 1 ∷ 2 ∷ [])
unfolding construct open_bound
construct_cases_example = construct_cases port_in_use idle_host tt
