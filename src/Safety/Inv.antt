-- ===== src/Safety/Inv.antt =====
-- The invariant of the running application, and what a message may assume when it is published.
use reflect_pytest.Prelude.{
  ℕ, ℤ, ◌≤◌, ◌<◌, ◌≡◌, ◌⊎◌, true, Option, none, some, List, [], ◌∷◌, length, All,
}
use reflect_pytest.Float.{Float}
use reflect_pytest.Messages.{Msg, EnvironmentPayload, AutoDriveCommandPayload}
use reflect_pytest.Services.Autonomous.{target_speed}
use reflect_pytest.World.{World, Lock, Cmd, holds, autonomous_mu}
use reflect_pytest.Safety.Rules.{Below, InOrder, Returns}

-- A shared pointer that is null or points to an allocation.
abbrev pub ValidPtr : ℕ → Option ℕ → Type 0
ValidPtr size none = Unit
ValidPtr size (some p) = p < size

-- A region whose speed limit is at most 10000 RPM either way, or none.
abbrev pub RegionFits : {F : Type 0} ⦃fl : Float F⦄ → EnvironmentPayload F → Type 0
RegionFits ⦃fl⦄ e = fl.le (fl.abs e.max_speed_rpm) (fl.lit 10000 0) ≡ true

abbrev pub PlaceFits : {F : Type 0} ⦃fl : Float F⦄ → Option (EnvironmentPayload F) → Type 0
PlaceFits none = Unit
PlaceFits (some e) = RegionFits e

-- The target speed of the command fits an int16_t, in any such region and outside all regions.
pub data SpeedFits {F : Type 0} ⦃fl : Float F⦄ (p : AutoDriveCommandPayload F) : Type 0 where
  speed_fits :
      ((place : Option (EnvironmentPayload F))
        → PlaceFits place
        → (rpm : ℤ) × (fl.to_i16 (target_speed p place) ≡ some rpm))
      → SpeedFits p

pub rpm_of :
    {F : Type 0} ⦃fl : Float F⦄ (p : AutoDriveCommandPayload F)
    (place : Option (EnvironmentPayload F))
    → SpeedFits p
    → PlaceFits place
    → (rpm : ℤ) × (fl.to_i16 (target_speed p place) ≡ some rpm)
rpm_of p place (speed_fits f) h = f place h

-- There is a NUL in the array.
abbrev pub IsTerminated : List ℕ → Type 0
IsTerminated [] = ⊥
IsTerminated (c ∷ cs) = (c ≡ 0) ⊎ IsTerminated cs

-- `n` is a number of allocations that there are at least: allocations stay.
pub record Inv {F : Type 0} ⦃fl : Float F⦄ (n : ℕ) (w : World F) : Type 0 where
  pub allocations : n ≤ length w.heap
  pub steps_length : length w.motor.current_cmd.steps ≡ 5
  pub steps_used : w.motor.current_cmd.num_steps ≤ 5
  pub route_length : length w.autonomous.cmd.route ≡ 8
  pub route_used : w.autonomous.cmd.num_nodes ≤ 8
  pub on_route :
      w.autonomous.route_active ≡ true → w.autonomous.current_node_idx < w.autonomous.cmd.num_nodes
  pub environments_length : length w.autonomous.status.environment_ids ≡ 4
  pub environments_counted :
      w.autonomous.status.num_environments_used ≡ length w.autonomous.used_envs
  pub environments_used : length w.autonomous.used_envs ≤ 4
  pub stats_length : length w.autonomous.status.node_stats ≡ 8
  pub cache_valid : All (λ p. p < length w.heap) w.environment.cache
  pub env_ptr_valid : ValidPtr (length w.heap) w.autonomous.current_env_ptr
  pub regions_fit : All RegionFits w.heap
  pub route_speed : 0 < w.autonomous.cmd.num_nodes → SpeedFits w.autonomous.cmd
  pub locks_ordered : All InOrder w.acquired

-- The nesting of messages below a message.
abbrev pub height : {F : Type 0} → Msg F → ℕ
height (Msg.log p) = 1
height (Msg.physics_tick p) = 7
height (Msg.state_request p) = 2
height (Msg.state_data p) = 1
height (Msg.motor_sequence p) = 2
height (Msg.motor_status p) = 1
height (Msg.kinematics_request p) = 6
height (Msg.kinematics_data p) = 5
height (Msg.power_request p) = 2
height (Msg.power_data p) = 1
height (Msg.thermal_request p) = 2
height (Msg.thermal_data p) = 1
height (Msg.environment_ack p) = 1
height (Msg.environment_request p) = 1
height (Msg.environment_data p) = 2
height (Msg.auto_drive_command p) = 3
height (Msg.auto_drive_status p) = 1
height (Msg.internal_env_request p) = 4
height (Msg.internal_env_data p) = 3

-- The mutexes that a thread may hold when it publishes a message.
abbrev pub MayHold : {F : Type 0} → Msg F → List Lock → Type 0
MayHold (Msg.motor_status p) held = Below 3 held
MayHold (Msg.motor_sequence p) held = Below 2 held
MayHold (Msg.internal_env_data p) held = Below 2 held × (holds autonomous_mu held ≡ true)
MayHold (Msg.internal_env_request p) held = Below 1 held × (holds autonomous_mu held ≡ true)
MayHold (Msg.environment_ack p) held = Below 7 held
MayHold (Msg.environment_request p) held = Below 7 held
MayHold (Msg.auto_drive_status p) held = Below 7 held
MayHold m held = Below 1 held

-- What the payload has to satisfy: arrays of their length, a route of at most as many nodes as its
-- array has, and pointers to what was allocated.
abbrev pub IsSafe : {F : Type 0} ⦃fl : Float F⦄ → ℕ → Msg F → Type 0
IsSafe n (Msg.motor_sequence p) = length p.steps ≡ 5
IsSafe n (Msg.auto_drive_command p) =
    (length p.route ≡ 8) × (p.num_nodes ≤ 8) × SpeedFits p × IsTerminated p.route_name
IsSafe n (Msg.environment_data p) = RegionFits p
IsSafe n (Msg.internal_env_data p) = p.ptr < n
IsSafe n _ = Unit

-- A `publish` that returns on messages of height up to `k`, and keeps the invariant.
pub record Sound {F : Type 0} ⦃fl : Float F⦄ (publish : Msg F → Cmd F) (k : ℕ) : Type 0 where
  pub returns_from :
      (n : ℕ) (m : Msg F) (held : List Lock) (w : World F)
      → height m ≤ k
      → MayHold m held
      → IsSafe n m
      → Inv n w
      → Returns (Inv n) (publish m held w)
