-- ===== src/Services/Autonomous/Handlers.antt =====
-- The handlers of src/services/autonomous_service.cpp.
use reflect_pytest.Prelude.{
  ℕ, ℤ, pos, ◌+◌, ◌*◌, ◌%◌, ◌^◌, ltb, leb, true, false, not, ◌&&◌, ◌||◌, if◌then◌else◌, Option,
  none, some, List, [], ◌∷◌, ◌++◌, length, get_elem?, set, replicate,
}
use reflect_pytest.Float.{Float, nought}
use reflect_pytest.Messages.{
  Msg, c_string, AutoDriveCommandPayload, EnvironmentPayload, InternalEnvDataPayload,
  KinematicsPayload, MotorSequencePayload, PhysicsTickPayload, PowerPayload,
}
use reflect_pytest.World.{
  World, AutonomousService, Platform, LogCall, Cmd, ◌>>◌, ◌>>=◌, done, modify, the, when, with_lock,
  autonomous_mu, no_status, no_sub_cmd,
}
use reflect_pytest.Services.Log.{log_info}
use reflect_pytest.Services.Autonomous.Control.{
  contains, target_speed, is_steep, is_outside, has_reached, stats_at,
}

module _ {F : Type 0} where
  abbrev pub set_autonomous : (AutonomousService F → AutonomousService F) → Cmd F
  set_autonomous f = modify (λ w. record w { autonomous = f w.autonomous })

  abbrev pub deref_or_null :
      List (EnvironmentPayload F) → Option ℕ → Option (Option (EnvironmentPayload F))
  deref_or_null heap none = some none
  deref_or_null heap (some p) = elim (get_elem? heap p) [ none ↦ none | some e ↦ some (some e) ]

  -- What current_env_ptr_ points to, if it is set.
  abbrev pub current_env : World F → Option (Option (EnvironmentPayload F))
  current_env w = deref_or_null w.heap w.autonomous.current_env_ptr

-- A sequence of one step.
abbrev pub one_step : ℕ → ℤ → ℕ → MotorSequencePayload
one_step cmd_id speed_rpm duration_us = record {
  cmd_id = cmd_id;
  num_steps = 1;
  steps = record { speed_rpm = speed_rpm; duration_us = duration_us } ∷ replicate 4 no_sub_cmd;
}

module _ {F : Type 0} ⦃fl : Float F⦄ ⦃pl : Platform F⦄ (publish : Msg F → Cmd F) where
  abbrev info : LogCall F → Cmd F
  info = log_info "auto"

  -- The log line of the reduction on an incline.
  unfoldable pub log_incline : Option (EnvironmentPayload F) → F → Cmd F
  log_incline none speed = done
  log_incline (some e) speed = info (LogCall.steep_incline e.incline_percent speed)

  -- The conversion of the speed is undefined where an int16_t has no room for it. The log line converts the
  -- speed to an `int`, which is undefined only where this one is.
  unfoldable pub publish_motor_sequence_for_current_node : Cmd F
  publish_motor_sequence_for_current_node = do
    a ← the (λ w. w.autonomous)
    node ← (λ w. get_elem? a.cmd.route a.current_node_idx)
    env ← current_env
    let speed = target_speed a.cmd env
    when (a.cmd.use_environment_tuning && is_steep env) (log_incline env speed)
    rpm ← (λ w. fl.to_i16 speed)
    publish (Msg.motor_sequence (one_step 999 rpm ((node.timeout_ms * 1000) % 2 ^ 32)))

  unfoldable pub on_auto_drive_command : AutoDriveCommandPayload F → Cmd F
  on_auto_drive_command cmd = with_lock autonomous_mu do
    route ← (λ w. c_string cmd.route_name)
    info (LogCall.received_auto_drive_command route cmd.num_nodes)
    set_autonomous (λ a. record a {
      cmd = cmd;
      current_node_idx = 0;
      route_active = ltb 0 cmd.num_nodes;
      status = record no_status { cmd_id = 1234 };
      used_envs = [];
      current_env_ptr = none;
      current_total_energy_j = nought;
      node_start_energy_j = nought;
      node_start_pos_m = a.last_pos_m;
    })
    a ← the (λ w. w.autonomous)
    when a.route_active publish_motor_sequence_for_current_node

  -- A region is tracked if it is not tracked yet and there is room for it.
  unfoldable pub track : ℕ → Cmd F
  track region = do
    a ← the (λ w. w.autonomous)
    when (not (contains region a.used_envs) && ltb (length a.used_envs) 4) (do
      info (LogCall.tracking_environment region a.last_pos_m)
      slot ← (λ w. get_elem? a.status.environment_ids a.status.num_environments_used)
      set_autonomous (λ a. record a {
        used_envs = a.used_envs ++ region ∷ [];
        status = record a.status {
          environment_ids = set a.status.environment_ids a.status.num_environments_used region;
          num_environments_used = (a.status.num_environments_used + 1) % 2 ^ 8;
        };
      }))

  unfoldable pub on_internal_env_data : InternalEnvDataPayload → Cmd F
  unfolding track
  on_internal_env_data env = with_lock autonomous_mu do
    set_autonomous (λ a. record a { current_env_ptr = some env.ptr })
    e ← (λ w. get_elem? w.heap env.ptr)
    track e.region_id
    a ← the (λ w. w.autonomous)
    when a.route_active publish_motor_sequence_for_current_node

  unfoldable pub on_power : PowerPayload F → Cmd F
  on_power power = with_lock autonomous_mu (
      set_autonomous λ a. record a {
        current_total_energy_j =
            fl.add a.current_total_energy_j
              (fl.mul (fl.mul power.voltage_v power.current_a) (fl.lit 1 2));
      })

  -- The statistics of a reached node, while there is room for them.
  unfoldable pub record_stats : F → Cmd F
  record_stats place = do
    a ← the (λ w. w.autonomous)
    when (ltb a.status.num_stats 8) (do
      slot ← (λ w. get_elem? a.status.node_stats a.status.num_stats)
      set_autonomous (λ a. record a {
        status = record a.status {
          node_stats = set a.status.node_stats a.status.num_stats (stats_at a place);
          num_stats = (a.status.num_stats + 1) % 2 ^ 8;
        };
      }))

  -- The next node, or the end of the route.
  unfoldable pub next_node : Cmd F
  next_node = do
    set_autonomous (λ a. record a {
      current_node_idx = (a.current_node_idx + 1) % 2 ^ 8;
      status = record a.status { current_node_idx = (a.current_node_idx + 1) % 2 ^ 8 };
    })
    a ← the (λ w. w.autonomous)
    if leb a.cmd.num_nodes a.current_node_idx
        then (do
          set_autonomous (λ a. record a {
            route_active = false;
            status = record a.status { route_complete = true };
          })
          info LogCall.route_complete
          b ← the (λ w. w.autonomous)
          publish (Msg.auto_drive_status b.status)
          publish (Msg.motor_sequence (one_step 0 (pos 0) 0)))
        else publish_motor_sequence_for_current_node

  -- The branch for a reached node.
  unfoldable pub arrive : F → Cmd F
  unfolding record_stats next_node
  arrive place = do
    before ← the (λ w. w.autonomous)
    info (LogCall.reached_node before.current_node_idx)
    record_stats place
    next_node

  -- The request for the region, if the vehicle has left the one that is known.
  unfoldable pub ask : KinematicsPayload F → Cmd F
  ask kin = do
    a ← the (λ w. w.autonomous)
    when a.cmd.use_environment_tuning (do
      env ← current_env
      when (is_outside kin.position_m env)
          (publish (Msg.internal_env_request (record { x = kin.position_m; y = nought }))))

  unfoldable pub on_kinematics : KinematicsPayload F → Cmd F
  unfolding arrive ask
  on_kinematics kin = with_lock autonomous_mu do
    a ← the (λ w. w.autonomous)
    if not a.route_active || leb a.cmd.num_nodes a.current_node_idx
        then set_autonomous (λ a. record a { last_pos_m = kin.position_m })
        else (do
          node ← (λ w. get_elem? a.cmd.route a.current_node_idx)
          ask kin
          b ← the (λ w. w.autonomous)
          when (has_reached node b.last_pos_m kin.position_m) (arrive kin.position_m)
          set_autonomous (λ a. record a { last_pos_m = kin.position_m }))

  unfoldable pub on_physics_tick : PhysicsTickPayload → Cmd F
  on_physics_tick tick = with_lock autonomous_mu do
    a ← the (λ w. w.autonomous)
    when a.route_active (publish (Msg.kinematics_request 0) >> publish (Msg.power_request 0))
