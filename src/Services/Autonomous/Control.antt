-- ===== src/Services/Autonomous/Control.antt =====
-- The pure parts of src/services/autonomous_service.cpp: target speed, arrival test, statistics.
use reflect_pytest.Prelude.{
  ℕ, Bool, true, false, ◌&&◌, ◌||◌, ◌==◌, if◌then◌else◌, Option, none, some, List, [], ◌∷◌,
}
use reflect_pytest.Float.{Float, nought}
use reflect_pytest.Messages.{
  AutoDriveCommandPayload, EnvironmentPayload, ManeuverNode, ManeuverStats, DriveMode, eco,
  performance, manual_tuning, unnamed,
}
use reflect_pytest.World.{AutonomousService}

-- std::find over the tracked regions.
unfoldable pub contains : ℕ → List ℕ → Bool
contains region [] = false
contains region (r ∷ rs) = r == region || contains region rs

module _ {F : Type 0} ⦃fl : Float F⦄ where
  -- Without a region the default is 1000 RPM.
  unfoldable pub base_speed : Option (EnvironmentPayload F) → F
  base_speed none = fl.lit 1000 0
  base_speed (some e) = e.max_speed_rpm

  -- The switch on the drive mode; a byte that names no mode leaves the speed.
  unfoldable pub scale : DriveMode → F → F → F
  scale eco p_gain speed = fl.mul speed (fl.lit 75 2)
  scale performance p_gain speed = fl.mul speed (fl.lit 110 2)
  scale manual_tuning p_gain speed = fl.mul speed p_gain
  scale (unnamed byte) p_gain speed = speed

  -- A region with an incline of more than 5 per cent either way.
  unfoldable pub is_steep : Option (EnvironmentPayload F) → Bool
  is_steep none = false
  is_steep (some e) = fl.lt (fl.lit 5 0) (fl.abs e.incline_percent)

  -- The target speed, with the reduction on inclines.
  unfoldable pub target_speed : AutoDriveCommandPayload F → Option (EnvironmentPayload F) → F
  unfolding base_speed scale is_steep
  target_speed cmd env =
      let scaled = scale cmd.mode cmd.p_gain (base_speed env) in
      if cmd.use_environment_tuning && is_steep env then fl.div scaled (fl.lit 2 0) else scaled

  -- The vehicle is outside the region that is known.
  unfoldable pub is_outside : F → Option (EnvironmentPayload F) → Bool
  is_outside pos none = true
  is_outside pos (some e) = fl.lt pos e.bounds.min_pt.x || fl.lt e.bounds.max_pt.x pos

  -- Nearer than 0.1 m, or on the other side since the last position.
  unfoldable pub has_reached : ManeuverNode F → F → F → Bool
  has_reached node last_pos pos =
      let prev_dist_vec = fl.sub node.target_pos.x last_pos in
      let curr_dist_vec = fl.sub node.target_pos.x pos in
      fl.lt (fl.abs curr_dist_vec) (fl.lit 1 1) || fl.le (fl.mul prev_dist_vec curr_dist_vec) nought

  -- The statistics that a reached node records, at the position where it was reached.
  unfoldable pub stats_at : AutonomousService F → F → ManeuverStats F
  stats_at a pos =
      let initial = fl.mul a.node_start_energy_j (fl.lit 1000 0) in
      let final = fl.mul a.current_total_energy_j (fl.lit 1000 0) in
      let used = fl.sub final initial in
      let moved = fl.abs (fl.sub pos a.node_start_pos_m) in
      record {
        initial_energy_mj = initial;
        final_energy_mj = final;
        energy_per_meter_mj = if fl.lt (fl.lit 1 2) moved then fl.div used moved else nought;
        total_energy_used_mj = used;
      }
