-- ===== src/Safety/Autonomous.antt =====
-- The handlers of the autonomous service return and keep the invariant, as long as a route has no
-- more nodes than its array, a NUL in its name, and speeds that fit an int16_t.
use reflect_pytest.Prelude.{
  ℕ, ◌+◌, ◌≤◌, ◌<◌, ◌≡◌, refl, inl, inr, Bool, true, false, not, ◌&&◌, Option, none, some, List, [],
  ◌∷◌, ◌++◌, length, get_elem?, get_elem?-some, All, subst, zero, suc, ◌==◌, ◌*◌, ◌%◌, ◌^◌,
  length-set, length-append, arith, ltb, Bool-cases,
}
use mathlib.Core.Option.{some-injective}
use reflect_pytest.Float.{Float}
use reflect_pytest.Messages.{
  Msg, AutoDriveCommandPayload, EnvironmentPayload, InternalEnvDataPayload, PhysicsTickPayload,
  PowerPayload, info, c_string,
}
use reflect_pytest.World.{World, Lock, holds, autonomous_mu, Platform, LogCall, Cmd, when}
use reflect_pytest.Services.Autonomous.{
  contains, is_steep, target_speed, one_step, deref_or_null, log_incline,
  publish_motor_sequence_for_current_node, on_auto_drive_command, track, on_internal_env_data,
  on_power, on_physics_tick,
}
use reflect_pytest.Safety.Rules.{
  Returns, returns, Returns-bind, Returns-step, Returns-read, Returns-lock, Below, Below-mono,
  InOrder-first, took,
}
use reflect_pytest.Safety.Inv.{
  Inv, Sound, ValidPtr, RegionFits, PlaceFits, SpeedFits, IsTerminated, rpm_of,
}
use reflect_pytest.Safety.Log.{log_info-eq, log-Returns, after_log-Inv}

-- A terminated array has a text.
c_string-IsTerminated :
    (cs : List ℕ) → IsTerminated cs → (text : List ℕ) × (c_string cs ≡ some text)
unfolding c_string
c_string-IsTerminated [] t = absurd t
c_string-IsTerminated (c ∷ cs) (inl nul) = ([], rw nul refl)
c_string-IsTerminated (c ∷ cs) (inr later) =
    let (text, e) = c_string-IsTerminated cs later in
    elim (Bool-cases (c == 0)) [
      | inl nul ↦ ([], rw nul refl)
      | inr other ↦ (c ∷ text, rw (other, e) refl)
    ]

module _ {F : Type 0} where
  pub deref-Returns :
      (heap : List (EnvironmentPayload F)) (o : Option ℕ)
      → ValidPtr (length heap) o
      → (e : Option (EnvironmentPayload F)) × (deref_or_null heap o ≡ some e)
  deref-Returns heap none v = (none, refl)
  deref-Returns heap (some p) v = let (e, at) = get_elem?-some heap p v in (some e, ground arith)

  element-Fits :
      ⦃fl : Float F⦄ (heap : List (EnvironmentPayload F)) (p : ℕ) (e : EnvironmentPayload F)
      → get_elem? heap p ≡ some e
      → All RegionFits heap
      → RegionFits e
  element-Fits [] p e at fits = absurd (ground arith)
  element-Fits (d ∷ heap) zero e at (fit, fits) = subst RegionFits (some-injective _ _ at) fit
  element-Fits (d ∷ heap) (suc p) e at (fit, fits) = element-Fits heap p e at fits

  -- The region that the pointer leads to is one of those that fit.
  deref-PlaceFits :
      ⦃fl : Float F⦄ (heap : List (EnvironmentPayload F)) (o : Option ℕ)
      (place : Option (EnvironmentPayload F))
      → deref_or_null heap o ≡ some place
      → All RegionFits heap
      → PlaceFits place
  deref-PlaceFits heap o none at fits = tt
  deref-PlaceFits heap none (some e) at fits = absurd (ground arith)
  deref-PlaceFits heap (some p) (some e) at fits = element-Fits heap p e (ground arith) fits

module _ {F : Type 0} ⦃fl : Float F⦄ ⦃pl : Platform F⦄ (publish : Msg F → Cmd F) where
  log_incline-Returns :
      (n : ℕ) (env : Option (EnvironmentPayload F)) (speed : F) (held : List Lock) (w : World F)
      → Below 8 held
      → Inv n w
      → Returns (Inv n) (log_incline publish env speed held w)
  unfolding log_incline
  log_incline-Returns n none speed held w b i = returns i
  log_incline-Returns n (some e) speed held w b i = log-Returns n _ _ held w b i

  pub publish_motor-Returns :
      (sound : Sound publish 2) (n : ℕ) (held : List Lock) (w : World F)
      → Below 2 held
      → w.autonomous.current_node_idx < 8
      → SpeedFits w.autonomous.cmd
      → Inv n w
      → Returns (Inv n) (publish_motor_sequence_for_current_node publish held w)
  unfolding publish_motor_sequence_for_current_node
  publish_motor-Returns sound n held w b l f i =
      let a = w.autonomous in
      let (node, at) = get_elem?-some a.cmd.route a.current_node_idx (omega arith) in
      let (env, e) = deref-Returns w.heap a.current_env_ptr i.env_ptr_valid in
      let place = deref-PlaceFits w.heap a.current_env_ptr env e i.regions_fit in
      let (rpm, fits) = rpm_of a.cmd env f place in
      let sent = λ (w' : World F) (i' : Inv n w').
        Returns-read {o = fl.to_i16 (target_speed a.cmd env)}
          (λ r.
            publish (Msg.motor_sequence (one_step 999 r ((node.timeout_ms * 1000) % 2 ^ 32))) held
              w')
          fits (sound.returns_from n _ held w' (omega arith) b refl i') in
      Returns-read _ at (
        Returns-read _ e (elim (Bool-cases (a.cmd.use_environment_tuning && is_steep env)) [
          | inl on ↦ rw on (
              Returns-bind (log_incline-Returns n env _ held w (Below-mono held (omega arith) b) i)
                sent)
          | inr off ↦ rw off (sent w i)
        ]))

  when_active-Returns :
      (sound : Sound publish 2) (n : ℕ) (held : List Lock) (w : World F)
      → Below 2 held
      → Inv n w
      → (active : Bool) → w.autonomous.route_active ≡ active
      → Returns (Inv n) (when active (publish_motor_sequence_for_current_node publish) held w)
  when_active-Returns sound n held w b i true e =
      publish_motor-Returns sound n held w b (ground arith) (i.route_speed (ground arith)) i
  when_active-Returns sound n held w b i false e = returns i

  pub on_auto_drive_command-Returns :
      (sound : Sound publish 2) (n : ℕ) (cmd : AutoDriveCommandPayload F) (held : List Lock)
      (w : World F)
      → Below 1 held
      → length cmd.route ≡ 8
      → cmd.num_nodes ≤ 8
      → SpeedFits cmd
      → IsTerminated cmd.route_name
      → Inv n w
      → Returns (Inv n) (on_auto_drive_command publish cmd held w)
  unfolding on_auto_drive_command
  on_auto_drive_command-Returns sound n cmd held w b l c f t i =
      let (name, named) = c_string-IsTerminated cmd.route_name t in
      let inner : Below 2 (autonomous_mu ∷ held) = (omega arith, Below-mono held (omega arith) b) in
      let high : Below 8 (autonomous_mu ∷ held) = (omega arith, Below-mono held (omega arith) b) in
      let o = InOrder-first held b in
      let w1 = took autonomous_mu held w in
      let i1 : Inv n w1 = ground arith in
      let call = LogCall.received_auto_drive_command name cmd.num_nodes in
      let i2 = after_log-Inv n info "auto" call (autonomous_mu ∷ held) w1 high i1 in
      Returns-lock autonomous_mu _ held _ o (
        Returns-read _ named (
          Returns-step _ (log_info-eq _ _ _ w1 high)
            (when_active-Returns sound n _ _ inner (ground arith) (ltb 0 cmd.num_nodes) refl)))

  pub on_power-Returns :
      (n : ℕ) (p : PowerPayload F) (held : List Lock) (w : World F)
      → Below 1 held
      → Inv n w
      → Returns (Inv n) (on_power publish p held w)
  unfolding on_power
  on_power-Returns n p held w b i =
      let o = InOrder-first held b in Returns-lock autonomous_mu _ held _ o (returns (ground arith))

  pub on_physics_tick-Returns :
      (sound : Sound publish 6) (n : ℕ) (p : PhysicsTickPayload) (held : List Lock) (w : World F)
      → Below 1 held
      → Inv n w
      → Returns (Inv n) (on_physics_tick publish p held w)
  unfolding on_physics_tick
  on_physics_tick-Returns sound n p held w b i =
      let o = InOrder-first held b in
      let inner : Below 1 (autonomous_mu ∷ held) = (omega arith, b) in
      Returns-lock autonomous_mu _ held _ o (elim (Bool-cases w.autonomous.route_active) [
        | inl on ↦ rw on (
            Returns-bind (sound.returns_from n _ _ _ (omega arith) inner tt (ground arith))
              λ w' i'. sound.returns_from n _ _ w' (omega arith) inner tt i')
        | inr off ↦ rw off (returns (ground arith))
      ])

  track-Returns :
      (n region : ℕ) (held : List Lock) (w : World F)
      → Below 8 held
      → Inv n w
      → Returns (Inv n) (track publish region held w)
  unfolding track
  track-Returns n region held w b i =
      let a = w.autonomous in
      let call = LogCall.tracking_environment region a.last_pos_m in
      elim (Bool-cases (not (contains region a.used_envs) && ltb (length a.used_envs) 4)) [
        | inl new ↦
            let slots = a.status.environment_ids in
            let used = a.status.num_environments_used in
            let (slot, at) = get_elem?-some slots used (ground arith) in
            let written = length-set slots used region in
            let grown : length (a.used_envs ++ region ∷ []) ≡ length a.used_envs + 1 =
              length-append a.used_envs (region ∷ []) in
            let i' = after_log-Inv n info "auto" call held w b i in
            rw new (
              Returns-step _ (log_info-eq _ _ held w b)
                (Returns-read _ at (returns (ground arith))))
        | inr old ↦ rw old (returns i)
      ]

  pub on_internal_env_data-Returns :
      (sound : Sound publish 2) (n : ℕ) (env : InternalEnvDataPayload) (held : List Lock)
      (w : World F)
      → Below 2 held
      → holds autonomous_mu held ≡ true
      → env.ptr < n
      → Inv n w
      → Returns (Inv n) (on_internal_env_data publish env held w)
  unfolding on_internal_env_data
  on_internal_env_data-Returns sound n env held w b h v i =
      let inner : Below 2 (autonomous_mu ∷ held) = (omega arith, b) in
      let (e, at) = get_elem?-some w.heap env.ptr (omega arith) in
      let w1 : World F = record (took autonomous_mu held w) {
        autonomous = record w.autonomous { current_env_ptr = some env.ptr };
      } in
      Returns-lock autonomous_mu _ held _ (inl (refl, h)) (
        Returns-read _ at (
          Returns-bind
            (track-Returns n e.region_id (autonomous_mu ∷ held) w1
              (Below-mono (autonomous_mu ∷ held) (omega arith) inner) (ground arith))
            λ w' i'. when_active-Returns sound n _ w' inner i' w'.autonomous.route_active refl))
