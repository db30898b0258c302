-- ===== src/Services/Motor/Schedule.antt =====
-- How long a sequence runs, and at which speeds: the motor counts the ticks of the clock, of 10 ms each.
use Prim.Native.Nat.{min}
use reflect_pytest.Prelude.{
  ℕ, zero, suc, ◌+◌, ◌%◌, ◌^◌, ◌≤◌, ◌<◌, ◌≡◌, refl, sym, ◌∙◌, subst, inl, inr, true, false, not,
  ◌&&◌, ◌||◌, some, [], ◌∷◌, length, get_elem?, get_elem?-some, ℤ, pos, ◌⊎◌, ltb, leb, ◌==◌, arith,
  Bool-cases,
}
use reflect_pytest.Messages.{
  Msg, MotorSequencePayload, MotorSubCmd, PhysicsTickPayload, MotorStatusPayload,
}
use reflect_pytest.World.{World, MotorService, motor_mu, Platform, Cmd, ◌>>◌, done}
use reflect_pytest.Services.Motor.{limit_sequence, on_motor_sequence, on_physics_tick, advance_step}
use reflect_pytest.Safety.Rules.{
  Returns, returns, Returns-some, Returns-bind, Returns-map, Returns-step, Returns-read,
  Returns-lock, took,
}
use reflect_pytest.Services.Motor.Limits.{length-clamp_steps}
use reflect_pytest.Safety.Log.{log_info-eq, log-after}
use reflect_pytest.Services.Motor.Speeds.{
  speed_at, speed_left, next_step-speed, last_step-speed, same_step-speed, speed_left-now,
  started-speed,
}
use reflect_pytest.Services.Motor.Ticks.{
  ticks_of, ticks_left, Running, next_step-Running, same_step-Running, last_step,
  duration-clamp_steps, started-Running, Running-positive,
}

module _ {F : Type 0} ⦃pl : Platform F⦄ (publish : Msg F → Cmd F) where
  -- A number of ticks, one after another.
  unfoldable pub ticks : ℕ → PhysicsTickPayload → Cmd F
  ticks zero tick = done
  ticks (suc n) tick = on_physics_tick publish tick >> ticks n tick

-- The motor runs with `t` ticks to come, or has stopped with none; `speed` was reported last, and `f` gives
-- the speeds from now on.
abbrev pub Follows : ℕ → ℕ → (ℕ → ℤ) → ℤ → MotorService → Type 0
Follows cmd_id t f speed m =
    (((t ≡ 0) × (m.active ≡ false) × (speed ≡ pos 0) × ((n : ℕ) → f n ≡ pos 0))
      ⊎ (Running cmd_id t m × ((n : ℕ) → speed_left n speed m ≡ f n)))

abbrev pub FollowsIn : {F : Type 0} → ℕ → ℕ → (ℕ → ℤ) → World F → Type 0
FollowsIn cmd_id t f w = Follows cmd_id t f w.state.last_rpm w.motor

-- The motor is left as it is, and the state service has the speed of the report.
abbrev pub Reported : {F : Type 0} → MotorStatusPayload → World F → World F → Type 0
Reported ms w w' = (w'.motor ≡ w.motor) × (w'.state.last_rpm ≡ ms.speed_rpm)

module _ {F : Type 0} ⦃pl : Platform F⦄ (publish : Msg F → Cmd F)
    (keeps : (ms : MotorStatusPayload) (w : World F)
      → Returns (Reported ms w) (publish (Msg.motor_status ms) (motor_mu ∷ []) w)) where
  -- After a report, what holds of the motor and of the speed reported.
  after_report :
      (cmd_id t : ℕ) (f : ℕ → ℤ) (speed : ℤ) (m : MotorService) (w' : World F)
      → w'.motor ≡ m
      → w'.state.last_rpm ≡ speed
      → Follows cmd_id t f speed m
      → FollowsIn cmd_id t f w'
  after_report cmd_id t f speed m w' e r h =
      subst (λ v. Follows cmd_id t f v w'.motor) (sym r)
        (subst (λ v. Follows cmd_id t f speed v) (sym e) h)

  advance_step-Follows :
      (cmd_id t : ℕ) (f : ℕ → ℤ) (w : World F)
      → Running cmd_id (suc t) w.motor
      → ((n : ℕ) → speed_left n w.state.last_rpm w.motor ≡ f n)
      → w.motor.step_remaining_us ≤ 10_000
      → Returns (FollowsIn cmd_id t (λ n. f (suc n))) (advance_step publish (motor_mu ∷ []) w)
  unfolding advance_step ticks_left
  advance_step-Follows cmd_id t f w r plan h =
      let m = w.motor in
      let rpm = w.state.last_rpm in
      let idx = (m.current_step_idx + 1) % 2 ^ 8 in
      let here : idx ≡ m.current_step_idx + 1 = ground arith in
      elim (Bool-cases (ltb idx m.current_cmd.num_steps)) [
        | inl more ↦
            let (step, e) = get_elem?-some m.current_cmd.steps idx (ground arith) in
            let running =
              next_step-Running cmd_id t idx m step r h (ground arith) (ground arith) e in
            let speeds =
              λ (n : ℕ). next_step-speed n idx rpm m step h here (ground arith) e ∙ plan (suc n) in
            rw more (
              Returns-read _ e (
                Returns-bind (keeps _ _) (λ w' k.
                  log-after _ _ _ _ (omega arith, tt)
                    (after_report cmd_id t (λ n. f (suc n)) step.speed_rpm _ w' k.0 k.1
                      (inr (running, speeds))))))
        | inr over ↦
            let end : m.current_cmd.num_steps ≤ m.current_step_idx + 1 = ground arith in
            let none_left = last_step cmd_id t m r h end in
            let silent = λ (n : ℕ). sym (plan (suc n)) ∙ last_step-speed n rpm m h end in
            rw over (
              Returns-bind (keeps _ _) (λ w' k.
                log-after _ _ _ _ (omega arith, tt)
                  (after_report cmd_id t (λ n. f (suc n)) (pos 0) _ w' k.0 k.1
                    (inl (none_left, refl, refl, silent)))))
      ]

  on_physics_tick-Follows :
      (t : ℕ) (f : ℕ → ℤ) (tick : PhysicsTickPayload) (w : World F)
      → tick.dt_us ≡ 10_000
      → Running tick.cmd_id (suc t) w.motor
      → ((n : ℕ) → speed_left n w.state.last_rpm w.motor ≡ f n)
      → Returns (FollowsIn tick.cmd_id t (λ n. f (suc n))) (on_physics_tick publish tick [] w)
  unfolding on_physics_tick
  on_physics_tick-Follows t f tick w dt r plan =
      let m = w.motor in
      let rpm = w.state.last_rpm in
      let off : not m.active || not (tick.cmd_id == m.current_cmd.cmd_id) ≡ false =
        (let a = r.is_active in let c = r.same_cmd in ground arith) in
      Returns-lock motor_mu _ [] w (inr tt) (
        rw off (elim (Bool-cases (leb m.step_remaining_us tick.dt_us)) [
          | inl over ↦
              rw over
                (advance_step-Follows tick.cmd_id t f (took motor_mu [] w) r plan (ground arith))
          | inr still ↦
              let within : 10_000 < m.step_remaining_us = ground arith in
              let running = same_step-Running tick.cmd_id t 10_000 m r refl within in
              let speeds = λ (n : ℕ). same_step-speed n rpm m within ∙ plan (suc n) in
              rw (still, dt) (returns (inr (running, speeds)))
        ]))

  stopped_tick :
      (tick : PhysicsTickPayload) (w : World F)
      → w.motor.active ≡ false
      → Returns
          (λ w'. (w'.motor.active ≡ false) × (w'.state.last_rpm ≡ w.state.last_rpm))
          (on_physics_tick publish tick [] w)
  unfolding on_physics_tick
  stopped_tick tick w off = Returns-lock motor_mu _ [] w (inr tt) (rw off (returns (refl, refl)))

  ticks-Follows :
      (n t : ℕ) (f : ℕ → ℤ) (tick : PhysicsTickPayload) (w : World F)
      → tick.dt_us ≡ 10_000
      → FollowsIn tick.cmd_id t f w
      → Returns
          (λ w'. (w'.motor.active ≡ ltb n t) × (w'.state.last_rpm ≡ f n))
          (ticks publish n tick [] w)
  unfolding ticks
  ticks-Follows zero t f tick w dt (inl (none_left, off, quiet, silent)) =
      returns (ground arith, quiet ∙ sym (silent 0))
  ticks-Follows zero t f tick w dt (inr (r, plan)) =
      let more = Running-positive tick.cmd_id t w.motor r in
      let on = r.is_active in
      returns (ground arith, sym (speed_left-now w.state.last_rpm w.motor) ∙ plan 0)
  ticks-Follows (suc n) t f tick w dt (inl (none_left, off, quiet, silent)) =
      Returns-bind (stopped_tick tick w off) λ w' still.
        Returns-map
          (ticks-Follows n t (λ n. f (suc n)) tick w' dt
            (inl (none_left, still.0, still.1 ∙ quiet, λ k. silent (suc k))))
          λ v e. (let a = e.0 in ground arith, e.1)
  ticks-Follows (suc n) zero f tick w dt (inr (r, plan)) =
      absurd (let more = Running-positive tick.cmd_id 0 w.motor r in omega arith)
  ticks-Follows (suc n) (suc t) f tick w dt (inr (r, plan)) =
      Returns-bind (on_physics_tick-Follows t f tick w dt r plan) λ w' c.
        Returns-map (ticks-Follows n t (λ n. f (suc n)) tick w' dt c)
          λ v e. (let a = e.0 in ground arith, e.1)

  on_motor_sequence-Follows :
      (cmd : MotorSequencePayload) (first : MotorSubCmd) (w : World F)
      → length cmd.steps ≡ 5
      → get_elem? cmd.steps 0 ≡ some first
      → 0 < cmd.num_steps
      → 0 < first.duration_us
      → Returns
          (FollowsIn cmd.cmd_id
            (ticks_of (min cmd.num_steps 5) cmd.steps)
            (λ n. speed_at n (limit_sequence cmd).num_steps (limit_sequence cmd).steps))
          (on_motor_sequence publish cmd [] w)
  unfolding on_motor_sequence limit_sequence
  on_motor_sequence-Follows cmd first w l e some_steps some_time =
      let five = length-clamp_steps (min cmd.num_steps 5) cmd.steps ∙ l in
      let (stored, e') = get_elem?-some (limit_sequence cmd).steps 0 (omega arith) in
      let same = duration-clamp_steps (min cmd.num_steps 5) cmd.steps first stored e e' in
      let on : ltb 0 (limit_sequence cmd).num_steps && ltb 0 stored.duration_us ≡ true =
        ground arith in
      let running = started-Running cmd stored w.motor five some_steps e' in
      let speeds = λ (n : ℕ). started-speed n cmd stored w.motor (omega arith) e' in
      Returns-step _ (log_info-eq _ _ [] w tt) (
        Returns-lock motor_mu _ [] _ (inr tt) (
          Returns-read _ e' (
            rw on (
              Returns-map (keeps _ _) λ w' k.
                after_report cmd.cmd_id _ _ stored.speed_rpm _ w' k.0 k.1
                  (inr (running, speeds))))))

  -- The run of a command, for any bus whose status reports return, leave the motor as it is, and reach the state service.
  pub sequence_runs_out :
      (cmd : MotorSequencePayload) (first : MotorSubCmd) (tick : PhysicsTickPayload) (n : ℕ)
      (w : World F)
      → length cmd.steps ≡ 5
      → get_elem? cmd.steps 0 ≡ some first
      → 0 < cmd.num_steps
      → 0 < first.duration_us
      → tick.cmd_id ≡ cmd.cmd_id
      → tick.dt_us ≡ 10_000
      → (w' : World F) × ((on_motor_sequence publish cmd >> ticks publish n tick) [] w ≡ some w')
        × (w'.motor.active ≡ ltb n (ticks_of (min cmd.num_steps 5) cmd.steps))
        × (w'.state.last_rpm ≡ speed_at n (limit_sequence cmd).num_steps (limit_sequence cmd).steps)
  sequence_runs_out cmd first tick n w l e some_steps some_time same dt =
      let t = ticks_of (min cmd.num_steps 5) cmd.steps in
      let f = λ (n : ℕ). speed_at n (limit_sequence cmd).num_steps (limit_sequence cmd).steps in
      let (w', runs, holds) =
        Returns-some (λ w'. (w'.motor.active ≡ ltb n t) × (w'.state.last_rpm ≡ f n))
          (Returns-bind (on_motor_sequence-Follows cmd first w l e some_steps some_time)
            λ v r. ticks-Follows n t f tick v dt (rw same r)) in
      (w', runs, holds.0, holds.1)
