-- ===== src/App/Status.antt =====
-- A report of the motor on the wired bus: its subscribers return, and leave the motor as it is.
use Prim.Native.Nat.{min}
use reflect_pytest.Prelude.{
  ℕ, suc, ◌≡◌, refl, inl, inr, not, if◌then◌else◌, List, [], ◌∷◌, arith, Bool-cases, length,
  get_elem?, some, ltb, ◌<◌,
}
use reflect_pytest.Float.{Float}
use reflect_pytest.Messages.{
  Msg, MsgId, MotorStatusPayload, MotorSequencePayload, MotorSubCmd, PhysicsTickPayload, ready,
  executing,
}
use reflect_pytest.World.{
  World, Service, kinematics, power, state, motor_mu, state_mu, kinematics_mu, power_mu, Platform,
  Cmd, ◌>>◌,
}
use reflect_pytest.Services.State.{state_eq}
use reflect_pytest.Services.State
use reflect_pytest.Services.Motor.{on_motor_sequence, limit_sequence}
use reflect_pytest.Services.Motor.Ticks.{ticks_of}
use reflect_pytest.Services.Motor.Schedule.{ticks, Reported, sequence_runs_out}
use reflect_pytest.Services.Motor.Speeds.{speed_at}
use reflect_pytest.Services.Kinematics
use reflect_pytest.Services.Power
use reflect_pytest.Bus.{publish, wire_services, each, handle}
use reflect_pytest.Bus.Wiring.{subscribers, handlers-wire_services}
use reflect_pytest.Safety.Rules.{Returns, returns, Returns-bind, Returns-lock}
use reflect_pytest.Safety.Log.{log-after}

module _ {F : Type 0} ⦃fl : Float F⦄ ⦃pl : Platform F⦄ (order : List Service) (fuel : ℕ)
    (three : subscribers MsgId.motor_status order ≡ kinematics ∷ power ∷ state ∷ []) where
  status-keeps_motor :
      (ms : MotorStatusPayload) (w : World F)
      → Returns
          (Reported ms w)
          (publish (wire_services order []) (suc fuel) (Msg.motor_status ms) (motor_mu ∷ []) w)
  unfolding publish each handle State.on_motor_status Kinematics.on_motor_status
      Power.on_motor_status
  status-keeps_motor ms w =
      let next = if ms.is_active then executing else ready in
      rw (handlers-wire_services MsgId.motor_status order, three)
        (Returns-bind {R = λ w'. w'.motor ≡ w.motor}
          (Returns-lock kinematics_mu _ _ _ (inr (omega arith, tt)) (returns refl))
          λ w1 e1.
            Returns-bind {R = λ w'. w'.motor ≡ w.motor}
              (Returns-lock power_mu _ _ _ (inr (omega arith, tt)) (returns e1))
              λ w2 e2.
                Returns-bind {R = Reported ms w}
                  (Returns-lock state_mu _ _ _ (inr (omega arith, tt))
                    (elim (Bool-cases (not (state_eq next w2.state.state))) [
                      | inl on ↦
                          rw on (log-after _ _ _ _ (omega arith, (omega arith, tt)) (e2, refl))
                      | inr off ↦ rw off (returns (e2, refl))
                    ]))
                  λ w3 e3. returns e3)

  -- In the application a command of the motor whose first step has a duration is carried out and ends. After any number of
  -- ticks of 10 ms for it, the speed that the motor has reported to the state service last is that of the step in which the tick falls: each step
  -- takes as many ticks as its duration, rounded up, and one at least, in the order of the command, with the number of steps and the
  -- speeds limited, and behind the last step the speed is 0. The motor is active until the last one of these ticks, and not
  -- after it. Assumed: the array of steps has its five
  -- elements, and the subscribers of the reports are the kinematics, power and state services in that order.
  pub sequence_ends :
      (cmd : MotorSequencePayload) (first : MotorSubCmd) (tick : PhysicsTickPayload) (n : ℕ)
      (w : World F)
      → length cmd.steps ≡ 5
      → get_elem? cmd.steps 0 ≡ some first
      → 0 < cmd.num_steps
      → 0 < first.duration_us
      → tick.cmd_id ≡ cmd.cmd_id
      → tick.dt_us ≡ 10_000
      → let send : Msg F → Cmd F = publish (wire_services order []) (suc fuel) in
        (w' : World F) × ((on_motor_sequence send cmd >> ticks send n tick) [] w ≡ some w')
        × (w'.motor.active ≡ ltb n (ticks_of (min cmd.num_steps 5) cmd.steps))
        × (w'.state.last_rpm ≡ speed_at n (limit_sequence cmd).num_steps (limit_sequence cmd).steps)
  sequence_ends cmd first tick n w l e some_steps some_time same dt =
      sequence_runs_out (publish (wire_services order []) (suc fuel)) status-keeps_motor cmd first
        tick n w l e some_steps some_time same dt
