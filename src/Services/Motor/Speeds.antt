-- ===== src/Services/Motor/Speeds.antt =====
-- The speeds of a sequence, tick by tick, over the members of the motor service.

use reflect_pytest.Prelude.{
  ℕ, zero, suc, ◌+◌, ◌-◌, ◌≤◌, ◌<◌, ◌≡◌, refl, sym, true, false, ℤ, pos, ltb, if◌then◌else◌, some,
  List, [], ◌∷◌, get_elem?, drop, arith,
}
use reflect_pytest.Messages.{MotorSequencePayload, MotorSubCmd}
use reflect_pytest.World.{MotorService}
use reflect_pytest.Services.Motor.{limit_sequence}
use reflect_pytest.Services.Motor.Ticks.{ticks_for}

-- The speed at tick `n` of the first `k` steps: that of the step in which the tick falls, and 0 behind them.
unfoldable pub speed_at : ℕ → ℕ → List MotorSubCmd → ℤ
speed_at n zero steps = pos 0
speed_at n (suc k) [] = pos 0
speed_at n (suc k) (s ∷ steps) =
    let later = speed_at (n - ticks_for s.duration_us) k steps in
    if ltb n (ticks_for s.duration_us) then s.speed_rpm else later

-- The speed `n` ticks from now, where `speed` is the one of the current step.
unfoldable pub speed_left : ℕ → ℤ → MotorService → ℤ
speed_left n speed m =
    if ltb n (ticks_for m.step_remaining_us)
    then speed
    else speed_at (n - ticks_for m.step_remaining_us)
        (m.current_cmd.num_steps - (m.current_step_idx + 1))
        (drop (m.current_step_idx + 1) m.current_cmd.steps)

pub speed_at-next :
    (n k i : ℕ) (steps : List MotorSubCmd) (s : MotorSubCmd)
    → get_elem? steps i ≡ some s
    → speed_at n (suc k) (drop i steps) ≡ (
        if ltb n (ticks_for s.duration_us)
        then s.speed_rpm
        else speed_at (n - ticks_for s.duration_us) k (drop (suc i) steps))
unfolding speed_at
speed_at-next n k i [] s e = cc
speed_at-next n k zero (t ∷ steps) s e = ground arith
speed_at-next n k (suc i) (t ∷ steps) s e = speed_at-next n k i steps s e

pub speed_from :
    (n k l i j : ℕ) (steps : List MotorSubCmd) (s : MotorSubCmd)
    → l ≡ suc k
    → j ≡ suc i
    → get_elem? steps i ≡ some s
    → speed_at n l (drop i steps) ≡ (
        if ltb n (ticks_for s.duration_us)
        then s.speed_rpm
        else speed_at (n - ticks_for s.duration_us) k (drop j steps))
speed_from n k l i j steps s a b e = rw (a, b) (speed_at-next n k i steps s e)

-- A tick within a step.
pub same_step-speed :
    (n : ℕ) (speed : ℤ) (m : MotorService)
    → 10_000 < m.step_remaining_us
    → speed_left n speed (record m { step_remaining_us = m.step_remaining_us - 10_000 })
      ≡ speed_left (suc n) speed m
unfolding speed_left
same_step-speed n speed m h =
    let t : ticks_for m.step_remaining_us ≡ suc (ticks_for (m.step_remaining_us - 10_000)) =
      omega arith in
    let order : ltb (suc n) (suc (ticks_for (m.step_remaining_us - 10_000)))
        ≡ ltb n (ticks_for (m.step_remaining_us - 10_000)) =
      ground arith in
    let less : suc n - suc (ticks_for (m.step_remaining_us - 10_000))
        ≡ n - ticks_for (m.step_remaining_us - 10_000) =
      omega arith in
    rw (t, order, less) refl

-- The last tick of a step that another one follows.
pub next_step-speed :
    (n idx : ℕ) (speed : ℤ) (m : MotorService) (step : MotorSubCmd)
    → m.step_remaining_us ≤ 10_000
    → idx ≡ m.current_step_idx + 1
    → idx < m.current_cmd.num_steps
    → get_elem? m.current_cmd.steps idx ≡ some step
    → speed_left n step.speed_rpm
        (record m { current_step_idx = idx; step_remaining_us = step.duration_us })
      ≡ speed_left (suc n) speed m
unfolding speed_left
next_step-speed n idx speed m step h i more e =
    let count = m.current_cmd.num_steps in
    let steps = m.current_cmd.steps in
    let one : ticks_for m.step_remaining_us ≡ 1 = omega arith in
    let over : ltb (suc n) 1 ≡ false = ground arith in
    let back : suc n - 1 ≡ n = omega arith in
    let next =
      speed_from n (count - (idx + 1)) (count - idx) idx (idx + 1) steps step (omega arith)
        (omega arith) e in
    rw (one, over, back, ← i) (sym next)

-- The last tick of the last step.
pub last_step-speed :
    (n : ℕ) (speed : ℤ) (m : MotorService)
    → m.step_remaining_us ≤ 10_000
    → m.current_cmd.num_steps ≤ m.current_step_idx + 1
    → speed_left (suc n) speed m ≡ pos 0
unfolding speed_left speed_at
last_step-speed n speed m h end =
    let one : ticks_for m.step_remaining_us ≡ 1 = omega arith in
    let over : ltb (suc n) 1 ≡ false = ground arith in
    let none_left : m.current_cmd.num_steps - (m.current_step_idx + 1) ≡ 0 = omega arith in
    rw (one, over, none_left) refl

-- The tick that a step begins with has its speed.
pub speed_left-now : (speed : ℤ) (m : MotorService) → speed_left 0 speed m ≡ speed
unfolding speed_left
speed_left-now speed m = ground arith

-- All ticks of a command whose first step has begun.
pub started-speed :
    (n : ℕ) (cmd : MotorSequencePayload) (stored : MotorSubCmd) (m : MotorService)
    → 0 < (limit_sequence cmd).num_steps
    → get_elem? (limit_sequence cmd).steps 0 ≡ some stored
    → speed_left n stored.speed_rpm (record m {
      current_cmd = limit_sequence cmd;
      current_step_idx = 0;
      active = true;
      step_remaining_us = stored.duration_us;
    })
      ≡ speed_at n (limit_sequence cmd).num_steps (limit_sequence cmd).steps
unfolding speed_left
started-speed n cmd stored m some_steps e =
    let count = (limit_sequence cmd).num_steps in
    sym (speed_from n (count - 1) count 0 1 (limit_sequence cmd).steps stored (omega arith) refl e)
