-- ===== src/Services/Motor/Ticks.antt =====
-- The ticks that are left of a sequence, over the members of the motor service.
use Prim.Native.Nat.{min}
use reflect_pytest.Prelude.{
  ℕ, zero, suc, ◌+◌, ◌-◌, ◌/◌, ◌≤◌, ◌<◌, ◌≡◌, refl, ap, ◌⊎◌, true, false, some, List, [], ◌∷◌,
  length, get_elem?, drop, arith,
}
use reflect_pytest.Messages.{MotorSequencePayload, MotorSubCmd}
use reflect_pytest.World.{MotorService}
use reflect_pytest.Services.Motor.{limit_sequence, clamp_steps}

-- The ticks of 10 ms that a step takes: its duration rounded up, and one tick at least.
abbrev pub ticks_for : ℕ → ℕ
ticks_for duration_us = 1 + (duration_us - 1) / 10_000

-- The ticks of the first `n` steps.
unfoldable pub ticks_of : ℕ → List MotorSubCmd → ℕ
ticks_of zero steps = 0
ticks_of (suc n) [] = 0
ticks_of (suc n) (s ∷ steps) = ticks_for s.duration_us + ticks_of n steps

unfoldable pub ticks_left : MotorService → ℕ
ticks_left m =
    ticks_for m.step_remaining_us
    + ticks_of (m.current_cmd.num_steps - (m.current_step_idx + 1))
        (drop (m.current_step_idx + 1) m.current_cmd.steps)

-- The motor runs, with `t` ticks of the sequence to come.
pub record Running (cmd_id t : ℕ) (m : MotorService) : Type 0 where
  pub is_active : m.active ≡ true
  pub same_cmd : m.current_cmd.cmd_id ≡ cmd_id
  pub five : length m.current_cmd.steps ≡ 5
  pub at_most_five : m.current_cmd.num_steps ≤ 5
  pub on_step : m.current_step_idx < m.current_cmd.num_steps
  pub left : ticks_left m ≡ t

-- The motor runs with `t` ticks to come, or has stopped with none.
abbrev pub Counting : ℕ → ℕ → MotorService → Type 0
Counting cmd_id t m = ((t ≡ 0) × (m.active ≡ false)) ⊎ Running cmd_id t m

pub ticks_of-next :
    (n i : ℕ) (steps : List MotorSubCmd) (s : MotorSubCmd)
    → get_elem? steps i ≡ some s
    → ticks_of (suc n) (drop i steps) ≡ ticks_for s.duration_us + ticks_of n (drop (suc i) steps)
unfolding ticks_of
ticks_of-next n i [] s e = cc
ticks_of-next n zero (t ∷ steps) s e = ground arith
ticks_of-next n (suc i) (t ∷ steps) s e = ticks_of-next n i steps s e

pub ticks_from :
    (k n i j : ℕ) (steps : List MotorSubCmd) (s : MotorSubCmd)
    → k ≡ suc n
    → j ≡ suc i
    → get_elem? steps i ≡ some s
    → ticks_of k (drop i steps) ≡ ticks_for s.duration_us + ticks_of n (drop j steps)
ticks_from k n i j steps s a b e = rw (a, b) (ticks_of-next n i steps s e)

-- The members after the last tick of a step that another one follows.
pub next_step-Running :
    (cmd_id t idx : ℕ) (m : MotorService) (step : MotorSubCmd)
    → Running cmd_id (suc t) m
    → m.step_remaining_us ≤ 10_000
    → idx ≡ m.current_step_idx + 1
    → idx < m.current_cmd.num_steps
    → get_elem? m.current_cmd.steps idx ≡ some step
    → Running cmd_id t (record m { current_step_idx = idx; step_remaining_us = step.duration_us })
unfolding ticks_left
next_step-Running cmd_id t idx m step r h i more e =
    let n = m.current_cmd.num_steps in
    let steps = m.current_cmd.steps in
    let next =
      ticks_from (n - idx) (n - (idx + 1)) idx (idx + 1) steps step (omega arith) (omega arith) e in
    let left : ticks_for m.step_remaining_us + ticks_of (n - idx) (drop idx steps) ≡ suc t =
      rw i r.left in
    record {
      is_active = r.is_active;
      same_cmd = r.same_cmd;
      five = r.five;
      at_most_five = r.at_most_five;
      on_step = more;
      left = omega (arith, left, next, h);
    }

-- The members after a tick within a step.
pub same_step-Running :
    (cmd_id t dt : ℕ) (m : MotorService)
    → Running cmd_id (suc t) m
    → dt ≡ 10_000
    → dt < m.step_remaining_us
    → Running cmd_id t (record m { step_remaining_us = m.step_remaining_us - dt })
unfolding ticks_left
same_step-Running cmd_id t dt m r ten h = record {
  is_active = r.is_active;
  same_cmd = r.same_cmd;
  five = r.five;
  at_most_five = r.at_most_five;
  on_step = r.on_step;
  left = omega (arith, r.left, ten, h);
}

pub no_ticks : (steps : List MotorSubCmd) → ticks_of 0 steps ≡ 0
unfolding ticks_of
no_ticks steps = refl

pub last_step :
    (cmd_id t : ℕ) (m : MotorService)
    → Running cmd_id (suc t) m
    → m.step_remaining_us ≤ 10_000
    → m.current_cmd.num_steps ≤ m.current_step_idx + 1
    → t ≡ 0
unfolding ticks_left
last_step cmd_id t m r h over =
    let none_left : m.current_cmd.num_steps - (m.current_step_idx + 1) ≡ 0 = omega arith in
    let none_after =
      ap (λ n. ticks_of n (drop (m.current_step_idx + 1) m.current_cmd.steps)) none_left in
    omega
      (arith, r.left, none_after, no_ticks (drop (m.current_step_idx + 1) m.current_cmd.steps), h)

pub ticks_of-clamp_steps :
    (k n : ℕ) (steps : List MotorSubCmd) → ticks_of k (clamp_steps n steps) ≡ ticks_of k steps
unfolding ticks_of clamp_steps
ticks_of-clamp_steps k zero steps = refl
ticks_of-clamp_steps k (suc n) [] = refl
ticks_of-clamp_steps zero (suc n) (s ∷ steps) = refl
ticks_of-clamp_steps (suc k) (suc n) (s ∷ steps) = omega (arith, ticks_of-clamp_steps k n steps)

pub duration-clamp_steps :
    (n : ℕ) (steps : List MotorSubCmd) (first stored : MotorSubCmd)
    → get_elem? steps 0 ≡ some first
    → get_elem? (clamp_steps n steps) 0 ≡ some stored
    → stored.duration_us ≡ first.duration_us
unfolding clamp_steps
duration-clamp_steps n [] first stored e e' = cc
duration-clamp_steps zero (s ∷ steps) first stored e e' = ground arith
duration-clamp_steps (suc n) (s ∷ steps) first stored e e' = ground arith

-- The members once a command is stored and its first step has begun.
pub started-Running :
    (cmd : MotorSequencePayload) (stored : MotorSubCmd) (m : MotorService)
    → length (limit_sequence cmd).steps ≡ 5
    → 0 < cmd.num_steps
    → get_elem? (limit_sequence cmd).steps 0 ≡ some stored
    → Running cmd.cmd_id (ticks_of (min cmd.num_steps 5) cmd.steps) (record m {
      current_cmd = limit_sequence cmd;
      current_step_idx = 0;
      active = true;
      step_remaining_us = stored.duration_us;
    })
unfolding limit_sequence ticks_left
started-Running cmd stored m five some_steps e =
    let n = min cmd.num_steps 5 in
    let first =
      ticks_from n (n - 1) 0 1 (clamp_steps n cmd.steps) stored (omega arith) (omega arith) e in
    record {
      is_active = refl;
      same_cmd = refl;
      five = five;
      at_most_five = omega arith;
      on_step = omega arith;
      left = omega (arith, first, ticks_of-clamp_steps n n cmd.steps);
    }

pub Running-positive : (cmd_id t : ℕ) (m : MotorService) → Running cmd_id t m → 0 < t
unfolding ticks_left
Running-positive cmd_id t m r = omega (arith, r.left)
