-- ===== src/Services/Motor/Limits.antt =====
-- A stored sequence obeys the limits of the motor: five steps, 6000 RPM either way.
use Prim.Native.Nat.{min}
use reflect_pytest.Prelude.{
  ℕ, zero, suc, ◌≤◌, ◌<◌, ◌≡◌, refl, ℤ, nat_abs, List, [], ◌∷◌, get_elem?, some, arith, All, length,
  ap,
}
use reflect_pytest.Messages.{MotorSequencePayload, MotorSubCmd}
use reflect_pytest.Services.Motor.{clamp_rpm, clamp_steps, limit_sequence}

clamp_rpm_abs : (v : ℤ) → nat_abs (clamp_rpm v) ≤ 6000
unfolding clamp_rpm
clamp_rpm_abs v = ground arith

clamp_rpm_id : (v : ℤ) → nat_abs v ≤ 6000 → clamp_rpm v ≡ v
unfolding clamp_rpm
clamp_rpm_id v h = ground arith

clamp_steps_abs :
    (n : ℕ) (steps : List MotorSubCmd) (i : ℕ) (s : MotorSubCmd)
    → i < n
    → get_elem? (clamp_steps n steps) i ≡ some s
    → nat_abs s.speed_rpm ≤ 6000
unfolding clamp_steps
clamp_steps_abs zero steps i s h e = absurd (omega arith)
clamp_steps_abs (suc n) [] i s h e = cc
clamp_steps_abs (suc n) (t ∷ steps) zero s h e = ground (arith, clamp_rpm_abs t.speed_rpm)
clamp_steps_abs (suc n) (t ∷ steps) (suc i) s h e = clamp_steps_abs n steps i s (omega arith) e

pub length-clamp_steps :
    (n : ℕ) (steps : List MotorSubCmd) → length (clamp_steps n steps) ≡ length steps
unfolding clamp_steps
length-clamp_steps zero steps = refl
length-clamp_steps (suc n) [] = refl
length-clamp_steps (suc n) (s ∷ steps) = ap suc (length-clamp_steps n steps)

-- A stored sequence has at most five steps and at most as many as the command asked for, and each of
-- these steps has a speed of at most 6000 RPM forwards or backwards.
pub limit_sequence_bounds :
    (cmd : MotorSequencePayload)
    → let stored = limit_sequence cmd in
      (stored.num_steps ≤ 5)
      × (stored.num_steps ≤ cmd.num_steps)
      × ((i : ℕ) (s : MotorSubCmd)
          → i < stored.num_steps
          → get_elem? stored.steps i ≡ some s
          → nat_abs s.speed_rpm ≤ 6000)
unfolding limit_sequence
limit_sequence_bounds cmd =
    (omega arith, omega arith, λ i s h e. clamp_steps_abs (min cmd.num_steps 5) cmd.steps i s h e)

clamp_steps_id :
    (n : ℕ) (steps : List MotorSubCmd)
    → All (λ s. nat_abs s.speed_rpm ≤ 6000) steps
    → clamp_steps n steps ≡ steps
unfolding clamp_steps
clamp_steps_id zero steps a = refl
clamp_steps_id (suc n) [] a = refl
clamp_steps_id (suc n) (s ∷ steps) (h, a) =
    ground (arith, clamp_rpm_id s.speed_rpm h, clamp_steps_id n steps a)

-- A command of at most five steps with speeds of at most 6000 RPM is stored as it came.
pub limit_sequence_id :
    (cmd : MotorSequencePayload)
    → cmd.num_steps ≤ 5
    → All (λ s. nat_abs s.speed_rpm ≤ 6000) cmd.steps
    → limit_sequence cmd ≡ cmd
unfolding limit_sequence
limit_sequence_id cmd h a = ground (arith, clamp_steps_id (min cmd.num_steps 5) cmd.steps a)
