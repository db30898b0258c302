-- ===== src/Services/Kinematics/Clock.antt =====
-- The elapsed time of the kinematics service counts the microseconds of its ticks, modulo 2^32.
use reflect_pytest.Prelude.{ℕ, ◌+◌, ◌%◌, ◌^◌, ◌<◌, ◌≡◌, List, [], ◌∷◌, arith}
use reflect_pytest.Float.{Float}
use reflect_pytest.Messages.{PhysicsTickPayload}
use reflect_pytest.World.{KinematicsService}
use reflect_pytest.Services.Kinematics.{integrate}

-- The microseconds of a list of ticks.
abbrev pub total_us : List PhysicsTickPayload → ℕ
total_us [] = 0
total_us (t ∷ ts) = t.dt_us + total_us ts

module _ {F : Type 0} ⦃fl : Float F⦄ where
  -- The members after a list of ticks.
  unfoldable pub integrate_all : List PhysicsTickPayload → KinematicsService F → KinematicsService F
  integrate_all [] k = k
  integrate_all (t ∷ ts) k = integrate_all ts (integrate t k)

  -- However the ticks are divided, the elapsed time grows by their sum and wraps at 2^32.
  -- Assumed: it is below 2^32 before.
  pub integrate_all-elapsed :
      (ts : List PhysicsTickPayload) (k : KinematicsService F)
      → k.elapsed_us < 2 ^ 32
      → (integrate_all ts k).elapsed_us ≡ (k.elapsed_us + total_us ts) % 2 ^ 32
  unfolding integrate_all integrate
  integrate_all-elapsed [] k h = omega arith
  integrate_all-elapsed (t ∷ ts) k h =
      omega (arith, integrate_all-elapsed ts (integrate t k) (omega arith))
