-- ===== src/Services/Power/Limits.antt =====
-- The battery model stays within its limits.
use reflect_pytest.Prelude.{◌≡◌, refl, false, arith}
use reflect_pytest.Float.{Float, IsOrdered, nought, clamp_f, max_f}
use reflect_pytest.Messages.{PhysicsTickPayload}
use reflect_pytest.World.{PowerService}
use reflect_pytest.Services.Power.{drain, charge, v_min, v_max}

module _ {F : Type 0} ⦃fl : Float F⦄ (laws : IsOrdered F) where
  max_f_floor : (a b : F) → fl.lt (max_f a b) a ≡ false
  max_f_floor a b = ground (arith, laws.lt_irrefl a, laws.lt_asymm a b)

  clamp_f_bounds :
      (v lo hi : F)
      → fl.lt hi lo ≡ false
      → (fl.lt (clamp_f v lo hi) lo ≡ false) × (fl.lt hi (clamp_f v lo hi) ≡ false)
  clamp_f_bounds v lo hi h = ground (arith, laws.lt_irrefl lo, laws.lt_irrefl hi)

  -- After a tick, whatever the voltage and the speed were before, the voltage is not below V_MIN,
  -- and the charge that is cast to the reported percentage is neither below 0 nor above 100.
  -- Assumed: the order of the floats obeys the laws of IsOrdered.
  pub drain_bounds :
      (tick : PhysicsTickPayload) (p : PowerService F)
      → let v = (drain tick p).voltage_v in
        (fl.lt v v_min ≡ false)
        × ((drain tick p).soc ≡ fl.to_u8 (charge v))
        × (fl.lt (charge v) nought ≡ false)
        × (fl.lt (fl.lit 100 0) (charge v) ≡ false)
  unfolding drain
  drain_bounds tick p =
      let v = (drain tick p).voltage_v in
      let (low, high) =
        clamp_f_bounds (fl.mul (fl.div (fl.sub v v_min) (fl.sub v_max v_min)) (fl.lit 100 0)) nought
          (fl.lit 100 0) (laws.lt_asymm _ _ laws.nought-lt-hundred) in
      (max_f_floor v_min _, refl, low, high)
