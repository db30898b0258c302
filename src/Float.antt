-- ===== src/Float.antt =====
-- What the simulation does with a C++ `float`: its operations are a parameter of the model, since
-- they belong to the compiler and the standard library (`std::abs`, `std::pow`, casts). `std::max`
-- and `std::clamp` are written out from the comparison, as the standard defines them.
use reflect_pytest.Prelude.{ℕ, Bool, Option, if◌then◌else◌, ℤ, ◌≡◌, true, false}

pub record Float (F : Type 0) : Type 0 where
  pub lit : ℕ → ℕ → F  -- the literal m * 10^-e
  pub of_int : ℤ → F  -- integer to float conversion
  pub add : F → F → F
  pub sub : F → F → F
  pub mul : F → F → F
  pub div : F → F → F
  pub pow : F → F → F  -- std::pow
  pub abs : F → F  -- std::abs
  pub lt : F → F → Bool
  pub le : F → F → Bool
  pub to_i16 : F → Option ℤ  -- static_cast<int16_t>, undefined outside its range
  pub to_u8 : F → ℕ  -- static_cast<uint8_t>, used between 0 and 100; of NaN it is left open

module _ {F : Type 0} ⦃fl : Float F⦄ where
  abbrev pub nought : F
  nought = fl.lit 0 0

  -- std::max(a, b) is (a < b) ? b : a.
  abbrev pub max_f : F → F → F
  max_f a b = if fl.lt a b then b else a

  -- std::clamp(v, lo, hi) is v < lo ? lo : hi < v ? hi : v.
  abbrev pub clamp_f : F → F → F → F
  clamp_f v lo hi = if fl.lt v lo then lo else if fl.lt hi v then hi else v

-- `<` is irreflexive and asymmetric, which holds of all floats, NaN included; and 0 < 100.
pub record IsOrdered (F : Type 0) ⦃fl : Float F⦄ : Type 0 where
  pub lt_irrefl : (x : F) → fl.lt x x ≡ false
  pub lt_asymm : (x y : F) → fl.lt x y ≡ true → fl.lt y x ≡ false
  pub nought-lt-hundred : fl.lt (fl.lit 0 0) (fl.lit 100 0) ≡ true
