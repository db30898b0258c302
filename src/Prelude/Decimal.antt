-- ===== src/Prelude/Decimal.antt =====
-- Decimal numbers, as std::to_string and the << of std::ostream print them, and as they are read.
use Prim.Native.Nat.{ℕ, zero, suc, ◌+◌, ◌-◌, ◌*◌, ◌/◌, ◌%◌, ◌^◌, ◌<◌}
use mathlib.Core.Path.{◌≡◌, refl}
use mathlib.Core.Logic.{inl, inr}
use mathlib.Core.Bool.{Bool, true, ◌&&◌}
use mathlib.Core.List.{List, [], ◌∷◌, ◌++◌}
use native.Mathlib.Nat.{pow-suc}
use native.Mathlib.Omega.{arith}
use reflect_pytest.Prelude.Tests.{◌==◌, leb, if◌then◌else◌, Bool-cases}
use reflect_pytest.Prelude.Lists.{All, All-append}

-- The digits of a number, on fuel: twenty rounds are enough for the integers of C++.
unfoldable pub digits : ℕ → ℕ → List ℕ
digits zero n = (b'0' + n % 10) ∷ []
digits (suc fuel) n =
    let before = digits fuel (n / 10) in
    (if n / 10 == 0 then [] else before) ++ ((b'0' + n % 10) ∷ [])

unfoldable pub to_string : ℕ → List ℕ
unfolding digits
to_string = digits 20

abbrev pub digit_test : ℕ → Bool
digit_test c = leb b'0' c && leb c b'9'

-- The number that digits stand for, behind the digits of `k`.
unfoldable pub number : ℕ → List ℕ → ℕ
number k [] = k
number k (c ∷ s) = number (k * 10 + (c - b'0')) s

number-append : (k c : ℕ) (s : List ℕ) → number k (s ++ (c ∷ [])) ≡ number k s * 10 + (c - b'0')
unfolding number
number-append k c [] = refl
number-append k c (d ∷ s) = number-append (k * 10 + (d - b'0')) c s

small_tenth : (fuel n : ℕ) → n < 10 ^ suc (suc fuel) → n / 10 < 10 ^ suc fuel
small_tenth fuel n h =
    let step : 10 ^ suc (suc fuel) ≡ 10 ^ suc fuel * 10 = pow-suc 10 (suc fuel) in
    omega (arith, step)

number-digits : (fuel n : ℕ) → n < 10 ^ suc fuel → number 0 (digits fuel n) ≡ n
unfolding number digits
number-digits zero n h = omega arith
number-digits (suc fuel) n h = elim (Bool-cases (n / 10 == 0)) [
  | inl one ↦ ground arith
  | inr more ↦
      let rest = number-digits fuel (n / 10) (small_tenth fuel n h) in
      rw more (omega (arith, number-append 0 (b'0' + n % 10) (digits fuel (n / 10)), rest))
]

pub number-to_string : (n : ℕ) → n < 10 ^ 20 → number 0 (to_string n) ≡ n
unfolding to_string
number-to_string n h = number-digits 20 n (omega arith)

digits-All : (fuel n : ℕ) → All (λ c. digit_test c ≡ true) (digits fuel n)
unfolding digits
digits-All zero n = (ground arith, tt)
digits-All (suc fuel) n = elim (Bool-cases (n / 10 == 0)) [
  | inl one ↦ rw (one, All) (ground arith, tt)
  | inr more ↦
      rw (more, All)
        (All-append _ (digits fuel (n / 10)) _ (digits-All fuel (n / 10)) (ground arith, tt))
]

pub to_string-All : (n : ℕ) → All (λ c. digit_test c ≡ true) (to_string n)
unfolding to_string
to_string-All n = digits-All 20 n
