-- ===== src/Generator/Characters.antt =====
-- The widths of the format characters.

use reflect_pytest.Prelude.{◌≡◌, refl, ap, ◌==◌, ◌⊎◌, arith, Bool-cases, inl, inr}
use reflect_pytest.Generator.{
  Scalar, boolean, integral, floating, enumeration, get_struct_format_char, scalar_size,
}
use reflect_pytest.Generator.Python.{letter_size}

-- The integers have 1, 2, 4 or 8 bytes; a float has 4, a double 8 and a long double 16.
abbrev pub IsScalar : Scalar → Type 0
IsScalar boolean = Unit
IsScalar (integral signed n) = (n ≡ 1) ⊎ (n ≡ 2) ⊎ (n ≡ 4) ⊎ (n ≡ 8)
IsScalar (floating n) = (n ≡ 4) ⊎ (n ≡ 8) ⊎ (n ≡ 16)
IsScalar (enumeration n) = (n ≡ 1) ⊎ (n ≡ 2) ⊎ (n ≡ 4) ⊎ (n ≡ 8)

-- The format character of a scalar is exactly as wide as the scalar, but for two kinds that have the
-- character of one byte: an enumeration of four bytes, the default of C++, and a long double. Assumed: the scalar has one of the
-- sizes that C++ has.
pub format_char_width :
    (s : Scalar)
    → IsScalar s
    → let width = letter_size (get_struct_format_char s) in
      (width ≡ scalar_size s) ⊎ (((s ≡ enumeration 4) ⊎ (s ≡ floating 16)) × (width ≡ 1))
unfolding get_struct_format_char
format_char_width boolean h = inl refl
format_char_width (integral signed n) h = inl (ground arith)
format_char_width (floating n) h = elim (Bool-cases (n == 16)) [
  | inl long ↦ (let same : n ≡ 16 = ground arith in inr (inr (ap floating same), ground arith))
  | inr other_size ↦ inl (ground arith)
]
format_char_width (enumeration n) h = elim (Bool-cases (n == 4)) [
  | inl four ↦ (let same : n ≡ 4 = ground arith in inr (inl (ap enumeration same), ground arith))
  | inr other_size ↦ inl (ground arith)
]
