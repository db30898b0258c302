-- ===== src/Prelude/Text.antt =====
-- Text as a list of bytes.
use Prim.Native.Char.{code}
use Prim.Native.Nat.{ℕ}
use Prim.Native.String.{String}
use mathlib.Core.Path.{◌≡◌, refl}
use mathlib.Core.Logic.{inl, inr}
use mathlib.Core.Bool.{Bool, true, false, ◌&&◌, ◌||◌}
use native.Mathlib.Omega.{arith}
use reflect_pytest.Prelude.Tests.{◌==◌, Bool-cases}
use mathlib.Core.List.{List, [], ◌∷◌}

-- A C string literal.
abbrev pub chars : String → List ℕ
chars String.[] = []
chars (String.◌∷◌ c s) = code c ∷ chars s

-- The equality of std::string.
abbrev pub text_eq : List ℕ → List ℕ → Bool
text_eq [] [] = true
text_eq (c ∷ s) (d ∷ t) = c == d && text_eq s t
text_eq _ _ = false

-- The set has the text.
abbrev pub has_name : List ℕ → List (List ℕ) → Bool
has_name n [] = false
has_name n (m ∷ ns) = text_eq n m || has_name n ns

pub text_eq→eq : (s t : List ℕ) → text_eq s t ≡ true → s ≡ t
text_eq→eq [] [] h = refl
text_eq→eq [] (d ∷ t) h = absurd (ground arith)
text_eq→eq (c ∷ s) [] h = absurd (ground arith)
text_eq→eq (c ∷ s) (d ∷ t) h = elim (Bool-cases (text_eq s t)) [
  | inl same ↦ (let first : c ≡ d = ground arith in rw (first, text_eq→eq s t same) refl)
  | inr other ↦ absurd (ground arith)
]

pub text_eq_refl : (s : List ℕ) → text_eq s s ≡ true
text_eq_refl [] = refl
text_eq_refl (c ∷ s) = ground (arith, text_eq_refl s)
