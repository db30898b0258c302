-- ===== src/Generator/Types/PythonNames.antt =====
-- The characters of the names of the generated classes.
use reflect_pytest.Prelude.{
  ◌≡◌, refl, ◌==◌, Bool, true, false, not, ◌&&◌, [], ◌∷◌, ℕ, length, All, All-map, arith,
  Bool-cases, inl, inr,
}
use reflect_pytest.Docs.Text.{Bytes}
use reflect_pytest.Generator.Types.{is_special, replace_special, pop_underscores, python_name}

-- The text does not end with an underscore.
abbrev pub ends_clean : Bytes → Bool
ends_clean [] = true
ends_clean (c ∷ []) = not (c == b'_')
ends_clean (c ∷ d ∷ s) = ends_clean (d ∷ s)

ends_clean-cons :
    (c : ℕ) (s : Bytes)
    → ends_clean s ≡ true
    → (c == b'_' && length s == 0) ≡ false
    → ends_clean (c ∷ s) ≡ true
ends_clean-cons c [] h last = ground arith
ends_clean-cons c (d ∷ s) h last = h

ends_clean-pop_underscores : (s : Bytes) → ends_clean (pop_underscores s) ≡ true
unfolding pop_underscores
ends_clean-pop_underscores [] = refl
ends_clean-pop_underscores (c ∷ s) =
    elim (Bool-cases (c == b'_' && length (pop_underscores s) == 0)) [
      | inl popped ↦ rw popped refl
      | inr kept ↦
          rw kept (ends_clean-cons c (pop_underscores s) (ends_clean-pop_underscores s) kept)
    ]

module _ {κ} (P : ℕ → Type κ) where
  All-pop_underscores : (s : Bytes) → All P s → All P (pop_underscores s)
  unfolding pop_underscores
  All-pop_underscores [] h = tt
  All-pop_underscores (c ∷ s) (h, hs) =
      elim (Bool-cases (c == b'_' && length (pop_underscores s) == 0)) [
        | inl popped ↦ rw popped tt
        | inr kept ↦ rw kept (h, All-pop_underscores s hs)
      ]

  All-replace_special :
      (s : Bytes) → P b'_' → All (λ c. is_special c ≡ false → P c) s → All P (replace_special s)
  unfolding replace_special
  All-replace_special [] u h = tt
  All-replace_special (c ∷ s) u (h, hs) = elim (Bool-cases (is_special c)) [
    | inl special ↦ rw special (u, All-replace_special s u hs)
    | inr plain ↦ rw plain (h plain, All-replace_special s u hs)
  ]

-- For any text of a type: the Python name that is made of it has none of the characters < > , : and
-- space, does not end with an underscore, and has no characters but underscores and those of the text.
pub python_name_chars {κ} :
    (P : ℕ → Type κ) (s : Bytes)
    → P b'_'
    → All P s
    → All (λ c. (is_special c ≡ false) × P c) (python_name s) × (ends_clean (python_name s) ≡ true)
unfolding python_name
python_name_chars P s u h = (
  All-pop_underscores _ _
      (All-replace_special _ s (ground arith, u) (All-map P _ s (λ c p plain. (plain, p)) h)),
  ends_clean-pop_underscores (replace_special s),
)
