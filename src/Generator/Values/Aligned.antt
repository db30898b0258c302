-- ===== src/Generator/Values/Aligned.antt =====
-- generator/python_code_generator.h: the items of a format, each with its argument.
use reflect_pytest.Prelude.{ℕ, List, [], ◌∷◌, ◌++◌}
use reflect_pytest.Generator.{FormatItem, pad, raw, char}

module _ {A : Type 0} (P : FormatItem → A → Type 0) where
  -- One argument for each item but padding, and the predicate holds of both.
  abbrev pub Aligned : List FormatItem → List A → Type 0
  Aligned [] [] = Unit
  Aligned [] (x ∷ xs) = ⊥
  Aligned (pad k ∷ fmt) xs = Aligned fmt xs
  Aligned (i ∷ fmt) [] = ⊥
  Aligned (i ∷ fmt) (x ∷ xs) = P i x × Aligned fmt xs

  pub Aligned-append :
      (fmt gmt : List FormatItem) (xs ys : List A)
      → Aligned fmt xs
      → Aligned gmt ys
      → Aligned (fmt ++ gmt) (xs ++ ys)
  Aligned-append [] gmt [] ys f g = g
  Aligned-append [] gmt (x ∷ xs) ys f g = elim f [ ]
  Aligned-append (pad k ∷ fmt) gmt xs ys f g = Aligned-append fmt gmt xs ys f g
  Aligned-append (raw k ∷ fmt) gmt [] ys f g = elim f [ ]
  Aligned-append (raw k ∷ fmt) gmt (x ∷ xs) ys (h, f) g = (h, Aligned-append fmt gmt xs ys f g)
  Aligned-append (char l ∷ fmt) gmt [] ys f g = elim f [ ]
  Aligned-append (char l ∷ fmt) gmt (x ∷ xs) ys (h, f) g = (h, Aligned-append fmt gmt xs ys f g)

  pub Aligned-pad :
      (fmt : List FormatItem) (xs : List A) (k : ℕ)
      → Aligned fmt xs
      → Aligned (fmt ++ pad k ∷ []) xs
  Aligned-pad [] [] k f = tt
  Aligned-pad [] (x ∷ xs) k f = elim f [ ]
  Aligned-pad (pad j ∷ fmt) xs k f = Aligned-pad fmt xs k f
  Aligned-pad (raw j ∷ fmt) [] k f = elim f [ ]
  Aligned-pad (raw j ∷ fmt) (x ∷ xs) k (h, f) = (h, Aligned-pad fmt xs k f)
  Aligned-pad (char l ∷ fmt) [] k f = elim f [ ]
  Aligned-pad (char l ∷ fmt) (x ∷ xs) k (h, f) = (h, Aligned-pad fmt xs k f)
