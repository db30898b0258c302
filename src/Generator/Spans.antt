-- ===== src/Generator/Spans.antt =====
-- The statements of unpack_wire one after another: what they read, and how far they move.

use Prim.Native.String.{String}
use mathlib.Core.List.{append-nil, append_assoc}
use reflect_pytest.Prelude.{ℕ, ◌+◌, ◌≡◌, refl, sym, List, [], ◌∷◌, ◌++◌, arith}
use reflect_pytest.Generator.{FormatItem, UnpackStep, unpack_step}
use reflect_pytest.Generator.Python.{calcsize, format_spans, advance, step_spans, end_offset, spans}

module _ (wire_size : String → ℕ) where
  end_offset-append :
      (ss ts : List UnpackStep) (o : ℕ)
      → end_offset wire_size (ss ++ ts) o ≡ end_offset wire_size ts (end_offset wire_size ss o)
  unfolding end_offset
  end_offset-append [] ts o = refl
  end_offset-append (s ∷ ss) ts o = end_offset-append ss ts (o + advance wire_size s)

  spans-append :
      (ss ts : List UnpackStep) (o : ℕ)
      → spans wire_size (ss ++ ts) o
        ≡ spans wire_size ss o ++ spans wire_size ts (end_offset wire_size ss o)
  unfolding spans end_offset
  spans-append [] ts o = refl
  spans-append (s ∷ ss) ts o =
      rw (spans-append ss ts (o + advance wire_size s))
        (sym (append_assoc (step_spans wire_size s o) _ _))

  pub step_lem :
      (s : UnpackStep) (ss : List UnpackStep)
      → (spans wire_size (ss ++ s ∷ []) 0
          ≡ spans wire_size ss 0 ++ step_spans wire_size s (end_offset wire_size ss 0))
        × (end_offset wire_size (ss ++ s ∷ []) 0 ≡ end_offset wire_size ss 0 + advance wire_size s)
  unfolding spans end_offset
  step_lem s ss = (
    rw (
      spans-append ss (s ∷ []) 0,
      append-nil (step_spans wire_size s (end_offset wire_size ss 0)),
    ),
    end_offset-append ss (s ∷ []) 0,
  )

  pub unpack_step_lem :
      (fmt : List FormatItem) (args : List String) (o : ℕ)
      → (step_spans wire_size (unpack_step fmt args) o ≡ format_spans fmt args o)
        × (advance wire_size (unpack_step fmt args) ≡ calcsize fmt)
  unpack_step_lem fmt args o = ground arith
