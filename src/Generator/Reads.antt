-- ===== src/Generator/Reads.antt =====
-- The generated unpack_wire as Python runs it: a statement without a name on its left is a syntax error.
use Prim.Native.String.{String}
use reflect_pytest.Prelude.{ℕ, ◌+◌, Option, none, some, List, [], ◌∷◌, ◌++◌}
use reflect_pytest.Generator.{UnpackStep, unpack_single}
use reflect_pytest.Generator.Python.{Span, advance, step_spans}

abbrev before : List Span → Option (List Span × ℕ) → Option (List Span × ℕ)
before now none = none
before now (some (later, o)) = some (now ++ later, o)

module _ (wire_size : String → ℕ) where
  -- What the statements read, and the offset behind them.
  unfoldable pub read_spans : List UnpackStep → ℕ → Option (List Span × ℕ)
  read_spans [] o = some ([], o)
  read_spans (unpack_single fmt [] ∷ ss) o = none
  read_spans (s ∷ ss) o =
      before (step_spans wire_size s o) (read_spans ss (o + advance wire_size s))
