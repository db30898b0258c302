-- ===== src/Generator/Pieces.antt =====
-- Formats put together: their sizes, and the values that they read.

use Prim.Native.String.{String}
use mathlib.Core.List.{append-nil}
use reflect_pytest.Prelude.{
  ℕ, suc, ◌+◌, ◌≡◌, refl, sym, ◌∙◌, ap, true, List, [], ◌∷◌, ◌++◌, length, arith,
}
use reflect_pytest.Generator.{FormatItem, pad, raw, char, is_empty}
use reflect_pytest.Generator.Python.{letter_size, calcsize, format_spans}

-- The values of a format, and its padding left out.
abbrev pub values : List FormatItem → ℕ
values [] = 0
values (pad n ∷ fmt) = values fmt
values (raw n ∷ fmt) = suc (values fmt)
values (char l ∷ fmt) = suc (values fmt)

pub calcsize-append :
    (fmt gmt : List FormatItem) → calcsize (fmt ++ gmt) ≡ calcsize fmt + calcsize gmt
calcsize-append [] gmt = omega arith
calcsize-append (i ∷ fmt) gmt = omega (arith, calcsize-append fmt gmt)

pub values-append : (fmt gmt : List FormatItem) → values (fmt ++ gmt) ≡ values fmt + values gmt
values-append [] gmt = omega arith
values-append (pad n ∷ fmt) gmt = omega (arith, values-append fmt gmt)
values-append (raw n ∷ fmt) gmt = omega (arith, values-append fmt gmt)
values-append (char l ∷ fmt) gmt = omega (arith, values-append fmt gmt)

pub length-append : (xs ys : List String) → length (xs ++ ys) ≡ length xs + length ys
length-append [] ys = omega arith
length-append (x ∷ xs) ys = omega (arith, length-append xs ys)

pub format_spans-append :
    (fmt gmt : List FormatItem) (args brgs : List String) (o : ℕ)
    → values fmt ≡ length args
    → format_spans (fmt ++ gmt) (args ++ brgs) o
      ≡ format_spans fmt args o ++ format_spans gmt brgs (o + calcsize fmt)
unfolding format_spans
format_spans-append [] gmt [] brgs o h = ground arith
format_spans-append [] gmt (a ∷ args) brgs o h = absurd (omega arith)
format_spans-append (pad n ∷ fmt) gmt args brgs o h =
    ground (arith, format_spans-append fmt gmt args brgs (o + n) h)
format_spans-append (raw n ∷ fmt) gmt [] brgs o h = absurd (omega arith)
format_spans-append (raw n ∷ fmt) gmt (a ∷ args) brgs o h =
    ground (arith, format_spans-append fmt gmt args brgs (o + n) (omega arith))
format_spans-append (char l ∷ fmt) gmt [] brgs o h = absurd (omega arith)
format_spans-append (char l ∷ fmt) gmt (a ∷ args) brgs o h =
    ground (arith, format_spans-append fmt gmt args brgs (o + letter_size l) (omega arith))

pub format_spans_pad :
    (fmt : List FormatItem) (args : List String) (n o : ℕ)
    → values fmt ≡ length args
    → format_spans (fmt ++ pad n ∷ []) args o ≡ format_spans fmt args o
unfolding format_spans
format_spans_pad fmt args n o h =
    ap (λ a. format_spans (fmt ++ pad n ∷ []) a o) (sym (append-nil args))
    ∙ format_spans-append fmt (pad n ∷ []) args [] o h
    ∙ append-nil _

pub is_empty_lem : (fmt : List FormatItem) → is_empty fmt ≡ true → fmt ≡ []
is_empty_lem [] h = refl
is_empty_lem (i ∷ fmt) h = cc

pub no_length : (args : List String) → length args ≡ 0 → args ≡ []
no_length [] h = refl
no_length (a ∷ args) h = absurd (omega arith)
