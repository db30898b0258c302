-- ===== src/Generator/Values/AnyBytes.antt =====
-- generator/python_code_generator.h: unpack_wire on any bytes, as many as the struct has.

use mathlib.Core.List.{append_assoc, append-nil}
use reflect_pytest.Prelude.{
  ℕ, ◌≤◌, ◌≡◌, refl, subst, false, none, some, List, [], ◌∷◌, ◌++◌, length, map, arith, chars,
  text_eq, text_eq_refl, has_name, All,
}
use reflect_pytest.Docs.Text.{Bytes}
use reflect_pytest.Generator.{
  Field, Plan, empty_plan, pad_to, add_field, add_fields, generate_struct,
}
use reflect_pytest.Generator.Python.{end_offset, IsKnown, IsLaidOut}
use reflect_pytest.Generator.Layout.{generate_struct_layout}
use reflect_pytest.Generator.Values.{
  Python, Attribute, Locals, lookup, keyword_values, unpack_wire, ◌>>=◌,
}
use reflect_pytest.Generator.Values.Plans.{>>=-eq-some}
use reflect_pytest.Generator.Values.Steps.{IsFree, HasTarget}
use reflect_pytest.Generator.Values.Shapes.{names, Shaped}
use reflect_pytest.Generator.Values.Typed.{
  ReadsField, Sound, flush_format-Flushed, pad_to-Sound, add_field-Sound,
}

-- No two fields have one name.
abbrev pub AreDistinct : List Field → Type 0
AreDistinct [] = Unit
AreDistinct (f ∷ fs) = (has_name (chars f.name) (map chars (names fs)) ≡ false) × AreDistinct fs

module _ (py : Python) where
  add_fields-Sound :
      (fs : List Field) (p : Plan) (before : List Field)
      → All (λ f. ReadsField py f.type) fs
      → All (λ f. IsFree f.name) fs
      → Sound py p before
      → Sound py (add_fields fs p) (before ++ fs)
  unfolding add_fields
  add_fields-Sound [] p before _ _ g = rw (append-nil before) g
  add_fields-Sound (f ∷ fs) p before (r, rs) (h, hs) g =
      subst (λ t. Sound py (add_fields fs (add_field f.name f.type (pad_to f.offset p))) t)
        (append_assoc before (f ∷ []) fs)
        (add_fields-Sound fs _ (before ++ f ∷ []) rs hs
          (add_field-Sound py f _ before r h (pad_to-Sound py f.offset p before g)))

  lookup_absent :
      (n : Bytes) (fs : List Field) (ls : Locals py)
      → has_name n (map chars (names fs)) ≡ false
      → Shaped py fs ls
      → lookup py n ls ≡ none
  unfolding lookup
  lookup_absent n [] [] h s = refl
  lookup_absent n [] (l ∷ ls) h s = elim s [ ]
  lookup_absent n (f ∷ fs) [] h s = elim s [ ]
  lookup_absent n (f ∷ fs) ((m, v) ∷ ls) h (e, _, s) =
      let other : text_eq n (chars f.name) ≡ false = ground (arith, h) in
      rw (lookup_absent n fs ls (ground (arith, h)) s, e, other) refl

  -- One more variable before the others does not change what is found.
  keyword_values-cons :
      (gs : List Field) (l : Bytes × Attribute py) (ls out : Locals py)
      → keyword_values py gs ls ≡ some out
      → keyword_values py gs (l ∷ ls) ≡ some out
  unfolding keyword_values lookup
  keyword_values-cons [] l ls out h = h
  keyword_values-cons (g ∷ gs) (m, w) ls out h =
      let (v, found, tail) =
        >>=-eq-some (lookup py (chars g.name) ls)
          (λ v. keyword_values py gs ls >>= λ rest. some ((chars g.name, v) ∷ rest)) h in
      let (rest, h_rest, same) =
        >>=-eq-some (keyword_values py gs ls) (λ rest. some ((chars g.name, v) ∷ rest)) tail in
      rw (found, keyword_values-cons gs (m, w) ls rest h_rest) same

  keyword_values-Shaped :
      (fs : List Field) (ls : Locals py)
      → AreDistinct fs
      → Shaped py fs ls
      → keyword_values py fs ls ≡ some ls
  unfolding keyword_values lookup
  keyword_values-Shaped [] [] d s = refl
  keyword_values-Shaped [] (l ∷ ls) d s = elim s [ ]
  keyword_values-Shaped (f ∷ fs) [] d s = elim s [ ]
  keyword_values-Shaped (f ∷ fs) ((m, v) ∷ ls) (apart, d) (e, _, s) =
      rw
        (
          e,
          lookup_absent (chars f.name) fs ls apart s,
          text_eq_refl (chars f.name),
          keyword_values-cons fs (chars f.name, v) ls ls (keyword_values-Shaped fs ls d s),
        )
        refl

  -- On any bytes that are at least as many as the struct has, the generated unpack_wire raises no exception, and calls the
  -- constructor with a value of its declared type for every field, in order: a number, an object,
  -- bytes or a list of the array's length. Assumed: the classes of the fields make an object of any bytes, as many as
  -- their WIRE_SIZE, which is the size of the C++ type; the fields lie one after another within the struct; the format characters are as wide as
  -- the scalars; the names of the fields are different, and none is one that unpack_wire uses itself; and no statement
  -- unpacks padding alone.
  pub unpack_wire-Shaped :
      (fs : List Field) (size : ℕ)
      → All (λ f. ReadsField py f.type) fs
      → All (λ f. IsFree f.name) fs
      → AreDistinct fs
      → All HasTarget (generate_struct fs size).unpack_instructions
      → All (λ f. IsKnown py.wire_size f.type) fs
      → IsLaidOut 0 size fs
      → (d : Bytes) → size ≤ length d
      → (values : Locals py) × (unpack_wire py fs size d ≡ some values) × Shaped py fs values
  unfolding generate_struct unpack_wire end_offset
  unpack_wire-Shaped fs size reads free distinct target known laid d enough =
      let g = add_fields-Sound fs empty_plan [] reads free (record {
        done = [];
        pending = [];
        all_fields = refl;
        same_names = refl;
        aligned = tt;
        free = tt;
        filled = record { runs = λ t d h. ([], refl, tt) };
      }) in
      let r = (flush_format-Flushed py _ _ (pad_to-Sound py size _ _ g)).filled in
      let fits = (generate_struct_layout py.wire_size fs size known laid).1 in
      let (values, e, s) = r.runs target d (omega (arith, fits, enough)) in
      (values, rw e (keyword_values-Shaped fs values distinct s), s)
