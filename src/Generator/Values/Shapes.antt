-- ===== src/Generator/Values/Shapes.antt =====
-- generator/python_code_generator.h: what a statement of unpack_wire assigns, whatever the bytes are.
use Prim.Native.String.{String}
use mathlib.Core.List.{append_assoc, append-nil}
use reflect_pytest.Prelude.{
  ℕ, zero, suc, ◌+◌, ◌-◌, ◌*◌, ◌≤◌, ◌≡◌, refl, sym, ap, true, false, leb, Option, some, List, [],
  ◌∷◌, ◌++◌, length, length-take, take, drop, map, arith, chars, has_name, All, Bool-cases, inl,
  inr,
}
use reflect_pytest.Docs.Text.{Bytes}
use reflect_pytest.Generator.{
  byte_like, other, FieldType, scalar, std_array, c_array, class_type, Field, FormatItem, pad, raw,
  char, UnpackStep, unpack_object, unpack_items, unpack_step, is_single_val,
}
use reflect_pytest.Generator.Python.{letter_size, calcsize, advance}
use reflect_pytest.Generator.Spans.{unpack_step_lem}
use reflect_pytest.Generator.Values.{
  Python, number_value, bytes_value, object_value, list_value, Attribute, Locals, reserved_words,
  unpack_values, unpack_from, assign_all, assign_first, slice, unpack_loop, run_unpack_step,
}
use reflect_pytest.Generator.Values.Aligned.{Aligned}
use reflect_pytest.Generator.Values.Steps.{IsFree, HasTarget}

length-drop : (n : ℕ) (xs : Bytes) → length (drop n xs) ≡ length xs - n
length-drop zero xs = omega arith
length-drop (suc n) [] = omega arith
length-drop (suc n) (x ∷ xs) = omega (arith, length-drop n xs)

abbrev pub names : List Field → List String
names = map (λ f. f.name)

module _ (py : Python) where
  -- The values of the type that the class declares: a number, bytes or a list of the array's length, an object.
  abbrev pub HasShape : FieldType → Attribute py → Type 0
  HasShape (scalar s) (number_value v) = Unit
  HasShape (std_array byte_like n) (bytes_value b) = length b ≡ n
  HasShape (c_array byte_like n) (bytes_value b) = length b ≡ n
  HasShape (std_array (other sub_type size) n) (list_value os) = length os ≡ n
  HasShape (c_array (other sub_type size) n) (list_value os) = length os ≡ n
  HasShape (class_type sub_type size) (object_value o) = Unit
  HasShape _ _ = ⊥

  -- Variables for the fields, in order.
  abbrev pub Shaped : List Field → Locals py → Type 0
  Shaped [] [] = Unit
  Shaped (f ∷ fs) ((n, v) ∷ locals) = (n ≡ chars f.name) × HasShape f.type v × Shaped fs locals
  Shaped _ _ = ⊥

  pub Shaped-append :
      (fs gs : List Field) (ls ms : Locals py)
      → Shaped fs ls
      → Shaped gs ms
      → Shaped (fs ++ gs) (ls ++ ms)
  Shaped-append [] gs [] ms s t = t
  Shaped-append [] gs (l ∷ ls) ms s t = elim s [ ]
  Shaped-append (f ∷ fs) gs [] ms s t = elim s [ ]
  Shaped-append (f ∷ fs) gs (l ∷ ls) ms (n, h, s) t = (n, h, Shaped-append fs gs ls ms s t)

  -- What an item of a format unpacks to is of the field's type.
  abbrev pub SuitsField : FormatItem → Field → Type 0
  SuitsField (pad n) f = ⊥
  SuitsField (raw n) f = (b : Bytes) → length b ≡ n → HasShape f.type (bytes_value b)
  SuitsField (char l) f = (v : py.Number) → HasShape f.type (number_value v)

  -- An outcome of assignments that adds variables for the fields.
  abbrev pub Adds : List Field → Locals py → Option (Locals py) → Type 0
  Adds fs locals outcome = (new : Locals py) × (outcome ≡ some (locals ++ new)) × Shaped fs new

  Adds-cons :
      (f : Field) (fs : List Field) (v : Attribute py) (vs : List (Attribute py))
      (locals : Locals py)
      → IsFree f.name
      → HasShape f.type v
      → Adds fs
          (locals ++ (chars f.name, v) ∷ [])
          (assign_all py (names fs) vs (locals ++ (chars f.name, v) ∷ []))
      → Adds (f ∷ fs) locals (assign_all py (names (f ∷ fs)) (v ∷ vs) locals)
  unfolding assign_all
  Adds-cons f fs v vs locals free h (new, e, s) = (
    (chars f.name, v) ∷ new,
    rw (free, e, append_assoc locals ((chars f.name, v) ∷ []) new) refl,
    (refl, h, s),
  )

  taken : (n : ℕ) (d : Bytes) → n ≤ length d → length (take n d) ≡ n
  taken n d h = omega (arith, length-take n d)

  unpack_values-Adds :
      (fmt : List FormatItem) (fs : List Field) (d : Bytes) (locals : Locals py)
      → Aligned SuitsField fmt fs
      → All (λ f. IsFree f.name) fs
      → calcsize fmt ≤ length d
      → Adds fs locals (assign_all py (names fs) (unpack_values py fmt d) locals)
  unfolding unpack_values assign_all
  unpack_values-Adds [] [] d locals a h enough = ([], ap some (sym (append-nil locals)), tt)
  unpack_values-Adds [] (f ∷ fs) d locals a h enough = elim a [ ]
  unpack_values-Adds (pad k ∷ fmt) fs d locals a h enough =
      unpack_values-Adds fmt fs (drop k d) locals a h (omega (arith, length-drop k d))
  unpack_values-Adds (raw k ∷ fmt) [] d locals a h enough = elim a [ ]
  unpack_values-Adds (raw k ∷ fmt) (f ∷ fs) d locals (s, a) (h, hs) enough =
      Adds-cons f fs (bytes_value (take k d)) _ locals h (s (take k d) (taken k d (omega arith)))
        (unpack_values-Adds fmt fs (drop k d) _ a hs (omega (arith, length-drop k d)))
  unpack_values-Adds (char l ∷ fmt) [] d locals a h enough = elim a [ ]
  unpack_values-Adds (char l ∷ fmt) (f ∷ fs) d locals (s, a) (h, hs) enough =
      Adds-cons f fs _ _ locals h (s _) (
        unpack_values-Adds fmt fs (drop (letter_size l) d) _ a hs
          (omega (arith, length-drop (letter_size l) d)))

  -- One value: the tuple has one element, as the assignment of all succeeds.
  only_one :
      (n : String) (vs : List (Attribute py)) (locals out : Locals py)
      → assign_all py (n ∷ []) vs locals ≡ some out
      → assign_first py (n ∷ []) vs locals ≡ some out
  unfolding assign_all
  only_one n [] locals out h = cc h
  only_one n (v ∷ []) locals out h = elim (Bool-cases (has_name (chars n) reserved_words)) [
    | inl taken_name ↦ cc (rw taken_name at h)
    | inr free ↦ rw free (rw free at h)
  ]
  only_one n (v ∷ w ∷ vs) locals out h = elim (Bool-cases (has_name (chars n) reserved_words)) [
    | inl taken_name ↦ cc (rw taken_name at h)
    | inr free ↦ cc (rw free at h)
  ]

  -- A statement reads enough bytes, and assigns values for the fields.
  pub record Fills (u : UnpackStep) (fs : List Field) : Type 0 where
    pub fills :
        HasTarget u
        → (d : Bytes) (o : ℕ) (locals : Locals py) → o + advance py.wire_size u ≤ length d
        → Adds fs locals (run_unpack_step py u d o locals)

  unpack_from_lem :
      (fmt : List FormatItem) (d : Bytes) (o : ℕ)
      → o + calcsize fmt ≤ length d
      → unpack_from py fmt d o ≡ some (unpack_values py fmt (drop o d))
  unfolding unpack_from
  unpack_from_lem fmt d o enough =
      let long : leb (calcsize fmt) (length d - o) ≡ true = ground (arith, enough) in rw long refl

  values_left :
      (fmt : List FormatItem) (fs : List Field) (d : Bytes) (o : ℕ) (locals : Locals py)
      → Aligned SuitsField fmt fs
      → All (λ f. IsFree f.name) fs
      → o + calcsize fmt ≤ length d
      → Adds fs locals (assign_all py (names fs) (unpack_values py fmt (drop o d)) locals)
  values_left fmt fs d o locals a h enough =
      unpack_values-Adds fmt fs (drop o d) locals a h (omega (arith, length-drop o d))

  formatted_lem :
      (fmt : List FormatItem) (fs : List Field) (d : Bytes) (o : ℕ) (locals : Locals py)
      → Aligned SuitsField fmt fs
      → All (λ f. IsFree f.name) fs
      → HasTarget (unpack_step fmt (names fs))
      → o + calcsize fmt ≤ length d
      → Adds fs locals (run_unpack_step py (unpack_step fmt (names fs)) d o locals)
  unfolding run_unpack_step
  formatted_lem fmt [] d o locals a h target enough = elim target [ ]
  formatted_lem fmt (f ∷ []) d o locals a h target enough =
      let (new, e, s) = values_left fmt (f ∷ []) d o locals a h enough in
      (new, rw (unpack_from_lem fmt d o enough) (only_one f.name _ locals _ e), s)
  formatted_lem fmt (f ∷ g ∷ fs) d o locals a h target enough =
      let (new, e, s) = values_left fmt (f ∷ g ∷ fs) d o locals a h enough in
      let many : is_single_val (names (f ∷ g ∷ fs)) ≡ false = ground arith in
      (new, rw (many, unpack_from_lem fmt d o enough) e, s)

  pub formatted-Fills :
      (fmt : List FormatItem) (fs : List Field)
      → Aligned SuitsField fmt fs
      → All (λ f. IsFree f.name) fs
      → Fills (unpack_step fmt (names fs)) fs
  formatted-Fills fmt fs a h = record {
    fills = λ target d o locals enough.
        formatted_lem fmt fs d o locals a h target
          (omega (arith, enough, (unpack_step_lem py.wire_size fmt (names fs) 0).1));
  }

  -- A class that makes an object of any bytes, as many as its WIRE_SIZE.
  abbrev pub ReadsAll : String → Type 0
  ReadsAll sub_type =
      (bytes : Bytes)
      → length bytes ≡ py.wire_size sub_type
      → (o : py.Object) × (py.unpack_class sub_type bytes ≡ some o)

  sliced : (d : Bytes) (o n : ℕ) → o + n ≤ length d → length (slice py d o n) ≡ n
  sliced d o n enough = taken n (drop o d) (omega (arith, length-drop o d))

  pub object-Fills :
      (f : Field) (sub_type : String) (size : ℕ)
      → f.type ≡ class_type sub_type size
      → ReadsAll sub_type
      → IsFree f.name
      → Fills (unpack_object f.name sub_type) (f ∷ [])
  unfolding run_unpack_step
  object-Fills f sub_type size is reads h = record {
    fills = λ target d o locals enough.
        (let (v, e) =
            reads (slice py d o (py.wire_size sub_type))
              (sliced d o (py.wire_size sub_type) enough) in
          ((chars f.name, object_value v) ∷ [], rw (e, h) refl, (refl, rw is tt, tt)));
  }

  loop_lem :
      (sub_type : String) (n : ℕ) (d : Bytes) (o : ℕ)
      → ReadsAll sub_type
      → o + n * py.wire_size sub_type ≤ length d
      → (os : List py.Object) × (unpack_loop py sub_type n d o ≡ some os) × (length os ≡ n)
  unfolding unpack_loop
  loop_lem sub_type zero d o reads enough = ([], refl, refl)
  loop_lem sub_type (suc n) d o reads enough =
      let (v, e) =
        reads (slice py d o (py.wire_size sub_type))
          (sliced d o (py.wire_size sub_type) (omega arith)) in
      let (os, rest, count) =
        loop_lem sub_type n d (o + py.wire_size sub_type) reads (omega arith) in
      (v ∷ os, rw (e, rest) refl, ap suc count)

  pub items-Fills :
      (f : Field) (sub_type : String) (n : ℕ)
      → ((os : List py.Object) → length os ≡ n → HasShape f.type (list_value os))
      → ReadsAll sub_type
      → IsFree f.name
      → Fills (unpack_items f.name sub_type n) (f ∷ [])
  unfolding run_unpack_step
  items-Fills f sub_type n suits reads h = record {
    fills = λ target d o locals enough.
        (let (os, e, count) = loop_lem sub_type n d o reads enough in
          ((chars f.name, list_value os) ∷ [], rw (e, h) refl, (refl, suits os count, tt)));
  }
