-- ===== src/Generator/Values/RoundTrip.antt =====
-- generator/python_code_generator.h: unpack_wire on the bytes that pack_wire returns.
use Prim.Native.String.{String}
use mathlib.Core.List.{append_assoc, append-nil}
use reflect_pytest.Prelude.{
  ℕ, ◌≡◌, refl, sym, ◌∙◌, Bool, Bool-cases, inl, inr, none, some, List, [], ◌∷◌, ◌++◌, length, map,
  chars, All, All-map, if◌then◌else◌, text_eq, text_eq→eq, text_eq_refl, has_name, ◌||◌, true,
  false,
}
use reflect_pytest.Docs.Text.{Bytes}
use reflect_pytest.Generator.{
  get_struct_format_char, byte_like, other, FieldType, scalar, std_array, c_array, class_type,
  Field, Plan, empty_plan, add_field, add_fields, generate_struct,
}
use reflect_pytest.Generator.Values.{
  Python, number_value, bytes_value, object_value, list_value, Attribute, lookup, or_else,
  keyword_values, pack_wire, unpack_wire,
}
use reflect_pytest.Generator.Values.Formats.{FitsLetter}
use reflect_pytest.Generator.Values.Steps.{
  IsFree, HasTarget, FitsObject, FitsListed, named, object-Pairs, items-Pairs,
}
use reflect_pytest.Generator.Values.Plans.{
  Good, flush_format-Flushed, pad_to-Good, add_value-Good, add_steps-Good,
}

either_lem : {b : Bool} (a : Bool) → b ≡ true → (a || b) ≡ true
either_lem true h = refl
either_lem false h = h

found_twice :
    {A : Type 0} (b : Bool) (v : A) → or_else (if b then some v else none) (some v) ≡ some v
found_twice true v = refl
found_twice false v = refl

found_before :
    {A : Type 0} (b : Bool) (v : A)
    → or_else (if b then some v else none) none ≡ (if b then some v else none)
found_before true v = refl
found_before false v = refl

module _ (py : Python) where
  -- A value for a field: a number that its format character holds, bytes or objects in the number
  -- that the array has, an object of the class.
  abbrev pub FitsField : FieldType → Attribute py → Type 0
  FitsField (scalar s) (number_value v) = FitsLetter py (get_struct_format_char s) v
  FitsField (std_array byte_like n) (bytes_value b) = length b ≡ n
  FitsField (c_array byte_like n) (bytes_value b) = length b ≡ n
  FitsField (std_array (other sub_type size) n) (list_value os) =
      (length os ≡ n) × All (FitsListed py sub_type) os
  FitsField (c_array (other sub_type size) n) (list_value os) =
      (length os ≡ n) × All (FitsListed py sub_type) os
  FitsField (class_type sub_type size) (object_value o) = FitsObject py sub_type o
  FitsField _ _ = ⊥

  module _ (self : Bytes → Attribute py) where
    add_field-Good :
        (name : String) (t : FieldType) (p : Plan) (names : List String)
        → FitsField t (self (chars name))
        → IsFree name
        → Good py self p names
        → Good py self (add_field name t p) (names ++ name ∷ [])
    unfolding add_field
    add_field-Good name t p names f h g = with_value t (self (chars name)) refl f
      where
        with_value :
            (t : FieldType) (v : Attribute py)
            → self (chars name) ≡ v
            → FitsField t v
            → Good py self (add_field name t p) (names ++ name ∷ [])
        with_value (scalar s) (number_value v) e f =
            add_value-Good py self name _ _ p names (rw e f, tt) h g
        with_value (std_array byte_like n) (bytes_value b) e f =
            add_value-Good py self name _ _ p names (rw e f, tt) h g
        with_value (c_array byte_like n) (bytes_value b) e f =
            add_value-Good py self name _ _ p names (rw e f, tt) h g
        with_value (std_array (other sub_type size) n) (list_value os) e (count, fit) =
            add_steps-Good py self _ _ _ p names name
              ((items-Pairs py self name sub_type n os e count fit h).0) g
        with_value (c_array (other sub_type size) n) (list_value os) e (count, fit) =
            add_steps-Good py self _ _ _ p names name
              ((items-Pairs py self name sub_type n os e count fit h).1) g
        with_value (class_type sub_type size) (object_value o) e f =
            add_steps-Good py self _ _ _ p names name (object-Pairs py self name sub_type o e f h) g
        with_value _ _ e f = elim f [ ]

    add_fields-Good :
        (fs : List Field) (p : Plan) (names : List String)
        → All (λ f. FitsField f.type (self (chars f.name))) fs
        → All (λ f. IsFree f.name) fs
        → Good py self p names
        → Good py self (add_fields fs p) (names ++ map (λ f. f.name) fs)
    unfolding add_fields
    add_fields-Good [] p names _ _ g = rw (append-nil names) g
    add_fields-Good (f ∷ fs) p names (fit, fits) (h, hs) g =
        rw (sym (append_assoc names (f.name ∷ []) (map (λ f. f.name) fs))) (
          add_fields-Good fs _ (names ++ f.name ∷ []) fits hs
            (add_field-Good f.name f.type _ names fit h (pad_to-Good py self f.offset p names g)))

    -- The value of a variable, where every variable has the value of the attribute of its name.
    lookup_named :
        (name : String) (names : List String)
        → lookup py (chars name) (named py self names)
          ≡ (if has_name (chars name) (map chars names) then some (self (chars name)) else none)
    unfolding lookup
    lookup_named name [] = refl
    lookup_named name (n ∷ names) = elim (Bool-cases (text_eq (chars name) (chars n))) [
      | inl same ↦
          rw (lookup_named name names, same, text_eq→eq (chars name) (chars n) same)
            (found_twice (has_name (chars n) (map chars names)) (self (chars n)))
      | inr different ↦
          rw (lookup_named name names, different)
            (found_before (has_name (chars name) (map chars names)) (self (chars name)))
    ]

    abbrev IsAmong : List String → Field → Type 0
    IsAmong names f = has_name (chars f.name) (map chars names) ≡ true

    keyword_values_named :
        (fs : List Field) (names : List String)
        → All (IsAmong names) fs
        → keyword_values py fs (named py self names)
          ≡ some (map (λ f. (chars f.name, self (chars f.name))) fs)
    unfolding keyword_values
    keyword_values_named [] names h = refl
    keyword_values_named (f ∷ fs) names (h, hs) =
        let first : lookup py (chars f.name) (named py self names) ≡ some (self (chars f.name)) =
          lookup_named f.name names ∙ rw h refl in
        rw (first, keyword_values_named fs names hs) refl

    All-IsAmong : (fs : List Field) → All (IsAmong (map (λ f. f.name) fs)) fs
    All-IsAmong [] = tt
    All-IsAmong (f ∷ fs) = (
      rw (text_eq_refl (chars f.name)) refl,
      All-map (IsAmong (map (λ g. g.name) fs)) (IsAmong (f.name ∷ map (λ g. g.name) fs)) fs
          (λ g h. either_lem (text_eq (chars g.name) (chars f.name)) h) (All-IsAmong fs),
    )

    -- The generated pack_wire returns bytes, without an exception, and unpack_wire of these bytes and any
    -- others behind them calls the constructor with the value of every field. Assumed: struct.unpack gives back the numbers
    -- that struct.pack encodes in the format characters of their fields, the arrays have their declared lengths, the classes read their objects back,
    -- no field has a name that unpack_wire uses itself, and no statement unpacks padding alone.
    pub pack_wire-unpack_wire :
        (fs : List Field) (size : ℕ)
        → All (λ f. FitsField f.type (self (chars f.name))) fs
        → All (λ f. IsFree f.name) fs
        → All HasTarget (generate_struct fs size).unpack_instructions
        → (bytes : Bytes) × (pack_wire py fs size self ≡ some bytes)
          × ((rest : Bytes)
              → unpack_wire py fs size (bytes ++ rest)
                ≡ some (map (λ f. (chars f.name, self (chars f.name))) fs))
    unfolding generate_struct pack_wire unpack_wire
    pack_wire-unpack_wire fs size fits free target =
        let g = add_fields-Good fs empty_plan [] fits free (record {
          done = [];
          all_names = refl;
          same_names = refl;
          fitting = tt;
          free = tt;
          ran = record { bytes = []; packed = refl; unpacked = λ _ rest. refl };
        }) in
        let r = (flush_format-Flushed py self _ _ (pad_to-Good py self size _ _ g)).ran in
        (
          r.bytes,
          r.packed,
          λ rest.
              rw
                (
                  r.unpacked target rest,
                  keyword_values_named fs (map (λ f. f.name) fs) (All-IsAmong fs),
                )
                refl,
        )
