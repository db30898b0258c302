-- ===== src/Generator/Values/Steps.antt =====
-- generator/python_code_generator.h: a statement of pack_wire, and the statement of unpack_wire that
-- reads what it has written.
use Prim.Native.String.{String}
use mathlib.Core.List.{append_assoc, append-nil}
use reflect_pytest.Prelude.{
  ℕ, ◌+◌, ◌*◌, ◌≡◌, refl, sym, ◌∙◌, ap, true, false, some, List, [], ◌∷◌, ◌++◌, length,
  length-append, map, arith, chars, has_name, All,
}
use reflect_pytest.Docs.Text.{Bytes}
use reflect_pytest.Generator.{
  FormatItem, PackStep, pack_format, extend_object, extend_items, extend_bytes_or_items, UnpackStep,
  unpack_single, unpack_object, unpack_items, unpack_step, is_single_val,
}
use reflect_pytest.Generator.Python.{calcsize, advance}
use reflect_pytest.Generator.Values.{
  Python, object_value, list_value, Attribute, Locals, reserved_words, attributes, extend_all,
  run_pack_step, assign_all, slice, unpack_from, unpack_loop, run_unpack_step,
}
use reflect_pytest.Generator.Values.Formats.{
  Fitting, encoded, unpack_from-Encoded, drop-append, take-append,
}

-- A name that unpack_wire can assign to.
abbrev pub IsFree : String → Type 0
IsFree name = has_name (chars name) reserved_words ≡ false

-- Python with a target on the left of each assignment.
abbrev pub HasTarget : UnpackStep → Type 0
HasTarget (unpack_single fmt []) = ⊥
HasTarget s = Unit

module _ (py : Python) where
  -- The class reads the object's bytes back, and they are as many as its WIRE_SIZE.
  abbrev pub FitsObject : String → py.Object → Type 0
  FitsObject sub_type o =
      (bytes : Bytes) × (py.pack_object o ≡ some bytes)
      × (length bytes ≡ py.wire_size sub_type)
      × (py.unpack_class sub_type bytes ≡ some o)

  abbrev pub FitsListed : String → py.Object → Type 0
  FitsListed sub_type o = (py.has_pack_wire o ≡ true) × FitsObject sub_type o

  slice_lem :
      (before bytes rest : Bytes) (n : ℕ)
      → length bytes ≡ n
      → slice py (before ++ (bytes ++ rest)) (length before) n ≡ bytes
  slice_lem before bytes rest n h =
      rw (sym h, drop-append before (bytes ++ rest)) (take-append bytes rest)

  -- The bytes of the items of a list.
  record Listed (sub_type : String) (os : List py.Object) : Type 0 where
    bytes : Bytes
    packed : extend_all py sub_type os ≡ some bytes
    sized : length bytes ≡ length os * py.wire_size sub_type
    unpacked :
        (before rest : Bytes) (offset : ℕ)
        → offset ≡ length before
        → unpack_loop py sub_type (length os) (before ++ (bytes ++ rest)) offset ≡ some os

  listed :
      (sub_type : String) (os : List py.Object) → All (FitsListed sub_type) os → Listed sub_type os
  unfolding extend_all unpack_loop
  listed sub_type [] h = record {
    bytes = [];
    packed = refl;
    sized = omega arith;
    unpacked = λ before rest offset e. refl;
  }
  listed sub_type (o ∷ os) ((has, (head, packs, size, unpacks)), h) =
      let tail = listed sub_type os h in
      record {
        bytes = head ++ tail.bytes;
        packed = rw (has, packs, tail.packed) refl;
        sized = omega (arith, length-append head tail.bytes, size, tail.sized);
        unpacked = λ before rest offset e.
            rw
              (
                e,
                append_assoc head tail.bytes rest,
                slice_lem before head (tail.bytes ++ rest) (py.wire_size sub_type) size,
                unpacks,
                sym (append_assoc before head (tail.bytes ++ rest)),
                tail.unpacked (before ++ head) rest (length before + py.wire_size sub_type)
                    (omega (arith, length-append before head)),
              )
              refl;
      }

  module _ (self : Bytes → Attribute py) where
    abbrev pub named : List String → Locals py
    named names = map (λ n. (chars n, self (chars n))) names

    -- What one statement writes of some attributes, the other assigns to the variables of the same names.
    pub record Pairs (p : PackStep) (u : UnpackStep) (names : List String) : Type 0 where
      pub bytes : Bytes
      pub packed : run_pack_step py self p ≡ some bytes
      pub moved : advance py.wire_size u ≡ length bytes
      pub unpacked :
          HasTarget u
          → (before rest : Bytes) (locals : Locals py)
          → run_unpack_step py u (before ++ (bytes ++ rest)) (length before) locals
            ≡ some (locals ++ named names)

    assign_all_lem :
        (names : List String) (locals : Locals py)
        → All IsFree names
        → assign_all py names (attributes py self names) locals ≡ some (locals ++ named names)
    unfolding assign_all
    assign_all_lem [] locals h = ap some (sym (append-nil locals))
    assign_all_lem (n ∷ ns) locals (h, hs) =
        rw
          (
            h,
            assign_all_lem ns (locals ++ (chars n, self (chars n)) ∷ []) hs,
            append_assoc locals ((chars n, self (chars n)) ∷ []) (named ns),
          )
          refl

    advance-unpack_step :
        (fmt : List FormatItem) (names : List String)
        → advance py.wire_size (unpack_step fmt names) ≡ calcsize fmt
    advance-unpack_step fmt names = ground arith

    unpack_step_lem :
        (fmt : List FormatItem) (names : List String) (data_bytes : Bytes) (offset : ℕ)
        (locals : Locals py)
        → unpack_from py fmt data_bytes offset ≡ some (attributes py self names)
        → All IsFree names
        → HasTarget (unpack_step fmt names)
        → run_unpack_step py (unpack_step fmt names) data_bytes offset locals
          ≡ some (locals ++ named names)
    unfolding run_unpack_step
    unpack_step_lem fmt [] data_bytes offset locals reads h target = elim target [ ]
    unpack_step_lem fmt (n ∷ []) data_bytes offset locals reads (h, _) target = rw (reads, h) refl
    unpack_step_lem fmt (n ∷ m ∷ ns) data_bytes offset locals reads h target =
        let many : is_single_val (n ∷ m ∷ ns) ≡ false = ground arith in
        rw (many, reads) (assign_all_lem (n ∷ m ∷ ns) locals h)

    -- Statements for a format.
    pub formatted-Pairs :
        (fmt : List FormatItem) (names : List String)
        → Fitting py self fmt names
        → All IsFree names
        → Pairs (pack_format fmt names) (unpack_step fmt names) names
    unfolding run_pack_step
    formatted-Pairs fmt names f h =
        let e = encoded py self fmt names f in
        record {
          bytes = e.bytes;
          packed = e.packed;
          moved = advance-unpack_step fmt names ∙ sym e.sized;
          unpacked = λ target before rest locals.
              unpack_step_lem fmt names _ _ locals
                (unpack_from-Encoded py self fmt (attributes py self names) e before rest) h target;
        }

    -- Statements for an object.
    pub object-Pairs :
        (name sub_type : String) (o : py.Object)
        → self (chars name) ≡ object_value o
        → FitsObject sub_type o
        → IsFree name
        → Pairs (extend_object name) (unpack_object name sub_type) (name ∷ [])
    unfolding run_pack_step run_unpack_step
    object-Pairs name sub_type o is (bytes, packs, size, unpacks) h = record {
      bytes = bytes;
      packed = rw (is, packs) refl;
      moved = sym size;
      unpacked = λ target before rest locals.
          rw (slice_lem before bytes rest (py.wire_size sub_type) size, unpacks, h, is) refl;
    }

    -- Statements for the items of a list.
    pub items-Pairs :
        (name sub_type : String) (n : ℕ) (os : List py.Object)
        → self (chars name) ≡ list_value os
        → length os ≡ n
        → All (FitsListed sub_type) os
        → IsFree name
        → Pairs (extend_items name sub_type) (unpack_items name sub_type n) (name ∷ [])
          × Pairs (extend_bytes_or_items name sub_type) (unpack_items name sub_type n) (name ∷ [])
    unfolding run_pack_step run_unpack_step
    items-Pairs name sub_type n os is count fit h =
        let l = listed sub_type os fit in
        let moved : n * py.wire_size sub_type ≡ length l.bytes =
          sym (l.sized ∙ ap (λ k. k * py.wire_size sub_type) count) in
        let reads : (before rest : Bytes) (locals : Locals py)
            → run_unpack_step py (unpack_items name sub_type n) (before ++ (l.bytes ++ rest))
                (length before) locals
              ≡ some (locals ++ named (name ∷ [])) =
          λ before rest locals.
            rw (sym count, l.unpacked before rest (length before) refl, h, is) refl in
        (
          record {
            bytes = l.bytes;
            packed = rw (is, l.packed) refl;
            moved = moved;
            unpacked = λ target. reads;
          },
          record {
            bytes = l.bytes;
            packed = rw (is, l.packed) refl;
            moved = moved;
            unpacked = λ target. reads;
          },
        )
