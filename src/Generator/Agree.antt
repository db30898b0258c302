-- ===== src/Generator/Agree.antt =====
-- The generated pack_wire writes what unpack_wire reads.
use Prim.Native.String.{String}
use mathlib.Core.List.{map-append}
use reflect_pytest.Prelude.{
  ℕ, ◌+◌, ◌*◌, ◌≡◌, refl, ◌∙◌, ap, List, [], ◌∷◌, ◌++◌, map, All, arith, Bool-cases, inl, inr,
}
use reflect_pytest.Generator.{
  byte_like, other, FieldType, scalar, std_array, c_array, class_type, Field, FormatItem, PackStep,
  pack_format, extend_object, extend_items, extend_bytes_or_items, UnpackStep, unpack_single,
  unpack_many, unpack_object, unpack_items, Plan, empty_plan, is_empty, flush_format, pad_to,
  add_value, add_steps, add_field, add_fields, generate_struct, unpack_step,
}
use reflect_pytest.Generator.Python.{
  calcsize, Span, format_spans, spans, end_offset, type_size, field_span, IsKnown, IsLaidOut,
}
use reflect_pytest.Generator.Layout.{generate_struct_layout}

-- A part of the packed bytes: values under one format, or a field with bytes of its own.
pub data Chunk : Type 0 where
  formatted : List FormatItem → List String → Chunk
  object : String → ℕ → Chunk

abbrev pub chunk_size : Chunk → ℕ
chunk_size (formatted fmt names) = calcsize fmt
chunk_size (object name n) = n

abbrev pub chunk_spans : Chunk → ℕ → List Span
chunk_spans (formatted fmt names) o = format_spans fmt names o
chunk_spans (object name n) o = (name, o, n) ∷ []

unfoldable pub total_size : List Chunk → ℕ → ℕ
total_size [] o = o
total_size (c ∷ cs) o = total_size cs (o + chunk_size c)

unfoldable pub all_spans : List Chunk → ℕ → List Span
all_spans [] o = []
all_spans (c ∷ cs) o = chunk_spans c o ++ all_spans cs (o + chunk_size c)

-- What a statement of pack_wire appends to the data, where `width` is the number of bytes that a field packs to.
abbrev pub written : (String → ℕ) → PackStep → Chunk
written width (pack_format fmt names) = formatted fmt names
written width (extend_object name) = object name (width name)
written width (extend_items name sub_type) = object name (width name)
written width (extend_bytes_or_items name sub_type) = object name (width name)

abbrev consumed : (String → ℕ) → UnpackStep → Chunk
consumed wire_size (unpack_single fmt names) = formatted fmt names
consumed wire_size (unpack_many fmt names) = formatted fmt names
consumed wire_size (unpack_object name sub_type) = object name (wire_size sub_type)
consumed wire_size (unpack_items name sub_type n) = object name (n * wire_size sub_type)

-- An object or an array of objects packs to the bytes of its C++ type.
abbrev pub IsSized : (String → ℕ) → String → FieldType → Type 0
IsSized width name (scalar s) = Unit
IsSized width name (std_array byte_like n) = Unit
IsSized width name (c_array byte_like n) = Unit
IsSized width name t = width name ≡ type_size t

module _ (width wire_size : String → ℕ) where
  consumed_lem :
      (ss : List UnpackStep) (o : ℕ)
      → (all_spans (map (consumed wire_size) ss) o ≡ spans wire_size ss o)
        × (total_size (map (consumed wire_size) ss) o ≡ end_offset wire_size ss o)
  unfolding spans end_offset all_spans total_size
  consumed_lem [] o = (refl, refl)
  consumed_lem (unpack_single fmt names ∷ ss) o =
      let (read, moved) = consumed_lem ss (o + calcsize fmt) in (rw read refl, moved)
  consumed_lem (unpack_many fmt names ∷ ss) o =
      let (read, moved) = consumed_lem ss (o + calcsize fmt) in (rw read refl, moved)
  consumed_lem (unpack_object name sub_type ∷ ss) o =
      let (read, moved) = consumed_lem ss (o + wire_size sub_type) in (rw read refl, moved)
  consumed_lem (unpack_items name sub_type n ∷ ss) o =
      let (read, moved) = consumed_lem ss (o + n * wire_size sub_type) in (rw read refl, moved)

  record Agrees (p : Plan) : Type 0 where
    same_names : p.pack_args ≡ p.unpack_args
    same_chunks :
        map (written width) p.pack_instructions ≡ map (consumed wire_size) p.unpack_instructions

  consumed-unpack_step :
      (fmt : List FormatItem) (names : List String)
      → consumed wire_size (unpack_step fmt names) ≡ formatted fmt names
  consumed-unpack_step fmt names = ground arith

  flush_format-Agrees : (p : Plan) → Agrees p → Agrees (flush_format p)
  unfolding flush_format
  flush_format-Agrees p a = elim (Bool-cases (is_empty p.pack_fmt)) [
    | inl none_left ↦ rw none_left a
    | inr some_left ↦ rw some_left (record {
      same_names = refl;
      same_chunks =
          rw
            (
              map-append (written width) p.pack_instructions
                  (pack_format p.pack_fmt p.pack_args ∷ []),
              map-append (consumed wire_size) p.unpack_instructions
                  (unpack_step p.pack_fmt p.unpack_args ∷ []),
              a.same_chunks,
              a.same_names,
              consumed-unpack_step,
            )
            refl;
    })
  ]

  pad_to-Agrees : (o : ℕ) (p : Plan) → Agrees p → Agrees (pad_to o p)
  unfolding pad_to
  pad_to-Agrees o p a = ground arith

  add_value-Agrees :
      (name : String) (item : FormatItem) (n : ℕ) (p : Plan)
      → Agrees p
      → Agrees (add_value name item n p)
  unfolding add_value
  add_value-Agrees name item n p a = record {
    same_names = ap (λ t. t ++ name ∷ []) a.same_names;
    same_chunks = a.same_chunks;
  }

  add_steps-Agrees :
      (pack : PackStep) (unpack : UnpackStep) (n : ℕ) (p : Plan)
      → written width pack ≡ consumed wire_size unpack
      → Agrees p
      → Agrees (add_steps pack unpack n p)
  unfolding add_steps
  add_steps-Agrees pack unpack n p same a =
      let q = flush_format-Agrees p a in
      record {
        same_names = q.same_names;
        same_chunks =
            rw
              (
                map-append (written width) (flush_format p).pack_instructions (pack ∷ []),
                map-append (consumed wire_size) (flush_format p).unpack_instructions (unpack ∷ []),
                q.same_chunks,
                same,
              )
              refl;
      }

  add_field-Agrees :
      (name : String) (t : FieldType) (p : Plan)
      → IsKnown wire_size t
      → IsSized width name t
      → Agrees p
      → Agrees (add_field name t p)
  unfolding add_field
  add_field-Agrees name (scalar s) p k z a = add_value-Agrees name _ _ p a
  add_field-Agrees name (std_array byte_like n) p k z a = add_value-Agrees name _ _ p a
  add_field-Agrees name (c_array byte_like n) p k z a = add_value-Agrees name _ _ p a
  add_field-Agrees name (std_array (other sub_type size) n) p k z a =
      add_steps-Agrees _ _ _ p (rw (z, k) refl) a
  add_field-Agrees name (c_array (other sub_type size) n) p k z a =
      add_steps-Agrees _ _ _ p (rw (z, k) refl) a
  add_field-Agrees name (class_type sub_type size) p k z a =
      add_steps-Agrees _ _ _ p (rw (z, k) refl) a

  add_fields-Agrees :
      (fs : List Field) (p : Plan)
      → All (λ f. IsKnown wire_size f.type) fs
      → All (λ f. IsSized width f.name f.type) fs
      → Agrees p
      → Agrees (add_fields fs p)
  unfolding add_fields
  add_fields-Agrees [] p k z a = a
  add_fields-Agrees (f ∷ fs) p (k, ks) (z, zs) a =
      add_fields-Agrees fs _ ks zs
        (add_field-Agrees f.name f.type _ k z (pad_to-Agrees f.offset p a))

  generate_struct-Agrees :
      (fs : List Field) (size : ℕ)
      → All (λ f. IsKnown wire_size f.type) fs
      → All (λ f. IsSized width f.name f.type) fs
      → Agrees (generate_struct fs size)
  unfolding generate_struct
  generate_struct-Agrees fs size k z = flush_format-Agrees _ (
      pad_to-Agrees size _
        (add_fields-Agrees fs empty_plan k z (record { same_names = refl; same_chunks = refl })))

  -- The generated pack_wire writes the fields in order, each at the offset and with the size that it
  -- has in C++, and as many bytes as the struct has. Assumed: the fields lie one after
  -- another within the struct, the format character of every scalar is as wide as the scalar, the
  -- classes of the other fields have the size of their C++ types, and the objects in them pack to that size.
  pub pack_wire_layout :
      (fs : List Field) (size : ℕ)
      → All (λ f. IsKnown wire_size f.type) fs
      → All (λ f. IsSized width f.name f.type) fs
      → IsLaidOut 0 size fs
      → let chunks = map (written width) (generate_struct fs size).pack_instructions in
        (all_spans chunks 0 ≡ map field_span fs) × (total_size chunks 0 ≡ size)
  pack_wire_layout fs size k z l =
      let same = (generate_struct-Agrees fs size k z).same_chunks in
      let (read, moved) = consumed_lem (generate_struct fs size).unpack_instructions 0 in
      let (layout, fits) = generate_struct_layout wire_size fs size k l in
      (rw same (read ∙ layout), rw same (moved ∙ fits))
