-- ===== src/Generator/Layout.antt =====
-- generator/python_code_generator.h: the positions that the statements of unpack_wire read.

use Prim.Native.String.{String}
use mathlib.Core.List.{append-nil, append_assoc}
use reflect_pytest.Prelude.{
  ℕ, ◌+◌, ◌-◌, ◌*◌, ◌≤◌, ◌≡◌, refl, sym, ◌∙◌, ap, subst, ltb, List, [], ◌∷◌, ◌++◌, length, map, All,
  arith, Bool-cases, inl, inr,
}
use reflect_pytest.Generator.{
  get_struct_format_char, byte_like, other, FieldType, scalar, std_array, c_array, class_type,
  Field, FormatItem, pad, raw, char, UnpackStep, unpack_object, unpack_items, Plan, empty_plan,
  is_empty, flush_format, pad_to, add_value, add_steps, add_field, add_fields, generate_struct,
  unpack_step, PackStep,
}
use reflect_pytest.Generator.Python.{
  item_size, calcsize, Span, format_spans, advance, step_spans, end_offset, spans, type_size,
  field_span, IsKnown, IsLaidOut,
}
use reflect_pytest.Generator.Spans.{step_lem, unpack_step_lem}
use reflect_pytest.Generator.Pieces.{
  values, calcsize-append, values-append, length-append, format_spans-append, format_spans_pad,
  is_empty_lem, no_length,
}

module _ (wire_size : String → ℕ) where
  -- The plan reads `done` so far, and stands at current_offset.
  record IsAt (done : List Span) (p : Plan) : Type 0 where
    reads :
        spans wire_size p.unpack_instructions 0
          ++ format_spans p.pack_fmt p.unpack_args (end_offset wire_size p.unpack_instructions 0)
        ≡ done
    stands : end_offset wire_size p.unpack_instructions 0 + calcsize p.pack_fmt ≡ p.current_offset
    named : values p.pack_fmt ≡ length p.unpack_args

  add_value-IsAt :
      (name : String) (item : FormatItem) (done : List Span) (p : Plan)
      → ((o : ℕ) → format_spans (item ∷ []) (name ∷ []) o ≡ (name, o, item_size item) ∷ [])
      → values (item ∷ []) ≡ 1
      → IsAt done p
      → IsAt
          (done ++ (name, p.current_offset, item_size item) ∷ [])
          (add_value name item (item_size item) p)
  unfolding add_value
  add_value-IsAt name item done p read one at =
      let e = end_offset wire_size p.unpack_instructions 0 in
      let before = spans wire_size p.unpack_instructions 0 in
      record {
        reads = rw (
          format_spans-append p.pack_fmt (item ∷ []) p.unpack_args (name ∷ []) e at.named,
          read,
          at.stands,
          ← append_assoc before (format_spans p.pack_fmt p.unpack_args e)
              ((name, p.current_offset, item_size item) ∷ []),
          at.reads,
        );
        stands = omega (arith, calcsize-append p.pack_fmt (item ∷ []), at.stands);
        named = omega (
          arith,
          values-append p.pack_fmt (item ∷ []),
          length-append p.unpack_args (name ∷ []),
          at.named,
          one,
        );
      }

  -- After a flush the format and the names are empty.
  record IsFlushed (done : List Span) (offset : ℕ) (p : Plan) : Type 0 where
    reads : spans wire_size p.unpack_instructions 0 ≡ done
    stands : end_offset wire_size p.unpack_instructions 0 ≡ offset
    no_format : p.pack_fmt ≡ []
    no_names : p.unpack_args ≡ []
    same_offset : p.current_offset ≡ offset

  flush_format-IsFlushed :
      (done : List Span) (p : Plan) → IsAt done p → IsFlushed done p.current_offset (flush_format p)
  unfolding flush_format format_spans
  flush_format-IsFlushed done p at =
      let e = end_offset wire_size p.unpack_instructions 0 in
      let before = spans wire_size p.unpack_instructions 0 in
      elim (Bool-cases (is_empty p.pack_fmt)) [
        | inl none_left ↦
            let fmt = is_empty_lem p.pack_fmt none_left in
            let names = no_length p.unpack_args (sym at.named ∙ ap values fmt) in
            let blank : format_spans p.pack_fmt p.unpack_args e ≡ [] = rw fmt refl in
            rw none_left (record {
              reads = sym (append-nil before) ∙ ap (λ t. before ++ t) (sym blank) ∙ at.reads;
              stands = omega (arith, at.stands, ap calcsize fmt);
              no_format = fmt;
              no_names = names;
              same_offset = refl;
            })
        | inr some_left ↦
            let (read, moved) = unpack_step_lem wire_size p.pack_fmt p.unpack_args e in
            let (all_read, all_moved) =
              step_lem wire_size (unpack_step p.pack_fmt p.unpack_args) p.unpack_instructions in
            rw some_left (record {
              reads = all_read ∙ ap (λ t. before ++ t) read ∙ at.reads;
              stands = omega (arith, all_moved, moved, at.stands);
              no_format = refl;
              no_names = refl;
              same_offset = refl;
            })
      ]

  IsFlushed-IsAt :
      (done : List Span) (offset : ℕ) (p : Plan) → IsFlushed done offset p → IsAt done p
  unfolding format_spans
  IsFlushed-IsAt done offset p at = record {
    reads = rw at.no_format (append-nil _ ∙ at.reads);
    stands = omega (arith, at.stands, ap calcsize at.no_format, at.same_offset);
    named = rw (at.no_format, at.no_names) refl;
  }

  add_steps-IsAt :
      (name : String) (pack : PackStep) (s : UnpackStep) (size : ℕ) (done : List Span) (p : Plan)
      → ((o : ℕ) → step_spans wire_size s o ≡ (name, o, size) ∷ [])
      → advance wire_size s ≡ size
      → IsAt done p
      → IsAt (done ++ (name, p.current_offset, size) ∷ []) (add_steps pack s size p)
  unfolding add_steps format_spans
  add_steps-IsAt name pack s size done p read moved at =
      let q = flush_format-IsFlushed done p at in
      let (all_read, all_moved) = step_lem wire_size s (flush_format p).unpack_instructions in
      IsFlushed-IsAt _ (p.current_offset + size) _ (record {
        reads = rw (all_read, q.reads, read, q.stands) refl;
        stands = omega (arith, all_moved, q.stands, moved);
        no_format = q.no_format;
        no_names = q.no_names;
        same_offset = omega (arith, q.same_offset);
      })

  pad_to-IsAt :
      (o : ℕ) (done : List Span) (p : Plan)
      → p.current_offset ≤ o
      → IsAt done p
      → IsAt done (pad_to o p) × ((pad_to o p).current_offset ≡ o)
  unfolding pad_to format_spans
  pad_to-IsAt o done p h at = elim (Bool-cases (ltb p.current_offset o)) [
    | inl less ↦
        let n = o - p.current_offset in
        let e = end_offset wire_size p.unpack_instructions 0 in
        rw less (
          record {
            reads = rw (format_spans_pad p.pack_fmt p.unpack_args n e at.named) at.reads;
            stands = omega (arith, calcsize-append p.pack_fmt (pad n ∷ []), at.stands);
            named = omega (arith, values-append p.pack_fmt (pad n ∷ []), at.named);
          },
          omega arith,
        )
    | inr same ↦ rw same (at, ground arith)
  ]

  add_field-IsAt :
      (name : String) (t : FieldType) (done : List Span) (p : Plan)
      → IsKnown wire_size t
      → IsAt done p
      → IsAt (done ++ (name, p.current_offset, type_size t) ∷ []) (add_field name t p)
        × ((add_field name t p).current_offset ≡ p.current_offset + type_size t)
  unfolding add_field add_value add_steps format_spans
  add_field-IsAt name (std_array byte_like n) done p k at =
      (add_value-IsAt name (raw n) done p (λ o. refl) refl at, refl)
  add_field-IsAt name (c_array byte_like n) done p k at =
      (add_value-IsAt name (raw n) done p (λ o. refl) refl at, refl)
  add_field-IsAt name (std_array (other sub_type size) n) done p k at = (
    add_steps-IsAt name _ (unpack_items name sub_type n) (n * size) done p (λ o. rw k refl)
        (rw k refl) at,
    omega (arith, (flush_format-IsFlushed done p at).same_offset),
  )
  add_field-IsAt name (c_array (other sub_type size) n) done p k at = (
    add_steps-IsAt name _ (unpack_items name sub_type n) (n * size) done p (λ o. rw k refl)
        (rw k refl) at,
    omega (arith, (flush_format-IsFlushed done p at).same_offset),
  )
  add_field-IsAt name (class_type sub_type size) done p k at = (
    add_steps-IsAt name _ (unpack_object name sub_type) size done p (λ o. rw k refl) k at,
    omega (arith, (flush_format-IsFlushed done p at).same_offset),
  )
  add_field-IsAt name (scalar s) done p k at =
      let c = get_struct_format_char s in
      (
        subst (λ z. IsAt (done ++ (name, p.current_offset, z) ∷ []) (add_value name (char c) z p)) k
            (add_value-IsAt name (char c) done p (λ o. refl) refl at),
        refl,
      )

  empty_plan-IsAt : IsAt [] empty_plan
  unfolding spans end_offset format_spans
  empty_plan-IsAt = record { reads = refl; stands = refl; named = refl }

  add_fields-IsAt :
      (fs : List Field) (size : ℕ) (done : List Span) (p : Plan)
      → All (λ f. IsKnown wire_size f.type) fs
      → IsLaidOut p.current_offset size fs
      → IsAt done p
      → IsAt (done ++ map field_span fs) (add_fields fs p)
        × ((add_fields fs p).current_offset ≤ size)
  unfolding add_fields
  add_fields-IsAt [] size done p k l at = (subst (λ d. IsAt d p) (sym (append-nil done)) at, l)
  add_fields-IsAt (f ∷ fs) size done p (k, ks) (h, l) at =
      let (padded, offset) = pad_to-IsAt f.offset done p h at in
      let (added, next) = add_field-IsAt f.name f.type done (pad_to f.offset p) k padded in
      let (rest, fits) =
        add_fields-IsAt fs size _ _ ks
          (subst (λ o. IsLaidOut o size fs) (sym (next ∙ ap (λ o. o + type_size f.type) offset)) l)
          added in
      (
        subst (λ d. IsAt d (add_fields fs (add_field f.name f.type (pad_to f.offset p))))
            (append_assoc done _ _
              ∙ ap (λ o. done ++ (f.name, o, type_size f.type) ∷ map field_span fs) offset)
            rest,
        fits,
      )

  -- The spans and the end of the statements, whether or not each has a name to assign to.
  pub generate_struct_layout :
      (fs : List Field) (size : ℕ)
      → All (λ f. IsKnown wire_size f.type) fs
      → IsLaidOut 0 size fs
      → let steps = (generate_struct fs size).unpack_instructions in
        (spans wire_size steps 0 ≡ map field_span fs) × (end_offset wire_size steps 0 ≡ size)
  unfolding generate_struct
  generate_struct_layout fs size k l =
      let (at, fits) = add_fields-IsAt fs size [] empty_plan k l empty_plan-IsAt in
      let (padded, offset) = pad_to-IsAt size _ _ fits at in
      let done = flush_format-IsFlushed _ _ padded in (done.reads, done.stands ∙ offset)
