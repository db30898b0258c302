-- ===== src/Generator/Values/Typed.antt =====
-- generator/python_code_generator.h: what the statements that generate_struct collects for unpack_wire
-- assign, whatever the bytes are.
use Prim.Native.String.{String}
use mathlib.Core.List.{append_assoc, append-nil, map-append}
use reflect_pytest.Prelude.{
  ℕ, ◌-◌, ◌≤◌, ◌≡◌, refl, sym, ◌∙◌, ap, subst, ltb, some, List, [], ◌∷◌, ◌++◌, length, arith, All,
  All-append, Bool-cases, inl, inr,
}
use reflect_pytest.Docs.Text.{Bytes}
use reflect_pytest.Generator.{
  byte_like, other, FieldType, scalar, std_array, c_array, class_type, Field, FormatItem, PackStep,
  UnpackStep, Plan, is_empty, flush_format, pad_to, add_value, add_steps, add_field,
}
use reflect_pytest.Generator.Python.{end_offset}
use reflect_pytest.Generator.Spans.{step_lem}
use reflect_pytest.Generator.Pieces.{is_empty_lem}
use reflect_pytest.Generator.Values.{Python, Locals, run_unpack}
use reflect_pytest.Generator.Values.Aligned.{Aligned, Aligned-append, Aligned-pad}
use reflect_pytest.Generator.Values.Plans.{All-split, run_unpack_snoc}
use reflect_pytest.Generator.Values.Steps.{IsFree, HasTarget}
use reflect_pytest.Generator.Values.Shapes.{
  names, Shaped, Shaped-append, SuitsField, Fills, formatted-Fills, ReadsAll, object-Fills,
  items-Fills,
}

module _ (py : Python) where
  -- The class of a field, or of the elements of a field, reads all bytes.
  abbrev pub ReadsField : FieldType → Type 0
  ReadsField (std_array (other sub_type size) n) = ReadsAll py sub_type
  ReadsField (c_array (other sub_type size) n) = ReadsAll py sub_type
  ReadsField (class_type sub_type size) = ReadsAll py sub_type
  ReadsField _ = Unit

  -- The statements so far, on enough bytes.
  pub record Filled (us : List UnpackStep) (done : List Field) : Type 0 where
    pub runs :
        All HasTarget us
        → (d : Bytes) → end_offset py.wire_size us 0 ≤ length d
        → (locals : Locals py) × (run_unpack py us d 0 []
            ≡ some (end_offset py.wire_size us 0, locals))
          × Shaped py done locals

  append-Filled :
      (us : List UnpackStep) (u : UnpackStep) (done fs : List Field)
      → Filled us done
      → Fills py u fs
      → Filled (us ++ u ∷ []) (done ++ fs)
  append-Filled us u done fs r q = record {
    runs = λ target d enough.
        (let (before, last) = All-split us u target in
          let moved = (step_lem py.wire_size u us).1 in
          let (locals, e, s) = r.runs before d (omega (arith, moved, enough)) in
          let (new, f, t) =
            q.fills last d (end_offset py.wire_size us 0) locals (omega (arith, moved, enough)) in
          (
            locals ++ new,
            run_unpack_snoc py us u d 0 (end_offset py.wire_size us 0) [] locals (locals ++ new) e f
                ∙ ap (λ o. some (o, locals ++ new)) (sym moved),
            Shaped-append py done fs locals new s t,
          ));
  }

  pub record Sound (p : Plan) (fs : List Field) : Type 0 where
    pub done : List Field
    pub pending : List Field
    pub all_fields : fs ≡ done ++ pending
    pub same_names : names pending ≡ p.unpack_args
    pub aligned : Aligned (SuitsField py) p.pack_fmt pending
    pub free : All (λ f. IsFree f.name) pending
    pub filled : Filled p.unpack_instructions done

  pub record Flushed (p : Plan) (fs : List Field) : Type 0 where
    pub filled : Filled p.unpack_instructions fs
    pub no_items : p.pack_fmt ≡ []
    pub no_args : p.unpack_args ≡ []

  none_pending : (fs : List Field) → Aligned (SuitsField py) [] fs → fs ≡ []
  none_pending [] a = refl
  none_pending (f ∷ fs) a = elim a [ ]

  pub flush_format-Flushed : (p : Plan) (fs : List Field) → Sound p fs → Flushed (flush_format p) fs
  unfolding flush_format
  flush_format-Flushed p fs g = elim (Bool-cases (is_empty p.pack_fmt)) [
    | inl none_left ↦
        (let no_items = is_empty_lem p.pack_fmt none_left in
          let none_waits =
            none_pending g.pending
              (subst (λ fmt. Aligned (SuitsField py) fmt g.pending) no_items g.aligned) in
          rw none_left (record {
            filled = rw (g.all_fields, none_waits, append-nil g.done) g.filled;
            no_items = no_items;
            no_args = sym g.same_names ∙ ap names none_waits;
          }))
    | inr some_left ↦ rw some_left (record {
      filled =
          rw (g.all_fields, sym g.same_names)
            (append-Filled p.unpack_instructions _ g.done g.pending g.filled
              (formatted-Fills py p.pack_fmt g.pending g.aligned g.free));
      no_items = refl;
      no_args = refl;
    })
  ]

  pub pad_to-Sound : (o : ℕ) (p : Plan) (fs : List Field) → Sound p fs → Sound (pad_to o p) fs
  unfolding pad_to
  pad_to-Sound o p fs g = elim (Bool-cases (ltb p.current_offset o)) [
    | inl behind ↦ rw behind (record {
      done = g.done;
      pending = g.pending;
      all_fields = g.all_fields;
      same_names = g.same_names;
      aligned = Aligned-pad (SuitsField py) p.pack_fmt g.pending (o - p.current_offset) g.aligned;
      free = g.free;
      filled = g.filled;
    })
    | inr reached ↦ rw reached g
  ]

  add_value-Sound :
      (f : Field) (i : FormatItem) (n : ℕ) (p : Plan) (fs : List Field)
      → Aligned (SuitsField py) (i ∷ []) (f ∷ [])
      → IsFree f.name
      → Sound p fs
      → Sound (add_value f.name i n p) (fs ++ f ∷ [])
  unfolding add_value
  add_value-Sound f i n p fs a h g = record {
    done = g.done;
    pending = g.pending ++ f ∷ [];
    all_fields = ap (λ t. t ++ f ∷ []) g.all_fields ∙ append_assoc g.done g.pending (f ∷ []);
    same_names =
        map-append {A = Field} {B = String} (λ e. e.name) g.pending (f ∷ [])
        ∙ ap (λ t. t ++ f.name ∷ []) g.same_names;
    aligned = Aligned-append (SuitsField py) p.pack_fmt (i ∷ []) g.pending (f ∷ []) g.aligned a;
    free = All-append (λ e. IsFree e.name) g.pending (f ∷ []) g.free (h, tt);
    filled = g.filled;
  }

  add_steps-Sound :
      (k : PackStep) (u : UnpackStep) (n : ℕ) (p : Plan) (fs : List Field) (f : Field)
      → Fills py u (f ∷ [])
      → Sound p fs
      → Sound (add_steps k u n p) (fs ++ f ∷ [])
  unfolding add_steps
  add_steps-Sound k u n p fs f q g =
      let r = flush_format-Flushed p fs g in
      record {
        done = fs ++ f ∷ [];
        pending = [];
        all_fields = sym (append-nil (fs ++ f ∷ []));
        same_names = sym r.no_args;
        aligned = rw r.no_items tt;
        free = tt;
        filled = append-Filled (flush_format p).unpack_instructions u fs (f ∷ []) r.filled q;
      }

  pub add_field-Sound :
      (f : Field) (p : Plan) (fs : List Field)
      → ReadsField f.type
      → IsFree f.name
      → Sound p fs
      → Sound (add_field f.name f.type p) (fs ++ f ∷ [])
  unfolding add_field
  add_field-Sound f p fs r h g = with_type f.type refl r
    where
      with_type :
          (t : FieldType) → f.type ≡ t → ReadsField t → Sound (add_field f.name t p) (fs ++ f ∷ [])
      with_type (scalar s) e r = add_value-Sound f _ _ p fs (λ v. rw e tt, tt) h g
      with_type (std_array byte_like n) e r = add_value-Sound f _ _ p fs (λ b c. rw e c, tt) h g
      with_type (c_array byte_like n) e r = add_value-Sound f _ _ p fs (λ b c. rw e c, tt) h g
      with_type (std_array (other sub_type size) n) e r =
          add_steps-Sound _ _ _ p fs f (items-Fills py f sub_type n (λ os c. rw e c) r h) g
      with_type (c_array (other sub_type size) n) e r =
          add_steps-Sound _ _ _ p fs f (items-Fills py f sub_type n (λ os c. rw e c) r h) g
      with_type (class_type sub_type size) e r =
          add_steps-Sound _ _ _ p fs f (object-Fills py f sub_type size e r h) g
