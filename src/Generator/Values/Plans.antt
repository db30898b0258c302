-- ===== src/Generator/Values/Plans.antt =====
-- generator/python_code_generator.h: the statements that generate_struct collects, on the attributes
-- that they have used so far.
use Prim.Native.String.{String}
use mathlib.Core.List.{append_assoc, append-nil, map-append}
use reflect_pytest.Prelude.{
  ℕ, ◌+◌, ◌≡◌, refl, sym, ◌∙◌, ap, Bool-cases, inl, inr, Option, none, some, List, [], ◌∷◌, ◌++◌,
  length, length-append, ltb, ◌-◌, subst, chars, All, All-append,
}
use reflect_pytest.Docs.Text.{Bytes}
use reflect_pytest.Generator.{
  FormatItem, PackStep, UnpackStep, Plan, is_empty, flush_format, pad_to, add_value, add_steps,
}
use reflect_pytest.Generator.Python.{advance}
use reflect_pytest.Generator.Pieces.{is_empty_lem}
use reflect_pytest.Generator.Values.{
  Python, Attribute, Locals, run_pack_step, run_pack, run_unpack_step, run_unpack, ◌>>=◌,
}
use reflect_pytest.Generator.Values.Formats.{Fitting, FitsNamed}
use reflect_pytest.Generator.Values.Aligned.{Aligned-append, Aligned-pad}
use reflect_pytest.Generator.Values.Steps.{IsFree, HasTarget, named, Pairs, formatted-Pairs}

pub >>=-eq-some :
    {A B : Type 0} (m : Option A) (f : A → Option B) {b : B}
    → (m >>= f) ≡ some b
    → (a : A) × (m ≡ some a) × (f a ≡ some b)
>>=-eq-some none f h = cc h
>>=-eq-some (some a) f h = (a, refl, h)

pub All-split :
    (us : List UnpackStep) (u : UnpackStep)
    → All HasTarget (us ++ u ∷ [])
    → All HasTarget us × HasTarget u
All-split [] u (h, _) = (tt, h)
All-split (t ∷ us) u (h, hs) = let (a, b) = All-split us u hs in ((h, a), b)

module _ (py : Python) where
  pub run_unpack_snoc :
      (us : List UnpackStep) (u : UnpackStep) (data_bytes : Bytes) (o p : ℕ) (l m n : Locals py)
      → run_unpack py us data_bytes o l ≡ some (p, m)
      → run_unpack_step py u data_bytes p m ≡ some n
      → run_unpack py (us ++ u ∷ []) data_bytes o l ≡ some (p + advance py.wire_size u, n)
  unfolding run_unpack
  run_unpack_snoc [] u data_bytes o p l m n h k =
      let (left, right) : (o ≡ p) × (l ≡ m) = (cc h, cc h) in rw (left, right, k) refl
  run_unpack_snoc (t ∷ us) u data_bytes o p l m n h k =
      let (after, h_head, h_tail) =
        >>=-eq-some (run_unpack_step py t data_bytes o l)
          (run_unpack py us data_bytes (o + advance py.wire_size t)) h in
      rw (h_head, run_unpack_snoc us u data_bytes (o + advance py.wire_size t) p after m n h_tail k)
        refl

  module _ (self : Bytes → Attribute py) where
    run_pack_snoc :
        (ss : List PackStep) (s : PackStep) (a b : Bytes)
        → run_pack py self ss ≡ some a
        → run_pack_step py self s ≡ some b
        → run_pack py self (ss ++ s ∷ []) ≡ some (a ++ b)
    unfolding run_pack
    run_pack_snoc [] s a b h k = rw k (cc (h, append-nil b))
    run_pack_snoc (t ∷ ss) s a b h k =
        let (head, h_head, h_tail) =
          >>=-eq-some (run_pack_step py self t) (λ x. run_pack py self ss >>= λ y. some (x ++ y))
            h in
        let (tail, h_rest, same) =
          >>=-eq-some (run_pack py self ss) (λ y. some (head ++ y)) h_tail in
        rw (h_head, run_pack_snoc ss s tail b h_rest k, sym (append_assoc head tail b))
          (ap (λ o. o >>= λ x. some (x ++ b)) same)

    -- The statements so far, run on the attributes whose names they have used.
    pub record Ran (ps : List PackStep) (us : List UnpackStep) (names : List String) : Type 0 where
      pub bytes : Bytes
      pub packed : run_pack py self ps ≡ some bytes
      pub unpacked :
          All HasTarget us
          → (rest : Bytes)
          → run_unpack py us (bytes ++ rest) 0 [] ≡ some (length bytes, named py self names)

    append-Ran :
        (ps : List PackStep) (us : List UnpackStep) (p : PackStep) (u : UnpackStep)
        (done names : List String)
        → Ran ps us done
        → Pairs py self p u names
        → Ran (ps ++ p ∷ []) (us ++ u ∷ []) (done ++ names)
    append-Ran ps us p u done names r q = record {
      bytes = r.bytes ++ q.bytes;
      packed = run_pack_snoc ps p r.bytes q.bytes r.packed q.packed;
      unpacked = λ target rest.
          let (before, last) = All-split us u target in
          let all_bytes = r.bytes ++ (q.bytes ++ rest) in
          let same : (r.bytes ++ q.bytes) ++ rest ≡ all_bytes = append_assoc r.bytes q.bytes rest in
          rw
            (
              same,
              run_unpack_snoc us u all_bytes 0 (length r.bytes) [] _ _
                  (r.unpacked before (q.bytes ++ rest))
                  (q.unpacked last r.bytes rest (named py self done)),
              q.moved,
              length-append r.bytes q.bytes,
              map-append {B = Bytes × Attribute py} (λ n. (chars n, self (chars n))) done names,
            )
            refl;
    }

    -- The variables of generate_struct after the fields with these names.
    pub record Good (p : Plan) (names : List String) : Type 0 where
      pub done : List String
      pub all_names : names ≡ done ++ p.pack_args
      pub same_names : p.pack_args ≡ p.unpack_args
      pub fitting : Fitting py self p.pack_fmt p.pack_args
      pub free : All IsFree p.pack_args
      pub ran : Ran p.pack_instructions p.unpack_instructions done

    pub record Flushed (p : Plan) (names : List String) : Type 0 where
      pub ran : Ran p.pack_instructions p.unpack_instructions names
      pub no_items : p.pack_fmt ≡ []
      no_pack_args : p.pack_args ≡ []
      no_unpack_args : p.unpack_args ≡ []

    no_arguments : (names : List String) → Fitting py self [] names → names ≡ []
    no_arguments [] f = refl
    no_arguments (n ∷ names) f = elim f [ ]

    pub flush_format-Flushed :
        (p : Plan) (names : List String) → Good p names → Flushed (flush_format p) names
    unfolding flush_format
    flush_format-Flushed p names g = elim (Bool-cases (is_empty p.pack_fmt)) [
      | inl none_left ↦
          (let no_items = is_empty_lem p.pack_fmt none_left in
            let no_args =
              no_arguments p.pack_args
                (subst (λ fmt. Fitting py self fmt p.pack_args) no_items g.fitting) in
            rw none_left (record {
              ran = rw (g.all_names, no_args, append-nil g.done) g.ran;
              no_items = no_items;
              no_pack_args = no_args;
              no_unpack_args = sym g.same_names ∙ no_args;
            }))
      | inr some_left ↦ rw some_left (record {
        ran =
            rw (g.all_names, sym g.same_names)
              (append-Ran p.pack_instructions p.unpack_instructions _ _ g.done p.pack_args g.ran
                (formatted-Pairs py self p.pack_fmt p.pack_args g.fitting g.free));
        no_items = refl;
        no_pack_args = refl;
        no_unpack_args = refl;
      })
    ]

    pub pad_to-Good :
        (o : ℕ) (p : Plan) (names : List String) → Good p names → Good (pad_to o p) names
    unfolding pad_to
    pad_to-Good o p names g = elim (Bool-cases (ltb p.current_offset o)) [
      | inl behind ↦ rw behind (record {
        done = g.done;
        all_names = g.all_names;
        same_names = g.same_names;
        fitting =
            Aligned-pad (FitsNamed py self) p.pack_fmt p.pack_args (o - p.current_offset) g.fitting;
        free = g.free;
        ran = g.ran;
      })
      | inr reached ↦ rw reached g
    ]

    pub add_value-Good :
        (name : String) (i : FormatItem) (n : ℕ) (p : Plan) (names : List String)
        → Fitting py self (i ∷ []) (name ∷ [])
        → IsFree name
        → Good p names
        → Good (add_value name i n p) (names ++ name ∷ [])
    unfolding add_value
    add_value-Good name i n p names f h g = record {
      done = g.done;
      all_names =
          ap (λ t. t ++ name ∷ []) g.all_names ∙ append_assoc g.done p.pack_args (name ∷ []);
      same_names = ap (λ t. t ++ name ∷ []) g.same_names;
      fitting =
          Aligned-append (FitsNamed py self) p.pack_fmt (i ∷ []) p.pack_args (name ∷ []) g.fitting
            f;
      free = All-append IsFree p.pack_args (name ∷ []) g.free (h, tt);
      ran = g.ran;
    }

    pub add_steps-Good :
        (k : PackStep) (u : UnpackStep) (n : ℕ) (p : Plan) (names : List String) (name : String)
        → Pairs py self k u (name ∷ [])
        → Good p names
        → Good (add_steps k u n p) (names ++ name ∷ [])
    unfolding add_steps
    add_steps-Good k u n p names name q g =
        let f = flush_format-Flushed p names g in
        record {
          done = names ++ name ∷ [];
          all_names = rw f.no_pack_args (sym (append-nil (names ++ name ∷ [])));
          same_names = f.no_pack_args ∙ sym f.no_unpack_args;
          fitting = rw (f.no_pack_args, f.no_items) tt;
          free = rw f.no_pack_args tt;
          ran =
              append-Ran (flush_format p).pack_instructions (flush_format p).unpack_instructions k u
                names (name ∷ []) f.ran q;
        }
