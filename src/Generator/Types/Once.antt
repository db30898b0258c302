-- ===== src/Generator/Types/Once.antt =====
-- The generation of all classes, each once and after those that it uses.
use reflect_pytest.Prelude.{
  ℕ, ◌≡◌, refl, inl, inr, true, List, [], ◌∷◌, ◌++◌, All, All-append, All-map, has_name,
  text_eq_refl, arith, Bool-cases,
}
use reflect_pytest.Docs.Text.{Bytes}
use reflect_pytest.Generator.Types.{
  CxxType, fundamental, enumeration, c_array, std_array, class_type, Members, no_members, member,
  remove_all_extents, no_output, Output, enter, print_class, element_ref, type_ref, refs,
  generate_nested, generate_element, generate_members, generate_all, generate_enums,
}
use reflect_pytest.Generator.Types.Order

module _ (array_text : CxxType → ℕ → Bytes) (declared : Bytes → ℕ) (enums : List Bytes) where
  abbrev Result : ℕ → Output → Output → List Bytes → Type 0
  unfolding Order.printed
  Result r out out' ms =
      Order.Steps array_text declared enums r out out'
      × All (λ m. Order.printed m out'.classes ≡ true) ms

  abbrev Start : ℕ → Output → Type 0
  Start r out = Order.Good array_text declared enums out × Order.Inv array_text declared enums r out

  print_class_lem :
      (r : ℕ) (name : Bytes) (ms : List Bytes) (out inner : Output)
      → Order.IsBefore array_text declared enums r name
      → Start r out
      → (Start (declared name) (enter name out) → Result (declared name) (enter name out) inner ms)
      → Result r out (print_class name ms inner out) (name ∷ [])
  unfolding print_class Order.printed
  print_class_lem r name ms out inner less (g, i) below =
      elim (Bool-cases (has_name name out.visited)) [
        | inl seen ↦
            rw seen (Order.Steps-none array_text declared enums r out g, (i name seen less.0, tt))
        | inr unseen ↦
            let (s, used) = below (
              Order.enter-Good array_text declared enums name out g,
              Order.enter-Inv array_text declared enums r name out less.0 i,
            ) in
            rw unseen (
              Order.class_Steps array_text declared enums r name ms out inner less unseen g s used,
              (rw (text_eq_refl name) refl, tt),
            )
      ]

  nothing : (r : ℕ) (out : Output) → Start r out → Result r out out []
  unfolding Result
  nothing r out (g, i) = (Order.Steps-none array_text declared enums r out g, tt)

  one_class :
      (r : ℕ) (s : Bytes) (ms : Members) (out : Output)
      → Order.IsBefore array_text declared enums r
          (Order.name_of array_text declared enums (class_type s ms))
      → Start r out
      → ((r : ℕ) (out : Output)
          → Order.MembersFit array_text declared enums r ms
          → Start r out
          → Result r out (generate_members array_text ms out) (refs array_text ms))
      → Order.MembersFit array_text declared enums
          (declared (Order.name_of array_text declared enums (class_type s ms)))
          ms
      → Result r out
          (generate_nested array_text (class_type s ms) out)
          (Order.name_of array_text declared enums (class_type s ms) ∷ [])
  unfolding generate_nested
  one_class r s ms out less start inner fit = print_class_lem r _ _ out _ less start (inner _ _ fit)

  mutual
    unfolding generate_nested refs Order.Fits Result

    members_lem :
        (ms : Members) (r : ℕ) (out : Output)
        → Order.MembersFit array_text declared enums r ms
        → Start r out
        → Result r out (generate_members array_text ms out) (refs array_text ms)
    members_lem no_members r out fit start = nothing r out start
    members_lem (member t ms) r out (fit, fits) start =
        let (first, used) = nested_lem t r out fit start in
        let (rest, more) =
          members_lem ms r (generate_nested array_text t out) fits
            (first.good, Order.Inv-Steps array_text declared enums r out _ first start.1) in
        (
          Order.Steps-then array_text declared enums r out _ _ first rest,
          All-append _ (type_ref array_text t) (refs array_text ms)
              (All-map _ _ (type_ref array_text t) rest.grows used) more,
        )

    nested_lem :
        (t : CxxType) (r : ℕ) (out : Output)
        → Order.Fits array_text declared enums r t
        → Start r out
        → Result r out (generate_nested array_text t out) (type_ref array_text t)
    nested_lem (fundamental f) r out fit start = nothing r out start
    nested_lem (enumeration s id) r out fit start = (
      Order.Steps-none array_text declared enums r out start.0,
      (start.0.enums_printed id fit, tt),
    )
    nested_lem (class_type s ms) r out (less, fit) start =
        one_class r s ms out less start (members_lem ms) fit
    nested_lem (std_array t n) r out fit start = element_lem t r out fit start
    nested_lem (c_array t n) r out fit start = base_lem t r out fit start

    base_lem :
        (t : CxxType) (r : ℕ) (out : Output)
        → Order.BaseFits array_text declared enums r t
        → Start r out
        → Result r out
            (generate_nested array_text t out)
            (element_ref array_text (remove_all_extents t))
    base_lem (c_array t n) r out fit start = base_lem t r out fit start
    base_lem (class_type s ms) r out (less, fit) start =
        one_class r s ms out less start (members_lem ms) fit
    base_lem (fundamental f) r out fit start = rw fit (nothing r out start)
    base_lem (enumeration s id) r out fit start = absurd (ground arith)
    base_lem (std_array t n) r out fit start = absurd (ground arith)

    element_lem :
        (t : CxxType) (r : ℕ) (out : Output)
        → Order.ElementFits array_text declared enums r t
        → Start r out
        → Result r out (generate_element array_text t out) (element_ref array_text t)
    element_lem (class_type s ms) r out (less, fit) start =
        one_class r s ms out less start (members_lem ms) fit
    element_lem (fundamental f) r out fit start = rw fit (nothing r out start)
    element_lem (enumeration s id) r out fit start = absurd (ground arith)
    element_lem (std_array t n) r out fit start = absurd (ground arith)
    element_lem (c_array t n) r out fit start = absurd (ground arith)

  -- What the payloads themselves are called.
  unfoldable pub all_refs : List CxxType → List Bytes
  all_refs [] = []
  all_refs (t ∷ ts) = type_ref array_text t ++ all_refs ts

  all_lem :
      (ts : List CxxType) (r : ℕ) (out : Output)
      → All (Order.Fits array_text declared enums r) ts
      → Start r out
      → Result r out (generate_all array_text ts out) (all_refs ts)
  unfolding generate_all all_refs Result
  all_lem [] r out fit start = nothing r out start
  all_lem (t ∷ ts) r out (fit, fits) start =
      let (first, used) = nested_lem t r out fit start in
      let (rest, more) =
        all_lem ts r (generate_nested array_text t out) fits
          (first.good, Order.Inv-Steps array_text declared enums r out _ first start.1) in
      (
        Order.Steps-then array_text declared enums r out _ _ first rest,
        All-append _ (type_ref array_text t) (all_refs ts)
            (All-map _ _ (type_ref array_text t) rest.grows used) more,
      )

  enums-Good :
      Order.Distinct enums → Order.Good array_text declared enums (generate_enums enums no_output)
  unfolding Order.printed Order.Ordered
  enums-Good d = record {
    ordered = Order.Ordered-enums enums no_output tt d (λ v h. refl);
    sound = λ v h. (let p = Order.printed-enums v enums no_output in inr (ground arith));
    enums_printed = λ v h. (let p = Order.printed-enums v enums no_output in ground arith);
  }

  -- The generated module has each class once, enumerations included, after every class that its annotations and its
  -- statements refer to, and it has the classes of all payloads. Assumed: the enumerations of the members are among those
  -- that are generated first, which are distinct; each class was declared after the classes
  -- of its members, as C++ wants it, where a class is known by its Python name, which no enumeration has; and an array has bytes or classes
  -- as elements, or is an array of arrays of those in the style of C.
  pub generate_all_once :
      (ts : List CxxType) (r : ℕ)
      → Order.Distinct enums
      → All (Order.Fits array_text declared enums r) ts
      → let classes = (generate_all array_text ts (generate_enums enums no_output)).classes in
        Order.Ordered classes × All (λ m. Order.printed m classes ≡ true) (all_refs ts)
  unfolding Result Order.printed Order.Ordered
  generate_all_once ts r distinct fit =
      let out = generate_enums enums no_output in
      let none_yet = Order.visited-enums enums no_output in
      let (steps, done) = all_lem ts r out fit (
        enums-Good distinct,
        λ v h less. (let never : has_name v [] ≡ true = rw none_yet at h in absurd (ground arith)),
      ) in
      (steps.good.ordered, done)
