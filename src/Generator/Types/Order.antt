-- ===== src/Generator/Types/Order.antt =====
-- The order of the generated classes: a class is printed once, and after the classes that it uses.
use reflect_pytest.Prelude.{
  ℕ, ◌<◌, ◌≡◌, refl, ap, ◌⊎◌, inl, inr, Bool, true, false, ◌||◌, List, [], ◌∷◌, All, text_eq,
  has_name, text_eq→eq, text_eq_refl, subst, arith, Bool-cases,
}
use reflect_pytest.Docs.Text.{Bytes}
use reflect_pytest.Generator.Types.{
  CxxType, fundamental, enumeration, c_array, std_array, class_type, Members, no_members, member,
  get_python_type_name, is_byte_like, Output, enter, print_enum, generate_enums,
}

-- The class is printed already.
unfoldable pub printed : Bytes → List (Bytes × List Bytes) → Bool
printed n [] = false
printed n ((m, ms) ∷ classes) = text_eq n m || printed n classes

-- Each class is printed after the classes that it refers to, and but once. The latest comes first.
unfoldable pub Ordered : List (Bytes × List Bytes) → Type 0
unfolding printed
Ordered [] = Unit
Ordered ((n, ms) ∷ classes) =
    All (λ m. printed m classes ≡ true) ms × (printed n classes ≡ false) × Ordered classes

module _ (array_text : CxxType → ℕ → Bytes) (declared : Bytes → ℕ) (enums : List Bytes) where
  abbrev pub name_of : CxxType → Bytes
  unfolding get_python_type_name
  name_of = get_python_type_name array_text

  -- A class that was declared before place `r`, and has no enumeration's name.
  abbrev pub IsBefore : ℕ → Bytes → Type 0
  IsBefore r name = (declared name < r) × (has_name name enums ≡ false)

  -- The members are of fundamental types, enumerations that were generated, classes, and arrays of bytes or of classes,
  -- and the classes among them were declared before place `r`.
  unfoldable mutual
    unfolding get_python_type_name

    pub Fits : ℕ → CxxType → Type 0
    Fits r (fundamental f) = Unit
    Fits r (enumeration s id) = has_name id enums ≡ true
    Fits r (class_type s ms) =
        IsBefore r (name_of (class_type s ms))
        × MembersFit (declared (name_of (class_type s ms))) ms
    Fits r (std_array t n) = ElementFits r t
    Fits r (c_array t n) = BaseFits r t

    pub BaseFits : ℕ → CxxType → Type 0
    BaseFits r (c_array t n) = BaseFits r t
    BaseFits r (class_type s ms) =
        IsBefore r (name_of (class_type s ms))
        × MembersFit (declared (name_of (class_type s ms))) ms
    BaseFits r t = is_byte_like t ≡ true

    pub ElementFits : ℕ → CxxType → Type 0
    ElementFits r (class_type s ms) =
        IsBefore r (name_of (class_type s ms))
        × MembersFit (declared (name_of (class_type s ms))) ms
    ElementFits r t = is_byte_like t ≡ true

    pub MembersFit : ℕ → Members → Type 0
    MembersFit r no_members = Unit
    MembersFit r (member t ms) = Fits r t × MembersFit r ms

  -- What is visited and was declared before `r` is printed.
  abbrev pub Inv : ℕ → Output → Type 0
  Inv r out =
      (v : Bytes) → has_name v out.visited ≡ true → declared v < r → printed v out.classes ≡ true

  pub record Good (out : Output) : Type 0 where
    pub ordered : Ordered out.classes
    pub sound :
        (v : Bytes)
        → printed v out.classes ≡ true
        → (has_name v out.visited ≡ true) ⊎ (has_name v enums ≡ true)
    pub enums_printed : (v : Bytes) → has_name v enums ≡ true → printed v out.classes ≡ true

  -- What the generation of types that were declared before `r` does.
  pub record Steps (r : ℕ) (out out' : Output) : Type 0 where
    pub good : Good out'
    pub grows : (v : Bytes) → printed v out.classes ≡ true → printed v out'.classes ≡ true
    pub visits : (v : Bytes) → has_name v out.visited ≡ true → has_name v out'.visited ≡ true
    pub adds :
        (v : Bytes)
        → has_name v out'.visited ≡ true
        → (has_name v out.visited ≡ true) ⊎ ((printed v out'.classes ≡ true) × (declared v < r))
    pub prints :
        (v : Bytes)
        → printed v out'.classes ≡ true
        → (printed v out.classes ≡ true) ⊎ (declared v < r)

  pub Steps-none : (r : ℕ) (out : Output) → Good out → Steps r out out
  Steps-none r out g = record {
    good = g;
    grows = λ v h. h;
    visits = λ v h. h;
    adds = λ v h. inl h;
    prints = λ v h. inl h;
  }

  pub Steps-then : (r : ℕ) (a b c : Output) → Steps r a b → Steps r b c → Steps r a c
  Steps-then r a b c s t = record {
    good = t.good;
    grows = λ v h. t.grows v (s.grows v h);
    visits = λ v h. t.visits v (s.visits v h);
    adds = λ v h. elim (t.adds v h) [
      | inr new ↦ inr new
      | inl old ↦ elim (s.adds v old) [
        | inl older ↦ inl older
        | inr (done, less) ↦ inr (t.grows v done, less)
      ]
    ];
    prints = λ v h. elim (t.prints v h) [ inr less ↦ inr less | inl old ↦ s.prints v old ];
  }

  pub Inv-Steps : (r : ℕ) (a b : Output) → Steps r a b → Inv r a → Inv r b
  Inv-Steps r a b s i v h less = elim (s.adds v h) [
    | inl old ↦ s.grows v (i v old less)
    | inr (done, below) ↦ done
  ]

  pub enter-Good : (name : Bytes) (out : Output) → Good out → Good (enter name out)
  enter-Good name out g = record {
    ordered = g.ordered;
    sound = λ v h. (let old = g.sound v h in ground arith);
    enums_printed = g.enums_printed;
  }

  pub enter-Inv :
      (r : ℕ) (name : Bytes) (out : Output)
      → declared name < r
      → Inv r out
      → Inv (declared name) (enter name out)
  enter-Inv r name out less i v h below = elim (Bool-cases (text_eq v name)) [
    | inl same ↦ absurd (let e = ap declared (text_eq→eq v name same) in omega (arith, e, below))
    | inr other ↦ i v (ground arith) (omega arith)
  ]

  module _ (r : ℕ) (name : Bytes) (ms : List Bytes) (out inner : Output) (before : IsBefore r name)
      (unseen : has_name name out.visited ≡ false) (g : Good out)
      (s : Steps (declared name) (enter name out) inner)
      (used : All (λ m. printed m inner.classes ≡ true) ms) where
    abbrev after : Output
    after = record inner { classes = (name, ms) ∷ inner.classes }

    not_printed : printed name inner.classes ≡ false
    not_printed = elim (Bool-cases (printed name inner.classes)) [
      | inr not_yet ↦ not_yet
      | inl already ↦ elim (s.prints name already) [
        | inl old ↦ (let apart = before.1 in let seen = g.sound name old in absurd (ground arith))
        | inr below ↦ absurd (omega (arith, below))
      ]
    ]

    is_self : (v : Bytes) → text_eq v name ≡ true → (declared v < r)
    is_self v same = let e = ap declared (text_eq→eq v name same) in omega (arith, e, before.0)

    pub class_Steps : Steps r out after
    unfolding Ordered printed
    class_Steps = record {
      good = record {
        ordered = (used, not_printed, s.good.ordered);
        sound = λ v h. elim (Bool-cases (text_eq v name)) [
          | inl same ↦ inl (s.visits v (rw same refl))
          | inr other ↦ s.good.sound v (ground arith)
        ];
        enums_printed = λ v h. (let kept = s.good.enums_printed v h in ground arith);
      };
      grows = λ v h. (let kept = s.grows v h in ground arith);
      visits = λ v h. s.visits v (ground arith);
      adds = λ v h. elim (Bool-cases (text_eq v name)) [
        | inl same ↦ inr (rw same refl, is_self v same)
        | inr other ↦ elim (s.adds v h) [
          | inl old ↦ inl (ground arith)
          | inr (done, below) ↦ inr (rw (other, done) refl, omega (arith, below, before.0))
        ]
      ];
      prints = λ v h. elim (Bool-cases (text_eq v name)) [
        | inl same ↦ inr (is_self v same)
        | inr other ↦ elim (s.prints v (ground arith)) [
          | inl old ↦ inl old
          | inr below ↦ inr (omega (arith, below, before.0))
        ]
      ];
    }

-- The enumerations, each once.
abbrev pub Distinct : List Bytes → Type 0
Distinct [] = Unit
Distinct (n ∷ ns) = (has_name n ns ≡ false) × Distinct ns

pub printed-enums :
    (v : Bytes) (ids : List Bytes) (out : Output)
    → printed v (generate_enums ids out).classes ≡ (has_name v ids || printed v out.classes)
unfolding printed generate_enums
printed-enums v [] out = refl
printed-enums v (id ∷ ids) out = ground (arith, printed-enums v ids (print_enum id out))

pub Ordered-enums :
    (ids : List Bytes) (out : Output)
    → Ordered out.classes
    → Distinct ids
    → ((v : Bytes) → has_name v ids ≡ true → printed v out.classes ≡ false)
    → Ordered (generate_enums ids out).classes
unfolding printed generate_enums Ordered
Ordered-enums [] out o d new = o
Ordered-enums (id ∷ ids) out o (once, d) new =
    Ordered-enums ids (print_enum id out) (tt, new id (rw (text_eq_refl id) refl), o) d
      (λ v h. elim (Bool-cases (text_eq v id)) [
        | inl same ↦
            (let again : has_name id ids ≡ true =
                subst (λ u. has_name u ids ≡ true) (text_eq→eq v id same) h in
              absurd (ground arith))
        | inr other ↦ (let not_yet = new v (ground arith) in ground arith)
      ])

pub visited-enums :
    (ids : List Bytes) (out : Output) → (generate_enums ids out).visited ≡ out.visited
unfolding generate_enums
visited-enums [] out = refl
visited-enums (id ∷ ids) out = visited-enums ids (print_enum id out)
