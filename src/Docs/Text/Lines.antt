-- ===== src/Docs/Text/Lines.antt =====
-- The lines that wrap_words makes.
use reflect_pytest.Prelude.{
  ℕ, ◌+◌, ◌≤◌, ◌≡◌, ◌≢◌, refl, sym, ◌∙◌, ap, leb, ◌==◌, if◌then◌else◌, List, [], ◌∷◌, ◌++◌, length,
  length-append, arith, Bool-cases, inl, inr, ◌⊎◌, All, All-append,
}
use mathlib.Core.List.{append-nil, append_assoc}
use reflect_pytest.Docs.Text.{Bytes, Wrap, is_blank, place_word, flush_word, wrap_loop, wrap_words}
use reflect_pytest.Docs.Text.Wrapping.{Solid}

-- The lines of a text behind the line so far.
unfoldable pub lines_from : Bytes → Bytes → List Bytes
lines_from l [] = l ∷ []
lines_from l (c ∷ s) =
    let next = l ∷ lines_from [] s in
    let more = lines_from (l ++ c ∷ []) s in if c == b'\n' then next else more

abbrev pub lines : Bytes → List Bytes
lines = lines_from []

-- All lines but the last one, and the last one.
early : Bytes → Bytes → List Bytes
early l [] = []
early l (c ∷ s) =
    let next = l ∷ early [] s in
    let more = early (l ++ c ∷ []) s in if c == b'\n' then next else more

last_line : Bytes → Bytes → Bytes
last_line l [] = l
last_line l (c ∷ s) =
    let next = last_line [] s in
    let more = last_line (l ++ c ∷ []) s in if c == b'\n' then next else more

lines_from-early : (l s : Bytes) → lines_from l s ≡ early l s ++ (last_line l s ∷ [])
unfolding lines_from early last_line
lines_from-early l [] = refl
lines_from-early l (c ∷ s) = ground (arith, lines_from-early [] s, lines_from-early (l ++ c ∷ []) s)

-- A text of one line.
abbrev Flat : Bytes → Type 0
Flat = All (λ c. c ≢ b'\n')

Solid-Flat : (w : Bytes) → Solid w → Flat w
Solid-Flat [] h = tt
Solid-Flat (c ∷ w) (h, hs) = ((λ e. ground arith), Solid-Flat w hs)

last_line-Flat : (l t : Bytes) → Flat t → (last_line l t ≡ l ++ t) × (early l t ≡ [])
unfolding last_line early
last_line-Flat l [] h = (sym (append-nil l), refl)
last_line-Flat l (c ∷ t) (h, hs) =
    let (last, none_early) = last_line-Flat (l ++ c ∷ []) t hs in
    elim (Bool-cases (c == b'\n')) [
      | inl broken ↦ absurd (h (ground arith))
      | inr on ↦ rw on (last ∙ append_assoc l (c ∷ []) t, none_early)
    ]

last_line-append :
    (l s t : Bytes)
    → Flat t
    → (last_line l (s ++ t) ≡ last_line l s ++ t) × (early l (s ++ t) ≡ early l s)
unfolding last_line early
last_line-append l [] t h = last_line-Flat l t h
last_line-append l (c ∷ s) t h =
    let (last, same) = last_line-append [] s t h in
    let (last', same') = last_line-append (l ++ c ∷ []) s t h in
    elim (Bool-cases (c == b'\n')) [
      | inl broken ↦ rw broken (last, ap (λ ls. l ∷ ls) same)
      | inr on ↦ rw on (last', same')
    ]

last_line-break :
    (l s t : Bytes)
    → Flat t
    → (last_line l (s ++ (b'\n' ∷ t)) ≡ t)
      × (early l (s ++ (b'\n' ∷ t)) ≡ early l s ++ (last_line l s ∷ []))
unfolding last_line early
last_line-break l [] t h =
    let (last, none_early) = last_line-Flat [] t h in (last, ap (λ ls. l ∷ ls) none_early)
last_line-break l (c ∷ s) t h =
    let (last, same) = last_line-break [] s t h in
    let (last', same') = last_line-break (l ++ c ∷ []) s t h in
    elim (Bool-cases (c == b'\n')) [
      | inl broken ↦ rw broken (last, ap (λ ls. l ∷ ls) same)
      | inr on ↦ rw on (last', same')
    ]

-- A line within the width, or of one word.
abbrev pub FitsIn : ℕ → Bytes → Type 0
FitsIn width l = (length l ≤ width) ⊎ Solid l

record Wrapped (width : ℕ) (p : Wrap) : Type 0 where
  earlier : All (FitsIn width) (early [] p.out)
  latest : FitsIn width (last_line [] p.out)
  column : p.col ≡ length (last_line [] p.out)
  solid : Solid p.word
  started : p.col ≡ 0 → p.out ≡ []

place_word-Wrapped :
    (width : ℕ) (p : Wrap)
    → length p.word ≢ 0
    → Wrapped width p
    → Wrapped width (place_word width p)
unfolding place_word
place_word-Wrapped width p long h =
    let flat = Solid-Flat p.word h.solid in
    elim (Bool-cases (p.col == 0)) [
      | inl start ↦
          let blank = h.started (ground arith) in
          let (last, none_early) = last_line-Flat [] p.word flat in
          rw start (record {
            earlier = rw (blank, none_early) tt;
            latest = rw (blank, last) (inr h.solid);
            column = rw (blank, last) refl;
            solid = tt;
            started = λ z. absurd (long z);
          })
      | inr on ↦ elim (Bool-cases (leb (p.col + 1 + length p.word) width)) [
        | inl fits ↦
            let (last, same) =
              last_line-append [] p.out (b' ' ∷ p.word) ((λ e. ground arith), flat) in
            let total = length-append (last_line [] p.out) (b' ' ∷ p.word) in
            let column = h.column in
            rw (on, fits)
              (record {
                earlier = rw same h.earlier;
                latest = rw last (inl (ground arith));
                column = rw last (omega arith);
                solid = tt;
                started = λ z. absurd (omega arith);
              })
        | inr over ↦
            let (last, same) = last_line-break [] p.out p.word flat in
            rw (on, over)
              (record {
                earlier = rw same (All-append _ _ _ h.earlier (h.latest, tt));
                latest = rw last (inr h.solid);
                column = rw last refl;
                solid = tt;
                started = λ z. absurd (long z);
              })
      ]
    ]

flush_word-Wrapped : (width : ℕ) (p : Wrap) → Wrapped width p → Wrapped width (flush_word width p)
unfolding flush_word
flush_word-Wrapped width p h = elim (Bool-cases (length p.word == 0)) [
  | inl none_left ↦ rw none_left h
  | inr some_left ↦ rw some_left (place_word-Wrapped width p (λ z. ground arith) h)
]

wrap_loop-Wrapped :
    (width : ℕ) (s : Bytes) (p : Wrap) → Wrapped width p → Wrapped width (wrap_loop width s p)
unfolding wrap_loop
wrap_loop-Wrapped width [] p h = flush_word-Wrapped width p h
wrap_loop-Wrapped width (c ∷ s) p h = wrap_loop-Wrapped width s _ (elim (Bool-cases (is_blank c)) [
  | inl blank ↦ rw blank (flush_word-Wrapped width p h)
  | inr solid ↦ rw solid (record {
    earlier = h.earlier;
    latest = h.latest;
    column = h.column;
    solid = All-append _ p.word (c ∷ []) h.solid (solid, tt);
    started = h.started;
  })
])

empty_wrap-Wrapped : (width : ℕ) → Wrapped width (record { out = []; word = []; col = 0 })
unfolding early last_line
empty_wrap-Wrapped width = record {
  earlier = tt;
  latest = inr tt;
  column = refl;
  solid = tt;
  started = λ z. refl;
}

-- Every line of a wrapped text is within the width, or is one single word.
pub lines-wrap_words : (s : Bytes) (width : ℕ) → All (FitsIn width) (lines (wrap_words s width))
unfolding wrap_words
lines-wrap_words s width =
    let p : Wrap = wrap_loop width s (record { out = []; word = []; col = 0 }) in
    let h : Wrapped width p = wrap_loop-Wrapped width s _ (empty_wrap-Wrapped width) in
    rw (lines_from-early [] p.out) (All-append _ _ _ h.earlier (h.latest, tt))
