-- ===== src/Docs/Text/Wrapping.antt =====
-- wrap_words keeps the words of its text, and its lines within the width.

use reflect_pytest.Prelude.{
  ℕ, ◌+◌, ◌≡◌, ◌≢◌, refl, sym, ◌∙◌, ap, subst, leb, ◌==◌, true, false, if◌then◌else◌, List, [], ◌∷◌,
  ◌++◌, length, arith, Bool-cases, inl, inr, All, All-append,
}
use mathlib.Core.List.{append-nil, append_assoc}
use reflect_pytest.Docs.Text.{Bytes, Wrap, is_blank, place_word, flush_word, wrap_loop, wrap_words}

-- A word in front of others, unless it is empty.
abbrev pub with_word : Bytes → List Bytes → List Bytes
with_word [] ws = ws
with_word (c ∷ w) ws = (c ∷ w) ∷ ws

-- The words of a text behind the word so far.
unfoldable pub words_from : Bytes → Bytes → List Bytes
words_from w [] = with_word w []
words_from w (c ∷ s) =
    let next = with_word w (words_from [] s) in
    let more = words_from (w ++ c ∷ []) s in if is_blank c then next else more

abbrev pub words : Bytes → List Bytes
words = words_from []

-- A text without blanks.
abbrev pub Solid : Bytes → Type 0
Solid = All (λ c. is_blank c ≡ false)

words_from-Solid : (w v : Bytes) → Solid v → words_from w v ≡ with_word (w ++ v) []
unfolding words_from
words_from-Solid w [] h = rw append-nil
words_from-Solid w (c ∷ v) (h, hs) =
    rw h
      (words_from-Solid (w ++ c ∷ []) v hs ∙ ap (λ t. with_word t []) (append_assoc w (c ∷ []) v))

with_word-append : (w : Bytes) (us vs : List Bytes) → with_word w us ++ vs ≡ with_word w (us ++ vs)
with_word-append [] us vs = refl
with_word-append (c ∷ w) us vs = refl

words_from-append :
    (w s t : Bytes) (b : ℕ)
    → is_blank b ≡ true
    → words_from w (s ++ (b ∷ t)) ≡ words_from w s ++ words t
unfolding words_from
words_from-append w [] t b h = rw h (sym (with_word-append w [] (words t)))
words_from-append w (c ∷ s) t b h = elim (Bool-cases (is_blank c)) [
  | inl blank ↦ rw blank (rw (words_from-append [] s t b h) (sym (with_word-append w _ _)))
  | inr solid ↦ rw solid (words_from-append (w ++ c ∷ []) s t b h)
]

-- The words of `out` are those of `seen`, and the word so far has no blank.
record Holds (seen : List Bytes) (p : Wrap) : Type 0 where
  placed : words p.out ≡ seen
  solid : Solid p.word
  started : p.col ≡ 0 → p.out ≡ []

no_length : (w : Bytes) → length w ≡ 0 → w ≡ []
no_length [] h = refl
no_length (c ∷ w) h = absurd (omega arith)

with_word_long : (w : Bytes) → length w ≢ 0 → with_word w [] ≡ w ∷ []
with_word_long [] long = absurd (long refl)
with_word_long (c ∷ w) long = refl

one_word : (w : Bytes) → length w ≢ 0 → Solid w → words w ≡ w ∷ []
one_word [] long h = absurd (long refl)
one_word (c ∷ w) long h = words_from-Solid [] (c ∷ w) h

next_word :
    (b : ℕ) (out w : Bytes)
    → is_blank b ≡ true
    → length w ≢ 0
    → Solid w
    → words (out ++ (b ∷ w)) ≡ words out ++ (w ∷ [])
next_word b out w blank long h =
    words_from-append [] out w b blank ∙ ap (λ t. words out ++ t) (one_word w long h)

place_word-Holds :
    (width : ℕ) (seen : List Bytes) (p : Wrap)
    → length p.word ≢ 0
    → Holds seen p
    → Holds (seen ++ (p.word ∷ [])) (place_word width p)
unfolding place_word words_from
place_word-Holds width seen p long h = elim (Bool-cases (p.col == 0)) [
  | inl start ↦
      let blank = h.started (ground arith) in
      let none_seen : [] ≡ seen = rw blank at h.placed in
      rw start (record {
        placed = rw (blank, ← none_seen) (one_word p.word long h.solid);
        solid = tt;
        started = λ z. absurd (long z);
      })
  | inr on ↦ elim (Bool-cases (leb (p.col + 1 + length p.word) width)) [
    | inl fits ↦
        rw (on, fits)
          (record {
            placed = rw (← h.placed) (next_word b' ' p.out p.word refl long h.solid);
            solid = tt;
            started = λ z. absurd (omega arith);
          })
    | inr over ↦
        rw (on, over)
          (record {
            placed = rw (← h.placed) (next_word b'\n' p.out p.word refl long h.solid);
            solid = tt;
            started = λ z. absurd (long z);
          })
  ]
]

flush_word-Holds :
    (width : ℕ) (seen : List Bytes) (p : Wrap)
    → Holds seen p
    → Holds (seen ++ with_word p.word []) (flush_word width p) × ((flush_word width p).word ≡ [])
unfolding flush_word place_word
flush_word-Holds width seen p h = elim (Bool-cases (length p.word == 0)) [
  | inl none_left ↦
      let blank = no_length p.word (ground arith) in
      let kept = sym (append-nil seen) ∙ ap (λ w. seen ++ with_word w []) (sym blank) in
      rw none_left (subst (λ l. Holds l p) kept h, blank)
  | inr some_left ↦
      let long : length p.word ≢ 0 = λ z. ground arith in
      rw some_left (
        subst (λ l. Holds (seen ++ l) (place_word width p)) (sym (with_word_long p.word long))
            (place_word-Holds width seen p long h),
        ground arith,
      )
]

words_from-blank :
    (w s : Bytes) (c : ℕ) → is_blank c ≡ true → words_from w (c ∷ s) ≡ with_word w (words s)
unfolding words_from
words_from-blank w s c blank = rw blank

words_from-more :
    (w s : Bytes) (c : ℕ) → is_blank c ≡ false → words_from w (c ∷ s) ≡ words_from (w ++ c ∷ []) s
unfolding words_from
words_from-more w s c solid = rw solid

words_end :
    (p q : Wrap) (seen : List Bytes)
    → words q.out ≡ seen ++ with_word p.word []
    → words q.out ≡ seen ++ words_from p.word []
unfolding words_from
words_end p q seen e = e

wrap_loop-Holds :
    (width : ℕ) (s : Bytes) (seen : List Bytes) (p : Wrap)
    → Holds seen p
    → words (wrap_loop width s p).out ≡ seen ++ words_from p.word s
unfolding wrap_loop
wrap_loop-Holds width [] seen p h =
    words_end p (flush_word width p) seen (flush_word-Holds width seen p h).0.placed
wrap_loop-Holds width (c ∷ s) seen p h =
    let more : Wrap = record p { word = p.word ++ c ∷ [] } in
    elim (Bool-cases (is_blank c)) [
      | inl blank ↦
          let (held, clear) = flush_word-Holds width seen p h in
          let step : (if is_blank c then flush_word width p else more) ≡ flush_word width p =
            rw blank in
          ap (λ q. words (wrap_loop width s q).out) step
          ∙ wrap_loop-Holds width s _ (flush_word width p) held
          ∙ ap (λ w. (seen ++ with_word p.word []) ++ words_from w s) clear
          ∙ append_assoc seen (with_word p.word []) (words s)
          ∙ ap (λ l. seen ++ l) (with_word-append p.word [] (words s))
          ∙ ap (λ l. seen ++ l) (sym (words_from-blank p.word s c blank))
      | inr solid ↦
          let step : (if is_blank c then flush_word width p else more) ≡ more = rw solid in
          ap (λ q. words (wrap_loop width s q).out) step
          ∙ wrap_loop-Holds width s seen more (record {
            placed = h.placed;
            solid = All-append _ p.word (c ∷ []) h.solid (solid, tt);
            started = h.started;
          })
          ∙ ap (λ l. seen ++ l) (sym (words_from-more p.word s c solid))
    ]

-- Wrapping a text keeps its words, in their order.
pub words-wrap_words : (s : Bytes) (width : ℕ) → words (wrap_words s width) ≡ words s
unfolding wrap_words words_from
words-wrap_words s width =
    wrap_loop-Holds width s [] _ (record { placed = refl; solid = tt; started = λ z. refl })
