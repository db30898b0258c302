-- ===== src/Docs/Text/Names.antt =====
-- The identifiers and the first sentences of the diagram.
use reflect_pytest.Prelude.{
  ℕ, suc, ◌≡◌, ◌≢◌, refl, ap, ◌==◌, Bool, true, false, ◌||◌, none, some, [], ◌∷◌, ◌++◌, take, arith,
  Bool-cases, Option-cases, inl, inr, ◌⊎◌, All,
}
use reflect_pytest.Docs.Text.{
  Bytes, is_alnum, id_chars, needs_underscore, dot_id, find, first_sentence,
}

-- A letter, a digit or an underscore.
abbrev pub is_word : ℕ → Bool
is_word c = is_alnum c || c == b'_'

-- An identifier of DOT: words characters, at least one, and no digit first.
abbrev pub IsIdentifier : Bytes → Type 0
IsIdentifier s = (needs_underscore s ≡ false) × All (λ c. is_word c ≡ true) s

id_chars-All : (s : Bytes) → All (λ c. is_word c ≡ true) (id_chars s)
unfolding id_chars
id_chars-All [] = tt
id_chars-All (c ∷ s) = (ground arith, id_chars-All s)

id_chars_id : (s : Bytes) → All (λ c. is_word c ≡ true) s → id_chars s ≡ s
unfolding id_chars
id_chars_id [] h = refl
id_chars_id (c ∷ s) (h, hs) = ground (arith, id_chars_id s hs)

-- Whatever the name, dot_id makes an identifier of it, and a name that is an identifier stays as it
-- is.
pub dot_id-IsIdentifier : (s : Bytes) → IsIdentifier (dot_id s) × (IsIdentifier s → dot_id s ≡ s)
unfolding dot_id
dot_id-IsIdentifier s =
    let words = id_chars-All s in
    (
      elim (Bool-cases (needs_underscore (id_chars s))) [
        | inl bad ↦ rw bad (refl, (refl, words))
        | inr good ↦ rw good (good, words)
      ],
      λ (ok, h). rw (id_chars_id s h, ok),
    )

-- What stands before a first full stop, and behind it.
abbrev pub SplitsAt : ℕ → ℕ → Bytes → Type 0
SplitsAt ch i s =
    (before : Bytes) × (after : Bytes) × (s ≡ before ++ (ch ∷ after))
    × (take (suc i) s ≡ before ++ (ch ∷ []))
    × All (λ c. c ≢ ch) before

find-some : (ch i : ℕ) (s : Bytes) → find ch s ≡ some i → SplitsAt ch i s
unfolding find
find-some ch i [] e = cc
find-some ch i (c ∷ s) e = elim (Bool-cases (c == ch)) [
  | inl here ↦
      let first : i ≡ 0 = ground arith in
      let same : c ≡ ch = ground arith in ([], s, rw same, rw (first, same), tt)
  | inr on ↦ elim (Option-cases (find ch s)) [
    | inl nowhere ↦ ground arith
    | inr (j, at) ↦
        let next : i ≡ suc j = ground arith in
        let (before, after, split, taken, lacks) = find-some ch j s at in
        (
          c ∷ before,
          after,
          ap (λ t. c ∷ t) split,
          rw next (ap (λ t. c ∷ t) taken),
          ((λ same. ground arith), lacks),
        )
  ]
]

find-none : (ch : ℕ) (s : Bytes) → find ch s ≡ none → All (λ c. c ≢ ch) s
unfolding find
find-none ch [] e = tt
find-none ch (c ∷ s) e = elim (Bool-cases (c == ch)) [
  | inl here ↦ ground arith
  | inr on ↦ ((λ same. ground arith), find-none ch s (ground arith))
]

-- The first sentence is the text up to its first full stop, with it; or the whole of a text that has
-- none.
pub first_sentence_cases :
    (s : Bytes)
    → ((first_sentence s ≡ s) × All (λ c. c ≢ b'.') s)
      ⊎ ((before : Bytes) × (after : Bytes) × (s ≡ before ++ (b'.' ∷ after))
          × (first_sentence s ≡ before ++ (b'.' ∷ []))
          × All (λ c. c ≢ b'.') before)
unfolding first_sentence
first_sentence_cases s = elim (Option-cases (find b'.' s)) [
  | inl nowhere ↦ inl (rw (nowhere, first_sentence) refl, find-none b'.' s nowhere)
  | inr (i, at) ↦
      let (before, after, split, taken, lacks) = find-some b'.' i s at in
      inr (before, after, split, rw (at, first_sentence) taken, lacks)
]
