-- ===== src/Docs/Flow/Statements.antt =====
-- The statements of the diagram's file, read back by a reader of DOT edges.
use reflect_pytest.Prelude.{
  ℕ, zero, suc, ◌≡◌, refl, ◌∙◌, ap, true, false, if◌then◌else◌, Option, none, some, List, [], ◌∷◌,
  ◌++◌, length, map, All, chars,
}
use mathlib.Core.List.{append_assoc}
use reflect_pytest.Docs.Text.{Bytes, dot_escape_label}
use reflect_pytest.Docs.Text.Escape.{strip, read_quoted, drop_returns, read_quoted-dot_escape_label}
use reflect_pytest.Docs.Text.Names.{is_word}
use reflect_pytest.Docs.Flow.{Arrow, Names, EdgeMap, build_label, emit_edge, emit_edges}

-- The longest identifier at the head of a text, and what follows it.
unfoldable pub read_word : Bytes → Bytes × Bytes
read_word [] = ([], [])
read_word (c ∷ s) =
    let (word, rest) = read_word s in if is_word c then (c ∷ word, rest) else ([], c ∷ s)

abbrev pub and_then {ℓ κ} : {A : Type ℓ} {B : Type κ} → Option A → (A → Option B) → Option B
and_then none f = none
and_then (some a) f = f a

-- An edge between two identifiers with a label, and what follows it.
unfoldable pub read_edge : Bytes → Option ((Arrow × Bytes) × Bytes)
unfolding strip read_word read_quoted
read_edge s = and_then (strip (chars "  ") s) λ s.
    let (from, s) = read_word s in
    and_then (strip (chars " -> ") s) λ s.
      let (to, s) = read_word s in
      and_then (strip (chars " [label=\"") s) λ s. and_then (read_quoted false s) λ (label, s).
        and_then (strip (chars ", style=dashed];\n") s) λ s. some (((from, to), label), s)

unfoldable pub read_edges : ℕ → Bytes → Option (List (Arrow × Bytes) × Bytes)
unfolding read_edge
read_edges zero s = some ([], s)
read_edges (suc n) s =
    and_then (read_edge s)
      λ (edge, s). and_then (read_edges n s) λ (edges, s). some (edge ∷ edges, s)

abbrev pub IsWord : Bytes → Type 0
IsWord = All (λ c. is_word c ≡ true)

read_word_lem :
    (w : Bytes) (c : ℕ) (s : Bytes)
    → IsWord w
    → is_word c ≡ false
    → read_word (w ++ c ∷ s) ≡ (w, c ∷ s)
unfolding read_word
read_word_lem [] c s words other = rw other refl
read_word_lem (d ∷ w) c s (word, words) other = rw (word, read_word_lem w c s words other) refl

-- The label of an edge, as DOT takes it.
abbrev pub label_of : Names → Bytes
label_of ns = drop_returns (build_label 0 ns)

read_edge-emit_edge :
    (from to : Bytes) (ns : Names) (s : Bytes)
    → IsWord from
    → IsWord to
    → read_edge (emit_edge ((from, to), ns) ++ s) ≡ some (((from, to), label_of ns), s)
unfolding read_edge emit_edge strip
read_edge-emit_edge from to ns s f t =
    let label = dot_escape_label (build_label 0 ns) in
    let after_label = chars "\", style=dashed];\n" in
    let after_to = chars " [label=\"" ++ (label ++ after_label) in
    let after_from = chars " -> " ++ (to ++ after_to) in
    rw
      (
        append_assoc from after_from s,
        read_word_lem from b' ' _ f refl,
        append_assoc to after_to s,
        read_word_lem to b' ' _ t refl,
        append_assoc label after_label s,
        read_quoted-dot_escape_label (build_label 0 ns) _,
      )
      refl

-- Every arrow of the edges has identifiers at its ends.
abbrev pub IsReadable : EdgeMap → Type 0
IsReadable = All (λ e. IsWord e.0.0 × IsWord e.0.1)

abbrev put_first :
    Arrow × Bytes → List (Arrow × Bytes) × Bytes → Option (List (Arrow × Bytes) × Bytes)
put_first edge (edges, s) = some (edge ∷ edges, s)

read_edges-step :
    (n : ℕ) (s rest : Bytes) (edge : Arrow × Bytes)
    → read_edge s ≡ some (edge, rest)
    → read_edges (suc n) s ≡ and_then (read_edges n rest) (put_first edge)
unfolding read_edges
read_edges-step n s rest edge h = rw h refl

emit_edges-cons :
    (e : Arrow × Names) (edges : EdgeMap) (s : Bytes)
    → emit_edges (e ∷ edges) ++ s ≡ emit_edge e ++ (emit_edges edges ++ s)
unfolding emit_edges
emit_edges-cons e edges s = append_assoc (emit_edge e) (emit_edges edges) s

pub read_edges-emit_edges :
    (edges : EdgeMap) (s : Bytes)
    → IsReadable edges
    → read_edges (length edges) (emit_edges edges ++ s)
      ≡ some (map (λ e. (e.0, label_of e.1)) edges, s)
unfolding read_edges emit_edges
read_edges-emit_edges [] s h = refl
read_edges-emit_edges (((from, to), ns) ∷ edges) s ((f, t), h) =
    ap (read_edges (suc (length edges))) (emit_edges-cons ((from, to), ns) edges s)
    ∙ read_edges-step (length edges) (emit_edge ((from, to), ns) ++ (emit_edges edges ++ s))
        (emit_edges edges ++ s) _ (read_edge-emit_edge from to ns (emit_edges edges ++ s) f t)
    ∙ ap (λ o. and_then o (put_first ((from, to), label_of ns))) (read_edges-emit_edges edges s h)
