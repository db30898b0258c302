-- ===== src/Generator/Values/Formats.antt =====
-- generator/python_code_generator.h: values that fit a format, and their bytes.
use Prim.Native.String.{String}
use mathlib.Core.List.{append_assoc}
use reflect_pytest.Prelude.{
  ℕ, zero, suc, ◌-◌, ◌≡◌, refl, sym, ap, true, leb, some, List, [], ◌∷◌, ◌++◌, length,
  length-append, take, drop, replicate, arith, chars,
}
use reflect_pytest.Docs.Text.{Bytes}
use reflect_pytest.Generator.{Letter, FormatItem, pad, raw, char}
use reflect_pytest.Generator.Python.{letter_size, calcsize}
use reflect_pytest.Generator.Values.Aligned.{Aligned}
use reflect_pytest.Generator.Values.{
  Python, number_value, bytes_value, object_value, list_value, Attribute, pack_items, unpack_values,
  unpack_from, attributes,
}

pub drop-append : (xs ys : Bytes) → drop (length xs) (xs ++ ys) ≡ ys
drop-append [] ys = refl
drop-append (x ∷ xs) ys = drop-append xs ys

pub take-append : (xs ys : Bytes) → take (length xs) (xs ++ ys) ≡ xs
take-append [] ys = refl
take-append (x ∷ xs) ys = ap (λ t. x ∷ t) (take-append xs ys)

pub length-replicate : (n : ℕ) → length {A = ℕ} (replicate n 0) ≡ n
length-replicate zero = refl
length-replicate (suc n) = ap suc (length-replicate n)

module _ (py : Python) where
  -- struct.pack of the number gives as many bytes as the character stands for, and struct.unpack of those the number.
  abbrev pub FitsLetter : Letter → py.Number → Type 0
  FitsLetter l v =
      (bytes : Bytes) × (py.pack_letter l v ≡ some bytes)
      × (length bytes ≡ letter_size l)
      × (py.unpack_letter l bytes ≡ v)

  abbrev pub FitsItem : FormatItem → Attribute py → Type 0
  FitsItem (raw n) (bytes_value b) = length b ≡ n
  FitsItem (char l) (number_value v) = FitsLetter l v
  FitsItem _ _ = ⊥

  module _ (self : Bytes → Attribute py) where
    -- The attributes, one for each item but padding.
    abbrev pub FitsNamed : FormatItem → String → Type 0
    FitsNamed i name = FitsItem i (self (chars name))

    abbrev pub Fitting : List FormatItem → List String → Type 0
    Fitting = Aligned FitsNamed

  -- The bytes of some values under a format: packed from the values, and unpacked to them.
  pub record Encoded (fmt : List FormatItem) (vs : List (Attribute py)) : Type 0 where
    pub bytes : Bytes
    pub packed : pack_items py fmt vs ≡ some bytes
    pub sized : length bytes ≡ calcsize fmt
    pub unpacked : (rest : Bytes) → unpack_values py fmt (bytes ++ rest) ≡ vs

  prefixed :
      (head : Bytes) (n : ℕ) (rest : Bytes)
      → length head ≡ n
      → (take n (head ++ rest) ≡ head) × (drop n (head ++ rest) ≡ rest)
  prefixed head n rest h = rw (sym h) (take-append head rest, drop-append head rest)

  Encoded-pad :
      (k : ℕ) (fmt : List FormatItem) (vs : List (Attribute py))
      → Encoded fmt vs
      → Encoded (pad k ∷ fmt) vs
  unfolding pack_items unpack_values
  Encoded-pad k fmt vs e = record {
    bytes = replicate k 0 ++ e.bytes;
    packed = rw e.packed refl;
    sized = omega (arith, length-append (replicate k 0) e.bytes, length-replicate k, e.sized);
    unpacked = λ rest.
        rw
          (
            append_assoc (replicate k 0) e.bytes rest,
            (prefixed (replicate k 0) k (e.bytes ++ rest) (length-replicate k)).1,
          )
          (e.unpacked rest);
  }

  Encoded-raw :
      (n : ℕ) (b : Bytes) (fmt : List FormatItem) (vs : List (Attribute py))
      → length b ≡ n
      → Encoded fmt vs
      → Encoded (raw n ∷ fmt) (bytes_value b ∷ vs)
  unfolding pack_items unpack_values
  Encoded-raw n b fmt vs h e = record {
    bytes = b ++ e.bytes;
    packed = rw (e.packed, (prefixed b n (replicate n 0) h).0) refl;
    sized = omega (arith, length-append b e.bytes, e.sized);
    unpacked = λ rest.
        rw
          (
            append_assoc b e.bytes rest,
            (prefixed b n (e.bytes ++ rest) h).0,
            (prefixed b n (e.bytes ++ rest) h).1,
            e.unpacked rest,
          )
          refl;
  }

  Encoded-char :
      (l : Letter) (v : py.Number) (fmt : List FormatItem) (vs : List (Attribute py))
      → FitsLetter l v
      → Encoded fmt vs
      → Encoded (char l ∷ fmt) (number_value v ∷ vs)
  unfolding pack_items unpack_values
  Encoded-char l v fmt vs (b, packs, h, unpacks) e = record {
    bytes = b ++ e.bytes;
    packed = rw (packs, e.packed) refl;
    sized = omega (arith, length-append b e.bytes, e.sized);
    unpacked = λ rest.
        rw
          (
            append_assoc b e.bytes rest,
            (prefixed b (letter_size l) (e.bytes ++ rest) h).0,
            (prefixed b (letter_size l) (e.bytes ++ rest) h).1,
            unpacks,
            e.unpacked rest,
          )
          refl;
  }

  module _ (self : Bytes → Attribute py) where
    Encoded-item :
        (i : FormatItem) (v : Attribute py) (fmt : List FormatItem) (vs : List (Attribute py))
        → FitsItem i v
        → Encoded fmt vs
        → Encoded (i ∷ fmt) (v ∷ vs)
    Encoded-item (raw n) (bytes_value b) fmt vs h e = Encoded-raw n b fmt vs h e
    Encoded-item (char l) (number_value v) fmt vs h e = Encoded-char l v fmt vs h e
    Encoded-item (pad n) v fmt vs h e = elim h [ ]
    Encoded-item (raw n) (number_value v) fmt vs h e = elim h [ ]
    Encoded-item (raw n) (object_value o) fmt vs h e = elim h [ ]
    Encoded-item (raw n) (list_value os) fmt vs h e = elim h [ ]
    Encoded-item (char l) (bytes_value b) fmt vs h e = elim h [ ]
    Encoded-item (char l) (object_value o) fmt vs h e = elim h [ ]
    Encoded-item (char l) (list_value os) fmt vs h e = elim h [ ]

    pub encoded :
        (fmt : List FormatItem) (ns : List String)
        → Fitting self fmt ns
        → Encoded fmt (attributes py self ns)
    unfolding pack_items unpack_values
    encoded [] [] f = record { bytes = []; packed = refl; sized = refl; unpacked = λ rest. refl }
    encoded [] (n ∷ ns) f = elim f [ ]
    encoded (pad k ∷ fmt) ns f = Encoded-pad k fmt _ (encoded fmt ns f)
    encoded (raw k ∷ fmt) [] f = elim f [ ]
    encoded (raw k ∷ fmt) (n ∷ ns) (h, f) = Encoded-item (raw k) _ fmt _ h (encoded fmt ns f)
    encoded (char l ∷ fmt) [] f = elim f [ ]
    encoded (char l ∷ fmt) (n ∷ ns) (h, f) = Encoded-item (char l) _ fmt _ h (encoded fmt ns f)

    -- struct.unpack_from reads the values back behind other bytes, and before others.
    pub unpack_from-Encoded :
        (fmt : List FormatItem) (vs : List (Attribute py)) (e : Encoded fmt vs)
        (before rest : Bytes)
        → unpack_from py fmt (before ++ (e.bytes ++ rest)) (length before) ≡ some vs
    unfolding unpack_from
    unpack_from-Encoded fmt vs e before rest =
        let enough : leb (calcsize fmt) (length (before ++ (e.bytes ++ rest)) - length before)
            ≡ true =
          ground
            (arith, length-append before (e.bytes ++ rest), length-append e.bytes rest, e.sized) in
        rw (enough, drop-append before (e.bytes ++ rest), e.unpacked rest) refl
