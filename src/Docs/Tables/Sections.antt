-- ===== src/Docs/Tables/Sections.antt =====
-- generator/doc_generator.h: which classes have a section under the table of a payload.

use mathlib.Core.List.{append_assoc}
use reflect_pytest.Prelude.{
  ◌≡◌, refl, sym, ◌∙◌, ap, ◌⊎◌, inl, inr, Bool, true, false, ◌||◌, ◌∷◌, ◌++◌, chars, text_eq,
  text_eq→eq, text_eq_refl, has_name, Bool-cases,
}
use reflect_pytest.Docs.Text.{Bytes}
use reflect_pytest.Docs.Flow.{Names, insert_name}
use reflect_pytest.Docs.Flow.Edges.{has_name-insert_name}
use reflect_pytest.Docs.Tables.{
  ClassDoc, DocType, DocFields, fundamental, enumeration, array_of, structure, no_fields, field,
  Printed, print, heading, section_head,
}

-- The text occurs in the other.
abbrev pub Contains : Bytes → Bytes → Type 0
Contains part text = (before : Bytes) × (after : Bytes) × (text ≡ before ++ (part ++ after))

Contains-append : (part text more : Bytes) → Contains part text → Contains part (text ++ more)
Contains-append part text more (before, after, e) = (
  before,
  after ++ more,
  rw e (
      append_assoc before (part ++ after) more
      ∙ ap (λ t. before ++ t) (append_assoc part after more)),
)

-- The class of a type without its extents is in the set; and so are those of all fields.
abbrev pub IsListed : DocType → Names → Type 0
IsListed (structure c fs) names = has_name (chars c.name) names ≡ true
IsListed (array_of t n) names = IsListed t names
IsListed _ names = Unit

abbrev pub AreListed : DocFields → Names → Type 0
AreListed no_fields names = Unit
AreListed (field f t fs) names = IsListed t names × AreListed fs names

abbrev pub Inside : Names → Names → Type 0
Inside v w = (n : Bytes) → has_name n v ≡ true → has_name n w ≡ true

pub IsListed-Inside : (t : DocType) (v w : Names) → Inside v w → IsListed t v → IsListed t w
IsListed-Inside (fundamental f) v w i h = tt
IsListed-Inside (enumeration name) v w i h = tt
IsListed-Inside (array_of t n) v w i h = IsListed-Inside t v w i h
IsListed-Inside (structure c fs) v w i h = i (chars c.name) h

pub all_listed-Inside :
    (fs : DocFields) (v w : Names) → Inside v w → AreListed fs v → AreListed fs w
all_listed-Inside no_fields v w i h = tt
all_listed-Inside (field f t fs) v w i (h, hs) =
    (IsListed-Inside t v w i h, all_listed-Inside fs v w i hs)

or_true : (a : Bool) → (a || true) ≡ true
or_true true = refl
or_true false = refl

either_name :
    (n m : Bytes) (ns : Names) → has_name n (m ∷ ns) ≡ true → (n ≡ m) ⊎ (has_name n ns ≡ true)
either_name n m ns h = elim (Bool-cases (text_eq n m)) [
  | inl same ↦ inl (text_eq→eq n m same)
  | inr other ↦ inr (rw other at h)
]

-- A new section.
abbrev pub open_section : ClassDoc → Printed → Printed
open_section c p =
    print (section_head c) (record p { visited = insert_name (chars c.name) p.visited })

pub open_section-Inside : (c : ClassDoc) (p : Printed) → Inside p.visited (open_section c p).visited
open_section-Inside c p n h =
    rw (has_name-insert_name n (chars c.name) p.visited, h) (or_true (text_eq n (chars c.name)))

-- A name in the set after a section is opened is the new one, or one from before.
opened :
    (n : Bytes) (c : ClassDoc) (p : Printed)
    → has_name n (open_section c p).visited ≡ true
    → (n ≡ chars c.name) ⊎ (has_name n p.visited ≡ true)
opened n c p h =
    either_name n (chars c.name) p.visited
      (sym (has_name-insert_name n (chars c.name) p.visited) ∙ h)

heading_printed :
    (c : ClassDoc) (p : Printed) → Contains (heading (chars c.name)) (open_section c p).out
unfolding section_head
heading_printed c p = (p.out, _, refl)

module _ (fields_of : Bytes → DocFields) where
  -- The classes at any depth have different names, or the same fields.
  abbrev mutual
    pub IsNamed : DocType → Type 0
    IsNamed (structure c fs) = (fields_of (chars c.name) ≡ fs) × AreNamed fs
    IsNamed (array_of t n) = IsNamed t
    IsNamed _ = Unit

    pub AreNamed : DocFields → Type 0
    AreNamed no_fields = Unit
    AreNamed (field f t fs) = IsNamed t × AreNamed fs

  -- The sections so far: each has its heading in the output, and, but for those that are being printed, the
  -- classes of its fields have theirs.
  pub record Kept (pending : Names) (p : Printed) : Type 0 where
    pub closed :
        (n : Bytes)
        → has_name n p.visited ≡ true
        → (has_name n pending ≡ true) ⊎ AreListed (fields_of n) p.visited
    pub sound : (n : Bytes) → has_name n p.visited ≡ true → Contains (heading n) p.out

  pub record Grown (pending : Names) (p q : Printed) : Type 0 where
    pub inside : Inside p.visited q.visited
    pub kept : Kept pending q

  pub print-Kept :
      (pending : Names) (p : Printed) (text : Bytes) → Kept pending p → Kept pending (print text p)
  print-Kept pending p text k = record {
    closed = k.closed;
    sound = λ n h. Contains-append (heading n) p.out text (k.sound n h);
  }

  -- It is pending.
  pub open_section-Kept :
      (pending : Names) (c : ClassDoc) (p : Printed)
      → Kept pending p
      → Kept (chars c.name ∷ pending) (open_section c p)
  open_section-Kept pending c p k = record {
    closed = λ n h. elim (opened n c p h) [
      | inl same ↦ inl (rw (same, text_eq_refl (chars c.name)) refl)
      | inr before ↦ elim (k.closed n before) [
        | inl waits ↦ inl (rw waits (or_true (text_eq n (chars c.name))))
        | inr listed ↦
            inr (all_listed-Inside (fields_of n) p.visited _ (open_section-Inside c p) listed)
      ]
    ];
    sound = λ n h. elim (opened n c p h) [
      | inl same ↦ rw same (heading_printed c p)
      | inr before ↦ Contains-append (heading n) p.out (section_head c) (k.sound n before)
    ];
  }

  -- A section whose classes have theirs is no longer pending.
  pub close_section :
      (pending : Names) (c : ClassDoc) (fs : DocFields) (p : Printed)
      → fields_of (chars c.name) ≡ fs
      → AreListed fs p.visited
      → Kept (chars c.name ∷ pending) p
      → Kept pending p
  close_section pending c fs p same listed k = record {
    closed = λ n h. elim (k.closed n h) [
      | inr found ↦ inr found
      | inl waits ↦ elim (either_name n (chars c.name) pending waits) [
        | inl this ↦ inr (rw (this, same) listed)
        | inr other ↦ inl other
      ]
    ];
    sound = k.sound;
  }
