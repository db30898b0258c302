-- ===== src/Docs/Tables/Nested.antt =====
-- generator/doc_generator.h: the sections of the classes inside a payload.

use reflect_pytest.Prelude.{
  refl, subst, inl, inr, [], ◌∷◌, arith, chars, text_eq_refl, has_name, Bool-cases,
}
use reflect_pytest.Docs.Text.{Bytes}
use reflect_pytest.Docs.Flow.{Names}
use reflect_pytest.Docs.Flow.Edges.{has_name-insert_name}
use reflect_pytest.Docs.Tables.{
  DocType, DocFields, fundamental, enumeration, array_of, structure, no_fields, field, Printed,
  print, heading, table, emit_md_struct_section, emit_field_table, field_sections,
}
use reflect_pytest.Docs.Tables.Sections.{
  Contains, IsListed, AreListed, IsListed-Inside, IsNamed, AreNamed, Kept, Grown, print-Kept,
  open_section, open_section-Inside, open_section-Kept, close_section,
}

-- The text has the heading of every class at any depth.
abbrev mutual
  pub HasSections : DocType → Bytes → Type 0
  HasSections (structure c fs) text = Contains (heading (chars c.name)) text × HaveSections fs text
  HasSections (array_of t n) text = HasSections t text
  HasSections _ text = Unit

  pub HaveSections : DocFields → Bytes → Type 0
  HaveSections no_fields text = Unit
  HaveSections (field f t fs) text = HasSections t text × HaveSections fs text

module _ (fields_of : Bytes → DocFields) where
  mutual
    unfolding emit_md_struct_section emit_field_table field_sections

    section_lem :
        (t : DocType) (pending : Names) (p : Printed)
        → IsNamed fields_of t
        → Kept fields_of pending p
        → Grown fields_of pending p (emit_md_struct_section t p)
          × IsListed t (emit_md_struct_section t p).visited
    section_lem (fundamental f) pending p named k = (record { inside = λ n h. h; kept = k }, tt)
    section_lem (enumeration name) pending p named k = (record { inside = λ n h. h; kept = k }, tt)
    section_lem (array_of t n) pending p named k = section_lem t pending p named k
    section_lem (structure c fs) pending p (same, named) k =
        elim (Bool-cases (has_name (chars c.name) p.visited)) [
          | inl seen ↦ rw seen (record { inside = λ n h. h; kept = k }, seen)
          | inr unseen ↦
              (let (g, listed) =
                  table_lem fs (chars c.name ∷ pending) (open_section c p) named
                    (open_section-Kept fields_of pending c p k) in
                rw unseen (
                  record {
                    inside = λ n h. g.inside n (open_section-Inside c p n h);
                    kept = close_section fields_of pending c fs _ same listed g.kept;
                  },
                  g.inside (chars c.name) (
                      rw
                        (
                          has_name-insert_name (chars c.name) (chars c.name) p.visited,
                          text_eq_refl (chars c.name),
                        )
                        refl),
                ))
        ]

    table_lem :
        (fs : DocFields) (pending : Names) (p : Printed)
        → AreNamed fields_of fs
        → Kept fields_of pending p
        → Grown fields_of pending p (emit_field_table fs p)
          × AreListed fs (emit_field_table fs p).visited
    table_lem no_fields pending p named k =
        (record { inside = λ n h. h; kept = print-Kept fields_of pending p _ k }, tt)
    table_lem (field f t fs) pending p (named, all_named) k =
        let q = print (table (field f t fs)) p in
        let (g, listed) =
          section_lem t pending q named (print-Kept fields_of pending p (table (field f t fs)) k) in
        let (h, all_listed) =
          sections_lem fs pending (emit_md_struct_section t q) all_named g.kept in
        (
          record { inside = λ n i. h.inside n (g.inside n i); kept = h.kept },
          (IsListed-Inside t _ _ h.inside listed, all_listed),
        )

    sections_lem :
        (fs : DocFields) (pending : Names) (p : Printed)
        → AreNamed fields_of fs
        → Kept fields_of pending p
        → Grown fields_of pending p (field_sections fs p)
          × AreListed fs (field_sections fs p).visited
    sections_lem no_fields pending p named k = (record { inside = λ n h. h; kept = k }, tt)
    sections_lem (field f t fs) pending p (named, all_named) k =
        let (g, listed) = section_lem t pending p named k in
        let (h, all_listed) =
          sections_lem fs pending (emit_md_struct_section t p) all_named g.kept in
        (
          record { inside = λ n i. h.inside n (g.inside n i); kept = h.kept },
          (IsListed-Inside t _ _ h.inside listed, all_listed),
        )

  mutual
    type_documented :
        (t : DocType) (p : Printed)
        → Kept fields_of [] p
        → IsNamed fields_of t
        → IsListed t p.visited
        → HasSections t p.out
    type_documented (fundamental f) p k named listed = tt
    type_documented (enumeration name) p k named listed = tt
    type_documented (array_of t n) p k named listed = type_documented t p k named listed
    type_documented (structure c fs) p k (same, named) listed = (
      k.sound (chars c.name) listed,
      fields_documented fs p k named (elim (k.closed (chars c.name) listed) [
        | inl waits ↦ absurd (ground arith)
        | inr all_listed ↦ subst (λ gs. AreListed gs p.visited) same all_listed
      ]),
    )

    fields_documented :
        (fs : DocFields) (p : Printed)
        → Kept fields_of [] p
        → AreNamed fields_of fs
        → AreListed fs p.visited
        → HaveSections fs p.out
    fields_documented no_fields p k named listed = tt
    fields_documented (field f t fs) p k (named, all_named) (listed, all_listed) =
        (type_documented t p k named listed, fields_documented fs p k all_named all_listed)

  -- What is printed for the fields of a payload has a section for every class among their types, at any depth,
  -- through arrays and through other classes, although a class that was printed before is skipped. Assumed:
  -- the classes have different names.
  pub nested_documented :
      (fs : DocFields)
      → AreNamed fields_of fs
      → HaveSections fs (emit_field_table fs (record { visited = []; out = [] })).out
  nested_documented fs named =
      let nothing : Kept fields_of [] (record { visited = []; out = [] }) = record {
        closed = λ n h. absurd (ground arith);
        sound = λ n h. absurd (ground arith);
      } in
      let (g, listed) = table_lem fs [] (record { visited = []; out = [] }) named nothing in
      fields_documented fs _ g.kept named listed
