-- ===== src/Generator/Types.antt =====
-- generator/common.h and generator/python_code_generator.h: the names of the generated classes, and
-- the order in which they are generated.
pub mod PythonNames
pub mod Order
pub mod Once
use Prim.Native.String.{String}
use reflect_pytest.Prelude.{
  text_eq, has_name, text_eq→eq, text_eq_refl, ℕ, ◌==◌, Bool, true, false, ◌&&◌, ◌||◌,
  if◌then◌else◌, List, [], ◌∷◌, ◌++◌, length, drop, chars,
}
use reflect_pytest.Docs.Text.{Bytes}

-- The types that get_cxx_type_name names itself.
pub data Fundamental : Type 0 where
  bool char uint8 int8 uint16 int16 uint32 int32 uint64 int64 float double : Fundamental

abbrev pub fundamental_name : Fundamental → String
fundamental_name bool = "bool"
fundamental_name char = "char"
fundamental_name uint8 = "uint8_t"
fundamental_name int8 = "int8_t"
fundamental_name uint16 = "uint16_t"
fundamental_name int16 = "int16_t"
fundamental_name uint32 = "uint32_t"
fundamental_name int32 = "int32_t"
fundamental_name uint64 = "uint64_t"
fundamental_name int64 = "int64_t"
fundamental_name float = "float"
fundamental_name double = "double"

-- What the reflection tells of a type. An enumeration or a class has the text of display_string_of, an
-- enumeration its identifier_of, too.
mutual
  pub data CxxType : Type 0 where
    fundamental : Fundamental → CxxType
    enumeration : Bytes → Bytes → CxxType
    c_array std_array : CxxType → ℕ → CxxType
    class_type : Bytes → Members → CxxType

  -- nonstatic_data_members_of: the types of the members.
  pub data Members : Type 0 where
    no_members : Members
    member : CxxType → Members → Members

abbrev pub starts_with : Bytes → Bytes → Bool
starts_with [] s = true
starts_with (c ∷ p) [] = false
starts_with (c ∷ p) (d ∷ s) = c == d && starts_with p s

-- find and replace of the first occurrence, by nothing.
unfoldable pub erase_first : Bytes → Bytes → Bytes
erase_first p [] = []
erase_first p (c ∷ s) =
    if starts_with p (c ∷ s) then drop (length p) (c ∷ s) else c ∷ erase_first p s

-- The last branch of get_cxx_type_name.
unfoldable pub strip_namespaces : Bytes → Bytes
unfolding erase_first
strip_namespaces s = erase_first (chars "sil::") (erase_first (chars "ipc::") s)

-- The test of the loop of get_python_type_name.
abbrev pub is_special : ℕ → Bool
is_special c = c == b'<' || c == b'>' || c == b',' || c == b' ' || c == b':'

unfoldable pub replace_special : Bytes → Bytes
replace_special [] = []
replace_special (c ∷ s) = (if is_special c then b'_' else c) ∷ replace_special s

-- `while (!s.empty() && s.back() == '_') s.pop_back()`.
unfoldable pub pop_underscores : Bytes → Bytes
pop_underscores [] = []
pop_underscores (c ∷ s) =
    let rest = pop_underscores s in if c == b'_' && length rest == 0 then [] else c ∷ rest

unfoldable pub python_name : Bytes → Bytes
unfolding replace_special pop_underscores
python_name s = pop_underscores (replace_special s)

module _ (array_text : CxxType → ℕ → Bytes) where
  -- get_cxx_type_name, where `array_text` is what display_string_of makes of an array.
  unfoldable pub get_cxx_type_name : CxxType → Bytes
  unfolding strip_namespaces
  get_cxx_type_name (fundamental f) = chars (fundamental_name f)
  get_cxx_type_name (enumeration s id) = strip_namespaces s
  get_cxx_type_name (class_type s ms) = strip_namespaces s
  get_cxx_type_name (c_array t n) = strip_namespaces (array_text t n)
  get_cxx_type_name (std_array t n) = strip_namespaces (array_text t n)

  unfoldable pub get_python_type_name : CxxType → Bytes
  unfolding get_cxx_type_name python_name
  get_python_type_name t = python_name (get_cxx_type_name t)

-- uint8_t, char and int8_t.
abbrev pub is_byte_like : CxxType → Bool
is_byte_like (fundamental uint8) = true
is_byte_like (fundamental char) = true
is_byte_like (fundamental int8) = true
is_byte_like _ = false

abbrev pub remove_all_extents : CxxType → CxxType
remove_all_extents (c_array t n) = remove_all_extents t
remove_all_extents t = t

-- `visited`, and the printed classes, the latest first, each with the names of the other types that
-- its annotations and statements refer to.
pub record Output : Type 0 where
  pub visited : List Bytes
  pub classes : List (Bytes × List Bytes)

abbrev pub no_output : Output
no_output = record { visited = []; classes = [] }

abbrev pub enter : Bytes → Output → Output
enter name out = record out { visited = name ∷ out.visited }

-- The class is printed after what its members need, `inner`, unless it was visited before.
unfoldable pub print_class : Bytes → List Bytes → Output → Output → Output
print_class name refs inner out =
    if has_name name out.visited
    then out
    else record inner { classes = (name, refs) ∷ inner.classes }

module _ (array_text : CxxType → ℕ → Bytes) where
  -- The elem_type or the sub_type of an array.
  abbrev pub element_ref : CxxType → List Bytes
  unfolding get_python_type_name
  element_ref t = if is_byte_like t then [] else get_python_type_name array_text t ∷ []

  -- The class of an enumeration is named by its identifier.
  abbrev pub type_ref : CxxType → List Bytes
  unfolding get_python_type_name
  type_ref (enumeration s id) = id ∷ []
  type_ref (std_array t n) = element_ref t
  type_ref (c_array t n) = element_ref (remove_all_extents t)
  type_ref (class_type s ms) = get_python_type_name array_text (class_type s ms) ∷ []
  type_ref _ = []

  unfoldable pub refs : Members → List Bytes
  unfolding get_python_type_name
  refs no_members = []
  refs (member t ms) = type_ref t ++ refs ms

  unfoldable mutual
    unfolding print_class refs get_python_type_name

    -- generate_struct of the type of a member, if its base is a class or an array of classes.
    pub generate_nested : CxxType → Output → Output
    generate_nested (c_array t n) out = generate_nested t out
    generate_nested (std_array t n) out = generate_element t out
    generate_nested (class_type s ms) out =
        let name = get_python_type_name array_text (class_type s ms) in
        print_class name (refs ms) (generate_members ms (enter name out)) out
    generate_nested _ out = out

    pub generate_element : CxxType → Output → Output
    generate_element (class_type s ms) out =
        let name = get_python_type_name array_text (class_type s ms) in
        print_class name (refs ms) (generate_members ms (enter name out)) out
    generate_element _ out = out

    pub generate_members : Members → Output → Output
    generate_members no_members out = out
    generate_members (member t ms) out = generate_members ms (generate_nested t out)

  -- The calls of generate_bindings.cpp, one for each payload.
  unfoldable pub generate_all : List CxxType → Output → Output
  unfolding generate_nested
  generate_all [] out = out
  generate_all (t ∷ ts) out = generate_all ts (generate_nested t out)

-- generate_enum: a class without annotations, whatever was printed before.
abbrev pub print_enum : Bytes → Output → Output
print_enum id out = record out { classes = (id, []) ∷ out.classes }

-- The calls for the enumerations, by their identifiers.
unfoldable pub generate_enums : List Bytes → Output → Output
generate_enums [] out = out
generate_enums (id ∷ ids) out = generate_enums ids (print_enum id out)
