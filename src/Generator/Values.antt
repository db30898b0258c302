-- ===== src/Generator/Values.antt =====
-- generator/python_code_generator.h: what the generated pack_wire and unpack_wire do in Python, on the
-- values of an object's attributes.
pub mod Aligned
pub mod Formats
pub mod Steps
pub mod Plans
pub mod RoundTrip
pub mod Shapes
pub mod Typed
pub mod AnyBytes
use Prim.Native.String.{String}
use reflect_pytest.Prelude.{
  ℕ, zero, suc, ◌+◌, ◌-◌, ◌≤◌, ◌≡◌, Bool, true, false, if◌then◌else◌, leb, Option, none, some, List,
  [], ◌∷◌, ◌++◌, length, take, drop, replicate, chars, text_eq, has_name, map,
}
use reflect_pytest.Docs.Text.{Bytes}
use reflect_pytest.Generator.{
  Letter, Field, FormatItem, pad, raw, char, PackStep, pack_format, extend_object, extend_items,
  extend_bytes_or_items, UnpackStep, unpack_single, unpack_many, unpack_object, unpack_items,
  generate_struct,
}
use reflect_pytest.Generator.Python.{letter_size, calcsize, advance}

-- The values that an attribute can have: a number (bool, int, float or enumerator), bytes, an object, or a list.
pub data Value (Number Object : Type 0) : Type 0 where
  number_value : Number → Value Number Object
  bytes_value : Bytes → Value Number Object
  object_value : Object → Value Number Object
  list_value : List Object → Value Number Object

-- The parts of Python that the methods rely on: struct.pack and struct.unpack of one character, the
-- pack_wire of an object, the unpack_wire and WIRE_SIZE of a class, hasattr(item, 'pack_wire'), and the
-- constructor calls of the loops over items. `none` is an exception.
pub record Python : Type 1 where
  pub Number : Type 0
  pub Object : Type 0
  pub pack_letter : Letter → Number → Option Bytes
  pub unpack_letter : Letter → Bytes → Number
  pub has_pack_wire : Object → Bool
  pub construct : String → Object → Option Object
  pub pack_object : Object → Option Bytes
  pub unpack_class : String → Bytes → Option Object
  pub wire_size : String → ℕ

infixl 5 ◌>>=◌
abbrev pub ◌>>=◌ : {A B : Type 0} → Option A → (A → Option B) → Option B
none >>= f = none
some a >>= f = f a

abbrev pub or_else : {A : Type 0} → Option A → Option A → Option A
or_else (some a) other = some a
or_else none other = other

-- The names that unpack_wire uses itself, and the keywords of Python.
abbrev pub reserved_words : List Bytes
reserved_words = map chars (
    "cls" ∷ "data" ∷ "offset" ∷ "struct" ∷ "range" ∷ "item" ∷ "sub_size" ∷ "_" ∷ "False" ∷ "None"
    ∷ "True" ∷ "and" ∷ "as" ∷ "assert" ∷ "async" ∷ "await" ∷ "break" ∷ "class" ∷ "continue" ∷ "def"
    ∷ "del" ∷ "elif" ∷ "else" ∷ "except" ∷ "finally" ∷ "for" ∷ "from" ∷ "global" ∷ "if" ∷ "import"
    ∷ "in" ∷ "is" ∷ "lambda" ∷ "nonlocal" ∷ "not" ∷ "or" ∷ "pass" ∷ "raise" ∷ "return" ∷ "try"
    ∷ "while" ∷ "with" ∷ "yield" ∷ [])

module _ (py : Python) where
  abbrev pub Attribute : Type 0
  Attribute = Value py.Number py.Object

  abbrev pub Locals : Type 0
  Locals = List (Bytes × Attribute)

  -- "32s": the bytes cut or filled with zeros to the count.
  abbrev pub pack_raw : ℕ → Bytes → Bytes
  pack_raw n bytes = take n (bytes ++ replicate n 0)

  abbrev pub pack_item : FormatItem → Attribute → Option Bytes
  pack_item (raw n) (bytes_value b) = some (pack_raw n b)
  pack_item (char l) (number_value v) = py.pack_letter l v
  pack_item _ _ = none

  -- struct.pack: padding takes no argument, and the arguments are as many as the other items.
  unfoldable pub pack_items : List FormatItem → List Attribute → Option Bytes
  pack_items [] [] = some []
  pack_items [] (v ∷ vs) = none
  pack_items (pad n ∷ fmt) vs = do rest ← pack_items fmt vs; some (replicate n 0 ++ rest)
  pack_items (i ∷ fmt) [] = none
  pack_items (i ∷ fmt) (v ∷ vs) = do
    bytes ← pack_item i v
    rest ← pack_items fmt vs
    some (bytes ++ rest)

  -- struct.unpack_from, on the bytes from the offset on.
  unfoldable pub unpack_values : List FormatItem → Bytes → List Attribute
  unpack_values [] data_left = []
  unpack_values (pad n ∷ fmt) data_left = unpack_values fmt (drop n data_left)
  unpack_values (raw n ∷ fmt) data_left =
      bytes_value (take n data_left) ∷ unpack_values fmt (drop n data_left)
  unpack_values (char l ∷ fmt) data_left =
      number_value (py.unpack_letter l (take (letter_size l) data_left))
      ∷ unpack_values fmt (drop (letter_size l) data_left)

  -- It raises struct.error where the data ends too early.
  unfoldable pub unpack_from : List FormatItem → Bytes → ℕ → Option (List Attribute)
  unfolding unpack_values
  unpack_from fmt data_bytes offset =
      if leb (calcsize fmt) (length data_bytes - offset)
      then some (unpack_values fmt (drop offset data_bytes))
      else none

  -- An item of a loop: an object as it is, and other values as arguments of the class.
  abbrev pub as_object : String → py.Object → Option py.Object
  as_object sub_type item = if py.has_pack_wire item then some item else py.construct sub_type item

  unfoldable pub extend_all : String → List py.Object → Option Bytes
  extend_all sub_type [] = some []
  extend_all sub_type (item ∷ items) = do
    object ← as_object sub_type item
    bytes ← py.pack_object object
    rest ← extend_all sub_type items
    some (bytes ++ rest)

  abbrev pub attributes : (Bytes → Attribute) → List String → List Attribute
  attributes self names = map (λ n. self (chars n)) names

  -- `self.f.pack_wire()`.
  abbrev pub extend_attribute : Attribute → Option Bytes
  extend_attribute (object_value o) = py.pack_object o
  extend_attribute _ = none

  -- `for item in self.f`; and the same behind a test for bytes, which are taken as they are.
  abbrev pub extend_listed : String → Attribute → Option Bytes
  unfolding extend_all
  extend_listed sub_type (list_value os) = extend_all sub_type os
  extend_listed sub_type _ = none

  abbrev pub extend_bytes_or_listed : String → Attribute → Option Bytes
  extend_bytes_or_listed sub_type (bytes_value b) = some b
  extend_bytes_or_listed sub_type v = extend_listed sub_type v

  -- The bytes that a statement of pack_wire appends to the data.
  unfoldable pub run_pack_step : (Bytes → Attribute) → PackStep → Option Bytes
  unfolding pack_items extend_all
  run_pack_step self (pack_format fmt names) = pack_items fmt (attributes self names)
  run_pack_step self (extend_object name) = extend_attribute (self (chars name))
  run_pack_step self (extend_items name sub_type) = extend_listed sub_type (self (chars name))
  run_pack_step self (extend_bytes_or_items name sub_type) =
      extend_bytes_or_listed sub_type (self (chars name))

  unfoldable pub run_pack : (Bytes → Attribute) → List PackStep → Option Bytes
  unfolding run_pack_step
  run_pack self [] = some []
  run_pack self (s ∷ ss) = do
    bytes ← run_pack_step self s
    rest ← run_pack self ss
    some (bytes ++ rest)

  -- An assignment to a local variable. One to a name that the method uses itself is not modelled.
  abbrev pub assign : String → Attribute → Locals → Option Locals
  assign name v locals =
      if has_name (chars name) reserved_words then none else some (locals ++ (chars name, v) ∷ [])

  -- The assignment of a tuple to as many names.
  unfoldable pub assign_all : List String → List Attribute → Locals → Option Locals
  assign_all [] [] locals = some locals
  assign_all (n ∷ ns) (v ∷ vs) locals = assign n v locals >>= assign_all ns vs
  assign_all _ _ locals = none

  -- `name = struct.unpack_from(…)[0]`; without a name it is no Python.
  abbrev pub assign_first : List String → List Attribute → Locals → Option Locals
  assign_first (n ∷ []) (v ∷ vs) locals = assign n v locals
  assign_first _ _ locals = none

  -- data[offset:offset+size], which the end of the data cuts.
  abbrev pub slice : Bytes → ℕ → ℕ → Bytes
  slice data_bytes offset size = take size (drop offset data_bytes)

  unfoldable pub unpack_loop : String → ℕ → Bytes → ℕ → Option (List py.Object)
  unpack_loop sub_type zero data_bytes offset = some []
  unpack_loop sub_type (suc n) data_bytes offset = do
    item ← py.unpack_class sub_type (slice data_bytes offset (py.wire_size sub_type))
    rest ← unpack_loop sub_type n data_bytes (offset + py.wire_size sub_type)
    some (item ∷ rest)

  -- The assignments of a statement of unpack_wire.
  unfoldable pub run_unpack_step : UnpackStep → Bytes → ℕ → Locals → Option Locals
  unfolding unpack_from assign_all unpack_loop
  run_unpack_step (unpack_single fmt names) data_bytes offset locals = do
    vs ← unpack_from fmt data_bytes offset
    assign_first names vs locals
  run_unpack_step (unpack_many fmt names) data_bytes offset locals = do
    vs ← unpack_from fmt data_bytes offset
    assign_all names vs locals
  run_unpack_step (unpack_object name sub_type) data_bytes offset locals = do
    o ← py.unpack_class sub_type (slice data_bytes offset (py.wire_size sub_type))
    assign name (object_value o) locals
  run_unpack_step (unpack_items name sub_type n) data_bytes offset locals = do
    os ← unpack_loop sub_type n data_bytes offset
    assign name (list_value os) locals

  -- The statements one after another; each moves the offset behind what it has read.
  unfoldable pub run_unpack : List UnpackStep → Bytes → ℕ → Locals → Option (ℕ × Locals)
  unfolding run_unpack_step
  run_unpack [] data_bytes offset locals = some (offset, locals)
  run_unpack (s ∷ ss) data_bytes offset locals = do
    after ← run_unpack_step s data_bytes offset locals
    run_unpack ss data_bytes (offset + advance py.wire_size s) after

  -- The value of a local variable: its last assignment.
  unfoldable pub lookup : Bytes → Locals → Option Attribute
  lookup name [] = none
  lookup name ((other, v) ∷ locals) =
      or_else (lookup name locals) (if text_eq name other then some v else none)

  -- The arguments of the call `cls(f=f, …)`.
  unfoldable pub keyword_values : List Field → Locals → Option Locals
  unfolding lookup
  keyword_values [] locals = some []
  keyword_values (f ∷ fs) locals = do
    v ← lookup (chars f.name) locals
    rest ← keyword_values fs locals
    some ((chars f.name, v) ∷ rest)

  unfoldable pub pack_wire : List Field → ℕ → (Bytes → Attribute) → Option Bytes
  unfolding generate_struct run_pack
  pack_wire fs size self = run_pack self (generate_struct fs size).pack_instructions

  unfoldable pub unpack_wire : List Field → ℕ → Bytes → Option Locals
  unfolding generate_struct run_unpack keyword_values
  unpack_wire fs size data_bytes = do
    (offset, locals) ← run_unpack (generate_struct fs size).unpack_instructions data_bytes 0 []
    keyword_values fs locals
