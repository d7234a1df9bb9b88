-- ===== src/Api/Request/Document.antt =====
-- XML documents as trees, the text of a tree, and a reader of such texts: what the text of a request
-- is compared with. The reader knows elements, attributes and references; the rules of XML for ends of
-- lines and for white space in attributes are not in it.
pub mod Reading
pub mod Spans
use precision_location_lite.Base.{
  ℕ, zero, suc, ◌+◌, Bool, true, false, not, ◌&&◌, ◌||◌, List, [], ◌∷◌, ◌++◌, Option, none, some,
  ◌==◌, leb, ltb, if◌then◌else◌, ◌>>=◌, Bytes, codes, length, bytes_eq,
}
use precision_location_lite.Api.Xml.{escape_char}
use precision_location_lite.Api.Xml.Escape.{unescape}

abbrev pub Attribute : Type 0
Attribute = Bytes × Bytes

-- `<name>text</name>`, `<name a='v'/>`, and `<name a='v'>...</name>` around elements.
mutual
  pub data Node : Type 0 where
    leaf : Bytes → Bytes → Node
    empty : Bytes → List Attribute → Node
    branch : Bytes → List Attribute → Nodes → Node

  pub data Nodes : Type 0 where
    nil : Nodes
    cons : Node → Nodes → Nodes

unfoldable pub escape : Bytes → Bytes
escape [] = []
escape (c ∷ s) = escape_char c ++ escape s

-- The text of a tree, in front of `rest`.
unfoldable pub print_attributes : List Attribute → Bytes → Bytes
unfolding escape
print_attributes [] rest = rest
print_attributes ((name, value) ∷ more) rest =
    b' ' ∷ (name ++ (b'=' ∷ b'\'' ∷ (escape value ++ (b'\'' ∷ print_attributes more rest))))

abbrev pub print_end : Bytes → Bytes → Bytes
print_end name rest = b'<' ∷ b'/' ∷ (name ++ (b'>' ∷ rest))

unfoldable mutual
  unfolding escape print_attributes

  pub print : Node → Bytes → Bytes
  print (leaf name text) rest = b'<' ∷ (name ++ (b'>' ∷ (escape text ++ print_end name rest)))
  print (empty name attributes) rest =
      b'<' ∷ (name ++ print_attributes attributes (b'/' ∷ b'>' ∷ rest))
  print (branch name attributes nodes) rest =
      b'<' ∷ (name ++ print_attributes attributes (b'>' ∷ print_nodes nodes (print_end name rest)))

  pub print_nodes : Nodes → Bytes → Bytes
  print_nodes nil rest = rest
  print_nodes (cons node nodes) rest = print node (print_nodes nodes rest)

-- The reader. A span of characters that pass a test, and what follows.
unfoldable pub span : (ℕ → Bool) → Bytes → Bytes × Bytes
span test [] = ([], [])
span test (c ∷ s) =
    let (front, rest) = span test s in if test c then (c ∷ front, rest) else ([], c ∷ s)

abbrev pub is_name_char : ℕ → Bool
is_name_char c = leb b'a' c && leb c b'z' || leb b'A' c && leb c b'Z' || c == b'-'

abbrev pub is_value_char : ℕ → Bool
is_value_char c = not (c == b'\'') && not (c == b'<')

abbrev pub is_text_char : ℕ → Bool
is_text_char c = not (c == b'<')

unfoldable pub expect : Bytes → Bytes → Option Bytes
expect [] s = some s
expect (x ∷ prefix) [] = none
expect (x ∷ prefix) (c ∷ s) = if x == c then expect prefix s else none

abbrev pub starts : ℕ → Bytes → Bool
starts x [] = false
starts x (c ∷ s) = c == x

unfoldable pub read_name : Bytes → Option (Bytes × Bytes)
unfolding span
read_name s =
    let (name, rest) = span is_name_char s in if length name == 0 then none else some (name, rest)

-- The attributes in front of `>` or `/>`.
unfoldable pub read_attributes : ℕ → Bytes → Option (List Attribute × Bytes)
unfolding span read_name expect
read_attributes zero s = none
read_attributes (suc fuel) s = elim (starts b' ' s) [
  | false ↦ some ([], s)
  | true ↦ (do
    s ← expect (b' ' ∷ []) s
    (name, s) ← read_name s
    s ← expect (b'=' ∷ b'\'' ∷ []) s
    let (written, s) = span is_value_char s
    value ← unescape (length written) written
    s ← expect (b'\'' ∷ []) s
    (more, s) ← read_attributes fuel s
    some ((name, value) ∷ more, s))
]

-- Whether an end tag stands here.
abbrev pub ends : Bytes → Bool
ends [] = false
ends (c ∷ s) = starts b'/' s

-- `</name>`
abbrev pub read_end : Bytes → Bytes → Option Bytes
read_end name s = do s ← expect (b'<' ∷ b'/' ∷ []) s; s ← expect name s; expect (b'>' ∷ []) s

unfoldable mutual
  unfolding span read_name expect read_attributes

  -- An element. Its content is a text or starts with a tag.
  pub read_node : ℕ → Bytes → Option (Node × Bytes)
  read_node zero s = none
  read_node (suc fuel) s = do
    s ← expect (b'<' ∷ []) s
    (name, s) ← read_name s
    (attributes, s) ← read_attributes (length s + 1) s
    read_content fuel name attributes (starts b'/' s) s

  pub read_content : ℕ → Bytes → List Attribute → Bool → Bytes → Option (Node × Bytes)
  read_content zero name attributes closes s = none
  read_content (suc fuel) name attributes true s = do
    s ← expect (b'/' ∷ b'>' ∷ []) s
    some (empty name attributes, s)
  read_content (suc fuel) name attributes false s = do
    s ← expect (b'>' ∷ []) s
    read_inside fuel name attributes (starts b'<' s) s

  pub read_inside : ℕ → Bytes → List Attribute → Bool → Bytes → Option (Node × Bytes)
  read_inside zero name attributes tag s = none
  read_inside (suc fuel) name attributes true s = do
    (nodes, s) ← read_nodes fuel (ends s) s
    s ← read_end name s
    some (branch name attributes nodes, s)
  read_inside (suc fuel) name (a ∷ attributes) false s = none
  read_inside (suc fuel) name [] false s = do
    let (written, s) = span is_text_char s
    text ← unescape (length written) written
    s ← read_end name s
    some (leaf name text, s)

  -- Elements up to an end tag.
  pub read_nodes : ℕ → Bool → Bytes → Option (Nodes × Bytes)
  read_nodes zero done s = none
  read_nodes (suc fuel) true s = some (nil, s)
  read_nodes (suc fuel) false s = do
    (node, s) ← read_node fuel s
    (nodes, s) ← read_nodes fuel (ends s) s
    some (cons node nodes, s)
