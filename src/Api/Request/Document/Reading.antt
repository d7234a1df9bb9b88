-- ===== src/Api/Request/Document/Reading.antt =====
-- The text of a tree is read back as the tree.
use Prim.Native.Nat.{◌≤◌}
use precision_location_lite.Base.{
  ℕ, zero, suc, ◌+◌, Bool, true, false, List, [], ◌∷◌, ◌++◌, some, ◌≡◌, refl, ap, ◌∙◌, arith, ◌==◌,
  Bytes, length, All, length-append, inl, inr,
}
use precision_location_lite.Api.Xml.Escape.{special_or_plain}
use precision_location_lite.Api.Request.Document.{
  Attribute, Node, leaf, empty, branch, Nodes, nil, cons, escape, print_attributes, print_end,
  print, print_nodes, is_name_char, expect, starts, ends, read_name, read_node, read_content,
  read_inside, read_nodes, read_end,
}
use precision_location_lite.Api.Request.Document.Spans.{
  IsName, IsText, IsAttribute, expect-append, read_name-append, unescape-escape, span-text,
  read_attributes-print,
}

-- The rounds that reading a tree takes.
unfoldable mutual
  pub size : Node → ℕ
  size (leaf name text) = 3
  size (empty name attributes) = 2
  size (branch name attributes nodes) = 3 + size_nodes nodes

  pub size_nodes : Nodes → ℕ
  size_nodes nil = 1
  size_nodes (cons node nodes) = 1 + (size node + size_nodes nodes)

abbrev pub IsFull : Bytes → Type 0
IsFull [] = ⊥
IsFull (c ∷ s) = Unit {0}

-- Names are names, no text holds a NUL, and the text of a leaf is not empty.
unfoldable mutual
  pub IsPrintable : Node → Type 0
  IsPrintable (leaf name text) = IsName name × IsFull text × IsText text
  IsPrintable (empty name attributes) = IsName name × All IsAttribute attributes
  IsPrintable (branch name attributes nodes) =
      IsName name × All IsAttribute attributes × HasElements nodes × ArePrintable nodes

  pub ArePrintable : Nodes → Type 0
  ArePrintable nil = Unit {0}
  ArePrintable (cons node nodes) = IsPrintable node × ArePrintable nodes

  pub HasElements : Nodes → Type 0
  HasElements nil = ⊥
  HasElements (cons node nodes) = Unit {0}

length-print_attributes :
    (attributes : List Attribute) (rest : Bytes)
    → length attributes ≤ length (print_attributes attributes rest)
unfolding print_attributes
length-print_attributes [] rest = omega arith
length-print_attributes ((name, value) ∷ more) rest = omega (
  arith,
  length-append {0} name (b'=' ∷ b'\'' ∷ (escape value ++ (b'\'' ∷ print_attributes more rest))),
  length-append {0} (escape value) (b'\'' ∷ print_attributes more rest),
  length-print_attributes more rest,
)

-- Behind its name and attributes an element closes at once or has a content.
head :
    (name : Bytes) (attributes : List Attribute) (fuel c : ℕ) (s : Bytes)
    → IsName name
    → All IsAttribute attributes
    → is_name_char c ≡ false
    → (c == b' ') ≡ false
    → read_node (suc fuel) (b'<' ∷ (name ++ print_attributes attributes (c ∷ s)))
      ≡ read_content fuel name attributes (starts b'/' (c ∷ s)) (c ∷ s)
unfolding read_node print_attributes
head name attributes fuel c s is_name all other stop =
    rw
      (
        named attributes,
        read_attributes-print attributes (length (print_attributes attributes (c ∷ s)) + 1) c s all
            (omega (arith, length-print_attributes attributes (c ∷ s))) stop,
      )
      refl
  where
    named :
        (attributes : List Attribute)
        → read_name (name ++ print_attributes attributes (c ∷ s))
          ≡ some (name, print_attributes attributes (c ∷ s))
    named [] = read_name-append name c s is_name other
    named ((n, v) ∷ more) =
        read_name-append name b' '
          (n ++ (b'=' ∷ b'\'' ∷ (escape v ++ (b'\'' ∷ print_attributes more (c ∷ s))))) is_name refl

read_end-print : (name rest : Bytes) → read_end name (print_end name rest) ≡ some rest
unfolding expect
read_end-print name rest = rw (expect-append name (b'>' ∷ rest)) refl

ends-print : (node : Node) (rest : Bytes) → IsPrintable node → ends (print node rest) ≡ false
unfolding print IsPrintable
ends-print (leaf (x ∷ name) text) rest p = ground (arith, p.0.0)
ends-print (empty (x ∷ name) attributes) rest p = ground (arith, p.0.0)
ends-print (branch (x ∷ name) attributes nodes) rest p = ground (arith, p.0.0)
ends-print (leaf [] text) rest p = elim p.0 [ ]
ends-print (empty [] attributes) rest p = elim p.0 [ ]
ends-print (branch [] attributes nodes) rest p = elim p.0 [ ]

text_starts : (text rest : Bytes) → IsFull text → starts b'<' (escape text ++ rest) ≡ false
unfolding escape
text_starts [] rest full = elim full [ ]
text_starts (c ∷ text) rest full = elim (special_or_plain c) [
  | inl e ↦ rw e refl
  | inr (inl e) ↦ rw e refl
  | inr (inr (inl e)) ↦ rw e refl
  | inr (inr (inr (inl e))) ↦ rw e refl
  | inr (inr (inr (inr (inl e)))) ↦ rw e refl
  | inr (inr (inr (inr (inr (plain, e))))) ↦ rw e (ground arith)
]

leaf_inside :
    (fuel : ℕ) (name text rest : Bytes)
    → IsText text
    → read_inside (suc fuel) name [] false (escape text ++ print_end name rest)
      ≡ some (leaf name text, rest)
unfolding read_node
leaf_inside fuel name text rest texts =
    rw
      (
        span-text text (b'/' ∷ (name ++ b'>' ∷ rest)),
        unescape-escape text texts,
        read_end-print name rest,
      )
      refl

nodes_start :
    (nodes : Nodes) (rest : Bytes) → HasElements nodes → starts b'<' (print_nodes nodes rest) ≡ true
unfolding print HasElements
nodes_start nil rest p = elim p [ ]
nodes_start (cons (leaf name text) nodes) rest p = refl
nodes_start (cons (empty name attributes) nodes) rest p = refl
nodes_start (cons (branch name attributes inner) nodes) rest p = refl

mutual
  unfolding read_node print size IsPrintable expect

  read_prints :
      (node : Node) (fuel : ℕ) (rest : Bytes)
      → IsPrintable node
      → size node ≤ fuel
      → read_node fuel (print node rest) ≡ some (node, rest)
  read_prints (leaf name text) (suc (suc (suc fuel))) rest (named, full, texts) enough =
      head name [] (suc (suc fuel)) b'>' (escape text ++ print_end name rest) named tt refl refl
      ∙ ap (λ (tag : Bool). read_inside (suc fuel) name [] tag (escape text ++ print_end name rest))
          (text_starts text (print_end name rest) full)
      ∙ leaf_inside fuel name text rest texts
  read_prints (empty name attributes) (suc (suc fuel)) rest (named, all) enough =
      rw (head name attributes (suc fuel) b'/' (b'>' ∷ rest) named all refl refl) refl
  read_prints (branch name attributes nodes) (suc (suc (suc fuel))) rest (named, all, some_, inner)
        enough =
      head name attributes (suc (suc fuel)) b'>' (print_nodes nodes (print_end name rest)) named all
        refl refl
      ∙ ap
          (λ (tag : Bool).
            read_inside (suc fuel) name attributes tag (print_nodes nodes (print_end name rest)))
          (nodes_start nodes (print_end name rest) some_)
      ∙ rw (read_prints_nodes nodes fuel name rest inner (omega arith), read_end-print name rest)
          refl
  read_prints (leaf name text) zero rest p enough = absurd (omega arith)
  read_prints (leaf name text) (suc zero) rest p enough = absurd (omega arith)
  read_prints (leaf name text) (suc (suc zero)) rest p enough = absurd (omega arith)
  read_prints (empty name attributes) zero rest p enough = absurd (omega arith)
  read_prints (empty name attributes) (suc zero) rest p enough = absurd (omega arith)
  read_prints (branch name attributes nodes) zero rest p enough = absurd (omega arith)
  read_prints (branch name attributes nodes) (suc zero) rest p enough = absurd (omega arith)
  read_prints (branch name attributes nodes) (suc (suc zero)) rest p enough = absurd (omega arith)

  read_prints_nodes :
      (nodes : Nodes) (fuel : ℕ) (name rest : Bytes)
      → ArePrintable nodes
      → size_nodes nodes ≤ fuel
      → read_nodes fuel
          (ends (print_nodes nodes (print_end name rest)))
          (print_nodes nodes (print_end name rest))
        ≡ some (nodes, print_end name rest)
  read_prints_nodes nil zero name rest p enough = absurd (omega arith)
  read_prints_nodes (cons node nodes) zero name rest p enough = absurd (omega arith)
  read_prints_nodes nil (suc fuel) name rest p enough = refl
  read_prints_nodes (cons node nodes) (suc fuel) name rest p enough =
      rw
        (
          ends-print node (print_nodes nodes (print_end name rest)) p.0,
          read_prints node fuel (print_nodes nodes (print_end name rest)) p.0 (omega arith),
          read_prints_nodes nodes fuel name rest p.1 (omega arith),
        )
        refl

-- The reader finds the tree whose text it is given, and stops behind it.
pub read_node-print :
    (node : Node) (fuel : ℕ) (rest : Bytes)
    → IsPrintable node
    → size node ≤ fuel
    → read_node fuel (print node rest) ≡ some (node, rest)
read_node-print node fuel rest p enough = read_prints node fuel rest p enough
