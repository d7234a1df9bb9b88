-- ===== src/Api/Dom.antt =====
-- The DOM over libxml: src/spi/xml/libxml/LibxmlDOM.cpp. The structures of libxml are data; a null
-- pointer is `none`. `to_text` and `to_xml` are the conversions between UTF-8 and the character set
-- of the locale, which are iconv's.
use precision_location_lite.Base.{
  ℕ, zero, suc, Bool, true, false, ◌&&◌, List, [], ◌∷◌, ◌++◌, Option, none, some, if◌then◌else◌,
  Bytes, bytes_eq,
}

-- `xmlNs`
pub record Namespace : Type 0 where
  pub href : Option Bytes
  pub prefix : Option Bytes

-- `xmlAttr`: its name and namespace, and `children->content`, where it has a child.
pub record Attribute : Type 0 where
  pub name : Bytes
  pub ns : Option Namespace
  pub content : Option Bytes

-- `xmlNode`: elements, texts, and other nodes such as comments.
mutual
  pub data XmlNode : Type 0 where
    element : Bytes → Option Namespace → List Attribute → XmlNodes → XmlNode
    text : Bytes → XmlNode
    other : Bytes → Option Bytes → XmlNode

  pub data XmlNodes : Type 0 where
    end : XmlNodes
    next : XmlNode → XmlNodes → XmlNodes

-- The members `name`, `ns`, `content`, `children` and `properties`. libxml names a text node "text".
abbrev pub name_of : XmlNode → Option Bytes
name_of (element name ns attributes children) = some name
name_of (text content) = some (b't' ∷ b'e' ∷ b'x' ∷ b't' ∷ [])
name_of (other name content) = some name

abbrev pub ns_of : XmlNode → Option Namespace
ns_of (element name ns attributes children) = ns
ns_of (text content) = none
ns_of (other name content) = none

abbrev pub content_of : XmlNode → Option Bytes
content_of (element name ns attributes children) = none
content_of (text content) = some content
content_of (other name content) = content

abbrev pub children_of : XmlNode → XmlNodes
children_of (element name ns attributes children) = children
children_of (text content) = end
children_of (other name content) = end

abbrev pub href_of : Option Namespace → Option Bytes
href_of none = none
href_of (some ns) = ns.href

-- `xmlStrEqual` of two strings that are there.
abbrev pub is_empty_text : Bytes → Bool
is_empty_text [] = true
is_empty_text (c ∷ s) = false

unfoldable pub ns_equal : Option Bytes → Option Bytes → Bool
unfolding bytes_eq
ns_equal none none = true
ns_equal none (some b) = is_empty_text b
ns_equal (some a) none = is_empty_text a
ns_equal (some a) (some b) = bytes_eq a b

-- `getLength` and `getItem`
unfoldable pub get_length : XmlNodes → ℕ
get_length end = 0
get_length (next node nodes) = suc (get_length nodes)

unfoldable pub get_item : XmlNodes → ℕ → Option XmlNode
get_item end index = none
get_item (next node nodes) zero = some node
get_item (next node nodes) (suc index) = get_item nodes index

module _ (to_text to_xml : Bytes → Bytes) where
  -- `to_string`, which takes a null pointer to the empty string.
  abbrev pub to_string : Option Bytes → Bytes
  to_string none = []
  to_string (some s) = to_text s

  abbrev pub prefix_of : Option Namespace → Bytes
  prefix_of none = []
  prefix_of (some ns) = elim ns.prefix [ none ↦ [] | some prefix ↦ to_text prefix ++ (b':' ∷ []) ]

  abbrev pub get_node_name : XmlNode → Bytes
  get_node_name node = prefix_of (ns_of node) ++ to_string (name_of node)

  abbrev pub first_content : XmlNodes → Option Bytes
  first_content end = none
  first_content (next node nodes) = content_of node

  unfoldable pub get_node_value : XmlNode → Bytes
  get_node_value (element name ns attributes children) = to_string (first_content children)
  get_node_value (text content) = to_text content
  get_node_value (other name content) = []

  abbrev pub get_namespace_uri : XmlNode → Bytes
  get_namespace_uri node = to_string (href_of (ns_of node))

  abbrev pub get_prefix : XmlNode → Bytes
  get_prefix node = elim (ns_of node) [ none ↦ [] | some ns ↦ to_string ns.prefix ]

  abbrev pub get_local_name : XmlNode → Bytes
  get_local_name node = to_string (name_of node)

  -- The loop of `getAttributeNodeNS`.
  unfoldable pub find_attribute : Bytes → Bytes → List Attribute → Option Attribute
  unfolding ns_equal
  find_attribute uri local [] = none
  find_attribute uri local (a ∷ more) =
      if ns_equal (href_of a.ns) (some uri) && bytes_eq a.name local
      then some a
      else find_attribute uri local more

  unfoldable pub get_attribute_node_ns : XmlNode → Bytes → Bytes → Option Attribute
  unfolding find_attribute
  get_attribute_node_ns (element name ns attributes children) uri local =
      find_attribute (to_xml uri) (to_xml local) attributes
  get_attribute_node_ns (text content) uri local = none
  get_attribute_node_ns (other name content) uri local = none

  -- `getAttributeNS`, and `getNodeValue` of an attribute.
  unfoldable pub get_attribute_ns : XmlNode → Bytes → Bytes → Bytes
  unfolding get_attribute_node_ns
  get_attribute_ns node uri local = elim (get_attribute_node_ns node uri local) [
    | none ↦ []
    | some a ↦ to_string a.content
  ]
