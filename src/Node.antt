-- ===== src/Node.antt =====
-- xmpp/node.go: XML elements with ordered mixed content. `Clone` and the readers that clone are
-- here; the token streams of `MarshalXML` and `UnmarshalXML` are in Node/Tokens.antt.
pub mod Build
pub mod Laws
pub mod Tidy
pub mod Tokens
mod Tests
use Prim.Native.String.{◌++◌ as ◌<>◌}
use slixmpp_go.Common.{
  Bool, true, false, ◌||◌, ◌&&◌, Option, none, some, List, [], ◌∷◌, ◌++◌, String, ◌==◌, string_eq,
  if◌then◌else◌,
}

-- `xml.Name`
pub record QName : Type 0 where
  pub space : String
  pub local : String

-- `xml.Attr`
pub record Attr : Type 0 where
  pub name : QName
  pub value : String

-- A part whose `Child` is nil is a text; one with a child keeps its `Text` too.
mutual
  pub data Node : Type 0 where
    node : QName → List Attr → Parts → Node

  pub data Parts : Type 0 where
    nil : Parts
    text_part : String → Parts → Parts
    child_part : String → Node → Parts → Parts

abbrev pub name : Node → QName
name (node q _ _) = q

abbrev pub attrs : Node → List Attr
attrs (node _ a _) = a

abbrev pub parts : Node → Parts
parts (node _ _ ps) = ps

-- `NewNode`
abbrev pub new_node : String → String → Node
new_node namespace local = node (record { space = namespace; local = local }) [] nil

-- The loop of `SetAttrNS`.
unfoldable pub set_attrs : String → String → String → List Attr → List Attr
set_attrs ns local value [] =
    record { name = record { space = ns; local = local }; value = value } ∷ []
set_attrs ns local value (a ∷ more) =
    if a.name.space == ns && a.name.local == local
    then record a { value = value } ∷ more
    else a ∷ set_attrs ns local value more

-- `SetAttrNS`
unfoldable pub set_attr_ns : String → String → String → Node → Node
unfolding set_attrs
set_attr_ns ns local value (node q a ps) = node q (set_attrs ns local value a) ps

abbrev pub set_attr : String → String → Node → Node
set_attr = set_attr_ns ""

-- The loop of `AttrValueNS`.
unfoldable pub find_attr : String → String → List Attr → Option String
find_attr ns local [] = none
find_attr ns local (a ∷ more) =
    if a.name.space == ns && a.name.local == local then some a.value else find_attr ns local more

-- `AttrValueNS`
unfoldable pub attr_value_ns : String → String → Node → Option String
unfolding find_attr
attr_value_ns ns local n = find_attr ns local (attrs n)

abbrev pub attr_value : String → Node → Option String
attr_value = attr_value_ns ""

-- A Go caller that drops the second result reads an absent attribute as "".
abbrev pub or_empty : Option String → String
or_empty none = ""
or_empty (some s) = s

-- A nonempty text joins the last part if that is a text.
unfoldable pub append_text : String → Parts → Parts
append_text v nil = text_part v nil
append_text v (text_part t nil) = text_part (t <> v) nil
append_text v (text_part t (text_part s ps)) = text_part t (append_text v (text_part s ps))
append_text v (text_part t (child_part s c ps)) = text_part t (append_text v (child_part s c ps))
append_text v (child_part t c ps) = child_part t c (append_text v ps)

-- `AddText`
unfoldable pub add_text : String → Node → Node
unfolding append_text
add_text v (node q a ps) = if v == "" then node q a ps else node q a (append_text v ps)

unfoldable pub append_child : Node → Parts → Parts
append_child child nil = child_part "" child nil
append_child child (text_part t ps) = text_part t (append_child child ps)
append_child child (child_part t c ps) = child_part t c (append_child child ps)

-- `AddChild`
unfoldable pub add_child : Node → Node → Node
unfolding append_child
add_child child (node q a ps) = node q a (append_child child ps)

-- `NewTextNode`
unfoldable pub new_text_node : String → String → String → Node
unfolding add_text
new_text_node namespace local value = add_text value (new_node namespace local)

unfoldable pub text_of : Parts → String
text_of nil = ""
text_of (text_part t ps) = t <> text_of ps
text_of (child_part _ _ ps) = text_of ps

-- `Text`
unfoldable pub text : Node → String
unfolding text_of
text n = text_of (parts n)

-- `Clone`
unfoldable mutual
  pub clone : Node → Node
  clone (node q a ps) = node q a (clone_parts ps)

  pub clone_parts : Parts → Parts
  clone_parts nil = nil
  clone_parts (text_part t ps) = text_part t (clone_parts ps)
  clone_parts (child_part _ c ps) = child_part "" (clone c) (clone_parts ps)

unfoldable pub children_of : Parts → List Node
children_of nil = []
children_of (text_part _ ps) = children_of ps
children_of (child_part _ c ps) = clone c ∷ children_of ps

-- `Children`
unfoldable pub children : Node → List Node
unfolding children_of
children n = children_of (parts n)

-- The test in the loop of `Child`: an empty namespace matches every one.
abbrev pub is_named : String → String → Node → Bool
is_named ns local n = (name n).local == local && (ns == "" || (name n).space == ns)

unfoldable pub child_of : String → String → Parts → Option Node
child_of ns local nil = none
child_of ns local (text_part _ ps) = child_of ns local ps
child_of ns local (child_part _ c ps) =
    if is_named ns local c then some (clone c) else child_of ns local ps

-- `Child`
unfoldable pub child : String → String → Node → Option Node
unfolding child_of
child ns local n = child_of ns local (parts n)

abbrev pub text_or_empty : Option Node → String
text_or_empty none = ""
text_or_empty (some c) = text c

-- `ChildText`
unfoldable pub child_text : String → String → Node → String
child_text ns local n = text_or_empty (child ns local n)

-- The loop of `FindPath`.
unfoldable pub follow : List String → Node → Option Node
follow [] current = some current
follow (local ∷ path) current = elim (child "" local current) [
  | none ↦ none
  | some next ↦ follow path (clone next)
]

-- `FindPath`
unfoldable pub find_path : List String → Node → Option Node
unfolding follow
find_path path n = follow path (clone n)
