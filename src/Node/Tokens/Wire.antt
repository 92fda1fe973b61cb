-- ===== src/Node/Tokens/Wire.antt =====
-- xmpp/node.go: `XML` and `ParseNode`, with the text between them. The text is that of encoding/xml:
-- its encoder writes an element's namespace as the attribute `xmlns`, and its decoder gives that
-- attribute back beside the others, and to an element without a namespace the one around it.
use slixmpp_go.Common.{
  ◌≡◌, refl, sym, ◌∙◌, ap, Bool, true, false, List, [], ◌∷◌, ◌++◌, String, ◌==◌, string_eq,
  if◌then◌else◌, All,
}
use mathlib.Core.List.{append_assoc, append-nil}
use slixmpp_go.Common.Result.{ok}
use slixmpp_go.Node.{Node, Parts, node, nil, text_part, child_part, Attr, QName}
use slixmpp_go.Node.Tokens.{Token, start_element, char_data, end_element, marshal, parse_node}
use slixmpp_go.Node.Tokens.RoundTrip.{
  IsCompact, AreCompact, tokens, tokens_of, marshal-tokens, parse_tokens,
}

abbrev pub scoped : String → QName → QName
scoped around q = record q { space = (if q.space == "" then around else q.space) }

abbrev pub with_xmlns : QName → List Attr → List Attr
with_xmlns q a =
    if q.space == ""
    then a
    else record { name = record { space = ""; local = "xmlns" }; value = q.space } ∷ a

-- The tokens that come back, inside an element of the namespace `around`; `outer` has the
-- namespaces around the open elements.
unfoldable pub declare : String → List String → List Token → List Token
declare around outer [] = []
declare around outer (start_element q a ∷ ts) =
    start_element (scoped around q) (with_xmlns q a)
    ∷ declare (scoped around q).space (around ∷ outer) ts
declare around outer (char_data t ∷ ts) = char_data t ∷ declare around outer ts
declare around [] (end_element q ∷ ts) =
    end_element (record q { space = around }) ∷ declare "" [] ts
declare around (next ∷ outer) (end_element q ∷ ts) =
    end_element (record q { space = around }) ∷ declare next outer ts

-- The encoder and the decoder: `writes` are the tokens that XML can carry as they are (names and
-- characters of XML, attributes without a prefix but `xml:`, and none named `xmlns`), and `decode` gives the tokens of the
-- text that is written for some tokens.
pub record Wire : Type 0 where
  pub writes : Token → Bool
  pub decode : List Token → List Token

abbrev pub CanCarry : Wire → Node → Type 0
CanCarry W n = All (λ t. W.writes t ≡ true) (tokens n)

-- The elements come back with their namespaces declared.
abbrev pub IsWire : Wire → Type 0
IsWire W = (n : Node) → IsCompact n → CanCarry W n → W.decode (tokens n) ≡ declare "" [] (tokens n)

-- A node with its namespaces declared.
unfoldable mutual
  pub declared : String → Node → Node
  declared around (node q a ps) =
      node (scoped around q) (with_xmlns q a) (declared_parts (scoped around q).space ps)

  pub declared_parts : String → Parts → Parts
  declared_parts around nil = nil
  declared_parts around (text_part t ps) = text_part t (declared_parts around ps)
  declared_parts around (child_part t c ps) =
      child_part t (declared around c) (declared_parts around ps)

mutual
  unfolding declare declared tokens

  declare-tokens :
      (around : String) (outer : List String) (n : Node) (rest : List Token)
      → declare around outer (tokens n ++ rest)
        ≡ tokens (declared around n) ++ declare around outer rest
  declare-tokens around outer (node q a ps) rest =
      let inside = (scoped around q).space in
      ap (λ ts. start_element (scoped around q) (with_xmlns q a) ∷ ts)
        (ap (declare inside (around ∷ outer))
            (append_assoc (tokens_of ps) (end_element q ∷ []) rest)
          ∙ declare-tokens_of inside (around ∷ outer) ps (end_element q ∷ rest)
          ∙ sym (
              append_assoc (tokens_of (declared_parts inside ps))
                (end_element (scoped around q) ∷ []) (declare around outer rest)))

  declare-tokens_of :
      (around : String) (outer : List String) (ps : Parts) (rest : List Token)
      → declare around outer (tokens_of ps ++ rest)
        ≡ tokens_of (declared_parts around ps) ++ declare around outer rest
  declare-tokens_of around outer nil rest = refl
  declare-tokens_of around outer (text_part t ps) rest =
      ap (λ ts. char_data t ∷ ts) (declare-tokens_of around outer ps rest)
  declare-tokens_of around outer (child_part t c ps) rest =
      ap (declare around outer) (append_assoc (tokens c) (tokens_of ps) rest)
      ∙ declare-tokens around outer c (tokens_of ps ++ rest)
      ∙ ap (λ ts. tokens (declared around c) ++ ts) (declare-tokens_of around outer ps rest)
      ∙ sym (
          append_assoc (tokens (declared around c)) (tokens_of (declared_parts around ps))
            (declare around outer rest))

mutual
  unfolding declared

  pub declared-IsCompact :
      (around : String) (n : Node) → IsCompact n → IsCompact (declared around n)
  declared-IsCompact around (node q a ps) h = (h.0, declared_parts-AreCompact _ false ps h.1)

  declared_parts-AreCompact :
      (around : String) (after : Bool) (ps : Parts)
      → AreCompact after ps
      → AreCompact after (declared_parts around ps)
  declared_parts-AreCompact around after nil h = tt
  declared_parts-AreCompact around after (text_part t ps) h =
      (h.0, h.1, declared_parts-AreCompact around true ps h.2)
  declared_parts-AreCompact around after (child_part t c ps) h =
      (h.0, declared-IsCompact around c h.1, declared_parts-AreCompact around false ps h.2)

module _ (W : Wire) (law : IsWire W) where
  -- What is read where a node's tokens went over the wire.
  pub parse_node-decode :
      (n : Node)
      → IsCompact n
      → CanCarry W n
      → parse_node (W.decode (tokens n)) ≡ ok (declared "" n)
  unfolding declare
  parse_node-decode n h c =
      ap parse_node
        (law n h c ∙ ap (declare "" []) (sym (append-nil (tokens n))) ∙ declare-tokens "" [] n [])
      ∙ parse_tokens (declared "" n) [] (declared-IsCompact "" n h)

  -- Let the encoder and the decoder treat namespaces as `IsWire` says, and let a node be compact
  -- (named elements, no empty text and no two texts side by side) and made of what XML can carry. It
  -- is marshalled, and what the decoder gives for its text is read as that node with its namespaces
  -- declared: each element that has a namespace gets an attribute `xmlns` for it in front of its
  -- attributes, and one that has none gets the namespace around it.
  pub parse_node-marshal :
      (n : Node)
      → IsCompact n
      → CanCarry W n
      → (ts : List Token) × (marshal n ≡ ok ts) × (parse_node (W.decode ts) ≡ ok (declared "" n))
  parse_node-marshal n h c = (tokens n, marshal-tokens n h, parse_node-decode n h c)
