-- ===== src/Stanza/IqLaws.antt =====
-- xmpp/stanza.go: an IQ is written as tokens and read back.
use slixmpp_go.Common.{
  ◌≡◌, refl, sym, ◌∙◌, ap, Bool, true, false, ◌&&◌, Option, none, some, String, ◌==◌, ==-refl,
  ==_iff, string_eq, List, [], ◌∷◌, ◌++◌, map, Bool-cases, inl, inr, All,
}
use mathlib.Core.List.{append_assoc, append-nil}
use slixmpp_go.Common.Int.{ℤ}
use slixmpp_go.Common.Result.{ok}
use slixmpp_go.Common.Text.{Unicode}
use slixmpp_go.Node.{
  Node, Parts, node, nil, text_part, child_part, Attr, QName, attr_value_ns, find_attr, or_empty,
  clone, children, children_of,
}
use slixmpp_go.Node.Tidy.{IsTidy, AreTidy, clone_tidy}
use slixmpp_go.Node.Tokens.{Token}
use slixmpp_go.Node.Tokens.RoundTrip.{IsCompact, AreCompact, tokens}
use slixmpp_go.Node.Tokens.Wire.{
  Wire, IsWire, CanCarry, declared, declared_parts, declared-IsCompact, parse_node-decode,
}
use slixmpp_go.Stanza.ErrorWire.{name-declared, declared_error, stanza_error_from_node-declared}
use slixmpp_go.Stanza.{Iq, StanzaError, iq, iq_child, each, stanza_from_node, xml_ns}
use slixmpp_go.Stanza.Tokens.{
  plain, given, stanza_attrs, error_node, marshal_iq, parse_stanza, read_root, supported,
}
use slixmpp_go.Stanza.ErrorLaws.{each-append, name-error_node}
use slixmpp_go.Stanza.IqElement.{
  parts_of, error_nodes, iq_element, IsPayload, IsNormalError, IsNormal, marshal_iq-tokens,
  iq_element-IsCompact,
}

children-parts_of : (ns : List Node) → children_of (parts_of ns) ≡ map clone ns
unfolding children_of
children-parts_of [] = refl
children-parts_of (n ∷ ns) = ap (◌∷◌ (clone n)) (children-parts_of ns)

mutual
  IsCompact-IsTidy : (n : Node) → IsCompact n → IsTidy n
  IsCompact-IsTidy (node q a ps) h = AreCompact-AreTidy false ps h.1

  AreCompact-AreTidy : (after : Bool) (ps : Parts) → AreCompact after ps → AreTidy ps
  AreCompact-AreTidy after nil h = tt
  AreCompact-AreTidy after (text_part t ps) h = AreCompact-AreTidy true ps h.2
  AreCompact-AreTidy after (child_part t c ps) h =
      (h.0, IsCompact-IsTidy c h.1, AreCompact-AreTidy false ps h.2)

iq_child-payload :
    (n : Node) (i : Iq)
    → IsPayload n
    → iq_child (clone n) i ≡ record i { payloads = i.payloads ++ (n ∷ []) }
unfolding iq_child
iq_child-payload n i h = rw (clone_tidy n (IsCompact-IsTidy n h.0), h.1) refl

each-payload :
    (ns : List Node) (i : Iq)
    → All IsPayload ns
    → each iq_child (map clone ns) i ≡ record i { payloads = i.payloads ++ ns }
each-payload [] i h = ap (λ l. record i { payloads = l }) (sym (append-nil i.payloads))
each-payload (n ∷ ns) i h =
    ap (each iq_child (map clone ns)) (iq_child-payload n i h.0)
    ∙ each-payload ns (record i { payloads = i.payloads ++ (n ∷ []) }) h.1
    ∙ ap (λ l. record i { payloads = l }) (append_assoc i.payloads (n ∷ []) ns)

abbrev error_name : String
error_name = "error"

-- An error element comes back with its namespaces declared.
abbrev pub declared_option : Option StanzaError → Option StanzaError
declared_option none = none
declared_option (some e) = some (declared_error e)

each-error :
    (e : Option StanzaError) (i : Iq)
    → IsNormalError e
    → i.error ≡ none
    → each iq_child (map clone (map (declared "") (error_nodes e))) i
      ≡ record i { error = declared_option e }
unfolding iq_child
each-error none i h free = ap (λ o. record i { error = o }) free
each-error (some e) i h free =
    rw
      (
        clone_tidy (declared "" (error_node e)) (
            IsCompact-IsTidy (declared "" (error_node e))
              (declared-IsCompact "" (error_node e) h.1)),
        name-declared (error_node e),
        name-error_node e,
        ==-refl error_name,
        stanza_error_from_node-declared e h.0,
      )
      refl

declared-IsPayload : (n : Node) → IsPayload n → IsPayload (declared "" n)
declared-IsPayload n h =
    (declared-IsCompact "" n h.0, ap (λ q. q.local == "error") (name-declared n) ∙ h.1)

declared-payloads : (ns : List Node) → All IsPayload ns → All IsPayload (map (declared "") ns)
declared-payloads [] h = tt
declared-payloads (n ∷ ns) h = (declared-IsPayload n h.0, declared-payloads ns h.1)

find_attr-miss :
    (ns l v : String) (q : QName) (rest : List Attr)
    → (q.space == ns && q.local == l) ≡ false
    → find_attr ns l (given q v ++ rest) ≡ find_attr ns l rest
unfolding given find_attr
find_attr-miss ns l v q rest h = elim (Bool-cases (v == "")) [
  | inl e ↦ rw e refl
  | inr e ↦ rw (e, h) refl
]

find_attr-hit :
    (ns l v : String) (q : QName) (rest : List Attr)
    → (q.space == ns && q.local == l) ≡ true
    → find_attr ns l rest ≡ none
    → or_empty (find_attr ns l (given q v ++ rest)) ≡ v
unfolding given find_attr
find_attr-hit ns l v q rest h gone = elim (Bool-cases (v == "")) [
  | inl e ↦ rw e (ap or_empty gone ∙ sym ((==_iff v "").0 e))
  | inr e ↦ rw (e, h) refl
]

lang_absent :
    (k : String) → find_attr "" k (given (record { space = xml_ns; local = "lang" }) "") ≡ none
unfolding given find_attr string_eq
lang_absent k = refl

module _ (from to id kind : String) where
  abbrev read : String → String
  read k = or_empty (find_attr "" k (stanza_attrs from to id kind ""))

  read-from : read "from" ≡ from
  unfolding string_eq
  read-from = find_attr-hit "" "from" from (plain "from") _ refl (
      find_attr-miss "" "from" to (plain "to") _ refl
      ∙ find_attr-miss "" "from" id (plain "id") _ refl
      ∙ find_attr-miss "" "from" kind (plain "type") _ refl
      ∙ lang_absent "from")

  read-to : read "to" ≡ to
  unfolding string_eq
  read-to =
      ap or_empty (find_attr-miss "" "to" from (plain "from") _ refl)
      ∙ find_attr-hit "" "to" to (plain "to") _ refl (
          find_attr-miss "" "to" id (plain "id") _ refl
          ∙ find_attr-miss "" "to" kind (plain "type") _ refl
          ∙ lang_absent "to")

  read-id : read "id" ≡ id
  unfolding string_eq
  read-id =
      ap or_empty (find_attr-miss "" "id" from (plain "from") _ refl)
      ∙ ap or_empty (find_attr-miss "" "id" to (plain "to") _ refl)
      ∙ find_attr-hit "" "id" id (plain "id") _ refl
          (find_attr-miss "" "id" kind (plain "type") _ refl ∙ lang_absent "id")

  read-kind : read "type" ≡ kind
  unfolding string_eq
  read-kind =
      ap or_empty (find_attr-miss "" "type" from (plain "from") _ refl)
      ∙ ap or_empty (find_attr-miss "" "type" to (plain "to") _ refl)
      ∙ ap or_empty (find_attr-miss "" "type" id (plain "id") _ refl)
      ∙ find_attr-hit "" "type" kind (plain "type") _ refl (lang_absent "type")

-- The element of an IQ with any parts.
abbrev root : Iq → Parts → Node
root i ps = node (plain "iq") (stanza_attrs i.from i.to i.id i.kind "") ps

iq-read :
    (U : Unicode) (atoi : String → Option ℤ) (i : Iq) (ps : Parts)
    → stanza_from_node U atoi (root i ps)
      ≡ some (
          iq (
            each iq_child (children (root i ps)) (record {
              from = i.from;
              to = i.to;
              id = i.id;
              kind = i.kind;
              payloads = [];
              error = none;
            })))
unfolding stanza_from_node string_eq attr_value_ns
iq-read U atoi i ps =
    rw
      (
        read-from i.from i.to i.id i.kind,
        read-to i.from i.to i.id i.kind,
        read-id i.from i.to i.id i.kind,
        read-kind i.from i.to i.id i.kind,
      )
      refl

map-append : (f : Node → Node) (xs ys : List Node) → map f (xs ++ ys) ≡ map f xs ++ map f ys
map-append f [] ys = refl
map-append f (x ∷ xs) ys = ap (◌∷◌ (f x)) (map-append f xs ys)

declared_parts-parts_of :
    (around : String) (ns : List Node)
    → declared_parts around (parts_of ns) ≡ parts_of (map (declared around) ns)
unfolding declared
declared_parts-parts_of around [] = refl
declared_parts-parts_of around (n ∷ ns) =
    ap (child_part "" (declared around n)) (declared_parts-parts_of around ns)

declared-iq_element :
    (i : Iq)
    → declared "" (iq_element i)
      ≡ root i (parts_of (map (declared "") i.payloads ++ map (declared "") (error_nodes i.error)))
unfolding declared string_eq
declared-iq_element i = ap (root i) (
    declared_parts-parts_of "" (i.payloads ++ error_nodes i.error)
    ∙ ap parts_of (map-append (declared "") i.payloads (error_nodes i.error)))

each-children :
    (i j : Iq)
    → IsNormal i
    → j.payloads ≡ []
    → j.error ≡ none
    → each iq_child
        (map clone (map (declared "") i.payloads ++ map (declared "") (error_nodes i.error)))
        j
      ≡ record j { payloads = map (declared "") i.payloads; error = declared_option i.error }
each-children i j n none_yet no_error =
    let payloads = map (declared "") i.payloads in
    rw
      (
        map-append clone payloads (map (declared "") (error_nodes i.error)),
        each-append iq_child (map clone payloads)
            (map clone (map (declared "") (error_nodes i.error))) j,
        each-payload payloads j (declared-payloads i.payloads n.payloads_normal),
        each-error i.error (record j { payloads = j.payloads ++ payloads }) n.error_normal no_error,
        none_yet,
      )
      refl

-- An IQ whose payloads and whose error's elements come back with their namespaces declared.
abbrev pub declared_iq : Iq → Iq
declared_iq i = record i {
  payloads = map (declared "") i.payloads;
  error = declared_option i.error;
}

read-declared :
    (U : Unicode) (atoi : String → Option ℤ) (i : Iq)
    → IsNormal i
    → stanza_from_node U atoi (declared "" (iq_element i)) ≡ some (iq (declared_iq i))
unfolding children
read-declared U atoi i n =
    let nodes = map (declared "") i.payloads ++ map (declared "") (error_nodes i.error) in
    ap (stanza_from_node U atoi) (declared-iq_element i)
    ∙ iq-read U atoi i (parts_of nodes)
    ∙ ap (λ cs. some (iq (each iq_child cs (record i { payloads = []; error = none }))))
        (children-parts_of nodes)
    ∙ ap (λ j. some (iq j)) (each-children i _ n refl refl)

-- Let the encoder and the decoder treat namespaces as `IsWire` says, and let an IQ have an id, a
-- type, compact payloads that are not named `error`, and no error or a normal one, all of what XML
-- can carry. It is marshalled, and what the decoder gives for its text is parsed as that IQ, with
-- the namespaces declared in the payloads and in the error's elements of the application: each
-- element that has a namespace gets an attribute `xmlns`, and one that has none inside it gets the
-- namespace around it.
pub parse_stanza-marshal_iq :
    (W : Wire) (U : Unicode) (atoi : String → Option ℤ) (i : Iq)
    → IsWire W
    → IsNormal i
    → CanCarry W (iq_element i)
    → (ts : List Token) × (marshal_iq i ≡ ok ts)
      × (parse_stanza U atoi (W.decode ts) ≡ ok (iq (declared_iq i)))
unfolding parse_stanza
parse_stanza-marshal_iq W U atoi i law n c = (
  tokens (iq_element i),
  marshal_iq-tokens i n,
  ap (read_root U atoi) (parse_node-decode W law (iq_element i) (iq_element-IsCompact i n) c)
      ∙ ap (supported U atoi) (read-declared U atoi i n),
)
