-- ===== src/Stanza/Tokens.antt =====
-- The `MarshalXML` methods of xmpp/stanza.go, as the tokens that they write. An element with a text
-- is written by `EncodeElement` of encoding/xml: a start, the text if there is one, and an end.
use slixmpp_go.Common.{
  ◌||◌, ◌&&◌, Option, none, some, List, [], ◌∷◌, ◌++◌, String, ◌==◌, ◌!=◌, string_eq, if◌then◌else◌,
}
use slixmpp_go.Common.Int.{ℤ, pos, negsuc, lt_int}
use slixmpp_go.Common.Result.{Result, ok, err, ◌>>=◌, ◌>>◌, reject_if}
use slixmpp_go.Common.Text.{Unicode}
use slixmpp_go.Node.{Node, QName, Attr, new_node, new_text_node, set_attr, add_child}
use slixmpp_go.Node.Tokens.{
  Token, XmlError, marshal, parse_node, start_element, char_data, end_element,
}
use slixmpp_go.Stanza.{
  LangText, StanzaError, Message, Presence, Iq, Stanza, stanza_from_node, xml_ns, stanza_error_ns,
}

pub data MarshalError : Type 0 where
  no_id no_type priority_range : MarshalError
  xml_error : XmlError → MarshalError

abbrev pub plain : String → QName
plain local = record { space = ""; local = local }

unfoldable pub given : QName → String → List Attr
given q value = if value != "" then record { name = q; value = value } ∷ [] else []

-- `stanzaStart`: its attributes.
abbrev pub stanza_attrs : String → String → String → String → String → List Attr
stanza_attrs from to id kind lang =
    given (plain "from") from
    ++ (given (plain "to") to
        ++ (given (plain "id") id
            ++ (given (plain "type") kind
                ++ given (record { space = xml_ns; local = "lang" }) lang)))

abbrev pub text_element : QName → List Attr → String → List Token
text_element q a value =
    start_element q a ∷ (if value == "" then [] else char_data value ∷ []) ++ (end_element q ∷ [])

-- `encodeLangText`
abbrev pub lang_text : String → LangText → List Token
lang_text local v =
    text_element (plain local) (given (record { space = xml_ns; local = "lang" }) v.lang) v.value

-- The field and the loop for a text in several languages.
abbrev pub other_texts : String → String → List LangText → List Token
other_texts local value [] = []
other_texts local value (v ∷ vs) =
    let rest = other_texts local value vs in
    if v.lang == "" && v.value == value then rest else lang_text local v ++ rest

abbrev pub all_texts : String → String → List LangText → List Token
all_texts local value vs =
    (if value != "" then lang_text local (record { lang = ""; value = value }) else [])
    ++ other_texts local value vs

-- An encoder's error is the error of the whole.
abbrev pub embed : Result XmlError (List Token) → Result MarshalError (List Token)
embed (ok ts) = ok ts
embed (err e) = err (xml_error e)

abbrev pub encoded : Node → Result MarshalError (List Token)
encoded n = embed (marshal n)

-- `encodeNodes`
unfoldable pub encode_nodes : List Node → Result MarshalError (List Token)
encode_nodes [] = ok []
encode_nodes (n ∷ ns) = encoded n >>= λ first. encode_nodes ns >>= λ more. ok (first ++ more)

abbrev pub add_application : List Node → Node → Node
add_application [] n = n
add_application (a ∷ more) n = add_application more (add_child a n)

abbrev pub set_by : String → Node → Node
set_by by n = if by == "" then n else set_attr "by" by n

abbrev pub add_condition : String → Node → Node
add_condition condition n =
    if condition == "" then n else add_child (new_node stanza_error_ns condition) n

abbrev pub add_error_text : String → Node → Node
add_error_text text n =
    if text == "" then n else add_child (new_text_node stanza_error_ns "text" text) n

-- The node that `encodeStanzaError` builds.
unfoldable pub error_node : StanzaError → Node
error_node e = add_application e.application (
    add_error_text e.text (
      add_condition e.condition (set_by e.by (set_attr "type" e.error_type (new_node "" "error")))))

-- `encodeStanzaError`
unfoldable pub encode_stanza_error : Option StanzaError → Result MarshalError (List Token)
unfolding error_node
encode_stanza_error none = ok []
encode_stanza_error (some e) = encoded (error_node e)

-- The tail that the three methods share: the nodes, the error and the end.
unfoldable pub finish :
    QName → List Token → List Node → Option StanzaError → Result MarshalError (List Token)
unfolding encode_nodes encode_stanza_error
finish q before nodes e = do
  nodes ← encode_nodes nodes
  error ← encode_stanza_error e
  ok (before ++ (nodes ++ (error ++ (end_element q ∷ []))))

-- `Message.MarshalXML`
unfoldable pub marshal_message : Message → Result MarshalError (List Token)
unfolding finish
marshal_message m =
    let q = plain "message" in
    finish q
      (start_element q (stanza_attrs m.from m.to m.id m.kind m.lang)
        ∷ (all_texts "subject" m.subject m.subjects
            ++ (all_texts "body" m.body m.bodies
                ++ (if m.thread != ""
                    then text_element (plain "thread") (given (plain "parent") m.parent) m.thread
                    else []))))
      m.extensions m.error

-- `Presence.MarshalXML`, with `strconv.Itoa`.
module _ (itoa : ℤ → String) where
  abbrev pub priority_element : Option ℤ → Result MarshalError (List Token)
  priority_element none = ok []
  priority_element (some v) =
      if lt_int v (negsuc 127) || lt_int (pos 127) v
      then err priority_range
      else ok (text_element (plain "priority") [] (itoa v))

  unfoldable pub marshal_presence : Presence → Result MarshalError (List Token)
  unfolding finish
  marshal_presence p =
      let q = plain "presence" in
      priority_element p.priority >>= λ priority.
      finish q
        (start_element q (stanza_attrs p.from p.to p.id p.kind p.lang)
          ∷ ((if p.show != "" then text_element (plain "show") [] p.show else [])
              ++ (all_texts "status" p.status p.statuses ++ priority)))
        p.extensions p.error

-- `IQ.MarshalXML`
unfoldable pub marshal_iq : Iq → Result MarshalError (List Token)
unfolding finish
marshal_iq i = do
  reject_if (i.id == "") no_id
  reject_if (i.kind == "") no_type
  finish (plain "iq") (start_element (plain "iq") (stanza_attrs i.from i.to i.id i.kind "") ∷ [])
      i.payloads i.error

pub data ParseError : Type 0 where
  bad_xml : XmlError → ParseError
  unsupported : ParseError

-- `ParseStanza`, on the tokens of its text.
module _ (U : Unicode) (atoi : String → Option ℤ) where
  abbrev pub supported : Option Stanza → Result ParseError Stanza
  supported none = err unsupported
  supported (some s) = ok s

  abbrev pub read_root : Result XmlError Node → Result ParseError Stanza
  read_root (ok root) = supported (stanza_from_node U atoi root)
  read_root (err e) = err (bad_xml e)

  unfoldable pub parse_stanza : List Token → Result ParseError Stanza
  parse_stanza ts = read_root (parse_node ts)
