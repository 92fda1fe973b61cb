-- ===== src/Node/Tests.antt =====
-- The theorems on nodes at concrete data.
use slixmpp_go.Common.{◌≡◌, refl, true, List, [], ◌∷◌, String, string_eq}
use slixmpp_go.Common.Result.{ok}
use slixmpp_go.Node.{
  Node, node, nil, text_part, child_part, new_node, add_child, add_text, set_attr, set_attr_ns,
}
use slixmpp_go.Node.Tokens.{Token, marshal, parse_node}
use slixmpp_go.Node.Tokens.RoundTrip.{IsCompact, tokens}
use slixmpp_go.Node.Tokens.Wire.{Wire, CanCarry, declare, declared, parse_node-marshal}

-- <message xmlns='jabber:client' to='a@b'>hi<body>hello</body></message>
abbrev body : Node
body = node (record { space = "jabber:client"; local = "body" }) [] (text_part "hello" nil)

abbrev message : Node
message =
    node (record { space = "jabber:client"; local = "message" })
      (record { name = record { space = ""; local = "to" }; value = "a@b" } ∷ [])
      (text_part "hi" (child_part "" body nil))

built :
    add_child body (add_text "hi" (set_attr "to" "a@b" (new_node "jabber:client" "message")))
    ≡ message
unfolding add_child add_text set_attr_ns string_eq
built = refl

message-IsCompact : IsCompact message
message-IsCompact = (λ h. cc, (refl, λ h. cc, (refl, (λ h. cc, (refl, λ h. cc, tt)), tt)))

abbrev empty : String
empty = ""

abbrev to : String
to = "to"

-- Every token is carried.
abbrev wire : Wire
wire = record { writes = λ t. true; decode = declare "" [] }

message-CanCarry : CanCarry wire message
unfolding tokens
message-CanCarry = (refl, (refl, (refl, (refl, (refl, (refl, tt))))))

-- <body xmlns='jabber:client'> is read with its attribute.
declared_test :
    declared "" body
    ≡ node
        (record { space = "jabber:client"; local = "body" })
        (record { name = record { space = ""; local = "xmlns" }; value = "jabber:client" } ∷ [])
        (text_part "hello" nil)
unfolding declared string_eq
declared_test = refl

parse_node-marshal_example :
    (ts : List Token) × (marshal message ≡ ok ts)
    × (parse_node (wire.decode ts) ≡ ok (declared "" message))
parse_node-marshal_example =
    parse_node-marshal wire (λ n h c. refl) message message-IsCompact message-CanCarry
