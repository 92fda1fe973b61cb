-- ===== src/Node/Tokens.antt =====
-- `MarshalXML`, `UnmarshalXML` and `ParseNode` of xmpp/node.go, on the tokens that they exchange
-- with the encoder and the decoder of encoding/xml. The text of the tokens is not modelled.
pub mod RoundTrip
pub mod Wire
use slixmpp_go.Common.{
  ℕ, zero, suc, Bool, true, false, ◌||◌, ◌&&◌, Option, none, some, List, [], ◌∷◌, ◌++◌, String,
  ◌==◌, string_eq, if◌then◌else◌, length,
}
use slixmpp_go.Common.Result.{Result, ok, err, ◌>>=◌, ◌>>◌, reject_if}
use slixmpp_go.Node.{
  Node, Parts, node, nil, text_part, child_part, Attr, QName, add_text, add_child,
}

pub data Token : Type 0 where
  start_element : QName → List Attr → Token
  char_data : String → Token
  end_element : QName → Token

pub data XmlError : Type 0 where
  no_local_name unexpected_eof out_of_fuel : XmlError

-- `MarshalXML`: a node without a local name is refused, at any depth.
unfoldable mutual
  pub marshal : Node → Result XmlError (List Token)
  marshal (node q a ps) =
      if q.local == ""
      then err no_local_name
      else marshal_parts ps >>= λ body. ok (start_element q a ∷ (body ++ (end_element q ∷ [])))

  pub marshal_parts : Parts → Result XmlError (List Token)
  marshal_parts nil = ok []
  marshal_parts (text_part t ps) =
      marshal_parts ps >>= λ more. ok (if t == "" then more else char_data t ∷ more)
  marshal_parts (child_part _ c ps) =
      marshal c >>= λ first. marshal_parts ps >>= λ more. ok (first ++ more)

-- The test of an end element's name in `UnmarshalXML`.
abbrev pub same_name : QName → QName → Bool
same_name p q = p.space == q.space && p.local == q.local

-- The loop of `UnmarshalXML`, with the node read so far, and the tokens that it leaves. A child is
-- read by a loop of its own (`DecodeElement` calls `UnmarshalXML`). Each round takes a token.
unfoldable pub read_content : ℕ → QName → Node → List Token → Result XmlError (Node × List Token)
read_content zero start n ts = err out_of_fuel
read_content (suc fuel) start n [] = err unexpected_eof
read_content (suc fuel) start n (start_element q a ∷ ts) =
    read_content fuel q (node q a nil) ts >>= λ (c, rest).
    read_content fuel start (add_child c n) rest
read_content (suc fuel) start n (char_data s ∷ ts) = read_content fuel start (add_text s n) ts
read_content (suc fuel) start n (end_element q ∷ ts) =
    let more = read_content fuel start n ts in if same_name q start then ok (n, ts) else more

-- `ParseNode`: the first element of the stream.
unfoldable pub parse_node : List Token → Result XmlError Node
unfolding read_content
parse_node [] = err unexpected_eof
parse_node (start_element q a ∷ ts) =
    read_content (suc (length ts)) q (node q a nil) ts >>= λ (n, _). ok n
parse_node (char_data _ ∷ ts) = parse_node ts
parse_node (end_element _ ∷ ts) = parse_node ts
