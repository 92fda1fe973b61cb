-- ===== src/Sasl.antt =====
-- xmpp/sasl.go: the choice of a mechanism, and the exchanges.
pub mod Scram
pub mod Choice
pub mod Exchange
mod Tests
use slixmpp_go.Common.{
  Bool, true, false, not, ◌||◌, ◌&&◌, Option, none, some, List, [], ◌∷◌, ◌++◌, map, String, ◌==◌,
  ◌!=◌, string_eq, if◌then◌else◌,
}
use slixmpp_go.Common.Result.{Result, ok, err, ◌>>=◌}
use slixmpp_go.Common.Text.{Unicode, trim_space}
use slixmpp_go.Node.{Node, name, text, children, child, new_node, set_attr, add_text}
use slixmpp_go.Node.Build.{each}
use slixmpp_go.Transport.{
  Connection, StreamError, sasl_failure, no_mechanisms, no_mechanism, bad_response, element, write,
  read_node,
}

abbrev pub sasl_ns : String
sasl_ns = "urn:ietf:params:xml:ns:xmpp-sasl"

abbrev pub is_in : String → List String → Bool
is_in m [] = false
is_in m (x ∷ xs) = x == m || is_in m xs

-- `saslFailure`: the condition is the last child that is not the text.
abbrev pub failure_child : Node → String × String → String × String
failure_child c (condition, words) =
    if (name c).local == "text" then (condition, text c) else ((name c).local, words)

unfoldable pub failure_of : Node → StreamError
failure_of n =
    let (condition, words) = each failure_child (children n) ("failure", "") in
    sasl_failure condition words

-- The `switch` of `selectSASLMechanism`.
unfoldable pub is_usable : Bool → Bool → String → String → Bool
is_usable tls certificate password m =
    if m == "PLAIN"
    then not (password == "" || not tls)
    else if m == "EXTERNAL"
    then not (not certificate || not tls)
    else if m == "SCRAM-SHA-1" || m == "SCRAM-SHA-256"
    then not (password == "")
    else m == "ANONYMOUS"

-- `U` and `upper` stand for `strings.TrimSpace` and `strings.ToUpper`.
module _ (U : Unicode) (upper : String → String) where
  abbrev pub mechanism_texts : List Node → List String
  mechanism_texts [] = []
  mechanism_texts (c ∷ cs) =
      if (name c).local == "mechanism"
      then trim_space U (text c) ∷ mechanism_texts cs
      else mechanism_texts cs

  abbrev pub texts_below : Option Node → List String
  texts_below none = []
  texts_below (some n) = mechanism_texts (children n)

  -- `offeredSASLMechanisms`
  unfoldable pub offered_mechanisms : Node → List String
  offered_mechanisms features = texts_below (child sasl_ns "mechanisms" features)

  abbrev pub normal : String → String
  normal m = upper (trim_space U m)

  -- The loop over the preferred mechanisms; `available` is the set of the offered ones.
  unfoldable pub first_usable : List String → Bool → Bool → String → List String → Option String
  first_usable available tls certificate password [] = none
  first_usable available tls certificate password (p ∷ ps) =
      if is_in (normal p) available && is_usable tls certificate password (normal p)
      then some (normal p)
      else first_usable available tls certificate password ps

  abbrev pub selected : Option String → Result StreamError String
  selected none = err no_mechanism
  selected (some m) = ok m

  -- `selectSASLMechanism`
  abbrev pub select : List String → List String → Bool → Bool → String → Result StreamError String
  select preferred offered tls certificate password =
      selected (first_usable (map normal offered) tls certificate password preferred)

-- The end of a simple exchange.
unfoldable pub simple_response : Node → Connection → Result StreamError Connection
simple_response n k =
    if (name n).space == sasl_ns && (name n).local == "success"
    then ok k
    else if (name n).space == sasl_ns && (name n).local == "failure"
    then err (failure_of n)
    else err bad_response

abbrev pub with_initial : Option String → Node → Node
with_initial none n = n
with_initial (some encoded) n = add_text encoded n

-- `simpleSASL`; `initial` is the initial response as base64 text.
unfoldable pub simple_sasl : String → Option String → Connection → Result StreamError Connection
simple_sasl mechanism initial k = do
  k ←
      write
        (element (with_initial initial (set_attr "mechanism" mechanism (new_node sasl_ns "auth"))))
        k
  (n, k) ← read_node k
  simple_response n k
