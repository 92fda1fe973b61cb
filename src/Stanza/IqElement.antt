-- ===== src/Stanza/IqElement.antt =====
-- xmpp/stanza.go: the tokens of an IQ are those of one element.
use slixmpp_go.Common.{
  ◌≡◌, ◌≢◌, refl, sym, ◌∙◌, ap, false, Option, none, some, String, ◌==◌, string_eq, List, [], ◌∷◌,
  ◌++◌, arith, All,
}
use mathlib.Core.List.{append_assoc, append-nil}
use slixmpp_go.Common.Result.{ok}
use slixmpp_go.Node.{Node, Parts, node, nil, child_part, name}
use slixmpp_go.Node.Tokens.{start_element}
use slixmpp_go.Node.Tokens.RoundTrip.{IsCompact, AreCompact, tokens, tokens_of, marshal-tokens}
use slixmpp_go.Stanza.{Iq, StanzaError}
use slixmpp_go.Stanza.Tokens.{
  plain, stanza_attrs, embed, encoded, encode_nodes, encode_stanza_error, error_node, finish,
  marshal_iq,
}
use slixmpp_go.Stanza.ErrorLaws
use slixmpp_go.Stanza.ErrorLaws.{each-append, name-error_node, stanza_error_from_node-error_node}

abbrev pub parts_of : List Node → Parts
parts_of [] = nil
parts_of (n ∷ ns) = child_part "" n (parts_of ns)

abbrev pub error_nodes : Option StanzaError → List Node
error_nodes none = []
error_nodes (some e) = error_node e ∷ []

-- The element that `IQ.MarshalXML` writes.
abbrev pub iq_element : Iq → Node
iq_element i =
    node (plain "iq") (stanza_attrs i.from i.to i.id i.kind "")
      (parts_of (i.payloads ++ error_nodes i.error))

abbrev pub IsPayload : Node → Type 0
IsPayload n = IsCompact n × (((name n).local == "error") ≡ false)

abbrev pub IsNormalError : Option StanzaError → Type 0
IsNormalError none = Unit
IsNormalError (some e) = ErrorLaws.IsNormal e × IsCompact (error_node e)

pub record IsNormal (i : Iq) : Type 0 where
  pub id_given : i.id ≢ ""
  pub kind_given : i.kind ≢ ""
  pub payloads_normal : All IsPayload i.payloads
  pub error_normal : IsNormalError i.error

encoded-tokens : (n : Node) → IsCompact n → encoded n ≡ ok (tokens n)
encoded-tokens n h = ap embed (marshal-tokens n h)

encode_nodes-tokens :
    (ns : List Node) → All IsPayload ns → encode_nodes ns ≡ ok (tokens_of (parts_of ns))
unfolding encode_nodes tokens
encode_nodes-tokens [] h = refl
encode_nodes-tokens (n ∷ ns) h = rw (encoded-tokens n h.0.0, encode_nodes-tokens ns h.1) refl

tokens_of-parts_of :
    (xs ys : List Node)
    → tokens_of (parts_of (xs ++ ys)) ≡ tokens_of (parts_of xs) ++ tokens_of (parts_of ys)
unfolding tokens
tokens_of-parts_of [] ys = refl
tokens_of-parts_of (x ∷ xs) ys =
    ap (λ r. tokens x ++ r) (tokens_of-parts_of xs ys)
    ∙ sym (append_assoc (tokens x) (tokens_of (parts_of xs)) (tokens_of (parts_of ys)))

encode_stanza_error-tokens :
    (e : Option StanzaError)
    → IsNormalError e
    → encode_stanza_error e ≡ ok (tokens_of (parts_of (error_nodes e)))
unfolding encode_stanza_error tokens
encode_stanza_error-tokens none h = refl
encode_stanza_error-tokens (some e) h =
    encoded-tokens (error_node e) h.1 ∙ ap ok (sym (append-nil (tokens (error_node e))))

not_empty : (s : String) → s ≢ "" → (s == "") ≡ false
not_empty s h = ground arith

pub marshal_iq-tokens : (i : Iq) → IsNormal i → marshal_iq i ≡ ok (tokens (iq_element i))
unfolding marshal_iq finish tokens
marshal_iq-tokens i n =
    rw
      (
        not_empty i.id n.id_given,
        not_empty i.kind n.kind_given,
        encode_nodes-tokens i.payloads n.payloads_normal,
        encode_stanza_error-tokens i.error n.error_normal,
        tokens_of-parts_of i.payloads (error_nodes i.error),
      )
      (ap (λ r. ok (start_element (plain "iq") (stanza_attrs i.from i.to i.id i.kind "") ∷ r))
        (sym (
          append_assoc (tokens_of (parts_of i.payloads))
            (tokens_of (parts_of (error_nodes i.error))) _)))

parts_of-AreCompact :
    (ns : List Node) (e : Option StanzaError)
    → All IsPayload ns
    → IsNormalError e
    → AreCompact false (parts_of (ns ++ error_nodes e))
parts_of-AreCompact [] none h k = tt
parts_of-AreCompact [] (some e) h k = (refl, k.1, tt)
parts_of-AreCompact (n ∷ ns) e h k = (refl, h.0.0, parts_of-AreCompact ns e h.1 k)

pub iq_element-IsCompact : (i : Iq) → IsNormal i → IsCompact (iq_element i)
iq_element-IsCompact i n =
    (λ h. cc, parts_of-AreCompact i.payloads i.error n.payloads_normal n.error_normal)
