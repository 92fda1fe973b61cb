-- ===== src/Transport.antt =====
-- xmpp/client.go: the connection under a client. The peer is a script: the tokens that the decoder
-- will give, what it would give after a TLS handshake, and how many writes succeed. Tokens that the
-- decoder has read ahead when it is replaced stay in the script.
use slixmpp_go.Common.{
  ℕ, zero, suc, Bool, true, ◌&&◌, Option, none, some, List, [], ◌∷◌, ◌++◌, String, ◌==◌, string_eq,
  if◌then◌else◌,
}
use slixmpp_go.Common.Result.{Result, ok, err, ◌>>=◌}
use slixmpp_go.Node.{Node, QName, Attr, name}
use slixmpp_go.Stanza.{Iq, Presence}

abbrev pub stream_ns : String
stream_ns = "http://etherx.jabber.org/streams"

abbrev pub start_tls_ns : String
start_tls_ns = "urn:ietf:params:xml:ns:xmpp-tls"

abbrev pub bind_ns : String
bind_ns = "urn:ietf:params:xml:ns:xmpp-bind"

abbrev pub session_ns : String
session_ns = "urn:ietf:params:xml:ns:xmpp-session"

-- `Decoder.Token` on the stream. A start tag stands with its attributes and with what `DecodeElement` would make of its
-- element, none where that fails.
pub data StreamToken : Type 0 where
  start_tag : QName → List Attr → Option Node → StreamToken
  end_tag : QName → StreamToken
  between : StreamToken

-- What the client writes.
pub data Sent : Type 0 where
  opening : (domain language : String) → Sent
  element : Node → Sent
  request : Iq → Sent
  stanza : Presence → Sent
  component_opening : (domain : String) → Sent

pub record Connection : Type 0 where
  pub secured : Bool
  pub incoming : List StreamToken
  pub handshake : Option (List StreamToken)
  pub writes_left : ℕ
  pub sent : List Sent

-- The errors of the connection, and those that the steps of `Connect` add.
pub data StreamError : Type 0 where
  read_failed decode_failed write_failed closed handshake_failed : StreamError
  not_a_stream not_features tls_rejected tls_required : StreamError
  no_mechanisms no_mechanism bad_response bad_scram no_nonce : StreamError
  sasl_failure : String → String → StreamError
  no_bind bad_bind bad_stanza iq_failed iq_unexpected cancelled : StreamError
  no_stream_id handshake_rejected not_connected already_connected unresolved dial_failed :
      StreamError

-- `writeRaw`: an element goes out whole or the call fails.
unfoldable pub write_left : ℕ → Sent → Connection → Result StreamError Connection
write_left zero s k = err write_failed
write_left (suc n) s k = ok (record k { writes_left = n; sent = k.sent ++ (s ∷ []) })

unfoldable pub write : Sent → Connection → Result StreamError Connection
write s k = write_left k.writes_left s k

abbrev pub is_stream : QName → Bool
is_stream q = q.local == "stream" && q.space == stream_ns

-- The loop of `readTopLevelNode`; the input's end is an error of the decoder.
unfoldable pub read_tokens : List StreamToken → Result StreamError (Node × List StreamToken)
read_tokens [] = err read_failed
read_tokens (start_tag q a none ∷ rest) = err decode_failed
read_tokens (start_tag q a (some n) ∷ rest) = ok (n, rest)
read_tokens (end_tag q ∷ rest) =
    let more = read_tokens rest in if is_stream q then err closed else more
read_tokens (between ∷ rest) = read_tokens rest

-- `readTopLevelNode`
unfoldable pub read_node : Connection → Result StreamError (Node × Connection)
read_node k = read_tokens k.incoming >>= (λ r. ok (r.0, record k { incoming = r.1 }))

-- The loop of `openAndReadFeatures` that waits for the stream's start tag.
unfoldable pub await_stream : List StreamToken → Result StreamError (List StreamToken)
await_stream [] = err read_failed
await_stream (start_tag q a n ∷ rest) = if is_stream q then ok rest else err not_a_stream
await_stream (end_tag q ∷ rest) = await_stream rest
await_stream (between ∷ rest) = await_stream rest

abbrev pub is_features : Node → Bool
is_features n = (name n).local == "features" && (name n).space == stream_ns

-- `openAndReadFeatures`
unfoldable pub open_stream : String → String → Connection → Result StreamError (Node × Connection)
open_stream domain language k = do
  k ← write (opening domain language) k
  rest ← await_stream k.incoming
  (features, k) ← read_node (record k { incoming = rest })
  if is_features features then ok (features, k) else err not_features

-- A TLS handshake, as of `tls.Client` on the connection.
abbrev pub secure : Connection → Result StreamError Connection
secure k = secured_by k.handshake
  where
    secured_by : Option (List StreamToken) → Result StreamError Connection
    secured_by none = err handshake_failed
    secured_by (some tokens) = ok (record k { secured = true; incoming = tokens; handshake = none })
