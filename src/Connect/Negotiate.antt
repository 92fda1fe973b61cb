-- ===== src/Connect/Negotiate.antt =====
-- xmpp/client.go and xmpp/component.go: the steps of `Connect` and `connectComponent`, put together.
use Prim.Native.String.{◌++◌ as ◌<>◌}
use slixmpp_go.Common.{
  ℕ, Bool, true, false, ◌||◌, ◌&&◌, Option, none, some, List, [], ◌∷◌, String, ◌==◌, ◌!=◌,
  string_eq, if◌then◌else◌,
}
use slixmpp_go.Common.Int.{ℤ}
use slixmpp_go.Common.Result.{Result, ok, err}
use slixmpp_go.Common.Text.{Unicode, trim_suffix_byte}
use slixmpp_go.Config.{Config, text_or}
use slixmpp_go.Jid.{Jid, JidError, parse_jid}
use slixmpp_go.Node.{Node, Attr, name, new_node, new_text_node, add_child, child, child_text}
use slixmpp_go.Stanza.{Presence, payload}
use slixmpp_go.Transport.{
  Connection, StreamError, StreamToken, start_tag, end_tag, between, element, stanza,
  component_opening, already_connected, dial_failed, tls_required, no_bind, bad_bind, read_failed,
  not_a_stream, no_stream_id, handshake_rejected, start_tls_ns, bind_ns, session_ns, is_stream,
  secure,
}
use slixmpp_go.Connect.{
  Link, Step, ◌>>=◌, ◌>>◌, done, fail, on_link, no_value, send, receive, open_features, new_id,
  start_tls, sync_iq, empty_iq,
}

abbrev pub is_bind : Option Node → Bool
is_bind none = false
is_bind (some n) = (name n).space == bind_ns && (name n).local == "bind"

-- The bound JID's text: in the namespace of the element, or in none.
abbrev pub bound_text : Option Node → String
bound_text none = ""
bound_text (some n) =
    let value = child_text bind_ns "jid" n in if value == "" then child_text "" "jid" n else value

abbrev pub set_bound : Result JidError Jid → Step (Unit {0})
set_bound (ok j) l = (ok tt, record l { jid = j })
set_bound (err e) l = (err bad_bind, l)

abbrev pub is_there : Option Node → Bool
is_there none = false
is_there (some n) = true

-- A client: `closing` says that `Close` has been called, and `finished` that the body of `finish`
-- has run, which `doneOnce` guards.
pub record Client : Type 0 where
  pub link : Link
  pub closing : Bool
  pub finished : Bool

-- A step on the client's part, which leaves the two flags.
abbrev pub lifted {ℓ} : {A : Type ℓ} → Step A → Client → Result StreamError A × Client
lifted m d = let (r, l) = m d.link in (r, record d { link = l })

-- `net.JoinHostPort`, `strconv.Itoa`, the resolver (none where the look-up fails) and the dialer,
-- and what runs beside the end of `Connect`.
pub record Network : Type 0 where
  pub join_host_port : String → String → String
  pub port_text : ℕ → String
  pub look_up : (service domain : String) → Option (List (String × ℕ))
  pub dial : String → Option Connection
  pub meanwhile : Client → Client

module _ (N : Network) where
  abbrev pub first_target : List (String × ℕ) → String → String
  first_target [] default = default
  first_target ((target, port) ∷ records) default =
      let host = trim_suffix_byte "." target in
      if host != "" && host != "."
      then N.join_host_port host (N.port_text port)
      else first_target records default

  abbrev pub found_target : Option (List (String × ℕ)) → String → String
  found_target none default = default
  found_target (some records) default = first_target records default

  -- `resolveAddress`: its error is always nil.
  unfoldable pub resolve_address : Config → Jid → String
  resolve_address c j =
      if c.address != ""
      then c.address
      else if c.direct_tls
      then found_target (N.look_up "xmpps-client" j.domain) (N.join_host_port j.domain "5223")
      else found_target (N.look_up "xmpp-client" j.domain) (N.join_host_port j.domain "5222")

-- `failConnect`
abbrev pub cleared : Link → Link
cleared l = record l { connection = none; connected = false }

-- `finish`
abbrev pub finish : Client → Client
finish d =
    if d.finished then d else record { link = cleared d.link; closing = d.closing; finished = true }

-- `Close`: a second call does nothing but wait for `finish`. The plugins and the end tag of the
-- stream are left out, and so is the closing of the connection.
unfoldable pub close : Client → Client
close d = if d.closing then d else finish (record d { closing = true })

-- The part of `Connect` on TLS.
unfoldable pub negotiate_tls : Config → Node → Step Node
negotiate_tls c features =
    if c.direct_tls
    then done features
    else if is_there (child start_tls_ns "starttls" features)
    then start_tls >> open_features c
    else if c.require_tls
    then fail tls_required
    else done features

abbrev pub direct : Config → Connection → Result StreamError Connection
direct c k = if c.direct_tls then secure k else ok k

abbrev pub has_connection : Option Connection → Bool
has_connection none = false
has_connection (some k) = true

-- The last attribute named `id`, in any namespace.
abbrev pub stream_id : List Attr → String → String
stream_id [] old = old
stream_id (a ∷ more) old = stream_id more (if a.name.local == "id" then a.value else old)

-- The loop of `connectComponent` that waits for the stream's start tag.
unfoldable pub await_stream_id : List StreamToken → Result StreamError (String × List StreamToken)
await_stream_id [] = err read_failed
await_stream_id (start_tag q a n ∷ rest) =
    if is_stream q then ok (stream_id a "", rest) else err not_a_stream
await_stream_id (end_tag q ∷ rest) = await_stream_id rest
await_stream_id (between ∷ rest) = await_stream_id rest

abbrev pub take_id :
    Connection
    → Result StreamError (String × List StreamToken)
    → Result StreamError (String × Connection)
take_id k (ok (id, rest)) = ok (id, record k { incoming = rest })
take_id k (err e) = err e

abbrev pub component_ns : String
component_ns = "jabber:component:accept"

-- `sha1_hex` is the SHA-1 digest in hex.
module _ (sha1_hex : String → String) where
  abbrev pub is_handshake : Node → Bool
  is_handshake n = (name n).local == "handshake" && (name n).space == component_ns

  -- `connectComponent` from the opened stream to the answer, for the component's domain.
  unfoldable pub handshake_as : String → Config → Step (Unit {0})
  handshake_as domain c = do
    send (component_opening domain)
    id ← on_link (λ k. take_id k (await_stream_id k.incoming))
    if id == "" then fail no_stream_id else done tt
    send (element (new_text_node component_ns "handshake" (sha1_hex (id <> c.component_secret))))
    n ← receive
    if is_handshake n then done tt else fail handshake_rejected

  abbrev pub handshake : Config → Step (Unit {0})
  handshake c l = handshake_as l.jid.domain c l

module _ (U : Unicode) (atoi : String → Option ℤ) (base36 : ℕ → String) where
  -- `bindResource` for the resource that is asked for.
  unfoldable pub bind_as : String → Step (Unit {0})
  bind_as resource = do
    id ← new_id base36
    response ← sync_iq U atoi (record empty_iq {
      id = id;
      payloads =
          add_child (new_text_node bind_ns "resource" resource) (new_node bind_ns "bind") ∷ [];
    })
    if is_bind (payload response)
        then set_bound (parse_jid U (bound_text (payload response)))
        else fail bad_bind

  -- `bindResource`
  abbrev pub bind_resource : Step (Unit {0})
  bind_resource l = bind_as (text_or "slixmpp-go" l.jid.resource) l

  -- `startLegacySession`
  unfoldable pub start_session : Step (Unit {0})
  start_session = do
    id ← new_id base36
    response ←
        sync_iq U atoi (record empty_iq { id = id; payloads = new_node session_ns "session" ∷ [] })
    done tt

  -- `Connect` behind the authentication.
  unfoldable pub open_session : Config → Step (Unit {0})
  open_session c = do
    features ← open_features c
    if is_there (child bind_ns "bind" features) then bind_resource else fail no_bind
    if is_there (child session_ns "session" features) then start_session else done tt

  -- The end of `finishConnect`: a first presence that cannot be sent closes the client.
  abbrev pub close_on_error :
      Result StreamError (Unit {0}) × Client → Result StreamError (Unit {0}) × Client
  close_on_error (ok u, d) = (ok u, d)
  close_on_error (err e, d) = (err e, close d)

  abbrev pub with_id : String → Presence → Presence
  with_id id p = record p { id = id }

  abbrev pub send_presence : Presence → Step (Unit {0})
  send_presence p =
      if p.id == "" then new_id base36 >>= (λ id. send (stanza (with_id id p))) else send (stanza p)

  -- `finishConnect`. `meanwhile` is what the goroutine of `readLoop` and the subscribers of
  -- "connected" and "session_start" do to the client before the first presence.
  module _ (meanwhile : Client → Client) where
    unfoldable pub finish_connect :
        Config → Presence → Client → Result StreamError (Unit {0}) × Client
    unfolding close
    finish_connect c first d =
        let d = meanwhile (record d { link = record d.link { connected = true } }) in
        if c.auto_presence then close_on_error (lifted (send_presence first) d) else (ok tt, d)

    -- `failConnect` behind an error of the negotiation, or the end of `Connect`.
    abbrev pub end_connect :
        Config
        → Presence
        → Result StreamError (Unit {0}) × Client
        → Result StreamError (Unit {0}) × Client
    end_connect c first (ok u, d) = finish_connect c first d
    end_connect c first (err e, d) = (err e, record d { link = cleared d.link })

    abbrev pub with_connection :
        Step (Unit {0})
        → Config
        → Presence
        → Result StreamError Connection
        → Client
        → Result StreamError (Unit {0}) × Client
    with_connection steps c first (err e) d = (err e, d)
    with_connection steps c first (ok k) d =
        end_connect c first
          (lifted steps (record d { link = record d.link { connection = some k } }))

    abbrev pub with_dialled :
        Step (Unit {0})
        → Config
        → Presence
        → Option Connection
        → Client
        → Result StreamError (Unit {0}) × Client
    with_dialled steps c first none d = (err dial_failed, d)
    with_dialled steps c first (some k) d = with_connection steps c first (direct c k) d

  -- `authenticate` of xmpp/sasl.go.
  module _ (authenticate : Config → Jid → Node → Connection → Result StreamError Connection) where
    abbrev pub authenticated : Config → Node → Step (Unit {0})
    authenticated c features l = on_link (λ k. no_value (authenticate c l.jid features k)) l

    abbrev pub behind_features : Config → Node → Step (Unit {0})
    behind_features c features =
        negotiate_tls c features >>= (λ features. authenticated c features >> open_session c)

    -- `Connect` from the opened stream to the session.
    unfoldable pub negotiate : Config → Step (Unit {0})
    negotiate c = open_features c >>= behind_features c

    module _ (sha1_hex : String → String) (N : Network) where
      -- `Connect`, with `connectComponent` where there is a component's secret.
      unfoldable pub connect : Config → Presence → Client → Result StreamError (Unit {0}) × Client
      connect c first d =
          if d.link.connected || has_connection d.link.connection
          then (err already_connected, d)
          else if c.component_secret != ""
          then with_dialled N.meanwhile (handshake sha1_hex c) c first (N.dial c.address) d
          else with_dialled N.meanwhile (negotiate c) c first
              (N.dial (resolve_address N c d.link.jid)) d
