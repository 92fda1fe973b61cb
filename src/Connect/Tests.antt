-- ===== src/Connect/Tests.antt =====
-- A connection that is negotiated at concrete data.
use slixmpp_go.Common.{
  ◌≡◌, refl, sym, subst, Bool, false, true, none, some, [], ◌∷◌, string_eq, ◌==◌, if◌then◌else◌,
}
use slixmpp_go.Common.Int.Strokes.{numbers, strokes}
use slixmpp_go.Common.Result.{Result, err}
use slixmpp_go.Common.Text.{Unicode}
use slixmpp_go.Config.{Config, default_config, normalized}
use slixmpp_go.Config.Laws.{IsWhole, normalized-IsWhole}
use slixmpp_go.Connect.{Link}
use slixmpp_go.Connect.Negotiate.{Client, Network, connect}
use slixmpp_go.Connect.Outcome.{IsSettledAt, IsOutcome, IsSound, connect-IsOutcome}
use slixmpp_go.Connect.Secured.{connect-agree}
use slixmpp_go.Jid.{Jid}
use slixmpp_go.Node.{Node, QName, node, nil}
use slixmpp_go.Sasl.Exchange.{Crypto, authenticate}
use slixmpp_go.Sasl.Scram.{HashFunction}
use slixmpp_go.Stanza.{Presence}
use slixmpp_go.Transport.{Connection, StreamError, bad_response, start_tag, between}

abbrev tables : Unicode
tables = record { is_space = λ c. false; to_lower = λ c. c; equal_fold = λ s t. s == t }

abbrev hash : HashFunction
hash = record { hmac = λ k m. 7 ∷ []; digest = λ m. 1 ∷ []; size = 1 }

abbrev crypto : Crypto
crypto = record {
  nonce = some "n";
  bytes = λ s. [];
  string = λ b. "";
  encode = λ b. "";
  decode = λ s. none;
  sha1 = hash;
  sha256 = hash;
}

abbrev sasl : Config → Jid → Node → Connection → Result StreamError Connection
sasl = authenticate tables numbers crypto (λ s. s)

-- One that gives up on a connection without TLS.
abbrev careful : Config → Jid → Node → Connection → Result StreamError Connection
careful c j features k = if k.secured then sasl c j features k else err bad_response

agree :
    (c : Config) (j : Jid) (features : Node) (k : Connection)
    → k.secured ≡ true
    → sasl c j features k ≡ careful c j features k
agree c j features k h = by_flag k.secured h
  where
    by_flag :
        (b : Bool)
        → b ≡ true
        → sasl c j features k ≡ (if b then sasl c j features k else err bad_response)
    by_flag true h = refl
    by_flag false h = cc

abbrev features : QName
features = record { space = "http://etherx.jabber.org/streams"; local = "features" }

abbrev stream : QName
stream = record { space = "http://etherx.jabber.org/streams"; local = "stream" }

-- A server that offers nothing.
abbrev server : Connection
server = record {
  secured = false;
  incoming =
      start_tag stream [] none ∷ between ∷ start_tag features [] (some (node features [] nil)) ∷ [];
  handshake = none;
  writes_left = 5;
  sent = [];
}

abbrev network : Network
network = record {
  join_host_port = λ host port. host;
  port_text = strokes;
  look_up = λ service domain. none;
  dial = λ address. some server;
  meanwhile = λ d. d;
}

abbrev idle : Link
idle = record {
  jid = record { local = "romeo"; domain = "example"; resource = "" };
  connection = none;
  connected = false;
  next_id = 0;
  features = none;
}

abbrev client : Client
client = record { link = idle; closing = false; finished = false }

abbrev first : Presence
first = record {
  from = "";
  to = "";
  id = "";
  kind = "";
  lang = "";
  show = "";
  status = "";
  statuses = [];
  priority = none;
  extensions = [];
  error = none;
}

abbrev settings : Config
settings = default_config "romeo@example" "secret"

connect-agree_example :
    connect tables numbers.atoi strokes sasl (λ s. s) network settings first client
    ≡ connect tables numbers.atoi strokes careful (λ s. s) network settings first client
connect-agree_example =
    connect-agree tables numbers.atoi strokes sasl careful agree (λ s. s) network settings first
      client refl

network-IsSound : IsSound network.meanwhile
network-IsSound d running h = subst (λ b. IsSettledAt b d.link) (sym running) h

connect-IsOutcome_example :
    IsOutcome (connect tables numbers.atoi strokes sasl (λ s. s) network settings first client)
connect-IsOutcome_example =
    connect-IsOutcome tables numbers.atoi strokes sasl (λ s. s) network settings first client
      network-IsSound refl (refl, refl)

normalized-IsWhole_example : IsWhole (normalized settings)
normalized-IsWhole_example = normalized-IsWhole settings
