-- ===== src/Connect.antt =====
-- xmpp/client.go and xmpp/component.go: `Connect`, from the dialled connection to the first presence.
-- A context that ends shows as a read that fails, by the deadline on the connection; what is only
-- logged is left out.
pub mod Negotiate
pub mod Sync
pub mod Secured
pub mod Outcome
mod Tests
use Prim.Native.String.{◌++◌ as ◌<>◌}
use slixmpp_go.Common.{
  ℕ, ◌+◌, ◌%◌, ◌^◌, Bool, true, false, not, ◌||◌, ◌&&◌, Option, none, some, List, [], ◌∷◌, ◌++◌,
  String, ◌==◌, ◌!=◌, string_eq, if◌then◌else◌,
}
use slixmpp_go.Common.Int.{ℤ}
use slixmpp_go.Common.Result.{Result, ok, err}
use slixmpp_go.Common.Text.{Unicode, trim_suffix_byte}
use slixmpp_go.Config.{Config}
use slixmpp_go.Jid.{Jid, JidError, parse_jid}
use slixmpp_go.Node.{Node, Attr, name, clone, new_node, new_text_node, add_child, child, child_text}
use slixmpp_go.Stanza.{Stanza, Iq, iq, Presence, payload, stanza_from_node}
use slixmpp_go.Transport.{
  Connection, StreamError, StreamToken, start_tag, end_tag, between, element, request, stanza,
  component_opening, not_connected, already_connected, dial_failed, tls_rejected, tls_required,
  no_bind, bad_bind, bad_stanza, iq_failed, iq_unexpected, read_failed, decode_failed, closed,
  not_a_stream, no_stream_id, handshake_rejected, start_tls_ns, bind_ns, session_ns, is_stream,
  write, read_node, open_stream, secure, Sent,
}

-- The part of a client that the steps of `Connect` read and set. `next_id` is an atomic uint64.
pub record Link : Type 0 where
  pub jid : Jid
  pub connection : Option Connection
  pub connected : Bool
  pub next_id : ℕ
  pub features : Option Node

-- A step of `Connect`: it may set fields of the client before it fails.
abbrev pub Step {ℓ} : Type ℓ → Type ℓ
Step A = Link → Result StreamError A × Link

abbrev pub continue {ℓ κ} :
    {A : Type ℓ} {B : Type κ}
    → Result StreamError A × Link
    → (A → Step B)
    → Result StreamError B × Link
continue (ok a, l) next = next a l
continue (err e, l) next = (err e, l)

infixl 5 ◌>>=◌ ◌>>◌
abbrev pub ◌>>=◌ {ℓ κ} : {A : Type ℓ} {B : Type κ} → Step A → (A → Step B) → Step B
◌>>=◌ m next l = continue (m l) next

abbrev pub ◌>>◌ {ℓ} : {B : Type ℓ} → Step (Unit {0}) → Step B → Step B
m >> next = m >>= λ _. next

abbrev pub done {ℓ} : {A : Type ℓ} → A → Step A
done a l = (ok a, l)

abbrev pub fail {ℓ} : {A : Type ℓ} → StreamError → Step A
fail e l = (err e, l)

-- A call on the connection, and what it leaves there.
abbrev pub kept {ℓ} :
    {A : Type ℓ} → Link → Result StreamError (A × Connection) → Result StreamError A × Link
kept l (ok (a, k)) = (ok a, record l { connection = some k })
kept l (err e) = (err e, l)

abbrev pub on_connection {ℓ} :
    {A : Type ℓ}
    → (Connection → Result StreamError (A × Connection))
    → Option Connection
    → Link
    → Result StreamError A × Link
on_connection act none l = (err not_connected, l)
on_connection act (some k) l = kept l (act k)

abbrev pub on_link {ℓ} : {A : Type ℓ} → (Connection → Result StreamError (A × Connection)) → Step A
on_link act l = on_connection act l.connection l

-- A call that gives no value.
abbrev pub no_value : Result StreamError Connection → Result StreamError (Unit {0} × Connection)
no_value (ok k) = ok (tt, k)
no_value (err e) = err e

abbrev pub send : Sent → Step (Unit {0})
send s = on_link (λ k. no_value (write s k))

abbrev pub receive : Step Node
receive = on_link read_node

abbrev pub set_features : Node → Step Node
set_features n l = (ok n, record l { features = some (clone n) })

-- `openAndReadFeatures`
abbrev pub open_features : Config → Step Node
open_features c l = continue (on_link (open_stream l.jid.domain c.language) l) set_features

-- `NextID`, by the printer of numbers in base 36.
module _ (base36 : ℕ → String) where
  abbrev pub new_id : Step String
  new_id l =
      let id = (l.next_id + 1) % 2 ^ 64 in (ok ("go-" <> base36 id), record l { next_id = id })

-- `startTLS`
abbrev pub is_proceed : Node → Bool
is_proceed n = (name n).space == start_tls_ns && (name n).local == "proceed"

abbrev pub proceed : Node → Step (Unit {0})
proceed n = if is_proceed n then on_link (λ k. no_value (secure k)) else fail tls_rejected

unfoldable pub start_tls : Step (Unit {0})
start_tls = do send (element (new_node start_tls_ns "starttls")); n ← receive; proceed n

-- The end of a round of the loop of `syncIQ` that found an answer.
abbrev pub answer : Iq → Result StreamError Iq
answer r =
    if r.kind == "error"
    then err iq_failed
    else if r.kind != "result"
    then err iq_unexpected
    else ok r

abbrev pub with_rest :
    List StreamToken → Result StreamError Iq → Result StreamError (Iq × List StreamToken)
with_rest rest (ok i) = ok (i, rest)
with_rest rest (err e) = err e

abbrev pub answered : Iq → List StreamToken → Result StreamError (Iq × List StreamToken)
answered r rest = with_rest rest (answer r)

module _ (U : Unicode) (atoi : String → Option ℤ) where
  -- A round of the loop, with the rounds that follow if the node is not the answer.
  abbrev pub check_answer :
      String
      → Option Stanza
      → List StreamToken
      → Result StreamError (Iq × List StreamToken)
      → Result StreamError (Iq × List StreamToken)
  check_answer id none rest more = err bad_stanza
  check_answer id (some (iq r)) rest more = if r.id != id then more else answered r rest
  check_answer id (some s) rest more = err bad_stanza

  abbrev pub one_round :
      String
      → Node
      → List StreamToken
      → Result StreamError (Iq × List StreamToken)
      → Result StreamError (Iq × List StreamToken)
  one_round id n rest more =
      if (name n).local != "iq" then more else check_answer id (stanza_from_node U atoi n) rest more

  -- The loop of `syncIQ`, with `readTopLevelNode` in it.
  unfoldable pub await_answer :
      String → List StreamToken → Result StreamError (Iq × List StreamToken)
  await_answer id [] = err read_failed
  await_answer id (start_tag q a none ∷ rest) = err decode_failed
  await_answer id (start_tag q a (some n) ∷ rest) = one_round id n rest (await_answer id rest)
  await_answer id (end_tag q ∷ rest) =
      let more = await_answer id rest in if is_stream q then err closed else more
  await_answer id (between ∷ rest) = await_answer id rest

  abbrev pub take_answer :
      Connection → Result StreamError (Iq × List StreamToken) → Result StreamError (Iq × Connection)
  take_answer k (ok (i, rest)) = ok (i, record k { incoming = rest })
  take_answer k (err e) = err e

  -- `syncIQ`
  unfoldable pub sync_iq : Iq → Step Iq
  sync_iq i = send (request i) >> on_link (λ k. take_answer k (await_answer i.id k.incoming))

abbrev pub empty_iq : Iq
empty_iq = record { from = ""; to = ""; id = ""; kind = "set"; payloads = []; error = none }
