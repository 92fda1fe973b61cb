-- ===== src/Requests.antt =====
-- xmpp/client.go: `RequestIQ` and the part of `readLoop` that answers it. A call of `RequestIQ` is
-- a number, by which its channel goes too; a channel holds one IQ at most.
pub mod Laws
mod Tests
use Prim.Native.String.{◌++◌ as ◌<>◌}
use slixmpp_go.Common.{
  ◌≡◌, ℕ, ◌+◌, ◌%◌, ◌^◌, Bool, true, false, not, ◌||◌, ◌&&◌, Option, none, some, List, [], ◌∷◌,
  String, ◌==◌, ◌!=◌, string_eq, nat_eq, if◌then◌else◌,
}
use slixmpp_go.Common.Dict
use slixmpp_go.Common.Dict.{Dict}
use slixmpp_go.Common.Result.{Result, ok, err, ◌>>=◌, ◌>>◌, reject_if}
use slixmpp_go.Stanza.{Iq}

pub record Requests : Type 0 where
  pub next_id : ℕ
  pub next_call : ℕ
  -- `pending`, by the ids.
  pub pending : Dict String ℕ
  -- The ids of the calls that have not returned.
  pub calls : Dict ℕ String
  -- The IQs in the channels.
  pub buffered : Dict ℕ Iq

pub data RequestError : Type 0 where
  not_get_or_set : RequestError
  duplicate : String → RequestError
  not_sent timed_out cancelled closed : RequestError
  iq_error : Iq → RequestError

abbrev pub is_request : String → Bool
is_request kind = kind == "get" || kind == "set"

-- `_, ok := c.pending[request.ID]`, and the entry that is made.
abbrev pub enter : Option ℕ → String → Requests → Result RequestError ℕ × Requests
enter (some n) id s = (err (duplicate id), s)
enter none id s = (
  ok s.next_call,
  record s {
    next_call = s.next_call + 1;
    pending = Dict.insert id s.next_call s.pending;
    calls = Dict.insert s.next_call id s.calls;
  },
)

-- `NextID`, where the request has no id.
abbrev pub with_id : (ℕ → String) → Iq → Requests → Iq × Requests
with_id base36 i s =
    if i.id == ""
    then (let next = (s.next_id + 1) % 2 ^ 64 in
        (record i { id = "go-" <> base36 next }, record s { next_id = next }))
    else (i, s)

-- `RequestIQ` up to the entry in `pending`: the call or the error, and the state behind it.
unfoldable pub begin : (ℕ → String) → Iq → Requests → Result RequestError ℕ × Requests
begin base36 i s =
    if not (is_request i.kind)
    then (err not_get_or_set, s)
    else (let (j, t) = with_id base36 i s in enter (Dict.lookup j.id t.pending) j.id t)

-- A send on a channel that does not wait.
abbrev pub offer : Option Iq → ℕ → Iq → Requests → Requests
offer (some old) n i s = s
offer none n i s = record s { buffered = Dict.insert n i s.buffered }

abbrev pub offer_to : Option ℕ → Iq → Requests → Requests
offer_to none i s = s
offer_to (some n) i s = offer (Dict.lookup n s.buffered) n i s

abbrev pub is_answer : String → Bool
is_answer kind = kind == "result" || kind == "error"

-- What `readLoop` does with an IQ before it dispatches it.
unfoldable pub deliver : Iq → Requests → Requests
deliver i s = if is_answer i.kind then offer_to (Dict.lookup i.id s.pending) i s else s

-- The deferred `delete(c.pending, request.ID)`; nothing reads the channel any more.
abbrev pub leave : Option String → ℕ → Requests → Requests
leave none n s = s
leave (some id) n s = record s {
  pending = Dict.erase id s.pending;
  calls = Dict.erase n s.calls;
  buffered = Dict.erase n s.buffered;
}

unfoldable pub finish : ℕ → Requests → Requests
finish n s = leave (Dict.lookup n s.calls) n s

-- What a call returns that finds an IQ in its channel.
abbrev pub outcome : Iq → Result RequestError Iq
outcome i = if i.kind == "error" then err (iq_error i) else ok i

-- A client's calls and the answers that come in, in any order. A call may end at any time: with its
-- answer, or because sending failed, time ran out, or the client was closed.
pub data Moves (base36 : ℕ → String) : Requests → Requests → Type 0 where
  begins : (s : Requests) (i : Iq) → Moves base36 s (begin base36 i s).1
  delivers : (s : Requests) (i : Iq) → Moves base36 s (deliver i s)
  ends : (s : Requests) (n : ℕ) → Moves base36 s (finish n s)

pub data Reaches (base36 : ℕ → String) (s : Requests) : Requests → Type 0 where
  here : Reaches base36 s s
  onward : {t u : Requests} → Reaches base36 s t → Moves base36 t u → Reaches base36 s u

abbrev pub no_requests : Requests
no_requests = record { next_id = 0; next_call = 0; pending = []; calls = []; buffered = [] }
