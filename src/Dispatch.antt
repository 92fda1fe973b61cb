-- ===== src/Dispatch.antt =====
-- xmpp/client.go: `dispatchStanza`. The subscribers of the events, the callbacks of the handlers
-- and `OnMessage`, `OnPresence` and `OnIQ` may add and remove handlers: they are functions on the
-- registry, for the stanza at hand. A goroutine is only started; what its callback does comes
-- later. What `reportError` does with an error is not followed.
pub mod Laws
pub mod Steps
pub mod Once
mod Tests
use Prim.Native.String.{◌++◌ as ◌<>◌}
use slixmpp_go.Common.{
  ℕ, Bool, true, false, Option, none, some, List, [], ◌∷◌, ◌++◌, String, ◌!=◌, string_eq,
  if◌then◌else◌,
}
use slixmpp_go.Handlers.{Handler, HandlerRegistry, remove, snapshot}
use slixmpp_go.Stanza.{Stanza, message, presence, iq}

-- A step that the others can see. `started` is a callback in a goroutine, `called` one that is
-- waited for, and `hooked` a call of `OnMessage`, `OnPresence` or `OnIQ`.
pub data Effect (C E : Type 0) : Type 0 where
  emitted : String → Effect C E
  called started : Handler Stanza C → Effect C E
  reported : String → E → Effect C E
  hooked : Effect C E

-- The code that the client calls. `hook` is none where the field is nil.
pub record Callbacks (C E : Type 0) : Type 0 where
  pub subscribers : String → HandlerRegistry Stanza C → HandlerRegistry Stanza C
  pub callback : C → HandlerRegistry Stanza C → Option E × HandlerRegistry Stanza C
  pub hook : Option (HandlerRegistry Stanza C → HandlerRegistry Stanza C)

-- The registry, and what has been done, the first of it first.
abbrev pub Run : Type 0 → Type 0 → Type 0
Run C E = HandlerRegistry Stanza C × List (Effect C E)

module _ {C E : Type 0} where
  -- One step behind the other.
  abbrev pub then_do : Run C E → (HandlerRegistry Stanza C → Run C E) → Run C E
  then_do (r, effects) f = let (r', more) = f r in (r', effects ++ more)

  -- `c.reportError` for the error of a callback.
  abbrev pub report : String → Option E → List (Effect C E)
  report name none = []
  report name (some e) = reported name e ∷ []

  -- `run(h)`, in a goroutine or not.
  abbrev pub run : Callbacks C E → Handler Stanza C → HandlerRegistry Stanza C → Run C E
  run k h r =
      if h.async
      then (r, started h ∷ [])
      else (let (e, r') = k.callback h.callback r in (r', called h ∷ report h.name e))

  -- The body of the loop over the snapshot.
  abbrev pub handle : Callbacks C E → Stanza → Handler Stanza C → HandlerRegistry Stanza C → Run C E
  handle k s h r =
      if h.matcher s then run k h (if h.once then remove (some h) r else r) else (r, [])

  -- The loop.
  unfoldable pub handle_all :
      Callbacks C E → Stanza → List (Handler Stanza C) → HandlerRegistry Stanza C → Run C E
  handle_all k s [] r = (r, [])
  handle_all k s (h ∷ hs) r = then_do (handle k s h r) (handle_all k s hs)

  -- `c.Events.Emit`
  abbrev pub emit : Callbacks C E → String → HandlerRegistry Stanza C → Run C E
  emit k name r = (k.subscribers name r, emitted name ∷ [])

  abbrev pub call_hook :
      Option (HandlerRegistry Stanza C → HandlerRegistry Stanza C)
      → HandlerRegistry Stanza C
      → Run C E
  call_hook none r = (r, [])
  call_hook (some f) r = (f r, hooked ∷ [])

  -- The event for the type of a stanza that has one.
  abbrev pub emit_kind : Callbacks C E → String → String → HandlerRegistry Stanza C → Run C E
  emit_kind k name kind r = if kind != "" then emit k (name <> kind) r else (r, [])

  -- The switch on the stanza.
  unfoldable pub announce : Callbacks C E → Stanza → HandlerRegistry Stanza C → Run C E
  announce k (message m) r =
      then_do (call_hook k.hook r)
        (λ t. then_do (emit k "message" t) (emit_kind k "message_" m.kind))
  announce k (presence p) r =
      then_do (call_hook k.hook r)
        (λ t. then_do (emit k "presence" t) (emit_kind k "presence_" p.kind))
  announce k (iq i) r = then_do (call_hook k.hook r) (emit k "iq")

  -- `dispatchStanza`
  unfoldable pub dispatch_stanza : Callbacks C E → Stanza → HandlerRegistry Stanza C → Run C E
  dispatch_stanza k s r = then_do (emit k "received_stanza" r) (λ t.
      then_do (handle_all k s (snapshot t) t) (λ u. then_do (emit k "stanza" u) (announce k s)))
