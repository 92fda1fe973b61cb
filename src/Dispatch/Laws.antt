-- ===== src/Dispatch/Laws.antt =====
-- xmpp/client.go: which handlers `dispatchStanza` runs.
use Prim.Native.String.{◌++◌ as ◌<>◌}
use slixmpp_go.Common.{
  ◌≡◌, refl, ap, ap₂, ◌∙◌, Bool, true, false, Option, none, some, List, [], ◌∷◌, ◌++◌, String, ◌!=◌,
  string_eq, if◌then◌else◌,
}
use slixmpp_go.Common.Sort.{keep}
use slixmpp_go.Handlers.{Handler, HandlerRegistry, snapshot, remove}
use slixmpp_go.Stanza.{Stanza, message, presence, iq}
use slixmpp_go.Dispatch.{
  Effect, emitted, called, started, reported, hooked, Callbacks, Run, report, run, handle,
  handle_all, call_hook, emit, emit_kind, announce, dispatch_stanza,
}

module _ {C : Type 0} where
  -- The handlers of a list that want a stanza.
  abbrev pub wanting : Stanza → List (Handler Stanza C) → List (Handler Stanza C)
  wanting s hs = keep (λ h. h.matcher s) hs

  append-nil : (hs : List (Handler Stanza C)) → hs ++ [] ≡ hs
  append-nil [] = refl
  append-nil (h ∷ hs) = ap (λ t. h ∷ t) (append-nil hs)

module _ {C E : Type 0} where
  -- The handlers that ran, in a goroutine or not, in order.
  unfoldable pub handlers_run : List (Effect C E) → List (Handler Stanza C)
  handlers_run [] = []
  handlers_run (emitted e ∷ es) = handlers_run es
  handlers_run (called h ∷ es) = h ∷ handlers_run es
  handlers_run (started h ∷ es) = h ∷ handlers_run es
  handlers_run (reported n e ∷ es) = handlers_run es
  handlers_run (hooked ∷ es) = handlers_run es

  handlers_run-append :
      (es fs : List (Effect C E)) → handlers_run (es ++ fs) ≡ handlers_run es ++ handlers_run fs
  unfolding handlers_run
  handlers_run-append [] fs = refl
  handlers_run-append (emitted e ∷ es) fs = handlers_run-append es fs
  handlers_run-append (called h ∷ es) fs = ap (λ hs. h ∷ hs) (handlers_run-append es fs)
  handlers_run-append (started h ∷ es) fs = ap (λ hs. h ∷ hs) (handlers_run-append es fs)
  handlers_run-append (reported n e ∷ es) fs = handlers_run-append es fs
  handlers_run-append (hooked ∷ es) fs = handlers_run-append es fs

  handlers_run-report : (n : String) (o : Option E) → handlers_run (report n o) ≡ []
  unfolding handlers_run
  handlers_run-report n none = refl
  handlers_run-report n (some e) = refl

  handlers_run-run :
      (k : Callbacks C E) (h : Handler Stanza C) (r : HandlerRegistry Stanza C)
      → handlers_run (run k h r).1 ≡ h ∷ []
  unfolding handlers_run
  handlers_run-run k h r = by_async h.async
    where
      by_async :
          (b : Bool)
          → handlers_run
              (if◌then◌else◌ {A = Run C E} b
                (r, started h ∷ [])
                (let (e, r') = k.callback h.callback r in (r', called h ∷ report h.name e))).1
            ≡ h ∷ []
      by_async true = refl
      by_async false = ap (λ t. h ∷ t) (handlers_run-report h.name (k.callback h.callback r).0)

  handlers_run-handle :
      (k : Callbacks C E) (s : Stanza) (h : Handler Stanza C) (r : HandlerRegistry Stanza C)
      (hs : List (Handler Stanza C))
      → handlers_run (handle k s h r).1 ++ hs ≡ (if h.matcher s then h ∷ hs else hs)
  unfolding handlers_run
  handlers_run-handle k s h r hs = by_match (h.matcher s)
    where
      r' : HandlerRegistry Stanza C
      r' = if h.once then remove (some h) r else r

      by_match :
          (b : Bool)
          → handlers_run (if◌then◌else◌ {A = Run C E} b (run k h r') (r, [])).1 ++ hs
            ≡ (if b then h ∷ hs else hs)
      by_match true = ap (λ t. t ++ hs) (handlers_run-run k h r')
      by_match false = refl

  handlers_run-handle_all :
      (k : Callbacks C E) (s : Stanza) (hs : List (Handler Stanza C)) (r : HandlerRegistry Stanza C)
      → handlers_run (handle_all k s hs r).1 ≡ wanting s hs
  unfolding handle_all handlers_run
  handlers_run-handle_all k s [] r = refl
  handlers_run-handle_all k s (h ∷ hs) r =
      let one = handle k s h r in
      handlers_run-append one.1 (handle_all k s hs one.0).1
      ∙ ap (λ t. handlers_run one.1 ++ t) (handlers_run-handle_all k s hs one.0)
      ∙ handlers_run-handle k s h r (wanting s hs)

  handlers_run-call_hook :
      (o : Option (HandlerRegistry Stanza C → HandlerRegistry Stanza C))
      (r : HandlerRegistry Stanza C) (es : List (Effect C E))
      → handlers_run ((call_hook o r).1 ++ es) ≡ handlers_run es
  unfolding handlers_run
  handlers_run-call_hook none r es = refl
  handlers_run-call_hook (some f) r es = refl

  handlers_run-emit_kind :
      (k : Callbacks C E) (name kind : String) (r : HandlerRegistry Stanza C)
      → handlers_run (emit_kind k name kind r).1 ≡ []
  unfolding handlers_run
  handlers_run-emit_kind k name kind r = by_flag (kind != "")
    where
      by_flag :
          (b : Bool)
          → handlers_run (if◌then◌else◌ {A = Run C E} b (emit k (name <> kind) r) (r, [])).1 ≡ []
      by_flag true = refl
      by_flag false = refl

  handlers_run-announce :
      (k : Callbacks C E) (s : Stanza) (r : HandlerRegistry Stanza C)
      → handlers_run (announce k s r).1 ≡ []
  unfolding announce handlers_run
  handlers_run-announce k (message m) r =
      handlers_run-call_hook k.hook r _
      ∙ handlers_run-emit_kind k "message_" m.kind (k.subscribers "message" (call_hook k.hook r).0)
  handlers_run-announce k (presence p) r =
      handlers_run-call_hook k.hook r _
      ∙ handlers_run-emit_kind k "presence_" p.kind
          (k.subscribers "presence" (call_hook k.hook r).0)
  handlers_run-announce k (iq i) r = handlers_run-call_hook k.hook r _

  -- `dispatch_stanza` runs, each once and in the order of the registry, the handlers that want the
  -- stanza and are registered when the subscribers of "received_stanza" have been called, whatever
  -- those that run do to the registry meanwhile.
  pub handlers_run-dispatch_stanza :
      (k : Callbacks C E) (s : Stanza) (r : HandlerRegistry Stanza C)
      → handlers_run (dispatch_stanza k s r).1
        ≡ wanting s (snapshot (k.subscribers "received_stanza" r))
  unfolding dispatch_stanza handlers_run
  handlers_run-dispatch_stanza k s r =
      let t = k.subscribers "received_stanza" r in
      let all = handle_all k s (snapshot t) t in
      let after = announce k s (k.subscribers "stanza" all.0) in
      handlers_run-append all.1 (emitted "stanza" ∷ after.1)
      ∙ ap₂ (λ t u. t ++ u) (handlers_run-handle_all k s (snapshot t) t)
          (handlers_run-announce k s (k.subscribers "stanza" all.0))
      ∙ append-nil (wanting s (snapshot t))
