-- ===== src/Dispatch/Tests.antt =====
-- A presence that is dispatched at concrete data. Callbacks are numbers, and so are errors.
use mathlib.Core.List.Memᴰ
use slixmpp_go.Common.{
  ℕ, ◌+◌, ◌≡◌, ◌≤◌, ◌<◌, ◌^◌, refl, Bool, true, false, none, some, [], ◌∷◌, arith, nat_eq,
  string_eq,
}
use slixmpp_go.Common.Int.{pos}
use slixmpp_go.Handlers.{Handler, HandlerRegistry, add, snapshot}
use slixmpp_go.Stanza.{Stanza, presence}
use slixmpp_go.Dispatch.{Callbacks, dispatch_stanza}
use slixmpp_go.Dispatch.Laws.{handlers_run, wanting, handlers_run-dispatch_stanza}
use slixmpp_go.Dispatch.Steps.{IsFaithful, IsStep-refl, add-IsStep, room, times, count}
use slixmpp_go.Dispatch.Once.{times-dispatch_stanza}

abbrev all_presences : Stanza → Bool
all_presences (presence p) = true
all_presences s = false

abbrev once_only : Handler Stanza ℕ
once_only = record {
  id = 1;
  name = "once";
  matcher = all_presences;
  callback = 5;
  priority = pos 0;
  once = true;
  async = false;
}

abbrev always : Handler Stanza ℕ
always = record once_only { id = 2; name = "always"; once = false; async = true }

abbrev registry : HandlerRegistry Stanza ℕ
registry = record { next_id = 2; handlers = once_only ∷ always ∷ [] }

-- The callback 5 fails.
abbrev failing : Callbacks ℕ ℕ
failing = record { subscribers = λ name r. r; callback = λ c r. (some c, r); hook = none }

abbrev arriving : Stanza
arriving = presence (record {
  from = "juliet@example";
  to = "";
  id = "";
  kind = "unavailable";
  lang = "";
  show = "";
  status = "";
  statuses = [];
  priority = none;
  extensions = [];
  error = none;
})

handlers_run-dispatch_stanza_example :
    handlers_run (dispatch_stanza failing arriving registry).1
    ≡ wanting arriving (snapshot registry)
handlers_run-dispatch_stanza_example = handlers_run-dispatch_stanza failing arriving registry

-- The callback registers another handler, and fails.
abbrev adding : Callbacks ℕ ℕ
adding = record failing {
  callback = λ c r.
      (some c, (add "more" none 9 (record { priority = pos 1; once = false; async = false }) r).1);
}

adding-IsFaithful : IsFaithful 1 1 adding
adding-IsFaithful = record {
  subscribers = λ name r g w. IsStep-refl 1 1 r;
  callback = λ c r g w. add-IsStep 1 "more" none 9 _ r g w;
  hook = λ r g w. IsStep-refl 1 1 r;
}

single : times 1 registry ≤ 1
unfolding count nat_eq
single = omega arith

fits : registry.next_id + (1 + room 1 (1 + (1 + 1 + 1)) registry.handlers) < 2 ^ 64
unfolding room
fits = omega arith

times-dispatch_stanza_example : times 1 (dispatch_stanza adding arriving registry).0 ≡ 0
times-dispatch_stanza_example =
    times-dispatch_stanza 1 adding arriving once_only adding-IsFaithful refl refl registry
      (Memᴰ.head refl) (omega arith) fits single
