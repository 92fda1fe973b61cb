-- ===== src/Events.antt =====
-- xmpp/events.go: the event bus. A handler is a value of `H`; calling one may change the bus and
-- the rest of the program's state `W`, and may return an error of `E`. `D` is an event's data.
pub mod Laws
pub mod Delivery
mod Tests
use slixmpp_go.Common.{
  ℕ, ◌+◌, ◌%◌, ◌^◌, Bool, true, false, Option, none, some, List, [], ◌∷◌, ◌++◌, String, ◌==◌,
  string_eq, nat_eq, if◌then◌else◌,
}
use slixmpp_go.Common.Dict
use slixmpp_go.Common.Dict.{Dict}
use slixmpp_go.Common.Int.{ℤ, pos, lt_int}
use slixmpp_go.Common.Sort.{sort_stable, remove_first}

pub record EventOptions : Type 0 where
  pub priority : ℤ
  pub once : Bool
  pub async : Bool

pub record Subscription (H : Type 0) : Type 0 where
  pub id : ℕ
  pub name : String
  pub priority : ℤ
  pub once : Bool
  pub async : Bool
  pub handler : H

-- `nextID` is an atomic uint64.
pub record EventBus (H : Type 0) : Type 0 where
  pub next_id : ℕ
  pub handlers : Dict String (List (Subscription H))

abbrev pub new_event_bus : {H : Type 0} → EventBus H
new_event_bus = record { next_id = 0; handlers = [] }

-- A missing entry of the map reads as an empty slice.
abbrev pub or_empty : {H : Type 0} → Option (List H) → List H
or_empty none = []
or_empty (some items) = items

unfoldable pub items_of : {H : Type 0} → String → EventBus H → List (Subscription H)
items_of name b = or_empty (Dict.lookup name b.handlers)

abbrev pub by_priority : {H : Type 0} → Subscription H → Subscription H → Bool
by_priority a b = lt_int a.priority b.priority

abbrev pub no_options : EventOptions
no_options = record { priority = pos 0; once = false; async = false }

abbrev pub first_options : List EventOptions → EventOptions
first_options [] = no_options
first_options (o ∷ _) = o

-- `On` with a handler; a nil handler makes it panic.
unfoldable pub on :
    {H : Type 0} → String → H → List EventOptions → EventBus H → Subscription H × EventBus H
on {H = H} name handler options b =
    let o = first_options options in
    let id = (b.next_id + 1) % 2 ^ 64 in
    let s : Subscription H = record {
      id = id;
      name = name;
      priority = o.priority;
      once = o.once;
      async = o.async;
      handler = handler;
    } in
    let items = sort_stable by_priority (items_of name b ++ (s ∷ [])) in
    (s, record { next_id = id; handlers = Dict.insert name items b.handlers })

-- `Once`
abbrev pub once_on : {H : Type 0} → String → H → EventBus H → Subscription H × EventBus H
once_on name handler =
    on name handler (record { priority = pos 0; once = true; async = false } ∷ [])

abbrev pub has_id : {H : Type 0} → ℕ → Subscription H → Bool
has_id id s = s.id == id

-- An empty slice leaves no entry in the map.
abbrev pub put_items : {H : Type 0} → String → List (Subscription H) → EventBus H → EventBus H
put_items name [] b = record b { handlers = Dict.erase name b.handlers }
put_items name (s ∷ items) b = record b { handlers = Dict.insert name (s ∷ items) b.handlers }

-- `Off`; none is a nil subscription.
unfoldable pub off : {H : Type 0} → Option (Subscription H) → EventBus H → EventBus H
off none b = b
off (some s) b = put_items s.name (remove_first (has_id s.id) (items_of s.name b)) b

-- `joinErrors`, over errors that may be nil.
pub data Joined (E : Type 0) : Type 0 where
  no_error : Joined E
  one_error : E → Joined E
  multi_error : List E → Joined E

abbrev pub not_nil : {E : Type 0} → List (Option E) → List E
not_nil [] = []
not_nil (none ∷ errs) = not_nil errs
not_nil (some e ∷ errs) = e ∷ not_nil errs

abbrev pub join_filtered : {E : Type 0} → List E → Joined E
join_filtered [] = no_error
join_filtered (e ∷ []) = one_error e
join_filtered (e ∷ f ∷ errs) = multi_error (e ∷ f ∷ errs)

unfoldable pub join_errors : {E : Type 0} → List (Option E) → Joined E
join_errors errs = join_filtered (not_nil errs)

pub record Event (D T : Type 0) : Type 0 where
  pub name : String
  pub payload : D
  pub at : T

-- The order in which `Emit` takes the handlers: those of the event, then those of every event,
-- sorted by priority.
unfoldable pub emit_order : {H : Type 0} → String → EventBus H → List (Subscription H)
emit_order name b = sort_stable by_priority (items_of name b ++ items_of "*" b)

-- The errors that the handlers returned, the handlers that were started in goroutines of their
-- own, and the state at the end.
pub record Emitted (H E W : Type 0) : Type 0 where
  pub errors : List (Option E)
  pub spawned : List (Subscription H)
  pub state : EventBus H × W

module _ {H E D T W : Type 0}
    (call : H → Event D T → EventBus H × W → Option E × (EventBus H × W)) where
  -- The loop of `Emit`, over the snapshot of the handlers.
  unfoldable pub emit_items : Event D T → List (Subscription H) → EventBus H × W → Emitted H E W
  emit_items event [] st = record { errors = []; spawned = []; state = st }
  emit_items event (item ∷ items) (b, w) =
      let b' = if item.once then off (some item) b else b in
      let started = emit_items event items (b', w) in
      let (failed, st) = call item.handler event (b', w) in
      let called = emit_items event items st in
      if item.async then record started { spawned = item ∷ started.spawned } else elim failed [
        | none ↦ called
        | some e ↦ record called { errors = some e ∷ called.errors }
      ]

  -- `Emit` at the time `now`, with the joined error.
  unfoldable pub emit : String → D → T → EventBus H × W → Joined E × Emitted H E W
  emit name payload now (b, w) =
      let event : Event D T = record { name = name; payload = payload; at = now } in
      let done = emit_items event (emit_order name b) (b, w) in (join_errors done.errors, done)
