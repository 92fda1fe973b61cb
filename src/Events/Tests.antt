-- ===== src/Events/Tests.antt =====
-- The theorems on the event bus at concrete data. The handlers are numbers.
use mathlib.Core.List.{Perm}
use slixmpp_go.Common.{
  ℕ, ◌+◌, ◌≡◌, refl, false, none, some, Option, String, ◌==◌, if◌then◌else◌, List, [], ◌∷◌, ◌++◌,
  string_eq, nat_eq, map, arith,
}
use slixmpp_go.Common.Dict
use slixmpp_go.Common.Int.{ℤ, pos, negsuc, lt_int}
use slixmpp_go.Common.Sort.{IsSorted, keep, sort_stable, insert_sorted}
use slixmpp_go.Events.{
  EventBus, EventOptions, Subscription, new_event_bus, items_of, on, off, emit_order, emit, Event,
}
use slixmpp_go.Events.Delivery.{
  has_priority, logged, handlers_of, waited_for, in_goroutines, emit-logged,
}
use slixmpp_go.Events.Laws.{IsValid, on-IsValid, off-on}

abbrev with_priority : ℤ → List EventOptions
with_priority p = record { priority = p; once = false; async = false } ∷ []

empty_bus : EventBus ℕ
empty_bus = new_event_bus

empty_bus-IsValid : IsValid empty_bus
unfolding empty_bus items_of Dict.lookup
empty_bus-IsValid = record { sorted = λ name. tt; listed = λ name. tt }

-- Two handlers of the event, and one of every event.
abbrev bus : EventBus ℕ
bus =
    let (_, b) = on "message" 1 [] empty_bus in
    let (_, b) = on "*" 2 (with_priority (negsuc 0)) b in
    (on "message" 3 (with_priority (pos 5)) b).1

order_taken : map (λ s. s.handler) (emit_order "message" bus) ≡ 2 ∷ 1 ∷ 3 ∷ []
unfolding emit_order on empty_bus items_of sort_stable insert_sorted lt_int Dict.lookup Dict.insert
    string_eq nat_eq
order_taken = refl

on-IsValid_example : IsValid (on "message" 1 [] empty_bus).1
unfolding empty_bus
on-IsValid_example = on-IsValid "message" 1 [] empty_bus (omega arith) empty_bus-IsValid

abbrev first : Subscription ℕ × EventBus ℕ
first = on "message" 1 [] empty_bus

first-IsValid : IsValid first.1
unfolding empty_bus
first-IsValid = on-IsValid "message" 1 [] empty_bus (omega arith) empty_bus-IsValid

abbrev again : Subscription ℕ × EventBus ℕ
again = on "message" 3 [] first.1

off-on_example : items_of "message" (off (some again.0) again.1) ≡ items_of "message" first.1
unfolding on empty_bus
off-on_example = off-on "message" 3 [] first.1 "message" (omega arith) first-IsValid

-- A handler adds its number to the state, and 2 fails.
abbrev call : ℕ → Event String ℕ → EventBus ℕ × ℕ → Option String × (EventBus ℕ × ℕ)
call h event (b, w) = ((if h == 2 then some "failed" else none), (b, w + h))

emit-logged_example :
    let done = (emit (logged call) "message" "hi" 0 (bus, ([], 0))).1 in
    let all = items_of "message" bus ++ items_of "*" bus in
    (order : List (Subscription ℕ)) × (done.state.1.0 ≡ handlers_of call (waited_for call order))
    × (done.spawned ≡ in_goroutines call order)
    × IsSorted lt_int (map (λ s. s.priority) order)
    × Perm order all
    × ((p : ℤ) → keep (has_priority p) order ≡ keep (has_priority p) all)
emit-logged_example = emit-logged call "message" "hi" 0 bus 0
