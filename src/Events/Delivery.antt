-- ===== src/Events/Delivery.antt =====
-- xmpp/events.go: which handlers `Emit` calls, and in which order.
use mathlib.Core.List.{Perm, append_assoc, append-nil}
use slixmpp_go.Common.{
  ◌≡◌, refl, sym, ap, not, ◌&&◌, ◌∙◌, Bool, true, false, Option, none, some, List, [], ◌∷◌, ◌++◌,
  String, if◌then◌else◌, All, arith, map,
}
use slixmpp_go.Common.Int.{ℤ, lt_int}
use slixmpp_go.Common.Sort.{
  sort_stable, IsSorted, keep, sort_stable-perm, sort_stable-keep, sort_stable-IsSorted,
}
use slixmpp_go.Events.{
  EventBus, Subscription, Event, Emitted, items_of, by_priority, off, emit_order, emit_items, emit,
}
use slixmpp_go.Events.Laws.{by_priority-IsOrder}

module _ {H : Type 0} where
  abbrev pub has_priority : ℤ → Subscription H → Bool
  has_priority p s = not (lt_int s.priority p) && not (lt_int p s.priority)

  alike :
      (p : ℤ) (s t : Subscription H)
      → has_priority p s ≡ true
      → has_priority p t ≡ true
      → by_priority s t ≡ false
  unfolding lt_int
  alike p s t h k = ground arith

  All-priority :
      (p : ℤ) (items : List (Subscription H))
      → All (λ s. lt_int s.priority p ≡ false) items
      → All (λ q. lt_int q p ≡ false) (map (λ s. s.priority) items)
  All-priority p [] h = tt
  All-priority p (s ∷ items) h = (h.0, All-priority p items h.1)

  IsSorted-priority :
      (items : List (Subscription H))
      → IsSorted by_priority items
      → IsSorted lt_int (map (λ s. s.priority) items)
  IsSorted-priority [] h = tt
  IsSorted-priority (s ∷ items) h = (All-priority s.priority items h.0, IsSorted-priority items h.1)

module _ {H E D T W : Type 0}
    (call : H → Event D T → EventBus H × W → Option E × (EventBus H × W)) where
  abbrev State : Type 0
  State = EventBus H × (List H × W)

  -- A call that is also written down, behind those before it.
  abbrev pub logged :
      H → Event D T → EventBus H × (List H × W) → Option E × (EventBus H × (List H × W))
  logged h event (b, (log, w)) =
      let (failed, (b', w')) = call h event (b, w) in (failed, (b', (log ++ (h ∷ []), w')))

  abbrev pub handlers_of : List (Subscription H) → List H
  handlers_of items = map (λ s. s.handler) items

  abbrev pub waited_for : List (Subscription H) → List (Subscription H)
  waited_for items = keep (λ s. not s.async) items

  abbrev pub in_goroutines : List (Subscription H) → List (Subscription H)
  in_goroutines items = keep (λ s. s.async) items

  -- A run over some handlers, with the log before it.
  abbrev IsRun : List (Subscription H) → List H → Emitted H E (List H × W) → Type 0
  IsRun items log r =
      (r.state.1.0 ≡ log ++ handlers_of (waited_for items)) × (r.spawned ≡ in_goroutines items)

  -- A round of the loop, by how the handler is called and what it returns.
  abbrev round :
      Bool
      → Option E
      → Subscription H
      → Emitted H E (List H × W)
      → Emitted H E (List H × W)
      → Emitted H E (List H × W)
  round async failed item started called =
      if async then record started { spawned = item ∷ started.spawned } else elim failed [
        | none ↦ called
        | some e ↦ record called { errors = some e ∷ called.errors }
      ]

  waited_for-item :
      (b : Bool) (item : Subscription H) (items : List (Subscription H))
      → item.async ≡ b
      → (if b then waited_for items else item ∷ waited_for items) ≡ waited_for (item ∷ items)
  waited_for-item true item items e =
      ap (λ b. if not b then item ∷ waited_for items else waited_for items) (sym e)
  waited_for-item false item items e =
      ap (λ b. if not b then item ∷ waited_for items else waited_for items) (sym e)

  in_goroutines-item :
      (b : Bool) (item : Subscription H) (items : List (Subscription H))
      → item.async ≡ b
      → (if b then item ∷ in_goroutines items else in_goroutines items)
        ≡ in_goroutines (item ∷ items)
  in_goroutines-item b item items e =
      ap (λ b. if b then item ∷ in_goroutines items else in_goroutines items) (sym e)

  round-IsRun :
      (async : Bool) (failed : Option E) (item : Subscription H) (items : List (Subscription H))
      (log : List H) (started called : Emitted H E (List H × W))
      → item.async ≡ async
      → IsRun items log started
      → IsRun items (log ++ (item.handler ∷ [])) called
      → IsRun (item ∷ items) log (round async failed item started called)
  round-IsRun true failed item items log s c e h k = (
    h.0 ∙ ap (λ l. log ++ handlers_of l) (waited_for-item true item items e),
    ap (λ l. item ∷ l) h.1 ∙ in_goroutines-item true item items e,
  )
  round-IsRun false failed item items log s c e h k = by_failed failed
    where
      behind : IsRun (item ∷ items) log c
      behind = (
        k.0
            ∙ append_assoc log (item.handler ∷ []) (handlers_of (waited_for items))
            ∙ ap (λ l. log ++ handlers_of l) (waited_for-item false item items e),
        k.1 ∙ in_goroutines-item false item items e,
      )

      by_failed : (o : Option E) → IsRun (item ∷ items) log (round false o item s c)
      by_failed none = behind
      by_failed (some x) = behind

  emit_items-IsRun :
      (event : Event D T) (items : List (Subscription H)) (b : EventBus H) (log : List H) (w : W)
      → IsRun items log (emit_items logged event items (b, (log, w)))
  unfolding emit_items
  emit_items-IsRun event [] b log w = (sym (append-nil log), refl)
  emit_items-IsRun event (item ∷ items) b log w =
      let b' = if item.once then off (some item) b else b in
      let (failed, (b2, w2)) = call item.handler event (b', w) in
      round-IsRun item.async failed item items log _ _ refl (emit_items-IsRun event items b' log w)
        (emit_items-IsRun event items b2 (log ++ (item.handler ∷ [])) w2)

  -- `Emit` calls each handler of the event and of `*` that is not for a goroutine, and starts each
  -- that is, as often as it stands there, whatever the calls do to the bus and return. It takes
  -- them with rising priorities, and those of one priority in the order in which they stand, the
  -- event's own first.
  pub emit-logged :
      (name : String) (payload : D) (now : T) (b : EventBus H) (w : W)
      → let done = (emit logged name payload now (b, ([], w))).1 in
        let all = items_of name b ++ items_of "*" b in
        (order : List (Subscription H)) × (done.state.1.0 ≡ handlers_of (waited_for order))
        × (done.spawned ≡ in_goroutines order)
        × IsSorted lt_int (map (λ s. s.priority) order)
        × Perm order all
        × ((p : ℤ) → keep (has_priority p) order ≡ keep (has_priority p) all)
  unfolding emit emit_order
  emit-logged name payload now b w =
      let order = sort_stable by_priority (items_of name b ++ items_of "*" b) in
      let run =
        emit_items-IsRun (record { name = name; payload = payload; at = now }) order b [] w in
      (
        order,
        run.0,
        run.1,
        IsSorted-priority order (sort_stable-IsSorted by_priority by_priority-IsOrder _),
        sort_stable-perm by_priority _,
        λ p. sort_stable-keep by_priority (has_priority p) (alike p) _,
      )
