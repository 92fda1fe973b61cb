-- ===== src/Dispatch/Once.antt =====
-- xmpp/client.go: what `dispatchStanza` leaves of the handlers that are called once.
use Prim.Native.String.{◌++◌ as ◌<>◌}
use mathlib.Core.List.{Memᴰ}
use mathlib.Core.List.Memᴰ
use slixmpp_go.Common.{
  ℕ, ◌+◌, ◌^◌, ◌<◌, ◌≤◌, ◌≡◌, sym, ◌∙◌, ap, ap₂, Bool, true, false, some, List, [], ◌∷◌, String,
  ◌!=◌, string_eq, arith, if◌then◌else◌, inl, inr, nat_eq,
}
use slixmpp_go.Handlers.{Handler, HandlerRegistry, snapshot, remove}
use slixmpp_go.Stanza.{Stanza, message, presence, iq}
use slixmpp_go.Dispatch.{
  Callbacks, Run, called, started, report, run, handle, handle_all, call_hook, emit, emit_kind,
  announce, dispatch_stanza,
}
use slixmpp_go.Dispatch.Steps.{
  times, count-remove_first, count-remove_first_same, IsStep, IsFaithful, room, IsStep-refl,
  IsStep-trans,
}

module _ {C E : Type 0} (n a : ℕ) (k : Callbacks C E) (f : IsFaithful n a k) where
  run-IsStep :
      (h : Handler Stanza C) (r : HandlerRegistry Stanza C)
      → n ≤ r.next_id
      → r.next_id + a < 2 ^ 64
      → IsStep n a r (run k h r).0
  run-IsStep h r g w = by_async h.async
    where
      by_async :
          (b : Bool)
          → IsStep n a r
              (if◌then◌else◌ {A = Run C E} b
                (r, started h ∷ [])
                (let (e, r') = k.callback h.callback r in (r', called h ∷ report h.name e))).0
      by_async true = IsStep-refl n a r
      by_async false = f.callback h.callback r g w

  unless_once-IsStep :
      (h : Handler Stanza C) (r : HandlerRegistry Stanza C)
      → IsStep n 0 r (if h.once then remove (some h) r else r)
  unfolding remove
  unless_once-IsStep h r = by_once h.once
    where
      by_once : (b : Bool) → IsStep n 0 r (if b then remove (some h) r else r)
      by_once true = record {
        lower = omega arith;
        upper = omega arith;
        kept = count-remove_first n h.id r.handlers;
      }
      by_once false = IsStep-refl n 0 r

  handle-IsStep :
      (s : Stanza) (h : Handler Stanza C) (r : HandlerRegistry Stanza C)
      → n ≤ r.next_id
      → r.next_id + a < 2 ^ 64
      → IsStep n a r (handle k s h r).0
  handle-IsStep s h r g w = by_match (h.matcher s)
    where
      r' : HandlerRegistry Stanza C
      r' = if h.once then remove (some h) r else r

      removed : IsStep n 0 r r'
      removed = unless_once-IsStep h r

      by_match : (b : Bool) → IsStep n a r (if◌then◌else◌ {A = Run C E} b (run k h r') (r, [])).0
      by_match true =
          let q =
            run-IsStep h r' (omega (arith, removed.lower, g)) (omega (arith, removed.upper, w)) in
          record {
            lower = omega (arith, removed.lower, q.lower);
            upper = omega (arith, removed.upper, q.upper);
            kept = omega (arith, removed.kept, q.kept);
          }
      by_match false = IsStep-refl n a r

  handle_all-IsStep :
      (s : Stanza) (hs : List (Handler Stanza C)) (r : HandlerRegistry Stanza C) (more : ℕ)
      → n ≤ r.next_id
      → r.next_id + room a more hs < 2 ^ 64
      → IsStep n (room a 0 hs) r (handle_all k s hs r).0
        × ((handle_all k s hs r).0.next_id + more < 2 ^ 64)
  unfolding handle_all room
  handle_all-IsStep s [] r more g w = (IsStep-refl n 0 r, w)
  handle_all-IsStep s (h ∷ hs) r more g w =
      let r' = (handle k s h r).0 in
      let p = handle-IsStep s h r g (omega (arith, w)) in
      let (q, v) =
        handle_all-IsStep s hs r' more (omega (arith, p.lower, g)) (omega (arith, p.upper, w)) in
      (IsStep-trans n a (room a 0 hs) r r' (handle_all k s hs r').0 p q, v)

  emit_kind-IsStep :
      (name kind : String) (r : HandlerRegistry Stanza C)
      → n ≤ r.next_id
      → r.next_id + a < 2 ^ 64
      → IsStep n a r (emit_kind k name kind r).0
  emit_kind-IsStep name kind r g w = by_flag (kind != "")
    where
      by_flag :
          (b : Bool)
          → IsStep n a r (if◌then◌else◌ {A = Run C E} b (emit k (name <> kind) r) (r, [])).0
      by_flag true = f.subscribers (name <> kind) r g w
      by_flag false = IsStep-refl n a r

  -- `OnMessage` or its like, the stanza's event, and the event of its type.
  announced-IsStep :
      (name kind_name kind : String) (r : HandlerRegistry Stanza C)
      → n ≤ r.next_id
      → r.next_id + (a + a + a) < 2 ^ 64
      → times n (emit_kind k kind_name kind (k.subscribers name (call_hook {E = E} k.hook r).0)).0
        ≤ times n r
  announced-IsStep name kind_name kind r g w =
      let t = (call_hook {E = E} k.hook r).0 in
      let p = f.hook r g (omega arith) in
      let q = f.subscribers name t (omega (arith, p.lower)) (omega (arith, p.upper)) in
      let o =
        emit_kind-IsStep kind_name kind (k.subscribers name t) (omega (arith, p.lower, q.lower))
          (omega (arith, p.upper, q.upper)) in
      omega (arith, p.kept, q.kept, o.kept)

  times-announce :
      (s : Stanza) (r : HandlerRegistry Stanza C)
      → n ≤ r.next_id
      → r.next_id + (a + a + a) < 2 ^ 64
      → times n (announce k s r).0 ≤ times n r
  unfolding announce
  times-announce (message m) r g w = announced-IsStep "message" "message_" m.kind r g w
  times-announce (presence p) r g w = announced-IsStep "presence" "presence_" p.kind r g w
  times-announce (iq i) r g w =
      let p = f.hook r g (omega arith) in
      let q =
        f.subscribers "iq" (call_hook {E = E} k.hook r).0 (omega (arith, p.lower))
          (omega (arith, p.upper)) in
      omega (arith, p.kept, q.kept)

module _ {C E : Type 0} (a : ℕ) (k : Callbacks C E) (s : Stanza) (h : Handler Stanza C)
    (f : IsFaithful h.id a k) (m : h.matcher s ≡ true) (o : h.once ≡ true) where
  times-handle_once :
      (r : HandlerRegistry Stanza C)
      → h.id ≤ r.next_id
      → r.next_id + a < 2 ^ 64
      → times h.id r ≤ 1
      → times h.id (handle k s h r).0 ≡ 0
  unfolding remove
  times-handle_once r g w le =
      let r' = remove (some h) r in
      let p = (run-IsStep h.id a k f h r' g w).kept in
      let b = count-remove_first_same h.id r.handlers le in
      let same : handle k s h r ≡ run k h r' =
        ap₂
          (λ x y.
            if◌then◌else◌ {A = Run C E} x (run k h (if y then remove (some h) r else r)) (r, []))
          m o in
      ap (λ p. times h.id p.0) same ∙ omega (arith, p, b)

  times-handle_all_once :
      (hs : List (Handler Stanza C)) (r : HandlerRegistry Stanza C) (more : ℕ)
      → Memᴰ h hs
      → h.id ≤ r.next_id
      → r.next_id + room a more hs < 2 ^ 64
      → times h.id r ≤ 1
      → times h.id (handle_all k s hs r).0 ≡ 0
  unfolding handle_all room
  times-handle_all_once [] r more i g w le = elim i [ ]
  times-handle_all_once (x ∷ hs) r more i g w le =
      let p = handle-IsStep h.id a k f s x r g (omega (arith, w)) in
      let g' : h.id ≤ (handle k s x r).0.next_id = omega (arith, p.lower) in
      let w' : (handle k s x r).0.next_id + room a more hs < 2 ^ 64 = omega (arith, p.upper, w) in
      elim (Memᴰ.cases_cons i) [
        | inl e ↦
            let b : times h.id (handle k s x r).0 ≡ 0 =
              ap (λ y. times h.id (handle k s y r).0) (sym e)
              ∙ times-handle_once r g (omega (arith, w)) le in
            let c = (handle_all-IsStep h.id a k f s hs (handle k s x r).0 more g' w').0.kept in
            omega (arith, b, c)
        | inr i' ↦
            times-handle_all_once hs (handle k s x r).0 more i' g' w' (omega (arith, p.kept, le))
      ]

  -- Let each piece of code that is called only remove handlers and add up to `a` new ones, and the
  -- counter of ids have room for all of that. A handler that is called once, wants the stanza and
  -- is registered when the subscribers of "received_stanza" have been called is not registered any
  -- more behind `dispatch_stanza`, if its id had been given out and stood there at most once.
  pub times-dispatch_stanza :
      (r : HandlerRegistry Stanza C)
      → Memᴰ h (snapshot (k.subscribers "received_stanza" r))
      → h.id ≤ r.next_id
      → r.next_id + (a + room a (a + (a + a + a)) (snapshot (k.subscribers "received_stanza" r)))
        < 2 ^ 64
      → times h.id r ≤ 1
      → times h.id (dispatch_stanza k s r).0 ≡ 0
  unfolding dispatch_stanza
  times-dispatch_stanza r i g w le =
      let t = k.subscribers "received_stanza" r in
      let p = f.subscribers "received_stanza" r g (omega (arith, w)) in
      let g1 : h.id ≤ t.next_id = omega (arith, p.lower) in
      let w1 : t.next_id + room a (a + (a + a + a)) (snapshot t) < 2 ^ 64 =
        omega (arith, p.upper, w) in
      let u = (handle_all k s (snapshot t) t).0 in
      let b =
        times-handle_all_once (snapshot t) t (a + (a + a + a)) i g1 w1
          (omega (arith, p.kept, le)) in
      let (q, v) = handle_all-IsStep h.id a k f s (snapshot t) t (a + (a + a + a)) g1 w1 in
      let c = f.subscribers "stanza" u (omega (arith, q.lower)) (omega (arith, v)) in
      let d =
        times-announce h.id a k f s (k.subscribers "stanza" u) (omega (arith, q.lower, c.lower))
          (omega (arith, c.upper, v)) in
      omega (arith, b, c.kept, d)
