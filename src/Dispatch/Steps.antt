-- ===== src/Dispatch/Steps.antt =====
-- xmpp/client.go: what one call of the client's code may do to the registry of handlers.
use slixmpp_go.Common.{
  ℕ, ◌+◌, ◌^◌, ◌<◌, ◌≤◌, ◌≡◌, refl, ◌∙◌, ap, Bool, false, Option, List, [], ◌∷◌, ◌++◌, String,
  string_eq, arith, if◌then◌else◌, nat_eq,
}
use slixmpp_go.Common.Sort.{remove_first, insert_sorted, sort_stable}
use slixmpp_go.Handlers.{Handler, HandlerOptions, HandlerRegistry, add, has_id, by_priority}
use slixmpp_go.Stanza.{Stanza}
use slixmpp_go.Dispatch.{Callbacks, call_hook}

module _ {C : Type 0} where
  unfoldable pub count : ℕ → List (Handler Stanza C) → ℕ
  count n [] = 0
  count n (h ∷ hs) = let rest = count n hs in if has_id n h then rest + 1 else rest

  -- How many handlers of a registry have an id.
  abbrev pub times : ℕ → HandlerRegistry Stanza C → ℕ
  times n r = count n r.handlers

  pub count-remove_first :
      (n m : ℕ) (hs : List (Handler Stanza C)) → count n (remove_first (has_id m) hs) ≤ count n hs
  unfolding count remove_first
  count-remove_first n m [] = omega arith
  count-remove_first n m (h ∷ hs) = ground (arith, count-remove_first n m hs)

  pub count-remove_first_same :
      (n : ℕ) (hs : List (Handler Stanza C))
      → count n hs ≤ 1
      → count n (remove_first (has_id n) hs) ≡ 0
  unfolding count remove_first
  count-remove_first_same n [] le = refl
  count-remove_first_same n (h ∷ hs) le = ground (arith, count-remove_first_same n hs)

-- What a call may do to the registry, for an id: it removes handlers and adds up to `a` new ones.
pub record IsStep {C : Type 0} (n a : ℕ) (r r' : HandlerRegistry Stanza C) : Type 0 where
  pub lower : r.next_id ≤ r'.next_id
  pub upper : r'.next_id ≤ r.next_id + a
  pub kept : times n r' ≤ times n r

-- The code that the client calls, where the id has been given out and the counter does not wrap
-- round: each call removes handlers and adds up to `a` of them, by `AddHandler`.
pub record IsFaithful {C E : Type 0} (n a : ℕ) (k : Callbacks C E) : Type 0 where
  pub subscribers :
      (name : String) (r : HandlerRegistry Stanza C)
      → n ≤ r.next_id
      → r.next_id + a < 2 ^ 64
      → IsStep n a r (k.subscribers name r)
  pub callback :
      (c : C) (r : HandlerRegistry Stanza C)
      → n ≤ r.next_id
      → r.next_id + a < 2 ^ 64
      → IsStep n a r (k.callback c r).1
  pub hook :
      (r : HandlerRegistry Stanza C)
      → n ≤ r.next_id
      → r.next_id + a < 2 ^ 64
      → IsStep n a r (call_hook {E = E} k.hook r).0

-- The ids that one call for each of some handlers, and `more` ids, may take.
unfoldable pub room : {C : Type 0} → ℕ → ℕ → List (Handler Stanza C) → ℕ
room a more [] = more
room a more (h ∷ hs) = a + room a more hs

module _ {C : Type 0} (n : ℕ) where
  pub IsStep-refl : (a : ℕ) (r : HandlerRegistry Stanza C) → IsStep n a r r
  IsStep-refl a r = record { lower = omega arith; upper = omega arith; kept = omega arith }

  pub IsStep-trans :
      (a b : ℕ) (r s t : HandlerRegistry Stanza C)
      → IsStep n a r s
      → IsStep n b s t
      → IsStep n (a + b) r t
  IsStep-trans a b r s t p q = record {
    lower = omega (arith, p.lower, q.lower);
    upper = omega (arith, p.upper, q.upper);
    kept = omega (arith, p.kept, q.kept);
  }

-- `AddHandler` is such a call, that adds one handler: its id is a new one.
module _ {C : Type 0} where
  count-insert_sorted :
      (n : ℕ) (h : Handler Stanza C) (hs : List (Handler Stanza C))
      → count n (insert_sorted by_priority h hs) ≡ count n (h ∷ hs)
  unfolding count insert_sorted
  count-insert_sorted n h [] = refl
  count-insert_sorted n h (x ∷ hs) = ground (arith, count-insert_sorted n h hs)

  count-sort_stable :
      (n : ℕ) (hs : List (Handler Stanza C)) → count n (sort_stable by_priority hs) ≡ count n hs
  unfolding count sort_stable
  count-sort_stable n [] = refl
  count-sort_stable n (h ∷ hs) =
      count-insert_sorted n h (sort_stable by_priority hs)
      ∙ ap (λ m. if has_id n h then m + 1 else m) (count-sort_stable n hs)

  count-append_new :
      (n : ℕ) (hs : List (Handler Stanza C)) (h : Handler Stanza C)
      → has_id n h ≡ false
      → count n (hs ++ (h ∷ [])) ≡ count n hs
  unfolding count
  count-append_new n [] h e = rw e refl
  count-append_new n (x ∷ hs) h e =
      ap (λ m. if has_id n x then m + 1 else m) (count-append_new n hs h e)

  pub add-IsStep :
      (n : ℕ) (name : String) (m : Option (Stanza → Bool)) (callback : C) (o : HandlerOptions)
      (r : HandlerRegistry Stanza C)
      → n ≤ r.next_id
      → r.next_id + 1 < 2 ^ 64
      → IsStep n 1 r (add name m callback o r).1
  unfolding add
  add-IsStep n name m callback o r g w = record {
    lower = omega arith;
    upper = omega arith;
    kept = omega (
      arith,
      count-sort_stable n (r.handlers ++ (_ ∷ [])),
      count-append_new n r.handlers (add name m callback o r).0 (ground arith),
    );
  }
