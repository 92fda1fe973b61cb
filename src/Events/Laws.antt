-- ===== src/Events/Laws.antt =====
-- xmpp/events.go: what the bus keeps, and the order in which an event is delivered.
use slixmpp_go.Common.{
  ℕ, ◌+◌, ◌%◌, ◌^◌, ◌<◌, ◌≤◌, ◌≡◌, refl, sym, subst, ap, ◌∙◌, Bool, true, false, Option, none, some,
  List, [], ◌∷◌, ◌++◌, String, ◌==◌, ==-refl, ==_iff, string_eq, nat_eq, if◌then◌else◌, All,
  All-append, Bool-cases, inl, inr, arith,
}
use slixmpp_go.Common.Dict
use slixmpp_go.Common.Dict.{Dict}
use slixmpp_go.Common.Int.{lt_int_asym, not_lt_int_trans}
use slixmpp_go.Common.Sort.{
  sort_stable, remove_first, IsSorted, IsOrder, sort_stable-IsSorted, All-remove_first,
  All-sort_stable, remove_first-sort_stable, sort_stable_sorted, IsSorted-remove_first,
}
use slixmpp_go.Events.{
  EventBus, EventOptions, Subscription, items_of, or_empty, by_priority, on, off, has_id, put_items,
}

module _ {H : Type 0} where
  pub by_priority-IsOrder : IsOrder (by_priority {H = H})
  by_priority-IsOrder = record {
    asym = λ a b. lt_int_asym a.priority b.priority;
    not_less_trans = λ a b c. not_lt_int_trans a.priority b.priority c.priority;
  }

  -- A subscription is listed under its own name, with an id that was given out.
  pub record IsListed (name : String) (bound : ℕ) (s : Subscription H) : Type 0 where
    pub named : s.name ≡ name
    pub given : s.id ≤ bound

  -- Every list is sorted by priority, and its subscriptions are listed.
  pub record IsValid (b : EventBus H) : Type 0 where
    pub sorted : (name : String) → IsSorted by_priority (items_of name b)
    pub listed : (name : String) → All (IsListed name b.next_id) (items_of name b)

  items_of-insert :
      (k name : String) (items : List (Subscription H)) (b : EventBus H) (n : ℕ)
      → items_of k (record { next_id = n; handlers = Dict.insert name items b.handlers })
        ≡ (if k == name then items else items_of k b)
  unfolding items_of
  items_of-insert k name items b n =
      ap or_empty (Dict.lookup-insert k name items b.handlers) ∙ or_empty-if (k == name)
    where
      or_empty-if :
          (t : Bool)
          → or_empty (if t then some items else Dict.lookup k b.handlers)
            ≡ (if t then items else items_of k b)
      or_empty-if true = refl
      or_empty-if false = refl

  items_of-put_items :
      (k name : String) (items : List (Subscription H)) (b : EventBus H)
      → items_of k (put_items name items b) ≡ (if k == name then items else items_of k b)
  unfolding items_of
  items_of-put_items k name [] b =
      ap or_empty (Dict.lookup-erase k name b.handlers) ∙ or_empty-if (k == name)
    where
      or_empty-if :
          (t : Bool)
          → or_empty (if t then none else Dict.lookup k b.handlers)
            ≡ (if t then [] else items_of k b)
      or_empty-if true = refl
      or_empty-if false = refl
  items_of-put_items k name (s ∷ items) b = items_of-insert k name (s ∷ items) b b.next_id

  next_id-put_items :
      (name : String) (items : List (Subscription H)) (b : EventBus H)
      → (put_items name items b).next_id ≡ b.next_id
  next_id-put_items name [] b = refl
  next_id-put_items name (s ∷ items) b = refl

  IsListed-mono :
      (name : String) (m n : ℕ) (items : List (Subscription H))
      → m ≤ n
      → All (IsListed name m) items
      → All (IsListed name n) items
  IsListed-mono name m n [] h all = tt
  IsListed-mono name m n (s ∷ items) h all = (
    record { named = all.0.named; given = omega (arith, all.0.given) },
    IsListed-mono name m n items h all.1,
  )

  -- An id that is not given out yet is not in a list.
  new_id-absent :
      (name : String) (n id : ℕ) (items : List (Subscription H))
      → n < id
      → All (IsListed name n) items
      → All (λ s. has_id id s ≡ false) items
  new_id-absent name n id [] h all = tt
  new_id-absent name n id (s ∷ items) h all =
      (let g = all.0.given in ground arith, new_id-absent name n id items h all.1)

  put-IsSorted :
      (k name : String) (items : List (Subscription H)) (b : EventBus H)
      → IsValid b
      → IsSorted by_priority items
      → IsSorted by_priority (if k == name then items else items_of k b)
  put-IsSorted k name items b v s = elim (Bool-cases (k == name)) [
    | inl e ↦ rw e s
    | inr e ↦ rw e (v.sorted k)
  ]

  put-IsListed :
      (k name : String) (n : ℕ) (items : List (Subscription H)) (b : EventBus H)
      → IsValid b
      → b.next_id ≤ n
      → All (IsListed name n) items
      → All (IsListed k n) (if k == name then items else items_of k b)
  put-IsListed k name n items b v le all = elim (Bool-cases (k == name)) [
    | inl e ↦ rw e (subst (λ m. All (IsListed m n) items) (sym ((==_iff k name).0 e)) all)
    | inr e ↦ rw e (IsListed-mono k b.next_id n (items_of k b) le (v.listed k))
  ]

  -- `On` keeps the bus valid: every list is sorted by priority, and made of subscriptions with
  -- the list's name and an id that was given out, if the counter does not wrap round.
  pub on-IsValid :
      (name : String) (handler : H) (options : List EventOptions) (b : EventBus H)
      → b.next_id + 1 < 2 ^ 64
      → IsValid b
      → IsValid (on name handler options b).1
  unfolding on
  on-IsValid name handler options b room v = record {
    sorted = λ k.
        rw (items_of-insert k name _ b _)
          (put-IsSorted k name _ b v (sort_stable-IsSorted by_priority by_priority-IsOrder _));
    listed = λ k. rw (items_of-insert k name _ b _) (
        put-IsListed k name _ _ b v (omega arith) (
          All-sort_stable by_priority (IsListed name _) _ (
            All-append (IsListed name _) _ _
              (IsListed-mono name b.next_id _ _ (omega arith) (v.listed name))
              (record { named = refl; given = omega arith }, tt))));
  }

  -- `Off` of any subscription, or of nil, keeps every list sorted by priority, and made of
  -- subscriptions with the list's name and an id that was given out.
  pub off-IsValid : (s : Option (Subscription H)) (b : EventBus H) → IsValid b → IsValid (off s b)
  unfolding off
  off-IsValid none b v = v
  off-IsValid (some s) b v = record {
    sorted = λ k. rw (items_of-put_items k s.name _ b) (
        put-IsSorted k s.name _ b v (
          IsSorted-remove_first by_priority by_priority-IsOrder (has_id s.id) _ (v.sorted s.name)));
    listed = λ k.
        rw (items_of-put_items k s.name _ b, next_id-put_items s.name _ b)
          (put-IsListed k s.name _ _ b v (omega arith)
            (All-remove_first (IsListed s.name b.next_id) (has_id s.id) _ (v.listed s.name)));
  }

  -- `Off` of the subscription that `On` has just returned leaves under every name the handlers
  -- that stood there before, in their order, if the bus is valid and the counter does not wrap
  -- round.
  pub off-on :
      (name : String) (handler : H) (options : List EventOptions) (b : EventBus H) (k : String)
      → b.next_id + 1 < 2 ^ 64
      → IsValid b
      → let (s, b') = on name handler options b in items_of k (off (some s) b') ≡ items_of k b
  unfolding on off
  off-on name handler options b k room v =
      let id = (b.next_id + 1) % 2 ^ 64 in
      let s = (on name handler options b).0 in
      let b' = (on name handler options b).1 in
      let items = sort_stable by_priority (items_of name b ++ (s ∷ [])) in
      rw
        (
          items_of-put_items k name (remove_first (has_id id) (items_of name b')) b',
          items_of-insert name name items b id,
          items_of-insert k name items b id,
          ==-refl name,
          remove_first-sort_stable by_priority by_priority-IsOrder (has_id id) (items_of name b) s
              (new_id-absent name b.next_id id _ (omega arith) (v.listed name)) (==-refl id),
          sort_stable_sorted by_priority by_priority-IsOrder (has_id id) _ (v.sorted name),
        )
        (elim (Bool-cases (k == name)) [
          | inl e ↦ rw (e, (==_iff k name).0 e) refl
          | inr e ↦ rw e refl
        ])
