-- ===== src/Handlers/Laws.antt =====
-- xmpp/handler.go: what the registry keeps.
use slixmpp_go.Common.{
  ℕ, ◌+◌, ◌%◌, ◌^◌, ◌<◌, ◌≤◌, ◌≡◌, ◌∙◌, Bool, false, Option, none, some, List, [], ◌∷◌, String,
  ==-refl, nat_eq, All, All-append, arith,
}
use slixmpp_go.Common.Int.{lt_int_asym, not_lt_int_trans}
use slixmpp_go.Common.Sort.{
  IsSorted, IsOrder, sort_stable-IsSorted, All-remove_first, All-sort_stable,
  remove_first-sort_stable, sort_stable_sorted, IsSorted-remove_first,
}
use slixmpp_go.Handlers.{
  Handler, HandlerOptions, HandlerRegistry, by_priority, add, remove, has_id, snapshot,
}

module _ {S C : Type 0} where
  by_priority-IsOrder : IsOrder (by_priority {S = S} {C = C})
  by_priority-IsOrder = record {
    asym = λ a b. lt_int_asym a.priority b.priority;
    not_less_trans = λ a b c. not_lt_int_trans a.priority b.priority c.priority;
  }

  abbrev pub IsGiven : ℕ → Handler S C → Type 0
  IsGiven bound h = h.id ≤ bound

  pub record IsValid (r : HandlerRegistry S C) : Type 0 where
    pub sorted : IsSorted by_priority r.handlers
    pub given : All (IsGiven r.next_id) r.handlers

  IsGiven-mono :
      (m n : ℕ) (hs : List (Handler S C)) → m ≤ n → All (IsGiven m) hs → All (IsGiven n) hs
  IsGiven-mono m n [] le all = tt
  IsGiven-mono m n (h ∷ hs) le all = (omega (arith, all.0), IsGiven-mono m n hs le all.1)

  new_id-absent :
      (n id : ℕ) (hs : List (Handler S C))
      → n < id
      → All (IsGiven n) hs
      → All (λ h. has_id id h ≡ false) hs
  new_id-absent n id [] lt all = tt
  new_id-absent n id (h ∷ hs) lt all =
      (let g = all.0 in ground arith, new_id-absent n id hs lt all.1)

  -- `add` keeps the registry valid: the handlers are in order of priority, with ids that were
  -- given out, if the counter does not wrap round.
  pub add-IsValid :
      (name : String) (m : Option (S → Bool)) (callback : C) (o : HandlerOptions)
      (r : HandlerRegistry S C)
      → r.next_id + 1 < 2 ^ 64
      → IsValid r
      → IsValid (add name m callback o r).1
  unfolding add
  add-IsValid name m callback o r room v = record {
    sorted = sort_stable-IsSorted by_priority by_priority-IsOrder _;
    given = All-sort_stable by_priority (IsGiven _) _ (
        All-append (IsGiven _) _ _ (IsGiven-mono r.next_id _ _ (omega arith) v.given)
          (omega arith, tt));
  }

  -- `remove` of any handler, or of nil, keeps the handlers in order of priority, with ids that
  -- were given out.
  pub remove-IsValid :
      (h : Option (Handler S C)) (r : HandlerRegistry S C) → IsValid r → IsValid (remove h r)
  unfolding remove
  remove-IsValid none r v = v
  remove-IsValid (some h) r v = record {
    sorted =
        IsSorted-remove_first by_priority by_priority-IsOrder (has_id h.id) r.handlers v.sorted;
    given = All-remove_first (IsGiven r.next_id) (has_id h.id) r.handlers v.given;
  }

  -- Removing the handler that `add` has just returned leaves the handlers that stood there
  -- before, in their order, if the registry is valid and the counter does not wrap round.
  pub remove-add :
      (name : String) (m : Option (S → Bool)) (callback : C) (o : HandlerOptions)
      (r : HandlerRegistry S C)
      → r.next_id + 1 < 2 ^ 64
      → IsValid r
      → let (h, r') = add name m callback o r in snapshot (remove (some h) r') ≡ snapshot r
  unfolding add remove
  remove-add name m callback o r room v =
      let id = (r.next_id + 1) % 2 ^ 64 in
      remove_first-sort_stable by_priority by_priority-IsOrder (has_id id) r.handlers _
        (new_id-absent r.next_id id r.handlers (omega arith) v.given) (==-refl id)
      ∙ sort_stable_sorted by_priority by_priority-IsOrder (has_id id) r.handlers v.sorted
