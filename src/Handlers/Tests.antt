-- ===== src/Handlers/Tests.antt =====
-- The theorems on the handler registry at concrete data. Stanzas and callbacks are numbers.
use slixmpp_go.Common.{ℕ, ◌≡◌, refl, false, none, some, [], nat_eq, map, arith, ◌∷◌}
use slixmpp_go.Common.Int.{ℤ, pos, negsuc, lt_int}
use slixmpp_go.Common.Sort.{sort_stable, insert_sorted}
use slixmpp_go.Handlers.{Handler, HandlerOptions, HandlerRegistry, add, remove, snapshot}
use slixmpp_go.Handlers.Laws.{IsValid, add-IsValid, remove-add}

abbrev options : ℤ → HandlerOptions
options p = record { priority = p; once = false; async = false }

abbrev empty : HandlerRegistry ℕ ℕ
empty = record { next_id = 0; handlers = [] }

empty-IsValid : IsValid empty
empty-IsValid = record { sorted = tt; given = tt }

abbrev first : Handler ℕ ℕ × HandlerRegistry ℕ ℕ
first = add "first" none 1 (options (pos 0)) empty

abbrev second : Handler ℕ ℕ × HandlerRegistry ℕ ℕ
second = add "second" none 2 (options (negsuc 4)) first.1

by_priority_test : map (λ h. h.callback) (snapshot second.1) ≡ 2 ∷ 1 ∷ []
unfolding add sort_stable insert_sorted lt_int
by_priority_test = refl

first-IsValid : IsValid first.1
first-IsValid = add-IsValid "first" none 1 (options (pos 0)) empty (omega arith) empty-IsValid

remove-add_example : snapshot (remove (some second.0) second.1) ≡ snapshot first.1
unfolding add
remove-add_example =
    remove-add "second" none 2 (options (negsuc 4)) first.1 (omega arith) first-IsValid
