-- ===== src/Plugin/Tests.antt =====
-- The theorems on the plugin manager at concrete data.
use slixmpp_go.Common.{
  true, contains, ℕ, ◌+◌, ◌≡◌, refl, Option, none, some, [], ◌∷◌, String, string_eq, arith,
}
use slixmpp_go.Common.Dict
use slixmpp_go.Common.Dict.{Dict}
use slixmpp_go.Plugin.{
  Plugin, PluginManager, use_plugin, use_step, use_marked, load_with, load_dependencies, cyclic,
  dependency,
}
use slixmpp_go.Plugin.Order.{
  IsValid, start, IsWellNamed, IsLoaded, use_plugin-IsValid, use_plugin-IsLoaded,
}
use slixmpp_go.Events.{Joined, multi_error, join_errors}
use slixmpp_go.Plugin.Lifecycle.{backwards, shutdown, shutdown_items}
use slixmpp_go.Plugin.Lifecycle.Laws.{behind, behind-shutdown, shutdown-total}
use slixmpp_go.Plugin.Fuel.{AllSettled, use_plugin-settled}

abbrev disco : Plugin
disco = record { name = "xep_0030"; dependencies = []; features = [] }

abbrev caps : Plugin
caps = record { name = "xep_0115"; dependencies = "xep_0030" ∷ []; features = [] }

-- Two plugins that need each other.
abbrev left : Plugin
left = record { name = "left"; dependencies = "right" ∷ []; features = [] }

abbrev right : Plugin
right = record { name = "right"; dependencies = "left" ∷ []; features = [] }

abbrev manager : PluginManager ℕ
manager = record {
  factories =
      ("xep_0030", some disco)
      ∷ ("xep_0115", some caps)
      ∷ ("left", some left)
      ∷ ("right", some right)
      ∷ [];
  loaded = [];
  loading = [];
  order = [];
  rest = 0;
}

-- `Init` succeeds, and the state counts the events.
abbrev init : Plugin → ℕ → Option String × ℕ
init p n = (none, n)

abbrev emit_loaded : Plugin → ℕ → ℕ
emit_loaded p n = n + 1

manager-IsValid : IsValid manager
unfolding Dict.lookup
manager-IsValid = record { ordered = start; listed = λ k p h. cc }

abbrev IsNamed : String → Option Plugin → Type 0
IsNamed k made = (p : Plugin) → made ≡ some p → p.name ≡ k

manager-IsWellNamed : IsWellNamed manager
manager-IsWellNamed k p h =
    Dict.lookup_sound IsNamed k manager.factories
      (λ q e. cc, (λ q e. cc, (λ q e. cc, (λ q e. cc, tt)))) h p refl

used : (use_plugin init emit_loaded 6 (some caps) manager).0 ≡ none
unfolding use_plugin use_step use_marked load_with load_dependencies Dict.lookup Dict.insert
    Dict.erase string_eq
used = refl

order_used :
    (use_plugin init emit_loaded 6 (some caps) manager).1.order ≡ "xep_0030" ∷ "xep_0115" ∷ []
unfolding use_plugin use_step use_marked load_with load_dependencies Dict.lookup Dict.insert
    Dict.erase string_eq
order_used = refl

cycle_found :
    (use_plugin init emit_loaded 6 (some left) manager).0
    ≡ some (dependency "left" "right" (dependency "right" "left" (cyclic "left")))
unfolding use_plugin use_step use_marked load_with load_dependencies Dict.lookup Dict.insert
    Dict.erase string_eq
cycle_found = refl

use_plugin-IsValid_example : IsValid (use_plugin init emit_loaded 6 (some caps) manager).1
use_plugin-IsValid_example =
    use_plugin-IsValid init emit_loaded 6 (some caps) manager manager-IsWellNamed manager-IsValid

use_plugin-IsLoaded_example :
    (q : Plugin) × (some caps ≡ some q)
    × IsLoaded q.name (use_plugin init emit_loaded 6 (some caps) manager).1
use_plugin-IsLoaded_example =
    use_plugin-IsLoaded init emit_loaded 6 (some caps) manager manager-IsWellNamed manager-IsValid
      used

use_plugin-settled_example : AllSettled (use_plugin init emit_loaded 6 (some left) manager).0
use_plugin-settled_example =
    use_plugin-settled init emit_loaded 6 (some left) manager manager-IsWellNamed manager-IsValid
      (omega arith)

abbrev after : PluginManager ℕ
after = (use_plugin init emit_loaded 6 (some caps) manager).1

after-IsValid : IsValid after
after-IsValid =
    use_plugin-IsValid init emit_loaded 6 (some caps) manager manager-IsWellNamed manager-IsValid

caps_loaded : Dict.lookup "xep_0115" after.loaded ≡ some caps
unfolding use_plugin use_step use_marked load_with load_dependencies Dict.lookup Dict.insert
    Dict.erase string_eq
caps_loaded = refl

needs_disco : contains caps.dependencies "xep_0030" ≡ true
unfolding string_eq
needs_disco = refl

behind-shutdown_example : contains (behind caps.name (backwards after.order)) "xep_0030" ≡ true
behind-shutdown_example =
    behind-shutdown after caps "xep_0030" after-IsValid caps_loaded needs_disco

-- `Shutdown` fails, and the state counts the calls.
abbrev shut : Plugin → ℕ → Option String × ℕ
shut p n = (some p.name, n + 1)

abbrev done : Option (Joined String × ℕ)
done = shutdown shut after

shutdown_test : done ≡ some (multi_error ("xep_0115" ∷ "xep_0030" ∷ []), 4)
unfolding shutdown shutdown_items join_errors use_plugin use_step use_marked load_with
    load_dependencies Dict.lookup Dict.insert Dict.erase string_eq
shutdown_test = refl

shutdown-total_example : (r : Joined String × ℕ) × (done ≡ some r)
shutdown-total_example = shutdown-total shut after after-IsValid

abbrev feature : String
feature = "f"
