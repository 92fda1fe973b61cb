-- ===== src/Plugin/Lifecycle.antt =====
-- xmpp/plugin.go: what the manager tells about the loaded plugins, and `shutdown`.
pub mod Laws
use slixmpp_go.Common.{
  Bool, true, false, ◌||◌, ◌&&◌, Option, none, some, List, [], ◌∷◌, ◌++◌, String, ◌==◌, string_eq,
  if◌then◌else◌, contains, map,
}
use slixmpp_go.Common.Dict
use slixmpp_go.Common.Dict.{Dict}
use slixmpp_go.Common.Sort.{sort_stable}
use slixmpp_go.Common.Text.{lt_string}
use slixmpp_go.Events.{Joined, join_errors}
use slixmpp_go.Plugin.{Plugin, PluginManager}

-- `Get`; `MustGet` panics where this is none.
abbrev pub get : {W : Type 0} → String → PluginManager W → Option Plugin
get name m = Dict.lookup name m.loaded

-- `Names`
unfoldable pub names : {W : Type 0} → PluginManager W → List String
names m = sort_stable lt_string (map (λ p. p.0) m.loaded)

-- The body of the inner loop of `Features`, on the set of the features seen.
abbrev pub see : String → List String → List String
see f seen = if f == "" || contains seen f then seen else f ∷ seen

unfoldable pub see_all : List String → List String → List String
see_all [] seen = seen
see_all (f ∷ fs) seen = see_all fs (see f seen)

unfoldable pub see_plugins : List Plugin → List String → List String
unfolding see_all
see_plugins [] seen = seen
see_plugins (p ∷ ps) seen = see_plugins ps (see_all p.features seen)

-- `Features`
unfoldable pub features : {W : Type 0} → PluginManager W → List String
unfolding see_plugins
features m = sort_stable lt_string (see_plugins (Dict.values m.loaded) [])

-- From the last to the first.
abbrev pub backwards : {A : Type 0} → List A → List A
backwards [] = []
backwards (x ∷ xs) = backwards xs ++ (x ∷ [])

module _ {W E : Type 0} (shut : Plugin → W → Option E × W) where
  abbrev pub with_error : Option E → Option (List (Option E) × W) → Option (List (Option E) × W)
  with_error e none = none
  with_error e (some (es, w)) = some (e ∷ es, w)

  -- The loop of `shutdown`. A name that is not loaded reads as a nil plugin: the call panics.
  unfoldable pub shutdown_items :
      Dict String Plugin → List String → W → Option (List (Option E) × W)
  shutdown_items d [] w = some ([], w)
  shutdown_items d (k ∷ ks) w = elim (Dict.lookup k d) [
    | none ↦ none
    | some p ↦ with_error (shut p w).0 (shutdown_items d ks (shut p w).1)
  ]

  -- `shutdown`
  unfoldable pub shutdown : PluginManager W → Option (Joined E × W)
  unfolding shutdown_items
  shutdown m = elim (shutdown_items m.loaded (backwards m.order) m.rest) [
    | none ↦ none
    | some (es, w) ↦ some (join_errors es, w)
  ]
