-- ===== src/Plugin.antt =====
-- xmpp/plugin.go: the plugin manager. `W` is the rest of the program's state, `E` its errors; the
-- plugins' `Init` and `Shutdown` and the handlers of the event `plugin_loaded` act on `W`, and are
-- taken not to call the manager.
pub mod Growth
pub mod Order
pub mod Fuel
pub mod Lifecycle
mod Tests
use slixmpp_go.Common.{
  ℕ, zero, suc, Bool, true, false, ◌||◌, Option, none, some, List, [], ◌∷◌, ◌++◌, String, ◌==◌,
  string_eq, if◌then◌else◌, contains,
}
use slixmpp_go.Common.Dict
use slixmpp_go.Common.Dict.{Dict}
use slixmpp_go.Common.Result.{Result, ok, err}

pub record Plugin : Type 0 where
  pub name : String
  pub dependencies : List String
  pub features : List String

pub data PluginError (E : Type 0) : Type 0 where
  factory_required : PluginError E
  already_registered : String → PluginError E
  invalid_plugin : PluginError E
  cyclic : String → PluginError E
  dependency : String → String → PluginError E → PluginError E
  init_failed : String → E → PluginError E
  unknown_plugin : String → PluginError E
  out_of_fuel : PluginError E

-- A factory is what it makes, or none for a factory that returns nil. `loading` is a set of names.
pub record PluginManager (W : Type 0) : Type 0 where
  pub factories : Dict String (Option Plugin)
  pub loaded : Dict String Plugin
  pub loading : Dict String Bool
  pub order : List String
  pub rest : W

-- `m.loading[name]`: a missing entry reads as false.
abbrev pub is_loading : {W : Type 0} → String → PluginManager W → Bool
is_loading name m = elim (Dict.lookup name m.loading) [ none ↦ false | some b ↦ b ]

-- `RegisterFactory`. The second argument is none for a nil factory.
unfoldable pub register_factory :
    {W E : Type 0}
    → String
    → Option (Option Plugin)
    → PluginManager W
    → Option (PluginError E) × PluginManager W
register_factory name none m = (some factory_required, m)
register_factory name (some f) m =
    if name == "" then (some factory_required, m) else elim (Dict.lookup name m.factories) [
      | some _ ↦ (some (already_registered name), m)
      | none ↦ (none, record m { factories = Dict.insert name f m.factories })
    ]

-- The error, if there is one, and the state after the call.
abbrev pub Outcome : Type 0 → Type 0 → Type 0
Outcome W E = Option (PluginError E) × PluginManager W

abbrev pub mark_loading : {W : Type 0} → String → PluginManager W → PluginManager W
mark_loading name m = record m { loading = Dict.insert name true m.loading }

-- The deferred `delete(m.loading, p.Name())`.
abbrev pub unmark_loading : {W : Type 0} → String → PluginManager W → PluginManager W
unmark_loading name m = record m { loading = Dict.erase name m.loading }

module _ {W E : Type 0} where
  -- `return p, nil` or the error of `Use`.
  abbrev pub returning :
      Option Plugin → Outcome W E → Result (PluginError E) (Option Plugin) × PluginManager W
  returning p (none, m) = (ok p, m)
  returning p (some e, m) = (err e, m)

  -- `Load`, over a version of `Use`.
  unfoldable pub load_with :
      (Option Plugin → PluginManager W → Outcome W E)
      → String
      → PluginManager W
      → Result (PluginError E) (Option Plugin) × PluginManager W
  load_with use_it name m = elim (Dict.lookup name m.loaded) [
    | some p ↦ (ok (some p), m)
    | none ↦ elim (Dict.lookup name m.factories) [
      | none ↦ (err (unknown_plugin name), m)
      | some p ↦ returning p (use_it p m)
    ]
  ]

  -- What the loop does with the result of one `Load`.
  abbrev pub after_load :
      String
      → String
      → (PluginManager W → Outcome W E)
      → Result (PluginError E) (Option Plugin) × PluginManager W
      → Outcome W E
  after_load owner dep next (ok _, m) = next m
  after_load owner dep next (err e, m) = (some (dependency owner dep e), m)

  -- The loop over `p.Dependencies()`.
  unfoldable pub load_dependencies :
      (Option Plugin → PluginManager W → Outcome W E)
      → String
      → List String
      → PluginManager W
      → Outcome W E
  load_dependencies use_it owner [] m = (none, m)
  load_dependencies use_it owner (dep ∷ deps) m =
      after_load owner dep (load_dependencies use_it owner deps) (load_with use_it dep m)

  module _ (init : Plugin → W → Option E × W) (emit_loaded : Plugin → W → W) where
    -- The part of `Use` behind the call of `Init`.
    abbrev pub after_init : Plugin → PluginManager W → Option E × W → Outcome W E
    after_init p m (some e, rest) = (some (init_failed p.name e), record m { rest = rest })
    after_init p m (none, rest) = (
      none,
      record m {
        loaded = Dict.insert p.name p m.loaded;
        order = m.order ++ (p.name ∷ []);
        rest = emit_loaded p rest;
      },
    )

    -- The part of `Use` behind the loop.
    abbrev pub after_dependencies : Plugin → Outcome W E → Outcome W E
    after_dependencies p (some e, m) = (some e, m)
    after_dependencies p (none, m) = after_init p m (init p m.rest)

    -- What `Use` does between marking the name and the deferred deletion.
    unfoldable pub use_marked :
        (Option Plugin → PluginManager W → Outcome W E) → Plugin → PluginManager W → Outcome W E
    use_marked use_it p m = after_dependencies p (load_dependencies use_it p.name p.dependencies m)

    unfoldable pub use_step :
        (Option Plugin → PluginManager W → Outcome W E)
        → Option Plugin
        → PluginManager W
        → Outcome W E
    use_step use_it none m = (some invalid_plugin, m)
    use_step use_it (some p) m =
        if p.name == "" then (some invalid_plugin, m) else elim (Dict.lookup p.name m.loaded) [
          | some _ ↦ (none, m)
          | none ↦
              if is_loading p.name m
              then (some (cyclic p.name), m)
              else (let (failed, m') = use_marked use_it p (mark_loading p.name m) in
                  (failed, unmark_loading p.name m'))
        ]

    -- `Use`, with fuel for the nesting of its calls.
    unfoldable pub use_plugin : ℕ → Option Plugin → PluginManager W → Outcome W E
    use_plugin zero p m = (some out_of_fuel, m)
    use_plugin (suc fuel) p m = use_step (use_plugin fuel) p m

    -- `Load`
    unfoldable pub load :
        ℕ → String → PluginManager W → Result (PluginError E) (Option Plugin) × PluginManager W
    load fuel = load_with (use_plugin fuel)
