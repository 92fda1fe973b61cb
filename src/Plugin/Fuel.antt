-- ===== src/Plugin/Fuel.antt =====
-- The nesting of `Use` is bounded: each level marks one more of the names that factories make.
use slixmpp_go.Common.{
  ℕ, zero, suc, ◌+◌, ◌<◌, ◌≤◌, ◌≡◌, refl, ◌∙◌, Bool, true, false, Option, none, some, String, ◌==◌,
  ==-refl, string_eq, List, [], ◌∷◌, if◌then◌else◌, arith, Option-cases, Bool-cases, inl, inr,
  length,
}
use slixmpp_go.Common.Dict
use slixmpp_go.Common.Dict.{Dict}
use slixmpp_go.Common.Result.{Result, ok, err}
use slixmpp_go.Plugin.{
  Plugin, PluginManager, PluginError, dependency, out_of_fuel, Outcome, is_loading, mark_loading,
  after_init, after_dependencies, returning, after_load, load_with, load_dependencies, use_marked,
  use_step, use_plugin,
}
use slixmpp_go.Plugin.Growth.{Grows, is_loading-mark_loading}
use slixmpp_go.Plugin.Order.{
  IsWellNamed, IsValid, IsGood, Keeps, LoadOk, load_with-ok, use_plugin-IsGood, IsWellNamed-Grows,
  mark-IsValid,
}

-- The factories whose plugin is not in the set.
remaining : Dict String (Option Plugin) → (String → Bool) → ℕ
remaining [] l = 0
remaining ((k, none) ∷ d) l = remaining d l
remaining ((k, some p) ∷ d) l = (if l p.name then 0 else 1) + remaining d l

abbrev unmarked : {W : Type 0} → PluginManager W → ℕ
unmarked m = remaining m.factories (λ k. is_loading k m)

remaining-le-length :
    (d : Dict String (Option Plugin)) (l : String → Bool) → remaining d l ≤ length d
unfolding remaining
remaining-le-length [] l = omega arith
remaining-le-length ((k, none) ∷ d) l = omega (arith, remaining-le-length d l)
remaining-le-length ((k, some p) ∷ d) l = ground (arith, remaining-le-length d l)

remaining_same :
    (d : Dict String (Option Plugin)) (l l' : String → Bool)
    → ((k : String) → l' k ≡ l k)
    → remaining d l' ≡ remaining d l
unfolding remaining
remaining_same [] l l' h = refl
remaining_same ((k, none) ∷ d) l l' h = remaining_same d l l' h
remaining_same ((k, some p) ∷ d) l l' h = ground (arith, h p.name, remaining_same d l l' h)

remaining_mono :
    (d : Dict String (Option Plugin)) (l l' : String → Bool)
    → ((k : String) → l k ≡ true → l' k ≡ true)
    → remaining d l' ≤ remaining d l
unfolding remaining
remaining_mono [] l l' h = omega arith
remaining_mono ((k, none) ∷ d) l l' h = remaining_mono d l l' h
remaining_mono ((k, some p) ∷ d) l l' h = ground (arith, h p.name, remaining_mono d l l' h)

-- Marking the name of a plugin that a factory makes leaves one fewer.
remaining_falls :
    (d : Dict String (Option Plugin)) (l l' : String → Bool) (k : String) (p : Plugin)
    → ((k : String) → l k ≡ true → l' k ≡ true)
    → l p.name ≡ false
    → l' p.name ≡ true
    → Dict.lookup k d ≡ some (some p)
    → remaining d l' < remaining d l
unfolding remaining Dict.lookup
remaining_falls [] l l' k p up f t h = cc
remaining_falls ((j, none) ∷ d) l l' k p up f t h =
    ground (arith, remaining_falls d l l' k p up f t)
remaining_falls ((j, some q) ∷ d) l l' k p up f t h =
    ground (arith, remaining_falls d l l' k p up f t, remaining_mono d l l' up, up q.name)

-- The error, at the bottom of those that wrap it, is not for want of fuel.
abbrev pub IsSettled : {E : Type 0} → PluginError E → Type 0
IsSettled out_of_fuel = ⊥
IsSettled (dependency _ _ e) = IsSettled e
IsSettled _ = Unit

abbrev pub AllSettled : {E : Type 0} → Option (PluginError E) → Type 0
AllSettled none = Unit
AllSettled (some e) = IsSettled e

abbrev LoadSettled : {E : Type 0} → Result (PluginError E) (Option Plugin) → Type 0
LoadSettled (ok _) = Unit
LoadSettled (err e) = IsSettled e

module _ {W E : Type 0} where
  -- Enough fuel for every plugin that a factory makes, as long as fewer than `n` are unmarked.
  IsFuelled : ℕ → (Option Plugin → PluginManager W → Outcome W E) → Type 0
  IsFuelled n use_it =
      (k : String) (p : Option Plugin) (m : PluginManager W)
      → IsWellNamed m
      → IsValid m
      → Dict.lookup k m.factories ≡ some p
      → unmarked m < n
      → AllSettled (use_it p m).0

  returning-settled :
      (p : Option Plugin) (o : Outcome W E) → AllSettled o.0 → LoadSettled (returning p o).0
  returning-settled p (none, m) h = tt
  returning-settled p (some e, m) h = h

  module _ (n : ℕ) (use_it : Option Plugin → PluginManager W → Outcome W E) (good : IsGood use_it)
      (fuelled : IsFuelled n use_it) where
    load_with-settled :
        (name : String) (m : PluginManager W)
        → IsWellNamed m
        → IsValid m
        → unmarked m < n
        → LoadSettled (load_with use_it name m).0
    unfolding load_with IsFuelled
    load_with-settled name m w v lt = elim (Option-cases (Dict.lookup name m.loaded)) [
      | inr (p, e) ↦ rw (e, load_with) tt
      | inl e ↦
          rw (e, load_with)
            (elim (Option-cases (Dict.lookup name m.factories)) [
              | inl f ↦ rw f tt
              | inr (p, f) ↦ rw f (returning-settled p (use_it p m) (fuelled name p m w v f lt))
            ])
    ]

    after_load-settled :
        (owner d : String) (m : PluginManager W) (next : PluginManager W → Outcome W E)
        (r : Result (PluginError E) (Option Plugin) × PluginManager W)
        → LoadOk d m r
        → LoadSettled r.0
        → ((m' : PluginManager W) → Keeps m m' → AllSettled (next m').0)
        → AllSettled (after_load owner d next r).0
    after_load-settled owner d m next (ok p, m') h s rest = rest m' h.kept
    after_load-settled owner d m next (err e, m') h s rest = s

    unmarked-Grows : {m m' : PluginManager W} → Grows m m' → unmarked m < n → unmarked m' < n
    unmarked-Grows {m} {m'} g lt = rw g.factories_same (
        omega (
          arith,
          remaining_same m.factories (λ k. is_loading k m) (λ k. is_loading k m') g.loading_same,
        ))

    load_dependencies-settled :
        (owner : String) (deps : List String) (m : PluginManager W)
        → IsWellNamed m
        → IsValid m
        → unmarked m < n
        → AllSettled (load_dependencies use_it owner deps m).0
    unfolding load_dependencies
    load_dependencies-settled owner [] m w v lt = tt
    load_dependencies-settled owner (d ∷ deps) m w v lt =
        after_load-settled owner d m (load_dependencies use_it owner deps) (load_with use_it d m)
          (load_with-ok use_it good d m w v) (load_with-settled d m w v lt)
          λ m' k.
            load_dependencies-settled owner deps m' (IsWellNamed-Grows k.grows w) k.valid
              (unmarked-Grows k.grows lt)

module _ {W E : Type 0} (init : Plugin → W → Option E × W) (emit_loaded : Plugin → W → W) where
  after_init-settled :
      (p : Plugin) (m : PluginManager W) (r : Option E × W)
      → AllSettled (after_init init emit_loaded p m r).0
  after_init-settled p m (some e, rest) = tt
  after_init-settled p m (none, rest) = tt

  after_dependencies-settled :
      (p : Plugin) (o : Outcome W E)
      → AllSettled o.0
      → AllSettled (after_dependencies init emit_loaded p o).0
  after_dependencies-settled p (some e, m) h = h
  after_dependencies-settled p (none, m) h = after_init-settled p m (init p m.rest)

  use_step-settled :
      (n : ℕ) (use_it : Option Plugin → PluginManager W → Outcome W E)
      → IsGood use_it
      → IsFuelled n use_it
      → (p : Plugin) (m : PluginManager W) → IsWellNamed m
      → IsValid m
      → (is_loading p.name m ≡ false → unmarked (mark_loading p.name m) < n)
      → AllSettled (use_step init emit_loaded use_it (some p) m).0
  unfolding use_step use_marked
  use_step-settled n use_it good fuelled p m w v lt = elim (Bool-cases (p.name == "")) [
    | inl e ↦ rw e tt
    | inr e ↦ rw e (elim (Option-cases (Dict.lookup p.name m.loaded)) [
      | inr (q, f) ↦ rw (f, use_step) tt
      | inl f ↦
          rw (f, use_step)
            (elim (Bool-cases (is_loading p.name m)) [
              | inl l ↦ rw l tt
              | inr l ↦ rw l (
                  after_dependencies-settled p
                    (load_dependencies use_it p.name p.dependencies (mark_loading p.name m))
                    (load_dependencies-settled n use_it good fuelled p.name p.dependencies
                      (mark_loading p.name m) w (mark-IsValid init emit_loaded p.name m v) (lt l)))
            ])
    ])
  ]

  mark_up :
      (name k : String) (m : PluginManager W)
      → is_loading k m ≡ true
      → is_loading k (mark_loading name m) ≡ true
  mark_up name k m h = ground (arith, is_loading-mark_loading name k m)

  use_plugin-IsFuelled : (fuel : ℕ) → IsFuelled fuel (use_plugin init emit_loaded fuel)
  unfolding IsFuelled use_plugin use_step
  use_plugin-IsFuelled zero k p m w v h lt = elim lt [ ]
  use_plugin-IsFuelled (suc fuel) k none m w v h lt = tt
  use_plugin-IsFuelled (suc fuel) k (some p) m w v h lt =
      use_step-settled fuel (use_plugin init emit_loaded fuel)
        (use_plugin-IsGood init emit_loaded fuel) (use_plugin-IsFuelled fuel) p m w v
        λ l. omega (
          arith,
          remaining_falls m.factories (λ j. is_loading j m)
              (λ j. is_loading j (mark_loading p.name m)) k p (λ j t. mark_up p.name j m t) l
              (is_loading-mark_loading p.name p.name m ∙ rw (==-refl p.name)) h,
        )

  -- With at least two more than the number of factories as fuel, `Use` does not fail for want of it,
  -- neither in its own error nor in one that it wraps, if the load order is valid and the factories
  -- are well named.
  pub use_plugin-settled :
      (fuel : ℕ) (p : Option Plugin) (m : PluginManager W)
      → IsWellNamed m
      → IsValid m
      → length m.factories + 1 < fuel
      → AllSettled (use_plugin init emit_loaded fuel p m).0
  unfolding use_plugin use_step
  use_plugin-settled zero p m w v lt = elim lt [ ]
  use_plugin-settled (suc fuel) none m w v lt = tt
  use_plugin-settled (suc fuel) (some p) m w v lt =
      use_step-settled fuel (use_plugin init emit_loaded fuel)
        (use_plugin-IsGood init emit_loaded fuel) (use_plugin-IsFuelled fuel) p m w v
        λ l.
          omega (arith, remaining-le-length m.factories (λ j. is_loading j (mark_loading p.name m)))
