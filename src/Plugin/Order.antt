-- ===== src/Plugin/Order.antt =====
-- The load order: every plugin stands once, and behind all of its dependencies.
use slixmpp_go.Common.{
  ℕ, zero, suc, ◌≡◌, refl, sym, ◌∙◌, ap, true, false, ◌||◌, Option, none, some, String, ◌==◌,
  ==-refl, string_eq, List, [], ◌∷◌, ◌++◌, arith, Option-cases, Bool-cases, inl, inr, contains, All,
}
use slixmpp_go.Common.Dict
use slixmpp_go.Common.Dict.{Dict}
use slixmpp_go.Common.Result.{Result, ok, err}
use slixmpp_go.Plugin.{
  Plugin, PluginManager, PluginError, invalid_plugin, cyclic, Outcome, is_loading, mark_loading,
  unmark_loading, after_init, after_dependencies, returning, after_load, load_with,
  load_dependencies, use_marked, use_step, use_plugin,
}
use slixmpp_go.Plugin.Growth.{Grows, Grows-refl, Grows-trans, Grows-unmark, is_loading-mark_loading}

-- Each name is loaded, is new where it stands, and stands behind the plugin's dependencies.
pub data IsOrdered (loaded : Dict String Plugin) : List String → Type 0 where
  start : IsOrdered loaded []
  add :
      {order : List String} (p : Plugin)
      → IsOrdered loaded order
      → Dict.lookup p.name loaded ≡ some p
      → All (λ d. contains order d ≡ true) p.dependencies
      → contains order p.name ≡ false
      → IsOrdered loaded (order ++ (p.name ∷ []))

pub record IsValid {W : Type 0} (m : PluginManager W) : Type 0 where
  pub ordered : IsOrdered m.loaded m.order
  pub listed :
      (k : String) (p : Plugin) → Dict.lookup k m.loaded ≡ some p → contains m.order k ≡ true

-- Every factory makes plugins of the name under which it is registered.
abbrev pub IsWellNamed : {W : Type 0} → PluginManager W → Type 0
IsWellNamed m = (k : String) (p : Plugin) → Dict.lookup k m.factories ≡ some (some p) → p.name ≡ k

abbrev pub IsLoaded : {W : Type 0} → String → PluginManager W → Type 0
IsLoaded k m = (p : Plugin) × (Dict.lookup k m.loaded ≡ some p)

pub contains-append :
    (xs ys : List String) (a : String) → contains (xs ++ ys) a ≡ (contains xs a || contains ys a)
contains-append [] ys a = refl
contains-append (x ∷ xs) ys a = ground (arith, contains-append xs ys a)

IsOrdered-mono :
    (d d' : Dict String Plugin)
    → ((k : String) (p : Plugin) → Dict.lookup k d ≡ some p → Dict.lookup k d' ≡ some p)
    → {order : List String} → IsOrdered d order
    → IsOrdered d' order
IsOrdered-mono d d' up start = start
IsOrdered-mono d d' up (add p rest found deps new) =
    add p (IsOrdered-mono d d' up rest) (up p.name p found) deps new

-- A name in the order is loaded.
IsOrdered-loaded :
    (d : Dict String Plugin) (k : String) {order : List String}
    → IsOrdered d order
    → Dict.lookup k d ≡ none
    → contains order k ≡ false
IsOrdered-loaded d k start h = refl
IsOrdered-loaded d k (add {order} p rest found deps new) h =
    ground (arith, contains-append order (p.name ∷ []) k, IsOrdered-loaded d k rest h)

-- What is shown of each call: the state stays valid, and only grows.
pub record Keeps {W : Type 0} (m m' : PluginManager W) : Type 0 where
  pub valid : IsValid m'
  pub grows : Grows m m'

pub IsWellNamed-Grows :
    {W : Type 0} {m m' : PluginManager W} → Grows m m' → IsWellNamed m → IsWellNamed m'
IsWellNamed-Grows g w k p h = w k p (sym (ap (Dict.lookup k) g.factories_same) ∙ h)

IsLoaded-Grows :
    {W : Type 0} {m m' : PluginManager W} (k : String) → Grows m m' → IsLoaded k m → IsLoaded k m'
IsLoaded-Grows k g (p, h) = (p, g.loaded_kept k p h)

unchanged : {W : Type 0} (m : PluginManager W) → IsValid m → Keeps m m
unchanged m v = record { valid = v; grows = Grows-refl m }

module _ {W E : Type 0} where
  -- A version of `Use` that keeps the invariant, and loads what it is given if it succeeds.
  pub record IsGood (use_it : Option Plugin → PluginManager W → Outcome W E) : Type 0 where
    pub keeps :
        (p : Option Plugin) (m : PluginManager W)
        → IsWellNamed m
        → IsValid m
        → Keeps m (use_it p m).1
    pub loads :
        (p : Option Plugin) (m : PluginManager W)
        → IsWellNamed m
        → IsValid m
        → (use_it p m).0 ≡ none
        → (q : Plugin) × (p ≡ some q) × IsLoaded q.name (use_it p m).1

  -- What `Load` leaves behind.
  pub record LoadOk (name : String) (m : PluginManager W)
      (r : Result (PluginError E) (Option Plugin) × PluginManager W) : Type 0 where
    pub kept : Keeps m r.1
    pub found : (p : Option Plugin) → r.0 ≡ ok p → IsLoaded name r.1

  returning-ok :
      (name : String) (m : PluginManager W) (p : Option Plugin) (o : Outcome W E)
      → Keeps m o.1
      → ((q : Plugin) → p ≡ some q → q.name ≡ name)
      → (o.0 ≡ none → (q : Plugin) × (p ≡ some q) × IsLoaded q.name o.1)
      → LoadOk name m (returning p o)
  returning-ok name m p (some e, m') k named loads = record { kept = k; found = λ _ h. cc }
  returning-ok name m p (none, m') k named loads = record {
    kept = k;
    found = λ _ _.
        let (q, same, there) = loads refl in
        (there.0, ap (λ n. Dict.lookup n m'.loaded) (sym (named q same)) ∙ there.1);
  }

  module _ (use_it : Option Plugin → PluginManager W → Outcome W E) (good : IsGood use_it) where
    pub load_with-ok :
        (name : String) (m : PluginManager W)
        → IsWellNamed m
        → IsValid m
        → LoadOk name m (load_with use_it name m)
    unfolding load_with
    load_with-ok name m w v = elim (Option-cases (Dict.lookup name m.loaded)) [
      | inr (p, e) ↦ rw (e, load_with) (record { kept = unchanged m v; found = λ _ _. (p, e) })
      | inl e ↦
          rw (e, load_with)
            (elim (Option-cases (Dict.lookup name m.factories)) [
              | inl f ↦ rw f (record { kept = unchanged m v; found = λ p h. cc })
              | inr (p, f) ↦ rw f (
                  returning-ok name m p (use_it p m) (good.keeps p m w v)
                    (λ q same. w name q (f ∙ ap some same)) (good.loads p m w v))
            ])
    ]

    -- After the loop all is kept; if no dependency failed, each of them is loaded.
    record DepsOk (deps : List String) (m : PluginManager W) (o : Outcome W E) : Type 0 where
      kept : Keeps m o.1
      all_loaded : o.0 ≡ none → All (λ d. IsLoaded d o.1) deps

    Keeps-trans : {a b c : PluginManager W} → Keeps a b → Keeps b c → Keeps a c
    Keeps-trans g h = record { valid = h.valid; grows = Grows-trans g.grows h.grows }

    load_dependencies-ok :
        (owner : String) (deps : List String) (m : PluginManager W)
        → IsWellNamed m
        → IsValid m
        → DepsOk deps m (load_dependencies use_it owner deps m)
    unfolding load_dependencies
    load_dependencies-ok owner [] m w v = record { kept = unchanged m v; all_loaded = λ _. tt }
    load_dependencies-ok owner (d ∷ deps) m w v =
        step (load_with use_it d m) (load_with-ok d m w v)
          λ m' k. load_dependencies-ok owner deps m' (IsWellNamed-Grows k.grows w) k.valid
      where
        step :
            (r : Result (PluginError E) (Option Plugin) × PluginManager W)
            → LoadOk d m r
            → ((m' : PluginManager W)
                → Keeps m m'
                → DepsOk deps m' (load_dependencies use_it owner deps m'))
            → DepsOk (d ∷ deps) m (after_load owner d (load_dependencies use_it owner deps) r)
        step (ok p, m') h rest =
            let r = rest m' h.kept in
            record {
              kept = Keeps-trans h.kept r.kept;
              all_loaded = λ e. (IsLoaded-Grows d r.kept.grows (h.found p refl), r.all_loaded e);
            }
        step (err e, m') h rest = record { kept = h.kept; all_loaded = λ e. cc }

module _ {W E : Type 0} (init : Plugin → W → Option E × W) (emit_loaded : Plugin → W → W) where
  -- What the last part of `Use` leaves behind, when the dependencies are there and the name is not.
  record InitOk (p : Plugin) (m : PluginManager W) (o : Outcome W E) : Type 0 where
    valid : IsValid o.1
    factories_same : o.1.factories ≡ m.factories
    loading_same : o.1.loading ≡ m.loading
    others_same :
        (k : String) → (k == p.name) ≡ false → Dict.lookup k o.1.loaded ≡ Dict.lookup k m.loaded
    found : o.0 ≡ none → IsLoaded p.name o.1

  listed-All :
      (ds : List String) (m : PluginManager W)
      → IsValid m
      → All (λ d. IsLoaded d m) ds
      → All (λ d. contains m.order d ≡ true) ds
  listed-All [] m v h = tt
  listed-All (d ∷ ds) m v h = (v.listed d h.0.0 h.0.1, listed-All ds m v h.1)

  after_init-ok :
      (p : Plugin) (m : PluginManager W) (r : Option E × W)
      → IsValid m
      → Dict.lookup p.name m.loaded ≡ none
      → All (λ d. IsLoaded d m) p.dependencies
      → InitOk p m (after_init init emit_loaded p m r)
  after_init-ok p m (some e, rest) v new deps = record {
    valid = record { ordered = v.ordered; listed = v.listed };
    factories_same = refl;
    loading_same = refl;
    others_same = λ k h. refl;
    found = λ h. cc;
  }
  after_init-ok p m (none, rest) v new deps = record {
    valid = record {
      ordered =
          add p
            (IsOrdered-mono m.loaded (Dict.insert p.name p m.loaded)
              (λ k q h. ground (arith, Dict.lookup-insert k p.name p m.loaded)) v.ordered)
            (ground (arith, Dict.lookup-insert p.name p.name p m.loaded))
            (listed-All p.dependencies m v deps) (IsOrdered-loaded m.loaded p.name v.ordered new);
      listed = λ k q h. ground (
        arith,
        Dict.lookup-insert k p.name p m.loaded,
        contains-append m.order (p.name ∷ []) k,
        v.listed k q,
      );
    };
    factories_same = refl;
    loading_same = refl;
    others_same = λ k h. ground (arith, Dict.lookup-insert k p.name p m.loaded);
    found = λ h. (p, ground (arith, Dict.lookup-insert p.name p.name p m.loaded));
  }

  pub mark-IsValid :
      (name : String) (m : PluginManager W) → IsValid m → IsValid (mark_loading name m)
  mark-IsValid name m v = record { ordered = v.ordered; listed = v.listed }

  unmark-IsValid :
      (name : String) (m : PluginManager W) → IsValid m → IsValid (unmark_loading name m)
  unmark-IsValid name m v = record { ordered = v.ordered; listed = v.listed }

  module _ (use_it : Option Plugin → PluginManager W → Outcome W E) (good : IsGood use_it)
      (p : Plugin) (m : PluginManager W) (w : IsWellNamed m) (v : IsValid m)
      (new : Dict.lookup p.name m.loaded ≡ none) (fresh : is_loading p.name m ≡ false) where
    -- The state that `Use` leaves, and the plugin in it if there was no error.
    record UseOk (o : Outcome W E) : Type 0 where
      kept : Keeps m o.1
      found : o.0 ≡ none → IsLoaded p.name o.1

    marked : is_loading p.name (mark_loading p.name m) ≡ true
    marked = is_loading-mark_loading p.name p.name m ∙ rw (==-refl p.name)

    after_dependencies-ok :
        (o : Outcome W E)
        → DepsOk use_it good p.dependencies (mark_loading p.name m) o
        → let r = after_dependencies init emit_loaded p o in UseOk (r.0, unmark_loading p.name r.1)
    after_dependencies-ok (some e, m') h = record {
      kept = record {
        valid = unmark-IsValid p.name m' h.kept.valid;
        grows = Grows-unmark p.name m m' m' fresh new h.kept.grows refl refl (λ k t. refl);
      };
      found = λ h. cc;
    }
    after_dependencies-ok (none, m') h =
        let r =
          after_init-ok p m' (init p m'.rest) h.kept.valid (h.kept.grows.held p.name marked new)
            (h.all_loaded refl) in
        record {
          kept = record {
            valid = unmark-IsValid p.name _ r.valid;
            grows =
                Grows-unmark p.name m m' _ fresh new h.kept.grows r.factories_same r.loading_same
                  r.others_same;
          };
          found = r.found;
        }

  record StepOk (p : Option Plugin) (m : PluginManager W) (o : Outcome W E) : Type 0 where
    kept : Keeps m o.1
    found : o.0 ≡ none → (q : Plugin) × (p ≡ some q) × IsLoaded q.name o.1

  refused :
      (p : Option Plugin) (m : PluginManager W) (e : PluginError E)
      → IsValid m
      → StepOk p m (some e, m)
  refused p m e v = record { kept = unchanged m v; found = λ h. cc }

  use_step-ok :
      (use_it : Option Plugin → PluginManager W → Outcome W E)
      → IsGood use_it
      → (p : Option Plugin) (m : PluginManager W) → IsWellNamed m
      → IsValid m
      → StepOk p m (use_step init emit_loaded use_it p m)
  unfolding use_step use_marked
  use_step-ok use_it good none m w v = refused none m invalid_plugin v
  use_step-ok use_it good (some p) m w v = elim (Bool-cases (p.name == "")) [
    | inl e ↦ rw e (refused (some p) m invalid_plugin v)
    | inr e ↦ rw e (elim (Option-cases (Dict.lookup p.name m.loaded)) [
      | inr (q, f) ↦
          rw (f, use_step) (record { kept = unchanged m v; found = λ h. (p, refl, (q, f)) })
      | inl f ↦
          rw (f, use_step)
            (elim (Bool-cases (is_loading p.name m)) [
              | inl l ↦ rw l (refused (some p) m (cyclic p.name) v)
              | inr l ↦ rw l (
                  let deps =
                    load_dependencies-ok use_it good p.name p.dependencies (mark_loading p.name m) w
                      (mark-IsValid p.name m v) in
                  let r = after_dependencies-ok use_it good p m w v f l _ deps in
                  record { kept = r.kept; found = λ h. (p, refl, r.found h) })
            ])
    ])
  ]

  pub use_plugin-IsGood : (fuel : ℕ) → IsGood (use_plugin init emit_loaded fuel)
  unfolding use_plugin
  use_plugin-IsGood zero = record { keeps = λ p m w v. unchanged m v; loads = λ p m w v h. cc }
  use_plugin-IsGood (suc fuel) =
      let ok = use_step-ok (use_plugin init emit_loaded fuel) (use_plugin-IsGood fuel) in
      record { keeps = λ p m w v. (ok p m w v).kept; loads = λ p m w v. (ok p m w v).found }

  -- `Use` keeps the load order valid: whatever it returns, each name in `order` is loaded, stands
  -- there once, and stands behind its plugin's dependencies, and each loaded name stands there,
  -- if that was so before and the factories are well named.
  pub use_plugin-IsValid :
      (fuel : ℕ) (p : Option Plugin) (m : PluginManager W)
      → IsWellNamed m
      → IsValid m
      → IsValid (use_plugin init emit_loaded fuel p m).1
  use_plugin-IsValid fuel p m w v = ((use_plugin-IsGood fuel).keeps p m w v).valid

  -- `Use` unloads nothing, keeps the factories, and leaves the set of names in loading as it was,
  -- if the load order is valid and the factories are well named.
  pub use_plugin-Grows :
      (fuel : ℕ) (p : Option Plugin) (m : PluginManager W)
      → IsWellNamed m
      → IsValid m
      → Grows m (use_plugin init emit_loaded fuel p m).1
  use_plugin-Grows fuel p m w v = ((use_plugin-IsGood fuel).keeps p m w v).grows

  -- After a `Use` without an error the plugin's name is loaded, if the load order was valid and the
  -- factories are well named.
  pub use_plugin-IsLoaded :
      (fuel : ℕ) (p : Option Plugin) (m : PluginManager W)
      → IsWellNamed m
      → IsValid m
      → (use_plugin init emit_loaded fuel p m).0 ≡ none
      → (q : Plugin) × (p ≡ some q) × IsLoaded q.name (use_plugin init emit_loaded fuel p m).1
  use_plugin-IsLoaded fuel p m w v = (use_plugin-IsGood fuel).loads p m w v
