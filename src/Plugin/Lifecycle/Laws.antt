-- ===== src/Plugin/Lifecycle/Laws.antt =====
-- xmpp/plugin.go: the order of the shutdown, and the set of the features.
use slixmpp_go.Common.{
  ◌≡◌, refl, sym, ◌∙◌, ap, Bool, true, false, ◌||◌, ◌&&◌, Option, some, String, ◌==◌, ◌!=◌, ==-refl,
  ==_iff, string_eq, List, [], ◌∷◌, ◌++◌, if◌then◌else◌, arith, Bool-cases, inl, inr, contains, All,
}
use mathlib.Core.Option.{some-injective}
use slixmpp_go.Common.Dict
use slixmpp_go.Common.Dict.{Dict}
use slixmpp_go.Common.Sort.{sort_stable, insert_sorted}
use slixmpp_go.Common.Text.{lt_string}
use slixmpp_go.Plugin.{Plugin, PluginManager}
use slixmpp_go.Plugin.Order.{IsOrdered, start, add, IsValid, contains-append}
use slixmpp_go.Plugin.Lifecycle.{
  see, see_all, see_plugins, features, backwards, with_error, shutdown_items, shutdown,
}
use slixmpp_go.Events.{Joined, join_errors}

contains-insert_sorted :
    (x : String) (xs : List String) (a : String)
    → contains (insert_sorted lt_string x xs) a ≡ contains (x ∷ xs) a
unfolding insert_sorted
contains-insert_sorted x [] a = refl
contains-insert_sorted x (y ∷ ys) a = elim (Bool-cases (lt_string y x)) [
  | inl e ↦ rw e (ground (arith, contains-insert_sorted x ys a))
  | inr e ↦ rw e refl
]

contains-sort_stable :
    (xs : List String) (a : String) → contains (sort_stable lt_string xs) a ≡ contains xs a
unfolding sort_stable
contains-sort_stable [] a = refl
contains-sort_stable (x ∷ xs) a =
    contains-insert_sorted x (sort_stable lt_string xs) a
    ∙ ap (λ t. a == x || t) (contains-sort_stable xs a)

contains-see :
    (f : String) (seen : List String) (a : String)
    → contains (see f seen) a ≡ (contains seen a || (a == f && a != ""))
contains-see f seen a = ground arith

contains-see_all :
    (fs seen : List String) (a : String)
    → contains (see_all fs seen) a ≡ (contains seen a || (contains fs a && a != ""))
unfolding see_all
contains-see_all [] seen a = ground arith
contains-see_all (f ∷ fs) seen a =
    ground (arith, contains-see_all fs (see f seen) a, contains-see f seen a)

-- Some of the plugins offers the feature.
abbrev pub is_offered : String → List Plugin → Bool
is_offered f [] = false
is_offered f (p ∷ ps) = contains p.features f || is_offered f ps

contains-see_plugins :
    (ps : List Plugin) (seen : List String) (a : String)
    → contains (see_plugins ps seen) a ≡ (contains seen a || (is_offered a ps && a != ""))
unfolding see_plugins
contains-see_plugins [] seen a = ground arith
contains-see_plugins (p ∷ ps) seen a =
    ground (
      arith,
      contains-see_plugins ps (see_all p.features seen) a,
      contains-see_all p.features seen a,
    )

-- `Features` lists exactly the nonempty features that a loaded plugin offers.
pub contains-features :
    {W : Type 0} (m : PluginManager W) (f : String)
    → contains (features m) f ≡ (is_offered f (Dict.values m.loaded) && f != "")
unfolding features
contains-features m f =
    contains-sort_stable (see_plugins (Dict.values m.loaded) []) f
    ∙ contains-see_plugins (Dict.values m.loaded) [] f

-- What stands behind the first occurrence.
abbrev pub behind : String → List String → List String
behind k [] = []
behind k (x ∷ xs) = if k == x then xs else behind k xs

backwards-append : (xs : List String) (y : String) → backwards (xs ++ (y ∷ [])) ≡ y ∷ backwards xs
backwards-append [] y = refl
backwards-append (x ∷ xs) y = ap (λ r. r ++ (x ∷ [])) (backwards-append xs y)

contains-backwards : (xs : List String) (a : String) → contains (backwards xs) a ≡ contains xs a
contains-backwards [] a = refl
contains-backwards (x ∷ xs) a =
    ground (arith, contains-append (backwards xs) (x ∷ []) a, contains-backwards xs a)

contains_of_All :
    (ds : List String) (order : List String) (a : String)
    → All (λ d. contains order d ≡ true) ds
    → contains ds a ≡ true
    → contains order a ≡ true
contains_of_All [] order a h c = cc
contains_of_All (d ∷ ds) order a h c = ground (arith, contains_of_All ds order a h.1, h.0)

behind-backwards :
    (loaded : Dict String Plugin) (p : Plugin) (d : String) {order : List String}
    → IsOrdered loaded order
    → Dict.lookup p.name loaded ≡ some p
    → contains order p.name ≡ true
    → contains p.dependencies d ≡ true
    → contains (behind p.name (backwards order)) d ≡ true
behind-backwards loaded p d start found there dep = cc
behind-backwards loaded p d (add {order} q rest in_loaded deps new) found there dep =
    rw (backwards-append order q.name) (elim (Bool-cases (p.name == q.name)) [
      | inl e ↦
          let same =
            some-injective p q (
              sym found
              ∙ ap (λ n. Dict.lookup n loaded) ((==_iff p.name q.name).0 e)
              ∙ in_loaded) in
          rw e (
            contains-backwards order d
            ∙ contains_of_All q.dependencies order d deps
                (ap (λ r. contains r.dependencies d) (sym same) ∙ dep))
      | inr e ↦ rw e (
          behind-backwards loaded p d rest found
            (ground (arith, contains-append order (q.name ∷ []) p.name, e, there)) dep)
    ])

-- In the order of the shutdown every dependency of a loaded plugin stands behind the plugin, if the
-- load order is valid.
pub behind-shutdown :
    {W : Type 0} (m : PluginManager W) (p : Plugin) (d : String)
    → IsValid m
    → Dict.lookup p.name m.loaded ≡ some p
    → contains p.dependencies d ≡ true
    → contains (behind p.name (backwards m.order)) d ≡ true
behind-shutdown m p d v found dep =
    behind-backwards m.loaded p d v.ordered found (v.listed p.name p found) dep

-- Every name of the list is loaded.
abbrev AreLoaded : Dict String Plugin → List String → Type 0
AreLoaded d ks = (k : String) → contains ks k ≡ true → (p : Plugin) × (Dict.lookup k d ≡ some p)

IsOrdered-AreLoaded :
    (loaded : Dict String Plugin) {order : List String}
    → IsOrdered loaded order
    → AreLoaded loaded order
IsOrdered-AreLoaded loaded start k c = cc
IsOrdered-AreLoaded loaded (add {order} q rest found deps new) k c =
    elim (Bool-cases (k == q.name)) [
      | inl e ↦ (q, ap (λ n. Dict.lookup n loaded) ((==_iff k q.name).0 e) ∙ found)
      | inr e ↦
          IsOrdered-AreLoaded loaded rest k
            (ground (arith, contains-append order (q.name ∷ []) k, e, c))
    ]

module _ {W E : Type 0} (shut : Plugin → W → Option E × W) where
  shutdown_items-total :
      (d : Dict String Plugin) (ks : List String) (w : W)
      → AreLoaded d ks
      → (r : List (Option E) × W) × (shutdown_items shut d ks w ≡ some r)
  unfolding shutdown_items
  shutdown_items-total d [] w h = (([], w), refl)
  shutdown_items-total d (k ∷ ks) w h =
      let (p, e) = h k (ground (arith, ==-refl k)) in
      let (r, f) = shutdown_items-total d ks (shut p w).1 (λ j c. h j (ground (arith, c))) in
      (((shut p w).0 ∷ r.0, r.1), rw (e, shutdown_items) (ap (with_error shut (shut p w).0) f))

  -- With a valid load order `shutdown` meets no name that is not loaded, and returns.
  pub shutdown-total :
      (m : PluginManager W) → IsValid m → (r : Joined E × W) × (shutdown shut m ≡ some r)
  unfolding shutdown
  shutdown-total m v =
      let (r, e) = shutdown_items-total m.loaded (backwards m.order) m.rest (λ k c.
        IsOrdered-AreLoaded m.loaded v.ordered k (sym (contains-backwards m.order k) ∙ c)) in
      ((join_errors r.0, r.1), rw (e, shutdown) refl)
