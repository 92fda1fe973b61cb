-- ===== src/Plugin/Growth.antt =====
-- How a call of `Use` or `Load` may change the manager, whatever it returns.
use slixmpp_go.Common.{
  ◌≡◌, refl, ◌∙◌, true, false, none, some, String, ◌==◌, string_eq, if◌then◌else◌, arith,
  Bool-cases, inl, inr,
}
use slixmpp_go.Common.Dict
use slixmpp_go.Plugin.{Plugin, PluginManager, is_loading, mark_loading, unmark_loading}

-- The factories stay, what is loaded stays loaded, the set of names in loading is the same, and no
-- name in loading becomes loaded.
pub record Grows {W : Type 0} (m m' : PluginManager W) : Type 0 where
  pub factories_same : m'.factories ≡ m.factories
  pub loaded_kept :
      (k : String) (p : Plugin) → Dict.lookup k m.loaded ≡ some p → Dict.lookup k m'.loaded ≡ some p
  pub loading_same : (k : String) → is_loading k m' ≡ is_loading k m
  pub held :
      (k : String)
      → is_loading k m ≡ true
      → Dict.lookup k m.loaded ≡ none
      → Dict.lookup k m'.loaded ≡ none

module _ {W : Type 0} where
  pub Grows-refl : (m : PluginManager W) → Grows m m
  Grows-refl m = record {
    factories_same = refl;
    loaded_kept = λ k p h. h;
    loading_same = λ k. refl;
    held = λ k l h. h;
  }

  pub Grows-trans : {a b c : PluginManager W} → Grows a b → Grows b c → Grows a c
  Grows-trans g h = record {
    factories_same = h.factories_same ∙ g.factories_same;
    loaded_kept = λ k p e. h.loaded_kept k p (g.loaded_kept k p e);
    loading_same = λ k. h.loading_same k ∙ g.loading_same k;
    held = λ k l e. h.held k (g.loading_same k ∙ l) (g.held k l e);
  }

  pub is_loading-mark_loading :
      (name k : String) (m : PluginManager W)
      → is_loading k (mark_loading name m) ≡ (if k == name then true else is_loading k m)
  is_loading-mark_loading name k m = ground (arith, Dict.lookup-insert k name true m.loading)

  pub is_loading-unmark_loading :
      (name k : String) (m : PluginManager W)
      → is_loading k (unmark_loading name m) ≡ (if k == name then false else is_loading k m)
  is_loading-unmark_loading name k m = ground (arith, Dict.lookup-erase k name m.loading)

  other_name :
      (name k : String) (m : PluginManager W)
      → is_loading name m ≡ false
      → is_loading k m ≡ true
      → (k == name) ≡ false
  other_name name k m fresh h = ground arith

  -- Growth from the marked state is growth from the state before, once the mark is removed; in
  -- between the name itself may have been loaded.
  pub Grows-unmark :
      (name : String) (m m' u : PluginManager W)
      → is_loading name m ≡ false
      → Dict.lookup name m.loaded ≡ none
      → Grows (mark_loading name m) m'
      → u.factories ≡ m'.factories
      → u.loading ≡ m'.loading
      → ((k : String) → (k == name) ≡ false → Dict.lookup k u.loaded ≡ Dict.lookup k m'.loaded)
      → Grows m (unmark_loading name u)
  Grows-unmark name m m' u fresh absent g f l same = record {
    factories_same = f ∙ g.factories_same;
    loaded_kept = λ k p e. elim (Bool-cases (k == name)) [
      | inl t ↦ ground arith
      | inr t ↦ same k t ∙ g.loaded_kept k p e
    ];
    loading_same = λ k. ground (
      arith,
      is_loading-unmark_loading name k u,
      is_loading-mark_loading name k m,
      g.loading_same k,
    );
    held = λ k t e.
        let differ = other_name name k m fresh t in
        same k differ ∙ g.held k (is_loading-mark_loading name k m ∙ (rw differ t)) e;
  }
