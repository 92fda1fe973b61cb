-- ===== src/ApiRegistry/Laws.antt =====
-- xmpp/api_registry.go: which handler `Run` finds.
use slixmpp_go.Common.{
  Bool, ◌||◌, none, some, List, [], ◌∷◌, String, ◌==◌, ==-refl, ◌≡◌, refl, ap, ap₂, ◌∙◌, sym,
  string_eq, if◌then◌else◌, Bool-cases, inl, inr, arith, All,
}
use mathlib.Core.Option.{none-ne-some}
use slixmpp_go.Common.Dict
use slixmpp_go.Common.Dict.{Dict}
use slixmpp_go.Common.Result.{Result, err}
use slixmpp_go.ApiRegistry.{
  ApiKey, ApiCall, ApiRegistry, api_key_eq, register, unregister, purge, keys_of, resolve, run,
  returned, first_found, call_found, no_handler,
}

abbrev pub key_of : {A : Type 0} → ApiCall A → ApiKey
key_of c = record { category = c.category; operation = c.operation; jid = c.jid; node = c.node }

All-keys_of :
    {A : Type 0} {P : ApiKey → Type 0} (c : ApiCall A)
    → ((k : ApiKey) → k.category ≡ c.category → P k)
    → All P (keys_of c)
All-keys_of c h = (h _ refl, (h _ refl, (h _ refl, (h _ refl, tt))))

module _ {H : Type 0} where
  resolve-agree :
      (ks : List ApiKey) (d d' : Dict ApiKey H)
      → All (λ k. Dict.lookup k d ≡ Dict.lookup k d') ks
      → resolve ks d ≡ resolve ks d'
  unfolding resolve
  resolve-agree [] d d' h = refl
  resolve-agree (k ∷ ks) d d' h = ap₂ first_found h.0 (resolve-agree ks d d' h.1)

  resolve-none :
      (ks : List ApiKey) (d : Dict ApiKey H)
      → All (λ k. Dict.lookup k d ≡ none) ks
      → resolve ks d ≡ none
  unfolding resolve
  resolve-none [] d h = refl
  resolve-none (k ∷ ks) d h = ap₂ first_found h.0 (resolve-none ks d h.1)

  resolve-first :
      (k : ApiKey) (ks : List ApiKey) (d : Dict ApiKey H) (h : H)
      → Dict.lookup k d ≡ some h
      → resolve (k ∷ ks) d ≡ some h
  unfolding resolve
  resolve-first k ks d h e = ap (λ o. first_found o (resolve ks d)) e

  lookup-erase_free :
      (k : ApiKey) (d : Dict ApiKey H) (j : ApiKey)
      → Dict.lookup k d ≡ none
      → Dict.lookup j (Dict.erase k d) ≡ Dict.lookup j d
  lookup-erase_free k d j free = ground (arith, Dict.lookup-erase j k d)

  lookup-erase_inserted :
      (k : ApiKey) (h : H) (d : Dict ApiKey H) (j : ApiKey)
      → Dict.lookup k d ≡ none
      → Dict.lookup j (Dict.erase k (Dict.insert k h d)) ≡ Dict.lookup j d
  lookup-erase_inserted k h d j free =
      ground (arith, Dict.lookup-erase j k (Dict.insert k h d), Dict.lookup-insert j k h d)

  lookup-purged :
      (category : String) (d : Dict ApiKey H) (k : ApiKey) {t : Bool}
      → (k.category == category) ≡ t
      → Dict.lookup k (Dict.erase_if (λ j. j.category == category) d)
        ≡ (if t then none else Dict.lookup k d)
  lookup-purged category d k e =
      Dict.lookup-erase_if k (λ j. j.category == category) d
      ∙ ap (λ t. if t then none else Dict.lookup k d) e

module _ {H A B E W : Type 0} (call : H → ApiCall A → W → Result E B × W) where
  -- After a `Register` without an error, a `Run` with the very same key calls the handler.
  pub run-register :
      (c : ApiCall A) (h : H) (r : ApiRegistry H) (w : W)
      → (register {E = E} (key_of c) (some h) r).0 ≡ none
      → run call c (register {E = E} (key_of c) (some h) r).1 w ≡ returned call (call h c w)
  unfolding run register
  run-register c h r w e = elim (Bool-cases (c.category == "" || c.operation == "")) [
    | inl t ↦ absurd (none-ne-some _ (sym (rw t at e)))
    | inr t ↦ rw t (
        ap (call_found call c w) (
          resolve-first (key_of c) _ (Dict.insert (key_of c) h r.handlers) h
            (Dict.lookup-insert (key_of c) (key_of c) h r.handlers ∙ rw (==-refl (key_of c)) refl)))
  ]

  -- A handler that is registered under a free key and unregistered leaves every `Run` as it was.
  pub run-unregister :
      (k : ApiKey) (h : H) (c : ApiCall A) (r : ApiRegistry H) (w : W)
      → Dict.lookup k r.handlers ≡ none
      → run call c (unregister k (register {E = E} k (some h) r).1) w ≡ run call c r w
  unfolding run unregister register
  run-unregister k h c r w free = elim (Bool-cases (k.category == "" || k.operation == "")) [
    | inl t ↦ rw t (
        ap (call_found call c w) (
          resolve-agree (keys_of c) _ _
            (All-keys_of c λ j e. lookup-erase_free k r.handlers j free)))
    | inr t ↦ rw t (
        ap (call_found call c w) (
          resolve-agree (keys_of c) _ _
            (All-keys_of c λ j e. lookup-erase_inserted k h r.handlers j free)))
  ]

  -- After a `Purge` no operation of the category is found, and every other `Run` is as it was.
  pub run-purge :
      (category : String) (c : ApiCall A) (r : ApiRegistry H) (w : W)
      → run call c (purge category r) w ≡ (
          if c.category == category
          then (err (no_handler c.category c.operation), w)
          else run call c r w)
  unfolding run purge
  run-purge category c r w = elim (Bool-cases (c.category == category)) [
    | inl t ↦ rw t (
        ap (call_found call c w) (
          resolve-none (keys_of c) _ (
            All-keys_of c
              λ k e. lookup-purged category r.handlers k (ap (λ n. n == category) e ∙ t))))
    | inr t ↦ rw t (
        ap (call_found call c w) (
          resolve-agree (keys_of c) _ _ (
            All-keys_of c
              λ k e. lookup-purged category r.handlers k (ap (λ n. n == category) e ∙ t))))
  ]
