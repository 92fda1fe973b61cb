-- ===== src/ApiRegistry.antt =====
-- xmpp/api_registry.go: the registry of internal operations. A handler is a value of `H`, what it
-- is called with beside its key a value of `A`; it acts on the rest of the state `W`.
pub mod Laws
mod Tests
use slixmpp_go.Common.{
  Bool, true, false, ◌||◌, ◌&&◌, Option, none, some, List, [], ◌∷◌, String, ◌==◌, ==_iff, ◌≡◌, refl,
  ap, ap₂, ◌↔◌, string_eq, if◌then◌else◌, Eq, Bool-cases, inl, inr, arith,
}
use mathlib.Core.Logic.{dite}
use mathlib.Core.Bool.{Bool-discrete}
use slixmpp_go.Common.Dict
use slixmpp_go.Common.Dict.{Dict}
use slixmpp_go.Common.Result.{Result, ok, err}

pub record ApiKey : Type 0 where
  pub category : String
  pub operation : String
  pub jid : String
  pub node : String

-- Go compares keys field by field.
abbrev pub same_key : ApiKey → ApiKey → Bool
same_key k l =
    k.category == l.category && k.operation == l.operation && k.jid == l.jid && k.node == l.node

pub same_key_iff : (k l : ApiKey) → (same_key k l ≡ true) ↔ (k ≡ l)
same_key_iff k l = (λ h. ground arith, λ e. ground arith)

pub record ApiCall (A : Type 0) : Type 0 where
  pub category : String
  pub operation : String
  pub jid : String
  pub node : String
  pub from : String
  pub args : A

pub record ApiRegistry (H : Type 0) : Type 0 where
  pub handlers : Dict ApiKey H

pub data ApiError (E : Type 0) : Type 0 where
  key_required : ApiError E
  no_handler : String → String → ApiError E
  handler_error : E → ApiError E

instance unfoldable pub api_key_eq : Eq ApiKey
api_key_eq = record {
  dec = λ k l.
      dite (Bool-discrete (same_key k l) true) (λ same. yes ((same_key_iff k l).0 same))
        (λ differ. no (λ p. differ ((same_key_iff k l).1 p)));
}

-- `NewAPIRegistry`
abbrev pub new_api_registry : {H : Type 0} → ApiRegistry H
new_api_registry = record { handlers = [] }

-- `Register`; none is a nil handler.
unfoldable pub register :
    {H E : Type 0} → ApiKey → Option H → ApiRegistry H → Option (ApiError E) × ApiRegistry H
register k none r = (some key_required, r)
register k (some h) r =
    if k.category == "" || k.operation == ""
    then (some key_required, r)
    else (none, record { handlers = Dict.insert k h r.handlers })

-- `Unregister`
unfoldable pub unregister : {H : Type 0} → ApiKey → ApiRegistry H → ApiRegistry H
unregister k r = record { handlers = Dict.erase k r.handlers }

-- `Purge`
unfoldable pub purge : {H : Type 0} → String → ApiRegistry H → ApiRegistry H
purge category r = record { handlers = Dict.erase_if (λ k. k.category == category) r.handlers }

-- The keys that `Run` tries, in order.
abbrev pub keys_of : {A : Type 0} → ApiCall A → List ApiKey
keys_of c =
    key c.category c.operation c.jid c.node
    ∷ key c.category c.operation c.jid ""
    ∷ key c.category c.operation "" c.node
    ∷ key c.category c.operation "" ""
    ∷ []
  where
    key : String → String → String → String → ApiKey
    key category operation jid node = record {
      category = category;
      operation = operation;
      jid = jid;
      node = node;
    }

abbrev pub first_found : {H : Type 0} → Option H → Option H → Option H
first_found none rest = rest
first_found (some h) rest = some h

-- The loop of `Run`.
unfoldable pub resolve : {H : Type 0} → List ApiKey → Dict ApiKey H → Option H
resolve [] d = none
resolve (k ∷ ks) d = first_found (Dict.lookup k d) (resolve ks d)

module _ {H A B E W : Type 0} (call : H → ApiCall A → W → Result E B × W) where
  abbrev pub returned : Result E B × W → Result (ApiError E) B × W
  returned (ok b, w) = (ok b, w)
  returned (err e, w) = (err (handler_error e), w)

  abbrev pub call_found : ApiCall A → W → Option H → Result (ApiError E) B × W
  call_found c w none = (err (no_handler c.category c.operation), w)
  call_found c w (some h) = returned (call h c w)

  -- `Run`
  unfoldable pub run : ApiCall A → ApiRegistry H → W → Result (ApiError E) B × W
  run c r w = call_found c w (resolve (keys_of c) r.handlers)

  -- `APIProxy.Run`: a proxy is its registry and its category.
  unfoldable pub proxy_run :
      String → String → String → String → String → A → ApiRegistry H → W → Result (ApiError E) B × W
  unfolding run
  proxy_run category operation jid node from args = run (record {
    category = category;
    operation = operation;
    jid = jid;
    node = node;
    from = from;
    args = args;
  })

-- `APIProxy.Register`
unfoldable pub proxy_register :
    {H E : Type 0}
    → String
    → String
    → String
    → String
    → Option H
    → ApiRegistry H
    → Option (ApiError E) × ApiRegistry H
unfolding register
proxy_register category operation jid node =
    register (record { category = category; operation = operation; jid = jid; node = node })
