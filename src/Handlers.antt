-- ===== src/Handlers.antt =====
-- xmpp/handler.go: the registry of stanza handlers. `S` is a stanza, `C` a callback.
pub mod Laws
mod Tests
use slixmpp_go.Common.{
  ℕ, ◌+◌, ◌%◌, ◌^◌, Bool, true, Option, none, some, List, [], ◌∷◌, ◌++◌, String, ◌==◌, nat_eq,
}
use slixmpp_go.Common.Int.{ℤ, lt_int}
use slixmpp_go.Common.Sort.{sort_stable, remove_first}

pub record HandlerOptions : Type 0 where
  pub priority : ℤ
  pub once : Bool
  pub async : Bool

pub record Handler (S C : Type 0) : Type 0 where
  pub id : ℕ
  pub name : String
  pub matcher : S → Bool
  pub callback : C
  pub priority : ℤ
  pub once : Bool
  pub async : Bool

-- `nextID` is an atomic uint64.
pub record HandlerRegistry (S C : Type 0) : Type 0 where
  pub next_id : ℕ
  pub handlers : List (Handler S C)

-- A nil matcher becomes `MatchAll`.
abbrev pub or_match_all : {S : Type 0} → Option (S → Bool) → S → Bool
or_match_all none s = true
or_match_all (some m) s = m s

module _ {S C : Type 0} where
  abbrev pub by_priority : Handler S C → Handler S C → Bool
  by_priority a b = lt_int a.priority b.priority

  -- `handlerRegistry.add`
  unfoldable pub add :
      String
      → Option (S → Bool)
      → C
      → HandlerOptions
      → HandlerRegistry S C
      → Handler S C × HandlerRegistry S C
  add name m callback o r =
      let id = (r.next_id + 1) % 2 ^ 64 in
      let h : Handler S C = record {
        id = id;
        name = name;
        matcher = or_match_all m;
        callback = callback;
        priority = o.priority;
        once = o.once;
        async = o.async;
      } in
      (h, record { next_id = id; handlers = sort_stable by_priority (r.handlers ++ (h ∷ [])) })

  abbrev pub has_id : ℕ → Handler S C → Bool
  has_id id h = h.id == id

  -- `handlerRegistry.remove`; none is a nil handler.
  unfoldable pub remove : Option (Handler S C) → HandlerRegistry S C → HandlerRegistry S C
  remove none r = r
  remove (some h) r = record r { handlers = remove_first (has_id h.id) r.handlers }

  -- `handlerRegistry.snapshot`
  abbrev pub snapshot : HandlerRegistry S C → List (Handler S C)
  snapshot r = r.handlers
