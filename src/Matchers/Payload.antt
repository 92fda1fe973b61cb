-- ===== src/Matchers/Payload.antt =====
-- xmpp/matcher.go: which stanzas `MatchPayload` matches.
use mathlib.Core.List.{Memᴰ}
use mathlib.Core.List.Memᴰ
use slixmpp_go.Common.{
  ◌≡◌, refl, sym, ap, ◌∙◌, Bool, true, false, ◌||◌, ◌&&◌, Option, none, some, List, [], ◌∷◌, String,
  ◌==◌, ==_iff, string_eq, ◌⊎◌, inl, inr, ◌↔◌, Bool-cases,
}
use slixmpp_go.Node.{Node, name, is_named}
use slixmpp_go.Stanza.{Stanza, Message, Presence, Iq, message, presence, iq}
use slixmpp_go.Matchers.{match_payload, any_named, stanza_payloads}

-- An extension of a message or of a presence, or a payload of an IQ.
pub data IsPayloadOf (n : Node) : Option Stanza → Type 0 where
  of_message : (m : Message) → Memᴰ n m.extensions → IsPayloadOf n (some (message m))
  of_presence : (p : Presence) → Memᴰ n p.extensions → IsPayloadOf n (some (presence p))
  of_iq : (i : Iq) → Memᴰ n i.payloads → IsPayloadOf n (some (iq i))

-- An element has a local name, and a namespace if one is asked for.
pub record HasName (ns local : String) (n : Node) : Type 0 where
  pub same_local : (name n).local ≡ local
  pub same_space : (ns ≡ "") ⊎ ((name n).space ≡ ns)

and-true : (a b : Bool) → a && b ≡ true → (a ≡ true) × (b ≡ true)
and-true true b h = (refl, h)
and-true false b h = cc

or-true : (a b : Bool) → a || b ≡ true → (a ≡ true) ⊎ (b ≡ true)
or-true true b h = inl refl
or-true false b h = inr h

is_named-HasName : (ns local : String) (n : Node) → is_named ns local n ≡ true → HasName ns local n
is_named-HasName ns local n h =
    let (a, b) = and-true ((name n).local == local) (ns == "" || (name n).space == ns) h in
    record {
      same_local = (==_iff (name n).local local).0 a;
      same_space = elim (or-true (ns == "") ((name n).space == ns) b) [
        | inl e ↦ inl ((==_iff ns "").0 e)
        | inr e ↦ inr ((==_iff (name n).space ns).0 e)
      ];
    }

HasName-is_named : (ns local : String) (n : Node) → HasName ns local n → is_named ns local n ≡ true
HasName-is_named ns local n h =
    let a = (==_iff (name n).local local).1 h.same_local in
    elim h.same_space [
      | inl e ↦ (let b = (==_iff ns "").1 e in rw (a, b) refl)
      | inr e ↦ (let b = (==_iff (name n).space ns).1 e in rw (a, b) (or_true (ns == "")))
    ]
  where
    or_true : (b : Bool) → b || true ≡ true
    or_true true = refl
    or_true false = refl

any_named-found :
    (ns local : String) (ns' : List Node)
    → any_named ns local ns' ≡ true
    → (n : Node) × Memᴰ n ns' × HasName ns local n
unfolding any_named
any_named-found ns local [] h = cc
any_named-found ns local (n ∷ more) h = elim (or-true (is_named ns local n) _ h) [
  | inl e ↦ (n, Memᴰ.head refl, is_named-HasName ns local n e)
  | inr e ↦ (let (m, i, j) = any_named-found ns local more e in (m, Memᴰ.tail i, j))
]

found-any_named :
    (ns local : String) (n : Node) (nodes : List Node)
    → Memᴰ n nodes
    → HasName ns local n
    → any_named ns local nodes ≡ true
unfolding any_named
found-any_named ns local n [] i h = elim i [ ]
found-any_named ns local n (m ∷ more) i h = elim (Memᴰ.cases_cons i) [
  | inl e ↦
      (let a : is_named ns local m ≡ true =
          ap (is_named ns local) (sym e) ∙ HasName-is_named ns local n h in
        rw a refl)
  | inr j ↦ elim (Bool-cases (is_named ns local m)) [
    | inl a ↦ rw a refl
    | inr a ↦ rw a (found-any_named ns local n more j h)
  ]
]

payload_of : (n : Node) (s : Option Stanza) → Memᴰ n (stanza_payloads s) → IsPayloadOf n s
payload_of n none i = elim i [ ]
payload_of n (some (message m)) i = of_message m i
payload_of n (some (presence p)) i = of_presence p i
payload_of n (some (iq q)) i = of_iq q i

of_payload : {n : Node} {s : Option Stanza} → IsPayloadOf n s → Memᴰ n (stanza_payloads s)
of_payload (of_message m i) = i
of_payload (of_presence p i) = i
of_payload (of_iq q i) = i

-- `MatchPayload` matches exactly the messages and presences with an extension, and the IQs with a
-- payload, that has the local name and, if the namespace is not empty, the namespace.
pub match_payload-HasName :
    (ns local : String) (s : Option Stanza)
    → (match_payload ns local s ≡ true) ↔ ((n : Node) × IsPayloadOf n s × HasName ns local n)
unfolding match_payload
match_payload-HasName ns local s = (
  λ h. let (n, i, j) = any_named-found ns local (stanza_payloads s) h in (n, payload_of n s i, j),
  λ f. found-any_named ns local f.0 (stanza_payloads s) (of_payload f.1) f.2,
)
