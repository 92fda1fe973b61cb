-- ===== src/Config/Laws.antt =====
-- xmpp/config.go: what a normalized configuration guarantees.
use slixmpp_go.Common.{
  ◌≡◌, refl, Bool, true, false, not, ◌||◌, ◌&&◌, ◌⊎◌, inl, inr, String, ◌==◌, string_eq, List, [],
  ◌∷◌, ◌<◌, length, arith, Bool-cases,
}
use slixmpp_go.Common.Int.{ℤ, pos, lt_int}
use slixmpp_go.Config.{Config, normalized, positive_or, text_or, list_or, seconds20, seconds30}

pub record IsWhole (c : Config) : Type 0 where
  pub connects_in : lt_int (pos 0) c.connect_timeout ≡ true
  pub answers_in : lt_int (pos 0) c.iq_timeout ≡ true
  pub speaks : (c.language == "") ≡ false
  pub has_mechanism : 0 < length c.sasl_mechanisms
  pub guarded :
      (c.require_tls ≡ true)
      ⊎ ((c.insecure_allow_plain_auth ≡ true)
          ⊎ ((c.direct_tls ≡ true) ⊎ ((c.component_secret == "") ≡ false)))

positive-positive_or : (d v : ℤ) → lt_int (pos 0) d ≡ true → lt_int (pos 0) (positive_or d v) ≡ true
positive-positive_or d v h = elim (Bool-cases (lt_int (pos 0) v)) [
  | inl e ↦ rw e e
  | inr e ↦ rw e h
]

text_or-given : (d v : String) → (d == "") ≡ false → (text_or d v == "") ≡ false
text_or-given d v h = elim (Bool-cases (v == "")) [ inl e ↦ rw e h | inr e ↦ rw e e ]

list_or-length : (d xs : List String) → 0 < length d → 0 < length (list_or d xs)
list_or-length d [] h = h
list_or-length d (x ∷ xs) h = omega arith

guard_cases :
    (r i d s : Bool)
    → ((r || (not i && (not d && s))) ≡ true) ⊎ ((i ≡ true) ⊎ ((d ≡ true) ⊎ (s ≡ false)))
guard_cases true i d s = inl refl
guard_cases false true d s = inr (inl refl)
guard_cases false false true s = inr (inr (inl refl))
guard_cases false false false true = inl refl
guard_cases false false false false = inr (inr (inr refl))

-- A normalized configuration has positive timeouts, a language and a mechanism, and requires TLS
-- unless plain authentication is allowed, TLS is direct, or it is a component's.
pub normalized-IsWhole : (c : Config) → IsWhole (normalized c)
unfolding normalized lt_int string_eq
normalized-IsWhole c = record {
  connects_in = positive-positive_or seconds20 c.connect_timeout refl;
  answers_in = positive-positive_or seconds30 c.iq_timeout refl;
  speaks = text_or-given "en" c.language refl;
  has_mechanism = list_or-length _ c.sasl_mechanisms (omega arith);
  guarded =
      guard_cases c.require_tls c.insecure_allow_plain_auth c.direct_tls (c.component_secret == "");
}
