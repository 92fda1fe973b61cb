-- ===== src/Sasl/Choice.antt =====
-- xmpp/sasl.go: which mechanism is chosen.
use slixmpp_go.Common.{
  ◌≡◌, ◌≢◌, refl, sym, ap, subst, Bool, true, false, not, ◌||◌, ◌&&◌, Option, none, some, List, [],
  ◌∷◌, map, String, ◌==◌, string_eq, ◌⊎◌, inl, inr, ◌↔◌, ==_iff, Bool-cases,
}
use slixmpp_go.Common.Result.{Result, ok}
use slixmpp_go.Common.Text.{Unicode}
use slixmpp_go.Transport.{StreamError}
use slixmpp_go.Sasl.{is_in, normal, is_usable, first_usable, selected, select}

-- A mechanism and what it needs.
pub data CanUse (tls certificate : Bool) (password : String) (m : String) : Type 0 where
  plain : m ≡ "PLAIN" → password ≢ "" → tls ≡ true → CanUse tls certificate password m
  external : m ≡ "EXTERNAL" → certificate ≡ true → tls ≡ true → CanUse tls certificate password m
  scram :
      (m ≡ "SCRAM-SHA-1") ⊎ (m ≡ "SCRAM-SHA-256")
      → password ≢ ""
      → CanUse tls certificate password m
  anonymous : m ≡ "ANONYMOUS" → CanUse tls certificate password m

given_of :
    (password : String) (t : Bool)
    → not (password == "" || not t) ≡ true
    → (password ≢ "") × (t ≡ true)
given_of password t h = elim (Bool-cases (password == "")) [
  | inl e ↦ (let f : not (true || not t) ≡ true = rw e at h in cc)
  | inr e ↦ ((λ p. let q = (==_iff password "").1 p in cc), both t (rw e at h))
]
  where
    both : (t : Bool) → not (false || not t) ≡ true → t ≡ true
    both true h = refl
    both false h = cc

not_given : (password : String) → password ≢ "" → (password == "") ≡ false
not_given password h = elim (Bool-cases (password == "")) [
  | inl e ↦ absurd (h ((==_iff password "").0 e))
  | inr e ↦ e
]

both_of : (c t : Bool) → not (not c || not t) ≡ true → (c ≡ true) × (t ≡ true)
both_of true true h = (refl, refl)
both_of true false h = cc
both_of false t h = cc

either_text : (a b m : String) → (m == a || m == b) ≡ true → (m ≡ a) ⊎ (m ≡ b)
either_text a b m h = elim (Bool-cases (m == a)) [
  | inl e ↦ inl ((==_iff m a).0 e)
  | inr e ↦ inr ((==_iff m b).0 (rw e at h))
]

is_usable-CanUse :
    (tls certificate : Bool) (password m : String)
    → is_usable tls certificate password m ≡ true
    → CanUse tls certificate password m
unfolding is_usable
is_usable-CanUse tls certificate password m h = elim (Bool-cases (m == "PLAIN")) [
  | inl e ↦ (let (p, t) = given_of password tls (rw e at h) in plain ((==_iff m "PLAIN").0 e) p t)
  | inr e ↦ elim (Bool-cases (m == "EXTERNAL")) [
    | inl f ↦
        (let (c, t) = both_of certificate tls (rw (e, f) at h) in
          external ((==_iff m "EXTERNAL").0 f) c t)
    | inr f ↦ elim (Bool-cases (m == "SCRAM-SHA-1" || m == "SCRAM-SHA-256")) [
      | inl g ↦ scram (either_text "SCRAM-SHA-1" "SCRAM-SHA-256" m g) (λ p.
          let q = (==_iff password "").1 p in
          let k : not (password == "") ≡ true = rw (e, f, g) at h in cc)
      | inr g ↦ anonymous ((==_iff m "ANONYMOUS").0 (rw (e, f, g) at h))
    ]
  ]
]

CanUse-is_usable :
    (tls certificate : Bool) (password m : String)
    → CanUse tls certificate password m
    → is_usable tls certificate password m ≡ true
unfolding is_usable string_eq
CanUse-is_usable tls certificate password m (plain e p t) = rw (e, t, not_given password p) refl
CanUse-is_usable tls certificate password m (external e p t) = rw (e, p, t) refl
CanUse-is_usable tls certificate password m (scram (inl e) p) = rw (e, not_given password p) refl
CanUse-is_usable tls certificate password m (scram (inr e) p) = rw (e, not_given password p) refl
CanUse-is_usable tls certificate password m (anonymous e) = rw e refl

-- The list has the text at some place.
abbrev pub Has : String → List String → Type 0
Has m [] = ⊥
Has m (x ∷ xs) = (x ≡ m) ⊎ Has m xs

or_cases : (a b : Bool) → a || b ≡ true → (a ≡ true) ⊎ (b ≡ true)
or_cases true b h = inl refl
or_cases false b h = inr h

or-inr : (a b : Bool) → b ≡ true → a || b ≡ true
or-inr true b h = refl
or-inr false b h = h

is_in-Has : (m : String) (xs : List String) → (is_in m xs ≡ true) ↔ Has m xs
is_in-Has m [] = (λ h. cc, λ h. elim h [ ])
is_in-Has m (x ∷ xs) =
    let ih = is_in-Has m xs in
    (
      λ h. elim (or_cases (x == m) (is_in m xs) h) [
        | inl e ↦ inl ((==_iff x m).0 e)
        | inr e ↦ inr (ih.0 e)
      ],
      λ h. elim h [
        | inl e ↦ rw ((==_iff x m).1 e) refl
        | inr e ↦ or-inr (x == m) (is_in m xs) (ih.1 e)
      ],
    )

module _ (U : Unicode) (upper : String → String) (available : List String) (tls certificate : Bool)
    (password : String) where
  -- Offered by the server, and usable.
  abbrev pub IsGood : String → Type 0
  IsGood m = Has m available × CanUse tls certificate password m

  -- The first of the preferred mechanisms that is good, in normal form.
  pub data FirstGood (m : String) : List String → Type 0 where
    here : (p : String) (ps : List String) → normal U upper p ≡ m → IsGood m → FirstGood m (p ∷ ps)
    later :
        {p : String} {ps : List String}
        → ¬ IsGood (normal U upper p)
        → FirstGood m ps
        → FirstGood m (p ∷ ps)

  good : String → Bool
  good m = is_in m available && is_usable tls certificate password m

  good-IsGood : (m : String) → (good m ≡ true) ↔ IsGood m
  unfolding good
  good-IsGood m = (
    λ h.
        let (x, y) = parts (is_in m available) (is_usable tls certificate password m) h in
        ((is_in-Has m available).0 x, is_usable-CanUse tls certificate password m y),
    λ h. rw ((is_in-Has m available).1 h.0) (CanUse-is_usable tls certificate password m h.1),
  )
    where
      parts : (a b : Bool) → a && b ≡ true → (a ≡ true) × (b ≡ true)
      parts true b h = (refl, h)
      parts false b h = cc

  first_usable-FirstGood :
      (preferred : List String) (m : String)
      → first_usable U upper available tls certificate password preferred ≡ some m
      → FirstGood m preferred
  unfolding first_usable good
  first_usable-FirstGood [] m h = cc
  first_usable-FirstGood (p ∷ ps) m h = elim (Bool-cases (good (normal U upper p))) [
    | inl e ↦
        (let same : some (normal U upper p) ≡ some m = rw e at h in
          let q : normal U upper p ≡ m = cc in
          here p ps q (subst IsGood q ((good-IsGood (normal U upper p)).0 e)))
    | inr e ↦
        later (λ g. let k = (good-IsGood (normal U upper p)).1 g in cc)
          (first_usable-FirstGood ps m (rw e at h))
  ]

  FirstGood-first_usable :
      (preferred : List String) (m : String)
      → FirstGood m preferred
      → first_usable U upper available tls certificate password preferred ≡ some m
  unfolding first_usable good
  FirstGood-first_usable [] m f = elim f [ ]
  FirstGood-first_usable (p ∷ ps) m (here _ _ q g) =
      rw ((good-IsGood (normal U upper p)).1 (subst IsGood (sym q) g)) (ap some q)
  FirstGood-first_usable (p ∷ ps) m (later n f) = elim (Bool-cases (good (normal U upper p))) [
    | inl e ↦ absurd (n ((good-IsGood (normal U upper p)).0 e))
    | inr e ↦ rw e (FirstGood-first_usable ps m f)
  ]

-- A mechanism is chosen exactly if it is the first of the preferred ones, in normal form, that the
-- server offers and that can be used: a PLAIN or SCRAM one with a password, PLAIN and EXTERNAL over
-- TLS (or with plain authentication allowed), EXTERNAL with a certificate, ANONYMOUS always, and no
-- other.
pub select-ok_iff :
    (U : Unicode) (upper : String → String) (preferred offered : List String)
    (tls certificate : Bool) (password m : String)
    → (select U upper preferred offered tls certificate password ≡ ok m)
      ↔ FirstGood U upper (map (normal U upper) offered) tls certificate password m preferred
select-ok_iff U upper preferred offered tls certificate password m = (
  λ h. first_usable-FirstGood U upper available tls certificate password preferred m (chosen _ h),
  λ f.
      ap selected_of
        (FirstGood-first_usable U upper available tls certificate password preferred m f),
)
  where
    available : List String
    available = map (normal U upper) offered

    selected_of : Option String → Result StreamError String
    selected_of = selected U upper

    chosen : (o : Option String) → selected U upper o ≡ ok m → o ≡ some m
    chosen none h = cc
    chosen (some x) h = cc
