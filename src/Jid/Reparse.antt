-- ===== src/Jid/Reparse.antt =====
-- What `ParseJID` accepts is normal, so that its text is read back as the same JID.
use Prim.Native.String.{◌++◌ as ◌<>◌}
use slixmpp_go.Common.{
  ap, ◌≡◌, sym, ◌∙◌, ◌≢◌, ◌⊎◌, true, false, ◌||◌, String, ◌==◌, ==_iff, string_eq, arith,
  Bool-cases, Option-cases, inl, inr, char_eq,
}
use slixmpp_go.Common.Result.{ok, ◌>>◌, reject_if, >>=-eq-ok}
use slixmpp_go.Common.Text.{
  Unicode, IsUnicode, split_first, split_last, contains_any, trim_suffix_byte, trim_space, to_lower,
}
use slixmpp_go.Common.Text.Split
use slixmpp_go.Common.Text.Trim
use slixmpp_go.Common.Text.Trim.{solid_left, solid_right}
use slixmpp_go.Jid.{
  Jid, cut_resource, cut_local, normal_domain, parse_jid, bare, to_string, domain_specials,
  local_specials, resource_specials, invalid_jid, invalid_domainpart,
}
use slixmpp_go.Jid.RoundTrip.{
  IsNormal, parse_jid-to_string, bare_of_domain, bare_of_local, to_string_of_bare,
  to_string_of_full, bare-ne_nil,
}

-- The steps of a successful parse.
record Steps (U : Unicode) (v : String) (j : Jid) : Type 0 where
  rest : String
  raw_domain : String
  resource_cut : cut_resource (trim_space U v) ≡ ok (rest, j.resource)
  local_cut : cut_local rest ≡ ok (j.local, raw_domain)
  domain_eq : j.domain ≡ normal_domain U raw_domain
  domain_ok : (j.domain == "" || contains_any j.domain domain_specials) ≡ false
  rest_ok :
      (contains_any j.local local_specials || contains_any j.resource resource_specials) ≡ false

-- The two tests behind the cuts, and what they let through.
checked :
    (U : Unicode) (local raw resource : String) (j : Jid)
    → (do
      reject_if
          (normal_domain U raw == "" || contains_any (normal_domain U raw) domain_specials)
          invalid_domainpart
      reject_if
          (contains_any local local_specials || contains_any resource resource_specials)
          invalid_jid
      ok (record { local = local; domain = normal_domain U raw; resource = resource }))
      ≡ ok j
    → (j ≡ record { local = local; domain = normal_domain U raw; resource = resource })
      × ((j.domain == "" || contains_any j.domain domain_specials) ≡ false)
      × ((contains_any j.local local_specials || contains_any j.resource resource_specials) ≡ false)
checked U local raw resource j h = ground arith

parse_jid-Steps : (U : Unicode) (v : String) (j : Jid) → parse_jid U v ≡ ok j → Steps U v j
unfolding parse_jid
parse_jid-Steps U v j h =
    let (_, _, h₁) = >>=-eq-ok (reject_if (trim_space U v == "") invalid_jid) _ h in
    let ((rest, resource), e₁, h₂) = >>=-eq-ok (cut_resource (trim_space U v)) _ h₁ in
    let ((local, raw), e₂, h₃) = >>=-eq-ok (cut_local rest) _ h₂ in
    let (same, d, c) = checked U local raw resource j h₃ in
    record {
      rest = rest;
      raw_domain = raw;
      resource_cut = e₁ ∙ ap (λ k. ok (rest, k.resource)) (sym same);
      local_cut = e₂ ∙ ap (λ k. ok (k.local, raw)) (sym same);
      domain_eq = ap (λ k. k.domain) same;
      domain_ok = d;
      rest_ok = c;
    }

test-ne_nil : (s : String) → (s == "") ≡ false → s ≢ ""
test-ne_nil s h = ground arith

cut_resource_cases :
    (v rest r : String)
    → cut_resource v ≡ ok (rest, r)
    → (r ≡ "") × (rest ≡ v) ⊎ ((r == "") ≡ false) × (v ≡ rest <> String.◌∷◌ "/" r)
unfolding cut_resource
cut_resource_cases v rest r h = elim (Option-cases (split_first "/" v)) [
  | inl e ↦ inl (ground (arith, (rw (e, cut_resource) at h)))
  | inr ((a, b), e) ↦
      inr (ground (arith, (rw (e, cut_resource) at h), (Split.split_first_sound "/" v e).0))
]

cut_local_cases :
    (v l d : String)
    → cut_local v ≡ ok (l, d)
    → (l ≡ "") × (d ≡ v) ⊎ ((l == "") ≡ false) × (v ≡ l <> String.◌∷◌ "@" d)
unfolding cut_local
cut_local_cases v l d h = elim (Option-cases (split_last "@" v)) [
  | inl e ↦ inl (ground (arith, (rw (e, cut_local) at h)))
  | inr ((a, b), e) ↦
      inr (ground (arith, (rw (e, cut_local) at h), (Split.split_last_sound "@" v e).0))
]

module _ (U : Unicode) (u : IsUnicode U) where
  solid_left-normal_domain : (raw : String) → solid_left U (normal_domain U raw) ≡ true
  unfolding normal_domain
  solid_left-normal_domain raw =
      Trim.solid_left-trim_suffix_byte U "." _
        (Trim.solid_left-to_lower U u (trim_space U raw) ∙ Trim.trim_space-solid_left U raw)

  to_lower-normal_domain : (raw : String) → to_lower U (normal_domain U raw) ≡ normal_domain U raw
  unfolding normal_domain
  to_lower-normal_domain raw = Trim.to_lower-trim_suffix_byte U u "." (trim_space U raw)

  module _ {v : String} (j : Jid) (s : Steps U v j) where
    solid_left-rest : solid_left U s.rest ≡ true
    solid_left-rest = elim (cut_resource_cases _ s.rest j.resource s.resource_cut) [
      | inl (_, same) ↦ rw same (Trim.trim_space-solid_left U v)
      | inr (_, e) ↦ Trim.solid_left_of_append U s.rest _ (rw e at (Trim.trim_space-solid_left U v))
    ]

    -- The text begins as the trimmed input does, or with the domain.
    solid_left-bare : solid_left U (bare j) ≡ true
    solid_left-bare = elim (cut_local_cases s.rest j.local s.raw_domain s.local_cut) [
      | inl (nil, _) ↦
          rw (bare_of_domain j ((==_iff j.local "").1 nil), s.domain_eq)
            (solid_left-normal_domain s.raw_domain)
      | inr (given, e) ↦ rw (bare_of_local j given) (
          Trim.solid_left-append U j.local _ (test-ne_nil j.local given)
          ∙ Trim.solid_left_of_append U j.local _ (rw e at solid_left-rest))
    ]

    domain-ne_nil : j.domain ≢ ""
    domain-ne_nil = ground (arith, s.domain_ok)

    solid_left-to_string : solid_left U (to_string j) ≡ true
    solid_left-to_string = elim (Bool-cases (j.resource == "")) [
      | inl e ↦ rw (to_string_of_bare j e) solid_left-bare
      | inr e ↦
          rw (to_string_of_full j e)
            (Trim.solid_left-append U (bare j) _ (bare-ne_nil j domain-ne_nil) ∙ solid_left-bare)
    ]

    solid_right-bare : solid_right U j.domain ≡ true → solid_right U (bare j) ≡ true
    solid_right-bare ends = elim (Bool-cases (j.local == "")) [
      | inl e ↦ rw (bare_of_domain j e) ends
      | inr e ↦
          rw (bare_of_local j e)
            (Trim.solid_right-append_cons U j.local "@" j.domain domain-ne_nil ∙ ends)
    ]

    solid_right-to_string : solid_right U j.domain ≡ true → solid_right U (to_string j) ≡ true
    solid_right-to_string ends = elim (cut_resource_cases _ s.rest j.resource s.resource_cut) [
      | inl (nil, _) ↦
          rw (to_string_of_bare j ((==_iff j.resource "").1 nil)) (solid_right-bare ends)
      | inr (given, e) ↦
          let r = test-ne_nil j.resource given in
          rw (to_string_of_full j given) (
            Trim.solid_right-append_cons U (bare j) "/" j.resource r
            ∙ sym (Trim.solid_right-append_cons U s.rest "/" j.resource r)
            ∙ (rw e at (Trim.trim_space-solid_right U v)))
    ]

    solid_left-domain : solid_left U j.domain ≡ true
    solid_left-domain = rw s.domain_eq (solid_left-normal_domain s.raw_domain)

    to_lower-domain : to_lower U j.domain ≡ j.domain
    to_lower-domain = rw s.domain_eq (to_lower-normal_domain s.raw_domain)

    normal_domain-domain :
        solid_right U j.domain ≡ true
        → trim_suffix_byte "." j.domain ≡ j.domain
        → normal_domain U j.domain ≡ j.domain
    unfolding normal_domain
    normal_domain-domain ends dot =
        rw (Trim.trim_space-solid U j.domain solid_left-domain ends, to_lower-domain) dot

    steps-IsNormal :
        solid_right U j.domain ≡ true → trim_suffix_byte "." j.domain ≡ j.domain → IsNormal U j
    steps-IsNormal ends dot = record {
      domain_given = domain-ne_nil;
      domain_clean = ground (arith, s.domain_ok);
      local_clean = ground (arith, s.rest_ok);
      resource_clean = ground (arith, s.rest_ok);
      domain_normal = normal_domain-domain ends dot;
      trimmed =
          Trim.trim_space-solid U (to_string j) solid_left-to_string (solid_right-to_string ends);
    }

  -- Whatever `ParseJID` accepts, the text of the result is accepted again and gives the same JID,
  -- if the domain is left with no dot and no space at its end, and the tables of Unicode are as
  -- `IsUnicode` says.
  pub parse_jid-reparse :
      (v : String) (j : Jid)
      → parse_jid U v ≡ ok j
      → solid_right U j.domain ≡ true
      → trim_suffix_byte "." j.domain ≡ j.domain
      → parse_jid U (to_string j) ≡ ok j
  parse_jid-reparse v j h ends dot =
      parse_jid-to_string U j (steps-IsNormal j (parse_jid-Steps U v j h) ends dot)
