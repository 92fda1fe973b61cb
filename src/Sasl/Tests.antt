-- ===== src/Sasl/Tests.antt =====
-- The choice of a mechanism and the parts of SCRAM at concrete data.
use slixmpp_go.Common.{
  ℕ, ◌≡◌, refl, false, true, some, List, [], ◌∷◌, map, String, char_eq, string_eq, nat_eq, ◌==◌,
  ◌↔◌, length, arith,
}
use slixmpp_go.Common.Dict
use slixmpp_go.Common.Dict.{Dict}
use slixmpp_go.Common.Result.{ok}
use slixmpp_go.Common.Text.{Unicode}
use slixmpp_go.Sasl.{normal, select}
use slixmpp_go.Sasl.Choice.{FirstGood, select-ok_iff}
use slixmpp_go.Sasl.Scram.{HashFunction, pbkdf2, parse_attributes, add_attributes, split_all}
use slixmpp_go.Sasl.Scram.Attributes.{HasAttribute, parse_attributes-lookup}
use slixmpp_go.Sasl.Scram.Keys.{length-pbkdf2}

-- No character is a space.
abbrev tables : Unicode
tables = record { is_space = λ c. false; to_lower = λ c. c; equal_fold = λ s t. s == t }

abbrev same : String → String
same s = s

abbrev preferred : List String
preferred = "SCRAM-SHA-1" ∷ "PLAIN" ∷ []

select-ok_iff_example :
    (select tables same preferred ("PLAIN" ∷ []) true false "secret" ≡ ok "PLAIN")
    ↔ FirstGood tables same
        (map (normal tables same) ("PLAIN" ∷ []))
        true
        false
        "secret"
        "PLAIN"
        preferred
select-ok_iff_example =
    select-ok_iff tables same preferred ("PLAIN" ∷ []) true false "secret" "PLAIN"

-- A hash of two bytes.
abbrev two_bytes : HashFunction
two_bytes = record { hmac = λ k m. 7 ∷ 8 ∷ []; digest = λ m. 1 ∷ 2 ∷ []; size = 2 }

length-pbkdf2_example :
    (r : List ℕ) × (pbkdf2 two_bytes (5 ∷ []) (6 ∷ []) 3 3 ≡ some r) × (length r ≡ 3)
length-pbkdf2_example = length-pbkdf2 two_bytes (λ k m. refl) (omega arith) (5 ∷ []) (6 ∷ []) 3 3

abbrev attributes : Dict String String
attributes = ("r", "a") ∷ ("i", "9") ∷ []

parsed : parse_attributes "r=a,i=9" ≡ ok attributes
unfolding add_attributes split_all char_eq string_eq Dict.lookup Dict.insert
parsed = refl

parse_attributes-lookup_example :
    (Dict.lookup "r" attributes ≡ some "a") ↔ HasAttribute "r" "a" (split_all "," "r=a,i=9")
parse_attributes-lookup_example = parse_attributes-lookup "r=a,i=9" attributes "r" "a" parsed
