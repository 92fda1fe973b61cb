-- ===== src/Sasl/Scram.antt =====
-- xmpp/sasl.go: SCRAM, its attributes and its keys. A byte is a number below 256.
pub mod Keys
pub mod Attributes
use Prim.Native.Nat.{bit_xor}
use Prim.Native.String.{◌++◌ as ◌<>◌}
use Prim.Native.Char.{Char, code}
use slixmpp_go.Common.{
  ℕ, zero, suc, ◌+◌, ◌-◌, ◌*◌, ◌/◌, ◌%◌, ◌^◌, Bool, true, false, not, ◌||◌, ◌&&◌, Option, none,
  some, List, [], ◌∷◌, ◌++◌, String, ◌==◌, ◌!=◌, string_eq, char_eq, nat_eq, ltb, if◌then◌else◌,
}
use slixmpp_go.Common.Dict
use slixmpp_go.Common.Dict.{Dict}
use slixmpp_go.Common.Int.{ℤ, pos, lt_int}
use slixmpp_go.Common.Result.{Result, ok, err, ◌>>=◌, ◌>>◌, reject_if}
use slixmpp_go.Common.Text.{Unicode, trim_space}
use slixmpp_go.Node.{Node, name, text, new_text_node, set_attr}
use slixmpp_go.Transport.{Connection, StreamError, bad_scram, element, write, read_node}
use slixmpp_go.Sasl.{sasl_ns, failure_of}

-- `strings.Split` by one character: never an empty list.
abbrev pub to_first : Char → List String → List String
to_first c [] = String.◌∷◌ c "" ∷ []
to_first c (s ∷ more) = String.◌∷◌ c s ∷ more

unfoldable pub split_all : Char → String → List String
split_all x String.[] = "" ∷ []
split_all x (String.◌∷◌ c s) =
    let rest = split_all x s in if c == x then "" ∷ rest else to_first c rest

-- `len(part) < 3 || part[1] != '='`, on bytes: the key is one byte.
abbrev pub attribute : String → Option (String × String)
attribute (String.◌∷◌ c (String.◌∷◌ d (String.◌∷◌ e value))) =
    if ltb (code c) 128 && d == "=" then some (String.◌∷◌ c "", String.◌∷◌ e value) else none
attribute s = none

-- A key that is there already is refused.
abbrev pub add_fresh :
    Option String → String → String → Dict String String → Result StreamError (Dict String String)
add_fresh none k v attrs = ok (Dict.insert k v attrs)
add_fresh (some old) k v attrs = err bad_scram

abbrev pub add_attribute :
    Option (String × String) → Dict String String → Result StreamError (Dict String String)
add_attribute none attrs = err bad_scram
add_attribute (some (k, v)) attrs = add_fresh (Dict.lookup k attrs) k v attrs

-- The loop of `parseSCRAMAttributes`.
unfoldable pub add_attributes :
    List String → Dict String String → Result StreamError (Dict String String)
add_attributes [] attrs = ok attrs
add_attributes (part ∷ parts) attrs = add_attribute (attribute part) attrs >>= add_attributes parts

-- `parseSCRAMAttributes`
abbrev pub parse_attributes : String → Result StreamError (Dict String String)
parse_attributes message = add_attributes (split_all "," message) []

-- A missing entry reads as the empty text.
abbrev pub or_empty : Option String → String
or_empty none = ""
or_empty (some v) = v

abbrev pub get : String → Dict String String → String
get k attrs = or_empty (Dict.lookup k attrs)

-- What goes on where nothing has panicked.
abbrev pub after : {A B : Type 0} → Option A → (A → Option B) → Option B
after none next = none
after (some a) next = next a

-- `out[i] = a[i] ^ b[i]` for each index of `a`: none is the panic where `b` is shorter.
unfoldable pub xor_bytes : List ℕ → List ℕ → Option (List ℕ)
xor_bytes [] b = some []
xor_bytes (x ∷ a) [] = none
xor_bytes (x ∷ a) (y ∷ b) = after (xor_bytes a b) (λ r. some (bit_xor x y ∷ r))

abbrev pub take_bytes : ℕ → List ℕ → List ℕ
take_bytes zero xs = []
take_bytes (suc n) [] = []
take_bytes (suc n) (x ∷ xs) = x ∷ take_bytes n xs

-- The four bytes of the block's number.
abbrev pub block_bytes : ℕ → List ℕ
block_bytes b = (b / 2 ^ 24 % 256) ∷ ((b / 2 ^ 16 % 256) ∷ ((b / 2 ^ 8 % 256) ∷ ((b % 256) ∷ [])))

-- A hash function with its key, and the number of bytes it gives.
pub record HashFunction : Type 0 where
  pub hmac : List ℕ → List ℕ → List ℕ
  pub digest : List ℕ → List ℕ
  pub size : ℕ

module _ (H : HashFunction) where
  -- The inner loop of `pbkdf2`, with the rounds that are left.
  unfoldable pub rounds : ℕ → List ℕ → List ℕ → List ℕ → Option (List ℕ)
  rounds zero password u t = some t
  rounds (suc n) password u t =
      after (xor_bytes t (H.hmac password u)) (rounds n password (H.hmac password u))

  abbrev pub one_block : List ℕ → List ℕ → ℕ → ℕ → Option (List ℕ)
  one_block password salt iterations block =
      let u = H.hmac password (salt ++ block_bytes block) in rounds (iterations - 1) password u u

  -- The outer loop: the blocks that are left, from a number.
  unfoldable pub blocks : List ℕ → List ℕ → ℕ → ℕ → ℕ → Option (List ℕ)
  blocks password salt iterations zero block = some []
  blocks password salt iterations (suc n) block =
      after (one_block password salt iterations block)
        (λ t. after (blocks password salt iterations n (block + 1)) (λ r. some (t ++ r)))

  -- `pbkdf2`; the size of the hash is not 0.
  unfoldable pub pbkdf2 : List ℕ → List ℕ → ℕ → ℕ → Option (List ℕ)
  pbkdf2 password salt iterations key_length =
      after (blocks password salt iterations ((key_length + H.size - 1) / H.size) 1)
        (λ r. some (take_bytes key_length r))
