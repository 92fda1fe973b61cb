-- ===== src/Sasl/Exchange.antt =====
-- xmpp/sasl.go: `authSCRAM`, and `authenticate`.
use Prim.Native.String.{◌++◌ as ◌<>◌}
use slixmpp_go.Common.{
  ℕ, Bool, true, false, not, ◌||◌, ◌&&◌, Option, none, some, List, [], ◌∷◌, String, ◌==◌, ◌!=◌,
  string_eq, char_eq, nat_eq, ltb, if◌then◌else◌,
}
use slixmpp_go.Common.Int.{ℤ, pos, lt_int, Strconv}
use slixmpp_go.Common.Result.{Result, ok, err, ◌>>=◌, ◌>>◌, reject_if}
use slixmpp_go.Common.Text.{Unicode, trim_space}
use slixmpp_go.Config.{Config, TlsConfig}
use slixmpp_go.Jid.{Jid, bare}
use slixmpp_go.Node.{Node, name, text, new_text_node, set_attr}
use slixmpp_go.Transport.{
  Connection, StreamError, bad_scram, no_nonce, no_mechanism, no_mechanisms, element, write,
  read_node,
}
use slixmpp_go.Sasl.{sasl_ns, failure_of, offered_mechanisms, select, simple_sasl}
use slixmpp_go.Sasl.Scram.{HashFunction, pbkdf2, xor_bytes, parse_attributes, get}

-- The libraries for bytes, base64, hashes and randomness; `nonce` is the client's nonce, none where
-- the source of randomness fails.
pub record Crypto : Type 0 where
  pub nonce : Option String
  pub bytes : String → List ℕ
  pub string : List ℕ → String
  pub encode : List ℕ → String
  pub decode : String → Option (List ℕ)
  pub sha1 : HashFunction
  pub sha256 : HashFunction

abbrev pub or_error {ℓ} : {A : Type ℓ} → StreamError → Option A → Result StreamError A
or_error e none = err e
or_error e (some a) = ok a

-- `strings.HasPrefix`
unfoldable pub has_prefix : String → String → Bool
has_prefix s String.[] = true
has_prefix String.[] (String.◌∷◌ c p) = false
has_prefix (String.◌∷◌ d s) (String.◌∷◌ c p) = d == c && has_prefix s p

-- The replacer of the user's name.
unfoldable pub escape_name : String → String
escape_name String.[] = ""
escape_name (String.◌∷◌ c s) =
    let rest = escape_name s in
    if c == "=" then "=3D" <> rest else if c == "," then "=2C" <> rest else String.◌∷◌ c rest

-- `hmac.Equal`
unfoldable pub same_bytes : List ℕ → List ℕ → Bool
same_bytes [] [] = true
same_bytes [] (y ∷ ys) = false
same_bytes (x ∷ xs) [] = false
same_bytes (x ∷ xs) (y ∷ ys) = x == y && same_bytes xs ys

abbrev pub most_rounds : ℤ
most_rounds = pos 10000000

-- The number of iterations, from 1 to ten million.
abbrev pub to_rounds : Option ℤ → Result StreamError ℕ
to_rounds (some (ℤ.pos n)) = if ltb n 1 || lt_int most_rounds (pos n) then err bad_scram else ok n
to_rounds (some (ℤ.negsuc n)) = err bad_scram
to_rounds none = err bad_scram

pub record Proof : Type 0 where
  pub message : String
  pub expected : List ℕ

abbrev pub is_sasl : String → Node → Bool
is_sasl local n = (name n).space == sasl_ns && (name n).local == local

module _ (U : Unicode) (S : Strconv) (C : Crypto) where
  -- From the server's first message to the client's last: what is sent, and the signature that the
  -- server must show.
  unfoldable pub client_final :
      HashFunction → String → String → String → String → Result StreamError Proof
  client_final H password nonce first_bare server_first = do
    attributes ← parse_attributes server_first
    let server_nonce = get "r" attributes
    reject_if (not (has_prefix server_nonce nonce) || server_nonce == nonce) bad_scram
    salt ← or_error bad_scram (C.decode (get "s" attributes))
    iterations ← to_rounds (S.atoi (get "i" attributes))
    salted ← or_error bad_scram (pbkdf2 H (C.bytes password) salt iterations H.size)
    let client_key = H.hmac salted (C.bytes "Client Key")
    let stored_key = H.digest client_key
    let no_proof = "c=biws,r=" <> server_nonce
    let auth_message = first_bare <> "," <> server_first <> "," <> no_proof
    let signature = H.hmac stored_key (C.bytes auth_message)
    proof ← or_error bad_scram (xor_bytes client_key signature)
    let server_key = H.hmac salted (C.bytes "Server Key")
    ok (record {
      message = no_proof <> ",p=" <> C.encode proof;
      expected = H.hmac server_key (C.bytes auth_message);
    })

  -- What is checked of the text of `success`: nothing of an empty one.
  unfoldable pub check_final : List ℕ → String → Result StreamError (Unit {0})
  check_final expected words = if trim_space U words == "" then ok tt else do
    decoded ← or_error bad_scram (C.decode (trim_space U words))
    attrs ← parse_attributes (C.string decoded)
    reject_if (get "e" attrs != "") bad_scram
    signature ← or_error bad_scram (C.decode (get "v" attrs))
    reject_if (not (same_bytes signature expected)) bad_scram

  -- `authSCRAM`
  unfoldable pub auth_scram :
      HashFunction → String → String → String → Connection → Result StreamError Connection
  auth_scram H mechanism local password k = do
    nonce ← or_error no_nonce C.nonce
    let first_bare = "n=" <> escape_name local <> ",r=" <> nonce
    let auth =
        set_attr "mechanism" mechanism
          (new_text_node sasl_ns "auth" (C.encode (C.bytes ("n,," <> first_bare))))
    k ← write (element auth) k
    (challenge, k) ← read_node k
    reject_if ((name challenge).local == "failure") (failure_of challenge)
    reject_if (not (is_sasl "challenge" challenge)) bad_scram
    server_first ← or_error bad_scram (C.decode (trim_space U (text challenge)))
    proof ← client_final H password nonce first_bare (C.string server_first)
    k ← write (element (new_text_node sasl_ns "response" (C.encode (C.bytes proof.message)))) k
    (final, k) ← read_node k
    reject_if ((name final).local == "failure") (failure_of final)
    reject_if (not (is_sasl "success" final)) bad_scram
    check_final proof.expected (text final) >> ok k

  module _ (upper : String → String) where
    abbrev pub has_certificate : Option TlsConfig → Bool
    has_certificate none = false
    has_certificate (some t) = ltb 0 t.certificates

    -- The `switch` of `authenticate`.
    unfoldable pub run_mechanism :
        Config → Jid → String → Connection → Result StreamError Connection
    run_mechanism c j m k =
        if m == "PLAIN"
        then simple_sasl "PLAIN"
            (some
              (C.encode (C.bytes (c.authorization_id <> "\0" <> j.local <> "\0" <> c.password))))
            k
        else if m == "EXTERNAL"
        then simple_sasl "EXTERNAL"
            (some (
              C.encode (C.bytes (if c.authorization_id == "" then bare j else c.authorization_id))))
            k
        else if m == "ANONYMOUS"
        then simple_sasl "ANONYMOUS" none k
        else if m == "SCRAM-SHA-1"
        then auth_scram C.sha1 m j.local c.password k
        else if m == "SCRAM-SHA-256"
        then auth_scram C.sha256 m j.local c.password k
        else err no_mechanism

    abbrev pub is_empty : List String → Bool
    is_empty [] = true
    is_empty (m ∷ ms) = false

    -- The mechanism that `authenticate` takes.
    unfoldable pub choose : Config → Node → Connection → Result StreamError String
    choose c features k = do
      let offered = offered_mechanisms U upper features
      reject_if (is_empty offered) no_mechanisms
      select U upper c.sasl_mechanisms offered (k.secured || c.insecure_allow_plain_auth)
          (has_certificate c.tls) c.password

    -- `authenticate`
    unfoldable pub authenticate : Config → Jid → Node → Connection → Result StreamError Connection
    authenticate c j features k = choose c features k >>= (λ m. run_mechanism c j m k)
