-- ===== src/Config.antt =====
-- xmpp/config.go: the settings of a client, made whole and checked.
pub mod Laws
use slixmpp_go.Common.{
  ℕ, Bool, true, false, not, ◌||◌, ◌&&◌, Option, none, some, List, [], ◌∷◌, String, ◌==◌, ◌!=◌,
  string_eq, if◌then◌else◌,
}
use slixmpp_go.Common.Int.{ℤ, pos, lt_int}
use slixmpp_go.Common.Result.{Result, ok, err, ◌>>=◌, ◌>>◌, reject_if}
use slixmpp_go.Common.Text.{Unicode}
use slixmpp_go.Jid.{Jid, JidError, parse_jid, is_domain}

-- What the code reads and sets of a `tls.Config`.
pub record TlsConfig : Type 0 where
  pub server_name : String
  pub min_version : ℕ
  pub certificates : ℕ

-- `Config`, without the dialer, the resolver, the first presence and the logger. A duration is its
-- number of nanoseconds.
pub record Config : Type 0 where
  pub jid : String
  pub password : String
  pub bound_resource : String
  pub component_secret : String
  pub address : String
  pub direct_tls : Bool
  pub require_tls : Bool
  pub insecure_allow_plain_auth : Bool
  pub tls : Option TlsConfig
  pub sasl_mechanisms : List String
  pub authorization_id : String
  pub connect_timeout : ℤ
  pub iq_timeout : ℤ
  pub keep_alive : ℤ
  pub auto_presence : Bool
  pub disable_auto_presence : Bool
  pub language : String
  pub user_agent : String

abbrev pub seconds20 : ℤ
seconds20 = pos 20000000000

abbrev pub seconds30 : ℤ
seconds30 = pos 30000000000

abbrev pub default_mechanisms : List String
default_mechanisms =
    "SCRAM-SHA-256" ∷ ("SCRAM-SHA-1" ∷ ("EXTERNAL" ∷ ("PLAIN" ∷ ("ANONYMOUS" ∷ []))))

-- `DefaultConfig`
abbrev pub default_config : String → String → Config
default_config jid password = record {
  jid = jid;
  password = password;
  bound_resource = "";
  component_secret = "";
  address = "";
  direct_tls = false;
  require_tls = true;
  insecure_allow_plain_auth = false;
  tls = none;
  sasl_mechanisms = [];
  authorization_id = "";
  connect_timeout = seconds20;
  iq_timeout = seconds30;
  keep_alive = pos 0;
  auto_presence = true;
  disable_auto_presence = false;
  language = "en";
  user_agent = "slixmpp-go";
}

-- A duration that is positive, or its default.
abbrev pub positive_or : ℤ → ℤ → ℤ
positive_or default v = if lt_int (pos 0) v then v else default

abbrev pub text_or : String → String → String
text_or default v = if v == "" then default else v

abbrev pub list_or : List String → List String → List String
list_or default [] = default
list_or default (m ∷ ms) = m ∷ ms

-- `Config.normalized`
unfoldable pub normalized : Config → Config
normalized c = record c {
  connect_timeout = positive_or seconds20 c.connect_timeout;
  iq_timeout = positive_or seconds30 c.iq_timeout;
  language = text_or "en" c.language;
  user_agent = text_or "slixmpp-go" c.user_agent;
  sasl_mechanisms = list_or default_mechanisms c.sasl_mechanisms;
  auto_presence = not (c.component_secret != "" || c.disable_auto_presence);
  require_tls =
      c.require_tls
      || (not c.insecure_allow_plain_auth && (not c.direct_tls && c.component_secret == ""));
}

pub data ConfigError : Type 0 where
  bad_jid : JidError → ConfigError
  not_a_domain : ConfigError
  no_address : ConfigError
  bad_address : ConfigError

abbrev pub with_resource : String → Jid → Jid
with_resource r j = if r != "" then record j { resource = r } else j

abbrev pub as_config_error : Result JidError Jid → Result ConfigError Jid
as_config_error (ok j) = ok j
as_config_error (err e) = err (bad_jid e)

-- `split_host_port` tells whether `net.SplitHostPort` accepts an address.
module _ (U : Unicode) (split_host_port : String → Bool) where
  -- `Config.validate`
  unfoldable pub validate : Config → Result ConfigError Jid
  validate c = do
    parsed ← as_config_error (parse_jid U c.jid)
    let j = with_resource c.bound_resource parsed
    reject_if (c.component_secret != "" && not (is_domain j)) not_a_domain
    reject_if (c.component_secret != "" && c.address == "") no_address
    reject_if (c.address != "" && not (split_host_port c.address)) bad_address
    ok j
