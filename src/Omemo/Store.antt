-- ===== src/Omemo/Store.antt =====
-- omemo/types.go and omemo/store.go: the store in memory. A device ID is a uint32, a time a number
-- that is 0 for the zero time, a trust level its string. The locks are left out: each call is one
-- step, but for the two parts of `OwnDeviceID`. Copies of slices are values here.
pub mod Devices
pub mod Refinement
mod Tests
use Prim.Native.String.{◌++◌ as ◌<>◌}
use slixmpp_go.Common.{
  ℕ, ◌+◌, ◌%◌, ◌^◌, Bool, true, false, not, ◌||◌, ◌&&◌, Option, none, some, List, [], ◌∷◌, ◌++◌,
  map, String, ◌==◌, ◌!=◌, string_eq, nat_eq, if◌then◌else◌, contains,
}
use slixmpp_go.Common.Dict
use slixmpp_go.Common.Dict.{Dict}
use slixmpp_go.Common.Text.{split_last}

pub record Address : Type 0 where
  pub jid : String
  pub device : ℕ

pub record PreKey : Type 0 where
  pub id : ℕ
  pub public : List ℕ

pub record Bundle : Type 0 where
  pub identity_key : List ℕ
  pub signed_pre_key_id : ℕ
  pub signed_pre_key : List ℕ
  pub signed_pre_key_signature : List ℕ
  pub pre_keys : List PreKey

pub record DeviceList : Type 0 where
  pub jid : String
  pub devices : List ℕ
  pub fetched_at : ℕ

-- `memoryData`; a nil map reads and grows as an empty one.
pub record Store : Type 0 where
  pub own : ℕ
  pub lists : Dict String DeviceList
  pub bundles : Dict String Bundle
  pub trust : Dict String String

abbrev pub no_data : Store
no_data = record { own = 0; lists = []; bundles = []; trust = [] }

pub data StoreError : Type 0 where
  zero_device : StoreError
  bad_trust : String → StoreError
  no_random : StoreError

-- `validTrust`
abbrev pub is_trust : String → Bool
is_trust v =
    v == "undecided"
    || (v == "trusted" || (v == "verified" || (v == "distrusted" || v == "ignored")))

-- The loop of `uniqueDevices`, with the IDs that it has seen.
unfoldable pub unique_from : List ℕ → List ℕ → List ℕ
unique_from seen [] = []
unique_from seen (v ∷ vs) =
    let skipped = unique_from seen vs in
    let taken = v ∷ unique_from (v ∷ seen) vs in
    if v != 0 && not (contains seen v) then taken else skipped

-- `uniqueDevices`
abbrev pub unique_devices : List ℕ → List ℕ
unique_devices vs = unique_from [] vs

-- The first part of `OwnDeviceID` without an ID: 31 random bits, or 1 in place of 0. The argument is
-- the random uint32, of which `& 0x7fffffff` keeps the remainder by 2 ^ 31; none is an error.
unfoldable pub fresh_id : ℕ → ℕ
fresh_id raw = let id = raw % 2 ^ 31 in if id == 0 then 1 else id

-- The second part: another call may have set an ID in between.
unfoldable pub keep_id : ℕ → Store → ℕ × Store
keep_id id s = if s.own == 0 then (id, record s { own = id }) else (s.own, s)

abbrev pub draw_id : Option ℕ → Store → (Option StoreError × ℕ) × Store
draw_id none s = ((some no_random, 0), s)
draw_id (some raw) s = let (id, t) = keep_id (fresh_id raw) s in ((none, id), t)

-- `OwnDeviceID`
unfoldable pub own_device_id : Option ℕ → Store → (Option StoreError × ℕ) × Store
own_device_id random s =
    let drawn = draw_id random s in if s.own != 0 then ((none, s.own), s) else drawn

-- `SetOwnDeviceID`
unfoldable pub set_own_device_id : ℕ → Store → Option StoreError × Store
set_own_device_id id s = if id == 0 then (some zero_device, s) else (none, record s { own = id })

-- `DeviceList`
unfoldable pub device_list : String → Store → Option DeviceList
device_list jid s = Dict.lookup jid s.lists

-- `PutDeviceList` at the time `now`.
unfoldable pub put_device_list : ℕ → DeviceList → Store → Store
put_device_list now l s = record s {
  lists =
      Dict.insert l.jid
        (record l {
          devices = unique_devices l.devices;
          fetched_at = if l.fetched_at == 0 then now else l.fetched_at;
        })
        s.lists;
}

abbrev pub or_undecided : Option String → String
or_undecided none = "undecided"
or_undecided (some v) = v

-- The keys of the maps, once each.
abbrev pub keys_of {ℓ} : {V : Type ℓ} → Dict String V → List String
keys_of = map (λ p. p.0)

-- `print` is `fmt`'s `%d` on a uint32, and `parse` is `strconv.ParseUint` in base 10 and 32 bits.
module _ (print : ℕ → String) (parse : String → Option ℕ) where
  -- `Address.String`
  unfoldable pub to_string : Address → String
  to_string a = a.jid <> ":" <> print a.device

  -- `Bundle` and `PutBundle`
  unfoldable pub bundle : Address → Store → Option Bundle
  bundle a s = Dict.lookup (to_string a) s.bundles

  unfoldable pub put_bundle : Address → Bundle → Store → Store
  put_bundle a b s = record s { bundles = Dict.insert (to_string a) b s.bundles }

  -- `Trust` and `SetTrust`
  unfoldable pub trust_of : Address → Store → String
  trust_of a s = or_undecided (Dict.lookup (to_string a) s.trust)

  unfoldable pub set_trust : Address → String → Store → Option StoreError × Store
  set_trust a level s =
      if not (is_trust level)
      then (some (bad_trust level), s)
      else (none, record s { trust = Dict.insert (to_string a) level s.trust })

  abbrev pub nonzero_address : String → Option ℕ → List Address
  nonzero_address jid none = []
  nonzero_address jid (some d) = if d == 0 then [] else record { jid = jid; device = d } ∷ []

  -- A key that is an address, in `KnownAddresses`.
  abbrev pub read_key : Option (String × String) → List Address
  read_key none = []
  read_key (some (jid, digits)) =
      if jid == "" || digits == "" then [] else nonzero_address jid (parse digits)

  abbrev pub read_keys : List String → List Address
  read_keys [] = []
  read_keys (k ∷ ks) = read_key (split_last ":" k) ++ read_keys ks

  -- `KnownAddresses`, in some order of the maps; a key of both maps is taken once.
  abbrev pub known_addresses : Store → List Address
  known_addresses s = read_keys (keys_of s.bundles ++ new_keys (keys_of s.trust))
    where
      new_keys : List String → List String
      new_keys [] = []
      new_keys (k ∷ ks) = if contains (keys_of s.bundles) k then new_keys ks else k ∷ new_keys ks
