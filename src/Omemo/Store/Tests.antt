-- ===== src/Omemo/Store/Tests.antt =====
-- The store at concrete data.
use slixmpp_go.Common.{
  ℕ, zero, suc, ◌^◌, ◌<◌, ◌≤◌, ◌≡◌, refl, sym, ◌∙◌, ap, false, Option, none, some, List, [], ◌∷◌,
  String, char_eq, string_eq, nat_eq, ◌!=◌, ◌&&◌, contains, arith,
}
use slixmpp_go.Common.Text.{has_byte}
use slixmpp_go.Common.Int.Strokes.{strokes, stroke_count, stroke_count-strokes}
use slixmpp_go.Omemo.Store.{Address, Bundle, Store, no_data, unique_devices, own_device_id}
use slixmpp_go.Omemo.Store.Devices.{IsDistinct, unique_devices_lem, own_device_id_bounds}
use slixmpp_go.Omemo.Store.Refinement.{
  Operation, own_id, devices_at, bundle_at, trust_at, run, view, view_run, run-refines,
}

-- Numbers as strokes have no colon, and differ.
parse : String → Option ℕ
parse s = some (stroke_count s)

plain : (n : ℕ) → has_byte ":" (strokes n) ≡ false
unfolding has_byte char_eq
plain zero = refl
plain (suc n) = plain n

injective : (m n : ℕ) → strokes m ≡ strokes n → m ≡ n
injective m n h = sym (stroke_count-strokes m) ∙ ap stroke_count h ∙ stroke_count-strokes n

abbrev romeo : Address
romeo = record { jid = "romeo@example"; device = 3 }

abbrev keys : Bundle
keys = record {
  identity_key = 1 ∷ [];
  signed_pre_key_id = 2;
  signed_pre_key = [];
  signed_pre_key_signature = [];
  pre_keys = [];
}

abbrev calls : List Operation
calls =
    own_id 0
    ∷ own_id 7
    ∷ devices_at 9 (record { jid = "romeo@example"; devices = 3 ∷ 0 ∷ 3 ∷ []; fetched_at = 0 })
    ∷ bundle_at romeo keys
    ∷ trust_at romeo "perhaps"
    ∷ trust_at romeo "trusted"
    ∷ []

run-refines_example :
    ((run strokes parse calls no_data).0 ≡ (view_run calls (view strokes parse no_data)).0)
    × (view strokes parse (run strokes parse calls no_data).1
        ≡ (view_run calls (view strokes parse no_data)).1)
run-refines_example = run-refines strokes parse plain injective calls no_data

unique_devices_lem_example :
    IsDistinct (unique_devices (3 ∷ 0 ∷ 3 ∷ []))
    × ((d : ℕ)
        → contains (unique_devices (3 ∷ 0 ∷ 3 ∷ [])) d ≡ (d != 0 && contains (3 ∷ 0 ∷ 3 ∷ []) d))
unique_devices_lem_example = unique_devices_lem (3 ∷ 0 ∷ 3 ∷ [])

own_device_id_bounds_example :
    (id : ℕ) × (t : Store) × (own_device_id (some 2147483648) no_data ≡ ((none, id), t))
    × (1 ≤ id)
    × (id < 2 ^ 31)
    × ((random : Option ℕ) → own_device_id random t ≡ ((none, id), t))
own_device_id_bounds_example = own_device_id_bounds 2147483648 no_data (omega arith)
