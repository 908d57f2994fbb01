-- ===== src/Oauth/Device.antt =====
-- Devices of internal/oauthserver/server.go and internal/deviceidentity/identity.go: their records,
-- their display names and their keys.
use chat_with_cli.Base.{
  ℕ, zero, suc, Str, [], ◌∷◌, Option, none, some, Bool, true, false, ◌&&◌, ◌||◌, not, codes,
  is_empty, length, ltb, leb, ◌==◌, nat_eq, str_eq, trim_space, trim_prefix, has_prefix,
  if◌then◌else◌,
}
use chat_with_cli.Base.Map
use chat_with_cli.Oauth.Platform.{Platform}
use chat_with_cli.Oauth.State.{Server, Client, DeviceRecord, unix}
use chat_with_cli.Oauth.Resource.{id_prefix, canonical_device_route}
use chat_with_cli.Oauth.Access.{is_set}

-- The zero value of a string that a map does not hold.
abbrev pub text_of : Option Str → Str
text_of none = []
text_of (some t) = t

abbrev pub zero_record : DeviceRecord
zero_record = record {
  id = [];
  display_name = [];
  owner_id = [];
  device_public_key = [];
  created_at = 0;
  last_seen_at = 0;
  disabled = false;
}

abbrev pub record_of : Option DeviceRecord → DeviceRecord
record_of none = zero_record
record_of (some r) = r

abbrev pub or_text : Str → Str → Str
or_text [] t = t
or_text (c ∷ s) t = c ∷ s

unfoldable pub route_of : Str → Option Str → Str
route_of route none = route
route_of route (some canonical) = canonical

-- The record with the fields that it lacked, for a drawn identifier.
unfoldable pub completed : DeviceRecord → Str → Str → Bool → Str → ℕ → DeviceRecord
completed r route owner off new_id now = record r {
  id = or_text r.id (if has_prefix route id_prefix then trim_prefix route id_prefix else new_id);
  display_name = or_text r.display_name (trim_prefix route id_prefix);
  owner_id = or_text r.owner_id owner;
  created_at = if r.created_at == 0 then unix now else r.created_at;
  disabled = r.disabled || off;
}

unfoldable pub ensure_at : Server → Str → Str → Str → ℕ → Server × DeviceRecord
unfolding completed
ensure_at s route owner new_id now =
    let r =
      completed (record_of (Map.get s.device_records route)) route owner
        (is_set s.disabled_devices route) new_id now in
    (record s { device_records = Map.put s.device_records route r }, r)

-- ensureDeviceRecordLocked
unfoldable pub ensure_device_record : Server → Str → Str → Str → ℕ → Server × DeviceRecord
unfolding ensure_at route_of
ensure_device_record s route owner new_id now =
    ensure_at s (route_of route (canonical_device_route route)) owner new_id now

-- unicode.IsControl, by the UTF-8 bytes of the runes.
no_control : Str → Bool
no_control [] = true
no_control (a ∷ []) = leb 32 a && not (a == 127)
no_control (a ∷ b ∷ s) =
    leb 32 a && not (a == 127) && not (a == 0xc2 && leb 0x80 b && leb b 0x9f) && no_control (b ∷ s)

-- s[:n]
unfoldable pub take : ℕ → Str → Str
take zero s = []
take (suc n) [] = []
take (suc n) (c ∷ s) = c ∷ take n s

module _ (lib : Platform) where
  -- validateDeviceDisplayName
  unfoldable pub valid_display_name : Str → Bool
  unfolding no_control
  valid_display_name name =
      let t = trim_space name in
      if is_empty t || ltb 256 (length t) || not (lib.valid_utf8 t) then false else no_control t

  abbrev pub hint_prefix : Str
  hint_prefix = codes "chat-with-cli agent "

  -- agentDisplayNameHint
  unfoldable pub display_name_hint : Client → Str
  unfolding valid_display_name
  display_name_hint client =
      if not (has_prefix client.name hint_prefix)
      then []
      else (let name = trim_space (trim_prefix client.name hint_prefix) in
          if valid_display_name name then name else [])

  check_key : Option Str → Option Str
  check_key none = none
  check_key (some key) = if length key == 32 then some key else none

  -- DecodePublicKey
  unfoldable pub decode_public_key : Str → Option Str
  unfolding check_key
  decode_public_key encoded = check_key (lib.base64_decode (trim_space encoded))

  -- IDFromPublicKey: sixteen bytes of the digest are thirty-two hexadecimal digits.
  unfoldable pub id_from_public_key : Str → Option Str
  unfolding take
  id_from_public_key key =
      if not (length key == 32) then none else some (take 32 (lib.sha256_hex key))
