-- ===== src/Oauth/Authorize.antt =====
-- The grant of an authorization in internal/oauthserver/server.go. The readings of the clock and
-- the drawn code and identifier are arguments.
pub mod Cases
pub mod Owners
pub mod Held
pub mod Owned
use chat_with_cli.Base.{
  ℕ, ◌+◌, ◌*◌, Str, List, [], ◌∷◌, Option, none, some, Bool, true, false, ◌&&◌, ◌||◌, not, any,
  is_empty, ltb, leb, ◌==◌, nat_eq, str_eq, trim_space, trim_prefix, has_prefix, if◌then◌else◌,
}
use chat_with_cli.Base.Map
use chat_with_cli.Protocol.{normalize_device_id}
use chat_with_cli.Oauth.Platform.{Platform}
use chat_with_cli.Oauth.State.{
  Server, Client, User, DeviceRecord, PendingAuth, AuthCode, Mode, public_mode, private_mode,
  minute,
}
use chat_with_cli.Oauth.Resource.{Kind, mcp, agent, Parts, id_prefix, resource_parts}
use chat_with_cli.Oauth.Access.{client_id_matches, is_set}
use chat_with_cli.Oauth.Persist.{is_public}
use chat_with_cli.Oauth.Device.{
  text_of, record_of, ensure_device_record, display_name_hint, decode_public_key,
  id_from_public_key,
}

abbrev pub max_devices_user : ℕ
max_devices_user = 16

unfoldable pub is_agent : Kind → Bool
is_agent mcp = false
is_agent agent = true

-- Client, as a map of Go reads a key it does not hold.
abbrev zero_client : Client
zero_client = record {
  id = [];
  name = [];
  redirect_uris = [];
  device_id = [];
  device_public_key = [];
  device_key_verified = false;
  issued_at = 0;
  approved = false;
}

abbrev client_of : Option Client → Client
client_of none = zero_client
client_of (some c) = c

-- What the server draws and reads from the clock in one grant.
pub record Moment : Type 0 where
  pub now : ℕ
  pub made : ℕ
  pub later : ℕ
  pub device_id : Str
  pub code : Str

unfoldable pub user_may : Option User → Bool
user_may none = false
user_may (some u) = not (is_empty u.id) && not u.disabled

abbrev pub with_key : DeviceRecord → Str → DeviceRecord
with_key r [] = r
with_key r (c ∷ k) = record r { device_public_key = c ∷ k }

-- The first claim of a device by an account.
unfoldable pub claim_device : Server → Str → Str → Str → Moment → Server
claim_device s user device key m =
    let (t, r) =
      ensure_device_record (record s { devices = Map.put s.devices device user }) device user
        m.device_id m.made in
    record t {
      device_records =
          Map.put t.device_records device (with_key (record r { owner_id = user }) key);
    }

-- An owner's Agent proves a key again.
unfoldable pub rebind_device : Server → Str → Str → Str → Moment → Server
rebind_device s user device [] m = s
rebind_device s user device (c ∷ k) m =
    let (t, r) = ensure_device_record s device user m.device_id m.made in
    record t {
      device_records = Map.put t.device_records device (record r { device_public_key = c ∷ k });
    }

unfoldable pub owned_devices : Server → Str → ℕ
owned_devices s user = Map.size (Map.retain (λ _ owner. owner == user) s.devices)

authorize_agent : Server → Str → Str → Str → Str → Moment → Option Server
unfolding claim_device rebind_device owned_devices
authorize_agent s user device owner key m =
    if is_empty owner
    then (if is_public s.mode && not (has_prefix device id_prefix)
        then none
        else if leb max_devices_user (owned_devices s user)
        then none
        else some (claim_device s user device key m))
    else if not (owner == user)
    then none
    else some (rebind_device s user device key m)

-- The tests on the device and its record, then the two kinds.
authorize_device : Server → Str → Parts → Str → DeviceRecord → Str → Moment → Option Server
unfolding authorize_agent
authorize_device s user p owner r key m =
    if not (is_empty r.owner_id) && not (is_empty owner) && not (r.owner_id == owner)
    then none
    else if is_empty owner && not (is_empty r.owner_id)
    then none
    else if r.disabled
    then none
    else if is_agent p.kind
    then authorize_agent s user p.device owner key m
    else if not (owner == user)
    then none
    else some s

authorize_key : Server → Str → Parts → Option Str → Moment → Option Server
unfolding authorize_device
authorize_key s user p none m = none
authorize_key s user p (some key) m =
    if s.persistence_fault
    then none
    else if s.kill_switch
        || (not (is_agent p.kind) && not s.mcp_enabled)
        || (is_agent p.kind && not s.agent_enabled)
    then none
    else if not (is_agent p.kind) && is_empty p.device
    then some s
    else if is_set s.retired_devices p.device || is_set s.disabled_devices p.device
    then none
    else authorize_device s user p (text_of (Map.get s.devices p.device))
        (record_of (Map.get s.device_records p.device)) key m

module _ (lib : Platform) where
  -- The key that the client proved, against the identifier and the record's key.
  proved_key : Str → Str → Option Str → Option Str
  proved_key id bound none = none
  proved_key id bound (some key) = elim (id_from_public_key lib key) [
    | none ↦ none
    | some derived ↦
        if not (derived == id)
        then none
        else if not (is_empty bound) && not (bound == lib.base64_encode key)
        then none
        else some (lib.base64_encode key)
  ]

  identity_key : Server → Client → Str → Option Str → Option Str
  unfolding proved_key
  identity_key s client device none = none
  identity_key s client device (some id) =
      let r = record_of (Map.get s.device_records device) in
      let encoded = trim_space client.device_public_key in
      if not (is_empty encoded) && (not client.device_key_verified || not (client.device_id == id))
      then none
      else if is_empty encoded
      then (if is_empty (text_of (Map.get s.devices device)) || not (is_empty r.device_public_key)
          then none
          else some [])
      else proved_key id r.device_public_key (decode_public_key lib encoded)

  -- validateAgentDeviceKeyLocked on the parts of the resource; `none` is an error.
  unfoldable pub validate_agent_device_key : Server → Str → Parts → Option Str
  unfolding identity_key
  validate_agent_device_key s client p =
      if not (is_agent p.kind) || not (has_prefix p.device id_prefix)
      then some []
      else identity_key s (client_of (Map.get s.clients client)) p.device
          (normalize_device_id (trim_prefix p.device id_prefix))

  authorize_parts : Server → Str → Str → Option Parts → Moment → Option Server
  unfolding authorize_key user_may validate_agent_device_key
  authorize_parts s user client none m = none
  authorize_parts s user client (some p) m =
      if not (user_may (Map.get s.users user))
      then none
      else authorize_key s user p (validate_agent_device_key s client p) m

  -- authorizeResourceLocked: an error, `none`, comes before any change.
  unfoldable pub authorize_resource : Server → Str → Str → Str → Moment → Option Server
  unfolding authorize_parts
  authorize_resource s user client resource m =
      authorize_parts s user client (resource_parts lib s resource) m
