-- ===== src/Oauth/Change.antt =====
-- What each action of applyAdminAction in internal/oauthserver/admin.go changes in memory. The
-- clock and the identifier that a device record may lack are arguments, and so is the hash of a
-- password.
use chat_with_cli.Base.{
  ℕ, Str, List, [], ◌∷◌, ◌++◌, Option, none, some, Bool, true, false, ◌&&◌, ◌||◌, not, is_empty,
  ◌==◌, nat_eq, str_eq, trim_space, if◌then◌else◌,
}
use chat_with_cli.Base.Map
use chat_with_cli.Oauth.Platform.{Platform}
use chat_with_cli.Oauth.State.{Server, User, TokenRecord, Mode}
use chat_with_cli.Oauth.Resource.{validate_device_route}
use chat_with_cli.Oauth.Token.{reset_agent_session, revoke_family}
use chat_with_cli.Oauth.Device.{ensure_device_record, valid_display_name}
use chat_with_cli.Oauth.Revoke.{
  reset_route, reset_owned, reset_all, delete_user_sessions, revoke_user_credentials, revoke_client,
  revoke_device_clients, revoke_device_tokens,
}
use chat_with_cli.Usage.{ensure_usage_record}
use chat_with_cli.Oauth.Persist.{is_public}
use chat_with_cli.Oauth.State.{unix}
use chat_with_cli.Base.{ℕ, leb, trim_space, not}
use chat_with_cli.Oauth.Policy.{
  bad_password, valid_password, bad_username, username_taken, user_limit, AdminError,
  cannot_delete_self, invalid_action, rewards_not_ready, same_mode, unknown_client, unknown_device,
  unknown_session, unknown_token, unknown_user, valid_opaque_handle,
}

-- What an action comes to before it is saved.
pub data Changed : Type 0 where
  changed : Server → Changed
  failed : AdminError → Changed

unfoldable pub change_mode : Server → Option Mode → Changed
change_mode s none = failed invalid_action
change_mode s (some m) =
    if s.mode_configured || same_mode m s.mode
    then failed invalid_action
    else changed (record s { mode = m; registration_enabled = false })

unfoldable pub change_registration : Server → Option Bool → Changed
change_registration s none = failed invalid_action
change_registration s (some b) =
    if not (is_public s.mode) || s.registration_disabled
    then failed invalid_action
    else changed (record s { registration_enabled = b })

unfoldable pub change_dcr : Server → Option Bool → Changed
change_dcr s none = failed invalid_action
change_dcr s (some b) = changed (record s { dcr_enabled = b })

unfoldable pub change_mcp : Server → Option Bool → Changed
change_mcp s none = failed invalid_action
change_mcp s (some true) = changed (record s { mcp_enabled = true })
change_mcp s (some false) = changed (reset_all (record s { mcp_enabled = false }))

unfoldable pub change_agent : Server → Option Bool → Changed
change_agent s none = failed invalid_action
change_agent s (some true) = changed (record s { agent_enabled = true })
change_agent s (some false) = changed (reset_all (record s { agent_enabled = false }))

unfoldable pub ensure_each : Server → List Str → Server
ensure_each s [] = s
ensure_each s (id ∷ ids) = (ensure_usage_record (ensure_each s ids) id).0

unfoldable pub change_usage : Server → Option Bool → Changed
unfolding ensure_each
change_usage s none = failed invalid_action
change_usage s (some false) =
    changed (record s { usage_metering_enabled = false; usage_configured = true })
change_usage s (some true) = changed (
    ensure_each (record s { usage_metering_enabled = true; usage_configured = true })
      (Map.keys s.users))

unfoldable pub change_reward : Server → Option Bool → Changed
change_reward s none = failed invalid_action
change_reward s (some b) =
    if b
      && (not s.usage_metering_enabled
          || is_empty (trim_space s.admob_app_id)
          || is_empty (trim_space s.admob_reward_unit_id)
          || is_empty (trim_space s.usage_unlock_endpoint)
          || is_empty (trim_space s.admob_verifier_secret))
    then failed rewards_not_ready
    else changed (record s { usage_unlock_enabled = b; monetization_configured = true })

unfoldable pub change_kill_switch : Server → Option Bool → Changed
change_kill_switch s none = failed invalid_action
change_kill_switch s (some false) = changed (record s { kill_switch = false })
change_kill_switch s (some true) = changed (reset_all (record s { kill_switch = true }))

-- A switch of one user; the tokens of a disabled one go.
unfoldable pub switch_user : Server → Str → User → Bool → Server
switch_user s target user b =
    let t = record s { users = Map.put s.users target (record user { disabled = b }) } in
    if b then revoke_user_credentials (reset_owned t target) target else t

unfoldable pub change_user : Server → User → Str → Option User → Option Bool → Changed
unfolding switch_user
change_user s current target none o = failed unknown_user
change_user s current target (some user) none =
    if user.id == current.id then failed unknown_user else failed invalid_action
change_user s current target (some user) (some b) =
    if user.id == current.id then failed unknown_user else changed (switch_user s target user b)

unfoldable pub rotate_user : Server → Str → Str → Option User → Changed
rotate_user s target hash none = failed unknown_user
rotate_user s target hash (some user) =
    if user.disabled
    then failed unknown_user
    else changed (
        revoke_user_credentials
          (reset_owned
            (record s { users = Map.put s.users target (record user { password_hash = hash }) })
            target)
          target)

unfoldable pub change_sessions : Server → Str → Option User → Changed
change_sessions s target none = failed unknown_user
change_sessions s target (some user) = changed (delete_user_sessions s target)

unfoldable pub end_session : Server → Str → Bool → Changed
end_session s target found =
    if not (valid_opaque_handle target) || not found
    then failed unknown_session
    else changed (record s { sessions = Map.remove s.sessions target })

unfoldable pub end_invite : Server → Str → Bool → Changed
end_invite s target found =
    if not (valid_opaque_handle target) || not found
    then failed invalid_action
    else changed (record s { invites = Map.remove s.invites target })

-- The first table that knows the token.
abbrev pub first_of : Option TokenRecord → Option TokenRecord → Option TokenRecord
first_of none o = o
first_of (some r) o = some r

abbrev pub owner_is : Option Str → Str → Bool
owner_is none user = false
owner_is (some owner) user = owner == user

abbrev pub max_users : ℕ
max_users = 4096

-- The identifier, the stamp and the hash of a new account.
unfoldable pub new_user : Str → Str → Str → ℕ → User
new_user id username hash now = record {
  id = id;
  username = trim_space username;
  password_hash = hash;
  created_at = unix now;
  last_login_at = 0;
  admin = false;
  disabled = false;
}

unfoldable pub add_user : Server → Str → User → Server
add_user s normalized user =
    let t = record s {
      users = Map.put s.users user.id user;
      usernames = Map.put s.usernames normalized user.id;
    } in
    if t.usage_metering_enabled then (ensure_usage_record t user.id).0 else t

-- createUserLocked for an account that is no administrator
unfoldable pub create_account : Server → Str → Str → Str → Str → ℕ → Option Str → Changed
unfolding new_user add_user
create_account s username password hash new_id now none = failed bad_username
create_account s username password hash new_id now (some normalized) =
    if Map.has s.usernames normalized
    then failed username_taken
    else if leb max_users (Map.size s.users)
    then failed user_limit
    else if not (valid_password password)
    then failed bad_password
    else changed (add_user s normalized (new_user new_id username hash now))

module _ (lib : Platform) where
  -- A device is enabled or disabled; the tokens and requests for a disabled one go.
  unfoldable pub switch_device : Server → Str → Str → Bool → Str → ℕ → Server
  switch_device s device owner b new_id now =
      let (t, r) =
        ensure_device_record (record s { disabled_devices = Map.put s.disabled_devices device b })
          device owner new_id now in
      let u = record t {
        device_records = Map.put t.device_records device (record r { disabled = b });
      } in
      if b then revoke_device_tokens lib (reset_route u device) device else u

  unfoldable pub change_device : Server → Str → Option Str → Option Bool → Str → ℕ → Changed
  unfolding switch_device
  change_device s device none o new_id now = failed unknown_device
  change_device s device (some owner) none new_id now = failed invalid_action
  change_device s device (some owner) (some b) new_id now =
      changed (switch_device s device owner b new_id now)

  unfoldable pub retire_device : Server → Str → Server
  retire_device s device =
      let t = reset_route s device in
      revoke_device_clients lib
        (revoke_device_tokens lib
          (record t {
            retired_devices = Map.put t.retired_devices device true;
            devices = Map.remove t.devices device;
            disabled_devices = Map.remove t.disabled_devices device;
            device_records = Map.remove t.device_records device;
          })
          device)
        device

  unfoldable pub retire_known : Server → Str → Option Str → Changed
  unfolding retire_device
  retire_known s device none = failed unknown_device
  retire_known s device (some owner) = changed (retire_device s device)

  unfoldable pub rename_known : Server → Str → Str → Option Str → Str → ℕ → Changed
  rename_known s device value none new_id now = failed unknown_device
  rename_known s device value (some owner) new_id now =
      let (t, r) = ensure_device_record s device owner new_id now in
      changed (record t {
        device_records =
            Map.put t.device_records device (record r { display_name = trim_space value });
      })

  -- One device of an account that is deleted.
  unfoldable pub retire_owned : Server → Str → Server
  retire_owned s device =
      let t = reset_route s device in
      let u =
        revoke_device_clients lib
          (revoke_device_tokens lib
            (record t { retired_devices = Map.put t.retired_devices device true }) device)
          device in
      record u {
        devices = Map.remove u.devices device;
        disabled_devices = Map.remove u.disabled_devices device;
        device_records = Map.remove u.device_records device;
      }

  unfoldable pub retire_each : Server → List Str → Server
  unfolding retire_owned
  retire_each s [] = s
  retire_each s (device ∷ devices) = retire_owned (retire_each s devices) device

  abbrev pub is_owned : Server → Str → Str → Bool
  is_owned s device user = owner_is (Map.get s.devices device) user

  -- The devices that a user owns, by their owner or by their record.
  unfoldable pub devices_of : Server → Str → List Str
  devices_of s user =
      Map.keys (Map.retain (λ _ owner. owner == user) s.devices)
      ++ Map.keys
          (Map.retain (λ k r. r.owner_id == user && not (is_owned s k user)) s.device_records)

  unfoldable pub delete_account : Server → Str → Server
  unfolding retire_each devices_of
  delete_account s user =
      let t = record s {
        users = Map.remove s.users user;
        usernames = Map.retain (λ _ id. not (id == user)) s.usernames;
      } in
      let u = revoke_user_credentials (retire_each t (devices_of t user)) user in
      record u { usage = Map.remove u.usage user; usage_dirty = true }

  unfoldable pub delete_known : Server → User → Str → Option User → Changed
  unfolding delete_account
  delete_known s current target none =
      if target == current.id then failed cannot_delete_self else failed unknown_user
  delete_known s current target (some user) =
      if target == current.id then failed cannot_delete_self else changed (delete_account s target)

  unfoldable pub end_client : Server → Str → Bool → Changed
  end_client s target found =
      if not found then failed unknown_client else changed (revoke_client lib s target)

  unfoldable pub end_family : Server → Option TokenRecord → Changed
  end_family s none = failed unknown_token
  end_family s (some r) =
      changed (revoke_family lib (reset_agent_session lib s r.resource) r.family)

  unfoldable pub end_token : Server → Str → Changed
  unfolding end_family
  end_token s target =
      if not (valid_opaque_handle target)
      then failed unknown_token
      else end_family s (
          first_of (Map.get s.refresh target)
            (first_of (Map.get s.refresh_used target) (Map.get s.access target)))

  unfoldable pub rename : Server → Str → Str → Str → ℕ → Changed
  unfolding rename_known
  rename s target value new_id now =
      if not (validate_device_route target) || not (valid_display_name lib value)
      then failed invalid_action
      else rename_known s target value (Map.get s.devices target) new_id now
