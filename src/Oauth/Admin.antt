-- ===== src/Oauth/Admin.antt =====
-- The actions of internal/oauthserver/admin.go. The hash of a password, the clock and the
-- identifier that a device record may lack are arguments.
pub mod Below
pub mod Reducing
pub mod Retiring
pub mod Permitted
pub mod Proved
pub mod Recovery
pub mod Done
pub mod Gate
pub mod Credentials
pub mod Fewer
pub mod Revoked
use chat_with_cli.Base.{
  ℕ, Str, List, [], ◌∷◌, ◌++◌, ◌⊎◌, inl, inr, Option, none, some, Bool, true, false, ◌&&◌, ◌||◌,
  not, codes, is_empty, all, length, leb, ltb, ◌==◌, nat_eq, str_eq, trim_space, to_lower,
  if◌then◌else◌,
}
use chat_with_cli.Base.Map
use chat_with_cli.Oauth.Platform.{Platform}
use chat_with_cli.Oauth.State.{
  Server, User, TokenRecord, DeviceRecord, Mode, public_mode, private_mode,
}
use chat_with_cli.Oauth.Resource.{validate_device_route}
use chat_with_cli.Oauth.Token.{reset_agent_session, revoke_family}
use chat_with_cli.Oauth.Device.{ensure_device_record, valid_display_name}
use chat_with_cli.Oauth.Invite.{live_admin}
use chat_with_cli.Oauth.Snapshot.{snapshot}
use chat_with_cli.Oauth.Persist.{Outcome, SaveError, save_or_rollback, save_recovery_or_rollback}
use chat_with_cli.Oauth.Revoke.{
  reset_route, reset_owned, reset_all, delete_user_sessions, revoke_user_credentials, revoke_client,
  revoke_device_clients, revoke_device_tokens,
}
use chat_with_cli.Usage.{ensure_usage_record}
use chat_with_cli.Oauth.Persist.{is_public}
use chat_with_cli.Oauth.State.{SessionRecord, unix, second, minute}
use chat_with_cli.Base.{ltb, leb, ◌*◌, ◌-◌, nat_eq, str_eq, ◌==◌, is_empty}
use chat_with_cli.Base.Map
use chat_with_cli.Oauth.Policy.{
  requires_fresh_auth, confirm_required, valid_confirmation, Action, AdminError, bad_password,
  cannot_delete_self, closes_mode, delete_user, disable_device, disable_user, invalid_action,
  is_hex, logout_all, logout_session, logout_user, normalize_mode, parse_toggle, recovery_allowed,
  recovery_only, rename_device, revoke_client_action, revoke_device, revoke_invite, revoke_token,
  rewards_not_ready, rotate_password, same_mode, set_agent, set_dcr, set_kill_switch, set_mcp,
  set_mode, set_registration, set_reward, set_usage, turns_to, unknown_client, unknown_device,
  unknown_session, unknown_token, unknown_user, valid_opaque_handle, valid_password,
}
use chat_with_cli.Oauth.Policy.{create_user, normalize_username}
use chat_with_cli.Oauth.Change.{
  create_account, Changed, change_agent, change_dcr, change_device, change_kill_switch, change_mcp,
  change_mode, change_registration, change_reward, change_sessions, change_usage, change_user,
  changed, delete_account, delete_known, devices_of, end_client, end_family, end_invite,
  end_session, end_token, ensure_each, failed, first_of, is_owned, owner_is, rename, rename_known,
  retire_device, retire_each, retire_known, retire_owned, rotate_user, switch_device, switch_user,
}

-- The replies of handleAdminAction.
pub data AdminReply : Type 0 where
  reauthenticate unconfirmed done : AdminReply
  refused : AdminError ⊎ SaveError → AdminReply

module _ (lib : Platform) where
  -- The switch of applyAdminAction, and the changes of rotate-password and create-user.
  unfoldable pub apply_change : Server → User → Action → Str → Str → Str → Str → ℕ → Changed
  unfolding change_mode change_registration change_dcr change_mcp change_agent change_usage
      change_reward change_kill_switch change_device retire_known rename change_user delete_known
      create_account change_sessions end_session end_client end_token end_invite rotate_user
  apply_change s current set_mode target value hash new_id now =
      change_mode s (normalize_mode value)
  apply_change s current set_registration target value hash new_id now =
      change_registration s (parse_toggle value)
  apply_change s current set_dcr target value hash new_id now = change_dcr s (parse_toggle value)
  apply_change s current set_mcp target value hash new_id now = change_mcp s (parse_toggle value)
  apply_change s current set_agent target value hash new_id now =
      change_agent s (parse_toggle value)
  apply_change s current set_usage target value hash new_id now =
      change_usage s (parse_toggle value)
  apply_change s current set_reward target value hash new_id now =
      change_reward s (parse_toggle value)
  apply_change s current set_kill_switch target value hash new_id now =
      change_kill_switch s (parse_toggle value)
  apply_change s current disable_device target value hash new_id now =
      change_device lib s target (Map.get s.devices target) (parse_toggle value) new_id now
  apply_change s current revoke_device target value hash new_id now =
      retire_known lib s target (Map.get s.devices target)
  apply_change s current rename_device target value hash new_id now =
      rename lib s target value new_id now
  apply_change s current disable_user target value hash new_id now =
      change_user s current target (Map.get s.users target) (parse_toggle value)
  apply_change s current delete_user target value hash new_id now =
      delete_known lib s current target (Map.get s.users target)
  apply_change s current logout_user target value hash new_id now =
      change_sessions s target (Map.get s.users target)
  apply_change s current logout_all target value hash new_id now =
      change_sessions s target (Map.get s.users target)
  apply_change s current logout_session target value hash new_id now =
      end_session s target (Map.has s.sessions target)
  apply_change s current revoke_client_action target value hash new_id now =
      end_client lib s target (Map.has s.clients target)
  apply_change s current revoke_token target value hash new_id now = end_token lib s target
  apply_change s current revoke_invite target value hash new_id now =
      end_invite s target (Map.has s.invites target)
  apply_change s current rotate_password target value hash new_id now =
      rotate_user s target hash (Map.get s.users target)
  apply_change s current create_user target value hash new_id now =
      create_account s target value hash new_id now (normalize_username target)

  -- The reply of an action.
  unfoldable pub saved_action : Server × Option SaveError → Server × Option (AdminError ⊎ SaveError)
  saved_action (s, none) = (s, none)
  saved_action (s, some e) = (s, some (inr e))

  unfoldable pub finish_action :
      Server → Bool → Changed → Outcome → Server × Option (AdminError ⊎ SaveError)
  unfolding saved_action
  finish_action s recovering (failed e) io = (s, some (inl e))
  finish_action s recovering (changed t) io = saved_action (
      if recovering
      then save_recovery_or_rollback t (snapshot s) io
      else save_or_rollback t (snapshot s) io)

  unfoldable pub bad_value : Action → Str → Bool
  bad_value rotate_password value = not (valid_password value)
  bad_value action value = false

  -- applyAdminAction but for grant-quota; `none` is a nil error.
  unfoldable pub apply_admin_action :
      Server
      → User
      → Action
      → Str
      → Str
      → Str
      → Str
      → ℕ
      → Outcome
      → Server × Option (AdminError ⊎ SaveError)
  unfolding apply_change finish_action bad_value
  apply_admin_action s current action target value hash new_id now io =
      if bad_value action value
      then (s, some (inl bad_password))
      else if not (live_admin s current)
      then (s, some (inl (if s.persistence_fault then recovery_only else invalid_action)))
      else if s.persistence_fault && not (recovery_allowed action value)
      then (s, some (inl recovery_only))
      else finish_action s s.persistence_fault
          (apply_change s current action target value hash new_id now) io

  fresh_record : Server → Option User → SessionRecord → ℕ → Bool
  fresh_record s none r now = false
  fresh_record s (some user) r now =
      user.id == r.user_id
      && not user.disabled
      && user.admin
      && ltb (unix now) r.expires
      && ltb 0 r.last_reauth_at
      && leb (r.last_reauth_at * second) now
      && leb (now - r.last_reauth_at * second) (15 * minute)

  fresh_session : Server → Option SessionRecord → ℕ → Bool
  unfolding fresh_record
  fresh_session s none now = false
  fresh_session s (some r) now = fresh_record s (Map.get s.users r.user_id) r now

  -- adminSessionFresh on the session cookie; without one it is empty.
  unfoldable pub admin_session_fresh : Server → Str → ℕ → Bool
  unfolding fresh_session
  admin_session_fresh s cookie now =
      if is_empty cookie
      then false
      else fresh_session s (Map.get s.sessions (lib.sha256_hex cookie)) now

  unfoldable pub action_reply : Server × Option (AdminError ⊎ SaveError) → Server × AdminReply
  action_reply (s, none) = (s, done)
  action_reply (s, some e) = (s, refused e)

  -- handleAdminAction once the administrator and the form have been read
  unfoldable pub handle_admin_action :
      Server → Str → User → Action → Str → Str → Str → Str → Str → ℕ → Outcome → Server × AdminReply
  unfolding action_reply
  handle_admin_action s cookie current action target value confirmation hash new_id now io =
      if requires_fresh_auth action value && not (admin_session_fresh s cookie now)
      then (s, reauthenticate)
      else if confirm_required action value && not (valid_confirmation action value confirmation)
      then (s, unconfirmed)
      else action_reply (apply_admin_action s current action target value hash new_id now io)
