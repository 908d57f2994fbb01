-- ===== src/Oauth/Admin/Permitted.antt =====
-- The actions that are permitted while authorization recovers, one by one in the order of Below.
use mathlib.Core.Path.{subst}
use chat_with_cli.Base.{
  ℕ, Str, Option, none, some, Bool, true, false, not, ◌≡◌, inl, inr, arith, ◌==◌, str_eq,
  Option-cases, Bool-cases,
}
use chat_with_cli.Base.Map
use chat_with_cli.Oauth.Platform.{Platform}
use chat_with_cli.Oauth.State.{Server, User, TokenRecord, Mode}
use chat_with_cli.Oauth.Token.{reset_agent_session}
use chat_with_cli.Oauth.Revoke.{revoke_user_credentials}
use chat_with_cli.Oauth.Admin.Below.{
  Below, Below-trans, reset_all-Below, reset_agent_session-Below, revoke_family-Below,
  delete_user_sessions-Below, revoke_user_credentials-Below, revoke_client-Below,
}
use chat_with_cli.Oauth.Admin.Done.{changed_inj, guarded_changed}
use chat_with_cli.Oauth.Admin.Reducing.{
  settings-Below, usage-Below, sessions-Below, off-Below, accounts-Below, user_removed-active,
  switch_user-Below, rotated-Below,
}
use chat_with_cli.Oauth.Admin.Retiring.{switch_device-Below, retire_device-Below, retire_each-Below}
use chat_with_cli.Oauth.Policy.{
  create_user, Action, closes_mode, delete_user, disable_device, disable_user, logout_all,
  logout_session, logout_user, normalize_mode, parse_toggle, recovery_allowed, rename_device,
  revoke_client_action, revoke_device, revoke_invite, revoke_token, rotate_password, set_agent,
  set_dcr, set_kill_switch, set_mcp, set_mode, set_registration, set_reward, set_usage, turns_to,
  valid_opaque_handle,
}
use chat_with_cli.Oauth.Change.{
  change_agent, change_dcr, change_device, change_kill_switch, change_mcp, change_mode,
  change_registration, change_reward, change_sessions, change_usage, change_user, changed,
  delete_account, delete_known, devices_of, end_client, end_family, end_invite, end_session,
  end_token, retire_each, retire_known, rotate_user,
}
use chat_with_cli.Oauth.Admin.{apply_change}

module _ (lib : Platform) where
  delete_account-Below : (s : Server) (user : Str) → Below lib (delete_account lib s user) s
  unfolding delete_account
  delete_account-Below s user =
      let n = Map.retain (λ _ id. not (id == user)) s.usernames in
      let t = record s { users = Map.remove s.users user; usernames = n } in
      let u = retire_each lib t (devices_of lib t user) in
      let v = revoke_user_credentials u user in
      Below-trans lib _ v s (usage-Below lib v (Map.remove v.usage user) true) (
        Below-trans lib v u s (revoke_user_credentials-Below lib u user) (
          Below-trans lib u t s (retire_each-Below lib t (devices_of lib t user))
            (accounts-Below lib s t.users n (user_removed-active lib s user n))))

  change_mode-Below :
      (s t : Server) (o : Option Mode)
      → closes_mode o ≡ true
      → change_mode s o ≡ changed t
      → Below lib t s
  unfolding change_mode
  change_mode-Below s t none k h = absurd (ground arith)
  change_mode-Below s t (some m) k h =
      subst (λ z. Below lib z s) (guarded_changed _ _ _ t h) (settings-Below lib s m _ _ _ _ _ _ _)

  change_registration-Below :
      (s t : Server) (o : Option Bool) → change_registration s o ≡ changed t → Below lib t s
  unfolding change_registration
  change_registration-Below s t none h = cc
  change_registration-Below s t (some b) h =
      subst (λ z. Below lib z s) (guarded_changed _ _ _ t h) (settings-Below lib s _ b _ _ _ _ _ _)

  change_dcr-Below : (s t : Server) (o : Option Bool) → change_dcr s o ≡ changed t → Below lib t s
  unfolding change_dcr
  change_dcr-Below s t none h = cc
  change_dcr-Below s t (some b) h =
      subst (λ z. Below lib z s) (changed_inj h) (settings-Below lib s _ _ b _ _ _ _ _)

  change_mcp-Below :
      (s t : Server) (o : Option Bool)
      → turns_to o false ≡ true
      → change_mcp s o ≡ changed t
      → Below lib t s
  unfolding change_mcp
  change_mcp-Below s t none k h = cc
  change_mcp-Below s t (some true) k h = cc
  change_mcp-Below s t (some false) k h =
      let u = record s { mcp_enabled = false } in
      subst (λ z. Below lib z s) (changed_inj h)
        (Below-trans lib _ u s (reset_all-Below lib u) (off-Below lib s false _ (λ e. cc) (λ e. e)))

  change_agent-Below :
      (s t : Server) (o : Option Bool)
      → turns_to o false ≡ true
      → change_agent s o ≡ changed t
      → Below lib t s
  unfolding change_agent
  change_agent-Below s t none k h = cc
  change_agent-Below s t (some true) k h = cc
  change_agent-Below s t (some false) k h =
      let u = record s { agent_enabled = false } in
      subst (λ z. Below lib z s) (changed_inj h)
        (Below-trans lib _ u s (reset_all-Below lib u) (off-Below lib s _ false (λ e. e) (λ e. cc)))

  change_usage-Below :
      (s t : Server) (o : Option Bool)
      → turns_to o false ≡ true
      → change_usage s o ≡ changed t
      → Below lib t s
  unfolding change_usage
  change_usage-Below s t none k h = cc
  change_usage-Below s t (some true) k h = cc
  change_usage-Below s t (some false) k h =
      subst (λ z. Below lib z s) (changed_inj h) (settings-Below lib s _ _ _ _ _ _ _ _)

  change_reward-Below :
      (s t : Server) (o : Option Bool) → change_reward s o ≡ changed t → Below lib t s
  unfolding change_reward
  change_reward-Below s t none h = cc
  change_reward-Below s t (some b) h =
      subst (λ z. Below lib z s) (guarded_changed _ _ _ t h) (settings-Below lib s _ _ _ _ _ b _ _)

  change_kill_switch-Below :
      (s t : Server) (o : Option Bool) → change_kill_switch s o ≡ changed t → Below lib t s
  unfolding change_kill_switch
  change_kill_switch-Below s t none h = cc
  change_kill_switch-Below s t (some false) h =
      subst (λ z. Below lib z s) (changed_inj h) (settings-Below lib s _ _ _ _ _ _ _ _)
  change_kill_switch-Below s t (some true) h =
      let u = record s { kill_switch = true } in
      subst (λ z. Below lib z s) (changed_inj h)
        (Below-trans lib _ u s (reset_all-Below lib u) (settings-Below lib s _ _ _ _ _ _ _ _))

  change_device-Below :
      (s t : Server) (device new_id : Str) (o : Option Str) (b : Option Bool) (now : ℕ)
      → turns_to b true ≡ true
      → change_device lib s device o b new_id now ≡ changed t
      → Below lib t s
  unfolding change_device
  change_device-Below s t device new_id none b now k h = cc
  change_device-Below s t device new_id (some owner) none now k h = cc
  change_device-Below s t device new_id (some owner) (some false) now k h = cc
  change_device-Below s t device new_id (some owner) (some true) now k h =
      subst (λ z. Below lib z s) (changed_inj h) (switch_device-Below lib s device owner new_id now)

  retire_known-Below :
      (s t : Server) (device : Str) (o : Option Str)
      → retire_known lib s device o ≡ changed t
      → Below lib t s
  unfolding retire_known
  retire_known-Below s t device none h = cc
  retire_known-Below s t device (some owner) h =
      subst (λ z. Below lib z s) (changed_inj h) (retire_device-Below lib s device)

  change_user-Below :
      (s t : Server) (current : User) (target : Str) (b : Option Bool)
      → turns_to b true ≡ true
      → change_user s current target (Map.get s.users target) b ≡ changed t
      → Below lib t s
  unfolding change_user
  change_user-Below s t current target none k h = cc
  change_user-Below s t current target (some false) k h = cc
  change_user-Below s t current target (some true) k h =
      elim (Option-cases (Map.get s.users target)) [
        | inl e ↦ (let z = (rw e at h) in cc)
        | inr (u, e) ↦
            subst (λ z. Below lib z s) (guarded_changed _ _ _ t (rw e at h))
              (switch_user-Below lib s target u e)
      ]

  rotate_user-Below :
      (s t : Server) (target hash : Str)
      → rotate_user s target hash (Map.get s.users target) ≡ changed t
      → Below lib t s
  unfolding rotate_user
  rotate_user-Below s t target hash h = elim (Option-cases (Map.get s.users target)) [
    | inl e ↦ (let z = (rw e at h) in cc)
    | inr (u, e) ↦
        subst (λ z. Below lib z s) (guarded_changed _ _ _ t (rw e at h))
          (rotated-Below lib s target hash u e)
  ]

  delete_known-Below :
      (s t : Server) (current : User) (target : Str) (o : Option User)
      → delete_known lib s current target o ≡ changed t
      → Below lib t s
  unfolding delete_known
  delete_known-Below s t current target none h = absurd (ground arith)
  delete_known-Below s t current target (some u) h =
      subst (λ z. Below lib z s) (guarded_changed _ _ _ t h) (delete_account-Below s target)

  change_sessions-Below :
      (s t : Server) (target : Str) (o : Option User)
      → change_sessions s target o ≡ changed t
      → Below lib t s
  unfolding change_sessions
  change_sessions-Below s t target none h = cc
  change_sessions-Below s t target (some u) h =
      subst (λ z. Below lib z s) (changed_inj h) (delete_user_sessions-Below lib s target)

  end_session-Below :
      (s t : Server) (target : Str) (found : Bool)
      → end_session s target found ≡ changed t
      → Below lib t s
  unfolding end_session
  end_session-Below s t target found h =
      subst (λ z. Below lib z s) (guarded_changed _ _ _ t h) (sessions-Below lib s _ _)

  end_invite-Below :
      (s t : Server) (target : Str) (found : Bool)
      → end_invite s target found ≡ changed t
      → Below lib t s
  unfolding end_invite
  end_invite-Below s t target found h =
      subst (λ z. Below lib z s) (guarded_changed _ _ _ t h) (sessions-Below lib s _ _)

  end_client-Below :
      (s t : Server) (target : Str) (found : Bool)
      → end_client lib s target found ≡ changed t
      → Below lib t s
  unfolding end_client
  end_client-Below s t target found h =
      subst (λ z. Below lib z s) (guarded_changed _ _ _ t h) (revoke_client-Below lib s target)

  end_family-Below :
      (s t : Server) (o : Option TokenRecord) → end_family lib s o ≡ changed t → Below lib t s
  unfolding end_family
  end_family-Below s t none h = cc
  end_family-Below s t (some r) h =
      let u = reset_agent_session lib s r.resource in
      subst (λ z. Below lib z s) (changed_inj h)
        (Below-trans lib _ u s (revoke_family-Below lib u r.family)
          (reset_agent_session-Below lib s r.resource))

  end_token-Below :
      (s t : Server) (target : Str) → end_token lib s target ≡ changed t → Below lib t s
  unfolding end_token
  end_token-Below s t target h = elim (Bool-cases (valid_opaque_handle target)) [
    | inl e ↦ end_family-Below s t _ (rw e at h)
    | inr e ↦ (let z = (rw e at h) in cc)
  ]

  -- Whatever recovery permits lets in no more than before.
  pub apply_change-Below :
      (s t : Server) (current : User) (action : Action) (target value hash new_id : Str) (now : ℕ)
      → recovery_allowed action value ≡ true
      → apply_change lib s current action target value hash new_id now ≡ changed t
      → Below lib t s
  unfolding apply_change recovery_allowed
  apply_change-Below s t current set_mode target value hash new_id now k h =
      change_mode-Below s t (normalize_mode value) k h
  apply_change-Below s t current set_registration target value hash new_id now k h =
      change_registration-Below s t (parse_toggle value) h
  apply_change-Below s t current set_dcr target value hash new_id now k h =
      change_dcr-Below s t (parse_toggle value) h
  apply_change-Below s t current set_mcp target value hash new_id now k h =
      change_mcp-Below s t (parse_toggle value) k h
  apply_change-Below s t current set_agent target value hash new_id now k h =
      change_agent-Below s t (parse_toggle value) k h
  apply_change-Below s t current set_usage target value hash new_id now k h =
      change_usage-Below s t (parse_toggle value) k h
  apply_change-Below s t current set_reward target value hash new_id now k h =
      change_reward-Below s t (parse_toggle value) h
  apply_change-Below s t current set_kill_switch target value hash new_id now k h =
      change_kill_switch-Below s t (parse_toggle value) h
  apply_change-Below s t current disable_device target value hash new_id now k h =
      change_device-Below s t target new_id (Map.get s.devices target) (parse_toggle value) now k h
  apply_change-Below s t current revoke_device target value hash new_id now k h =
      retire_known-Below s t target (Map.get s.devices target) h
  apply_change-Below s t current rename_device target value hash new_id now k h = cc
  apply_change-Below s t current disable_user target value hash new_id now k h =
      change_user-Below s t current target (parse_toggle value) k h
  apply_change-Below s t current delete_user target value hash new_id now k h =
      delete_known-Below s t current target (Map.get s.users target) h
  apply_change-Below s t current logout_user target value hash new_id now k h =
      change_sessions-Below s t target (Map.get s.users target) h
  apply_change-Below s t current logout_all target value hash new_id now k h =
      change_sessions-Below s t target (Map.get s.users target) h
  apply_change-Below s t current logout_session target value hash new_id now k h =
      end_session-Below s t target (Map.has s.sessions target) h
  apply_change-Below s t current revoke_client_action target value hash new_id now k h =
      end_client-Below s t target (Map.has s.clients target) h
  apply_change-Below s t current revoke_token target value hash new_id now k h =
      end_token-Below s t target h
  apply_change-Below s t current revoke_invite target value hash new_id now k h =
      end_invite-Below s t target (Map.has s.invites target) h
  apply_change-Below s t current rotate_password target value hash new_id now k h =
      rotate_user-Below s t target hash h
  apply_change-Below s t current create_user target value hash new_id now k h = cc
