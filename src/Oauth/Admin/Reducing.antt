-- ===== src/Oauth/Admin/Reducing.antt =====
-- What changes of settings and accounts do in the order of Below.
use chat_with_cli.Base.{Str, some, Bool, true, false, ◌≡◌, refl, arith, str_beq_iff, str_eq}
use chat_with_cli.Base.Map
use chat_with_cli.Oauth.Platform.{Platform}
use chat_with_cli.Oauth.State.{Server, User, UsageRecord, SessionRecord, InviteRecord, Mode}
use chat_with_cli.Oauth.Resource.{resource_parts, absolute}
use chat_with_cli.Oauth.Access.{active_user}
use chat_with_cli.Oauth.Revoke.{reset_owned, revoke_user_credentials}
use chat_with_cli.Oauth.Admin.Below.{
  Below, Below-trans, reset_owned-Below, revoke_user_credentials-Below,
}
use chat_with_cli.Oauth.Change.{switch_user}

module _ (lib : Platform) where
  -- What is no token, client, account or device may be anything.
  pub settings-Below :
      (s : Server) (m : Mode) (a b c d e f g : Bool)
      → Below lib
          (record s {
            mode = m;
            registration_enabled = a;
            dcr_enabled = b;
            usage_metering_enabled = c;
            usage_configured = d;
            usage_unlock_enabled = e;
            monetization_configured = f;
            kill_switch = g;
          })
          s
  unfolding resource_parts absolute active_user
  settings-Below s m a b c d e f g = record {
    parts = λ r. refl;
    tokens = λ k r h. h;
    clients = λ k c h. h;
    users = λ id h. h;
    mcp = λ h. h;
    agent = λ h. h;
    device = λ user d a b c. (a, b, c, λ h. h);
  }

  pub usage-Below :
      (s : Server) (m : Map.Map UsageRecord) (b : Bool)
      → Below lib (record s { usage = m; usage_dirty = b }) s
  unfolding resource_parts absolute active_user
  usage-Below s m b = record {
    parts = λ r. refl;
    tokens = λ k r h. h;
    clients = λ k c h. h;
    users = λ id h. h;
    mcp = λ h. h;
    agent = λ h. h;
    device = λ user d a b c. (a, b, c, λ h. h);
  }

  pub sessions-Below :
      (s : Server) (m : Map.Map SessionRecord) (n : Map.Map InviteRecord)
      → Below lib (record s { sessions = m; invites = n }) s
  unfolding resource_parts absolute active_user
  sessions-Below s m n = record {
    parts = λ r. refl;
    tokens = λ k r h. h;
    clients = λ k c h. h;
    users = λ id h. h;
    mcp = λ h. h;
    agent = λ h. h;
    device = λ user d a b c. (a, b, c, λ h. h);
  }

  -- A capability that is turned off.
  pub off-Below :
      (s : Server) (a b : Bool)
      → (a ≡ true → s.mcp_enabled ≡ true)
      → (b ≡ true → s.agent_enabled ≡ true)
      → Below lib (record s { mcp_enabled = a; agent_enabled = b }) s
  unfolding resource_parts absolute active_user
  off-Below s a b p q = record {
    parts = λ r. refl;
    tokens = λ k r h. h;
    clients = λ k c h. h;
    users = λ id h. h;
    mcp = p;
    agent = q;
    device = λ user d a b c. (a, b, c, λ h. h);
  }

  -- Accounts are replaced by ones that are no more active.
  pub accounts-Below :
      (s : Server) (m : Map.Map User) (n : Map.Map Str)
      → ((id : Str)
          → active_user (record s { users = m; usernames = n }) id ≡ true
          → active_user s id ≡ true)
      → Below lib (record s { users = m; usernames = n }) s
  unfolding resource_parts absolute
  accounts-Below s m n p = record {
    parts = λ r. refl;
    tokens = λ k r h. h;
    clients = λ k c h. h;
    users = p;
    mcp = λ h. h;
    agent = λ h. h;
    device = λ user d a b c. (a, b, c, λ h. h);
  }

  user_put-active :
      (s : Server) (target : Str) (u v : User) (id : Str)
      → Map.get s.users target ≡ some u
      → v.id ≡ u.id
      → (v.disabled ≡ false → u.disabled ≡ false)
      → active_user (record s { users = Map.put s.users target v }) id ≡ true
      → active_user s id ≡ true
  unfolding active_user
  user_put-active s target u v id e i d h =
      ground (arith, Map.get-put s.users target id v, str_beq_iff target id, str_beq_iff u.id id)

  pub user_removed-active :
      (s : Server) (target : Str) (n : Map.Map Str) (id : Str)
      → active_user (record s { users = Map.remove s.users target; usernames = n }) id ≡ true
      → active_user s id ≡ true
  unfolding active_user
  user_removed-active s target n id h =
      ground (arith, Map.get-remove s.users target id, str_beq_iff target id)

  pub switch_user-Below :
      (s : Server) (target : Str) (u : User)
      → Map.get s.users target ≡ some u
      → Below lib (switch_user s target u true) s
  unfolding switch_user
  switch_user-Below s target u e =
      let v = record u { disabled = true } in
      let t = record s { users = Map.put s.users target v } in
      Below-trans lib _ (reset_owned t target) s
        (revoke_user_credentials-Below lib (reset_owned t target) target)
        (Below-trans lib _ t s (reset_owned-Below lib t target) (
          accounts-Below s t.users s.usernames
            (λ id h. user_put-active s target u v id e refl (λ k. cc) h)))

  pub rotated-Below :
      (s : Server) (target hash : Str) (u : User)
      → Map.get s.users target ≡ some u
      → Below lib
          (revoke_user_credentials
            (reset_owned
              (record s { users = Map.put s.users target (record u { password_hash = hash }) })
              target)
            target)
          s
  rotated-Below s target hash u e =
      let v = record u { password_hash = hash } in
      let t = record s { users = Map.put s.users target v } in
      Below-trans lib _ (reset_owned t target) s
        (revoke_user_credentials-Below lib (reset_owned t target) target)
        (Below-trans lib _ t s (reset_owned-Below lib t target) (
          accounts-Below s t.users s.usernames
            (λ id h. user_put-active s target u v id e refl (λ k. k) h)))
