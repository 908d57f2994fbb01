-- ===== src/Oauth/Revoke.antt =====
-- What internal/oauthserver/admin.go and server.go take away together: the sessions, tokens and
-- requests of an account, a client or a device.
use chat_with_cli.Base.{
  Str, List, [], ◌∷◌, ◌++◌, Option, none, some, Bool, false, ◌&&◌, not, ◌==◌, str_eq, has_prefix,
  trim_prefix, if◌then◌else◌,
}
use chat_with_cli.Base.Map
use chat_with_cli.Oauth.Platform.{Platform}
use chat_with_cli.Oauth.State.{Server, Client, TokenRecord, SessionRecord}
use chat_with_cli.Oauth.Resource.{Parts, id_prefix, resource_parts}
use chat_with_cli.Oauth.Token.{reset_agent_session}

-- agentSessionResetterSafe
unfoldable pub reset_route : Server → Str → Server
reset_route s device = if s.resetter_set then record s { resets = device ∷ s.resets } else s

-- resetOwnedAgentSessionsLocked
unfoldable pub reset_owned : Server → Str → Server
reset_owned s user =
    if s.resetter_set
    then record s {
      resets = Map.keys (Map.retain (λ _ owner. owner == user) s.devices) ++ s.resets;
    }
    else s

-- resetAllAgentSessionsLocked
unfoldable pub reset_all : Server → Server
reset_all s = if s.resetter_set then record s { resets = Map.keys s.devices ++ s.resets } else s

session_of : Str → Option SessionRecord → Bool
session_of user none = false
session_of user (some r) = r.user_id == user

-- deleteUserSessionsLocked
unfoldable pub delete_user_sessions : Server → Str → Server
unfolding session_of
delete_user_sessions s user = record s {
  sessions = Map.retain (λ _ r. not (r.user_id == user)) s.sessions;
  ephemeral_sessions =
      Map.retain (λ k _. not (session_of user (Map.get s.sessions k))) s.ephemeral_sessions;
}

-- revokeUserCredentialsLocked
unfoldable pub revoke_user_credentials : Server → Str → Server
unfolding delete_user_sessions
revoke_user_credentials s user =
    let t = delete_user_sessions s user in
    record t {
      codes = Map.retain (λ _ c. not (c.grant.user_id == user)) t.codes;
      pending = Map.retain (λ _ p. not (p.user_id == user)) t.pending;
      access = Map.retain (λ _ r. not (r.user_id == user)) t.access;
      refresh = Map.retain (λ _ r. not (r.user_id == user)) t.refresh;
      refresh_used = Map.retain (λ _ r. not (r.user_id == user)) t.refresh_used;
    }

module _ (lib : Platform) where
  unfoldable pub reset_held : Server → Str → Option TokenRecord → Server
  unfolding reset_agent_session
  reset_held s client none = s
  reset_held s client (some r) =
      if r.client_id == client then reset_agent_session lib s r.resource else s

  -- The sessions that hold a token of the client are reset.
  unfoldable pub reset_client : Server → Str → List Str → Map.Map TokenRecord → Server
  unfolding reset_held
  reset_client s client [] m = s
  reset_client s client (k ∷ keys) m =
      reset_held (reset_client s client keys m) client (Map.get m k)

  -- revokeClientLocked
  unfoldable pub revoke_client : Server → Str → Server
  unfolding reset_client
  revoke_client s client =
      let a = reset_client s client (Map.keys s.access) s.access in
      let t = reset_client a client (Map.keys s.refresh) s.refresh in
      record t {
        clients = Map.remove t.clients client;
        access = Map.retain (λ _ r. not (r.client_id == client)) t.access;
        refresh = Map.retain (λ _ r. not (r.client_id == client)) t.refresh;
        refresh_used = Map.retain (λ _ r. not (r.client_id == client)) t.refresh_used;
        pending = Map.retain (λ _ p. not (p.client_id == client)) t.pending;
        codes = Map.retain (λ _ c. not (c.grant.client_id == client)) t.codes;
      }

  unfoldable pub client_proved : Str → Option Client → Bool
  client_proved id none = false
  client_proved id (some c) = c.device_key_verified && c.device_id == id

  unfoldable pub revoke_clients : Server → Str → List Str → Server
  unfolding client_proved
  revoke_clients s id [] = s
  revoke_clients s id (k ∷ keys) =
      let t = revoke_clients s id keys in
      if client_proved id (Map.get s.clients k) then revoke_client t k else t

  -- revokeDeviceClientsLocked
  unfoldable pub revoke_device_clients : Server → Str → Server
  unfolding revoke_clients
  revoke_device_clients s device =
      if not (has_prefix device id_prefix)
      then s
      else revoke_clients s (trim_prefix device id_prefix) (Map.keys s.clients)

  unfoldable pub parts_use : Option Parts → Str → Bool
  parts_use none device = false
  parts_use (some p) device = p.device == device

  -- resourceUsesDevice
  unfoldable pub resource_uses_device : Server → Str → Str → Bool
  unfolding parts_use
  resource_uses_device s resource device = parts_use (resource_parts lib s resource) device

  -- revokeDeviceTokensLocked
  unfoldable pub revoke_device_tokens : Server → Str → Server
  unfolding resource_uses_device
  revoke_device_tokens s device = record s {
    pending = Map.retain (λ _ p. not (resource_uses_device s p.resource device)) s.pending;
    codes = Map.retain (λ _ c. not (resource_uses_device s c.grant.resource device)) s.codes;
    access = Map.retain (λ _ r. not (resource_uses_device s r.resource device)) s.access;
    refresh = Map.retain (λ _ r. not (resource_uses_device s r.resource device)) s.refresh;
    refresh_used =
        Map.retain (λ _ r. not (resource_uses_device s r.resource device)) s.refresh_used;
  }
