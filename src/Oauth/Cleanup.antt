-- ===== src/Oauth/Cleanup.antt =====
-- cleanupLocked of internal/oauthserver/server.go: what every request drops before it reads state.
pub mod Tokens
use chat_with_cli.Base.{
  ℕ, ◌-◌, ◌*◌, Str, Option, none, some, Bool, true, false, ◌&&◌, ◌||◌, not, is_empty, ltb, leb,
  ◌==◌, nat_eq, if◌then◌else◌,
}
use chat_with_cli.Base.Map
use chat_with_cli.Base.Map.{Map}
use chat_with_cli.Oauth.Platform.{Platform}
use chat_with_cli.Oauth.State.{
  Server, Client, TokenRecord, SessionRecord, PendingAuth, AuthCode, InviteRecord,
  ActivationCodeRecord, unix, second, hour,
}
use chat_with_cli.Oauth.Resource.{Parts, resource_parts}
use chat_with_cli.Oauth.Access.{
  active_user, client_id_matches, client_approved, ownership_intact, required_scope, is_set,
  record_enabled,
}

-- The client is registered under its ID.
client_known : Str → Option Client → Bool
unfolding client_id_matches
client_known id none = false
client_known id (some client) = client_id_matches id client

-- An unapproved client is dropped an hour after it was issued.
unfoldable pub is_stale : ℕ → Client → Bool
is_stale now client = not client.approved && ltb hour (now - client.issued_at * second)

client_stale : ℕ → Option Client → Bool
unfolding is_stale
client_stale now none = false
client_stale now (some client) = is_stale now client

unfoldable pub invite_live : ℕ → InviteRecord → Bool
invite_live now r = not (leb r.expires (unix now) || r.uses_remaining == 0)

unfoldable pub activation_live : ℕ → ActivationCodeRecord → Bool
activation_live now r = not (leb r.expires (unix now) || r.uses_remaining == 0)

unfoldable pub reward_live : ℕ → ℕ → Bool
reward_live now expires = not (leb expires (unix now))

session_live : Server → ℕ → SessionRecord → Bool
session_live s now r = not (leb r.expires (unix now) || not (active_user s r.user_id))

parts_disabled : Server → Option Parts → Bool
unfolding record_enabled
parts_disabled s none = true
parts_disabled s (some p) =
    is_set s.disabled_devices p.device
    || is_set s.retired_devices p.device
    || not (record_enabled (Map.get s.device_records p.device))

module _ (lib : Platform) where
  unfoldable pub token_live : Server → ℕ → TokenRecord → Bool
  unfolding client_approved
  token_live s now r =
      not (leb r.expires (unix now))
      && active_user s r.user_id
      && client_approved r.client_id (Map.get s.clients r.client_id)
      && ownership_intact lib s r.user_id r.resource (required_scope lib s r.resource)

  unfoldable pub pending_live : Server → ℕ → PendingAuth → Bool
  unfolding client_known parts_disabled
  pending_live s now p =
      not (ltb p.expires now)
      && client_known p.client_id (Map.get s.clients p.client_id)
      && (is_empty p.user_id || active_user s p.user_id)
      && not (parts_disabled s (resource_parts lib s p.resource))

  unfoldable pub code_live : Server → ℕ → AuthCode → Bool
  unfolding client_approved
  code_live s now c =
      not (ltb c.expires now)
      && client_approved c.client_id (Map.get s.clients c.client_id)
      && active_user s c.user_id
      && ownership_intact lib s c.user_id c.resource (required_scope lib s c.resource)

  -- Each loop reads the maps that the loops before it leave as they are, so one record says it all.
  unfoldable pub cleanup : Server → ℕ → Server
  unfolding activation_live invite_live reward_live session_live client_stale is_stale
  cleanup s now =
      let codes = Map.retain (λ _ r. activation_live now r) s.activation_codes in
      let rewards = Map.retain (λ _ e. reward_live now e) s.redeemed_rewards in
      let sessions = Map.retain (λ _ r. session_live s now r) s.sessions in
      record s {
        invites = Map.retain (λ _ r. invite_live now r) s.invites;
        activation_codes = codes;
        redeemed_rewards = rewards;
        usage_dirty =
            s.usage_dirty
            || ltb (Map.size codes) (Map.size s.activation_codes)
            || ltb (Map.size rewards) (Map.size s.redeemed_rewards);
        access = Map.retain (λ _ r. token_live s now r) s.access;
        refresh = Map.retain (λ _ r. token_live s now r) s.refresh;
        refresh_used = Map.retain (λ _ r. token_live s now r) s.refresh_used;
        sessions = sessions;
        ephemeral_sessions = Map.retain (λ k _. Map.has sessions k) s.ephemeral_sessions;
        pending =
            Map.retain
              (λ _ p.
                pending_live s now p && not (client_stale now (Map.get s.clients p.client_id)))
              s.pending;
        codes =
            Map.retain
              (λ _ c. code_live s now c && not (client_stale now (Map.get s.clients c.client_id)))
              s.codes;
        clients = Map.retain (λ _ c. not (is_stale now c)) s.clients;
      }
