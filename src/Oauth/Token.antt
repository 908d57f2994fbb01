-- ===== src/Oauth/Token.antt =====
-- Tokens of internal/oauthserver/server.go: the exchange of codes and refresh tokens, rotation,
-- and revocation by family. Random tokens and the clock's readings are arguments.
pub mod Rotation
pub mod Issue
pub mod Exchange
pub mod Replay
pub mod Revocation
use chat_with_cli.Base.{
  ℕ, ◌+◌, ◌*◌, Str, ◌∷◌, Option, none, some, Bool, true, false, ◌&&◌, ◌||◌, not, is_empty, all,
  length, ltb, leb, ◌==◌, nat_eq, str_eq, trim_space, if◌then◌else◌,
}
use chat_with_cli.Base.Map
use chat_with_cli.Base.Map.{Map}
use chat_with_cli.Oauth.Platform.{Platform}
use chat_with_cli.Oauth.State.{Server, TokenRecord, AuthCode, unix, hour}
use chat_with_cli.Oauth.Resource.{Parts, resource_parts}
use chat_with_cli.Oauth.Access.{client_approved, owned_by_user, required_scope}
use chat_with_cli.Oauth.Cleanup.{cleanup}
use chat_with_cli.Oauth.Persist.{Outcome, SaveError, save}

-- The values that randomToken returns in one exchange.
pub record Draws : Type 0 where
  pub access : Str
  pub refresh : Str
  pub family : Str
  pub spare_family : Str

pub record CodeRequest : Type 0 where
  pub code : Str
  pub client_id : Str
  pub redirect_uri : Str
  pub resource : Str
  pub code_verifier : Str

pub record RefreshRequest : Type 0 where
  pub refresh_token : Str
  pub client_id : Str
  pub resource : Str

pub data Reply : Type 0 where
  granted : Str → Str → ℕ → Str → Reply
  invalid_grant invalid_target server_error : Reply

-- One byte of a code verifier. A rune beyond ASCII is refused, and so is each of its bytes.
unfoldable pub is_verifier_byte : ℕ → Bool
is_verifier_byte c =
    (leb b'A' c && leb c b'Z')
    || (leb b'a' c && leb c b'z')
    || (leb b'0' c && leb c b'9')
    || c == b'-'
    || c == b'.'
    || c == b'_'
    || c == b'~'

unfoldable pub valid_pkce_verifier : Str → Bool
valid_pkce_verifier v =
    if ltb (length v) 43 || ltb 128 (length v) then false else all is_verifier_byte v

decodes_to_digest : Option Str → Bool
decodes_to_digest none = false
decodes_to_digest (some d) = length d == 32

module _ (lib : Platform) where
  unfoldable pub valid_pkce_challenge : Str → Bool
  unfolding decodes_to_digest
  valid_pkce_challenge c =
      if not (length c == 43) then false else decodes_to_digest (lib.base64_decode c)

  unfoldable pub pkce_matches : Str → Str → Bool
  pkce_matches verifier challenge =
      if not (valid_pkce_verifier verifier) || not (valid_pkce_challenge challenge)
      then false
      else length (lib.sha256_base64 verifier) == length challenge
        && lib.sha256_base64 verifier == challenge

  -- resetAgentSessionForResourceLocked
  unfoldable pub reset_device : Server → Option Parts → Server
  reset_device s none = s
  reset_device s (some p) =
      if not (is_empty p.device) && s.resetter_set
      then record s { resets = p.device ∷ s.resets }
      else s

  unfoldable pub reset_agent_session : Server → Str → Server
  unfolding reset_device
  reset_agent_session s resource = reset_device s (resource_parts lib s resource)

  token_record : Str → Str → Str → Str → Str → ℕ → TokenRecord
  token_record client user resource scope family expires = record {
    client_id = client;
    user_id = user;
    resource = resource;
    scope = scope;
    family = family;
    expires = expires;
  }

  -- The two records of a new pair of tokens.
  add_tokens : Server → TokenRecord → ℕ → Draws → Server
  add_tokens s r now draws = record s {
    access =
        Map.put s.access (lib.sha256_hex draws.access) (record r { expires = unix (now + hour) });
    refresh =
        Map.put s.refresh (lib.sha256_hex draws.refresh)
          (record r { expires = unix (now + 30 * 24 * hour) });
  }

  drop_tokens : Server → Draws → Server
  drop_tokens s draws = record s {
    access = Map.remove s.access (lib.sha256_hex draws.access);
    refresh = Map.remove s.refresh (lib.sha256_hex draws.refresh);
  }

  issued : Draws → Server × Option SaveError → Server × Option (Str × Str × ℕ)
  unfolding drop_tokens
  issued draws (s, none) = (s, some (draws.access, draws.refresh, 3600))
  issued draws (s, some e) = (drop_tokens s draws, none)

  -- issueTokensInFamilyLocked; `none` is an error.
  unfoldable pub issue_tokens_in_family :
      Server → Str → Str → Str → Str → Str → ℕ → Draws → Outcome → Server × Option (Str × Str × ℕ)
  unfolding token_record add_tokens issued
  issue_tokens_in_family s client user resource scope family now draws io =
      let f = if is_empty family then draws.spare_family else family in
      issued draws (save (add_tokens s (token_record client user resource scope f 0) now draws) io)

  unfoldable pub issue_tokens :
      Server → Str → Str → Str → Str → ℕ → Draws → Outcome → Server × Option (Str × Str × ℕ)
  unfolding issue_tokens_in_family
  issue_tokens s client user resource scope now draws io =
      issue_tokens_in_family s client user resource scope draws.family now draws io

  reply_of : Str → Server × Option (Str × Str × ℕ) → Server × Reply
  reply_of scope (s, none) = (s, server_error)
  reply_of scope (s, some (access, refresh, expires)) = (s, granted access refresh expires scope)

  -- The checks of exchangeCode on a code that has been found and taken out.
  unfoldable pub code_bound : Server → CodeRequest → AuthCode → Bool
  code_bound s req c =
      client_approved c.client_id (Map.get s.clients c.client_id)
      && c.client_id == req.client_id
      && c.redirect_uri == req.redirect_uri
      && pkce_matches req.code_verifier c.code_challenge

  unfoldable pub redeem_code :
      Server → CodeRequest → AuthCode → ℕ → Draws → Outcome → Server × Reply
  unfolding issue_tokens reply_of
  redeem_code s req c now draws io =
      if not (code_bound s req c)
      then (s, invalid_grant)
      else if not (is_empty (trim_space req.resource))
          && not (trim_space req.resource == c.resource)
      then (s, invalid_target)
      else if not (owned_by_user lib s c.user_id c.resource (required_scope lib s c.resource))
      then (s, invalid_grant)
      else reply_of c.scope (issue_tokens s c.client_id c.user_id c.resource c.scope now draws io)

  found_code : Server → CodeRequest → Option AuthCode → ℕ → Draws → Outcome → Server × Reply
  found_code s req none now draws io = (s, invalid_grant)
  found_code s req (some c) now draws io =
      redeem_code (record s { codes = Map.remove s.codes (lib.sha256_hex req.code) }) req c now
        draws io

  unfoldable pub exchange_code : Server → CodeRequest → ℕ → ℕ → Draws → Outcome → Server × Reply
  unfolding found_code
  exchange_code s req start now draws io =
      let t = cleanup lib s start in
      found_code t req (Map.get t.codes (lib.sha256_hex req.code)) now draws io

  unfoldable pub revoke_family : Server → Str → Server
  revoke_family s family = if is_empty family then s else record s {
    access = Map.retain (λ _ r. not (r.family == family)) s.access;
    refresh = Map.retain (λ _ r. not (r.family == family)) s.refresh;
    refresh_used = Map.retain (λ _ r. not (r.family == family)) s.refresh_used;
  }

  -- A used refresh token that comes back ends its family.
  replayed : Server → RefreshRequest → Option TokenRecord → Outcome → Server
  unfolding revoke_family reset_agent_session
  replayed s req none io = s
  replayed s req (some used) io =
      if is_empty req.client_id || used.client_id == req.client_id
      then (save (revoke_family (reset_agent_session s used.resource) used.family) io).0
      else s

  refuse_refresh : Server → RefreshRequest → Str → Outcome → Server × Reply
  unfolding replayed
  refuse_refresh s req key io = (replayed s req (Map.get s.refresh_used key) io, invalid_grant)

  -- The replacement failed to persist: the old token stays usable.
  undo_rotation : Str → TokenRecord → Server × Option (Str × Str × ℕ) → Server × Reply
  unfolding reply_of
  undo_rotation key r (s, none) = (
    record s { refresh_used = Map.remove s.refresh_used key; refresh = Map.put s.refresh key r },
    server_error,
  )
  undo_rotation key r (s, some t) = reply_of r.scope (s, some t)

  -- The old token moves to the used ones before the new pair is issued in its family.
  unfoldable pub rotate : Server → Str → TokenRecord → ℕ → Draws → Outcome → Server × Reply
  unfolding undo_rotation issue_tokens_in_family
  rotate s key record₀ now draws io =
      let r = record record₀ {
        family = if is_empty record₀.family then draws.family else record₀.family;
      } in
      undo_rotation key r (
        issue_tokens_in_family
          (record s {
            refresh = Map.remove s.refresh key;
            refresh_used = Map.put s.refresh_used key r;
          })
          r.client_id r.user_id r.resource r.scope r.family now draws io)

  unfoldable pub refresh_usable : Server → TokenRecord → Bool
  refresh_usable s r =
      client_approved r.client_id (Map.get s.clients r.client_id)
      && owned_by_user lib s r.user_id r.resource (required_scope lib s r.resource)

  found_refresh :
      Server → RefreshRequest → Str → Option TokenRecord → ℕ → Draws → Outcome → Server × Reply
  unfolding refuse_refresh rotate
  found_refresh s req key none now draws io = refuse_refresh s req key io
  found_refresh s req key (some r) now draws io =
      if not (r.client_id == req.client_id)
        || (not (is_empty (trim_space req.resource)) && not (trim_space req.resource == r.resource))
      then refuse_refresh s req key io
      else if not (refresh_usable s r)
      then ((save (record s { refresh = Map.remove s.refresh key }) io).0, invalid_grant)
      else rotate s key r now draws io

  unfoldable pub exchange_refresh :
      Server → RefreshRequest → ℕ → ℕ → Draws → Outcome → Server × Reply
  unfolding found_refresh
  exchange_refresh s req start now draws io =
      let t = cleanup lib s start in
      let key = lib.sha256_hex req.refresh_token in
      found_refresh t req key (Map.get t.refresh key) now draws io

  -- The record that handleRevoke takes a token for: access tokens first, then refresh tokens.
  or_else : Option TokenRecord → Option TokenRecord → Option TokenRecord
  or_else none o = o
  or_else (some r) o = some r

  revoke_record : Server → Option TokenRecord → Server
  unfolding revoke_family reset_agent_session
  revoke_record s none = s
  revoke_record s (some r) = revoke_family (reset_agent_session s r.resource) r.family

  drop_key : Server → Str → Server
  drop_key s key = record s {
    access = Map.remove s.access key;
    refresh = Map.remove s.refresh key;
    refresh_used = Map.remove s.refresh_used key;
  }

  -- handleRevoke once the form has been read
  unfoldable pub revoke : Server → Str → Outcome → Server
  unfolding or_else revoke_record drop_key
  revoke s token io =
      let key = lib.sha256_hex token in
      let found =
        or_else (Map.get s.access key)
          (or_else (Map.get s.refresh key) (Map.get s.refresh_used key)) in
      (save (drop_key (revoke_record s found) key) io).0
