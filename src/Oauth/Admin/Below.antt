-- ===== src/Oauth/Admin/Below.antt =====
-- States that let in no more than another, and what the revocations do in this order.
use chat_with_cli.Base.{
  Str, List, [], ◌∷◌, Option, none, some, Bool, true, false, not, ◌≡◌, inl, inr, refl, sym, ◌∙◌,
  str_eq, is_empty, Bool-cases, if◌then◌else◌, has_prefix, trim_prefix,
}
use chat_with_cli.Base.Map
use chat_with_cli.Oauth.Platform.{Platform}
use chat_with_cli.Oauth.State.{Server, Client, TokenRecord, SessionRecord, AuthCode, PendingAuth}
use chat_with_cli.Oauth.Resource.{Parts, resource_parts, absolute, id_prefix}
use chat_with_cli.Oauth.Access.{active_user, is_set, record_allows}
use chat_with_cli.Oauth.Token.{reset_agent_session, reset_device, revoke_family}
use chat_with_cli.Oauth.Revoke.{
  reset_route, reset_owned, reset_all, delete_user_sessions, revoke_user_credentials, reset_held,
  reset_client, revoke_client, client_proved, revoke_clients, revoke_device_clients,
  revoke_device_tokens,
}

-- `t` has no token, client, account, device or capability that `s` has not, but for the switches
-- that recovery itself throws.
pub record Below (lib : Platform) (t s : Server) : Type 0 where
  pub parts : (r : Str) → resource_parts lib t r ≡ resource_parts lib s r
  pub tokens :
      (k : Str) (r : TokenRecord) → Map.get t.access k ≡ some r → Map.get s.access k ≡ some r
  pub clients : (k : Str) (c : Client) → Map.get t.clients k ≡ some c → Map.get s.clients k ≡ some c
  pub users : (id : Str) → active_user t id ≡ true → active_user s id ≡ true
  pub mcp : t.mcp_enabled ≡ true → s.mcp_enabled ≡ true
  pub agent : t.agent_enabled ≡ true → s.agent_enabled ≡ true
  pub device :
      (user d : Str)
      → is_set t.disabled_devices d ≡ false
      → is_set t.retired_devices d ≡ false
      → Map.get t.devices d ≡ some user
      → (is_set s.disabled_devices d ≡ false)
        × (is_set s.retired_devices d ≡ false)
        × (Map.get s.devices d ≡ some user)
        × (record_allows (Map.get t.device_records d) user ≡ true
            → record_allows (Map.get s.device_records d) user ≡ true)

module _ (lib : Platform) where
  pub Below-refl : (s : Server) → Below lib s s
  Below-refl s = record {
    parts = λ r. refl;
    tokens = λ k r h. h;
    clients = λ k c h. h;
    users = λ id h. h;
    mcp = λ h. h;
    agent = λ h. h;
    device = λ user d a b c. (a, b, c, λ h. h);
  }

  pub Below-trans : (u t s : Server) → Below lib u t → Below lib t s → Below lib u s
  Below-trans u t s p q = record {
    parts = λ r. p.parts r ∙ q.parts r;
    tokens = λ k r h. q.tokens k r (p.tokens k r h);
    clients = λ k c h. q.clients k c (p.clients k c h);
    users = λ id h. q.users id (p.users id h);
    mcp = λ h. q.mcp (p.mcp h);
    agent = λ h. q.agent (p.agent h);
    device = λ user d a b c.
        let (x, y, z, w) = p.device user d a b c in
        let (x1, y1, z1, w1) = q.device user d x y z in (x1, y1, z1, λ h. w1 (w h));
  }

  pub Below-if :
      (b : Bool) (x y s : Server) → Below lib x s → Below lib y s → Below lib (if b then x else y) s
  Below-if true x y s p q = p
  Below-if false x y s p q = q

  resets-Below : (s : Server) (l : List Str) → Below lib (record s { resets = l }) s
  unfolding resource_parts absolute active_user
  resets-Below s l = record {
    parts = λ r. refl;
    tokens = λ k r h. h;
    clients = λ k c h. h;
    users = λ id h. h;
    mcp = λ h. h;
    agent = λ h. h;
    device = λ user d a b c. (a, b, c, λ h. h);
  }

  pub reset_route-Below : (s : Server) (d : Str) → Below lib (reset_route s d) s
  unfolding reset_route
  reset_route-Below s d = Below-if s.resetter_set _ s s (resets-Below s _) (Below-refl s)

  pub reset_owned-Below : (s : Server) (user : Str) → Below lib (reset_owned s user) s
  unfolding reset_owned
  reset_owned-Below s user = Below-if s.resetter_set _ s s (resets-Below s _) (Below-refl s)

  pub reset_all-Below : (s : Server) → Below lib (reset_all s) s
  unfolding reset_all
  reset_all-Below s = Below-if s.resetter_set _ s s (resets-Below s _) (Below-refl s)

  reset_device-Below : (s : Server) (o : Option Parts) → Below lib (reset_device lib s o) s
  unfolding reset_device
  reset_device-Below s none = Below-refl s
  reset_device-Below s (some p) = Below-if _ _ s s (resets-Below s _) (Below-refl s)

  pub reset_agent_session-Below : (s : Server) (r : Str) → Below lib (reset_agent_session lib s r) s
  unfolding reset_agent_session
  reset_agent_session-Below s r = reset_device-Below s (resource_parts lib s r)

  -- A table of tokens from which some are dropped, and clients of which some are.
  retain-tokens :
      (m : Map.Map TokenRecord) (p : Str → TokenRecord → Bool) (k : Str) (r : TokenRecord)
      → Map.get (Map.retain p m) k ≡ some r
      → Map.get m k ≡ some r
  retain-tokens m p k r h =
      (Map.filter_value-eq-some (p k) (Map.get m k) r (sym (Map.get-retain p m k) ∙ h)).0

  -- Fewer tokens, whatever happens to the requests, the sessions and the log.
  thinned-Below :
      (s : Server) (p : Str → TokenRecord → Bool) (a b : Map.Map TokenRecord) (c : Map.Map AuthCode)
      (q : Map.Map PendingAuth) (m : Map.Map SessionRecord) (e : Map.Map (Unit {0}))
      → Below lib
          (record s {
            access = Map.retain p s.access;
            refresh = a;
            refresh_used = b;
            codes = c;
            pending = q;
            sessions = m;
            ephemeral_sessions = e;
          })
          s
  unfolding resource_parts absolute active_user
  thinned-Below s p a b c q m e = record {
    parts = λ r. refl;
    tokens = λ k r h. retain-tokens s.access p k r h;
    clients = λ k c h. h;
    users = λ id h. h;
    mcp = λ h. h;
    agent = λ h. h;
    device = λ user d a b c. (a, b, c, λ h. h);
  }

  pub revoke_family-Below : (s : Server) (f : Str) → Below lib (revoke_family lib s f) s
  unfolding revoke_family
  revoke_family-Below s f = elim (Bool-cases (is_empty f)) [
    | inl e ↦ rw e (Below-refl s)
    | inr e ↦ rw e (thinned-Below s _ _ _ _ _ _ _)
  ]

  pub delete_user_sessions-Below :
      (s : Server) (user : Str) → Below lib (delete_user_sessions s user) s
  unfolding delete_user_sessions resource_parts absolute active_user
  delete_user_sessions-Below s user = record {
    parts = λ r. refl;
    tokens = λ k r h. h;
    clients = λ k c h. h;
    users = λ id h. h;
    mcp = λ h. h;
    agent = λ h. h;
    device = λ user d a b c. (a, b, c, λ h. h);
  }

  pub revoke_user_credentials-Below :
      (s : Server) (user : Str) → Below lib (revoke_user_credentials s user) s
  unfolding revoke_user_credentials delete_user_sessions
  revoke_user_credentials-Below s user = thinned-Below s _ _ _ _ _ _ _

  pub revoke_device_tokens-Below :
      (s : Server) (d : Str) → Below lib (revoke_device_tokens lib s d) s
  unfolding revoke_device_tokens
  revoke_device_tokens-Below s d = thinned-Below s _ _ _ _ _ _ _

  reset_held-Below :
      (s : Server) (client : Str) (o : Option TokenRecord) → Below lib (reset_held lib s client o) s
  unfolding reset_held
  reset_held-Below s client none = Below-refl s
  reset_held-Below s client (some r) =
      Below-if _ _ s s (reset_agent_session-Below s r.resource) (Below-refl s)

  reset_client-Below :
      (s : Server) (client : Str) (keys : List Str) (m : Map.Map TokenRecord)
      → Below lib (reset_client lib s client keys m) s
  unfolding reset_client
  reset_client-Below s client [] m = Below-refl s
  reset_client-Below s client (k ∷ keys) m =
      let t = reset_client lib s client keys m in
      Below-trans _ t s (reset_held-Below t client (Map.get m k))
        (reset_client-Below s client keys m)

  -- A client less, and fewer tokens.
  dropped-Below :
      (s : Server) (client : Str) (p : Str → TokenRecord → Bool) (a b : Map.Map TokenRecord)
      (c : Map.Map AuthCode) (q : Map.Map PendingAuth)
      → Below lib
          (record s {
            clients = Map.remove s.clients client;
            access = Map.retain p s.access;
            refresh = a;
            refresh_used = b;
            codes = c;
            pending = q;
          })
          s
  unfolding resource_parts absolute active_user
  dropped-Below s client p a b c q = record {
    parts = λ r. refl;
    tokens = λ k r h. retain-tokens s.access p k r h;
    clients = λ k c h. Map.get_of_removed s.clients client k c h;
    users = λ id h. h;
    mcp = λ h. h;
    agent = λ h. h;
    device = λ user d a b c. (a, b, c, λ h. h);
  }

  pub revoke_client-Below : (s : Server) (client : Str) → Below lib (revoke_client lib s client) s
  unfolding revoke_client
  revoke_client-Below s client =
      let a = reset_client lib s client (Map.keys s.access) s.access in
      let t = reset_client lib a client (Map.keys s.refresh) s.refresh in
      Below-trans _ t s (dropped-Below t client _ _ _ _ _) (
        Below-trans t a s (reset_client-Below a client (Map.keys s.refresh) s.refresh)
          (reset_client-Below s client (Map.keys s.access) s.access))

  revoke_clients-Below :
      (s : Server) (id : Str) (keys : List Str) → Below lib (revoke_clients lib s id keys) s
  unfolding revoke_clients
  revoke_clients-Below s id [] = Below-refl s
  revoke_clients-Below s id (k ∷ keys) =
      let t = revoke_clients lib s id keys in
      let rest = revoke_clients-Below s id keys in
      Below-if (client_proved lib id (Map.get s.clients k)) (revoke_client lib t k) t s
        (Below-trans (revoke_client lib t k) t s (revoke_client-Below t k) rest) rest

  pub revoke_device_clients-Below :
      (s : Server) (device : Str) → Below lib (revoke_device_clients lib s device) s
  unfolding revoke_device_clients
  revoke_device_clients-Below s device =
      Below-if (not (has_prefix device id_prefix)) s _ s (Below-refl s)
        (revoke_clients-Below s (trim_prefix device id_prefix) (Map.keys s.clients))
