-- ===== src/Oauth/Admin/Fewer.antt =====
-- States that hold no more, and what the revocation of a client does in this order.
use chat_with_cli.Base.{
  Str, List, [], ◌∷◌, Option, none, some, Bool, true, false, not, ◌≡◌, refl, sym, ◌∙◌, ◌==◌, str_eq,
  if◌then◌else◌, has_prefix, trim_prefix,
}
use chat_with_cli.Base.Map
use chat_with_cli.Base.Map.{Map}
use chat_with_cli.Oauth.Platform.{Platform}
use chat_with_cli.Oauth.State.{Server, TokenRecord, Disk}
use chat_with_cli.Oauth.Resource.{Parts, resource_parts, absolute, id_prefix}
use chat_with_cli.Oauth.Token.{reset_agent_session, reset_device}
use chat_with_cli.Oauth.Revoke.{
  reset_held, reset_client, revoke_client, client_proved, revoke_clients, revoke_device_clients,
}

-- The entries of one map are among those of another.
module _ {V : Type 0} where
  abbrev pub Within : Map V → Map V → Type 0
  Within m n = (k : Str) (v : V) → Map.get m k ≡ some v → Map.get n k ≡ some v

module _ (lib : Platform) where
  -- `t` holds no client, token, code or request that `s` does not hold, and the same devices.
  pub record Fewer (t s : Server) : Type 0 where
    pub parts : (r : Str) → resource_parts lib t r ≡ resource_parts lib s r
    pub access : Within t.access s.access
    pub refresh : Within t.refresh s.refresh
    pub refresh_used : Within t.refresh_used s.refresh_used
    pub codes : Within t.codes s.codes
    pub pending : Within t.pending s.pending
    pub retired : t.retired_devices ≡ s.retired_devices
    pub devices : t.devices ≡ s.devices
    pub disabled : t.disabled_devices ≡ s.disabled_devices
    pub recorded : t.device_records ≡ s.device_records
    pub clients : Within t.clients s.clients

  pub Fewer-refl : (s : Server) → Fewer s s
  Fewer-refl s = record {
    parts = λ r. refl;
    access = λ k v h. h;
    refresh = λ k v h. h;
    refresh_used = λ k v h. h;
    codes = λ k v h. h;
    pending = λ k v h. h;
    retired = refl;
    devices = refl;
    disabled = refl;
    recorded = refl;
    clients = λ k v h. h;
  }

  pub Fewer-trans : (u t s : Server) → Fewer u t → Fewer t s → Fewer u s
  Fewer-trans u t s p q = record {
    parts = λ r. p.parts r ∙ q.parts r;
    access = λ k v h. q.access k v (p.access k v h);
    refresh = λ k v h. q.refresh k v (p.refresh k v h);
    refresh_used = λ k v h. q.refresh_used k v (p.refresh_used k v h);
    codes = λ k v h. q.codes k v (p.codes k v h);
    pending = λ k v h. q.pending k v (p.pending k v h);
    retired = p.retired ∙ q.retired;
    devices = p.devices ∙ q.devices;
    disabled = p.disabled ∙ q.disabled;
    recorded = p.recorded ∙ q.recorded;
    clients = λ k v h. q.clients k v (p.clients k v h);
  }

  Fewer-if : (b : Bool) (x y s : Server) → Fewer x s → Fewer y s → Fewer (if b then x else y) s
  Fewer-if true x y s p q = p
  Fewer-if false x y s p q = q

  resets-Fewer : (s : Server) (l : List Str) → Fewer (record s { resets = l }) s
  unfolding resource_parts absolute
  resets-Fewer s l = record {
    parts = λ r. refl;
    access = λ k v h. h;
    refresh = λ k v h. h;
    refresh_used = λ k v h. h;
    codes = λ k v h. h;
    pending = λ k v h. h;
    retired = refl;
    devices = refl;
    disabled = refl;
    recorded = refl;
    clients = λ k v h. h;
  }

  reset_device-Fewer : (s : Server) (o : Option Parts) → Fewer (reset_device lib s o) s
  unfolding reset_device
  reset_device-Fewer s none = Fewer-refl s
  reset_device-Fewer s (some p) = Fewer-if _ _ s s (resets-Fewer s _) (Fewer-refl s)

  reset_held-Fewer :
      (s : Server) (client : Str) (o : Option TokenRecord) → Fewer (reset_held lib s client o) s
  unfolding reset_held reset_agent_session
  reset_held-Fewer s client none = Fewer-refl s
  reset_held-Fewer s client (some r) =
      Fewer-if (r.client_id == client) _ s s
        (reset_device-Fewer s (resource_parts lib s r.resource)) (Fewer-refl s)

  pub reset_client-Fewer :
      (s : Server) (client : Str) (keys : List Str) (m : Map TokenRecord)
      → Fewer (reset_client lib s client keys m) s
  unfolding reset_client
  reset_client-Fewer s client [] m = Fewer-refl s
  reset_client-Fewer s client (k ∷ keys) m =
      let t = reset_client lib s client keys m in
      Fewer-trans _ t s (reset_held-Fewer t client (Map.get m k))
        (reset_client-Fewer s client keys m)

  retain-Within : {V : Type 0} (p : Str → V → Bool) (m : Map V) → Within (Map.retain p m) m
  retain-Within p m k v h =
      (Map.filter_value-eq-some (p k) (Map.get m k) v (sym (Map.get-retain p m k) ∙ h)).0

  pub revoke_client-Fewer : (s : Server) (client : Str) → Fewer (revoke_client lib s client) s
  unfolding revoke_client resource_parts absolute
  revoke_client-Fewer s client =
      let a = reset_client lib s client (Map.keys s.access) s.access in
      let t = reset_client lib a client (Map.keys s.refresh) s.refresh in
      Fewer-trans _ t s
        (record {
          parts = λ r. refl;
          access = retain-Within _ t.access;
          refresh = retain-Within _ t.refresh;
          refresh_used = retain-Within _ t.refresh_used;
          codes = retain-Within _ t.codes;
          pending = retain-Within _ t.pending;
          retired = refl;
          devices = refl;
          disabled = refl;
          recorded = refl;
          clients = λ k v. Map.get_of_removed t.clients client k v;
        })
        (Fewer-trans t a s (reset_client-Fewer a client (Map.keys s.refresh) s.refresh)
          (reset_client-Fewer s client (Map.keys s.access) s.access))

  pub revoke_clients-Fewer :
      (s : Server) (id : Str) (keys : List Str) → Fewer (revoke_clients lib s id keys) s
  unfolding revoke_clients
  revoke_clients-Fewer s id [] = Fewer-refl s
  revoke_clients-Fewer s id (k ∷ keys) =
      let t = revoke_clients lib s id keys in
      let rest = revoke_clients-Fewer s id keys in
      Fewer-if (client_proved lib id (Map.get s.clients k)) (revoke_client lib t k) t s
        (Fewer-trans (revoke_client lib t k) t s (revoke_client-Fewer t k) rest) rest

  pub revoke_device_clients-Fewer :
      (s : Server) (device : Str) → Fewer (revoke_device_clients lib s device) s
  unfolding revoke_device_clients
  revoke_device_clients-Fewer s device =
      Fewer-if (not (has_prefix device id_prefix)) s _ s (Fewer-refl s)
        (revoke_clients-Fewer s (trim_prefix device id_prefix) (Map.keys s.clients))

  pub switched-Fewer :
      (s : Server) (k f : Bool) (d : Disk)
      → Fewer (record s { kill_switch = k; persistence_fault = f; disk = d }) s
  unfolding resource_parts absolute
  switched-Fewer s k f d = record {
    parts = λ r. refl;
    access = λ k v h. h;
    refresh = λ k v h. h;
    refresh_used = λ k v h. h;
    codes = λ k v h. h;
    pending = λ k v h. h;
    retired = refl;
    devices = refl;
    disabled = refl;
    recorded = refl;
    clients = λ k v h. h;
  }
