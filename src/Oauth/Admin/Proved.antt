-- ===== src/Oauth/Admin/Proved.antt =====
-- revokeDeviceClientsLocked of internal/oauthserver/server.go: the clients that proved a device's
-- key.
use chat_with_cli.Base.{
  Str, List, [], ◌∷◌, none, some, Bool, true, false, ◌&&◌, any, has_prefix, trim_prefix, ◌==◌,
  str_eq, str_beq_iff, ◌≡◌, inl, inr, sym, ap, ◌∙◌, arith, is_some, Bool-cases, Option-cases,
  if◌then◌else◌,
}
use mathlib.Core.Path.{subst}
use chat_with_cli.Base.Map
use chat_with_cli.Oauth.Platform.{Platform}
use chat_with_cli.Oauth.State.{Server, Client}
use chat_with_cli.Oauth.Resource.{id_prefix}
use chat_with_cli.Oauth.Revoke.{client_proved, revoke_client, revoke_clients, revoke_device_clients}
use chat_with_cli.Oauth.Admin.Fewer.{Within, revoke_client-Fewer, revoke_clients-Fewer}

-- No client is left that proved the key of the device, if the device is named by its identifier.
abbrev pub NoClient : Server → Str → Type 0
NoClient s device =
    (k : Str) (c : Client)
    → Map.get s.clients k ≡ some c
    → (has_prefix device id_prefix
        && c.device_key_verified
        && c.device_id == trim_prefix device id_prefix)
      ≡ false

module _ (lib : Platform) where
  revoke_client_gone : (s : Server) (k : Str) → Map.get (revoke_client lib s k).clients k ≡ none
  unfolding revoke_client
  revoke_client_gone s k = Map.get-remove_self _ k

  Within-none :
      (m n : Map.Map Client) (k : Str) → Within m n → Map.get n k ≡ none → Map.get m k ≡ none
  Within-none m n k w h = elim (Option-cases (Map.get m k)) [
    | inl e ↦ e
    | inr (c, e) ↦ (let z = w k c e in cc)
  ]

  revoked_gone :
      (s t : Server) (id j k : Str) (b : Bool)
      → (b ≡ true → j ≡ k → Map.get (if b then revoke_client lib t j else t).clients k ≡ none)
        × (Map.get t.clients k ≡ none
            → Map.get (if b then revoke_client lib t j else t).clients k ≡ none)
  revoked_gone s t id j k true = (
    (λ h e.
        subst (λ z. Map.get (revoke_client lib t z).clients k ≡ none) (sym e)
          (revoke_client_gone t k)),
    Within-none _ t.clients k (revoke_client-Fewer lib t j).clients,
  )
  revoked_gone s t id j k false = ((λ h e. cc), (λ h. h))

  revoke_clients_gone :
      (s : Server) (id k : Str) (keys : List Str)
      → client_proved lib id (Map.get s.clients k) ≡ true
      → any (λ j. j == k) keys ≡ true
      → Map.get (revoke_clients lib s id keys).clients k ≡ none
  unfolding revoke_clients
  revoke_clients_gone s id k [] p h = cc
  revoke_clients_gone s id k (j ∷ keys) p h =
      let t = revoke_clients lib s id keys in
      let step = revoked_gone s t id j k (client_proved lib id (Map.get s.clients j)) in
      elim (Bool-cases (j == k)) [
        | inl e ↦
            let same : j ≡ k = (str_beq_iff j k).0 e in
            step.0 (ap (λ z. client_proved lib id (Map.get s.clients z)) same ∙ p) same
        | inr e ↦ step.1 (revoke_clients_gone s id k keys p (ground arith))
      ]

  -- After the revocation of the clients of a device none is left that proved its key.
  pub revoke_device_clients-NoClient :
      (s : Server) (device : Str) → NoClient (revoke_device_clients lib s device) device
  unfolding revoke_device_clients client_proved
  revoke_device_clients-NoClient s device k c h = elim (Bool-cases (has_prefix device id_prefix)) [
    | inr e ↦ ground arith
    | inl e ↦
        let id = trim_prefix device id_prefix in
        let g : Map.get (revoke_clients lib s id (Map.keys s.clients)).clients k ≡ some c =
          (rw e at h) in
        let old = (revoke_clients-Fewer lib s id (Map.keys s.clients)).clients k c g in
        elim (Bool-cases (client_proved lib id (some c))) [
          | inr n ↦ ground (arith, n)
          | inl p ↦ absurd (
              let z =
                revoke_clients_gone s id k (Map.keys s.clients)
                  (ap (λ o. client_proved lib id o) old ∙ p)
                  (Map.any-keys s.clients k (ap is_some old)) in
              cc)
        ]
  ]
