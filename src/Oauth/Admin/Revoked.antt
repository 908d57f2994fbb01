-- ===== src/Oauth/Admin/Revoked.antt =====
-- A device that an administrator has revoked.
use mathlib.Core.Path.{subst}
use chat_with_cli.Base.{
  ℕ, Str, [], Option, none, some, true, false, not, ◌≡◌, ◌≢◌, inl, inr, ap, sym, ◌∙◌, arith,
  str_beq_iff, str_eq, Option-cases,
}
use chat_with_cli.Base.Map
use chat_with_cli.Base.Map.{Map}
use chat_with_cli.Oauth.Platform.{Platform}
use chat_with_cli.Oauth.State.{Server, User, TokenRecord, AuthCode, PendingAuth}
use chat_with_cli.Oauth.Resource.{Parts, resource_parts, absolute}
use chat_with_cli.Oauth.Access.{flag, is_set}
use chat_with_cli.Oauth.Persist.{Outcome}
use chat_with_cli.Oauth.Authorize.{Moment, authorize_resource}
use chat_with_cli.Oauth.Authorize.Cases.{is_empty-eq, authorize_resource-IsAuthorized}
use chat_with_cli.Oauth.Revoke.{
  reset_route, revoke_device_clients, revoke_device_tokens, resource_uses_device, parts_use,
}
use chat_with_cli.Oauth.Admin.Proved.{NoClient, revoke_device_clients-NoClient}
use chat_with_cli.Oauth.Admin.Fewer.{Fewer, revoke_device_clients-Fewer, switched-Fewer}
use chat_with_cli.Oauth.Admin.Gate.{handle_admin_action-Passed, revoke_device-Passed}
use chat_with_cli.Base.{codes}
use chat_with_cli.Oauth.Admin.{done, handle_admin_action, admin_session_fresh}
use chat_with_cli.Oauth.Admin.Done.{changed_inj, apply_admin_action-Done}
use chat_with_cli.Oauth.Policy.{revoke_device}
use chat_with_cli.Oauth.Change.{changed, retire_device, retire_known}
use chat_with_cli.Oauth.Admin.{apply_change, apply_admin_action}

module _ (lib : Platform) where
  -- The device is retired, nobody's, not disabled and not recorded, and no token, code or request
  -- is for it.
  pub record Retired (s : Server) (device : Str) : Type 0 where
    pub barred : is_set s.retired_devices device ≡ true
    pub unowned : Map.get s.devices device ≡ none
    pub undisabled : Map.get s.disabled_devices device ≡ none
    pub unrecorded : Map.get s.device_records device ≡ none
    pub access :
        (k : Str) (r : TokenRecord)
        → Map.get s.access k ≡ some r
        → resource_uses_device lib s r.resource device ≡ false
    pub refresh :
        (k : Str) (r : TokenRecord)
        → Map.get s.refresh k ≡ some r
        → resource_uses_device lib s r.resource device ≡ false
    pub refresh_used :
        (k : Str) (r : TokenRecord)
        → Map.get s.refresh_used k ≡ some r
        → resource_uses_device lib s r.resource device ≡ false
    pub codes :
        (k : Str) (c : AuthCode)
        → Map.get s.codes k ≡ some c
        → resource_uses_device lib s c.grant.resource device ≡ false
    pub pending :
        (k : Str) (p : PendingAuth)
        → Map.get s.pending k ≡ some p
        → resource_uses_device lib s p.resource device ≡ false

  uses-Fewer :
      (s t : Server) (r d : Str)
      → Fewer lib t s
      → resource_uses_device lib t r d ≡ resource_uses_device lib s r d
  unfolding resource_uses_device
  uses-Fewer s t r d w = ap (λ o. parts_use lib o d) (w.parts r)

  Fewer-Retired : (s t : Server) (d : Str) → Fewer lib t s → Retired s d → Retired t d
  Fewer-Retired s t d w p = record {
    barred = ap (λ m. is_set m d) w.retired ∙ p.barred;
    unowned = ap (λ m. Map.get m d) w.devices ∙ p.unowned;
    undisabled = ap (λ m. Map.get m d) w.disabled ∙ p.undisabled;
    unrecorded = ap (λ m. Map.get m d) w.recorded ∙ p.unrecorded;
    access = λ k r h. uses-Fewer s t r.resource d w ∙ p.access k r (w.access k r h);
    refresh = λ k r h. uses-Fewer s t r.resource d w ∙ p.refresh k r (w.refresh k r h);
    refresh_used =
        λ k r h. uses-Fewer s t r.resource d w ∙ p.refresh_used k r (w.refresh_used k r h);
    codes = λ k c h. uses-Fewer s t c.grant.resource d w ∙ p.codes k c (w.codes k c h);
    pending = λ k q h. uses-Fewer s t q.resource d w ∙ p.pending k q (w.pending k q h);
  }

  retain-unused :
      {V : Type 0} (s : Server) (resource : V → Str) (m : Map V) (d k : Str) (v : V)
      → Map.get (Map.retain (λ _ w. not (resource_uses_device lib s (resource w) d)) m) k ≡ some v
      → resource_uses_device lib s (resource v) d ≡ false
  retain-unused s resource m d k v h =
      let (x, y) =
        Map.filter_value-eq-some (λ w. not (resource_uses_device lib s (resource w) d))
          (Map.get m k) v (sym (Map.get-retain _ m k) ∙ h) in
      ground (arith, y)

  revoke_device_tokens-Retired :
      (s : Server) (d : Str)
      → is_set s.retired_devices d ≡ true
      → Map.get s.devices d ≡ none
      → Map.get s.disabled_devices d ≡ none
      → Map.get s.device_records d ≡ none
      → Retired (revoke_device_tokens lib s d) d
  unfolding revoke_device_tokens resource_uses_device resource_parts absolute
  revoke_device_tokens-Retired s d b u v w = record {
    barred = b;
    unowned = u;
    undisabled = v;
    unrecorded = w;
    access = λ k r h. retain-unused s (λ w. w.resource) s.access d k r h;
    refresh = λ k r h. retain-unused s (λ w. w.resource) s.refresh d k r h;
    refresh_used = λ k r h. retain-unused s (λ w. w.resource) s.refresh_used d k r h;
    codes = λ k c h. retain-unused s (λ w. w.grant.resource) s.codes d k c h;
    pending = λ k p h. retain-unused s (λ w. w.resource) s.pending d k p h;
  }

  retire_device-Retired : (s : Server) (d : Str) → Retired (retire_device lib s d) d
  unfolding retire_device
  retire_device-Retired s d =
      let t = reset_route s d in
      let u = record t {
        retired_devices = Map.put t.retired_devices d true;
        devices = Map.remove t.devices d;
        disabled_devices = Map.remove t.disabled_devices d;
        device_records = Map.remove t.device_records d;
      } in
      let v = revoke_device_tokens lib u d in
      Fewer-Retired v (revoke_device_clients lib v d) d (revoke_device_clients-Fewer lib v d) (
        revoke_device_tokens-Retired u d
          (ap (λ o. flag o) (Map.get-put_self t.retired_devices d true))
          (Map.get-remove_self t.devices d) (Map.get-remove_self t.disabled_devices d)
          (Map.get-remove_self t.device_records d))

  retire_device-NoClient : (s : Server) (d : Str) → NoClient (retire_device lib s d) d
  unfolding retire_device
  retire_device-NoClient s d = revoke_device_clients-NoClient lib _ d

  retire_known_lem :
      (s t : Server) (d : Str) (o : Option Str)
      → retire_known lib s d o ≡ changed t
      → Retired t d × NoClient t d
  unfolding retire_known
  retire_known_lem s t d none h = cc
  retire_known_lem s t d (some owner) h =
      subst (λ z. Retired z d × NoClient z d) (changed_inj h)
        (retire_device-Retired s d, retire_device-NoClient s d)

  apply_change-revoke_device :
      (s t : Server) (current : User) (target value hash new_id : Str) (now : ℕ)
      → apply_change lib s current revoke_device target value hash new_id now ≡ changed t
      → Retired t target × NoClient t target
  unfolding apply_change
  apply_change-revoke_device s t current target value hash new_id now h =
      retire_known_lem s t target (Map.get s.devices target) h

  used_device :
      (s : Server) (resource : Str) (p : Parts) (d : Str)
      → resource_parts lib s resource ≡ some p
      → resource_uses_device lib s resource d ≡ true
      → p.device ≡ d
  unfolding resource_uses_device parts_use
  used_device s resource p d e h =
      (str_beq_iff p.device d).0 (ap (λ o. parts_use lib o d) (sym e) ∙ h)

  -- No authorization of a resource of a retired device succeeds.
  Retired-authorize_resource :
      (s : Server) (user client resource : Str) (m : Moment) (d : Str)
      → Retired s d
      → resource_uses_device lib s resource d ≡ true
      → d ≢ []
      → authorize_resource lib s user client resource m ≡ none
  Retired-authorize_resource s user client resource m d r u n =
      elim (Option-cases (authorize_resource lib s user client resource m)) [
        | inl e ↦ e
        | inr (t, e) ↦
            let (p, q, w) = authorize_resource-IsAuthorized lib s t user client resource m e in
            let same : p.device ≡ d = used_device s resource p d q u in
            absurd (elim w.device_open [
              | inl (x, y) ↦ n (sym same ∙ is_empty-eq p.device y)
              | inr o ↦
                  ground (arith, o.current, ap (λ x. is_set s.retired_devices x) same, r.barred)
            ])
      ]

  applied-Retired :
      (s : Server) (current : User) (target value hash new_id : Str) (now : ℕ) (io : Outcome)
      → target ≢ []
      → (apply_admin_action lib s current revoke_device target value hash new_id now io).1 ≡ none
      → Retired
          (apply_admin_action lib s current revoke_device target value hash new_id now io).0
          target
        × NoClient
            (apply_admin_action lib s current revoke_device target value hash new_id now io).0
            target
        × ((user client resource : Str) (m : Moment)
            → resource_uses_device lib
                (apply_admin_action lib s current revoke_device target value hash new_id now io).0
                resource
                target
              ≡ true
            → authorize_resource lib
                (apply_admin_action lib s current revoke_device target value hash new_id now io).0
                user
                client
                resource
                m
              ≡ none)
  applied-Retired s current target value hash new_id now io n h =
      let t = (apply_admin_action lib s current revoke_device target value hash new_id now io).0 in
      let d =
        apply_admin_action-Done lib s current revoke_device target value hash new_id now io h in
      let w : Fewer lib t d.after =
        subst (λ z. Fewer lib z d.after) (sym d.saved.kept)
          (switched-Fewer lib d.after d.saved.kill d.saved.fault d.saved.disk) in
      let (p, q) =
        apply_change-revoke_device s d.after current target value hash new_id now d.made in
      let r = Fewer-Retired d.after t target w p in
      (
        r,
        λ k c g. q k c (w.clients k c g),
        λ user client resource m u.
            Retired-authorize_resource t user client resource m target r u n,
      )

  -- When the revocation of a device with a name succeeds, in recovery or not, the session was
  -- authenticated anew and the revocation confirmed. In the state that it leaves, the device is
  -- retired, nobody's, not disabled and not recorded, no token, code or request is for it, no
  -- client proved its key if it is named by its identifier, and no account is authorized for a
  -- resource of it.
  pub handle_admin_action-Retired :
      (s : Server) (cookie : Str) (current : User) (target value confirmation hash new_id : Str)
      (now : ℕ) (io : Outcome)
      → target ≢ []
      → (handle_admin_action lib s cookie current revoke_device target value confirmation hash
          new_id now io).1
        ≡ done
      → (admin_session_fresh lib s cookie now ≡ true)
        × (confirmation ≡ codes "REVOKE")
        × Retired
            (handle_admin_action lib s cookie current revoke_device target value confirmation hash
              new_id now io).0
            target
        × NoClient
            (handle_admin_action lib s cookie current revoke_device target value confirmation hash
              new_id now io).0
            target
        × ((user client resource : Str) (m : Moment)
            → resource_uses_device lib
                (handle_admin_action lib s cookie current revoke_device target value confirmation
                  hash new_id now io).0
                resource
                target
              ≡ true
            → authorize_resource lib
                (handle_admin_action lib s cookie current revoke_device target value confirmation
                  hash new_id now io).0
                user
                client
                resource
                m
              ≡ none)
  handle_admin_action-Retired s cookie current target value confirmation hash new_id now io n h =
      let p =
        handle_admin_action-Passed lib s cookie current revoke_device target value confirmation hash
          new_id now io h in
      let (a, b) =
        revoke_device-Passed lib s cookie current target value confirmation hash new_id now io p in
      let (c, q, d) = applied-Retired s current target value hash new_id now io n p.applied in
      (
        a,
        b,
        subst (λ z. Retired z target) (sym p.left) c,
        subst (λ z. NoClient z target) (sym p.left) q,
        λ user client resource m u.
            ap (λ z. authorize_resource lib z user client resource m) p.left
            ∙ d user client resource m
                (ap (λ z. resource_uses_device lib z resource target) (sym p.left) ∙ u),
      )
