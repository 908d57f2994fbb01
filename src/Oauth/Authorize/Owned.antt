-- ===== src/Oauth/Authorize/Owned.antt =====
-- A grant puts its account into the possession of the resource: the check of every later request
-- agrees with the one that granted.
use chat_with_cli.Base.{
  Str, some, true, false, is_empty, ◌≡◌, ◌⊎◌, inl, inr, refl, ap, ◌∙◌, arith, str_eq, str_beq_iff,
  str_beq, if◌then◌else◌,
}
use chat_with_cli.Base.Map
use chat_with_cli.Oauth.Platform.{Platform}
use chat_with_cli.Oauth.State.{Server, User}
use chat_with_cli.Oauth.Resource.{
  Parts, Kind, mcp, agent, resource_parts, absolute, scope_mcp, scope_agent,
}
use chat_with_cli.Oauth.Resource.Route.{resource_parts-IsRouted}
use chat_with_cli.Oauth.Access.{
  is_set, active_user, parts_enabled, parts_owned, owned_by_user, resource_enabled, required_scope,
}
use chat_with_cli.Oauth.Authorize.{Moment, is_agent, user_may, authorize_resource}
use chat_with_cli.Oauth.Authorize.Cases.{IsOpen, IsRunning, authorize_resource-IsAuthorized}
use chat_with_cli.Oauth.Authorize.Owners.{Apart, Granted-Apart}
use chat_with_cli.Oauth.Authorize.Held.{allows, enables, IsHeld, HeldParts, Granted-HeldParts}

Kind-cases : (k : Kind) → (k ≡ mcp) ⊎ (k ≡ agent)
Kind-cases mcp = inl refl
Kind-cases agent = inr refl

module _ (lib : Platform) where
  scope_of_parts :
      (t : Server) (resource : Str) (p : Parts)
      → resource_parts lib t resource ≡ some p
      → ((p.kind ≡ mcp) × (required_scope lib t resource ≡ scope_mcp))
        ⊎ ((p.kind ≡ agent) × (required_scope lib t resource ≡ scope_agent))
  unfolding required_scope
  scope_of_parts t resource p e = ground (arith, Kind-cases p.kind)

  -- What a running server owns to an account of what it holds.
  device-owned :
      (t : Server) (user resource : Str) (p : Parts)
      → resource_parts lib t resource ≡ some p
      → active_user t user ≡ true
      → IsRunning t p
      → ((is_agent p.kind ≡ false) × (is_empty p.device ≡ true))
        ⊎ (IsHeld t user p.device
            × (is_set t.retired_devices p.device ≡ false)
            × (is_set t.disabled_devices p.device ≡ false))
      → owned_by_user lib t user resource (required_scope lib t resource) ≡ true
  unfolding owned_by_user resource_enabled parts_enabled parts_owned is_agent str_beq
  device-owned t user resource p e a w h = elim (scope_of_parts t resource p e) [
    | inl (k, q) ↦ elim h [
      | inl (x, y) ↦ rw (q, e, a) (ground (arith, k, w.no_fault, w.no_kill, w.capable))
      | inr (g, r, d) ↦
          rw (q, e, a)
            (ground (
              arith,
              k,
              w.no_fault,
              w.no_kill,
              w.capable,
              g.owner,
              r,
              d,
              allows (Map.get t.device_records p.device) user g.kept,
              enables (Map.get t.device_records p.device) user g.kept,
              str_beq_iff user user,
            ))
    ]
    | inr (k, q) ↦ elim h [
      | inl (x, y) ↦ ground (arith, k)
      | inr (g, r, d) ↦
          rw (q, e, a)
            (ground (
              arith,
              k,
              w.no_fault,
              w.no_kill,
              w.capable,
              g.owner,
              r,
              d,
              allows (Map.get t.device_records p.device) user g.kept,
              enables (Map.get t.device_records p.device) user g.kept,
              str_beq_iff user user,
            ))
    ]
  ]

  parts-Apart :
      (s t : Server) (resource : Str)
      → Apart s t
      → resource_parts lib t resource ≡ resource_parts lib s resource
  unfolding resource_parts absolute
  parts-Apart s t resource a = ap (λ x. resource_parts lib x resource) a

  active-Apart : (s t : Server) (user : Str) → Apart s t → active_user t user ≡ active_user s user
  unfolding active_user
  active-Apart s t user a = ap (λ x. active_user x user) a

  active_of :
      (s : Server) (user : Str) (u : User)
      → Map.get s.users user ≡ some u
      → u.id ≡ user
      → user_may (Map.get s.users user) ≡ true
      → (active_user s user ≡ true) × (is_empty user ≡ false)
  unfolding active_user user_may
  active_of s user u e i h =
      let k = (rw e at h) in
      (
        rw e (ground (arith, str_beq_iff u.id user)),
        (let n : is_empty u.id ≡ false = ground arith in rw (← i) n),
      )

  -- What is open in a state is open in one that differs in owners and records only.
  IsHeld-open :
      (s t : Server) (user : Str) (p : Parts)
      → Apart s t
      → ((is_agent p.kind ≡ false) × (is_empty p.device ≡ true)) ⊎ IsOpen s p.device
      → HeldParts t user p
      → ((is_agent p.kind ≡ false) × (is_empty p.device ≡ true))
        ⊎ (IsHeld t user p.device
            × (is_set t.retired_devices p.device ≡ false)
            × (is_set t.disabled_devices p.device ≡ false))
  IsHeld-open s t user p a (inl x) h = inl x
  IsHeld-open s t user p a (inr o) (inl x) = inl x
  IsHeld-open s t user p a (inr o) (inr g) = inr (
    g,
    ap (λ x. is_set x.retired_devices p.device) a ∙ o.current,
    ap (λ x. is_set x.disabled_devices p.device) a ∙ o.enabled,
  )

  IsRunning-Apart : (s t : Server) (p : Parts) → Apart s t → IsRunning s p → IsRunning t p
  IsRunning-Apart s t p a w = record {
    no_fault = ap (λ x. x.persistence_fault) a ∙ w.no_fault;
    no_kill = ap (λ x. x.kill_switch) a ∙ w.no_kill;
    capable = ap (λ x. if is_agent p.kind then x.agent_enabled else x.mcp_enabled) a ∙ w.capable;
  }

  -- Once a grant for an account has been given, the account, which is stored under its own
  -- identifier, passes the check of ownership that every later use of the resource meets.
  pub authorize_resource-owned_by_user :
      (s t : Server) (user client resource : Str) (m : Moment) (u : User)
      → authorize_resource lib s user client resource m ≡ some t
      → Map.get s.users user ≡ some u
      → u.id ≡ user
      → owned_by_user lib t user resource (required_scope lib t resource) ≡ true
  authorize_resource-owned_by_user s t user client resource m u h e i =
      let (p, q, w) = authorize_resource-IsAuthorized lib s t user client resource m h in
      let a : Apart s t = Granted-Apart w.granted in
      let (x, n) = active_of s user u e i w.account in
      let held : HeldParts t user p =
        Granted-HeldParts w.granted (resource_parts-IsRouted lib s resource p q) w.device_open n in
      device-owned t user resource p (parts-Apart s t resource a ∙ q) (active-Apart s t user a ∙ x)
        (IsRunning-Apart s t p a w.running) (IsHeld-open s t user p a w.device_open held)
