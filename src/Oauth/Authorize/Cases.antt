-- ===== src/Oauth/Authorize/Cases.antt =====
-- How authorizeResourceLocked of internal/oauthserver/server.go comes to grant.
use chat_with_cli.Base.{
  ◌<◌, Str, [], ◌∷◌, Option, none, some, true, false, ◌&&◌, not, is_empty, leb, ◌==◌, nat_eq,
  str_eq, str_beq_iff, has_prefix, ◌≡◌, ◌⊎◌, inl, inr, refl, ◌∙◌, some_inj, arith, Option-cases,
  Bool-cases, if◌then◌else◌,
}
use chat_with_cli.Base.Map
use chat_with_cli.Oauth.Platform.{Platform}
use chat_with_cli.Oauth.State.{Server, DeviceRecord}
use chat_with_cli.Oauth.Resource.{Parts, id_prefix, resource_parts}
use chat_with_cli.Oauth.Access.{is_set}
use chat_with_cli.Oauth.Device.{text_of, record_of}
use chat_with_cli.Oauth.Authorize.{
  Moment, is_agent, is_public, user_may, claim_device, rebind_device, owned_devices,
  authorize_agent, authorize_device, authorize_key, authorize_parts, authorize_resource,
  validate_agent_device_key, max_devices_user,
}

-- The three ways in which the state of a device goes on.
pub data Granted (s : Server) (user : Str) (p : Parts) (m : Moment) : Server → Type 0 where
  -- An MCP grant for the account or for a device of the account changes nothing.
  kept :
      is_agent p.kind ≡ false
      → (is_empty p.device ≡ true) ⊎ (text_of (Map.get s.devices p.device) ≡ user)
      → Granted s user p m s
  rebound :
      (key : Str)
      → is_agent p.kind ≡ true
      → text_of (Map.get s.devices p.device) ≡ user
      → is_empty user ≡ false
      → Granted s user p m (rebind_device s user p.device key m)
  claimed :
      (key : Str)
      → is_agent p.kind ≡ true
      → text_of (Map.get s.devices p.device) ≡ []
      → owned_devices s user < max_devices_user
      → Granted s user p m (claim_device s user p.device key m)

-- The device is open for a grant.
pub record IsOpen (s : Server) (device : Str) : Type 0 where
  pub current : is_set s.retired_devices device ≡ false
  pub enabled : is_set s.disabled_devices device ≡ false
  pub record_on : (record_of (Map.get s.device_records device)).disabled ≡ false
  pub owners :
      ((record_of (Map.get s.device_records device)).owner_id ≡ [])
      ⊎ ((record_of (Map.get s.device_records device)).owner_id
          ≡ text_of (Map.get s.devices device))

pub record IsRunning (s : Server) (p : Parts) : Type 0 where
  pub no_fault : s.persistence_fault ≡ false
  pub no_kill : s.kill_switch ≡ false
  pub capable : (if is_agent p.kind then s.agent_enabled else s.mcp_enabled) ≡ true

pub record IsAuthorized (s : Server) (user : Str) (p : Parts) (m : Moment) (t : Server)
    : Type 0 where
  pub account : user_may (Map.get s.users user) ≡ true
  pub running : IsRunning s p
  pub device_open : ((is_agent p.kind ≡ false) × (is_empty p.device ≡ true)) ⊎ IsOpen s p.device
  pub granted : Granted s user p m t

agent-Granted :
    (s t : Server) (user : Str) (p : Parts) (owner key : Str) (m : Moment)
    → is_agent p.kind ≡ true
    → text_of (Map.get s.devices p.device) ≡ owner
    → authorize_agent s user p.device owner key m ≡ some t
    → Granted s user p m t
unfolding authorize_agent
agent-Granted s t user p [] key m a o h =
    elim (Bool-cases (is_public s.mode && not (has_prefix p.device id_prefix))) [
      | inl x ↦ (let k = (rw x at h) in cc)
      | inr x ↦ elim (Bool-cases (leb max_devices_user (owned_devices s user))) [
        | inl y ↦ (let k = (rw (x, y) at h) in cc)
        | inr y ↦
            let k : claim_device s user p.device key m ≡ t = some_inj (rw (x, y) at h) in
            rw (← k) (Granted.claimed key a o (ground arith))
      ]
    ]
agent-Granted s t user p (c ∷ owner) key m a o h = elim (Bool-cases ((c ∷ owner) == user)) [
  | inr x ↦ (let k = (rw x at h) in cc)
  | inl x ↦
      let k : rebind_device s user p.device key m ≡ t = some_inj (rw x at h) in
      let u : c ∷ owner ≡ user = (str_beq_iff (c ∷ owner) user).0 x in
      rw (← k) (Granted.rebound key a (o ∙ u) (rw (← u) refl))
]

pub is_empty-eq : (s : Str) → is_empty s ≡ true → s ≡ []
is_empty-eq [] h = refl
is_empty-eq (c ∷ s) h = cc

device-cases :
    (s t : Server) (user owner key : Str) (p : Parts) (r : DeviceRecord) (m : Moment)
    → authorize_device s user p owner r key m ≡ some t
    → (r.disabled ≡ false)
      × ((r.owner_id ≡ []) ⊎ (r.owner_id ≡ owner))
      × (((is_agent p.kind ≡ true) × (authorize_agent s user p.device owner key m ≡ some t))
          ⊎ ((is_agent p.kind ≡ false) × (owner ≡ user) × (s ≡ t)))
unfolding authorize_device
device-cases s t user owner key p r m h = (
  ground arith,
  ground (arith, is_empty-eq r.owner_id, is_empty-eq owner, str_beq_iff r.owner_id owner),
  ground (arith, str_beq_iff owner user),
)

device-Granted :
    (s t : Server) (user : Str) (p : Parts) (key : Str) (m : Moment)
    → is_set s.retired_devices p.device ≡ false
    → is_set s.disabled_devices p.device ≡ false
    → authorize_device s user p
        (text_of (Map.get s.devices p.device))
        (record_of (Map.get s.device_records p.device))
        key
        m
      ≡ some t
    → IsOpen s p.device × Granted s user p m t
device-Granted s t user p key m q d h =
    let (on, o, c) =
      device-cases s t user (text_of (Map.get s.devices p.device)) key p
        (record_of (Map.get s.device_records p.device)) m h in
    let open_device : IsOpen s p.device = record {
      current = q;
      enabled = d;
      record_on = on;
      owners = o;
    } in
    elim c [
      | inl (a, g) ↦ (
        open_device,
        agent-Granted s t user p (text_of (Map.get s.devices p.device)) key m a refl g,
      )
      | inr (a, u, e) ↦ (open_device, rw (← e) (Granted.kept a (inr u)))
    ]

key-IsAuthorized :
    (s t : Server) (user : Str) (p : Parts) (key : Option Str) (m : Moment)
    → user_may (Map.get s.users user) ≡ true
    → authorize_key s user p key m ≡ some t
    → IsAuthorized s user p m t
unfolding authorize_key
key-IsAuthorized s t user p none m u h = cc
key-IsAuthorized s t user p (some key) m u h =
    let run : IsRunning s p = record {
      no_fault = ground arith;
      no_kill = ground arith;
      capable = ground arith;
    } in
    elim (Bool-cases (not (is_agent p.kind) && is_empty p.device)) [
      | inl e ↦ record {
        account = u;
        running = run;
        device_open = inl (ground arith);
        granted =
            (let k : s ≡ t = ground arith in
              rw (← k) (Granted.kept (ground arith) (inl (ground arith))));
      }
      | inr e ↦
          let f = device-Granted s t user p key m (ground arith) (ground arith) (ground arith) in
          record { account = u; running = run; device_open = inr f.0; granted = f.1 }
    ]

-- A grant, and what it rests on.
pub authorize_resource-IsAuthorized :
    (lib : Platform) (s t : Server) (user client resource : Str) (m : Moment)
    → authorize_resource lib s user client resource m ≡ some t
    → (p : Parts) × (resource_parts lib s resource ≡ some p) × IsAuthorized s user p m t
unfolding authorize_resource authorize_parts
authorize_resource-IsAuthorized lib s t user client resource m h =
    elim (Option-cases (resource_parts lib s resource)) [
      | inl e ↦ (let k = (rw e at h) in cc)
      | inr (p, e) ↦
          let k = (rw e at h) in
          (
            p,
            e,
            key-IsAuthorized s t user p (validate_agent_device_key lib s client p) m (ground arith)
                (ground arith),
          )
    ]
