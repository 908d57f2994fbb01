-- ===== src/Oauth/Access/Spec.antt =====
-- When a bearer token opens a resource: `verify_access_key` against a description in terms of the
-- tables.
use chat_with_cli.Base.{
  Str, [], Option, none, some, true, false, is_empty, not, ◌==◌, str_eq, ◌&&◌, ◌≡◌, ◌≢◌, ◌↔◌, ◌⊎◌,
  inl, inr, refl, arith, str_beq_iff, str_beq_refl, Bool-cases, Option-cases,
}
use chat_with_cli.Base.Map
use chat_with_cli.Oauth.Platform.{Platform}
use chat_with_cli.Oauth.State.{Server, Client, User, TokenRecord, DeviceRecord}
use chat_with_cli.Oauth.Resource.{Kind, mcp, agent, Parts, scope_mcp, scope_agent, resource_parts}
use chat_with_cli.Oauth.Access.{
  active_user, client_approved, is_set, has_scope, verify_access_key, owned_by_user,
  resource_enabled, record_allows, record_verifies, scope_fits, known_scope, record_enabled,
  is_owner, is_account_wide,
}

-- The account exists under its identifier and is enabled.
pub record ActiveUser (s : Server) (id : Str) : Type 0 where
  pub user : User
  pub found : Map.get s.users id ≡ some user
  pub own_id : user.id ≡ id
  pub enabled : user.disabled ≡ false

-- The client is registered under its identifier and approved.
pub record ApprovedClient (s : Server) (id : Str) : Type 0 where
  pub client : Client
  pub found : Map.get s.clients id ≡ some client
  pub own_id : client.id ≡ id
  pub named : id ≢ []
  pub approved : client.approved ≡ true

-- The device belongs to the user and nothing bars it.
pub record OpenDevice (s : Server) (user device : Str) : Type 0 where
  pub enabled : is_set s.disabled_devices device ≡ false
  pub kept : is_set s.retired_devices device ≡ false
  pub owner : Map.get s.devices device ≡ some user
  pub recorded :
      (r : DeviceRecord)
      → Map.get s.device_records device ≡ some r
      → (r.disabled ≡ false) × ((r.owner_id ≡ []) ⊎ (r.owner_id ≡ user))

-- The scope is the one of the kind of resource, and the administrator has left it on.
pub data Capability (s : Server) (scope : Str) (k : Kind) : Type 0 where
  tools : scope ≡ scope_mcp → k ≡ mcp → s.mcp_enabled ≡ true → Capability s scope k
  connection : scope ≡ scope_agent → k ≡ agent → s.agent_enabled ≡ true → Capability s scope k

pub record MayAccess (lib : Platform) (s : Server) (key resource scope : Str) : Type 0 where
  pub token : TokenRecord
  pub found : Map.get s.access key ≡ some token
  pub bound : token.resource ≡ resource
  pub granted : has_scope token.scope scope ≡ true
  pub named : token.user_id ≢ []
  pub user : ActiveUser s token.user_id
  pub client : ApprovedClient s token.client_id
  pub durable : s.persistence_fault ≡ false
  pub running : s.kill_switch ≡ false
  pub parts : Parts
  pub parsed : resource_parts lib s resource ≡ some parts
  pub capability : Capability s scope parts.kind
  pub device : ((scope ≡ scope_mcp) × (parts.device ≡ [])) ⊎ OpenDevice s token.user_id parts.device

pub active_user_sound : (s : Server) (id : Str) → active_user s id ≡ true → ActiveUser s id
unfolding active_user
active_user_sound s id h = elim (Option-cases (Map.get s.users id)) [
  | inl e ↦ absurd (ground arith)
  | inr (u, e) ↦ record {
    user = u;
    found = e;
    own_id = ground (arith, str_beq_iff u.id id);
    enabled = ground arith;
  }
]

pub active_user_complete : (s : Server) (id : Str) → ActiveUser s id → active_user s id ≡ true
unfolding active_user
active_user_complete s id a = ground (arith, a.found, str_beq_iff a.user.id id)

pub client_approved_sound :
    (s : Server) (id : Str) → client_approved id (Map.get s.clients id) ≡ true → ApprovedClient s id
unfolding client_approved
client_approved_sound s id h = elim (Option-cases (Map.get s.clients id)) [
  | inl e ↦ absurd (ground arith)
  | inr (c, e) ↦ record {
    client = c;
    found = e;
    own_id = ground (arith, str_beq_iff c.id id);
    named = ground arith;
    approved = ground arith;
  }
]

pub client_approved_complete :
    (s : Server) (id : Str) → ApprovedClient s id → client_approved id (Map.get s.clients id) ≡ true
unfolding client_approved
client_approved_complete s id a = ground (arith, a.found, a.named, str_beq_iff a.client.id id)

pub owned_by_user-parts :
    (lib : Platform) (s : Server) (user resource scope : Str)
    → owned_by_user lib s user resource scope ≡ true
    → (p : Parts) × (resource_parts lib s resource ≡ some p)
unfolding owned_by_user
owned_by_user-parts lib s user resource scope h =
    elim (Option-cases (resource_parts lib s resource)) [
      | inl e ↦ absurd (ground arith)
      | inr (p, e) ↦ (p, e)
    ]

Kind-cases : (k : Kind) → (k ≡ mcp) ⊎ (k ≡ agent)
Kind-cases mcp = inl refl
Kind-cases agent = inr refl

resource_enabled-Capability :
    (lib : Platform) (s : Server) (resource scope : Str) (p : Parts)
    → resource_parts lib s resource ≡ some p
    → resource_enabled lib s resource scope ≡ true
    → Capability s scope p.kind
unfolding resource_enabled
resource_enabled-Capability lib s resource scope p e h = elim (Kind-cases p.kind) [
  | inl k ↦
      tools (ground (arith, str_beq_iff scope scope_mcp, str_beq_iff scope scope_agent)) k
        (ground (arith, str_beq_iff scope scope_mcp, str_beq_iff scope scope_agent))
  | inr k ↦
      connection (ground (arith, str_beq_iff scope scope_mcp, str_beq_iff scope scope_agent)) k
        (ground (arith, str_beq_iff scope scope_mcp, str_beq_iff scope scope_agent))
]

resource_enabled-switches :
    (lib : Platform) (s : Server) (resource scope : Str)
    → resource_enabled lib s resource scope ≡ true
    → (s.persistence_fault ≡ false) × (s.kill_switch ≡ false)
unfolding resource_enabled
resource_enabled-switches lib s resource scope h = ground arith

owned_by_user-enabled :
    (lib : Platform) (s : Server) (user resource scope : Str)
    → owned_by_user lib s user resource scope ≡ true
    → (active_user s user ≡ true) × (resource_enabled lib s resource scope ≡ true)
unfolding owned_by_user
owned_by_user-enabled lib s user resource scope h = ground arith

is_owner_sound : (o : Option Str) (user : Str) → user ≢ [] → is_owner o user ≡ true → o ≡ some user
is_owner_sound none user n h = absurd (ground arith)
is_owner_sound (some owner) user n h = ground (arith, str_beq_iff owner user)

pub record_allows_sound :
    (o : Option DeviceRecord) (user : Str) (r : DeviceRecord)
    → record_allows o user ≡ true
    → o ≡ some r
    → (r.disabled ≡ false) × ((r.owner_id ≡ []) ⊎ (r.owner_id ≡ user))
unfolding record_allows
record_allows_sound o user r h e = elim (Bool-cases (is_empty r.owner_id)) [
  | inl z ↦ (ground arith, inl (ground arith))
  | inr z ↦ (ground arith, inr (ground (arith, str_beq_iff r.owner_id user)))
]

-- What the two checks ask of the device once the account-wide resource is excluded.
device_checks :
    (lib : Platform) (s : Server) (user resource scope : Str) (p : Parts)
    → resource_parts lib s resource ≡ some p
    → owned_by_user lib s user resource scope ≡ true
    → is_account_wide scope p ≡ false
    → (is_set s.disabled_devices p.device ≡ false)
      × (is_set s.retired_devices p.device ≡ false)
      × (record_allows (Map.get s.device_records p.device) user ≡ true)
      × (is_owner (Map.get s.devices p.device) user ≡ true)
unfolding owned_by_user resource_enabled
device_checks lib s user resource scope p e h w = ground arith

is_account_wide_sound :
    (scope : Str) (p : Parts)
    → is_account_wide scope p ≡ true
    → (scope ≡ scope_mcp) × (p.device ≡ [])
is_account_wide_sound scope p h = (ground (arith, str_beq_iff scope scope_mcp), ground arith)

-- Off the account-wide resource, an owned device is open to its owner.
pub owned_by_user-OpenDevice :
    (lib : Platform) (s : Server) (user resource scope : Str) (p : Parts)
    → resource_parts lib s resource ≡ some p
    → owned_by_user lib s user resource scope ≡ true
    → user ≢ []
    → ((scope ≡ scope_mcp) × (p.device ≡ [])) ⊎ OpenDevice s user p.device
owned_by_user-OpenDevice lib s user resource scope p e h named =
    elim (Bool-cases (is_account_wide scope p)) [
      | inl w ↦ inl (is_account_wide_sound scope p w)
      | inr w ↦
          let (off, gone, allowed, own) = device_checks lib s user resource scope p e h w in
          inr (record {
            enabled = off;
            kept = gone;
            owner = is_owner_sound (Map.get s.devices p.device) user named own;
            recorded = λ r. record_allows_sound (Map.get s.device_records p.device) user r allowed;
          })
    ]

-- The tests that a token record passes.
record_checks :
    (lib : Platform) (s : Server) (resource scope : Str) (r : TokenRecord)
    → record_verifies lib s resource scope (some r) ≡ true
    → (owned_by_user lib s r.user_id resource scope ≡ true)
      × (client_approved r.client_id (Map.get s.clients r.client_id) ≡ true)
      × (is_empty r.user_id ≡ false)
      × ((r.resource == resource) ≡ true)
      × (has_scope r.scope scope ≡ true)
unfolding record_verifies
record_checks lib s resource scope r h = ground arith

verify_access_key-record :
    (lib : Platform) (s : Server) (key resource scope : Str)
    → verify_access_key lib s key resource scope ≡ true
    → (r : TokenRecord) × (Map.get s.access key ≡ some r)
      × (record_verifies lib s resource scope (some r) ≡ true)
unfolding verify_access_key
verify_access_key-record lib s key resource scope h = elim (Option-cases (Map.get s.access key)) [
  | inl e ↦ absurd (ground arith)
  | inr (r, e) ↦ (r, e, ground arith)
]

pub verify_access_key_sound :
    (lib : Platform) (s : Server) (key resource scope : Str)
    → verify_access_key lib s key resource scope ≡ true
    → MayAccess lib s key resource scope
verify_access_key_sound lib s key resource scope h =
    let (r, e, v) = verify_access_key-record lib s key resource scope h in
    let (own, client, named, bound, granted) = record_checks lib s resource scope r v in
    let (alive, enabled) = owned_by_user-enabled lib s r.user_id resource scope own in
    let (durable, running) = resource_enabled-switches lib s resource scope enabled in
    let (p, parsed) = owned_by_user-parts lib s r.user_id resource scope own in
    let someone : r.user_id ≢ [] = ground arith in
    record {
      token = r;
      found = e;
      bound = (str_beq_iff r.resource resource).0 bound;
      granted = granted;
      named = someone;
      user = active_user_sound s r.user_id alive;
      client = client_approved_sound s r.client_id client;
      durable = durable;
      running = running;
      parts = p;
      parsed = parsed;
      capability = resource_enabled-Capability lib s resource scope p parsed enabled;
      device = owned_by_user-OpenDevice lib s r.user_id resource scope p parsed own someone;
    }

pub record_allows_complete :
    (o : Option DeviceRecord) (user : Str)
    → ((r : DeviceRecord)
        → o ≡ some r
        → (r.disabled ≡ false) × ((r.owner_id ≡ []) ⊎ (r.owner_id ≡ user)))
    → record_allows o user ≡ true
unfolding record_allows
record_allows_complete none user h = refl
record_allows_complete (some r) user h = ground (arith, h r refl, str_beq_iff r.owner_id user)

record_allows-enabled :
    (o : Option DeviceRecord) (user : Str) → record_allows o user ≡ true → record_enabled o ≡ true
unfolding record_allows record_enabled
record_allows-enabled o user h = ground arith

Capability-fits :
    (s : Server) (scope : Str) (k : Kind)
    → Capability s scope k
    → (known_scope scope ≡ true)
      × (scope_fits scope k ≡ true)
      × (((scope == scope_mcp) && not s.mcp_enabled) ≡ false)
      × (((scope == scope_agent) && not s.agent_enabled) ≡ false)
Capability-fits s scope k (tools e m on) =
    ground (arith, str_beq_iff scope scope_mcp, str_beq_iff scope scope_agent)
Capability-fits s scope k (connection e m on) =
    ground (arith, str_beq_iff scope scope_mcp, str_beq_iff scope scope_agent)

-- The resource test and the ownership test, from the parts of the description.
enabled_checks :
    (lib : Platform) (s : Server) (user resource scope : Str) (p : Parts)
    → resource_parts lib s resource ≡ some p
    → s.persistence_fault ≡ false
    → s.kill_switch ≡ false
    → Capability s scope p.kind
    → active_user s user ≡ true
    → ((scope ≡ scope_mcp) × (p.device ≡ [])) ⊎ OpenDevice s user p.device
    → owned_by_user lib s user resource scope ≡ true
unfolding owned_by_user resource_enabled
enabled_checks lib s user resource scope p e durable running c alive (inl (tools_only, wide)) =
    ground (arith, Capability-fits s scope p.kind c, str_beq_iff scope scope_mcp)
enabled_checks lib s user resource scope p e durable running c alive (inr d) = ground (
  arith,
  Capability-fits s scope p.kind c,
  d.enabled,
  d.kept,
  d.owner,
  str_beq_refl user,
  record_allows_complete (Map.get s.device_records p.device) user d.recorded,
  record_allows-enabled (Map.get s.device_records p.device) user,
)

pub verify_access_key_complete :
    (lib : Platform) (s : Server) (key resource scope : Str)
    → MayAccess lib s key resource scope
    → verify_access_key lib s key resource scope ≡ true
unfolding verify_access_key record_verifies
verify_access_key_complete lib s key resource scope m = ground (
  arith,
  m.found,
  m.bound,
  m.named,
  m.granted,
  str_beq_iff m.token.resource resource,
  client_approved_complete s m.token.client_id m.client,
  enabled_checks lib s m.token.user_id resource scope m.parts m.parsed m.durable m.running
      m.capability (active_user_complete s m.token.user_id m.user) m.device,
)

-- A key opens a resource exactly when it stands for an unrevoked token of an active account and an
-- approved client, bound to that resource and scope, the server is neither frozen nor stopped, the
-- capability is on, and the device, unless the resource is the account-wide one, is open and owned
-- by that account.
pub verify_access_key_iff :
    (lib : Platform) (s : Server) (key resource scope : Str)
    → (verify_access_key lib s key resource scope ≡ true) ↔ MayAccess lib s key resource scope
verify_access_key_iff lib s key resource scope = (
  verify_access_key_sound lib s key resource scope,
  verify_access_key_complete lib s key resource scope,
)
