-- ===== src/Oauth/Access.antt =====
-- Who may use what: the checks of internal/oauthserver/server.go behind each request.
pub mod Spec
use chat_with_cli.Base.{
  ℕ, Str, [], ◌∷◌, ◌++◌, Option, none, some, Bool, true, false, ◌&&◌, ◌||◌, not, codes, is_empty,
  ◌==◌, str_eq, contains_text, trim_space, if◌then◌else◌,
}
use chat_with_cli.Base.Map
use chat_with_cli.Base.Map.{Map}
use chat_with_cli.Oauth.Platform.{Platform}
use chat_with_cli.Oauth.State.{Server, Client, User, TokenRecord, DeviceRecord}
use chat_with_cli.Oauth.Resource.{
  Kind, mcp, agent, Parts, scope_mcp, scope_agent, resource_parts, absolute, validate_device_route,
}

unfoldable pub client_id_matches : Str → Client → Bool
client_id_matches id client = not (is_empty id) && client.id == id

-- s.users[id] exists, is stored under its own ID, and is not disabled.
is_active : Str → Option User → Bool
is_active id none = false
is_active id (some user) = user.id == id && not user.disabled

unfoldable pub active_user : Server → Str → Bool
unfolding is_active
active_user s id = is_active id (Map.get s.users id)

-- A map[string]bool read with its zero value.
abbrev pub flag : Option Bool → Bool
flag none = false
flag (some b) = b

abbrev pub is_set : Map Bool → Str → Bool
is_set m k = flag (Map.get m k)

-- The kind that a scope asks for is the kind of the resource.
abbrev pub scope_fits : Str → Kind → Bool
scope_fits scope mcp = not (scope == scope_agent)
scope_fits scope agent = not (scope == scope_mcp)

abbrev is_account_wide : Str → Parts → Bool
is_account_wide scope p = scope == scope_mcp && is_empty p.device

abbrev is_owner : Option Str → Str → Bool
is_owner none user = is_empty user
is_owner (some owner) user = owner == user

-- The device record, if there is one, is enabled.
unfoldable pub record_enabled : Option DeviceRecord → Bool
record_enabled none = true
record_enabled (some r) = not r.disabled

-- It is enabled, and names no other owner.
unfoldable pub record_allows : Option DeviceRecord → Str → Bool
record_allows none user = true
record_allows (some r) user =
    not (r.disabled || (not (is_empty r.owner_id) && not (r.owner_id == user)))

-- resourceEnabledLocked after its first tests.
unfoldable pub parts_enabled : Server → Str → Option Parts → Bool
unfolding record_enabled
parts_enabled s scope none = false
parts_enabled s scope (some p) =
    if not (scope_fits scope p.kind)
    then false
    else if is_account_wide scope p
    then true
    else if is_set s.disabled_devices p.device || is_set s.retired_devices p.device
    then false
    else record_enabled (Map.get s.device_records p.device)

-- The client of a token is registered under its ID and approved.
unfoldable pub client_approved : Str → Option Client → Bool
unfolding client_id_matches
client_approved id none = false
client_approved id (some client) = client_id_matches id client && client.approved

abbrev pub has_scope : Str → Str → Bool
has_scope scopes scope =
    contains_text (codes " " ++ (scopes ++ codes " ")) (codes " " ++ (scope ++ codes " "))

abbrev pub known_scope : Str → Bool
known_scope scope = scope == scope_mcp || scope == scope_agent

module _ (lib : Platform) where
  unfoldable pub required_scope : Server → Str → Str
  required_scope s resource = elim (resource_parts lib s resource) [
    | none ↦ scope_mcp
    | some p ↦ (elim p.kind [ mcp ↦ scope_mcp | agent ↦ scope_agent ])
  ]

  -- resourceOwnershipIntactLocked after the test of the user.
  parts_intact : Server → Str → Str → Str → Option Parts → Bool
  unfolding record_allows
  parts_intact s user resource scope none = false
  parts_intact s user resource scope (some p) =
      if not (p.canonical == resource) || not (scope_fits scope p.kind)
      then false
      else if is_account_wide scope p
      then true
      else if is_set s.disabled_devices p.device || is_set s.retired_devices p.device
      then false
      else record_allows (Map.get s.device_records p.device) user
        && is_owner (Map.get s.devices p.device) user

  unfoldable pub ownership_intact : Server → Str → Str → Str → Bool
  unfolding parts_intact
  ownership_intact s user resource scope =
      if not (active_user s user)
      then false
      else parts_intact s user resource scope (resource_parts lib s resource)

  unfoldable pub resource_enabled : Server → Str → Str → Bool
  unfolding parts_enabled
  resource_enabled s resource scope =
      if not (known_scope scope)
      then false
      else if s.persistence_fault
          || s.kill_switch
          || (scope == scope_mcp && not s.mcp_enabled)
          || (scope == scope_agent && not s.agent_enabled)
      then false
      else parts_enabled s scope (resource_parts lib s resource)

  -- resourceOwnedByUserLocked after the tests of the scope, the user and the switches.
  unfoldable pub parts_owned : Server → Str → Str → Option Parts → Bool
  unfolding record_allows
  parts_owned s user scope none = false
  parts_owned s user scope (some p) =
      if not (scope_fits scope p.kind)
      then false
      else if is_account_wide scope p
      then true
      else if not (record_allows (Map.get s.device_records p.device) user)
      then false
      else is_owner (Map.get s.devices p.device) user

  unfoldable pub owned_by_user : Server → Str → Str → Str → Bool
  unfolding parts_owned
  owned_by_user s user resource scope =
      if not (known_scope scope)
      then false
      else if not (active_user s user) || not (resource_enabled s resource scope)
      then false
      else parts_owned s user scope (resource_parts lib s resource)

  unfoldable pub record_verifies : Server → Str → Str → Option TokenRecord → Bool
  unfolding client_approved
  record_verifies s resource scope none = false
  record_verifies s resource scope (some r) =
      if not (owned_by_user s r.user_id resource scope)
      then false
      else client_approved r.client_id (Map.get s.clients r.client_id)
        && not (is_empty r.user_id)
        && r.resource == resource
        && has_scope r.scope scope

  unfoldable pub verify_access_key : Server → Str → Str → Str → Bool
  unfolding record_verifies
  verify_access_key s key resource scope = record_verifies s resource scope (Map.get s.access key)
