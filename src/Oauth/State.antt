-- ===== src/Oauth/State.antt =====
-- internal/oauthserver/server.go and identity.go: the records of the authorization server and the
-- state that `Server.mu` guards. A time.Time is its nanoseconds since the epoch; a time stamp or a
-- count from which the code only takes "at most zero" as a boundary is a natural number.
use chat_with_cli.Base.{ℕ, ◌/◌, ◌*◌, Str, List, Option, Bool}
use chat_with_cli.Base.Map.{Map}

-- time.Time.Unix
abbrev pub unix : ℕ → ℕ
unix t = t / 1000000000

abbrev pub second : ℕ
second = 1000000000

abbrev pub minute : ℕ
minute = 60 * second

abbrev pub hour : ℕ
hour = 60 * minute

pub record Client : Type 0 where
  pub id : Str
  pub name : Str
  pub redirect_uris : List Str
  pub device_id : Str
  pub device_public_key : Str
  pub device_key_verified : Bool
  pub issued_at : ℕ
  pub approved : Bool

pub record TokenRecord : Type 0 where
  pub client_id : Str
  pub user_id : Str
  pub resource : Str
  pub scope : Str
  pub family : Str
  pub expires : ℕ

pub record InviteRecord : Type 0 where
  pub created_at : ℕ
  pub expires : ℕ
  pub uses_remaining : ℕ
  pub created_by : Str

pub record UsageRecord : Type 0 where
  pub quota_bytes : ℕ
  pub used_bytes : ℕ

pub record ActivationCodeRecord : Type 0 where
  pub created_at : ℕ
  pub expires : ℕ
  pub quota_bytes : ℕ
  pub uses_remaining : ℕ
  pub created_by : Str

pub record User : Type 0 where
  pub id : Str
  pub username : Str
  pub password_hash : Str
  pub created_at : ℕ
  pub last_login_at : ℕ
  pub admin : Bool
  pub disabled : Bool

pub record SessionRecord : Type 0 where
  pub user_id : Str
  pub created_at : ℕ
  pub last_seen_at : ℕ
  pub last_reauth_at : ℕ
  pub expires : ℕ

pub record DeviceRecord : Type 0 where
  pub id : Str
  pub display_name : Str
  pub owner_id : Str
  pub device_public_key : Str
  pub created_at : ℕ
  pub last_seen_at : ℕ
  pub disabled : Bool

pub record PendingAuth : Type 0 where
  pub client_id : Str
  pub redirect_uri : Str
  pub state : Str
  pub scope : Str
  pub resource : Str
  pub code_challenge : Str
  pub csrf_token_hash : Str
  pub remote_ip : Str
  pub expires : ℕ
  pub attempts : ℕ
  pub user_id : Str

-- The embedded pendingAuth keeps its own expiry, which the code's one hides.
pub record AuthCode : Type 0 where
  pub grant : PendingAuth
  pub open grant use {client_id, redirect_uri, resource, scope, code_challenge, user_id}
  pub expires : ℕ

pub data Mode : Type 0 where
  private_mode public_mode : Mode

-- settingsState: the switches that are written to disk.
pub record Settings : Type 0 where
  pub adsense_client_id : Str
  pub adsense_slot : Str
  pub admob_app_id : Str
  pub admob_reward_unit_id : Str
  pub usage_unlock_endpoint : Str
  pub mode : Mode
  pub registration_enabled : Bool
  pub dcr_enabled : Bool
  pub mcp_enabled : Bool
  pub agent_enabled : Bool
  pub kill_switch : Bool
  pub usage_metering_enabled : Bool
  pub usage_default_quota_bytes : ℕ
  pub usage_configured : Bool
  pub monetization_configured : Bool
  pub usage_unlock_enabled : Bool

pub record SecurityEvent : Type 0 where
  pub time : ℕ
  pub event : Str
  pub user : Str
  pub device : Str
  pub remote_ip : Str
  pub success : Bool

-- diskState: the content of oauth-state.json.
pub record DiskState : Type 0 where
  pub clients : Map Client
  pub access : Map TokenRecord
  pub refresh : Map TokenRecord
  pub refresh_used : Map TokenRecord
  pub users : Map User
  pub devices : Map Str
  pub disabled_devices : Map Bool
  pub retired_devices : Map Bool
  pub device_records : Map DeviceRecord
  pub sessions : Map SessionRecord
  pub invites : Map InviteRecord
  pub settings : Settings
  pub security_events : List SecurityEvent

-- The content of oauth-state.guard; anything but the two markers is garbled.
pub data Guard : Type 0 where
  clean dirty garbled : Guard

pub record Disk : Type 0 where
  pub guard : Guard
  pub stored : Option DiskState

pub record Server : Type 0 where
  pub mode : Mode
  pub base : Str
  pub base_scheme : Str
  pub base_host : Str
  pub clients : Map Client
  pub access : Map TokenRecord
  pub refresh : Map TokenRecord
  pub refresh_used : Map TokenRecord
  pub pending : Map PendingAuth
  pub codes : Map AuthCode
  pub users : Map User
  pub usernames : Map Str
  pub devices : Map Str
  pub disabled_devices : Map Bool
  pub retired_devices : Map Bool
  pub device_records : Map DeviceRecord
  pub sessions : Map SessionRecord
  pub ephemeral_sessions : Map (Unit {0})
  pub invites : Map InviteRecord
  pub usage : Map UsageRecord
  pub activation_codes : Map ActivationCodeRecord
  pub redeemed_rewards : Map ℕ
  pub usage_dirty : Bool
  pub registration_enabled : Bool
  pub dcr_enabled : Bool
  pub mcp_enabled : Bool
  pub agent_enabled : Bool
  pub kill_switch : Bool
  pub usage_metering_enabled : Bool
  pub usage_default_quota_bytes : ℕ
  pub usage_configured : Bool
  pub monetization_configured : Bool
  pub usage_unlock_enabled : Bool
  pub setup_token_hash : Str
  pub security_events : List SecurityEvent
  -- Of the configuration.
  pub adsense_client_id : Str
  pub adsense_slot : Str
  pub mode_configured : Bool
  pub registration_disabled : Bool
  pub admob_app_id : Str
  pub admob_reward_unit_id : Str
  pub usage_unlock_endpoint : Str
  pub admob_verifier_secret : Str
  pub persistence_fault : Bool
  -- Whether agentSessionResetter is installed, and the devices handed to it, the latest first.
  pub resetter_set : Bool
  pub resets : List Str
  pub disk : Disk
