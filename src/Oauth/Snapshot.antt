-- ===== src/Oauth/Snapshot.antt =====
-- The snapshots of internal/oauthserver/server.go, which undo a change in memory.
use chat_with_cli.Base.{ℕ, Str, List, Bool}
use chat_with_cli.Base.Map.{Map}
use chat_with_cli.Oauth.State.{
  Server, Client, TokenRecord, InviteRecord, UsageRecord, ActivationCodeRecord, User, SessionRecord,
  DeviceRecord, PendingAuth, AuthCode, Mode, SecurityEvent,
}

-- mutableStateSnapshot
pub record Snapshot : Type 0 where
  pub clients : Map Client
  pub access : Map TokenRecord
  pub refresh : Map TokenRecord
  pub refresh_used : Map TokenRecord
  pub pending : Map PendingAuth
  pub codes : Map AuthCode
  pub users : Map User
  pub usernames : Map Str
  pub devices : Map Str
  pub disabled_devices : Map Bool
  pub retired_devices : Map Bool
  pub device_records : Map DeviceRecord
  pub sessions : Map SessionRecord
  pub ephemeral_sessions : Map (Unit {0})
  pub invites : Map InviteRecord
  pub usage : Map UsageRecord
  pub activation_codes : Map ActivationCodeRecord
  pub redeemed_rewards : Map ℕ
  pub usage_dirty : Bool
  pub registration_enabled : Bool
  pub dcr_enabled : Bool
  pub mcp_enabled : Bool
  pub agent_enabled : Bool
  pub kill_switch : Bool
  pub usage_metering_enabled : Bool
  pub usage_default_quota_bytes : ℕ
  pub usage_configured : Bool
  pub monetization_configured : Bool
  pub usage_unlock_enabled : Bool
  pub adsense_client_id : Str
  pub adsense_slot : Str
  pub admob_app_id : Str
  pub admob_reward_unit_id : Str
  pub usage_unlock_endpoint : Str
  pub setup_token_hash : Str
  pub security_events : List SecurityEvent
  pub mode : Mode

unfoldable pub snapshot : Server → Snapshot
snapshot s = record {
  clients = s.clients;
  access = s.access;
  refresh = s.refresh;
  refresh_used = s.refresh_used;
  pending = s.pending;
  codes = s.codes;
  users = s.users;
  usernames = s.usernames;
  devices = s.devices;
  disabled_devices = s.disabled_devices;
  retired_devices = s.retired_devices;
  device_records = s.device_records;
  sessions = s.sessions;
  ephemeral_sessions = s.ephemeral_sessions;
  invites = s.invites;
  usage = s.usage;
  activation_codes = s.activation_codes;
  redeemed_rewards = s.redeemed_rewards;
  usage_dirty = s.usage_dirty;
  registration_enabled = s.registration_enabled;
  dcr_enabled = s.dcr_enabled;
  mcp_enabled = s.mcp_enabled;
  agent_enabled = s.agent_enabled;
  kill_switch = s.kill_switch;
  usage_metering_enabled = s.usage_metering_enabled;
  usage_default_quota_bytes = s.usage_default_quota_bytes;
  usage_configured = s.usage_configured;
  monetization_configured = s.monetization_configured;
  usage_unlock_enabled = s.usage_unlock_enabled;
  adsense_client_id = s.adsense_client_id;
  adsense_slot = s.adsense_slot;
  admob_app_id = s.admob_app_id;
  admob_reward_unit_id = s.admob_reward_unit_id;
  usage_unlock_endpoint = s.usage_unlock_endpoint;
  setup_token_hash = s.setup_token_hash;
  security_events = s.security_events;
  mode = s.mode;
}

unfoldable pub restore : Server → Snapshot → Server
restore s old = record s {
  clients = old.clients;
  access = old.access;
  refresh = old.refresh;
  refresh_used = old.refresh_used;
  pending = old.pending;
  codes = old.codes;
  users = old.users;
  usernames = old.usernames;
  devices = old.devices;
  disabled_devices = old.disabled_devices;
  retired_devices = old.retired_devices;
  device_records = old.device_records;
  sessions = old.sessions;
  ephemeral_sessions = old.ephemeral_sessions;
  invites = old.invites;
  usage = old.usage;
  activation_codes = old.activation_codes;
  redeemed_rewards = old.redeemed_rewards;
  usage_dirty = old.usage_dirty;
  registration_enabled = old.registration_enabled;
  dcr_enabled = old.dcr_enabled;
  mcp_enabled = old.mcp_enabled;
  agent_enabled = old.agent_enabled;
  kill_switch = old.kill_switch;
  usage_metering_enabled = old.usage_metering_enabled;
  usage_default_quota_bytes = old.usage_default_quota_bytes;
  usage_configured = old.usage_configured;
  monetization_configured = old.monetization_configured;
  usage_unlock_enabled = old.usage_unlock_enabled;
  adsense_client_id = old.adsense_client_id;
  adsense_slot = old.adsense_slot;
  admob_app_id = old.admob_app_id;
  admob_reward_unit_id = old.admob_reward_unit_id;
  usage_unlock_endpoint = old.usage_unlock_endpoint;
  setup_token_hash = old.setup_token_hash;
  security_events = old.security_events;
  mode = old.mode;
}
