-- ===== src/Oauth/Persist.antt =====
-- Saving authorization state: the transaction around oauth-state.json of
-- internal/oauthserver/server.go, and the snapshots that undo a change in memory.
pub mod Failure
pub mod Frame
use chat_with_cli.Base.{
  ℕ, Str, List, Option, none, some, Bool, true, false, ◌&&◌, not, if◌then◌else◌,
}
use chat_with_cli.Base.Map.{Map}
use chat_with_cli.Oauth.State.{
  Server, Client, TokenRecord, InviteRecord, UsageRecord, ActivationCodeRecord, User, SessionRecord,
  DeviceRecord, PendingAuth, AuthCode, Mode, private_mode, public_mode, Settings, DiskState, Guard,
  clean, dirty, Disk, SecurityEvent,
}
use chat_with_cli.Oauth.Snapshot.{Snapshot, restore}

-- What the operating system answers in one save. A failed guard write leaves some content behind; a
-- failed state write may come before or after the rename.
pub data GuardWrite : Type 0 where
  guarded : GuardWrite
  unguarded : Guard → GuardWrite

pub data StateWrite : Type 0 where
  written lost renamed : StateWrite

pub record Outcome : Type 0 where
  pub locked : Bool
  pub mark_dirty : GuardWrite
  pub state_write : StateWrite
  pub mark_clean : GuardWrite

pub data SaveError : Type 0 where
  recovery_required io_failed : SaveError

abbrev pub is_public : Mode → Bool
is_public private_mode = false
is_public public_mode = true

-- The value that saveLockedUnlocked marshals.
unfoldable pub disk_state : Server → DiskState
disk_state s = record {
  clients = s.clients;
  access = s.access;
  refresh = s.refresh;
  refresh_used = s.refresh_used;
  users = s.users;
  devices = s.devices;
  disabled_devices = s.disabled_devices;
  retired_devices = s.retired_devices;
  device_records = s.device_records;
  sessions = s.sessions;
  invites = s.invites;
  security_events = s.security_events;
  settings = record {
    adsense_client_id = s.adsense_client_id;
    adsense_slot = s.adsense_slot;
    admob_app_id = s.admob_app_id;
    admob_reward_unit_id = s.admob_reward_unit_id;
    usage_unlock_endpoint = s.usage_unlock_endpoint;
    mode = s.mode;
    registration_enabled = s.registration_enabled && is_public s.mode;
    dcr_enabled = s.dcr_enabled;
    mcp_enabled = s.mcp_enabled;
    agent_enabled = s.agent_enabled;
    kill_switch = s.kill_switch;
    usage_metering_enabled = s.usage_metering_enabled;
    usage_default_quota_bytes = s.usage_default_quota_bytes;
    usage_configured = s.usage_configured;
    monetization_configured = s.monetization_configured;
    usage_unlock_enabled = s.usage_unlock_enabled;
  };
}

abbrev set_guard : Server → Guard → Server
set_guard s g = record s { disk = record { guard = g; stored = s.disk.stored } }

abbrev set_stored : Server → Server
set_stored s = record s { disk = record { guard = s.disk.guard; stored = some (disk_state s) } }

mark_clean_step : Server → GuardWrite → Server × Option SaveError
mark_clean_step s guarded = (set_guard s clean, none)
mark_clean_step s (unguarded g) = (set_guard s g, some io_failed)

write_step : Server → StateWrite → GuardWrite → Server × Option SaveError
unfolding mark_clean_step disk_state
write_step s written end = mark_clean_step (set_stored s) end
write_step s lost end = (s, some io_failed)
write_step s renamed end = (set_stored s, some io_failed)

mark_dirty_step : Server → Outcome → GuardWrite → Server × Option SaveError
unfolding write_step
mark_dirty_step s io guarded = write_step (set_guard s dirty) io.state_write io.mark_clean
mark_dirty_step s io (unguarded g) = (set_guard s g, some io_failed)

-- saveStateTransactionUnlocked; `none` is a nil error.
unfoldable pub save_transaction : Server → Bool → Outcome → Server × Option SaveError
unfolding mark_dirty_step
save_transaction s recovery io =
    if s.persistence_fault && not recovery
    then (s, some recovery_required)
    else mark_dirty_step (if s.persistence_fault then record s { kill_switch = true } else s) io
        io.mark_dirty

latch : Server × Option SaveError → Server × Option SaveError
latch (s, none) = (s, none)
latch (s, some recovery_required) = (s, some recovery_required)
latch (s, some io_failed) = (record s { persistence_fault = true }, some io_failed)

-- saveLocked and saveRecoveryLocked, under withStateFileLock.
unfoldable pub save : Server → Outcome → Server × Option SaveError
unfolding latch save_transaction
save s io = latch (if io.locked then save_transaction s false io else (s, some io_failed))

unfoldable pub save_recovery : Server → Outcome → Server × Option SaveError
unfolding latch save_transaction
save_recovery s io = latch (if io.locked then save_transaction s true io else (s, some io_failed))

unfoldable pub roll_back : Snapshot → Server × Option SaveError → Server × Option SaveError
unfolding restore
roll_back old (s, none) = (s, none)
roll_back old (s, some e) = (restore s old, some e)

unfoldable pub save_or_rollback : Server → Snapshot → Outcome → Server × Option SaveError
unfolding roll_back save
save_or_rollback s old io = roll_back old (save s io)

unfoldable pub save_recovery_or_rollback : Server → Snapshot → Outcome → Server × Option SaveError
unfolding roll_back save_recovery
save_recovery_or_rollback s old io = roll_back old (save_recovery s io)
