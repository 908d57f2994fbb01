-- ===== src/Tests/Saving.antt =====
-- Saves that fail, on the small relay.
use chat_with_cli.Base.{true, some, ◌≡◌, refl}
use chat_with_cli.Oauth.Snapshot.{snapshot}
use chat_with_cli.Oauth.Persist.{Outcome, guarded, lost, io_failed, save_or_rollback}
use chat_with_cli.Oauth.Persist.Failure.{save_or_rollback_failed}
use chat_with_cli.Oauth.State.{Server}
use chat_with_cli.Tests.Fixture.{server}

-- The state file cannot be written.
abbrev broken : Outcome
broken = record { locked = true; mark_dirty = guarded; state_write = lost; mark_clean = guarded }

abbrev changed : Server
changed = record server { kill_switch = true }

failed : (save_or_rollback changed (snapshot server) broken).1 ≡ some io_failed
unfolding save_or_rollback snapshot
failed = refl

save_or_rollback_failed_example :
    (snapshot (save_or_rollback changed (snapshot server) broken).0 ≡ snapshot server)
    × ((save_or_rollback changed (snapshot server) broken).0.persistence_fault ≡ true)
save_or_rollback_failed_example =
    save_or_rollback_failed changed (snapshot server) broken io_failed failed
