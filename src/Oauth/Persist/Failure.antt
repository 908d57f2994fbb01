-- ===== src/Oauth/Persist/Failure.antt =====
-- What a save guarantees when it succeeds and when it fails.
use chat_with_cli.Base.{none, some, true, ◌≡◌, ◌⊎◌, inl, inr, refl, arith, Option-cases}
use chat_with_cli.Oauth.State.{Server, clean}
use chat_with_cli.Oauth.Snapshot.{Snapshot, snapshot, restore}
use chat_with_cli.Oauth.Persist.{
  Outcome, SaveError, recovery_required, disk_state, save, save_or_rollback,
}

pub save_ok :
    (s : Server) (io : Outcome)
    → (save s io).1 ≡ none
    → (save s io).0 ≡ record s { disk = record { guard = clean; stored = some (disk_state s) } }
unfolding save disk_state
save_ok s io h = ground arith

-- A save that fails for any reason but a fault that is already latched latches it, and all that it
-- changes besides is the disk.
pub save_failed :
    (s : Server) (io : Outcome) (e : SaveError)
    → (save s io).1 ≡ some e
    → ((save s io).0.persistence_fault ≡ true)
      × ((e ≡ recovery_required) → (save s io).0 ≡ s)
      × (snapshot (save s io).0 ≡ snapshot s)
unfolding save snapshot
save_failed s io e h = ground arith

-- When a save fails, whatever the state was and at whatever step of the transaction, everything
-- that a snapshot holds is back as the snapshot has it, and the persistence fault is latched.
pub save_or_rollback_failed :
    (s : Server) (old : Snapshot) (io : Outcome) (e : SaveError)
    → (save_or_rollback s old io).1 ≡ some e
    → (snapshot (save_or_rollback s old io).0 ≡ old)
      × ((save_or_rollback s old io).0.persistence_fault ≡ true)
unfolding save_or_rollback snapshot
save_or_rollback_failed s old io e h = ground arith

restore-snapshot : (s : Server) → restore s (snapshot s) ≡ s
unfolding restore snapshot
restore-snapshot s = refl

-- Saving changes nothing of what a snapshot holds.
pub save-snapshot : (s : Server) (io : Outcome) → snapshot (save s io).0 ≡ snapshot s
unfolding save snapshot
save-snapshot s io = ground arith

pub save-eq-ok :
    (s : Server) (io : Outcome)
    → (save s io).1 ≡ none
    → save s io ≡ (record s { disk = record { guard = clean; stored = some (disk_state s) } }, none)
save-eq-ok s io h = ground (arith, save_ok s io h)

pub save-cases :
    (s : Server) (io : Outcome)
    → (save s io
        ≡ (record s { disk = record { guard = clean; stored = some (disk_state s) } }, none))
      ⊎ ((e : SaveError) × (save s io ≡ ((save s io).0, some e)))
save-cases s io = elim (Option-cases (save s io).1) [
  | inl h ↦ inl (save-eq-ok s io h)
  | inr (e, h) ↦ inr (e, ground arith)
]
