-- ===== src/Oauth/Persist/Frame.antt =====
-- What a save touches in memory.
use chat_with_cli.Base.{
  Option, none, some, Bool, true, false, not, ◌&&◌, ◌≡◌, ◌∙◌, ap, refl, if◌then◌else◌,
}
use chat_with_cli.Oauth.State.{Server, Disk, Guard, dirty}
use chat_with_cli.Oauth.Persist.{
  save, Outcome, SaveError, recovery_required, io_failed, GuardWrite, guarded, unguarded,
  StateWrite, written, lost, renamed, save_recovery, save_transaction, latch, mark_dirty_step,
  write_step, mark_clean_step, set_guard,
}

-- The kill switch, the fault and the disk may differ, and nothing else.
pub record Touched (s t : Server) : Type 0 where
  pub kill : Bool
  pub fault : Bool
  pub disk : Disk
  pub kept : t ≡ record s { kill_switch = kill; persistence_fault = fault; disk = disk }

mark_clean_step-Touched : (s : Server) (w : GuardWrite) → Touched s (mark_clean_step s w).0
unfolding mark_clean_step
mark_clean_step-Touched s guarded = record { kill = _; fault = _; disk = _; kept = refl }
mark_clean_step-Touched s (unguarded g) = record { kill = _; fault = _; disk = _; kept = refl }

write_step-Touched : (s : Server) (w : StateWrite) (e : GuardWrite) → Touched s (write_step s w e).0
unfolding write_step mark_clean_step
write_step-Touched s written guarded = record { kill = _; fault = _; disk = _; kept = refl }
write_step-Touched s written (unguarded g) = record { kill = _; fault = _; disk = _; kept = refl }
write_step-Touched s lost e = record { kill = _; fault = _; disk = _; kept = refl }
write_step-Touched s renamed e = record { kill = _; fault = _; disk = _; kept = refl }

Touched-trans : (s t u : Server) → Touched s t → Touched t u → Touched s u
Touched-trans s t u p q = record {
  kill = q.kill;
  fault = q.fault;
  disk = q.disk;
  kept =
      q.kept
      ∙ ap {A = Server} {B = Server}
          (λ z. record z { kill_switch = q.kill; persistence_fault = q.fault; disk = q.disk })
          p.kept;
}

guard-Touched : (s : Server) (g : Guard) → Touched s (set_guard s g)
guard-Touched s g = record { kill = _; fault = _; disk = _; kept = refl }

mark_dirty_step-Touched :
    (s : Server) (io : Outcome) (w : GuardWrite) → Touched s (mark_dirty_step s io w).0
unfolding mark_dirty_step
mark_dirty_step-Touched s io guarded =
    Touched-trans s (set_guard s dirty) _ (guard-Touched s dirty)
      (write_step-Touched (set_guard s dirty) io.state_write io.mark_clean)
mark_dirty_step-Touched s io (unguarded g) = guard-Touched s g

locked_down-Touched :
    (s : Server) (b : Bool) → Touched s (if b then record s { kill_switch = true } else s)
locked_down-Touched s true = record { kill = _; fault = _; disk = _; kept = refl }
locked_down-Touched s false = record { kill = _; fault = _; disk = _; kept = refl }

entered-Touched :
    (s : Server) (b f : Bool) (io : Outcome)
    → Touched s
        (if b
          then (s, some recovery_required)
          else mark_dirty_step
              (if f then record s { kill_switch = true } else s)
              io
              io.mark_dirty).0
entered-Touched s true f io = locked_down-Touched s false
entered-Touched s false f io =
    let t = if f then record s { kill_switch = true } else s in
    Touched-trans s t _ (locked_down-Touched s f) (mark_dirty_step-Touched t io io.mark_dirty)

save_transaction-Touched :
    (s : Server) (recovery : Bool) (io : Outcome) → Touched s (save_transaction s recovery io).0
unfolding save_transaction
save_transaction-Touched s recovery io =
    entered-Touched s (s.persistence_fault && not recovery) s.persistence_fault io

latch-Touched : (s : Server) (x : Server × Option SaveError) → Touched s x.0 → Touched s (latch x).0
unfolding latch
latch-Touched s (t, none) p = p
latch-Touched s (t, some recovery_required) p = p
latch-Touched s (t, some io_failed) p =
    Touched-trans s t _ p (record { kill = _; fault = true; disk = _; kept = refl })

tried-Touched :
    (s : Server) (io : Outcome) (recovery b : Bool)
    → Touched s (if b then save_transaction s recovery io else (s, some io_failed)).0
tried-Touched s io recovery true = save_transaction-Touched s recovery io
tried-Touched s io recovery false = locked_down-Touched s false

pub save_recovery-Touched : (s : Server) (io : Outcome) → Touched s (save_recovery s io).0
unfolding save_recovery
save_recovery-Touched s io = latch-Touched s _ (tried-Touched s io true io.locked)

pub save-Touched : (s : Server) (io : Outcome) → Touched s (save s io).0
unfolding save
save-Touched s io = latch-Touched s _ (tried-Touched s io false io.locked)
