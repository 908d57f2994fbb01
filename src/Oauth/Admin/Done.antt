-- ===== src/Oauth/Admin/Done.antt =====
-- What an action that succeeds has done.
use mathlib.Core.Path.{subst}
use chat_with_cli.Base.{
  ℕ, Str, Option, none, some, Bool, true, false, not, ◌≡◌, ◌⊎◌, inl, refl, ap, sym, ◌∙◌,
  if◌then◌else◌, ◌&&◌,
}
use chat_with_cli.Oauth.Platform.{Platform}
use chat_with_cli.Oauth.State.{Server, User}
use chat_with_cli.Oauth.Invite.{live_admin}
use chat_with_cli.Oauth.Snapshot.{Snapshot, snapshot}
use chat_with_cli.Oauth.Persist.{
  Outcome, SaveError, save_or_rollback, save_recovery_or_rollback, save_recovery, save, roll_back,
}
use chat_with_cli.Oauth.Persist.Frame.{Touched, save-Touched, save_recovery-Touched}
use chat_with_cli.Oauth.Policy.{
  Action, AdminError, bad_password, invalid_action, recovery_allowed, recovery_only,
}
use chat_with_cli.Oauth.Change.{Changed, changed, failed}
use chat_with_cli.Oauth.Admin.{
  apply_change, apply_admin_action, finish_action, saved_action, bad_value,
}

pub changed_inj : {s t : Server} → changed s ≡ changed t → s ≡ t
changed_inj e = cc

-- A guarded change that goes through is the change.
pub guarded_changed :
    (b : Bool) (e : AdminError) (x t : Server)
    → (if b then failed e else changed x) ≡ changed t
    → x ≡ t
guarded_changed true e x t h = cc
guarded_changed false e x t h = cc

module _ (lib : Platform) where
  -- The change was made, and then only the disk and the switches of recovery were touched.
  pub record Done (c : Changed) (t : Server) : Type 0 where
    pub after : Server
    pub made : c ≡ changed after
    pub saved : Touched after t

  rolled-kept :
      (old : Snapshot) (x : Server × Option SaveError)
      → (saved_action lib (roll_back old x)).1 ≡ none
      → (saved_action lib (roll_back old x)).0 ≡ x.0
  unfolding roll_back saved_action
  rolled-kept old (t, none) h = refl
  rolled-kept old (t, some e) h = cc

  finish_action-Done :
      (s : Server) (b : Bool) (c : Changed) (io : Outcome)
      → (finish_action lib s b c io).1 ≡ none
      → Done c (finish_action lib s b c io).0
  unfolding finish_action save_or_rollback save_recovery_or_rollback
  finish_action-Done s b (failed e) io h = cc
  finish_action-Done s true (changed t) io h = record {
    after = t;
    made = refl;
    saved =
        subst (λ z. Touched t z) (sym (rolled-kept (snapshot s) (save_recovery t io) h))
          (save_recovery-Touched t io);
  }
  finish_action-Done s false (changed t) io h = record {
    after = t;
    made = refl;
    saved =
        subst (λ z. Touched t z) (sym (rolled-kept (snapshot s) (save t io) h)) (save-Touched t io);
  }

  allowed-Done :
      (s : Server) (bad live permitted fault : Bool) (c : Changed) (io : Outcome)
      (x : Server × Option (AdminError ⊎ SaveError))
      → x ≡ (
          if bad
          then (s, some (inl bad_password))
          else if not live
          then (s, some (inl (if fault then recovery_only else invalid_action)))
          else if fault && not permitted
          then (s, some (inl recovery_only))
          else finish_action lib s fault c io)
      → x.1 ≡ none
      → Done c x.0
  allowed-Done s true live permitted fault c io x e h = cc
  allowed-Done s false false permitted fault c io x e h = cc
  allowed-Done s false true false true c io x e h = cc
  allowed-Done s false true true true c io x e h =
      subst (λ z. Done c z.0) (sym e) (finish_action-Done s true c io (ap (λ z. z.1) (sym e) ∙ h))
  allowed-Done s false true permitted false c io x e h =
      subst (λ z. Done c z.0) (sym e) (finish_action-Done s false c io (ap (λ z. z.1) (sym e) ∙ h))

  pub apply_admin_action-Done :
      (s : Server) (current : User) (action : Action) (target value hash new_id : Str) (now : ℕ)
      (io : Outcome)
      → (apply_admin_action lib s current action target value hash new_id now io).1 ≡ none
      → Done
          (apply_change lib s current action target value hash new_id now)
          (apply_admin_action lib s current action target value hash new_id now io).0
  unfolding apply_admin_action
  apply_admin_action-Done s current action target value hash new_id now io h =
      allowed-Done s (bad_value lib action value) (live_admin s current)
        (recovery_allowed action value) s.persistence_fault
        (apply_change lib s current action target value hash new_id now) io _ refl h
