-- ===== src/Oauth/Admin/Credentials.antt =====
-- Actions that end what an account holds.
use mathlib.Core.Path.{subst}
use chat_with_cli.Base.{
  ℕ, Str, Option, none, some, true, not, ◌≡◌, ◌≢◌, ap, sym, ◌∙◌, arith, str_beq_iff, ◌==◌, str_eq,
}
use chat_with_cli.Base.Map
use chat_with_cli.Oauth.Platform.{Platform}
use chat_with_cli.Oauth.State.{Server, User, TokenRecord, SessionRecord, AuthCode, PendingAuth}
use chat_with_cli.Oauth.Persist.{Outcome}
use chat_with_cli.Oauth.Persist.Frame.{Touched}
use chat_with_cli.Oauth.Revoke.{delete_user_sessions, revoke_user_credentials}
use chat_with_cli.Oauth.Admin.Gate.{handle_admin_action-Passed}
use chat_with_cli.Oauth.Admin.{done, handle_admin_action}
use chat_with_cli.Oauth.Admin.Done.{guarded_changed, apply_admin_action-Done}
use chat_with_cli.Oauth.Policy.{Action, delete_user, disable_user, parse_toggle, rotate_password}
use chat_with_cli.Oauth.Change.{
  change_user, changed, delete_account, delete_known, devices_of, retire_each, rotate_user,
  switch_user,
}
use chat_with_cli.Oauth.Admin.{apply_change, apply_admin_action}

-- No table holds anything of the account.
pub record Stripped (s : Server) (user : Str) : Type 0 where
  pub access : (k : Str) (r : TokenRecord) → Map.get s.access k ≡ some r → r.user_id ≢ user
  pub refresh : (k : Str) (r : TokenRecord) → Map.get s.refresh k ≡ some r → r.user_id ≢ user
  pub refresh_used :
      (k : Str) (r : TokenRecord) → Map.get s.refresh_used k ≡ some r → r.user_id ≢ user
  pub codes : (k : Str) (c : AuthCode) → Map.get s.codes k ≡ some c → c.grant.user_id ≢ user
  pub pending : (k : Str) (p : PendingAuth) → Map.get s.pending k ≡ some p → p.user_id ≢ user
  pub sessions : (k : Str) (r : SessionRecord) → Map.get s.sessions k ≡ some r → r.user_id ≢ user

-- What is left of a table without the entries of one account.
retain-foreign :
    {V : Type 0} (owner : V → Str) (m : Map.Map V) (user k : Str) (v : V)
    → Map.get (Map.retain (λ _ w. not (owner w == user)) m) k ≡ some v
    → owner v ≢ user
retain-foreign owner m user k v h e =
    let (x, y) =
      Map.filter_value-eq-some (λ w. not (owner w == user)) (Map.get m k) v
        (sym (Map.get-retain (λ _ w. not (owner w == user)) m k) ∙ h) in
    ground (arith, y, e, str_beq_iff (owner v) user)

revoke_user_credentials-Stripped :
    (s : Server) (user : Str) → Stripped (revoke_user_credentials s user) user
unfolding revoke_user_credentials delete_user_sessions
revoke_user_credentials-Stripped s user = record {
  access = λ k r h. retain-foreign (λ w. w.user_id) s.access user k r h;
  refresh = λ k r h. retain-foreign (λ w. w.user_id) s.refresh user k r h;
  refresh_used = λ k r h. retain-foreign (λ w. w.user_id) s.refresh_used user k r h;
  codes = λ k c h. retain-foreign (λ w. w.grant.user_id) s.codes user k c h;
  pending = λ k p h. retain-foreign (λ w. w.user_id) s.pending user k p h;
  sessions = λ k r h. retain-foreign (λ w. w.user_id) s.sessions user k r h;
}

-- The actions that take away what an account holds.
pub data Strips : Action → Str → Type 0 where
  disables : {value : Str} → parse_toggle value ≡ some true → Strips disable_user value
  rotates : {value : Str} → Strips rotate_password value
  deletes : {value : Str} → Strips delete_user value

module _ (lib : Platform) where
  delete_account-Stripped : (s : Server) (user : Str) → Stripped (delete_account lib s user) user
  unfolding delete_account
  delete_account-Stripped s user =
      let t = record s {
        users = Map.remove s.users user;
        usernames = Map.retain (λ _ id. not (id == user)) s.usernames;
      } in
      let p = revoke_user_credentials-Stripped (retire_each lib t (devices_of lib t user)) user in
      record {
        access = p.access;
        refresh = p.refresh;
        refresh_used = p.refresh_used;
        codes = p.codes;
        pending = p.pending;
        sessions = p.sessions;
      }

  delete_known-Stripped :
      (s t : Server) (current : User) (target : Str) (o : Option User)
      → delete_known lib s current target o ≡ changed t
      → Stripped t target
  unfolding delete_known
  delete_known-Stripped s t current target none h = absurd (ground arith)
  delete_known-Stripped s t current target (some u) h =
      subst (λ z. Stripped z target) (guarded_changed _ _ _ t h) (delete_account-Stripped s target)

  change_user-Stripped :
      (s t : Server) (current : User) (target : Str) (o : Option User)
      → change_user s current target o (some true) ≡ changed t
      → Stripped t target
  unfolding change_user switch_user
  change_user-Stripped s t current target none h = cc
  change_user-Stripped s t current target (some u) h =
      subst (λ z. Stripped z target) (guarded_changed _ _ _ t h)
        (revoke_user_credentials-Stripped _ target)

  rotate_user-Stripped :
      (s t : Server) (target hash : Str) (o : Option User)
      → rotate_user s target hash o ≡ changed t
      → Stripped t target
  unfolding rotate_user
  rotate_user-Stripped s t target hash none h = cc
  rotate_user-Stripped s t target hash (some u) h =
      subst (λ z. Stripped z target) (guarded_changed _ _ _ t h)
        (revoke_user_credentials-Stripped _ target)

  apply_change-Stripped :
      (s t : Server) (current : User) {action : Action} {value : Str} (target hash new_id : Str)
      (now : ℕ)
      → Strips action value
      → apply_change lib s current action target value hash new_id now ≡ changed t
      → Stripped t target
  unfolding apply_change
  apply_change-Stripped s t current target hash new_id now (disables e) h =
      change_user-Stripped s t current target (Map.get s.users target)
        (ap (λ o. change_user s current target (Map.get s.users target) o) (sym e) ∙ h)
  apply_change-Stripped s t current target hash new_id now rotates h =
      rotate_user-Stripped s t target hash (Map.get s.users target) h
  apply_change-Stripped s t current target hash new_id now deletes h =
      delete_known-Stripped s t current target (Map.get s.users target) h

  Touched-Stripped : (s t : Server) (user : Str) → Touched s t → Stripped s user → Stripped t user
  Touched-Stripped s t user w p =
      subst (λ z. Stripped z user) (sym w.kept)
        (record {
          access = p.access;
          refresh = p.refresh;
          refresh_used = p.refresh_used;
          codes = p.codes;
          pending = p.pending;
          sessions = p.sessions;
        })

  applied-Stripped :
      (s : Server) (current : User) (action : Action) (target value hash new_id : Str) (now : ℕ)
      (io : Outcome)
      → Strips action value
      → (apply_admin_action lib s current action target value hash new_id now io).1 ≡ none
      → Stripped (apply_admin_action lib s current action target value hash new_id now io).0 target
  applied-Stripped s current action target value hash new_id now io w h =
      let d = apply_admin_action-Done lib s current action target value hash new_id now io h in
      Touched-Stripped d.after _ target d.saved
        (apply_change-Stripped s d.after current target hash new_id now w d.made)

  -- When disabling or deleting an account or giving it a new password succeeds, in recovery or not,
  -- no session, token, code or request of the account is left.
  pub handle_admin_action-Stripped :
      (s : Server) (cookie : Str) (current : User) (action : Action)
      (target value confirmation hash new_id : Str) (now : ℕ) (io : Outcome)
      → Strips action value
      → (handle_admin_action lib s cookie current action target value confirmation hash new_id now
          io).1
        ≡ done
      → Stripped
          (handle_admin_action lib s cookie current action target value confirmation hash new_id now
            io).0
          target
  handle_admin_action-Stripped s cookie current action target value confirmation hash new_id now io
        w h =
      let p =
        handle_admin_action-Passed lib s cookie current action target value confirmation hash new_id
          now io h in
      subst (λ z. Stripped z target) (sym p.left)
        (applied-Stripped s current action target value hash new_id now io w p.applied)
