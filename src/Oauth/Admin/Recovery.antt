-- ===== src/Oauth/Admin/Recovery.antt =====
-- Administration while authorization recovers from a failed save only reduces authority.
use mathlib.Core.Path.{subst}
use chat_with_cli.Base.{
  ℕ, Str, Option, none, some, Bool, true, false, not, ◌≡◌, inl, inr, refl, sym, ◌∙◌, str_eq,
  if◌then◌else◌, ◌&&◌,
}
use chat_with_cli.Base.Map
use chat_with_cli.Oauth.Platform.{Platform}
use chat_with_cli.Oauth.State.{Server, Disk, User}
use chat_with_cli.Oauth.Resource.{Kind, resource_parts, absolute}
use chat_with_cli.Oauth.Access.{active_user}
use chat_with_cli.Oauth.Admin.Below.{Below, Below-refl, Below-trans}
use chat_with_cli.Oauth.Admin.Gate.{handle_admin_action-state}
use chat_with_cli.Oauth.Admin.{handle_admin_action}
use chat_with_cli.Oauth.Admin.Permitted.{apply_change-Below}
use chat_with_cli.Oauth.Access.{verify_access_key}
use chat_with_cli.Oauth.Access.Spec.{
  ActiveUser, OpenDevice, Capability, tools, connection, MayAccess, verify_access_key_iff,
  record_allows_sound, record_allows_complete, active_user_sound, active_user_complete,
}
use chat_with_cli.Oauth.Persist.Frame.{Touched, save_recovery-Touched}
use chat_with_cli.Oauth.Invite.{live_admin}
use chat_with_cli.Oauth.Snapshot.{snapshot, restore}
use chat_with_cli.Oauth.Persist.{
  Outcome, SaveError, save_recovery, save_recovery_or_rollback, roll_back,
}
use chat_with_cli.Oauth.Policy.{
  Action, bad_password, invalid_action, recovery_allowed, recovery_only,
}
use chat_with_cli.Oauth.Change.{Changed, changed, failed}
use chat_with_cli.Oauth.Admin.{
  apply_change, apply_admin_action, finish_action, saved_action, bad_value,
}

-- The state as it is once the relay has been restarted and the kill switch released.
abbrev pub released : Server → Server
released s = record s { persistence_fault = false; kill_switch = false }

module _ (lib : Platform) where
  user-Below :
      (s t : Server) (id : Str)
      → Below lib t s
      → ActiveUser (released t) id
      → ActiveUser (released s) id
  user-Below s t id b a =
      let x = active_user_sound s id (
        b.users id (
          active_user_complete t id
            (record { user = a.user; found = a.found; own_id = a.own_id; enabled = a.enabled }))) in
      record { user = x.user; found = x.found; own_id = x.own_id; enabled = x.enabled }

  Capability-Below :
      (s t : Server) (scope : Str) (k : Kind)
      → Below lib t s
      → Capability (released t) scope k
      → Capability (released s) scope k
  Capability-Below s t scope k b (tools x y z) = tools x y (b.mcp z)
  Capability-Below s t scope k b (connection x y z) = connection x y (b.agent z)

  device-Below :
      (s t : Server) (user d : Str)
      → Below lib t s
      → OpenDevice (released t) user d
      → OpenDevice (released s) user d
  device-Below s t user d b o =
      let (x, y, z, w) = b.device user d o.enabled o.kept o.owner in
      record {
        enabled = x;
        kept = y;
        owner = z;
        recorded = λ r e.
            record_allows_sound (Map.get s.device_records d) user r
              (w (record_allows_complete (Map.get t.device_records d) user o.recorded)) e;
      }

  access-Below :
      (s t : Server) (key resource scope : Str)
      → Below lib t s
      → MayAccess lib (released t) key resource scope
      → MayAccess lib (released s) key resource scope
  unfolding resource_parts absolute
  access-Below s t key resource scope b a = record {
    token = a.token;
    found = b.tokens key a.token a.found;
    bound = a.bound;
    granted = a.granted;
    named = a.named;
    user = user-Below s t a.token.user_id b a.user;
    client = record {
      client = a.client.client;
      found = b.clients a.token.client_id a.client.client a.client.found;
      own_id = a.client.own_id;
      named = a.client.named;
      approved = a.client.approved;
    };
    durable = refl;
    running = refl;
    parts = a.parts;
    parsed = sym (b.parts resource) ∙ a.parsed;
    capability = Capability-Below s t scope a.parts.kind b a.capability;
    device = elim a.device [
      | inl p ↦ inl p
      | inr o ↦ inr (device-Below s t a.token.user_id a.parts.device b o)
    ];
  }

  switched-off :
      (s : Server) (k f : Bool) (d : Disk)
      → Below lib (record s { kill_switch = k; persistence_fault = f; disk = d }) s
  unfolding resource_parts absolute active_user
  switched-off s k f d = record {
    parts = λ r. refl;
    tokens = λ k r h. h;
    clients = λ k c h. h;
    users = λ id h. h;
    mcp = λ h. h;
    agent = λ h. h;
    device = λ user d a b c. (a, b, c, λ h. h);
  }

  Touched-Below : (s t : Server) → Touched s t → Below lib t s
  Touched-Below s t w =
      subst (λ z. Below lib z s) (sym w.kept) (switched-off s w.kill w.fault w.disk)

  restored-Below : (s t : Server) → Below lib t s → Below lib (restore t (snapshot s)) s
  unfolding restore snapshot resource_parts absolute active_user
  restored-Below s t b = record {
    parts = b.parts;
    tokens = λ k r h. h;
    clients = λ k c h. h;
    users = λ id h. h;
    mcp = λ h. h;
    agent = λ h. h;
    device = λ user d a b c. (a, b, c, λ h. h);
  }

  rolled-Below :
      (s : Server) (x : Server × Option SaveError)
      → Below lib x.0 s
      → Below lib (roll_back (snapshot s) x).0 s
  unfolding roll_back
  rolled-Below s (t, none) b = b
  rolled-Below s (t, some e) b = restored-Below s t b

  saved_action-Below :
      (s : Server) (x : Server × Option SaveError)
      → Below lib x.0 s
      → Below lib (saved_action lib x).0 s
  unfolding saved_action
  saved_action-Below s (t, none) b = b
  saved_action-Below s (t, some e) b = b

  finish_action-Below :
      (s : Server) (c : Changed) (io : Outcome)
      → ((t : Server) → c ≡ changed t → Below lib t s)
      → Below lib (finish_action lib s true c io).0 s
  unfolding finish_action save_recovery_or_rollback
  finish_action-Below s (failed e) io p = Below-refl lib s
  finish_action-Below s (changed t) io p = saved_action-Below s _ (
      rolled-Below s (save_recovery t io) (
        Below-trans lib _ t s (Touched-Below t (save_recovery t io).0 (save_recovery-Touched t io))
          (p t refl)))

  -- The four ways through the tests of the action.
  allowed-Below :
      (s : Server) (bad live permitted fault : Bool) (c : Changed) (io : Outcome)
      → fault ≡ true
      → (permitted ≡ true → Below lib (finish_action lib s true c io).0 s)
      → Below lib
          (if bad
            then (s, some (inl bad_password))
            else if not live
            then (s, some (inl (if fault then recovery_only else invalid_action)))
            else if fault && not permitted
            then (s, some (inl recovery_only))
            else finish_action lib s fault c io).0
          s
  allowed-Below s true live permitted fault c io h p = Below-refl lib s
  allowed-Below s false false permitted fault c io h p = Below-refl lib s
  allowed-Below s false true permitted false c io h p = cc
  allowed-Below s false true false true c io h p = Below-refl lib s
  allowed-Below s false true true true c io h p = p refl

  apply_admin_action-Below :
      (s : Server) (current : User) (action : Action) (target value hash new_id : Str) (now : ℕ)
      (io : Outcome)
      → s.persistence_fault ≡ true
      → Below lib (apply_admin_action lib s current action target value hash new_id now io).0 s
  unfolding apply_admin_action
  apply_admin_action-Below s current action target value hash new_id now io h =
      let c = apply_change lib s current action target value hash new_id now in
      allowed-Below s (bad_value lib action value) (live_admin s current)
        (recovery_allowed action value) s.persistence_fault c io h
        (λ k.
          finish_action-Below s c io
            (λ t e. apply_change-Below lib s t current action target value hash new_id now k e))

  handle_admin_action-Below :
      (s : Server) (cookie : Str) (current : User) (action : Action)
      (target value confirmation hash new_id : Str) (now : ℕ) (io : Outcome)
      → s.persistence_fault ≡ true
      → Below lib
          (handle_admin_action lib s cookie current action target value confirmation hash new_id now
            io).0
          s
  handle_admin_action-Below s cookie current action target value confirmation hash new_id now io h =
      elim (handle_admin_action-state lib s cookie current action target value confirmation hash
        new_id now io) [
          | inl e ↦ subst (λ z. Below lib z s) (sym e) (Below-refl lib s)
          | inr e ↦
              subst (λ z. Below lib z s) (sym e)
                (apply_admin_action-Below s current action target value hash new_id now io h)
        ]

  -- While a fault is latched, no action of an administrator, whether it is permitted, whether it is
  -- saved and wherever the save fails, makes a token open a resource that it would not have opened
  -- before once the relay is restarted and the kill switch released.
  pub handle_admin_action_reduces :
      (s : Server) (cookie : Str) (current : User) (action : Action)
      (target value confirmation hash new_id : Str) (now : ℕ) (io : Outcome)
      (key resource scope : Str)
      → s.persistence_fault ≡ true
      → verify_access_key lib
          (released
            (handle_admin_action lib s cookie current action target value confirmation hash new_id
              now io).0)
          key
          resource
          scope
        ≡ true
      → verify_access_key lib (released s) key resource scope ≡ true
  handle_admin_action_reduces s cookie current action target value confirmation hash new_id now io
        key resource scope h v =
      let t =
        (handle_admin_action lib s cookie current action target value confirmation hash new_id now
          io).0 in
      (verify_access_key_iff lib (released s) key resource scope).1 (
        access-Below s t key resource scope
          (handle_admin_action-Below s cookie current action target value confirmation hash new_id
            now io h)
          ((verify_access_key_iff lib (released t) key resource scope).0 v))
