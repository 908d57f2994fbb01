-- ===== src/Oauth/Admin/Gate.antt =====
-- The tests of handleAdminAction in front of an action.
use chat_with_cli.Base.{
  ℕ, Str, Option, none, some, Bool, true, false, not, ◌&&◌, ◌≡◌, ◌⊎◌, inl, inr, refl, arith,
  if◌then◌else◌, codes, str_eq, str_beq_iff,
}
use chat_with_cli.Oauth.Platform.{Platform}
use chat_with_cli.Oauth.State.{Server, User}
use chat_with_cli.Oauth.Persist.{Outcome, SaveError}
use chat_with_cli.Oauth.Policy.{
  Action, AdminError, requires_fresh_auth, confirm_required, valid_confirmation, revoke_device,
}
use chat_with_cli.Oauth.Admin.{
  reauthenticate, unconfirmed, done, action_reply, admin_session_fresh, apply_admin_action,
  handle_admin_action,
}

revoked_fresh :
    (value : Str) (b : Bool) → (requires_fresh_auth revoke_device value && not b) ≡ false → b ≡ true
unfolding requires_fresh_auth
revoked_fresh value true h = refl
revoked_fresh value false h = cc

revoked_confirmed :
    (value confirmation : Str)
    → (confirm_required revoke_device value
        && not (valid_confirmation revoke_device value confirmation))
      ≡ false
    → confirmation ≡ codes "REVOKE"
unfolding confirm_required valid_confirmation
revoked_confirmed value confirmation h =
    ground (arith, h, str_beq_iff confirmation (codes "REVOKE"))

module _ (lib : Platform) where
  action_reply-done :
      (x : Server × Option (AdminError ⊎ SaveError))
      → (action_reply lib x).1 ≡ done
      → (x.1 ≡ none) × ((action_reply lib x).0 ≡ x.0)
  unfolding action_reply
  action_reply-done (s, none) h = (refl, refl)
  action_reply-done (s, some e) h = cc

  action_reply-state : (x : Server × Option (AdminError ⊎ SaveError)) → (action_reply lib x).0 ≡ x.0
  unfolding action_reply
  action_reply-state (s, none) = refl
  action_reply-state (s, some e) = refl

  gate_state :
      (b c : Bool) (s : Server) (x : Server × Option (AdminError ⊎ SaveError))
      → ((if b then (s, reauthenticate) else if c then (s, unconfirmed) else action_reply lib x).0
          ≡ s)
        ⊎ ((if b then (s, reauthenticate) else if c then (s, unconfirmed) else action_reply lib x).0
            ≡ x.0)
  gate_state true c s x = inl refl
  gate_state false true s x = inl refl
  gate_state false false s x = inr (action_reply-state x)

  gate_done :
      (b c : Bool) (s : Server) (x : Server × Option (AdminError ⊎ SaveError))
      → (if b then (s, reauthenticate) else if c then (s, unconfirmed) else action_reply lib x).1
        ≡ done
      → (b ≡ false)
        × (c ≡ false)
        × (x.1 ≡ none)
        × ((if b then (s, reauthenticate) else if c then (s, unconfirmed) else action_reply lib x).0
            ≡ x.0)
  gate_done true c s x h = cc
  gate_done false true s x h = cc
  gate_done false false s x h = let (e, f) = action_reply-done x h in (refl, refl, e, f)

  -- The state is as it was, or as the action left it.
  pub handle_admin_action-state :
      (s : Server) (cookie : Str) (current : User) (action : Action)
      (target value confirmation hash new_id : Str) (now : ℕ) (io : Outcome)
      → ((handle_admin_action lib s cookie current action target value confirmation hash new_id now
            io).0
          ≡ s)
        ⊎ ((handle_admin_action lib s cookie current action target value confirmation hash new_id
              now io).0
            ≡ (apply_admin_action lib s current action target value hash new_id now io).0)
  unfolding handle_admin_action
  handle_admin_action-state s cookie current action target value confirmation hash new_id now io =
      gate_state (requires_fresh_auth action value && not (admin_session_fresh lib s cookie now))
        (confirm_required action value && not (valid_confirmation action value confirmation)) s
        (apply_admin_action lib s current action target value hash new_id now io)

  -- What has passed before an action was done.
  pub record Passed (s : Server) (cookie : Str) (current : User) (action : Action)
      (target value confirmation hash new_id : Str) (now : ℕ) (io : Outcome) : Type 0 where
    pub fresh :
        (requires_fresh_auth action value && not (admin_session_fresh lib s cookie now)) ≡ false
    pub confirmed :
        (confirm_required action value && not (valid_confirmation action value confirmation))
        ≡ false
    pub applied : (apply_admin_action lib s current action target value hash new_id now io).1 ≡ none
    pub left :
        (handle_admin_action lib s cookie current action target value confirmation hash new_id now
          io).0
        ≡ (apply_admin_action lib s current action target value hash new_id now io).0

  pub handle_admin_action-Passed :
      (s : Server) (cookie : Str) (current : User) (action : Action)
      (target value confirmation hash new_id : Str) (now : ℕ) (io : Outcome)
      → (handle_admin_action lib s cookie current action target value confirmation hash new_id now
          io).1
        ≡ done
      → Passed s cookie current action target value confirmation hash new_id now io
  unfolding handle_admin_action
  handle_admin_action-Passed s cookie current action target value confirmation hash new_id now io
        h =
      let (a, b, c, d) =
        gate_done (requires_fresh_auth action value && not (admin_session_fresh lib s cookie now))
          (confirm_required action value && not (valid_confirmation action value confirmation)) s
          (apply_admin_action lib s current action target value hash new_id now io) h in
      record { fresh = a; confirmed = b; applied = c; left = d }

  -- A device is revoked in a fresh session and with a confirmation.
  pub revoke_device-Passed :
      (s : Server) (cookie : Str) (current : User) (target value confirmation hash new_id : Str)
      (now : ℕ) (io : Outcome)
      → Passed s cookie current revoke_device target value confirmation hash new_id now io
      → (admin_session_fresh lib s cookie now ≡ true) × (confirmation ≡ codes "REVOKE")
  revoke_device-Passed s cookie current target value confirmation hash new_id now io p = (
    revoked_fresh value (admin_session_fresh lib s cookie now) p.fresh,
    revoked_confirmed value confirmation p.confirmed,
  )
