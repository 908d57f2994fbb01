-- ===== src/Oauth/Register.antt =====
-- registerAndGrantAuthorization of internal/oauthserver/server.go: an account, its session and an
-- authorization code in one transaction. The account is given with its drawn identifier and hash.
use chat_with_cli.Base.{
  ℕ, ◌+◌, ◌*◌, Str, Option, none, some, Bool, true, false, ◌&&◌, ◌||◌, not, is_empty, inl, inr, leb,
  if◌then◌else◌,
}
use chat_with_cli.Base.Map
use chat_with_cli.Oauth.Platform.{Platform}
use chat_with_cli.Oauth.State.{Server, User, PendingAuth, SessionRecord, unix, hour}
use chat_with_cli.Oauth.Snapshot.{Snapshot, snapshot, restore}
use chat_with_cli.Oauth.Persist.{Outcome, save_or_rollback}
use chat_with_cli.Oauth.Authorize.{Moment}
use chat_with_cli.Oauth.Invite.{registration_policy, consume_invite}
use chat_with_cli.Oauth.Policy.{normalize_username}
use chat_with_cli.Oauth.Change.{max_users}
use chat_with_cli.Oauth.Grant.{Committed, commit_authorization, refuse_grant, saved_grant}

abbrev pub session_lifetime : ℕ
session_lifetime = 30 * 24 * hour

-- A session that begins with a sign-in.
abbrev pub new_session : Str → ℕ → SessionRecord
new_session user now = record {
  user_id = user;
  created_at = unix now;
  last_seen_at = unix now;
  last_reauth_at = unix now;
  expires = unix (now + session_lifetime);
}

module _ (lib : Platform) where
  -- The end of a registration whose request has been committed, or not.
  unfoldable pub finish_register :
      Snapshot
      → Str
      → Str
      → Str
      → ℕ
      → Server × Committed
      → Outcome
      → Server × Option (PendingAuth × Str)
  unfolding refuse_grant saved_grant
  finish_register old request user session now (s, inl e) io =
      (refuse_grant lib (restore s old) request e io, none)
  finish_register old request user session now (s, inr g) io =
      saved_grant lib
        (save_or_rollback
          (record s {
            sessions = Map.put s.sessions (lib.sha256_hex session) (new_session user now);
          })
          old io)
        g

  unfoldable pub invited_register :
      Snapshot
      → Str
      → Str
      → Str
      → ℕ
      → Server × Bool
      → Moment
      → Outcome
      → Server × Option (PendingAuth × Str)
  unfolding finish_register commit_authorization
  invited_register old request user session now (s, false) m io = (restore s old, none)
  invited_register old request user session now (s, true) m io =
      finish_register old request user session now (commit_authorization lib s request user m) io

  -- The account and its name are entered, and an invite is used if one is needed.
  unfoldable pub named_register :
      Server
      → Str
      → User
      → Option Str
      → Str
      → Str
      → ℕ
      → Moment
      → Outcome
      → Server × Option (PendingAuth × Str)
  unfolding invited_register consume_invite registration_policy
  named_register s request user none invite session now m io = (s, none)
  named_register s request user (some normalized) invite session now m io =
      if is_empty user.id || is_empty user.password_hash
      then (s, none)
      else if not (registration_policy s now).0 && not (registration_policy s now).1
      then (s, none)
      else if Map.has s.usernames normalized || leb max_users (Map.size s.users)
      then (s, none)
      else invited_register (snapshot s) request user.id session now
          (consume_invite lib
            (record s {
              users = Map.put s.users user.id user;
              usernames = Map.put s.usernames normalized user.id;
            })
            invite now)
          m io

  -- registerAndGrantAuthorization; `none` is an error.
  unfoldable pub register_and_grant :
      Server → Str → User → Str → Str → ℕ → Moment → Outcome → Server × Option (PendingAuth × Str)
  unfolding named_register normalize_username
  register_and_grant s request user invite session now m io =
      named_register s request user (normalize_username user.username) invite session now m io
