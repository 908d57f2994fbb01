-- ===== src/Oauth/Invite.antt =====
-- internal/oauthserver/invite.go: the registration policy, and invites made and consumed.
pub mod Uses
use chat_with_cli.Base.{
  ℕ, ◌+◌, ◌-◌, ◌*◌, Str, is_empty, Option, none, some, Bool, true, false, ◌||◌, ◌&&◌, not, length,
  ltb, leb, ◌==◌, nat_eq, str_eq, trim_space, if◌then◌else◌,
}
use chat_with_cli.Base.Map
use chat_with_cli.Oauth.Platform.{Platform}
use chat_with_cli.Oauth.State.{
  Server, User, InviteRecord, Mode, public_mode, private_mode, unix, hour,
}
use chat_with_cli.Oauth.Cleanup.{cleanup}
use chat_with_cli.Oauth.Snapshot.{snapshot}
use chat_with_cli.Oauth.Persist.{is_public, Outcome, SaveError, save_or_rollback}

abbrev pub max_invites : ℕ
max_invites = 1024

-- 24 hours in nanoseconds
abbrev pub invite_lifetime : ℕ
invite_lifetime = 24 * hour

abbrev usable_invite : ℕ → InviteRecord → Bool
usable_invite stamp r = ltb stamp r.expires && ltb 0 r.uses_remaining

-- registrationPolicyLocked: whether registration is open, and whether it takes an invite.
unfoldable pub registration_policy : Server → ℕ → Bool × Bool
registration_policy s now =
    if not (is_public s.mode) || not (is_empty s.setup_token_hash)
    then (false, false)
    else if s.registration_enabled
    then (true, false)
    else (false, not (Map.size (Map.retain (λ _ r. usable_invite (unix now) r) s.invites) == 0))

use_invite : Server → Str → InviteRecord → Server
use_invite s key r =
    if leb r.uses_remaining 1 then record s { invites = Map.remove s.invites key } else record s {
      invites = Map.put s.invites key (record r { uses_remaining = r.uses_remaining - 1 });
    }

found_invite : Server → Str → ℕ → Option InviteRecord → Server × Bool
unfolding use_invite
found_invite s key now none = (s, false)
found_invite s key now (some r) =
    if leb r.expires (unix now) || r.uses_remaining == 0
    then (s, false)
    else (use_invite s key r, true)

pub data InviteReply : Type 0 where
  created unavailable too_many not_saved : InviteReply

-- liveAdminLocked
unfoldable pub live_admin : Server → User → Bool
live_admin s current = elim (Map.get s.users current.id) [
  | none ↦ false
  | some live ↦
      live.id == current.id
      && live.admin
      && not live.disabled
      && not (is_empty current.password_hash)
      && live.password_hash == current.password_hash
]

invite_reply : Server × Option SaveError → Server × InviteReply
invite_reply (s, none) = (s, created)
invite_reply (s, some e) = (s, not_saved)

module _ (lib : Platform) where
  -- consumeInviteLocked
  unfoldable pub consume_invite : Server → Str → ℕ → Server × Bool
  unfolding found_invite
  consume_invite s code now =
      if not (is_public s.mode)
      then (s, false)
      else if s.registration_enabled
      then (s, true)
      else if ltb (length (trim_space code)) 16 || ltb 256 (length (trim_space code))
      then (s, false)
      else found_invite s (lib.sha256_hex (trim_space code)) now
          (Map.get s.invites (lib.sha256_hex (trim_space code)))

  -- handleAdminInvite once the session and the form have been checked, with the drawn code
  unfoldable pub create_invite : Server → User → Str → ℕ → Outcome → Server × InviteReply
  unfolding live_admin invite_reply
  create_invite s current code now io =
      if not (live_admin s current) || not (is_public s.mode) || s.persistence_fault
      then (s, unavailable)
      else (let t = cleanup lib s now in
          if leb max_invites (Map.size t.invites)
          then (t, too_many)
          else invite_reply (
              save_or_rollback
                (record t {
                  invites = Map.put t.invites (lib.sha256_hex code) (record {
                    created_at = unix now;
                    expires = unix (now + invite_lifetime);
                    uses_remaining = 1;
                    created_by = current.username;
                  });
                })
                (snapshot t) io))
