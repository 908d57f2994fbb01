-- ===== src/Tests/Invites.antt =====
-- An invite with one use left.
use chat_with_cli.Base.{
  ◌-◌, ◌<◌, Str, none, some, true, false, codes, leb, ◌≡◌, ◌≢◌, refl, trim_space, if◌then◌else◌,
}
use chat_with_cli.Base.Map
use chat_with_cli.Oauth.State.{Server, InviteRecord, unix, public_mode}
use chat_with_cli.Oauth.Invite.{consume_invite}
use chat_with_cli.Oauth.Invite.Uses.{consume_invite_granted, consume_invite_once}
use chat_with_cli.Tests.Fixture.{platform, server, strings_run, maps_run}

abbrev invite : InviteRecord
invite = record { created_at = 1; expires = 90; uses_remaining = 1; created_by = codes "root" }

abbrev invite_code : Str
invite_code = codes "0123456789abcdef"

abbrev inviting : Server
inviting = record server {
  mode = public_mode;
  registration_enabled = false;
  invites = Map.put Map.empty invite_code invite;
}

consumed : (consume_invite platform inviting invite_code 5).1 ≡ true
unfolding consume_invite strings_run maps_run
consumed = refl

known : Map.get inviting.invites (platform.sha256_hex (trim_space invite_code)) ≡ some invite
unfolding strings_run maps_run
known = refl

consume_invite_once_example :
    (consume_invite platform (consume_invite platform inviting invite_code 5).0 invite_code 6).1
    ≡ false
consume_invite_once_example =
    consume_invite_once platform inviting invite_code invite_code invite 5 6 refl known refl
      consumed refl

consume_invite_granted_example :
    (r : InviteRecord) × (Map.get inviting.invites (platform.sha256_hex (trim_space invite_code))
      ≡ some r)
    × (unix 5 < r.expires)
    × (0 < r.uses_remaining)
    × (Map.get
          (consume_invite platform inviting invite_code 5).0.invites
          (platform.sha256_hex (trim_space invite_code))
        ≡ (if leb r.uses_remaining 1
            then none
            else some (record r { uses_remaining = r.uses_remaining - 1 })))
    × ((other : Str)
        → platform.sha256_hex (trim_space invite_code) ≢ other
        → Map.get (consume_invite platform inviting invite_code 5).0.invites other
          ≡ Map.get inviting.invites other)
consume_invite_granted_example =
    consume_invite_granted platform inviting invite_code 5 refl consumed
