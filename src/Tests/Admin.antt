-- ===== src/Tests/Admin.antt =====
-- Runs of the administration of internal/oauthserver/admin.go.
use chat_with_cli.Base.{some, Str, [], none, true, codes, ◌≡◌, ◌≢◌, refl}
use chat_with_cli.Base.Map
use chat_with_cli.Usage.{ensure_usage_record}
use chat_with_cli.Oauth.State.{Server, User}
use chat_with_cli.Oauth.Access.{verify_access_key}
use chat_with_cli.Oauth.Authorize.{Moment, authorize_resource}
use chat_with_cli.Oauth.Invite.{live_admin}
use chat_with_cli.Oauth.Persist.{
  save, save_recovery, save_or_rollback, save_recovery_or_rollback, roll_back,
}
use chat_with_cli.Oauth.Revoke.{
  revoke_client, resource_uses_device, revoke_user_credentials, reset_owned, revoke_device_clients,
  revoke_device_tokens, reset_route,
}
use chat_with_cli.Oauth.Policy.{
  create_user, normalize_username, parse_toggle, recovery_allowed, revoke_device, rotate_password,
  set_dcr, valid_password,
}
use chat_with_cli.Oauth.Admin.{
  apply_admin_action, handle_admin_action, admin_session_fresh, done, unconfirmed,
}
use chat_with_cli.Oauth.Policy.{requires_fresh_auth, confirm_required, valid_confirmation}
use chat_with_cli.Oauth.Admin.Recovery.{released, handle_admin_action_reduces}
use chat_with_cli.Oauth.Admin.Credentials.{Stripped, rotates, handle_admin_action-Stripped}
use chat_with_cli.Oauth.Admin.Proved.{NoClient}
use chat_with_cli.Oauth.Admin.Revoked.{Retired, handle_admin_action-Retired}
use chat_with_cli.Tests.Fixture.{
  platform, server, device, client, resource, user, single, fine, five, access_runs,
}

abbrev boss : User
boss = record user { admin = true }

abbrev managed : Server
managed = record server {
  users = single (codes "u") boss;
  sessions = single (codes "ck") (record {
    user_id = codes "u";
    created_at = 1;
    last_seen_at = 1;
    last_reauth_at = 1;
    expires = 100;
  });
}

abbrev faulty : Server
faulty = record managed { persistence_fault = true }

abbrev new_password : Str
new_password = codes "correct horse"

unfoldable admin_runs : Unit {0}
unfolding handle_admin_action admin_session_fresh requires_fresh_auth confirm_required
    valid_confirmation apply_admin_action live_admin save save_recovery save_or_rollback
    save_recovery_or_rollback roll_back valid_password parse_toggle recovery_allowed
    revoke_user_credentials reset_owned revoke_device_clients revoke_device_tokens reset_route
    access_runs
admin_runs = tt

abbrev reduced : Server
reduced =
    (handle_admin_action platform faulty (codes "ck") boss set_dcr (codes "") (codes "off") [] [] []
      five fine).0

test_recovery :
    verify_access_key platform (released reduced) (codes "at") resource (codes "mcp") ≡ true
unfolding admin_runs
test_recovery = refl

handle_admin_action_reduces_example :
    verify_access_key platform (released faulty) (codes "at") resource (codes "mcp") ≡ true
handle_admin_action_reduces_example =
    handle_admin_action_reduces platform faulty (codes "ck") boss set_dcr (codes "") (codes "off")
      [] [] [] five fine (codes "at") resource (codes "mcp") refl test_recovery

test_rotation :
    (handle_admin_action platform managed
      (codes "ck")
      boss
      rotate_password
      (codes "u")
      new_password
      []
      (codes "h")
      []
      five
      fine).1
    ≡ done
unfolding admin_runs
test_rotation = refl

handle_admin_action-Stripped_example :
    Stripped
      (handle_admin_action platform managed
        (codes "ck")
        boss
        rotate_password
        (codes "u")
        new_password
        []
        (codes "h")
        []
        five
        fine).0
      (codes "u")
handle_admin_action-Stripped_example =
    handle_admin_action-Stripped platform managed (codes "ck") boss rotate_password (codes "u")
      new_password [] (codes "h") [] five fine rotates test_rotation

-- A device that is named by its identifier, with a client that proved its key.
abbrev keyed_id : Str
keyed_id = codes "id/x"

abbrev keyed : Server
keyed = record managed {
  devices = single keyed_id (codes "u");
  device_records = single keyed_id (record device { id = codes "x" });
  clients =
      single (codes "c") (record client { device_id = codes "x"; device_key_verified = true });
}

abbrev revoked : Server
revoked =
    (handle_admin_action platform keyed (codes "ck") boss revoke_device keyed_id [] (codes "REVOKE")
      [] [] five fine).0

test_revocation :
    (handle_admin_action platform keyed
      (codes "ck")
      boss
      revoke_device
      keyed_id
      []
      (codes "REVOKE")
      []
      []
      five
      fine).1
    ≡ done
unfolding admin_runs Map.keys revoke_client
test_revocation = refl

-- Without the confirmation nothing happens.
test_unconfirmed :
    handle_admin_action platform managed
      (codes "ck")
      boss
      revoke_device
      (codes "d")
      []
      (codes "revoke")
      []
      []
      five
      fine
    ≡ (managed, unconfirmed)
unfolding admin_runs
test_unconfirmed = refl

keyed_id_named : keyed_id ≢ []
keyed_id_named e = cc

handle_admin_action-Retired_example :
    (admin_session_fresh platform keyed (codes "ck") five ≡ true)
    × (codes "REVOKE" ≡ codes "REVOKE")
    × Retired platform revoked keyed_id
    × NoClient revoked keyed_id
    × ((account client resource : Str) (m : Moment)
        → resource_uses_device platform revoked resource keyed_id ≡ true
        → authorize_resource platform revoked account client resource m ≡ none)
handle_admin_action-Retired_example =
    handle_admin_action-Retired platform keyed (codes "ck") boss keyed_id [] (codes "REVOKE") [] []
      five fine keyed_id_named test_revocation

-- A new account is found by the lower case of its name.
test_creation :
    Map.get
      (handle_admin_action platform managed
        (codes "ck")
        boss
        create_user
        (codes " Bob-1 ")
        new_password
        []
        (codes "h")
        (codes "v")
        five
        fine).0.usernames
      (codes "bob-1")
    ≡ some (codes "v")
unfolding admin_runs normalize_username ensure_usage_record
test_creation = refl
