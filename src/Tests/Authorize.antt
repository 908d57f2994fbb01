-- ===== src/Tests/Authorize.antt =====
-- Runs of the authorization of internal/oauthserver/server.go.
use chat_with_cli.Base.{[], false, ◌+◌, ◌≤◌, Str, none, some, true, codes, ◌≡◌, ◌⊎◌, refl}
use chat_with_cli.Base.Map
use chat_with_cli.Oauth.State.{Server, PendingAuth, Client}
use chat_with_cli.Oauth.Access.{owned_by_user, required_scope, client_id_matches}
use chat_with_cli.Oauth.Register.{register_and_grant}
use chat_with_cli.Oauth.Policy.{normalize_username}
use chat_with_cli.Oauth.Invite.{registration_policy, consume_invite}
use chat_with_cli.Oauth.State.{User}
use chat_with_cli.Oauth.Snapshot.{snapshot, restore}
use chat_with_cli.Oauth.Persist.{save, save_or_rollback, roll_back}
use chat_with_cli.Oauth.Authorize.{
  Moment, authorize_resource, owned_devices, max_devices_user, user_may, is_agent,
}
use chat_with_cli.Oauth.Authorize.Owners.{Apart, OwnerKept, authorize_resource_owners}
use chat_with_cli.Oauth.Authorize.Owned.{authorize_resource-owned_by_user}
use chat_with_cli.Oauth.Grant.{
  commit_authorization, name_device, issue_code, exact_redirect, code_lifetime, grant_authorization,
}
use chat_with_cli.Oauth.Grant.Invalid.{ClientInvalid}
use chat_with_cli.Oauth.Grant.Effect.{grant_authorization_failed, grant_authorization_granted}
use chat_with_cli.Tests.Fixture.{
  platform, server, resource, user, code, single, fine, five, access_runs,
}

abbrev moment : Moment
moment = record { now = five; made = 5; later = five; device_id = codes "n"; code = codes "z" }

abbrev asking : Server
asking = record server { pending = single (codes "q") code.grant }

test_authorize :
    authorize_resource platform server (codes "u") (codes "c") resource moment ≡ some server
unfolding authorize_resource access_runs user_may is_agent
test_authorize = refl

user_found : Map.get server.users (codes "u") ≡ some user
unfolding access_runs
user_found = refl

test_refused : (grant_authorization platform server (codes "q") (codes "u") moment fine).1 ≡ none
unfolding grant_authorization commit_authorization access_runs
test_refused = refl

test_granted :
    (grant_authorization platform asking (codes "q") (codes "u") moment fine).1
    ≡ some (code.grant, codes "z")
unfolding grant_authorization commit_authorization exact_redirect authorize_resource user_may
    is_agent name_device issue_code save save_or_rollback roll_back client_id_matches access_runs
test_granted = refl

authorize_resource_owners_example :
    Apart server server
    × ((d : Str) → OwnerKept server server (codes "u") d)
    × ((account : Str)
        → owned_devices server account ≤ max_devices_user
        → owned_devices server account ≤ max_devices_user)
authorize_resource_owners_example =
    authorize_resource_owners platform server server (codes "u") (codes "c") resource moment
      test_authorize

authorize_resource-owned_by_user_example :
    owned_by_user platform server (codes "u") resource (required_scope platform server resource)
    ≡ true
authorize_resource-owned_by_user_example =
    authorize_resource-owned_by_user platform server server (codes "u") (codes "c") resource moment
      user test_authorize user_found refl

-- A request whose client has been removed, and one that the account may not have.
abbrev orphaned : Server
orphaned = record asking { clients = Map.empty }

orphan_refused :
    (grant_authorization platform orphaned (codes "q") (codes "u") moment fine).1 ≡ none
unfolding grant_authorization commit_authorization access_runs
orphan_refused = refl

test_forgotten :
    Map.get
      (grant_authorization platform orphaned (codes "q") (codes "u") moment fine).0.pending
      (codes "q")
    ≡ none
unfolding grant_authorization commit_authorization access_runs save restore snapshot
test_forgotten = refl

test_kept :
    Map.get
      (grant_authorization platform asking (codes "q") (codes "v") moment fine).0.pending
      (codes "q")
    ≡ some code.grant
unfolding grant_authorization commit_authorization exact_redirect authorize_resource user_may
    is_agent client_id_matches access_runs restore snapshot
test_kept = refl

grant_authorization_failed_example :
    ((¬ ClientInvalid orphaned (codes "q") moment)
      × (snapshot (grant_authorization platform orphaned (codes "q") (codes "u") moment fine).0
          ≡ snapshot orphaned))
    ⊎ (ClientInvalid orphaned (codes "q") moment
        × (snapshot (grant_authorization platform orphaned (codes "q") (codes "u") moment fine).0
            ≡ snapshot (record orphaned { pending = Map.remove orphaned.pending (codes "q") })))
grant_authorization_failed_example =
    grant_authorization_failed platform orphaned (codes "q") (codes "u") moment fine orphan_refused

grant_authorization_granted_example :
    (asked : PendingAuth) × (c : Client) × (after : Server) × (Map.get asking.pending (codes "q")
      ≡ some asked)
    × (five ≤ asked.expires)
    × (Map.get asking.clients asked.client_id ≡ some c)
    × (exact_redirect c asked.redirect_uri ≡ true)
    × (authorize_resource platform asking (codes "u") asked.client_id asked.resource moment
        ≡ some after)
    × (code.grant ≡ record asked { user_id = codes "u" })
    × (Map.get
          (grant_authorization platform asking (codes "q") (codes "u") moment fine).0.pending
          (codes "q")
        ≡ none)
    × (Map.get
          (grant_authorization platform asking (codes "q") (codes "u") moment fine).0.codes
          (codes "z")
        ≡ some (record { grant = code.grant; expires = five + code_lifetime }))
    × (Map.get
          (grant_authorization platform asking (codes "q") (codes "u") moment fine).0.clients
          asked.client_id
        ≡ some (record c { approved = true }))
grant_authorization_granted_example =
    grant_authorization_granted platform asking (codes "q") (codes "u") (codes "z") moment fine
      code.grant test_granted

abbrev newcomer : User
newcomer = record {
  id = codes "v";
  username = codes "Bob-1";
  password_hash = codes "h";
  created_at = 1;
  last_login_at = 0;
  admin = false;
  disabled = false;
}

-- A newcomer is not granted the device of another account, and the registration is undone.
test_registration_refused :
    register_and_grant platform asking (codes "q") newcomer [] (codes "ck") five moment fine
    ≡ (asking, none)
unfolding register_and_grant commit_authorization exact_redirect authorize_resource user_may
    is_agent save save_or_rollback roll_back client_id_matches access_runs normalize_username
    registration_policy consume_invite snapshot restore
test_registration_refused = refl

-- It is granted the tools of its own account.
test_registration :
    Map.get
      (register_and_grant platform
        (record server {
          pending = single (codes "q") (record code.grant { resource = codes "https://r/mcp" });
        })
        (codes "q")
        newcomer
        []
        (codes "ck")
        five
        moment
        fine).0.usernames
      (codes "bob-1")
    ≡ some (codes "v")
unfolding register_and_grant commit_authorization exact_redirect authorize_resource user_may
    is_agent name_device issue_code save save_or_rollback roll_back client_id_matches access_runs
    normalize_username registration_policy consume_invite
test_registration = refl
