-- ===== src/Tests/Access.antt =====
-- Access checks on the small relay.
use chat_with_cli.Base.{true, codes, ◌≡◌, refl}
use chat_with_cli.Oauth.Resource.{scope_mcp}
use chat_with_cli.Oauth.Access.{verify_access_key}
use chat_with_cli.Oauth.Access.Spec.{MayAccess, verify_access_key_iff}
use chat_with_cli.Tests.Fixture.{platform, server, resource, access_runs}

opens : verify_access_key platform server (codes "at") resource scope_mcp ≡ true
unfolding access_runs
opens = refl

verify_access_key_iff_example : MayAccess platform server (codes "at") resource scope_mcp
verify_access_key_iff_example =
    (verify_access_key_iff platform server (codes "at") resource scope_mcp).0 opens
