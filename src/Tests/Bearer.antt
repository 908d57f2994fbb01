-- ===== src/Tests/Bearer.antt =====
-- A legacy Agent with the right token.
use chat_with_cli.Base.{[], some, true, codes, ◌≡◌, ◌≢◌, refl}
use chat_with_cli.Protocol.{valid_device_name, is_name_byte}
use chat_with_cli.Relay.Bearer.{bearer_token, valid_bearer, legacy_agent, legacy_agent_accepts}
use chat_with_cli.Tests.Fixture.{platform, strings_run}

accepted :
    (legacy_agent platform (codes "tok") (codes "Bearer tok") (codes "desk")).1
    ≡ some (codes "desk")
unfolding legacy_agent valid_bearer bearer_token valid_device_name is_name_byte strings_run
accepted = refl

legacy_agent_accepts_example :
    (codes "tok" ≢ [])
    × (bearer_token platform (codes "Bearer tok") ≡ codes "tok")
    × (valid_device_name (codes "desk") ≡ true)
legacy_agent_accepts_example =
    legacy_agent_accepts platform (codes "tok") (codes "Bearer tok") (codes "desk") (codes "desk")
      accepted
