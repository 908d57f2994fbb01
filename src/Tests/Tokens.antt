-- ===== src/Tests/Tokens.antt =====
-- The life of a code and of a family of tokens on the small relay.
use chat_with_cli.Base.{ℕ, ◌≤◌, true, none, some, codes, inr, ◌≡◌, refl}
use chat_with_cli.Base.Map
use chat_with_cli.Oauth.Resource.{scope_mcp}
use chat_with_cli.Oauth.Access.{verify_access_key, required_scope}
use chat_with_cli.Oauth.State.{Server, AuthCode}
use chat_with_cli.Oauth.Cleanup.{cleanup, token_live}
use chat_with_cli.Oauth.Token.{granted, invalid_grant, exchange_code, exchange_refresh, revoke}
use chat_with_cli.Oauth.Token.Exchange.{
  exchange_code_once, exchange_code_granted, exchange_code-verifies, Redeemable,
}
use chat_with_cli.Oauth.Token.Rotation.{FamilyGone, IsReplay, exchange_refresh_replay}
use chat_with_cli.Oauth.Token.Replay.{settled, exchange_refresh_granted, exchange_refresh_reused}
use chat_with_cli.Oauth.Token.Revocation.{as_access, revoke-FamilyGone}
use chat_with_cli.Tests.Fixture.{
  platform, server, resource, token, code, draws, code_request, refresh_request, fine, five, ten,
  tokens_run, single,
}

exchanged :
    (exchange_code platform server code_request five five draws fine).1
    ≡ granted (codes "a1") (codes "r1") 3600 (codes "mcp offline_access")
unfolding tokens_run
exchanged = refl

exchange_code_once_example :
    (exchange_code platform
      (exchange_code platform server code_request five five draws fine).0
      code_request
      ten
      ten
      draws
      fine).1
    ≡ invalid_grant
exchange_code_once_example =
    exchange_code_once platform server code_request code_request five five ten ten draws draws fine
      fine refl

code_found : Map.get server.codes (codes "k") ≡ some code
unfolding tokens_run
code_found = refl

code_scope : required_scope platform server resource ≡ scope_mcp
unfolding tokens_run
code_scope = refl

exchange_code-verifies_example :
    (let s = (exchange_code platform server code_request five five draws fine).0 in
      verify_access_key platform s (codes "a1") resource (required_scope platform s resource)
      ≡ true)
unfolding tokens_run
exchange_code-verifies_example =
    exchange_code-verifies platform server code_request five five draws fine (codes "a1")
      (codes "r1") (codes "mcp offline_access") 3600 code exchanged code_found (λ e. cc) refl

-- The same server after the refresh token was rotated once.
abbrev rotated_once : Server
rotated_once = record server { refresh = Map.empty; refresh_used = single (codes "rt") (token 200) }

refreshed :
    (exchange_refresh platform server refresh_request five five draws fine).1
    ≡ granted (codes "a1") (codes "r1") 3600 (codes "mcp offline_access")
unfolding tokens_run
refreshed = refl

refresh_found : Map.get server.refresh (codes "rt") ≡ some (token 200)
unfolding tokens_run
refresh_found = refl

reuse_lem : IsReplay platform rotated_once refresh_request five (token 200)
unfolding tokens_run
reuse_lem = record { spent = refl; used_up = refl; live = refl; client = inr refl }

exchange_refresh_replay_example :
    ((exchange_refresh platform rotated_once refresh_request five five draws fine).1
      ≡ invalid_grant)
    × FamilyGone
        (exchange_refresh platform rotated_once refresh_request five five draws fine).0
        (codes "f")
exchange_refresh_replay_example =
    exchange_refresh_replay platform rotated_once refresh_request five five draws fine (token 200)
      reuse_lem (λ e. cc)

exchange_refresh_granted_example :
    (let s = (exchange_refresh platform server refresh_request five five draws fine).0 in
      ((token 200).client_id ≡ refresh_request.client_id)
      × (granted (codes "a1") (codes "r1") 3600 (codes "mcp offline_access")
          ≡ granted draws.access draws.refresh 3600 (token 200).scope)
      × (Map.get s.refresh (codes "rt") ≡ none)
      × (Map.get s.refresh_used (codes "rt") ≡ some (settled platform (token 200) draws))
      × (Map.get s.access (codes "a1")
          ≡ some (record (settled platform (token 200) draws) { expires = 3605 })))
exchange_refresh_granted_example =
    exchange_refresh_granted platform server refresh_request five five draws fine (codes "a1")
      (codes "r1") (codes "mcp offline_access") 3600 (token 200) refreshed refresh_found (λ e. cc)
      (λ e. cc)

used_live :
    token_live platform
      (exchange_refresh platform server refresh_request five five draws fine).0
      ten
      (settled platform (token 200) draws)
    ≡ true
unfolding tokens_run
used_live = refl

exchange_refresh_reused_example :
    (let s = (exchange_refresh platform server refresh_request five five draws fine).0 in
      let (t, answer) = exchange_refresh platform s refresh_request ten ten draws fine in
      (answer ≡ invalid_grant)
      × (Map.get t.access (codes "a1") ≡ none)
      × FamilyGone t (settled platform (token 200) draws).family)
exchange_refresh_reused_example =
    exchange_refresh_reused platform server refresh_request refresh_request five five ten ten draws
      draws fine fine (codes "a1") (codes "r1") (codes "mcp offline_access") 3600 (token 200)
      refreshed refresh_found (λ e. cc) (λ e. cc) refl (inr refl) used_live

access_found : Map.get server.access (codes "at") ≡ some (token 100)
unfolding tokens_run
access_found = refl

revoke-FamilyGone_example :
    FamilyGone (revoke platform server (codes "at") fine) (codes "f")
    × (Map.get (revoke platform server (codes "at") fine).access (codes "at") ≡ none)
    × (Map.get (revoke platform server (codes "at") fine).refresh (codes "at") ≡ none)
    × (Map.get (revoke platform server (codes "at") fine).refresh_used (codes "at") ≡ none)
revoke-FamilyGone_example =
    revoke-FamilyGone platform server (codes "at") fine (token 100) (as_access access_found)
      (λ e. cc)

exchange_code_granted_example :
    (c : AuthCode) × (Map.get server.codes (codes "k") ≡ some c)
    × (five ≤ c.expires)
    × (codes "a1" ≡ draws.access)
    × (codes "mcp offline_access" ≡ c.scope)
    × (◌≡◌ {A = ℕ} 3600 3600)
    × (let t = cleanup platform server five in
        Redeemable platform (record t { codes = Map.remove t.codes (codes "k") }) code_request c)
exchange_code_granted_example =
    exchange_code_granted platform server code_request five five draws fine (codes "a1")
      (codes "r1") (codes "mcp offline_access") 3600 exchanged
