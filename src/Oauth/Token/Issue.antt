-- ===== src/Oauth/Token/Issue.antt =====
-- What issuing a pair of tokens leaves behind, and that a new access token opens its resource.
use chat_with_cli.Base.{
  ℕ, ◌+◌, ◌*◌, if◌then◌else◌, Str, [], some, true, is_empty, ◌≡◌, ◌≢◌, inl, inr, refl, ap, arith,
  str_beq_refl,
}
use chat_with_cli.Base.Map
use chat_with_cli.Base.Map.{Map}
use chat_with_cli.Oauth.Platform.{Platform}
use chat_with_cli.Oauth.State.{Server, TokenRecord, AuthCode, Disk, clean, unix, hour}
use chat_with_cli.Oauth.Resource.{resource_parts, absolute}
use chat_with_cli.Oauth.Access.{
  active_user, resource_enabled, client_approved, owned_by_user, required_scope, has_scope,
  verify_access_key,
}
use chat_with_cli.Oauth.Persist.{Outcome, disk_state}
use chat_with_cli.Oauth.Persist.Failure.{save-cases}
use chat_with_cli.Oauth.Token.{
  Draws, issue_tokens, issue_tokens_in_family, issued, add_tokens, token_record,
}

module _ (lib : Platform) where
  -- The ownership test reads neither the token tables nor the codes nor the disk.
  pub owned_by_user-tokens :
      (s : Server) (a r u : Map TokenRecord) (c : Map AuthCode) (d : Disk)
      (user resource scope : Str)
      → owned_by_user lib
          (record s { access = a; refresh = r; refresh_used = u; codes = c; disk = d })
          user
          resource
          scope
        ≡ owned_by_user lib s user resource scope
  unfolding owned_by_user resource_enabled resource_parts absolute active_user
  owned_by_user-tokens s a r u c d user resource scope = refl

  pub required_scope-tokens :
      (s : Server) (a r u : Map TokenRecord) (c : Map AuthCode) (d : Disk) (resource : Str)
      → required_scope lib
          (record s { access = a; refresh = r; refresh_used = u; codes = c; disk = d })
          resource
        ≡ required_scope lib s resource
  unfolding required_scope resource_parts absolute
  required_scope-tokens s a r u c d resource = refl

  -- The record that a new token gets.
  unfoldable pub new_record : Str → Str → Str → Str → Str → ℕ → Draws → TokenRecord
  new_record client user resource scope family expires draws = record {
    client_id = client;
    user_id = user;
    resource = resource;
    scope = scope;
    family = if is_empty family then draws.spare_family else family;
    expires = expires;
  }

  pub issue_in_family_ok :
      (s : Server) (client user resource scope family : Str) (now : ℕ) (draws : Draws)
      (io : Outcome) (t : Str × Str × ℕ)
      → (issue_tokens_in_family lib s client user resource scope family now draws io).1 ≡ some t
      → (d : Disk) × (issue_tokens_in_family lib s client user resource scope family now draws io
          ≡ (
            record s {
              access =
                  Map.put s.access
                    (lib.sha256_hex draws.access)
                    (new_record client user resource scope family (unix (now + hour)) draws);
              refresh = Map.put s.refresh (lib.sha256_hex draws.refresh) (
                  new_record client user resource scope family (unix (now + 30 * 24 * hour)) draws);
              disk = d;
            },
            some (draws.access, draws.refresh, 3600),
          ))
  unfolding issue_tokens_in_family new_record
  issue_in_family_ok s client user resource scope family now draws io t h =
      let f = if is_empty family then draws.spare_family else family in
      let x = add_tokens lib s (token_record lib client user resource scope f 0) now draws in
      elim (save-cases x io) [
        | inl e ↦ (record { guard = clean; stored = some (disk_state x) }, ap (issued lib draws) e)
        | inr (err, e) ↦ absurd (ground (arith, ap (λ p. (issued lib draws p).1) e))
      ]

  pub issue_tokens_ok :
      (s : Server) (client user resource scope : Str) (now : ℕ) (draws : Draws) (io : Outcome)
      (t : Str × Str × ℕ)
      → (issue_tokens lib s client user resource scope now draws io).1 ≡ some t
      → (r : Map TokenRecord) × (d : Disk) × (issue_tokens lib s client user resource scope now
            draws io
          ≡ (
            record s {
              access =
                  Map.put s.access
                    (lib.sha256_hex draws.access)
                    (new_record client user resource scope draws.family (unix (now + hour)) draws);
              refresh = r;
              disk = d;
            },
            some (draws.access, draws.refresh, 3600),
          ))
  unfolding issue_tokens
  issue_tokens_ok s client user resource scope now draws io t h =
      let (d, e) = issue_in_family_ok s client user resource scope draws.family now draws io t h in
      (_, d, e)

  -- A token that has just been put into the table opens its resource.
  pub verify_access_key-put :
      (s : Server) (r : Map TokenRecord) (d : Disk) (key : Str) (t : TokenRecord)
      → client_approved t.client_id (Map.get s.clients t.client_id) ≡ true
      → owned_by_user lib s t.user_id t.resource (required_scope lib s t.resource) ≡ true
      → t.user_id ≢ []
      → has_scope t.scope (required_scope lib s t.resource) ≡ true
      → (let s' = record s { access = Map.put s.access key t; refresh = r; disk = d } in
          verify_access_key lib s' key t.resource (required_scope lib s' t.resource) ≡ true)
  unfolding verify_access_key
  verify_access_key-put s r d key t client own named scoped =
      let a = Map.put s.access key t in
      rw (required_scope-tokens s a r s.refresh_used s.codes d t.resource) (
        ground (
          arith,
          Map.get-put_self s.access key t,
          str_beq_refl t.resource,
          owned_by_user-tokens s a r s.refresh_used s.codes d t.user_id t.resource
              (required_scope lib s t.resource),
        ))
