-- ===== src/Oauth/Cleanup/Tokens.antt =====
-- What cleanup does to the tables of codes and tokens, key by key.
use chat_with_cli.Base.{ℕ, ◌≤◌, Str, none, some, true, ◌≡◌, refl, arith}
use chat_with_cli.Base.Map
use chat_with_cli.Base.Map.{Map}
use chat_with_cli.Oauth.Platform.{Platform}
use chat_with_cli.Oauth.State.{Server, AuthCode}
use chat_with_cli.Oauth.Resource.{resource_parts, absolute}
use chat_with_cli.Oauth.Access.{required_scope}
use chat_with_cli.Oauth.Cleanup.{cleanup, token_live, code_live, reward_live}

module _ (lib : Platform) (s : Server) (now : ℕ) where
  pub cleanup-codes_none :
      (k : Str) → Map.get s.codes k ≡ none → Map.get (cleanup lib s now).codes k ≡ none
  unfolding cleanup
  cleanup-codes_none k e = simp (Map.get-retain, e)

  pub cleanup-codes_some :
      (k : Str) (c : AuthCode)
      → Map.get (cleanup lib s now).codes k ≡ some c
      → (Map.get s.codes k ≡ some c) × (code_live lib s now c ≡ true)
  unfolding cleanup
  cleanup-codes_some k c h =
      let (e, live) = Map.filter_value-eq-some _ (Map.get s.codes k) c (rw (Map.get-retain) at h) in
      (e, ground arith)

  pub code_live-unexpired : (c : AuthCode) → code_live lib s now c ≡ true → now ≤ c.expires
  unfolding code_live
  code_live-unexpired c h = ground arith

  pub cleanup-access :
      (k : Str)
      → Map.get (cleanup lib s now).access k
        ≡ Map.filter_value (token_live lib s now) (Map.get s.access k)
  unfolding cleanup
  cleanup-access k = Map.get-retain (λ _ r. token_live lib s now r) s.access k

  pub cleanup-refresh :
      (k : Str)
      → Map.get (cleanup lib s now).refresh k
        ≡ Map.filter_value (token_live lib s now) (Map.get s.refresh k)
  unfolding cleanup
  cleanup-refresh k = Map.get-retain (λ _ r. token_live lib s now r) s.refresh k

  pub cleanup-refresh_used :
      (k : Str)
      → Map.get (cleanup lib s now).refresh_used k
        ≡ Map.filter_value (token_live lib s now) (Map.get s.refresh_used k)
  unfolding cleanup
  cleanup-refresh_used k = Map.get-retain (λ _ r. token_live lib s now r) s.refresh_used k

  -- Neither cleanup nor the loss of a code changes how resources are read.
  pub cleanup-required_scope_spent :
      (c : Map AuthCode) (resource : Str)
      → required_scope lib (record (cleanup lib s now) { codes = c }) resource
        ≡ required_scope lib s resource
  unfolding cleanup required_scope resource_parts absolute
  cleanup-required_scope_spent c resource = refl

  pub cleanup-redeemed_rewards :
      (k : Str)
      → Map.get (cleanup lib s now).redeemed_rewards k
        ≡ Map.filter_value (reward_live now) (Map.get s.redeemed_rewards k)
  unfolding cleanup
  cleanup-redeemed_rewards k = Map.get-retain (λ _ e. reward_live now e) s.redeemed_rewards k

  pub cleanup-activation_none :
      (k : Str)
      → Map.get s.activation_codes k ≡ none
      → Map.get (cleanup lib s now).activation_codes k ≡ none
  unfolding cleanup
  cleanup-activation_none k e = simp (Map.get-retain, e)
