-- ===== src/Oauth/Token/Exchange.antt =====
-- What the exchange of an authorization code promises.
use chat_with_cli.Base.{
  ℕ, ◌+◌, Str, [], none, some, true, is_empty, trim_space, str_eq, ◌≡◌, ◌≢◌, ◌⊎◌, inl, inr, ap, sym,
  ◌∙◌, ◌≤◌, arith, Bool-cases, Option-cases, str_beq_iff,
}
use chat_with_cli.Base.Map
use chat_with_cli.Base.Map.{Map}
use chat_with_cli.Oauth.Platform.{Platform}
use chat_with_cli.Oauth.State.{Server, TokenRecord, AuthCode, Disk, unix, hour}
use chat_with_cli.Oauth.Access.{
  client_approved, owned_by_user, required_scope, has_scope, verify_access_key,
}
use chat_with_cli.Oauth.Cleanup.{cleanup}
use chat_with_cli.Oauth.Cleanup.Tokens.{
  cleanup-codes_none, cleanup-codes_some, code_live-unexpired, cleanup-required_scope_spent,
}
use chat_with_cli.Oauth.Token.Issue.{new_record, issue_tokens_ok, verify_access_key-put}
use chat_with_cli.Oauth.Persist.{Outcome, save}
use chat_with_cli.Oauth.Token.{
  Draws, CodeRequest, granted, invalid_grant, pkce_matches, code_bound, redeem_code, exchange_code,
  issue_tokens, found_code,
}

module _ (lib : Platform) where
  issue_tokens-codes :
      (s : Server) (client user resource scope : Str) (now : ℕ) (draws : Draws) (io : Outcome)
      → (issue_tokens lib s client user resource scope now draws io).0.codes ≡ s.codes
  unfolding issue_tokens save
  issue_tokens-codes s client user resource scope now draws io = ground arith

  redeem_code-codes :
      (s : Server) (req : CodeRequest) (c : AuthCode) (now : ℕ) (draws : Draws) (io : Outcome)
      → (redeem_code lib s req c now draws io).0.codes ≡ s.codes
  unfolding redeem_code
  redeem_code-codes s req c now draws io =
      ground (arith, issue_tokens-codes s c.client_id c.user_id c.resource c.scope now draws io)

  -- Whatever comes of it, an exchange leaves no code under the key that it was asked for.
  exchange_code-spends :
      (s : Server) (req : CodeRequest) (start now : ℕ) (draws : Draws) (io : Outcome)
      → Map.get (exchange_code lib s req start now draws io).0.codes (lib.sha256_hex req.code)
        ≡ none
  unfolding exchange_code
  exchange_code-spends s req start now draws io =
      let t = cleanup lib s start in
      let key = lib.sha256_hex req.code in
      elim (Option-cases (Map.get t.codes key)) [
        | inl e ↦ rw (e, exchange_code, found_code) e
        | inr (c, e) ↦
            rw (e, found_code)
              (rw
                (redeem_code-codes (record t { codes = Map.remove t.codes key }) req c now draws io)
                (Map.get-remove_self t.codes key))
      ]

  exchange_code-unknown :
      (s : Server) (req : CodeRequest) (start now : ℕ) (draws : Draws) (io : Outcome)
      → Map.get s.codes (lib.sha256_hex req.code) ≡ none
      → (exchange_code lib s req start now draws io).1 ≡ invalid_grant
  unfolding exchange_code
  exchange_code-unknown s req start now draws io e =
      rw (cleanup-codes_none lib s start (lib.sha256_hex req.code) e, found_code)

  -- An authorization code is good for one exchange: after any exchange of it, granted or refused,
  -- every further exchange of the same code is refused, whatever the rest of the request says.
  pub exchange_code_once :
      (s : Server) (req again : CodeRequest) (start now later last : ℕ) (draws draws' : Draws)
      (io io' : Outcome)
      → again.code ≡ req.code
      → (exchange_code lib
          (exchange_code lib s req start now draws io).0
          again
          later
          last
          draws'
          io').1
        ≡ invalid_grant
  exchange_code_once s req again start now later last draws draws' io io' e =
      exchange_code-unknown (exchange_code lib s req start now draws io).0 again later last draws'
        io' (rw e (exchange_code-spends s req start now draws io))

  -- What a code must be for its exchange to be granted.
  pub record Redeemable (s : Server) (req : CodeRequest) (c : AuthCode) : Type 0 where
    pub client : client_approved c.client_id (Map.get s.clients c.client_id) ≡ true
    pub same_client : c.client_id ≡ req.client_id
    pub same_redirect : c.redirect_uri ≡ req.redirect_uri
    pub proof : pkce_matches lib req.code_verifier c.code_challenge ≡ true
    pub target : (trim_space req.resource ≡ []) ⊎ (trim_space req.resource ≡ c.resource)
    pub owned : owned_by_user lib s c.user_id c.resource (required_scope lib s c.resource) ≡ true

  code_bound-parts :
      (s : Server) (req : CodeRequest) (c : AuthCode)
      → code_bound lib s req c ≡ true
      → (client_approved c.client_id (Map.get s.clients c.client_id) ≡ true)
        × (c.client_id ≡ req.client_id)
        × (c.redirect_uri ≡ req.redirect_uri)
        × (pkce_matches lib req.code_verifier c.code_challenge ≡ true)
  unfolding code_bound
  code_bound-parts s req c h =
      ground
        (arith, str_beq_iff c.client_id req.client_id, str_beq_iff c.redirect_uri req.redirect_uri)

  redeem_code-Redeemable :
      (s : Server) (req : CodeRequest) (c : AuthCode) (now : ℕ) (draws : Draws) (io : Outcome)
      (access refresh scope : Str) (lifetime : ℕ)
      → (redeem_code lib s req c now draws io).1 ≡ granted access refresh lifetime scope
      → Redeemable s req c
  unfolding redeem_code
  redeem_code-Redeemable s req c now draws io access refresh scope lifetime h =
      let (client, same, redirect, proof) = code_bound-parts s req c (ground arith) in
      let target : (trim_space req.resource ≡ []) ⊎ (trim_space req.resource ≡ c.resource) =
        elim (Bool-cases (is_empty (trim_space req.resource))) [
          | inl e ↦ inl (ground arith)
          | inr e ↦ inr (ground (arith, str_beq_iff (trim_space req.resource) c.resource))
        ] in
      record {
        client = client;
        same_client = same;
        same_redirect = redirect;
        proof = proof;
        target = target;
        owned = ground arith;
      }

  exchange_code-found :
      (s : Server) (req : CodeRequest) (start now : ℕ) (draws : Draws) (io : Outcome)
      (access refresh scope : Str) (lifetime : ℕ)
      → (exchange_code lib s req start now draws io).1 ≡ granted access refresh lifetime scope
      → (c : AuthCode) × (Map.get (cleanup lib s start).codes (lib.sha256_hex req.code) ≡ some c)
        × (let t = cleanup lib s start in
            exchange_code lib s req start now draws io
            ≡ redeem_code lib
                (record t { codes = Map.remove t.codes (lib.sha256_hex req.code) })
                req
                c
                now
                draws
                io)
  unfolding exchange_code
  exchange_code-found s req start now draws io access refresh scope lifetime h =
      elim (Option-cases (Map.get (cleanup lib s start).codes (lib.sha256_hex req.code))) [
        | inl e ↦ let h' = (rw (e, found_code) at h) in cc
        | inr (c, e) ↦ (c, e, rw (e, found_code))
      ]

  redeem_code_granted :
      (s : Server) (req : CodeRequest) (c : AuthCode) (now : ℕ) (draws : Draws) (io : Outcome)
      (access refresh scope : Str) (lifetime : ℕ)
      → (redeem_code lib s req c now draws io).1 ≡ granted access refresh lifetime scope
      → (access ≡ draws.access)
        × (scope ≡ c.scope)
        × (lifetime ≡ 3600)
        × ((r : Map TokenRecord) × (d : Disk) × ((redeem_code lib s req c now draws io).0
              ≡ record s {
                access = Map.put s.access (lib.sha256_hex draws.access) (
                    new_record lib c.client_id c.user_id c.resource c.scope draws.family
                      (unix (now + hour))
                      draws);
                refresh = r;
                disk = d;
              }))
  unfolding redeem_code
  redeem_code_granted s req c now draws io access refresh scope lifetime h =
      elim (Option-cases
        (issue_tokens lib s c.client_id c.user_id c.resource c.scope now draws io).1) [
          | inl e ↦ absurd (ground arith)
          | inr (t, e) ↦
              let (r, d, q) =
                issue_tokens_ok lib s c.client_id c.user_id c.resource c.scope now draws io t e in
              (ground (arith, q), ground (arith, q), ground (arith, q), (r, d, ground (arith, q)))
        ]

  -- A granted exchange answers with the drawn access token, the scope of the code and a lifetime of
  -- an hour. The code was stored and had not expired; and once the expired state is dropped, the
  -- client that asks is registered, approved and the one of the code, the redirect is the code's,
  -- the verifier fits the challenge, the resource is the code's if one is named, and the account of
  -- the code owns it.
  pub exchange_code_granted :
      (s : Server) (req : CodeRequest) (start now : ℕ) (draws : Draws) (io : Outcome)
      (access refresh scope : Str) (lifetime : ℕ)
      → (exchange_code lib s req start now draws io).1 ≡ granted access refresh lifetime scope
      → (c : AuthCode) × (Map.get s.codes (lib.sha256_hex req.code) ≡ some c)
        × (start ≤ c.expires)
        × (access ≡ draws.access)
        × (scope ≡ c.scope)
        × (lifetime ≡ 3600)
        × (let t = cleanup lib s start in
            Redeemable (record t { codes = Map.remove t.codes (lib.sha256_hex req.code) }) req c)
  exchange_code_granted s req start now draws io access refresh scope lifetime h =
      let (c, found, e) =
        exchange_code-found s req start now draws io access refresh scope lifetime h in
      let (stored, live) = cleanup-codes_some lib s start (lib.sha256_hex req.code) c found in
      let t = cleanup lib s start in
      let t' = record t { codes = Map.remove t.codes (lib.sha256_hex req.code) } in
      let h' : (redeem_code lib t' req c now draws io).1 ≡ granted access refresh lifetime scope =
        ap (λ p. p.1) (sym e) ∙ h in
      let (a, sc, l, _) =
        redeem_code_granted t' req c now draws io access refresh scope lifetime h' in
      (
        c,
        stored,
        code_live-unexpired lib s start c live,
        a,
        sc,
        l,
        redeem_code-Redeemable t' req c now draws io access refresh scope lifetime h',
      )

  redeem_code-verifies :
      (s : Server) (req : CodeRequest) (c : AuthCode) (now : ℕ) (draws : Draws) (io : Outcome)
      (access refresh scope : Str) (lifetime : ℕ)
      → (redeem_code lib s req c now draws io).1 ≡ granted access refresh lifetime scope
      → c.user_id ≢ []
      → has_scope c.scope (required_scope lib s c.resource) ≡ true
      → (let s' = (redeem_code lib s req c now draws io).0 in
          verify_access_key lib s'
            (lib.sha256_hex access)
            c.resource
            (required_scope lib s' c.resource)
          ≡ true)
  unfolding new_record
  redeem_code-verifies s req c now draws io access refresh scope lifetime h named scoped =
      let q = redeem_code-Redeemable s req c now draws io access refresh scope lifetime h in
      let (a, _, _, (r, d, e)) =
        redeem_code_granted s req c now draws io access refresh scope lifetime h in
      rw (a, e)
        (verify_access_key-put lib s r d (lib.sha256_hex draws.access)
          (new_record lib c.client_id c.user_id c.resource c.scope draws.family (unix (now + hour))
            draws)
          q.client q.owned named scoped)

  exchange_code-step :
      (s : Server) (req : CodeRequest) (start now : ℕ) (draws : Draws) (io : Outcome) (c : AuthCode)
      → Map.get (cleanup lib s start).codes (lib.sha256_hex req.code) ≡ some c
      → (let t = cleanup lib s start in
          exchange_code lib s req start now draws io
          ≡ redeem_code lib
              (record t { codes = Map.remove t.codes (lib.sha256_hex req.code) })
              req
              c
              now
              draws
              io)
  unfolding exchange_code
  exchange_code-step s req start now draws io c e = rw (e, found_code)

  -- The access token of a granted exchange opens the resource of the code under the scope that the
  -- resource asks for, if the code's scope holds it and the code names an account.
  pub exchange_code-verifies :
      (s : Server) (req : CodeRequest) (start now : ℕ) (draws : Draws) (io : Outcome)
      (access refresh scope : Str) (lifetime : ℕ) (c : AuthCode)
      → (exchange_code lib s req start now draws io).1 ≡ granted access refresh lifetime scope
      → Map.get s.codes (lib.sha256_hex req.code) ≡ some c
      → c.user_id ≢ []
      → has_scope c.scope (required_scope lib s c.resource) ≡ true
      → (let s' = (exchange_code lib s req start now draws io).0 in
          verify_access_key lib s'
            (lib.sha256_hex access)
            c.resource
            (required_scope lib s' c.resource)
          ≡ true)
  exchange_code-verifies s req start now draws io access refresh scope lifetime c h e named scoped =
      let (c', found', _) =
        exchange_code-found s req start now draws io access refresh scope lifetime h in
      let key = lib.sha256_hex req.code in
      let t = cleanup lib s start in
      let t' = record t { codes = Map.remove t.codes key } in
      let q =
        exchange_code-step s req start now draws io c
          (found' ∙ sym (cleanup-codes_some lib s start key c' found').0 ∙ e) in
      rw q (
        redeem_code-verifies t' req c now draws io access refresh scope lifetime
          (ap (λ p. p.1) (sym q) ∙ h) named
          (rw (cleanup-required_scope_spent lib s start (Map.remove t.codes key) c.resource)
            scoped))
