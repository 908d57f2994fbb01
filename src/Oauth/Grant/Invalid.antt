-- ===== src/Oauth/Grant/Invalid.antt =====
-- When commitAuthorizationLocked of internal/oauthserver/server.go finds the client of a request
-- invalid.
use chat_with_cli.Base.{
  ◌≤◌, Str, Option, none, some, true, false, not, ◌||◌, ltb, ◌≡◌, ◌≢◌, ◌⊎◌, inl, inr, refl, arith,
  str_eq, Option-cases, Bool-cases,
}
use chat_with_cli.Base.Map
use chat_with_cli.Oauth.Platform.{Platform}
use chat_with_cli.Oauth.State.{Server, Client, PendingAuth}
use chat_with_cli.Oauth.Access.{client_id_matches}
use chat_with_cli.Oauth.Authorize.{Moment, authorize_resource}
use chat_with_cli.Oauth.Grant.{
  exact_redirect, client_invalid, issue_code, commit_authorized, commit_client, commit_pending,
  commit_authorization,
}

-- The request is pending and live, and its client is not registered, is registered under another
-- identifier, or does not have the redirect.
pub record ClientInvalid (s : Server) (request : Str) (m : Moment) : Type 0 where
  pub asked : PendingAuth
  pub known : Map.get s.pending request ≡ some asked
  pub live : m.now ≤ asked.expires
  pub invalid :
      (Map.get s.clients asked.client_id ≡ none)
      ⊎ ((c : Client) × (Map.get s.clients asked.client_id ≡ some c)
          × ((client_id_matches asked.client_id c ≡ false)
              ⊎ (exact_redirect c asked.redirect_uri ≡ false)))

module _ (lib : Platform) where
  commit_authorized_valid :
      (s : Server) (request user : Str) (c : Client) (a : PendingAuth) (o : Option Server)
      (m : Moment)
      → (commit_authorized lib s request user c a o m).1 ≢ inl client_invalid
  unfolding commit_authorized issue_code
  commit_authorized_valid s request user c a none m h = cc
  commit_authorized_valid s request user c a (some t) m h = cc

  pub commit-ClientInvalid :
      (s : Server) (request user : Str) (m : Moment)
      → (commit_authorization lib s request user m).1 ≡ inl client_invalid
      → ClientInvalid s request m
  unfolding commit_authorization commit_pending commit_client
  commit-ClientInvalid s request user m h = elim (Option-cases (Map.get s.pending request)) [
    | inl e ↦ absurd (let k = (rw e at h) in cc)
    | inr (a, e) ↦ elim (Bool-cases (ltb a.expires m.now)) [
      | inl l ↦ absurd (let k = (rw (e, l) at h) in cc)
      | inr l ↦ elim (Option-cases (Map.get s.clients a.client_id)) [
        | inl f ↦ record { asked = a; known = e; live = ground arith; invalid = inl f }
        | inr (c, f) ↦
            elim (Bool-cases
              (not (client_id_matches a.client_id c) || not (exact_redirect c a.redirect_uri))) [
                | inl g ↦ record {
                  asked = a;
                  known = e;
                  live = ground arith;
                  invalid = inr (c, f, ground arith);
                }
                | inr g ↦ absurd (
                    commit_authorized_valid s request user c a
                      (authorize_resource lib s user a.client_id a.resource m) m
                      (rw (e, l, f, g) at h))
              ]
      ]
    ]
  ]

  pub ClientInvalid-commit :
      (s : Server) (request user : Str) (m : Moment)
      → ClientInvalid s request m
      → (commit_authorization lib s request user m).1 ≡ inl client_invalid
  unfolding commit_authorization commit_pending commit_client
  ClientInvalid-commit s request user m w =
      let l : ltb w.asked.expires m.now ≡ false = ground (arith, w.live) in
      elim w.invalid [
        | inl f ↦ rw (w.known, l, f) refl
        | inr (c, f, g) ↦
            let k : not (client_id_matches w.asked.client_id c)
                  || not (exact_redirect c w.asked.redirect_uri)
                ≡ true =
              ground (arith, g) in
            rw (w.known, l, f, k) refl
      ]
