-- ===== src/Oauth/Grant/Commit.antt =====
-- How commitAuthorizationLocked comes to commit.
use mathlib.Core.Path.{subst}
use chat_with_cli.Base.{
  ◌≤◌, Str, Option, none, some, true, not, ◌||◌, ltb, ◌≡◌, ◌⊎◌, inl, inr, refl, ap, sym, ◌∙◌, arith,
  str_eq, Option-cases, Bool-cases,
}
use chat_with_cli.Base.Map
use chat_with_cli.Oauth.Platform.{Platform}
use chat_with_cli.Oauth.State.{Server, Client, PendingAuth}
use chat_with_cli.Oauth.Resource.{resource_parts}
use chat_with_cli.Oauth.Access.{client_id_matches}
use chat_with_cli.Oauth.Authorize.{Moment, authorize_resource}
use chat_with_cli.Oauth.Grant.{
  exact_redirect, name_device, issue_code, commit_authorized, commit_client, commit_pending,
  commit_authorization,
}

inr_inj : {A B : Type 0} {x y : B} → ◌≡◌ {A = A ⊎ B} (inr x) (inr y) → x ≡ y
inr_inj e = cc

module _ (lib : Platform) where
  -- How a commit comes about.
  pub record IsCommitted (s : Server) (request user : Str) (m : Moment) (g : PendingAuth × Str)
      (t : Server) : Type 0 where
    pub asked : PendingAuth
    pub client : Client
    pub after : Server
    pub known : Map.get s.pending request ≡ some asked
    pub live : m.now ≤ asked.expires
    pub registered : Map.get s.clients asked.client_id ≡ some client
    pub matches : client_id_matches asked.client_id client ≡ true
    pub redirects : exact_redirect client asked.redirect_uri ≡ true
    pub authorized : authorize_resource lib s user asked.client_id asked.resource m ≡ some after
    pub given : g ≡ (record asked { user_id = user }, m.code)
    pub state :
        t
        ≡ (issue_code lib
            (name_device lib after user client (resource_parts lib after asked.resource) m)
            request
            user
            client
            asked
            m).0

  committed_authorized :
      (s : Server) (request user : Str) (c : Client) (a : PendingAuth) (o : Option Server)
      (m : Moment) (g : PendingAuth × Str)
      → (commit_authorized lib s request user c a o m).1 ≡ inr g
      → (after : Server) × (o ≡ some after)
        × (g ≡ (record a { user_id = user }, m.code))
        × ((commit_authorized lib s request user c a o m).0
            ≡ (issue_code lib
                (name_device lib after user c (resource_parts lib after a.resource) m)
                request
                user
                c
                a
                m).0)
  unfolding commit_authorized issue_code
  committed_authorized s request user c a none m g h = cc
  committed_authorized s request user c a (some t) m g h = (t, refl, sym (inr_inj h), refl)

  commit_client_valid :
      (s : Server) (request user : Str) (a : PendingAuth) (c : Client) (m : Moment)
      (g : PendingAuth × Str)
      → (commit_client lib s request user a (some c) m).1 ≡ inr g
      → (client_id_matches a.client_id c ≡ true)
        × (exact_redirect c a.redirect_uri ≡ true)
        × (commit_client lib s request user a (some c) m
            ≡ commit_authorized lib s request user c a
                (authorize_resource lib s user a.client_id a.resource m)
                m)
  unfolding commit_client
  commit_client_valid s request user a c m g h =
      elim (Bool-cases
        (not (client_id_matches a.client_id c) || not (exact_redirect c a.redirect_uri))) [
          | inl e ↦ (let z = (rw e at h) in cc)
          | inr e ↦ (ground arith, ground arith, rw e refl)
        ]

  commit_client-none :
      (s : Server) (request user : Str) (a : PendingAuth) (m : Moment) (g : PendingAuth × Str)
      → (commit_client lib s request user a none m).1 ≡ inr g
      → ⊥
  unfolding commit_client
  commit_client-none s request user a m g h = cc

  IsCommitted-client :
      (s : Server) (request user : Str) (a : PendingAuth) (c : Client) (m : Moment)
      (g : PendingAuth × Str)
      → Map.get s.pending request ≡ some a
      → m.now ≤ a.expires
      → Map.get s.clients a.client_id ≡ some c
      → (commit_client lib s request user a (some c) m).1 ≡ inr g
      → IsCommitted s request user m g (commit_client lib s request user a (some c) m).0
  IsCommitted-client s request user a c m g k l r h =
      let (x, y, e) = commit_client_valid s request user a c m g h in
      let o = authorize_resource lib s user a.client_id a.resource m in
      let (after, p, q, t) =
        committed_authorized s request user c a o m g (ap (λ z. z.1) (sym e) ∙ h) in
      record {
        asked = a;
        client = c;
        after = after;
        known = k;
        live = l;
        registered = r;
        matches = x;
        redirects = y;
        authorized = p;
        given = q;
        state = ap (λ z. z.0) e ∙ t;
      }

  commit_pending_live :
      (s : Server) (request user : Str) (a : PendingAuth) (m : Moment) (g : PendingAuth × Str)
      → (commit_pending lib s request user (some a) m).1 ≡ inr g
      → (m.now ≤ a.expires)
        × (commit_pending lib s request user (some a) m
            ≡ commit_client lib s request user a (Map.get s.clients a.client_id) m)
  unfolding commit_pending
  commit_pending_live s request user a m g h = elim (Bool-cases (ltb a.expires m.now)) [
    | inl e ↦ (let z = (rw e at h) in cc)
    | inr e ↦ (ground arith, rw e refl)
  ]

  commit_pending-none :
      (s : Server) (request user : Str) (m : Moment) (g : PendingAuth × Str)
      → (commit_pending lib s request user none m).1 ≡ inr g
      → ⊥
  unfolding commit_pending
  commit_pending-none s request user m g h = cc

  pub commit_authorization-IsCommitted :
      (s t : Server) (request user : Str) (m : Moment) (g : PendingAuth × Str)
      → commit_authorization lib s request user m ≡ (t, inr g)
      → IsCommitted s request user m g t
  unfolding commit_authorization
  commit_authorization-IsCommitted s t request user m g h =
      elim (Option-cases (Map.get s.pending request)) [
        | inl e ↦ absurd (commit_pending-none s request user m g (ap (λ z. z.1) (rw e at h)))
        | inr (a, e) ↦
            let h1 : commit_pending lib s request user (some a) m ≡ (t, inr g) = (rw e at h) in
            let (l, q) = commit_pending_live s request user a m g (ap (λ z. z.1) h1) in
            elim (Option-cases (Map.get s.clients a.client_id)) [
              | inl f ↦ absurd (
                  commit_client-none s request user a m g (
                    ap (λ z. z.1)
                      (ap (λ o. commit_client lib s request user a o m) (sym f) ∙ sym q ∙ h1)))
              | inr (c, f) ↦
                  let w : commit_client lib s request user a (some c) m ≡ (t, inr g) =
                    ap (λ o. commit_client lib s request user a o m) (sym f) ∙ sym q ∙ h1 in
                  subst (λ z. IsCommitted s request user m g z) (ap (λ z. z.0) w)
                    (IsCommitted-client s request user a c m g e l f (ap (λ z. z.1) w))
            ]
      ]
