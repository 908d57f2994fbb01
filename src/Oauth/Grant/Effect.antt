-- ===== src/Oauth/Grant/Effect.antt =====
-- What a grant leaves behind, given or refused.
use chat_with_cli.Base.{
  ◌+◌, ◌≤◌, Str, Option, none, some, true, ◌≡◌, ◌≢◌, ◌⊎◌, inl, inr, refl, ap, sym, ◌∙◌, some_inj,
  str_eq,
}
use chat_with_cli.Base.Map
use chat_with_cli.Oauth.Platform.{Platform}
use chat_with_cli.Oauth.State.{clean, Server, Client, PendingAuth, AuthCode}
use chat_with_cli.Oauth.Resource.{resource_parts}
use chat_with_cli.Oauth.Authorize.{Moment, authorize_resource}
use chat_with_cli.Oauth.Snapshot.{Snapshot, snapshot, restore}
use chat_with_cli.Oauth.Persist.{Outcome, SaveError, save, save_or_rollback, roll_back, disk_state}
use chat_with_cli.Oauth.Persist.Failure.{save_ok, save-snapshot, save_or_rollback_failed}
use chat_with_cli.Oauth.Grant.Invalid.{ClientInvalid, commit-ClientInvalid, ClientInvalid-commit}
use chat_with_cli.Oauth.Grant.Commit.{IsCommitted, commit_authorization-IsCommitted}
use chat_with_cli.Oauth.Grant.{
  CommitError, expired, client_invalid, refused, Committed, exact_redirect, code_lifetime,
  name_device, issue_code, commit_authorization, refuse_grant, saved_grant, finish_grant,
  grant_authorization,
}

restored : (s t : Server) → snapshot (restore t (snapshot s)) ≡ snapshot s
unfolding restore snapshot
restored s t = refl

forgets-snapshot :
    (s t : Server) (request : Str)
    → snapshot (record (restore t (snapshot s)) {
      pending = Map.remove (restore t (snapshot s)).pending request;
    })
      ≡ snapshot (record s { pending = Map.remove s.pending request })
unfolding restore snapshot
forgets-snapshot s t request = refl

abbrev code_of : PendingAuth → Moment → AuthCode
code_of grant m = record { grant = grant; expires = m.later + code_lifetime }

-- The state once it has been written.
abbrev settled : Server → Server
settled s = record s { disk = record { guard = clean; stored = some (disk_state s) } }

roll_back_kept :
    (old : Snapshot) (x : Server × Option SaveError)
    → (roll_back old x).1 ≡ none
    → ((roll_back old x).0 ≡ x.0) × (x.1 ≡ none)
unfolding roll_back
roll_back_kept old (s, none) h = (refl, refl)
roll_back_kept old (s, some e) h = cc

module _ (lib : Platform) where
  -- What a grant leaves that commitAuthorizationLocked has refused.
  refuse_grant_left :
      (s t : Server) (request : Str) (e : CommitError) (io : Outcome)
      → ((e ≢ client_invalid)
          × (snapshot (refuse_grant lib (restore t (snapshot s)) request e io) ≡ snapshot s))
        ⊎ ((e ≡ client_invalid)
            × (snapshot (refuse_grant lib (restore t (snapshot s)) request e io)
                ≡ snapshot (record s { pending = Map.remove s.pending request })))
  unfolding refuse_grant
  refuse_grant_left s t request expired io = inl (λ h. cc, restored s t)
  refuse_grant_left s t request refused io = inl (λ h. cc, restored s t)
  refuse_grant_left s t request client_invalid io =
      let u = restore t (snapshot s) in
      inr (
        refl,
        save-snapshot (record u { pending = Map.remove u.pending request }) io
            ∙ forgets-snapshot s t request,
      )

  saved_grant-none :
      (x : Server × Option SaveError) (g : PendingAuth × Str)
      → (saved_grant lib x g).1 ≡ none
      → (e : SaveError) × (x.1 ≡ some e) × ((saved_grant lib x g).0 ≡ x.0)
  unfolding saved_grant
  saved_grant-none (t, none) g h = cc
  saved_grant-none (t, some e) g h = (e, refl, refl)

  saved_grant-some :
      (x : Server × Option SaveError) (g k : PendingAuth × Str)
      → (saved_grant lib x g).1 ≡ some k
      → (x.1 ≡ none) × ((saved_grant lib x g).0 ≡ x.0) × (g ≡ k)
  unfolding saved_grant
  saved_grant-some (t, none) g k h = (refl, refl, some_inj h)
  saved_grant-some (t, some e) g k h = cc

  -- The state is as before, or as before without the request if that is what the commit has said.
  Left : Server → Str → CommitError ⊎ (PendingAuth × Str) → Server → Type 0
  Left s request said t =
      ((said ≢ inl client_invalid) × (snapshot t ≡ snapshot s))
      ⊎ ((said ≡ inl client_invalid)
          × (snapshot t ≡ snapshot (record s { pending = Map.remove s.pending request })))

  inl_inj :
      (x y : CommitError) → ◌≡◌ {A = CommitError ⊎ (PendingAuth × Str)} (inl x) (inl y) → x ≡ y
  inl_inj x y e = cc

  finish_grant-Left :
      (s : Server) (request : Str) (r : Server × Committed) (io : Outcome)
      → (finish_grant lib (snapshot s) request r io).1 ≡ none
      → Left s request r.1 (finish_grant lib (snapshot s) request r io).0
  unfolding finish_grant Left
  finish_grant-Left s request (t, inl e) io h = elim (refuse_grant_left s t request e io) [
    | inl (n, q) ↦ inl (λ k. n (inl_inj e client_invalid k), q)
    | inr (n, q) ↦ inr (ap inl n, q)
  ]
  finish_grant-Left s request (t, inr g) io h =
      let x = save_or_rollback t (snapshot s) io in
      let (e, f, q) = saved_grant-none x g h in
      inl (λ k. cc, rw q (save_or_rollback_failed t (snapshot s) io e f).0)

  -- A grant that fails forgets the request exactly if that is pending and live and its client is
  -- not registered, is registered under another identifier or does not have the redirect. All else
  -- that a snapshot holds is as before, also when the save fails at any step.
  pub grant_authorization_failed :
      (s : Server) (request user : Str) (m : Moment) (io : Outcome)
      → (grant_authorization lib s request user m io).1 ≡ none
      → ((¬ ClientInvalid s request m)
          × (snapshot (grant_authorization lib s request user m io).0 ≡ snapshot s))
        ⊎ (ClientInvalid s request m
            × (snapshot (grant_authorization lib s request user m io).0
                ≡ snapshot (record s { pending = Map.remove s.pending request })))
  unfolding grant_authorization Left
  grant_authorization_failed s request user m io h =
      elim (finish_grant-Left s request (commit_authorization lib s request user m) io h) [
        | inl (n, q) ↦ inl (λ w. n (ClientInvalid-commit lib s request user m w), q)
        | inr (n, q) ↦ inr (commit-ClientInvalid lib s request user m n, q)
      ]

  finished_grant :
      (s : Server) (request : Str) (r : Server × Committed) (io : Outcome) (g : PendingAuth × Str)
      → (finish_grant lib (snapshot s) request r io).1 ≡ some g
      → (r.1 ≡ inr g)
        × ((finish_grant lib (snapshot s) request r io).0 ≡ (save r.0 io).0)
        × ((save r.0 io).1 ≡ none)
  unfolding finish_grant save_or_rollback
  finished_grant s request (t, inl e) io g h = cc
  finished_grant s request (t, inr k) io g h =
      let (f, q, e) = saved_grant-some (save_or_rollback t (snapshot s) io) k g h in
      let (a, b) = roll_back_kept (snapshot s) (save t io) f in (ap inr e, q ∙ a, b)

  issue_code_lem :
      (s : Server) (request user : Str) (c : Client) (a : PendingAuth) (m : Moment)
      → (Map.get (issue_code lib s request user c a m).0.pending request ≡ none)
        × (Map.get (issue_code lib s request user c a m).0.codes (lib.sha256_hex m.code)
            ≡ some
                (record { grant = record a { user_id = user }; expires = m.later + code_lifetime }))
        × (Map.get (issue_code lib s request user c a m).0.clients a.client_id
            ≡ some (record c { approved = true }))
  unfolding issue_code
  issue_code_lem s request user c a m = (
    Map.get-remove_self s.pending request,
    Map.get-put_self s.codes (lib.sha256_hex m.code)
        (record { grant = record a { user_id = user }; expires = m.later + code_lifetime }),
    Map.get-put_self s.clients a.client_id (record c { approved = true }),
  )

  -- A grant that is given answers a request that was pending and live, from a registered client
  -- and for one of its redirects, which may have the resource; it takes the request out, and the
  -- code stands for the request and the account from then on, until it expires.
  pub grant_authorization_granted :
      (s : Server) (request user code : Str) (m : Moment) (io : Outcome) (pending : PendingAuth)
      → (grant_authorization lib s request user m io).1 ≡ some (pending, code)
      → (asked : PendingAuth) × (client : Client) × (after : Server) × (Map.get s.pending request
          ≡ some asked)
        × (m.now ≤ asked.expires)
        × (Map.get s.clients asked.client_id ≡ some client)
        × (exact_redirect client asked.redirect_uri ≡ true)
        × (authorize_resource lib s user asked.client_id asked.resource m ≡ some after)
        × (pending ≡ record asked { user_id = user })
        × (Map.get (grant_authorization lib s request user m io).0.pending request ≡ none)
        × (Map.get (grant_authorization lib s request user m io).0.codes (lib.sha256_hex code)
            ≡ some (record { grant = pending; expires = m.later + code_lifetime }))
        × (Map.get (grant_authorization lib s request user m io).0.clients asked.client_id
            ≡ some (record client { approved = true }))
  unfolding grant_authorization
  grant_authorization_granted s request user code m io pending h =
      let r = commit_authorization lib s request user m in
      let (a, q, v) = finished_grant s request r io (pending, code) h in
      let w : IsCommitted lib s request user m (pending, code) r.0 =
        commit_authorization-IsCommitted lib s r.0 request user m (pending, code)
          (ap (λ z. (r.0, z)) a) in
      let d =
        name_device lib w.after user w.client (resource_parts lib w.after w.asked.resource) m in
      let (x, y, z) = issue_code_lem d request user w.client w.asked m in
      let e = q ∙ save_ok r.0 io v ∙ ap settled w.state in
      let g : pending ≡ record w.asked { user_id = user } = ap (λ k. k.0) w.given in
      let c : code ≡ m.code = ap (λ k. k.1) w.given in
      (
        w.asked,
        w.client,
        w.after,
        w.known,
        w.live,
        w.registered,
        w.redirects,
        w.authorized,
        g,
        ap (λ t. Map.get t.pending request) e ∙ x,
        ap (λ t. Map.get t.codes (lib.sha256_hex code)) e
            ∙ ap
                (λ k.
                  Map.get (issue_code lib d request user w.client w.asked m).0.codes
                    (lib.sha256_hex k))
                c
            ∙ y
            ∙ ap (λ (k : PendingAuth). some (code_of k m)) (sym g),
        ap (λ t. Map.get t.clients w.asked.client_id) e ∙ z,
      )
