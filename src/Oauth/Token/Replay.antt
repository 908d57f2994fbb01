-- ===== src/Oauth/Token/Replay.antt =====
-- Rotation of refresh tokens, and what becomes of the new tokens when the old one is replayed.
use chat_with_cli.Base.{
  ℕ, ◌+◌, ◌*◌, Str, [], none, some, true, is_empty, ◌==◌, str_eq, ◌≡◌, ◌≢◌, ◌⊎◌, inl, inr, refl, ap,
  sym, ◌∙◌, arith, Bool-cases, Option-cases, str_beq_iff, if◌then◌else◌, some_inj,
}
use chat_with_cli.Base.Map
use chat_with_cli.Base.Map.{Map}
use chat_with_cli.Oauth.Platform.{Platform}
use chat_with_cli.Oauth.State.{Server, TokenRecord, Disk, unix, hour}
use chat_with_cli.Oauth.Cleanup.{cleanup, token_live}
use chat_with_cli.Oauth.Cleanup.Tokens.{cleanup-refresh}
use chat_with_cli.Oauth.Persist.{Outcome}
use chat_with_cli.Oauth.Token.{
  Draws, RefreshRequest, granted, invalid_grant, refuse_refresh, rotate, found_refresh,
  refresh_usable, exchange_refresh, undo_rotation, issue_tokens_in_family,
}
use chat_with_cli.Oauth.Token.Issue.{new_record, issue_in_family_ok}
use chat_with_cli.Oauth.Token.Rotation.{
  IsReplay, FamilyGone, exchange_refresh_replay, exchange_refresh_replay-access,
}

module _ (lib : Platform) where
  -- The record of the old token as rotation keeps it: a family of its own if it had none.
  abbrev pub settled : TokenRecord → Draws → TokenRecord
  settled r draws = record r { family = if is_empty r.family then draws.family else r.family }

  -- The server after a rotation that was persisted.
  abbrev rotated : Server → Str → TokenRecord → ℕ → Draws → Disk → Server
  rotated s key r now draws d =
      let q = settled r draws in
      record s {
        access = Map.put s.access (lib.sha256_hex draws.access) (
            new_record lib q.client_id q.user_id q.resource q.scope q.family (unix (now + hour))
              draws);
        refresh = Map.put (Map.remove s.refresh key) (lib.sha256_hex draws.refresh) (
            new_record lib q.client_id q.user_id q.resource q.scope q.family
              (unix (now + 30 * 24 * hour)) draws);
        refresh_used = Map.put s.refresh_used key q;
        disk = d;
      }

  rotate_granted :
      (s : Server) (key : Str) (r : TokenRecord) (now : ℕ) (draws : Draws) (io : Outcome)
      (access refresh scope : Str) (lifetime : ℕ)
      → (rotate lib s key r now draws io).1 ≡ granted access refresh lifetime scope
      → (d : Disk) × (rotate lib s key r now draws io
          ≡ (rotated s key r now draws d, granted draws.access draws.refresh 3600 r.scope))
  unfolding rotate
  rotate_granted s key r now draws io access refresh scope lifetime h =
      let q = settled r draws in
      let x = record s {
        refresh = Map.remove s.refresh key;
        refresh_used = Map.put s.refresh_used key q;
      } in
      elim (Option-cases
        (issue_tokens_in_family lib x q.client_id q.user_id q.resource q.scope q.family now draws
          io).1) [
            | inl e ↦ absurd (ground arith)
            | inr (t, e) ↦
                let (d, o) =
                  issue_in_family_ok lib x q.client_id q.user_id q.resource q.scope q.family now
                    draws io t e in
                (d, ap (undo_rotation lib key q) o)
          ]

  refuse_refresh-refused :
      (s : Server) (req : RefreshRequest) (key : Str) (io : Outcome)
      → (refuse_refresh lib s req key io).1 ≡ invalid_grant
  unfolding refuse_refresh
  refuse_refresh-refused s req key io = refl

  found_refresh-rotates :
      (s : Server) (req : RefreshRequest) (key : Str) (r : TokenRecord) (now : ℕ) (draws : Draws)
      (io : Outcome) (access refresh scope : Str) (lifetime : ℕ)
      → (found_refresh lib s req key (some r) now draws io).1
        ≡ granted access refresh lifetime scope
      → ((r.client_id == req.client_id) ≡ true)
        × (refresh_usable lib s r ≡ true)
        × (found_refresh lib s req key (some r) now draws io ≡ rotate lib s key r now draws io)
  unfolding found_refresh
  found_refresh-rotates s req key r now draws io access refresh scope lifetime h =
      elim (Bool-cases (r.client_id == req.client_id)) [
        | inl c ↦ elim (Bool-cases (refresh_usable lib s r)) [
          | inl u ↦ (c, u, ground arith)
          | inr u ↦ absurd (ground arith)
        ]
        | inr c ↦ absurd (ground arith)
      ]

  -- A granted refresh rotated a current token of the client that asks.
  exchange_refresh-rotates :
      (s : Server) (req : RefreshRequest) (start now : ℕ) (draws : Draws) (io : Outcome)
      (access refresh scope : Str) (lifetime : ℕ)
      → (exchange_refresh lib s req start now draws io).1 ≡ granted access refresh lifetime scope
      → (r : TokenRecord) × (Map.get
            (cleanup lib s start).refresh
            (lib.sha256_hex req.refresh_token)
          ≡ some r)
        × (r.client_id ≡ req.client_id)
        × (refresh_usable lib (cleanup lib s start) r ≡ true)
        × (exchange_refresh lib s req start now draws io
            ≡ rotate lib (cleanup lib s start) (lib.sha256_hex req.refresh_token) r now draws io)
  unfolding exchange_refresh
  exchange_refresh-rotates s req start now draws io access refresh scope lifetime h =
      let key = lib.sha256_hex req.refresh_token in
      let t = cleanup lib s start in
      elim (Option-cases (Map.get t.refresh key)) [
        | inl e ↦
            let h' = (rw (e, found_refresh) at h) in
            absurd (ground (arith, refuse_refresh-refused t req key io))
        | inr (r, e) ↦
            let (c, u, q) =
              found_refresh-rotates t req key r now draws io access refresh scope lifetime
                (rw (e) at h) in
            (r, e, (str_beq_iff r.client_id req.client_id).0 c, u, rw e q)
      ]

  exchange_refresh-state :
      (s : Server) (req : RefreshRequest) (start now : ℕ) (draws : Draws) (io : Outcome)
      (access refresh scope : Str) (lifetime : ℕ) (r : TokenRecord)
      → (exchange_refresh lib s req start now draws io).1 ≡ granted access refresh lifetime scope
      → Map.get s.refresh (lib.sha256_hex req.refresh_token) ≡ some r
      → (d : Disk) × (r.client_id ≡ req.client_id)
        × (exchange_refresh lib s req start now draws io ≡ (
          rotated (cleanup lib s start) (lib.sha256_hex req.refresh_token) r now draws d,
          granted draws.access draws.refresh 3600 r.scope,
        ))
  exchange_refresh-state s req start now draws io access refresh scope lifetime r h e =
      let key = lib.sha256_hex req.refresh_token in
      let (r', found, client, _, q) =
        exchange_refresh-rotates s req start now draws io access refresh scope lifetime h in
      let (stored, _) =
        Map.filter_value-eq-some (token_live lib s start) (Map.get s.refresh key) r'
          (sym (cleanup-refresh lib s start key) ∙ found) in
      let same : r' ≡ r = some_inj (sym stored ∙ e) in
      let (d, o) =
        rotate_granted (cleanup lib s start) key r' now draws io access refresh scope lifetime
          (ap (λ p. p.1) (sym q) ∙ h) in
      (d, rw (← same) client, rw (← same) (q ∙ o))

  settled-named :
      (r : TokenRecord) (draws : Draws) → draws.family ≢ [] → (settled r draws).family ≢ []
  settled-named r draws named = ground arith

  new_record-settled :
      (r : TokenRecord) (expires : ℕ) (draws : Draws)
      → draws.family ≢ []
      → new_record lib r.client_id r.user_id r.resource r.scope
          (settled r draws).family
          expires
          draws
        ≡ record (settled r draws) { expires = expires }
  unfolding new_record
  new_record-settled r expires draws named = ground arith

  -- Rotation: a granted refresh was asked by the client of a current token, and answers with the
  -- drawn pair and the old scope. The old token is current no more; it is remembered as used, under
  -- the family of the new access token, which keeps the client, the account, the resource and the
  -- scope of the old one.
  pub exchange_refresh_granted :
      (s : Server) (req : RefreshRequest) (start now : ℕ) (draws : Draws) (io : Outcome)
      (access refresh scope : Str) (lifetime : ℕ) (r : TokenRecord)
      → (exchange_refresh lib s req start now draws io).1 ≡ granted access refresh lifetime scope
      → Map.get s.refresh (lib.sha256_hex req.refresh_token) ≡ some r
      → lib.sha256_hex draws.refresh ≢ lib.sha256_hex req.refresh_token
      → draws.family ≢ []
      → (let s' = (exchange_refresh lib s req start now draws io).0 in
          (r.client_id ≡ req.client_id)
          × (granted access refresh lifetime scope
              ≡ granted draws.access draws.refresh 3600 r.scope)
          × (Map.get s'.refresh (lib.sha256_hex req.refresh_token) ≡ none)
          × (Map.get s'.refresh_used (lib.sha256_hex req.refresh_token) ≡ some (settled r draws))
          × (Map.get s'.access (lib.sha256_hex access)
              ≡ some (record (settled r draws) { expires = unix (now + hour) })))
  exchange_refresh_granted s req start now draws io access refresh scope lifetime r h e fresh
        family =
      let key = lib.sha256_hex req.refresh_token in
      let t = cleanup lib s start in
      let (d, client, q) =
        exchange_refresh-state s req start now draws io access refresh scope lifetime r h e in
      let answer : granted access refresh lifetime scope
          ≡ granted draws.access draws.refresh 3600 r.scope =
        sym h ∙ ap (λ p. p.1) q in
      let same : access ≡ draws.access = ground (arith, answer) in
      let fresh_record : TokenRecord =
        new_record lib r.client_id r.user_id r.resource r.scope (settled r draws).family
          (unix (now + 30 * 24 * hour)) draws in
      let other =
        Map.get-put_other (Map.remove t.refresh key) (lib.sha256_hex draws.refresh) key fresh_record
          fresh
        ∙ Map.get-remove_self t.refresh key in
      let new =
        Map.get-put_self t.access (lib.sha256_hex draws.access) (
          new_record lib r.client_id r.user_id r.resource r.scope (settled r draws).family
            (unix (now + hour)) draws)
        ∙ ap some (new_record-settled r (unix (now + hour)) draws family) in
      rw (q, same)
        (
          client,
          rw same at answer,
          other,
          Map.get-put_self t.refresh_used key (settled r draws),
          new,
        )

  -- A replay takes away each access token of the family.
  replay-clears :
      (s : Server) (req : RefreshRequest) (start now : ℕ) (draws : Draws) (io : Outcome)
      (used : TokenRecord) (k : Str) (a : TokenRecord)
      → IsReplay lib s req start used
      → used.family ≢ []
      → Map.get s.access k ≡ some a
      → a.family ≡ used.family
      → Map.get (exchange_refresh lib s req start now draws io).0.access k ≡ none
  replay-clears s req start now draws io used k a p named e same =
      let t = (exchange_refresh lib s req start now draws io).0 in
      elim (Option-cases (Map.get t.access k)) [
        | inl gone ↦ gone
        | inr (x, q) ↦
            let was =
              exchange_refresh_replay-access lib s req start now draws io used k x p named q in
            let twin : x ≡ a = some_inj (sym was ∙ e) in
            let left = (exchange_refresh_replay lib s req start now draws io used p named).1 in
            absurd (left.access k x q (ap (λ (y : TokenRecord). y.family) twin ∙ same))
      ]

  -- Reuse: once a token has been rotated, a later refresh with the same token by its client, while
  -- its record still lives, is refused, and takes with it the access token that the rotation issued
  -- and every other token of the family.
  pub exchange_refresh_reused :
      (s : Server) (req again : RefreshRequest) (start now later last : ℕ) (draws draws' : Draws)
      (io io' : Outcome) (access refresh scope : Str) (lifetime : ℕ) (r : TokenRecord)
      → (exchange_refresh lib s req start now draws io).1 ≡ granted access refresh lifetime scope
      → Map.get s.refresh (lib.sha256_hex req.refresh_token) ≡ some r
      → lib.sha256_hex draws.refresh ≢ lib.sha256_hex req.refresh_token
      → draws.family ≢ []
      → again.refresh_token ≡ req.refresh_token
      → (again.client_id ≡ []) ⊎ (again.client_id ≡ req.client_id)
      → token_live lib (exchange_refresh lib s req start now draws io).0 later (settled r draws)
        ≡ true
      → (let s' = (exchange_refresh lib s req start now draws io).0 in
          let (s'', answer) = exchange_refresh lib s' again later last draws' io' in
          (answer ≡ invalid_grant)
          × (Map.get s''.access (lib.sha256_hex access) ≡ none)
          × FamilyGone s'' (settled r draws).family)
  exchange_refresh_reused s req again start now later last draws draws' io io' access refresh scope
        lifetime r h e fresh family token client live =
      let s' = (exchange_refresh lib s req start now draws io).0 in
      let (own, _, gone, used, new) =
        exchange_refresh_granted s req start now draws io access refresh scope lifetime r h e fresh
          family in
      let replay : IsReplay lib s' again later (settled r draws) = record {
        spent = rw token gone;
        used_up = rw token used;
        live = live;
        client = elim client [ inl unnamed ↦ inl unnamed | inr same ↦ inr (own ∙ sym same) ];
      } in
      let named = settled-named r draws family in
      let (refused, left) =
        exchange_refresh_replay lib s' again later last draws' io' (settled r draws) replay named in
      (
        refused,
        replay-clears s' again later last draws' io' (settled r draws) (lib.sha256_hex access)
            (record (settled r draws) { expires = unix (now + hour) }) replay named new refl,
        left,
      )
