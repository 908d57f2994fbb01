-- ===== src/Oauth/Token/Rotation.antt =====
-- Families of tokens: what revocation takes away, rotation, and the replay of a used refresh token.
use chat_with_cli.Base.{
  ℕ, Str, [], none, some, true, false, not, is_empty, ◌||◌, ◌==◌, str_eq, ◌≡◌, ◌≢◌, ◌⊎◌, inl, inr,
  refl, ap, ◌∙◌, arith, str_beq_iff,
}
use chat_with_cli.Base.Map
use chat_with_cli.Base.Map.{Map}
use chat_with_cli.Oauth.Platform.{Platform}
use chat_with_cli.Oauth.State.{Server, TokenRecord}
use chat_with_cli.Oauth.Cleanup.{cleanup, token_live}
use chat_with_cli.Oauth.Cleanup.Tokens.{cleanup-access, cleanup-refresh, cleanup-refresh_used}
use chat_with_cli.Oauth.Snapshot.{snapshot}
use chat_with_cli.Oauth.Persist.{Outcome, save}
use chat_with_cli.Oauth.Persist.Failure.{save-snapshot}
use chat_with_cli.Oauth.Token.{
  Draws, RefreshRequest, invalid_grant, reset_agent_session, revoke_family, replayed,
  refuse_refresh, found_refresh, exchange_refresh,
}

-- No token of the family is left in any table.
pub record FamilyGone (s : Server) (family : Str) : Type 0 where
  pub access : (k : Str) (r : TokenRecord) → Map.get s.access k ≡ some r → r.family ≢ family
  pub refresh : (k : Str) (r : TokenRecord) → Map.get s.refresh k ≡ some r → r.family ≢ family
  pub refresh_used :
      (k : Str) (r : TokenRecord) → Map.get s.refresh_used k ≡ some r → r.family ≢ family

retain-family :
    (m : Map TokenRecord) (family k : Str) (r : TokenRecord)
    → Map.get (Map.retain (λ _ r. not (r.family == family)) m) k ≡ some r
    → (Map.get m k ≡ some r) × (r.family ≢ family)
retain-family m family k r h =
    let (e, other) = Map.filter_value-eq-some _ (Map.get m k) r (rw (Map.get-retain) at h) in
    (e, λ same. ground (arith, str_beq_iff r.family family))

-- The tables that a save leaves as they are.
pub save-tables :
    (s : Server) (io : Outcome)
    → ((save s io).0.access ≡ s.access)
      × ((save s io).0.refresh ≡ s.refresh)
      × ((save s io).0.refresh_used ≡ s.refresh_used)
unfolding snapshot
save-tables s io = ground (arith, save-snapshot s io)

pub save-FamilyGone :
    (s : Server) (io : Outcome) (family : Str)
    → FamilyGone s family
    → FamilyGone (save s io).0 family
save-FamilyGone s io family g =
    let (a, r, u) = save-tables s io in
    record {
      access = λ k t h. g.access k t (rw a at h);
      refresh = λ k t h. g.refresh k t (rw r at h);
      refresh_used = λ k t h. g.refresh_used k t (rw u at h);
    }

module _ (lib : Platform) where
  revoke_family_lem :
      (s : Server) (family : Str)
      → family ≢ []
      → revoke_family lib s family ≡ record s {
        access = Map.retain (λ _ r. not (r.family == family)) s.access;
        refresh = Map.retain (λ _ r. not (r.family == family)) s.refresh;
        refresh_used = Map.retain (λ _ r. not (r.family == family)) s.refresh_used;
      }
  unfolding revoke_family
  revoke_family_lem s family named = let e : is_empty family ≡ false = ground arith in rw e

  pub revoke_family-FamilyGone :
      (s : Server) (family : Str) → family ≢ [] → FamilyGone (revoke_family lib s family) family
  revoke_family-FamilyGone s family named = rw (revoke_family_lem s family named) (record {
    access = λ k r h. (retain-family s.access family k r h).1;
    refresh = λ k r h. (retain-family s.refresh family k r h).1;
    refresh_used = λ k r h. (retain-family s.refresh_used family k r h).1;
  })

  -- Revocation adds no access token.
  revoke_family-access :
      (s : Server) (family k : Str) (r : TokenRecord)
      → family ≢ []
      → Map.get (revoke_family lib s family).access k ≡ some r
      → Map.get s.access k ≡ some r
  revoke_family-access s family k r named h =
      (retain-family s.access family k r (rw (revoke_family_lem s family named) at h)).0

  reset_agent_session-access :
      (s : Server) (resource : Str) → (reset_agent_session lib s resource).access ≡ s.access
  unfolding reset_agent_session
  reset_agent_session-access s resource = ground arith

  -- The request of a replay: the token is no longer current, but a live used one, and the client is
  -- the one it was issued to, or is not named.
  pub record IsReplay (s : Server) (req : RefreshRequest) (start : ℕ) (used : TokenRecord)
      : Type 0 where
    pub spent : Map.get s.refresh (lib.sha256_hex req.refresh_token) ≡ none
    pub used_up : Map.get s.refresh_used (lib.sha256_hex req.refresh_token) ≡ some used
    pub live : token_live lib s start used ≡ true
    pub client : (req.client_id ≡ []) ⊎ (used.client_id ≡ req.client_id)

  names_owner :
      (req : RefreshRequest) (used : TokenRecord)
      → (req.client_id ≡ []) ⊎ (used.client_id ≡ req.client_id)
      → (is_empty req.client_id || used.client_id == req.client_id) ≡ true
  names_owner req used (inl e) = ground arith
  names_owner req used (inr e) = ground (arith, str_beq_iff used.client_id req.client_id)

  refuse_refresh-replay :
      (s : Server) (req : RefreshRequest) (key : Str) (io : Outcome) (used : TokenRecord)
      → Map.get s.refresh_used key ≡ some used
      → (req.client_id ≡ []) ⊎ (used.client_id ≡ req.client_id)
      → refuse_refresh lib s req key io ≡ (
        (save (revoke_family lib (reset_agent_session lib s used.resource) used.family) io).0,
        invalid_grant,
      )
  unfolding refuse_refresh
  refuse_refresh-replay s req key io used e c = rw (e, replayed) (rw (names_owner req used c))

  exchange_refresh_replay-state :
      (s : Server) (req : RefreshRequest) (start now : ℕ) (draws : Draws) (io : Outcome)
      (used : TokenRecord)
      → IsReplay s req start used
      → exchange_refresh lib s req start now draws io ≡ (
        (save
            (revoke_family lib
              (reset_agent_session lib (cleanup lib s start) used.resource)
              used.family)
            io).0,
        invalid_grant,
      )
  unfolding exchange_refresh
  exchange_refresh_replay-state s req start now draws io used p =
      let key = lib.sha256_hex req.refresh_token in
      let t = cleanup lib s start in
      let gone : Map.get t.refresh key ≡ none =
        cleanup-refresh lib s start key ∙ ap (Map.filter_value (token_live lib s start)) p.spent in
      let kept : Map.get t.refresh_used key ≡ some used =
        cleanup-refresh_used lib s start key
        ∙ Map.filter_value_kept _ (Map.get s.refresh_used key) used p.used_up p.live in
      rw (gone, found_refresh) (refuse_refresh-replay t req key io used kept p.client)

  -- A used refresh token that comes back from its client is refused, and no token of its family,
  -- access or refresh, is left.
  pub exchange_refresh_replay :
      (s : Server) (req : RefreshRequest) (start now : ℕ) (draws : Draws) (io : Outcome)
      (used : TokenRecord)
      → IsReplay s req start used
      → used.family ≢ []
      → ((exchange_refresh lib s req start now draws io).1 ≡ invalid_grant)
        × FamilyGone (exchange_refresh lib s req start now draws io).0 used.family
  exchange_refresh_replay s req start now draws io used p named =
      rw (exchange_refresh_replay-state s req start now draws io used p)
        (refl, save-FamilyGone _ io used.family (revoke_family-FamilyGone _ used.family named))

  -- A replay adds no access token.
  pub exchange_refresh_replay-access :
      (s : Server) (req : RefreshRequest) (start now : ℕ) (draws : Draws) (io : Outcome)
      (used : TokenRecord) (k : Str) (r : TokenRecord)
      → IsReplay s req start used
      → used.family ≢ []
      → Map.get (exchange_refresh lib s req start now draws io).0.access k ≡ some r
      → Map.get s.access k ≡ some r
  exchange_refresh_replay-access s req start now draws io used k r p named h =
      let t = cleanup lib s start in
      let t' = reset_agent_session lib t used.resource in
      let after = (rw (exchange_refresh_replay-state s req start now draws io used p) at h) in
      let kept = (rw ((save-tables (revoke_family lib t' used.family) io).0) at after) in
      let back = revoke_family-access t' used.family k r named kept in
      let clean =
        (rw (reset_agent_session-access t used.resource, cleanup-access lib s start k) at back) in
      (Map.filter_value-eq-some (token_live lib s start) (Map.get s.access k) r clean).0
