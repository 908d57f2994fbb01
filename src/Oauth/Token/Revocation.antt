-- ===== src/Oauth/Token/Revocation.antt =====
-- What the revocation endpoint takes away.
use chat_with_cli.Base.{Str, [], none, some, ◌≡◌, ◌≢◌, ap, arith}
use chat_with_cli.Base.Map
use chat_with_cli.Oauth.Platform.{Platform}
use chat_with_cli.Oauth.State.{Server, TokenRecord}
use chat_with_cli.Oauth.Persist.{Outcome, save}
use chat_with_cli.Oauth.Token.{
  reset_agent_session, revoke_family, or_else, revoke_record, drop_key, revoke,
}
use chat_with_cli.Oauth.Token.Rotation.{
  FamilyGone, revoke_family-FamilyGone, save-tables, save-FamilyGone,
}

-- The token that a key stands for, in the order in which the tables are asked.
pub data Names (s : Server) (key : Str) (r : TokenRecord) : Type 0 where
  as_access : Map.get s.access key ≡ some r → Names s key r
  as_refresh : Map.get s.access key ≡ none → Map.get s.refresh key ≡ some r → Names s key r
  as_used :
      Map.get s.access key ≡ none
      → Map.get s.refresh key ≡ none
      → Map.get s.refresh_used key ≡ some r
      → Names s key r

module _ (lib : Platform) where
  Names-found :
      (s : Server) (key : Str) (r : TokenRecord)
      → Names s key r
      → or_else lib
          (Map.get s.access key)
          (or_else lib (Map.get s.refresh key) (Map.get s.refresh_used key))
        ≡ some r
  unfolding or_else
  Names-found s key r (as_access a) = ground arith
  Names-found s key r (as_refresh a b) = ground arith
  Names-found s key r (as_used a b c) = ground arith

  drop_key-FamilyGone :
      (s : Server) (key family : Str) → FamilyGone s family → FamilyGone (drop_key lib s key) family
  unfolding drop_key
  drop_key-FamilyGone s key family g = record {
    access = λ k r h. g.access k r (Map.get_of_removed s.access key k r h);
    refresh = λ k r h. g.refresh k r (Map.get_of_removed s.refresh key k r h);
    refresh_used = λ k r h. g.refresh_used k r (Map.get_of_removed s.refresh_used key k r h);
  }

  revoke-state :
      (s : Server) (token : Str) (io : Outcome) (r : TokenRecord)
      → Names s (lib.sha256_hex token) r
      → revoke lib s token io
        ≡ (save
            (drop_key lib
              (revoke_family lib (reset_agent_session lib s r.resource) r.family)
              (lib.sha256_hex token))
            io).0
  unfolding revoke revoke_record
  revoke-state s token io r n =
      let key = lib.sha256_hex token in
      ap (λ o. (save (drop_key lib (revoke_record lib s o) key) io).0) (Names-found s key r n)

  -- Whatever the token was, none of the tables has its key after it was revoked.
  revoke-drops :
      (s : Server) (token : Str) (io : Outcome)
      → (let s' = revoke lib s token io in
          let key = lib.sha256_hex token in
          (Map.get s'.access key ≡ none)
          × (Map.get s'.refresh key ≡ none)
          × (Map.get s'.refresh_used key ≡ none))
  unfolding revoke drop_key
  revoke-drops s token io =
      let key = lib.sha256_hex token in
      let found =
        or_else lib (Map.get s.access key)
          (or_else lib (Map.get s.refresh key) (Map.get s.refresh_used key)) in
      let t = revoke_record lib s found in
      let (a, b, c) = save-tables (drop_key lib t key) io in
      (
        rw a (Map.get-remove_self t.access key),
        rw b (Map.get-remove_self t.refresh key),
        rw c (Map.get-remove_self t.refresh_used key),
      )

  -- Revoking an access token, a refresh token or a used one leaves no token of its family, and none
  -- under its own key, whether the change could be saved or not.
  pub revoke-FamilyGone :
      (s : Server) (token : Str) (io : Outcome) (r : TokenRecord)
      → Names s (lib.sha256_hex token) r
      → r.family ≢ []
      → FamilyGone (revoke lib s token io) r.family
        × (Map.get (revoke lib s token io).access (lib.sha256_hex token) ≡ none)
        × (Map.get (revoke lib s token io).refresh (lib.sha256_hex token) ≡ none)
        × (Map.get (revoke lib s token io).refresh_used (lib.sha256_hex token) ≡ none)
  revoke-FamilyGone s token io r n named =
      let (a, b, c) = revoke-drops s token io in
      (
        rw (revoke-state s token io r n) (
            save-FamilyGone _ io r.family (
              drop_key-FamilyGone _ (lib.sha256_hex token) r.family
                (revoke_family-FamilyGone lib _ r.family named))),
        a,
        b,
        c,
      )
