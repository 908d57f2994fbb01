-- ===== src/Usage/Redeem.antt =====
-- Codes and rewards are good once.
use chat_with_cli.Base.{
  ℕ, ◌≤◌, Str, none, some, true, false, ◌==◌, str_eq, nat_eq, ◌≡◌, ◌≢◌, inl, inr, refl, arith, ap,
  ◌∙◌, sym, trim_space, length, leb, ltb, ◌||◌, Option-cases, Bool-cases,
}
use chat_with_cli.Base.Map
use chat_with_cli.Oauth.Platform.{Platform}
use chat_with_cli.Oauth.State.{Server, ActivationCodeRecord, unix}
use chat_with_cli.Oauth.Cleanup.{cleanup, reward_live}
use chat_with_cli.Oauth.Cleanup.Tokens.{cleanup-redeemed_rewards}
use chat_with_cli.Usage.{
  pos, expired_code, grant_quota, redeem_record, redeem_activation_code, Entitlement, redeem_claim,
  claim_valid, accept_claim,
}

module _ (lib : Platform) where
  redeem_record-spends :
      (s : Server) (key user : Str) (now : ℕ) (r : ActivationCodeRecord)
      → r.uses_remaining ≡ 1
      → (redeem_record lib s key user now (some r)).1 ≡ none
      → Map.get (redeem_record lib s key user now (some r)).0.activation_codes key ≡ none
  unfolding redeem_record
  redeem_record-spends s key user now r once h =
      elim (Bool-cases (leb r.expires (unix now) || r.uses_remaining == 0)) [
        | inl dead ↦ absurd (ground arith)
        | inr live ↦ elim (Option-cases (grant_quota s user (pos r.quota_bytes)).1) [
          | inl granted ↦ ground (
            arith,
            Map.get-remove_self (grant_quota s user (pos r.quota_bytes)).0.activation_codes key,
          )
          | inr (e, refused) ↦ absurd (ground arith)
        ]
      ]

  redeem_record-missing :
      (s : Server) (key user : Str) (now : ℕ)
      → (redeem_record lib s key user now none).1 ≡ some expired_code
  unfolding redeem_record
  redeem_record-missing s key user now = refl

  redeem_activation_code-found :
      (s : Server) (raw user : Str) (now : ℕ)
      → (redeem_activation_code lib s raw user now).1 ≡ none
      → (redeem_activation_code lib s raw user now
          ≡ redeem_record lib s
              (lib.sha256_hex (trim_space raw))
              user
              now
              (Map.get s.activation_codes (lib.sha256_hex (trim_space raw))))
        × ((ltb (length (trim_space raw)) 8 || ltb 256 (length (trim_space raw))) ≡ false)
  unfolding redeem_activation_code
  redeem_activation_code-found s raw user now h =
      elim (Bool-cases (ltb (length (trim_space raw)) 8 || ltb 256 (length (trim_space raw)))) [
        | inl bad ↦ absurd (ground arith)
        | inr fine ↦ (rw fine, fine)
      ]

  redeem_activation_code-unknown :
      (s : Server) (raw user : Str) (now : ℕ)
      → Map.get s.activation_codes (lib.sha256_hex (trim_space raw)) ≡ none
      → (redeem_activation_code lib s raw user now).1 ≢ none
  redeem_activation_code-unknown s raw user now e h =
      let (q, _) = redeem_activation_code-found s raw user now h in
      let key = lib.sha256_hex (trim_space raw) in
      let refused : (redeem_record lib s key user now (Map.get s.activation_codes key)).1
          ≡ some expired_code =
        rw e (redeem_record-missing s key user now) in
      cc (q, refused, h)

  -- An activation code with one use left that has been redeemed is refused ever after, to
  -- everybody, whatever white space surrounds it.
  pub redeem_activation_code_once :
      (s : Server) (raw again user other : Str) (now later : ℕ) (r : ActivationCodeRecord)
      → Map.get s.activation_codes (lib.sha256_hex (trim_space raw)) ≡ some r
      → r.uses_remaining ≡ 1
      → (redeem_activation_code lib s raw user now).1 ≡ none
      → trim_space again ≡ trim_space raw
      → (redeem_activation_code lib
          (redeem_activation_code lib s raw user now).0
          again
          other
          later).1
        ≢ none
  redeem_activation_code_once s raw again user other now later r e once h same =
      let (q, _) = redeem_activation_code-found s raw user now h in
      let key = lib.sha256_hex (trim_space raw) in
      let t = (redeem_activation_code lib s raw user now).0 in
      let q' : redeem_activation_code lib s raw user now
          ≡ redeem_record lib s key user now (some r) =
        rw e at q in
      let gone : Map.get t.activation_codes key ≡ none =
        rw q' (redeem_record-spends s key user now r once (ap (λ p. p.1) (sym q') ∙ h)) in
      redeem_activation_code-unknown t again other later (rw same gone)

  redeem_claim-remembers :
      (s : Server) (c : Entitlement) (user : Str)
      → (redeem_claim s (some c) user).1 ≡ none
      → Map.get (redeem_claim s (some c) user).0.redeemed_rewards c.id ≡ some c.expires
  unfolding redeem_claim
  redeem_claim-remembers s c user h = elim (Option-cases (grant_quota s user c.quota_bytes).1) [
    | inl granted ↦ ground (
      arith,
      Map.get-put_self (grant_quota s user c.quota_bytes).0.redeemed_rewards c.id c.expires,
    )
    | inr (e, refused) ↦ absurd (ground arith)
  ]

  redeem_claim-seen :
      (s : Server) (c : Entitlement) (user : Str)
      → Map.has s.redeemed_rewards c.id ≡ true
      → (redeem_claim s (some c) user).1 ≢ none
  unfolding redeem_claim
  redeem_claim-seen s c user seen h = ground arith

  redeem_claim-none : (s : Server) (user : Str) → (redeem_claim s none user).1 ≢ none
  unfolding redeem_claim
  redeem_claim-none s user h = cc

  accepted-seen :
      (s : Server) (c : Entitlement) (user : Str) (now : ℕ)
      → Map.has s.redeemed_rewards c.id ≡ true
      → (redeem_claim s (accept_claim now (some c)) user).1 ≢ none
  unfolding accept_claim
  accepted-seen s c user now seen = elim (Bool-cases (claim_valid c now)) [
    | inl good ↦ rw good (redeem_claim-seen s c user seen)
    | inr bad ↦ rw bad (redeem_claim-none s user)
  ]

  reward_live-early :
      (now expires : ℕ) → leb expires (unix now) ≡ false → reward_live now expires ≡ true
  unfolding reward_live
  reward_live-early now expires e = rw e

  accept_claim-refused :
      (c : Entitlement) (now : ℕ) → c.expires ≤ unix now → accept_claim now (some c) ≡ none
  unfolding accept_claim
  accept_claim-refused c now late = ground arith

  -- A reward that has been redeemed is refused ever after, to every account, although cleanup
  -- forgets it when it expires: from then on the claim itself is not accepted.
  pub redeem_claim_once :
      (s : Server) (c : Entitlement) (user other : Str) (later : ℕ)
      → (redeem_claim s (some c) user).1 ≡ none
      → (redeem_claim
          (cleanup lib (redeem_claim s (some c) user).0 later)
          (accept_claim later (some c))
          other).1
        ≢ none
  redeem_claim_once s c user other later h =
      let t = (redeem_claim s (some c) user).0 in
      elim (Bool-cases (leb c.expires (unix later))) [
        | inl late ↦
            rw (accept_claim-refused c later (ground arith))
              (redeem_claim-none (cleanup lib t later) other)
        | inr early ↦
            let kept : Map.get (cleanup lib t later).redeemed_rewards c.id ≡ some c.expires =
              cleanup-redeemed_rewards lib t later c.id
              ∙ Map.filter_value_kept (reward_live later) _ c.expires
                  (redeem_claim-remembers s c user h) (reward_live-early later c.expires early) in
            accepted-seen (cleanup lib t later) c other later (ground (arith, kept))
      ]
