-- ===== src/Usage.antt =====
-- internal/oauthserver/usage.go: traffic quotas, activation codes and rewarded grants. The int64
-- arguments that come from outside are integers; a stored count is a natural number, since a stored
-- negative one is refused when the state is loaded.
pub mod Quota
pub mod Redeem
use chat_with_cli.Base.{
  ℕ, ◌+◌, ◌-◌, ◌*◌, ◌^◌, Str, List, [], ◌∷◌, split, Option, none, some, Bool, true, false, ◌||◌,
  ◌&&◌, not, is_empty, codes, length, ◌++◌, ltb, leb, ◌==◌, nat_eq, str_eq, trim_space,
  if◌then◌else◌,
}
use chat_with_cli.Base.Map
use chat_with_cli.Oauth.State.{Server, UsageRecord, ActivationCodeRecord, unix, second, hour}
use chat_with_cli.Oauth.Platform.{Platform}
use chat_with_cli.Oauth.Access.{active_user}

-- A Go int64; `negsuc n` is -(n + 1).
pub data ℤ : Type 0 where
  pos : ℕ → ℤ
  negsuc : ℕ → ℤ

abbrev pub default_usage_quota_bytes : ℕ
default_usage_quota_bytes = 104857600

abbrev pub max_usage_quota_bytes : ℕ
max_usage_quota_bytes = 1125899906842624

abbrev pub max_activation_codes : ℕ
max_activation_codes = 4096

pub data UsageError : Type 0 where
  bad_amount unknown_user quota_exceeded code_limit invalid_code expired_code : UsageError
  invalid_entitlement foreign_entitlement redeemed_entitlement : UsageError

pub data Result {ℓ} (A : Type ℓ) : Type ℓ where
  ok : A → Result A
  err : UsageError → Result A

new_record : ℕ → UsageRecord
new_record default = record {
  quota_bytes = if default == 0 then default_usage_quota_bytes else default;
  used_bytes = 0;
}

ensured : Server → Str → Option UsageRecord → Server × UsageRecord
unfolding new_record
ensured s user (some r) = (s, r)
ensured s user none =
    let r = new_record s.usage_default_quota_bytes in
    (record s { usage = Map.put s.usage user r; usage_dirty = true }, r)

unfoldable pub ensure_usage_record : Server → Str → Server × UsageRecord
unfolding ensured
ensure_usage_record s user = ensured s user (Map.get s.usage user)

unfoldable pub usage_remaining : UsageRecord → ℕ
usage_remaining r = if leb r.quota_bytes r.used_bytes then 0 else r.quota_bytes - r.used_bytes

add_quota : Server → UsageRecord → Str → ℕ → Server × Option UsageError
add_quota s r user quota =
    if ltb (max_usage_quota_bytes - quota) r.quota_bytes then (s, some quota_exceeded) else (
      record s {
        usage = Map.put s.usage user (record r { quota_bytes = r.quota_bytes + quota });
        usage_dirty = true;
      },
      none,
    )

grant_amount : Server → Str → ℕ → Server × Option UsageError
unfolding add_quota ensure_usage_record
grant_amount s user quota =
    if not (active_user s user)
    then (s, some unknown_user)
    else (let (t, r) = ensure_usage_record s user in add_quota t r user quota)

-- grantQuotaLocked; `none` is a nil error.
unfoldable pub grant_quota : Server → Str → ℤ → Server × Option UsageError
unfolding grant_amount
grant_quota s user (negsuc n) = (s, some bad_amount)
grant_quota s user (pos quota) =
    if quota == 0 || ltb max_usage_quota_bytes quota
    then (s, some bad_amount)
    else grant_amount s user quota

add_used : UsageRecord → ℕ → UsageRecord
add_used r bytes = record r {
  used_bytes =
      if ltb (max_usage_quota_bytes - r.used_bytes) bytes
      then max_usage_quota_bytes
      else r.used_bytes + bytes;
}

count_bytes : Server → Str → ℕ → Server
unfolding add_used ensure_usage_record
count_bytes s user bytes =
    let (t, r) = ensure_usage_record s user in
    record t { usage = Map.put t.usage user (add_used r bytes); usage_dirty = true }

-- recordUsageBytesLocked; recordUsageBytes makes the same tests before it.
unfoldable pub record_usage_bytes : Server → Str → ℤ → Server
unfolding count_bytes
record_usage_bytes s user (negsuc n) = s
record_usage_bytes s user (pos bytes) =
    if not s.usage_metering_enabled || bytes == 0 || not (active_user s user)
    then s
    else count_bytes s user bytes

owner_of : Option Str → Str
owner_of none = codes ""
owner_of (some owner) = owner

-- RecordRelayTraffic
unfoldable pub record_relay_traffic : Server → Str → ℤ → Server
unfolding record_usage_bytes owner_of
record_relay_traffic s device (negsuc n) = s
record_relay_traffic s device (pos bytes) =
    let user = owner_of (Map.get s.devices device) in
    if bytes == 0 || not s.usage_metering_enabled || is_empty user || not (active_user s user)
    then s
    else record_usage_bytes s user (pos bytes)

-- The quota test of ProtectScopedResource: the request is refused with 402. The content length is
-- none where it is not known.
unfoldable pub quota_exhausted : UsageRecord → Option ℕ → Bool
unfolding usage_remaining
quota_exhausted r none = usage_remaining r == 0
quota_exhausted r (some n) = usage_remaining r == 0 || ltb (usage_remaining r) n

module _ (lib : Platform) where
  -- activationCodeLocked with the random token drawn.
  unfoldable pub activation_code : Server → ℤ → Str → ℕ → Str → Server × Result Str
  activation_code s (negsuc n) created_by now token = (s, err bad_amount)
  activation_code s (pos quota) created_by now token =
      if quota == 0 || ltb max_usage_quota_bytes quota
      then (s, err bad_amount)
      else if leb max_activation_codes (Map.size s.activation_codes)
      then (s, err code_limit)
      else (
        record s {
          activation_codes =
              Map.put s.activation_codes (lib.sha256_hex (codes "cwc-" ++ token)) (record {
                created_at = unix now;
                expires = unix (now + 365 * 24 * hour);
                quota_bytes = quota;
                uses_remaining = 1;
                created_by = created_by;
              });
          usage_dirty = true;
        },
        ok (codes "cwc-" ++ token),
      )

  use_code : Str → ActivationCodeRecord → Server × Option UsageError → Server × Option UsageError
  use_code key r (s, some e) = (s, some e)
  use_code key r (s, none) = (
    record s {
      activation_codes =
          if r.uses_remaining - 1 == 0
          then Map.remove s.activation_codes key
          else Map.put s.activation_codes key (record r { uses_remaining = r.uses_remaining - 1 });
    },
    none,
  )

  redeem_record : Server → Str → Str → ℕ → Option ActivationCodeRecord → Server × Option UsageError
  unfolding use_code
  redeem_record s key user now none = (s, some expired_code)
  redeem_record s key user now (some r) =
      if leb r.expires (unix now) || r.uses_remaining == 0
      then (s, some expired_code)
      else use_code key r (grant_quota s user (pos r.quota_bytes))

  unfoldable pub redeem_activation_code : Server → Str → Str → ℕ → Server × Option UsageError
  unfolding redeem_record
  redeem_activation_code s raw user now =
      let code = trim_space raw in
      if ltb (length code) 8 || ltb 256 (length code)
      then (s, some invalid_code)
      else redeem_record s (lib.sha256_hex code) user now
          (Map.get s.activation_codes (lib.sha256_hex code))

-- usageEntitlement
pub record Entitlement : Type 0 where
  pub subject : Str
  pub quota_bytes : ℤ
  pub expires : ℕ
  pub id : Str

remember_reward : Entitlement → Server × Option UsageError → Server × Option UsageError
remember_reward c (s, some e) = (s, some e)
remember_reward c (s, none) =
    (record s { redeemed_rewards = Map.put s.redeemed_rewards c.id c.expires }, none)

-- redeemUsageEntitlementLocked once verifyUsageEntitlement has answered.
unfoldable pub redeem_claim : Server → Option Entitlement → Str → Server × Option UsageError
unfolding remember_reward
redeem_claim s none user = (s, some invalid_entitlement)
redeem_claim s (some c) user =
    if not (c.subject == user)
    then (s, some foreign_entitlement)
    else if Map.has s.redeemed_rewards c.id
    then (s, some redeemed_entitlement)
    else remember_reward c (grant_quota s user c.quota_bytes)

-- The last tests of verifyUsageEntitlement, on the claim that the signed payload holds.
unfoldable pub claim_valid : Entitlement → ℕ → Bool
claim_valid c now =
    not (is_empty c.subject)
    && not (is_empty c.id)
    && leb (length c.id) 128
    && (elim c.quota_bytes [
      | negsuc n ↦ false
      | pos q ↦ not (q == 0) && leb q max_usage_quota_bytes
    ])
    && ltb (unix now) c.expires
    && leb c.expires (unix (now + 24 * hour))

unfoldable pub accept_claim : ℕ → Option Entitlement → Option Entitlement
unfolding claim_valid
accept_claim now none = none
accept_claim now (some c) = if claim_valid c now then some c else none

module _ (lib : Platform) (hmac_sha256 : Str → Str → Str) (json_claim : Str → Option Entitlement)
    (secret : Str) where
  claim_payload : ℕ → Option Str → Option Entitlement
  unfolding accept_claim
  claim_payload now none = none
  claim_payload now (some payload) =
      if ltb 4096 (length payload) then none else accept_claim now (json_claim payload)

  signed_claim : ℕ → Str → Option Str → Option Entitlement
  unfolding claim_payload
  signed_claim now text none = none
  signed_claim now text (some provided) =
      if not (provided == hmac_sha256 secret text)
      then none
      else claim_payload now (lib.base64_decode text)

  claim_of_parts : ℕ → List Str → Option Entitlement
  unfolding signed_claim
  claim_of_parts now (text ∷ mac ∷ []) =
      if ltb 8192 (length text) || ltb 256 (length mac) || is_empty (trim_space secret)
      then none
      else signed_claim now text (lib.base64_decode mac)
  claim_of_parts now _ = none

  -- verifyUsageEntitlement, with `none` for its error
  unfoldable pub verify_entitlement : Str → ℕ → Option Entitlement
  unfolding claim_of_parts
  verify_entitlement raw now = claim_of_parts now (split b'.' (trim_space raw))

  -- redeemUsageEntitlementLocked
  unfoldable pub redeem_entitlement : Server → Str → Str → ℕ → Server × Option UsageError
  unfolding redeem_claim verify_entitlement
  redeem_entitlement s raw user now = redeem_claim s (verify_entitlement raw now) user
