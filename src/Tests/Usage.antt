-- ===== src/Tests/Usage.antt =====
-- Quotas and codes on the small relay.
use chat_with_cli.Base.{
  ℕ, ◌+◌, ◌≤◌, Str, none, some, true, codes, ◌≡◌, ◌≢◌, refl, arith, trim_space,
}
use chat_with_cli.Base.Map
use chat_with_cli.Oauth.State.{Server, ActivationCodeRecord}
use chat_with_cli.Oauth.Access.{active_user}
use chat_with_cli.Oauth.Cleanup.{cleanup}
use chat_with_cli.Usage.{
  pos, max_usage_quota_bytes, grant_quota, record_usage_bytes, redeem_activation_code, Entitlement,
  redeem_claim, accept_claim,
}
use chat_with_cli.Usage.Quota.{
  InRange, charged, grant_quota-InRange, record_usage_bytes-InRange, grant_quota_granted,
}
use chat_with_cli.Usage.Redeem.{redeem_activation_code_once, redeem_claim_once}
use chat_with_cli.Tests.Fixture.{platform, server, single, five, ten, access_runs}

nobody : (u : Str) → Map.get server.usage u ≡ none
unfolding access_runs
nobody u = refl

server-InRange : InRange server
server-InRange = record {
  records = λ u r e. absurd (let h = nobody u in cc);
  default = omega arith;
}

grant_quota-InRange_example : InRange (grant_quota server (codes "u") (pos 50)).0
grant_quota-InRange_example = grant_quota-InRange server (codes "u") (pos 50) server-InRange

record_usage_bytes-InRange_example : InRange (record_usage_bytes server (codes "u") (pos 50))
record_usage_bytes-InRange_example =
    record_usage_bytes-InRange server (codes "u") (pos 50) server-InRange

granted_50 : (grant_quota server (codes "u") (pos 50)).1 ≡ none
unfolding grant_quota access_runs
granted_50 = refl

grant_quota_granted_example :
    (n : ℕ) × (pos 50 ≡ pos n)
    × (n ≢ 0)
    × (active_user server (codes "u") ≡ true)
    × (let r = charged server.usage_default_quota_bytes (Map.get server.usage (codes "u")) in
        (r.quota_bytes + n ≤ max_usage_quota_bytes)
        × ((grant_quota server (codes "u") (pos 50)).0 ≡ record server {
          usage = Map.put server.usage (codes "u") (record r { quota_bytes = r.quota_bytes + n });
          usage_dirty = true;
        }))
grant_quota_granted_example = grant_quota_granted server (codes "u") (pos 50) granted_50

abbrev voucher : ActivationCodeRecord
voucher = record {
  created_at = 1;
  expires = 100;
  quota_bytes = 70;
  uses_remaining = 1;
  created_by = codes "ann";
}

abbrev with_voucher : Server
with_voucher = record server { activation_codes = single (codes "cwc-12345") voucher }

voucher_found :
    Map.get with_voucher.activation_codes (trim_space (codes " cwc-12345")) ≡ some voucher
unfolding access_runs
voucher_found = refl

voucher_redeemed :
    (redeem_activation_code platform with_voucher (codes " cwc-12345") (codes "u") five).1 ≡ none
unfolding redeem_activation_code grant_quota access_runs
voucher_redeemed = refl

same_voucher : trim_space (codes "cwc-12345") ≡ trim_space (codes " cwc-12345")
unfolding access_runs
same_voucher = refl

redeem_activation_code_once_example :
    (redeem_activation_code platform
      (redeem_activation_code platform with_voucher (codes " cwc-12345") (codes "u") five).0
      (codes "cwc-12345")
      (codes "v")
      ten).1
    ≢ none
redeem_activation_code_once_example =
    redeem_activation_code_once platform with_voucher (codes " cwc-12345") (codes "cwc-12345")
      (codes "u") (codes "v") five ten voucher voucher_found refl voucher_redeemed same_voucher

abbrev reward : Entitlement
reward = record { subject = codes "u"; quota_bytes = pos 70; expires = 8; id = codes "w" }

reward_redeemed : (redeem_claim server (some reward) (codes "u")).1 ≡ none
unfolding redeem_claim grant_quota access_runs
reward_redeemed = refl

redeem_claim_once_example :
    (redeem_claim
      (cleanup platform (redeem_claim server (some reward) (codes "u")).0 ten)
      (accept_claim ten (some reward))
      (codes "u")).1
    ≢ none
redeem_claim_once_example =
    redeem_claim_once platform server reward (codes "u") (codes "u") ten reward_redeemed
