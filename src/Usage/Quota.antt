-- ===== src/Usage/Quota.antt =====
-- Quotas and counters stay in range, and each operation changes one account by what it says.
use mathlib.Core.Path.{subst}
use chat_with_cli.Base.{
  if◌then◌else◌, ap, ◌∙◌, ℕ, ◌+◌, ◌-◌, ltb, ◌||◌, nat_eq, ◌≤◌, Str, Option, none, some, true, not,
  ◌==◌, str_eq, ◌≡◌, ◌≢◌, inl, inr, refl, arith, Bool-cases,
}
use chat_with_cli.Base.Map
use chat_with_cli.Base.Map.{Map}
use chat_with_cli.Oauth.State.{Server, UsageRecord}
use chat_with_cli.Oauth.Access.{active_user}
use chat_with_cli.Usage.{
  default_usage_quota_bytes, ℤ, pos, negsuc, max_usage_quota_bytes, new_record, ensured,
  ensure_usage_record, add_quota, grant_amount, grant_quota, add_used, count_bytes,
  record_usage_bytes,
}

abbrev pub RecordInRange : UsageRecord → Type 0
RecordInRange r = (r.quota_bytes ≤ max_usage_quota_bytes) × (r.used_bytes ≤ max_usage_quota_bytes)

-- No record passes the maximum, and neither does the quota of new accounts.
pub record InRange (s : Server) : Type 0 where
  pub records : (user : Str) (r : UsageRecord) → Map.get s.usage user ≡ some r → RecordInRange r
  pub default : s.usage_default_quota_bytes ≤ max_usage_quota_bytes

put-InRange :
    (m : Map UsageRecord) (user : Str) (v : UsageRecord)
    → ((u : Str) (r : UsageRecord) → Map.get m u ≡ some r → RecordInRange r)
    → RecordInRange v
    → (u : Str) (r : UsageRecord) → Map.get (Map.put m user v) u ≡ some r
    → RecordInRange r
put-InRange m user v old h u r e = elim (Bool-cases (user == u)) [
  | inl same ↦ ground (arith, Map.get-put m user u v)
  | inr other ↦ old u r (ground (arith, Map.get-put m user u v))
]

new_record-InRange :
    (s : Server) → InRange s → RecordInRange (new_record s.usage_default_quota_bytes)
unfolding new_record
new_record-InRange s h = ground (arith, h.default)

ensured-InRange :
    (s : Server) (user : Str) (o : Option UsageRecord)
    → Map.get s.usage user ≡ o
    → InRange s
    → InRange (ensured s user o).0 × RecordInRange (ensured s user o).1
unfolding ensured
ensured-InRange s user (some r) e h = (h, h.records user r e)
ensured-InRange s user none e h =
    let v = new_record-InRange s h in
    (record { records = put-InRange s.usage user _ h.records v; default = h.default }, v)

ensure_usage_record-InRange :
    (s : Server) (user : Str)
    → InRange s
    → InRange (ensure_usage_record s user).0 × RecordInRange (ensure_usage_record s user).1
unfolding ensure_usage_record
ensure_usage_record-InRange s user h = ensured-InRange s user (Map.get s.usage user) refl h

add_quota-InRange :
    (s : Server) (r : UsageRecord) (user : Str) (quota : ℕ)
    → quota ≤ max_usage_quota_bytes
    → InRange s
    → RecordInRange r
    → InRange (add_quota s r user quota).0
unfolding add_quota
add_quota-InRange s r user quota small h v =
    elim (Bool-cases (ltb (max_usage_quota_bytes - quota) r.quota_bytes)) [
      | inl full ↦ rw full h
      | inr room ↦ rw room (record {
        records = put-InRange s.usage user _ h.records (ground arith, ground arith);
        default = h.default;
      })
    ]

grant_amount-InRange :
    (s : Server) (user : Str) (quota : ℕ)
    → quota ≤ max_usage_quota_bytes
    → InRange s
    → InRange (grant_amount s user quota).0
unfolding grant_amount
grant_amount-InRange s user quota small h =
    let (t, r) = ensure_usage_record s user in
    let (h', v) = ensure_usage_record-InRange s user h in
    elim (Bool-cases (active_user s user)) [
      | inl active ↦ rw active (add_quota-InRange t r user quota small h' v)
      | inr inactive ↦ rw inactive h
    ]

-- A grant keeps every quota and counter within the maximum, whatever amount is asked for.
pub grant_quota-InRange :
    (s : Server) (user : Str) (quota : ℤ) → InRange s → InRange (grant_quota s user quota).0
unfolding grant_quota
grant_quota-InRange s user (negsuc n) h = h
grant_quota-InRange s user (pos quota) h =
    elim (Bool-cases (quota == 0 || ltb max_usage_quota_bytes quota)) [
      | inl bad ↦ rw bad h
      | inr fine ↦ rw fine (grant_amount-InRange s user quota (ground arith) h)
    ]

add_used-InRange :
    (r : UsageRecord) (bytes : ℕ) → RecordInRange r → RecordInRange (add_used r bytes)
unfolding add_used
add_used-InRange r bytes v = ground arith

count_bytes-InRange :
    (s : Server) (user : Str) (bytes : ℕ) → InRange s → InRange (count_bytes s user bytes)
unfolding count_bytes
count_bytes-InRange s user bytes h =
    let (t, r) = ensure_usage_record s user in
    let (h', v) = ensure_usage_record-InRange s user h in
    record {
      records = put-InRange t.usage user (add_used r bytes) h'.records (add_used-InRange r bytes v);
      default = h'.default;
    }

-- Counting traffic keeps every quota and counter within the maximum: the counter stops there.
pub record_usage_bytes-InRange :
    (s : Server) (user : Str) (bytes : ℤ) → InRange s → InRange (record_usage_bytes s user bytes)
unfolding record_usage_bytes
record_usage_bytes-InRange s user (negsuc n) h = h
record_usage_bytes-InRange s user (pos bytes) h =
    elim (Bool-cases (not s.usage_metering_enabled || bytes == 0 || not (active_user s user))) [
      | inl idle ↦ rw idle h
      | inr busy ↦ rw busy (count_bytes-InRange s user bytes h)
    ]

-- The record of an account: its own, or that of a new account, with the default quota.
pub charged : ℕ → Option UsageRecord → UsageRecord
charged default (some r) = r
charged default none = record {
  quota_bytes = if default == 0 then default_usage_quota_bytes else default;
  used_bytes = 0;
}

-- What a record that is made on demand leaves of the state.
ensured_lem :
    (s : Server) (user : Str) (o : Option UsageRecord) (v : UsageRecord)
    → ((ensured s user o).1 ≡ charged s.usage_default_quota_bytes o)
      × (record (ensured s user o).0 {
        usage = Map.put (ensured s user o).0.usage user v;
        usage_dirty = true;
      }
          ≡ record s { usage = Map.put s.usage user v; usage_dirty = true })
unfolding ensured new_record charged
ensured_lem s user (some r) v = (refl, refl)
ensured_lem s user none v = (
  refl,
  ap (λ m. record s { usage = m; usage_dirty = true })
      (Map.put-put s.usage user (new_record s.usage_default_quota_bytes) v),
)

add_quota_granted :
    (s : Server) (r : UsageRecord) (user : Str) (quota : ℕ)
    → quota ≤ max_usage_quota_bytes
    → (add_quota s r user quota).1 ≡ none
    → (r.quota_bytes + quota ≤ max_usage_quota_bytes)
      × ((add_quota s r user quota).0 ≡ record s {
        usage = Map.put s.usage user (record r { quota_bytes = r.quota_bytes + quota });
        usage_dirty = true;
      })
unfolding add_quota
add_quota_granted s r user quota small h =
    elim (Bool-cases (ltb (max_usage_quota_bytes - quota) r.quota_bytes)) [
      | inl full ↦ absurd (let k = (rw full at h) in cc)
      | inr room ↦ (ground arith, rw room refl)
    ]

-- A granted quota is at least one byte, goes to an active account and adds up to no more than the
-- maximum. The record of the account, or a new one with the default quota, with the quota added is
-- all that changes, with the mark that the usage is to be written.
pub grant_quota_granted :
    (s : Server) (user : Str) (quota : ℤ)
    → (grant_quota s user quota).1 ≡ none
    → (n : ℕ) × (quota ≡ pos n)
      × (n ≢ 0)
      × (active_user s user ≡ true)
      × (let r = charged s.usage_default_quota_bytes (Map.get s.usage user) in
          (r.quota_bytes + n ≤ max_usage_quota_bytes)
          × ((grant_quota s user quota).0 ≡ record s {
            usage = Map.put s.usage user (record r { quota_bytes = r.quota_bytes + n });
            usage_dirty = true;
          }))
unfolding grant_quota grant_amount ensure_usage_record
grant_quota_granted s user (negsuc n) h = absurd (ground arith)
grant_quota_granted s user (pos n) h = elim (Bool-cases (n == 0 || ltb max_usage_quota_bytes n)) [
  | inl bad ↦ absurd (let k = (rw bad at h) in cc)
  | inr fine ↦ elim (Bool-cases (active_user s user)) [
    | inr off ↦ absurd (let k = (rw (fine, off) at h) in cc)
    | inl on ↦
        let (t, r) = ensured s user (Map.get s.usage user) in
        let k : (add_quota t r user n).1 ≡ none = (rw (fine, on) at h) in
        let (b, e) = add_quota_granted t r user n (ground arith) k in
        let (q, w) =
          ensured_lem s user (Map.get s.usage user)
            (record r { quota_bytes = r.quota_bytes + n }) in
        (
          n,
          refl,
          ground arith,
          on,
          subst
              (λ z.
                (z.quota_bytes + n ≤ max_usage_quota_bytes)
                × ((grant_quota s user (pos n)).0 ≡ record s {
                  usage = Map.put s.usage user (record z { quota_bytes = z.quota_bytes + n });
                  usage_dirty = true;
                }))
              q (b, rw (fine, on) (e ∙ w)),
        )
  ]
]
