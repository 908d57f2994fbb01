-- ===== src/Oauth/Authorize/Owners.antt =====
-- What a grant does to the devices of the accounts.
use chat_with_cli.Base.{
  ◌<◌, ◌≤◌, Str, [], ◌∷◌, some, ◌≡◌, ◌⊎◌, inl, refl, ap, arith, ◌==◌, str_eq, str_beq_iff,
}
use chat_with_cli.Base.Map
use chat_with_cli.Oauth.Platform.{Platform}
use chat_with_cli.Oauth.State.{Server}
use chat_with_cli.Oauth.Resource.{Parts}
use chat_with_cli.Oauth.Device.{text_of, ensure_device_record, ensure_at}
use chat_with_cli.Oauth.Authorize.{
  Moment, claim_device, rebind_device, owned_devices, authorize_resource, max_devices_user,
}
use chat_with_cli.Oauth.Authorize.Cases.{Granted, authorize_resource-IsAuthorized}

-- A state whose devices and records may differ from those of another, and nothing else.
abbrev pub Apart : Server → Server → Type 0
Apart s t = t ≡ record s { devices = t.devices; device_records = t.device_records }

-- The owner of a device is as before, or the device had none and goes to the account.
abbrev pub OwnerKept : Server → Server → Str → Str → Type 0
OwnerKept s t user d =
    (Map.get t.devices d ≡ Map.get s.devices d)
    ⊎ ((text_of (Map.get s.devices d) ≡ []) × (Map.get t.devices d ≡ some user))

pub claim_device-devices :
    (s : Server) (user device key : Str) (m : Moment)
    → ((claim_device s user device key m).devices ≡ Map.put s.devices device user)
      × Apart s (claim_device s user device key m)
unfolding claim_device ensure_device_record ensure_at
claim_device-devices s user device key m = (refl, refl)

pub rebind_device-devices :
    (s : Server) (user device key : Str) (m : Moment)
    → ((rebind_device s user device key m).devices ≡ s.devices)
      × Apart s (rebind_device s user device key m)
unfolding rebind_device ensure_device_record ensure_at
rebind_device-devices s user device [] m = (refl, refl)
rebind_device-devices s user device (c ∷ key) m = (refl, refl)

claim-OwnerKept :
    (s t : Server) (user device d : Str)
    → t.devices ≡ Map.put s.devices device user
    → text_of (Map.get s.devices device) ≡ []
    → OwnerKept s t user d
claim-OwnerKept s t user device d e o =
    ground (arith, Map.get-put s.devices device d user, str_beq_iff device d)

claim-bound :
    (s t : Server) (user device account : Str)
    → t.devices ≡ Map.put s.devices device user
    → owned_devices s user < max_devices_user
    → owned_devices s account ≤ max_devices_user
    → owned_devices t account ≤ max_devices_user
unfolding owned_devices
claim-bound s t user device account e l b = rw e (
    ground (
      arith,
      Map.size-retain-put (λ _ owner. owner == account) s.devices device user,
      str_beq_iff user account,
    ))

pub Granted-Apart :
    {s : Server} {user : Str} {p : Parts} {m : Moment} {t : Server}
    → Granted s user p m t
    → Apart s t
Granted-Apart (Granted.kept a o) = refl
Granted-Apart {s} {user} {p} {m} (Granted.rebound key a o u) =
    (rebind_device-devices s user p.device key m).1
Granted-Apart {s} {user} {p} {m} (Granted.claimed key a o l) =
    (claim_device-devices s user p.device key m).1

Granted-OwnerKept :
    {s : Server} {user : Str} {p : Parts} {m : Moment} {t : Server}
    → Granted s user p m t
    → (d : Str) → OwnerKept s t user d
Granted-OwnerKept (Granted.kept a o) d = inl refl
Granted-OwnerKept {s} {user} {p} {m} (Granted.rebound key a o u) d =
    inl (ap (λ x. Map.get x d) (rebind_device-devices s user p.device key m).0)
Granted-OwnerKept {s} {user} {p} {m} (Granted.claimed key a o l) d =
    claim-OwnerKept s (claim_device s user p.device key m) user p.device d
      (claim_device-devices s user p.device key m).0 o

Granted-bound :
    {s : Server} {user : Str} {p : Parts} {m : Moment} {t : Server}
    → Granted s user p m t
    → (account : Str) → owned_devices s account ≤ max_devices_user
    → owned_devices t account ≤ max_devices_user
unfolding owned_devices
Granted-bound (Granted.kept a o) account b = b
Granted-bound {s} {user} {p} {m} (Granted.rebound key a o u) account b =
    rw (rebind_device-devices s user p.device key m).0 b
Granted-bound {s} {user} {p} {m} (Granted.claimed key a o l) account b =
    claim-bound s (claim_device s user p.device key m) user p.device account
      (claim_device-devices s user p.device key m).0 l b

-- A grant changes nothing but the owners and the records of devices; no device that has an owner
-- gets another, and one that has none goes to the account of the grant at most; and the number of
-- devices of an account that is within the quota stays so.
pub authorize_resource_owners :
    (lib : Platform) (s t : Server) (user client resource : Str) (m : Moment)
    → authorize_resource lib s user client resource m ≡ some t
    → Apart s t
      × ((d : Str) → OwnerKept s t user d)
      × ((account : Str)
          → owned_devices s account ≤ max_devices_user
          → owned_devices t account ≤ max_devices_user)
authorize_resource_owners lib s t user client resource m h =
    let (p, e, w) = authorize_resource-IsAuthorized lib s t user client resource m h in
    (Granted-Apart w.granted, Granted-OwnerKept w.granted, Granted-bound w.granted)
