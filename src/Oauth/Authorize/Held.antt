-- ===== src/Oauth/Authorize/Held.antt =====
-- What a grant leaves of the device of its resource.
use chat_with_cli.Base.{
  ℕ, Str, [], ◌∷◌, Option, none, some, true, false, is_empty, ◌≡◌, ◌⊎◌, inl, inr, refl, arith,
  str_eq, str_beq_iff,
}
use chat_with_cli.Base.Map
use chat_with_cli.Oauth.State.{Server, DeviceRecord}
use chat_with_cli.Oauth.Resource.{Parts, canonical_device_route}
use chat_with_cli.Oauth.Resource.Route.{IsRouted}
use chat_with_cli.Oauth.Access.{is_set, record_allows, record_enabled}
use chat_with_cli.Oauth.Device.{
  text_of, record_of, ensure_device_record, ensure_at, route_of, completed,
}
use chat_with_cli.Oauth.Authorize.{Moment, is_agent, with_key, claim_device, rebind_device}
use chat_with_cli.Oauth.Authorize.Cases.{Granted, IsOpen}
use chat_with_cli.Oauth.Authorize.Owners.{claim_device-devices, rebind_device-devices}

-- What a record says to the check of a request.
pub record Allows (r : DeviceRecord) (user : Str) : Type 0 where
  pub enabled : r.disabled ≡ false
  pub owner : (r.owner_id ≡ []) ⊎ (r.owner_id ≡ user)

pub allows :
    (o : Option DeviceRecord) (user : Str) → Allows (record_of o) user → record_allows o user ≡ true
unfolding record_allows
allows none user a = refl
allows (some r) user a = ground (arith, a.enabled, a.owner, str_beq_iff r.owner_id user)

pub enables :
    (o : Option DeviceRecord) (user : Str) → Allows (record_of o) user → record_enabled o ≡ true
unfolding record_enabled
enables none user a = refl
enables (some r) user a = rw a.enabled refl

pub completed-Allows :
    (r : DeviceRecord) (route user new_id : Str) (now : ℕ)
    → r.disabled ≡ false
    → (r.owner_id ≡ []) ⊎ (r.owner_id ≡ user)
    → Allows (completed r route user false new_id now) user
unfolding completed
completed-Allows r route user new_id now d o = record {
  enabled = ground arith;
  owner = ground arith;
}

ensured :
    (s : Server) (device user new_id : Str) (now : ℕ)
    → canonical_device_route device ≡ some device
    → is_set s.disabled_devices device ≡ false
    → (record_of (Map.get s.device_records device)).disabled ≡ false
    → ((record_of (Map.get s.device_records device)).owner_id ≡ [])
      ⊎ ((record_of (Map.get s.device_records device)).owner_id ≡ user)
    → Allows (ensure_device_record s device user new_id now).1 user
unfolding ensure_device_record ensure_at route_of
ensured s device user new_id now c off d o =
    rw (c, off)
      (completed-Allows (record_of (Map.get s.device_records device)) device user new_id now d o)

-- The device is the account's, and its record does not contradict.
pub record IsHeld (t : Server) (user device : Str) : Type 0 where
  pub owner : Map.get t.devices device ≡ some user
  pub kept : Allows (record_of (Map.get t.device_records device)) user

pub with_key-Allows :
    (r : DeviceRecord) (user key : Str) → Allows r user → Allows (with_key r key) user
with_key-Allows r user [] a = a
with_key-Allows r user (c ∷ key) a = record { enabled = a.enabled; owner = a.owner }

kept-IsHeld :
    (s : Server) (user device : Str)
    → IsOpen s device
    → text_of (Map.get s.devices device) ≡ user
    → is_empty user ≡ false
    → IsHeld s user device
kept-IsHeld s user device w o e = record {
  owner = ground arith;
  kept = record { enabled = w.record_on; owner = ground (arith, w.owners) };
}

claim_device-record :
    (s : Server) (user device key : Str) (m : Moment)
    → Map.get (claim_device s user device key m).device_records device
      ≡ some (
          with_key
            (record (ensure_device_record
              (record s { devices = Map.put s.devices device user })
              device
              user
              m.device_id
              m.made).1 { owner_id = user })
            key)
unfolding claim_device
claim_device-record s user device key m =
    let e =
      ensure_device_record (record s { devices = Map.put s.devices device user }) device user
        m.device_id m.made in
    Map.get-put_self e.0.device_records device (with_key (record e.1 { owner_id = user }) key)

claimed-IsHeld :
    (s : Server) (user device key : Str) (m : Moment)
    → canonical_device_route device ≡ some device
    → IsOpen s device
    → text_of (Map.get s.devices device) ≡ []
    → IsHeld (claim_device s user device key m) user device
claimed-IsHeld s user device key m c w o =
    let t = record s { devices = Map.put s.devices device user } in
    let a : Allows (ensure_device_record t device user m.device_id m.made).1 user =
      ensured t device user m.device_id m.made c w.enabled w.record_on (ground (arith, w.owners)) in
    record {
      owner =
          rw (claim_device-devices s user device key m).0 (Map.get-put_self s.devices device user);
      kept = rw (claim_device-record s user device key m) (
          with_key-Allows
            (record (ensure_device_record t device user m.device_id m.made).1 { owner_id = user })
            user key (record { enabled = a.enabled; owner = inr refl }));
    }

rebind_device-record :
    (s : Server) (user device : Str) (c : ℕ) (key : Str) (m : Moment)
    → Map.get (rebind_device s user device (c ∷ key) m).device_records device
      ≡ some (record (ensure_device_record s device user m.device_id m.made).1 {
        device_public_key = c ∷ key;
      })
unfolding rebind_device
rebind_device-record s user device c key m =
    let e = ensure_device_record s device user m.device_id m.made in
    Map.get-put_self e.0.device_records device (record e.1 { device_public_key = c ∷ key })

rebound-IsHeld :
    (s : Server) (user device key : Str) (m : Moment)
    → canonical_device_route device ≡ some device
    → IsOpen s device
    → text_of (Map.get s.devices device) ≡ user
    → is_empty user ≡ false
    → IsHeld (rebind_device s user device key m) user device
unfolding rebind_device
rebound-IsHeld s user device [] m c w o e = kept-IsHeld s user device w o e
rebound-IsHeld s user device (x ∷ key) m c w o e =
    let a : Allows (ensure_device_record s device user m.device_id m.made).1 user =
      ensured s device user m.device_id m.made c w.enabled w.record_on (ground (arith, w.owners)) in
    record {
      owner =
          rw (rebind_device-devices s user device (x ∷ key) m).0
            (kept-IsHeld s user device w o e).owner;
      kept =
          rw (rebind_device-record s user device x key m)
            (record { enabled = a.enabled; owner = a.owner });
    }

-- The account-wide resource, or a device that is held.
abbrev pub HeldParts : Server → Str → Parts → Type 0
HeldParts t user p =
    ((is_agent p.kind ≡ false) × (is_empty p.device ≡ true)) ⊎ IsHeld t user p.device

agent_route :
    (p : Parts)
    → IsRouted p
    → is_agent p.kind ≡ true
    → canonical_device_route p.device ≡ some p.device
unfolding is_agent
agent_route p (inl r) a = ground (arith, r)
agent_route p (inr r) a = r

pub Granted-HeldParts :
    {s : Server} {user : Str} {p : Parts} {m : Moment} {t : Server}
    → Granted s user p m t
    → IsRouted p
    → ((is_agent p.kind ≡ false) × (is_empty p.device ≡ true)) ⊎ IsOpen s p.device
    → is_empty user ≡ false
    → HeldParts t user p
Granted-HeldParts g r (inl a) e = inl a
Granted-HeldParts {s} {user} {p} {m} (Granted.kept a o) r (inr w) e = elim o [
  | inl x ↦ inl (a, x)
  | inr x ↦ inr (kept-IsHeld s user p.device w x e)
]
Granted-HeldParts {s} {user} {p} {m} (Granted.rebound key a o u) r (inr w) e =
    inr (rebound-IsHeld s user p.device key m (agent_route p r a) w o e)
Granted-HeldParts {s} {user} {p} {m} (Granted.claimed key a o l) r (inr w) e =
    inr (claimed-IsHeld s user p.device key m (agent_route p r a) w o)
