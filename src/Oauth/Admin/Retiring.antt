-- ===== src/Oauth/Admin/Retiring.antt =====
-- What changes of devices do in the order of Below.
use mathlib.Core.Path.{subst}
use chat_with_cli.Base.{
  ℕ, Str, List, [], ◌∷◌, Option, none, some, Bool, true, false, ◌≡◌, ◌≢◌, inl, inr, refl, ap, sym,
  ◌∙◌, arith, str_beq_iff, ◌==◌, str_eq, Bool-cases,
}
use chat_with_cli.Base.Map
use chat_with_cli.Oauth.Platform.{Platform}
use chat_with_cli.Oauth.State.{Server, DeviceRecord}
use chat_with_cli.Oauth.Resource.{resource_parts, absolute, canonical_device_route}
use chat_with_cli.Oauth.Access.{active_user, flag, is_set, record_allows}
use chat_with_cli.Oauth.Device.{record_of, completed, ensure_at, ensure_device_record, route_of}
use chat_with_cli.Oauth.Revoke.{reset_route, revoke_device_clients, revoke_device_tokens}
use chat_with_cli.Oauth.Admin.Below.{
  Below, Below-refl, Below-trans, reset_route-Below, revoke_device_clients-Below,
  revoke_device_tokens-Below,
}
use chat_with_cli.Oauth.Change.{retire_device, retire_each, retire_owned, switch_device}

module _ (lib : Platform) where
  -- A device that is barred, and whose record may change.
  devices-Below :
      (s : Server) (m : Map.Map Str) (x y : Map.Map Bool) (n : Map.Map DeviceRecord)
      → ((user d : Str)
          → is_set x d ≡ false
          → is_set y d ≡ false
          → Map.get m d ≡ some user
          → (is_set s.disabled_devices d ≡ false)
            × (is_set s.retired_devices d ≡ false)
            × (Map.get s.devices d ≡ some user)
            × (record_allows (Map.get n d) user ≡ true
                → record_allows (Map.get s.device_records d) user ≡ true))
      → Below lib
          (record s { devices = m; disabled_devices = x; retired_devices = y; device_records = n })
          s
  unfolding resource_parts absolute active_user
  devices-Below s m x y n p = record {
    parts = λ r. refl;
    tokens = λ k r h. h;
    clients = λ k c h. h;
    users = λ id h. h;
    mcp = λ h. h;
    agent = λ h. h;
    device = p;
  }

  completed_allows :
      (o : Option DeviceRecord) (route owner : Str) (off : Bool) (new_id : Str) (now : ℕ)
      (user : Str)
      → record_allows (some (completed (record_of o) route owner off new_id now)) user ≡ true
      → record_allows o user ≡ true
  unfolding completed record_allows
  completed_allows none route owner off new_id now user h = refl
  completed_allows (some r) route owner off new_id now user h = ground arith

  put_barred :
      (m : Map.Map Bool) (device d : Str)
      → is_set (Map.put m device true) d ≡ false
      → (is_set m d ≡ false) × (device ≢ d)
  put_barred m device d h = (
    ground (arith, Map.get-put m device d true),
    ground (arith, Map.get-put m device d true, str_beq_iff device d),
  )

  ensured_allows :
      (s : Server) (m : Map.Map DeviceRecord) (e owner new_id : Str) (off : Bool) (now : ℕ)
      (d user : Str)
      → record_allows
          (Map.get (Map.put m e (completed (record_of (Map.get m e)) e owner off new_id now)) d)
          user
        ≡ true
      → record_allows (Map.get m d) user ≡ true
  ensured_allows s m e owner new_id off now d user h =
      let r = completed (record_of (Map.get m e)) e owner off new_id now in
      elim (Bool-cases (e == d)) [
        | inl k ↦
            let i : e ≡ d = (str_beq_iff e d).0 k in
            subst (λ x. record_allows (Map.get m x) user ≡ true) i
              (completed_allows (Map.get m e) e owner off new_id now user (
                subst (λ x. record_allows x user ≡ true)
                  (ap (λ x. Map.get (Map.put m e r) x) (sym i) ∙ Map.get-put_self m e r) h))
        | inr k ↦
            subst (λ x. record_allows x user ≡ true)
              (Map.get-put_other m e d r (λ i. ground (arith, k, i, str_beq_iff e d))) h
      ]

  switched-Below :
      (s : Server) (device e owner new_id : Str) (off : Bool) (now : ℕ) (r : DeviceRecord)
      → Below lib
          (record s {
            disabled_devices = Map.put s.disabled_devices device true;
            device_records =
                Map.put
                  (Map.put s.device_records e
                    (completed (record_of (Map.get s.device_records e)) e owner off new_id now))
                  device
                  r;
          })
          s
  switched-Below s device e owner new_id off now r =
      let m =
        Map.put s.device_records e
          (completed (record_of (Map.get s.device_records e)) e owner off new_id now) in
      devices-Below s s.devices (Map.put s.disabled_devices device true) s.retired_devices
        (Map.put m device r)
        (λ user d a b c.
          let (x, n) = put_barred s.disabled_devices device d a in
          (
            x,
            b,
            c,
            λ h.
                ensured_allows s s.device_records e owner new_id off now d user
                  (subst (λ o. record_allows o user ≡ true) (Map.get-put_other m device d r n) h),
          ))

  pub switch_device-Below :
      (s : Server) (device owner new_id : Str) (now : ℕ)
      → Below lib (switch_device lib s device owner true new_id now) s
  unfolding switch_device ensure_device_record ensure_at
  switch_device-Below s device owner new_id now =
      let e = route_of device (canonical_device_route device) in
      let x = Map.put s.disabled_devices device true in
      let r = completed (record_of (Map.get s.device_records e)) e owner (is_set x e) new_id now in
      let u = record s {
        disabled_devices = x;
        device_records =
            Map.put (Map.put s.device_records e r) device (record r { disabled = true });
      } in
      Below-trans lib _ (reset_route u device) s
        (revoke_device_tokens-Below lib (reset_route u device) device)
        (Below-trans lib _ u s (reset_route-Below lib u device)
          (switched-Below s device e owner new_id (is_set x e) now (record r { disabled = true })))

  -- A device is barred for good, and forgotten.
  retired-Below :
      (s : Server) (device : Str)
      → Below lib
          (record s {
            retired_devices = Map.put s.retired_devices device true;
            devices = Map.remove s.devices device;
            disabled_devices = Map.remove s.disabled_devices device;
            device_records = Map.remove s.device_records device;
          })
          s
  retired-Below s device = devices-Below s _ _ _ _ (λ user d a b c.
      let (y, n) = put_barred s.retired_devices device d b in
      (
        ap (λ o. flag o) (sym (Map.get-remove_other s.disabled_devices device d n)) ∙ a,
        y,
        sym (Map.get-remove_other s.devices device d n) ∙ c,
        λ h.
            subst (λ o. record_allows o user ≡ true)
              (Map.get-remove_other s.device_records device d n) h,
      ))

  marked-Below :
      (s : Server) (device : Str)
      → Below lib (record s { retired_devices = Map.put s.retired_devices device true }) s
  marked-Below s device =
      devices-Below s s.devices s.disabled_devices _ s.device_records
        (λ user d a b c. let (y, n) = put_barred s.retired_devices device d b in (a, y, c, λ h. h))

  forgotten-Below :
      (s : Server) (device : Str)
      → Below lib
          (record s {
            devices = Map.remove s.devices device;
            disabled_devices = Map.remove s.disabled_devices device;
            device_records = Map.remove s.device_records device;
          })
          s
  forgotten-Below s device = devices-Below s _ _ s.retired_devices _ (λ user d a b c.
      let n : device ≢ d =
        λ i. ground (arith, c, Map.get-remove s.devices device d, str_beq_iff device d, i) in
      (
        ap (λ o. flag o) (sym (Map.get-remove_other s.disabled_devices device d n)) ∙ a,
        b,
        sym (Map.get-remove_other s.devices device d n) ∙ c,
        λ h.
            subst (λ o. record_allows o user ≡ true)
              (Map.get-remove_other s.device_records device d n) h,
      ))

  pub retire_device-Below : (s : Server) (device : Str) → Below lib (retire_device lib s device) s
  unfolding retire_device
  retire_device-Below s device =
      let t = reset_route s device in
      let u = record t {
        retired_devices = Map.put t.retired_devices device true;
        devices = Map.remove t.devices device;
        disabled_devices = Map.remove t.disabled_devices device;
        device_records = Map.remove t.device_records device;
      } in
      let v = revoke_device_tokens lib u device in
      Below-trans lib _ v s (revoke_device_clients-Below lib v device) (
        Below-trans lib v u s (revoke_device_tokens-Below lib u device)
          (Below-trans lib u t s (retired-Below t device) (reset_route-Below lib s device)))

  retire_owned-Below : (s : Server) (device : Str) → Below lib (retire_owned lib s device) s
  unfolding retire_owned
  retire_owned-Below s device =
      let t = reset_route s device in
      let u = record t { retired_devices = Map.put t.retired_devices device true } in
      let v = revoke_device_tokens lib u device in
      let w = revoke_device_clients lib v device in
      Below-trans lib _ w s (forgotten-Below w device) (
        Below-trans lib w v s (revoke_device_clients-Below lib v device) (
          Below-trans lib v u s (revoke_device_tokens-Below lib u device)
            (Below-trans lib u t s (marked-Below t device) (reset_route-Below lib s device))))

  pub retire_each-Below : (s : Server) (l : List Str) → Below lib (retire_each lib s l) s
  unfolding retire_each
  retire_each-Below s [] = Below-refl lib s
  retire_each-Below s (d ∷ l) =
      let t = retire_each lib s l in
      Below-trans lib _ t s (retire_owned-Below t d) (retire_each-Below s l)
