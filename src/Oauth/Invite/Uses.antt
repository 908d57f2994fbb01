-- ===== src/Oauth/Invite/Uses.antt =====
-- How often an invite is good.
use chat_with_cli.Base.{
  ℕ, ◌-◌, ◌<◌, Str, none, some, true, false, ◌≡◌, ◌≢◌, refl, ap, ◌∙◌, inl, inr, arith, leb, nat_eq,
  str_eq, trim_space, Option-cases, if◌then◌else◌,
}
use chat_with_cli.Base.Map
use chat_with_cli.Oauth.Platform.{Platform}
use chat_with_cli.Oauth.State.{Server, InviteRecord, unix}
use chat_with_cli.Oauth.Invite.{consume_invite, found_invite, use_invite}

use_invite_lem :
    (s : Server) (key : Str) (r : InviteRecord)
    → (Map.get (use_invite s key r).invites key ≡ (
        if leb r.uses_remaining 1
        then none
        else some (record r { uses_remaining = r.uses_remaining - 1 })))
      × ((other : Str)
          → key ≢ other
          → Map.get (use_invite s key r).invites other ≡ Map.get s.invites other)
unfolding use_invite
use_invite_lem s key r = (
  ground (
    arith,
    Map.get-put_self s.invites key (record r { uses_remaining = r.uses_remaining - 1 }),
    Map.get-remove_self s.invites key,
  ),
  (λ other n. ground (
    arith,
    Map.get-put_other s.invites key other (record r { uses_remaining = r.uses_remaining - 1 }) n,
    Map.get-remove_other s.invites key other n,
  )),
)

found_invite-use_invite :
    (s : Server) (key : Str) (now : ℕ) (r : InviteRecord)
    → (found_invite s key now (some r)).1 ≡ true
    → (found_invite s key now (some r) ≡ (use_invite s key r, true))
      × (unix now < r.expires)
      × (0 < r.uses_remaining)
unfolding found_invite
found_invite-use_invite s key now r h = ground arith

found_invite-none : (s : Server) (key : Str) (now : ℕ) → (found_invite s key now none).1 ≡ false
unfolding found_invite
found_invite-none s key now = refl

module _ (lib : Platform) where
  consume_invite-found_invite :
      (s : Server) (code : Str) (now : ℕ)
      → s.registration_enabled ≡ false
      → (consume_invite lib s code now).1 ≡ true
      → consume_invite lib s code now
        ≡ found_invite s
            (lib.sha256_hex (trim_space code))
            now
            (Map.get s.invites (lib.sha256_hex (trim_space code)))
  unfolding consume_invite
  consume_invite-found_invite s code now d h = ground arith

  refused_unknown :
      (s : Server) (code : Str) (now : ℕ)
      → s.registration_enabled ≡ false
      → Map.get s.invites (lib.sha256_hex (trim_space code)) ≡ none
      → (consume_invite lib s code now).1 ≡ false
  unfolding consume_invite found_invite
  refused_unknown s code now d e = ground arith

  consume_invite-registration :
      (s : Server) (code : Str) (now : ℕ)
      → (consume_invite lib s code now).0.registration_enabled ≡ s.registration_enabled
  unfolding consume_invite found_invite use_invite
  consume_invite-registration s code now = ground arith

  -- While registration takes invites, a code that is consumed is that of an invite that has not
  -- expired and has a use left; the invite loses one use and is gone with the last, and every other
  -- invite stays.
  pub consume_invite_granted :
      (s : Server) (code : Str) (now : ℕ)
      → s.registration_enabled ≡ false
      → (consume_invite lib s code now).1 ≡ true
      → (r : InviteRecord) × (Map.get s.invites (lib.sha256_hex (trim_space code)) ≡ some r)
        × (unix now < r.expires)
        × (0 < r.uses_remaining)
        × (Map.get (consume_invite lib s code now).0.invites (lib.sha256_hex (trim_space code)) ≡ (
            if leb r.uses_remaining 1
            then none
            else some (record r { uses_remaining = r.uses_remaining - 1 })))
        × ((other : Str)
            → lib.sha256_hex (trim_space code) ≢ other
            → Map.get (consume_invite lib s code now).0.invites other ≡ Map.get s.invites other)
  consume_invite_granted s code now d h =
      let key = lib.sha256_hex (trim_space code) in
      let q = consume_invite-found_invite s code now d h in
      let k : (found_invite s key now (Map.get s.invites key)).1 ≡ true = (rw q at h) in
      elim (Option-cases (Map.get s.invites key)) [
        | inl e ↦ (let z = (rw e at k) in let y = found_invite-none s key now in cc)
        | inr (r, e) ↦
            let z : (found_invite s key now (some r)).1 ≡ true = (rw e at k) in
            let (f, l, u) = found_invite-use_invite s key now r z in
            let (a, b) = use_invite_lem s key r in
            let t : consume_invite lib s code now ≡ (use_invite s key r, true) =
              q ∙ ap (found_invite s key now) e ∙ f in
            (r, e, l, u, rw t a, rw t b)
      ]

  -- An invite with one use left is good once: after a code has been consumed, every code with the
  -- same hash is refused while registration takes invites.
  pub consume_invite_once :
      (s : Server) (code again : Str) (r : InviteRecord) (now later : ℕ)
      → s.registration_enabled ≡ false
      → Map.get s.invites (lib.sha256_hex (trim_space code)) ≡ some r
      → r.uses_remaining ≡ 1
      → (consume_invite lib s code now).1 ≡ true
      → lib.sha256_hex (trim_space again) ≡ lib.sha256_hex (trim_space code)
      → (consume_invite lib (consume_invite lib s code now).0 again later).1 ≡ false
  consume_invite_once s code again r now later d g o h e =
      let (x, f, l, u, a, b) = consume_invite_granted s code now d h in
      let gone : Map.get (consume_invite lib s code now).0.invites
            (lib.sha256_hex (trim_space code))
          ≡ none =
        ground (arith, a, f, g, o) in
      refused_unknown (consume_invite lib s code now).0 again later
        (consume_invite-registration s code now ∙ d) (rw e gone)
