-- ===== src/Oauth/Resource/Route.antt =====
-- The device of a resource URL is its own canonical route.
use chat_with_cli.Base.{
  ℕ, Str, List, [], ◌∷◌, ◌++◌, Option, none, some, true, false, all, is_visible, trim_space-visible,
  trim_space, trim_prefix, has_prefix, split, ◌≡◌, refl, sym, ap, ◌⊎◌, some_inj, inl, inr, arith,
  Option-cases, Bool-cases, trim_byte, ◌==◌, str_eq, codes,
}
use chat_with_cli.Protocol.{valid_device_name, is_name_byte, is_id_byte, normalize_device_id}
use chat_with_cli.Protocol.Canonical.{normalize_device_id_idem}
use chat_with_cli.Oauth.Platform.{Platform, Url}
use chat_with_cli.Oauth.State.{Server}
use chat_with_cli.Oauth.Resource.{
  Parts, Kind, mcp, id_prefix, resource_parts, canonical_device_route, named_device,
  identified_device, segments, path_parts, url_parts, with_kind, kind_of,
}

name_byte-visible : (c : ℕ) → is_name_byte c ≡ true → is_visible c ≡ true
unfolding is_name_byte is_visible
name_byte-visible c h = ground arith

id_byte-visible : (c : ℕ) → is_id_byte c ≡ true → is_visible c ≡ true
unfolding is_id_byte is_visible
id_byte-visible c h = ground arith

names-visible : (s : Str) → all is_name_byte s ≡ true → all is_visible s ≡ true
names-visible [] h = refl
names-visible (c ∷ s) h = ground (arith, name_byte-visible c, names-visible s)

ids-visible : (s : Str) → all is_id_byte s ≡ true → all is_visible s ≡ true
ids-visible [] h = refl
ids-visible (c ∷ s) h = ground (arith, id_byte-visible c, ids-visible s)

-- A name holds no slash.
names-prefix : (s : Str) → all is_name_byte s ≡ true → has_prefix s id_prefix ≡ false
unfolding has_prefix is_name_byte
names-prefix [] h = refl
names-prefix (a ∷ []) h = ground arith
names-prefix (a ∷ b ∷ []) h = ground arith
names-prefix (a ∷ b ∷ c ∷ s) h = ground arith

valid_name-all : (s : Str) → valid_device_name s ≡ true → all is_name_byte s ≡ true
unfolding valid_device_name
valid_name-all s h = ground arith

canonical_name : (d : Str) → valid_device_name d ≡ true → canonical_device_route d ≡ some d
unfolding canonical_device_route
canonical_name d h =
    let a = valid_name-all d h in
    rw (trim_space-visible d (names-visible d a), names-prefix d a, h) refl

canonical_id :
    (id n : Str)
    → normalize_device_id id ≡ some n
    → canonical_device_route (id_prefix ++ n) ≡ some (id_prefix ++ n)
unfolding canonical_device_route has_prefix trim_prefix is_visible
canonical_id id n h =
    let (l, a, k) = normalize_device_id_idem id n h in
    rw (trim_space-visible (id_prefix ++ n) (ids-visible n a), k) refl

-- The account-wide resource has no device.
abbrev pub IsRouted : Parts → Type 0
IsRouted p = ((p.kind ≡ mcp) × (p.device ≡ [])) ⊎ (canonical_device_route p.device ≡ some p.device)

named-IsRouted :
    (s : Server) (k : Kind) (d : Str) (p : Parts) → named_device s k d ≡ some p → IsRouted p
unfolding named_device
named-IsRouted s k d p h = elim (Bool-cases (valid_device_name d)) [
  | inr e ↦ (let g = (rw e at h) in cc)
  | inl e ↦
      (let q : d ≡ p.device = ap (λ x. x.device) (some_inj (rw e at h)) in
        inr (rw (← q) (canonical_name d e)))
]

identified-IsRouted :
    (s : Server) (k : Kind) (tag id : Str) (p : Parts)
    → identified_device s k tag (normalize_device_id id) ≡ some p
    → IsRouted p
unfolding identified_device
identified-IsRouted s k tag id p h = elim (Option-cases (normalize_device_id id)) [
  | inl e ↦ (let g = (rw e at h) in cc)
  | inr (n, e) ↦ elim (Bool-cases (tag == codes "id")) [
    | inr x ↦ (let g = (rw (e, x) at h) in cc)
    | inl x ↦
        let q : id_prefix ++ n ≡ p.device = ap (λ y. y.device) (some_inj (rw (e, x) at h)) in
        inr (rw (← q) (canonical_id id n e))
  ]
]

with_kind-some :
    (o : Option Kind) (f : Kind → Option Parts) (p : Parts)
    → with_kind o f ≡ some p
    → (k : Kind) × (f k ≡ some p)
unfolding with_kind
with_kind-some none f p h = cc
with_kind-some (some k) f p h = (k, h)

segments-IsRouted : (s : Server) (l : List Str) (p : Parts) → segments s l ≡ some p → IsRouted p
unfolding segments
segments-IsRouted s [] p h = cc
segments-IsRouted s (a ∷ []) p h = cc
segments-IsRouted s (a ∷ b ∷ []) p h =
    let (k, g) = with_kind-some (kind_of a) (λ kind. named_device s kind b) p h in
    named-IsRouted s k b p g
segments-IsRouted s (a ∷ b ∷ c ∷ []) p h =
    let (k, g) =
      with_kind-some (kind_of a) (λ kind. identified_device s kind b (normalize_device_id c)) p h in
    identified-IsRouted s k b c p g
segments-IsRouted s (a ∷ b ∷ c ∷ d ∷ l) p h = cc

path-IsRouted : (s : Server) (path : Str) (p : Parts) → path_parts s path ≡ some p → IsRouted p
unfolding path_parts
path-IsRouted s path p h = elim (Bool-cases (path == codes "mcp")) [
  | inl e ↦
      let q = some_inj (rw e at h) in inl (sym (ap (λ x. x.kind) q), sym (ap (λ x. x.device) q))
  | inr e ↦ segments-IsRouted s (split b'/' path) p (rw e at h)
]

url-IsRouted :
    (lib : Platform) (s : Server) (u : Option Url) (p : Parts)
    → url_parts lib s u ≡ some p
    → IsRouted p
unfolding url_parts
url-IsRouted lib s none p h = cc
url-IsRouted lib s (some u) p h = path-IsRouted s (trim_byte b'/' u.path) p (ground arith)

-- The device of a resource is a canonical route.
pub resource_parts-IsRouted :
    (lib : Platform) (s : Server) (raw : Str) (p : Parts)
    → resource_parts lib s raw ≡ some p
    → IsRouted p
unfolding resource_parts
resource_parts-IsRouted lib s raw p h = url-IsRouted lib s (lib.url_parse (trim_space raw)) p h
