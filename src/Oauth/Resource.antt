-- ===== src/Oauth/Resource.antt =====
-- Resource identifiers of internal/oauthserver/server.go: how a URL names a kind and a device.
pub mod Route
use chat_with_cli.Base.{
  Str, List, [], ◌∷◌, ◌++◌, Option, none, some, Bool, ◌||◌, not, codes, is_empty, ◌==◌, str_eq,
  trim_space, trim_prefix, has_prefix, split, trim_right_byte, trim_byte, if◌then◌else◌,
}
use chat_with_cli.Protocol.{valid_device_name, normalize_device_id, valid_device_id}
use chat_with_cli.Oauth.Platform.{Platform, Url}
use chat_with_cli.Oauth.State.{Server}

pub data Kind : Type 0 where
  mcp agent : Kind

abbrev pub scope_mcp : Str
scope_mcp = codes "mcp"

abbrev pub scope_agent : Str
scope_agent = codes "agent:connect"

abbrev pub kind_text : Kind → Str
kind_text mcp = codes "mcp"
kind_text agent = codes "agent"

pub record Parts : Type 0 where
  pub kind : Kind
  pub device : Str
  pub canonical : Str

abbrev pub id_prefix : Str
id_prefix = codes "id/"

unfoldable pub absolute : Server → Str → Str
absolute s path = trim_right_byte b'/' s.base ++ path

kind_of : Str → Option Kind
kind_of p = if p == codes "mcp" then some mcp else if p == codes "agent" then some agent else none

-- Two segments name a device by its display name, three by its immutable identifier.
named_device : Server → Kind → Str → Option Parts
named_device s kind device =
    if not (valid_device_name device)
    then none
    else some (record {
      kind = kind;
      device = device;
      canonical = absolute s (codes "/" ++ (kind_text kind ++ (codes "/" ++ device)));
    })

identified_device : Server → Kind → Str → Option Str → Option Parts
identified_device s kind tag none = none
identified_device s kind tag (some id) =
    if not (tag == codes "id")
    then none
    else some (record {
      kind = kind;
      device = id_prefix ++ id;
      canonical = absolute s (codes "/" ++ (kind_text kind ++ (codes "/id/" ++ id)));
    })

with_kind : Option Kind → (Kind → Option Parts) → Option Parts
with_kind none f = none
with_kind (some k) f = f k

segments : Server → List Str → Option Parts
unfolding with_kind named_device identified_device kind_of
segments s (k ∷ d ∷ []) = with_kind (kind_of k) (λ kind. named_device s kind d)
segments s (k ∷ tag ∷ id ∷ []) =
    with_kind (kind_of k) (λ kind. identified_device s kind tag (normalize_device_id id))
segments s _ = none

path_parts : Server → Str → Option Parts
unfolding segments
path_parts s path =
    if path == codes "mcp"
    then some (record { kind = mcp; device = []; canonical = absolute s (codes "/mcp") })
    else segments s (split b'/' path)

url_parts : Platform → Server → Option Url → Option Parts
unfolding path_parts
url_parts lib s none = none
url_parts lib s (some u) =
    if is_empty u.scheme || not (is_empty u.raw_query) || not (is_empty u.fragment)
    then none
    else if not (lib.equal_fold u.scheme s.base_scheme) || not (lib.equal_fold u.host s.base_host)
    then none
    else path_parts s (trim_byte b'/' u.path)

unfoldable pub resource_parts : Platform → Server → Str → Option Parts
unfolding url_parts
resource_parts lib s raw = url_parts lib s (lib.url_parse (trim_space raw))

unfoldable pub canonical_device_route : Str → Option Str
canonical_device_route raw =
    let route = trim_space raw in
    if has_prefix route id_prefix
    then (elim (normalize_device_id (trim_prefix route id_prefix)) [
      | none ↦ none
      | some id ↦ some (id_prefix ++ id)
    ])
    else if not (valid_device_name route)
    then none
    else some route

unfoldable pub validate_resource : Platform → Server → Str → Option Str
validate_resource lib s raw = elim (resource_parts lib s raw) [
  | none ↦ none
  | some p ↦ some p.canonical
]

-- validateDeviceRoute of admin.go, where validateDeviceName is the protocol's test.
unfoldable pub validate_device_route : Str → Bool
validate_device_route route =
    if has_prefix route id_prefix
    then valid_device_id (trim_prefix route id_prefix)
    else valid_device_name route
