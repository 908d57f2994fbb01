-- ===== src/Tests/Fixture.antt =====
-- A small relay: one account with one workstation, one approved client, an authorization code and a
-- pair of tokens. The hash is the identity, and a URL is read by its prefix.
use chat_with_cli.Base.{
  ℕ, Str, [], ◌∷◌, Option, none, some, true, false, codes, has_prefix, trim_prefix, ◌==◌, str_eq,
  if◌then◌else◌,
}
use chat_with_cli.Base.Map
use chat_with_cli.Base.{
  str_beq, trim_space, split, trim_byte, trim_right_byte, contains_text, to_lower,
}
use chat_with_cli.Protocol.{valid_device_name, is_name_byte, is_id_byte, normalize_device_id}
use chat_with_cli.Oauth.Platform.{Platform, Url}
use chat_with_cli.Oauth.Resource.{resource_parts, absolute}
use chat_with_cli.Oauth.Access.{
  verify_access_key, owned_by_user, resource_enabled, ownership_intact, required_scope, active_user,
  client_approved, record_enabled, record_allows,
}
use chat_with_cli.Oauth.Cleanup.{cleanup, token_live, pending_live, code_live}
use chat_with_cli.Oauth.Persist.{save, Outcome, guarded, written}
use chat_with_cli.Oauth.Token.{
  exchange_code, exchange_refresh, revoke, pkce_matches, valid_pkce_verifier, is_verifier_byte,
  valid_pkce_challenge, redeem_code, code_bound, refresh_usable, Draws, CodeRequest, RefreshRequest,
}
use chat_with_cli.Oauth.State.{
  Server, Client, TokenRecord, User, DeviceRecord, AuthCode, public_mode, clean,
}

abbrev pub host : Str
host = codes "https://r"

abbrev pub parse : Str → Option Url
parse raw =
    if has_prefix raw host
    then some (record {
      scheme = codes "https";
      host = codes "r";
      path = trim_prefix raw host;
      raw_query = [];
      fragment = [];
    })
    else none

abbrev pub digest : Str
digest = codes "01234567890123456789012345678901"

abbrev pub platform : Platform
platform = record {
  url_parse = parse;
  equal_fold = λ a b. a == b;
  sha256_hex = λ t. t;
  sha256_base64 = λ t. t;
  base64_decode = λ t. some digest;
  base64_encode = λ t. t;
  valid_utf8 = λ t. true;
}

abbrev pub resource : Str
resource = codes "https://r/mcp/d"

abbrev pub verifier : Str
verifier = codes "0123456789012345678901234567890123456789012"

abbrev pub client : Client
client = record {
  id = codes "c";
  name = codes "demo";
  redirect_uris = codes "https://a/cb" ∷ [];
  device_id = [];
  device_public_key = [];
  device_key_verified = false;
  issued_at = 1;
  approved = true;
}

abbrev pub user : User
user = record {
  id = codes "u";
  username = codes "ann";
  password_hash = codes "x";
  created_at = 1;
  last_login_at = 1;
  admin = false;
  disabled = false;
}

abbrev pub device : DeviceRecord
device = record {
  id = codes "d";
  display_name = codes "desk";
  owner_id = codes "u";
  device_public_key = [];
  created_at = 1;
  last_seen_at = 1;
  disabled = false;
}

abbrev pub token : ℕ → TokenRecord
token expires = record {
  client_id = codes "c";
  user_id = codes "u";
  resource = resource;
  scope = codes "mcp offline_access";
  family = codes "f";
  expires = expires;
}

abbrev pub code : AuthCode
code = record {
  grant = record {
    client_id = codes "c";
    redirect_uri = codes "https://a/cb";
    state = [];
    scope = codes "mcp offline_access";
    resource = resource;
    code_challenge = verifier;
    csrf_token_hash = [];
    remote_ip = [];
    expires = 9000000000;
    attempts = 0;
    user_id = codes "u";
  };
  expires = 9000000000;
}

abbrev pub single {ℓ} : {V : Type ℓ} → Str → V → Map.Map V
single k v = record { entries = (k, v) ∷ [] }

abbrev pub server : Server
server = record {
  mode = public_mode;
  base = host;
  base_scheme = codes "https";
  base_host = codes "r";
  clients = single (codes "c") client;
  access = single (codes "at") (token 100);
  refresh = single (codes "rt") (token 200);
  refresh_used = Map.empty;
  pending = Map.empty;
  codes = single (codes "k") code;
  users = single (codes "u") user;
  usernames = single (codes "ann") (codes "u");
  devices = single (codes "d") (codes "u");
  disabled_devices = Map.empty;
  retired_devices = Map.empty;
  device_records = single (codes "d") device;
  sessions = Map.empty;
  ephemeral_sessions = Map.empty;
  invites = Map.empty;
  usage = Map.empty;
  activation_codes = Map.empty;
  redeemed_rewards = Map.empty;
  usage_dirty = false;
  registration_enabled = true;
  dcr_enabled = true;
  mcp_enabled = true;
  agent_enabled = true;
  kill_switch = false;
  usage_metering_enabled = true;
  usage_default_quota_bytes = 1000;
  usage_configured = false;
  monetization_configured = false;
  usage_unlock_enabled = false;
  setup_token_hash = [];
  mode_configured = false;
  registration_disabled = false;
  security_events = [];
  adsense_client_id = [];
  adsense_slot = [];
  admob_app_id = [];
  admob_reward_unit_id = [];
  usage_unlock_endpoint = [];
  admob_verifier_secret = [];
  persistence_fault = false;
  resetter_set = true;
  resets = [];
  disk = record { guard = clean; stored = none };
}

-- What a run by computation looks through.
unfoldable pub strings_run : Unit {0}
unfolding str_beq trim_space has_prefix trim_prefix split trim_byte trim_right_byte contains_text
    to_lower
strings_run = tt

unfoldable pub maps_run : Unit {0}
unfolding Map.get Map.put Map.remove Map.retain Map.size
maps_run = tt

unfoldable pub access_runs : Unit {0}
unfolding strings_run maps_run valid_device_name is_name_byte is_id_byte normalize_device_id
    resource_parts absolute verify_access_key owned_by_user resource_enabled ownership_intact
    required_scope active_user client_approved record_enabled record_allows
access_runs = tt

unfoldable pub tokens_run : Unit {0}
unfolding access_runs cleanup token_live pending_live code_live save exchange_code exchange_refresh
    revoke pkce_matches valid_pkce_verifier is_verifier_byte valid_pkce_challenge redeem_code
    code_bound refresh_usable
tokens_run = tt

-- Every write succeeds.
abbrev pub fine : Outcome
fine = record { locked = true; mark_dirty = guarded; state_write = written; mark_clean = guarded }

abbrev pub draws : Draws
draws = record {
  access = codes "a1";
  refresh = codes "r1";
  family = codes "f1";
  spare_family = codes "f2";
}

abbrev pub code_request : CodeRequest
code_request = record {
  code = codes "k";
  client_id = codes "c";
  redirect_uri = codes "https://a/cb";
  resource = [];
  code_verifier = verifier;
}

abbrev pub refresh_request : RefreshRequest
refresh_request = record { refresh_token = codes "rt"; client_id = codes "c"; resource = [] }

-- Five seconds after the epoch, and ten.
abbrev pub five : ℕ
five = 5000000000

abbrev pub ten : ℕ
ten = 10000000000
