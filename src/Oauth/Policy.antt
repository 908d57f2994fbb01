-- ===== src/Oauth/Policy.antt =====
-- The actions of internal/oauthserver/admin.go and what is read from their values. The switch of
-- applyAdminAction takes a value of Action for the name of an action.
use chat_with_cli.Base.{
  [], ◌∷◌, is_some, ℕ, Str, Option, none, some, Bool, true, false, ◌&&◌, ◌||◌, not, codes, is_empty,
  all, length, leb, ltb, ◌==◌, nat_eq, str_eq, trim_space, to_lower, if◌then◌else◌,
}
use chat_with_cli.Oauth.State.{Mode, public_mode, private_mode}

-- The actions that applyAdminAction takes under one lock.
pub data Action : Type 0 where
  set_mode set_registration set_dcr set_mcp set_agent set_usage set_reward set_kill_switch : Action
  disable_device revoke_device rename_device disable_user delete_user : Action
  logout_user logout_all logout_session revoke_client_action revoke_token revoke_invite : Action
  rotate_password create_user : Action

pub data AdminError : Type 0 where
  invalid_action unknown_user unknown_device unknown_client unknown_token unknown_session :
      AdminError
  cannot_delete_self recovery_only rewards_not_ready bad_password : AdminError
  bad_username username_taken user_limit : AdminError

-- parseToggle
unfoldable pub parse_toggle : Str → Option Bool
parse_toggle value =
    let v = to_lower (trim_space value) in
    if v == codes "on" || v == codes "true" || v == codes "1"
    then some true
    else if v == codes "off" || v == codes "false" || v == codes "0"
    then some false
    else none

-- normalizeMode
unfoldable pub normalize_mode : Str → Option Mode
normalize_mode value =
    let v = to_lower (trim_space value) in
    if is_empty v || v == codes "private"
    then some private_mode
    else if v == codes "public"
    then some public_mode
    else none

abbrev pub turns_to : Option Bool → Bool → Bool
turns_to none b = false
turns_to (some true) b = b
turns_to (some false) b = not b

abbrev pub closes_mode : Option Mode → Bool
closes_mode none = false
closes_mode (some private_mode) = true
closes_mode (some public_mode) = false

-- persistenceRecoveryActionAllowed
unfoldable pub recovery_allowed : Action → Str → Bool
recovery_allowed rotate_password value = true
recovery_allowed revoke_device value = true
recovery_allowed delete_user value = true
recovery_allowed logout_user value = true
recovery_allowed logout_all value = true
recovery_allowed logout_session value = true
recovery_allowed revoke_client_action value = true
recovery_allowed revoke_token value = true
recovery_allowed revoke_invite value = true
recovery_allowed disable_device value = turns_to (parse_toggle value) true
recovery_allowed disable_user value = turns_to (parse_toggle value) true
recovery_allowed set_registration value = turns_to (parse_toggle value) false
recovery_allowed set_dcr value = turns_to (parse_toggle value) false
recovery_allowed set_mcp value = turns_to (parse_toggle value) false
recovery_allowed set_agent value = turns_to (parse_toggle value) false
recovery_allowed set_usage value = turns_to (parse_toggle value) false
recovery_allowed set_reward value = turns_to (parse_toggle value) false
recovery_allowed set_mode value = closes_mode (normalize_mode value)
recovery_allowed set_kill_switch value = turns_to (parse_toggle value) true
recovery_allowed rename_device value = false
recovery_allowed create_user value = false

-- A byte of hexadecimal in either case.
unfoldable pub is_hex : ℕ → Bool
is_hex c = (leb b'0' c && leb c b'9') || (leb b'a' c && leb c b'f') || (leb b'A' c && leb c b'F')

-- validOpaqueHandle
unfoldable pub valid_opaque_handle : Str → Bool
unfolding is_hex
valid_opaque_handle handle = if not (length handle == 64) then false else all is_hex handle

-- validatePassword
unfoldable pub valid_password : Str → Bool
valid_password p = not (ltb (length p) 12 || ltb 1024 (length p))

abbrev pub same_mode : Mode → Mode → Bool
same_mode private_mode private_mode = true
same_mode public_mode public_mode = true
same_mode private_mode public_mode = false
same_mode public_mode private_mode = false

-- requiresFreshAdminAuth
unfoldable pub requires_fresh_auth : Action → Str → Bool
requires_fresh_auth revoke_device value = true
requires_fresh_auth delete_user value = true
requires_fresh_auth revoke_client_action value = true
requires_fresh_auth revoke_token value = true
requires_fresh_auth rotate_password value = true
requires_fresh_auth rename_device value = true
requires_fresh_auth create_user value = true
requires_fresh_auth disable_device value = turns_to (parse_toggle value) false
requires_fresh_auth disable_user value = turns_to (parse_toggle value) false
requires_fresh_auth set_registration value = turns_to (parse_toggle value) true
requires_fresh_auth set_dcr value = turns_to (parse_toggle value) true
requires_fresh_auth set_mcp value = turns_to (parse_toggle value) true
requires_fresh_auth set_agent value = turns_to (parse_toggle value) true
requires_fresh_auth set_usage value = turns_to (parse_toggle value) true
requires_fresh_auth set_reward value = turns_to (parse_toggle value) true
requires_fresh_auth set_mode value = is_some (normalize_mode value)
requires_fresh_auth set_kill_switch value = turns_to (parse_toggle value) false
requires_fresh_auth logout_user value = false
requires_fresh_auth logout_all value = false
requires_fresh_auth logout_session value = false
requires_fresh_auth revoke_invite value = false

-- isConfirmRequired
unfoldable pub confirm_required : Action → Str → Bool
confirm_required revoke_device value = true
confirm_required delete_user value = true
confirm_required revoke_client_action value = true
confirm_required revoke_token value = true
confirm_required set_kill_switch value = turns_to (parse_toggle value) false
confirm_required action value = false

-- validConfirmation
unfoldable pub valid_confirmation : Action → Str → Str → Bool
valid_confirmation set_kill_switch value confirmation =
    turns_to (parse_toggle value) false && confirmation == codes "RELEASE"
valid_confirmation delete_user value confirmation = confirmation == codes "DELETE"
valid_confirmation action value confirmation = confirmation == codes "REVOKE"

is_alphanumeric : ℕ → Bool
is_alphanumeric c =
    (leb b'A' c && leb c b'Z') || (leb b'a' c && leb c b'z') || (leb b'0' c && leb c b'9')

-- usernamePattern on the bytes after the first
is_username_byte : ℕ → Bool
unfolding is_alphanumeric
is_username_byte c = is_alphanumeric c || c == b'_' || c == b'.' || c == b'-'

matches_username : Str → Bool
unfolding is_username_byte is_alphanumeric
matches_username [] = false
matches_username (c ∷ s) =
    is_alphanumeric c && leb 2 (length s) && leb (length s) 63 && all is_username_byte s

-- normalizeUsername
unfoldable pub normalize_username : Str → Option Str
unfolding matches_username
normalize_username username =
    let name = trim_space username in if matches_username name then some (to_lower name) else none
