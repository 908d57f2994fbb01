-- ===== src/Protocol.antt =====
-- internal/protocol/device.go: the names and the immutable identifiers of devices.
pub mod Canonical
use chat_with_cli.Base.{
  ℕ, Str, Option, none, some, Bool, ◌&&◌, ◌||◌, not, length, all, ltb, leb, ◌==◌, nat_eq, to_lower,
  trim_space, if◌then◌else◌,
}

-- One byte of a device name. A rune beyond ASCII is refused, and so is each of its bytes.
unfoldable pub is_name_byte : ℕ → Bool
is_name_byte c =
    (leb b'a' c && leb c b'z')
    || (leb b'A' c && leb c b'Z')
    || (leb b'0' c && leb c b'9')
    || c == b'.'
    || c == b'_'
    || c == b'-'

unfoldable pub valid_device_name : Str → Bool
valid_device_name name =
    if length name == 0 || ltb 128 (length name) then Bool.false else all is_name_byte name

unfoldable pub is_id_byte : ℕ → Bool
is_id_byte c = (leb b'a' c && leb c b'f') || (leb b'0' c && leb c b'9')

check_device_id : Str → Option Str
check_device_id id =
    if not (length id == 32) then none else if all is_id_byte id then some id else none

-- `none` is the result ("", false).
unfoldable pub normalize_device_id : Str → Option Str
unfolding check_device_id
normalize_device_id id = check_device_id (to_lower (trim_space id))

unfoldable pub valid_device_id : Str → Bool
valid_device_id id = elim (normalize_device_id id) [ none ↦ Bool.false | some n ↦ Bool.true ]
