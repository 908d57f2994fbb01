-- ===== src/Tests/Protocol.antt =====
-- A device identifier with white space around it and in upper case.
use chat_with_cli.Base.{Str, true, some, codes, length, all, ◌≡◌, refl}
use chat_with_cli.Protocol.{normalize_device_id, is_id_byte}
use chat_with_cli.Protocol.Canonical.{normalize_device_id_idem}
use chat_with_cli.Tests.Fixture.{strings_run}

abbrev typed : Str
typed = codes " 0123456789ABCDEF0123456789abcdef "

abbrev normal : Str
normal = codes "0123456789abcdef0123456789abcdef"

typed-normal : normalize_device_id typed ≡ some normal
unfolding normalize_device_id strings_run is_id_byte
typed-normal = refl

normalize_device_id_idem_example :
    (length normal ≡ 32)
    × (all is_id_byte normal ≡ true)
    × (normalize_device_id normal ≡ some normal)
normalize_device_id_idem_example = normalize_device_id_idem typed normal typed-normal
