-- ===== src/Protocol/Canonical.antt =====
-- NormalizeDeviceID of internal/protocol/device.go: what its results look like.
use chat_with_cli.Base.{
  ℕ, Str, some, true, ◌≡◌, ◌∷◌, [], refl, arith, all, length, is_visible, trim_space-visible,
  to_lower-fixed, is_not_upper, to_lower, trim_space,
}
use chat_with_cli.Protocol.{is_id_byte, check_device_id, normalize_device_id}

is_id_byte-visible : (c : ℕ) → is_id_byte c ≡ true → (is_visible c ≡ true) × (is_not_upper c ≡ true)
unfolding is_id_byte is_visible is_not_upper
is_id_byte-visible c h = ground arith

all-visible :
    (s : Str) → all is_id_byte s ≡ true → (all is_visible s ≡ true) × (all is_not_upper s ≡ true)
all-visible [] h = (refl, refl)
all-visible (c ∷ s) h = ground (arith, is_id_byte-visible c, all-visible s)

checked :
    (t n : Str) → check_device_id t ≡ some n → (t ≡ n) × (length n ≡ 32) × (all is_id_byte n ≡ true)
unfolding check_device_id
checked t n h = ground arith

check_again : (n : Str) → length n ≡ 32 → all is_id_byte n ≡ true → check_device_id n ≡ some n
unfolding check_device_id
check_again n l h = ground arith

-- A normal form is 32 bytes of lower-case hexadecimal, and it is its own normal form.
pub normalize_device_id_idem :
    (id n : Str)
    → normalize_device_id id ≡ some n
    → (length n ≡ 32) × (all is_id_byte n ≡ true) × (normalize_device_id n ≡ some n)
unfolding normalize_device_id
normalize_device_id_idem id n h =
    let (e, l, a) = checked (to_lower (trim_space id)) n h in
    let (v, u) = all-visible n a in
    (l, a, rw (trim_space-visible n v, to_lower-fixed n u) (check_again n l a))
