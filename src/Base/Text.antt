-- ===== src/Base/Text.antt =====
-- Go strings as lists of bytes, with the functions of package strings that the program calls.
pub mod Visible
use Prim.Native.Char.{code}
use Prim.Native.Nat.{ℕ, zero, suc, ◌+◌, compare, Ordering}
use Prim.Native.String.{String}
use mathlib.Core.Path.{◌≡◌, refl}
use mathlib.Core.Logic.{◌↔◌}
use mathlib.Core.Bool.{Bool, true, false, ◌&&◌, ◌||◌}
use mathlib.Core.List.{List, [], ◌∷◌, ◌++◌, map, reverse}
use native.Mathlib.Omega.{arith}
use chat_with_cli.Base.Tests.{leb, if◌then◌else◌}

pub record Eq {ℓ} (A : Type ℓ) : Type ℓ where
  pub beq : A → A → Bool
  pub beq_iff : (x y : A) → (beq x y ≡ true) ↔ (x ≡ y)

abbrev pub nat_beq : ℕ → ℕ → Bool
nat_beq a b = elim (compare a b) [ Ordering.eq ↦ true | _ ↦ false ]

pub nat_beq_iff : (a b : ℕ) → (nat_beq a b ≡ true) ↔ (a ≡ b)
nat_beq_iff a b = ground arith

-- The bytes of a Go string.
abbrev pub Str : Type 0
Str = List ℕ

unfoldable pub str_beq : Str → Str → Bool
str_beq [] [] = true
str_beq [] (y ∷ ys) = false
str_beq (x ∷ xs) [] = false
str_beq (x ∷ xs) (y ∷ ys) = nat_beq x y && str_beq xs ys

str_beq_sound : (a b : Str) → str_beq a b ≡ true → a ≡ b
unfolding str_beq
str_beq_sound [] [] h = refl
str_beq_sound [] (y ∷ ys) h = cc
str_beq_sound (x ∷ xs) [] h = cc
str_beq_sound (x ∷ xs) (y ∷ ys) h = ground (arith, str_beq_sound xs ys)

pub str_beq_refl : (a : Str) → str_beq a a ≡ true
unfolding str_beq
str_beq_refl [] = refl
str_beq_refl (x ∷ xs) = ground (arith, str_beq_refl xs)

pub str_beq_iff : (a b : Str) → (str_beq a b ≡ true) ↔ (a ≡ b)
str_beq_iff a b = (str_beq_sound a b, λ e. rw e (str_beq_refl b))

instance abbrev pub nat_eq : Eq ℕ
nat_eq = record { beq = nat_beq; beq_iff = nat_beq_iff }

instance abbrev pub str_eq : Eq Str
str_eq = record { beq = str_beq; beq_iff = str_beq_iff }

-- Equality of any type with an instance.
infix 50 ◌==◌
abbrev pub ◌==◌ {ℓ} : {B : Type ℓ} ⦃by : Eq B⦄ → B → B → Bool
◌==◌ ⦃by⦄ = by.beq

-- The bytes of an ASCII literal.
abbrev pub codes : String → Str
codes String.[] = []
codes (String.◌∷◌ c s) = code c ∷ codes s

abbrev pub is_empty : Str → Bool
is_empty [] = true
is_empty (c ∷ s) = false

-- strings.HasPrefix
unfoldable pub has_prefix : Str → Str → Bool
has_prefix s [] = true
has_prefix [] (p ∷ ps) = false
has_prefix (c ∷ s) (p ∷ ps) = nat_beq c p && has_prefix s ps

drop_prefix : Str → Str → Str
drop_prefix s [] = s
drop_prefix [] (p ∷ ps) = []
drop_prefix (c ∷ s) (p ∷ ps) = drop_prefix s ps

-- strings.TrimPrefix
unfoldable pub trim_prefix : Str → Str → Str
unfolding has_prefix drop_prefix
trim_prefix s p = if has_prefix s p then drop_prefix s p else s

-- strings.Contains
unfoldable pub contains_text : Str → Str → Bool
unfolding has_prefix
contains_text [] p = has_prefix [] p
contains_text (c ∷ s) p = has_prefix (c ∷ s) p || contains_text s p

-- strings.ToLower on ASCII letters. Other bytes stay: a caller that lets none of them pass sees no
-- difference.
lower_byte : ℕ → ℕ
lower_byte c = if leb b'A' c && leb c b'Z' then c + 32 else c

unfoldable pub to_lower : Str → Str
unfolding lower_byte
to_lower s = map lower_byte s

-- unicode.IsSpace, by the UTF-8 bytes of the white-space runes. The width of the rune at the head,
-- 0 if it is no white space.
is_space2 : ℕ → ℕ → Bool
is_space2 a b = nat_beq a 0xc2 && (nat_beq b 0x85 || nat_beq b 0xa0)

is_space3 : ℕ → ℕ → ℕ → Bool
is_space3 a b c =
    (nat_beq a 0xe1 && nat_beq b 0x9a && nat_beq c 0x80)
    || (nat_beq a 0xe2
        && nat_beq b 0x80
        && ((leb 0x80 c && leb c 0x8a) || nat_beq c 0xa8 || nat_beq c 0xa9 || nat_beq c 0xaf))
    || (nat_beq a 0xe2 && nat_beq b 0x81 && nat_beq c 0x9f)
    || (nat_beq a 0xe3 && nat_beq b 0x80 && nat_beq c 0x80)

is_space1 : ℕ → Bool
is_space1 c = nat_beq c 32 || (leb 9 c && leb c 13)

space_width : Str → ℕ
unfolding is_space1 is_space2 is_space3
space_width [] = 0
space_width (a ∷ []) = if is_space1 a then 1 else 0
space_width (a ∷ b ∷ []) = if is_space1 a then 1 else if is_space2 a b then 2 else 0
space_width (a ∷ b ∷ c ∷ s) =
    if is_space1 a then 1 else if is_space2 a b then 2 else if is_space3 a b c then 3 else 0

-- The same at the end of a string that is read backwards.
space_width_back : Str → ℕ
unfolding is_space1 is_space2 is_space3
space_width_back [] = 0
space_width_back (a ∷ []) = if is_space1 a then 1 else 0
space_width_back (b ∷ a ∷ []) = if is_space1 b then 1 else if is_space2 a b then 2 else 0
space_width_back (c ∷ b ∷ a ∷ s) =
    if is_space1 c then 1 else if is_space2 b c then 2 else if is_space3 a b c then 3 else 0

-- Drops the white-space runes at the head; the number counts the bytes left of the current one.
trim_front : (Str → ℕ) → ℕ → Str → Str
trim_front width n [] = []
trim_front width (suc n) (c ∷ s) = trim_front width n s
trim_front width zero (c ∷ s) = elim (width (c ∷ s)) [ zero ↦ c ∷ s | suc k ↦ trim_front width k s ]

-- strings.TrimSpace
unfoldable pub trim_space : Str → Str
unfolding space_width space_width_back trim_front
trim_space s = reverse (trim_front space_width_back 0 (reverse (trim_front space_width 0 s)))

-- strings.Split by a separator of one byte: never empty.
unfoldable pub split_from : ℕ → Str → Str → List Str
split_from sep acc [] = reverse acc ∷ []
split_from sep acc (c ∷ s) =
    let rest = split_from sep (c ∷ acc) s in
    let piece = split_from sep [] s in if nat_beq c sep then reverse acc ∷ piece else rest

unfoldable pub split : ℕ → Str → List Str
unfolding split_from
split sep s = split_from sep [] s

-- strings.Join with a separator of one byte
abbrev pub join : ℕ → List Str → Str
join sep [] = []
join sep (s ∷ []) = s
join sep (s ∷ t ∷ r) = s ++ (sep ∷ join sep (t ∷ r))

-- strings.TrimLeft, strings.TrimRight and strings.Trim for a set of one byte.
trim_left_byte : ℕ → Str → Str
trim_left_byte b [] = []
trim_left_byte b (c ∷ s) = let rest = trim_left_byte b s in if nat_beq c b then rest else c ∷ s

unfoldable pub trim_right_byte : ℕ → Str → Str
unfolding trim_left_byte
trim_right_byte b s = reverse (trim_left_byte b (reverse s))

unfoldable pub trim_byte : ℕ → Str → Str
unfolding trim_right_byte
trim_byte b s = trim_right_byte b (trim_left_byte b s)
