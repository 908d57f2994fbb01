-- ===== src/Config/Sorting.antt =====
-- sortStrings of internal/config/config.go sorts.
use mathlib.Core.List.{reverse_aux}
use chat_with_cli.Base.{
  ℕ, suc, ◌+◌, Str, List, [], ◌∷◌, true, false, ◌≡◌, refl, arith, ◌==◌, nat_eq, str_eq, inl, inr,
  Bool-cases, if◌then◌else◌,
}
use chat_with_cli.Config.{str_lt, swap_left, sort_from, sort_strings}

-- The first of a list is not below, and not above, an element.
abbrev NotBelow : Str → List Str → Type 0
NotBelow x [] = Unit
NotBelow x (y ∷ l) = str_lt y x ≡ false

abbrev NotAbove : Str → List Str → Type 0
NotAbove x [] = Unit
NotAbove x (y ∷ l) = str_lt x y ≡ false

-- No element is less than the one before it.
abbrev pub IsRising : List Str → Type 0
IsRising [] = Unit
IsRising (x ∷ l) = NotBelow x l × IsRising l

abbrev IsFalling : List Str → Type 0
IsFalling [] = Unit
IsFalling (x ∷ l) = NotAbove x l × IsFalling l

-- How often a text occurs.
abbrev pub count : Str → List Str → ℕ
count z [] = 0
count z (x ∷ l) = if x == z then suc (count z l) else count z l

str_lt_asym : (a b : Str) → str_lt a b ≡ true → str_lt b a ≡ false
unfolding str_lt
str_lt_asym [] [] h = cc
str_lt_asym [] (d ∷ t) h = refl
str_lt_asym (c ∷ s) [] h = cc
str_lt_asym (c ∷ s) (d ∷ t) h = ground (arith, str_lt_asym s t)

swap_left-NotAbove :
    (x y : Str) (l : List Str) → str_lt y x ≡ false → NotAbove y l → NotAbove y (swap_left x l)
unfolding swap_left
swap_left-NotAbove x y [] h k = h
swap_left-NotAbove x y (z ∷ l) h k = elim (Bool-cases (str_lt x z)) [
  | inl e ↦ rw e k
  | inr e ↦ rw e h
]

swap_left-IsFalling : (x : Str) (l : List Str) → IsFalling l → IsFalling (swap_left x l)
unfolding swap_left
swap_left-IsFalling x [] f = (tt, tt)
swap_left-IsFalling x (y ∷ l) (p, f) = elim (Bool-cases (str_lt x y)) [
  | inl e ↦ rw e (swap_left-NotAbove x y l (str_lt_asym x y e) p, swap_left-IsFalling x l f)
  | inr e ↦ rw e (e, (p, f))
]

abbrev Joint : List Str → List Str → Type 0
Joint [] r = Unit
Joint (x ∷ l) r = NotBelow x r

Joint-cons : (x : Str) (l r : List Str) → NotAbove x l → Joint l (x ∷ r)
Joint-cons x [] r p = tt
Joint-cons x (y ∷ l) r p = p

reverse_aux-IsRising :
    (l r : List Str) → IsFalling l → IsRising r → Joint l r → IsRising (reverse_aux l r)
reverse_aux-IsRising [] r f g j = g
reverse_aux-IsRising (x ∷ l) r (p, f) g j =
    reverse_aux-IsRising l (x ∷ r) f (j, g) (Joint-cons x l r p)

Joint-nil : (l : List Str) → Joint l []
Joint-nil [] = tt
Joint-nil (x ∷ l) = tt

sort_from-IsRising : (done l : List Str) → IsFalling done → IsRising (sort_from done l)
unfolding sort_from
sort_from-IsRising done [] f = reverse_aux-IsRising done [] f tt (Joint-nil done)
sort_from-IsRising done (x ∷ l) f =
    sort_from-IsRising (swap_left x done) l (swap_left-IsFalling x done f)

count-swap_left :
    (z x : Str) (l : List Str)
    → count z (swap_left x l) ≡ (if x == z then suc (count z l) else count z l)
unfolding swap_left
count-swap_left z x [] = refl
count-swap_left z x (y ∷ l) = ground (arith, count-swap_left z x l)

count-reverse_aux : (z : Str) (l r : List Str) → count z (reverse_aux l r) ≡ count z l + count z r
count-reverse_aux z [] r = omega arith
count-reverse_aux z (x ∷ l) r = ground (arith, count-reverse_aux z l (x ∷ r))

count-sort_from :
    (z : Str) (done l : List Str) → count z (sort_from done l) ≡ count z done + count z l
unfolding sort_from
count-sort_from z done [] = count-reverse_aux z done []
count-sort_from z done (x ∷ l) =
    ground (arith, count-sort_from z (swap_left x done) l, count-swap_left z x done)

-- sortStrings puts its values in order, and each is there as often as before.
pub sort_strings_sorted :
    (l : List Str) → IsRising (sort_strings l) × ((z : Str) → count z (sort_strings l) ≡ count z l)
unfolding sort_strings
sort_strings_sorted l = (sort_from-IsRising [] l tt, λ z. omega (arith, count-sort_from z [] l))
