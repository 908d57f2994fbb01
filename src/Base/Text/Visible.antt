-- ===== src/Base/Text/Visible.antt =====
-- Strings that trimming and lower-casing leave as they are.
use Prim.Native.Nat.{ℕ}
use mathlib.Core.Path.{◌≡◌, refl, ap, ◌∙◌}
use mathlib.Core.Bool.{Bool, true, not, ◌&&◌}
use mathlib.Core.List.{[], ◌∷◌, ◌++◌, reverse, reverse_aux, reverse-reverse, reverse-append}
use native.Mathlib.Omega.{arith}
use chat_with_cli.Base.Tests.{leb}
use chat_with_cli.Base.Lists.{all}
use chat_with_cli.Base.Text.{
  Str, to_lower, trim_space, lower_byte, space_width, space_width_back, is_space1, is_space2,
  is_space3, trim_front,
}

-- Visible ASCII, which no trimming of white space touches.
unfoldable pub is_visible : ℕ → Bool
is_visible c = leb 33 c && leb c 126

unfoldable pub is_not_upper : ℕ → Bool
is_not_upper c = not (leb b'A' c && leb c b'Z')

pub to_lower-fixed : (s : Str) → all is_not_upper s ≡ true → to_lower s ≡ s
unfolding to_lower lower_byte is_not_upper
to_lower-fixed [] h = refl
to_lower-fixed (c ∷ s) h = ground (arith, to_lower-fixed s)

space_width-visible : (s : Str) → all is_visible s ≡ true → space_width s ≡ 0
unfolding space_width is_visible is_space1 is_space2 is_space3
space_width-visible [] h = refl
space_width-visible (a ∷ []) h = ground arith
space_width-visible (a ∷ b ∷ []) h = ground arith
space_width-visible (a ∷ b ∷ c ∷ s) h = ground arith

space_width_back-visible : (s : Str) → all is_visible s ≡ true → space_width_back s ≡ 0
unfolding space_width_back is_visible is_space1 is_space2 is_space3
space_width_back-visible [] h = refl
space_width_back-visible (a ∷ []) h = ground arith
space_width_back-visible (a ∷ b ∷ []) h = ground arith
space_width_back-visible (a ∷ b ∷ c ∷ s) h = ground arith

trim_front-fixed : (width : Str → ℕ) (s : Str) → width s ≡ 0 → trim_front width 0 s ≡ s
unfolding trim_front
trim_front-fixed width [] h = refl
trim_front-fixed width (c ∷ s) h = rw (h, trim_front) refl

all-reverse_aux :
    (s r : Str)
    → all is_visible s ≡ true
    → all is_visible r ≡ true
    → all is_visible (reverse_aux s r) ≡ true
all-reverse_aux [] r h k = k
all-reverse_aux (c ∷ s) r h k = ground (arith, all-reverse_aux s (c ∷ r))

pub trim_space-visible : (s : Str) → all is_visible s ≡ true → trim_space s ≡ s
unfolding trim_space
trim_space-visible s h =
    rw
      (
        trim_front-fixed space_width s (space_width-visible s h),
        trim_front-fixed space_width_back (reverse s)
            (space_width_back-visible (reverse s) (all-reverse_aux s [] h refl)),
      )
      (reverse-reverse s)

reverse-snoc : (s : Str) (d : ℕ) → reverse (s ++ (d ∷ [])) ≡ d ∷ reverse s
reverse-snoc s d = reverse-append s (d ∷ [])

-- Trimming looks at the two ends only.
trim_space-fixed :
    (s : Str) → space_width s ≡ 0 → space_width_back (reverse s) ≡ 0 → trim_space s ≡ s
unfolding trim_space
trim_space-fixed s h k =
    rw (trim_front-fixed space_width s h, trim_front-fixed space_width_back (reverse s) k)
      (reverse-reverse s)

space_width-head : (c : ℕ) (s : Str) → is_visible c ≡ true → space_width (c ∷ s) ≡ 0
unfolding space_width is_visible is_space1 is_space2 is_space3
space_width-head c [] h = ground arith
space_width-head c (d ∷ []) h = ground arith
space_width-head c (d ∷ e ∷ s) h = ground arith

space_width_back-head : (c : ℕ) (s : Str) → is_visible c ≡ true → space_width_back (c ∷ s) ≡ 0
unfolding space_width_back is_visible is_space1 is_space2 is_space3
space_width_back-head c [] h = ground arith
space_width_back-head c (d ∷ []) h = ground arith
space_width_back-head c (d ∷ e ∷ s) h = ground arith

-- Between two visible bytes nothing is trimmed.
pub trim_space-between :
    (c d : ℕ) (s : Str)
    → is_visible c ≡ true
    → is_visible d ≡ true
    → trim_space (c ∷ (s ++ (d ∷ []))) ≡ c ∷ (s ++ (d ∷ []))
trim_space-between c d s h k =
    trim_space-fixed (c ∷ (s ++ (d ∷ []))) (space_width-head c _ h)
      (ap space_width_back (reverse-snoc (c ∷ s) d) ∙ space_width_back-head d _ k)

space_width-space : (s : Str) → space_width (32 ∷ s) ≡ 1
unfolding space_width is_space1
space_width-space [] = refl
space_width-space (d ∷ []) = refl
space_width-space (d ∷ e ∷ s) = refl

space_width_back-space : (s : Str) → space_width_back (32 ∷ s) ≡ 1
unfolding space_width_back is_space1
space_width_back-space [] = refl
space_width_back-space (d ∷ []) = refl
space_width_back-space (d ∷ e ∷ s) = refl

trim_front-space :
    (width : Str → ℕ) (s : Str)
    → width (32 ∷ s) ≡ 1
    → trim_front width 0 (32 ∷ s) ≡ trim_front width 0 s
unfolding trim_front
trim_front-space width s h = rw (h, trim_front) refl

-- A space in front goes.
pub trim_space-before : (s : Str) → trim_space (32 ∷ s) ≡ trim_space s
unfolding trim_space
trim_space-before s =
    ap (λ t. reverse (trim_front space_width_back 0 (reverse t)))
      (trim_front-space space_width s (space_width-space s))

-- A space at the end of a visible string goes.
pub trim_space-after : (s : Str) → all is_visible s ≡ true → trim_space (s ++ (32 ∷ [])) ≡ s
unfolding trim_space
trim_space-after [] h = refl
trim_space-after (c ∷ s) h =
    let front : trim_front space_width 0 (c ∷ (s ++ (32 ∷ []))) ≡ c ∷ (s ++ (32 ∷ [])) =
      trim_front-fixed space_width (c ∷ (s ++ (32 ∷ []))) (space_width-head c _ (ground arith)) in
    ap (λ t. reverse (trim_front space_width_back 0 (reverse t))) front
    ∙ ap (λ t. reverse (trim_front space_width_back 0 t)) (reverse-snoc (c ∷ s) 32)
    ∙ ap reverse (
        trim_front-space space_width_back (reverse (c ∷ s))
          (space_width_back-space (reverse (c ∷ s))))
    ∙ ap reverse (
        trim_front-fixed space_width_back (reverse (c ∷ s))
          (space_width_back-visible (reverse (c ∷ s)) (all-reverse_aux (c ∷ s) [] h refl)))
    ∙ reverse-reverse (c ∷ s)
