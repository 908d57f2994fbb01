-- ===== src/Base/Splitting.antt =====
-- The pieces of a joined string.
use Prim.Native.Nat.{ℕ}
use mathlib.Core.Path.{◌≡◌, refl, ap}
use mathlib.Core.Logic.{inl, inr}
use mathlib.Core.List.{[], ◌∷◌, ◌++◌, reverse}
use chat_with_cli.Base.Tests.{Bool-cases}
use chat_with_cli.Base.Text.{Str, split, split_from, nat_beq, nat_beq_iff}

split_from-append :
    (sep : ℕ) (acc s t : Str)
    → split_from sep acc (s ++ (sep ∷ t)) ≡ split_from sep acc s ++ split sep t
unfolding split_from split
split_from-append sep acc [] t = rw ((nat_beq_iff sep sep).1 refl)
split_from-append sep acc (c ∷ s) t = elim (Bool-cases (nat_beq c sep)) [
  | inl e ↦ rw e (ap (λ r. reverse acc ∷ r) (split_from-append sep [] s t))
  | inr e ↦ rw e (split_from-append sep (c ∷ acc) s t)
]

-- Splitting at a separator that joins two strings splits each of them.
pub split-append : (sep : ℕ) (s t : Str) → split sep (s ++ (sep ∷ t)) ≡ split sep s ++ split sep t
unfolding split
split-append sep s t = split_from-append sep [] s t
