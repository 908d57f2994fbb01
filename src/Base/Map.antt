-- ===== src/Base/Map.antt =====
-- Go maps with string keys. An association list in which the first entry of a key counts; clients
-- use the operations and their laws.
use Prim.Native.Nat.{ℕ, suc, ◌-◌, ◌<◌, ◌≤◌}
use mathlib.Core.Path.{◌≡◌, refl}
use mathlib.Core.Logic.{◌≢◌}
use mathlib.Core.Bool.{Bool, true}
use mathlib.Core.Option.{Option, none, some}
use mathlib.Core.List.{List, [], ◌∷◌}
use native.Mathlib.Omega.{arith}
use chat_with_cli.Base.Lists.{any}
use chat_with_cli.Base.Tests.{if◌then◌else◌, is_some}
use chat_with_cli.Base.Text.{Str, ◌==◌, str_eq, str_beq_iff}

pub record Map {ℓ} (V : Type ℓ) : Type ℓ where
  pub entries : List (Str × V)

module _ {ℓ} {V : Type ℓ} where
  lookup : Str → List (Str × V) → Option V
  lookup k [] = none
  lookup k ((j, v) ∷ m) = if j == k then some v else lookup k m

  without : Str → List (Str × V) → List (Str × V)
  without k [] = []
  without k ((j, v) ∷ m) = let rest = without k m in if j == k then rest else (j, v) ∷ rest

  -- Keeps the entries that pass the test; a later entry of a key that is dropped goes too.
  keep : (Str → V → Bool) → List (Str × V) → List (Str × V)
  keep p [] = []
  keep p ((j, v) ∷ m) = let rest = without j (keep p m) in if p j v then (j, v) ∷ rest else rest

  -- The number of different keys.
  count : List (Str × V) → ℕ
  count [] = 0
  count ((j, v) ∷ m) = if is_some (lookup j m) then count m else suc (count m)

  distinct : List (Str × V) → List Str
  distinct [] = []
  distinct ((j, v) ∷ m) = let rest = distinct m in if is_some (lookup j m) then rest else j ∷ rest

  abbrev pub empty : Map V
  empty = record { entries = [] }

  -- v, ok := m[k]
  unfoldable pub get : Map V → Str → Option V
  unfolding lookup
  get m k = lookup k m.entries

  -- _, ok := m[k]
  abbrev pub has : Map V → Str → Bool
  has m k = is_some (get m k)

  -- m[k] = v
  unfoldable pub put : Map V → Str → V → Map V
  unfolding without
  put m k v = record { entries = (k, v) ∷ without k m.entries }

  -- delete(m, k)
  unfoldable pub remove : Map V → Str → Map V
  unfolding without
  remove m k = record { entries = without k m.entries }

  -- for k, v := range m { if !p(k, v) { delete(m, k) } }
  unfoldable pub retain : (Str → V → Bool) → Map V → Map V
  unfolding keep without
  retain p m = record { entries = keep p m.entries }

  -- len(m)
  unfoldable pub size : Map V → ℕ
  unfolding count lookup
  size m = count m.entries

  -- The keys of a range over the map, each once.
  unfoldable pub keys : Map V → List Str
  unfolding distinct lookup
  keys m = distinct m.entries

  lookup-without :
      (k j : Str) (m : List (Str × V))
      → lookup j (without k m) ≡ (if k == j then none else lookup j m)
  unfolding lookup without
  lookup-without k j [] = ground arith
  lookup-without k j ((i, v) ∷ m) =
      ground (arith, lookup-without k j m, str_beq_iff i k, str_beq_iff i j, str_beq_iff k j)

  abbrev pub keep_if : Bool → V → Option V
  keep_if b v = if b then some v else none

  abbrev pub filter_value : (V → Bool) → Option V → Option V
  filter_value p none = none
  filter_value p (some v) = keep_if (p v) v

  lookup-keep :
      (p : Str → V → Bool) (k : Str) (m : List (Str × V))
      → lookup k (keep p m) ≡ filter_value (p k) (lookup k m)
  unfolding lookup keep
  lookup-keep p k [] = refl
  lookup-keep p k ((i, v) ∷ m) =
      ground (arith, lookup-keep p k m, lookup-without i k (keep p m), str_beq_iff i k)

  pub get-put :
      (m : Map V) (k j : Str) (v : V) → get (put m k v) j ≡ (if k == j then some v else get m j)
  unfolding get put
  get-put m k j v = ground (arith, lookup-without k j m.entries)

  pub get-remove : (m : Map V) (k j : Str) → get (remove m k) j ≡ (if k == j then none else get m j)
  unfolding get remove
  get-remove m k j = lookup-without k j m.entries

  pub get-retain :
      (p : Str → V → Bool) (m : Map V) (k : Str) → get (retain p m) k ≡ filter_value (p k) (get m k)
  unfolding get retain
  get-retain p m k = lookup-keep p k m.entries

  pub get-put_self : (m : Map V) (k : Str) (v : V) → get (put m k v) k ≡ some v
  get-put_self m k v = ground (arith, get-put m k k v, str_beq_iff k k)

  pub get-remove_self : (m : Map V) (k : Str) → get (remove m k) k ≡ none
  get-remove_self m k = ground (arith, get-remove m k k, str_beq_iff k k)

  count-pos : (k : Str) (m : List (Str × V)) → is_some (lookup k m) ≡ true → 0 < count m
  unfolding lookup count
  count-pos k [] h = cc
  count-pos k ((i, v) ∷ m) h = ground (arith, count-pos i m)

  count-without :
      (k : Str) (m : List (Str × V))
      → count (without k m) ≡ (if is_some (lookup k m) then count m - 1 else count m)
  unfolding lookup without count
  count-without k [] = refl
  count-without k ((i, v) ∷ m) = ground (
    arith,
    count-without k m,
    lookup-without k i m,
    count-pos k m,
    str_beq_iff i k,
    str_beq_iff k i,
  )

  pub size-remove :
      (m : Map V) (k : Str) → size (remove m k) ≡ (if has m k then size m - 1 else size m)
  unfolding size remove get
  size-remove m k = count-without k m.entries

  pub size-pos : (m : Map V) (k : Str) → has m k ≡ true → 0 < size m
  unfolding size get
  size-pos m k h = count-pos k m.entries h

  pub size-put :
      (m : Map V) (k : Str) (v : V) → size (put m k v) ≡ (if has m k then size m else suc (size m))
  unfolding size put get count
  size-put m k v = ground (
    arith,
    count-without k m.entries,
    lookup-without k k m.entries,
    count-pos k m.entries,
    str_beq_iff k k,
  )

  pub filter_value-eq-some :
      (p : V → Bool) (o : Option V) (v : V)
      → filter_value p o ≡ some v
      → (o ≡ some v) × (p v ≡ true)
  filter_value-eq-some p o v h = ground arith

  pub filter_value_kept :
      (p : V → Bool) (o : Option V) (v : V) → o ≡ some v → p v ≡ true → filter_value p o ≡ some v
  filter_value_kept p o v e h = ground arith

  pub get-put_other : (m : Map V) (k j : Str) (v : V) → k ≢ j → get (put m k v) j ≡ get m j
  get-put_other m k j v n = ground (arith, get-put m k j v, str_beq_iff k j)

  pub get-remove_other : (m : Map V) (k j : Str) → k ≢ j → get (remove m k) j ≡ get m j
  get-remove_other m k j n = ground (arith, get-remove m k j, str_beq_iff k j)

  -- Removal adds nothing.
  pub get_of_removed :
      (m : Map V) (k j : Str) (v : V) → get (remove m k) j ≡ some v → get m j ≡ some v
  get_of_removed m k j v h = ground (arith, get-remove m k j)

  without_idem : (k : Str) (m : List (Str × V)) → without k (without k m) ≡ without k m
  unfolding without
  without_idem k [] = refl
  without_idem k ((i, v) ∷ m) = ground (arith, without_idem k m)

  without_comm :
      (j k : Str) (m : List (Str × V)) → without j (without k m) ≡ without k (without j m)
  unfolding without
  without_comm j k [] = refl
  without_comm j k ((i, v) ∷ m) = ground (arith, without_comm j k m)

  keep-without :
      (p : Str → V → Bool) (k : Str) (m : List (Str × V))
      → keep p (without k m) ≡ without k (keep p m)
  unfolding keep without
  keep-without p k [] = refl
  keep-without p k ((i, v) ∷ m) = ground (
    arith,
    keep-without p k m,
    without_idem k (keep p m),
    without_comm i k (keep p m),
    str_beq_iff i k,
  )

  -- A new entry counts among those that pass a test only if it passes.
  pub size-retain-put :
      (p : Str → V → Bool) (m : Map V) (k : Str) (v : V)
      → size (retain p (put m k v)) ≤ (if p k v then suc (size (retain p m)) else size (retain p m))
  unfolding size retain put keep count
  size-retain-put p m k v = ground (
    arith,
    keep-without p k m.entries,
    without_idem k (keep p m.entries),
    count-without k (keep p m.entries),
  )

  any-distinct :
      (k : Str) (m : List (Str × V))
      → is_some (lookup k m) ≡ true
      → any (λ j. j == k) (distinct m) ≡ true
  unfolding lookup distinct
  any-distinct k [] h = cc
  any-distinct k ((i, v) ∷ m) h = ground (arith, any-distinct k m, str_beq_iff i k)

  -- A key of the map is met in a range over it.
  pub any-keys : (m : Map V) (k : Str) → has m k ≡ true → any (λ j. j == k) (keys m) ≡ true
  unfolding get keys
  any-keys m k h = any-distinct k m.entries h

  pub put-put : (m : Map V) (k : Str) (v w : V) → put (put m k v) k w ≡ put m k w
  unfolding put without
  put-put m k v w = ground (arith, without_idem k m.entries, str_beq_iff k k)
