-- ===== src/Base/Assoc.antt =====
-- Hash tables (`QHash`, and `QSet` as its keys) as association lists. No property depends on the
-- order of their entries.
use Prim.Native.Nat.{ℕ, ◌+◌, ◌≤◌}
use mathlib.Core.Path.{◌≡◌, refl, subst}
use mathlib.Core.Logic.{inl, inr}
use mathlib.Core.Option
use mathlib.Core.Bool.{Bool, true, false}
use mathlib.Core.List.{List, [], ◌∷◌}
use mathlib.Core.Option.{Option, none, some, some-injective}
use native.Mathlib.Omega.{arith}
use q_browser.Base.Tests.{if◌then◌else◌, Bool-cases}
use q_browser.Base.Lists.{length}
use q_browser.Base.Text.{Eq}

abbrev pub is_some {ℓ} : {A : Type ℓ} → Option A → Bool
is_some none = false
is_some (some a) = true

-- The value where it passes the test.
abbrev pub filter_option {ℓ} : {A : Type ℓ} → (A → Bool) → Option A → Option A
filter_option p none = none
filter_option p (some a) = if p a then some a else none

abbrev pub measure_at {ℓ} : {V : Type ℓ} → (V → ℕ) → Option V → ℕ
measure_at f none = 0
measure_at f (some v) = f v

module _ {ℓ} {K : Type 0} {V : Type ℓ} ⦃e : Eq K⦄ where
  unfoldable pub lookup : K → List (K × V) → Option V
  lookup k [] = none
  lookup k ((j, v) ∷ m) = if e.beq j k then some v else lookup k m

  -- The value at `k` is replaced, or a new entry added.
  unfoldable pub insert : K → V → List (K × V) → List (K × V)
  insert k v [] = (k, v) ∷ []
  insert k v ((j, w) ∷ m) = if e.beq j k then (k, v) ∷ m else (j, w) ∷ insert k v m

  unfoldable pub remove : K → List (K × V) → List (K × V)
  remove k [] = []
  remove k ((j, v) ∷ m) = if e.beq j k then m else (j, v) ∷ remove k m

  -- The entries whose value passes the test.
  unfoldable pub keep : (V → Bool) → List (K × V) → List (K × V)
  keep p [] = []
  keep p ((j, v) ∷ m) = let rest = keep p m in if p v then (j, v) ∷ rest else rest

  -- No key has two entries, as in a hash table.
  abbrev pub UniqueKeys : List (K × V) → Type ℓ
  UniqueKeys [] = Unit
  UniqueKeys ((k, v) ∷ m) = (lookup k m ≡ none) × UniqueKeys m

  pub lookup-insert :
      (k j : K) (v : V) (m : List (K × V))
      → lookup j (insert k v m) ≡ (if e.beq k j then some v else lookup j m)
  unfolding lookup insert
  lookup-insert k j v [] = refl
  lookup-insert k j v ((i, w) ∷ m) =
      ground (arith, e.beq_iff k j, e.beq_iff i k, e.beq_iff i j, lookup-insert k j v m)

  pub lookup-remove :
      (k j : K) (m : List (K × V))
      → UniqueKeys m
      → lookup j (remove k m) ≡ (if e.beq k j then none else lookup j m)
  unfolding lookup remove
  lookup-remove k j [] u = ground arith
  lookup-remove k j ((i, w) ∷ m) u =
      ground (arith, e.beq_iff k j, e.beq_iff i k, e.beq_iff i j, lookup-remove k j m u.1, u.0)

  pub lookup-keep :
      (p : V → Bool) (j : K) (m : List (K × V))
      → UniqueKeys m
      → lookup j (keep p m) ≡ filter_option p (lookup j m)
  unfolding lookup keep
  lookup-keep p j [] u = refl
  lookup-keep p j ((i, w) ∷ m) u = ground (arith, e.beq_iff i j, lookup-keep p j m u.1, u.0)

  pub UniqueKeys-insert :
      (k : K) (v : V) (m : List (K × V)) → UniqueKeys m → UniqueKeys (insert k v m)
  unfolding insert
  UniqueKeys-insert k v [] u = (unfold lookup in refl, tt)
  UniqueKeys-insert k v ((i, w) ∷ m) u =
      ground
        (arith, e.beq_iff i k, e.beq_iff k i, lookup-insert k i v m, UniqueKeys-insert k v m u.1)

  pub UniqueKeys-remove : (k : K) (m : List (K × V)) → UniqueKeys m → UniqueKeys (remove k m)
  unfolding remove
  UniqueKeys-remove k [] u = tt
  UniqueKeys-remove k ((i, w) ∷ m) u =
      ground (arith, lookup-remove k i m u.1, UniqueKeys-remove k m u.1)

  pub UniqueKeys-keep : (p : V → Bool) (m : List (K × V)) → UniqueKeys m → UniqueKeys (keep p m)
  unfolding keep
  UniqueKeys-keep p [] u = tt
  UniqueKeys-keep p ((i, w) ∷ m) u = ground (arith, lookup-keep p i m u.1, UniqueKeys-keep p m u.1)

  pub length-insert : (k : K) (v : V) (m : List (K × V)) → length (insert k v m) ≤ length m + 1
  unfolding insert
  length-insert k v [] = omega arith
  length-insert k v ((i, w) ∷ m) = ground (arith, length-insert k v m)

  -- A key that is there keeps its place.
  pub length-insert_found :
      (k : K) (v : V) (m : List (K × V))
      → length (insert k v m) + (if is_some (lookup k m) then 1 else 0) ≡ length m + 1
  unfolding insert lookup
  length-insert_found k v [] = omega arith
  length-insert_found k v ((i, w) ∷ m) = ground (arith, length-insert_found k v m)

  -- A key that is there leaves its place free when it is removed.
  pub length-remove :
      (k : K) (m : List (K × V))
      → length (remove k m) + (if is_some (lookup k m) then 1 else 0) ≡ length m
  unfolding remove lookup
  length-remove k [] = omega arith
  length-remove k ((i, w) ∷ m) = ground (arith, length-remove k m)

  pub length-keep : (p : V → Bool) (m : List (K × V)) → length (keep p m) ≤ length m
  unfolding keep
  length-keep p [] = omega arith
  length-keep p ((i, w) ∷ m) = ground (arith, length-keep p m)

  -- A function applied to every value.
  unfoldable pub map_values : (V → V) → List (K × V) → List (K × V)
  map_values f [] = []
  map_values f ((j, v) ∷ m) = (j, f v) ∷ map_values f m

  -- The sum of a measure over the values.
  unfoldable pub total : (V → ℕ) → List (K × V) → ℕ
  total f [] = 0
  total f ((j, v) ∷ m) = f v + total f m

  abbrev pub AllValues {κ} : (V → Type κ) → List (K × V) → Type κ
  AllValues P [] = Unit
  AllValues P ((j, v) ∷ m) = P v × AllValues P m

  pub lookup-map_values :
      (f : V → V) (k : K) (m : List (K × V)) → lookup k (map_values f m) ≡ Option.map f (lookup k m)
  unfolding lookup map_values
  lookup-map_values f k [] = refl
  lookup-map_values f k ((j, v) ∷ m) = ground (arith, lookup-map_values f k m)

  pub UniqueKeys-map_values :
      (f : V → V) (m : List (K × V)) → UniqueKeys m → UniqueKeys (map_values f m)
  unfolding map_values
  UniqueKeys-map_values f [] u = tt
  UniqueKeys-map_values f ((j, v) ∷ m) u =
      (rw (lookup-map_values f j m) (rw u.0), UniqueKeys-map_values f m u.1)

  pub length-map_values : (f : V → V) (m : List (K × V)) → length (map_values f m) ≡ length m
  unfolding map_values
  length-map_values f [] = refl
  length-map_values f ((j, v) ∷ m) = ground (arith, length-map_values f m)

  pub total-insert :
      (f : V → ℕ) (k : K) (v : V) (m : List (K × V))
      → total f (insert k v m) + measure_at f (lookup k m) ≡ total f m + f v
  unfolding total insert lookup
  total-insert f k v [] = omega arith
  total-insert f k v ((j, w) ∷ m) = ground (arith, total-insert f k v m)

  pub total-remove :
      (f : V → ℕ) (k : K) (m : List (K × V))
      → total f (remove k m) + measure_at f (lookup k m) ≡ total f m
  unfolding total remove lookup
  total-remove f k [] = omega arith
  total-remove f k ((j, w) ∷ m) = ground (arith, total-remove f k m)

  pub total-map_values :
      (f : V → ℕ) (g : V → V) (m : List (K × V))
      → ((v : V) → f (g v) ≤ f v)
      → total f (map_values g m) ≤ total f m
  unfolding total map_values
  total-map_values f g [] h = omega arith
  total-map_values f g ((j, w) ∷ m) h = omega (arith, h w, total-map_values f g m h)

module _ {ℓ κ} {K : Type 0} {V : Type ℓ} ⦃e : Eq K⦄ (P : V → Type κ) where
  pub AllValues-lookup :
      (k : K) (m : List (K × V)) {v : V} → AllValues P m → lookup k m ≡ some v → P v
  unfolding lookup
  AllValues-lookup k [] a h = cc
  AllValues-lookup k ((j, w) ∷ m) {v} a h = elim (Bool-cases (e.beq j k)) [
    | inl t ↦ subst P (some-injective _ _ (rw t at h)) a.0
    | inr t ↦ AllValues-lookup k m a.1 (rw t at h)
  ]

  pub AllValues-insert :
      (k : K) (v : V) (m : List (K × V)) → AllValues P m → P v → AllValues P (insert k v m)
  unfolding insert
  AllValues-insert k v [] a p = (p, tt)
  AllValues-insert k v ((j, w) ∷ m) a p = elim (Bool-cases (e.beq j k)) [
    | inl t ↦ rw t (p, a.1)
    | inr t ↦ rw t (a.0, AllValues-insert k v m a.1 p)
  ]

  pub AllValues-remove : (k : K) (m : List (K × V)) → AllValues P m → AllValues P (remove k m)
  unfolding remove
  AllValues-remove k [] a = tt
  AllValues-remove k ((j, w) ∷ m) a = elim (Bool-cases (e.beq j k)) [
    | inl t ↦ rw t a.1
    | inr t ↦ rw t (a.0, AllValues-remove k m a.1)
  ]

  pub AllValues-map_values :
      (f : V → V) (m : List (K × V))
      → ((v : V) → P v → P (f v))
      → AllValues P m
      → AllValues P (map_values f m)
  unfolding map_values
  AllValues-map_values f [] h a = tt
  AllValues-map_values f ((j, w) ∷ m) h a = (h w a.0, AllValues-map_values f m h a.1)
