-- ===== src/Prelude/Map.antt =====
-- Rust's maps and sets: association lists, kept in key order as a `BTreeMap` iterates. A `HashMap`
-- is the same map, since no code that is modelled depends on the order in which it iterates.
use Prim.Native.Nat.{ℕ, ◌+◌, ◌≤◌}
use mathlib.Core.Path.{◌≡◌, refl}
use mathlib.Core.Logic.{inl, inr}
use mathlib.Core.Bool.{Bool, true}
use mathlib.Core.Option.{Option, none, some}
use mathlib.Core.List.{List, [], ◌∷◌}
use native.Mathlib.Omega.{arith}
use hyle.Prelude.Tests.{if◌then◌else◌, Bool-cases, is_some, unwrap_or}
use hyle.Prelude.Key.{Key, ◌==◌, key_refl, key_eq}

abbrev pub Map {ℓ κ} : Type ℓ → Type κ → Type (ℓ ⊔ κ)
Map K V = List (K × V)

module _ {ℓ κ} {K : Type ℓ} {V : Type κ} ⦃k : Key K⦄ where
  unfoldable pub lookup : K → Map K V → Option V
  lookup a [] = none
  lookup a ((b, v) ∷ m) = if b == a then some v else lookup a m

  -- The new key's place in the order.
  unfoldable pub place : K → V → Map K V → Map K V
  place a v [] = (a, v) ∷ []
  place a v ((b, w) ∷ m) = if k.before a b then (a, v) ∷ (b, w) ∷ m else (b, w) ∷ place a v m

  unfoldable pub replace : K → V → Map K V → Map K V
  replace a v [] = []
  replace a v ((b, w) ∷ m) = if b == a then (b, v) ∷ m else (b, w) ∷ replace a v m

  unfoldable pub insert : K → V → Map K V → Map K V
  unfolding lookup place replace
  insert a v m = if is_some (lookup a m) then replace a v m else place a v m

  unfoldable pub remove : K → Map K V → Map K V
  remove a [] = []
  remove a ((b, w) ∷ m) = let rest = remove a m in if b == a then rest else (b, w) ∷ rest

  abbrev pub contains_key : K → Map K V → Bool
  contains_key a m = is_some (lookup a m)

  -- `map.entry(a).or_insert(d)`, read
  abbrev pub get_or : K → Map K V → V → V
  get_or a m d = unwrap_or (lookup a m) d

  pub lookup-place :
      (a b : K) (v : V) (m : Map K V)
      → lookup a m ≡ none
      → lookup b (place a v m) ≡ (if a == b then some v else lookup b m)
  unfolding lookup place
  lookup-place a b v [] h = refl
  lookup-place a b v ((c, w) ∷ m) h = elim (Bool-cases (c == a)) [
    | inl e ↦ absurd (ground arith)
    | inr e ↦ ground (arith, lookup-place a b v m, key_eq a b, key_eq c b, key_refl a, key_refl b)
  ]

  pub lookup-replace :
      (a b : K) (v : V) (m : Map K V)
      → is_some (lookup a m) ≡ true
      → lookup b (replace a v m) ≡ (if a == b then some v else lookup b m)
  unfolding lookup replace
  lookup-replace a b v [] h = ground arith
  lookup-replace a b v ((c, w) ∷ m) h =
      ground
        (arith, lookup-replace a b v m, key_eq c a, key_eq a b, key_eq c b, key_refl a, key_refl b)

  pub lookup-insert :
      (a b : K) (v : V) (m : Map K V)
      → lookup b (insert a v m) ≡ (if a == b then some v else lookup b m)
  unfolding insert
  lookup-insert a b v m = ground (arith, lookup-place a b v m, lookup-replace a b v m)

  pub lookup-insert_self : (a : K) (v : V) (m : Map K V) → lookup a (insert a v m) ≡ some v
  lookup-insert_self a v m = ground (arith, lookup-insert a a v m, key_refl a)

  pub lookup-remove :
      (a b : K) (m : Map K V) → lookup b (remove a m) ≡ (if a == b then none else lookup b m)
  unfolding lookup remove
  lookup-remove a b [] = ground arith
  lookup-remove a b ((c, w) ∷ m) =
      ground
        (arith, lookup-remove a b m, key_eq c a, key_eq c b, key_eq a b, key_refl a, key_refl b)

  pub lookup-remove_self : (a : K) (m : Map K V) → lookup a (remove a m) ≡ none
  lookup-remove_self a m = ground (arith, lookup-remove a a m, key_refl a)

  abbrev pub values : Map K V → List V
  values [] = []
  values ((a, v) ∷ m) = v ∷ values m

-- Sums of what a map holds.
module _ {ℓ} {K : Type ℓ} ⦃k : Key K⦄ where
  unfoldable pub total : Map K ℕ → ℕ
  total [] = 0
  total ((a, n) ∷ m) = n + total m

  total-place : (a : K) (n : ℕ) (m : Map K ℕ) → total (place a n m) ≡ n + total m
  unfolding total place
  total-place a n [] = refl
  total-place a n ((b, x) ∷ m) = ground (arith, total-place a n m)

  total-replace :
      (a : K) (n x : ℕ) (m : Map K ℕ)
      → lookup a m ≡ some x
      → total (replace a n m) + x ≡ total m + n
  unfolding lookup total replace
  total-replace a n x [] h = ground arith
  total-replace a n x ((b, y) ∷ m) h = ground (arith, total-replace a n x m)

  -- A write changes the sum by what was there before.
  pub total-insert :
      (a : K) (n : ℕ) (m : Map K ℕ) → total (insert a n m) + get_or a m 0 ≡ total m + n
  unfolding insert
  total-insert a n m = ground (arith, total-place a n m, total-replace a n (get_or a m 0) m)

  pub lookup-le-total : (a : K) (m : Map K ℕ) → get_or a m 0 ≤ total m
  unfolding lookup total
  lookup-le-total a [] = omega arith
  lookup-le-total a ((b, x) ∷ m) = ground (arith, lookup-le-total a m)
