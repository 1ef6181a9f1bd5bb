-- ===== src/Prelude/Sizes.antt =====
-- How many entries a map has after an operation.
use Prim.Native.Nat.{◌≤◌, ◌<◌}
use mathlib.Core.Path.{◌≡◌, refl}
use mathlib.Core.Bool.{true}
use mathlib.Core.List.{[], ◌∷◌}
use native.Mathlib.Omega.{arith}
use hyle.Prelude.Tests.{is_some}
use hyle.Prelude.Lists.{length}
use hyle.Prelude.Key.{Key}
use hyle.Prelude.Map.{Map, lookup, insert, remove, replace}

module _ {ℓ κ} {K : Type ℓ} {V : Type κ} ⦃k : Key K⦄ where
  pub length-remove_le : (a : K) (m : Map K V) → length (remove a m) ≤ length m
  unfolding remove
  length-remove_le a [] = omega arith
  length-remove_le a ((b, v) ∷ m) = ground (arith, length-remove_le a m)

  pub length-remove_lt :
      (a : K) (m : Map K V) → is_some (lookup a m) ≡ true → length (remove a m) < length m
  unfolding remove lookup
  length-remove_lt a [] h = ground arith
  length-remove_lt a ((b, v) ∷ m) h = ground (arith, length-remove_le a m, length-remove_lt a m)

  length-replace : (a : K) (v : V) (m : Map K V) → length (replace a v m) ≡ length m
  unfolding replace
  length-replace a v [] = refl
  length-replace a v ((b, w) ∷ m) = ground (arith, length-replace a v m)

  pub length-insert_known :
      (a : K) (v : V) (m : Map K V) → is_some (lookup a m) ≡ true → length (insert a v m) ≡ length m
  unfolding insert
  length-insert_known a v m h = ground (arith, length-replace a v m)
