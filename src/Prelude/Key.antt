-- ===== src/Prelude/Key.antt =====
-- What a Rust map asks of its keys: equality, and for a `BTreeMap` an order.
use Prim.Native.Nat.{ℕ, Ordering}
use Prim.Native.String.{String}
use Prim.Native.String
use mathlib.Core.Path.{◌≡◌, refl}
use mathlib.Core.Logic.{◌↔◌}
use mathlib.Core.Bool.{Bool, true, false, ◌&&◌, ◌||◌}
use text.Mathlib.Text.{◌==◌ as str_eq}
use text.Mathlib.TextEquality.{eq_iff}
use native.Mathlib.Omega.{arith}
use hyle.Prelude.Tests.{nat_eq, nat_eq_iff, ltb}

pub record Key {ℓ} (K : Type ℓ) : Type ℓ where
  pub beq : K → K → Bool
  pub before : K → K → Bool
  pub beq_iff : (a b : K) → (beq a b ≡ true) ↔ (a ≡ b)

infix 50 ◌==◌
abbrev pub ◌==◌ {ℓ} : {K : Type ℓ} ⦃k : Key K⦄ → K → K → Bool
◌==◌ ⦃k⦄ = k.beq

-- Strings by their bytes.
abbrev pub str_before : String → String → Bool
str_before a b = elim (String.compare a b) [ Ordering.lt ↦ true | _ ↦ false ]

instance abbrev pub nat_key : Key ℕ
nat_key = record { beq = nat_eq; before = ltb; beq_iff = nat_eq_iff }

instance abbrev pub string_key : Key String
string_key = record { beq = str_eq; before = str_before; beq_iff = eq_iff }

module _ {ℓ} {K : Type ℓ} ⦃k : Key K⦄ where
  pub key_refl : (a : K) → (a == a) ≡ true
  key_refl a = (k.beq_iff a a).1 refl

  pub key_eq : (a b : K) → (a == b) ≡ true → a ≡ b
  key_eq a b h = (k.beq_iff a b).0 h

-- Pairs, in lexicographic order.
module _ {ℓ κ} {K : Type ℓ} {L : Type κ} ⦃k : Key K⦄ ⦃l : Key L⦄ where
  abbrev pair_eq : K × L → K × L → Bool
  pair_eq p q = p.0 == q.0 && p.1 == q.1

  abbrev pair_before : K × L → K × L → Bool
  pair_before p q = k.before p.0 q.0 || (p.0 == q.0 && l.before p.1 q.1)

  pub pair_eq_iff : (p q : K × L) → (pair_eq p q ≡ true) ↔ (p ≡ q)
  pair_eq_iff (a, b) (c, d) =
      (λ h. ground (arith, key_eq a c, key_eq b d), λ e. ground (arith, key_refl a, key_refl b))

  instance abbrev pub pair_key : Key (K × L)
  pair_key = record { beq = pair_eq; before = pair_before; beq_iff = pair_eq_iff }
