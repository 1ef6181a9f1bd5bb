-- ===== src/Prelude/Sets.antt =====
-- Membership in lists of keys, sets of keys, and how often a key stands in a list.
use Prim.Native.Nat.{ℕ, suc, ◌+◌}
use mathlib.Core.Path.{◌≡◌, refl}
use mathlib.Core.Bool.{Bool, false, ◌||◌}
use mathlib.Core.Option.{Option, none, some}
use mathlib.Core.List.{List, [], ◌∷◌, ◌++◌}
use mathlib.Core.Logic.{◌≢◌}
use native.Mathlib.Omega.{arith}
use hyle.Prelude.Tests.{if◌then◌else◌}
use hyle.Prelude.Lists.{front}
use hyle.Prelude.Key.{Key, ◌==◌, key_refl, key_eq}

module _ {ℓ} {K : Type ℓ} ⦃k : Key K⦄ where
  unfoldable pub mem : K → List K → Bool
  mem a [] = false
  mem a (b ∷ bs) = b == a || mem a bs

  -- `HashSet::insert`
  unfoldable pub set_insert : K → List K → List K
  set_insert a s = if mem a s then s else a ∷ s

  -- `HashSet::extend`
  unfoldable pub set_extend : List K → List K → List K
  unfolding set_insert
  set_extend s [] = s
  set_extend s (a ∷ as') = set_extend (set_insert a s) as'

  -- `BTreeSet::insert`: the new member's place in the order.
  unfoldable pub place_member : K → List K → List K
  place_member a [] = a ∷ []
  place_member a (b ∷ bs) = if k.before a b then a ∷ b ∷ bs else b ∷ place_member a bs

  unfoldable pub btree_insert : K → List K → List K
  unfolding mem place_member
  btree_insert a s = if mem a s then s else place_member a s

  -- `BTreeSet::append`, `extend`
  unfoldable pub btree_append : List K → List K → List K
  unfolding btree_insert
  btree_append s [] = s
  btree_append s (a ∷ as') = btree_append (btree_insert a s) as'

  unfoldable pub set_remove : K → List K → List K
  set_remove a [] = []
  set_remove a (b ∷ bs) = let rest = set_remove a bs in if b == a then rest else b ∷ rest

  unfoldable pub count : K → List K → ℕ
  count a [] = 0
  count a (b ∷ bs) = let n = count a bs in if b == a then suc n else n

  -- `opt == Some(a)`
  abbrev pub is_key : Option K → K → Bool
  is_key none a = false
  is_key (some b) a = b == a

  abbrev pub Distinct : List K → Type 0
  Distinct [] = Unit {0}
  Distinct (a ∷ as') = (mem a as' ≡ false) × Distinct as'

  pub set_insert-Distinct : (a : K) (s : List K) → Distinct s → Distinct (set_insert a s)
  unfolding set_insert
  set_insert-Distinct a s d = ground arith

  pub mem-set_insert : (a b : K) (s : List K) → mem b (set_insert a s) ≡ (a == b || mem b s)
  unfolding mem set_insert
  mem-set_insert a b s = ground (arith, key_eq a b)

  pub count-append_one :
      (a b : K) (q : List K) → count a (q ++ b ∷ []) ≡ count a q + (if b == a then 1 else 0)
  unfolding count
  count-append_one a b [] = ground arith
  count-append_one a b (c ∷ q) = ground (arith, count-append_one a b q)

  pub count-set_remove :
      (a b : K) (q : List K) → count b (set_remove a q) ≡ (if a == b then 0 else count b q)
  unfolding count set_remove
  count-set_remove a b [] = ground arith
  count-set_remove a b (c ∷ q) =
      ground
        (arith, count-set_remove a b q, key_eq c a, key_eq c b, key_eq a b, key_refl a, key_refl b)

  pub set_remove_absent : (a : K) (q : List K) → count a q ≡ 0 → set_remove a q ≡ q
  unfolding count set_remove
  set_remove_absent a [] h = refl
  set_remove_absent a (c ∷ q) h = ground (arith, set_remove_absent a q)

  pub set_remove-append_one : (a : K) (q : List K) → count a q ≡ 0 → set_remove a (q ++ a ∷ []) ≡ q
  unfolding count set_remove
  set_remove-append_one a [] h = ground (arith, key_refl a)
  set_remove-append_one a (c ∷ q) h = ground (arith, set_remove-append_one a q)

  pub count-front : (a : K) (q : List K) → front q ≡ some a → count a q ≢ 0
  unfolding count
  count-front a [] h e = ground arith
  count-front a (c ∷ q) h e = ground (arith, key_refl a)
