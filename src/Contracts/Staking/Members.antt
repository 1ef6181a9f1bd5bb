-- ===== src/Contracts/Staking/Members.antt =====
-- `sort` and `dedup` of `compute_voting_power` (crates/contracts/staking/src/state.rs): the members of a
-- list, each once, in one order.
use hyle.Prelude.{
  ◌≡◌, refl, sym, subst, ◌∙◌, true, false, ◌||◌, List, [], ◌∷◌, Bool-cases, inl, inr, arith,
  false≢true,
}
use hyle.Prelude.Key.{◌==◌, key_eq, key_refl}
use hyle.Prelude.Sets.{mem, place_member, Distinct}
use hyle.Model.{Bytes, bytes_before, bytes_key, bytes_eq_iff, ValidatorPublicKey}
use hyle.Contracts.Staking.{sort, push_new, dedup}

before-asym : (a b : Bytes) → bytes_before a b ≡ true → bytes_before b a ≡ false
before-asym [] [] h = refl
before-asym [] (y ∷ ys) h = refl
before-asym (x ∷ xs) [] h = ground arith
before-asym (x ∷ xs) (y ∷ ys) h = ground (arith, before-asym xs ys)

not_before_trans :
    (a b c : Bytes) → bytes_before b a ≡ false → bytes_before c b ≡ false → bytes_before c a ≡ false
not_before_trans [] b c h k = refl
not_before_trans (x ∷ xs) [] c h k = ground arith
not_before_trans (x ∷ xs) (y ∷ ys) [] h k = ground arith
not_before_trans (x ∷ xs) (y ∷ ys) (z ∷ zs) h k = ground (arith, not_before_trans xs ys zs)

not_before-antisym : (a b : Bytes) → bytes_before a b ≡ false → bytes_before b a ≡ false → a ≡ b
not_before-antisym [] [] h k = refl
not_before-antisym [] (y ∷ ys) h k = ground arith
not_before-antisym (x ∷ xs) [] h k = ground arith
not_before-antisym (x ∷ xs) (y ∷ ys) h k = ground (arith, not_before-antisym xs ys)

before_irrefl : (a : Bytes) → bytes_before a a ≡ false
before_irrefl [] = refl
before_irrefl (x ∷ xs) = ground (arith, before_irrefl xs)

-- Every member of the list is the bound or comes after it.
abbrev AtLeast : ValidatorPublicKey → List ValidatorPublicKey → Type 0
AtLeast a [] = Unit {0}
AtLeast a (b ∷ bs) = (bytes_before b a ≡ false) × AtLeast a bs

abbrev IsSorted : List ValidatorPublicKey → Type 0
IsSorted [] = Unit {0}
IsSorted (a ∷ as') = AtLeast a as' × IsSorted as'

AtLeast-trans :
    (a b : ValidatorPublicKey) (vs : List ValidatorPublicKey)
    → bytes_before b a ≡ false
    → AtLeast b vs
    → AtLeast a vs
AtLeast-trans a b [] h k = tt
AtLeast-trans a b (c ∷ vs) h k = (not_before_trans a b c h k.0, AtLeast-trans a b vs h k.1)

place_member-AtLeast :
    (a b : ValidatorPublicKey) (vs : List ValidatorPublicKey)
    → bytes_before b a ≡ false
    → AtLeast a vs
    → AtLeast a (place_member b vs)
unfolding place_member
place_member-AtLeast a b [] h k = (h, tt)
place_member-AtLeast a b (c ∷ vs) h k = elim (Bool-cases (bytes_before b c)) [
  | inl e ↦ rw e (h, k)
  | inr e ↦ rw e (k.0, place_member-AtLeast a b vs h k.1)
]

place_member-IsSorted :
    (b : ValidatorPublicKey) (vs : List ValidatorPublicKey)
    → IsSorted vs
    → IsSorted (place_member b vs)
unfolding place_member
place_member-IsSorted b [] h = (tt, tt)
place_member-IsSorted b (c ∷ vs) h = elim (Bool-cases (bytes_before b c)) [
  | inl e ↦ rw e ((before-asym b c e, AtLeast-trans b c vs (before-asym b c e) h.0), h)
  | inr e ↦ rw e (place_member-AtLeast c b vs e h.0, place_member-IsSorted b vs h.1)
]

sort-IsSorted : (vs : List ValidatorPublicKey) → IsSorted (sort vs)
unfolding sort
sort-IsSorted [] = tt
sort-IsSorted (v ∷ vs) = place_member-IsSorted v (sort vs) (sort-IsSorted vs)

mem-place_member :
    (a b : ValidatorPublicKey) (vs : List ValidatorPublicKey)
    → mem a (place_member b vs) ≡ (b == a || mem a vs)
unfolding place_member mem
mem-place_member a b [] = refl
mem-place_member a b (c ∷ vs) = ground (arith, mem-place_member a b vs)

mem-sort : (a : ValidatorPublicKey) (vs : List ValidatorPublicKey) → mem a (sort vs) ≡ mem a vs
unfolding sort mem
mem-sort a [] = refl
mem-sort a (v ∷ vs) = ground (arith, mem-place_member a v (sort vs), mem-sort a vs)

push_new-AtLeast :
    (a v : ValidatorPublicKey) (ws : List ValidatorPublicKey)
    → bytes_before v a ≡ false
    → AtLeast a ws
    → AtLeast a (push_new v ws)
unfolding push_new
push_new-AtLeast a v [] h k = (h, tt)
push_new-AtLeast a v (w ∷ ws) h k = elim (Bool-cases (v == w)) [
  | inl e ↦ rw e k
  | inr e ↦ rw e (h, k)
]

mem-push_new :
    (a v : ValidatorPublicKey) (ws : List ValidatorPublicKey)
    → mem a (push_new v ws) ≡ (v == a || mem a ws)
unfolding push_new mem
mem-push_new a v [] = refl
mem-push_new a v (w ∷ ws) = ground (arith, key_eq v w)

-- What comes before a bound is not among what comes after it.
mem-AtLeast :
    (v w : ValidatorPublicKey) (ws : List ValidatorPublicKey)
    → bytes_before w v ≡ false
    → AtLeast w ws
    → (v == w) ≡ false
    → mem v ws ≡ false
unfolding mem
mem-AtLeast v w [] h k n = refl
mem-AtLeast v w (c ∷ ws) h k n = elim (Bool-cases (c == v)) [
  | inl e ↦ absurd (false≢true (sym n ∙ same c e k.0))
  | inr e ↦ rw e (mem-AtLeast v w ws h k.1 n)
]
  where
    same : (c : ValidatorPublicKey) → (c == v) ≡ true → bytes_before c w ≡ false → (v == w) ≡ true
    same c e k =
        (bytes_eq_iff v w).1
          (not_before-antisym v w (subst (λ x. bytes_before x w ≡ false) (key_eq c v e) k) h)

push_new-IsSorted :
    (v : ValidatorPublicKey) (ws : List ValidatorPublicKey)
    → AtLeast v ws
    → IsSorted ws
    → IsSorted (push_new v ws)
unfolding push_new
push_new-IsSorted v [] h k = (tt, tt)
push_new-IsSorted v (w ∷ ws) h k = elim (Bool-cases (v == w)) [
  | inl e ↦ rw e k
  | inr e ↦ rw e (h, k)
]

push_new-Distinct :
    (v : ValidatorPublicKey) (ws : List ValidatorPublicKey)
    → AtLeast v ws
    → IsSorted ws
    → Distinct ws
    → Distinct (push_new v ws)
unfolding push_new mem
push_new-Distinct v [] h k d = (refl, tt)
push_new-Distinct v (w ∷ ws) h k d = elim (Bool-cases (v == w)) [
  | inl e ↦ rw e d
  | inr e ↦ rw e (ground (arith, mem-AtLeast v w ws h.0 k.0 e, key_eq w v, key_refl v), d)
]

dedup-AtLeast :
    (a : ValidatorPublicKey) (vs : List ValidatorPublicKey) → AtLeast a vs → AtLeast a (dedup vs)
unfolding dedup
dedup-AtLeast a [] h = tt
dedup-AtLeast a (v ∷ vs) h = push_new-AtLeast a v (dedup vs) h.0 (dedup-AtLeast a vs h.1)

dedup-IsSorted : (vs : List ValidatorPublicKey) → IsSorted vs → IsSorted (dedup vs)
unfolding dedup
dedup-IsSorted [] h = tt
dedup-IsSorted (v ∷ vs) h =
    push_new-IsSorted v (dedup vs) (dedup-AtLeast v vs h.0) (dedup-IsSorted vs h.1)

dedup-Distinct : (vs : List ValidatorPublicKey) → IsSorted vs → Distinct (dedup vs)
unfolding dedup
dedup-Distinct [] h = tt
dedup-Distinct (v ∷ vs) h =
    push_new-Distinct v (dedup vs) (dedup-AtLeast v vs h.0) (dedup-IsSorted vs h.1)
      (dedup-Distinct vs h.1)

mem-dedup : (a : ValidatorPublicKey) (vs : List ValidatorPublicKey) → mem a (dedup vs) ≡ mem a vs
unfolding dedup mem
mem-dedup a [] = refl
mem-dedup a (v ∷ vs) = ground (arith, mem-push_new a v (dedup vs), mem-dedup a vs)

-- What `compute_voting_power` counts: every member, once.
abbrev pub unique : List ValidatorPublicKey → List ValidatorPublicKey
unique vs = dedup (sort vs)

pub unique-Distinct : (vs : List ValidatorPublicKey) → Distinct (unique vs)
unique-Distinct vs = dedup-Distinct (sort vs) (sort-IsSorted vs)

pub mem-unique :
    (a : ValidatorPublicKey) (vs : List ValidatorPublicKey) → mem a (unique vs) ≡ mem a vs
mem-unique a vs = mem-dedup a (sort vs) ∙ mem-sort a vs
