-- ===== src/Contracts/Staking/Power.antt =====
-- `compute_voting_power` as a sum over the bonded validators, and where two sets of them meet:
-- crates/contracts/staking/src/state.rs.
use hyle.Prelude.{
  ◌≡◌, refl, sym, ◌∙◌, ap, ℕ, ◌+◌, ◌≤◌, ◌<◌, Bool, true, false, ◌||◌, ◌&&◌, List, [], ◌∷◌,
  Bool-cases, inl, inr, if◌then◌else◌, all, any, retain, unwrap_or, arith,
}
use hyle.Prelude.Key.{◌==◌, key_eq, key_refl}
use hyle.Prelude.Sets.{mem, Distinct}
use hyle.Prelude.Word.{u128_mod}
use hyle.Model.{bytes_key, ValidatorPublicKey}
use hyle.Contracts.Staking.{
  Staking, get_stake, sum_u128, stakes_of, compute_voting_power, is_bonded,
}
use hyle.Contracts.Staking.Members.{unique, unique-Distinct, mem-unique}

-- The stake of a validator, 0 where it has no delegation.
abbrev pub weight : Staking → ValidatorPublicKey → ℕ
weight s v = unwrap_or (get_stake s v) 0

module _ (w : ValidatorPublicKey → ℕ) where
  -- The weight of those that pass the test.
  unfoldable pub sum_where : (ValidatorPublicKey → Bool) → List ValidatorPublicKey → ℕ
  sum_where p [] = 0
  sum_where p (v ∷ vs) = (if p v then w v else 0) + sum_where p vs

  sum_where-same :
      (p q : ValidatorPublicKey → Bool) (vs : List ValidatorPublicKey)
      → ((v : ValidatorPublicKey) → p v ≡ q v)
      → sum_where p vs ≡ sum_where q vs
  unfolding sum_where
  sum_where-same p q [] h = refl
  sum_where-same p q (v ∷ vs) h =
      rw (h v) (ap (λ (n : ℕ). (if q v then w v else 0) + n) (sum_where-same p q vs h))

  -- Inclusion and exclusion.
  pub sum_where-meet :
      (p q : ValidatorPublicKey → Bool) (vs : List ValidatorPublicKey)
      → sum_where p vs + sum_where q vs ≤ sum_where (λ _. true) vs + sum_where (λ v. p v && q v) vs
  unfolding sum_where
  sum_where-meet p q [] = omega arith
  sum_where-meet p q (v ∷ vs) = ground (arith, sum_where-meet p q vs)

  sum_where-le :
      (p : ValidatorPublicKey → Bool) (vs : List ValidatorPublicKey)
      → sum_where p vs ≤ sum_where (λ _. true) vs
  unfolding sum_where
  sum_where-le p [] = omega arith
  sum_where-le p (v ∷ vs) = ground (arith, sum_where-le p vs)

  sum_where-none :
      (a : ValidatorPublicKey) (vs : List ValidatorPublicKey)
      → mem a vs ≡ false
      → sum_where (λ v. a == v) vs ≡ 0
  unfolding sum_where mem
  sum_where-none a [] h = refl
  sum_where-none a (v ∷ vs) h = ground (arith, sum_where-none a vs, key_eq a v, key_refl v)

  sum_where-one :
      (a : ValidatorPublicKey) (vs : List ValidatorPublicKey)
      → Distinct vs
      → mem a vs ≡ true
      → sum_where (λ v. a == v) vs ≡ w a
  unfolding sum_where mem
  sum_where-one a [] d h = ground arith
  sum_where-one a (v ∷ vs) d h =
      ground (arith, sum_where-one a vs, sum_where-none a vs, key_eq a v, key_eq v a, key_refl v)

  sum_where-or :
      (p q : ValidatorPublicKey → Bool) (vs : List ValidatorPublicKey)
      → ((v : ValidatorPublicKey) → p v && q v ≡ false)
      → sum_where (λ v. p v || q v) vs ≡ sum_where p vs + sum_where q vs
  unfolding sum_where
  sum_where-or p q [] h = omega arith
  sum_where-or p q (v ∷ vs) h = ground (arith, h v, sum_where-or p q vs h)

  sum_where-never : (vs : List ValidatorPublicKey) → sum_where (λ _. false) vs ≡ 0
  unfolding sum_where
  sum_where-never [] = refl
  sum_where-never (v ∷ vs) = omega (arith, sum_where-never vs)

  apart :
      (m : ValidatorPublicKey) (ms : List ValidatorPublicKey)
      → mem m ms ≡ false
      → (v : ValidatorPublicKey) → (m == v && mem v ms) ≡ false
  apart m ms h v = elim (Bool-cases (m == v)) [
    | inl e ↦ rw (e, sym (key_eq m v e)) h
    | inr e ↦ rw e refl
  ]

  abbrev pub weights : List ValidatorPublicKey → ℕ
  weights = sum_where (λ _. true)

  -- Distinct members of a list weigh what its elements that are among them do.
  weights-eq-sum_where :
      (ms vs : List ValidatorPublicKey)
      → Distinct ms
      → Distinct vs
      → all (λ m. mem m vs) ms ≡ true
      → weights ms ≡ sum_where (λ v. mem v ms) vs
  unfolding sum_where mem
  weights-eq-sum_where [] vs d e h = sym (sum_where-never vs)
  weights-eq-sum_where (m ∷ ms) vs d e h = omega (
    arith,
    sum_where-one m vs e (ground (arith, h)),
    weights-eq-sum_where ms vs d.1 e (ground (arith, h)),
    sum_where-or (λ v. m == v) (λ v. mem v ms) vs (apart m ms d.0),
  )

sum_u128-weights :
    (s : Staking) (ms : List ValidatorPublicKey)
    → weights (weight s) ms < u128_mod
    → sum_u128 (stakes_of s ms) ≡ weights (weight s) ms
unfolding sum_u128 stakes_of sum_where
sum_u128-weights s [] h = refl
sum_u128-weights s (m ∷ ms) h = ground (arith, sum_u128-weights s ms)

all-of_mem :
    (p : ValidatorPublicKey → Bool) (ms : List ValidatorPublicKey)
    → ((m : ValidatorPublicKey) → mem m ms ≡ true → p m ≡ true)
    → all p ms ≡ true
unfolding mem
all-of_mem p [] h = refl
all-of_mem p (m ∷ ms) h =
    rw (h m (ground (arith, key_refl m))) (all-of_mem p ms (λ n e. h n (ground (arith, e))))

mem-of_all :
    (p : ValidatorPublicKey → Bool) (m : ValidatorPublicKey) (ms : List ValidatorPublicKey)
    → all p ms ≡ true
    → mem m ms ≡ true
    → p m ≡ true
unfolding mem
mem-of_all p m [] h e = ground arith
mem-of_all p m (n ∷ ms) h e = ground (arith, mem-of_all p m ms, key_eq n m)

any-eq-mem :
    (v : ValidatorPublicKey) (vs : List ValidatorPublicKey) → any (λ b. b == v) vs ≡ mem v vs
unfolding mem
any-eq-mem v [] = refl
any-eq-mem v (b ∷ vs) = ground (arith, any-eq-mem v vs)

-- The members of the first list that are in the second one.
abbrev pub common : List ValidatorPublicKey → List ValidatorPublicKey → List ValidatorPublicKey
common vs ws = retain (λ v. mem v ws) vs

-- The members of both.
mem-common :
    (a : ValidatorPublicKey) (vs ws : List ValidatorPublicKey)
    → mem a (common vs ws) ≡ (mem a vs && mem a ws)
unfolding mem
mem-common a [] ws = refl
mem-common a (v ∷ vs) ws = ground (arith, mem-common a vs ws, key_eq v a)

all-common :
    (p : ValidatorPublicKey → Bool) (vs ws : List ValidatorPublicKey)
    → all p vs ≡ true
    → all p (common vs ws) ≡ true
all-common p [] ws h = refl
all-common p (v ∷ vs) ws h = ground (arith, all-common p vs ws)

module _ (s : Staking) (distinct : Distinct s.bonded)
    (fits : weights (weight s) s.bonded < u128_mod) where
  -- The power of bonded validators is the stake of each of them, once.
  pub compute_voting_power-eq :
      (vs : List ValidatorPublicKey)
      → all (λ v. is_bonded s v) vs ≡ true
      → compute_voting_power s vs ≡ sum_where (weight s) (λ v. mem v vs) s.bonded
  unfolding compute_voting_power is_bonded
  compute_voting_power-eq vs h = sum_u128-weights s (unique vs) small ∙ counted
    where
      bonded_all : all (λ m. mem m s.bonded) (unique vs) ≡ true
      bonded_all =
          all-of_mem (λ m. mem m s.bonded) (unique vs)
            (λ m e.
              sym (any-eq-mem m s.bonded)
              ∙ mem-of_all (λ v. is_bonded s v) m vs h (sym (mem-unique m vs) ∙ e))

      counted : weights (weight s) (unique vs) ≡ sum_where (weight s) (λ v. mem v vs) s.bonded
      counted =
          weights-eq-sum_where (weight s) (unique vs) s.bonded (unique-Distinct vs) distinct
            bonded_all
          ∙ sum_where-same (weight s) _ _ s.bonded (λ v. mem-unique v vs)

      small : weights (weight s) (unique vs) < u128_mod
      small = omega (arith, counted, sum_where-le (weight s) (λ v. mem v vs) s.bonded)

  -- Two sets of bonded validators have no more power than all of them and those that are in both.
  pub compute_voting_power-meet :
      (vs ws : List ValidatorPublicKey)
      → all (λ v. is_bonded s v) vs ≡ true
      → all (λ v. is_bonded s v) ws ≡ true
      → compute_voting_power s vs + compute_voting_power s ws
        ≤ weights (weight s) s.bonded + compute_voting_power s (common vs ws)
  compute_voting_power-meet vs ws h k = omega (
    arith,
    compute_voting_power-eq vs h,
    compute_voting_power-eq ws k,
    compute_voting_power-eq (common vs ws) (all-common (λ v. is_bonded s v) vs ws h),
    sum_where-meet (weight s) (λ v. mem v vs) (λ v. mem v ws) s.bonded,
    sum_where-same (weight s) (λ v. mem v (common vs ws)) (λ v. mem v vs && mem v ws) s.bonded
        (λ v. mem-common v vs ws),
  )
