-- ===== src/Contracts/Staking/Delegations.antt =====
-- No delegator counts twice.
use hyle.Prelude.{
  ◌≡◌, refl, sym, ◌+◌, ◌≤◌, false, some, List, [], ◌∷◌, ◌++◌, if◌then◌else◌, any, arith,
  Option-cases, Bool-cases, inl, inr,
}
use hyle.Prelude.Key.{◌==◌, string_key, key_eq}
use hyle.Prelude.Map.{Map, lookup, insert, place, replace, get_or}
use hyle.Prelude.Sets.{count, count-append_one}
use hyle.Model.{Identity, ValidatorPublicKey, bytes_key}
use hyle.Contracts.Staking.{Staking, delegators, delegate_to}

-- No one delegates more than once, to one validator or to two.
abbrev pub DelegatesOnce : Staking → Type 0
DelegatesOnce s = (d : Identity) → count d (delegators s.delegations) ≤ 1

count-append : (d : Identity) (xs ys : List Identity) → count d (xs ++ ys) ≡ count d xs + count d ys
unfolding count
count-append d [] ys = omega arith
count-append d (x ∷ xs) ys = ground (arith, count-append d xs ys)

count-place :
    (d : Identity) (v : ValidatorPublicKey) (ds : List Identity)
    (m : Map ValidatorPublicKey (List Identity))
    → count d (delegators (place v ds m)) ≡ count d ds + count d (delegators m)
unfolding place
count-place d v ds [] = count-append d ds []
count-place d v ds ((w, es) ∷ m) = elim (Bool-cases (bytes_key.before v w)) [
  | inl b ↦ rw (b, place) (count-append d ds (es ++ delegators m))
  | inr b ↦
      rw (b, place)
        (omega (
          arith,
          count-append d es (delegators (place v ds m)),
          count-append d es (delegators m),
          count-place d v ds m,
        ))
]

count-replace :
    (d : Identity) (v : ValidatorPublicKey) (ds old : List Identity)
    (m : Map ValidatorPublicKey (List Identity))
    → lookup v m ≡ some old
    → count d (delegators (replace v ds m)) + count d old ≡ count d (delegators m) + count d ds
unfolding lookup replace
count-replace d v ds old [] e = absurd (ground arith)
count-replace d v ds old ((w, es) ∷ m) e = elim (Bool-cases (w == v)) [
  | inl k ↦
      let same : es ≡ old = ground arith in
      rw (k, replace, sym same)
        (omega (arith, count-append d ds (delegators m), count-append d es (delegators m)))
  | inr k ↦
      rw (k, replace)
        (omega (
          arith,
          count-append d es (delegators (replace v ds m)),
          count-append d es (delegators m),
          count-replace d v ds old m (ground arith),
        ))
]

-- One more delegator is one more entry, for that delegator alone.
count-delegate :
    (d staker : Identity) (v : ValidatorPublicKey) (m : Map ValidatorPublicKey (List Identity))
    → count d (delegators (insert v (get_or v m [] ++ staker ∷ []) m))
      ≡ count d (delegators m) + (if staker == d then 1 else 0)
unfolding insert count
count-delegate d staker v m = elim (Option-cases (lookup v m)) [
  | inl e ↦
      rw (e, insert) (omega (arith, count-place d v (staker ∷ []) m, count-append_one d staker []))
  | inr (old, e) ↦
      rw (e, insert)
        (omega
          (arith, count-replace d v (old ++ staker ∷ []) old m e, count-append_one d staker old))
]

count_none :
    (staker : Identity) (xs : List Identity)
    → any (λ d. d == staker) xs ≡ false
    → count staker xs ≡ 0
unfolding count
count_none staker [] e = refl
count_none staker (x ∷ xs) e = ground (arith, count_none staker xs)

-- Where no one delegates more than once, no one does after a delegation, whether it is refused or not.
pub delegate_to-DelegatesOnce :
    (s : Staking) (staker : Identity) (validator : ValidatorPublicKey)
    → DelegatesOnce s
    → DelegatesOnce (delegate_to s staker validator).1
unfolding delegate_to
delegate_to-DelegatesOnce s staker validator once d =
    elim (Bool-cases (any (λ d. d == staker) (delegators s.delegations))) [
      | inl e ↦ rw (e, delegate_to) (once d)
      | inr e ↦
          rw (e, delegate_to, count-delegate d staker validator s.delegations)
            (ground
              (arith, once d, count_none staker (delegators s.delegations) e, key_eq staker d))
    ]
