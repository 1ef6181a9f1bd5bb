-- ===== src/Contracts/Amm/Reserves.antt =====
-- What a swap does to the reserves of its pair.
use native.Mathlib.Nat.{
  div-le_of_le-mul, mul-le-mul_right, lt-div-mul-add, div-mul-le_self, mul_comm,
}
use hyle.Prelude.{
  ◌≡◌, refl, ℕ, String, true, false, Option, none, some, ok, arith, if◌then◌else◌, ◌+◌, ◌-◌, ◌*◌,
  ◌/◌, ◌<◌, ◌≤◌, Bool-cases, inl, inr,
}
use hyle.Prelude.Key.{string_key, pair_key}
use hyle.Prelude.Texts.{str_le}
use hyle.Prelude.Word.{u128_mod, add_u128_exact, sub_u128_exact, mul_u128_exact}
use hyle.Prelude.Map.{lookup, insert, lookup-insert_self, lookup-insert}
use hyle.Contracts.Amm.{
  Amm, AmmOutput, amount_out, swap_reserves, verify_swap, unordered, out_of_range,
}

-- The reserves of the first token and of the second, in the order that the caller names them.
unfoldable pub reserves : Amm → String → String → Option (ℕ × ℕ)
reserves amm a b = elim (lookup (unordered a b) amm.pairs) [
  | none ↦ none
  | some (x, y) ↦ if str_le a b then some (x, y) else some (y, x)
]

-- No step of the formula wraps, and the first reserve is not empty.
abbrev pub Fits : ℕ → ℕ → ℕ → Type 0
Fits x y n = (0 < x) × (x * y < u128_mod) × (x + n < u128_mod) × (98 * y < u128_mod)

-- What is left of the second reserve.
abbrev pub rest_of : ℕ → ℕ → ℕ → ℕ
rest_of x y n = x * y / (x + n)

in_range :
    (m expected : ℕ)
    → 98 * expected < u128_mod
    → out_of_range m expected ≡ false
    → (m ≤ expected) × (98 * expected ≤ 100 * m + 99)
unfolding out_of_range
in_range m expected l h = ground arith

reserves_of_pairs :
    (amm : Amm) (a b : String) (x y : ℕ)
    → lookup (unordered a b) amm.pairs ≡ some (if str_le a b then (x, y) else (y, x))
    → reserves amm a b ≡ some (x, y)
unfolding reserves
reserves_of_pairs amm a b x y e = ground arith

module _ (x y n : ℕ) (fits : Fits x y n) where
  rest_le : rest_of x y n ≤ y
  rest_le = div-le_of_le-mul (x + n) (mul-le-mul_right y (omega arith))

  pub amount_out_exact : amount_out x y n ≡ ok (y - rest_of x y n)
  unfolding amount_out
  amount_out_exact =
      rw
        (
          add_u128_exact x n (omega arith),
          mul_u128_exact x y (omega arith),
          sub_u128_exact y (rest_of x y n) rest_le (omega arith),
        )
        (ground arith)

  -- The product of the reserves never grows, and falls by less than the new first reserve.
  product_bounds : ((x + n) * rest_of x y n ≤ x * y) × (x * y < (x + n) * rest_of x y n + (x + n))
  product_bounds = (
    rw (mul_comm (x + n) (rest_of x y n)) (div-mul-le_self (x * y) (x + n)),
    rw (mul_comm (x + n) (rest_of x y n)) (lt-div-mul-add {a = x * y} (omega arith)),
  )

  rest_left : y - (y - rest_of x y n) ≡ rest_of x y n
  rest_left = omega (arith, rest_le)

  pub swap_reserves_exact :
      swap_reserves true (x, y) n ≡ ok (y - rest_of x y n, (x + n, rest_of x y n))
  unfolding swap_reserves
  swap_reserves_exact =
      rw
        (
          swap_reserves,
          amount_out_exact,
          add_u128_exact x n (omega arith),
          sub_u128_exact y (y - rest_of x y n) (omega arith) (omega arith),
          rest_left,
        )
        refl

  pub swap_reserves_exact_flipped :
      swap_reserves false (y, x) n ≡ ok (y - rest_of x y n, (rest_of x y n, x + n))
  unfolding swap_reserves
  swap_reserves_exact_flipped =
      rw
        (
          swap_reserves,
          amount_out_exact,
          add_u128_exact x n (omega arith),
          sub_u128_exact y (y - rest_of x y n) (omega arith) (omega arith),
          rest_left,
        )
        refl

  module _ (amm amm' : Amm) (a b : String) (m : ℕ) (out : AmmOutput) where
    -- The reserves afterwards, in the order of the pair.
    abbrev swapped : ℕ × ℕ
    swapped = if str_le a b then (x + n, rest_of x y n) else (rest_of x y n, x + n)

    lookup_of_reserves :
        reserves amm a b ≡ some (x, y)
        → lookup (unordered a b) amm.pairs ≡ some (if str_le a b then (x, y) else (y, x))
    unfolding reserves
    lookup_of_reserves r = ground arith

    oriented :
        swap_reserves (str_le a b) (if str_le a b then (x, y) else (y, x)) n
        ≡ ok (y - rest_of x y n, swapped)
    oriented = elim (Bool-cases (str_le a b)) [
      | inl o ↦ rw o swap_reserves_exact
      | inr o ↦ rw o swap_reserves_exact_flipped
    ]

    pub swap_writes :
        reserves amm a b ≡ some (x, y)
        → verify_swap amm (a, b) n m ≡ (ok out, amm')
        → (amm'.pairs ≡ insert (unordered a b) swapped amm.pairs)
          × (out_of_range m (y - rest_of x y n) ≡ false)
    unfolding verify_swap
    swap_writes r e = ground (arith, lookup_of_reserves r, oriented)

    -- A swap that is accepted leaves x + n of the first token and x * y / (x + n) of the second,
    -- rounded down, and changes no other pair; it pays out no more than leaves the second reserve,
    -- and all but two percent of it. The product of the reserves does not grow, and falls by less
    -- than the new first reserve.
    pub swap_exact :
        reserves amm a b ≡ some (x, y)
        → verify_swap amm (a, b) n m ≡ (ok out, amm')
        → (reserves amm' a b ≡ some (x + n, rest_of x y n))
          × ((x + n) * rest_of x y n ≤ x * y)
          × (x * y < (x + n) * rest_of x y n + (x + n))
          × (m ≤ y - rest_of x y n)
          × (98 * (y - rest_of x y n) ≤ 100 * m + 99)
          × ((p : String × String)
              → pair_key.beq (unordered a b) p ≡ false
              → lookup p amm'.pairs ≡ lookup p amm.pairs)
    swap_exact r e =
        let (writes, range) = swap_writes r e in
        let (most, least) = in_range m (y - rest_of x y n) (omega arith) range in
        (
          reserves_of_pairs amm' a b (x + n) (rest_of x y n)
              (rw writes (lookup-insert_self (unordered a b) swapped amm.pairs)),
          product_bounds.0,
          product_bounds.1,
          most,
          least,
          λ p d. rw (writes, lookup-insert (unordered a b) p swapped amm.pairs, d) refl,
        )
