-- ===== src/Contracts/Amm/Quotes.antt =====
-- `get_paired_amount` beside the swap that it announces.
use hyle.Prelude.{◌≡◌, refl, ℕ, String, true, false, some, ok, arith}
use hyle.Prelude.Key.{string_key, pair_key, ◌==◌}
use hyle.Prelude.Texts.{str_le, str_le-total, str_le-antisym}
use hyle.Contracts.Amm.{
  Amm, swap_valid, swap_reserves, verify_swap, unordered, out_of_range, get_paired_amount,
}

quote_in_range : (q : ℕ) → out_of_range q q ≡ false
unfolding out_of_range
quote_in_range q = ground arith

module _ (amm : Amm) (a b : String) (n : ℕ) where
  -- For two different tokens that are named in their order, the amount that is quoted is one that
  -- the swap accepts.
  pub quote_is_accepted :
      (q : ℕ)
      → (a == b) ≡ false
      → str_le a b ≡ true
      → get_paired_amount amm a b n ≡ some (ok q)
      → (verify_swap amm (a, b) n q).0 ≡ ok (swap_valid n a q b)
  unfolding get_paired_amount verify_swap swap_reserves
  quote_is_accepted q d o e = ground (arith, quote_in_range q)

  unordered_comm : unordered a b ≡ unordered b a
  unfolding unordered
  unordered_comm = ground (arith, str_le-total a b, str_le-antisym a b)

  -- The quote does not depend on which token is named first.
  pub quote_ignores_order : get_paired_amount amm a b n ≡ get_paired_amount amm b a n
  unfolding get_paired_amount
  quote_ignores_order = rw (get_paired_amount, unordered_comm) refl
