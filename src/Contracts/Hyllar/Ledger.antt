-- ===== src/Contracts/Hyllar/Ledger.antt =====
-- A transfer on the token's ledger: who has how much afterwards, and what becomes of the supply.
use hyle.Prelude.{◌≡◌, ℕ, String, ap, arith, if◌then◌else◌, ◌+◌, ◌-◌, ◌<◌, ◌≤◌}
use hyle.Prelude.Key.{string_key, pair_key, ◌==◌, key_eq, key_refl}
use hyle.Prelude.Word.{u128_mod, add_u128_exact, sub_u128_exact}
use hyle.Prelude.Map.{Map, get_or, insert, total, total-insert, lookup-le-total, lookup-insert}
use hyle.Contracts.Hyllar.{Hyllar, debit, credit}

-- No sum of balances wraps.
abbrev pub IsFunded : Hyllar → Type 0
IsFunded h = (total h.balances ≡ h.total_supply) × (h.total_supply < u128_mod)

-- What an account has, nothing where it is not known.
abbrev pub funds : Hyllar → String → ℕ
funds h account = get_or account h.balances 0

module _ (balances : Map String ℕ) (fits : total balances < u128_mod) (from to' : String)
    (amount : ℕ) (enough : amount ≤ get_or from balances 0) where
  debit_exact : debit from amount balances ≡ insert from (get_or from balances 0 - amount) balances
  unfolding debit
  debit_exact =
      ap (λ n. insert from n balances)
        (sub_u128_exact (get_or from balances 0) amount enough
          (omega (arith, lookup-le-total from balances)))

  pub total-debit : total (debit from amount balances) + amount ≡ total balances
  total-debit =
      rw (debit_exact) (omega (arith, total-insert from (get_or from balances 0 - amount) balances))

  received-fits : get_or to' (debit from amount balances) 0 + amount < u128_mod
  received-fits = omega (arith, total-debit, lookup-le-total to' (debit from amount balances))

  credit_exact :
      credit to' amount (debit from amount balances)
      ≡ insert to' (get_or to' (debit from amount balances) 0 + amount) (debit from amount balances)
  unfolding credit
  credit_exact =
      ap (λ n. insert to' n (debit from amount balances))
        (add_u128_exact (get_or to' (debit from amount balances) 0) amount received-fits)

  pub total-move : total (credit to' amount (debit from amount balances)) ≡ total balances
  total-move = rw (credit_exact) (
      omega (
        arith,
        total-debit,
        total-insert to' (get_or to' (debit from amount balances) 0 + amount)
            (debit from amount balances),
      ))

  pub lookup-move :
      (x : String)
      → get_or x (credit to' amount (debit from amount balances)) 0
          + (if from == x then amount else 0)
        ≡ get_or x balances 0 + (if to' == x then amount else 0)
  lookup-move x =
      rw
        (
          credit_exact,
          lookup-insert to' x (get_or to' (debit from amount balances) 0 + amount)
              (debit from amount balances),
          debit_exact,
          lookup-insert from x (get_or from balances 0 - amount) balances,
          lookup-insert from to' (get_or from balances 0 - amount) balances,
        )
        (ground (arith, key_eq from x, key_eq to' x, key_eq from to', key_refl x))
