-- ===== src/Contracts/Hyllar/Transfer.antt =====
-- What a transfer does on each branch.
use hyle.Prelude.{◌≡◌, refl, ◌∙◌, ℕ, String, ok, arith, if◌then◌else◌, ◌+◌, ◌-◌, ◌<◌, ◌≤◌, ◌&&◌}
use hyle.Prelude.Word.{u128_mod}
use hyle.Prelude.Key.{string_key, pair_key, ◌==◌, key_eq}
use hyle.Prelude.Map.{Map, insert, total, lookup-insert}
use hyle.Contracts.Hyllar.{Hyllar, balance_of, allowance, debit, credit, transfer, transfer_from}
use hyle.Contracts.Hyllar.Ledger.{IsFunded, funds, total-move, lookup-move}

-- The amount leaves one account and reaches the other, which may be the same, and no other account
-- sees it.
abbrev pub Moves : Hyllar → Hyllar → String → String → ℕ → Type 0
Moves h h' from to' amount =
    (x : String)
    → funds h' x + (if from == x then amount else 0) ≡ funds h x + (if to' == x then amount else 0)

abbrev moved : Hyllar → String → String → ℕ → Map String ℕ
moved h from to' amount = credit to' amount (debit from amount h.balances)

transfer_ok :
    (h h' : Hyllar) (sender recipient : String) (amount : ℕ)
    → transfer h sender recipient amount ≡ (ok tt, h')
    → (amount ≤ funds h sender) × (h' ≡ record h { balances = moved h sender recipient amount })
unfolding transfer balance_of
transfer_ok h h' sender recipient amount e = ground arith

transfer_from_ok :
    (h h' : Hyllar) (owner spender recipient : String) (amount : ℕ)
    → transfer_from h owner spender recipient amount ≡ (ok tt, h')
    → (amount ≤ funds h owner)
      × (amount ≤ allowance h owner spender)
      × (h' ≡ record h {
        balances = moved h owner recipient amount;
        allowances = insert (owner, spender) (allowance h owner spender - amount) h.allowances;
      })
unfolding transfer_from balance_of
transfer_from_ok h h' owner spender recipient amount e = ground arith

module _ (h h' : Hyllar) (funded : IsFunded h) where
  fits : total h.balances < u128_mod
  fits = omega (arith, funded.0, funded.1)

  -- Where the balances sum to the supply, a transfer that succeeds was covered, moves the amount from
  -- the sender to the recipient, and keeps the sum, the supply and every allowance.
  pub transfer-Moves :
      (sender recipient : String) (amount : ℕ)
      → transfer h sender recipient amount ≡ (ok tt, h')
      → (amount ≤ funds h sender)
        × Moves h h' sender recipient amount
        × IsFunded h'
        × (h'.total_supply ≡ h.total_supply)
        × (h'.allowances ≡ h.allowances)
  transfer-Moves sender recipient amount e =
      let (enough, same) = transfer_ok h h' sender recipient amount e in
      rw same (
        enough,
        lookup-move h.balances fits sender recipient amount enough,
        (total-move h.balances fits sender recipient amount enough ∙ funded.0, funded.1),
        refl,
        refl,
      )

  -- A transfer on behalf of the owner also takes the amount from the spender's allowance, which
  -- covered it, and changes no other allowance.
  pub transfer_from-Moves :
      (owner spender recipient : String) (amount : ℕ)
      → transfer_from h owner spender recipient amount ≡ (ok tt, h')
      → (amount ≤ funds h owner)
        × (amount ≤ allowance h owner spender)
        × Moves h h' owner recipient amount
        × IsFunded h'
        × (h'.total_supply ≡ h.total_supply)
        × ((o s : String)
            → allowance h' o s + (if owner == o && spender == s then amount else 0)
              ≡ allowance h o s)
  unfolding allowance
  transfer_from-Moves owner spender recipient amount e =
      let (enough, allowed, same) = transfer_from_ok h h' owner spender recipient amount e in
      rw same (
        enough,
        allowed,
        lookup-move h.balances fits owner recipient amount enough,
        (total-move h.balances fits owner recipient amount enough ∙ funded.0, funded.1),
        refl,
        λ o s. ground (
          arith,
          lookup-insert (owner, spender) (o, s) (allowance h owner spender - amount) h.allowances,
          key_eq owner o,
          key_eq spender s,
        ),
      )
