-- ===== src/Contracts/Hyllar/Reachable.antt =====
-- Sequences of actions on the token: what holds in every state that they reach.
use hyle.Prelude.{
  ◌≡◌, refl, sym, ap, subst, ◌∙◌, ℕ, String, Result, ok, err, arith, ◌+◌, ◌≤◌, false,
}
use hyle.Prelude.Key.{string_key, pair_key, ◌==◌, key_refl}
use hyle.Prelude.Map.{total, lookup-insert}
use hyle.Contracts.Hyllar.{
  Hyllar, HyllarAction, HyllarError, HyllarOutput, total_supply_of, balance_of_account, transfer_to,
  transfer_between, approve_spender, allowance_of, custom, allowance, transfer, transfer_from,
  approve, execute_token_action, outputs, total_supply_amount, balance_of, transferred,
  transferred_from, balance_is,
}
use hyle.Contracts.Hyllar.Ledger.{IsFunded, funds}
use hyle.Contracts.Hyllar.Transfer.{transfer-Moves, transfer_from-Moves}

-- The states that actions which succeed reach from the deployment, each from its caller.
pub data Reachable (faucet : String) : Hyllar → Type 0 where
  deployed : Reachable faucet (custom faucet)
  acts :
      (h h' : Hyllar) (action : HyllarAction) (caller : String) (out : HyllarOutput)
      → Reachable faucet h
      → execute_token_action h action caller ≡ (ok out, h')
      → Reachable faucet h'

ran {ℓ} :
    {A : Type ℓ} (r : Result HyllarError A × Hyllar) (f : A → HyllarOutput) (out : HyllarOutput)
    (h' : Hyllar)
    → outputs r f ≡ (ok out, h')
    → (a : A) × (r ≡ (ok a, h'))
ran (ok u, g) f out h' e = (u, ground arith)
ran (err x, g) f out h' e = absurd (ground arith)

-- What one action may change: the supply stays, and who is not the caller loses at most what the
-- caller's allowance on the account loses.
abbrev pub Permitted : Hyllar → Hyllar → String → Type 0
Permitted h h' caller =
    IsFunded h'
    × (h'.total_supply ≡ h.total_supply)
    × ((x : String)
        → (caller == x) ≡ false
        → funds h x + allowance h' x caller ≤ funds h' x + allowance h x caller)

unchanged : (h h' : Hyllar) (caller : String) → IsFunded h → h ≡ h' → Permitted h h' caller
unchanged h h' caller funded e =
    subst (λ g. Permitted h g caller) e (funded, refl, λ x d. omega arith)

module _ (h h' : Hyllar) (caller : String) (funded : IsFunded h) where
  transfer-Permitted :
      (recipient : String) (amount : ℕ)
      → transfer h caller recipient amount ≡ (ok tt, h')
      → Permitted h h' caller
  unfolding allowance
  transfer-Permitted recipient amount e =
      let (enough, moves, funded', supply, same) =
        transfer-Moves h h' funded caller recipient amount e in
      (funded', supply, λ x d. rw (same) (ground (arith, moves x)))

  transfer_from-Permitted :
      (owner recipient : String) (amount : ℕ)
      → transfer_from h owner caller recipient amount ≡ (ok tt, h')
      → Permitted h h' caller
  transfer_from-Permitted owner recipient amount e =
      let (enough, allowed, moves, funded', supply, spent) =
        transfer_from-Moves h h' funded owner caller recipient amount e in
      (funded', supply, λ x d. ground (arith, moves x, spent x caller, key_refl caller))

  approve-Permitted :
      (spender : String) (amount : ℕ) → approve h caller spender amount ≡ h' → Permitted h h' caller
  unfolding allowance approve
  approve-Permitted spender amount e = rw (sym e) (
    funded,
    refl,
    λ x d. ground (arith, lookup-insert (caller, spender) (x, caller) amount h.allowances),
  )

  -- Where the balances sum to the supply, they do so after every action that succeeds, and who is not
  -- the caller loses at most what the caller's allowance on the account loses.
  pub execute-Permitted :
      (action : HyllarAction) (out : HyllarOutput)
      → execute_token_action h action caller ≡ (ok out, h')
      → Permitted h h' caller
  unfolding execute_token_action
  execute-Permitted total_supply_of out e = unchanged h h' caller funded (ap (λ p. p.1) e)
  execute-Permitted (balance_of_account account) out e =
      unchanged h h' caller funded
        (ap (λ p. p.1) (ran (balance_of h account, h) (balance_is account) out h' e).1)
  execute-Permitted (transfer_to recipient amount) out e =
      transfer-Permitted recipient amount
        (ran (transfer h caller recipient amount) (λ _. transferred amount recipient) out h' e).1
  execute-Permitted (transfer_between owner recipient amount) out e =
      transfer_from-Permitted owner recipient amount
        (ran (transfer_from h owner caller recipient amount)
          (λ _. transferred_from amount owner recipient) out h' e).1
  execute-Permitted (approve_spender spender amount) out e =
      approve-Permitted spender amount (ap (λ p. p.1) e)
  execute-Permitted (allowance_of owner spender) out e =
      unchanged h h' caller funded (ap (λ p. p.1) e)

-- An action that fails leaves the state as it was.
pub execute_error_unchanged :
    (h h' : Hyllar) (caller : String) (action : HyllarAction) (x : HyllarError)
    → execute_token_action h action caller ≡ (err x, h')
    → h' ≡ h
unfolding execute_token_action transfer transfer_from balance_of
execute_error_unchanged h h' caller total_supply_of x e = sym (ap (λ p. p.1) e)
execute_error_unchanged h h' caller (balance_of_account account) x e = ground arith
execute_error_unchanged h h' caller (transfer_to recipient amount) x e = ground arith
execute_error_unchanged h h' caller (transfer_between owner recipient amount) x e = ground arith
execute_error_unchanged h h' caller (approve_spender spender amount) x e = absurd (ground arith)
execute_error_unchanged h h' caller (allowance_of owner spender) x e = sym (ap (λ p. p.1) e)

Reachable-IsFunded :
    (faucet : String) (h : Hyllar)
    → Reachable faucet h
    → IsFunded h × (h.total_supply ≡ total_supply_amount)
Reachable-IsFunded faucet h deployed = unfold custom total in ((refl, omega arith), refl)
Reachable-IsFunded faucet h (acts before _ action caller out r e) =
    let (funded, supply) = Reachable-IsFunded faucet before r in
    let (funded', same, spent) = execute-Permitted before h caller funded action out e in
    (funded', same ∙ supply)

-- In every state that the token reaches the balances sum to the supply that it was deployed with.
pub supply_conserved :
    (faucet : String) (h : Hyllar) → Reachable faucet h → total h.balances ≡ total_supply_amount
supply_conserved faucet h r =
    let (funded, supply) = Reachable-IsFunded faucet h r in funded.0 ∙ supply
