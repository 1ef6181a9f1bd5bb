-- ===== src/NodeState/Timeouts/Laws.antt =====
-- When a transaction times out, and which window it is given.
use hyle.Prelude.{
  ◌+◌, ◌%◌, ◌<◌, ◌≤◌, ◌≡◌, refl, subst, ◌⊎◌, inl, inr, true, false, none, some, List, [], ◌∷◌, ◌++◌,
  if◌then◌else◌, arith, Option-cases, Bool-cases,
}
use hyle.Prelude.Key.{◌==◌, string_key, nat_key, key_refl, key_eq}
use hyle.Prelude.Word.{u64_mod}
use hyle.Prelude.Map.{Map, lookup, lookup-insert, lookup-remove, get_or}
use hyle.Model.{
  Blob, BlockHeight, Contract, ContractName, TimeoutWindow, no_timeout, timeout, TxHash,
}
use hyle.NodeState.Timeouts.{
  Timeouts, drop_at, set_timeout, known_windows, min_window, window_fork_height, window_le,
  get_tx_timeout_window,
}

-- After a timeout is set, the drop at a height returns what it returned before, and at the height
-- of the new timeout that transaction last; a second drop there returns nothing.
pub drop_at-set_timeout :
    (t : Timeouts) (tx : TxHash) (height window at : BlockHeight)
    → height + window < u64_mod
    → ((drop_at (set_timeout t tx height window) at).1
        ≡ (if (height + window) == at then (drop_at t at).1 ++ tx ∷ [] else (drop_at t at).1))
      × ((drop_at (drop_at (set_timeout t tx height window) at).0 at).1 ≡ [])
unfolding drop_at set_timeout
drop_at-set_timeout t tx height window at h =
    let m = (height + window) % u64_mod in
    (
      ground (
        arith,
        lookup-insert m at (get_or m t.by_block [] ++ tx ∷ []) t.by_block,
        key_eq (height + window) at,
        key_refl at,
      ),
      ground (arith, lookup-remove at at (set_timeout t tx height window).by_block, key_refl at),
    )

-- `v` is one of the windows, and none of them is shorter.
abbrev pub AllAbove : TimeoutWindow → List TimeoutWindow → Type 0
AllAbove v [] = Unit {0}
AllAbove v (w ∷ ws) = (window_le v w ≡ true) × AllAbove v ws

abbrev pub OneOf : TimeoutWindow → List TimeoutWindow → Type 0
OneOf v [] = ⊥
OneOf v (w ∷ ws) = (w ≡ v) ⊎ OneOf v ws

window_le_trans :
    (a b c : TimeoutWindow) → window_le a b ≡ true → window_le b c ≡ true → window_le a c ≡ true
window_le_trans a b c h k = ground arith

AllAbove-mono :
    (a b : TimeoutWindow) (ws : List TimeoutWindow)
    → window_le a b ≡ true
    → AllAbove b ws
    → AllAbove a ws
AllAbove-mono a b [] h k = tt
AllAbove-mono a b (w ∷ ws) h k = (window_le_trans a b w h k.0, AllAbove-mono a b ws h k.1)

window_le_total : (a b : TimeoutWindow) → window_le a b ≡ false → window_le b a ≡ true
window_le_total a b h = ground arith

window_le_refl : (a : TimeoutWindow) → window_le a a ≡ true
window_le_refl a = ground arith

min_window-none : (ws : List TimeoutWindow) → min_window ws ≡ none → ws ≡ []
unfolding min_window
min_window-none [] e = refl
min_window-none (w ∷ ws) e = ground arith

min_window-cons :
    (w x : TimeoutWindow) (ws : List TimeoutWindow)
    → min_window ws ≡ some x
    → min_window (w ∷ ws) ≡ (if window_le w x then some w else some x)
unfolding min_window
min_window-cons w x ws e = ground arith

min_window-Least :
    (ws : List TimeoutWindow) (v : TimeoutWindow)
    → min_window ws ≡ some v
    → AllAbove v ws × OneOf v ws
min_window-Least [] v e = (tt, unfold min_window in ground arith)
min_window-Least (w ∷ []) v e =
    unfold min_window in (((ground (arith, window_le_refl w)), tt), inl (ground arith))
min_window-Least (w ∷ u ∷ ws) v e = elim (Option-cases (min_window (u ∷ ws))) [
  | inl n ↦ absurd (ground (arith, min_window-none (u ∷ ws) n))
  | inr (x, n) ↦
      (let ih = min_window-Least (u ∷ ws) x n in
        elim (Bool-cases (window_le w x)) [
          | inl le ↦
              (let same : w ≡ v = ground (arith, min_window-cons w x (u ∷ ws) n) in
                subst (λ y. AllAbove y (w ∷ u ∷ ws) × OneOf y (w ∷ u ∷ ws)) same
                  ((window_le_refl w, AllAbove-mono w x (u ∷ ws) le ih.0), inl refl))
          | inr gt ↦
              (let same : x ≡ v = ground (arith, min_window-cons w x (u ∷ ws) n) in
                subst (λ y. AllAbove y (w ∷ u ∷ ws) × OneOf y (w ∷ u ∷ ws)) same
                  ((window_le_total w x gt, ih.0), inr ih.1))
        ])
]

-- Above the fork height the window of a transaction is the shortest of its known contracts'
-- windows: one of them, and no longer than any; with no known contract there is no timeout.
pub timeout_window-Least :
    (height : BlockHeight) (contracts : Map ContractName Contract) (blobs : List Blob)
    → window_fork_height < height
    → let w = get_tx_timeout_window height contracts blobs in
      let ws = known_windows contracts blobs in
      ((ws ≡ []) × (w ≡ no_timeout)) ⊎ (AllAbove w ws × OneOf w ws)
unfolding get_tx_timeout_window
timeout_window-Least height contracts blobs h =
    let ws = known_windows contracts blobs in
    elim (Option-cases (min_window ws)) [
      | inl n ↦ inl (min_window-none ws n, ground arith)
      | inr (v, n) ↦
          (let same : v ≡ get_tx_timeout_window height contracts blobs = ground arith in
            inr (subst (λ y. AllAbove y ws × OneOf y ws) same (min_window-Least ws v n)))
    ]

-- Up to the fork height a contract without timeout that comes last takes the timeout away.
pub timeout_window_legacy_last :
    (height t : BlockHeight) (contracts : Map ContractName Contract) (a b : Blob) (c d : Contract)
    → height ≤ window_fork_height
    → lookup a.contract_name contracts ≡ some c
    → lookup b.contract_name contracts ≡ some d
    → c.timeout_window ≡ timeout t
    → d.timeout_window ≡ no_timeout
    → (get_tx_timeout_window height contracts (a ∷ b ∷ []) ≡ no_timeout)
      × (get_tx_timeout_window height contracts (b ∷ a ∷ []) ≡ timeout t)
unfolding get_tx_timeout_window
timeout_window_legacy_last height t contracts a b c d h p q e f = (ground arith, ground arith)
