-- ===== src/NodeState/Settle/Complete.antt =====
-- The search finds a verdict whenever the rules allow a settlement, and settles as failed only
-- where a failure is proven.
use hyle.Prelude.{
  ℕ, ◌+◌, ◌≡◌, ◌≢◌, refl, subst, sym, ◌∙◌, inl, inr, true, List, [], ◌∷◌, ◌++◌, ok, arith,
  Bool-cases, Result-cases,
}
use hyle.Prelude.Key.{string_key}
use hyle.Model.{Codec, HyleOutput, ProgramId, UnsettledBlobMetadata}
use hyle.NodeState.Changes.{Contracts, ContractChanges}
use hyle.NodeState.Proof.{process_proof}
use hyle.NodeState.Settle.{
  SettlementResult, SettleEvent, not_ready, failed, settled, Continue, Outcome, or_else, try_proofs,
  settle_hyle, settle_blobs,
}
use hyle.NodeState.Settle.Relation.{
  At, at_head, at_tail, Settles, settled_all, by_node, by_proof, Fails,
}

or_else-first :
    (o : Outcome) (next : List SettleEvent → Outcome)
    → o.1 ≢ not_ready
    → (or_else o next).1 ≢ not_ready
or_else-first (events, not_ready) next h = absurd (h refl)
or_else-first (events, failed) next h = h
or_else-first (events, settled x) next h = h

or_else-second :
    (o : Outcome) (next : List SettleEvent → Outcome)
    → ((events : List SettleEvent) → (next events).1 ≢ not_ready)
    → (or_else o next).1 ≢ not_ready
or_else-second (events, not_ready) next h = h events
or_else-second (events, failed) next h = λ e. cc
or_else-second (events, settled x) next h = λ e. cc

module _ (codec : Codec) (contracts : Contracts) where
  try_proofs-ready :
      (continue : Continue) (changes changes' : ContractChanges) (indices : List ℕ)
      (blob : UnsettledBlobMetadata) (proof : ProgramId × HyleOutput) (i j : ℕ)
      (proofs : List (ProgramId × HyleOutput)) (events : List SettleEvent)
      → process_proof codec contracts changes blob.blob.contract_name proof blob ≡ ok changes'
      → proof.1.success ≡ true
      → At proof j proofs
      → ((k : ℕ) (events' : List SettleEvent)
          → k ≡ i + j
          → (continue changes' (indices ++ k ∷ []) events').1 ≢ not_ready)
      → (try_proofs codec contracts continue changes indices blob i proofs events).1 ≢ not_ready
  unfolding try_proofs
  try_proofs-ready continue changes changes' indices blob proof i j _ events f won
        (at_head {as' = proofs}) h =
      rw (f, won, try_proofs)
        (or_else-first (continue changes' (indices ++ i ∷ []) events)
          (try_proofs codec contracts continue changes indices blob (i + 1) proofs)
          (h i events (omega arith)))
  try_proofs-ready continue changes changes' indices blob proof i _ _ events f won
        (at_tail {i = j} {b = p} {as' = proofs} at) h =
      let rest : (ev : List SettleEvent)
          → (try_proofs codec contracts continue changes indices blob (i + 1) proofs ev).1
            ≢ not_ready =
        λ ev.
          try_proofs-ready continue changes changes' indices blob proof (i + 1) j proofs ev f won at
            (λ k e' q. h k e' (omega arith)) in
      elim (Result-cases (process_proof codec contracts changes blob.blob.contract_name p blob)) [
        | inr (x, g) ↦ rw (g, try_proofs) (rest _)
        | inl (c, g) ↦ elim (Bool-cases p.1.success) [
          | inl w ↦ rw (g, w, try_proofs) (or_else-second _ _ rest)
          | inr l ↦ rw (g, l, try_proofs) (λ e. cc)
        ]
      ]

  -- Where the rules allow a settlement, the search does not leave the transaction pending.
  pub settle_blobs_ready :
      {blobs : List UnsettledBlobMetadata} {changes : ContractChanges} {indices : List ℕ}
      {r : SettlementResult} (events : List SettleEvent)
      → Settles codec contracts blobs changes indices r
      → (settle_blobs codec contracts blobs changes indices events).1 ≢ not_ready
  unfolding settle_blobs
  settle_blobs_ready events settled_all = λ e. cc
  settle_blobs_ready events (by_node {blob = b} n f s) =
      rw (n, settle_blobs, f, settle_hyle) (settle_blobs_ready events s)
  settle_blobs_ready events
        (by_proof {blob = b} {blobs} {changes = c} {changes' = c'} {indices = ix} {i = i}
          {proof = p} n at f won s) =
      rw (n, settle_blobs)
        (try_proofs-ready (settle_blobs codec contracts blobs) c c' ix b p 0 i b.possible_proofs
          events f won at
          (λ k ev q.
            subst (λ x. (settle_blobs codec contracts blobs c' (ix ++ x ∷ []) ev).1 ≢ not_ready)
              (sym (q ∙ omega arith)) (settle_blobs_ready ev s)))

  -- The proofs from the `i`-th on stand in the blob's list where the loop says.
  abbrev IsTail : UnsettledBlobMetadata → ℕ → List (ProgramId × HyleOutput) → Type 0
  IsTail blob i proofs =
      (p : ProgramId × HyleOutput) (j k : ℕ)
      → At p j proofs
      → k ≡ i + j
      → At p k blob.possible_proofs

  abbrev IsHonest : List UnsettledBlobMetadata → Continue → Type 0
  IsHonest blobs continue =
      (changes : ContractChanges) (indices : List ℕ) (events : List SettleEvent)
      → (continue changes indices events).1 ≡ failed
      → Fails codec contracts blobs changes
