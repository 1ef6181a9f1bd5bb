-- ===== src/Consensus/HighestQc.antt =====
-- The certificate of a prepare that a node reports when a view times out.
use hyle.Prelude.{◌≡◌, ◌∙◌, ◌≤◌, some, ltb, Bool-cases, inl, inr, arith}
use hyle.Prelude.Exec.{Keeps, Keeps-bind, Keeps-modify}
use hyle.NodeState.Block.{Block}
use hyle.Proposals.{Slot, ConsensusProposalHash}
use hyle.Consensus.Messages.{PrepareQc}
use hyle.Consensus.{Env, Consensus, TimeoutRoleState}
use hyle.Consensus.Timeout.{update_highest_seen_prepare_qc}
use hyle.Consensus.Handler.{handle_node_state_event, catch_up}
use hyle.Consensus.Runs.{Reaches, here, by_message, by_command, by_block}
use hyle.Consensus.Stable.{Stable}
use hyle.Consensus.Stable.Rounds.{run_staking-Keeps}
use hyle.Consensus.Stable.Handlers.{handle_net_message-Keeps, handle_command-Keeps}

-- A certificate of this slot or a later one is kept.
abbrev pub Holds : Slot → TimeoutRoleState → Type 0
Holds slot t =
    (seen : Slot) × (qc : PrepareQc) × (t.highest_seen_prepare_qc ≡ some (seen, qc)) × (slot ≤ seen)

abbrev pub HoldsQc : Slot → Consensus → Type 0
HoldsQc slot s = Holds slot s.timeouts

update-Holds :
    (slot : Slot) (t : TimeoutRoleState) (new : Slot) (qc : PrepareQc)
    → Holds slot t
    → Holds slot (update_highest_seen_prepare_qc t new qc).0
unfolding update_highest_seen_prepare_qc
update-Holds slot t new qc (seen, old, e, h) = elim (Bool-cases (ltb new seen)) [
  | inl lower ↦ (seen, old, ground arith, h)
  | inr higher ↦ (new, qc, ground arith, ground arith)
]

module _ (env : Env) (slot : Slot) where
  HoldsQc-Stable : Stable env (HoldsQc slot)
  HoldsQc-Stable = record {
    sends = λ s o h p. p;
    tags = λ s t p. p;
    leads = λ s l p. p;
    follows = λ s f p. p;
    requests = λ s rs p. p;
    schedules = λ s t p. p;
    sees = λ s new qc p. update-Holds slot s.timeouts new qc p;
    candidates = λ s vs p. p;
    proposals = λ s cp p. p;
    stakes = λ s st p. p;
    views = λ s p. p;
    slots = λ s p. p;
    joins = λ s h p. p;
    commits = λ s qc e p. p;
    forces = λ s e p. p;
  }

  seen-catch_up :
      (block : Block) (hash : ConsensusProposalHash) (s : Consensus)
      → (catch_up env block hash s).timeouts.highest_seen_prepare_qc
        ≡ s.timeouts.highest_seen_prepare_qc
  unfolding catch_up
  seen-catch_up block hash s = ground arith

  handle_node_state_event-HoldsQc :
      (block : Block) (hash : ConsensusProposalHash) (bonded : _)
      → Keeps (HoldsQc slot) (handle_node_state_event env block hash bonded)
  unfolding handle_node_state_event
  handle_node_state_event-HoldsQc block hash bonded =
      Keeps-bind (run_staking-Keeps HoldsQc-Stable _)
        (λ _. Keeps-modify _ (λ s (seen, qc, e, h). (seen, qc, seen-catch_up block hash s ∙ e, h)))

module _ (env : Env) (start : Consensus) (slot : Slot) where
  -- A node that has a certificate of a prepare keeps it until it has one of the same slot or a later
  -- one, whatever it handles.
  pub Reaches-HoldsQc : HoldsQc slot start → {s : Consensus} → Reaches env start s → HoldsQc slot s
  Reaches-HoldsQc h here = h
  Reaches-HoldsQc h (by_message now choose fuel sender message r) =
      (handle_net_message-Keeps (HoldsQc-Stable (record env { now = now; choose = choose }) slot)
          fuel sender message).at
        _ (Reaches-HoldsQc h r)
  Reaches-HoldsQc h (by_command now cut command r) =
      (handle_command-Keeps (HoldsQc-Stable (record env { now = now }) slot) cut command).at _
        (Reaches-HoldsQc h r)
  Reaches-HoldsQc h (by_block block hash bonded r) =
      (handle_node_state_event-HoldsQc env slot block hash bonded).at _ (Reaches-HoldsQc h r)
