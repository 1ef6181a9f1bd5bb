-- ===== src/Consensus/Stable/Handlers.antt =====
-- Every message and command keeps a stable property: `handle_net_message` and `handle_command` of
-- src/consensus.rs.
use hyle.Prelude.{ℕ, Option}
use hyle.Prelude.Exec.{
  Keeps, Keeps-modify, Keeps-pure, Keeps-bail, Keeps-reading, Keeps-if, Keeps-option,
}
use hyle.Model.{ValidatorPublicKey}
use hyle.Contracts.Staking.{get_stake}
use hyle.Proposals.{Cut, SignedByValidator, ValidatorCandidacy}
use hyle.Consensus.Messages.{
  ConsensusNetMessage, prepare, prepare_vote, confirm, confirm_ack, commit, timeout,
  timeout_certificate, validator_candidacy, sync_request, sync_reply,
}
use hyle.Consensus.{Env, Consensus}
use hyle.Consensus.Handler.{
  ConsensusCommand, timeout_tick, starts_new_slot, on_validator_candidacy, handle_net_message,
  handle_command,
}
use hyle.Consensus.Stable.{Stable}
use hyle.Consensus.Stable.Timeouts.{
  on_timeout-Keeps, on_timeout_certificate-Keeps, on_timeout_tick-Keeps,
}
use hyle.Consensus.Stable.Followers.{
  on_prepare-Keeps, on_confirm-Keeps, on_commit-Keeps, on_sync_request-Keeps,
}
use hyle.Consensus.Stable.Leaders.{start_round-Keeps, on_prepare_vote-Keeps, on_confirm_ack-Keeps}

module _ {env : Env} {P : Consensus → Type 0} (st : Stable env P) where
  on_validator_candidacy-Keeps :
      (candidacy : SignedByValidator ValidatorCandidacy)
      → Keeps P (on_validator_candidacy candidacy)
  unfolding on_validator_candidacy
  on_validator_candidacy-Keeps candidacy = Keeps-reading λ s. Keeps-if _ (Keeps-pure tt) (
      Keeps-option (get_stake s.staking candidacy.validator) (Keeps-bail _)
        (λ staked. Keeps-if _ (Keeps-bail _) (Keeps-modify _ (λ t p. st.candidates t _ p))))

  pub handle_net_message-Keeps :
      (fuel : ℕ) (sender : ValidatorPublicKey) (message : ConsensusNetMessage)
      → Keeps P (handle_net_message env fuel sender message)
  unfolding handle_net_message
  handle_net_message-Keeps fuel sender (prepare cp ticket view) =
      on_prepare-Keeps st fuel (sender, cp, ticket, view)
  handle_net_message-Keeps fuel sender (prepare_vote vote) = on_prepare_vote-Keeps st vote
  handle_net_message-Keeps fuel sender (confirm qc hash) = on_confirm-Keeps st qc hash
  handle_net_message-Keeps fuel sender (confirm_ack ack) = on_confirm_ack-Keeps st ack
  handle_net_message-Keeps fuel sender (commit qc hash) = on_commit-Keeps st qc hash
  handle_net_message-Keeps fuel sender (timeout signed kind) = on_timeout-Keeps st signed kind
  handle_net_message-Keeps fuel sender (timeout_certificate qc kind slot view) =
      on_timeout_certificate-Keeps st qc kind slot view
  handle_net_message-Keeps fuel sender (validator_candidacy candidacy) =
      on_validator_candidacy-Keeps candidacy
  handle_net_message-Keeps fuel sender (sync_request hash) = on_sync_request-Keeps st sender hash
  handle_net_message-Keeps fuel sender (sync_reply message) = on_prepare-Keeps st fuel message

  pub handle_command-Keeps :
      (cut : Option Cut) (command : ConsensusCommand) → Keeps P (handle_command env cut command)
  unfolding handle_command
  handle_command-Keeps cut timeout_tick = on_timeout_tick-Keeps st
  handle_command-Keeps cut (starts_new_slot may_delay) = start_round-Keeps st may_delay cut
