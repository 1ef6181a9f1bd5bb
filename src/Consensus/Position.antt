-- ===== src/Consensus/Position.antt =====
-- How messages and commands move a node from one slot and view to another.
use hyle.Prelude.{◌≡◌, refl, ◌<◌, Option}
use hyle.Prelude.Word.{add_u64}
use hyle.Proposals.{Slot, View, Cut}
use hyle.Consensus.{Env, Consensus}
use hyle.Consensus.Handler.{ConsensusCommand, handle_command}
use hyle.Consensus.Stable.{Stable}
use hyle.Consensus.Stable.Handlers.{handle_command-Keeps}

-- One view later in the slot, at the next slot's first view, or at the first view of a later slot.
pub data After (slot : Slot) (view : View) : Slot → View → Type 0 where
  here : After slot view slot view
  next_view :
      {s : Slot} {v v' : View} → After slot view s v → v' ≡ add_u64 v 1 → After slot view s v'
  next_slot :
      {s s' : Slot} {v v' : View}
      → After slot view s v
      → s' ≡ add_u64 s 1
      → v' ≡ 0
      → After slot view s' v'
  later_slot :
      {s s' : Slot} {v v' : View} → After slot view s v → s < s' → v' ≡ 0 → After slot view s' v'

module _ (env : Env) (slot : Slot) (view : View) where
  abbrev IsAfter : Consensus → Type 0
  IsAfter s = After slot view s.slot s.view

  IsAfter-Stable : Stable env IsAfter
  IsAfter-Stable = record {
    sends = λ s o h p. p;
    tags = λ s t p. p;
    leads = λ s l p. p;
    follows = λ s f p. p;
    requests = λ s rs p. p;
    schedules = λ s t p. p;
    sees = λ s slot qc p. p;
    candidates = λ s vs p. p;
    proposals = λ s cp p. p;
    stakes = λ s st p. p;
    views = λ s p. next_view p refl;
    slots = λ s p. next_slot p refl refl;
    joins = λ s h p. later_slot p h refl;
    commits = λ s qc e p. p;
    forces = λ s e p. p;
  }

module _ (env : Env) (s : Consensus) where
  -- So does a command.
  pub handle_command-After :
      (cut : Option Cut) (command : ConsensusCommand)
      → After s.slot s.view
          (handle_command env cut command s).1.slot
          (handle_command env cut command s).1.view
  handle_command-After cut command =
      (handle_command-Keeps (IsAfter-Stable env s.slot s.view) cut command).at s here
