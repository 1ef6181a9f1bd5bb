-- ===== src/NodeState/Tests.antt =====
-- Runs of the node state, and the theorems at inputs that meet their hypotheses.
mod Queues
mod Settling
mod Blocks
