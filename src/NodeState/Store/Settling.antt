-- ===== src/NodeState/Store/Settling.antt =====
-- When an attempt to settle a transaction succeeds.
use hyle.Prelude.Key.{string_key, nat_key}
use hyle.NodeState.Block.{Block}
