-- ===== src/Contracts/Amm/Payments.antt =====
-- What the pair contract asks of the tokens.
use hyle.Contracts.Amm.{Amm}
