-- ===== src/Core/Amount.antt =====
-- packages/core/src/amount.ts: the supply, and what an issuance burns.
pub mod Raw
pub mod RoundTrip
use kei_transaction.Common.Tests.{ℕ, ◌+◌, ◌*◌, ◌^◌}

abbrev pub kei_decimals : ℕ
kei_decimals = 18

-- One Kei in raw units, `10n ** BigInt(KEI_DECIMALS)`.
abbrev pub kei_unit : ℕ
kei_unit = 10 ^ kei_decimals

abbrev pub kei_total_supply : ℕ
kei_total_supply = 1_000_000_000_000 * kei_unit

-- `issuedAlready` is a count of the ledger, so the check that it is a whole number is left out.
unfoldable pub issuance_burn : ℕ → ℕ
issuance_burn issued_already = (issued_already + 1) * kei_unit
