-- ===== src/Ledger/Guards/Decimal.antt =====
-- `parseRaw` of packages/core/src/mock/ledger.ts reads what `toString` of a bigint writes.
use kei_transaction.Common.Tests.{ℕ, ◌≡◌, refl}
use kei_transaction.Js.Number.{decimal_text}
use kei_transaction.Js.Number.Digits.{decimal_text-digits, decimal_text-read}
use kei_transaction.Core.Errors.{ok}
use kei_transaction.Ledger.Guards.{parse_raw}

-- A raw amount that is written as a decimal text is read back as itself.
pub parse_raw-decimal_text : (n : ℕ) → parse_raw (decimal_text n) ≡ ok n
unfolding parse_raw
parse_raw-decimal_text n = rw (decimal_text-digits n, decimal_text-read n) refl
