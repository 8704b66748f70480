-- ===== src/Claims/Headroom.antt =====
-- packages/claims/src/headroom.ts. The headroom is a bigint that may be negative; nothing fits in it then, so the comparison adds where
-- the source subtracts.
use kei_transaction.Common.Tests.{ℕ, ◌+◌, Option, none, some, not, leb, ◌≤◌, ◌≡◌, arith}
use kei_transaction.Core.Errors.{Result, ok, no_headroom, fail_if}

unfoldable pub assert_commit_headroom : Option ℕ → ℕ → ℕ → Result (Unit {0})
assert_commit_headroom none circulating committed = ok tt
assert_commit_headroom (some cap) circulating committed =
    fail_if (not (leb (committed + circulating) cap)) no_headroom

pub assert_commit_headroom-fits :
    (cap circulating committed : ℕ)
    → assert_commit_headroom (some cap) circulating committed ≡ ok tt
    → committed + circulating ≤ cap
unfolding assert_commit_headroom
assert_commit_headroom-fits cap circulating committed e = ground arith
