-- ===== src/Core/Work.antt =====
-- packages/core/src/work.ts: what a node validates.
use mathlib.Core.List.{reverse}
use kei_transaction.Common.Tests.{
  ℕ, ◌+◌, ◌*◌, Bool, not, some, List, [], ◌∷◌, ◌++◌, leb, if◌then◌else◌,
}
use kei_transaction.Common.Eq.{◌==◌, text_eq}
use kei_transaction.Js.Text.{Text, upper}
use kei_transaction.Core.Errors.{Result, ok, bad_work, fail_if, ◌>>=◌, ◌>>◌}
use kei_transaction.Core.Hex.{is_hex, hex_to_bytes}
use kei_transaction.Core.Blocks.{BlockBody, account_of, previous_of, zero_hash}
use kei_transaction.Core.Crypto.{Crypto}
use kei_transaction.Core.Address.{public_key_from_address}

-- A little-endian number.
unfoldable pub little_endian : List ℕ → ℕ
little_endian [] = 0
little_endian (b ∷ bytes) = b + 256 * little_endian bytes

module _ ⦃c : Crypto⦄ where
  unfoldable pub work_root : BlockBody → Result Text
  work_root body =
      if previous_of body == zero_hash
      then public_key_from_address (account_of body)
      else ok (upper (previous_of body))

  unfoldable pub work_value : Text → Text → Result ℕ
  unfolding little_endian
  work_value root nonce = do
    fail_if (not (is_hex nonce (some 8))) bad_work
    nonce_bytes ← hex_to_bytes nonce
    root_bytes ← hex_to_bytes root
    ok (little_endian (c.blake2b (reverse nonce_bytes ++ root_bytes) 8))

  unfoldable pub meets_threshold : Text → Text → ℕ → Result Bool
  meets_threshold root nonce threshold = do value ← work_value root nonce; ok (leb threshold value)
