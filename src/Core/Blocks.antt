-- ===== src/Core/Blocks.antt =====
-- packages/core/src/blocks.ts: the shapes of blocks, work tiers and symbols.
use kei_transaction.Common.Tests.{
  ℕ, Bool, true, false, ◌&&◌, ◌||◌, not, Option, List, [], ◌∷◌, leb, eqb,
}
use kei_transaction.Common.Lists.{length, all, replicate}
use kei_transaction.Js.Text.{Text, upper, trim}
use kei_transaction.Js.Number.{Number}
use kei_transaction.Core.Errors.{Result, ok, bad_symbol, fail_if, ◌>>◌}

-- `'0'.repeat(64)`. Shut, so that no proof walks its digits.
unfoldable pub zero_hash : Text
zero_hash = replicate 64 b'0'

-- Kei itself is asset 0.
abbrev pub kei_asset : Text
kei_asset = zero_hash

-- 'open', 'issuer-only' and 'none'.
pub data TransferPolicy : Type 0 where
  anyone issuer_only soulbound : TransferPolicy

-- 'two-way', 'one-way' and 'off'.
pub data SwapPolicy : Type 0 where
  two_way one_way off : SwapPolicy

pub data AssetKind : Type 0 where
  token item : AssetKind

pub record AssetMetadata : Type 0 where
  pub description : Option Text
  pub image : Option Text
  pub kind : Option AssetKind

-- The two policies arrive as texts, which the ledger checks against its lists. An absent `metadata`
-- is one with no field.
pub record IssueOp : Type 0 where
  pub name : Text
  pub symbol : Text
  pub decimals : Number
  pub max_supply : Option Text
  pub transfer : Text
  pub swap : Text
  pub metadata : AssetMetadata

pub record MintOp : Type 0 where
  pub asset : Text
  pub to : Text
  pub amount : Text

pub record BurnOp : Type 0 where
  pub asset : Text
  pub amount : Text

pub record TransferOp : Type 0 where
  pub asset : Text
  pub to : Text
  pub amount : Text
  pub memo : Option Text

pub record AssetReceiveOp : Type 0 where
  pub link : Text

pub record CommitOp : Type 0 where
  pub root : Text
  pub asset : Text
  pub count : Number
  pub total : Text

pub record CommitCloseOp : Type 0 where
  pub root : Text

pub record ClaimOp : Type 0 where
  pub root : Text
  pub asset : Text
  pub amount : Text
  pub proof : List Text

pub record SwapOfferOp : Type 0 where
  pub asset : Text
  pub amount : Text
  pub want_asset : Text
  pub want_amount : Text
  pub counterparty : Option Text
  pub expires_at : Option Number

pub record SwapAcceptOp : Type 0 where
  pub offer : Text
  pub asset : Text
  pub amount : Text

pub record SwapCancelOp : Type 0 where
  pub offer : Text

pub data AssetOp : Type 0 where
  issue : IssueOp → AssetOp
  mint : MintOp → AssetOp
  burn : BurnOp → AssetOp
  transfer : TransferOp → AssetOp
  asset_receive : AssetReceiveOp → AssetOp
  commit : CommitOp → AssetOp
  commit_close : CommitCloseOp → AssetOp
  claim : ClaimOp → AssetOp
  swap_offer : SwapOfferOp → AssetOp
  swap_accept : SwapAcceptOp → AssetOp
  swap_cancel : SwapCancelOp → AssetOp

-- `open_chain` is the subtype 'open'. A block arrives as a value whose text nothing has checked, so a
-- subtype may also be any other text.
pub data StateSubtype : Type 0 where
  open_chain send receive change : StateSubtype
  other_subtype : Text → StateSubtype

-- A subtype of the declared type.
abbrev pub is_declared : StateSubtype → Bool
is_declared open_chain = true
is_declared send = true
is_declared receive = true
is_declared change = true
is_declared (other_subtype s) = false

pub record StateBlockBody : Type 0 where
  pub subtype : StateSubtype
  pub account : Text
  pub previous : Text
  pub representative : Text
  pub balance : Text
  pub link : Text
  pub memo : Option Text

pub record AssetBlockBody : Type 0 where
  pub account : Text
  pub previous : Text
  pub representative : Text
  pub balance : Text
  pub op : AssetOp

pub data BlockBody : Type 0 where
  state : StateBlockBody → BlockBody
  asset : AssetBlockBody → BlockBody

abbrev pub has_declared_subtype : BlockBody → Bool
has_declared_subtype (state b) = is_declared b.subtype
has_declared_subtype (asset b) = true

-- The fields that both kinds of body have.
abbrev pub account_of : BlockBody → Text
account_of (state b) = b.account
account_of (asset b) = b.account

abbrev pub previous_of : BlockBody → Text
previous_of (state b) = b.previous
previous_of (asset b) = b.previous

abbrev pub representative_of : BlockBody → Text
representative_of (state b) = b.representative
representative_of (asset b) = b.representative

abbrev pub balance_of : BlockBody → Text
balance_of (state b) = b.balance
balance_of (asset b) = b.balance

pub record Block : Type 0 where
  pub body : BlockBody
  pub work : Text
  pub signature : Text

pub data WorkTier : Type 0 where
  tier_a tier_b tier_c : WorkTier

unfoldable pub tier_for_subtype : StateSubtype → WorkTier
tier_for_subtype send = tier_b
tier_for_subtype change = tier_b
tier_for_subtype _ = tier_c

unfoldable pub tier_for_op : AssetOp → WorkTier
tier_for_op (issue _) = tier_a
tier_for_op (mint _) = tier_a
tier_for_op (commit _) = tier_a
tier_for_op (commit_close _) = tier_a
tier_for_op (transfer _) = tier_b
tier_for_op (swap_offer _) = tier_b
tier_for_op (swap_accept _) = tier_b
tier_for_op (swap_cancel _) = tier_b
tier_for_op (burn _) = tier_c
tier_for_op (claim _) = tier_c
tier_for_op (asset_receive _) = tier_c

unfoldable pub tier_for : BlockBody → WorkTier
unfolding tier_for_subtype tier_for_op
tier_for (state b) = tier_for_subtype b.subtype
tier_for (asset b) = tier_for_op b.op

-- [A-Z0-9]
unfoldable pub is_symbol_start : ℕ → Bool
is_symbol_start c = (leb b'A' c && leb c b'Z') || (leb b'0' c && leb c b'9')

-- `SYMBOL_PATTERN`: one such character, then at most 19 of [A-Z0-9-].
unfoldable pub is_symbol : Text → Bool
unfolding is_symbol_start
is_symbol [] = false
is_symbol (c ∷ s) =
    is_symbol_start c && all (λ d. is_symbol_start d || eqb d b'-') s && leb (length s) 19

unfoldable pub normalize_symbol : Text → Result Text
unfolding is_symbol
normalize_symbol symbol =
    let normal = upper (trim symbol) in do fail_if (not (is_symbol normal)) bad_symbol; ok normal
