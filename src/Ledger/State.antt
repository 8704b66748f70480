-- ===== src/Ledger/State.antt =====
-- packages/core/src/mock/ledger.ts and node.ts: the ledger's records and its state. Raw amounts are
-- the `bigint`s that the ledger keeps; where it stores one as a decimal text (`Receivable.amount`)
-- the model keeps the number. A set is a list without repetition.
use kei_transaction.Common.Tests.{ℕ, Bool, Option, List}
use kei_transaction.Dict.{Dict}
use kei_transaction.Js.Text.{Text}
use kei_transaction.Js.Number.{Number}
use kei_transaction.Core.Blocks.{TransferPolicy, SwapPolicy, AssetKind, Block}

pub record LedgerAccount : Type 0 where
  pub address : Text
  pub public_key : Text
  pub frontier : Text
  pub height : ℕ
  pub balance : ℕ
  pub representative : Text

pub record AssetRecord : Type 0 where
  pub id : Text
  pub issuer : Text
  pub name : Text
  pub symbol : Text
  pub decimals : Number
  pub max_supply : Option ℕ
  pub transfer : TransferPolicy
  pub swap : SwapPolicy
  pub description : Option Text
  pub image : Option Text
  pub kind : Option AssetKind
  pub circulating : ℕ

pub record CommitRecord : Type 0 where
  pub root : Text
  pub issuer : Text
  pub asset : Text
  pub count : Number
  pub total : ℕ
  pub closed : Bool

pub record StoredReceivable : Type 0 where
  pub hash : Text
  pub from : Text
  pub to : Text
  pub asset : Text
  pub amount : ℕ
  pub memo : Option Text

-- 'open', 'accepted' and 'cancelled'.
pub data SwapState : Type 0 where
  pending accepted cancelled : SwapState

pub record LockRecord : Type 0 where
  pub offer : Text
  pub owner : Text
  pub asset : Text
  pub amount : ℕ
  pub want_asset : Text
  pub want_amount : ℕ
  pub counterparty : Option Text
  pub expires_at : Option Number
  pub state : SwapState
  pub settled_by : Option Text
  pub accepted_by : Option Text
  pub height : ℕ
  pub seen_at : ℕ
  pub settled_at : Option ℕ

pub data NotificationKind : Type 0 where
  receivable block : NotificationKind

pub record Notification : Type 0 where
  pub kind : NotificationKind
  pub account : Text
  pub hash : Text

-- `thresholds`, as the numbers that `BigInt` reads from its texts.
pub record Thresholds : Type 0 where
  pub a : ℕ
  pub b : ℕ
  pub c : ℕ

-- The texts `${account}|${asset}`, `${asset}|${account}` and `${account}|${root}` are pairs here:
-- neither part holds the bar. Listeners are numbered, and `queue` is what `queueMicrotask` was
-- given: a listener and its event.
pub record Ledger : Type 0 where
  pub thresholds : Thresholds
  pub accounts : Dict Text LedgerAccount
  pub chains : Dict Text (List Block)
  pub blocks : Dict Text Block
  pub assets : Dict Text AssetRecord
  pub holdings : Dict (Text × Text) ℕ
  pub holdings_by_account : Dict Text (List Text)
  pub holders : Dict (Text × Text) ℕ
  pub holders_by_asset : Dict Text (List Text)
  pub issued_by_account : Dict Text ℕ
  pub receivables : Dict Text StoredReceivable
  pub receivables_by_account : Dict Text (List Text)
  pub commits : Dict Text CommitRecord
  pub claimed : List (Text × Text)
  pub locks : Dict Text LockRecord
  pub swaps_by_account : Dict Text (List Text)
  pub listeners : Dict Text (List ℕ)
  pub reserve_accounts : List Text
  pub queue : List (ℕ × Notification)

-- `LedgerTransition`: a commit that can no longer fail.
abbrev pub LedgerTransition : Type 0
LedgerTransition = Ledger → Ledger

abbrev pub noop_transition : LedgerTransition
noop_transition s = s
