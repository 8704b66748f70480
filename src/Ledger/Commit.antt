-- ===== src/Ledger/Commit.antt =====
-- packages/core/src/mock/ledger.ts: the writes, none of which can fail.
use kei_transaction.Common.Tests.{
  ℕ, ◌+◌, ◌-◌, Option, none, some, List, [], ◌∷◌, ◌++◌, map, eqb, if◌then◌else◌,
}
use kei_transaction.Common.Eq.{text_eq, pair_eq}
use kei_transaction.Dict.{Dict, lookup, insert, erase, add, remove}
use kei_transaction.Js.Text.{Text, upper}
use kei_transaction.Core.Errors.{ok, err}
use kei_transaction.Core.Blocks.{Block, account_of, representative_of}
use kei_transaction.Core.Crypto.{Crypto}
use kei_transaction.Core.Address.{public_key_from_address}
use kei_transaction.Ledger.State.{
  Ledger, LedgerAccount, AssetRecord, StoredReceivable, LockRecord, Notification, NotificationKind,
}
use kei_transaction.Ledger.Guards.{or_zero, or_empty, held}

-- A callback is queued for every listener of the account.
unfoldable pub notify : Text → Notification → Ledger → Ledger
notify account event s = record s {
  queue = s.queue ++ map (λ listener. (listener, event)) (or_empty (lookup account s.listeners));
}

-- A set that empties is dropped from its index.
unfoldable pub remove_from_index : Text → Text → Dict Text (List Text) → Dict Text (List Text)
remove_from_index key member index = elim (lookup key index) [
  | none ↦ index
  | some members ↦ elim (remove member members) [
    | [] ↦ erase key index
    | x ∷ rest ↦ insert key (x ∷ rest) index
  ]
]

unfoldable pub add_to_index : Text → Text → Dict Text (List Text) → Dict Text (List Text)
add_to_index key member index = insert key (add member (or_empty (lookup key index))) index

unfoldable pub commit_credit : Text → Text → ℕ → Ledger → Ledger
unfolding add_to_index
commit_credit account asset amount s = record s {
  holdings =
      insert (account, asset) (or_zero (lookup (account, asset) s.holdings) + amount) s.holdings;
  holdings_by_account = add_to_index account asset s.holdings_by_account;
  holders =
      insert (asset, account) (or_zero (lookup (asset, account) s.holders) + amount) s.holders;
  holders_by_asset = add_to_index asset account s.holders_by_asset;
}

-- Every call follows `requireDebit`, so what is held is no less than the amount.
unfoldable pub commit_debit : Text → Text → ℕ → Ledger → Ledger
unfolding held remove_from_index
commit_debit account asset amount s =
    let remaining = held s account asset - amount in
    if eqb remaining 0
    then record s {
      holdings = erase (account, asset) s.holdings;
      holdings_by_account = remove_from_index account asset s.holdings_by_account;
      holders = erase (asset, account) s.holders;
      holders_by_asset = remove_from_index asset account s.holders_by_asset;
    }
    else record s {
      holdings = insert (account, asset) remaining s.holdings;
      holders = insert (asset, account) remaining s.holders;
    }

unfoldable pub create_receivable : Text → StoredReceivable → Ledger → Ledger
unfolding notify add_to_index
create_receivable hash receivable s =
    notify receivable.to
      (record { kind = NotificationKind.receivable; account = receivable.to; hash = hash })
      (record s {
        receivables = insert hash receivable s.receivables;
        receivables_by_account = add_to_index receivable.to hash s.receivables_by_account;
      })

unfoldable pub consume_receivable : StoredReceivable → Ledger → Ledger
unfolding remove_from_index
consume_receivable receivable s =
    let key = upper receivable.hash in
    record s {
      receivables = erase key s.receivables;
      receivables_by_account = remove_from_index receivable.to key s.receivables_by_account;
    }

-- `asset.circulating = …` on the record that the ledger keeps under the asset's id.
unfoldable pub set_circulating : AssetRecord → ℕ → Ledger → Ledger
set_circulating asset n s = record s {
  assets = insert asset.id (record asset { circulating = n }) s.assets;
}

-- Writes to the fields of the lock that the ledger keeps under the offer's hash.
unfoldable pub set_lock : LockRecord → Ledger → Ledger
set_lock lock s = record s { locks = insert lock.offer lock s.locks }

abbrev pub height_of : Option LedgerAccount → ℕ
height_of none = 0
height_of (some account) = account.height

module _ ⦃c : Crypto⦄ where
  -- `existing?.publicKey ?? publicKeyFromAddress(account)`; the account's address was checked.
  unfoldable pub key_of : Text → Option LedgerAccount → Text
  key_of account (some existing) = existing.public_key
  key_of account none = elim (public_key_from_address account) [ ok key ↦ key | err _ ↦ [] ]

  -- The account's record after a block.
  unfoldable pub stored_account : Block → Text → ℕ → Option LedgerAccount → LedgerAccount
  unfolding key_of
  stored_account b hash new_balance existing = record {
    address = account_of b.body;
    public_key = key_of (account_of b.body) existing;
    frontier = hash;
    height = height_of existing + 1;
    balance = new_balance;
    representative = representative_of b.body;
  }

  unfoldable pub commit_block : Block → Text → ℕ → Ledger → Ledger
  unfolding notify stored_account
  commit_block b hash new_balance s =
      let account = account_of b.body in
      let existing = lookup account s.accounts in
      notify account (record { kind = NotificationKind.block; account = account; hash = hash })
        (record s {
          accounts = insert account (stored_account b hash new_balance existing) s.accounts;
          chains = insert account (or_empty (lookup account s.chains) ++ b ∷ []) s.chains;
          blocks = insert hash b s.blocks;
        })
