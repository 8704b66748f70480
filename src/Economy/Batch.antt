-- ===== src/Economy/Batch.antt =====
-- packages/economy/src/batch.ts: what is published for a batch of players, up to the blocks that the client submits, and the check
-- of an award. A drop that is picked is its place in the table.
pub mod Published
use kei_transaction.Common.Tests.{
  ℕ, zero, suc, ◌+◌, ◌-◌, ◌*◌, ◌/◌, ◌^◌, Bool, true, false, not, ◌&&◌, ◌||◌, Option, none, some,
  List, [], ◌∷◌, ◌++◌, eqb, leb, ltb, if◌then◌else◌,
}
use kei_transaction.Common.Eq.{◌==◌, text_eq}
use kei_transaction.Common.Lists.{length, get_elem?}
use kei_transaction.Dict.{Dict, lookup, insert, mem}
use kei_transaction.Js.Text.{Text}
use kei_transaction.Js.Number.{decimal_text, decimal_from}
use kei_transaction.Core.Errors.{
  Result, ok, err, fail_if, or_fail, not_issuer_context, wrong_issuer, no_players, duplicate_player,
  bad_drop_table, bad_random, no_such_root, wrong_asset, root_closed, unanchored_table,
  undeclared_drop, ◌>>=◌, ◌>>◌,
}
use kei_transaction.Core.Crypto.{Crypto}
use kei_transaction.Core.Address.{assert_address}
use kei_transaction.Core.Amount.Raw.{typed}
use kei_transaction.Ledger.Reads.{CommitInfo}
use kei_transaction.Claims.Headroom.{assert_commit_headroom}
use kei_transaction.Claims.Tree.{CommitEntry, BuiltCommit, build_commit}
use kei_transaction.Economy.Assets.{Node, ResolvedStack, resolve_stack, needs_an_issuer}
use kei_transaction.Economy.Drops.{
  Drop, DropTable, DropAward, sum_weights, target_of, drop_salt, assert_award_shape,
  check_drop_binding,
}

-- The place of the row that `pick` lands on, counted from `i`.
unfoldable pub pick_place : List Drop → ℕ → ℕ → Option ℕ
pick_place [] target i = none
pick_place (drop ∷ drops) target i =
    if ltb target drop.weight then some i else pick_place drops (target - drop.weight) (suc i)

unfoldable pub roll_place : DropTable → ℕ → Result (Option ℕ)
unfolding pick_place
roll_place table word = do
  fail_if (leb (2 ^ 32) word) bad_random
  ok (pick_place table.drops (target_of word (sum_weights table.drops + table.nothing)) 0)

abbrev pub entry_for : Text → ResolvedStack → CommitEntry
entry_for address row = record { to = address; amount = typed (decimal_text row.raw) }

abbrev pub entries_of : Option (List CommitEntry) → List CommitEntry
entries_of none = []
entries_of (some entries) = entries

unfoldable pub owe :
    Text → ResolvedStack → Dict Text (List CommitEntry) → Dict Text (List CommitEntry)
owe address row by_asset =
    insert row.asset (entries_of (lookup row.asset by_asset) ++ entry_for address row ∷ []) by_asset

-- A turn of the loop over the players that lands on a place.
unfoldable pub award_place :
    List ResolvedStack
    → Text
    → Option ℕ
    → Dict Text (List CommitEntry)
    → Result (Dict Text (List CommitEntry))
unfolding owe
award_place rows address none by_asset = ok by_asset
award_place rows address (some place) by_asset = do
  row ← or_fail (get_elem? rows place) bad_drop_table
  ok (owe address row by_asset)

-- The `i`-th call of the random source gives the word `words i`.
unfoldable pub roll_all :
    DropTable
    → List ResolvedStack
    → (ℕ → ℕ)
    → ℕ
    → List Text
    → Dict Text (List CommitEntry)
    → Result (Dict Text (List CommitEntry))
unfolding roll_place award_place
roll_all table rows words i [] by_asset = ok by_asset
roll_all table rows words i (address ∷ addresses) by_asset = do
  place ← roll_place table (words i)
  more ← award_place rows address place by_asset
  roll_all table rows words (suc i) addresses more

unfoldable pub row_of : List ResolvedStack → Text → Option ResolvedStack
row_of [] asset = none
row_of (row ∷ rows) asset = if row.asset == asset then some row else row_of rows asset

-- `BigInt(entry.amount)` of the entries that `entry_for` makes.
unfoldable pub sum_committed : List CommitEntry → ℕ
sum_committed [] = 0
sum_committed (entry ∷ entries) =
    (elim entry.amount [ typed s ↦ decimal_from 0 s | _ ↦ 0 ]) + sum_committed entries

unfoldable pub assert_headroom :
    List ResolvedStack → Dict Text (List CommitEntry) → Result (Unit {0})
unfolding row_of sum_committed
assert_headroom rows [] = ok tt
assert_headroom rows ((asset, entries) ∷ by_asset) = elim (row_of rows asset) [
  | none ↦ assert_headroom rows by_asset
  | some row ↦
      assert_commit_headroom row.max_supply_raw row.circulating_raw (sum_committed entries)
      >> assert_headroom rows by_asset
]

-- What `publishDrop` submits a block for, with the entries of each root.
pub record PublishedDrop : Type 0 where
  pub issuer : Text
  pub nonce : Text
  pub addresses : List Text
  pub rows : List ResolvedStack
  pub by_asset : Dict Text (List CommitEntry)
  pub roots : List BuiltCommit

pub record VerifiedDrop : Type 0 where
  pub root : Text
  pub asset : Text
  pub symbol : Text
  pub drop : Drop

abbrev pub issuer_or : Option Text → Option Text → Text → Text
issuer_or (some issuer) declared address = issuer
issuer_or none (some declared) address = declared
issuer_or none none address = address

-- The row of the table that an award matches, with its declaration.
unfoldable pub declared_row :
    List ResolvedStack → List Drop → Text → ℕ → Option (ResolvedStack × Drop)
declared_row [] drops asset raw = none
declared_row (row ∷ rows) [] asset raw = none
declared_row (row ∷ rows) (drop ∷ drops) asset raw =
    let rest = declared_row rows drops asset raw in
    if row.asset == asset && eqb row.raw raw then some (row, drop) else rest

module _ ⦃c : Crypto⦄ where
  unfoldable pub check_players : List Text → List Text → Result (List Text)
  check_players seen [] = ok []
  check_players seen (player ∷ players) = do
    address ← assert_address player
    fail_if (mem address seen) duplicate_player
    rest ← check_players (address ∷ seen) players
    ok (address ∷ rest)

  unfoldable pub roll_call : List Text → Result (List Text)
  unfolding check_players
  roll_call players = do fail_if (eqb (length players) 0) no_players; check_players [] players

  unfoldable pub resolve_rows : Node → List Drop → Option Text → Result (List ResolvedStack)
  resolve_rows node [] issuer = ok []
  resolve_rows node (drop ∷ drops) issuer = do
    row ←
        resolve_stack node (record { asset = drop.asset; amount = some (typed drop.amount) }) issuer
    rows ← resolve_rows node drops issuer
    ok (row ∷ rows)

  unfoldable pub build_roots : Text → Dict Text (List CommitEntry) → Result (List BuiltCommit)
  build_roots salt [] = ok []
  build_roots salt ((asset, entries) ∷ by_asset) = do
    built ← build_commit asset 0 entries salt
    roots ← build_roots salt by_asset
    ok (built ∷ roots)

  unfoldable pub publish_drop :
      Node
      → Bool
      → Text
      → DropTable
      → List Text
      → Option Text
      → (ℕ → ℕ)
      → Text
      → Result PublishedDrop
  unfolding roll_call resolve_rows roll_all assert_headroom build_roots
  publish_drop node is_issuer own table players given words nonce = do
    fail_if (not is_issuer) not_issuer_context
    issuer ← assert_address (issuer_or given table.issuer own)
    fail_if (not (issuer == own)) wrong_issuer
    addresses ← roll_call players
    rows ← resolve_rows node table.drops (some issuer)
    salt ← drop_salt table.digest nonce
    by_asset ← roll_all table rows words 0 addresses []
    assert_headroom rows by_asset
    roots ← build_roots salt by_asset
    ok (record {
      issuer = issuer;
      nonce = nonce;
      addresses = addresses;
      rows = rows;
      by_asset = by_asset;
      roots = roots;
    })

  -- Whether a row names its asset by symbol alone.
  unfoldable pub has_bare_symbol : List Drop → Bool
  has_bare_symbol [] = false
  has_bare_symbol (drop ∷ drops) = needs_an_issuer drop.asset || has_bare_symbol drops

  abbrev pub unanchored : Option Text → List Drop → Bool
  unanchored none drops = has_bare_symbol drops
  unanchored (some issuer) drops = false

  unfoldable pub verify_award :
      Node → (Text → Option CommitInfo) → DropAward → DropTable → Text → Result VerifiedDrop
  unfolding has_bare_symbol resolve_rows declared_row
  verify_award node commit_info award table player = do
    account ← assert_address player
    assert_award_shape award
    commit ← or_fail (commit_info award.root) no_such_root
    fail_if (not (commit.asset == award.asset)) wrong_asset
    fail_if commit.closed root_closed
    check_drop_binding award table account
    fail_if (unanchored table.issuer table.drops) unanchored_table
    rows ← resolve_rows node table.drops table.issuer
    declared ←
        or_fail (declared_row rows table.drops award.asset (decimal_from 0 award.amount))
          undeclared_drop
    ok (record {
      root = award.root;
      asset = (declared.0).asset;
      symbol = (declared.0).symbol;
      drop = declared.1;
    })
