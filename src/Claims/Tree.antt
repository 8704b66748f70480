-- ===== src/Claims/Tree.antt =====
-- packages/claims/src/tree.ts: `buildCommit`. The salt is the one that the options name or that
-- `randomSalt` draws.
pub mod Layers
pub mod Hexes
pub mod Leaves
pub mod Proofs
pub mod Bundles
pub mod Totals
use kei_transaction.Common.Tests.{
  ℕ, zero, suc, ◌+◌, ◌-◌, ◌/◌, ◌%◌, Bool, Option, none, some, List, [], ◌∷◌, ◌++◌, map, eqb, leb,
  not, if◌then◌else◌,
}
use kei_transaction.Common.Eq.{◌==◌, text_eq}
use kei_transaction.Common.Lists.{length}
use kei_transaction.Dict.{Dict, lookup, insert}
use kei_transaction.Js.Text.{Text}
use kei_transaction.Js.Number.{decimal_text}
use kei_transaction.Core.Errors.{
  Result, ok, err, fail_if, or_fail, empty_commit, bad_amount, not_in_commit, ◌>>=◌, ◌>>◌,
}
use kei_transaction.Core.Amount.Raw.{AmountInput, to_raw}
use kei_transaction.Core.Crypto.{Crypto}
use kei_transaction.Core.Address.{assert_address, public_key_from_address}
use kei_transaction.Core.Merkle.{leaf_hash, salt_leaf, combine_hashes, text_le}

pub record CommitEntry : Type 0 where
  pub to : Text
  pub amount : AmountInput

pub record ClaimBundle : Type 0 where
  pub root : Text
  pub asset : Text
  pub amount : Text
  pub proof : List Text

-- `total` and the amounts are the texts of raw units; the two functions of the result are
-- `proof_for` and `amount_for` of what it keeps.
pub record BuiltCommit : Type 0 where
  pub root : Text
  pub asset : Text
  pub count : ℕ
  pub total : Text
  pub recipients : List Text
  pub salt : Text
  pub salt_proof : List Text
  pub merged : Dict Text ℕ
  pub layers : List (List Text)

-- `x ?? 0n`
abbrev pub amount_in : Option ℕ → ℕ
amount_in none = 0
amount_in (some n) = n

unfoldable pub add_amount : Text → ℕ → Dict Text ℕ → Dict Text ℕ
add_amount address amount merged =
    insert address (amount_in (lookup address merged) + amount) merged

abbrev pub keys_of : Dict Text ℕ → List Text
keys_of merged = map (λ entry. entry.0) merged

-- `sort()` puts texts in the order of their code units.
unfoldable pub sorted_insert : Text → List Text → List Text
sorted_insert s [] = s ∷ []
sorted_insert s (t ∷ ts) = if text_le s t then s ∷ t ∷ ts else t ∷ sorted_insert s ts

unfoldable pub sorted : List Text → List Text
unfolding sorted_insert
sorted [] = []
sorted (s ∷ ss) = sorted_insert s (sorted ss)

unfoldable pub sum_amounts : Dict Text ℕ → ℕ
sum_amounts [] = 0
sum_amounts ((address, amount) ∷ merged) = amount + sum_amounts merged

-- `indexOf.get(address)`, counted from `i`.
unfoldable pub index_in : Text → List Text → ℕ → Option ℕ
index_in address [] i = none
index_in address (r ∷ rs) i = if r == address then some i else index_in address rs (suc i)

-- The entry at a place that the list has.
unfoldable pub entry_at : List Text → ℕ → Text
entry_at [] i = []
entry_at (x ∷ xs) zero = x
entry_at (x ∷ xs) (suc i) = entry_at xs i

-- `layer[i] ?? layer[j]`
unfoldable pub entry_or : List Text → ℕ → ℕ → Text
unfolding entry_at
entry_or layer i j = if leb (suc i) (length layer) then entry_at layer i else entry_at layer j

unfoldable pub sibling : List Text → ℕ → Text
unfolding entry_or
sibling layer position =
    if eqb (position % 2) 0
    then entry_or layer (position + 1) position
    else entry_at layer (position - 1)

-- `pathTo` from one layer up; the last layer has no sibling to offer.
unfoldable pub path_to : List (List Text) → ℕ → List Text
unfolding sibling
path_to [] position = []
path_to (layer ∷ []) position = []
path_to (layer ∷ next ∷ layers) position =
    sibling layer position ∷ path_to (next ∷ layers) (position / 2)

unfoldable pub root_of : List (List Text) → Text
unfolding entry_at
root_of [] = []
root_of (layer ∷ []) = entry_at layer 0
root_of (layer ∷ next ∷ layers) = root_of (next ∷ layers)

module _ ⦃c : Crypto⦄ where
  -- The loop over one layer; an odd entry at the end is paired with itself.
  unfoldable pub pair_up : List Text → List Text
  pair_up [] = []
  pair_up (left ∷ []) = combine_hashes left left ∷ []
  pair_up (left ∷ right ∷ rest) = combine_hashes left right ∷ pair_up rest

  -- The loop that adds a layer until one has a single entry. Each layer is shorter than the one below
  -- it, so one round for each leaf is enough.
  unfoldable pub layers_from : ℕ → List Text → List (List Text)
  unfolding pair_up
  layers_from zero layer = layer ∷ []
  layers_from (suc fuel) layer =
      let rest = layers_from fuel (pair_up layer) in
      if leb (length layer) 1 then layer ∷ [] else layer ∷ rest

  unfoldable pub merge_entries : ℕ → List CommitEntry → Dict Text ℕ → Result (Dict Text ℕ)
  merge_entries decimals [] merged = ok merged
  merge_entries decimals (entry ∷ entries) merged = do
    address ← assert_address entry.to
    amount ← to_raw entry.amount decimals
    fail_if (eqb amount 0) bad_amount
    merge_entries decimals entries (add_amount address amount merged)

  unfoldable pub recipient_leaves : Text → Dict Text ℕ → List Text → Result (List Text)
  recipient_leaves asset merged [] = ok []
  recipient_leaves asset merged (address ∷ recipients) = do
    key ← public_key_from_address address
    leaf ← leaf_hash key asset (amount_in (lookup address merged))
    leaves ← recipient_leaves asset merged recipients
    ok (leaf ∷ leaves)

  abbrev built_from :
      Text → Text → Dict Text ℕ → List Text → List Text → List (List Text) → BuiltCommit
  built_from asset salt merged recipients leaves layers = record {
    root = root_of layers;
    asset = asset;
    count = length recipients;
    total = decimal_text (sum_amounts merged);
    recipients = recipients;
    salt = salt;
    salt_proof = path_to layers (length leaves - 1);
    merged = merged;
    layers = layers;
  }

  unfoldable pub build_commit : Text → ℕ → List CommitEntry → Text → Result BuiltCommit
  build_commit asset decimals entries salt = do
    fail_if (eqb (length entries) 0) empty_commit
    merged ← merge_entries decimals entries []
    let recipients = sorted (keys_of merged)
    claims ← recipient_leaves asset merged recipients
    last ← salt_leaf salt
    let leaves = claims ++ last ∷ []
    ok (built_from asset salt merged recipients leaves (layers_from (length leaves) leaves))

unfoldable pub proof_for : BuiltCommit → Text → Result ClaimBundle
proof_for built address = do
  index ← or_fail (index_in address built.recipients 0) not_in_commit
  ok (record {
    root = built.root;
    asset = built.asset;
    amount = decimal_text (amount_in (lookup address built.merged));
    proof = path_to built.layers index;
  })

unfoldable pub amount_for : BuiltCommit → Text → Text
amount_for built address = decimal_text (amount_in (lookup address built.merged))
