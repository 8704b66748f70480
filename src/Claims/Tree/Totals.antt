-- ===== src/Claims/Tree/Totals.antt =====
-- The amounts of a commit built by packages/claims/src/tree.ts against those of its entries.
use kei_transaction.Common.Tests.{
  ℕ, ◌+◌, ◌≡◌, refl, ap, ◌∙◌, List, [], ◌∷◌, arith, if◌then◌else◌, Bool-cases, inl, inr,
}
use kei_transaction.Common.Eq.{list_beq_iff, ◌==◌, text_eq}
use kei_transaction.Dict.{Dict, lookup, insert}
use kei_transaction.Dict.Laws.{lookup-insert}
use kei_transaction.Js.Text.{Text}
use kei_transaction.Js.Number.{decimal_text}
use kei_transaction.Core.Errors.{ok, err}
use kei_transaction.Core.Crypto.{Crypto}
use kei_transaction.Core.Address.{assert_address}
use kei_transaction.Core.Amount.Raw.{to_raw}
use kei_transaction.Claims.Tree.{
  CommitEntry, BuiltCommit, amount_in, add_amount, sum_amounts, merge_entries, build_commit,
  amount_for,
}
use kei_transaction.Claims.Tree.Bundles.{build_commit-inv}

-- The raw amount of one entry.
unfoldable pub raw_of : ℕ → CommitEntry → ℕ
raw_of decimals entry = elim (to_raw entry.amount decimals) [ err _ ↦ 0 | ok n ↦ n ]

-- What the entries give an address, one by one.
unfoldable pub owed : ℕ → Text → List CommitEntry → ℕ
unfolding raw_of
owed decimals address [] = 0
owed decimals address (entry ∷ entries) =
    (if entry.to == address then raw_of decimals entry else 0) + owed decimals address entries

unfoldable pub owed_in_all : ℕ → List CommitEntry → ℕ
unfolding raw_of
owed_in_all decimals [] = 0
owed_in_all decimals (entry ∷ entries) = raw_of decimals entry + owed_in_all decimals entries

sum_amounts-insert :
    (address : Text) (n : ℕ) (merged : Dict Text ℕ)
    → sum_amounts (add_amount address n merged) ≡ sum_amounts merged + n
unfolding sum_amounts add_amount insert lookup
sum_amounts-insert address n [] = omega arith
sum_amounts-insert address n ((j, w) ∷ merged) = ground (arith, sum_amounts-insert address n merged)

amount_in-add_amount :
    (a address : Text) (n : ℕ) (merged : Dict Text ℕ)
    → amount_in (lookup a (add_amount address n merged))
      ≡ amount_in (lookup a merged) + (if address == a then n else 0)
unfolding add_amount
amount_in-add_amount a address n merged = elim (Bool-cases (address == a)) [
  | inl same ↦
      let at : address ≡ a = (list_beq_iff address a).0 same in
      rw (lookup-insert a address (amount_in (lookup address merged) + n) merged, same, at) refl
  | inr other ↦
      rw (lookup-insert a address (amount_in (lookup address merged) + n) merged, other) omega arith
]

module _ ⦃c : Crypto⦄ where
  merge_entries-inv :
      (decimals : ℕ) (entry : CommitEntry) (entries : List CommitEntry) (merged all : Dict Text ℕ)
      → merge_entries decimals (entry ∷ entries) merged ≡ ok all
      → merge_entries decimals entries (add_amount entry.to (raw_of decimals entry) merged) ≡ ok all
  unfolding merge_entries assert_address raw_of
  merge_entries-inv decimals entry entries merged all e = ground arith

  merge_entries-sum :
      (decimals : ℕ) (entries : List CommitEntry) (merged all : Dict Text ℕ)
      → merge_entries decimals entries merged ≡ ok all
      → sum_amounts all ≡ sum_amounts merged + owed_in_all decimals entries
  unfolding merge_entries owed_in_all
  merge_entries-sum decimals [] merged all e = ground arith
  merge_entries-sum decimals (entry ∷ entries) merged all e = omega (
    arith,
    sum_amounts-insert entry.to (raw_of decimals entry) merged,
    merge_entries-sum decimals entries (add_amount entry.to (raw_of decimals entry) merged) all
        (merge_entries-inv decimals entry entries merged all e),
  )

  merge_entries-lookup :
      (decimals : ℕ) (a : Text) (entries : List CommitEntry) (merged all : Dict Text ℕ)
      → merge_entries decimals entries merged ≡ ok all
      → amount_in (lookup a all) ≡ amount_in (lookup a merged) + owed decimals a entries
  unfolding merge_entries owed
  merge_entries-lookup decimals a [] merged all e = ground arith
  merge_entries-lookup decimals a (entry ∷ entries) merged all e = omega (
    arith,
    amount_in-add_amount a entry.to (raw_of decimals entry) merged,
    merge_entries-lookup decimals a entries (add_amount entry.to (raw_of decimals entry) merged) all
        (merge_entries-inv decimals entry entries merged all e),
  )

  -- The total that a commit states is the sum of all of its entries, and the amount that it states for an
  -- address the sum of that address's entries.
  pub build_commit-totals :
      (asset : Text) (decimals : ℕ) (entries : List CommitEntry) (salt : Text) (built : BuiltCommit)
      → build_commit asset decimals entries salt ≡ ok built
      → (address : Text)
      → (built.total ≡ decimal_text (owed_in_all decimals entries))
        × (amount_for built address ≡ decimal_text (owed decimals address entries))
  unfolding amount_for sum_amounts lookup
  build_commit-totals asset decimals entries salt built e address =
      let parts = build_commit-inv asset decimals entries salt built e in
      let sums : sum_amounts parts.merged ≡ owed_in_all decimals entries =
        omega (arith, merge_entries-sum decimals entries [] parts.merged parts.merging) in
      let each : amount_in (lookup address parts.merged) ≡ owed decimals address entries =
        omega
          (arith, merge_entries-lookup decimals address entries [] parts.merged parts.merging) in
      (
        ap (λ b. b.total) parts.shape ∙ ap decimal_text sums,
        ap (λ b. decimal_text (amount_in (lookup address b.merged))) parts.shape
            ∙ ap decimal_text each,
      )
