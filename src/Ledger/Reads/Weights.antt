-- ===== src/Ledger/Reads/Weights.antt =====
-- What the weights of packages/core/src/mock/ledger.ts add up to.
use kei_transaction.Common.Tests.{ℕ, ◌+◌, ◌≡◌, ◌||◌, [], ◌∷◌, arith, if◌then◌else◌}
use kei_transaction.Common.Eq.{◌==◌, text_eq}
use kei_transaction.Dict.{insert, Dict, lookup, mem}
use kei_transaction.Dict.Sum.{sum_of, sum-insert}
use kei_transaction.Js.Text.{Text}
use kei_transaction.Core.Crypto.{Crypto}
use kei_transaction.Core.Address.{null_representative}
use kei_transaction.Ledger.State.{Ledger, LedgerAccount}
use kei_transaction.Ledger.Guards.{or_zero}
use kei_transaction.Ledger.Reads.{weigh, weights}

-- The weight of one representative.
abbrev pub weight : Text → ℕ → ℕ
weight representative n = n

module _ ⦃c : Crypto⦄ (s : Ledger) where
  -- The balance of an account that carries weight.
  abbrev pub voting_balance : Text → LedgerAccount → ℕ
  voting_balance key account =
      if mem account.address s.reserve_accounts || account.representative == null_representative
      then 0
      else account.balance

  weigh-total :
      (d : Dict Text LedgerAccount) (out : Dict Text ℕ)
      → sum_of weight (weigh s d out) ≡ sum_of weight out + sum_of voting_balance d
  unfolding weigh sum_of
  weigh-total [] out = omega arith
  weigh-total ((key, account) ∷ d) out =
      let sum = or_zero (lookup account.representative out) + account.balance in
      ground (
        arith,
        weigh-total d out,
        weigh-total d (insert account.representative sum out),
        sum-insert weight account.representative sum out,
      )

  -- Representatives' weights add up to the Kei balances of all accounts that are not reserve accounts
  -- and have not named the null representative: no more and no less.
  pub weights_total : sum_of weight (weights s) ≡ sum_of voting_balance s.accounts
  unfolding weights sum_of
  weights_total = omega (arith, weigh-total s.accounts [])
