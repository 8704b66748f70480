-- ===== src/Economy/Drops/Roll.antt =====
-- Which row a roll of packages/economy/src/drops.ts lands on.
use kei_transaction.Common.Tests.{
  ℕ, ◌+◌, ◌-◌, ◌*◌, ◌/◌, ◌%◌, ◌^◌, ◌≤◌, ◌<◌, ◌≡◌, refl, ap, ◌∙◌, true, false, none, some, List, [],
  ◌∷◌, ◌++◌, arith, leb, ltb,
}
use native.Mathlib.Nat.{mul-le-mul_left}
use kei_transaction.Js.Number.{round_double, halvings, nearest}
use kei_transaction.Core.Errors.{ok}
use kei_transaction.Economy.Drops.{Drop, DropTable, pick, sum_weights, target_of, roll_drop_table}

-- Each row answers for as many targets in a row as it has weight, after those of the rows before it.
pub pick-row :
    (before after : List Drop) (drop : Drop) (k : ℕ)
    → k < drop.weight
    → pick (before ++ drop ∷ after) (sum_weights before + k) ≡ some drop
unfolding pick sum_weights
pick-row [] after drop k h = ground arith
pick-row (d ∷ before) after drop k h =
    let shift : d.weight + sum_weights before + k - d.weight ≡ sum_weights before + k =
      omega arith in
    ground (arith, shift, pick-row before after drop k h)

pub pick-none :
    (drops : List Drop) (target : ℕ) → sum_weights drops ≤ target → pick drops target ≡ none
unfolding pick sum_weights
pick-none [] target h = refl
pick-none (d ∷ drops) target h = ground (arith, pick-none drops (target - d.weight))

-- Below 2 ^ 53 no product is rounded.
round_double-exact : (n : ℕ) → n < 2 ^ 53 → round_double n ≡ n
unfolding round_double halvings nearest
round_double-exact n h =
    let small : ltb n (2 ^ 53) ≡ true = ground arith in
    let whole : n % 1 ≡ 0 = omega arith in
    let all_of : n / 1 ≡ n = omega arith in rw (small, whole, all_of) (omega arith)

-- Weights that add up to at most 2 ^ 21.
abbrev pub IsExact : DropTable → Type 0
IsExact table = sum_weights table.drops + table.nothing ≤ 2 ^ 21

product_below : (word total : ℕ) → word < 2 ^ 32 → total ≤ 2 ^ 21 → word * total < 2 ^ 53
product_below word total small bound =
    let scaled : word * total ≤ word * 2 ^ 21 = mul-le-mul_left word bound in omega arith

target_of-exact :
    (word total : ℕ) → word < 2 ^ 32 → total ≤ 2 ^ 21 → target_of word total ≡ word * total / 2 ^ 32
unfolding target_of
target_of-exact word total small bound =
    ap (λ n. n / 2 ^ 32) (round_double-exact (word * total) (product_below word total small bound))

roll_drop_table-pick :
    (table : DropTable) (word : ℕ)
    → word < 2 ^ 32
    → IsExact table
    → roll_drop_table table word
      ≡ ok (pick table.drops (word * (sum_weights table.drops + table.nothing) / 2 ^ 32))
unfolding roll_drop_table
roll_drop_table-pick table word h exact =
    let small : leb (2 ^ 32) word ≡ false = ground arith in
    let total = sum_weights table.drops + table.nothing in
    rw (small, target_of-exact word total h exact) refl

-- The line from 0 to the sum of all weights is cut into stretches, one for each row, as long as the
-- row's weight, in order. Where the weights add up to at most 2 ^ 21, so that no product is rounded,
-- a roll picks the row whose stretch holds the word's share of the line, rounded down.
pub roll_drop_table-row :
    (table : DropTable) (word : ℕ) (before after : List Drop) (drop : Drop)
    → word < 2 ^ 32
    → IsExact table
    → table.drops ≡ before ++ drop ∷ after
    → sum_weights before ≤ word * (sum_weights table.drops + table.nothing) / 2 ^ 32
    → word * (sum_weights table.drops + table.nothing) / 2 ^ 32 < sum_weights before + drop.weight
    → roll_drop_table table word ≡ ok (some drop)
roll_drop_table-row table word before after drop h exact e low high =
    let target = word * (sum_weights table.drops + table.nothing) / 2 ^ 32 in
    let split : target ≡ sum_weights before + (target - sum_weights before) = omega arith in
    let row = pick-row before after drop (target - sum_weights before) (omega arith) in
    roll_drop_table-pick table word h exact
    ∙ ap (λ d. ok (pick d target)) e
    ∙ ap (λ t. ok (pick (before ++ drop ∷ after) t)) split
    ∙ ap (λ r. ok r) row

-- Past the stretches of the rows, a roll picks nothing.
pub roll_drop_table-nothing :
    (table : DropTable) (word : ℕ)
    → word < 2 ^ 32
    → IsExact table
    → sum_weights table.drops ≤ word * (sum_weights table.drops + table.nothing) / 2 ^ 32
    → roll_drop_table table word ≡ ok none
roll_drop_table-nothing table word h exact past =
    roll_drop_table-pick table word h exact
    ∙ ap (λ r. ok r)
        (pick-none table.drops (word * (sum_weights table.drops + table.nothing) / 2 ^ 32) past)
