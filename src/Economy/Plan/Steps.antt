-- ===== src/Economy/Plan/Steps.antt =====
-- The steps of the plans that packages/economy/src/plan.ts builds.
use kei_transaction.Common.Tests.{
  ◌≤◌, ◌≡◌, refl, true, false, some, List, [], ◌∷◌, ◌++◌, arith, Bool-cases, inl, inr, ◌⊎◌,
}
use kei_transaction.Common.Eq.{text_eq}
use kei_transaction.Js.Text.{Text}
use kei_transaction.Economy.Assets.{Node, ResolvedStack, spendable_raw}
use kei_transaction.Economy.Plan.{
  PlanStep, step, by_issuer, mint_step, send_step, is_kei, over_cap, is_some_text, plan_one_grant,
  plan_grants,
}

append-nil : {A : Type 0} (xs ys : List A) → xs ++ ys ≡ [] → (xs ≡ []) × (ys ≡ [])
append-nil [] ys h = (refl, h)
append-nil (x ∷ xs) ys h = cc

-- What each step of a reward is: a payment of Kei that the issuer can cover, or a mint by the asset's own issuer
-- within its cap.
abbrev pub Covered : Node → Text → Text → ResolvedStack → PlanStep → Type 0
Covered node issuer player given s =
    ((s ≡ step by_issuer issuer send_step given (some player))
      × (is_kei given ≡ true)
      × (given.raw ≤ spendable_raw node given issuer))
    ⊎ ((s ≡ step by_issuer issuer mint_step given (some player))
        × (is_some_text given.issuer issuer ≡ true)
        × (over_cap given ≡ false))

abbrev pub EachCovered : Node → Text → Text → List ResolvedStack → List PlanStep → Type 0
EachCovered node issuer player [] [] = Unit {0}
EachCovered node issuer player [] (s ∷ steps) = ⊥
EachCovered node issuer player (given ∷ grants) [] = ⊥
EachCovered node issuer player (given ∷ grants) (s ∷ steps) =
    Covered node issuer player given s × EachCovered node issuer player grants steps

plan_one_grant-Covered :
    (node : Node) (issuer player : Text) (given : ResolvedStack)
    → (plan_one_grant node issuer player given).problems ≡ []
    → (s : PlanStep) × Covered node issuer player given s
      × ((plan_one_grant node issuer player given).steps ≡ s ∷ [])
unfolding plan_one_grant
plan_one_grant-Covered node issuer player given h = elim (Bool-cases (is_kei given)) [
  | inl kei ↦ (
    step by_issuer issuer send_step given (some player),
    inl (refl, kei, ground arith),
    rw kei refl,
  )
  | inr issued ↦ (
    step by_issuer issuer mint_step given (some player),
    inr (refl, ground arith, ground arith),
    ground arith,
  )
]

-- A reward that is planned without a problem has one step for each grant, in order, and each is covered.
pub plan_grants-EachCovered :
    (node : Node) (issuer player : Text) (grants : List ResolvedStack)
    → (plan_grants node issuer player grants).problems ≡ []
    → EachCovered node issuer player grants ((plan_grants node issuer player grants).steps)
unfolding plan_grants
plan_grants-EachCovered node issuer player [] h = tt
plan_grants-EachCovered node issuer player (given ∷ grants) h =
    let (one, rest) =
      append-nil ((plan_one_grant node issuer player given).problems)
        ((plan_grants node issuer player grants).problems) h in
    let (s, covered, steps) = plan_one_grant-Covered node issuer player given one in
    rw steps (covered, plan_grants-EachCovered node issuer player grants rest)
