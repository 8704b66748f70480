-- ===== src/Economy/Plan/Atomic.antt =====
-- What `atomic` means in the plans of packages/economy/src/plan.ts.
use kei_transaction.Common.Tests.{
  ◌+◌, ◌<◌, ◌≡◌, refl, sym, ap, ◌∙◌, Bool, true, ◌&&◌, Option, none, some, List, [], ◌∷◌, ◌++◌,
  arith, leb, ltb, Bool-cases, inl, inr,
}
use kei_transaction.Common.Eq.{text_eq}
use kei_transaction.Common.Lists.{length, length-append}
use kei_transaction.Js.Text.{Text}
use kei_transaction.Core.Errors.{Result, ok, err, ◌>>=◌}
use kei_transaction.Core.Crypto.{Crypto}
use kei_transaction.Economy.Recipe.{
  Recipe, RecipeStrategy, grant, sink, exchange, SinkPolicy, to_nobody, to_issuer,
}
use kei_transaction.Economy.Assets.{Node, ResolvedStack}
use kei_transaction.Economy.Plan.{
  Plan, PlanStep, is_kei, plan_one_grant, plan_grants, plan_grant, PlanContext, PlanOptions,
  plan_exchange, plan_swap, plan_one_burn, plan_burns, plan_one_payment, plan_payments, plan_sink,
  plan_by, moving_steps, is_atomic, build_plan, plan_for, player_of, declared_issuer,
}

moving_steps-append :
    (xs ys : List PlanStep) → moving_steps (xs ++ ys) ≡ moving_steps xs + moving_steps ys
unfolding moving_steps
moving_steps-append [] ys = omega arith
moving_steps-append (x ∷ xs) ys = omega (arith, moving_steps-append xs ys)

-- Steps that all move something.
abbrev AllMove : List PlanStep → Type 0
AllMove steps = moving_steps steps ≡ length steps

AllMove-append : (xs ys : List PlanStep) → AllMove xs → AllMove ys → AllMove (xs ++ ys)
AllMove-append xs ys h k = omega (arith, moving_steps-append xs ys, length-append xs ys)

plan_one_grant-AllMove :
    (node : Node) (issuer player : Text) (given : ResolvedStack)
    → AllMove ((plan_one_grant node issuer player given).steps)
unfolding plan_one_grant moving_steps
plan_one_grant-AllMove node issuer player given = ground arith

plan_grants-AllMove :
    (node : Node) (issuer player : Text) (grants : List ResolvedStack)
    → AllMove ((plan_grants node issuer player grants).steps)
unfolding plan_grants moving_steps
plan_grants-AllMove node issuer player [] = refl
plan_grants-AllMove node issuer player (given ∷ grants) =
    AllMove-append ((plan_one_grant node issuer player given).steps)
      ((plan_grants node issuer player grants).steps)
      (plan_one_grant-AllMove node issuer player given)
      (plan_grants-AllMove node issuer player grants)

plan_burns-AllMove :
    (node : Node) (player : Text) (costs : List ResolvedStack)
    → AllMove ((plan_burns node player costs).steps)
unfolding plan_burns plan_one_burn moving_steps
plan_burns-AllMove node player [] = refl
plan_burns-AllMove node player (cost ∷ costs) = elim (Bool-cases (is_kei cost)) [
  | inl kei ↦ rw kei (plan_burns-AllMove node player costs)
  | inr other ↦ rw other (omega (arith, plan_burns-AllMove node player costs))
]

plan_payments-AllMove :
    (node : Node) (issuer player : Text) (costs : List ResolvedStack)
    → AllMove ((plan_payments node issuer player costs).steps)
unfolding plan_payments plan_one_payment moving_steps
plan_payments-AllMove node issuer player [] = refl
plan_payments-AllMove node issuer player (cost ∷ costs) = elim (Bool-cases (is_kei cost)) [
  | inl kei ↦ rw kei (omega (arith, plan_payments-AllMove node issuer player costs))
  | inr other ↦ rw other (omega (arith, plan_payments-AllMove node issuer player costs))
]

plan_grant-AllMove :
    (node : Node) (grants : List ResolvedStack) (player : Text) (issuer : Option Text)
    → AllMove ((plan_grant node grants player issuer).steps)
unfolding plan_grant moving_steps
plan_grant-AllMove node grants player none = refl
plan_grant-AllMove node grants player (some issuer) =
    AllMove-append ((plan_grants node issuer player grants).steps) []
      (plan_grants-AllMove node issuer player grants) refl

plan_sink-AllMove :
    (node : Node) (policy : SinkPolicy) (costs : List ResolvedStack) (player : Text)
    (issuer : Option Text)
    → AllMove ((plan_sink node policy costs player issuer).steps)
unfolding plan_sink moving_steps
plan_sink-AllMove node to_nobody costs player issuer = plan_burns-AllMove node player costs
plan_sink-AllMove node to_issuer [] player none = refl
plan_sink-AllMove node to_issuer (cost ∷ costs) player none = refl
plan_sink-AllMove node to_issuer [] player (some issuer) =
    AllMove-append ((plan_payments node issuer player []).steps) []
      (plan_payments-AllMove node issuer player []) refl
plan_sink-AllMove node to_issuer (cost ∷ costs) player (some issuer) =
    AllMove-append ((plan_payments node issuer player (cost ∷ costs)).steps) []
      (plan_payments-AllMove node issuer player (cost ∷ costs)) refl

plan_exchange-moves :
    (context : PlanContext) (gated : Bool) (costs grants : List ResolvedStack) (player : Text)
    (issuer : Option Text)
    → 0 < length ((plan_exchange context gated costs grants player issuer).steps)
    → moving_steps ((plan_exchange context gated costs grants player issuer).steps) ≡ 1
unfolding plan_exchange plan_swap moving_steps
plan_exchange-moves context gated [] grants player issuer h = absurd (omega arith)
plan_exchange-moves context gated (cost ∷ costs) [] player issuer h = absurd (omega arith)
plan_exchange-moves context gated (cost ∷ costs) (given ∷ grants) player none h =
    absurd (omega arith)
plan_exchange-moves context gated (cost ∷ costs) (given ∷ grants) player (some issuer) h =
    ground arith

one_moves :
    (steps : List PlanStep)
    → AllMove steps
    → (ltb 0 (length steps) && leb (moving_steps steps) 1) ≡ true
    → moving_steps steps ≡ 1
one_moves steps h k = ground arith

plan_by-atomic :
    (context : PlanContext) (recipe : Recipe) (costs grants : List ResolvedStack) (player : Text)
    (issuer : Option Text) (strategy : RecipeStrategy)
    → recipe.strategy ≡ strategy
    → is_atomic recipe.strategy ((plan_by context recipe costs grants player issuer).steps) ≡ true
    → moving_steps ((plan_by context recipe costs grants player issuer).steps) ≡ 1
unfolding plan_by is_atomic
plan_by-atomic context recipe costs grants player issuer grant e = rw e (λ h.
    one_moves ((plan_grant context.node grants player issuer).steps)
      (plan_grant-AllMove context.node grants player issuer) h)
plan_by-atomic context recipe costs grants player issuer sink e = rw e (λ h.
    one_moves ((plan_sink context.node recipe.sink costs player issuer).steps)
      (plan_sink-AllMove context.node recipe.sink costs player issuer) h)
plan_by-atomic context recipe costs grants player issuer exchange e = rw e (λ h.
    plan_exchange-moves context (ltb 0 (length recipe.requires)) costs grants player issuer
      (ground arith))

two_reads :
    (first : Result Text) (second : Result (Option Text)) (f : Text → Option Text → Plan)
    (plan : Plan)
    → (do x ← first; y ← second; ok (f x y)) ≡ ok plan
    → (x : Text) × (y : Option Text) × (first ≡ ok x) × (second ≡ ok y) × (plan ≡ f x y)
two_reads (err _) second f plan e = cc
two_reads (ok x) (err _) f plan e = cc
two_reads (ok x) (ok y) f plan e = (x, y, refl, refl, ground arith)

module _ ⦃c : Crypto⦄ where
  build_plan-inv :
      (context : PlanContext) (recipe : Recipe) (options : PlanOptions) (plan : Plan)
      → build_plan context recipe options ≡ ok plan
      → (player : Text) × (declared : Option Text) × (player_of context options.player ≡ ok player)
        × (declared_issuer context recipe options.issuer ≡ ok declared)
        × (plan ≡ plan_for context recipe player declared)
  unfolding build_plan
  build_plan-inv context recipe options plan e =
      two_reads (player_of context options.player) (declared_issuer context recipe options.issuer)
        (λ player declared. plan_for context recipe player declared) plan e

  plan_for-atomic :
      (context : PlanContext) (recipe : Recipe) (player : Text) (declared : Option Text)
      → (plan_for context recipe player declared).atomic ≡ true
      → moving_steps ((plan_for context recipe player declared).steps) ≡ 1
  unfolding plan_for
  plan_for-atomic context recipe player declared h =
      plan_by-atomic context recipe ((plan_for context recipe player declared).costs)
        ((plan_for context recipe player declared).grants) player
        ((plan_for context recipe player declared).issuer) recipe.strategy refl h

  -- A plan that calls itself atomic has exactly one step that moves anything, for every recipe, node and player.
  pub build_plan-atomic :
      (context : PlanContext) (recipe : Recipe) (options : PlanOptions) (plan : Plan)
      → build_plan context recipe options ≡ ok plan
      → plan.atomic ≡ true
      → moving_steps plan.steps ≡ 1
  build_plan-atomic context recipe options plan e h =
      let (player, declared, _, _, shape) = build_plan-inv context recipe options plan e in
      let same =
        plan_for-atomic context recipe player declared (sym (ap (λ p. p.atomic) shape) ∙ h) in
      ap (λ p. moving_steps p.steps) shape ∙ same
