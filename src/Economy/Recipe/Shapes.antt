-- ===== src/Economy/Recipe/Shapes.antt =====
-- What `defineRecipe` of packages/economy/src/recipe.ts lets through.
use kei_transaction.Common.Tests.{ℕ, ◌<◌, ◌≡◌, Bool, true, false, Option, List, [], ◌∷◌, arith, eqb}
use kei_transaction.Common.Lists.{length, all}
use kei_transaction.Js.Text.{Text, trim}
use kei_transaction.Core.Errors.{ok}
use kei_transaction.Core.Crypto.{Crypto}
use kei_transaction.Economy.Recipe.{
  Stack, RecipeStrategy, grant, sink, exchange, SinkPolicy, to_issuer, RecipeSpec, Recipe,
  names_an_asset, normalize_stack, stacks, strategy_for, sink_for, define_recipe, is_recipe,
}

abbrev all_named : List Stack → Bool
all_named list = all (λ (stack : Stack). names_an_asset stack.asset) list

normalize_stack-named :
    (stack s : Stack) → normalize_stack stack ≡ ok s → names_an_asset s.asset ≡ true
unfolding normalize_stack
normalize_stack-named stack s e = ground arith

stacks-named : (input out : List Stack) → stacks input ≡ ok out → all_named out ≡ true
unfolding stacks
stacks-named [] out e = ground arith
stacks-named (stack ∷ input) out e = grind (arith, normalize_stack-named stack, stacks-named input)

-- The lengths and the sink that each strategy stands for.
abbrev pub Fits : RecipeStrategy → ℕ → ℕ → SinkPolicy → Type 0
Fits grant costs grants policy = (costs ≡ 0) × (0 < grants)
Fits sink costs grants policy = (0 < costs) × (grants ≡ 0)
Fits exchange costs grants policy = (costs ≡ 1) × (grants ≡ 1) × (policy ≡ to_issuer)

strategy_for-Fits :
    (costs grants : List Stack) (given : Option Text) (strategy : RecipeStrategy)
    (policy : SinkPolicy)
    → strategy_for costs grants ≡ ok strategy
    → sink_for given costs grants ≡ ok policy
    → Fits strategy (length costs) (length grants) policy
unfolding strategy_for sink_for
strategy_for-Fits [] [] given strategy policy e f = ground arith
strategy_for-Fits [] (g ∷ grants) given grant policy e f = ground arith
strategy_for-Fits [] (g ∷ grants) given sink policy e f = ground arith
strategy_for-Fits [] (g ∷ grants) given exchange policy e f = ground arith
strategy_for-Fits (k ∷ costs) [] given grant policy e f = ground arith
strategy_for-Fits (k ∷ costs) [] given sink policy e f = ground arith
strategy_for-Fits (k ∷ costs) [] given exchange policy e f = ground arith
strategy_for-Fits (k ∷ costs) (g ∷ grants) given grant policy e f = ground arith
strategy_for-Fits (k ∷ costs) (g ∷ grants) given sink policy e f = ground arith
strategy_for-Fits (k ∷ costs) (g ∷ grants) given exchange policy e f = ground arith

module _ ⦃c : Crypto⦄ where
  -- The checks that a recipe has passed.
  pub record Defined (spec : RecipeSpec) (recipe : Recipe) : Type 0 where
    pub present : eqb (length (trim spec.id)) 0 ≡ false
    pub id_of : recipe.id ≡ trim spec.id
    pub requires_of : stacks spec.requires ≡ ok recipe.requires
    pub costs_of : stacks spec.costs ≡ ok recipe.costs
    pub grants_of : stacks spec.grants ≡ ok recipe.grants
    pub strategy_of : strategy_for recipe.costs recipe.grants ≡ ok recipe.strategy
    pub sink_of : sink_for spec.sink recipe.costs recipe.grants ≡ ok recipe.sink

  define_recipe-inv :
      (spec : RecipeSpec) (recipe : Recipe) → define_recipe spec ≡ ok recipe → Defined spec recipe
  unfolding define_recipe
  define_recipe-inv spec recipe e = grind arith

  -- A recipe that has been defined is one of three shapes, as its strategy says: a grant costs nothing,
  -- a sink grants nothing, and an exchange takes one asset and gives one, with what it takes going to the issuer.
  -- Frozen, it is a recipe to `isRecipe`.
  pub define_recipe-shape :
      (spec : RecipeSpec) (recipe : Recipe)
      → define_recipe spec ≡ ok recipe
      → Fits recipe.strategy (length recipe.costs) (length recipe.grants) recipe.sink
        × (is_recipe true recipe ≡ true)
  unfolding is_recipe
  define_recipe-shape spec recipe e =
      let d = define_recipe-inv spec recipe e in
      (
        strategy_for-Fits recipe.costs recipe.grants spec.sink recipe.strategy recipe.sink
            d.strategy_of d.sink_of,
        ground (
          arith,
          d.present,
          d.id_of,
          stacks-named spec.requires recipe.requires d.requires_of,
          stacks-named spec.costs recipe.costs d.costs_of,
          stacks-named spec.grants recipe.grants d.grants_of,
        ),
      )
