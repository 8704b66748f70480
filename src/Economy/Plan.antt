-- ===== src/Economy/Plan.antt =====
-- packages/economy/src/plan.ts. A problem or a warning is its code; what a plan tells a reader (messages, `explain`,
-- the sum that explains a shortfall) is left out. The market's listing of offers is a function of the context.
pub mod Checks
pub mod Steps
pub mod Atomic
use kei_transaction.Common.Tests.{
  ℕ, suc, ◌+◌, Bool, true, false, not, ◌&&◌, ◌||◌, Option, none, some, List, [], ◌∷◌, ◌++◌, eqb,
  leb, ltb, if◌then◌else◌,
}
use kei_transaction.Common.Eq.{◌==◌, text_eq}
use kei_transaction.Common.Lists.{length}
use kei_transaction.Dict.{mem}
use kei_transaction.Js.Text.{Text, upper}
use kei_transaction.Core.Errors.{
  Result, ok, err, Code, no_issuer, insufficient_kei, not_issuer, over_max_supply,
  granting_to_yourself, mint_per_player, cannot_burn_kei, issuer_holds_it, same_asset, self_swap,
  requires_not_enforced, no_stock, no_listing, not_the_counterparty, requirement_unmet,
  insufficient_balance, transfer_not_permitted, not_one_block, ◌>>=◌,
}
use kei_transaction.Core.Crypto.{Crypto}
use kei_transaction.Core.Address.{assert_address}
use kei_transaction.Core.Blocks.{kei_asset, TransferPolicy, anyone, issuer_only, soulbound}
use kei_transaction.Economy.Recipe.{
  Stack, Recipe, RecipeStrategy, grant, sink, exchange, SinkPolicy, to_issuer, to_nobody,
}
use kei_transaction.Economy.Assets.{
  Node, OfferFacts, OfferState, open_offer, accepted_offer, cancelled_offer, ResolvedStack,
  resolve_stack, spendable_raw,
}

pub data Signer : Type 0 where
  by_issuer by_player : Signer

pub data StepAction : Type 0 where
  mint_step send_step burn_step transfer_step offer_step accept_step : StepAction

pub record PlanStep : Type 0 where
  pub signer : Signer
  pub signed_by : Text
  pub action : StepAction
  pub stack : ResolvedStack
  pub to : Option Text

-- What a planning function pushes, in order.
pub record Outcome : Type 0 where
  pub steps : List PlanStep
  pub problems : List Code
  pub warnings : List Code

pub record Plan : Type 0 where
  pub recipe : Recipe
  pub strategy : RecipeStrategy
  pub player : Text
  pub issuer : Option Text
  pub atomic : Bool
  pub requires : List ResolvedStack
  pub costs : List ResolvedStack
  pub grants : List ResolvedStack
  pub steps : List PlanStep
  pub problems : List Code
  pub warnings : List Code

-- An offer that the market lists: its hash and whom it is reserved for.
pub record Offer : Type 0 where
  pub hash : Text
  pub to : Option Text

-- `offers` lists the open offers from an account that give one asset for another.
pub record PlanContext : Type 0 where
  pub node : Node
  pub is_issuer : Bool
  pub address : Text
  pub offers : Text → Text → Text → List Offer

pub record PlanOptions : Type 0 where
  pub player : Option Text
  pub issuer : Option Text

abbrev pub when : Bool → Code → List Code
when true code = code ∷ []
when false code = []

abbrev pub is_kei : ResolvedStack → Bool
is_kei stack = stack.asset == kei_asset

abbrev pub step : Signer → Text → StepAction → ResolvedStack → Option Text → PlanStep
step signer signed_by action stack to = record {
  signer = signer;
  signed_by = signed_by;
  action = action;
  stack = stack;
  to = to;
}

abbrev pub is_some_text : Option Text → Text → Bool
is_some_text none s = false
is_some_text (some t) s = t == s

abbrev pub policy_permits : TransferPolicy → Bool → Bool
policy_permits anyone _ = true
policy_permits issuer_only to_or_from_issuer = to_or_from_issuer
policy_permits soulbound _ = false

unfoldable pub check_transferable : ResolvedStack → Text → Text → List Code
check_transferable stack from to =
    when
      (not (
        policy_permits stack.transfer_policy
          (is_some_text stack.issuer from || is_some_text stack.issuer to)))
      transfer_not_permitted

unfoldable pub check_swappable : ResolvedStack → Text → Text → List Code
check_swappable stack offerer counterparty =
    when
      (not (
        is_kei stack
        || policy_permits stack.transfer_policy
            (is_some_text stack.issuer offerer || is_some_text stack.issuer counterparty)))
      transfer_not_permitted

unfoldable pub check_requirements : Node → List ResolvedStack → Text → List Code
check_requirements node [] player = []
check_requirements node (requirement ∷ requires) player =
    when (ltb (spendable_raw node requirement player) requirement.raw) requirement_unmet
    ++ check_requirements node requires player

unfoldable pub check_affordable : Node → ResolvedStack → Text → List Code
check_affordable node cost player =
    when (ltb (spendable_raw node cost player) cost.raw)
      (if is_kei cost then insufficient_kei else insufficient_balance)

-- `grant.maxSupplyRaw !== null && circulating + raw > maxSupplyRaw`
abbrev pub over_cap : ResolvedStack → Bool
over_cap stack = elim stack.max_supply_raw [
  | none ↦ false
  | some cap ↦ ltb cap (stack.circulating_raw + stack.raw)
]

-- One turn of the loop over the grants.
unfoldable pub plan_one_grant : Node → Text → Text → ResolvedStack → Outcome
plan_one_grant node issuer player given =
    if is_kei given
    then record {
      steps = step by_issuer issuer send_step given (some player) ∷ [];
      problems = when (ltb (spendable_raw node given issuer) given.raw) insufficient_kei;
      warnings = [];
    }
    else if not (is_some_text given.issuer issuer)
    then record { steps = []; problems = not_issuer ∷ []; warnings = [] }
    else record {
      steps = step by_issuer issuer mint_step given (some player) ∷ [];
      problems = when (over_cap given) over_max_supply;
      warnings = [];
    }

abbrev pub both : Outcome → Outcome → Outcome
both first rest = record {
  steps = first.steps ++ rest.steps;
  problems = first.problems ++ rest.problems;
  warnings = first.warnings ++ rest.warnings;
}

abbrev pub nothing_yet : Outcome
nothing_yet = record { steps = []; problems = []; warnings = [] }

unfoldable pub plan_grants : Node → Text → Text → List ResolvedStack → Outcome
unfolding plan_one_grant
plan_grants node issuer player [] = nothing_yet
plan_grants node issuer player (given ∷ grants) =
    both (plan_one_grant node issuer player given) (plan_grants node issuer player grants)

unfoldable pub plan_grant : Node → List ResolvedStack → Text → Option Text → Outcome
unfolding plan_grants
plan_grant node grants player none = record {
  steps = [];
  problems = when (ltb 0 (length grants)) no_issuer;
  warnings = [];
}
plan_grant node grants player (some issuer) = both (plan_grants node issuer player grants) (record {
  steps = [];
  problems = [];
  warnings =
      when (player == issuer && ltb 0 (length grants)) granting_to_yourself
      ++ when (ltb 8 (length grants)) mint_per_player;
})

-- One turn of the loop over the costs of a sink that burns, and of one that pays the issuer.
unfoldable pub plan_one_burn : Node → Text → ResolvedStack → Outcome
unfolding check_affordable
plan_one_burn node player cost = record {
  steps = if is_kei cost then [] else step by_player player burn_step cost none ∷ [];
  problems = check_affordable node cost player ++ when (is_kei cost) cannot_burn_kei;
  warnings = [];
}

unfoldable pub plan_one_payment : Node → Text → Text → ResolvedStack → Outcome
unfolding check_affordable check_transferable
plan_one_payment node issuer player cost = record {
  steps =
      step by_player player (if is_kei cost then send_step else transfer_step) cost (some issuer)
      ∷ [];
  problems =
      check_affordable node cost player
      ++ (if is_kei cost then [] else check_transferable cost player issuer);
  warnings = [];
}

unfoldable pub plan_burns : Node → Text → List ResolvedStack → Outcome
unfolding plan_one_burn
plan_burns node player [] = nothing_yet
plan_burns node player (cost ∷ costs) =
    both (plan_one_burn node player cost) (plan_burns node player costs)

unfoldable pub plan_payments : Node → Text → Text → List ResolvedStack → Outcome
unfolding plan_one_payment
plan_payments node issuer player [] = nothing_yet
plan_payments node issuer player (cost ∷ costs) =
    both (plan_one_payment node issuer player cost) (plan_payments node issuer player costs)

abbrev pub holds_it : Outcome
holds_it = record { steps = []; problems = []; warnings = issuer_holds_it ∷ [] }

unfoldable pub plan_sink : Node → SinkPolicy → List ResolvedStack → Text → Option Text → Outcome
unfolding plan_burns plan_payments
plan_sink node to_nobody costs player issuer = plan_burns node player costs
plan_sink node to_issuer [] player none = holds_it
plan_sink node to_issuer (cost ∷ costs) player none = record {
  steps = [];
  problems = no_issuer ∷ [];
  warnings = [];
}
plan_sink node to_issuer costs player (some issuer) =
    both (plan_payments node issuer player costs) holds_it

abbrev same_id : Text → Text → Bool
same_id a b = upper a == upper b

abbrev is_open : OfferState → Bool
is_open open_offer = true
is_open accepted_offer = false
is_open cancelled_offer = false

unfoldable pub raw_terms_match : OfferFacts → Text → ResolvedStack → ResolvedStack → Bool
raw_terms_match raw issuer cost given =
    is_open raw.state
    && raw.from == issuer
    && same_id raw.asset given.asset
    && same_id raw.want_asset cost.asset
    && eqb raw.amount given.raw
    && eqb raw.want_amount cost.raw

unfoldable pub exact_hashes : List OfferFacts → Text → ResolvedStack → ResolvedStack → List Text
unfolding raw_terms_match
exact_hashes [] issuer cost given = []
exact_hashes (raw ∷ raws) issuer cost given =
    let rest = exact_hashes raws issuer cost given in
    if raw_terms_match raw issuer cost given then raw.hash ∷ rest else rest

unfoldable pub offers_in : List Text → List Offer → List Offer
offers_in hashes [] = []
offers_in hashes (offer ∷ offers) =
    let rest = offers_in hashes offers in if mem offer.hash hashes then offer ∷ rest else rest

-- No offer of the market is asked for when no hash is exact; none would be kept.
unfoldable pub matching_offers : PlanContext → Text → ResolvedStack → ResolvedStack → List Offer
unfolding exact_hashes offers_in
matching_offers context issuer cost given =
    offers_in (exact_hashes (context.node.account_swaps issuer) issuer cost given)
      (context.offers issuer given.asset cost.asset)

abbrev may_take : Option Text → Text → Bool
may_take none player = true
may_take (some to) player = to == player

unfoldable pub acceptable_by : List Offer → Text → List Offer
acceptable_by [] player = []
acceptable_by (offer ∷ offers) player =
    let rest = acceptable_by offers player in
    if may_take offer.to player then offer ∷ rest else rest

unfoldable pub terms_match : PlanContext → Text → Text → ResolvedStack → ResolvedStack → Bool
unfolding raw_terms_match
terms_match context offer issuer cost given = elim (context.node.swap_offer offer) [
  | none ↦ false
  | some raw ↦ raw_terms_match raw issuer cost given
]

-- The check of the side that asks: the issuer's stock, or the offers that the player could take.
unfoldable pub check_backing : PlanContext → Text → Text → ResolvedStack → ResolvedStack → List Code
unfolding matching_offers acceptable_by
check_backing context issuer player cost given =
    if context.is_issuer && context.address == issuer
    then when (ltb (spendable_raw context.node given issuer) given.raw)
        (if is_kei given then insufficient_kei else no_stock)
    else (let listings = matching_offers context issuer cost given in
        when (eqb (length (acceptable_by listings player)) 0)
          (if eqb (length listings) 0 then no_listing else not_the_counterparty))

abbrev pub refused : Code → Outcome
refused code = record { steps = []; problems = code ∷ []; warnings = [] }

unfoldable pub plan_swap :
    PlanContext → Bool → ResolvedStack → ResolvedStack → Text → Text → Outcome
unfolding check_swappable check_affordable check_backing
plan_swap context gated cost given player issuer = record {
  steps =
      step by_issuer issuer offer_step given none
      ∷ step by_player player accept_step cost (some issuer)
      ∷ [];
  problems =
      check_swappable given issuer player
      ++ (check_swappable cost issuer player
          ++ (check_affordable context.node cost player
              ++ check_backing context issuer player cost given));
  warnings = when gated requires_not_enforced;
}

unfoldable pub plan_exchange :
    PlanContext → Bool → List ResolvedStack → List ResolvedStack → Text → Option Text → Outcome
unfolding plan_swap
plan_exchange context gated [] grants player issuer = nothing_yet
plan_exchange context gated (cost ∷ costs) [] player issuer = nothing_yet
plan_exchange context gated (cost ∷ costs) (given ∷ grants) player none = refused no_issuer
plan_exchange context gated (cost ∷ costs) (given ∷ grants) player (some issuer) =
    if cost.asset == given.asset
    then refused same_asset
    else if player == issuer
    then refused self_swap
    else plan_swap context gated cost given player issuer

abbrev moves : StepAction → Bool
moves offer_step = false
moves _ = true

unfoldable pub moving_steps : List PlanStep → ℕ
moving_steps [] = 0
moving_steps (s ∷ steps) = (if moves s.action then 1 else 0) + moving_steps steps

abbrev first_issuer : List ResolvedStack → Option Text
first_issuer [] = none
first_issuer (stack ∷ stacks) = stack.issuer

-- `x ?? y`
abbrev or_this : Option Text → Option Text → Option Text
or_this none y = y
or_this (some x) y = some x

abbrev costs_issuer : SinkPolicy → List ResolvedStack → Option Text
costs_issuer to_nobody costs = none
costs_issuer to_issuer costs = first_issuer costs

unfoldable pub plan_by :
    PlanContext → Recipe → List ResolvedStack → List ResolvedStack → Text → Option Text → Outcome
unfolding plan_grant plan_sink plan_exchange
plan_by context recipe costs grants player issuer = elim recipe.strategy [
  | grant ↦ plan_grant context.node grants player issuer
  | sink ↦ plan_sink context.node recipe.sink costs player issuer
  | exchange ↦ plan_exchange context (ltb 0 (length recipe.requires)) costs grants player issuer
]

abbrev is_exchange : RecipeStrategy → Bool
is_exchange exchange = true
is_exchange grant = false
is_exchange sink = false

unfoldable pub is_atomic : RecipeStrategy → List PlanStep → Bool
unfolding moving_steps
is_atomic strategy steps =
    ltb 0 (length steps) && (is_exchange strategy || leb (moving_steps steps) 1)

module _ ⦃c : Crypto⦄ where
  -- The stacks that resolve, and the codes of those that do not.
  unfoldable pub resolve_all : Node → List Stack → Option Text → List ResolvedStack × List Code
  resolve_all node [] fallback = ([], [])
  resolve_all node (stack ∷ stacks) fallback =
      let (out, problems) = resolve_all node stacks fallback in
      elim (resolve_stack node stack fallback) [
        | err code ↦ (out, code ∷ problems)
        | ok resolved ↦ (resolved ∷ out, problems)
      ]

  abbrev pub player_of : PlanContext → Option Text → Result Text
  player_of context none = ok context.address
  player_of context (some player) = assert_address player

  abbrev pub declared_issuer : PlanContext → Recipe → Option Text → Result (Option Text)
  declared_issuer context recipe (some issuer) = do known ← assert_address issuer; ok (some known)
  declared_issuer context recipe none =
      ok (or_this recipe.issuer (if context.is_issuer then some context.address else none))

  -- The plan once the player and the declared issuer are known.
  unfoldable pub plan_for : PlanContext → Recipe → Text → Option Text → Plan
  unfolding resolve_all plan_by check_requirements is_atomic
  plan_for context recipe player declared =
      let requires = resolve_all context.node recipe.requires declared in
      let costs = resolve_all context.node recipe.costs declared in
      let grants = resolve_all context.node recipe.grants declared in
      let issuer =
        or_this declared (or_this (first_issuer (grants.0)) (costs_issuer recipe.sink (costs.0))) in
      let planned = plan_by context recipe (costs.0) (grants.0) player issuer in
      let atomic = is_atomic recipe.strategy planned.steps in
      record {
        recipe = recipe;
        strategy = recipe.strategy;
        player = player;
        issuer = issuer;
        atomic = atomic;
        requires = requires.0;
        costs = costs.0;
        grants = grants.0;
        steps = planned.steps;
        problems =
            requires.1
            ++ (costs.1
                ++ (grants.1
                    ++ (check_requirements context.node (requires.0) player ++ planned.problems)));
        warnings =
            planned.warnings ++ when (not atomic && ltb 1 (length planned.steps)) not_one_block;
      }

  unfoldable pub build_plan : PlanContext → Recipe → PlanOptions → Result Plan
  unfolding plan_for
  build_plan context recipe options = do
    player ← player_of context options.player
    declared ← declared_issuer context recipe options.issuer
    ok (plan_for context recipe player declared)

unfoldable pub assert_runnable : Plan → Result (Unit {0})
assert_runnable plan = elim plan.problems [ [] ↦ ok tt | code ∷ problems ↦ err code ]
