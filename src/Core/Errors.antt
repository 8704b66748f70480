-- ===== src/Core/Errors.antt =====
-- packages/core/src/errors.ts: a call that throws `KeiError` returns its code. Messages are left
-- out. The codes are those of the modelled operations.
use kei_transaction.Common.Tests.{◌≡◌, refl, Bool, true, false, arith, Option, none, some}

pub data Code : Type 0 where
  bad_genesis bad_previous fork reserve_representative bad_work bad_signature bad_balance : Code
  reserve_locked no_memo_yet bad_link bad_send bad_receive bad_change insufficient_kei : Code
  bad_issuance_burn bad_asset_balance already_issued bad_name bad_decimals : Code
  bad_transfer_policy bad_swap_policy bad_max_supply not_issuer wrong_block_type bad_root : Code
  duplicate_root bad_commit no_such_root root_closed already_claimed wrong_asset bad_proof : Code
  self_swap bad_expiry self_accept not_the_counterparty swap_terms_mismatch not_your_offer : Code
  bad_swap transfer_not_permitted no_such_offer offer_taken offer_cancelled no_such_asset : Code
  over_max_supply too_many_assets insufficient_balance no_such_receivable not_recipient : Code
  no_faucet no_such_account bad_amount bad_symbol bad_hex overflow bad_address : Code
  bad_recipe duplicate_recipe empty_recipe not_one_block bad_sink bad_stack bad_asset : Code
  no_issuer bad_issuer bad_drop_table empty_drop_table no_weight duplicate_drop_table : Code
  bad_random bad_digest bad_nonce bad_award wrong_table table_changed unbound_drop : Code
  not_in_drop bad_drop bad_weight requirement_unmet cannot_burn_kei same_asset no_stock : Code
  no_headroom no_players duplicate_player not_issuer_context wrong_issuer : Code
  undeclared_drop unanchored_table invalid_node_response no_listing granting_to_yourself
        mint_per_player issuer_holds_it requires_not_enforced :
      Code
  bad_public_key bad_salt bad_block empty_commit not_in_commit too_precise : Code

pub data Result {ℓ} (Value : Type ℓ) : Type ℓ where
  err : Code → Result Value
  ok : Value → Result Value

infixl 5 ◌>>=◌
-- A throw ends what follows.
abbrev pub ◌>>=◌ {ℓ κ} :
    {Value : Type ℓ} {Next : Type κ} → Result Value → (Value → Result Next) → Result Next
err code >>= next = err code
ok value >>= next = next value

infixl 5 ◌>>◌
abbrev pub ◌>>◌ {ℓ} : {Next : Type ℓ} → Result (Unit {0}) → Result Next → Result Next
check >> next = check >>= (λ passed. next)

-- `if (b) fail(c)`
abbrev pub fail_if : Bool → Code → Result (Unit {0})
fail_if true c = err c
fail_if false c = ok tt

-- `x ?? fail(c)`
abbrev pub or_fail {ℓ} : {A : Type ℓ} → Option A → Code → Result A
or_fail none c = err c
or_fail (some a) c = ok a

-- A successful chain, taken apart.
pub >>=-eq-ok {ℓ κ} :
    {Value : Type ℓ} {Next : Type κ} (first : Result Value) (next : Value → Result Next)
    → {result : Next} → first >>= next ≡ ok result
    → (value : Value) × (first ≡ ok value) × (next value ≡ ok result)
>>=-eq-ok (err code) next e = cc
>>=-eq-ok (ok value) next e = (value, refl, e)

pub fail_if-eq-ok {ℓ} :
    {B : Type ℓ} (t : Bool) (c : Code) (m : Result B) {b : B}
    → (fail_if t c >> m) ≡ ok b
    → (t ≡ false) × (m ≡ ok b)
fail_if-eq-ok true c m h = cc
fail_if-eq-ok false c m h = (refl, h)

pub or_fail-eq-ok {ℓ} :
    {A : Type ℓ} (o : Option A) (c : Code) {a : A} → or_fail o c ≡ ok a → o ≡ some a
or_fail-eq-ok o c h = ground arith
