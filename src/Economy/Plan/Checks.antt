-- ===== src/Economy/Plan/Checks.antt =====
-- The checks of packages/economy/src/plan.ts against those of the ledger in packages/core/src/mock/ledger.ts.
use kei_transaction.Common.Tests.{
  ℕ, ◌+◌, ◌≡◌, ◌↔◌, ◌⊎◌, inl, inr, refl, sym, ap, ◌∙◌, Bool, true, false, not, ◌||◌, Option, none,
  some, [], arith, ltb,
}
use kei_transaction.Common.Eq.{list_beq_iff, ◌==◌, text_eq}
use kei_transaction.Js.Text.{Text}
use kei_transaction.Core.Errors.{ok, transfer_not_permitted}
use kei_transaction.Core.Blocks.{TransferPolicy, anyone, issuer_only, soulbound}
use kei_transaction.Ledger.State.{AssetRecord}
use kei_transaction.Ledger.Guards.{
  require_headroom, enforce_transfer_policy, require_swappable, permits,
}
use kei_transaction.Economy.Assets.{ResolvedStack}
use kei_transaction.Economy.Plan.{
  when, policy_permits, is_some_text, check_transferable, check_swappable, over_cap, is_kei,
}

-- A stack that tells the ledger's record of its asset.
pub record Tells (stack : ResolvedStack) (asset : AssetRecord) : Type 0 where
  pub told_issuer : stack.issuer ≡ some asset.issuer
  pub told_policy : stack.transfer_policy ≡ asset.transfer
  pub told_cap : stack.max_supply_raw ≡ asset.max_supply
  pub told_circulating : stack.circulating_raw ≡ asset.circulating

text_comm : (s t : Text) → (s == t) ≡ (t == s)
text_comm s t = ground (arith, list_beq_iff s t, list_beq_iff t s)

when-permits :
    (p : TransferPolicy) (b : Bool)
    → (when (not (policy_permits p b)) transfer_not_permitted ≡ []) ↔ (permits p b ≡ ok tt)
when-permits anyone b = (λ h. refl, λ h. refl)
when-permits issuer_only true = (λ h. refl, λ h. refl)
when-permits issuer_only false = (λ h. ground arith, λ h. ground arith)
when-permits soulbound b = (λ h. ground arith, λ h. ground arith)

names_party :
    (stack : ResolvedStack) (asset : AssetRecord)
    → Tells stack asset
    → (a b : Text)
    → (is_some_text stack.issuer a || is_some_text stack.issuer b)
      ≡ (a == asset.issuer || b == asset.issuer)
names_party stack asset t a b =
    rw (t.told_issuer, text_comm a asset.issuer, text_comm b asset.issuer) refl

-- A plan finds no fault with a transfer exactly when the ledger's policy lets it pass.
pub check_transferable-enforce_transfer_policy :
    (stack : ResolvedStack) (asset : AssetRecord)
    → Tells stack asset
    → (from to : Text)
    → (check_transferable stack from to ≡ []) ↔ (enforce_transfer_policy asset from to ≡ ok tt)
unfolding check_transferable enforce_transfer_policy
check_transferable-enforce_transfer_policy stack asset t from to =
    rw (names_party stack asset t from to, t.told_policy)
      (when-permits asset.transfer (from == asset.issuer || to == asset.issuer))

-- What the policy says of an offer that names its taker, and of one that anyone may take.
when-permits_open :
    (p : TransferPolicy) (from_issuer to_issuer : Bool)
    → (when (not (policy_permits p (from_issuer || to_issuer))) transfer_not_permitted ≡ [])
      ↔ ((permits p (from_issuer || false) ≡ ok tt) ⊎ ((p ≡ issuer_only) × (to_issuer ≡ true)))
when-permits_open anyone from_issuer to_issuer = (λ h. inl refl, λ h. refl)
when-permits_open issuer_only true to_issuer = (λ h. inl refl, λ h. refl)
when-permits_open issuer_only false true = (λ h. inr (refl, refl), λ h. refl)
when-permits_open issuer_only false false = (λ h. ground arith, λ h. ground arith)
when-permits_open soulbound from_issuer to_issuer = (λ h. ground arith, λ h. ground arith)

-- For a side of a swap of an issued asset, whose stack tells the ledger's record. A plan finds no
-- fault with it exactly when the ledger lets it be offered to that taker by name; and exactly when
-- the ledger lets it be offered to anyone, or its asset is issuer-only and the taker is the issuer.
pub check_swappable-require_swappable :
    (stack : ResolvedStack) (asset : AssetRecord)
    → Tells stack asset
    → is_kei stack ≡ false
    → (offerer counterparty : Text)
    → ((check_swappable stack offerer counterparty ≡ [])
        ↔ (require_swappable (some asset) offerer (some counterparty) ≡ ok tt))
      × ((check_swappable stack offerer counterparty ≡ []) ↔ (
          (require_swappable (some asset) offerer none ≡ ok tt)
          ⊎ ((asset.transfer ≡ issuer_only) × ((counterparty == asset.issuer) ≡ true))))
unfolding check_swappable require_swappable
check_swappable-require_swappable stack asset t issued offerer counterparty =
    rw (issued, names_party stack asset t offerer counterparty, t.told_policy)
      (
        when-permits asset.transfer (offerer == asset.issuer || counterparty == asset.issuer),
        when-permits_open asset.transfer (offerer == asset.issuer) (counterparty == asset.issuer),
      )

abbrev caps : Option ℕ → ℕ → Bool
caps none total = false
caps (some limit) total = ltb limit total

headroom_lem :
    (cap : Option ℕ) (asset : AssetRecord) (n : ℕ)
    → asset.max_supply ≡ cap
    → (caps cap (asset.circulating + n) ≡ false) ↔ (require_headroom asset n ≡ ok tt)
unfolding require_headroom
headroom_lem none asset n e = (λ h. rw e refl, λ h. refl)
headroom_lem (some limit) asset n e = (λ h. rw (e, h) refl, λ h. ground (arith, e, h))

over_cap-caps :
    (stack : ResolvedStack)
    → over_cap stack ≡ caps stack.max_supply_raw (stack.circulating_raw + stack.raw)
over_cap-caps stack = ground arith

-- A mint is over the cap of a plan exactly when the ledger has no headroom for it.
pub over_cap-require_headroom :
    (stack : ResolvedStack) (asset : AssetRecord)
    → Tells stack asset
    → (over_cap stack ≡ false) ↔ (require_headroom asset stack.raw ≡ ok tt)
unfolding require_headroom
over_cap-require_headroom stack asset t =
    let same : over_cap stack ≡ caps asset.max_supply (asset.circulating + stack.raw) =
      over_cap-caps stack
      ∙ ap (λ cap. caps cap (stack.circulating_raw + stack.raw)) t.told_cap
      ∙ ap (λ n. caps asset.max_supply (n + stack.raw)) t.told_circulating in
    let lem = headroom_lem asset.max_supply asset stack.raw refl in
    (λ h. lem.0 (sym same ∙ h), λ h. same ∙ lem.1 h)
