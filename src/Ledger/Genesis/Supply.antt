-- ===== src/Ledger/Genesis/Supply.antt =====
-- The ledger of genesis (packages/core/src/mock/ledger.ts) holds the whole supply of Kei.
use kei_transaction.Common.Tests.{ℕ, ◌+◌, ◌*◌, ◌≡◌, refl, ◌∙◌, none, List, [], ◌∷◌, arith}
use mathlib.Core.Path.{subst}
use kei_transaction.Common.Eq.{text_eq}
use kei_transaction.Dict.{lookup}
use kei_transaction.Dict.Laws.{lookup-insert_ne}
use kei_transaction.Dict.Sum.{sum_of, sum-insert}
use kei_transaction.Js.Text.{Text}
use kei_transaction.Core.Errors.{ok, >>=-eq-ok}
use kei_transaction.Core.Amount.{kei_unit, kei_total_supply}
use kei_transaction.Core.Crypto.{Crypto, hash_block}
use kei_transaction.Ledger.State.{Ledger, LedgerAccount, Thresholds}
use kei_transaction.Ledger.Genesis.{
  genesis_account, GenesisRole, GenesisKey, allocation_kei, seat, seat_all, build_genesis,
  genesis_body, empty_ledger, genesis_roles,
}
use kei_transaction.Ledger.Supply.{
  kei_total, balance_total, circulating_of, held_total, receivable_total, locked_total,
  burned_total,
}
use kei_transaction.Ledger.Effect.{IsValid}

-- The fields that the rounds of genesis never write.
pub record IsBare (s : Ledger) : Type 0 where
  pub assets : s.assets ≡ []
  pub holdings : s.holdings ≡ []
  pub receivables : s.receivables ≡ []
  pub locks : s.locks ≡ []
  pub issuances : s.issued_by_account ≡ []

module _ ⦃c : Crypto⦄ (keys : GenesisRole → GenesisKey) where
  -- No account of the list has been seated.
  abbrev Unseated : List GenesisRole → Ledger → Type 0
  Unseated [] s = Unit {0}
  Unseated (role ∷ roles) s = (lookup (keys role).address s.accounts ≡ none) × Unseated roles s

  abbrev Apart : GenesisRole → List GenesisRole → Type 0
  Apart role [] = Unit {0}
  Apart role (other ∷ roles) = ((keys role).address ≡ (keys other).address → ⊥) × Apart role roles

  -- Distinct seeds have distinct addresses.
  abbrev pub AllApart : List GenesisRole → Type 0
  AllApart [] = Unit {0}
  AllApart (role ∷ roles) = Apart role roles × AllApart roles

  seat-Unseated :
      (role : GenesisRole) (roles : List GenesisRole) (hash : Text) (s : Ledger)
      → Apart role roles
      → Unseated roles s
      → Unseated roles (seat keys role hash s)
  unfolding seat
  seat-Unseated role [] hash s apart free = tt
  seat-Unseated role (other ∷ roles) hash s apart free = (
    lookup-insert_ne (keys other).address (keys role).address _ s.accounts apart.0 ∙ free.0,
    seat-Unseated role roles hash s apart.1 free.1,
  )

  balance_total-seat :
      (role : GenesisRole) (hash : Text) (s : Ledger)
      → lookup (keys role).address s.accounts ≡ none
      → balance_total (seat keys role hash s) ≡ balance_total s + allocation_kei role * kei_unit
  unfolding seat balance_total
  balance_total-seat role hash s free = ground (
    arith,
    sum-insert (λ (k : Text) (a : LedgerAccount). a.balance) (keys role).address
        (genesis_account keys role hash) s.accounts,
    free,
  )

  seat-IsBare :
      (role : GenesisRole) (hash : Text) (s : Ledger) → IsBare s → IsBare (seat keys role hash s)
  unfolding seat
  seat-IsBare role hash s h = record {
    assets = h.assets;
    holdings = h.holdings;
    receivables = h.receivables;
    locks = h.locks;
    issuances = h.issuances;
  }

  abbrev total_of : List GenesisRole → ℕ
  total_of [] = 0
  total_of (role ∷ roles) = allocation_kei role * kei_unit + total_of roles

  seat_all-total :
      (roles : List GenesisRole) (s t : Ledger)
      → AllApart roles
      → Unseated roles s
      → IsBare s
      → seat_all keys roles s ≡ ok t
      → IsBare t × (balance_total t ≡ balance_total s + total_of roles)
  unfolding seat_all
  seat_all-total [] s t apart free bare e =
      let same : s ≡ t = ground arith in
      subst (λ u. IsBare u × (balance_total u ≡ balance_total s + 0)) same (bare, omega arith)
  seat_all-total (role ∷ roles) s t apart free bare e =
      let (hash, _, rest) =
        >>=-eq-ok (hash_block (genesis_body keys role))
          (λ h. seat_all keys roles (seat keys role h s)) e in
      let (bare', total) =
        seat_all-total roles (seat keys role hash s) t apart.1
          (seat-Unseated role roles hash s apart.0 free.1) (seat-IsBare role hash s bare) rest in
      (bare', omega (arith, total, balance_total-seat role hash s free.0))

  total_of_genesis : total_of genesis_roles ≡ kei_total_supply
  unfolding allocation_kei
  total_of_genesis = refl

  genesis-inv :
      (thresholds : Thresholds) (s : Ledger)
      → build_genesis keys thresholds ≡ ok s
      → seat_all keys genesis_roles (empty_ledger thresholds) ≡ ok s
  unfolding build_genesis
  genesis-inv thresholds s e = e

  IsBare-IsValid : (s : Ledger) → IsBare s → IsValid s
  unfolding circulating_of held_total receivable_total locked_total lookup sum_of
  IsBare-IsValid s bare = record {
    shape = record {
      asset_fits = rw bare.assets tt;
      receivable_fits = rw bare.receivables tt;
      lock_fits = rw bare.locks tt;
      pending_lock = λ k l e p. rw bare.receivables refl;
    };
    balanced = λ x not_kei. rw (bare.assets, bare.holdings, bare.receivables, bare.locks);
  }

  IsBare-kei : (s : Ledger) → IsBare s → kei_total s ≡ balance_total s
  unfolding receivable_total locked_total burned_total sum_of
  IsBare-kei s bare = rw (bare.receivables, bare.locks, bare.issuances) (omega arith)

  empty_total : (thresholds : Thresholds) → balance_total (empty_ledger thresholds) ≡ 0
  unfolding balance_total sum_of
  empty_total thresholds = refl

  genesis_filled :
      (thresholds : Thresholds) (s : Ledger)
      → AllApart genesis_roles
      → build_genesis keys thresholds ≡ ok s
      → IsBare s
        × (balance_total s ≡ balance_total (empty_ledger thresholds) + total_of genesis_roles)
  unfolding lookup
  genesis_filled thresholds s apart e =
      seat_all-total genesis_roles (empty_ledger thresholds) s apart
        (refl, (refl, (refl, (refl, (refl, tt)))))
        (record {
          assets = refl;
          holdings = refl;
          receivables = refl;
          locks = refl;
          issuances = refl;
        })
        (genesis-inv thresholds s e)

  pub genesis-IsBare :
      (thresholds : Thresholds) (s : Ledger)
      → AllApart genesis_roles
      → build_genesis keys thresholds ≡ ok s
      → IsBare s
  genesis-IsBare thresholds s apart e = (genesis_filled thresholds s apart e).0

  -- Genesis puts exactly the total supply of Kei into the five accounts, if those have five
  -- addresses, and its ledger is valid.
  pub genesis_supply :
      (thresholds : Thresholds) (s : Ledger)
      → AllApart genesis_roles
      → build_genesis keys thresholds ≡ ok s
      → IsValid s × (kei_total s ≡ kei_total_supply)
  genesis_supply thresholds s apart e =
      let (bare, total) = genesis_filled thresholds s apart e in
      (
        IsBare-IsValid s bare,
        IsBare-kei s bare ∙ total ∙ rw (empty_total thresholds, total_of_genesis) (omega arith),
      )
