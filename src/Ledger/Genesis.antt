-- ===== src/Ledger/Genesis.antt =====
-- packages/core/src/mock/ledger.ts: the genesis allocation, `buildGenesis` and the empty ledger. The
-- keys that `keyPairFromSeed` derives from the fixed seeds are a parameter.
pub mod Supply
use kei_transaction.Common.Tests.{
  ℕ, zero, suc, ◌+◌, ◌*◌, ◌≡◌, not, Option, none, some, List, [], ◌∷◌, eqb, if◌then◌else◌,
}
use kei_transaction.Common.Eq.{text_eq}
use kei_transaction.Common.Lists.{replicate}
use kei_transaction.Dict.{insert, add}
use kei_transaction.Js.Text.{Text}
use kei_transaction.Core.Errors.{Code, Result, ok, fail_if, ◌>>=◌, ◌>>◌}
use kei_transaction.Core.Amount.{kei_unit, kei_total_supply}
use kei_transaction.Core.Crypto.{Crypto, hash_block}
use kei_transaction.Core.Address.{null_representative}
use kei_transaction.Core.Blocks.{
  Block, BlockBody, StateBlockBody, StateSubtype, open_chain, state, zero_hash,
}
use kei_transaction.Ledger.State.{Ledger, LedgerAccount, Thresholds}
use kei_transaction.Js.Number.{decimal_text}

pub data GenesisRole : Type 0 where
  reserve grants community bounty team : GenesisRole

-- `ALLOCATION_KEI`
unfoldable pub allocation_kei : GenesisRole → ℕ
allocation_kei reserve = 900_000_000_000
allocation_kei grants = 37_000_000_000
allocation_kei community = 28_000_000_000
allocation_kei bounty = 18_000_000_000
allocation_kei team = 17_000_000_000

abbrev pub circulating_roles : List GenesisRole
circulating_roles = grants ∷ community ∷ bounty ∷ team ∷ []

-- The keys of `GENESIS_SEEDS`, in order.
abbrev pub genesis_roles : List GenesisRole
genesis_roles = reserve ∷ circulating_roles

-- What the ledger keeps of a key pair.
pub record GenesisKey : Type 0 where
  pub public_key : Text
  pub address : Text

-- The fields of a new `MockLedger`.
abbrev pub empty_ledger : Thresholds → Ledger
empty_ledger thresholds = record {
  thresholds = thresholds;
  accounts = [];
  chains = [];
  blocks = [];
  assets = [];
  holdings = [];
  holdings_by_account = [];
  holders = [];
  holders_by_asset = [];
  issued_by_account = [];
  receivables = [];
  receivables_by_account = [];
  commits = [];
  claimed = [];
  locks = [];
  swaps_by_account = [];
  listeners = [];
  reserve_accounts = [];
  queue = [];
}

unfoldable pub sum_allocations : ℕ → List GenesisRole → ℕ
unfolding allocation_kei
sum_allocations n [] = n
sum_allocations n (role ∷ roles) = sum_allocations (n + allocation_kei role) roles

module _ ⦃c : Crypto⦄ (keys : GenesisRole → GenesisKey) where
  abbrev pub representative_for : GenesisRole → Text
  representative_for reserve = null_representative
  representative_for role = (keys role).address

  abbrev pub genesis_body : GenesisRole → BlockBody
  genesis_body role = state (record {
    subtype = open_chain;
    account = (keys role).address;
    previous = zero_hash;
    representative = representative_for role;
    balance = decimal_text (allocation_kei role * kei_unit);
    link = zero_hash;
    memo = none;
  })

  abbrev pub genesis_account : GenesisRole → Text → LedgerAccount
  genesis_account role hash = record {
    address = (keys role).address;
    public_key = (keys role).public_key;
    frontier = hash;
    height = 1;
    balance = allocation_kei role * kei_unit;
    representative = representative_for role;
  }

  abbrev reserve_with : GenesisRole → List Text → List Text
  reserve_with reserve accounts = add (keys reserve).address accounts
  reserve_with _ accounts = accounts

  -- One round of the loop.
  unfoldable pub seat : GenesisRole → Text → Ledger → Ledger
  seat role hash s =
      let key = keys role in
      let block : Block = record {
        body = genesis_body role;
        work = replicate 16 b'0';
        signature = replicate 128 b'0';
      } in
      record s {
        reserve_accounts = reserve_with role s.reserve_accounts;
        accounts = insert key.address (genesis_account role hash) s.accounts;
        chains = insert key.address (block ∷ []) s.chains;
        blocks = insert hash block s.blocks;
      }

  unfoldable pub seat_all : List GenesisRole → Ledger → Result Ledger
  seat_all [] s = ok s
  seat_all (role ∷ roles) s = do
    hash ← hash_block (genesis_body role)
    seat_all roles (seat role hash s)

  unfoldable pub build_genesis : Thresholds → Result Ledger
  unfolding sum_allocations
  build_genesis thresholds =
      let circulating = sum_allocations 0 circulating_roles in
      do
        fail_if (not (eqb circulating 100_000_000_000)) Code.bad_genesis
        fail_if (not (eqb ((circulating + allocation_kei reserve) * kei_unit) kei_total_supply))
            Code.bad_genesis
        seat_all genesis_roles (empty_ledger thresholds)
