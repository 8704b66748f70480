-- ===== src/Economy/Batch/Published.antt =====
-- The batches that packages/economy/src/batch.ts publishes, and the awards that it verifies.
use kei_transaction.Common.Tests.{
  ℕ, zero, suc, ◌^◌, ◌<◌, ◌≡◌, refl, sym, ap, ◌∙◌, Bool, true, false, not, ◌&&◌, Option, some, List,
  [], ◌∷◌, arith, eqb, eqb_iff, Bool-cases, inl, inr,
}
use kei_transaction.Common.Eq.{◌==◌, text_eq, list_beq_iff}
use kei_transaction.Common.Lists.{get_elem?}
use kei_transaction.Dict.{Dict}
use kei_transaction.Js.Text.{Text}
use kei_transaction.Js.Number.{decimal_from}
use kei_transaction.Core.Errors.{
  Result, ok, err, fail_if, or_fail, not_issuer_context, wrong_issuer, no_such_root, wrong_asset,
  root_closed, unanchored_table, undeclared_drop, ◌>>=◌, ◌>>◌,
}
use kei_transaction.Core.Hex.{is_hex}
use kei_transaction.Core.Crypto.{Crypto, DigestBytes}
use kei_transaction.Core.Address.{assert_address}
use kei_transaction.Ledger.Reads.{CommitInfo}
use kei_transaction.Claims.Tree.{CommitEntry, BuiltCommit, ClaimBundle, build_commit, proof_for}
use kei_transaction.Claims.Tree.Bundles.{build_commit-inv}
use kei_transaction.Economy.Assets.{Node, ResolvedStack}
use kei_transaction.Economy.Drops.{
  Drop, DropTable, DropAward, drop_salt, award_of, check_drop_binding, assert_award_shape,
}
use kei_transaction.Economy.Drops.Binding.{check_drop_binding-award_of}
use kei_transaction.Economy.Batch.{
  PublishedDrop, VerifiedDrop, publish_drop, verify_award, build_roots, roll_call, resolve_rows,
  roll_all, assert_headroom, issuer_or, unanchored, declared_row,
}

-- The checks of `publishDrop` in their order, and what the last of them leave.
published_parts :
    (t : Bool) (issuer : Result Text) (wrong : Text → Bool) (call : Result (List Text))
    (resolve : Text → Result (List ResolvedStack)) (salted : Result Text)
    (roll : List ResolvedStack → List Text → Result (Dict Text (List CommitEntry)))
    (room : List ResolvedStack → Dict Text (List CommitEntry) → Result (Unit {0}))
    (build : Text → Dict Text (List CommitEntry) → Result (List BuiltCommit)) (nonce : Text)
    (p : PublishedDrop)
    → (do
      fail_if t not_issuer_context
      own ← issuer
      fail_if (wrong own) wrong_issuer
      addresses ← call
      rows ← resolve own
      salt ← salted
      by_asset ← roll rows addresses
      room rows by_asset
      roots ← build salt by_asset
      ok (record {
        issuer = own;
        nonce = nonce;
        addresses = addresses;
        rows = rows;
        by_asset = by_asset;
        roots = roots;
      }))
      ≡ ok p
    → (salt : Text) × (salted ≡ ok salt) × (build salt p.by_asset ≡ ok p.roots)
published_parts t issuer wrong call resolve salted roll room build nonce p e = ground arith

first_and_rest :
    (first : Result BuiltCommit) (rest : Result (List BuiltCommit)) (root : BuiltCommit)
    (roots : List BuiltCommit)
    → (do a ← first; b ← rest; ok (a ∷ b)) ≡ ok (root ∷ roots)
    → (first ≡ ok root) × (rest ≡ ok roots)
first_and_rest (err _) rest root roots e = cc
first_and_rest (ok a) (err _) root roots e = cc
first_and_rest (ok a) (ok b) root roots e = (cc, cc)

module _ ⦃c : Crypto⦄ where
  publish_drop-parts :
      (node : Node) (is_issuer : Bool) (own : Text) (table : DropTable) (players : List Text)
      (given : Option Text) (words : ℕ → ℕ) (nonce : Text) (p : PublishedDrop)
      → publish_drop node is_issuer own table players given words nonce ≡ ok p
      → (salt : Text) × (drop_salt table.digest nonce ≡ ok salt)
        × (build_roots salt p.by_asset ≡ ok p.roots)
  unfolding publish_drop
  publish_drop-parts node is_issuer own table players given words nonce p e =
      published_parts (not is_issuer) (assert_address (issuer_or given table.issuer own))
        (λ issuer. not (issuer == own)) (roll_call players)
        (λ issuer. resolve_rows node table.drops (some issuer)) (drop_salt table.digest nonce)
        (λ rows addresses. roll_all table rows words 0 addresses [])
        (λ rows by_asset. assert_headroom rows by_asset)
        (λ salt by_asset. build_roots salt by_asset) nonce p e

  build_roots-inv :
      (salt asset : Text) (entries : List CommitEntry) (by_asset : Dict Text (List CommitEntry))
      (root : BuiltCommit) (roots : List BuiltCommit)
      → build_roots salt ((asset, entries) ∷ by_asset) ≡ ok (root ∷ roots)
      → (build_commit asset 0 entries salt ≡ ok root) × (build_roots salt by_asset ≡ ok roots)
  unfolding build_roots
  build_roots-inv salt asset entries by_asset root roots e =
      first_and_rest (build_commit asset 0 entries salt) (build_roots salt by_asset) root roots e

  -- Each root has been built from the entries of its asset with the one salt.
  build_roots-each :
      (salt : Text) (by_asset : Dict Text (List CommitEntry)) (roots : List BuiltCommit) (i : ℕ)
      (built : BuiltCommit)
      → build_roots salt by_asset ≡ ok roots
      → get_elem? roots i ≡ some built
      → (asset : Text) × (entries : List CommitEntry) × (build_commit asset 0 entries salt
          ≡ ok built)
  unfolding build_roots
  build_roots-each salt [] [] i built e at = absurd (ground arith)
  build_roots-each salt [] (root ∷ roots) i built e at = absurd (ground arith)
  build_roots-each salt ((asset, entries) ∷ by_asset) [] i built e at = absurd (ground arith)
  build_roots-each salt ((asset, entries) ∷ by_asset) (root ∷ roots) zero built e at = (
    asset,
    entries,
    (build_roots-inv salt asset entries by_asset root roots e).0 ∙ ap (λ b. ok b) (ground arith),
  )
  build_roots-each salt ((asset, entries) ∷ by_asset) (root ∷ roots) (suc i) built e at =
      build_roots-each salt by_asset roots i built
        ((build_roots-inv salt asset entries by_asset root roots e).1) at

  -- Every award of a published batch passes the player's check against the table of the batch, for each of its roots that has fewer than 2 ^ 48
  -- players and whose asset is an id, if a digest is as many bytes as were asked for.
  pub publish_drop-check_drop_binding :
      DigestBytes
      → (node : Node) (is_issuer : Bool) (own : Text) (table : DropTable) (players : List Text)
        (given : Option Text) (words : ℕ → ℕ) (nonce : Text) (p : PublishedDrop)
      → publish_drop node is_issuer own table players given words nonce ≡ ok p
      → (i : ℕ) (built : BuiltCommit) → get_elem? p.roots i ≡ some built
      → built.count < 2 ^ 48
      → is_hex built.asset (some 32) ≡ true
      → (account : Text) (bundle : ClaimBundle) → proof_for built account ≡ ok bundle
      → check_drop_binding (award_of table nonce built bundle) table account ≡ ok tt
  publish_drop-check_drop_binding digests node is_issuer own table players given words nonce p e i
        built at bounded id account bundle f =
      let (salt, salted, roots) =
        publish_drop-parts node is_issuer own table players given words nonce p e in
      let (asset, entries, commit) = build_roots-each salt p.by_asset p.roots i built roots at in
      let parts = build_commit-inv asset 0 entries salt built commit in
      check_drop_binding-award_of digests asset 0 entries salt built commit bounded
        (sym (ap (λ b. is_hex b.asset (some 32)) parts.shape) ∙ id) table nonce salted account
        bundle f

  -- What an award that verifies for an account has passed: its root is published for its asset and open, it is bound to the table,
  -- and a row of the table, resolved with the table's own issuer, has its asset and its amount.
  pub record Passed (node : Node) (commit_info : Text → Option CommitInfo) (award : DropAward)
      (table : DropTable) (player : Text) (v : VerifiedDrop) : Type 0 where
    pub account : Text
    pub commit : CommitInfo
    pub rows : List ResolvedStack
    pub declared : ResolvedStack × Drop
    pub known : assert_address player ≡ ok account
    pub published : commit_info award.root ≡ some commit
    pub of_asset : not (commit.asset == award.asset) ≡ false
    pub still_open : commit.closed ≡ false
    pub bound : check_drop_binding award table account ≡ ok tt
    pub anchored : unanchored table.issuer table.drops ≡ false
    pub resolved : resolve_rows node table.drops table.issuer ≡ ok rows
    pub listed :
        (i : ℕ) × (get_elem? rows i ≡ some declared.0) × (get_elem? table.drops i ≡ some declared.1)
    pub same_asset : (declared.0).asset ≡ award.asset
    pub same_amount : (declared.0).raw ≡ decimal_from 0 award.amount
    pub given_drop : v.drop ≡ declared.1
    pub given_asset : v.asset ≡ (declared.0).asset

  declared_row-listed :
      (rows : List ResolvedStack) (drops : List Drop) (asset : Text) (raw : ℕ)
      (found : ResolvedStack × Drop)
      → declared_row rows drops asset raw ≡ some found
      → (i : ℕ) × (get_elem? rows i ≡ some found.0)
        × (get_elem? drops i ≡ some found.1)
        × ((found.0).asset ≡ asset)
        × ((found.0).raw ≡ raw)
  unfolding declared_row
  declared_row-listed [] drops asset raw found e = cc
  declared_row-listed (row ∷ rows) [] asset raw found e = cc
  declared_row-listed (row ∷ rows) (drop ∷ drops) asset raw found e =
      elim (Bool-cases (row.asset == asset && eqb row.raw raw)) [
        | inl here ↦
            let is : some (row, drop) ≡ some found = ground arith in
            let pair : (row, drop) ≡ found = cc in
            rw (sym pair) (
              0,
              refl,
              refl,
              (list_beq_iff row.asset asset).0 (ground arith),
              (eqb_iff row.raw raw).0 (ground arith),
            )
        | inr there ↦
            let later : declared_row rows drops asset raw ≡ some found = ground arith in
            let (i, at, drop_at, same, amount) =
              declared_row-listed rows drops asset raw found later in
            (suc i, at, drop_at, same, amount)
      ]

  verified_parts :
      (known : Result Text) (shaped : Result (Unit {0})) (commit : Option CommitInfo)
      (award : DropAward) (bound : Text → Result (Unit {0})) (bare : Bool)
      (rows : Result (List ResolvedStack))
      (find : List ResolvedStack → Option (ResolvedStack × Drop)) (v : VerifiedDrop)
      → (do
        account ← known
        shaped
        info ← or_fail commit no_such_root
        fail_if (not (info.asset == award.asset)) wrong_asset
        fail_if info.closed root_closed
        bound account
        fail_if bare unanchored_table
        resolved ← rows
        declared ← or_fail (find resolved) undeclared_drop
        ok (record {
          root = award.root;
          asset = (declared.0).asset;
          symbol = (declared.0).symbol;
          drop = declared.1;
        }))
        ≡ ok v
      → (account : Text) × (info : CommitInfo) × (resolved : List ResolvedStack)
        × (declared : ResolvedStack × Drop) × (known ≡ ok account)
        × (commit ≡ some info)
        × (not (info.asset == award.asset) ≡ false)
        × (info.closed ≡ false)
        × (bound account ≡ ok tt)
        × (bare ≡ false)
        × (rows ≡ ok resolved)
        × (find resolved ≡ some declared)
        × (v.drop ≡ declared.1)
        × (v.asset ≡ (declared.0).asset)
  verified_parts known shaped commit award bound bare rows find v e = grind arith

  -- An award that verifies for a player is of a root that is published for the award's asset and still
  -- open, is bound to the table and the player, and the table is anchored. What is returned is a row of
  -- the table: the drop and, resolved with the table's own issuer, the stack at one place, and the
  -- stack has the award's asset and the amount that its decimals say.
  pub verify_award-Passed :
      (node : Node) (commit_info : Text → Option CommitInfo) (award : DropAward) (table : DropTable)
      (player : Text) (v : VerifiedDrop)
      → verify_award node commit_info award table player ≡ ok v
      → Passed node commit_info award table player v
  unfolding verify_award
  verify_award-Passed node commit_info award table player v e =
      let (
        account, commit, rows, declared, known, published, of_asset, still_open, bound, anchored,
        resolved, listed, given_drop, given_asset,
      ) =
        verified_parts (assert_address player) (assert_award_shape award) (commit_info award.root)
          award (λ account. check_drop_binding award table account)
          (unanchored table.issuer table.drops) (resolve_rows node table.drops table.issuer)
          (λ rows. declared_row rows table.drops award.asset (decimal_from 0 award.amount)) v e in
      let (place, row_there, drop_there, same_asset, same_amount) =
        declared_row-listed rows table.drops award.asset (decimal_from 0 award.amount) declared
          listed in
      record {
        account = account;
        commit = commit;
        rows = rows;
        declared = declared;
        known = known;
        published = published;
        of_asset = of_asset;
        still_open = still_open;
        bound = bound;
        anchored = anchored;
        resolved = resolved;
        listed = (place, row_there, drop_there);
        same_asset = same_asset;
        same_amount = same_amount;
        given_drop = given_drop;
        given_asset = given_asset;
      }
