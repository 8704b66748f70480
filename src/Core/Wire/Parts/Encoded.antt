-- ===== src/Core/Wire/Parts/Encoded.antt =====
-- What packages/core/src/wire.ts puts in a payload tells its parts apart.
use mathlib.Core.List.{append-nil}
use kei_transaction.Common.Tests.{
  ℕ, ◌%◌, ◌<◌, ◌≤◌, ◌≡◌, refl, sym, ap, ◌∙◌, List, [], ◌∷◌, ◌++◌, arith,
}
use kei_transaction.Common.Lists.{length, replicate}
use kei_transaction.Js.Text.{Text, utf8}
use kei_transaction.Core.Errors.{Result, ok, ◌>>=◌}
use kei_transaction.Core.Crypto.{Crypto}
use kei_transaction.Core.Hex.{concat}
use kei_transaction.Core.Blocks.{
  AssetOp, issue, mint, burn, transfer, asset_receive, commit, commit_close, claim, swap_offer,
  swap_accept, swap_cancel, IssueOp, SwapOfferOp, CommitOp, ClaimOp, normalize_symbol,
}
use kei_transaction.Core.Wire.{
  WireFields, asset_op, hash_bytes, amount_bytes, timestamp_bytes, payload_string, u8, u32be,
  enum_byte, commit_count, proof_bytes, offer_payload, issue_payload, asset_fields, max_name,
  max_symbol, max_description, max_image, max_memo, cap_text, kind_name, text_or_empty,
  transfer_policies, swap_policies, asset_kinds,
}
use kei_transaction.Core.Wire.Widths.{
  length-bigint_to_bytes, length-hash_bytes, length-amount_bytes, length-timestamp_bytes,
  length-enum_byte, length-u8,
}
use kei_transaction.Core.Wire.Parts.{
  Width, sized, prefixed, Fits, Told, Told-read, read_parts, layout, issue_layout, proof_layout,
  issue_parts, proof_parts, payload_parts,
}

payload_string-Fits :
    (s : Text) (max : ℕ) (b : List ℕ) → max < 65_536 → payload_string s max ≡ ok b → Fits prefixed b
unfolding payload_string
payload_string-Fits s max b small e = (utf8 s, ground arith, ground arith)

nine_parts :
    (r1 r2 r4 r5 r6 r7 r8 r9 : Result (List ℕ)) (p3 b : List ℕ)
    → (do
      p1 ← r1
      p2 ← r2
      p4 ← r4
      p5 ← r5
      p6 ← r6
      p7 ← r7
      p8 ← r8
      p9 ← r9
      ok (concat (p1 ∷ p2 ∷ p3 ∷ p4 ∷ p5 ∷ p6 ∷ p7 ∷ p8 ∷ p9 ∷ [])))
      ≡ ok b
    → (p1 : List ℕ) × (p2 : List ℕ) × (p4 : List ℕ) × (p5 : List ℕ) × (p6 : List ℕ) × (p7 : List ℕ)
      × (p8 : List ℕ) × (p9 : List ℕ) × (r1 ≡ ok p1)
      × (r2 ≡ ok p2)
      × (r4 ≡ ok p4)
      × (r5 ≡ ok p5)
      × (r6 ≡ ok p6)
      × (r7 ≡ ok p7)
      × (r8 ≡ ok p8)
      × (r9 ≡ ok p9)
      × (b ≡ concat (p1 ∷ p2 ∷ p3 ∷ p4 ∷ p5 ∷ p6 ∷ p7 ∷ p8 ∷ p9 ∷ []))
      × ((do
        q1 ← r1
        q2 ← r2
        q4 ← r4
        q5 ← r5
        q6 ← r6
        q7 ← r7
        q8 ← r8
        q9 ← r9
        ok (q1 ∷ q2 ∷ p3 ∷ q4 ∷ q5 ∷ q6 ∷ q7 ∷ q8 ∷ q9 ∷ []))
          ≡ ok (p1 ∷ p2 ∷ p3 ∷ p4 ∷ p5 ∷ p6 ∷ p7 ∷ p8 ∷ p9 ∷ []))
nine_parts r1 r2 r4 r5 r6 r7 r8 r9 p3 b e = ground arith

issue_payload-Told :
    (op : IssueOp) (symbol : Text) (b : List ℕ)
    → issue_payload op symbol ≡ ok b
    → Told issue_layout (issue_parts op symbol) b
unfolding issue_payload issue_parts
issue_payload-Told op symbol b e =
    let (p1, p2, p4, p5, p6, p7, p8, p9, e1, e2, e4, e5, e6, e7, e8, e9, is, listed) =
      nine_parts (payload_string op.name max_name) (payload_string symbol max_symbol)
        (amount_bytes (cap_text op.max_supply)) (enum_byte transfer_policies op.transfer)
        (enum_byte swap_policies op.swap)
        (payload_string (text_or_empty op.metadata.description) max_description)
        (payload_string (text_or_empty op.metadata.image) max_image)
        (enum_byte asset_kinds (kind_name op.metadata.kind)) (u8 op.decimals) b e in
    (
      p1 ∷ p2 ∷ u8 op.decimals ∷ p4 ∷ p5 ∷ p6 ∷ p7 ∷ p8 ∷ p9 ∷ [],
      listed,
      is,
      (
        payload_string-Fits op.name max_name p1 (omega arith) e1,
        (
          payload_string-Fits symbol max_symbol p2 (omega arith) e2,
          (
            length-u8 op.decimals,
            (
              length-amount_bytes (cap_text op.max_supply) p4 e4,
              (
                length-enum_byte transfer_policies op.transfer p5 e5,
                (
                  length-enum_byte swap_policies op.swap p6 e6,
                  (
                    payload_string-Fits (text_or_empty op.metadata.description) max_description p7
                        (omega arith) e7,
                    (
                      payload_string-Fits (text_or_empty op.metadata.image) max_image p8
                          (omega arith) e8,
                      (length-enum_byte asset_kinds (kind_name op.metadata.kind) p9 e9, tt),
                    ),
                  ),
                ),
              ),
            ),
          ),
        ),
      ),
    )

two_results :
    (first rest : Result (List ℕ)) (b : List ℕ)
    → (do x ← first; y ← rest; ok (x ++ y)) ≡ ok b
    → (x : List ℕ) × (y : List ℕ) × (first ≡ ok x) × (rest ≡ ok y) × (b ≡ x ++ y)
two_results first rest b e = ground arith

proof_bytes-Told :
    (proof : List Text) (b : List ℕ)
    → proof_bytes proof ≡ ok b
    → Told (replicate (length proof) (sized 32)) (proof_parts proof) b
unfolding proof_bytes proof_parts
proof_bytes-Told [] b e = let is : b ≡ [] = ground arith in rw is ([], refl, refl, tt)
proof_bytes-Told (hash ∷ proof) b e =
    let (x, y, first, rest, is) = two_results (hash_bytes hash) (proof_bytes proof) b e in
    let (parts, read, shape, fits) = proof_bytes-Told proof y rest in
    (
      x ∷ parts,
      rw (first, read) refl,
      is ∙ ap (λ t. x ++ t) shape,
      (length-hash_bytes hash x first, fits),
    )

three_parts :
    (first second third : Result (List ℕ)) (b : List ℕ)
    → (do x ← first; y ← second; z ← third; ok (concat (x ∷ y ∷ z ∷ []))) ≡ ok b
    → (x : List ℕ) × (y : List ℕ) × (z : List ℕ) × (first ≡ ok x)
      × (second ≡ ok y)
      × (third ≡ ok z)
      × (b ≡ concat (x ∷ y ∷ z ∷ []))
      × ((do x ← first; y ← second; z ← third; ok (x ∷ y ∷ z ∷ [])) ≡ ok (x ∷ y ∷ z ∷ []))
three_parts first second third b e = ground arith

offer_payload-Told :
    (op : SwapOfferOp) (b : List ℕ)
    → offer_payload op ≡ ok b
    → Told (sized 32 ∷ sized 16 ∷ sized 8 ∷ []) (payload_parts (swap_offer op)) b
unfolding offer_payload payload_parts
offer_payload-Told op b e =
    let (x, y, z, first, second, third, is, listed) =
      three_parts (hash_bytes op.want_asset) (amount_bytes op.want_amount)
        (timestamp_bytes op.expires_at) b e in
    (
      x ∷ y ∷ z ∷ [],
      listed,
      is,
      (
        length-hash_bytes op.want_asset x first,
        (
          length-amount_bytes op.want_amount y second,
          (length-timestamp_bytes op.expires_at z third, tt),
        ),
      ),
    )

one-Told :
    (w : Width) (first : Result (List ℕ)) (b : List ℕ)
    → first ≡ ok b
    → Fits w b
    → Told (w ∷ []) (do x ← first; ok (x ∷ [])) b
one-Told w first b e fits = (b ∷ [], rw e refl, sym (append-nil b), (fits, tt))

no_parts-Told : (b : List ℕ) → b ≡ [] → Told [] (ok []) b
no_parts-Told b e = ([], refl, e, tt)

module _ ⦃c : Crypto⦄ where
  issue-payload :
      (account : Text) (op : IssueOp) (fields : WireFields)
      → asset_fields account (issue op) ≡ ok fields
      → (symbol : Text) × (normalize_symbol op.symbol ≡ ok symbol)
        × (issue_payload op symbol ≡ ok fields.payload)
  unfolding asset_fields
  issue-payload account op fields e = ground arith

  commit-payload :
      (account : Text) (op : CommitOp) (fields : WireFields)
      → asset_fields account (commit op) ≡ ok fields
      → (n : ℕ) × (commit_count op.count ≡ ok n) × (u32be n ≡ ok fields.payload)
  unfolding asset_fields
  commit-payload account op fields e = ground arith

  claim-payload :
      (account : Text) (op : ClaimOp) (fields : WireFields)
      → asset_fields account (claim op) ≡ ok fields
      → (proof : List ℕ) × (length op.proof ≤ 48)
        × (proof_bytes op.proof ≡ ok proof)
        × (fields.payload ≡ (length op.proof % 256) ∷ proof)
  unfolding asset_fields
  claim-payload account op fields e = ground arith

  claim-Told :
      (account : Text) (op : ClaimOp) (fields : WireFields)
      → asset_fields account (claim op) ≡ ok fields
      → Told (proof_layout fields.payload) (payload_parts (claim op)) fields.payload
  unfolding payload_parts
  claim-Told account op fields e =
      let (proof, few, encoded, is) = claim-payload account op fields e in
      let (parts, read, shape, fits) = proof_bytes-Told op.proof proof encoded in
      let count : length op.proof % 256 ≡ length op.proof = omega arith in
      rw (is ∙ ap (λ n. n ∷ proof) count) (
        (length op.proof ∷ []) ∷ parts,
        rw read refl,
        ap (λ t. length op.proof ∷ t) shape,
        (refl, fits),
      )

  -- The payload of an operation tells its parts apart.
  asset_fields-Told :
      (account : Text) (op : AssetOp) (fields : WireFields)
      → asset_fields account op ≡ ok fields
      → Told (layout (asset_op op) fields.payload) (payload_parts op) fields.payload
  unfolding asset_op layout
  asset_fields-Told account (issue op) fields e =
      let (symbol, normal, encoded) = issue-payload account op fields e in
      let (read, parts, is, fits) = issue_payload-Told op symbol fields.payload encoded in
      (read, unfold payload_parts in (rw normal parts), is, fits)
  asset_fields-Told account (mint op) fields e =
      let encoded : payload_string [] max_memo ≡ ok fields.payload =
        unfold asset_fields in (ground arith) in
      unfold payload_parts in
      (one-Told prefixed (payload_string [] max_memo) fields.payload encoded
        (payload_string-Fits [] max_memo fields.payload (omega arith) encoded))
  asset_fields-Told account (transfer op) fields e =
      let encoded : payload_string (text_or_empty op.memo) max_memo ≡ ok fields.payload =
        unfold asset_fields in (ground arith) in
      unfold payload_parts in
      (one-Told prefixed (payload_string (text_or_empty op.memo) max_memo) fields.payload encoded
        (payload_string-Fits (text_or_empty op.memo) max_memo fields.payload (omega arith) encoded))
  asset_fields-Told account (commit op) fields e =
      let (n, counted, encoded) = commit-payload account op fields e in
      unfold payload_parts in
      (rw counted (
        one-Told (sized 4) (u32be n) fields.payload encoded
          (length-bigint_to_bytes n 4 fields.payload encoded)))
  asset_fields-Told account (claim op) fields e = claim-Told account op fields e
  asset_fields-Told account (swap_offer op) fields e =
      let encoded : offer_payload op ≡ ok fields.payload = unfold asset_fields in (ground arith) in
      offer_payload-Told op fields.payload encoded
  asset_fields-Told account (burn op) fields e =
      unfold asset_fields payload_parts in (no_parts-Told fields.payload (ground arith))
  asset_fields-Told account (asset_receive op) fields e =
      unfold asset_fields payload_parts in (no_parts-Told fields.payload (ground arith))
  asset_fields-Told account (commit_close op) fields e =
      unfold asset_fields payload_parts in (no_parts-Told fields.payload (ground arith))
  asset_fields-Told account (swap_accept op) fields e =
      unfold asset_fields payload_parts in (no_parts-Told fields.payload (ground arith))
  asset_fields-Told account (swap_cancel op) fields e =
      unfold asset_fields payload_parts in (no_parts-Told fields.payload (ground arith))

  -- Operations with the same code and the same payload have the same parts in it.
  pub payload_parts-injective :
      (a b : AssetOp) (account other : Text) (fields given : WireFields)
      → asset_fields account a ≡ ok fields
      → asset_fields other b ≡ ok given
      → asset_op a ≡ asset_op b
      → fields.payload ≡ given.payload
      → payload_parts a ≡ payload_parts b
  payload_parts-injective a b account other fields given e f code same =
      let first =
        Told-read (layout (asset_op a) fields.payload) (payload_parts a) fields.payload
          (asset_fields-Told account a fields e) in
      let second =
        Told-read (layout (asset_op b) given.payload) (payload_parts b) given.payload
          (asset_fields-Told other b given f) in
      first
      ∙ ap (λ n. ok (read_parts (layout n fields.payload) fields.payload)) code
      ∙ ap (λ p. ok (read_parts (layout (asset_op b) p) p)) same
      ∙ sym second
