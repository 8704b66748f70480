-- ===== src/Core/Swaps/Rows.antt =====
-- What the readers of packages/core/src/swaps.ts let through.
use kei_transaction.Common.Tests.{
  ℕ, ◌≤◌, ◌≡◌, refl, sym, true, false, not, Option, none, some, List, [], ◌∷◌, arith,
}
use kei_transaction.Common.Eq.{◌==◌, text_eq, list_beq_iff}
use kei_transaction.Common.Lists.{length}
use kei_transaction.Js.Text.{Text, text}
use kei_transaction.Js.Value.{
  Value, absent, null, string, number, boolean, array, object, other, Items, no_item, item_then,
  hole_then, count_items,
}
use kei_transaction.Core.Errors.{Result, ok, err, fail_if, invalid_node_response, ◌>>=◌, ◌>>◌}
use kei_transaction.Core.Crypto.{Crypto}
use kei_transaction.Ledger.State.{SwapState, pending, accepted, cancelled}
use kei_transaction.Ledger.Reads.{SwapOffer}
use kei_transaction.Core.Swaps.{
  settles_as, fits_state, parse_swap_offer, asked_for, parse_rows, read_page, envelope_field,
  parse_account_swaps,
}

enveloped :
    (first : Result Value) (next : Value → Result (List SwapOffer)) (rows : List SwapOffer)
    → (first >>= next) ≡ ok rows
    → (value : Value) × (first ≡ ok value) × (next value ≡ ok rows)
enveloped (err _) next rows e = cc
enveloped (ok value) next rows e = (value, refl, e)

-- What an offer names that settled it, as its state has it.
abbrev pub AgreesWith : SwapState → Option Text → Option Text → Option ℕ → Type 0
AgreesWith pending settled_by accepted_by settled_at =
    (settled_by ≡ none) × (accepted_by ≡ none) × (settled_at ≡ none)
AgreesWith accepted settled_by accepted_by settled_at =
    (hash : Text) × (taker : Text) × (time : ℕ) × (settled_by ≡ some hash)
    × (accepted_by ≡ some taker)
    × (settled_at ≡ some time)
AgreesWith cancelled settled_by accepted_by settled_at =
    (hash : Text) × (time : ℕ) × (settled_by ≡ some hash)
    × (accepted_by ≡ none)
    × (settled_at ≡ some time)

fits_state-AgreesWith :
    (state : SwapState) (by : Option Text) (taker : Option Text) (time : Option ℕ)
    → settles_as state by taker time ≡ true
    → AgreesWith state by taker time
unfolding settles_as
fits_state-AgreesWith pending none none none h = (refl, refl, refl)
fits_state-AgreesWith pending none none (some n) h = cc
fits_state-AgreesWith pending none (some a) time h = cc
fits_state-AgreesWith pending (some b) taker time h = cc
fits_state-AgreesWith accepted (some b) (some a) (some n) h = (b, a, n, refl, refl, refl)
fits_state-AgreesWith accepted (some b) (some a) none h = cc
fits_state-AgreesWith accepted (some b) none time h = cc
fits_state-AgreesWith accepted none taker time h = cc
fits_state-AgreesWith cancelled (some b) none (some n) h = (b, n, refl, refl, refl)
fits_state-AgreesWith cancelled (some b) none none h = cc
fits_state-AgreesWith cancelled (some b) (some a) time h = cc
fits_state-AgreesWith cancelled none taker time h = cc

-- In the state that was asked for, if one was.
abbrev pub AsAsked : Option SwapState → SwapState → Type 0
AsAsked none state = Unit
AsAsked (some wanted) state = state ≡ wanted

abbrev pub OwnRow : Text → Option SwapState → SwapOffer → Type 0
OwnRow account wanted row =
    (row.from ≡ account)
    × AsAsked wanted row.state
    × AgreesWith row.state row.settled_by row.accepted_by row.settled_at

abbrev pub AllRows : (SwapOffer → Type 0) → List SwapOffer → Type 0
AllRows P [] = Unit
AllRows P (row ∷ rows) = P row × AllRows P rows

module _ ⦃c : Crypto⦄ where
  parse_swap_offer-fits_state :
      (value : Value) (offer : SwapOffer)
      → parse_swap_offer value ≡ ok offer
      → fits_state offer ≡ true
  unfolding parse_swap_offer
  parse_swap_offer-fits_state (object true row) offer e = ground arith
  parse_swap_offer-fits_state (object false row) offer e = cc
  parse_swap_offer-fits_state absent offer e = cc
  parse_swap_offer-fits_state null offer e = cc
  parse_swap_offer-fits_state (string s) offer e = cc
  parse_swap_offer-fits_state (number n) offer e = cc
  parse_swap_offer-fits_state (boolean b) offer e = cc
  parse_swap_offer-fits_state (array items) offer e = cc
  parse_swap_offer-fits_state other offer e = cc

  asked_for-AsAsked :
      (wanted : Option SwapState) (state : SwapState)
      → asked_for wanted state ≡ true
      → AsAsked wanted state
  asked_for-AsAsked none state h = tt
  asked_for-AsAsked (some pending) pending h = refl
  asked_for-AsAsked (some pending) accepted h = cc
  asked_for-AsAsked (some pending) cancelled h = cc
  asked_for-AsAsked (some accepted) pending h = cc
  asked_for-AsAsked (some accepted) accepted h = refl
  asked_for-AsAsked (some accepted) cancelled h = cc
  asked_for-AsAsked (some cancelled) pending h = cc
  asked_for-AsAsked (some cancelled) accepted h = cc
  asked_for-AsAsked (some cancelled) cancelled h = refl

  item_read :
      (account : Text) (wanted : Option SwapState) (first : Result SwapOffer)
      (rest : Result (List SwapOffer)) (rows : List SwapOffer)
      → (do
        row ← first
        fail_if (not (row.from == account)) invalid_node_response
        fail_if (not (asked_for wanted row.state)) invalid_node_response
        more ← rest
        ok (row ∷ more))
        ≡ ok rows
      → (row : SwapOffer) × (more : List SwapOffer) × (first ≡ ok row)
        × ((row.from == account) ≡ true)
        × (asked_for wanted row.state ≡ true)
        × (rest ≡ ok more)
        × (rows ≡ row ∷ more)
  item_read account wanted first rest rows e = ground arith

  parse_rows-own :
      (account : Text) (wanted : Option SwapState) (items : Items) (rows : List SwapOffer)
      → parse_rows account wanted items ≡ ok rows
      → (length rows ≡ count_items items) × AllRows (OwnRow account wanted) rows
  unfolding parse_rows count_items
  parse_rows-own account wanted no_item rows e =
      let none_left : rows ≡ [] = ground arith in rw none_left (refl, tt)
  parse_rows-own account wanted (hole_then items) rows e = cc
  parse_rows-own account wanted (item_then value items) rows e =
      let (row, more, first, from_it, asked, rest, is) =
        item_read account wanted (parse_swap_offer value) (parse_rows account wanted items) rows
          e in
      let (count, own) = parse_rows-own account wanted items more rest in
      let this : OwnRow account wanted row = (
        (list_beq_iff row.from account).0 from_it,
        asked_for-AsAsked wanted row.state asked,
        fits_state-AgreesWith row.state row.settled_by row.accepted_by row.settled_at
            (parse_swap_offer-fits_state value row first),
      ) in
      rw is (omega (arith, count), (this, own))

  read_page-array :
      (account : Text) (limit : ℕ) (wanted : Option SwapState) (value : Value)
      (rows : List SwapOffer)
      → read_page account limit wanted value ≡ ok rows
      → (items : Items) × (value ≡ array items)
        × (count_items items ≤ limit)
        × (parse_rows account wanted items ≡ ok rows)
  unfolding read_page
  read_page-array account limit wanted (array items) rows e =
      (items, refl, ground arith, ground arith)
  read_page-array account limit wanted (object b row) rows e = cc
  read_page-array account limit wanted absent rows e = cc
  read_page-array account limit wanted null rows e = cc
  read_page-array account limit wanted (string s) rows e = cc
  read_page-array account limit wanted (number n) rows e = cc
  read_page-array account limit wanted (boolean b) rows e = cc
  read_page-array account limit wanted other rows e = cc

  -- A page that is not refused has at most as many rows as were asked for, one for each item of the
  -- answer, so one bad row refuses the page. Each row is from the account, is in the state that was
  -- asked for, if one was, and agrees with its state: an open offer names no block, account or time
  -- that settled it, an accepted one names all three, and a cancelled one the block and the time only.
  pub parse_account_swaps-own :
      (body : Value) (account : Text) (limit : ℕ) (wanted : Option SwapState)
      (rows : List SwapOffer)
      → parse_account_swaps body account limit wanted ≡ ok rows
      → (items : Items) × (envelope_field body (text "offers") ≡ ok (array items))
        × (length rows ≡ count_items items)
        × (length rows ≤ limit)
        × AllRows (OwnRow account wanted) rows
  unfolding parse_account_swaps
  parse_account_swaps-own body account limit wanted rows e =
      let (value, at, page) =
        enveloped (envelope_field body (text "offers")) (λ v. read_page account limit wanted v) rows
          e in
      let (items, shape, bound, read) = read_page-array account limit wanted value rows page in
      let (count, own) = parse_rows-own account wanted items rows read in
      (items, rw (sym shape) at, count, omega arith, own)
