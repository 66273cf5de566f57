-- ===== src/State/Deposits.antt =====
-- state/state.go: what a deposit that the Bitcoin side announces becomes. btcsync announces it with
-- an empty mint transaction hash, once for each time that it sees the transaction.
use mathlib.Core.List.{Perm}
use mathlib.Core.List.Perm
use bridge_go_aptos.Prelude.Permutations.{map-Perm}
use bridge_go_aptos.Prelude.{
  ℕ, ◌<◌, ◌^◌, ◌≡◌, ◌≢◌, refl, ap, subst, ◌∙◌, false, List, [], ◌∷◌, ◌++◌, map, filter, none, some,
  arith,
}
use bridge_go_aptos.Go.{Outcome-of_ok, ok}
use bridge_go_aptos.BigInt.{pos, to_uint64}
use bridge_go_aptos.Sql.{Disk, pure, lift, query, query_rows, exec, prepare, ◌>>=◌}
use bridge_go_aptos.State.Tables.{
  Tables, Mint, MintRow, decode_mint, mint_tx_hash_taken, mint_row_allowed, zero_address,
}
use bridge_go_aptos.State.Redeem.{same_bytes}
use bridge_go_aptos.State.RedeemDb.{is_none}
use bridge_go_aptos.State.MintDb.{
  insert_mint_row, insert_mint, get_mint, get_un_minted, update_mint, find_mint,
}
use bridge_go_aptos.State.Handlers.{Event, handle_all, set_new_btc2evm_mint}
use bridge_go_aptos.State.Arrival.{without_faults}
use bridge_go_aptos.State.MintOnce.{NotOffered, Minted-NotOffered, update_mint_lem}

un_minted-append :
    (r : MintRow) (rows : List MintRow)
    → r.mint_tx_hash ≡ none
    → map decode_mint (filter (λ x. is_none x.mint_tx_hash) (rows ++ r ∷ []))
      ≡ map decode_mint (filter (λ x. is_none x.mint_tx_hash) rows) ++ decode_mint r ∷ []
un_minted-append r [] e = ground arith
un_minted-append r (x ∷ rows) e = ground (arith, un_minted-append r rows)

mint_tx_hash_taken-none : (rows : List MintRow) → mint_tx_hash_taken none rows ≡ false
unfolding mint_tx_hash_taken
mint_tx_hash_taken-none [] = refl
mint_tx_hash_taken-none (r ∷ rows) = ground (arith, mint_tx_hash_taken-none rows)

-- A new deposit, as it is announced.
pub record NewDeposit (m : Mint) (n : ℕ) : Type 0 where
  pub mint_tx_hash : m.mint_tx_hash ≡ 0
  pub btc_tx_id : m.btc_tx_id ≢ 0
  pub receiver : same_bytes m.receiver zero_address ≡ false
  pub amount : m.amount ≡ some (pos n)
  pub positive : 0 < n
  pub fits : n < 2 ^ 63

new_row : Mint → ℕ → MintRow
new_row m n = record {
  btc_tx_id = m.btc_tx_id;
  mint_tx_hash = none;
  receiver = m.receiver;
  amount = n;
}

set_new-eq :
    (m : Mint) (n : ℕ) (t : Tables)
    → NewDeposit m n
    → find_mint m.btc_tx_id t.mint ≡ none
    → set_new_btc2evm_mint m (without_faults t)
      ≡ (ok tt, without_faults (record t { mint = t.mint ++ new_row m n ∷ [] }))
unfolding set_new_btc2evm_mint update_mint insert_mint get_mint prepare query exec lift pure ◌>>=◌
    insert_mint_row mint_row_allowed to_uint64 new_row
set_new-eq m n t new missing = ground (
  arith,
  missing,
  new.mint_tx_hash,
  new.btc_tx_id,
  new.receiver,
  new.amount,
  new.positive,
  new.fits,
  mint_tx_hash_taken-none t.mint,
)

decode-new_row : (m : Mint) (n : ℕ) → NewDeposit m n → decode_mint (new_row m n) ≡ m
unfolding decode_mint new_row
decode-new_row m n new = ground (arith, new.mint_tx_hash, new.amount)

module _ (order_rows : List MintRow → List MintRow)
    (order-perm : (rows : List MintRow) → Perm (order_rows rows) rows) where
  -- Where SQLite returns the selected rows in some order: a deposit that is stored, minted or not,
  -- and is announced again: if the call succeeds, no list that GetUnMinted returns afterwards has the
  -- deposit, whatever events follow and whatever calls of the database fail.
  pub announced_again_lost :
      (m : Mint) (r : MintRow) (evs : List Event) (d d1 d2 : Disk Tables) (ms : List Mint)
      → find_mint m.btc_tx_id d.table.mint ≡ some r
      → set_new_btc2evm_mint m d ≡ (ok tt, d1)
      → get_un_minted order_rows (handle_all evs d1) ≡ (ok ms, d2)
      → NotOffered m.btc_tx_id ms
  unfolding set_new_btc2evm_mint
  announced_again_lost m r evs d d1 d2 ms stored again e =
      Minted-NotOffered order_rows order-perm m.btc_tx_id evs d1 d2 ms
        (update_mint_lem m d d1 (λ z. absurd (cc)) again) e

  -- Where no call of the database fails, and SQLite returns the selected rows in some order: a deposit
  -- that is announced for the first time, with a transaction id and a receiver that are not zero and a
  -- positive amount below 2^63, is stored, and GetUnMinted then offers it, unchanged, with the deposits
  -- that it offered before and no others.
  pub first_announced_offered :
      (m : Mint) (n : ℕ) (t : Tables) (ms : List Mint)
      → NewDeposit m n
      → find_mint m.btc_tx_id t.mint ≡ none
      → (get_un_minted order_rows (without_faults t)).0 ≡ ok ms
      → ((set_new_btc2evm_mint m (without_faults t)).0 ≡ ok tt)
        × ((ns : List Mint) × ((get_un_minted order_rows
                (set_new_btc2evm_mint m (without_faults t)).1).0
              ≡ ok ns)
            × Perm ns (ms ++ m ∷ []))
  unfolding get_un_minted prepare query_rows pure ◌>>=◌
  first_announced_offered m n t ms new missing before =
      let rows = filter (λ x. is_none x.mint_tx_hash) t.mint in
      let rows' = filter (λ x. is_none x.mint_tx_hash) (t.mint ++ new_row m n ∷ []) in
      let old : Perm (map decode_mint rows ++ m ∷ []) (ms ++ m ∷ []) = Perm.append_right (m ∷ []) (
        subst (λ xs. Perm (map decode_mint rows) xs) (Outcome-of_ok before)
          (Perm.symm (map-Perm decode_mint (order_rows rows) rows (order-perm rows)))) in
      let appended : map decode_mint rows' ≡ map decode_mint rows ++ m ∷ [] =
        un_minted-append (new_row m n) t.mint (unfold new_row in refl)
        ∙ ap (λ x. map decode_mint rows ++ x ∷ []) (decode-new_row m n new) in
      let all : Perm (map decode_mint (order_rows rows')) (map decode_mint rows ++ m ∷ []) =
        subst (λ xs. Perm (map decode_mint (order_rows rows')) xs) appended
          (map-Perm decode_mint (order_rows rows') rows' (order-perm rows')) in
      rw (set_new-eq m n t new missing)
        (refl, (map decode_mint (order_rows rows'), refl, Perm.trans all old))
