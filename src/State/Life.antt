-- ===== src/State/Life.antt =====
-- state/state.go: what one event, and any sequence of events, does to the row of a redeem.
use bridge_go_aptos.Prelude.{◌≡◌, false, ◌∙◌, Option, none, some, Option-cases, inl, inr, arith}
use bridge_go_aptos.Go.{is_ok}
use bridge_go_aptos.Agreement.{Hash, MintedEvent, RedeemPreparedEvent}
use bridge_go_aptos.Sql.{Disk, raise, pure, lift, prepare, ◌>>=◌}
use bridge_go_aptos.Sql.Laws.{bind_rule, table-or_error, or_error-eq-ok}
use bridge_go_aptos.State.Redeem.{RedeemStatus, requested, prepared, completed, invalid}
use bridge_go_aptos.State.Tables.{Tables, Mint, encode_redeem}
use bridge_go_aptos.State.RedeemDb.{find_redeem, update_after_redeemed}
use bridge_go_aptos.State.Mints.{redeem-update_mint}
use bridge_go_aptos.State.Handlers.{
  by_status, handle_prepared, handle_minted, set_new_btc2evm_mint, set_redeem_completed, Event,
  minted, redeem_requested, redeem_prepared, new_mint, redeem_completed, handle,
}
use bridge_go_aptos.State.Rows.{table-has_redeem, has_redeem-eq-ok}
use bridge_go_aptos.State.Lifecycle.{Moves, stays, RowStep, stay, handle_requested-Moves}
use bridge_go_aptos.State.Preparation.{insert_prepared-Moves, update_stored-Moves}

by_status-Moves :
    (h : Hash) (ev : RedeemPreparedEvent) (d d' : Disk Tables) (o : Option RedeemStatus)
    → d'.table ≡ d.table
    → o ≡ (elim (find_redeem ev.request_tx_hash d.table.redeem) [
      | none ↦ none
      | some r ↦ some r.status
    ])
    → Moves h d (by_status ev o d').1.table
unfolding raise pure
by_status-Moves h ev d d' none same e = insert_prepared-Moves h ev d d' same (ground arith)
by_status-Moves h ev d d' (some prepared) same e = stays h d d'.table same
by_status-Moves h ev d d' (some completed) same e = stays h d d'.table same
by_status-Moves h ev d d' (some invalid) same e = stays h d d'.table same
by_status-Moves h ev d d' (some requested) same e =
    elim (Option-cases (find_redeem ev.request_tx_hash d.table.redeem)) [
      | inl missing ↦ absurd (ground arith)
      | inr (row, found) ↦ update_stored-Moves h ev row d d' same found (ground arith)
    ]

pub handle_prepared-Moves :
    (h : Hash) (ev : RedeemPreparedEvent) (d : Disk Tables)
    → Moves h d (handle_prepared ev d).1.table
unfolding handle_prepared
handle_prepared-Moves h ev d =
    bind_rule (Moves h d) _ _ d (table-or_error _ _ d ∙ table-has_redeem _ d) (stay _)
      λ o d1 e1 same1.
        by_status-Moves h ev d d1 o same1
          (has_redeem-eq-ok ev.request_tx_hash d d1 o (or_error-eq-ok _ _ d d1 o e1))

redeem-handle_minted :
    (ev : MintedEvent) (d : Disk Tables) → (handle_minted ev d).1.table.redeem ≡ d.table.redeem
unfolding handle_minted
redeem-handle_minted ev d = rw table-or_error (redeem-update_mint _ d)

redeem-set_new_btc2evm_mint :
    (m : Mint) (d : Disk Tables) → (set_new_btc2evm_mint m d).1.table.redeem ≡ d.table.redeem
unfolding set_new_btc2evm_mint
redeem-set_new_btc2evm_mint m d = redeem-update_mint m d

-- SetRedeemCompleted never succeeds, whatever the tables hold and whatever calls fail, and it never
-- changes the tables.
pub set_redeem_completed_lem :
    (request_tx_hash btc_tx_hash : Hash) (d : Disk Tables)
    → (is_ok (set_redeem_completed request_tx_hash btc_tx_hash d).0 ≡ false)
      × ((set_redeem_completed request_tx_hash btc_tx_hash d).1.table ≡ d.table)
unfolding set_redeem_completed update_after_redeemed ◌>>=◌ prepare lift encode_redeem
set_redeem_completed_lem request_tx_hash btc_tx_hash d = ground arith

-- One event, whatever calls of the database fail on the way, moves the row of each redeem by one
-- step at most: it is left as it is, made from nothing, or prepared from requested.
pub handle-RowStep :
    (h : Hash) (e : Event) (d : Disk Tables)
    → RowStep h (find_redeem h d.table.redeem) (find_redeem h (handle e d).1.table.redeem)
unfolding handle
handle-RowStep h (minted ev) d = rw redeem-handle_minted (stay _)
handle-RowStep h (redeem_requested ev) d = handle_requested-Moves h ev d
handle-RowStep h (redeem_prepared ev) d = handle_prepared-Moves h ev d
handle-RowStep h (new_mint m) d = rw redeem-set_new_btc2evm_mint (stay _)
handle-RowStep h (redeem_completed r b) d = rw ((set_redeem_completed_lem r b d).1) (stay _)
