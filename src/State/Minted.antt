-- ===== src/State/Minted.antt =====
-- state/statedb_btc2eth.go: a deposit whose mint transaction is known is not offered for minting.
use bridge_go_aptos.Prelude.{
  ◌≡◌, refl, false, List, [], ◌∷◌, ◌++◌, Option, none, some, All, All-append, arith, ◌⊎◌, inl, inr,
}
use bridge_go_aptos.Go.{ok}
use bridge_go_aptos.Agreement.{Hash, RedeemRequestedEvent, RedeemPreparedEvent}
use bridge_go_aptos.Sql.{Disk}
use bridge_go_aptos.Sql.Laws.{Keeps, Keeps-bind, keeps_rules}
use bridge_go_aptos.State.Tables.{Tables, Mint, SqlMint, SqlRedeem, MintRow, RedeemRow}
use bridge_go_aptos.State.Redeem.{Redeem, RedeemStatus, requested, prepared, completed, invalid}
use bridge_go_aptos.State.RedeemDb.{
  is_none, insert_redeem, update_redeem, write_prepared, get_redeem, has_redeem,
  insert_after_requested, update_after_prepared, update_after_redeemed,
}
use bridge_go_aptos.State.MintDb.{
  insert_or_update, insert_mint_row, insert_mint, get_mint, set_mint_tx_hash, update_mint,
  update_mint_row, find_mint,
}
use bridge_go_aptos.State.Handlers.{
  Event, minted, redeem_requested, redeem_prepared, new_mint, redeem_completed, handle, handle_all,
  handle_minted, handle_requested, handle_prepared, set_new_btc2evm_mint, set_redeem_completed,
  insert_requested, update_found, update_decoded, update_stored, insert_prepared, by_status,
}

abbrev RowMinted : Hash → MintRow → Type 0
RowMinted h r = r.btc_tx_id ≡ h → is_none r.mint_tx_hash ≡ false

-- The deposit is stored with the hash of a mint transaction, and in no row without one.
abbrev pub Minted : Hash → Tables → Type 0
Minted h t = (is_none (find_mint h t.mint) ≡ false) × All (RowMinted h) t.mint

find_mint-append :
    (h : Hash) (rows more : List MintRow)
    → is_none (find_mint h rows) ≡ false
    → is_none (find_mint h (rows ++ more)) ≡ false
unfolding find_mint
find_mint-append h [] more e = absurd (ground arith)
find_mint-append h (r ∷ rows) more e = ground (arith, find_mint-append h rows more)

insert_mint_row-Minted :
    (h : Hash) (r : MintRow) (t u : Tables) → insert_mint_row r t ≡ ok u → Minted h t → Minted h u
unfolding insert_mint_row
insert_mint_row-Minted h r t u e (found, k) =
    let other : r.btc_tx_id ≡ h → is_none r.mint_tx_hash ≡ false =
      λ same. absurd (ground (arith, same)) in
    let u_eq : u.mint ≡ t.mint ++ r ∷ [] = ground arith in
    rw u_eq (
      find_mint-append h t.mint (r ∷ []) found,
      All-append (RowMinted h) t.mint (r ∷ []) k (other, tt),
    )

pub find_mint-update :
    (h k m : Hash) (rows : List MintRow)
    → is_none (find_mint h (update_mint_row k m rows)) ≡ is_none (find_mint h rows)
unfolding find_mint update_mint_row
find_mint-update h k m [] = refl
find_mint-update h k m (r ∷ rows) = ground (arith, find_mint-update h k m rows)

All-update :
    (h k m : Hash) (rows : List MintRow)
    → All (RowMinted h) rows
    → All (RowMinted h) (update_mint_row k m rows)
unfolding update_mint_row
All-update h k m [] a = tt
All-update h k m (r ∷ rows) (x, xs) = (λ same. ground (arith, x, same), All-update h k m rows xs)

-- After the update every row of the deposit has a hash.
pub updated-Minted :
    (h m : Hash) (rows : List MintRow) → All (RowMinted h) (update_mint_row h m rows)
unfolding update_mint_row
updated-Minted h m [] = tt
updated-Minted h m (r ∷ rows) = (λ same. ground arith, updated-Minted h m rows)

pub set_mint_tx_hash-eq-ok :
    (m : SqlMint) (t u : Tables)
    → set_mint_tx_hash m t ≡ ok u
    → ((find_mint m.btc_tx_id t.mint ≡ none) × (u.mint ≡ t.mint))
      ⊎ (u.mint ≡ update_mint_row m.btc_tx_id m.mint_tx_hash t.mint)
unfolding set_mint_tx_hash
set_mint_tx_hash-eq-ok m t u e = ground arith

set_mint_tx_hash-Minted :
    (h : Hash) (m : SqlMint) (t u : Tables) → set_mint_tx_hash m t ≡ ok u → Minted h t → Minted h u
set_mint_tx_hash-Minted h m t u e (found, k) = elim (set_mint_tx_hash-eq-ok m t u e) [
  | inl (missing, same) ↦ rw same (found, k)
  | inr changed ↦
      rw (changed, find_mint-update) (found, All-update h m.btc_tx_id m.mint_tx_hash t.mint k)
]

insert_redeem-Minted :
    (h : Hash) (r : RedeemRow) (t u : Tables) → insert_redeem r t ≡ ok u → Minted h t → Minted h u
insert_redeem-Minted h r t u e k = let same : u.mint ≡ t.mint = ground arith in rw same k

update_redeem-Minted :
    (h k : Hash) (f : RedeemRow → RedeemRow) (t u : Tables)
    → update_redeem k f t ≡ ok u
    → Minted h t
    → Minted h u
unfolding update_redeem
update_redeem-Minted h k f t u e m = let same : u.mint ≡ t.mint = ground arith in rw same m

write_prepared-Minted :
    (h : Hash) (found : Option Redeem) (s : SqlRedeem) (t u : Tables)
    → write_prepared found s t ≡ ok u
    → Minted h t
    → Minted h u
write_prepared-Minted h none s t u e k = insert_redeem-Minted h _ t u e k
write_prepared-Minted h (some x) s t u e k = update_redeem-Minted h _ _ t u e k

ruleset minted_rules = (
  keeps_rules, insert_mint_row-Minted, set_mint_tx_hash-Minted, insert_redeem-Minted,
  update_redeem-Minted, write_prepared-Minted,
)

module _ (h : Hash) where
  get_mint-Minted : (k : Hash) → Keeps (Minted h) (get_mint k)
  unfolding get_mint
  get_mint-Minted k = search minted_rules

  get_redeem-Minted : (k : Hash) → Keeps (Minted h) (get_redeem k)
  unfolding get_redeem
  get_redeem-Minted k = search minted_rules

  has_redeem-Minted : (k : Hash) → Keeps (Minted h) (has_redeem k)
  unfolding has_redeem
  has_redeem-Minted k = search minted_rules

  insert_mint-Minted : (m : Mint) → Keeps (Minted h) (insert_mint m)
  unfolding insert_mint
  insert_mint-Minted m = search minted_rules

  insert_or_update-Minted : (m : Mint) (o : Option Mint) → Keeps (Minted h) (insert_or_update m o)
  insert_or_update-Minted m none = insert_mint-Minted m
  insert_or_update-Minted m (some old) = search minted_rules

  update_mint-Minted : (m : Mint) → Keeps (Minted h) (update_mint m)
  unfolding update_mint
  update_mint-Minted m = Keeps-bind _ _ (get_mint-Minted m.btc_tx_id) (insert_or_update-Minted m)

  insert_after_requested-Minted : (r : Redeem) → Keeps (Minted h) (insert_after_requested r)
  unfolding insert_after_requested
  insert_after_requested-Minted r = search minted_rules

  update_after_prepared-Minted : (r : Redeem) → Keeps (Minted h) (update_after_prepared r)
  unfolding update_after_prepared
  update_after_prepared-Minted r = search (minted_rules, get_redeem-Minted)

  update_after_redeemed-Minted : (r : Redeem) → Keeps (Minted h) (update_after_redeemed r)
  unfolding update_after_redeemed
  update_after_redeemed-Minted r = search minted_rules

  insert_requested-Minted :
      (ev : RedeemRequestedEvent) (o : Option RedeemStatus)
      → Keeps (Minted h) (insert_requested ev o)
  insert_requested-Minted ev none = search (minted_rules, insert_after_requested-Minted)
  insert_requested-Minted ev (some status) = search minted_rules

  handle_requested-Minted : (ev : RedeemRequestedEvent) → Keeps (Minted h) (handle_requested ev)
  unfolding handle_requested
  handle_requested-Minted ev = search (minted_rules, has_redeem-Minted, insert_requested-Minted)

  update_decoded-Minted :
      (ev : RedeemPreparedEvent) (r : Redeem) → Keeps (Minted h) (update_decoded ev r)
  unfolding update_decoded
  update_decoded-Minted ev r = search (minted_rules, update_after_prepared-Minted)

  update_found-Minted :
      (ev : RedeemPreparedEvent) (o : Option Redeem) → Keeps (Minted h) (update_found ev o)
  update_found-Minted ev none = search minted_rules
  update_found-Minted ev (some r) = update_decoded-Minted ev r

  update_stored-Minted : (ev : RedeemPreparedEvent) → Keeps (Minted h) (update_stored ev)
  unfolding update_stored
  update_stored-Minted ev = search (minted_rules, get_redeem-Minted, update_found-Minted)

  insert_prepared-Minted : (ev : RedeemPreparedEvent) → Keeps (Minted h) (insert_prepared ev)
  unfolding insert_prepared
  insert_prepared-Minted ev = search (minted_rules, update_after_prepared-Minted)

  by_status-Minted :
      (ev : RedeemPreparedEvent) (o : Option RedeemStatus) → Keeps (Minted h) (by_status ev o)
  by_status-Minted ev none = insert_prepared-Minted ev
  by_status-Minted ev (some prepared) = search minted_rules
  by_status-Minted ev (some completed) = search minted_rules
  by_status-Minted ev (some invalid) = search minted_rules
  by_status-Minted ev (some requested) = update_stored-Minted ev

  handle_prepared-Minted : (ev : RedeemPreparedEvent) → Keeps (Minted h) (handle_prepared ev)
  unfolding handle_prepared
  handle_prepared-Minted ev = search (minted_rules, has_redeem-Minted, by_status-Minted)

  handle-Minted : (e : Event) → Keeps (Minted h) (handle e)
  unfolding handle handle_minted set_new_btc2evm_mint set_redeem_completed
  handle-Minted (minted ev) = search (minted_rules, update_mint-Minted)
  handle-Minted (redeem_requested ev) = handle_requested-Minted ev
  handle-Minted (redeem_prepared ev) = handle_prepared-Minted ev
  handle-Minted (new_mint m) = update_mint-Minted m
  handle-Minted (redeem_completed r b) = update_after_redeemed-Minted _

  pub handle_all-Minted :
      (evs : List Event) (d : Disk Tables) → Minted h d.table → Minted h (handle_all evs d).table
  unfolding handle_all
  handle_all-Minted [] d k = k
  handle_all-Minted (e ∷ evs) d k = handle_all-Minted evs (handle e d).1 ((handle-Minted e).at d k)
