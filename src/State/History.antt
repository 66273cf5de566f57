-- ===== src/State/History.antt =====
-- state/state.go: what any sequence of events leaves of a redeem. The events come from a blockchain,
-- whose synchronizer may send them again or in another order, and any call of the database may fail.
use bridge_go_aptos.Prelude.{
  ◌≡◌, refl, sym, subst, List, [], ◌∷◌, Option, none, some, inl, inr, ◌⊎◌, arith,
}
use bridge_go_aptos.Agreement.{Hash}
use bridge_go_aptos.Sql.{Disk}
use bridge_go_aptos.State.Redeem.{requested, prepared}
use bridge_go_aptos.State.Tables.{Tables, RedeemRow}
use bridge_go_aptos.State.RedeemDb.{find_redeem}
use bridge_go_aptos.State.Handlers.{Event, handle, handle_all}
use bridge_go_aptos.State.Lifecycle.{RowStep, stay, create, prepares, IsConsistent, RowIsConsistent}
use bridge_go_aptos.State.Life.{handle-RowStep}

-- The part of a row that its request fixes.
abbrev pub SameRequest : RedeemRow → RedeemRow → Type 0
SameRequest r s =
    (s.request_tx_hash ≡ r.request_tx_hash)
    × (s.requester ≡ r.requester)
    × (s.receiver ≡ r.receiver)
    × (s.amount ≡ r.amount)

-- What may become of a row: it stays, or a requested row is prepared.
abbrev pub Becomes : RedeemRow → RedeemRow → Type 0
Becomes r s = (s ≡ r) ⊎ ((r.status ≡ requested) × (s.status ≡ prepared) × SameRequest r s)

-- From one row to a row after it.
abbrev Onward : Option RedeemRow → Option RedeemRow → Type 0
Onward none o = Unit {0}
Onward (some r) o = (s : RedeemRow) × (o ≡ some s) × Becomes r s

step-Onward : (h : Hash) (o p : Option RedeemRow) → RowStep h o p → Onward o p
step-Onward h o p (stay none) = tt
step-Onward h o p (stay (some r)) = (r, refl, inl refl)
step-Onward h o p (create r key amount c) = tt
step-Onward h o p (prepares r q out outs status hash) =
    (_, refl, inr (status, refl, (refl, refl, refl, refl)))

Becomes-trans : (r s t : RedeemRow) → Becomes r s → Becomes s t → Becomes r t
Becomes-trans r s t (inl e) b = subst (λ x. Becomes x t) e b
Becomes-trans r s t (inr (p, q, k)) (inl e) = subst (λ x. Becomes r x) (sym e) (inr (p, q, k))
Becomes-trans r s t (inr (p, q, k)) (inr (p', q', k')) = absurd (ground arith)

Onward-trans : (o p q : Option RedeemRow) → Onward o p → Onward p q → Onward o q
Onward-trans none p q a b = tt
Onward-trans (some r) p q (s, e, x) b =
    let (t, found, y) = subst (λ u. Onward u q) e b in (t, found, Becomes-trans r s t x y)

handle_all-Onward :
    (h : Hash) (evs : List Event) (d : Disk Tables)
    → Onward (find_redeem h d.table.redeem) (find_redeem h (handle_all evs d).table.redeem)
unfolding handle_all
handle_all-Onward h [] d = step-Onward h _ _ (stay _)
handle_all-Onward h (e ∷ evs) d =
    Onward-trans _ (find_redeem h (handle e d).1.table.redeem) _
      (step-Onward h _ _ (handle-RowStep h e d)) (handle_all-Onward h evs (handle e d).1)

-- Once a redeem is stored it stays stored, whatever events follow and whatever calls of the
-- database fail: its row is left as it is, or it was requested and is prepared, and then its hash,
-- requester, receiver and amount are those of before.
pub handle_all-Becomes :
    (h : Hash) (evs : List Event) (d : Disk Tables) (r : RedeemRow)
    → find_redeem h d.table.redeem ≡ some r
    → (s : RedeemRow) × (find_redeem h (handle_all evs d).table.redeem ≡ some s) × Becomes r s
handle_all-Becomes h evs d r found =
    subst (λ o. Onward o (find_redeem h (handle_all evs d).table.redeem)) found
      (handle_all-Onward h evs d)

-- A redeem that is prepared keeps its row, and with it the outpoints that are to pay for it,
-- whatever events follow and whatever calls of the database fail.
pub prepared_is_final :
    (h : Hash) (evs : List Event) (d : Disk Tables) (r : RedeemRow)
    → find_redeem h d.table.redeem ≡ some r
    → r.status ≡ prepared
    → find_redeem h (handle_all evs d).table.redeem ≡ some r
prepared_is_final h evs d r found status =
    let (s, later, b) = handle_all-Becomes h evs d r found in
    elim b [ inl e ↦ ground arith | inr (other, _, _) ↦ absurd (ground arith) ]

-- Every redeem of the table has columns that agree with its status.
abbrev pub AllConsistent : Tables → Type 0
AllConsistent t = (h : Hash) (r : RedeemRow) → find_redeem h t.redeem ≡ some r → RowIsConsistent r

abbrev RowOk : Option RedeemRow → Type 0
RowOk none = Unit {0}
RowOk (some r) = RowIsConsistent r

RowStep-RowOk : (h : Hash) (o p : Option RedeemRow) → RowStep h o p → RowOk o → RowOk p
RowStep-RowOk h o p (stay q) k = k
RowStep-RowOk h o p (create r key amount c) k = c
RowStep-RowOk h o p (prepares r q out outs status hash) k =
    let (_, unpaid, _) =
      subst (λ s. IsConsistent s r.prepare_tx_hash r.btc_tx_id r.outpoints) status k in
    (unpaid, (q, refl, hash), (out, outs, refl))

handle_all-RowOk :
    (h : Hash) (evs : List Event) (d : Disk Tables)
    → RowOk (find_redeem h d.table.redeem)
    → RowOk (find_redeem h (handle_all evs d).table.redeem)
unfolding handle_all
handle_all-RowOk h [] d k = k
handle_all-RowOk h (e ∷ evs) d k =
    handle_all-RowOk h evs (handle e d).1 (RowStep-RowOk h _ _ (handle-RowStep h e d) k)

RowOk-found : (o : Option RedeemRow) → ((r : RedeemRow) → o ≡ some r → RowIsConsistent r) → RowOk o
RowOk-found none k = tt
RowOk-found (some r) k = k r refl

-- Where the columns of every redeem agree with its status, they do so after any sequence of events,
-- whatever calls of the database fail: a prepared redeem has the hash of its prepare transaction,
-- which is not empty, and at least one outpoint; a requested or an invalid redeem has neither; none
-- has a Bitcoin transaction, and none is completed.
pub handle_all-AllConsistent :
    (evs : List Event) (d : Disk Tables)
    → AllConsistent d.table
    → AllConsistent (handle_all evs d).table
handle_all-AllConsistent evs d k h r found =
    subst RowOk found (handle_all-RowOk h evs d (RowOk-found _ (k h)))
