-- ===== src/TxMgr/Timeouts.antt =====
-- chaintxmgr/mgr.go: how long a transaction can stay limbo or pending.
use bridge_go_aptos.Prelude.{
  ℕ, ◌+◌, ◌≤◌, ◌≡◌, refl, sym, ap, ◌∙◌, subst, true, false, Option, some, List, [], ◌∷◌, All, map,
  arith, Bool-cases, inl, inr,
}
use bridge_go_aptos.BigInt.{ℤ, pos, cmp_le, ◌+ℤ◌}
use bridge_go_aptos.Agreement.{
  MonitoredTxStatus, limbo, pending, success, reverted, timeout, malform, reorg,
}
use bridge_go_aptos.Sql.{Disk}
use bridge_go_aptos.State.Tables.{Tables}
use bridge_go_aptos.MgrDb.{Rows, MonitoredRow, decode_number}
use bridge_go_aptos.MgrDb.Rows.{IsKeyed}
use bridge_go_aptos.TxMgr.{Call, Outside}
use bridge_go_aptos.TxMgr.Marking.{is_expired, procedure_mark_tx_status}
use bridge_go_aptos.TxMgr.Expected.{in_flight, is_included, answered, expected}
use bridge_go_aptos.TxMgr.Marked.{Still, procedure_mark_tx_status-expected}

-- Sent at `s`, a row whose time-out is not after `l` is settled.
abbrev pub SettledBy : ℕ → ℕ → MonitoredRow → Type 0
SettledBy t l r =
    (s : ℕ) → decode_number r.sent ≡ some (pos s) → s + t ≤ l → in_flight r.tx_status ≡ false

included-in_flight : (s : MonitoredTxStatus) → is_included s ≡ true → in_flight s ≡ false
included-in_flight malform e = refl
included-in_flight limbo e = absurd (cc)
included-in_flight pending e = absurd (cc)
included-in_flight success e = refl
included-in_flight reverted e = refl
included-in_flight timeout e = refl
included-in_flight reorg e = refl

module _ (chain : List ℕ → MonitoredTxStatus × Option ℤ) (t l : ℕ) where
  sent-expected : (r : MonitoredRow) → (expected chain (some (pos l)) (pos t) r).sent ≡ r.sent
  unfolding expected answered
  sent-expected r = ground arith

  is_expired_at :
      (o : Option ℤ) (s : ℕ)
      → o ≡ some (pos s)
      → s + t ≤ l
      → is_expired (pos t) (some (pos l)) o ≡ true
  unfolding is_expired cmp_le ◌+ℤ◌
  is_expired_at o s e h = rw (e) (ground (arith, h))

  answered_settled :
      (a : MonitoredTxStatus × Option ℤ) (o : Option ℤ) (r : MonitoredRow)
      → is_expired (pos t) (some (pos l)) o ≡ true
      → in_flight (answered chain (some (pos l)) (pos t) a o r).tx_status ≡ false
  unfolding answered
  answered_settled a o r e = elim (Bool-cases (is_included a.0)) [
    | inl i ↦ rw (i) (included-in_flight a.0 i)
    | inr i ↦ rw (i, e) refl
  ]

  expected-SettledBy : (r : MonitoredRow) → SettledBy t l (expected chain (some (pos l)) (pos t) r)
  unfolding expected
  expected-SettledBy r s e h =
      let sent = sym (ap decode_number (sent-expected r)) ∙ e in
      elim (Bool-cases (in_flight r.tx_status)) [
        | inl i ↦ rw (i) (
            answered_settled (chain r.tx_identifier) (decode_number r.sent) r
              (is_expired_at (decode_number r.sent) s sent h))
        | inr i ↦ rw (i) i
      ]

  expected-All :
      (rows : Rows) → All (SettledBy t l) (map (expected chain (some (pos l)) (pos t)) rows)
  expected-All [] = tt
  expected-All (r ∷ rows) = (expected-SettledBy r, expected-All rows)

-- Where no call of the database fails, the worker's answers stay what they are, every transaction
-- that is included has a ledger number, the rows have distinct identifiers, and the time-out `t` and
-- the latest ledger number `l` are known and not negative: after procedureMarkTxStatus no row is limbo
-- or pending that was sent at a known number `s` with `s + t` not above `l`.
pub none_waits_past_timeout :
    (outside : Outside) (chain : List ℕ → MonitoredTxStatus × Option ℤ) (t l : ℕ) (d : Disk Tables)
    (rows : Rows) (calls : List Call)
    → Still outside chain (some (pos l))
    → IsKeyed rows
    → All
        (SettledBy t l)
        (procedure_mark_tx_status outside (pos t) (record {
          statedb = d;
          mgrdb = record { table = rows; faults = [] };
          calls = calls;
        })).1.mgrdb.table
none_waits_past_timeout outside chain t l d rows calls still keyed =
    let (cs, e) =
      procedure_mark_tx_status-expected outside chain (some (pos l)) (pos t) still d rows calls
        keyed in
    subst (λ w. All (SettledBy t l) w.1.mgrdb.table) (sym e) (expected-All chain t l rows)
