-- ===== src/MgrDb/Rows.antt =====
-- chaintxmgrdb/sqlite_chaintxmgrdb.go: the rows of the table, TxIdentifier being its primary key.
use bridge_go_aptos.Prelude.{
  ℕ, ◌≡◌, refl, sym, ◌∙◌, Bool, true, false, none, some, List, [], ◌∷◌, ◌++◌, if◌then◌else◌, All,
  All-filter, filter, arith, Option-cases, inl, inr, ap, ap₂, subst, Bool-cases,
}
use bridge_go_aptos.Go.{ok}
use bridge_go_aptos.State.Redeem.{same_bytes}
use bridge_go_aptos.MgrDb.{MonitoredRow, Rows, find_tx, insert_row, update_where}

Option-of_some : {A : Type 0} {a b : A} → some a ≡ some b → a ≡ b
Option-of_some h = cc

pub same_bytes-eq : (xs ys : List ℕ) → same_bytes xs ys ≡ true → xs ≡ ys
unfolding same_bytes
same_bytes-eq [] [] h = refl
same_bytes-eq (x ∷ xs) (y ∷ ys) h = ap₂ (◌∷◌) (ground arith) (same_bytes-eq xs ys (ground arith))
same_bytes-eq [] (y ∷ ys) h = absurd (cc)
same_bytes-eq (x ∷ xs) [] h = absurd (cc)

pub same_bytes_refl : (xs : List ℕ) → same_bytes xs xs ≡ true
unfolding same_bytes
same_bytes_refl [] = refl
same_bytes_refl (x ∷ xs) = ground (arith, same_bytes_refl xs)

pub same_bytes_sym : (xs ys : List ℕ) → same_bytes xs ys ≡ same_bytes ys xs
unfolding same_bytes
same_bytes_sym [] [] = refl
same_bytes_sym [] (y ∷ ys) = refl
same_bytes_sym (x ∷ xs) [] = refl
same_bytes_sym (x ∷ xs) (y ∷ ys) = ground (arith, same_bytes_sym xs ys)

pub insert_row-eq-ok :
    (r : MonitoredRow) (rows u : Rows)
    → insert_row r rows ≡ ok u
    → (u ≡ rows ++ r ∷ []) × (find_tx r.tx_identifier rows ≡ none)
unfolding insert_row
insert_row-eq-ok r rows u h = elim (Option-cases (find_tx r.tx_identifier rows)) [
  | inl e ↦ (cc, e)
  | inr (s, e) ↦ absurd (cc)
]

pub insert_row_new :
    (r : MonitoredRow) (rows : Rows)
    → find_tx r.tx_identifier rows ≡ none
    → insert_row r rows ≡ ok (rows ++ r ∷ [])
unfolding insert_row
insert_row_new r rows h = rw (insert_row, h) refl

-- No row has the identifier `k`.
abbrev pub Absent : List ℕ → Rows → Type 0
Absent k rows = All (λ r. same_bytes r.tx_identifier k ≡ false) rows

-- The rows have distinct identifiers.
abbrev pub IsKeyed : Rows → Type 0
IsKeyed [] = Unit {0}
IsKeyed (r ∷ rows) = Absent r.tx_identifier rows × IsKeyed rows

pub find_tx-none : (k : List ℕ) (rows : Rows) → find_tx k rows ≡ none → Absent k rows
unfolding find_tx
find_tx-none k [] h = tt
find_tx-none k (r ∷ rows) h = (ground arith, find_tx-none k rows (ground arith))

pub find_tx-append :
    (k : List ℕ) (rows : Rows) (r s : MonitoredRow)
    → find_tx k rows ≡ some r
    → find_tx k (rows ++ s ∷ []) ≡ some r
unfolding find_tx
find_tx-append k [] r s h = absurd (cc)
find_tx-append k (t ∷ rows) r s h = ground (arith, find_tx-append k rows r s)

Absent-append :
    (k : List ℕ) (rows : Rows) (r : MonitoredRow)
    → Absent k rows
    → same_bytes r.tx_identifier k ≡ false
    → Absent k (rows ++ r ∷ [])
Absent-append k [] r h e = (e, tt)
Absent-append k (s ∷ rows) r h e = (h.0, Absent-append k rows r h.1 e)

pub IsKeyed-append :
    (rows : Rows) (r : MonitoredRow)
    → IsKeyed rows
    → Absent r.tx_identifier rows
    → IsKeyed (rows ++ r ∷ [])
IsKeyed-append [] r h a = (tt, tt)
IsKeyed-append (s ∷ rows) r h a = (
  Absent-append s.tx_identifier rows r h.0 (same_bytes_sym r.tx_identifier s.tx_identifier ∙ a.0),
  IsKeyed-append rows r h.1 a.1,
)

module _ (k : List ℕ) (f : MonitoredRow → MonitoredRow)
    (keeps_key : (r : MonitoredRow) → (f r).tx_identifier ≡ r.tx_identifier) where
  same_bytes-update :
      (r : MonitoredRow) (b : Bool) (j : List ℕ)
      → same_bytes (if b then f r else r).tx_identifier j ≡ same_bytes r.tx_identifier j
  same_bytes-update r true j = ap (λ i. same_bytes i j) (keeps_key r)
  same_bytes-update r false j = refl

  Absent-update_where :
      (j : List ℕ) (rows : Rows) → Absent j rows → Absent j (update_where k f rows)
  unfolding update_where
  Absent-update_where j [] h = tt
  Absent-update_where j (r ∷ rows) h =
      (same_bytes-update r (same_bytes r.tx_identifier k) j ∙ h.0, Absent-update_where j rows h.1)

  tx_identifier-if :
      (r : MonitoredRow) (b : Bool) → (if b then f r else r).tx_identifier ≡ r.tx_identifier
  tx_identifier-if r true = keeps_key r
  tx_identifier-if r false = refl

  pub IsKeyed-update_where : (rows : Rows) → IsKeyed rows → IsKeyed (update_where k f rows)
  unfolding update_where
  IsKeyed-update_where [] h = tt
  IsKeyed-update_where (r ∷ rows) h = (
    subst (λ i. Absent i (update_where k f rows))
        (sym (tx_identifier-if r (same_bytes r.tx_identifier k)))
        (Absent-update_where r.tx_identifier rows h.0),
    IsKeyed-update_where rows h.1,
  )

  -- An update of another row.
  pub find_tx-update_where :
      (j : List ℕ) (rows : Rows) (s : MonitoredRow)
      → same_bytes k j ≡ false
      → find_tx j rows ≡ some s
      → find_tx j (update_where k f rows) ≡ some s
  unfolding find_tx update_where
  find_tx-update_where j [] s e h = absurd (cc)
  find_tx-update_where j (r ∷ rows) s e h = elim (Bool-cases (same_bytes r.tx_identifier k)) [
    | inl p ↦
        rw (p, keeps_key r, same_bytes-eq r.tx_identifier k p, e)
          (find_tx-update_where j rows s e (rest r p h))
    | inr p ↦ rw (p) (ground (arith, find_tx-update_where j rows s e))
  ]
    where
      rest :
          (r : MonitoredRow)
          → same_bytes r.tx_identifier k ≡ true
          → find_tx j (r ∷ rows) ≡ some s
          → find_tx j rows ≡ some s
      rest r p h =
          sym (
            ap (λ b. if b then some r else find_tx j rows)
              (ap (λ i. same_bytes i j) (same_bytes-eq r.tx_identifier k p) ∙ e))
          ∙ h

-- The rows that pass a test do not have the key of a row that does not pass it.
pub different_key :
    (j : List ℕ) (p : MonitoredRow → Bool) (rows : Rows) (r : MonitoredRow)
    → IsKeyed rows
    → find_tx j rows ≡ some r
    → p r ≡ false
    → All (λ s. same_bytes s.tx_identifier j ≡ false) (filter p rows)
unfolding find_tx
different_key j p [] r k h e = tt
different_key j p (s ∷ rows) r k h e = elim (Bool-cases (same_bytes s.tx_identifier j)) [
  | inl q ↦ here q
  | inr q ↦
      All-if (p s) q (
        different_key j p rows r k.1 (sym (ap (λ b. if b then some s else find_tx j rows) q) ∙ h) e)
]
  where
    All-if :
        (b : Bool)
        → same_bytes s.tx_identifier j ≡ false
        → All (λ s. same_bytes s.tx_identifier j ≡ false) (filter p rows)
        → All
            (λ s. same_bytes s.tx_identifier j ≡ false)
            (if b then s ∷ filter p rows else filter p rows)
    All-if true q a = (q, a)
    All-if false q a = a

    here :
        same_bytes s.tx_identifier j ≡ true
        → All (λ s. same_bytes s.tx_identifier j ≡ false) (filter p (s ∷ rows))
    here q =
        let same = same_bytes-eq s.tx_identifier j q in
        let found = Option-of_some (sym (ap (λ b. if b then some s else find_tx j rows) q) ∙ h) in
        subst (All (λ s. same_bytes s.tx_identifier j ≡ false))
          (sym (ap (λ b. if b then s ∷ filter p rows else filter p rows) (ap p found ∙ e)))
          (All-filter (λ s. same_bytes s.tx_identifier j ≡ false) p rows
            (subst (λ i. Absent i rows) same k.0))
