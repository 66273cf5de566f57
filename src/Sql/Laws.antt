-- ===== src/Sql/Laws.antt =====
-- Reasoning about calls of a database with the calls shut: what a call that succeeds has done, what
-- every call keeps, and when no call fails.
use bridge_go_aptos.Prelude.{
  ℕ, suc, zero, sym, ap, ◌∙◌, subst, if◌then◌else◌, Bool-cases, ◌⊎◌, inl, inr, ◌≡◌, refl, Bool,
  true, false, List, [], ◌∷◌, arith, All,
}
use bridge_go_aptos.Go.{Error, Outcome, ok, err, panic}
use bridge_go_aptos.Sql.{
  Fault, works, fails, stops, next_fault, later, is_stop, first_rows, stops_early, query_rows,
  error_of, written, call_fails, next_call, Disk, Exec, pure, raise, lift, continue, ◌>>=◌, query,
  exec, prepare, or_error,
}

module _ {ℓ} {T A : Type ℓ} where
  pub query-eq-ok :
      (read : T → A) (d d' : Disk T) (a : A)
      → query read d ≡ (ok a, d')
      → (a ≡ read d.table) × (d'.table ≡ d.table)
  unfolding query
  query-eq-ok read d d' a h = ground arith

  -- A SELECT leaves the table as it is, whether it fails or not.
  pub table-query : (read : T → A) (d : Disk T) → (query read d).1.table ≡ d.table
  unfolding query
  table-query read d = ground arith

  pub query_no_faults :
      (read : T → A) (d : Disk T) → d.faults ≡ [] → query read d ≡ (ok (read d.table), d)
  unfolding query
  query_no_faults read d h = ground arith

-- `xs` is `ys`, or the first of them.
abbrev pub IsFirst {ℓ} : {A : Type ℓ} → List A → List A → Type ℓ
IsFirst xs ys = (xs ≡ ys) ⊎ ((n : ℕ) × (xs ≡ first_rows n ys))

pub All-first_rows {ℓ κ} :
    {A : Type ℓ} (P : A → Type κ) (n : ℕ) (xs : List A) → All P xs → All P (first_rows n xs)
All-first_rows P zero xs h = tt
All-first_rows P (suc n) [] h = tt
All-first_rows P (suc n) (x ∷ xs) h = (h.0, All-first_rows P n xs h.1)

pub All-IsFirst {ℓ κ} :
    {A : Type ℓ} (P : A → Type κ) (xs ys : List A) → IsFirst xs ys → All P ys → All P xs
All-IsFirst P xs ys (inl e) h = subst (All P) (sym e) h
All-IsFirst P xs ys (inr (n, e)) h = subst (All P) (sym e) (All-first_rows P n ys h)

Fault-cases : (f : Fault) → (f ≡ works) ⊎ (f ≡ fails) ⊎ ((n : ℕ) × (f ≡ stops n))
Fault-cases works = inl refl
Fault-cases fails = inr (inl refl)
Fault-cases (stops n) = inr (inr (n, refl))

module _ {ℓ} {T A : Type ℓ} where
  -- The rows that are got, all of them or the first.
  pub query_rows-eq-ok :
      (read : T → List A) (d d' : Disk T) (xs : List A)
      → query_rows read d ≡ (ok xs, d')
      → IsFirst xs (read d.table) × (d'.table ≡ d.table)
  unfolding query_rows
  query_rows-eq-ok read d d' xs h = elim (Fault-cases (next_fault d.faults)) [
    | inl e ↦ (inl (ground (arith, e)), ground (arith, e))
    | inr (inl e) ↦ absurd (ground (arith, e))
    | inr (inr (n, e)) ↦ (inr (n, ground (arith, e)), ground (arith, e))
  ]

  -- Where the call does not stop early, they are all there.
  pub query_rows-in_full :
      (read : T → List A) (d d' : Disk T) (xs : List A)
      → stops_early d ≡ false
      → query_rows read d ≡ (ok xs, d')
      → (xs ≡ read d.table) × (d'.table ≡ d.table)
  unfolding query_rows
  query_rows-in_full read d d' xs k h = elim (Fault-cases (next_fault d.faults)) [
    | inl e ↦ (ground (arith, e), ground (arith, e))
    | inr (inl e) ↦ absurd (ground (arith, e))
    | inr (inr (n, e)) ↦ absurd (ground (arith, e))
  ]

  pub table-query_rows : (read : T → List A) (d : Disk T) → (query_rows read d).1.table ≡ d.table
  unfolding query_rows
  table-query_rows read d = ground arith

module _ {ℓ} {T : Type ℓ} where
  pub exec-eq-ok :
      (update : T → Outcome T) (d d' : Disk T) (u : Unit {ℓ})
      → exec update d ≡ (ok u, d')
      → update d.table ≡ ok d'.table
  unfolding exec
  exec-eq-ok update d d' u h = ground arith

  pub exec_no_faults :
      (update : T → Outcome T) (t : T) (d : Disk T)
      → d.faults ≡ []
      → update d.table ≡ ok t
      → exec update d ≡ (ok tt, record { table = t; faults = [] })
  unfolding exec
  exec_no_faults update t d h k = ground arith

  pub table-prepare : (d : Disk T) → (prepare d).1.table ≡ d.table
  unfolding prepare
  table-prepare d = ground arith

  pub prepare_no_faults : (d : Disk T) → d.faults ≡ [] → prepare d ≡ (ok tt, d)
  unfolding prepare
  prepare_no_faults d h = ground arith

-- No call selects rows and stops early.
abbrev pub InFull : List Fault → Type 0
InFull fs = All (λ f. is_stop f ≡ false) fs

InFull-later : (fs : List Fault) → InFull fs → InFull (later fs)
InFull-later [] h = tt
InFull-later (f ∷ fs) h = h.1

pub InFull-stops_early {ℓ} : {T : Type ℓ} (d : Disk T) → InFull d.faults → stops_early d ≡ false
InFull-stops_early d h = next d.faults h
  where
    next : (fs : List Fault) → InFull fs → is_stop (next_fault fs) ≡ false
    next [] h = refl
    next (f ∷ fs) h = h.0

-- `m` keeps `P` of the table, however it ends, and where no call stops early, none does after `m`.
pub record Keeps {ℓ} {T A : Type ℓ} (P : T → Type ℓ) (m : Exec T A) : Type ℓ where
  pub at : (d : Disk T) → P d.table → P (m d).1.table
  pub in_full : (d : Disk T) → InFull d.faults → InFull (m d).1.faults

module _ {ℓ} {T A : Type ℓ} {P : T → Type ℓ} where
  pub Keeps-table :
      (m : Exec T A) (d d' : Disk T) (o : Outcome A)
      → m d ≡ (o, d')
      → Keeps P m
      → P d.table
      → P d'.table
  Keeps-table m d d' o e k h = subst (λ r. P r.1.table) e (k.at d h)

  pub Keeps-pure : (a : A) → Keeps P (pure a)
  unfolding pure
  Keeps-pure a = record { at = λ d h. h; in_full = λ d h. h }

  pub Keeps-raise : (e : Error) → Keeps P (raise {A = A} e)
  unfolding raise
  Keeps-raise e = record { at = λ d h. h; in_full = λ d h. h }

  pub Keeps-if : (b : Bool) (m n : Exec T A) → Keeps P m → Keeps P n → Keeps P (if b then m else n)
  Keeps-if true m n km kn = km
  Keeps-if false m n km kn = kn

  pub Keeps-or_error : (e : Error) (m : Exec T A) → Keeps P m → Keeps P (or_error e m)
  unfolding or_error
  Keeps-or_error e m km = record {
    at = λ d h. ground (arith, km.at d h);
    in_full = λ d h. ground (arith, km.in_full d h);
  }

  pub Keeps-lift : (o : Outcome A) → Keeps P (lift o)
  unfolding lift
  Keeps-lift o = record { at = λ d h. h; in_full = λ d h. h }

  pub Keeps-query : (read : T → A) → Keeps P (query read)
  unfolding query
  Keeps-query read = record {
    at = λ d h. ground arith;
    in_full = λ d h. ground (arith, InFull-later d.faults h);
  }

  pub Keeps-query_rows : (read : T → List A) → Keeps P (query_rows read)
  unfolding query_rows
  Keeps-query_rows read = record {
    at = λ d h. ground arith;
    in_full = λ d h. ground (arith, InFull-later d.faults h);
  }

Keeps-written {ℓ} :
    {T : Type ℓ} {P : T → Type ℓ} (o : Outcome T) (d : Disk T)
    → ((u : T) → o ≡ ok u → P u)
    → P d.table
    → P (written o (next_call d)).1.table
Keeps-written (ok t) d k h = k t refl
Keeps-written (err e) d k h = h
Keeps-written panic d k h = h

faults-written {ℓ} : {T : Type ℓ} (o : Outcome T) (d : Disk T) → (written o d).1.faults ≡ d.faults
faults-written (ok t) d = refl
faults-written (err e) d = refl
faults-written panic d = refl

module _ {ℓ} {T : Type ℓ} {P : T → Type ℓ} where
  pub Keeps-prepare : Keeps P (prepare {T = T})
  unfolding prepare
  Keeps-prepare = record {
    at = λ d h. ground arith;
    in_full = λ d h. ground (arith, InFull-later d.faults h);
  }

  pub Keeps-exec :
      (update : T → Outcome T) → ((t u : T) → update t ≡ ok u → P t → P u) → Keeps P (exec update)
  unfolding exec
  Keeps-exec update k = record {
    at = λ d h. elim (Bool-cases (call_fails d)) [
      | inl e ↦ rw (e, exec) h
      | inr e ↦ rw (e, exec) (Keeps-written (update d.table) d (λ u q. k d.table u q h) h)
    ];
    in_full = λ d h. elim (Bool-cases (call_fails d)) [
      | inl e ↦ rw (e, exec) (InFull-later d.faults h)
      | inr e ↦
          rw (e, exec)
            (subst InFull (sym (faults-written (update d.table) (next_call d)))
              (InFull-later d.faults h))
    ];
  }

module _ {ℓ} {T A B : Type ℓ} where
  Keeps-continue :
      (P : T → Type ℓ) (f : A → Exec T B) (o : Outcome A) (d : Disk T)
      → ((a : A) → Keeps P (f a))
      → P d.table
      → P (continue o f d).1.table
  Keeps-continue P f (ok a) d k h = (k a).at d h
  Keeps-continue P f (err e) d k h = h
  Keeps-continue P f panic d k h = h

  InFull-continue :
      (P : T → Type ℓ) (f : A → Exec T B) (o : Outcome A) (d : Disk T)
      → ((a : A) → Keeps P (f a))
      → InFull d.faults
      → InFull (continue o f d).1.faults
  InFull-continue P f (ok a) d k h = (k a).in_full d h
  InFull-continue P f (err e) d k h = h
  InFull-continue P f panic d k h = h

  pub Keeps-bind :
      {P : T → Type ℓ} (m : Exec T A) (f : A → Exec T B)
      → Keeps P m
      → ((a : A) → Keeps P (f a))
      → Keeps P (m >>= f)
  unfolding ◌>>=◌
  Keeps-bind {P} m f km kf = record {
    at = λ d h. let (o, d') = m d in Keeps-continue P f o d' kf (km.at d h);
    in_full = λ d h. let (o, d') = m d in InFull-continue P f o d' kf (km.in_full d h);
  }

  -- A chain of calls that succeeds: its first part has succeeded, and so has the rest from there.
  pub >>=-eq-ok :
      (m : Exec T A) (f : A → Exec T B) (d d'' : Disk T) (b : B)
      → (m >>= f) d ≡ (ok b, d'')
      → (a : A) × (d' : Disk T) × (m d ≡ (ok a, d')) × (f a d' ≡ (ok b, d''))
  unfolding ◌>>=◌
  >>=-eq-ok m f d d'' b h = continue-eq-ok (m d) refl h
    where
      continue-eq-ok :
          (r : Outcome A × Disk T)
          → m d ≡ r
          → continue r.0 f r.1 ≡ (ok b, d'')
          → (a : A) × (d' : Disk T) × (m d ≡ (ok a, d')) × (f a d' ≡ (ok b, d''))
      continue-eq-ok (ok a, d') e h = (a, d', e, h)
      continue-eq-ok (err x, d') e h = absurd (ground arith)
      continue-eq-ok (panic, d') e h = absurd (ground arith)

-- `m` only reads.
abbrev pub ReadsAt {ℓ} : {T A : Type ℓ} → Exec T A → Disk T → Type ℓ
ReadsAt m d = (m d).1.table ≡ d.table

module _ {ℓ} {T A B : Type ℓ} (Q : T → Type ℓ) where
  -- After a part that only reads, `Q` is left to the rest, which may use what was read.
  pub bind_rule :
      (m : Exec T A) (f : A → Exec T B) (d : Disk T)
      → ReadsAt m d
      → Q d.table
      → ((a : A) (d' : Disk T) → m d ≡ (ok a, d') → d'.table ≡ d.table → Q (f a d').1.table)
      → Q ((m >>= f) d).1.table
  unfolding ◌>>=◌
  bind_rule m f d reads q k = go (m d) refl
    where
      go : (r : Outcome A × Disk T) → m d ≡ r → Q (continue r.0 f r.1).1.table
      go (ok a, d') e = k a d' e (sym (ap (λ r. r.1.table) e) ∙ reads)
      go (err x, d') e = subst Q (sym reads ∙ ap (λ r. r.1.table) e) q
      go (panic, d') e = subst Q (sym reads ∙ ap (λ r. r.1.table) e) q

module _ {ℓ} {T A : Type ℓ} where
  pub or_error-eq-ok :
      (e : Error) (m : Exec T A) (d d' : Disk T) (a : A)
      → or_error e m d ≡ (ok a, d')
      → m d ≡ (ok a, d')
  unfolding or_error
  or_error-eq-ok e m d d' a h = go (m d) refl h
    where
      go : (r : Outcome A × Disk T) → m d ≡ r → error_of e r ≡ (ok a, d') → m d ≡ (ok a, d')
      go (ok b, d1) p h = p ∙ h
      go (err x, d1) p h = absurd (cc)
      go (panic, d1) p h = absurd (cc)

  pub table-or_error :
      (e : Error) (m : Exec T A) (d : Disk T) → (or_error e m d).1.table ≡ (m d).1.table
  unfolding or_error
  table-or_error e m d = ground arith

  pub table-lift : (o : Outcome A) (d : Disk T) → (lift o d).1.table ≡ d.table
  unfolding lift
  table-lift o d = refl

  pub lift-eq-ok :
      (o : Outcome A) (d d' : Disk T) (a : A) → lift o d ≡ (ok a, d') → (o ≡ ok a) × (d' ≡ d)
  unfolding lift
  lift-eq-ok o d d' a h = (ap (λ r. r.0) h, sym (ap (λ r. r.1) h))

pub exec_rule {ℓ} :
    {T : Type ℓ} (Q : T → Type ℓ) (update : T → Outcome T) (d : Disk T)
    → Q d.table
    → ((t : T) → update d.table ≡ ok t → Q t)
    → Q (exec update d).1.table
unfolding exec
exec_rule Q update d q k = elim (Bool-cases (call_fails d)) [
  | inl e ↦ rw (e, exec) q
  | inr e ↦ rw (e, exec) (Keeps-written {P = Q} (update d.table) d (λ t h. k t h) q)
]

pub ruleset keeps_rules = (
  Keeps-pure, Keeps-raise, Keeps-if, Keeps-or_error, Keeps-lift, Keeps-query, Keeps-query_rows,
  Keeps-prepare, Keeps-exec, Keeps-bind,
)
