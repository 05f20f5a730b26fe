-- ===== src/Database/Ensures.antt =====
-- What holds after an action that returned no error: one backward rule for each way to build one.
pub mod Reads
use arc_lms.Prelude.{
  ◌+◌, Option, ◌≡◌, refl, subst, Bool, true, false, ◌||◌, none, some, String, if◌then◌else◌,
}
use arc_lms.Database.{
  Conn, Db, Result, ok, err, driver_error, next_call, write_db, write_tx, open_tx, close_tx, in_tx,
  relabel, without_error, execute, tx_execute, begin, commit, pure, query, tx_query, failing,
  attempt, refuse_if, continue, ◌>>=◌,
}

module _ {ℓ κ} {S A : Type ℓ} where
  abbrev pub EnsuresOf : Result A → Conn S → (A → Conn S → Type κ) → Type κ
  EnsuresOf (ok a) c Q = Q a c
  EnsuresOf (err e) c Q = Unit

  -- If the action succeeds from this connection, its result and the connection after it satisfy Q.
  pub record Ensures (m : Db S A) (c : Conn S) (Q : A → Conn S → Type κ) : Type κ where
    pub at : EnsuresOf (m c).0 (m c).1 Q

  pub Ensures-ok :
      (m : Db S A) (c : Conn S) (Q : A → Conn S → Type κ) {a : A}
      → Ensures m c Q
      → (m c).0 ≡ ok a
      → Q a (m c).1
  Ensures-ok m c Q h q = subst (λ r. EnsuresOf r (m c).1 Q) q h.at

  ensures_imp :
      (r : Result A) (c : Conn S) (P Q : A → Conn S → Type κ)
      → ((a : A) (c : Conn S) → P a c → Q a c)
      → EnsuresOf r c P
      → EnsuresOf r c Q
  ensures_imp (ok a) c P Q f h = f a c h
  ensures_imp (err e) c P Q f h = tt

  pub Ensures-imp :
      {m : Db S A} {c : Conn S} {P Q : A → Conn S → Type κ}
      → ((a : A) (c : Conn S) → P a c → Q a c)
      → Ensures m c P
      → Ensures m c Q
  Ensures-imp {m} {c} {P} {Q} f h = record { at = ensures_imp (m c).0 (m c).1 P Q f h.at }

  ensures_relabel :
      (s : String) (r : Result A) (c : Conn S) (Q : A → Conn S → Type κ)
      → EnsuresOf r c Q
      → EnsuresOf (relabel s r) c Q
  ensures_relabel s (ok a) c Q h = h
  ensures_relabel s (err e) c Q h = tt

  pub Ensures-failing :
      (s : String) {m : Db S A} {c : Conn S} {Q : A → Conn S → Type κ}
      → Ensures m c Q
      → Ensures (failing s m) c Q
  unfolding failing
  Ensures-failing s {m} {c} {Q} h = record { at = ensures_relabel s (m c).0 (m c).1 Q h.at }

  pub Ensures-pure : (a : A) {c : Conn S} {Q : A → Conn S → Type κ} → Q a c → Ensures (pure a) c Q
  unfolding pure
  Ensures-pure a h = record { at = h }

  ensures_query :
      (b : Bool) (r : Result A) (c : Conn S) (Q : A → Conn S → Type κ)
      → ((a : A) → r ≡ ok a → Q a c)
      → EnsuresOf (if b then driver_error else r) c Q
  ensures_query true r c Q k = tt
  ensures_query false (ok a) c Q k = k a refl
  ensures_query false (err e) c Q k = tt

  pub Ensures-query :
      (f : S → Result A) {c : Conn S} {Q : A → Conn S → Type κ}
      → ((a : A) → f c.db ≡ ok a → Q a (next_call c))
      → Ensures (query f) c Q
  unfolding query
  Ensures-query f {c} {Q} k = record {
    at = ensures_query (c.faults c.calls) (f c.db) (next_call c) Q k;
  }

module _ {ℓ κ} {S : Type ℓ} where
  ensures_execute :
      (b : Bool) (r : Result S) (c : Conn S) (Q : Unit {ℓ} → Conn S → Type κ)
      → ((s : S) → r ≡ ok s → Q tt (record c { db = s }))
      → EnsuresOf
          (write_db (if b then driver_error else r) c).0
          (write_db (if b then driver_error else r) c).1
          Q
  ensures_execute true r c Q k = tt
  ensures_execute false (ok s) c Q k = k s refl
  ensures_execute false (err e) c Q k = tt

  pub Ensures-execute :
      (f : S → Result S) {c : Conn S} {Q : Unit {ℓ} → Conn S → Type κ}
      → ((s : S) → f c.db ≡ ok s → Q tt (record c { db = s; calls = c.calls + 1 }))
      → Ensures (execute f) c Q
  unfolding execute
  Ensures-execute f {c} {Q} k = record {
    at = ensures_execute (c.faults c.calls) (f c.db) (next_call c) Q k;
  }

  ensures_attempt :
      (b : Bool) (r : Result S) (c : Conn S) (Q : Option (Unit {ℓ}) → Conn S → Type κ)
      → Q none c
      → ((s : S) → r ≡ ok s → Q (some tt) (record c { db = s }))
      → EnsuresOf
          (attempt (write_db (if b then driver_error else r)) c).0
          (attempt (write_db (if b then driver_error else r)) c).1
          Q
  unfolding attempt
  ensures_attempt true r c Q n k = n
  ensures_attempt false (ok s) c Q n k = k s refl
  ensures_attempt false (err e) c Q n k = n

  -- A statement whose error is dropped is made, or is not.
  pub Ensures-attempt :
      (f : S → Result S) {c : Conn S} {Q : Option (Unit {ℓ}) → Conn S → Type κ}
      → Q none (next_call c)
      → ((s : S) → f c.db ≡ ok s → Q (some tt) (record c { db = s; calls = c.calls + 1 }))
      → Ensures (attempt (execute f)) c Q
  unfolding execute attempt
  Ensures-attempt f {c} {Q} n k = record {
    at = ensures_attempt (c.faults c.calls) (f c.db) (next_call c) Q n k;
  }

  ensures_tx_execute :
      (b : Bool) (r : Result S) (c : Conn S) (Q : Unit {ℓ} → Conn S → Type κ)
      → ((s : S) → r ≡ ok s → Q tt (record c { tx = s }))
      → EnsuresOf
          (write_tx (if b then driver_error else r) c).0
          (write_tx (if b then driver_error else r) c).1
          Q
  ensures_tx_execute true r c Q k = tt
  ensures_tx_execute false (ok s) c Q k = k s refl
  ensures_tx_execute false (err e) c Q k = tt

  pub Ensures-tx_execute :
      (f : S → Result S) {c : Conn S} {Q : Unit {ℓ} → Conn S → Type κ}
      → ((s : S) → f c.tx ≡ ok s → Q tt (record c { tx = s; calls = c.calls + 1 }))
      → Ensures (tx_execute f) c Q
  unfolding tx_execute
  Ensures-tx_execute f {c} {Q} k = record {
    at = ensures_tx_execute (c.aborted || c.faults c.calls) (f c.tx) (next_call c) Q k;
  }

  ensures_begin :
      (b : Bool) (c : Conn S) (Q : Unit {ℓ} → Conn S → Type κ)
      → Q tt (record c { tx = c.db; aborted = false })
      → EnsuresOf (open_tx b c).0 (open_tx b c).1 Q
  ensures_begin true c Q k = tt
  ensures_begin false c Q k = k

  pub Ensures-begin :
      {c : Conn S} {Q : Unit {ℓ} → Conn S → Type κ}
      → Q tt (record c { tx = c.db; aborted = false; calls = c.calls + 1 })
      → Ensures begin c Q
  unfolding begin
  Ensures-begin {c} {Q} k = record { at = ensures_begin (c.faults c.calls) (next_call c) Q k }

  ensures_commit :
      (b : Bool) (c : Conn S) (Q : Unit {ℓ} → Conn S → Type κ)
      → Q tt (record c { db = c.tx })
      → EnsuresOf (close_tx b c).0 (close_tx b c).1 Q
  ensures_commit true c Q k = tt
  ensures_commit false c Q k = k

  pub Ensures-commit :
      {c : Conn S} {Q : Unit {ℓ} → Conn S → Type κ}
      → Q tt (record c { db = c.tx; calls = c.calls + 1 })
      → Ensures commit c Q
  unfolding commit
  Ensures-commit {c} {Q} k = record {
    at = ensures_commit (c.aborted || c.faults c.calls) (next_call c) Q k;
  }

  pub Ensures-refuse_if :
      (b : Bool) (s : String) {c : Conn S} {Q : Unit {ℓ} → Conn S → Type κ}
      → (b ≡ false → Q tt c)
      → Ensures (refuse_if b s) c Q
  unfolding refuse_if
  Ensures-refuse_if true s k = record { at = tt }
  Ensures-refuse_if false s k = record { at = k refl }

module _ {ℓ κ} {S A B : Type ℓ} where
  ensures_continue :
      (f : A → Db S B) (r : Result A) (c : Conn S) (Q : B → Conn S → Type κ)
      → EnsuresOf r c (λ a c'. Ensures (f a) c' Q)
      → EnsuresOf (continue f r c).0 (continue f r c).1 Q
  ensures_continue f (ok a) c Q h = h.at
  ensures_continue f (err e) c Q h = tt

  pub Ensures-bind :
      {m : Db S A} {f : A → Db S B} {c : Conn S} {Q : B → Conn S → Type κ}
      → Ensures m c (λ a c'. Ensures (f a) c' Q)
      → Ensures (m >>= f) c Q
  unfolding ◌>>=◌
  Ensures-bind {m} {f} {c} {Q} h = record { at = ensures_continue f (m c).0 (m c).1 Q h.at }

module _ {ℓ κ} {S B : Type ℓ} where
  -- The same, for a call whose error is wrapped and what follows it.
  pub after_query :
      {A : Type ℓ} (s : String) (f : S → Result A) {g : A → Db S B} {c : Conn S}
      {Q : B → Conn S → Type κ}
      → ((a : A) → f c.db ≡ ok a → Ensures (g a) (next_call c) Q)
      → Ensures (failing s (query f) >>= g) c Q
  after_query s f k = Ensures-bind (Ensures-failing s (Ensures-query f k))

  pub after_execute :
      (s : String) (f : S → Result S) {n : Db S B} {c : Conn S} {Q : B → Conn S → Type κ}
      → ((t : S) → f c.db ≡ ok t → Ensures n (record c { db = t; calls = c.calls + 1 }) Q)
      → Ensures (failing s (execute f) >>= λ _. n) c Q
  after_execute s f k = Ensures-bind (Ensures-failing s (Ensures-execute f k))

  pub after_refuse_if :
      (b : Bool) (s : String) {n : Db S B} {c : Conn S} {Q : B → Conn S → Type κ}
      → (b ≡ false → Ensures n c Q)
      → Ensures (refuse_if b s >>= λ _. n) c Q
  after_refuse_if b s k = Ensures-bind (Ensures-refuse_if b s k)
