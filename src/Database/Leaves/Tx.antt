-- ===== src/Database/Leaves/Tx.antt =====
-- The same rules for the statements of a transaction, for calls whose error is dropped, and for a call
-- with what follows it.
use arc_lms.Prelude.{
  ◌+◌, Option, none, some, ◌≡◌, refl, Bool, true, false, ◌||◌, String, if◌then◌else◌,
}
use arc_lms.Database.{
  Conn, Db, Result, ok, err, driver_error, next_call, write_tx, open_tx, close_tx, in_tx,
  without_error, tx_execute, begin, commit, query, tx_query, failing, attempt, refuse_if, ◌>>=◌,
}
use arc_lms.Database.Leaves.{
  LeavesOf, Leaves, Leaves-failing, Leaves-query, Leaves-refuse_if, Leaves-bind,
}

module _ {ℓ} {S : Type ℓ} where
  leaves_tx_execute :
      (b : Bool) (r : Result S) (c : Conn S) (P : Conn S → Type 0) (Q : Unit {ℓ} → Conn S → Type 0)
      → P (record c { aborted = true })
      → ((s : S) → r ≡ ok s → Q tt (record c { tx = s }))
      → LeavesOf
          (write_tx (if b then driver_error else r) c).0
          (write_tx (if b then driver_error else r) c).1
          P
          Q
  leaves_tx_execute true r c P Q p k = p
  leaves_tx_execute false (ok s) c P Q p k = k s refl
  leaves_tx_execute false (err e) c P Q p k = p

  pub Leaves-tx_execute :
      (f : S → Result S) {c : Conn S} {P : Conn S → Type 0} {Q : Unit {ℓ} → Conn S → Type 0}
      → P (record c { aborted = true; calls = c.calls + 1 })
      → ((s : S) → f c.tx ≡ ok s → Q tt (record c { tx = s; calls = c.calls + 1 }))
      → Leaves (tx_execute f) c P Q
  unfolding tx_execute
  Leaves-tx_execute f {c} {P} {Q} p k = record {
    at = leaves_tx_execute (c.aborted || c.faults c.calls) (f c.tx) (next_call c) P Q p k;
  }

  leaves_begin :
      (b : Bool) (c : Conn S) (P : Conn S → Type 0) (Q : Unit {ℓ} → Conn S → Type 0)
      → P c
      → Q tt (record c { tx = c.db; aborted = false })
      → LeavesOf (open_tx b c).0 (open_tx b c).1 P Q
  leaves_begin true c P Q p k = p
  leaves_begin false c P Q p k = k

  pub Leaves-begin :
      {c : Conn S} {P : Conn S → Type 0} {Q : Unit {ℓ} → Conn S → Type 0}
      → P (next_call c)
      → Q tt (record c { tx = c.db; aborted = false; calls = c.calls + 1 })
      → Leaves begin c P Q
  unfolding begin
  Leaves-begin {c} {P} {Q} p k = record {
    at = leaves_begin (c.faults c.calls) (next_call c) P Q p k;
  }

  leaves_commit :
      (b : Bool) (c : Conn S) (P : Conn S → Type 0) (Q : Unit {ℓ} → Conn S → Type 0)
      → P c
      → Q tt (record c { db = c.tx })
      → LeavesOf (close_tx b c).0 (close_tx b c).1 P Q
  leaves_commit true c P Q p k = p
  leaves_commit false c P Q p k = k

  pub Leaves-commit :
      {c : Conn S} {P : Conn S → Type 0} {Q : Unit {ℓ} → Conn S → Type 0}
      → P (next_call c)
      → Q tt (record c { db = c.tx; calls = c.calls + 1 })
      → Leaves commit c P Q
  unfolding commit
  Leaves-commit {c} {P} {Q} p k = record {
    at = leaves_commit (c.aborted || c.faults c.calls) (next_call c) P Q p k;
  }

module _ {ℓ} {S A : Type ℓ} where
  leaves_attempt_query :
      (b : Bool) (r : Result A) (c : Conn S) (Q : Option A → Conn S → Type 0)
      → (b ≡ true → Q none c)
      → (b ≡ false → Q (without_error r) c)
      → Q (without_error (if b then driver_error else r)) c
  leaves_attempt_query true r c Q h k = h refl
  leaves_attempt_query false r c Q h k = k refl

  -- A query whose error is dropped gives what is stored, or none where the driver fails it.
  pub Leaves-attempt_query :
      (f : S → Result A) {c : Conn S} {P : Conn S → Type 0} {Q : Option A → Conn S → Type 0}
      → (c.faults c.calls ≡ true → Q none (next_call c))
      → (c.faults c.calls ≡ false → Q (without_error (f c.db)) (next_call c))
      → Leaves (attempt (query f)) c P Q
  unfolding attempt query
  Leaves-attempt_query f {c} {P} {Q} h k = record {
    at = leaves_attempt_query (c.faults c.calls) (f c.db) (next_call c) Q h k;
  }

  leaves_tx_query :
      (r : Result A) (c : Conn S) (Q : Option A → Conn S → Type 0)
      → ((o : Option A) (b : Bool) → Q o (record c { aborted = b }))
      → Q (without_error (in_tx r c).0) (in_tx r c).1
  leaves_tx_query (ok a) c Q k = k (some a) c.aborted
  leaves_tx_query (err e) c Q k = k none true

  -- Inside a transaction it may end the transaction.
  pub Leaves-attempt_tx_query :
      (f : S → Result A) {c : Conn S} {P : Conn S → Type 0} {Q : Option A → Conn S → Type 0}
      → ((o : Option A) (b : Bool) → Q o (record c { aborted = b; calls = c.calls + 1 }))
      → Leaves (attempt (tx_query f)) c P Q
  unfolding attempt tx_query
  Leaves-attempt_tx_query f {c} {P} {Q} k = record {
    at =
        leaves_tx_query (if c.aborted || c.faults c.calls then driver_error else f c.tx)
          (next_call c) Q k;
  }

module _ {ℓ} {S B : Type ℓ} where
  -- The same, for a call whose error is wrapped and what follows it.
  pub past_query :
      {A : Type ℓ} (s : String) (f : S → Result A) {g : A → Db S B} {c : Conn S}
      {P : Conn S → Type 0} {Q : B → Conn S → Type 0}
      → P (next_call c)
      → ((a : A) → f c.db ≡ ok a → Leaves (g a) (next_call c) P Q)
      → Leaves (failing s (query f) >>= g) c P Q
  past_query s f p k = Leaves-bind (Leaves-failing s (Leaves-query f p k))

  pub past_refuse_if :
      (b : Bool) (s : String) {n : Db S B} {c : Conn S} {P : Conn S → Type 0}
      {Q : B → Conn S → Type 0}
      → P c
      → (b ≡ false → Leaves n c P Q)
      → Leaves (refuse_if b s >>= λ _. n) c P Q
  past_refuse_if b s p k = Leaves-bind (Leaves-refuse_if b s p k)

  pub past_tx_execute :
      (s : String) (f : S → Result S) {n : Db S B} {c : Conn S} {P : Conn S → Type 0}
      {Q : B → Conn S → Type 0}
      → P (record c { aborted = true; calls = c.calls + 1 })
      → ((t : S) → f c.tx ≡ ok t → Leaves n (record c { tx = t; calls = c.calls + 1 }) P Q)
      → Leaves (failing s (tx_execute f) >>= λ _. n) c P Q
  past_tx_execute s f p k = Leaves-bind (Leaves-failing s (Leaves-tx_execute f p k))
