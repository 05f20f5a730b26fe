-- ===== src/Database/Ensures/Reads.antt =====
-- The same rules for a read whose error is dropped, outside a transaction and inside.
use arc_lms.Prelude.{◌+◌, Option, ◌≡◌, refl, Bool, true, false, ◌||◌, none, some, if◌then◌else◌}
use arc_lms.Database.{
  Conn, Result, ok, err, driver_error, next_call, in_tx, without_error, query, tx_query, attempt,
}
use arc_lms.Database.Ensures.{Ensures}

module _ {ℓ κ} {S A : Type ℓ} where
  ensures_read :
      (b : Bool) (r : Result A) (c : Conn S) (Q : Option A → Conn S → Type κ)
      → (b ≡ true → Q none c)
      → (b ≡ false → Q (without_error r) c)
      → Q (without_error (if b then driver_error else r)) c
  ensures_read true r c Q n k = n refl
  ensures_read false r c Q n k = k refl

  -- A query whose error is dropped gives what is stored, or none where the driver fails it.
  pub Ensures-attempt_read :
      (f : S → Result A) {c : Conn S} {Q : Option A → Conn S → Type κ}
      → (c.faults c.calls ≡ true → Q none (next_call c))
      → (c.faults c.calls ≡ false → Q (without_error (f c.db)) (next_call c))
      → Ensures (attempt (query f)) c Q
  unfolding attempt query
  Ensures-attempt_read f {c} {Q} n k = record {
    at = ensures_read (c.faults c.calls) (f c.db) (next_call c) Q n k;
  }

  -- A query whose error is dropped has some result, or none.
  pub Ensures-attempt_query :
      (f : S → Result A) {c : Conn S} {Q : Option A → Conn S → Type κ}
      → ((o : Option A) → Q o (next_call c))
      → Ensures (attempt (query f)) c Q
  unfolding attempt query
  Ensures-attempt_query f {c} k = record { at = k (without_error (query f c).0) }

  ensures_tx_query :
      (r : Result A) (c : Conn S) (Q : Option A → Conn S → Type κ)
      → ((o : Option A) (b : Bool) → Q o (record c { aborted = b }))
      → Q (without_error (in_tx r c).0) (in_tx r c).1
  ensures_tx_query (ok a) c Q k = k (some a) c.aborted
  ensures_tx_query (err e) c Q k = k none true

  pub Ensures-attempt_tx_query :
      (f : S → Result A) {c : Conn S} {Q : Option A → Conn S → Type κ}
      → ((o : Option A) (b : Bool) → Q o (record c { aborted = b; calls = c.calls + 1 }))
      → Ensures (attempt (tx_query f)) c Q
  unfolding attempt tx_query
  Ensures-attempt_tx_query f {c} {Q} k = record {
    at =
        ensures_tx_query (if c.aborted || c.faults c.calls then driver_error else f c.tx)
          (next_call c) Q k;
  }
