-- ===== src/Database/Leaves.antt =====
-- What an action leaves behind however it ends: `P` of the connection where it returns an error, `Q` of
-- its result and the connection where it succeeds. One backward rule for each way to build one.
pub mod Tx
use arc_lms.Prelude.{
  ◌+◌, Option, none, some, ◌≡◌, refl, Bool, true, false, ◌||◌, String, if◌then◌else◌,
}
use arc_lms.Database.{
  Conn, Db, Error, Result, ok, err, driver_error, next_call, write_db, write_tx, open_tx, close_tx,
  in_tx, relabel, without_error, execute, tx_execute, begin, commit, pure, query, tx_query, failing,
  attempt, refuse_if, continue, ◌>>=◌,
}

module _ {ℓ} {S A : Type ℓ} where
  abbrev pub LeavesOf : Result A → Conn S → (Conn S → Type 0) → (A → Conn S → Type 0) → Type 0
  LeavesOf (ok a) c P Q = Q a c
  LeavesOf (err e) c P Q = P c

  pub record Leaves (m : Db S A) (c : Conn S) (P : Conn S → Type 0) (Q : A → Conn S → Type 0)
      : Type 0 where
    pub at : LeavesOf (m c).0 (m c).1 P Q

  leaves_same :
      (r : Result A) (c : Conn S) (P : Conn S → Type 0) → LeavesOf r c P (λ _ c. P c) → P c
  leaves_same (ok a) c P h = h
  leaves_same (err e) c P h = h

  -- What holds in both cases holds.
  pub Leaves-same :
      (m : Db S A) (c : Conn S) (P : Conn S → Type 0) → Leaves m c P (λ _ c'. P c') → P (m c).1
  Leaves-same m c P h = leaves_same (m c).0 (m c).1 P h.at

  leaves_imp :
      (r : Result A) (c : Conn S) (P : Conn S → Type 0) (Q R : A → Conn S → Type 0)
      → ((a : A) (c : Conn S) → Q a c → R a c)
      → LeavesOf r c P Q
      → LeavesOf r c P R
  leaves_imp (ok a) c P Q R f h = f a c h
  leaves_imp (err e) c P Q R f h = h

  pub Leaves-imp :
      {m : Db S A} {c : Conn S} {P : Conn S → Type 0} {Q R : A → Conn S → Type 0}
      → ((a : A) (c : Conn S) → Q a c → R a c)
      → Leaves m c P Q
      → Leaves m c P R
  Leaves-imp {m} {c} {P} {Q} {R} f h = record { at = leaves_imp (m c).0 (m c).1 P Q R f h.at }

  leaves_err :
      (r : Result A) (c : Conn S) (P : Conn S → Type 0)
      → LeavesOf r c P (λ _ _. ⊥)
      → (e : Error) × (r ≡ err e) × P c
  leaves_err (ok a) c P h = elim h [ ]
  leaves_err (err e) c P h = (e, refl, h)

  -- An action that never succeeds.
  pub Leaves-err :
      (m : Db S A) (c : Conn S) (P : Conn S → Type 0)
      → Leaves m c P (λ _ _. ⊥)
      → (e : Error) × ((m c).0 ≡ err e) × P (m c).1
  Leaves-err m c P h = leaves_err (m c).0 (m c).1 P h.at

  leaves_relabel :
      (s : String) (r : Result A) (c : Conn S) (P : Conn S → Type 0) (Q : A → Conn S → Type 0)
      → LeavesOf r c P Q
      → LeavesOf (relabel s r) c P Q
  leaves_relabel s (ok a) c P Q h = h
  leaves_relabel s (err e) c P Q h = h

  pub Leaves-failing :
      (s : String) {m : Db S A} {c : Conn S} {P : Conn S → Type 0} {Q : A → Conn S → Type 0}
      → Leaves m c P Q
      → Leaves (failing s m) c P Q
  unfolding failing
  Leaves-failing s {m} {c} {P} {Q} h = record { at = leaves_relabel s (m c).0 (m c).1 P Q h.at }

  pub Leaves-pure :
      (a : A) {c : Conn S} {P : Conn S → Type 0} {Q : A → Conn S → Type 0}
      → Q a c
      → Leaves (pure a) c P Q
  unfolding pure
  Leaves-pure a h = record { at = h }

  pub Leaves-if :
      (b : Bool) {m n : Db S A} {c : Conn S} {P : Conn S → Type 0} {Q : A → Conn S → Type 0}
      → Leaves m c P Q
      → Leaves n c P Q
      → Leaves (if b then m else n) c P Q
  Leaves-if true hm hn = hm
  Leaves-if false hm hn = hn

  leaves_query :
      (b : Bool) (r : Result A) (c : Conn S) (P : Conn S → Type 0) (Q : A → Conn S → Type 0)
      → P c
      → ((a : A) → r ≡ ok a → Q a c)
      → LeavesOf (if b then driver_error else r) c P Q
  leaves_query true r c P Q p k = p
  leaves_query false (ok a) c P Q p k = k a refl
  leaves_query false (err e) c P Q p k = p

  pub Leaves-query :
      (f : S → Result A) {c : Conn S} {P : Conn S → Type 0} {Q : A → Conn S → Type 0}
      → P (next_call c)
      → ((a : A) → f c.db ≡ ok a → Q a (next_call c))
      → Leaves (query f) c P Q
  unfolding query
  Leaves-query f {c} {P} {Q} p k = record {
    at = leaves_query (c.faults c.calls) (f c.db) (next_call c) P Q p k;
  }

module _ {ℓ} {S A : Type ℓ} where
  leaves_attempt :
      (r : Result A) (c : Conn S) (P : Conn S → Type 0) (Q : Option A → Conn S → Type 0)
      → LeavesOf r c (λ c'. Q none c') (λ a c'. Q (some a) c')
      → Q (without_error r) c
  leaves_attempt (ok a) c P Q h = h
  leaves_attempt (err e) c P Q h = h

  pub Leaves-attempt :
      {m : Db S A} {c : Conn S} {P : Conn S → Type 0} {Q : Option A → Conn S → Type 0}
      → Leaves m c (λ c'. Q none c') (λ a c'. Q (some a) c')
      → Leaves (attempt m) c P Q
  unfolding attempt
  Leaves-attempt {m} {c} {P} {Q} h = record { at = leaves_attempt (m c).0 (m c).1 P Q h.at }

module _ {ℓ} {S : Type ℓ} where
  leaves_execute :
      (b : Bool) (r : Result S) (c : Conn S) (P : Conn S → Type 0) (Q : Unit {ℓ} → Conn S → Type 0)
      → P c
      → ((s : S) → r ≡ ok s → Q tt (record c { db = s }))
      → LeavesOf
          (write_db (if b then driver_error else r) c).0
          (write_db (if b then driver_error else r) c).1
          P
          Q
  leaves_execute true r c P Q p k = p
  leaves_execute false (ok s) c P Q p k = k s refl
  leaves_execute false (err e) c P Q p k = p

  pub Leaves-execute :
      (f : S → Result S) {c : Conn S} {P : Conn S → Type 0} {Q : Unit {ℓ} → Conn S → Type 0}
      → P (next_call c)
      → ((s : S) → f c.db ≡ ok s → Q tt (record c { db = s; calls = c.calls + 1 }))
      → Leaves (execute f) c P Q
  unfolding execute
  Leaves-execute f {c} {P} {Q} p k = record {
    at = leaves_execute (c.faults c.calls) (f c.db) (next_call c) P Q p k;
  }

  pub Leaves-refuse_if :
      (b : Bool) (s : String) {c : Conn S} {P : Conn S → Type 0} {Q : Unit {ℓ} → Conn S → Type 0}
      → P c
      → (b ≡ false → Q tt c)
      → Leaves (refuse_if b s) c P Q
  unfolding refuse_if
  Leaves-refuse_if true s p k = record { at = p }
  Leaves-refuse_if false s p k = record { at = k refl }

module _ {ℓ} {S A B : Type ℓ} where
  leaves_continue :
      (f : A → Db S B) (r : Result A) (c : Conn S) (P : Conn S → Type 0) (Q : B → Conn S → Type 0)
      → LeavesOf r c P (λ a c'. Leaves (f a) c' P Q)
      → LeavesOf (continue f r c).0 (continue f r c).1 P Q
  leaves_continue f (ok a) c P Q h = h.at
  leaves_continue f (err e) c P Q h = h

  pub Leaves-bind :
      {m : Db S A} {f : A → Db S B} {c : Conn S} {P : Conn S → Type 0} {Q : B → Conn S → Type 0}
      → Leaves m c P (λ a c'. Leaves (f a) c' P Q)
      → Leaves (m >>= f) c P Q
  unfolding ◌>>=◌
  Leaves-bind {m} {f} {c} {P} {Q} h = record { at = leaves_continue f (m c).0 (m c).1 P Q h.at }
