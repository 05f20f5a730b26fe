-- ===== src/Database.antt =====
-- internal/repository/repository.go and the use of database/sql: what a repository call does to the
-- tables, and how it fails. A call reads or writes the committed tables, or those of the open
-- transaction where it is handed the `tx`. `faults n` says whether the driver fails the n-th call of
-- the request (a lost connection, a timeout, a cancelled context), and theorems hold for every such
-- sequence. After a failed statement PostgreSQL refuses every further one of the transaction.
pub mod Keeps
pub mod Ensures
pub mod Runs
pub mod Leaves
pub mod Requests
use arc_lms.Prelude.{
  ℕ, ◌≡◌, refl, ◌⊎◌, inl, inr, ◌+◌, Bool, true, false, ◌||◌, Option, none, some, String,
  if◌then◌else◌,
}

-- The errors of `ParseError`, and every other one that the driver gives.
pub data RepoError : Type 0 where
  not_found duplicate_key foreign_key_violation check_violation : RepoError
  exclusion_violation driver_failure : RepoError

-- `fmt.Errorf` with a message alone, and with a `%w`.
pub data Error : Type 0 where
  repo : RepoError → Error
  message : String → Error
  wrapped : String → Error → Error

pub data Result {ℓ} (A : Type ℓ) : Type ℓ where
  ok : A → Result A
  err : Error → Result A

-- `row.Scan`: `sql.ErrNoRows` where there is no row.
abbrev pub found {ℓ} : {A : Type ℓ} → Option A → Result A
found none = err (repo RepoError.not_found)
found (some a) = ok a

pub found_lem {ℓ} : {A : Type ℓ} (o : Option A) (a : A) → found o ≡ ok a → o ≡ some a
found_lem (some b) a h = cc
found_lem none a h = cc

pub Result-cases {ℓ} :
    {A : Type ℓ} (r : Result A) → ((a : A) × (r ≡ ok a)) ⊎ ((e : Error) × (r ≡ err e))
Result-cases (ok a) = inl (a, refl)
Result-cases (err e) = inr (e, refl)

-- The connection, during one request.
pub record Conn {ℓ} (S : Type ℓ) : Type ℓ where
  pub db : S
  pub tx : S
  pub aborted : Bool
  pub faults : ℕ → Bool
  pub calls : ℕ

abbrev pub Db {ℓ} : Type ℓ → Type ℓ → Type ℓ
Db S A = Conn S → Result A × Conn S

abbrev pub driver_error {ℓ} : {A : Type ℓ} → Result A
driver_error = err (repo RepoError.driver_failure)

module _ {ℓ} {A : Type ℓ} where
  -- An error is wrapped in a message.
  abbrev pub relabel : String → Result A → Result A
  relabel s (ok a) = ok a
  relabel s (err e) = err (wrapped s e)

  abbrev pub without_error : Result A → Option A
  without_error (ok a) = some a
  without_error (err e) = none

module _ {ℓ} {S : Type ℓ} where
  abbrev pub next_call : Conn S → Conn S
  next_call c = record c { calls = c.calls + 1 }

  abbrev pub write_db : Result S → Conn S → Result (Unit {ℓ}) × Conn S
  write_db (ok s) c = (ok tt, record c { db = s })
  write_db (err e) c = (err e, c)

  abbrev pub write_tx : Result S → Conn S → Result (Unit {ℓ}) × Conn S
  write_tx (ok s) c = (ok tt, record c { tx = s })
  write_tx (err e) c = (err e, record c { aborted = true })

  -- A statement on the committed tables.
  unfoldable pub execute : (S → Result S) → Db S (Unit {ℓ})
  execute f c = write_db (if c.faults c.calls then driver_error else f c.db) (next_call c)

  -- A statement inside the transaction.
  unfoldable pub tx_execute : (S → Result S) → Db S (Unit {ℓ})
  tx_execute f c =
      write_tx (if c.aborted || c.faults c.calls then driver_error else f c.tx) (next_call c)

  abbrev open_tx : Bool → Conn S → Result (Unit {ℓ}) × Conn S
  open_tx true c = (driver_error, c)
  open_tx false c = (ok tt, record c { tx = c.db; aborted = false })

  abbrev close_tx : Bool → Conn S → Result (Unit {ℓ}) × Conn S
  close_tx true c = (driver_error, c)
  close_tx false c = (ok tt, record c { db = c.tx })

  -- `db.BeginTx`
  unfoldable pub begin : Db S (Unit {ℓ})
  begin c = open_tx (c.faults c.calls) (next_call c)

  -- `tx.Commit`. The deferred `tx.Rollback` drops the transaction's tables where this is not
  -- reached, which needs no step here.
  unfoldable pub commit : Db S (Unit {ℓ})
  commit c = close_tx (c.aborted || c.faults c.calls) (next_call c)

module _ {ℓ} {S A : Type ℓ} where
  unfoldable pub pure : A → Db S A
  pure a c = (ok a, c)

  unfoldable pub throw : Error → Db S A
  throw e c = (err e, c)

  -- A query of the committed tables.
  unfoldable pub query : (S → Result A) → Db S A
  query f c = (if c.faults c.calls then driver_error else f c.db, next_call c)

  abbrev pub in_tx : Result A → Conn S → Result A × Conn S
  in_tx (ok a) c = (ok a, c)
  in_tx (err e) c = (err e, record c { aborted = true })

  -- A query inside the transaction.
  unfoldable pub tx_query : (S → Result A) → Db S A
  tx_query f c =
      in_tx (if c.aborted || c.faults c.calls then driver_error else f c.tx) (next_call c)

  -- `if err != nil { return fmt.Errorf("…: %w", err) }` after a call.
  unfoldable pub failing : String → Db S A → Db S A
  failing s m c = let (r, c') = m c in (relabel s r, c')

  -- A call after whose error the code goes on.
  unfoldable pub attempt : Db S A → Db S (Option A)
  attempt m c = let (r, c') = m c in (ok (without_error r), c')

module _ {ℓ} {S : Type ℓ} where
  -- `if bad { return fmt.Errorf("…") }`
  unfoldable pub refuse_if : Bool → String → Db S (Unit {ℓ})
  refuse_if b s c = (if b then err (message s) else ok tt, c)

module _ {ℓ} {S A B : Type ℓ} where
  abbrev pub continue : (A → Db S B) → Result A → Db S B
  continue f (ok a) c = f a c
  continue f (err e) c = (err e, c)

  infixl 5 ◌>>=◌ ◌>>◌
  unfoldable pub ◌>>=◌ : Db S A → (A → Db S B) → Db S B
  ◌>>=◌ m f c = let (r, c') = m c in continue f r c'

  abbrev pub ◌>>◌ : Db S A → Db S B → Db S B
  m >> n = m >>= λ _. n
