-- ===== src/Database/Keeps.antt =====
-- Which actions of a request leave the committed tables alone: one rule for each way to build one.
use arc_lms.Prelude.{
  ◌≡◌, refl, ◌∙◌, sym, ap, subst, Bool, true, false, String, arith, if◌then◌else◌,
}
use arc_lms.Database.{
  Conn, Db, Error, Result, ok, err, execute, tx_execute, begin, commit, pure, throw, query,
  tx_query, failing, attempt, relabel, without_error, refuse_if, continue, ◌>>=◌,
}

-- However it ends, the action leaves the committed tables as they were.
pub record KeepsDb {ℓ} {S A : Type ℓ} (m : Db S A) : Type ℓ where
  pub at : (c : Conn S) → (m c).1.db ≡ c.db

-- An action that returns an error leaves the committed tables as they were.
pub record IsAtomic {ℓ} {S A : Type ℓ} (m : Db S A) : Type ℓ where
  pub at : (c : Conn S) {e : Error} → (m c).0 ≡ err e → (m c).1.db ≡ c.db

module _ {ℓ} {S : Type ℓ} where
  pub KeepsDb-tx_execute : (f : S → Result S) → KeepsDb (tx_execute f)
  unfolding tx_execute
  KeepsDb-tx_execute f = record { at = λ c. ground arith }

  pub KeepsDb-begin : KeepsDb (begin {S = S})
  unfolding begin
  KeepsDb-begin = record { at = λ c. ground arith }

  pub KeepsDb-refuse_if : (b : Bool) (s : String) → KeepsDb (refuse_if {S = S} b s)
  unfolding refuse_if
  KeepsDb-refuse_if b s = record { at = λ c. refl }

  pub IsAtomic-execute : (f : S → Result S) → IsAtomic (execute f)
  unfolding execute
  IsAtomic-execute f = record { at = λ c h. ground arith }

  pub IsAtomic-commit : IsAtomic (commit {S = S})
  unfolding commit
  IsAtomic-commit = record { at = λ c h. ground arith }

module _ {ℓ} {S A : Type ℓ} where
  pub KeepsDb-pure : (a : A) → KeepsDb (pure {S = S} a)
  unfolding pure
  KeepsDb-pure a = record { at = λ c. refl }

  pub KeepsDb-throw : (e : Error) → KeepsDb (throw {S = S} {A = A} e)
  unfolding throw
  KeepsDb-throw e = record { at = λ c. refl }

  pub KeepsDb-query : (f : S → Result A) → KeepsDb (query f)
  unfolding query
  KeepsDb-query f = record { at = λ c. refl }

  pub KeepsDb-tx_query : (f : S → Result A) → KeepsDb (tx_query f)
  unfolding tx_query
  KeepsDb-tx_query f = record { at = λ c. ground arith }

  pub KeepsDb-failing : (s : String) (m : Db S A) → KeepsDb m → KeepsDb (failing s m)
  unfolding failing
  KeepsDb-failing s m k = record { at = λ c. k.at c }

  pub KeepsDb-attempt : (m : Db S A) → KeepsDb m → KeepsDb (attempt m)
  unfolding attempt
  KeepsDb-attempt m k = record { at = λ c. k.at c }

  pub IsAtomic-of_KeepsDb : (m : Db S A) → KeepsDb m → IsAtomic m
  IsAtomic-of_KeepsDb m k = record { at = λ c h. k.at c }

  pub IsAtomic-failing : (s : String) (m : Db S A) → IsAtomic m → IsAtomic (failing s m)
  unfolding failing
  IsAtomic-failing s m k = record { at = λ c h. atomic c (m c).0 refl h }
    where
      atomic :
          (c : Conn S) {e : Error} (r : Result A)
          → (m c).0 ≡ r
          → relabel s r ≡ err e
          → (m c).1.db ≡ c.db
      atomic c (ok a) q h = cc
      atomic c (err e) q h = k.at c q

  pub KeepsDb-if : (b : Bool) (m n : Db S A) → KeepsDb m → KeepsDb n → KeepsDb (if b then m else n)
  KeepsDb-if true m n km kn = km
  KeepsDb-if false m n km kn = kn

module _ {ℓ} {S A B : Type ℓ} where
  continue-db :
      (f : A → Db S B) (r : Result A) (c : Conn S)
      → ((a : A) → KeepsDb (f a))
      → (continue f r c).1.db ≡ c.db
  continue-db f (ok a) c k = (k a).at c
  continue-db f (err e) c k = refl

  pub KeepsDb-bind :
      (m : Db S A) (f : A → Db S B) → KeepsDb m → ((a : A) → KeepsDb (f a)) → KeepsDb (m >>= f)
  unfolding ◌>>=◌
  KeepsDb-bind m f km kf = record { at = λ c. continue-db f (m c).0 (m c).1 kf ∙ km.at c }

  continue_atomic :
      (f : A → Db S B) (r : Result A) (c : Conn S) {e : Error}
      → ((a : A) → IsAtomic (f a))
      → (continue f r c).0 ≡ err e
      → (continue f r c).1.db ≡ c.db
  continue_atomic f (ok a) c k h = (k a).at c h
  continue_atomic f (err e) c k h = refl

  -- What precedes leaves the tables alone, and what follows is atomic.
  pub IsAtomic-bind :
      (m : Db S A) (f : A → Db S B) → KeepsDb m → ((a : A) → IsAtomic (f a)) → IsAtomic (m >>= f)
  unfolding ◌>>=◌
  IsAtomic-bind m f km kf = record { at = λ c h. continue_atomic f (m c).0 (m c).1 kf h ∙ km.at c }

-- An action that never returns an error.
pub record Succeeds {ℓ} {S A : Type ℓ} (m : Db S A) : Type ℓ where
  pub at : (c : Conn S) → (a : A) × ((m c).0 ≡ ok a)

module _ {ℓ} {S A : Type ℓ} where
  pub Succeeds-pure : (a : A) → Succeeds (pure {S = S} a)
  unfolding pure
  Succeeds-pure a = record { at = λ c. (a, refl) }

  pub Succeeds-attempt : (m : Db S A) → Succeeds (attempt m)
  unfolding attempt
  Succeeds-attempt m = record { at = λ c. (without_error (m c).0, refl) }

module _ {ℓ} {S A B : Type ℓ} where
  pub Succeeds-bind :
      (m : Db S A) (f : A → Db S B) → Succeeds m → ((a : A) → Succeeds (f a)) → Succeeds (m >>= f)
  unfolding ◌>>=◌
  Succeeds-bind m f sm sf = record {
    at = λ c.
        let (a, q) = sm.at c in
        subst (λ r. (b : B) × ((continue f r (m c).1).0 ≡ ok b)) (sym q) ((sf a).at (m c).1);
  }

  err_of_bind :
      (f : A → Db S B) (m : Db S A) (c : Conn S) (r : Result A) {e : Error}
      → ((a : A) → Succeeds (f a))
      → (m c).0 ≡ r
      → (continue f r (m c).1).0 ≡ err e
      → (e' : Error) × ((m c).0 ≡ err e') × ((continue f r (m c).1).1 ≡ (m c).1)
  err_of_bind f m c (ok a) k q h = let (b, g) = (k a).at (m c).1 in cc
  err_of_bind f m c (err e') k q h = (e', q, refl)

  -- What follows an atomic action never fails.
  pub IsAtomic-then :
      (m : Db S A) (f : A → Db S B) → IsAtomic m → ((a : A) → Succeeds (f a)) → IsAtomic (m >>= f)
  unfolding ◌>>=◌
  IsAtomic-then m f am sf = record {
    at = λ c h.
        let (e', q, g) = err_of_bind f m c (m c).0 sf refl h in ap (λ c'. c'.db) g ∙ am.at c q;
  }

pub ruleset keeps_rules = (
  KeepsDb-tx_execute, KeepsDb-begin, KeepsDb-refuse_if, KeepsDb-pure, KeepsDb-throw, KeepsDb-query,
  KeepsDb-tx_query, KeepsDb-failing, KeepsDb-attempt, KeepsDb-if, KeepsDb-bind,
)
