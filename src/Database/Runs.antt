-- ===== src/Database/Runs.antt =====
-- An action that returns no error, and what holds after it: a rule for each way to build one, on a
-- connection that fails no statement of itself.
use arc_lms.Prelude.{ℕ, ◌+◌, Option, ◌≡◌, refl, Bool, false, ◌||◌, some, String}
use arc_lms.Database.{
  Conn, Db, Result, ok, err, next_call, relabel, without_error, execute, tx_execute, begin, commit,
  pure, query, failing, attempt, refuse_if, continue, ◌>>=◌,
}

-- No statement from now on is failed by the driver.
abbrev pub Quiet {ℓ} : {S : Type ℓ} → Conn S → Type 0
Quiet c = (n : ℕ) → c.faults n ≡ false

neither : {a b : Bool} → a ≡ false → b ≡ false → (a || b) ≡ false
neither ha hb = rw (ha, hb) refl

module _ {ℓ} {S A : Type ℓ} where
  abbrev pub RunsOf : Result A → Conn S → (A → Conn S → Type 0) → Type 0
  RunsOf (ok a) c Q = Q a c
  RunsOf (err e) c Q = ⊥

  -- From this connection the action succeeds, and its result and the connection after it satisfy Q.
  pub record Runs (m : Db S A) (c : Conn S) (Q : A → Conn S → Type 0) : Type 0 where
    pub at : RunsOf (m c).0 (m c).1 Q

  runs_imp :
      (P Q : A → Conn S → Type 0) (r : Result A) (c : Conn S)
      → ((a : A) (c : Conn S) → P a c → Q a c)
      → RunsOf r c P
      → RunsOf r c Q
  runs_imp P Q (ok a) c f h = f a c h
  runs_imp P Q (err e) c f h = h

  pub Runs-imp :
      (m : Db S A) (c : Conn S) {P Q : A → Conn S → Type 0}
      → ((a : A) (c : Conn S) → P a c → Q a c)
      → Runs m c P
      → Runs m c Q
  Runs-imp m c {P} {Q} f h = record { at = runs_imp P Q (m c).0 (m c).1 f h.at }

  runs_relabel :
      (s : String) (r : Result A) (c : Conn S) (Q : A → Conn S → Type 0)
      → RunsOf r c Q
      → RunsOf (relabel s r) c Q
  runs_relabel s (ok a) c Q h = h
  runs_relabel s (err e) c Q h = h

  pub Runs-failing :
      (s : String) {m : Db S A} {c : Conn S} {Q : A → Conn S → Type 0}
      → Runs m c Q
      → Runs (failing s m) c Q
  unfolding failing
  Runs-failing s {m} {c} {Q} h = record { at = runs_relabel s (m c).0 (m c).1 Q h.at }

  pub Runs-pure : (a : A) {c : Conn S} {Q : A → Conn S → Type 0} → Q a c → Runs (pure a) c Q
  unfolding pure
  Runs-pure a h = record { at = h }

  pub Runs-query :
      (f : S → Result A) {c : Conn S} {Q : A → Conn S → Type 0} {a : A}
      → Quiet c
      → f c.db ≡ ok a
      → Q a (next_call c)
      → Runs (query f) c Q
  unfolding query
  Runs-query f {c} h e k = record { at = rw (h c.calls, e) k }

module _ {ℓ} {S : Type ℓ} where
  pub Runs-execute :
      (f : S → Result S) {c : Conn S} {Q : Unit {ℓ} → Conn S → Type 0} {s : S}
      → Quiet c
      → f c.db ≡ ok s
      → Q tt (record c { db = s; calls = c.calls + 1 })
      → Runs (execute f) c Q
  unfolding execute
  Runs-execute f {c} h e k = record { at = rw (h c.calls, e) k }

  pub Runs-tx_execute :
      (f : S → Result S) {c : Conn S} {Q : Unit {ℓ} → Conn S → Type 0} {s : S}
      → Quiet c
      → c.aborted ≡ false
      → f c.tx ≡ ok s
      → Q tt (record c { tx = s; calls = c.calls + 1 })
      → Runs (tx_execute f) c Q
  unfolding tx_execute
  Runs-tx_execute f {c} h a e k = record { at = rw (neither a (h c.calls), e) k }

  pub Runs-begin :
      {c : Conn S} {Q : Unit {ℓ} → Conn S → Type 0}
      → Quiet c
      → Q tt (record c { tx = c.db; aborted = false; calls = c.calls + 1 })
      → Runs begin c Q
  unfolding begin
  Runs-begin {c} h k = record { at = rw (h c.calls) k }

  pub Runs-commit :
      {c : Conn S} {Q : Unit {ℓ} → Conn S → Type 0}
      → Quiet c
      → c.aborted ≡ false
      → Q tt (record c { db = c.tx; calls = c.calls + 1 })
      → Runs commit c Q
  unfolding commit
  Runs-commit {c} h a k = record { at = rw (neither a (h c.calls)) k }

  pub Runs-refuse_if :
      (b : Bool) (s : String) {c : Conn S} {Q : Unit {ℓ} → Conn S → Type 0}
      → b ≡ false
      → Q tt c
      → Runs (refuse_if b s) c Q
  unfolding refuse_if
  Runs-refuse_if b s e k = record { at = rw e k }

  runs_attempt :
      (r : Result (Unit {ℓ})) (c : Conn S) (Q : Option (Unit {ℓ}) → Conn S → Type 0)
      → RunsOf r c (λ u c'. Q (some u) c')
      → Q (without_error r) c
  runs_attempt (ok tt) c Q h = h
  runs_attempt (err e) c Q h = elim h [ ]

  pub Runs-attempt :
      {m : Db S (Unit {ℓ})} {c : Conn S} {Q : Option (Unit {ℓ}) → Conn S → Type 0}
      → Runs m c (λ u c'. Q (some u) c')
      → Runs (attempt m) c Q
  unfolding attempt
  Runs-attempt {m} {c} {Q} h = record { at = runs_attempt (m c).0 (m c).1 Q h.at }

module _ {ℓ} {S A B : Type ℓ} where
  runs_continue :
      (f : A → Db S B) (r : Result A) (c : Conn S) (Q : B → Conn S → Type 0)
      → RunsOf r c (λ a c'. Runs (f a) c' Q)
      → RunsOf (continue f r c).0 (continue f r c).1 Q
  runs_continue f (ok a) c Q h = h.at
  runs_continue f (err e) c Q h = elim h [ ]

  pub Runs-bind :
      {m : Db S A} {f : A → Db S B} {c : Conn S} {Q : B → Conn S → Type 0}
      → Runs m c (λ a c'. Runs (f a) c' Q)
      → Runs (m >>= f) c Q
  unfolding ◌>>=◌
  Runs-bind {m} {f} {c} {Q} h = record { at = runs_continue f (m c).0 (m c).1 Q h.at }

module _ {ℓ} {S B : Type ℓ} where
  -- The same, for a call whose error is wrapped and what follows it.
  pub then_query :
      {A : Type ℓ} (s : String) (f : S → Result A) (g : A → Db S B) {c : Conn S}
      {Q : B → Conn S → Type 0} {a : A}
      → Quiet c
      → f c.db ≡ ok a
      → Runs (g a) (next_call c) Q
      → Runs (failing s (query f) >>= g) c Q
  then_query s f g h e k = Runs-bind (Runs-failing s (Runs-query f h e k))

  pub then_refuse_if :
      (b : Bool) (s : String) {n : Db S B} {c : Conn S} {Q : B → Conn S → Type 0}
      → b ≡ false
      → Runs n c Q
      → Runs (refuse_if b s >>= λ _. n) c Q
  then_refuse_if b s e k = Runs-bind (Runs-refuse_if b s e k)
