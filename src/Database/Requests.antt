-- ===== src/Database/Requests.antt =====
-- Requests to a service of internal/service, one after the other, each on a connection of its own.
use arc_lms.Prelude.{ℕ, Bool, false, List, [], ◌∷◌, All}
use arc_lms.Audit.{Actor}
use arc_lms.Database.{Conn}

-- Who calls, and which of the statements the driver fails.
pub record Request (C : Type 0) : Type 0 where
  pub actor : Actor
  pub call : C
  pub faults : ℕ → Bool

abbrev pub connect {ℓ} : {S : Type ℓ} → (ℕ → Bool) → S → Conn S
connect faults s = record { db = s; tx = s; aborted = false; faults = faults; calls = 0 }

-- `run` gives the tables after a call, whether it succeeds or fails.
module _ {C S : Type 0} (run : Actor → C → Conn S → S) where
  unfoldable pub run_all : List (Request C) → S → S
  run_all [] s = s
  run_all (r ∷ rs) s = run_all rs (run r.actor r.call (connect r.faults s))

  -- A relation that every call keeps is kept by all.
  pub run_all-related :
      (R : S → S → Type 0)
      → ((s : S) → R s s)
      → ((s t u : S) → R s t → R t u → R s u)
      → ((actor : Actor) (k : C) (faults : ℕ → Bool) (s : S) → R s (run actor k (connect faults s)))
      → (rs : List (Request C)) (s : S) → R s (run_all rs s)
  unfolding run_all
  run_all-related R same then step [] s = same s
  run_all-related R same then step (r ∷ rs) s =
      then s _ _ (step r.actor r.call r.faults s) (run_all-related R same then step rs _)

  -- A property that every call of a kind keeps is kept by all that are of it.
  pub run_all-kept :
      (P : S → Type 0) (W : Request C → Type 0)
      → ((r : Request C) (s : S) → W r → P s → P (run r.actor r.call (connect r.faults s)))
      → (rs : List (Request C)) (s : S) → All W rs
      → P s
      → P (run_all rs s)
  unfolding run_all
  run_all-kept P W step [] s w p = p
  run_all-kept P W step (r ∷ rs) s w p = run_all-kept P W step rs _ w.1 (step r s w.0 p)
