-- ===== src/Idempotency/Blocked.antt =====
-- A key that internal/middleware/idempotency.go never lets go.
use arc_lms.Prelude.{ℕ, suc, false, if◌then◌else◌, some, List, [], ◌∷◌, ◌≡◌}
use arc_lms.Idempotency.{Key, same_key, Response, processing, State}
use arc_lms.Idempotency.Once.{is_active}

-- How often the handler has run for the key.
abbrev pub runs_of : Key → List (Key × Response) → ℕ
runs_of k [] = 0
runs_of k ((j, r) ∷ rs) = let n = runs_of k rs in if same_key j k then suc n else n

record IsBlocked (k : Key) (n : ℕ) (s : State) : Type 0 where
  taken : s.store k ≡ some processing
  idle : (i : ℕ) → is_active k (s.requests i) ≡ false
  runs : runs_of k s.runs ≡ n
