-- ===== src/Idempotency/Replay.antt =====
-- What internal/middleware/idempotency.go answers from Redis.
use arc_lms.Prelude.{ℕ, true, Option, none, some, List, [], ◌∷◌, ◌≡◌, ◌⊎◌}
use arc_lms.Idempotency.{
  Key, Response, is_success, Cell, processing, stored, Answer, own, replayed, conflict, Request,
  absent, arrived, missed, running, responded, answered, State,
}

-- The handler has run for the key with this response.
abbrev pub Ran : Key → Response → List (Key × Response) → Type 0
Ran k r [] = ⊥
Ran k r ((j, q) ∷ rs) = ((j ≡ k) × (q ≡ r)) ⊎ Ran k r rs

abbrev Logged : List (Key × Response) → Key → Response → Type 0
Logged rs k r = Ran k r rs × (is_success r ≡ true)

abbrev CellOk : List (Key × Response) → Key → Option Cell → Type 0
CellOk rs k (some (stored r)) = Logged rs k r
CellOk rs k (some processing) = Unit
CellOk rs k none = Unit

abbrev AnswerOk : List (Key × Response) → Key → Answer → Type 0
AnswerOk rs k (replayed r) = Logged rs k r
AnswerOk rs k (own r) = Unit
AnswerOk rs k conflict = Unit

abbrev RequestOk : List (Key × Response) → Request → Type 0
RequestOk rs (responded k r) = Ran k r rs
RequestOk rs (answered k a) = AnswerOk rs k a
RequestOk rs absent = Unit
RequestOk rs (arrived k) = Unit
RequestOk rs (missed k) = Unit
RequestOk rs (running k) = Unit

record IsFaithful (s : State) : Type 0 where
  cells : (k : Key) → CellOk s.runs k (s.store k)
  requests : (i : ℕ) → RequestOk s.runs (s.requests i)
