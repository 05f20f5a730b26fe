-- ===== src/Idempotency.antt =====
-- internal/pkg/idempotency/store.go and internal/middleware/idempotency.go: requests that carry an
-- Idempotency-Key. Redis is a service outside the repository; here it answers every command, and no key
-- expires (after 24 hours) while requests with it are under way.
pub mod Once
pub mod Blocked
pub mod Replay
mod Tests
use arc_lms.Prelude.{
  ℕ, Bool, true, false, ◌&&◌, ◌||◌, ltb, leb, ◌==◌, if◌then◌else◌, Option, none, some, List, [],
  ◌∷◌, ◌≡◌, String, Uuid, update,
}
use arc_lms.Prelude.Texts.{same_text, size}

pub data Method : Type 0 where
  get post put patch delete head options : Method

abbrev pub is_mutating : Method → Bool
is_mutating Method.post = true
is_mutating Method.put = true
is_mutating Method.patch = true
is_mutating Method.delete = true
is_mutating _ = false

-- `buildKey`: the tenant's text has a fixed length, so that the pair is as good as the joined text.
pub record Key : Type 0 where
  pub tenant_id : Uuid
  pub name : String

abbrev pub same_key : Key → Key → Bool
same_key a b = (a.tenant_id == b.tenant_id) && same_text a.name b.name

-- What the middleware makes of a request before it asks Redis.
pub data Screening : Type 0 where
  passed rejected : Screening
  keyed : Key → Screening

abbrev tenant_or_nil : Option Uuid → Uuid
tenant_or_nil none = 0
tenant_or_nil (some t) = t

-- The header is `""` where it is missing, and in ASCII.
unfoldable pub screen : Method → String → Option Uuid → Screening
screen method header tenant_id =
    if is_mutating method
    then if same_text header ""
      then passed
      else if ltb (size header) 16 || ltb 128 (size header)
      then rejected
      else keyed (record { tenant_id = tenant_or_nil tenant_id; name = header })
    else passed

-- A response, and whether `json.Unmarshal` reads its body as an object.
pub record Response : Type 0 where
  pub status : ℕ
  pub body : String
  pub is_object : Bool

abbrev pub is_success : Response → Bool
is_success r = leb 200 r.status && ltb r.status 400

-- The value of a key in Redis.
pub data Cell : Type 0 where
  processing : Cell
  stored : Response → Cell

pub data Answer : Type 0 where
  own replayed : Response → Answer
  conflict : Answer

-- How far a request with a key is: before `Get`, before `TryAcquire`, in its handler, before `Store` or
-- `Delete`, and answered.
pub data Request : Type 0 where
  absent : Request
  arrived missed running : Key → Request
  responded : Key → Response → Request
  answered : Key → Answer → Request

-- Redis, the requests, and the handlers' runs with what they responded, the last one first.
pub record State : Type 0 where
  pub store : Key → Option Cell
  pub requests : ℕ → Request
  pub runs : List (Key × Response)

abbrev pub set_key : (Key → Option Cell) → Key → Option Cell → Key → Option Cell
set_key f k c j = if same_key k j then c else f j

-- `Get` finds a response.
abbrev pub response_in : Option Cell → Option Response
response_in (some (stored r)) = some r
response_in _ = none

-- The answer to a stored response.
abbrev pub replay : Response → Answer
replay r = if r.status == 0 then conflict else replayed r

-- What the middleware leaves in Redis after the handler.
abbrev pub settled : Response → Option Cell → Option Cell
settled r c = if is_success r then (if r.is_object then some (stored r) else c) else none

abbrev pub with_request : State → ℕ → Request → State
with_request s i q = record s { requests = update s.requests i q }

-- `TryAcquire` sets a key that is not there.
abbrev pub acquired : State → ℕ → Key → State
acquired s i k = record s {
  store = set_key s.store k (some processing);
  requests = update s.requests i (running k);
}

abbrev pub handled : State → ℕ → Key → Response → State
handled s i k r = record s {
  requests = update s.requests i (responded k r);
  runs = (k, r) ∷ s.runs;
}

abbrev pub finished : State → ℕ → Key → Response → State
finished s i k r = record s {
  store = set_key s.store k (settled r (s.store k));
  requests = update s.requests i (answered k (own r));
}

pub data Step : State → State → Type 0 where
  arrive :
      (s : State) (i : ℕ) (k : Key) → s.requests i ≡ absent → Step s (with_request s i (arrived k))
  miss :
      (s : State) (i : ℕ) (k : Key)
      → s.requests i ≡ arrived k
      → response_in (s.store k) ≡ none
      → Step s (with_request s i (missed k))
  hit :
      (s : State) (i : ℕ) (k : Key) (r : Response)
      → s.requests i ≡ arrived k
      → s.store k ≡ some (stored r)
      → Step s (with_request s i (answered k (replay r)))
  acquire :
      (s : State) (i : ℕ) (k : Key)
      → s.requests i ≡ missed k
      → s.store k ≡ none
      → Step s (acquired s i k)
  lose :
      (s : State) (i : ℕ) (k : Key) (c : Cell)
      → s.requests i ≡ missed k
      → s.store k ≡ some c
      → Step s (with_request s i (answered k conflict))
  handle :
      (s : State) (i : ℕ) (k : Key) (r : Response)
      → s.requests i ≡ running k
      → Step s (handled s i k r)
  settle :
      (s : State) (i : ℕ) (k : Key) (r : Response)
      → s.requests i ≡ responded k r
      → Step s (finished s i k r)

pub data Reach (s : State) : State → Type 0 where
  here : Reach s s
  next : {t u : State} → Reach s t → Step t u → Reach s u

abbrev pub start : State
start = record { store = λ k. none; requests = λ i. absent; runs = [] }
