-- ===== src/Idempotency/Tests.antt =====
-- Requests with one key, through internal/middleware/idempotency.go.
use arc_lms.Prelude.{◌≡◌, refl, true, false, some}
use arc_lms.Idempotency.{
  Method, Key, screen, passed, rejected, keyed, Response, replayed, arrived, missed, answered,
  State, with_request, acquired, handled, finished, start,
}

abbrev key : Key
key = record { tenant_id = 5; name = "0123456789abcdef" }

screened :
    (screen Method.post "0123456789abcdef" (some 5) ≡ keyed key)
    × (screen Method.post "short" (some 5) ≡ rejected)
    × (screen Method.post "" (some 5) ≡ passed)
    × (screen Method.get "0123456789abcdef" (some 5) ≡ passed)
unfolding screen
screened = (refl, refl, refl, refl)

abbrev created : Response
created = record { status = 201; body = "{}"; is_object = true }

abbrev no_content : Response
no_content = record { status = 204; body = ""; is_object = false }

-- Request 0 has its handler's response.
abbrev in_handler : State
in_handler = acquired (with_request (with_request start 0 (arrived key)) 0 (missed key)) 0 key

abbrev after_handler : Response → State
after_handler r = handled in_handler 0 key r

-- Request 1 comes after request 0 has been answered.
abbrev answered_once : State
answered_once = finished (after_handler created) 0 key created

abbrev replaying : State
replaying =
    with_request (with_request answered_once 1 (arrived key)) 1 (answered key (replayed created))
