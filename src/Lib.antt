-- ===== src/Lib.antt =====
-- Arc LMS, a school management server in Go: a model of the core of internal/, with what makes it
-- correct.
--
-- Parts, and the files that model them:
--
-- - Prelude: names and helpers that all files share. Prelude/Int has Go's 64-bit integers.
-- - Clock: time.Time and time.Duration in UTC.
-- - Period: internal/domain/period.go.
-- - Timetable: internal/domain/timetable.go, course.go and internal/service/timetable_service.go.
--   Timetable/Generate is generatePeriods, whose loops over days, period numbers and courses are
--   fill_days, fill_day and offer_courses. Timetable/Tables has the statements of
--   internal/repository/postgres/timetable.go and of others that the handlers make, Timetable/Service
--   GenerateTimetable and PublishTimetable, Timetable/Effect and Timetable/Regenerate what each does to
--   the timetables however it ends, and Timetable/History sequences of requests. Timetable/Details is
--   enrichPeriods. A request's start time and days enter as parsed.
-- - Database: what a repository call does to the tables, how it fails, and the transaction; with rules
--   for what an action keeps (Keeps), what holds where it succeeds (Ensures), that it does (Runs), and
--   what it leaves however it ends (Leaves). Database/Requests has sequences of requests.
-- - Swap: swap requests of internal/domain/period.go, their repository and their handlers in
--   internal/service/timetable_service.go. Swap/Calls makes one type of the handlers.
-- - Examination: internal/domain/examination.go and internal/service/examination_service.go.
--   Examination/Grading marks an attempt, Examination/Service has the handlers of an attempt, and
--   Examination/Calls makes one type of them.
-- - Billing: internal/domain/billing.go, internal/repository/postgres/invoice.go and
--   internal/service/billing_service.go. Billing/Tables has the statements and Billing/Service the
--   handlers that change an invoice.
-- - Term: internal/domain/term.go. Term/Instruction says which days are taught; Term/Tables and
--   Term/Service have CreateTerm and CompleteTerm of internal/service/term_service.go, Term/Handlers
--   its other calls, with billing as the interface Invoicing; Term/Creation and Term/Completion say
--   how two of them end, Term/Statuses what each can make of a status, and Term/History has sequences
--   of requests.
-- - Enrollment: internal/domain/enrollment.go and internal/service/enrollment_service.go.
--   Enrollment/Tables has the statements that its handlers make, Enrollment/Service the handlers;
--   Enrollment/Failing says how an enrolling call ends and Enrollment/Columns what any call can change.
-- - RateLimit: internal/middleware/rate_limit.go, with the sorted sets of Redis as the parameter
--   SortedSets, of which RateLimit/Burst asks only that a later start counts no more (CountsByScore).
-- - Pagination: the numbered pages of internal/repository/repository.go, as a listing of a service uses
--   them. Pagination/Walk has a client that follows has_next.
-- - WebSocket: internal/pkg/websocket. WebSocket/Hub has the map of clients and their channels, and
--   WebSocket/Threads the steps of Run, SendToUser, Broadcast and the pumps, between their operations on
--   the lock and the channels.
-- - Idempotency: internal/middleware/idempotency.go and internal/pkg/idempotency/store.go. Requests with
--   a key are steps on the store; Idempotency/Once counts the handler's runs, Idempotency/Replay follows
--   the stored responses, and Idempotency/Blocked is about keys that stay.
-- - Progress: internal/domain/progress.go and the places of internal/service/progress_service.go, as
--   functions of the records. Floats is the parameter for float64, and the order of the students any one
--   that sort.Slice may leave.
-- - Audit: the entry of internal/domain/audit.go that handlers add.
--
-- Conventions: a uuid.UUID is a natural number, a Go map a function with the zero value where no key
-- is set, a Go int a natural number where the code keeps it from being negative. The loop over the
-- period numbers of a day takes DailyPeriodLimit as its fuel, which is enough since every round raises
-- the number.
--
-- Not modelled: HTTP routing and JSON, tokens and permissions, the lists and other calls that only
-- read, the quizzes, meetings, messages and the jobs of the scheduler, the mail transport, the SQL
-- driver, generated API documentation, and floating-point rounding.
pub mod Prelude
pub mod Clock
pub mod Audit
pub mod Database
pub mod Period
pub mod Timetable
pub mod Swap
pub mod Examination
pub mod Billing
pub mod Term
pub mod RateLimit
pub mod Pagination
pub mod WebSocket
pub mod Idempotency
pub mod Progress
pub mod Enrollment
