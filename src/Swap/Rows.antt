-- ===== src/Swap/Rows.antt =====
-- The rows of swap requests before and after a call of internal/service/timetable_service.go.
use arc_lms.Audit.{Actor}
use arc_lms.Prelude.{
  Uuid, false, List, [], ◌∷◌, ◌++◌, ◌≡◌, ◌∙◌, sym, ap, subst, inl, inr, Option, some, find,
  find_lem, update_where, ◌==◌, ==_iff, arith, Option-cases,
}
use arc_lms.Clock.{Time}
use arc_lms.Database.{Result-cases, found, found_lem, Result-cases, found, found_lem, Conn, ok}
use arc_lms.Database.Ensures.{Ensures-ok}
use arc_lms.Swap.Request.{SwapRequest, SwapRequestStatus}
use arc_lms.Swap.Tables.{
  Tables, update_swap_request, insert_swap_request, write_columns, assign_period, pending_between,
}
use arc_lms.Swap.Calls.{Call, run_call, Permitted}
use arc_lms.Swap.Effect.{Effect, call-Effect}
use arc_lms.Swap.Atomic.{call-IsAtomic}

abbrev pub lookup : Uuid → List SwapRequest → Option SwapRequest
lookup x rs = find (λ r. r.id == x) rs

module _ (s s' : Tables) where
  insert_requests :
      (r : SwapRequest)
      → insert_swap_request r s ≡ ok s'
      → s'.swap_requests ≡ s.swap_requests ++ r ∷ []
  unfolding insert_swap_request
  insert_requests r h = ground (arith, Option-cases (find (λ q. q.id == r.id) s.swap_requests))

  update_requests :
      (r' : SwapRequest)
      → update_swap_request r' s ≡ ok s'
      → s'.swap_requests ≡ update_where (λ q. q.id == r'.id) (write_columns r') s.swap_requests
  unfolding update_swap_request
  update_requests r' h = ground (arith, Option-cases (find (λ q. q.id == r'.id) s.swap_requests))

  update_periods : (r' : SwapRequest) → update_swap_request r' s ≡ ok s' → s'.periods ≡ s.periods
  unfolding update_swap_request
  update_periods r' h = ground (arith, Option-cases (find (λ q. q.id == r'.id) s.swap_requests))

  assign_requests :
      (k t c : Uuid) (now : Time)
      → assign_period k t c now s ≡ ok s'
      → s'.swap_requests ≡ s.swap_requests
  unfolding assign_period
  assign_requests k t c now h = ground (arith, Option-cases (find (λ q. q.id == k) s.periods))

-- What a call makes of the stored requests.
pub data Change (actor : Actor) (rs rs' : List SwapRequest) : Type 0 where
  unchanged : rs' ≡ rs → Change actor rs rs'
  added :
      (r : SwapRequest)
      → r.status ≡ SwapRequestStatus.pending
      → pending_between r.requesting_period_id r.target_period_id rs ≡ false
      → rs' ≡ rs ++ r ∷ []
      → Change actor rs rs'
  rewritten :
      (r r' : SwapRequest)
      → lookup r'.id rs ≡ some r
      → Permitted actor r r'.status
      → rs' ≡ update_where (λ q. q.id == r'.id) (write_columns r') rs
      → Change actor rs rs'

pub key_of :
    (k : Uuid) (r r' : SwapRequest) (rs : List SwapRequest)
    → found (lookup k rs) ≡ ok r
    → r'.id ≡ r.id
    → lookup r'.id rs ≡ some r
key_of k r r' rs h e =
    let f = found_lem (lookup k rs) r h in
    subst (λ x. lookup x rs ≡ some r) (sym (e ∙ (==_iff r.id k).0 (find_lem (λ q. q.id == k) rs f)))
      f

Effect-Change :
    (actor : Actor) (s s' : Tables)
    → Effect actor s s'
    → Change actor s.swap_requests s'.swap_requests
Effect-Change actor s s' (Effect.created r s1 p b h a) =
    Change.added r p b (a.0 ∙ insert_requests s s1 r h)
Effect-Change actor s s' (Effect.answered k r r' s1 g e p h a) =
    Change.rewritten r r' (key_of k r r' s.swap_requests g e) p (a.0 ∙ update_requests s s1 r' h)
Effect-Change actor s s' (Effect.swapped k r r' p q now s1 s2 s3 g e m hp hq h1 h2 h3 a) =
    Change.rewritten r r' (key_of k r r' s.swap_requests g e) m (
      a.0
      ∙ update_requests s2 s3 r' h3
      ∙ ap (update_where (λ q. q.id == r'.id) (write_columns r'))
          (assign_requests s1 s2 _ _ _ now h2 ∙ assign_requests s s1 _ _ _ now h1))

-- However a call ends.
pub call-Change :
    (actor : Actor) (k : Call) (c : Conn Tables)
    → Change actor c.db.swap_requests (run_call actor k c).1.db.swap_requests
call-Change actor k c = elim (Result-cases (run_call actor k c).0) [
  | inl (a, h) ↦ Effect-Change actor c.db _ (Ensures-ok _ c _ (call-Effect actor k c) h)
  | inr (e, h) ↦ Change.unchanged (ap (λ s. s.swap_requests) ((call-IsAtomic actor k).at c h))
]
