-- ===== src/Swap/Unique.antt =====
-- What the guard of CreateSwapRequest in internal/service/timetable_service.go keeps.
use arc_lms.Audit.{Actor}
use arc_lms.Prelude.{
  false, ◌&&◌, List, [], ◌∷◌, ◌≡◌, refl, sym, subst, arith, All, Pairwise, Pairwise-snoc,
  Pairwise-update_where,
}
use arc_lms.Database.{Conn}
use arc_lms.Swap.Request.{SwapRequest, SwapRequestStatus, is_pending, status_is_pending}
use arc_lms.Swap.Tables.{Tables, is_between, pending_between, write_columns}
use arc_lms.Swap.Calls.{Call, run_call, run_calls, Permitted}
use arc_lms.Swap.Rows.{Change, call-Change}

-- Two requests are not both pending for the same two periods.
abbrev pub Compatible : SwapRequest → SwapRequest → Type 0
Compatible a b =
    (is_pending a && is_pending b && is_between a.requesting_period_id a.target_period_id b) ≡ false

abbrev pub OnePending : List SwapRequest → Type 0
OnePending rs = Pairwise Compatible rs

All-Compatible :
    (r : SwapRequest) (rs : List SwapRequest)
    → pending_between r.requesting_period_id r.target_period_id rs ≡ false
    → All (λ x. Compatible x r) rs
All-Compatible r [] h = tt
All-Compatible r (x ∷ xs) h = (ground arith, All-Compatible r xs (ground arith))

not_pending :
    (actor : Actor) (r : SwapRequest) {u : SwapRequestStatus}
    → Permitted actor r u
    → status_is_pending u ≡ false
not_pending actor r (Permitted.approves e t) = refl
not_pending actor r (Permitted.rejects e t) = refl
not_pending actor r (Permitted.escalates e t) = refl
not_pending actor r (Permitted.overrides e t) = refl
not_pending actor r (Permitted.cancels e t) = refl

Change-unique :
    (actor : Actor) (rs rs' : List SwapRequest)
    → Change actor rs rs'
    → OnePending rs
    → OnePending rs'
Change-unique actor rs rs' (Change.unchanged e) h = subst OnePending (sym e) h
Change-unique actor rs rs' (Change.added r p b e) h =
    subst OnePending (sym e) (Pairwise-snoc Compatible rs r h (All-Compatible r rs b))
Change-unique actor rs rs' (Change.rewritten r r' g p e) h = subst OnePending (sym e) (
    Pairwise-update_where Compatible _ (write_columns r') rs
      (λ a b. ground (arith, not_pending actor r p)) (λ a b. ground (arith, not_pending actor r p))
      h)

-- No history of calls, failed or not, leaves two pending requests for the same two periods, in either
-- order, where there were none before.
pub history_unique :
    (ks : List (Actor × Call)) (c : Conn Tables)
    → OnePending c.db.swap_requests
    → OnePending (run_calls ks c).db.swap_requests
unfolding run_calls
history_unique [] c h = h
history_unique ((actor, k) ∷ ks) c h =
    history_unique ks (run_call actor k c).1
      (Change-unique actor c.db.swap_requests _ (call-Change actor k c) h)
