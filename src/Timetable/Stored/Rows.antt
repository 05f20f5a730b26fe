-- ===== src/Timetable/Stored/Rows.antt =====
-- The tables after the statements of `GenerateTimetable` (internal/service/timetable_service.go) in its
-- transaction: the existing timetable retired, and the new periods added.
use arc_lms.Prelude.{
  ◌≡◌, ◌+◌, refl, sym, ap, ◌∙◌, Bool, false, ◌==◌, ◌&&◌, not, List, [], ◌∷◌, ◌++◌, Option, none,
  some, Uuid, select, update_where, arith,
}
use mathlib.Core.List.{append-nil, append_assoc}
use arc_lms.Clock.{Time}
use arc_lms.Database.{Conn, ok}
use arc_lms.Database.Ensures.{
  Ensures, Ensures-imp, Ensures-bind, Ensures-failing, Ensures-pure, Ensures-tx_execute,
}
use arc_lms.Period.{Period}
use arc_lms.Swap.Request.{SwapRequest, is_pending}
use arc_lms.Timetable.Course.{Timetable, archive}
use arc_lms.Timetable.Tables.{
  Tables, archive_row, delete_periods, cancel_pending, insert_timetable, insert_period,
  is_period_of, asks_for, cancel_row, update_rows,
}
use arc_lms.Timetable.Regenerate.{retired}
use arc_lms.Timetable.Service.{create_batch, retire}

-- The periods, and the swap requests, that are left when a timetable's periods are deleted.
abbrev pub other_periods : Option Timetable → List Period → List Period
other_periods none ps = ps
other_periods (some t) ps = select (λ p. not (p.timetable_id == t.id)) ps

abbrev pub other_requests : Option Timetable → List Period → List SwapRequest → List SwapRequest
other_requests none ps rs = rs
other_requests (some t) ps rs = select (λ r. not (asks_for t.id ps r)) rs

is_period_of-select :
    (k id : Uuid) (ps : List Period)
    → is_period_of k (select (λ p. not (p.timetable_id == k)) ps) id ≡ false
is_period_of-select k id [] = refl
is_period_of-select k id (p ∷ ps) = let ih = is_period_of-select k id ps in ground arith

-- No row passes the test.
update_where-none :
    (p : SwapRequest → Bool) (f : SwapRequest → SwapRequest) (rs : List SwapRequest)
    → ((r : SwapRequest) → p r ≡ false)
    → update_where p f rs ≡ rs
update_where-none p f [] h = refl
update_where-none p f (r ∷ rs) h =
    let e = h r in let ih = update_where-none p f rs h in ground arith

asks_for-select :
    (k : Uuid) (ps : List Period) (r : SwapRequest)
    → (is_pending r && asks_for k (select (λ p. not (p.timetable_id == k)) ps) r) ≡ false
asks_for-select k ps r =
    let e = is_period_of-select k r.requesting_period_id ps in
    let e' = is_period_of-select k r.target_period_id ps in ground arith

cancel_pending-none :
    (k : Uuid) (now : Time) (ps : List Period) (s s' : Tables)
    → s.periods ≡ select (λ p. not (p.timetable_id == k)) ps
    → cancel_pending k now s ≡ ok s'
    → s' ≡ s
unfolding cancel_pending
cancel_pending-none k now ps s s' q h =
    let same : update_where (λ r. is_pending r && asks_for k s.periods r) (cancel_row now)
          s.swap_requests
        ≡ s.swap_requests =
      ap
        (λ qs. update_where (λ r. is_pending r && asks_for k qs r) (cancel_row now) s.swap_requests)
        q
      ∙ update_where-none _ (cancel_row now) s.swap_requests (asks_for-select k ps) in
    inj _ _ (sym h) ∙ ap (λ rs. record s { swap_requests = rs }) same
  where
    inj : (a b : Tables) → ok a ≡ ok b → a ≡ b
    inj a b e = cc

pub insert_timetable-whole :
    (t : Timetable) (s s' : Tables)
    → insert_timetable t s ≡ ok s'
    → s' ≡ record s { timetables = s.timetables ++ t ∷ [] }
unfolding insert_timetable
insert_timetable-whole t s s' h = ground arith

insert_period-whole :
    (p : Period) (s s' : Tables)
    → insert_period p s ≡ ok s'
    → s' ≡ record s { periods = s.periods ++ p ∷ [] }
unfolding insert_period
insert_period-whole p s s' h = ground arith

update_rows-whole :
    (o : Option Timetable) (p : Timetable → Bool) (f : Timetable → Timetable) (s s' : Tables)
    → update_rows o p f s ≡ ok s'
    → s' ≡ record s { timetables = update_where p f s.timetables }
update_rows-whole none p f s s' h = cc
update_rows-whole (some t) p f s s' h = cc

archive_row-whole :
    (k : Uuid) (now : Time) (s s' : Tables)
    → archive_row k now s ≡ ok s'
    → s' ≡ record s { timetables = update_where (λ t. t.id == k) (archive now) s.timetables }
unfolding archive_row
archive_row-whole k now s s' h = update_rows-whole _ (λ t. t.id == k) (archive now) s s' h

delete_periods-whole :
    (t : Timetable) (s s' : Tables)
    → delete_periods t.id s ≡ ok s'
    → s' ≡ record s {
      periods = other_periods (some t) s.periods;
      swap_requests = other_requests (some t) s.periods s.swap_requests;
    }
unfolding delete_periods
delete_periods-whole t s s' h = cc

-- The tables of the transaction where the existing timetable is retired.
abbrev pub without : Option Timetable → Time → Tables → Tables
without o archived_at s = record s {
  timetables = retired o archived_at s.timetables;
  periods = other_periods o s.periods;
  swap_requests = other_requests o s.periods s.swap_requests;
}

pub retire-without :
    (o : Option Timetable) (archived_at now : Time) (c : Conn Tables)
    → Ensures (retire o archived_at now) c (λ _ c'. c'.tx ≡ without o archived_at c.tx)
unfolding retire delete_periods
retire-without none archived_at now c = Ensures-pure tt refl
retire-without (some t) archived_at now c = Ensures-bind (
    Ensures-failing _ (
      Ensures-tx_execute _ (λ s1 w1. Ensures-bind (
        Ensures-failing _ (
          Ensures-tx_execute _ (λ s2 w2. Ensures-failing _ (
            Ensures-tx_execute _ (λ s3 w3.
              let e1 = delete_periods-whole t c.tx s1 w1 in
              let e2 = archive_row-whole t.id archived_at s1 s2 w2 in
              let kept = ap (λ s. s.periods) (e2 ∙ ap (archived archived_at) e1) in
              cancel_pending-none t.id now c.tx.periods s2 s3 kept w3
              ∙ e2
              ∙ ap (archived archived_at) e1))))))))
  where
    archived : Time → Tables → Tables
    archived now s = record s {
      timetables = update_where (λ x. x.id == t.id) (archive now) s.timetables;
    }

abbrev pub set_periods : Tables → List Period → Tables
set_periods s ps = record s { periods = ps }

abbrev pub add_periods : List Period → Tables → Tables
add_periods ps s = record s { periods = s.periods ++ ps }

abbrev pub add_timetable : Timetable → Tables → Tables
add_timetable t s = record s { timetables = s.timetables ++ t ∷ [] }

pub create_batch-append :
    (ps : List Period) (c : Conn Tables)
    → Ensures (create_batch ps) c (λ _ c'. c'.tx ≡ record c.tx { periods = c.tx.periods ++ ps })
unfolding create_batch
create_batch-append [] c = Ensures-pure tt (ap (set_periods c.tx) (sym (append-nil c.tx.periods)))
create_batch-append (p ∷ ps) c = Ensures-bind (
    Ensures-tx_execute _ (λ s w.
      Ensures-imp (λ u c' e. e ∙ step s w)
        (create_batch-append ps (record c { tx = s; calls = c.calls + 1 }))))
  where
    step :
        (s : Tables)
        → insert_period p c.tx ≡ ok s
        → record s { periods = s.periods ++ ps } ≡ record c.tx { periods = c.tx.periods ++ p ∷ ps }
    step s w =
        ap (add_periods ps) (insert_period-whole p c.tx s w)
        ∙ ap (set_periods c.tx) (append_assoc c.tx.periods (p ∷ []) ps)
