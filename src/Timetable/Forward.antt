-- ===== src/Timetable/Forward.antt =====
-- The life of a timetable under the handlers of internal/service/timetable_service.go: from draft to
-- published to archived.
use arc_lms.Prelude.{
  ℕ, ◌≤◌, ◌≡◌, refl, ◌∙◌, Bool, true, ◌&&◌, if◌then◌else◌, List, [], ◌∷◌, ◌++◌, Uuid, update_where,
  arith, Bool-cases, inl, inr, subst, sym,
}
use arc_lms.Clock.{Time}
use arc_lms.Timetable.Course.{Timetable, TimetableStatus, status_is_draft, publish, archive}
use arc_lms.Timetable.Tables.{is_draft_of}
use arc_lms.Timetable.Effect.{Effect}

abbrev stage : TimetableStatus → ℕ
stage TimetableStatus.draft = 0
stage TimetableStatus.published = 1
stage TimetableStatus.archived = 2

-- The same timetable later: it has moved on, or has not moved.
pub record Later (a b : Timetable) : Type 0 where
  pub id : b.id ≡ a.id
  pub tenant_id : b.tenant_id ≡ a.tenant_id
  pub class_id : b.class_id ≡ a.class_id
  pub term_id : b.term_id ≡ a.term_id
  pub generation_version : b.generation_version ≡ a.generation_version
  pub stage : stage a.status ≤ stage b.status

-- Every row of the first table stands in its place in the second, and later.
abbrev pub Forward : List Timetable → List Timetable → Type 0
Forward [] us = Unit
Forward (t ∷ ts) [] = ⊥
Forward (t ∷ ts) (u ∷ us) = Later t u × Forward ts us

Later-refl : (a : Timetable) → Later a a
Later-refl a = record {
  id = refl;
  tenant_id = refl;
  class_id = refl;
  term_id = refl;
  generation_version = refl;
  stage = omega arith;
}

Later-trans : (a b c : Timetable) → Later a b → Later b c → Later a c
Later-trans a b c p q = record {
  id = q.id ∙ p.id;
  tenant_id = q.tenant_id ∙ p.tenant_id;
  class_id = q.class_id ∙ p.class_id;
  term_id = q.term_id ∙ p.term_id;
  generation_version = q.generation_version ∙ p.generation_version;
  stage = let i = p.stage in let j = q.stage in omega arith;
}

pub Forward-refl : (ts : List Timetable) → Forward ts ts
Forward-refl [] = tt
Forward-refl (t ∷ ts) = (Later-refl t, Forward-refl ts)

pub Forward-trans : (ts us vs : List Timetable) → Forward ts us → Forward us vs → Forward ts vs
Forward-trans [] us vs h k = tt
Forward-trans (t ∷ ts) [] vs h k = elim h [ ]
Forward-trans (t ∷ ts) (u ∷ us) [] h k = elim k [ ]
Forward-trans (t ∷ ts) (u ∷ us) (v ∷ vs) h k =
    (Later-trans t u v h.0 k.0, Forward-trans ts us vs h.1 k.1)

Forward-append : (ts us vs : List Timetable) → Forward ts us → Forward ts (us ++ vs)
Forward-append [] us vs h = tt
Forward-append (t ∷ ts) [] vs h = elim h [ ]
Forward-append (t ∷ ts) (u ∷ us) vs h = (h.0, Forward-append ts us vs h.1)

module _ (p : Timetable → Bool) (f : Timetable → Timetable)
    (k : (a : Timetable) → p a ≡ true → Later a (f a)) where
  Later-if : (a : Timetable) → Later a (if p a then f a else a)
  Later-if a = elim (Bool-cases (p a)) [
    | inl h ↦ subst (λ b. Later a (if b then f a else a)) (sym h) (k a h)
    | inr h ↦ subst (λ b. Later a (if b then f a else a)) (sym h) (Later-refl a)
  ]

  Forward-update : (ts : List Timetable) → Forward ts (update_where p f ts)
  Forward-update [] = tt
  Forward-update (t ∷ ts) = (Later-if t, Forward-update ts)

Later-archive : (now : Time) (a : Timetable) → Later a (archive now a)
Later-archive now a = record {
  id = refl;
  tenant_id = refl;
  class_id = refl;
  term_id = refl;
  generation_version = refl;
  stage = last a.status;
}
  where
    last : (s : TimetableStatus) → stage s ≤ 2
    last TimetableStatus.draft = omega arith
    last TimetableStatus.published = omega arith
    last TimetableStatus.archived = omega arith

-- Only a draft is published.
Later-publish :
    (k by : Uuid) (now : Time) (a : Timetable) → is_draft_of k a ≡ true → Later a (publish now by a)
Later-publish k by now a h = record {
  id = refl;
  tenant_id = refl;
  class_id = refl;
  term_id = refl;
  generation_version = refl;
  stage = early a.status _ h;
}
  where
    early : (s : TimetableStatus) (b : Bool) → (b && status_is_draft s) ≡ true → stage s ≤ 1
    early TimetableStatus.draft b e = omega arith
    early TimetableStatus.published b e = omega arith
    early TimetableStatus.archived b e = absurd (ground arith)

pub Effect-Forward : {b : Bool} {ts us : List Timetable} → Effect b ts us → Forward ts us
Effect-Forward Effect.unchanged = Forward-refl _
Effect-Forward (Effect.published k by now) = Forward-update _ _ (Later-publish k by now) _
Effect-Forward (Effect.replaced k l by archived_at now) =
    Forward-trans _ _ _ (Forward-update _ _ (λ a e. Later-archive archived_at a) _)
      (Forward-update _ _ (Later-publish k by now) _)
Effect-Forward (Effect.generated t d q) = Forward-append _ _ _ (Forward-refl _)
Effect-Forward (Effect.regenerated t u now d q v) =
    Forward-append _ _ _ (Forward-update _ _ (λ a e. Later-archive now a) _)
