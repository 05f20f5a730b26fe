-- ===== src/Timetable/Active.antt =====
-- At most one timetable of a class and a term is not archived: what the handlers of
-- internal/service/timetable_service.go keep of that.
use arc_lms.Prelude.{
  ◌≡◌, refl, Bool, true, false, ◌&&◌, not, ◌==◌, if◌then◌else◌, List, [], ◌∷◌, none, some, Uuid,
  select, update_where, arith, All, All-imp, Pairwise, Pairwise-snoc, Bool-cases, Option-cases, ◌⊎◌,
  inl, inr, subst, sym,
}
use arc_lms.Clock.{Time}
use arc_lms.Timetable.Course.{
  Timetable, TimetableStatus, status_is_archived, status_is_draft, is_archived, publish, archive,
}
use arc_lms.Timetable.Tables.{latest, is_active_for, is_draft_of}
use arc_lms.Timetable.Effect.{Effect}

-- Two timetables are not both active for one class and term.
abbrev pub Apart : Timetable → Timetable → Type 0
Apart a b = (not (is_archived a) && is_active_for a.class_id a.term_id b) ≡ false

abbrev pub OneActive : List Timetable → Type 0
OneActive ts = Pairwise Apart ts

-- A row after an update that changes no class or term, and makes no archived row active.
record Calmer (a b : Timetable) : Type 0 where
  class_id : b.class_id ≡ a.class_id
  term_id : b.term_id ≡ a.term_id
  archived : is_archived a ≡ true → is_archived b ≡ true

Apart-Calmer : (a b a' b' : Timetable) → Calmer a a' → Calmer b b' → Apart a b → Apart a' b'
Apart-Calmer a b a' b' p q h =
    let p1 = p.class_id in
    let p2 = p.term_id in
    let p3 = p.archived in
    let q1 = q.class_id in let q2 = q.term_id in let q3 = q.archived in ground arith

Calmer-refl : (a : Timetable) → Calmer a a
Calmer-refl a = record { class_id = refl; term_id = refl; archived = λ h. h }

Calmer-archive : (now : Time) (a : Timetable) → Calmer a (archive now a)
Calmer-archive now a = record { class_id = refl; term_id = refl; archived = λ h. refl }

Calmer-publish :
    (k by : Uuid) (now : Time) (a : Timetable)
    → is_draft_of k a ≡ true
    → Calmer a (publish now by a)
Calmer-publish k by now a h = record {
  class_id = refl;
  term_id = refl;
  archived = λ e. not_both a.status _ h e;
}
  where
    not_both :
        (s : TimetableStatus) (b : Bool)
        → (b && status_is_draft s) ≡ true
        → status_is_archived s ≡ true
        → status_is_archived TimetableStatus.published ≡ true
    not_both s b d e = ground arith

module _ (p : Timetable → Bool) (f : Timetable → Timetable)
    (k : (a : Timetable) → p a ≡ true → Calmer a (f a)) where
  Calmer-if : (a : Timetable) → Calmer a (if p a then f a else a)
  Calmer-if a = elim (Bool-cases (p a)) [
    | inl h ↦ subst (λ b. Calmer a (if b then f a else a)) (sym h) (k a h)
    | inr h ↦ subst (λ b. Calmer a (if b then f a else a)) (sym h) (Calmer-refl a)
  ]

  All-Calmer :
      (a a' : Timetable) (ts : List Timetable)
      → Calmer a a'
      → All (Apart a) ts
      → All (Apart a') (update_where p f ts)
  All-Calmer a a' [] c h = tt
  All-Calmer a a' (t ∷ ts) c h =
      (Apart-Calmer a t a' _ c (Calmer-if t) h.0, All-Calmer a a' ts c h.1)

  OneActive-update : (ts : List Timetable) → OneActive ts → OneActive (update_where p f ts)
  OneActive-update [] h = tt
  OneActive-update (t ∷ ts) h = (All-Calmer t _ ts (Calmer-if t) h.0, OneActive-update ts h.1)

latest-none : (ts : List Timetable) → latest ts ≡ none → ts ≡ []
unfolding latest
latest-none [] h = refl
latest-none (t ∷ ts) h = elim (Option-cases (latest ts)) [
  | inl e ↦ absurd (ground arith)
  | inr (u, e) ↦ absurd (ground arith)
]

module _ (class_id term_id : Uuid) where
  abbrev Idle : Timetable → Type 0
  Idle t = is_active_for class_id term_id t ≡ false

  none-Idle : (ts : List Timetable) → select (is_active_for class_id term_id) ts ≡ [] → All Idle ts
  none-Idle [] h = tt
  none-Idle (t ∷ ts) h = elim (Bool-cases (is_active_for class_id term_id t)) [
    | inl e ↦ absurd (ground arith)
    | inr e ↦ (e, none-Idle ts (ground arith))
  ]

  -- Beside an active timetable there is no other.
  Apart-Idle :
      (a : Timetable) (ts : List Timetable)
      → is_active_for class_id term_id a ≡ true
      → All (Apart a) ts
      → All Idle ts
  Apart-Idle a [] e h = tt
  Apart-Idle a (t ∷ ts) e h = (let h0 = h.0 in ground arith, Apart-Idle a ts e h.1)

  select-Idle :
      (ts : List Timetable) → All Idle ts → select (is_active_for class_id term_id) ts ≡ []
  select-Idle [] h = refl
  select-Idle (t ∷ ts) h = let h0 = h.0 in let rest = select-Idle ts h.1 in ground arith

  abbrev IdleBut : Uuid → Timetable → Type 0
  IdleBut k t = is_active_for class_id term_id t ≡ true → t.id ≡ k

  vacuous : (k : Uuid) (t : Timetable) → Idle t → IdleBut k t
  vacuous k t h e = absurd (cc)

  latest-one : (t u : Timetable) → latest (t ∷ []) ≡ some u → t.id ≡ u.id
  unfolding latest
  latest-one t u h = cc

  -- Where at most one is active, the latest active one is the only one.
  latest-IdleBut :
      (ts : List Timetable) (u : Timetable)
      → OneActive ts
      → latest (select (is_active_for class_id term_id) ts) ≡ some u
      → All (IdleBut u.id) ts
  unfolding latest
  latest-IdleBut [] u h e = tt
  latest-IdleBut (t ∷ ts) u h e = elim (Bool-cases (is_active_for class_id term_id t)) [
    | inl b ↦
        let idle = Apart-Idle t ts b h.0 in
        let nothing = select-Idle ts idle in
        (λ _. latest-one t u (ground arith), All-imp (vacuous u.id) ts idle)
    | inr b ↦ (vacuous u.id t b, latest-IdleBut ts u h.1 (ground arith))
  ]

  archived-Idle :
      (k : Uuid) (now : Time) (ts : List Timetable)
      → All (IdleBut k) ts
      → All Idle (update_where (λ x. x.id == k) (archive now) ts)
  archived-Idle k now [] h = tt
  archived-Idle k now (t ∷ ts) h =
      (one (Bool-cases (is_active_for class_id term_id t)), archived-Idle k now ts h.1)
    where
      one :
          (is_active_for class_id term_id t ≡ true) ⊎ (is_active_for class_id term_id t ≡ false)
          → Idle (if t.id == k then archive now t else t)
      one (inl b) = let e = h.0 b in ground arith
      one (inr b) = ground arith

-- A new row beside rows none of which is active for its class and term.
Idle-Apart :
    (t : Timetable) (ts : List Timetable)
    → All (Idle t.class_id t.term_id) ts
    → All (λ x. Apart x t) ts
Idle-Apart t [] h = tt
Idle-Apart t (x ∷ xs) h = (let h0 = h.0 in ground arith, Idle-Apart t xs h.1)

pub Effect-OneActive :
    {b : Bool} {ts us : List Timetable} → b ≡ false → Effect b ts us → OneActive ts → OneActive us
Effect-OneActive e Effect.unchanged h = h
Effect-OneActive e (Effect.published k by now) h =
    OneActive-update _ _ (Calmer-publish k by now) _ h
Effect-OneActive e (Effect.replaced k l by archived_at now) h =
    OneActive-update _ _ (Calmer-publish k by now) _
      (OneActive-update _ _ (λ a _. Calmer-archive archived_at a) _ h)
Effect-OneActive e (Effect.generated t d q) h =
    Pairwise-snoc Apart _ t h
      (Idle-Apart t _ (none-Idle t.class_id t.term_id _ (latest-none _ (q e))))
Effect-OneActive e (Effect.regenerated t u now d q v) h =
    Pairwise-snoc Apart _ t (OneActive-update _ _ (λ a _. Calmer-archive now a) _ h) (
      Idle-Apart t _ (
        archived-Idle t.class_id t.term_id u.id now _
          (latest-IdleBut t.class_id t.term_id _ u h q)))
