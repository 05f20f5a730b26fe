-- ===== src/Idempotency/Once.antt =====
-- How often the middleware of internal/middleware/idempotency.go runs a handler for a key.
use arc_lms.Prelude.{
  ℕ, ◌+◌, ◌≤◌, Bool, true, false, ◌&&◌, ◌==◌, ==_iff, Bool-cases, if◌then◌else◌, none, some, List,
  [], ◌∷◌, ◌≡◌, refl, sym, ◌∙◌, ap, subst, ◌↔◌, inl, inr, arith, update,
}
use arc_lms.Prelude.Texts.{same_text_iff}
use arc_lms.Idempotency.{
  Key, same_key, Response, is_success, processing, own, conflict, Request, arrived, missed, running,
  responded, answered, State, replay, settled, with_request, acquired, handled, finished, Step,
  arrive, miss, hit, acquire, lose, handle, settle, Reach, here, next, start,
}

pub same_key_iff : (a b : Key) → (same_key a b ≡ true) ↔ (a ≡ b)
same_key_iff a b = ground (arith, ==_iff a.tenant_id b.tenant_id, same_text_iff a.name b.name)

-- A request with the key is between `TryAcquire` and the end of the middleware.
abbrev pub is_active : Key → Request → Bool
is_active k (running j) = same_key j k
is_active k (responded j r) = same_key j k
is_active k _ = false

-- Its handler has succeeded.
abbrev pub succeeded : Request → Bool
succeeded (responded j r) = is_success r
succeeded _ = false

-- How many runs for the key were successes.
abbrev pub successes : Key → List (Key × Response) → ℕ
successes k [] = 0
successes k ((j, r) ∷ rs) = (if same_key j k && is_success r then 1 else 0) + successes k rs

pub record Inv (s : State) : Type 0 where
  pub alone :
      (i j : ℕ) (k : Key)
      → is_active k (s.requests i) ≡ true
      → is_active k (s.requests j) ≡ true
      → i ≡ j
  pub held : (i : ℕ) (k : Key) → is_active k (s.requests i) ≡ true → s.store k ≡ some processing
  pub counted :
      (i : ℕ) (k : Key)
      → is_active k (s.requests i) ≡ true
      → successes k s.runs ≡ (if succeeded (s.requests i) then 1 else 0)
  pub free : (k : Key) → s.store k ≡ none → successes k s.runs ≡ 0
  pub at_most : (k : Key) → successes k s.runs ≤ 1

-- An active request other than the one that moves was there before.
pub active_before :
    (f : ℕ → Request) (i : ℕ) (t : Request) (k : Key) (j : ℕ)
    → is_active k t ≡ false
    → is_active k (update f i t j) ≡ true
    → (i == j) ≡ false
active_before f i t k j h a = elim (Bool-cases (i == j)) [
  | inl e ↦ absurd (cc (rw e at a))
  | inr e ↦ e
]

Inv-with_request :
    (s : State) (i : ℕ) (t : Request)
    → ((k : Key) → is_active k t ≡ false)
    → Inv s
    → Inv (with_request s i t)
Inv-with_request s i t h inv = record {
  alone = λ j l k a b.
      let ej = active_before s.requests i t k j (h k) a in
      let el = active_before s.requests i t k l (h k) b in
      inv.alone j l k (rw ej at a) (rw el at b);
  held = λ j k a. let e = active_before s.requests i t k j (h k) a in inv.held j k (rw e at a);
  counted = λ j k a.
      let e = active_before s.requests i t k j (h k) a in rw e (inv.counted j k (rw e at a));
  free = inv.free;
  at_most = inv.at_most;
}

-- Where the request that moves is active before and after, any active one was so before.
was_active :
    (f : ℕ → Request) (i : ℕ) (t : Request) (k : Key) (j : ℕ)
    → (is_active k t ≡ true → is_active k (f i) ≡ true)
    → is_active k (update f i t j) ≡ true
    → is_active k (f j) ≡ true
was_active f i t k j h a = elim (Bool-cases (i == j)) [
  | inl e ↦ subst (λ x. is_active k (f x) ≡ true) ((==_iff i j).0 e) (h (rw e at a))
  | inr e ↦ rw e at a
]

-- Which key an acquired request is active for.
module _ (s : State) (inv : Inv s) (i : ℕ) (k : Key) where
  same_store : (κ : Key) → same_key k κ ≡ true → s.store κ ≡ s.store k
  same_store κ e = ap s.store (sym ((same_key_iff k κ).0 e))

  Inv-acquire : s.store k ≡ none → Inv (acquired s i k)
  Inv-acquire vacant = record {
    alone = λ j l κ a b. elim (Bool-cases (i == j)) [
      | inl ej ↦ elim (Bool-cases (i == l)) [
        | inl el ↦ sym ((==_iff i j).0 ej) ∙ (==_iff i l).0 el
        | inr el ↦ absurd (other l κ (rw ej at a) (rw el at b))
      ]
      | inr ej ↦ elim (Bool-cases (i == l)) [
        | inl el ↦ absurd (other j κ (rw el at b) (rw ej at a))
        | inr el ↦ inv.alone j l κ (rw ej at a) (rw el at b)
      ]
    ];
    held = λ j κ a. elim (Bool-cases (same_key k κ)) [
      | inl e ↦ rw e
      | inr e ↦ rw e (inv.held j κ (was_active s.requests i (running k) κ j (λ x. cc) a))
    ];
    counted = λ j κ a. elim (Bool-cases (i == j)) [
      | inl e ↦ rw e (none_yet κ (rw e at a))
      | inr e ↦ rw e (inv.counted j κ (rw e at a))
    ];
    free = λ κ e. inv.free κ (ground arith);
    at_most = inv.at_most;
  }
    where
      other : (l : ℕ) (κ : Key) → same_key k κ ≡ true → is_active κ (s.requests l) ≡ true → ⊥
      other l κ e b = let h = inv.held l κ b in let g = same_store κ e in cc

      none_yet : (κ : Key) → same_key k κ ≡ true → successes κ s.runs ≡ 0
      none_yet κ e = inv.free κ (same_store κ e ∙ vacant)

  Inv-handle : (r : Response) → s.requests i ≡ running k → Inv (handled s i k r)
  Inv-handle r e = record {
    alone = λ j l κ a b. inv.alone j l κ (before j κ a) (before l κ b);
    held = λ j κ a. inv.held j κ (before j κ a);
    counted = λ j κ a. elim (Bool-cases (i == j)) [
      | inl ej ↦
          let same : same_key k κ ≡ true = rw ej at a in
          let zero_before = none_yet κ same in rw (ej, same) (ground arith)
      | inr ej ↦
          let other = another j κ ej (before j κ a) in
          rw (ej, other) (ground (arith, inv.counted j κ (before j κ a)))
    ];
    free = λ κ h. elim (Bool-cases (same_key k κ)) [
      | inl same ↦ let p = inv.held i κ (active_i κ same) in absurd (cc)
      | inr other ↦ rw other (ground (arith, inv.free κ h))
    ];
    at_most = λ κ. elim (Bool-cases (same_key k κ)) [
      | inl same ↦ ground (arith, none_yet κ same)
      | inr other ↦ ground (arith, inv.at_most κ)
    ];
  }
    where
      active_i : (κ : Key) → same_key k κ ≡ true → is_active κ (s.requests i) ≡ true
      active_i κ h = rw e h

      before :
          (j : ℕ) (κ : Key)
          → is_active κ (update s.requests i (responded k r) j) ≡ true
          → is_active κ (s.requests j) ≡ true
      before j κ a = was_active s.requests i (responded k r) κ j (active_i κ) a

      none_yet : (κ : Key) → same_key k κ ≡ true → successes κ s.runs ≡ 0
      none_yet κ h =
          let c = inv.counted i κ (active_i κ h) in
          let f : succeeded (s.requests i) ≡ false = ap succeeded e in ground arith

      another :
          (j : ℕ) (κ : Key)
          → (i == j) ≡ false
          → is_active κ (s.requests j) ≡ true
          → same_key k κ ≡ false
      another j κ d b = elim (Bool-cases (same_key k κ)) [
        | inl h ↦ let same = (==_iff i j).1 (inv.alone i j κ (active_i κ h) b) in absurd (cc)
        | inr h ↦ h
      ]

  Inv-settle : (r : Response) → s.requests i ≡ responded k r → Inv (finished s i k r)
  Inv-settle r e = record {
    alone = λ j l κ a b. inv.alone j l κ (before j κ a) (before l κ b);
    held = λ j κ a. rw (another j κ a) (inv.held j κ (before j κ a));
    counted = λ j κ a.
        let ej = active_before s.requests i (answered k (own r)) κ j refl a in
        rw ej (inv.counted j κ (before j κ a));
    free = λ κ h. elim (Bool-cases (same_key k κ)) [
      | inl same ↦ failed κ same (rw same at h)
      | inr other ↦ inv.free κ (rw other at h)
    ];
    at_most = inv.at_most;
  }
    where
      active_i : (κ : Key) → same_key k κ ≡ true → is_active κ (s.requests i) ≡ true
      active_i κ h = rw e h

      before :
          (j : ℕ) (κ : Key)
          → is_active κ (update s.requests i (answered k (own r)) j) ≡ true
          → is_active κ (s.requests j) ≡ true
      before j κ a = was_active s.requests i (answered k (own r)) κ j (λ x. absurd (cc)) a

      another :
          (j : ℕ) (κ : Key)
          → is_active κ (update s.requests i (answered k (own r)) j) ≡ true
          → same_key k κ ≡ false
      another j κ a = elim (Bool-cases (same_key k κ)) [
        | inl h ↦
            let same = (==_iff i j).1 (inv.alone i j κ (active_i κ h) (before j κ a)) in
            let ej = active_before s.requests i (answered k (own r)) κ j refl a in absurd (cc)
        | inr h ↦ h
      ]

      failed :
          (κ : Key) → same_key k κ ≡ true → settled r (s.store k) ≡ none → successes κ s.runs ≡ 0
      failed κ h n =
          let c = inv.counted i κ (active_i κ h) in
          let f : succeeded (s.requests i) ≡ is_success r = ap succeeded e in
          let p = inv.held i κ (active_i κ h) in let q = same_store κ h in ground arith

Step-Inv : {s t : State} → Step s t → Inv s → Inv t
Step-Inv (arrive s i k e) inv = Inv-with_request s i (arrived k) (λ κ. refl) inv
Step-Inv (miss s i k e m) inv = Inv-with_request s i (missed k) (λ κ. refl) inv
Step-Inv (hit s i k r e m) inv = Inv-with_request s i (answered k (replay r)) (λ κ. refl) inv
Step-Inv (acquire s i k e m) inv = Inv-acquire s inv i k m
Step-Inv (lose s i k c e m) inv = Inv-with_request s i (answered k conflict) (λ κ. refl) inv
Step-Inv (handle s i k r e) inv = Inv-handle s inv i k r e
Step-Inv (settle s i k r e) inv = Inv-settle s inv i k r e

Inv-start : Inv start
Inv-start = record {
  alone = λ i j k a b. absurd (cc);
  held = λ i k a. absurd (cc);
  counted = λ i k a. absurd (cc);
  free = λ k e. refl;
  at_most = λ k. omega arith;
}

pub Reach-Inv : {s : State} → Reach start s → Inv s
Reach-Inv here = Inv-start
Reach-Inv (next r st) = Step-Inv st (Reach-Inv r)
