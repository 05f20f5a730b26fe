-- ===== src/Prelude/Lists.antt =====
-- Lists measured by native numbers, and predicates on lists by recursion.
use Prim.Native.Nat.{ℕ, zero, suc, ◌+◌, ◌≤◌}
use mathlib.Core.Path.{◌≡◌, refl, sym, ap, ◌∙◌, subst}
use mathlib.Core.Logic.{inl, inr}
use mathlib.Core.Bool.{Bool, true, false}
use mathlib.Core.List.{List, [], ◌∷◌, ◌++◌}
use mathlib.Core.Option.{Option, none, some}
use native.Mathlib.Omega.{arith}
use arc_lms.Prelude.Tests.{if◌then◌else◌, Bool-cases}

module _ {ℓ} {A : Type ℓ} where
  abbrev pub length : List A → ℕ
  length [] = 0
  length (x ∷ xs) = suc (length xs)

  abbrev pub take : ℕ → List A → List A
  take zero xs = []
  take (suc n) [] = []
  take (suc n) (x ∷ xs) = x ∷ take n xs

  abbrev pub drop : ℕ → List A → List A
  drop zero xs = xs
  drop (suc n) [] = []
  drop (suc n) (x ∷ xs) = drop n xs

  pub take-nil : (n : ℕ) → take n [] ≡ []
  take-nil zero = refl
  take-nil (suc n) = refl

  pub drop-nil : (n : ℕ) → drop n [] ≡ []
  drop-nil zero = refl
  drop-nil (suc n) = refl

  pub drop-drop : (m n : ℕ) (xs : List A) → drop (m + n) xs ≡ drop n (drop m xs)
  drop-drop zero n xs = let e : zero + n ≡ n = omega arith in rw e
  drop-drop (suc m) n [] = drop-nil (suc m + n) ∙ sym (drop-nil n)
  drop-drop (suc m) n (x ∷ xs) =
      let e : suc m + n ≡ suc (m + n) = omega arith in rw e (drop-drop m n xs)

  take-append : (n k : ℕ) (xs : List A) → take n xs ++ take k (drop n xs) ≡ take (n + k) xs
  take-append zero k xs = let e : zero + k ≡ k = omega arith in rw e
  take-append (suc n) k [] = take-nil k ∙ sym (take-nil (suc n + k))
  take-append (suc n) k (x ∷ xs) =
      let e : suc n + k ≡ suc (n + k) = omega arith in rw e (ap (λ ys. x ∷ ys) (take-append n k xs))

  -- Two windows of a list that meet are one.
  pub take-drop-append :
      (m n k : ℕ) (xs : List A)
      → take n (drop m xs) ++ take k (drop (m + n) xs) ≡ take (n + k) (drop m xs)
  take-drop-append m n k xs = rw (drop-drop m n xs) (take-append n k (drop m xs))

  pub take_all : (n : ℕ) (xs : List A) → length xs ≤ n → take n xs ≡ xs
  take_all zero [] h = refl
  take_all zero (x ∷ xs) h = absurd (omega arith)
  take_all (suc n) [] h = refl
  take_all (suc n) (x ∷ xs) h = ground (arith, take_all n xs)

  -- The elements that pass a Boolean test, in order.
  abbrev pub select : (A → Bool) → List A → List A
  select p [] = []
  select p (x ∷ xs) = let rest = select p xs in if p x then x ∷ rest else rest

  -- The first element that passes a Boolean test.
  abbrev pub find : (A → Bool) → List A → Option A
  find p [] = none
  find p (x ∷ xs) = let rest = find p xs in if p x then some x else rest

  -- How many elements pass a Boolean test.
  abbrev pub count : (A → Bool) → List A → ℕ
  count p [] = 0
  count p (x ∷ xs) = let rest = count p xs in if p x then suc rest else rest

  -- Rewrites every element that passes a test: an SQL `UPDATE … WHERE`.
  abbrev pub update_where : (A → Bool) → (A → A) → List A → List A
  update_where p f [] = []
  update_where p f (x ∷ xs) = (if p x then f x else x) ∷ update_where p f xs

  pub length-append : (xs ys : List A) → length (xs ++ ys) ≡ length xs + length ys
  length-append [] ys = omega arith
  length-append (x ∷ xs) ys = omega (arith, length-append xs ys)

  pub count-append : (p : A → Bool) (xs ys : List A) → count p (xs ++ ys) ≡ count p xs + count p ys
  count-append p [] ys = omega arith
  count-append p (x ∷ xs) ys = ground (arith, count-append p xs ys)

  -- What `find` gives passes the test.
  pub find_lem : (p : A → Bool) (xs : List A) {a : A} → find p xs ≡ some a → p a ≡ true
  find_lem p [] h = cc
  find_lem p (x ∷ xs) {a} h = ground (arith, find_lem p xs {a = a})

  pub find-append :
      (p : A → Bool) (xs ys : List A) {a : A} → find p xs ≡ some a → find p (xs ++ ys) ≡ some a
  find-append p [] ys h = cc
  find-append p (x ∷ xs) ys {a} h = ground (arith, find-append p xs ys {a = a})

  -- An update that keeps what the search tests.
  pub find-update_where :
      (p q : A → Bool) (f : A → A) (xs : List A) {a : A}
      → ((b : A) → p (f b) ≡ p b)
      → find p xs ≡ some a
      → find p (update_where q f xs) ≡ some (if q a then f a else a)
  find-update_where p q f [] k h = cc
  find-update_where p q f (x ∷ xs) {a} k h =
      ground (arith, find-update_where p q f xs {a = a} k, k x)

  -- An update of rows that the search passes over.
  pub find-update_other :
      (p q : A → Bool) (f : A → A) (xs : List A)
      → ((b : A) → p (f b) ≡ p b)
      → ((b : A) → q b ≡ true → p b ≡ false)
      → find p (update_where q f xs) ≡ find p xs
  find-update_other p q f [] k d = refl
  find-update_other p q f (x ∷ xs) k d = ground (arith, find-update_other p q f xs k d, k x, d x)

module _ {ℓ κ} {A : Type ℓ} where
  abbrev pub All : (A → Type κ) → List A → Type κ
  All P [] = Unit
  All P (x ∷ xs) = P x × All P xs

  pub All-append : (P : A → Type κ) (xs ys : List A) → All P xs → All P ys → All P (xs ++ ys)
  All-append P [] ys hx hy = hy
  All-append P (x ∷ xs) ys hx hy = (hx.0, All-append P xs ys hx.1 hy)

  pub All-imp : {P Q : A → Type κ} (f : (a : A) → P a → Q a) (xs : List A) → All P xs → All Q xs
  All-imp f [] h = tt
  All-imp f (x ∷ xs) h = (f x h.0, All-imp f xs h.1)

  pub All-trivial : (xs : List A) → All (λ _. Unit {κ}) xs
  All-trivial [] = tt
  All-trivial (x ∷ xs) = (tt, All-trivial xs)

  -- Every element before another is related to it.
  abbrev pub Pairwise : (A → A → Type κ) → List A → Type κ
  Pairwise R [] = Unit
  Pairwise R (x ∷ xs) = All (R x) xs × Pairwise R xs

  -- A list grows at its end by an element to which all of it is related.
  pub Pairwise-snoc :
      (R : A → A → Type κ) (xs : List A) (y : A)
      → Pairwise R xs
      → All (λ x. R x y) xs
      → Pairwise R (xs ++ y ∷ [])
  Pairwise-snoc R [] y h k = (tt, tt)
  Pairwise-snoc R (x ∷ xs) y h k =
      (All-append (R x) xs (y ∷ []) h.0 (k.0, tt), Pairwise-snoc R xs y h.1 k.1)

  pub Pairwise-imp :
      {R S : A → A → Type κ} (f : (a b : A) → R a b → S a b) (xs : List A)
      → Pairwise R xs
      → Pairwise S xs
  Pairwise-imp f [] h = tt
  Pairwise-imp f (x ∷ xs) h = (All-imp (f x) xs h.0, Pairwise-imp f xs h.1)

  pub All-update_where :
      (P : A → Type κ) (q : A → Bool) (f : A → A) (xs : List A)
      → ((a : A) → P (f a))
      → All P xs
      → All P (update_where q f xs)
  All-update_where P q f [] k h = tt
  All-update_where P q f (x ∷ xs) k h = (if_lem (q x), All-update_where P q f xs k h.1)
    where
      if_lem : (b : Bool) → P (if b then f x else x)
      if_lem true = k x
      if_lem false = h.0

  -- A function that relates what it gives to everything keeps a list pairwise related.
  pub Pairwise-update_where :
      (R : A → A → Type κ) (q : A → Bool) (f : A → A) (xs : List A)
      → ((a b : A) → R (f a) b)
      → ((a b : A) → R a (f b))
      → Pairwise R xs
      → Pairwise R (update_where q f xs)
  Pairwise-update_where R q f [] k l h = tt
  Pairwise-update_where R q f (x ∷ xs) k l h =
      (if_lem (q x), Pairwise-update_where R q f xs k l h.1)
    where
      related : (ys : List A) → All (R (f x)) ys
      related [] = tt
      related (y ∷ ys) = (k x y, related ys)

      if_lem : (b : Bool) → All (R (if b then f x else x)) (update_where q f xs)
      if_lem true = related (update_where q f xs)
      if_lem false = All-update_where (R x) q f xs (l x) h.0

  -- What `find` gives is one of the elements.
  pub All-find :
      (P : A → Type κ) (p : A → Bool) (xs : List A) (a : A) → All P xs → find p xs ≡ some a → P a
  All-find P p [] a h e = absurd (cc)
  All-find P p (x ∷ xs) a h e = elim (Bool-cases (p x)) [
    | inl b ↦ subst P (head_of b) h.0
    | inr b ↦ All-find P p xs a h.1 (tail_of b)
  ]
    where
      head_of : p x ≡ true → x ≡ a
      head_of b = cc

      tail_of : p x ≡ false → find p xs ≡ some a
      tail_of b = cc
