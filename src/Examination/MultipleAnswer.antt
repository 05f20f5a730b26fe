-- ===== src/Examination/MultipleAnswer.antt =====
-- The marking of a question with several right options, in submitAndGrade of
-- internal/service/examination_service.go.
use arc_lms.Prelude.{
  ◌&&◌, Bool, true, List, [], ◌∷◌, ◌≡◌, refl, sym, subst, ◌↔◌, ◌⊎◌, inl, inr, String, arith,
}
use arc_lms.Prelude.Texts.{same_text_iff}
use arc_lms.Examination.Grading.{contains, all_in, same_options}

-- A text stands in the list.
abbrev pub Member : String → List String → Type 0
Member a [] = ⊥
Member a (b ∷ bs) = (a ≡ b) ⊎ Member a bs

pub contains_iff : (a : String) (bs : List String) → (contains a bs ≡ true) ↔ Member a bs
contains_iff a [] = ground arith
contains_iff a (b ∷ bs) = ground (arith, same_text_iff a b, contains_iff a bs)

-- Every text of the first list stands in the second.
abbrev pub Included : List String → List String → Type 0
Included xs bs = (a : String) → Member a xs → Member a bs

included : (xs bs : List String) → all_in xs bs ≡ true → Included xs bs
included [] bs h a m = absurd m
included (x ∷ xs) bs h a (inl e) =
    subst (λ z. Member z bs) (sym e) ((contains_iff x bs).0 (ground arith))
included (x ∷ xs) bs h a (inr m) = included xs bs (ground arith) a m

both : {p q : Bool} → p ≡ true → q ≡ true → (p && q) ≡ true
both hp hq = rw (hp, hq) refl

all_in-Included : (xs bs : List String) → Included xs bs → all_in xs bs ≡ true
all_in-Included [] bs k = refl
all_in-Included (x ∷ xs) bs k =
    both ((contains_iff x bs).1 (k x (inl refl))) (all_in-Included xs bs (λ a m. k a (inr m)))

-- An answer to a question with several right options is right exactly if every selected option is one
-- of the right ones and every right one is selected, whatever their order and repetitions.
pub same_options_iff :
    (selected correct : List String)
    → (same_options selected correct ≡ true)
      ↔ (Included selected correct × Included correct selected)
unfolding same_options
same_options_iff selected correct = (
  λ h. (included selected correct (ground arith), included correct selected (ground arith)),
  λ h. rw (all_in-Included selected correct h.0, all_in-Included correct selected h.1) refl,
)
