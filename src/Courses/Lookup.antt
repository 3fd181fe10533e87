-- ===== src/Courses/Lookup.antt =====
-- Finding a course by its id and changing it, where every id has one course.
use chain_verse_backend.Base.{
  ◌≤◌, String, ◌≡◌, refl, sym, inl, inr, Bool, ◌&&◌, none, some, List, [], ◌∷◌, arith, first, tally,
  amend_first, Bool-cases, All,
}
use mathlib.Core.Path.{subst}
use chain_verse_backend.Market.{Course, has_id, is_live}

pub no_live :
    (k : String) (l : List Course)
    → tally (has_id k) l ≡ 0
    → first (λ x. has_id k x && is_live x) l ≡ none
no_live k [] h = refl
no_live k (x ∷ l) h = ground (arith, no_live k l)

-- With one course for each id, the live course with an id is the course with it.
pub first_of_live :
    (k : String) (l : List Course) (c : Course)
    → tally (has_id k) l ≤ 1
    → first (λ x. has_id k x && is_live x) l ≡ some c
    → first (has_id k) l ≡ some c
first_of_live k [] c h f = f
first_of_live k (x ∷ l) c h f = ground (arith, no_live k l, first_of_live k l c)

pub All-amend_first {κ} :
    (P : Course → Type κ) (p : Course → Bool) (f : Course → Course) (l : List Course) (c : Course)
    → first p l ≡ some c
    → P (f c)
    → All P l
    → All P (amend_first p f l)
All-amend_first P p f [] c h q a = a
All-amend_first P p f (x ∷ l) c h q a = elim (Bool-cases (p x)) [
  | inl here ↦ let e : x ≡ c = ground arith in rw here (subst (λ y. P (f y)) (sym e) q, a.1)
  | inr there ↦ rw there (a.0, All-amend_first P p f l c (ground arith) q a.1)
]

pub All-first {κ} :
    (P : Course → Type κ) (p : Course → Bool) (l : List Course) (c : Course)
    → first p l ≡ some c
    → All P l
    → P c
All-first P p [] c h a = cc
All-first P p (x ∷ l) c h a = elim (Bool-cases (p x)) [
  | inl here ↦ let e : x ≡ c = ground arith in subst P e a.0
  | inr there ↦ All-first P p l c (ground arith) a.1
]
