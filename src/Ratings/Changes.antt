-- ===== src/Ratings/Changes.antt =====
-- Lists of ratings, and their changes for one course.
use chain_verse_backend.Base.{
  ℕ, ◌≤◌, String, ◌≡◌, ◌≢◌, refl, ◌⊎◌, inl, inr, Bool, some, List, [], ◌∷◌, ◌++◌, arith, eq_iff,
  amend_first, drop_first, select, length, All, Option-cases,
}
use chain_verse_backend.Market.{CourseRating}
use chain_verse_backend.Ratings.{
  Rounding, UpdateRating, is_rating, is_rating_of, average, put_rating,
}
use chain_verse_backend.Ratings.Means.{IsInRange, average_bounds}

-- A change of the ratings of one course leaves those of another alone.
pub select-amend_first :
    (co j st : String) (f : CourseRating → CourseRating) (l : List CourseRating)
    → ((r : CourseRating) → (f r).course_id ≡ r.course_id)
    → co ≢ j
    → select (is_rating_of j) (amend_first (is_rating co st) f l) ≡ select (is_rating_of j) l
select-amend_first co j st f [] keep ne = refl
select-amend_first co j st f (r ∷ l) keep ne = ground (
  arith,
  keep r,
  eq_iff r.course_id co,
  eq_iff r.course_id j,
  select-amend_first co j st f l keep ne,
)

pub select-drop_first :
    (co j st : String) (l : List CourseRating)
    → co ≢ j
    → select (is_rating_of j) (drop_first (is_rating co st) l) ≡ select (is_rating_of j) l
select-drop_first co j st [] ne = refl
select-drop_first co j st (r ∷ l) ne =
    ground (arith, eq_iff r.course_id co, eq_iff r.course_id j, select-drop_first co j st l ne)

pub select-snoc :
    (co j : String) (x : CourseRating) (l : List CourseRating)
    → x.course_id ≡ co
    → co ≢ j
    → select (is_rating_of j) (l ++ x ∷ []) ≡ select (is_rating_of j) l
select-snoc co j x [] e ne = ground (arith, eq_iff x.course_id j)
select-snoc co j x (r ∷ l) e ne = ground (arith, select-snoc co j x l e ne)

pub All-amend_first-IsInRange :
    (p : CourseRating → Bool) (d : UpdateRating) (l : List CourseRating)
    → ((n : ℕ) → d.rating ≡ some n → (1 ≤ n) × (n ≤ 5))
    → All IsInRange l
    → All IsInRange (amend_first p (put_rating d) l)
All-amend_first-IsInRange p d [] keep h = h
All-amend_first-IsInRange p d (r ∷ l) keep h = elim (Option-cases d.rating) [
  | inl e ↦ ground (arith, All-amend_first-IsInRange p d l keep h.1)
  | inr (n, e) ↦ ground (arith, keep n e, All-amend_first-IsInRange p d l keep h.1)
]

pub average_cases :
    (rnd : Rounding) (l : List CourseRating)
    → All IsInRange l
    → (length l ≡ 0) ⊎ ((100 ≤ average rnd l) × (average rnd l ≤ 500))
average_cases rnd [] h = inl refl
average_cases rnd (r ∷ l) h = inr (average_bounds rnd (r ∷ l) h (omega arith))
