-- ===== src/Ratings/Means.antt =====
-- The mean of ratings that lie in the range.
use chain_verse_backend.Base.{ℕ, ◌+◌, ◌*◌, ◌≤◌, ◌<◌, List, [], ◌∷◌, All, arith, length}
use chain_verse_backend.Market.{CourseRating}
use chain_verse_backend.Ratings.{Rounding, sum_ratings, average}

abbrev pub IsInRange : CourseRating → Type 0
IsInRange r = (1 ≤ r.rating) × (r.rating ≤ 5)

sum_ratings_bounds :
    (l : List CourseRating)
    → All IsInRange l
    → (length l ≤ sum_ratings l) × (sum_ratings l ≤ 5 * length l)
sum_ratings_bounds [] h = omega arith
sum_ratings_bounds (r ∷ l) h = omega (arith, sum_ratings_bounds l h.1)

-- A factor of a product that is no larger.
cancel : (a b n : ℕ) → 0 < n → a * n ≤ b * n → a ≤ b
cancel a b n p h = grind arith

pub average_bounds :
    (rnd : Rounding) (l : List CourseRating)
    → All IsInRange l
    → 0 < length l
    → (100 ≤ average rnd l) × (average rnd l ≤ 500)
average_bounds rnd l h some_rating =
    let m : ℕ = rnd.mean (sum_ratings l) (length l) in
    let b = sum_ratings_bounds l h in
    let low : 200 * length l ≤ (2 * m + 1) * length l =
      omega (arith, rnd.mean_low (sum_ratings l) (length l) some_rating) in
    let high : 2 * m * length l ≤ 1001 * length l =
      omega (arith, rnd.mean_high (sum_ratings l) (length l) some_rating) in
    ground (
      arith,
      cancel 200 (2 * m + 1) (length l) some_rating low,
      cancel (2 * m) 1001 (length l) some_rating high,
    )
