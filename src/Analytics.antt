-- ===== src/Analytics.antt =====
-- `CourseAnalyticsService` and `CourseAnalyticsController` of src/course-analytics: what their three
-- views share. Prices count the smallest unit of money, averages count hundredths, and times count
-- milliseconds.
pub mod CourseViews
pub mod TutorViews
pub mod PlatformViews
pub mod Trends
pub mod Windows
pub mod Amounts
pub mod Earnings
pub mod Groups
use chain_verse_backend.Base.{
  ℕ, suc, ◌+◌, ◌-◌, ◌*◌, ◌≤◌, ◌<◌, String, Bool, true, false, ◌&&◌, Option, none, some, List, [],
  ◌∷◌, ◌===◌, ◌==◌, leb, ltb, if◌then◌else◌,
}
use chain_verse_backend.Http.{Action, gets, pure, ◌>>=◌}
use chain_verse_backend.Mongo.{Mongo}
use chain_verse_backend.Market.{Enrollment, CourseRating, State, cast, contains}

pub data Trend : Type 0 where
  up down stable : Trend

-- The start of the window of the last `n` days.
abbrev pub days_ago : ℕ → ℕ → ℕ
days_ago n now = now - n * 24 * 60 * 60 * 1000

abbrev pub sum_amounts : List Enrollment → ℕ
sum_amounts [] = 0
sum_amounts (e ∷ l) = e.amount_paid + sum_amounts l

-- `query.createdAt = { $gte: since }`, where there is a `since`.
abbrev pub is_since : Option ℕ → Enrollment → Bool
is_since none e = true
is_since (some t) e = leb t e.created_at

-- `{ courseId, createdAt: … }`
abbrev pub is_enrolled_since : String → Option ℕ → Enrollment → Bool
is_enrolled_since co since e = e.course_id === co && is_since since e

-- `(current - previous) / previous` against 0.1 and -0.1. For counts below 2 ^ 49 the quotient in
-- floating point is on the same side of both as the exact one.
abbrev pub calculate_trend : ℕ → ℕ → Trend
calculate_trend current previous =
    if previous == 0
    then (if ltb 0 current then Trend.up else Trend.stable)
    else (if ltb (previous + 10 * previous) (10 * current)
        then Trend.up
        else (if ltb (10 * current + previous) (10 * previous) then Trend.down else Trend.stable))

-- In milliseconds.
abbrev pub a_year : ℕ
a_year = 366 * 24 * 60 * 60 * 1000

-- What the views rely on of their surroundings: `createdAt` of a rating, which Mongoose keeps; the
-- local calendar of `new Date(year, month - i, 1)`, of `new Date(year, month - i + 1, 0)`, which is
-- the start of a month's last day, and of `toLocaleDateString`; and a division in floating point
-- that `Math.round` ends, by a number that is not 0.
pub record Surroundings : Type 0 where
  pub written_at : CourseRating → ℕ
  pub month_start : ℕ → ℕ → ℕ
  pub month_last_day : ℕ → ℕ → ℕ
  pub month_label : ℕ → ℕ → String
  pub quotient : ℕ → ℕ → ℕ
  -- Of the last six months, one that is further back ends before the next one starts. Times count
  -- from 1970, so that a year has passed.
  pub month_order :
      (now i : ℕ) → a_year ≤ now → i < 5 → month_last_day now (suc i) < month_start now i
  pub month_span : (now i : ℕ) → month_start now i ≤ month_last_day now i
  pub quotient_low : (sum n : ℕ) → 0 < n → 2 * sum ≤ (2 * quotient sum n + 1) * n
  pub quotient_high : (sum n : ℕ) → 0 < n → 2 * quotient sum n * n ≤ 2 * sum + n

module _ (db : Mongo) where
  open db use {find, count}

  -- `enrollmentModel.countDocuments({ courseId, createdAt: … })`
  unfoldable pub count_enrollments : String → (Enrollment → Bool) → Action (State db) ℕ
  unfolding cast
  count_enrollments course_id extra = do
    co ← cast db course_id
    gets (λ s. count (λ e. e.course_id === co && extra e) s.enrollments)

  unfoldable pub get_revenue_for_course : String → Option ℕ → Action (State db) ℕ
  unfolding cast
  get_revenue_for_course course_id since = do
    co ← cast db course_id
    enrollments ← gets (λ s. find (is_enrolled_since co since) s.enrollments)
    pure (sum_amounts enrollments)

  -- `enrollmentModel.find({ courseId: { $in: courseIds }, … })`, where the ids are those of stored
  -- courses, which are object ids.
  unfoldable pub find_enrollments :
      List String → (Enrollment → Bool) → Action (State db) (List Enrollment)
  find_enrollments ids extra =
      gets (λ s. find (λ e. contains ids e.course_id && extra e) s.enrollments)
