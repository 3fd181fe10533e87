-- ===== src/Analytics/Windows.antt =====
-- The figures of a course's analytics against the course's enrollments and ratings.
use chain_verse_backend.Base.{
  ℕ, ◌+◌, ◌-◌, ◌≤◌, eq_iff, String, ◌≡◌, ◌∙◌, inl, inr, some, none, List, [], ◌∷◌, arith, tally,
  select, length, All, All-select, Option-cases,
}
use chain_verse_backend.Base.Int.{pos, sub_ℕ}
use chain_verse_backend.Http.{ok}
use chain_verse_backend.Mongo.{Mongo}
use chain_verse_backend.Market.{Enrollment, CourseRating, State}
use chain_verse_backend.Ratings.{Rounding, is_rating_of}
use chain_verse_backend.Ratings.Means.{IsInRange}
use chain_verse_backend.Sorting.{Sorter}
use chain_verse_backend.Analytics.{Surroundings, days_ago, sum_amounts, is_enrolled_since}
use chain_verse_backend.Analytics.CourseViews.{
  CourseAnalytics, Distribution, no_ratings, add_rating, distribute, get_course_analytics,
  show_course_analytics,
}

-- A window that opens later shows no more.
tally_since-le :
    (co : String) (t u : ℕ) (l : List Enrollment)
    → t ≤ u
    → tally (λ e. is_enrolled_since co (some u) e) l
      ≤ tally (λ e. is_enrolled_since co (some t) e) l
tally_since-le co t u [] h = omega arith
tally_since-le co t u (e ∷ l) h = ground (arith, tally_since-le co t u l h)

tally_since-le-all :
    (co : String) (t : ℕ) (l : List Enrollment)
    → tally (λ e. is_enrolled_since co (some t) e) l ≤ tally (λ e. is_enrolled_since co none e) l
tally_since-le-all co t [] = omega arith
tally_since-le-all co t (e ∷ l) = ground (arith, tally_since-le-all co t l)

amounts_since-le :
    (co : String) (t u : ℕ) (l : List Enrollment)
    → t ≤ u
    → sum_amounts (select (is_enrolled_since co (some u)) l)
      ≤ sum_amounts (select (is_enrolled_since co (some t)) l)
amounts_since-le co t u [] h = omega arith
amounts_since-le co t u (e ∷ l) h = ground (arith, amounts_since-le co t u l h)

amounts_since-le-all :
    (co : String) (t : ℕ) (l : List Enrollment)
    → sum_amounts (select (is_enrolled_since co (some t)) l)
      ≤ sum_amounts (select (is_enrolled_since co none) l)
amounts_since-le-all co t [] = omega arith
amounts_since-le-all co t (e ∷ l) = ground (arith, amounts_since-le-all co t l)

abbrev pub stars : Distribution → ℕ
stars t = t.five + t.four + t.three + t.two + t.one

-- Ratings from 1 to 5 are all counted.
stars-distribute :
    (l : List CourseRating) (t : Distribution)
    → All IsInRange l
    → stars (distribute l t) ≡ stars t + length l
stars-distribute [] t h = omega arith
stars-distribute (r ∷ l) t h =
    let one : stars (add_rating r.rating t) ≡ stars t + 1 = ground arith in
    omega (arith, stars-distribute l (add_rating r.rating t) h.1)

module _ (rnd : Rounding) (around : Surroundings) (sorter : Sorter) (db : Mongo) where
  open db use {all, to_object_id, find_lem, count_lem}

  -- The figures of an answer, in terms of the documents.
  record Figures (now : ℕ) (co k : String) (s : State db) (v : CourseAnalytics) : Type 0 where
    total : v.enrollment_stats.total ≡ tally (is_enrolled_since k none) (all s.enrollments)
    week :
        v.enrollment_stats.last7_days
        ≡ tally (is_enrolled_since k (some (days_ago 7 now))) (all s.enrollments)
    month :
        v.enrollment_stats.last30_days
        ≡ tally (is_enrolled_since k (some (days_ago 30 now))) (all s.enrollments)
    revenue :
        v.revenue_stats.total ≡ sum_amounts (select (is_enrolled_since k none) (all s.enrollments))
    week_revenue :
        v.revenue_stats.last7_days
        ≡ sum_amounts (select (is_enrolled_since k (some (days_ago 7 now))) (all s.enrollments))
    month_revenue :
        v.revenue_stats.last30_days
        ≡ sum_amounts (select (is_enrolled_since k (some (days_ago 30 now))) (all s.enrollments))
    returning :
        v.student_demographics.returning_students
        ≡ sub_ℕ v.enrollment_stats.total v.enrollment_stats.last30_days
    ratings :
        v.rating_distribution ≡ distribute (select (is_rating_of co) (all s.ratings)) no_ratings

  get_course_analytics-Figures :
      (now : ℕ) (co : String) (s : State db) (v : CourseAnalytics)
      → (get_course_analytics rnd around sorter db now co s).0 ≡ ok v
      → (k : String) × Figures now co k s v
  unfolding get_course_analytics
  get_course_analytics-Figures now co s v h = elim (Option-cases (to_object_id co)) [
    | inl bad ↦ ground arith
    | inr (k, good) ↦ (
      k,
      record {
        total = ground (arith, count_lem (is_enrolled_since k none) s.enrollments);
        week =
            ground (arith, count_lem (is_enrolled_since k (some (days_ago 7 now))) s.enrollments);
        month =
            ground (arith, count_lem (is_enrolled_since k (some (days_ago 30 now))) s.enrollments);
        revenue = ground (arith, find_lem (is_enrolled_since k none) s.enrollments);
        week_revenue =
            ground (arith, find_lem (is_enrolled_since k (some (days_ago 7 now))) s.enrollments);
        month_revenue =
            ground (arith, find_lem (is_enrolled_since k (some (days_ago 30 now))) s.enrollments);
        returning = ground arith;
        ratings = ground (arith, find_lem (is_rating_of co) s.ratings);
      },
    )
  ]

  -- Where all ratings are from 1 to 5 and `get_course_analytics` answers: the enrollments and
  -- the revenue of the last 7 days are no more than those of the last 30, and these no more
  -- than all of them; the returning students are the enrollments less those of the last 30
  -- days, which is never negative; and the five counts of the rating distribution are together
  -- the number of the course's ratings.
  pub get_course_analytics-ok :
      (now : ℕ) (co : String) (s : State db) (v : CourseAnalytics)
      → All IsInRange (all s.ratings)
      → (get_course_analytics rnd around sorter db now co s).0 ≡ ok v
      → (v.enrollment_stats.last7_days ≤ v.enrollment_stats.last30_days)
        × (v.enrollment_stats.last30_days ≤ v.enrollment_stats.total)
        × (v.student_demographics.returning_students
            ≡ pos (v.enrollment_stats.total - v.enrollment_stats.last30_days))
        × (v.revenue_stats.last7_days ≤ v.revenue_stats.last30_days)
        × (v.revenue_stats.last30_days ≤ v.revenue_stats.total)
        × (stars v.rating_distribution ≡ length (select (is_rating_of co) (all s.ratings)))
  get_course_analytics-ok now co s v range h =
      let (k, f) = get_course_analytics-Figures now co s v h in
      let l : List Enrollment = all s.enrollments in
      let later : days_ago 30 now ≤ days_ago 7 now = omega arith in
      let weeks = tally_since-le k (days_ago 30 now) (days_ago 7 now) l later in
      let months = tally_since-le-all k (days_ago 30 now) l in
      let week_sums = amounts_since-le k (days_ago 30 now) (days_ago 7 now) l later in
      let month_sums = amounts_since-le-all k (days_ago 30 now) l in
      let few : v.enrollment_stats.last30_days ≤ v.enrollment_stats.total =
        omega (arith, f.total, f.month, months) in
      let all_stars =
        stars-distribute (select (is_rating_of co) (all s.ratings)) no_ratings
          (All-select IsInRange (is_rating_of co) (all s.ratings) range) in
      (
        omega (arith, f.week, f.month, weeks),
        few,
        f.returning ∙ ground (arith, few),
        omega (arith, f.week_revenue, f.month_revenue, week_sums),
        omega (arith, f.revenue, f.month_revenue, month_sums),
        rw f.ratings (omega (arith, all_stars)),
      )

  -- A tutor whom the handler answers is the tutor of the course.
  pub show_course_analytics-ok :
      (now : ℕ) (user co : String) (s : State db) (v : CourseAnalytics)
      → (show_course_analytics rnd around sorter db now user "tutor" co s).0 ≡ ok v
      → v.tutor_id ≡ user
  unfolding show_course_analytics get_course_analytics
  show_course_analytics-ok now user co s v h = elim (Option-cases (to_object_id co)) [
    | inl bad ↦ ground arith
    | inr (k, good) ↦ ground (arith, eq_iff v.tutor_id user)
  ]
