-- ===== src/Analytics/CourseViews.antt =====
-- `getCourseAnalytics` of src/course-analytics/course-analytics.service.ts, and its handler in the
-- controller.
use chain_verse_backend.Base.{
  ℕ, ◌+◌, String, Bool, true, not, ◌&&◌, Option, none, some, List, [], ◌∷◌, ◌===◌, ◌==◌, leb, ltb,
  if◌then◌else◌, map, take,
}
use chain_verse_backend.Base.Int.{ℤ, sub_ℕ}
use chain_verse_backend.Http.{
  Action, or_throw, throw_if, gets, pure, ◌>>=◌, ◌>>◌, not_found, plain_error,
}
use chain_verse_backend.Mongo.{Mongo}
use chain_verse_backend.Market.{Status, CourseRating, State, find_course}
use chain_verse_backend.Ratings.{Rounding, is_rating_of}
use chain_verse_backend.Sorting.{Sorter}
use chain_verse_backend.Analytics.{
  Trend, Surroundings, days_ago, is_since, calculate_trend, count_enrollments,
  get_revenue_for_course,
}

pub record CourseOverview : Type 0 where
  pub total_enrollments : ℕ
  pub total_revenue : ℕ
  pub total_reviews : ℕ
  pub average_rating : ℕ
  pub total_wishlists : ℕ
  pub total_carts : ℕ
  pub view_count : ℕ

pub record EnrollmentStats : Type 0 where
  pub total : ℕ
  pub last7_days : ℕ
  pub last30_days : ℕ
  pub trend : Trend

pub record RevenueStats : Type 0 where
  pub total : ℕ
  pub last7_days : ℕ
  pub last30_days : ℕ
  pub average_per_enrollment : ℕ

pub record Distribution : Type 0 where
  pub five : ℕ
  pub four : ℕ
  pub three : ℕ
  pub two : ℕ
  pub one : ℕ

pub record Review : Type 0 where
  pub student_id : String
  pub rating : ℕ
  pub feedback : Option String
  pub created_at : ℕ

pub record Demographics : Type 0 where
  pub new_students : ℕ
  pub returning_students : ℤ

pub record CourseAnalytics : Type 0 where
  pub course_id : String
  pub title : String
  pub tutor_id : String
  pub tutor_name : String
  pub status : Status
  pub overview : CourseOverview
  pub enrollment_stats : EnrollmentStats
  pub revenue_stats : RevenueStats
  pub rating_distribution : Distribution
  pub recent_reviews : List Review
  pub student_demographics : Demographics

abbrev pub no_ratings : Distribution
no_ratings = record { five = 0; four = 0; three = 0; two = 0; one = 0 }

-- `ratingDistribution[r.rating]++`
abbrev pub add_rating : ℕ → Distribution → Distribution
add_rating n t = record {
  five = if n == 5 then t.five + 1 else t.five;
  four = if n == 4 then t.four + 1 else t.four;
  three = if n == 3 then t.three + 1 else t.three;
  two = if n == 2 then t.two + 1 else t.two;
  one = if n == 1 then t.one + 1 else t.one;
}

abbrev pub distribute : List CourseRating → Distribution → Distribution
distribute [] t = t
distribute (r ∷ l) t = distribute l (add_rating r.rating t)

module _ (rnd : Rounding) (around : Surroundings) (sorter : Sorter) where
  -- `.sort({ createdAt: -1 })`
  abbrev pub is_newer_review : CourseRating → CourseRating → Bool
  is_newer_review r q = leb (around.written_at q) (around.written_at r)

  abbrev pub show_review : CourseRating → Review
  show_review r = record {
    student_id = r.student_id;
    rating = r.rating;
    feedback = r.feedback;
    created_at = around.written_at r;
  }

  module _ (db : Mongo) where
    open db use {find, count}

    unfoldable pub get_course_analytics : ℕ → String → Action (State db) CourseAnalytics
    unfolding find_course count_enrollments get_revenue_for_course
    get_course_analytics now course_id = do
      course ← or_throw (← find_course db course_id) (not_found "Course not found")
      let week : ℕ = days_ago 7 now
      let month : ℕ = days_ago 30 now
      total ← count_enrollments db course_id (λ _. true)
      last7 ← count_enrollments db course_id (is_since (some week))
      last30 ← count_enrollments db course_id (is_since (some month))
      revenue ← get_revenue_for_course db course_id none
      revenue7 ← get_revenue_for_course db course_id (some week)
      revenue30 ← get_revenue_for_course db course_id (some month)
      ratings ← gets (λ s. find (is_rating_of course_id) s.ratings)
      previous ←
          count_enrollments db course_id
            (λ e. is_since (some (days_ago 60 now)) e && ltb e.created_at month)
      wishlists ← gets (λ s. count (λ w. w.course_id === course_id) s.saved)
      carts ← gets (λ s. count (λ i. i.course_id === course_id) s.cart_items)
      pure (record {
        course_id = course.id;
        title = course.title;
        tutor_id = course.tutor_id;
        tutor_name = course.tutor_name;
        status = course.status;
        overview = record {
          total_enrollments = course.total_enrollments;
          total_revenue = revenue;
          total_reviews = course.total_reviews;
          average_rating = course.average_rating;
          total_wishlists = wishlists;
          total_carts = carts;
          view_count = course.view_count;
        };
        enrollment_stats = record {
          total = total;
          last7_days = last7;
          last30_days = last30;
          trend = calculate_trend last30 previous;
        };
        revenue_stats = record {
          total = revenue;
          last7_days = revenue7;
          last30_days = revenue30;
          average_per_enrollment = if ltb 0 total then rnd.mean revenue total else 0;
        };
        rating_distribution = distribute ratings no_ratings;
        recent_reviews = map show_review (take 5 (sorter.sort is_newer_review ratings));
        student_demographics = record {
          new_students = last30;
          returning_students = sub_ℕ total last30;
        };
      })

    -- The handler of `courses/:id`, for the id and the role of the caller's token.
    unfoldable pub show_course_analytics :
        ℕ → String → String → String → Action (State db) CourseAnalytics
    unfolding get_course_analytics
    show_course_analytics now user_id role course_id = do
      analytics ← get_course_analytics now course_id
      throw_if (role === "tutor" && not (analytics.tutor_id === user_id))
          (plain_error "Unauthorized: You can only view analytics for your own courses")
      pure analytics
