-- ===== src/Analytics/TutorViews.antt =====
-- `getTutorAnalytics` and `getEarningsOverTime` of src/course-analytics/course-analytics.service.ts,
-- and the handler of `tutor/:tutorId` in the controller.
use mathlib.Core.Option
use chain_verse_backend.Base.{
  ℕ, zero, suc, ◌+◌, String, Bool, true, not, ◌&&◌, Option, none, List, [], ◌∷◌, ◌===◌, leb,
  if◌then◌else◌, map, take, first, length, or_default,
}
use chain_verse_backend.Http.{
  Action, or_throw, throw_if, gets, pure, ◌>>=◌, ◌>>◌, not_found, plain_error,
}
use chain_verse_backend.Mongo.{Mongo}
use chain_verse_backend.Market.{Status, Course, Enrollment, State, contains, is_live}
use chain_verse_backend.Enrollment.{Key, same_key}
use chain_verse_backend.Sorting.{Sorter}
use chain_verse_backend.Analytics.{
  Surroundings, sum_amounts, count_enrollments, get_revenue_for_course, find_enrollments,
}

pub record CoursePerformance : Type 0 where
  pub course_id : String
  pub title : String
  pub enrollments : ℕ
  pub revenue : ℕ
  pub rating : ℕ
  pub status : Status

pub record RecentEnrollment : Type 0 where
  pub course_id : String
  pub course_title : String
  pub student_id : String
  pub enrolled_at : ℕ
  pub amount : ℕ

pub record Earnings : Type 0 where
  pub period : String
  pub amount : ℕ

pub record TutorOverview : Type 0 where
  pub total_courses : ℕ
  pub total_students : ℕ
  pub total_revenue : ℕ
  pub average_rating : ℕ
  pub total_reviews : ℕ

pub record TutorAnalytics : Type 0 where
  pub tutor_id : String
  pub tutor_name : String
  pub tutor_email : String
  pub overview : TutorOverview
  pub courses_performance : List CoursePerformance
  pub recent_enrollments : List RecentEnrollment
  pub earnings_over_time : List Earnings

-- The length of `distinct('studentId')`, which has each value once.
abbrev pub count_distinct : List String → ℕ
count_distinct [] = 0
count_distinct (k ∷ ks) = if contains ks k then count_distinct ks else suc (count_distinct ks)

abbrev pub sum_revenues : List CoursePerformance → ℕ
sum_revenues [] = 0
sum_revenues (p ∷ l) = p.revenue + sum_revenues l

abbrev pub sum_reviews : List Course → ℕ
sum_reviews [] = 0
sum_reviews (c ∷ l) = c.total_reviews + sum_reviews l

abbrev pub sum_averages : List Course → ℕ
sum_averages [] = 0
sum_averages (c ∷ l) = c.average_rating + sum_averages l

abbrev pub is_newer : Enrollment → Enrollment → Bool
is_newer e f = leb f.created_at e.created_at

abbrev pub title_of : Course → String
title_of c = c.title

-- `courses.find((c) => c.id === enrollment.courseId)`, where `c.id` is a text and
-- `enrollment.courseId` is an `ObjectId` object, by its schema.
abbrev pub course_named : List Course → Enrollment → Option Course
course_named courses e = first (λ c. same_key (Key.text c.id) (Key.object e.course_id)) courses

abbrev pub recent_enrollment : List Course → Enrollment → RecentEnrollment
recent_enrollment courses e = record {
  course_id = e.course_id;
  course_title = or_default (Option.map title_of (course_named courses e)) "Unknown";
  student_id = e.student_id;
  enrolled_at = e.created_at;
  amount = e.amount_paid;
}

-- `createdAt: { $gte: startDate, $lte: endDate }, type: 'paid'`
abbrev pub is_paid_within : ℕ → ℕ → Enrollment → Bool
is_paid_within start last e = leb start e.created_at && leb e.created_at last && e.is_paid

module _ (around : Surroundings) (sorter : Sorter) (db : Mongo) where
  open db use {find}

  -- One element of `coursesPerformance`.
  unfoldable pub measure : Course → Action (State db) CoursePerformance
  unfolding count_enrollments get_revenue_for_course
  measure c = do
    enrollments ← count_enrollments db c.id (λ _. true)
    revenue ← get_revenue_for_course db c.id none
    pure (record {
      course_id = c.id;
      title = c.title;
      enrollments = enrollments;
      revenue = revenue;
      rating = c.average_rating;
      status = c.status;
    })

  unfoldable pub measure_all : List Course → Action (State db) (List CoursePerformance)
  measure_all [] = pure []
  measure_all (c ∷ cs) = do p ← measure c; ps ← measure_all cs; pure (p ∷ ps)

  -- The loop of `getEarningsOverTime`: `n` months, of which the last is the current one.
  unfoldable pub earnings_of_months : ℕ → ℕ → List String → Action (State db) (List Earnings)
  unfolding find_enrollments
  earnings_of_months now zero ids = pure []
  earnings_of_months now (suc i) ids = do
    enrollments ←
        find_enrollments db ids
          (is_paid_within (around.month_start now i) (around.month_last_day now i))
    later ← earnings_of_months now i ids
    pure (record { period = around.month_label now i; amount = sum_amounts enrollments } ∷ later)

  unfoldable pub get_earnings_over_time : ℕ → List String → Action (State db) (List Earnings)
  unfolding earnings_of_months
  get_earnings_over_time now ids = earnings_of_months now 6 ids

  unfoldable pub get_tutor_analytics : ℕ → String → Action (State db) TutorAnalytics
  unfolding measure_all find_enrollments get_earnings_over_time
  get_tutor_analytics now tutor_id = do
    courses ← gets (λ s. find (λ c. c.tutor_id === tutor_id && is_live c) s.courses)
    leading ← or_throw (first (λ _. true) courses) (not_found "No courses found for this tutor")
    performance ← measure_all courses
    let ids : List String = map (λ c. c.id) courses
    students ← find_enrollments db ids (λ _. true)
    recent ← find_enrollments db ids (λ _. true)
    earnings ← get_earnings_over_time now ids
    pure (record {
      tutor_id = tutor_id;
      tutor_name = leading.tutor_name;
      tutor_email = leading.tutor_email;
      overview = record {
        total_courses = length courses;
        total_students = count_distinct (map (λ e. e.student_id) students);
        total_revenue = sum_revenues performance;
        average_rating = around.quotient (sum_averages courses) (length courses);
        total_reviews = sum_reviews courses;
      };
      courses_performance = performance;
      recent_enrollments = map (recent_enrollment courses) (take 10 (sorter.sort is_newer recent));
      earnings_over_time = earnings;
    })

  -- The handler of `tutor/:tutorId`.
  unfoldable pub show_tutor_analytics :
      ℕ → String → String → String → Action (State db) TutorAnalytics
  unfolding get_tutor_analytics
  show_tutor_analytics now user_id role tutor_id = do
    throw_if (role === "tutor" && not (tutor_id === user_id))
        (plain_error "Unauthorized: You can only view your own analytics")
    get_tutor_analytics now tutor_id
