-- ===== src/Tests/Analyses.antt =====
-- The three views of the analytics on the small shop.
use chain_verse_backend.Base.{
  ℕ, ◌+◌, ◌-◌, ◌*◌, ◌/◌, ◌≤◌, ◌<◌, ◌≡◌, Bool, String, refl, none, true, List, [], ◌∷◌, map, take,
  arith, eq_iff, tally, select, length,
}
use chain_verse_backend.Base.Int.{pos}
use chain_verse_backend.Http.{ok}
use chain_verse_backend.Mongo.Memory.{memory}
use chain_verse_backend.Market.{Status, Course, Enrollment, State, contains, has_id}
use chain_verse_backend.Ratings.{is_rating_of}
use chain_verse_backend.Sorting.Insertion.{by_insertion}
use chain_verse_backend.Analytics.{Trend, Surroundings, a_year}
use chain_verse_backend.Analytics.CourseViews.{CourseAnalytics, get_course_analytics}
use chain_verse_backend.Analytics.TutorViews.{TutorAnalytics, sum_revenues, get_tutor_analytics}
use chain_verse_backend.Analytics.Windows.{stars, get_course_analytics-ok}
use chain_verse_backend.Analytics.Amounts.{sum_earnings, amounts_for, id_of}
use chain_verse_backend.Analytics.Earnings.{courses_of, get_tutor_analytics-ok}
use chain_verse_backend.Sorting.{Ordered}
use chain_verse_backend.Sorting.Sums.{sum_by}
use chain_verse_backend.Analytics.PlatformViews.{
  PlatformAnalytics, is_offered, has_more_enrollments, enrollments_of, top_course,
  get_platform_analytics,
}
use chain_verse_backend.Analytics.Groups.{courses_in, enrollments_in, get_platform_analytics-ok}
use chain_verse_backend.Tests.Fixtures.{shop, course_a}
use chain_verse_backend.Tests.Feedback.{rounding, nearest}

abbrev day : ℕ
day = 24 * 60 * 60 * 1000

closest : ℕ → ℕ → ℕ
closest sum n = (2 * sum + n) / (2 * n)

closest_low : (sum n : ℕ) → 0 < n → 2 * sum ≤ (2 * closest sum n + 1) * n
unfolding closest
closest_low sum n h = grind arith

closest_high : (sum n : ℕ) → 0 < n → 2 * closest sum n * n ≤ 2 * sum + n
unfolding closest
closest_high sum n h = grind arith

-- A calendar whose months are 30 days long.
abbrev around : Surroundings
around = record {
  written_at = λ r. 0;
  month_start = λ now i. now - (30 * i + 29) * day;
  month_last_day = λ now i. now - 30 * i * day;
  month_label = λ now i. "Jan 70";
  quotient = closest;
  month_order = λ now i h k. omega arith;
  month_span = λ now i. omega arith;
  quotient_low = closest_low;
  quotient_high = closest_high;
}

abbrev now : ℕ
now = 2 * a_year

abbrev enrolled : String → ℕ → ℕ → Enrollment
enrolled id time price = record {
  id = id;
  student_id = id;
  course_id = "a";
  is_paid = true;
  amount_paid = price;
  status = "completed";
  created_at = time;
}

abbrev campus : State memory
campus = record shop {
  enrollments =
      enrolled "a" (now - day) 30 ∷ enrolled "aa" (now - 10 * day) 20 ∷ enrolled "aaa" 7 10 ∷ [];
  ratings =
      record { id = "aaaa"; course_id = "a"; student_id = "a"; rating = 5; feedback = none } ∷ [];
}

abbrev shown : CourseAnalytics
shown = record {
  course_id = "a";
  title = "Proofs";
  tutor_id = "aaaa";
  tutor_name = "T";
  status = Status.published;
  overview = record {
    total_enrollments = 0;
    total_revenue = 60;
    total_reviews = 0;
    average_rating = 0;
    total_wishlists = 0;
    total_carts = 1;
    view_count = 0;
  };
  enrollment_stats = record { total = 3; last7_days = 1; last30_days = 2; trend = Trend.up };
  revenue_stats = record {
    total = 60;
    last7_days = 30;
    last30_days = 50;
    average_per_enrollment = 2000;
  };
  rating_distribution = record { five = 1; four = 0; three = 0; two = 0; one = 0 };
  recent_reviews = record { student_id = "a"; rating = 5; feedback = none; created_at = 0 } ∷ [];
  student_demographics = record { new_students = 2; returning_students = pos 1 };
}

analysed : (get_course_analytics rounding around by_insertion memory now "a" campus).0 ≡ ok shown
unfolding get_course_analytics nearest
analysed = refl

get_course_analytics-ok_example :
    (1 ≤ 2)
    × (2 ≤ 3)
    × (pos 1 ≡ pos (3 - 2))
    × (30 ≤ 50)
    × (50 ≤ 60)
    × (stars shown.rating_distribution ≡ length (select (is_rating_of "a") campus.ratings))
get_course_analytics-ok_example =
    get_course_analytics-ok rounding around by_insertion memory now "a" campus shown
      ((omega arith, omega arith), tt) analysed

only_once : (k : String) → tally (has_id k) campus.courses ≤ 1
only_once k = ground (arith, eq_iff "a" k, eq_iff "aa" k, eq_iff "a" "aa")

get_tutor_analytics-ok_example :
    (v : TutorAnalytics) × (get_tutor_analytics around by_insertion memory now "aaaa" campus
      ≡ (ok v, campus))
    × (v.overview.total_revenue
        ≡ amounts_for (map id_of (courses_of memory "aaaa" campus)) campus.enrollments)
    × (v.overview.total_revenue ≡ sum_revenues v.courses_performance)
    × (sum_earnings v.earnings_over_time ≤ v.overview.total_revenue)
    × (v.overview.total_students
        ≤ tally
            (λ e. contains (map id_of (courses_of memory "aaaa" campus)) e.course_id)
            campus.enrollments)
get_tutor_analytics-ok_example =
    get_tutor_analytics-ok around by_insertion memory now "aaaa" campus course_a (omega arith)
      (refl, (refl, tt)) only_once refl

get_platform_analytics-ok_example :
    (v : PlatformAnalytics) × (ranking : List Course) × (get_platform_analytics by_insertion memory
        now campus
      ≡ (ok v, campus))
    × (sum_by courses_in v.category_distribution ≡ v.overview.published_courses)
    × (sum_by enrollments_in v.category_distribution
        ≡ sum_by enrollments_of (select is_offered campus.courses))
    × (v.top_courses ≡ map top_course (take 10 ranking))
    × Ordered has_more_enrollments ranking
    × ((p : Course → Bool) → tally p ranking ≡ tally p (select is_offered campus.courses))
    × (v.overview.published_courses ≤ v.overview.total_courses)
    × (v.overview.recent_enrollments ≤ v.overview.total_enrollments)
get_platform_analytics-ok_example = get_platform_analytics-ok by_insertion memory now campus
