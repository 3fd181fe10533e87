-- ===== src/Analytics/Earnings.antt =====
-- The revenue in a tutor's analytics against the enrollments in the tutor's courses.
use chain_verse_backend.Base.{
  ℕ, zero, suc, ◌+◌, ◌≤◌, String, ◌≡◌, refl, sym, Bool, true, ◌&&◌, some, List, [], ◌∷◌, ◌===◌, map,
  arith, first, tally, select, length, length-select, take, All, All-select, leb,
}
use chain_verse_backend.Http.{ok}
use chain_verse_backend.Mongo.{Mongo}
use chain_verse_backend.Market.{Course, Enrollment, State, cast, contains, has_id, is_live}
use chain_verse_backend.Sorting.{Sorter}
use chain_verse_backend.Analytics.{
  Surroundings, a_year, sum_amounts, count_enrollments, get_revenue_for_course, find_enrollments,
}
use chain_verse_backend.Analytics.TutorViews.{
  CoursePerformance, Earnings, TutorAnalytics, count_distinct, sum_revenues, sum_reviews,
  sum_averages, recent_enrollment, is_newer, is_paid_within, measure, measure_all,
  earnings_of_months, get_earnings_over_time, get_tutor_analytics,
}
use chain_verse_backend.Analytics.Amounts.{
  sum_earnings, id_of, student_of, tally-true, amounts_for, Once, select-Once, amounts_for-cons,
  amounts_for-nil, count_distinct-le, length-map, amounts-month-le,
}

module _ (db : Mongo) where
  -- The courses that the view of a tutor is about.
  abbrev pub courses_of : String → State db → List Course
  courses_of tutor s = select (λ c. c.tutor_id === tutor && is_live c) (db.all s.courses)

module _ (around : Surroundings) (sorter : Sorter) (db : Mongo) where
  open db use {all, to_object_id, find_lem}

  -- The id of a stored course is its own cast.
  abbrev HasObjectId : Course → Type 0
  HasObjectId c = to_object_id c.id ≡ some c.id

  -- What `measure` answers for a stored course.
  performance : Course → State db → CoursePerformance
  performance c s = record {
    course_id = c.id;
    title = c.title;
    enrollments = db.count (λ e. e.course_id === c.id && true) s.enrollments;
    revenue = sum_amounts (db.find (λ e. e.course_id === c.id && true) s.enrollments);
    rating = c.average_rating;
    status = c.status;
  }

  measure-ok :
      (c : Course) (s : State db)
      → HasObjectId c
      → measure around sorter db c s ≡ (ok (performance c s), s)
  unfolding performance measure count_enrollments get_revenue_for_course cast
  measure-ok c s h = ground arith

  measure_all-ok :
      (cs : List Course) (s : State db)
      → All HasObjectId cs
      → Once (map id_of cs)
      → (ps : List CoursePerformance) × (measure_all around sorter db cs s ≡ (ok ps, s))
        × (sum_revenues ps ≡ amounts_for (map id_of cs) (all s.enrollments))
  unfolding performance measure_all
  measure_all-ok [] s h once = ([], refl, sym (amounts_for-nil (all s.enrollments)))
  measure_all-ok (c ∷ cs) s h once =
      let (ps, run, sums) = measure_all-ok cs s h.1 once.1 in
      (
        performance c s ∷ ps,
        ground (arith, measure-ok c s h.0, run),
        rw find_lem
            (ground (arith, sums, amounts_for-cons c.id (map id_of cs) (all s.enrollments) once.0)),
      )

  -- The element of the answer for one month.
  earnings : ℕ → ℕ → List String → State db → Earnings
  earnings now i ids s = record {
    period = around.month_label now i;
    amount = sum_amounts (
        db.find
          (λ e.
            contains ids e.course_id
            && is_paid_within (around.month_start now i) (around.month_last_day now i) e)
          s.enrollments);
  }

  earnings_of_months-ok :
      (now : ℕ) (n : ℕ) (ids : List String) (s : State db)
      → a_year ≤ now
      → n ≤ 5
      → (es : List Earnings) × (earnings_of_months around sorter db now (suc n) ids s ≡ (ok es, s))
        × (sum_earnings es
            ≤ sum_amounts (
                select
                  (λ e. contains ids e.course_id && leb (around.month_start now n) e.created_at)
                  (all s.enrollments)))
  unfolding earnings earnings_of_months find_enrollments
  earnings_of_months-ok now zero ids s h k =
      let a : ℕ = around.month_start now 0 in
      let b : ℕ = around.month_last_day now 0 in
      (
        earnings now 0 ids s ∷ [],
        refl,
        rw find_lem (
            omega (
              arith,
              amounts-month-le ids a b (b + 1) (all s.enrollments) (around.month_span now 0)
                  (omega arith),
            )),
      )
  earnings_of_months-ok now (suc n) ids s h k =
      let (es, run, sums) = earnings_of_months-ok now n ids s h (omega arith) in
      (
        earnings now (suc n) ids s ∷ es,
        ground (arith, run),
        rw find_lem (
            omega (
              arith,
              sums,
              amounts-month-le ids (around.month_start now (suc n))
                  (around.month_last_day now (suc n)) (around.month_start now n) (all s.enrollments)
                  (around.month_span now (suc n)) (around.month_order now n h (omega arith)),
            )),
      )

  amounts-le :
      (ids : List String) (t : ℕ) (l : List Enrollment)
      → sum_amounts (select (λ e. contains ids e.course_id && leb t e.created_at) l)
        ≤ amounts_for ids l
  amounts-le ids t [] = omega arith
  amounts-le ids t (e ∷ l) = ground (arith, amounts-le ids t l)

  -- The answer for the courses, their measures and the earnings of the months.
  answer : String → State db → Course → List CoursePerformance → List Earnings → TutorAnalytics
  answer tutor s leading ps es =
      let mine : List Course = courses_of db tutor s in
      let those : List Enrollment =
        db.find (λ e. contains (map id_of mine) e.course_id && true) s.enrollments in
      record {
        tutor_id = tutor;
        tutor_name = leading.tutor_name;
        tutor_email = leading.tutor_email;
        overview = record {
          total_courses = length mine;
          total_students = count_distinct (map student_of those);
          total_revenue = sum_revenues ps;
          average_rating = around.quotient (sum_averages mine) (length mine);
          total_reviews = sum_reviews mine;
        };
        courses_performance = ps;
        recent_enrollments = map (recent_enrollment mine) (take 10 (sorter.sort is_newer those));
        earnings_over_time = es;
      }

  -- For a tutor who has a course, at a time at least a year after 1970, where stored courses
  -- have object ids and no id twice, `get_tutor_analytics` answers and changes nothing: its
  -- total revenue is what was paid for all enrollments in the tutor's courses, and the sum of
  -- the revenues that it shows course by course; the earnings of its six months are together
  -- no more than that; and it counts no more students than those courses have enrollments.
  pub get_tutor_analytics-ok :
      (now : ℕ) (tutor : String) (s : State db) (leading : Course)
      → a_year ≤ now
      → All HasObjectId (all s.courses)
      → ((k : String) → tally (has_id k) (all s.courses) ≤ 1)
      → first (λ _. true) (courses_of db tutor s) ≡ some leading
      → (v : TutorAnalytics) × (get_tutor_analytics around sorter db now tutor s ≡ (ok v, s))
        × (v.overview.total_revenue
            ≡ amounts_for (map id_of (courses_of db tutor s)) (all s.enrollments))
        × (v.overview.total_revenue ≡ sum_revenues v.courses_performance)
        × (sum_earnings v.earnings_over_time ≤ v.overview.total_revenue)
        × (v.overview.total_students
            ≤ tally
                (λ e. contains (map id_of (courses_of db tutor s)) e.course_id)
                (all s.enrollments))
  unfolding answer get_tutor_analytics find_enrollments get_earnings_over_time
  get_tutor_analytics-ok now tutor s leading h ids once f =
      let p : Course → Bool = λ c. c.tutor_id === tutor && is_live c in
      let mine : List Course = courses_of db tutor s in
      let keys : List String = map id_of mine in
      let (ps, run, sums) =
        measure_all-ok mine s (All-select HasObjectId p (all s.courses) ids)
          (select-Once p (all s.courses) once) in
      let (es, run_months, months) = earnings_of_months-ok now 5 keys s h (omega arith) in
      (
        answer tutor s leading ps es,
        ground (arith, find_lem p s.courses, f, run, run_months),
        sums,
        refl,
        omega (arith, sums, months, amounts-le keys (around.month_start now 5) (all s.enrollments)),
        rw find_lem (
            omega (
              arith,
              count_distinct-le (
                  map student_of
                    (select (λ e. contains keys e.course_id && true) (all s.enrollments))),
              length-map student_of
                  (select (λ e. contains keys e.course_id && true) (all s.enrollments)),
              length-select (λ e. contains keys e.course_id && true) (all s.enrollments),
              tally-true keys (all s.enrollments),
            )),
      )
