-- ===== src/Analytics/PlatformViews.antt =====
-- `getPlatformAnalytics` and `getTotalPlatformRevenue` of
-- src/course-analytics/course-analytics.service.ts. A group of an aggregation has a key and the
-- documents with that key; the order of the groups before their sort is one of several that the
-- database may have.
use chain_verse_backend.Base.{
  ℕ, ◌*◌, String, Bool, true, ◌&&◌, some, List, [], ◌∷◌, ◌===◌, leb, if◌then◌else◌, map, take,
  length,
}
use chain_verse_backend.Http.{Action, gets, pure, ◌>>=◌}
use chain_verse_backend.Mongo.{Mongo}
use chain_verse_backend.Market.{Course, State, is_live, is_published}
use chain_verse_backend.Sorting.{Sorter}
use chain_verse_backend.Sorting.Sums.{sum_by}
use chain_verse_backend.Analytics.{sum_amounts, days_ago, is_since}
use chain_verse_backend.Analytics.TutorViews.{count_distinct}

pub record PlatformOverview : Type 0 where
  pub total_courses : ℕ
  pub published_courses : ℕ
  pub total_enrollments : ℕ
  pub total_revenue : ℕ
  pub total_students : ℕ
  pub recent_enrollments : ℕ

pub record TopCourse : Type 0 where
  pub id : String
  pub title : String
  pub tutor_name : String
  pub enrollments : ℕ
  pub revenue : ℕ
  pub rating : ℕ

pub record TopTutor : Type 0 where
  pub tutor_id : String
  pub tutor_name : String
  pub total_courses : ℕ
  pub estimated_revenue : ℕ

pub record CategoryCount : Type 0 where
  pub category : String
  pub course_count : ℕ
  pub total_enrollments : ℕ

pub record PlatformAnalytics : Type 0 where
  pub overview : PlatformOverview
  pub top_courses : List TopCourse
  pub top_tutors : List TopTutor
  pub category_distribution : List CategoryCount

-- One group of a `$group` stage: its key, its first document and all its documents.
pub record Group : Type 0 where
  pub key : String
  pub leading : Course
  pub members : List Course

abbrev pub join_group : String → Course → List Group → List Group
join_group k c [] = record { key = k; leading = c; members = c ∷ [] } ∷ []
join_group k c (g ∷ gs) =
    if g.key === k
    then record { key = g.key; leading = c; members = c ∷ g.members } ∷ gs
    else g ∷ join_group k c gs

abbrev pub group_by : (Course → String) → List Course → List Group
group_by f [] = []
group_by f (c ∷ cs) = join_group (f c) c (group_by f cs)

-- `{ status: 'published', deletedAt: null }`
abbrev pub is_offered : Course → Bool
is_offered c = is_published c.status && is_live c

abbrev pub has_more_enrollments : Course → Course → Bool
has_more_enrollments c d = leb d.total_enrollments c.total_enrollments

abbrev pub price_of : Course → ℕ
price_of c = c.price

abbrev pub enrollments_of : Course → ℕ
enrollments_of c = c.total_enrollments

abbrev pub top_course : Course → TopCourse
top_course c = record {
  id = c.id;
  title = c.title;
  tutor_name = c.tutor_name;
  enrollments = c.total_enrollments;
  revenue = c.price * c.total_enrollments;
  rating = c.average_rating;
}

-- `totalRevenue: { $sum: '$price' }`
abbrev pub top_tutor : Group → TopTutor
top_tutor g = record {
  tutor_id = g.key;
  tutor_name = g.leading.tutor_name;
  total_courses = length g.members;
  estimated_revenue = sum_by price_of g.members;
}

abbrev pub category_count : Group → CategoryCount
category_count g = record {
  category = g.key;
  course_count = length g.members;
  total_enrollments = sum_by enrollments_of g.members;
}

abbrev pub earns_more : TopTutor → TopTutor → Bool
earns_more t u = leb u.estimated_revenue t.estimated_revenue

abbrev pub is_larger : CategoryCount → CategoryCount → Bool
is_larger a b = leb b.course_count a.course_count

abbrev pub tutor_key : Course → String
tutor_key c = c.tutor_id

abbrev pub category_key : Course → String
category_key c = c.category

module _ (sorter : Sorter) (db : Mongo) where
  open db use {all, find, count}

  unfoldable pub get_total_platform_revenue : Action (State db) ℕ
  get_total_platform_revenue = do
    enrollments ← gets (λ s. find (λ e. e.is_paid) s.enrollments)
    pure (sum_amounts enrollments)

  unfoldable pub get_platform_analytics : ℕ → Action (State db) PlatformAnalytics
  unfolding get_total_platform_revenue
  get_platform_analytics now = do
    total_courses ← gets (λ s. count is_live s.courses)
    published ← gets (λ s. count is_offered s.courses)
    total ← gets (λ s. count (λ _. true) s.enrollments)
    revenue ← get_total_platform_revenue
    students ← gets (λ s. map (λ e. e.student_id) (find (λ _. true) s.enrollments))
    recent ← gets (λ s. count (is_since (some (days_ago 30 now))) s.enrollments)
    offered ← gets (λ s. find is_offered s.courses)
    pure (record {
      overview = record {
        total_courses = total_courses;
        published_courses = published;
        total_enrollments = total;
        total_revenue = revenue;
        total_students = count_distinct students;
        recent_enrollments = recent;
      };
      top_courses = map top_course (take 10 (sorter.sort has_more_enrollments offered));
      top_tutors = take 10 (sorter.sort earns_more (map top_tutor (group_by tutor_key offered)));
      category_distribution =
          sorter.sort is_larger (map category_count (group_by category_key offered));
    })
