-- ===== src/Discovery.antt =====
-- `CourseDiscoveryService` of src/course-discovery/course-discovery.service.ts, but for the aggregation
-- `getCategories`. What the text index finds, and how it scores, is a parameter.
pub mod Searches
use mathlib.Core.Option.{get_or}
use chain_verse_backend.Base.{
  ℕ, zero, suc, ◌+◌, ◌*◌, ◌-◌, ◌/◌, String, Bool, true, false, not, ◌&&◌, ◌||◌, Option, none, some,
  List, [], ◌∷◌, map, ◌===◌, leb, ltb, length, is_blank, is_empty, is_some, if◌then◌else◌, ◌==◌,
}
use chain_verse_backend.Http.{Action, or_throw, gets, pure, ◌>>=◌, ◌>>◌, plain_error}
use chain_verse_backend.Mongo.{Mongo, window}
use chain_verse_backend.Market.{
  Status, Section, Course, State, is_live, is_published, find_course, update_course, contains,
}
use chain_verse_backend.Paging.{Page, ceil_div}
use chain_verse_backend.Notifications.{safe_limit}
use chain_verse_backend.Sorting.{Sorter}

-- The text index of courses: `$text` and `$meta: 'textScore'`.
pub record TextIndex : Type 0 where
  pub finds : String → Course → Bool
  pub score : String → Course → ℕ

pub data SortBy : Type 0 where
  price_asc price_desc rating popular newest : SortBy

-- `SearchCoursesDto`; ratings count hundredths.
pub record SearchCoursesDto : Type 0 where
  pub query : Option String
  pub category : Option String
  pub level : Option String
  pub tags : Option (List String)
  pub min_price : Option ℕ
  pub max_price : Option ℕ
  pub min_rating : Option ℕ
  pub sort_by : Option SortBy
  pub limit : Option ℕ
  pub page : Option ℕ
  pub skip : Option ℕ

-- `sanitizeCourse`: what the public sees of a course, but for `updatedAt`.
pub record SectionView : Type 0 where
  pub title : String
  pub description : Option String
  pub duration : Option String
  pub order : ℕ
  pub resource_count : ℕ

pub record CourseView : Type 0 where
  pub id : String
  pub title : String
  pub description : String
  pub category : String
  pub tags : List String
  pub price : ℕ
  pub thumbnail_url : Option String
  pub thumbnail_images : List String
  pub tutor_id : String
  pub tutor_name : String
  pub level : String
  pub duration : Option String
  pub duration_hours : ℕ
  pub language : Option String
  pub has_certificate : Bool
  pub status : Status
  pub total_enrollments : ℕ
  pub total_reviews : ℕ
  pub average_rating : ℕ
  pub view_count : ℕ
  pub published_at : Option ℕ
  pub curriculum : List SectionView
  pub created_at : ℕ

abbrev pub section_view : Section → SectionView
section_view x = record {
  title = x.title;
  description = x.description;
  duration = x.duration;
  order = x.order;
  resource_count = length x.resources;
}

abbrev pub sanitize_course : Course → CourseView
sanitize_course c = record {
  id = c.id;
  title = c.title;
  description = c.description;
  category = c.category;
  tags = c.tags;
  price = c.price;
  thumbnail_url = c.thumbnail_url;
  thumbnail_images = c.thumbnail_images;
  tutor_id = c.tutor_id;
  tutor_name = c.tutor_name;
  level = c.level;
  duration = c.duration;
  duration_hours = c.duration_hours;
  language = c.language;
  has_certificate = c.has_certificate;
  status = c.status;
  total_enrollments = c.total_enrollments;
  total_reviews = c.total_reviews;
  average_rating = c.average_rating;
  view_count = c.view_count;
  published_at = c.published_at;
  curriculum = map section_view c.curriculum;
  created_at = c.created_at;
}

-- `{ status: 'published', deletedAt: null }`
abbrev pub is_public : Course → Bool
is_public c = is_published c.status && is_live c

-- A filter by a text that is not falsy, by an `$in` list that is not empty, and by a bound.
abbrev pub passes_text : Option String → (String → Bool) → Bool
passes_text none test = true
passes_text (some v) test = is_blank v || test v

abbrev pub shares : List String → List String → Bool
shares [] own = false
shares (t ∷ ts) own = contains own t || shares ts own

abbrev pub passes_tags : Option (List String) → List String → Bool
passes_tags none own = true
passes_tags (some ts) own = is_empty ts || shares ts own

abbrev pub passes_bound : Option ℕ → (ℕ → Bool) → Bool
passes_bound none test = true
passes_bound (some m) test = test m

-- `!!dto.query`
abbrev pub search_text : SearchCoursesDto → Option String
search_text dto = elim dto.query [ none ↦ none | some q ↦ if is_blank q then none else some q ]

abbrev pub page_limit : SearchCoursesDto → ℕ
page_limit dto = safe_limit (elim dto.limit [ none ↦ 20 | some n ↦ if n == 0 then 20 else n ])

abbrev pub page_number : SearchCoursesDto → ℕ
page_number dto = elim dto.skip [
  | some n ↦ n / page_limit dto + 1
  | none ↦ elim dto.page [ none ↦ 1 | some p ↦ if p == 0 then 1 else p ]
]

abbrev pub page_skip : SearchCoursesDto → ℕ
page_skip dto = elim dto.skip [ some n ↦ n | none ↦ (page_number dto - 1) * page_limit dto ]

-- The order that a client asks for; without one, by the score of the text or else the newest first.
abbrev pub comes_before : TextIndex → SearchCoursesDto → Course → Course → Bool
comes_before index dto x y = elim dto.sort_by [
  | some SortBy.price_asc ↦ leb x.price y.price
  | some SortBy.price_desc ↦ leb y.price x.price
  | some SortBy.rating ↦ leb y.average_rating x.average_rating
  | some SortBy.popular ↦ leb y.total_enrollments x.total_enrollments
  | some SortBy.newest ↦ leb y.created_at x.created_at
  | none ↦ elim (search_text dto) [
    | some q ↦ leb (index.score q y) (index.score q x)
    | none ↦ leb y.created_at x.created_at
  ]
]

-- By the rating, and then by the enrollments, the highest first.
abbrev pub is_featured_before : Course → Course → Bool
is_featured_before x y =
    ltb y.average_rating x.average_rating
    || (y.average_rating == x.average_rating && leb y.total_enrollments x.total_enrollments)

abbrev pub matches : TextIndex → SearchCoursesDto → Course → Bool
matches index dto c =
    is_public c
    && (passes_text dto.query (λ q. index.finds q c)
        && (passes_text dto.category (λ v. c.category === v)
            && (passes_text dto.level (λ v. c.level === v)
                && (passes_tags dto.tags c.tags
                    && (passes_bound dto.min_price (λ m. leb m c.price)
                        && (passes_bound dto.max_price (λ m. leb c.price m)
                            && passes_bound dto.min_rating (λ m. leb m c.average_rating)))))))

abbrev pub add_view : Course → Course
add_view c = record c { view_count = c.view_count + 1 }

module _ (db : Mongo) (sorter : Sorter) (index : TextIndex) where
  open db use {find, count}

  unfoldable pub search : SearchCoursesDto → Action (State db) (Page CourseView)
  search dto = do
    courses ← gets (λ s. sorter.sort (comes_before index dto) (find (matches index dto) s.courses))
    total ← gets (λ s. count (matches index dto) s.courses)
    pure (record {
      items = map sanitize_course (window (page_skip dto) (page_limit dto) courses);
      total = total;
      page = page_number dto;
      limit = page_limit dto;
      total_pages = ceil_div total (page_limit dto);
    })

  unfoldable pub get_featured : ℕ → Action (State db) (List CourseView)
  get_featured limit = do
    courses ← gets (λ s. sorter.sort is_featured_before (find is_public s.courses))
    pure (map sanitize_course (window 0 limit courses))

  unfoldable pub get_by_category : String → ℕ → Action (State db) (List CourseView)
  get_by_category category limit = do
    courses ← gets (λ s.
        sorter.sort (λ x y. leb y.total_enrollments x.total_enrollments)
          (find (λ c. c.category === category && is_public c) s.courses))
    pure (map sanitize_course (window 0 limit courses))

  -- No test of the status: the id of a draft shows the draft.
  unfoldable pub find_public : String → Action (State db) CourseView
  unfolding find_course update_course
  find_public id = do
    course ← or_throw (← find_course db id) (plain_error "Course not found")
    update_course db id add_view
    pure (sanitize_course course)

  unfoldable pub find_by_tutor_public : String → Action (State db) (List CourseView)
  find_by_tutor_public tutor_id = do
    courses ← gets (λ s. find (λ c. c.tutor_id === tutor_id && is_public c) s.courses)
    pure (map sanitize_course courses)
