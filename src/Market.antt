-- ===== src/Market.antt =====
-- The documents that the course services share, and the queries on courses by id: src/admin-course/
-- schemas/course.schema.ts, src/student-cart/schemas, src/student-enrollment/schemas, and the hooks
-- of src/common/soft-delete/soft-delete.schema.ts.
use mathlib.Core.Option
use chain_verse_backend.Base.{
  ◌≡◌, refl, ◌⊎◌, inl, inr, Option-cases, arith, eq_iff, first, amend_first, if◌then◌else◌, ℕ, ◌+◌,
  String, Bool, true, false, ◌&&◌, ◌||◌, Option, none, some, List, ◌++◌, [], ◌∷◌, ◌===◌,
}
use chain_verse_backend.Base.Int.{ℤ}
use chain_verse_backend.Http.{
  Failure, Action, ok, raise, pure, throw, gets, modify, ◌>>=◌, cast_error,
}
use chain_verse_backend.Mongo.{Mongo}

pub data Status : Type 0 where
  draft pending approved rejected published unpublished : Status

abbrev pub is_published : Status → Bool
is_published Status.published = true
is_published _ = false

pub record Resource : Type 0 where
  pub title : String
  pub kind : String
  pub url : String

pub record Section : Type 0 where
  pub title : String
  pub description : Option String
  pub duration : Option String
  pub order : ℕ
  pub resources : List Resource

-- Prices count the smallest unit of money, and the average rating counts hundredths.
pub record Course : Type 0 where
  pub id : String
  pub title : String
  pub description : String
  pub category : String
  pub tags : List String
  pub price : ℕ
  pub thumbnail_url : Option String
  pub thumbnail_images : List String
  pub tutor_id : String
  pub tutor_email : String
  pub tutor_name : String
  pub level : String
  pub duration : Option String
  pub duration_hours : ℕ
  pub language : Option String
  pub has_certificate : Bool
  pub status : Status
  pub curriculum : List Section
  pub total_enrollments : ℕ
  pub total_reviews : ℕ
  pub average_rating : ℕ
  pub total_wishlists : ℤ
  pub total_carts : ℤ
  pub view_count : ℕ
  pub published_at : Option ℕ
  pub approved_at : Option ℕ
  pub rejection_reason : Option String
  pub deleted_at : Option ℕ
  pub deleted_by : Option String
  pub deletion_reason : Option String
  pub created_at : ℕ

pub record CartItem : Type 0 where
  pub id : String
  pub student_id : String
  pub course_id : String
  pub quantity : ℕ

pub record Enrollment : Type 0 where
  pub id : String
  pub student_id : String
  pub course_id : String
  pub is_paid : Bool
  pub amount_paid : ℕ
  pub status : String
  pub created_at : ℕ

pub record SavedCourse : Type 0 where
  pub id : String
  pub student_id : String
  pub course_id : String

pub record CourseRating : Type 0 where
  pub id : String
  pub course_id : String
  pub student_id : String
  pub rating : ℕ
  pub feedback : Option String

-- What `EventEmitter2.emit` is called with: the name of the event and its payload.
pub data Event : Type 0 where
  student_enrolled : (student course tutor email : String) → Option ℕ → Event
  -- The name of `student_enrolled` too, with no tutor: what saving a course emits.
  course_saved : (student course : String) → Event
  course_created : (course tutor email title : String) → Event
  course_submitted : (course tutor email title : String) → Event
  course_reviewed : (course tutor email : String) → Status → Event
  course_published : (course tutor email title : String) → Event
  course_unpublished : (course tutor email title : String) → Event
  course_deleted : (course tutor reason : String) → Event
  admin_enrolled : (course student tutor : String) → Event

-- A call of `EmailService.send`, which nobody waits for.
pub record Mail : Type 0 where
  pub to : String
  pub subject : String
  pub body : String

pub record Tutor : Type 0 where
  pub id : String
  pub total_courses : ℤ
  pub total_students : ℤ

-- A course that no soft delete has hidden: what the hooks on `find`, `findOne` and
-- `countDocuments` add to every filter.
abbrev pub is_live : Course → Bool
is_live c = elim c.deleted_at [ none ↦ true | some _ ↦ false ]

abbrev pub has_id : String → Course → Bool
has_id k c = c.id === k

-- The filter `{ studentId, courseId }`.
abbrev pub is_item : String → String → CartItem → Bool
is_item st co i = i.student_id === st && i.course_id === co

abbrev pub is_of : String → CartItem → Bool
is_of st i = i.student_id === st

-- A change of the course with one id, as a query by id sees it.
pub first-amend_first :
    (j k : String) (f : Course → Course) (l : List Course)
    → ((c : Course) → (f c).id ≡ c.id)
    → first (has_id k) (amend_first (has_id j) f l)
      ≡ (if j === k then Option.map f (first (has_id k) l) else first (has_id k) l)
first-amend_first j k f [] keep = ground arith
first-amend_first j k f (c ∷ l) keep =
    ground (arith, keep c, eq_iff j k, eq_iff c.id k, eq_iff c.id j, first-amend_first j k f l keep)

abbrev pub contains : List String → String → Bool
contains [] k = false
contains (j ∷ ks) k = j === k || contains ks k

module _ (db : Mongo) where
  open db use {Store, find, find_one, update_one, to_object_id}

  -- The collections, the events emitted and the number of ids generated so far.
  pub record State : Type 0 where
    pub courses : Store Course
    pub cart_items : Store CartItem
    pub enrollments : Store Enrollment
    pub saved : Store SavedCourse
    pub ratings : Store CourseRating
    pub tutors : Store Tutor
    pub events : List Event
    pub mails : List Mail
    pub minted : ℕ

  -- A text as an object id, or the `CastError` of a query by it.
  unfoldable pub cast : String → Action State String
  cast id s = elim (to_object_id id) [ none ↦ throw (cast_error id) s | some k ↦ (ok k, s) ]

  -- `courseModel.findById(id)`, which is a `findOne` and so sees live courses only.
  unfoldable pub find_course : String → Action State (Option Course)
  unfolding cast
  find_course id = do k ← cast id; gets (λ s. find_one (λ c. has_id k c && is_live c) s.courses)

  -- `courseModel.findByIdAndUpdate(id, …)`, to which no hook applies.
  unfoldable pub update_course : String → (Course → Course) → Action State (Unit {0})
  unfolding cast
  update_course id f = do
    k ← cast id
    modify (λ s. record s { courses = update_one (has_id k) f s.courses })

  -- The id that the driver gives to a new document.
  unfoldable pub mint : Action State String
  mint s = (ok (db.object_id s.minted), record s { minted = s.minted + 1 })

  unfoldable pub emit : Event → Action State (Unit {0})
  emit e = modify (λ s. record s { events = s.events ++ e ∷ [] })

  -- The casts of the ids of an `$in` filter: one that fails is the `CastError` of the query.
  unfoldable pub cast_all : List String → Action State (List String)
  unfolding cast
  cast_all [] = pure []
  cast_all (id ∷ ids) = do k ← cast id; ks ← cast_all ids; pure (k ∷ ks)

  -- `courseModel.find({ _id: { $in: ids } })`
  unfoldable pub find_courses : List String → Action State (List Course)
  find_courses ids = do
    ks ← cast_all ids
    gets (λ s. find (λ c. contains ks c.id && is_live c) s.courses)

  -- Neither cast writes anything.
  cast_all_cases :
      (ids : List String) (s : State)
      → ((e : Failure) × (cast_all ids s ≡ (raise e, s)))
        ⊎ ((ks : List String) × (cast_all ids s ≡ (ok ks, s)))
  unfolding cast_all
  cast_all_cases [] s = inr ([], refl)
  cast_all_cases (id ∷ ids) s = elim (Option-cases (to_object_id id)) [
    | inl bad ↦ inl (cast_error id, ground arith)
    | inr (k, e) ↦ elim (cast_all_cases ids s) [
      | inl (x, bad) ↦ inl (x, ground arith)
      | inr (ks, good) ↦ inr (k ∷ ks, ground arith)
    ]
  ]

  pub find_courses_cases :
      (ids : List String) (s : State)
      → ((e : Failure) × (find_courses ids s ≡ (raise e, s)))
        ⊎ ((ks : List String) × (find_courses ids s
              ≡ (ok (find (λ c. contains ks c.id && is_live c) s.courses), s)))
  unfolding find_courses
  find_courses_cases ids s = elim (cast_all_cases ids s) [
    | inl (e, bad) ↦ inl (e, ground (arith))
    | inr (ks, good) ↦ inr (ks, ground arith)
  ]
