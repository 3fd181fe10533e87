-- ===== src/Enrollment.antt =====
-- `StudentEnrollmentService` of src/student-enrollment/student-enrollment.service.ts, and
-- `EnrollmentGuard` of src/common/guards/enrollment.guard.ts. The schema of an enrollment has no path
-- for the payment method or the transaction hash that `checkoutCart` passes, so they are not stored.
pub mod Free
pub mod Rounds
pub mod Access
pub mod Miscount
pub mod Totals
pub mod Ledger
pub mod Runs
use chain_verse_backend.Base.{
  ℕ, ◌+◌, ◌-◌, String, Bool, true, false, not, ◌&&◌, Option, none, some, List, [], ◌∷◌, ◌===◌, map,
  first, if◌then◌else◌, select, ltb, leb, is_some, is_empty,
}
use chain_verse_backend.Http.{
  Action, Result, ok, raise, throw, throw_if, or_throw, gets, modify, pure, ◌>>=◌, ◌>>◌,
  bad_request, not_found, conflict, not_implemented, forbidden, duplicate_key,
}
use chain_verse_backend.Mongo.{Mongo}
use chain_verse_backend.Market.{
  is_published, Course, CartItem, Enrollment, student_enrolled, has_id, is_of, State, cast,
  find_course, find_courses, update_course, mint, emit,
}

-- What `checkoutCart` asks of its surroundings: `process.env.PLATFORM_STELLAR_ADDRESS`, and
-- `stellarService.verifyPayment` for a hash, an amount and a destination.
pub record Payments : Type 0 where
  pub platform_address : Option String
  pub verify : String → ℕ → String → Result Bool

pub record Receipt : Type 0 where
  pub enrolled : List String
  pub failed : List String
  pub total_amount : ℕ

-- How one item of the cart fares.
pub data Outcome : Type 0 where
  enrolled : ℕ → Outcome
  failed skipped : Outcome

abbrev pub is_enrollment : String → String → Enrollment → Bool
is_enrollment st co e = e.student_id === st && e.course_id === co

abbrev pub raise_enrollments : Course → Course
raise_enrollments c = record c { total_enrollments = c.total_enrollments + 1 }

abbrev pub any_priced : List Course → Bool
any_priced [] = false
any_priced (c ∷ cs) = if ltb 0 c.price then true else any_priced cs

abbrev pub note : CartItem → Outcome → Receipt → Receipt
note i (Outcome.enrolled p) r = record r {
  enrolled = i.course_id ∷ r.enrolled;
  total_amount = p + r.total_amount;
}
note i Outcome.failed r = record r { failed = i.course_id ∷ r.failed }
note i Outcome.skipped r = r

-- `try { m } catch { … }`: what `m` has written stays.
abbrev pub attempt : {S A : Type 0} → Action S A → A → Action S A
attempt m a s = let (r, s') = m s in elim r [ ok b ↦ (ok b, s') | raise _ ↦ (ok a, s') ]

-- Keys of a `Map`: texts are compared by value, and an object is no text.
pub data Key : Type 0 where
  text object : String → Key

abbrev pub same_key : Key → Key → Bool
same_key (Key.text a) (Key.text b) = a === b
same_key _ _ = false

abbrev pub map_get {ℓ} : {V : Type ℓ} → Key → List (Key × V) → Option V
map_get k [] = none
map_get k ((j, v) ∷ m) = if same_key j k then some v else map_get k m

-- `Map` of the courses by `c.id`, a text.
abbrev pub course_map : List Course → List (Key × Course)
course_map [] = []
course_map (c ∷ cs) = (Key.text c.id, c) ∷ course_map cs

-- An enrollment holds `courseId` as an `ObjectId` object, by its schema.
unfoldable pub join_courses : List (Key × Course) → List Enrollment → List (Enrollment × Course)
join_courses m [] = []
join_courses m (e ∷ es) = elim (map_get (Key.object e.course_id) m) [
  | none ↦ join_courses m es
  | some c ↦ (e, c) ∷ join_courses m es
]

module _ (db : Mongo) where
  open db use {find, find_one, count, insert, delete_one, to_object_id}

  -- `enrollmentModel.findOne({ studentId, courseId })`; both paths hold object ids.
  unfoldable pub find_enrollment : String → String → Action (State db) (Option Enrollment)
  unfolding cast
  find_enrollment student_id course_id = do
    st ← cast db student_id
    co ← cast db course_id
    gets (λ s. find_one (is_enrollment st co) s.enrollments)

  -- `new enrollmentModel({ … }).save()`, with its unique index.
  unfoldable pub save_enrollment : ℕ → String → String → ℕ → Action (State db) Enrollment
  unfolding mint cast
  save_enrollment now student_id course_id price = do
    id ← mint db
    st ← cast db student_id
    co ← cast db course_id
    let entry : Enrollment = record {
      id = id;
      student_id = st;
      course_id = co;
      is_paid = ltb 0 price;
      amount_paid = price;
      status = "completed";
      created_at = now;
    }
    clash ← gets (λ s. find_one (is_enrollment st co) s.enrollments)
    throw_if (is_some clash) duplicate_key
    modify (λ s. record s { enrollments = insert entry s.enrollments })
    pure entry

  unfoldable pub enroll_free : ℕ → String → String → Action (State db) Enrollment
  unfolding find_course find_enrollment save_enrollment update_course emit
  enroll_free now student_id course_id = do
    course ← or_throw (← find_course db course_id) (not_found "Course not found")
    throw_if (not (is_published course.status))
        (bad_request "Course is not available for enrollment")
    throw_if (ltb 0 course.price) (bad_request "This course is not free. Please use checkout.")
    existing ← find_enrollment student_id course_id
    throw_if (is_some existing) (conflict "Already enrolled in this course")
    saved ← save_enrollment now student_id course_id 0
    update_course db course_id raise_enrollments
    emit db (student_enrolled student_id course_id course.tutor_id course.tutor_email none)
    pure saved

  -- `cartItemModel.findByIdAndDelete(item._id)`
  unfoldable pub discard : CartItem → Action (State db) (Unit {0})
  discard item =
      modify (λ s. record s { cart_items = delete_one (λ i. i.id === item.id) s.cart_items })

  -- The payment of a course that is not free.
  unfoldable pub check_payment : Payments → Option String → Course → Action (State db) (Unit {0})
  check_payment pay hash course s =
      if ltb 0 course.price
      then elim hash [
        | none ↦ (raise (bad_request "Transaction hash is required for paid course enrollment."), s)
        | some h ↦ elim pay.platform_address [
          | none ↦ (raise (bad_request "Platform Stellar address is not configured."), s)
          | some address ↦ elim (pay.verify h course.price address) [
            | raise e ↦ (raise e, s)
            | ok verified ↦ throw_if (not verified) (bad_request "Payment not confirmed on-chain") s
          ]
        ]
      ]
      else (ok tt, s)

  -- The rounds of the loop of `checkoutCart` on an item whose course is found and published.
  unfoldable pub checkout_course :
      Payments → ℕ → String → Option String → CartItem → Course → Action (State db) Outcome
  unfolding find_enrollment discard check_payment save_enrollment update_course emit
  checkout_course pay now student_id hash item course = do
    existing ← find_enrollment student_id item.course_id
    if is_some existing then (do discard item; pure Outcome.skipped) else (do
      check_payment pay hash course
      save_enrollment now student_id item.course_id course.price
      update_course db item.course_id raise_enrollments
      discard item
      emit db (
          student_enrolled student_id item.course_id course.tutor_id course.tutor_email
            (some course.price))
      pure (Outcome.enrolled course.price))

  unfoldable pub checkout_item :
      Payments → ℕ → String → Option String → List Course → CartItem → Action (State db) Outcome
  unfolding discard checkout_course
  checkout_item pay now student_id hash courses item =
      if not (is_some (to_object_id item.course_id))
      then pure Outcome.failed
      else elim (first (has_id item.course_id) courses) [
        | none ↦ pure Outcome.failed
        | some course ↦
            if not (is_published course.status)
            then (do discard item; pure Outcome.failed)
            else checkout_course pay now student_id hash item course
      ]

  unfoldable pub checkout_items :
      Payments
      → ℕ
      → String
      → Option String
      → List Course
      → List CartItem
      → Action (State db) Receipt
  checkout_items pay now student_id hash courses [] =
      pure (record { enrolled = []; failed = []; total_amount = 0 })
  checkout_items pay now student_id hash courses (item ∷ items) = do
    outcome ← attempt (checkout_item pay now student_id hash courses item) Outcome.failed
    rest ← checkout_items pay now student_id hash courses items
    pure (note item outcome rest)

  unfoldable pub checkout_cart : Payments → ℕ → String → Option String → Action (State db) Receipt
  checkout_cart pay now student_id hash = do
    items ← gets (λ s. find (is_of student_id) s.cart_items)
    throw_if (is_empty items) (bad_request "Cart is empty")
    let castable : List CartItem = select (λ i. is_some (to_object_id i.course_id)) items
    courses ← find_courses db (map (λ (i : CartItem). i.course_id) castable)
    throw_if (any_priced courses) (
        not_implemented
          "Paid course checkout requires a Stellar transaction hash. See API docs for the payment flow.")
    checkout_items pay now student_id hash courses items

  unfoldable pub get_my_courses : String → Action (State db) (List (Enrollment × Course))
  unfolding cast
  get_my_courses student_id = do
    st ← cast db student_id
    enrollments ← gets (λ s. find (λ e. e.student_id === st) s.enrollments)
    if is_empty enrollments then pure [] else (do
      courses ← find_courses db (map (λ (e : Enrollment). e.course_id) enrollments)
      pure (join_courses (course_map courses) enrollments))

  unfoldable pub is_enrolled : String → String → Action (State db) Bool
  unfolding find_enrollment
  is_enrolled student_id course_id = do
    enrollment ← find_enrollment student_id course_id
    pure (is_some enrollment)

  -- The enrollments in all, and those of the last thirty days.
  unfoldable pub get_enrollment_stats : ℕ → String → Action (State db) (ℕ × ℕ)
  unfolding find_course cast
  get_enrollment_stats now course_id = do
    course ← or_throw (← find_course db course_id) (not_found "Course not found")
    co ← cast db course_id
    recent ←
        gets (λ s.
          count (λ e. e.course_id === co && leb now (e.created_at + 2592000000)) s.enrollments)
    pure (course.total_enrollments, recent)

  unfoldable pub get_student_enrollment_count : String → Action (State db) ℕ
  unfolding cast
  get_student_enrollment_count student_id = do
    st ← cast db student_id
    gets (λ s. count (λ e. e.student_id === st) s.enrollments)

  -- The guard: a route parameter is required, and an enrollment in that course.
  unfoldable pub can_activate : String → String → Action (State db) Bool
  unfolding is_enrolled
  can_activate user_id course_id = do
    throw_if (course_id === "") (forbidden "courseId route parameter is required")
    found ← is_enrolled user_id course_id
    throw_if (not found) (forbidden "Not enrolled in this course")
    pure true
