-- ===== src/Courses.antt =====
-- `AdminCourseService` of src/admin-course/admin-course.service.ts: the life of a course from draft to
-- publication. `findAll` is not here.
pub mod Edits
pub mod Commands
pub mod Moves
pub mod Lookup
pub mod Lifecycle
pub mod Approval
pub mod Owners
use Prim.Native.String.{◌++◌ as text_append}
use mathlib.Core.Option.{get_or}
use chain_verse_backend.Base.{
  ℕ, ◌+◌, String, Bool, true, false, not, ◌&&◌, ◌||◌, Option, none, some, List, [], ◌∷◌, ◌++◌,
  ◌===◌, ltb, if◌then◌else◌, utf16_length, is_blank, is_some, is_empty, or_default,
}
use chain_verse_backend.Base.Int.{ℤ, pos, negsuc, ◌+ℤ◌}
use chain_verse_backend.Http.{
  Failure, Action, ok, raise, throw, throw_if, or_throw, gets, modify, pure, ◌>>=◌, ◌>>◌,
  bad_request, not_found, forbidden, plain_error,
}
use chain_verse_backend.Mongo.{Mongo}
use chain_verse_backend.Market.{
  Status, is_published, Section, Course, Tutor, Mail, Event, is_live, contains, has_id, State,
  find_course, update_course, mint, emit, course_created, course_submitted, course_reviewed,
  course_published, course_unpublished, course_deleted, admin_enrolled,
}
use chain_verse_backend.CourseForms.{
  CourseStats, put_stats, CreateCourseDto, UpdateCourseDto, Decision, status_of, is_pending,
  is_submittable, is_publishable, open_fields, has_closed_field, or_else, new_course,
  lacks_required, assign, set_status, missing, published_at_time, approved_now, rejected_for,
  apply_decision, letter, deleted_now, deleter, is_guarded, revise, count_student, approve, reject,
}

module _ (db : Mongo) where
  open db use {find, insert, update_one, to_object_id}

  -- `course.save()` of a loaded course: the paths that were set.
  unfoldable pub save_course : Course → (Course → Course) → Action (State db) Course
  save_course c f = do
    modify (λ s. record s { courses = update_one (has_id c.id) f s.courses })
    pure (f c)

  unfoldable pub find_one : String → Action (State db) Course
  unfolding find_course
  find_one id = do or_throw (← find_course db id) (missing id)

  unfoldable pub find_by_tutor : String → Action (State db) (List Course)
  find_by_tutor tutor_id = gets (λ s. find (λ c. c.tutor_id === tutor_id && is_live c) s.courses)

  -- `updateTutorStats`: `$inc` of the counters whose change is not 0.
  unfoldable pub update_tutor_stats : String → ℤ → ℤ → Action (State db) (Unit {0})
  unfolding ◌+ℤ◌
  update_tutor_stats tutor_id course_delta student_delta s = elim (to_object_id tutor_id) [
    | none ↦ throw (plain_error "BSONError") s
    | some k ↦
        modify
          (λ (t : State db). record t {
            tutors =
                update_one (λ x. x.id === k)
                  (λ x. record x {
                    total_courses = x.total_courses +ℤ course_delta;
                    total_students = x.total_students +ℤ student_delta;
                  })
                  t.tutors;
          })
          s
  ]

  unfoldable pub create : ℕ → CreateCourseDto → String → String → String → Action (State db) Course
  unfolding mint update_tutor_stats emit
  create now dto tutor_id tutor_email tutor_name = do
    id ← mint db
    let course : Course = new_course now id dto tutor_id tutor_email tutor_name
    modify (λ s. record s { courses = insert course s.courses })
    update_tutor_stats tutor_id (pos 1) (pos 0)
    emit db (course_created id tutor_id tutor_email dto.title)
    pure course

  -- The owner, or an administrator; a published course is open to few changes of its owner, and a
  -- new curriculum sends it back to review.
  unfoldable pub update : String → UpdateCourseDto → String → Bool → Action (State db) Course
  unfolding save_course
  update id dto tutor_id is_admin = do
    course ← find_one id
    throw_if (not is_admin && not (course.tutor_id === tutor_id))
        (forbidden "You can only update your own courses")
    throw_if (is_guarded is_admin course && has_closed_field dto.keys) (
        bad_request
          "Published courses can only update description, curriculum, and images. Unpublish to make other changes.")
    throw_if (lacks_required dto) (plain_error "Course validation failed")
    save_course course (revise dto is_admin course)

  unfoldable pub submit_for_review : String → String → Action (State db) Course
  unfolding save_course emit
  submit_for_review id tutor_id = do
    course ← find_one id
    throw_if (not (course.tutor_id === tutor_id))
        (forbidden "You can only submit your own courses for review")
    throw_if (not (is_submittable course.status))
        (bad_request "Only draft or rejected courses can be submitted for review")
    throw_if (is_blank course.description || ltb (utf16_length course.description) 50)
        (bad_request "Course description must be at least 50 characters")
    throw_if (is_empty course.curriculum)
        (bad_request "Course must have at least one curriculum item")
    saved ← save_course course (set_status Status.pending)
    emit db (course_submitted course.id tutor_id course.tutor_email course.title)
    pure saved

  unfoldable pub review : ℕ → String → Decision → Option String → Action (State db) Course
  unfolding save_course emit
  review now id decision reason = do
    course ← find_one id
    throw_if (not (is_pending course.status)) (bad_request "Only pending courses can be reviewed")
    modify (λ s. record s { mails = s.mails ++ letter decision reason course ∷ [] })
    saved ← save_course course (apply_decision now decision reason)
    emit db (course_reviewed course.id course.tutor_id course.tutor_email (status_of decision))
    pure saved

  unfoldable pub publish : ℕ → String → String → Bool → Action (State db) Course
  unfolding save_course emit
  publish now id tutor_id is_admin = do
    course ← find_one id
    throw_if (not is_admin && not (course.tutor_id === tutor_id))
        (forbidden "You can only publish your own courses")
    throw_if (not (is_publishable course.status))
        (bad_request "Only approved or unpublished courses can be published")
    saved ← save_course course (published_at_time now)
    emit db (course_published course.id course.tutor_id course.tutor_email course.title)
    pure saved

  unfoldable pub unpublish : String → String → Bool → Action (State db) Course
  unfolding save_course emit
  unpublish id tutor_id is_admin = do
    course ← find_one id
    throw_if (not is_admin && not (course.tutor_id === tutor_id))
        (forbidden "You can only unpublish your own courses")
    throw_if (not (is_published course.status))
        (bad_request "Only published courses can be unpublished")
    saved ← save_course course (set_status Status.unpublished)
    emit db (course_unpublished course.id course.tutor_id course.tutor_email course.title)
    pure saved

  unfoldable pub delete : ℕ → String → String → Bool → Option String → Action (State db) (Unit {0})
  unfolding save_course update_tutor_stats emit
  delete now id tutor_id is_admin reason = do
    course ← find_one id
    throw_if (not is_admin && not (course.tutor_id === tutor_id))
        (forbidden "You can only delete your own courses")
    throw_if (ltb 0 course.total_enrollments && not is_admin)
        (bad_request "Cannot delete course with enrolled students. Contact admin to delete.")
    let why : String = or_default reason "User requested deletion"
    save_course course (deleted_now now (deleter is_admin tutor_id) why)
    update_tutor_stats course.tutor_id (negsuc 0) (pos 0)
    emit db (course_deleted course.id course.tutor_id why)

  unfoldable pub get_enrollments : String → Action (State db) (String × String × ℕ)
  unfolding find_one
  get_enrollments id = do course ← find_one id; pure (id, course.title, course.total_enrollments)

  unfoldable pub increment_view_count : String → Action (State db) (Unit {0})
  unfolding update_course
  increment_view_count id = update_course db id (λ c. record c { view_count = c.view_count + 1 })

  unfoldable pub enroll_student : String → String → Action (State db) (Unit {0})
  unfolding save_course update_tutor_stats emit
  enroll_student course_id student_id = do
    course ← find_one course_id
    save_course course (count_student course)
    update_tutor_stats course.tutor_id (pos 0) (pos 1)
    emit db (admin_enrolled course_id student_id course.tutor_id)

  unfoldable pub update_course_stats : String → CourseStats → Action (State db) (Unit {0})
  unfolding update_course
  update_course_stats course_id updates = update_course db course_id (put_stats updates)

  -- `findOne` and `getEnrollments` of the tutor's facade, which ask for the owner.
  unfoldable pub find_owned : String → String → Action (State db) Course
  unfolding find_one
  find_owned id tutor_id = do
    course ← find_one id
    throw_if (not (course.tutor_id === tutor_id)) (forbidden "You do not own this course")
    pure course

  unfoldable pub get_owned_enrollments : String → String → Action (State db) (String × String × ℕ)
  unfolding find_owned get_enrollments
  get_owned_enrollments id tutor_id = do find_owned id tutor_id; get_enrollments id
