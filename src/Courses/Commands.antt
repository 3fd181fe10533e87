-- ===== src/Courses/Commands.antt =====
-- The requests on courses as steps of one state, in the order of src/tutor-course/
-- tutor-course.service.ts and src/admin-course/admin-course.controller.ts.
use chain_verse_backend.Base.{ℕ, String, Bool, Option}
use chain_verse_backend.Mongo.{Mongo}
use chain_verse_backend.Market.{State}
use chain_verse_backend.CourseForms.{CreateCourseDto, UpdateCourseDto, Decision}
use chain_verse_backend.Courses.{
  create, update, submit_for_review, review, publish, unpublish, delete, enroll_student,
}

-- The requests of a tutor and of an administrator, each with its time.
pub data Command : Type 0 where
  create_course : ℕ → CreateCourseDto → (id email name : String) → Command
  update_course : String → UpdateCourseDto → String → Bool → Command
  submit_course : String → String → Command
  review_course : ℕ → String → Decision → Option String → Command
  publish_course : ℕ → String → String → Bool → Command
  unpublish_course : String → String → Bool → Command
  delete_course : ℕ → String → String → Bool → Option String → Command
  enroll_in_course : String → String → Command

module _ (db : Mongo) where
  unfoldable pub serve : Command → State db → State db
  serve (create_course now dto id email name) s = (create db now dto id email name s).1
  serve (update_course id dto tutor is_admin) s = (update db id dto tutor is_admin s).1
  serve (submit_course id tutor) s = (submit_for_review db id tutor s).1
  serve (review_course now id decision reason) s = (review db now id decision reason s).1
  serve (publish_course now id tutor is_admin) s = (publish db now id tutor is_admin s).1
  serve (unpublish_course id tutor is_admin) s = (unpublish db id tutor is_admin s).1
  serve (delete_course now id tutor is_admin reason) s =
      (delete db now id tutor is_admin reason s).1
  serve (enroll_in_course id student) s = (enroll_student db id student s).1
