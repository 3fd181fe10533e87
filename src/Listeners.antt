-- ===== src/Listeners.antt =====
-- `PointsListener` and `NotificationListener` of src/events/listeners: what the events of the course
-- services bring a student. Three of the events have the name `student.enrolled`.
pub mod Awards
use Prim.Native.String.{◌++◌ as text_append}
use chain_verse_backend.Base.{ℕ, ◌+◌, String, Option, none, some, List, [], ◌∷◌, ◌===◌}
use chain_verse_backend.Base.Int.{pos}
use chain_verse_backend.Http.{ok, raise}
use chain_verse_backend.Mongo.{Mongo}
use chain_verse_backend.Market.{Event, student_enrolled, course_saved, admin_enrolled}
use chain_verse_backend.Aid.{AidApproved}
use chain_verse_backend.Points.{CreatePoints, Book, award_points}
use chain_verse_backend.Notifications.{CreateNotification, Inbox, create_note}

-- The payload of `student.enrolled`: the student and the course.
abbrev pub enrollee : Event → Option (String × String)
enrollee (student_enrolled student course tutor email price) = some (student, course)
enrollee (course_saved student course) = some (student, course)
enrollee (admin_enrolled course student tutor) = some (student, course)
enrollee _ = none

abbrev pub enrollment_points : String → String → CreatePoints
enrollment_points student course = record {
  user_id = student;
  points = pos 10;
  reason = text_append "Enrolled in course " course;
  activity_type = "course_enrollment";
  metadata = ("courseId", course) ∷ [];
}

abbrev pub certificate_points : String → String → String → CreatePoints
certificate_points student certificate title = record {
  user_id = student;
  points = pos 100;
  reason = text_append "Completed course: " title;
  activity_type = "certificate_earned";
  metadata = ("certificateId", certificate) ∷ [];
}

abbrev pub enrollment_note : String → String → CreateNotification
enrollment_note student course = record {
  user_id = student;
  title = "Enrollment Confirmed";
  message = text_append "You have successfully enrolled in course " (text_append course ".");
  kind = some "enrollment";
  metadata = ("courseId", course) ∷ [];
}

abbrev pub aid_note : AidApproved → CreateNotification
aid_note e = record {
  user_id = e.student_id;
  title = "Financial Aid Approved";
  message =
      text_append "Your financial aid application for course "
        (text_append e.course_id " has been approved.");
  kind = some "financial_aid";
  metadata = ("applicationId", e.application_id) ∷ ("courseId", e.course_id) ∷ [];
}

abbrev pub certificate_note : String → String → String → CreateNotification
certificate_note student certificate title = record {
  user_id = student;
  title = "Certificate Issued";
  message =
      text_append "Congratulations! Your certificate for \""
        (text_append title "\" has been issued.");
  kind = some "certificate";
  metadata = ("certificateId", certificate) ∷ [];
}

module _ (db : Mongo) where
  -- What the listeners write to.
  pub record Desk : Type 0 where
    pub book : Book db
    pub inbox : Inbox db

  unfoldable pub on_student_enrolled : String → String → Desk → Desk
  unfolding award_points create_note
  on_student_enrolled student course d = record {
    book = (award_points db (enrollment_points student course) d.book).1;
    inbox = (create_note db (enrollment_note student course) d.inbox).1;
  }

  unfoldable pub on_certificate_issued : String → String → String → Desk → Desk
  unfolding award_points create_note
  on_certificate_issued student certificate title d = record {
    book = (award_points db (certificate_points student certificate title) d.book).1;
    inbox = (create_note db (certificate_note student certificate title) d.inbox).1;
  }

  unfoldable pub on_financial_aid_approved : AidApproved → Desk → Desk
  unfolding create_note
  on_financial_aid_approved e d = record d { inbox = (create_note db (aid_note e) d.inbox).1 }

  -- The events of the course services, in the order in which they were emitted.
  unfoldable pub deliver : List Event → Desk → Desk
  unfolding on_student_enrolled
  deliver [] d = d
  deliver (e ∷ es) d = deliver es (elim (enrollee e) [
    | none ↦ d
    | some (student, course) ↦ on_student_enrolled student course d
  ])
