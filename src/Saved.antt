-- ===== src/Saved.antt =====
-- `StudentSavedCoursesService` of src/student-saved-courses/student-saved-courses.service.ts.
pub mod Counts
pub mod Runs
use chain_verse_backend.Base.{
  ℕ, ◌+◌, String, Bool, true, false, not, ◌&&◌, Option, none, some, List, [], ◌∷◌, ◌===◌, map,
  is_some, is_blank,
}
use chain_verse_backend.Base.Int.{pos, ◌+ℤ◌, ◌-ℤ◌}
use chain_verse_backend.Http.{
  Action, ok, raise, throw_if, or_throw, gets, modify, pure, ◌>>=◌, ◌>>◌, bad_request, not_found,
  conflict, duplicate_key,
}
use chain_verse_backend.Mongo.{Mongo}
use chain_verse_backend.Market.{
  Course, SavedCourse, Event, course_saved, State, find_course, update_course, mint, emit,
}

-- What the list shows of a course.
pub record SavedCard : Type 0 where
  pub id : String
  pub title : String
  pub description : String
  pub price : ℕ
  pub thumbnail_url : Option String
  pub tutor_name : String
  pub average_rating : ℕ
  pub total_reviews : ℕ
  pub level : String

abbrev pub saved_card : Course → SavedCard
saved_card c = record {
  id = c.id;
  title = c.title;
  description = c.description;
  price = c.price;
  thumbnail_url = c.thumbnail_url;
  tutor_name = c.tutor_name;
  average_rating = c.average_rating;
  total_reviews = c.total_reviews;
  level = c.level;
}

abbrev pub is_saved : String → String → SavedCourse → Bool
is_saved st co x = x.student_id === st && x.course_id === co

abbrev pub is_saved_by : String → SavedCourse → Bool
is_saved_by st x = x.student_id === st

abbrev pub raise_wishlists : Course → Course
raise_wishlists c = record c { total_wishlists = c.total_wishlists +ℤ pos 1 }

abbrev pub lower_wishlists : Course → Course
lower_wishlists c = record c { total_wishlists = c.total_wishlists -ℤ pos 1 }

abbrev pub course_ids : List SavedCourse → List String
course_ids l = map (λ (x : SavedCourse). x.course_id) l

module _ (db : Mongo) where
  open db use {find, find_one, count, insert, delete_one}

  -- `new this.savedCourseModel({ studentId, courseId }).save()`, with its unique index.
  unfoldable pub save_saved : String → String → Action (State db) SavedCourse
  unfolding mint
  save_saved st co = do
    id ← mint db
    let entry : SavedCourse = record { id = id; student_id = st; course_id = co }
    clash ← gets (λ s. find_one (is_saved st co) s.saved)
    throw_if (is_some clash) duplicate_key
    modify (λ s. record s { saved = insert entry s.saved })
    pure entry

  unfoldable pub save_for : String → String → Action (State db) (String × List String)
  unfolding find_course update_course save_saved emit
  save_for student_id course_id = do
    throw_if (is_blank course_id) (bad_request "Invalid course ID")
    course ← or_throw (← find_course db course_id) (not_found "Course not found")
    existing ← gets (λ s. find_one (is_saved student_id course_id) s.saved)
    throw_if (is_some existing) (conflict "Course is already saved")
    save_saved student_id course_id
    update_course db course_id raise_wishlists
    emit db (course_saved student_id course_id)
    saved ← gets (λ s. find (is_saved_by student_id) s.saved)
    pure (student_id, course_ids saved)

  -- The courses of the list, one after another: of those that fail, the first failure is thrown.
  unfoldable pub saved_cards : List SavedCourse → Action (State db) (List (String × SavedCard))
  unfolding find_course
  saved_cards [] = pure []
  saved_cards (x ∷ xs) = do
    course ← find_course db x.course_id
    rest ← saved_cards xs
    pure (elim course [ none ↦ rest | some c ↦ (x.course_id, saved_card c) ∷ rest ])

  unfoldable pub list_saved : String → Action (State db) (String × List (String × SavedCard))
  unfolding saved_cards
  list_saved student_id = do
    throw_if (is_blank student_id) (bad_request "Invalid student ID")
    saved ← gets (λ s. find (is_saved_by student_id) s.saved)
    cards ← saved_cards saved
    pure (student_id, cards)

  unfoldable pub unsave : String → String → Action (State db) (String × String × List String)
  unfolding find_course update_course
  unsave student_id course_id = do
    course ← or_throw (← find_course db course_id) (not_found "Course not found")
    entry ← gets (λ s. find_one (is_saved student_id course_id) s.saved)
    found ← or_throw entry (not_found "Saved course not found")
    modify (λ s. record s { saved = delete_one (is_saved student_id course_id) s.saved })
    update_course db course_id lower_wishlists
    remaining ← gets (λ s. find (is_saved_by student_id) s.saved)
    pure (student_id, course_id, course_ids remaining)

  unfoldable pub count_saved : String → Action (State db) ℕ
  count_saved student_id = gets (λ s. count (is_saved_by student_id) s.saved)
