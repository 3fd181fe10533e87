-- ===== src/Ratings.antt =====
-- `CourseRatingsFeedbackService` of src/course-ratings-feedback/course-ratings-feedback.service.ts.
-- Ratings are whole numbers, and averages count hundredths.
pub mod Means
pub mod Changes
pub mod Stats
pub mod Runs
use mathlib.Core.Option.{get_or}
use chain_verse_backend.Base.{
  ℕ, ◌+◌, ◌*◌, ◌≤◌, ◌<◌, String, Bool, true, false, not, ◌&&◌, ◌||◌, Option, none, some, List, [],
  ◌∷◌, ◌===◌, ◌==◌, ltb, is_some, is_empty, length, if◌then◌else◌,
}
use chain_verse_backend.Http.{
  Action, ok, raise, throw_if, or_throw, gets, modify, pure, ◌>>=◌, ◌>>◌, bad_request, not_found,
  conflict, duplicate_key,
}
use chain_verse_backend.Mongo.{Mongo}
use chain_verse_backend.Market.{Course, CourseRating, State, find_course, update_course, mint}
use chain_verse_backend.Enrollment.{find_enrollment}
use chain_verse_backend.CourseForms.{or_else}

-- `Math.round((sum / count) * 100)`, in floating point: a nearest whole number, for a count that
-- is not 0. Of two that are equally near, it may be either.
pub record Rounding : Type 0 where
  pub mean : ℕ → ℕ → ℕ
  pub mean_low : (sum n : ℕ) → 0 < n → 200 * sum ≤ (2 * mean sum n + 1) * n
  pub mean_high : (sum n : ℕ) → 0 < n → 2 * mean sum n * n ≤ 200 * sum + n

-- `CreateCourseRatingsFeedbackDto` and `UpdateCourseRatingsFeedbackDto`
pub record CreateRating : Type 0 where
  pub rating : ℕ
  pub feedback : Option String

pub record UpdateRating : Type 0 where
  pub rating : Option ℕ
  pub feedback : Option String

pub record RatingSummary : Type 0 where
  pub ratings : List CourseRating
  pub average_rating : ℕ
  pub total_ratings : ℕ

abbrev pub is_rating : String → String → CourseRating → Bool
is_rating co st r = r.course_id === co && r.student_id === st

abbrev pub is_rating_of : String → CourseRating → Bool
is_rating_of co r = r.course_id === co

abbrev pub out_of_range : ℕ → Bool
out_of_range n = ltb n 1 || ltb 5 n

abbrev pub sum_ratings : List CourseRating → ℕ
sum_ratings [] = 0
sum_ratings (r ∷ l) = r.rating + sum_ratings l

abbrev pub put_rating : UpdateRating → CourseRating → CourseRating
put_rating d r = record r {
  rating = get_or d.rating r.rating;
  feedback = or_else d.feedback r.feedback;
}

module _ (rnd : Rounding) where
  abbrev pub average : List CourseRating → ℕ
  average l = if ltb 0 (length l) then rnd.mean (sum_ratings l) (length l) else 0

  abbrev pub put_averages : List CourseRating → Course → Course
  put_averages l c = record c { total_reviews = length l; average_rating = average l }

  module _ (db : Mongo) where
    open db use {find, find_one, insert, update_one, delete_one}

    -- `updateCourseStats`
    unfoldable pub refresh_stats : String → Action (State db) (Unit {0})
    unfolding update_course
    refresh_stats course_id = do
      ratings ← gets (λ s. find (is_rating_of course_id) s.ratings)
      update_course db course_id (put_averages ratings)

    -- `new this.ratingModel({ … }).save()`, with its unique index.
    unfoldable pub save_rating : String → String → CreateRating → Action (State db) CourseRating
    unfolding mint
    save_rating co st payload = do
      id ← mint db
      let entry : CourseRating = record {
        id = id;
        course_id = co;
        student_id = st;
        rating = payload.rating;
        feedback = payload.feedback;
      }
      clash ← gets (λ s. find_one (is_rating co st) s.ratings)
      throw_if (is_some clash) duplicate_key
      modify (λ s. record s { ratings = insert entry s.ratings })
      pure entry

    unfoldable pub rate : String → String → CreateRating → Action (State db) CourseRating
    unfolding find_course find_enrollment save_rating refresh_stats
    rate course_id student_id payload = do
      throw_if (out_of_range payload.rating) (bad_request "Rating must be between 1 and 5")
      course ← or_throw (← find_course db course_id) (not_found "Course not found")
      enrollment ←
          or_throw (← find_enrollment db student_id course_id)
            (bad_request "You can only rate courses you are enrolled in")
      existing ← gets (λ s. find_one (is_rating course_id student_id) s.ratings)
      throw_if (is_some existing)
          (conflict "You have already rated this course. Use PUT to update your rating.")
      entry ← save_rating course_id student_id payload
      refresh_stats course_id
      pure entry

    unfoldable pub find_all_for_course : String → Action (State db) RatingSummary
    unfolding find_course
    find_all_for_course course_id = do
      course ← or_throw (← find_course db course_id) (not_found "Course not found")
      ratings ← gets (λ s. find (is_rating_of course_id) s.ratings)
      pure (record {
        ratings = ratings;
        average_rating = average ratings;
        total_ratings = length ratings;
      })

    unfoldable pub find_rating : String → String → Action (State db) CourseRating
    find_rating student_id course_id = do
      entry ← gets (λ s. find_one (is_rating course_id student_id) s.ratings)
      or_throw entry (not_found "Rating not found for this course")

    unfoldable pub update_rating : String → String → UpdateRating → Action (State db) CourseRating
    unfolding find_course refresh_stats
    update_rating course_id student_id payload = do
      throw_if (elim payload.rating [ none ↦ false | some n ↦ out_of_range n ])
          (bad_request "Rating must be between 1 and 5")
      course ← or_throw (← find_course db course_id) (not_found "Course not found")
      entry ← gets (λ s. find_one (is_rating course_id student_id) s.ratings)
      found ← or_throw entry (not_found "Rating not found for this course")
      modify (λ s. record s {
        ratings = update_one (is_rating course_id student_id) (put_rating payload) s.ratings;
      })
      refresh_stats course_id
      pure (put_rating payload found)

    unfoldable pub remove_rating : String → String → Action (State db) (String × String)
    unfolding refresh_stats
    remove_rating course_id student_id = do
      entry ← gets (λ s. find_one (is_rating course_id student_id) s.ratings)
      found ← or_throw entry (not_found "Rating not found for this course")
      modify (λ s. record s { ratings = delete_one (is_rating course_id student_id) s.ratings })
      refresh_stats course_id
      pure (course_id, student_id)
