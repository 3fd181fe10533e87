-- ===== src/Ratings/Runs.antt =====
-- The requests of src/course-ratings-feedback/course-ratings-feedback.controller.ts that write, one
-- after another.
use chain_verse_backend.Base.{◌≡◌, String, some, List, [], ◌∷◌, All}
use chain_verse_backend.Mongo.{Mongo}
use chain_verse_backend.Market.{State}
use chain_verse_backend.Ratings.{
  Rounding, CreateRating, UpdateRating, rate, update_rating, remove_rating,
}
use chain_verse_backend.Ratings.Stats.{
  IsRated, rate-IsRated, update_rating-IsRated, remove_rating-IsRated,
}

-- A request, with the ids of its course and of its student.
pub data RatingRequest : Type 0 where
  rate_course : (course student : String) → CreateRating → RatingRequest
  rate_again : (course student : String) → UpdateRating → RatingRequest
  take_back : (course student : String) → RatingRequest

abbrev pub rated_course : RatingRequest → String
rated_course (rate_course co st d) = co
rated_course (rate_again co st d) = co
rated_course (take_back co st) = co

module _ (rnd : Rounding) (db : Mongo) where
  -- The state after a request, whatever its answer.
  unfoldable pub serve_rating : RatingRequest → State db → State db
  serve_rating (rate_course co st d) s = (rate rnd db co st d s).1
  serve_rating (rate_again co st d) s = (update_rating rnd db co st d s).1
  serve_rating (take_back co st) s = (remove_rating rnd db co st s).1

  unfoldable pub serve_ratings : List RatingRequest → State db → State db
  serve_ratings [] s = s
  serve_ratings (r ∷ rs) s = serve_ratings rs (serve_rating r s)

  -- The request names its course by an id as the database writes it.
  abbrev pub HasCastId : RatingRequest → Type 0
  HasCastId r = db.to_object_id (rated_course r) ≡ some (rated_course r)

  serve_rating-IsRated :
      (r : RatingRequest) (s : State db)
      → HasCastId r
      → IsRated rnd db s
      → IsRated rnd db (serve_rating r s)
  unfolding serve_rating
  serve_rating-IsRated (rate_course co st d) s e h = rate-IsRated rnd db co st d s e h
  serve_rating-IsRated (rate_again co st d) s e h = update_rating-IsRated rnd db co st d s e h
  serve_rating-IsRated (take_back co st) s e h = remove_rating-IsRated rnd db co st s e h

  -- Where all ratings are from 1 to 5 and each course shows the number of its ratings and
  -- their rounded average, any requests to rate a course, to change a rating or to take it
  -- back, each with a course id in its cast form and whatever its answer, keep both so.
  pub serve_ratings-IsRated :
      (rs : List RatingRequest) (s : State db)
      → All HasCastId rs
      → IsRated rnd db s
      → IsRated rnd db (serve_ratings rs s)
  unfolding serve_ratings
  serve_ratings-IsRated [] s e h = h
  serve_ratings-IsRated (r ∷ rs) s e h =
      serve_ratings-IsRated rs (serve_rating r s) e.1 (serve_rating-IsRated r s e.0 h)
