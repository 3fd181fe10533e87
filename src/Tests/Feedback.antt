-- ===== src/Tests/Feedback.antt =====
-- Saved courses, ratings and notifications on the small shop.
use chain_verse_backend.Base.{
  ℕ, ◌+◌, ◌*◌, ◌/◌, ◌≤◌, ◌<◌, ◌≡◌, ◌⊎◌, String, refl, none, some, false, List, [], ◌∷◌, ◌++◌, arith,
  Bool, ◌&&◌, ◌-◌, length, eq_iff, tally, first,
}
use chain_verse_backend.Base.Int.{pos, ◌+ℤ◌}
use chain_verse_backend.Http.{ok}
use chain_verse_backend.Mongo.Memory.{memory}
use chain_verse_backend.Market.{State, Course, CourseRating, has_id, course_saved}
use chain_verse_backend.Saved.{save_for}
use chain_verse_backend.Saved.Counts.{IsWished}
use chain_verse_backend.Saved.Runs.{
  SavedRequest, save_course, unsave_course, see_saved, serve_all_saved, serve_all_saved-IsWished,
}
use chain_verse_backend.Ratings.Runs.{
  RatingRequest, rate_course, rate_again, take_back, serve_ratings, serve_ratings-IsRated,
}
use chain_verse_backend.Ratings.{
  Rounding, CreateRating, UpdateRating, RatingSummary, rate, find_all_for_course,
}
use chain_verse_backend.Ratings.Stats.{IsRated, rate-IsRated, find_all_for_course-ok}
use chain_verse_backend.Paging.{Page}
use chain_verse_backend.Notifications.{Notification, Inbox, is_note_of, find_by_user_id}
use chain_verse_backend.Notifications.Pages.{least, find_by_user_id-ok}
use chain_verse_backend.Listeners.{Desk, deliver}
use chain_verse_backend.Listeners.Awards.{points_of, save_for-points}
use chain_verse_backend.Tests.Fixtures.{shop}

shop-IsWished : IsWished memory shop
shop-IsWished = record {
  named = tt;
  counted = λ k c f. ground (arith, eq_iff "a" k, eq_iff "aa" k);
}

abbrev saved_requests : List SavedRequest
saved_requests =
    save_course "a" "a" ∷ save_course "aa" "a" ∷ see_saved "a" ∷ unsave_course "a" "a" ∷ []

serve_all_saved-IsWished_example : IsWished memory (serve_all_saved memory saved_requests shop)
serve_all_saved-IsWished_example = serve_all_saved-IsWished memory saved_requests shop shop-IsWished

-- Ratings

unfoldable pub nearest : ℕ → ℕ → ℕ
nearest sum n = (200 * sum + n) / (2 * n)

pub nearest_low : (sum n : ℕ) → 0 < n → 200 * sum ≤ (2 * nearest sum n + 1) * n
unfolding nearest
nearest_low sum n h = grind arith

pub nearest_high : (sum n : ℕ) → 0 < n → 2 * nearest sum n * n ≤ 200 * sum + n
unfolding nearest
nearest_high sum n h = grind arith

abbrev pub rounding : Rounding
rounding = record { mean = nearest; mean_low = nearest_low; mean_high = nearest_high }

abbrev pub school : State memory
school = record shop {
  enrollments =
      record {
        id = "aaaaa";
        student_id = "a";
        course_id = "a";
        is_paid = false;
        amount_paid = 0;
        status = "active";
        created_at = 7;
      }
      ∷ [];
}

abbrev five : CreateRating
five = record { rating = 5; feedback = none }

abbrev four : UpdateRating
four = record { rating = some 4; feedback = none }

school-IsRated : IsRated rounding memory school
school-IsRated = record {
  bounded = tt;
  counted = λ k c f. ground (arith, eq_iff "a" k, eq_iff "aa" k);
}

abbrev rating_requests : List RatingRequest
rating_requests = rate_course "a" "a" five ∷ rate_again "a" "a" four ∷ take_back "a" "a" ∷ []

serve_ratings-IsRated_example :
    IsRated rounding memory (serve_ratings rounding memory rating_requests school)
serve_ratings-IsRated_example =
    serve_ratings-IsRated rounding memory rating_requests school (refl, (refl, (refl, tt)))
      school-IsRated

abbrev rated : State memory
rated = (rate rounding memory "a" "a" five school).1

rated-IsRated : IsRated rounding memory rated
rated-IsRated = rate-IsRated rounding memory "a" "a" five school refl school-IsRated

abbrev review : CourseRating
review = record { id = "aaaa"; course_id = "a"; student_id = "a"; rating = 5; feedback = none }

abbrev summary : RatingSummary
summary = record { ratings = review ∷ []; average_rating = 500; total_ratings = 1 }

summed : (find_all_for_course rounding memory "a" rated).0 ≡ ok summary
unfolding find_all_for_course rate nearest
summed = refl

only_a : tally (has_id "a") rated.courses ≤ 1
unfolding rate
only_a = omega arith

find_all_for_course-ok_example :
    (c : Course) × (first (has_id "a") rated.courses ≡ some c)
    × (1 ≡ c.total_reviews)
    × (500 ≡ c.average_rating)
    × ((◌≡◌ {A = ℕ} 1 0) ⊎ ((100 ≤ 500) × (500 ≤ 500)))
find_all_for_course-ok_example =
    find_all_for_course-ok rounding memory "a" rated summary rated-IsRated refl only_a summed

-- Notifications

abbrev note : String → Notification
note id = record {
  id = id;
  user_id = "a";
  title = "T";
  message = "M";
  kind = none;
  is_read = false;
  metadata = [];
}

abbrev inbox : Inbox memory
inbox = record { docs = note "a" ∷ note "aa" ∷ note "aaa" ∷ []; minted = 3 }

abbrev first_page : Page Notification
first_page = record {
  items = note "a" ∷ note "aa" ∷ [];
  total = 3;
  page = 1;
  limit = 2;
  total_pages = 2;
}

paged : (find_by_user_id memory "a" 1 2 inbox).0 ≡ ok first_page
unfolding find_by_user_id
paged = refl

find_by_user_id-ok_example :
    (3 ≡ tally (is_note_of "a") inbox.docs)
    × (2 ≡ least 2 50)
    × ((q : Notification → Bool)
        → tally q first_page.items ≤ tally (λ x. is_note_of "a" x && q x) inbox.docs)
    × (((◌≡◌ {A = ℕ} 2 0) × (length first_page.items ≡ 3))
        ⊎ ((0 < 2) × (length first_page.items ≡ least 2 (3 - (1 - 1) * 2))))
find_by_user_id-ok_example = find_by_user_id-ok memory "a" 1 2 inbox first_page paged

-- Points

abbrev desk : Desk memory
desk = record { book = record { docs = []; minted = 0 }; inbox = inbox }

was_saved : (save_for memory "a" "a" shop).0 ≡ ok ("a", "a" ∷ [])
unfolding save_for
was_saved = refl

save_for-points_example :
    ((save_for memory "a" "a" shop).1.enrollments ≡ shop.enrollments)
    × ((save_for memory "a" "a" shop).1.events ≡ shop.events ++ course_saved "a" "a" ∷ [])
    × (points_of memory "a" (deliver memory (course_saved "a" "a" ∷ []) desk)
        ≡ points_of memory "a" desk +ℤ pos 10)
save_for-points_example = save_for-points memory "a" "a" shop ("a", "a" ∷ []) desk was_saved
