-- ===== src/Tests/Fixtures.antt =====
-- A small shop in memory: two courses, a cart with one item, and no enrollment.
use chain_verse_backend.Base.{ℕ, String, true, none, some, [], ◌∷◌}
use chain_verse_backend.Base.Int.{pos}
use chain_verse_backend.Mongo.Memory.{memory}
use chain_verse_backend.Market.{Status, Course, CartItem, State}

abbrev pub course : String → Status → ℕ → Course
course id status carts = record {
  id = id;
  title = "Proofs";
  description = "";
  category = "";
  tags = [];
  price = 0;
  thumbnail_url = none;
  thumbnail_images = [];
  tutor_id = "aaaa";
  tutor_email = "t@u.v";
  tutor_name = "T";
  level = "";
  duration = none;
  duration_hours = 0;
  language = none;
  has_certificate = true;
  status = status;
  curriculum = [];
  total_enrollments = 0;
  total_reviews = 0;
  average_rating = 0;
  total_wishlists = pos 0;
  total_carts = pos carts;
  view_count = 0;
  published_at = none;
  approved_at = some 5;
  rejection_reason = none;
  deleted_at = none;
  deleted_by = none;
  deletion_reason = none;
  created_at = 0;
}

abbrev pub course_a : Course
course_a = course "a" Status.published 1

abbrev pub course_b : Course
course_b = course "aa" Status.published 0

abbrev pub item : CartItem
item = record { id = "aaa"; student_id = "a"; course_id = "a"; quantity = 1 }

abbrev pub shop : State memory
shop = record {
  courses = course_a ∷ course_b ∷ [];
  cart_items = item ∷ [];
  enrollments = [];
  saved = [];
  ratings = [];
  tutors = [];
  events = [];
  mails = [];
  minted = 3;
}
