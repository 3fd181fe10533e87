-- ===== src/Tests/CourseLife.antt =====
-- The life of a course on the small shop, and a mail address.
use chain_verse_backend.Base.{
  String, ◌≡◌, ◌≢◌, ◌↔◌, ◌∙◌, sym, refl, first, none, some, true, false, arith, eq_iff, List, [],
  ◌∷◌,
}
use chain_verse_backend.Mongo.Memory.{memory}
use chain_verse_backend.Market.{Status, has_id}
use chain_verse_backend.CourseForms.{set_status}
use chain_verse_backend.Courses.{find_owned, unpublish, find_one}
use chain_verse_backend.Courses.Commands.{
  Command, serve, unpublish_course, publish_course, delete_course,
}
use chain_verse_backend.Http.{ok}
use chain_verse_backend.Courses.Owners.{find_owned-ok_iff}
use chain_verse_backend.Courses.Edits.{Live}
use chain_verse_backend.Courses.Moves.{Move}
use chain_verse_backend.Courses.Lifecycle.{IsKeyed, serve-Move}
use chain_verse_backend.Courses.Approval.{IsSound, serve_all, serve_all-IsSound}
use chain_verse_backend.Email.{is_email, is_email_iff, IsAddress, codes}
use chain_verse_backend.Tests.Fixtures.{shop, course_a}

distinct : (k : String) → "a" ≡ k → "aa" ≢ k
distinct k e f = let g : Path String "a" "aa" = e ∙ sym f in cc

shop-IsKeyed : IsKeyed memory shop
shop-IsKeyed = record {
  unique = λ k. ground (arith, eq_iff "a" k, eq_iff "aa" k, distinct k);
  generated = ((0, refl, omega arith), ((1, refl, omega arith), tt));
}

withdrawn :
    first (has_id "a") (serve memory (unpublish_course "a" "aaaa" false) shop).courses
    ≡ some (set_status Status.unpublished course_a)
unfolding serve unpublish find_one
withdrawn = refl

serve-Move_example : Move Status.published Status.unpublished
serve-Move_example =
    serve-Move memory (unpublish_course "a" "aaaa" false) shop shop-IsKeyed "a" course_a
      (set_status Status.unpublished course_a) refl withdrawn

-- A course taken back by its owner, published again, and deleted by an administrator.
abbrev requests : List Command
requests =
    unpublish_course "a" "aaaa" false
    ∷ publish_course 9 "a" "aaaa" false
    ∷ delete_course 10 "a" "root" true none
    ∷ []

serve_all-IsSound_example : IsSound memory (serve_all memory requests shop)
serve_all-IsSound_example =
    serve_all-IsSound memory requests shop
      (record { keyed = shop-IsKeyed; reviewed = ((λ e. refl), ((λ e. refl), tt)) })

is_email_iff_example : (is_email "a@b.c" ≡ true) ↔ IsAddress (codes "a@b.c")
is_email_iff_example = is_email_iff "a@b.c"

find_owned-ok_iff_example :
    ((find_owned memory "a" "aaaa" shop).0 ≡ ok course_a)
    ↔ (Live memory "a" shop course_a × (course_a.tutor_id ≡ "aaaa"))
find_owned-ok_iff_example = find_owned-ok_iff memory "a" "aaaa" course_a shop
