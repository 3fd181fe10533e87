-- ===== src/Tests/Enrollments.antt =====
-- Enrollment on the small shop.
use chain_verse_backend.Base.{
  String, ◌≡◌, ◌≢◌, ◌↔◌, ◌≤◌, ◌+◌, refl, none, arith, eq_iff, List, [], ◌∷◌, true, All, length,
  tally,
}
use chain_verse_backend.Http.{ok, raise, not_found}
use chain_verse_backend.Mongo.Memory.{memory}
use chain_verse_backend.Market.{Enrollment, Course, is_of, find_courses, cast_all}
use chain_verse_backend.Enrollment.{
  Payments, Receipt, enroll_free, join_courses, checkout_items, checkout_item, checkout_cart,
  get_my_courses, can_activate,
}
use chain_verse_backend.Enrollment.Free.{Admits, free_entry, enrolled_free, enroll_free-ok_iff}
use chain_verse_backend.Enrollment.Ledger.{IsLedger}
use chain_verse_backend.Enrollment.Runs.{
  EnrollmentRequest, enroll_in_free, check_out, serve_enrollments, serve_enrollments-IsLedger,
}
use chain_verse_backend.Enrollment.Totals.{Holds, checkout_cart-ok}
use chain_verse_backend.Enrollment.Access.{Permits, can_activate-ok_iff, get_my_courses-nil}
use chain_verse_backend.Enrollment.Miscount.{checkout_cart-miscounts}
use chain_verse_backend.Cart.Counts.{IsCounted, refers}
use chain_verse_backend.Tests.Fixtures.{shop, course_a}
use chain_verse_backend.Tests.Carts.{shop-IsCounted}

abbrev payments : Payments
payments = record { platform_address = none; verify = λ h n to. ok true }

pub shop-Admits : Admits memory shop "a" "a" "a" "a" course_a
shop-Admits = record {
  student_named = refl;
  course_named = refl;
  found = refl;
  is_published = refl;
  is_free = refl;
  is_new = refl;
}

enroll_free-ok_iff_example : ((e : Enrollment) × ((enroll_free memory 7 "a" "a" shop).0 ≡ ok e)) ↔ (
    (st : String) × (co : String) × (c : Course) × Admits memory shop "a" "a" st co c
    × (enroll_free memory 7 "a" "a" shop
        ≡ (ok (free_entry memory 7 st co shop), enrolled_free memory 7 "a" "a" st co c shop)))
enroll_free-ok_iff_example = enroll_free-ok_iff memory 7 "a" "a" shop

refused : (enroll_free memory 7 "a" "aaa" shop).0 ≡ raise (not_found "Course not found")
unfolding enroll_free
refused = refl

shop-IsLedger : IsLedger memory shop
shop-IsLedger = record {
  once = λ st co. omega (arith);
  counted = λ k c f. ground (arith, eq_iff "a" k, eq_iff "aa" k);
}

abbrev enrollment_requests : List EnrollmentRequest
enrollment_requests = enroll_in_free 7 "a" "aa" ∷ check_out 8 "a" none ∷ []

serve_enrollments-IsLedger_example :
    IsLedger memory (serve_enrollments memory payments enrollment_requests shop)
serve_enrollments-IsLedger_example =
    serve_enrollments-IsLedger memory payments enrollment_requests shop shop-IsLedger

abbrev receipt : Receipt
receipt = record { enrolled = "a" ∷ []; failed = []; total_amount = 0 }

sold : (checkout_cart memory payments 7 "a" none shop).0 ≡ ok receipt
unfolding checkout_cart find_courses cast_all checkout_items checkout_item
sold = refl

checkout_cart-ok_example :
    (receipt.total_amount ≡ 0)
    × All (Holds memory "a" (checkout_cart memory payments 7 "a" none shop).1) receipt.enrolled
    × (length receipt.enrolled + length receipt.failed ≤ tally (is_of "a") shop.cart_items)
checkout_cart-ok_example = checkout_cart-ok memory payments 7 "a" none shop receipt sold

can_activate-ok_iff_example :
    ((can_activate memory "a" "a" shop).0 ≡ ok true) ↔ Permits memory "a" "a" shop
can_activate-ok_iff_example = can_activate-ok_iff memory "a" "a" shop

-- The courses of a student who has been enrolled in one.
listed : (get_my_courses memory "a" (enroll_free memory 7 "a" "a" shop).1).0 ≡ ok []
unfolding get_my_courses enroll_free find_courses cast_all join_courses
listed = refl

abbrev no_courses : List (Enrollment × Course)
no_courses = []

get_my_courses-nil_example : no_courses ≡ []
get_my_courses-nil_example =
    get_my_courses-nil memory "a" (enroll_free memory 7 "a" "a" shop).1 no_courses listed

emptied :
    tally (refers memory "a") (checkout_cart memory payments 7 "a" none shop).1.cart_items
    ≢ tally (refers memory "a") shop.cart_items
unfolding checkout_cart find_courses cast_all checkout_items checkout_item
emptied = λ e. cc

checkout_cart-miscounts_example :
    ¬ IsCounted memory (checkout_cart memory payments 7 "a" none shop).1
checkout_cart-miscounts_example =
    checkout_cart-miscounts memory "a" course_a payments 7 "a" none shop shop-IsCounted refl emptied
