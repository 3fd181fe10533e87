-- ===== src/Enrollment/Runs.antt =====
-- The requests of src/student-enrollment/student-enrollment.controller.ts that enroll, one after
-- another.
use chain_verse_backend.Base.{ℕ, String, Option, List, [], ◌∷◌}
use chain_verse_backend.Mongo.{Mongo}
use chain_verse_backend.Market.{State}
use chain_verse_backend.Enrollment.{Payments, enroll_free, checkout_cart}
use chain_verse_backend.Enrollment.Ledger.{IsLedger, enroll_free-IsLedger, checkout_cart-IsLedger}

-- A request at a time, with the id of its student. A checkout over HTTP has no hash of a payment.
pub data EnrollmentRequest : Type 0 where
  enroll_in_free : ℕ → (student course : String) → EnrollmentRequest
  check_out : ℕ → (student : String) → Option String → EnrollmentRequest

module _ (db : Mongo) (pay : Payments) where
  -- The state after a request, whatever its answer.
  unfoldable pub serve_enrollment : EnrollmentRequest → State db → State db
  serve_enrollment (enroll_in_free now st co) s = (enroll_free db now st co s).1
  serve_enrollment (check_out now st hash) s = (checkout_cart db pay now st hash s).1

  unfoldable pub serve_enrollments : List EnrollmentRequest → State db → State db
  serve_enrollments [] s = s
  serve_enrollments (r ∷ rs) s = serve_enrollments rs (serve_enrollment r s)

  serve_enrollment-IsLedger :
      (r : EnrollmentRequest) (s : State db) → IsLedger db s → IsLedger db (serve_enrollment r s)
  unfolding serve_enrollment
  serve_enrollment-IsLedger (enroll_in_free now st co) s h = enroll_free-IsLedger db now st co s h
  serve_enrollment-IsLedger (check_out now st hash) s h =
      checkout_cart-IsLedger db pay now st hash s h

  -- Where no student is enrolled twice in a course and every course counts its enrollments,
  -- any requests to enroll in a free course or to check a cart out, whatever their answers and
  -- wherever a round of a checkout throws, keep both so.
  pub serve_enrollments-IsLedger :
      (rs : List EnrollmentRequest) (s : State db)
      → IsLedger db s
      → IsLedger db (serve_enrollments rs s)
  unfolding serve_enrollments
  serve_enrollments-IsLedger [] s h = h
  serve_enrollments-IsLedger (r ∷ rs) s h =
      serve_enrollments-IsLedger rs (serve_enrollment r s) (serve_enrollment-IsLedger r s h)
