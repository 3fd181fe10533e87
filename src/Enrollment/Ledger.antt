-- ===== src/Enrollment/Ledger.antt =====
-- The enrollments against the denormalised counter `totalEnrollments`, and the unique pairs of a
-- student and a course.
use chain_verse_backend.Base.{
  ℕ, ◌≤◌, String, ◌≡◌, inl, inr, Option, none, some, List, [], ◌∷◌, ◌++◌, ◌===◌, arith, eq_iff,
  first, tally, Option-cases, amend_first, tally-append, first-eq-none→tally,
}
use chain_verse_backend.Mongo.{Mongo}
use chain_verse_backend.Market.{Course, CartItem, Enrollment, State, has_id, first-amend_first}
use chain_verse_backend.Enrollment.{
  Payments, is_enrollment, raise_enrollments, enroll_free, checkout_item, checkout_cart,
}
use chain_verse_backend.Enrollment.Rounds.{entry, bought, checkout_item-Round, checkout_cart_keeps}
use chain_verse_backend.Enrollment.Free.{enroll_free_cases, free_entry}

module _ (db : Mongo) where
  open db use {all, insert, update_one, to_object_id, all-insert, all-update_one}

  -- No student is enrolled twice in a course, and every course counts its enrollments.
  pub record IsLedger (s : State db) : Type 0 where
    pub once : (st co : String) → tally (is_enrollment st co) (all s.enrollments) ≤ 1
    pub counted :
        (k : String) (c : Course)
        → first (has_id k) (all s.courses) ≡ some c
        → c.total_enrollments ≡ tally (λ e. e.course_id === k) (all s.enrollments)

  -- A new enrollment with the counter of its course raised.
  entered-IsLedger :
      (s t : State db) (e : Enrollment)
      → all t.enrollments ≡ all s.enrollments ++ e ∷ []
      → all t.courses ≡ amend_first (has_id e.course_id) raise_enrollments (all s.courses)
      → first (is_enrollment e.student_id e.course_id) (all s.enrollments) ≡ none
      → IsLedger s
      → IsLedger t
  entered-IsLedger s t e es cs new h = record {
    once = λ st co.
        rw (es, tally-append)
          (ground (
            arith,
            h.once st co,
            eq_iff e.student_id st,
            eq_iff e.course_id co,
            first-eq-none→tally (is_enrollment e.student_id e.course_id) (all s.enrollments) new,
          ));
    counted = λ k c.
        rw (es, cs, tally-append, first-amend_first)
          (elim (Option-cases (first (has_id k) (all s.courses))) [
            | inl missing ↦ ground (arith, eq_iff e.course_id k)
            | inr (b, found) ↦ ground (arith, eq_iff e.course_id k, h.counted k b)
          ]);
  }

  bought-IsLedger :
      (now : ℕ) (student st co : String) (i : CartItem) (c : Course) (s : State db)
      → first (is_enrollment st co) (all s.enrollments) ≡ none
      → IsLedger s
      → IsLedger (bought db now student st co i c s)
  bought-IsLedger now student st co i c s new h =
      entered-IsLedger s _ (entry db now st co c.price s) (all-insert _ _) (all-update_one _ _ _)
        new h

  -- Where no student is enrolled twice in a course and every course counts its enrollments,
  -- `enroll_free` keeps both so, whatever it answers.
  pub enroll_free-IsLedger :
      (now : ℕ) (student course : String) (s : State db)
      → IsLedger s
      → IsLedger (enroll_free db now student course s).1
  enroll_free-IsLedger now student course s h = elim (enroll_free_cases db now student course s) [
    | inl same ↦ rw same h
    | inr (st, co, c, a, put) ↦ rw put (
        entered-IsLedger s _ (free_entry db now st co s) (all-insert _ _) (all-update_one _ _ _)
          a.is_new h)
  ]

  checkout_item-IsLedger :
      (pay : Payments) (now : ℕ) (student : String) (hash : Option String) (cs : List Course)
      (i : CartItem) (s : State db)
      → IsLedger s
      → IsLedger (checkout_item db pay now student hash cs i s).1
  checkout_item-IsLedger pay now student hash cs i s h =
      elim (checkout_item-Round db pay now student hash cs i s) [
        | inl (e, r) ↦ rw r h
        | inr (inl r) ↦ rw r h
        | inr (inr (inl r)) ↦ rw r (record { once = h.once; counted = h.counted })
        | inr (inr (inr (inl r))) ↦ rw r (record { once = h.once; counted = h.counted })
        | inr (inr (inr (inr (st, co, c, es, ec, f, p, new, r)))) ↦
            rw r (bought-IsLedger now student st co i c s new h)
      ]

  -- Where no student is enrolled twice in a course and every course counts its enrollments,
  -- `checkout_cart` keeps both so, whatever it answers and wherever a round of its loop
  -- throws.
  pub checkout_cart-IsLedger :
      (pay : Payments) (now : ℕ) (student : String) (hash : Option String) (s : State db)
      → IsLedger s
      → IsLedger (checkout_cart db pay now student hash s).1
  checkout_cart-IsLedger pay now student hash s h =
      checkout_cart_keeps db pay now student hash IsLedger
        (checkout_item-IsLedger pay now student hash) s h
