-- ===== src/Enrollment/Rounds.antt =====
-- The rounds of `checkoutCart`: what one item can do to the state.
use chain_verse_backend.Base.{
  ℕ, ◌+◌, String, ◌≡◌, refl, ◌⊎◌, inl, inr, true, false, ◌&&◌, Option, none, some, List, [], ◌∷◌,
  ◌++◌, ◌===◌, arith, first, Option-cases, Bool-cases, ltb, map, select, is_some, is_empty,
}
use mathlib.Core.Path.{subst}
use chain_verse_backend.Http.{
  Failure, Result, Result-cases, ok, raise, cast_error, bad_request, not_implemented,
}
use chain_verse_backend.Mongo.{Mongo}
use chain_verse_backend.Market.{
  is_published, Status, Course, CartItem, Enrollment, State, student_enrolled, has_id, is_live,
  is_of, contains, find_courses_cases,
}
use chain_verse_backend.Enrollment.{
  Payments, Outcome, any_priced, is_enrollment, raise_enrollments, check_payment, checkout_course,
  checkout_item, checkout_items, checkout_cart,
}

Status-cases : (t : Status) → (t ≡ Status.published) ⊎ (is_published t ≡ false)
Status-cases Status.published = inl refl
Status-cases _ = inr refl

module _ (db : Mongo) where
  open db use {all, insert, update_one, delete_one, to_object_id, object_id, find, find_one_lem}

  abbrev pub entry : ℕ → String → String → ℕ → State db → Enrollment
  entry now st co price s = record {
    id = object_id s.minted;
    student_id = st;
    course_id = co;
    is_paid = ltb 0 price;
    amount_paid = price;
    status = "completed";
    created_at = now;
  }

  -- The item taken out of the cart, and the course bought.
  abbrev pub discarded : CartItem → State db → State db
  discarded i s = record s { cart_items = delete_one (λ x. x.id === i.id) s.cart_items }

  abbrev pub bought : ℕ → String → String → String → CartItem → Course → State db → State db
  bought now student st co i c s = record s {
    enrollments = insert (entry now st co c.price s) s.enrollments;
    courses = update_one (has_id co) raise_enrollments s.courses;
    cart_items = delete_one (λ x. x.id === i.id) s.cart_items;
    events =
        s.events
        ++ student_enrolled student i.course_id c.tutor_id c.tutor_email (some c.price) ∷ [];
    minted = s.minted + 1;
  }

  -- A course is bought only if it is published and the student has no enrollment in it.
  abbrev pub IsBought :
      ℕ → String → List Course → CartItem → State db → Result Outcome × State db → Type 0
  IsBought now student cs i s r =
      (st : String) × (co : String) × (c : Course) × (to_object_id student ≡ some st)
      × (to_object_id i.course_id ≡ some co)
      × (first (has_id i.course_id) cs ≡ some c)
      × (c.status ≡ Status.published)
      × (first (is_enrollment st co) (all s.enrollments) ≡ none)
      × (r ≡ (ok (Outcome.enrolled c.price), bought now student st co i c s))

  -- The ways in which a round can end: it throws, nothing is done, the item is discarded, or its
  -- course is bought.
  abbrev pub Round :
      ℕ → String → List Course → CartItem → State db → Result Outcome × State db → Type 0
  Round now student cs i s r =
      ((e : Failure) × (r ≡ (raise e, s)))
      ⊎ (r ≡ (ok Outcome.failed, s))
      ⊎ (r ≡ (ok Outcome.failed, discarded i s))
      ⊎ (r ≡ (ok Outcome.skipped, discarded i s))
      ⊎ IsBought now student cs i s r

  check_payment_cases :
      (pay : Payments) (hash : Option String) (c : Course) (s : State db)
      → ((e : Failure) × (check_payment db pay hash c s ≡ (raise e, s)))
        ⊎ (check_payment db pay hash c s ≡ (ok tt, s))
  unfolding check_payment
  check_payment_cases pay hash c s = elim (Bool-cases (ltb 0 c.price)) [
    | inr free ↦ inr (ground arith)
    | inl paid ↦ elim (Option-cases hash) [
      | inl bad ↦
          inl
            (bad_request "Transaction hash is required for paid course enrollment.", rw (paid, bad))
      | inr (h, eh) ↦ elim (Option-cases pay.platform_address) [
        | inl bad ↦
            inl (bad_request "Platform Stellar address is not configured.", rw (paid, eh, bad))
        | inr (a, ea) ↦ elim (Result-cases (pay.verify h c.price a)) [
          | inl (e, bad) ↦ inl (e, rw (paid, eh, ea, bad))
          | inr (true, good) ↦ inr (rw (paid, eh, ea, good))
          | inr (false, bad) ↦
              inl (bad_request "Payment not confirmed on-chain", rw (paid, eh, ea, bad))
        ]
      ]
    ]
  ]

  checkout_course-Round :
      (pay : Payments) (now : ℕ) (student : String) (hash : Option String) (cs : List Course)
      (i : CartItem) (c : Course) (s : State db)
      → first (has_id i.course_id) cs ≡ some c
      → c.status ≡ Status.published
      → Round now student cs i s (checkout_course db pay now student hash i c s)
  unfolding checkout_course
  checkout_course-Round pay now student hash cs i c s f h =
      elim (Option-cases (to_object_id student)) [
        | inl bad ↦ inl (cast_error student, ground arith)
        | inr (st, es) ↦ elim (Option-cases (to_object_id i.course_id)) [
          | inl bad ↦ inl (cast_error i.course_id, ground arith)
          | inr (co, ec) ↦ elim (Option-cases (first (is_enrollment st co) (all s.enrollments))) [
            | inr (x, old) ↦
                inr (
                  inr
                    (inr (inl (ground (arith, find_one_lem (is_enrollment st co) s.enrollments)))))
            | inl new ↦ elim (check_payment_cases pay hash c s) [
              | inl (e, bad) ↦
                  inl (e, ground (arith, find_one_lem (is_enrollment st co) s.enrollments))
              | inr good ↦ inr (
                  inr (
                    inr (
                      inr (
                        st,
                        co,
                        c,
                        es,
                        ec,
                        f,
                        h,
                        new,
                        ground (arith, find_one_lem (is_enrollment st co) s.enrollments),
                      ))))
            ]
          ]
        ]
      ]

  pub checkout_item-Round :
      (pay : Payments) (now : ℕ) (student : String) (hash : Option String) (cs : List Course)
      (i : CartItem) (s : State db)
      → Round now student cs i s (checkout_item db pay now student hash cs i s)
  unfolding checkout_item
  checkout_item-Round pay now student hash cs i s = elim (Option-cases (to_object_id i.course_id)) [
    | inl bad ↦ inr (inl (ground arith))
    | inr (co, ec) ↦ elim (Option-cases (first (has_id i.course_id) cs)) [
      | inl bad ↦ inr (inl (ground arith))
      | inr (c, f) ↦ elim (Status-cases c.status) [
        | inl h ↦
            subst (Round now student cs i s) (ground arith)
              (checkout_course-Round pay now student hash cs i c s f h)
        | inr other ↦ inr (inr (inl (ground arith)))
      ]
    ]
  ]

  checkout_items_state :
      (pay : Payments) (now : ℕ) (student : String) (hash : Option String) (cs : List Course)
      (i : CartItem) (is : List CartItem) (s : State db)
      → (checkout_items db pay now student hash cs (i ∷ is) s).1
        ≡ (checkout_items db pay now student hash cs is
            (checkout_item db pay now student hash cs i s).1).1
  unfolding checkout_items
  checkout_items_state pay now student hash cs i is s = ground arith

  -- What every round keeps, the loop keeps, and so does the whole checkout.
  pub checkout_items_keeps :
      (pay : Payments) (now : ℕ) (student : String) (hash : Option String) (cs : List Course)
      (P : State db → Type 0)
      → ((i : CartItem) (s : State db) → P s → P (checkout_item db pay now student hash cs i s).1)
      → (is : List CartItem) (s : State db) → P s
      → P (checkout_items db pay now student hash cs is s).1
  unfolding checkout_items
  checkout_items_keeps pay now student hash cs P keep [] s h = h
  checkout_items_keeps pay now student hash cs P keep (i ∷ is) s h =
      rw (checkout_items_state pay now student hash cs i is s) (
        checkout_items_keeps pay now student hash cs P keep is
          (checkout_item db pay now student hash cs i s).1 (keep i s h))

  -- A checkout fails and writes nothing, or no course that it fetched has a price.
  pub checkout_cart_cases :
      (pay : Payments) (now : ℕ) (student : String) (hash : Option String) (s : State db)
      → ((e : Failure) × (checkout_cart db pay now student hash s ≡ (raise e, s)))
        ⊎ ((cs : List Course) × (any_priced cs ≡ false)
            × (checkout_cart db pay now student hash s
                ≡ checkout_items db pay now student hash cs (find (is_of student) s.cart_items) s))
  unfolding checkout_cart
  checkout_cart_cases pay now student hash s =
      let items : List CartItem = find (is_of student) s.cart_items in
      let ids : List String =
        map (λ (i : CartItem). i.course_id)
          (select (λ i. is_some (to_object_id i.course_id)) items) in
      elim (Bool-cases (is_empty items)) [
        | inl nothing ↦ inl (bad_request "Cart is empty", ground arith)
        | inr more ↦ elim (find_courses_cases db ids s) [
          | inl (e, bad) ↦ inl (e, ground arith)
          | inr (ks, good) ↦
              let cs : List Course = find (λ c. contains ks c.id && is_live c) s.courses in
              elim (Bool-cases (any_priced cs)) [
                | inl paid ↦ inl (
                  not_implemented
                      "Paid course checkout requires a Stellar transaction hash. See API docs for the payment flow.",
                  ground arith,
                )
                | inr free ↦ inr (cs, free, ground arith)
              ]
        ]
      ]

  pub checkout_cart_keeps :
      (pay : Payments) (now : ℕ) (student : String) (hash : Option String) (P : State db → Type 0)
      → ((cs : List Course) (i : CartItem) (s : State db)
          → P s
          → P (checkout_item db pay now student hash cs i s).1)
      → (s : State db) → P s
      → P (checkout_cart db pay now student hash s).1
  checkout_cart_keeps pay now student hash P keep s h =
      elim (checkout_cart_cases pay now student hash s) [
        | inl (e, bad) ↦ rw bad h
        | inr (cs, free, e) ↦ rw e (checkout_items_keeps pay now student hash cs P (keep cs) _ s h)
      ]
