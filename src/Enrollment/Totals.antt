-- ===== src/Enrollment/Totals.antt =====
-- The receipt of `checkoutCart`.
use chain_verse_backend.Base.{
  ℕ, ◌+◌, ◌≤◌, ◌<◌, String, ◌≡◌, refl, ap, sym, ◌∙◌, length-select, inl, inr, false, Option, some,
  List, [], ◌∷◌, arith, first, tally, tally-append, All, length, text_refl,
}
use mathlib.Core.Path.{subst}
use chain_verse_backend.Http.{Failure, Result, ok, raise}
use chain_verse_backend.Mongo.{Mongo}
use chain_verse_backend.Market.{Course, CartItem, State, has_id, is_of}
use chain_verse_backend.Enrollment.{
  Payments, Receipt, Outcome, is_enrollment, checkout_item, checkout_items, checkout_cart,
  any_priced, note,
}
use chain_verse_backend.Enrollment.Rounds.{
  bought, discarded, checkout_item-Round, checkout_items_keeps, checkout_cart_cases,
}

-- A course that a query finds among courses without a price has none.
price-eq_zero :
    (k : String) (cs : List Course) (c : Course)
    → any_priced cs ≡ false
    → first (has_id k) cs ≡ some c
    → c.price ≡ 0
price-eq_zero k [] c h f = ground arith
price-eq_zero k (x ∷ cs) c h f = ground (arith, price-eq_zero k cs c)

module _ (db : Mongo) where
  open db use {all, find, to_object_id, all-insert, find_lem}

  -- The student holds an enrollment in the course.
  abbrev pub Holds : String → State db → String → Type 0
  Holds student s course =
      (st : String) × (co : String) × (to_object_id student ≡ some st)
      × (to_object_id course ≡ some co)
      × (0 < tally (is_enrollment st co) (all s.enrollments))

  checkout_item-grows :
      (pay : Payments) (now : ℕ) (student : String) (hash : Option String) (cs : List Course)
      (st co : String) (n : ℕ) (i : CartItem) (s : State db)
      → n ≤ tally (is_enrollment st co) (all s.enrollments)
      → n
        ≤ tally
            (is_enrollment st co)
            (all (checkout_item db pay now student hash cs i s).1.enrollments)
  checkout_item-grows pay now student hash cs st co n i s h =
      elim (checkout_item-Round db pay now student hash cs i s) [
        | inl (e, r) ↦ rw r h
        | inr (inl r) ↦ rw r h
        | inr (inr (inl r)) ↦ rw r h
        | inr (inr (inr (inl r))) ↦ rw r h
        | inr (inr (inr (inr (st', co', c, es, ec, f, p, new, r)))) ↦
            rw (r, all-insert, tally-append) (omega arith)
      ]

  -- Every round is noted; the loop itself does not throw.
  Noted : Payments → ℕ → String → Option String → List Course → List CartItem → State db → Type 0
  Noted pay now student hash cs is s =
      (r : Receipt) × ((checkout_items db pay now student hash cs is s).0 ≡ ok r)
      × (r.total_amount ≡ 0)
      × All (Holds student (checkout_items db pay now student hash cs is s).1) r.enrolled
      × (length r.enrolled + length r.failed ≤ length is)

  module _ (pay : Payments) (now : ℕ) (student : String) (hash : Option String) (cs : List Course)
      (i : CartItem) (is : List CartItem) (s s' : State db) where
    -- What a round that throws, and one that does not, add to the receipt.
    checkout_items_thrown :
        (e : Failure) (q : Receipt)
        → checkout_item db pay now student hash cs i s ≡ (raise e, s')
        → (checkout_items db pay now student hash cs is s').0 ≡ ok q
        → checkout_items db pay now student hash cs (i ∷ is) s
          ≡ (ok (note i Outcome.failed q), (checkout_items db pay now student hash cs is s').1)
    unfolding checkout_items
    checkout_items_thrown e q r done = ground arith

    checkout_items_done :
        (o : Outcome) (q : Receipt)
        → checkout_item db pay now student hash cs i s ≡ (ok o, s')
        → (checkout_items db pay now student hash cs is s').0 ≡ ok q
        → checkout_items db pay now student hash cs (i ∷ is) s
          ≡ (ok (note i o q), (checkout_items db pay now student hash cs is s').1)
    unfolding checkout_items
    checkout_items_done o q r done = ground arith

  -- What an outcome has to bring along.
  abbrev Fits : Outcome → String → State db → CartItem → Type 0
  Fits (Outcome.enrolled p) student s i = (p ≡ 0) × Holds student s i.course_id
  Fits Outcome.failed student s i = Unit
  Fits Outcome.skipped student s i = Unit

  Noted-cons :
      (pay : Payments) (now : ℕ) (student : String) (hash : Option String) (cs : List Course)
      (i : CartItem) (is : List CartItem) (s s' : State db) (o : Outcome) (q : Receipt)
      → checkout_items db pay now student hash cs (i ∷ is) s
        ≡ (ok (note i o q), (checkout_items db pay now student hash cs is s').1)
      → q.total_amount ≡ 0
      → All (Holds student (checkout_items db pay now student hash cs is s').1) q.enrolled
      → length q.enrolled + length q.failed ≤ length is
      → Fits o student (checkout_items db pay now student hash cs is s').1 i
      → Noted pay now student hash cs (i ∷ is) s
  unfolding Noted
  Noted-cons pay now student hash cs i is s s' (Outcome.enrolled p) q step z held few fits = (
    note i (Outcome.enrolled p) q,
    ap (λ (t : Result Receipt × State db). t.0) step,
    omega arith,
    subst (λ (t : State db). All (Holds student t) (i.course_id ∷ q.enrolled))
        (sym (ap (λ (t : Result Receipt × State db). t.1) step)) (fits.1, held),
    omega arith,
  )
  Noted-cons pay now student hash cs i is s s' o q step z held few fits =
      (note i o q, ap (λ (t : Result Receipt × State db). t.0) step, z, rw step held, omega arith)

  checkout_items-Noted :
      (pay : Payments) (now : ℕ) (student : String) (hash : Option String) (cs : List Course)
      → any_priced cs ≡ false
      → (is : List CartItem) (s : State db) → Noted pay now student hash cs is s
  unfolding Noted
  checkout_items-Noted pay now student hash cs free [] s =
      unfold checkout_items in
      (record { enrolled = []; failed = []; total_amount = 0 }, refl, refl, tt, omega arith)
  checkout_items-Noted pay now student hash cs free (i ∷ is) s =
      let next = λ (s' : State db). checkout_items-Noted pay now student hash cs free is s' in
      elim (checkout_item-Round db pay now student hash cs i s) [
        | inl (e, r) ↦
            let (q, done, z, held, few) = next s in
            Noted-cons pay now student hash cs i is s s Outcome.failed q
              (checkout_items_thrown pay now student hash cs i is s s e q r done) z held few tt
        | inr (inl r) ↦
            let (q, done, z, held, few) = next s in
            Noted-cons pay now student hash cs i is s s Outcome.failed q
              (checkout_items_done pay now student hash cs i is s s Outcome.failed q r done) z held
              few tt
        | inr (inr (inl r)) ↦
            let s' = discarded db i s in
            let (q, done, z, held, few) = next s' in
            Noted-cons pay now student hash cs i is s s' Outcome.failed q
              (checkout_items_done pay now student hash cs i is s s' Outcome.failed q r done) z held
              few tt
        | inr (inr (inr (inl r))) ↦
            let s' = discarded db i s in
            let (q, done, z, held, few) = next s' in
            Noted-cons pay now student hash cs i is s s' Outcome.skipped q
              (checkout_items_done pay now student hash cs i is s s' Outcome.skipped q r done) z
              held few tt
        | inr (inr (inr (inr (st, co, c, es, ec, f, p, new, r)))) ↦
            let s' = bought db now student st co i c s in
            let (q, done, z, held, few) = next s' in
            let o = Outcome.enrolled c.price in
            Noted-cons pay now student hash cs i is s s' o q
              (checkout_items_done pay now student hash cs i is s s' o q r done) z held few
              (
                price-eq_zero i.course_id cs c free f,
                (
                  st,
                  co,
                  es,
                  ec,
                  checkout_items_keeps db pay now student hash cs
                      (λ t. 1 ≤ tally (is_enrollment st co) (all t.enrollments))
                      (checkout_item-grows pay now student hash cs st co 1) is s'
                      (rw (all-insert, tally-append, text_refl st, text_refl co) (omega arith)),
                ),
              )
      ]

  -- Where a checkout answers with a receipt, the amount is 0, the student has an enrollment in
  -- every course that the receipt lists as enrolled, and the two lists together are no longer
  -- than the cart was.
  pub checkout_cart-ok :
      (pay : Payments) (now : ℕ) (student : String) (hash : Option String) (s : State db)
      (r : Receipt)
      → (checkout_cart db pay now student hash s).0 ≡ ok r
      → (r.total_amount ≡ 0)
        × All (Holds student (checkout_cart db pay now student hash s).1) r.enrolled
        × (length r.enrolled + length r.failed ≤ tally (is_of student) (all s.cart_items))
  unfolding Noted
  checkout_cart-ok pay now student hash s r h =
      elim (checkout_cart_cases db pay now student hash s) [
        | inl (e, bad) ↦ absurd (ground arith)
        | inr (cs, free, e) ↦
            let (q, done, z, held, few) =
              checkout_items-Noted pay now student hash cs free (find (is_of student) s.cart_items)
                s in
            let same : r ≡ q = ground arith in
            rw (same, e)
              (
                z,
                held,
                omega (
                  arith,
                  ap (λ (l : List CartItem). length l) (find_lem (is_of student) s.cart_items)
                      ∙ length-select (is_of student) (all s.cart_items),
                ),
              )
      ]
