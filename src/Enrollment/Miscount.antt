-- ===== src/Enrollment/Miscount.antt =====
-- `checkoutCart` against the counter `totalCarts` that the cart keeps.
use mathlib.Core.Option
use chain_verse_backend.Base.{
  ℕ, String, ◌≡◌, refl, ◌≢◌, inl, inr, Option, some, List, arith, eq_iff, first, tally,
  Option-cases,
}
use chain_verse_backend.Base.Int.{ℤ}
use chain_verse_backend.Mongo.{Mongo}
use chain_verse_backend.Market.{Course, CartItem, State, has_id, first-amend_first}
use chain_verse_backend.Cart.Counts.{refers, IsCounted}
use chain_verse_backend.Enrollment.{Payments, checkout_item, checkout_cart}
use chain_verse_backend.Enrollment.Rounds.{checkout_item-Round, checkout_cart_keeps}

module _ (db : Mongo) where
  open db use {all, all-update_one}

  -- The counter of a course, if the course is there.
  abbrev pub carts_of : String → State db → Option ℤ
  carts_of k s = Option.map (λ (c : Course). c.total_carts) (first (has_id k) (all s.courses))

  checkout_item-carts_of :
      (k : String) (v : Option ℤ) (pay : Payments) (now : ℕ) (student : String)
      (hash : Option String) (cs : List Course) (i : CartItem) (s : State db)
      → carts_of k s ≡ v
      → carts_of k (checkout_item db pay now student hash cs i s).1 ≡ v
  checkout_item-carts_of k v pay now student hash cs i s h =
      elim (checkout_item-Round db pay now student hash cs i s) [
        | inl (e, r) ↦ rw r h
        | inr (inl r) ↦ rw r h
        | inr (inr (inl r)) ↦ rw r h
        | inr (inr (inr (inl r))) ↦ rw r h
        | inr (inr (inr (inr (st, co, c, es, ec, f, p, new, r)))) ↦
            rw (r, all-update_one, first-amend_first)
              (elim (Option-cases (first (has_id k) (all s.courses))) [
                | inl missing ↦ ground (arith, eq_iff co k)
                | inr (b, found) ↦ ground (arith, eq_iff co k)
              ])
      ]

  -- A checkout changes no course's counter of carts.
  checkout_cart-carts_of :
      (k : String) (pay : Payments) (now : ℕ) (student : String) (hash : Option String)
      (s : State db)
      → carts_of k (checkout_cart db pay now student hash s).1 ≡ carts_of k s
  checkout_cart-carts_of k pay now student hash s =
      checkout_cart_keeps db pay now student hash (λ t. carts_of k t ≡ carts_of k s)
        (checkout_item-carts_of k (carts_of k s) pay now student hash) s refl

  -- Where the counters of carts were right, a checkout that changes the number of items that
  -- name a course on record leaves some counter wrong.
  pub checkout_cart-miscounts :
      (k : String) (c : Course) (pay : Payments) (now : ℕ) (student : String) (hash : Option String)
      (s : State db)
      → IsCounted db s
      → first (has_id k) (all s.courses) ≡ some c
      → tally (refers db k) (all (checkout_cart db pay now student hash s).1.cart_items)
        ≢ tally (refers db k) (all s.cart_items)
      → ¬ IsCounted db (checkout_cart db pay now student hash s).1
  checkout_cart-miscounts k c pay now student hash s h f fewer after =
      let t = (checkout_cart db pay now student hash s).1 in
      elim (Option-cases (first (has_id k) (all t.courses))) [
        | inl gone ↦ ground (arith, checkout_cart-carts_of k pay now student hash s)
        | inr (b, found) ↦ ground (
          arith,
          checkout_cart-carts_of k pay now student hash s,
          h.counted k c f,
          after.counted k b found,
        )
      ]
