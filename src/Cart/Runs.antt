-- ===== src/Cart/Runs.antt =====
-- The requests of src/student-cart/student-cart.controller.ts one after another, and `clearCart`.
use mathlib.Core.Option.{get_or}
use chain_verse_backend.Base.{
  ℕ, ◌≡◌, refl, sym, ap, ◌∙◌, map, inl, inr, String, Bool, Option, List, [], ◌∷◌, arith, tally,
  amend_first, All-amend_first, Option-cases,
}
use chain_verse_backend.Base.Int.{pos}
use chain_verse_backend.Http.{ok}
use chain_verse_backend.Mongo.{Mongo}
use chain_verse_backend.Market.{CartItem, State, is_item, is_of, find_courses_cases}
use chain_verse_backend.Cart.{add, get_cart, update, remove, clear_cart}
use chain_verse_backend.Cart.Counts.{
  IsCounted, refers, add-IsCounted, remove-IsCounted, clear_cart-IsCounted,
}

-- A request, with the id of its student.
pub data CartRequest : Type 0 where
  add_to_cart remove_from_cart : (student course : String) → CartRequest
  see_cart empty_cart : (student : String) → CartRequest
  change_in_cart : (student course : String) → Option ℕ → CartRequest

abbrev put_quantity : Option ℕ → CartItem → CartItem
put_quantity n i = record i { quantity = get_or n i.quantity }

-- A change that a test does not see.
tally-amend_first :
    {A : Type 0} (p q : A → Bool) (f : A → A) (l : List A)
    → ((x : A) → p (f x) ≡ p x)
    → tally p (amend_first q f l) ≡ tally p l
tally-amend_first p q f [] h = refl
tally-amend_first p q f (x ∷ l) h = ground (arith, h x, tally-amend_first p q f l h)

module _ (db : Mongo) where
  open db use {all, update_one, all-update_one, find, find_one}

  -- The state after a request, whatever its answer.
  unfoldable pub serve_cart : CartRequest → State db → State db
  serve_cart (add_to_cart st co) s = (add db st co s).1
  serve_cart (see_cart st) s = (get_cart db st s).1
  serve_cart (change_in_cart st co n) s = (update db st co n s).1
  serve_cart (remove_from_cart st co) s = (remove db st co s).1
  serve_cart (empty_cart st) s = (clear_cart db st s).1

  unfoldable pub serve_carts : List CartRequest → State db → State db
  serve_carts [] s = s
  serve_carts (r ∷ rs) s = serve_carts rs (serve_cart r s)

  put_quantity-IsCounted :
      (st co : String) (n : Option ℕ) (s : State db)
      → IsCounted db s
      → IsCounted db
          (record s { cart_items = update_one (is_item st co) (put_quantity n) s.cart_items })
  put_quantity-IsCounted st co n s h = record {
    named =
        rw all-update_one (
          All-amend_first _ (is_item st co) (put_quantity n) (all s.cart_items) (λ i k. k) h.named);
    counted = λ k c f.
        h.counted k c f
        ∙ ap pos (
            rw all-update_one (
              sym (
                tally-amend_first (refers db k) (is_item st co) (put_quantity n) (all s.cart_items)
                  (λ i. refl))));
  }

  update-IsCounted :
      (st co : String) (n : Option ℕ) (s : State db)
      → IsCounted db s
      → IsCounted db (update db st co n s).1
  unfolding update
  update-IsCounted st co n s h = elim (Option-cases (find_one (is_item st co) s.cart_items)) [
    | inl missing ↦ rw missing h
    | inr (i, found) ↦ rw found (put_quantity-IsCounted st co n s h)
  ]

  get_cart_same : (st : String) (s : State db) → (get_cart db st s).1 ≡ s
  unfolding get_cart
  get_cart_same st s =
      elim (find_courses_cases db
        (map (λ (i : CartItem). i.course_id) (find (is_of st) s.cart_items)) s) [
          | inl (e, bad) ↦ ground arith
          | inr (ks, good) ↦ ground arith
        ]

  serve_cart-IsCounted :
      (r : CartRequest) (s : State db) → IsCounted db s → IsCounted db (serve_cart r s)
  unfolding serve_cart
  serve_cart-IsCounted (add_to_cart st co) s h = add-IsCounted db st co s h
  serve_cart-IsCounted (see_cart st) s h = rw (get_cart_same st s) h
  serve_cart-IsCounted (change_in_cart st co n) s h = update-IsCounted st co n s h
  serve_cart-IsCounted (remove_from_cart st co) s h = remove-IsCounted db st co s h
  serve_cart-IsCounted (empty_cart st) s h = (clear_cart-IsCounted db st s h).0

  -- In a state where every item names a course by an id and every course counts the items that
  -- name it, any requests to the carts, whatever their answers, keep both so; and after them
  -- `clear_cart` does not fail.
  pub serve_carts-IsCounted :
      (rs : List CartRequest) (s : State db) (st : String)
      → IsCounted db s
      → IsCounted db (serve_carts rs s) × ((clear_cart db st (serve_carts rs s)).0 ≡ ok st)
  unfolding serve_carts
  serve_carts-IsCounted [] s st h = (h, (clear_cart-IsCounted db st s h).1)
  serve_carts-IsCounted (r ∷ rs) s st h =
      serve_carts-IsCounted rs (serve_cart r s) st (serve_cart-IsCounted r s h)
