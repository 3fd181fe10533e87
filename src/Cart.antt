-- ===== src/Cart.antt =====
-- `StudentCartService` of src/student-cart/student-cart.service.ts.
pub mod Counts
pub mod Runs
use mathlib.Core.Option.{get_or}
use chain_verse_backend.Base.{
  ℕ, ◌+◌, String, Bool, true, false, not, Option, none, some, List, [], ◌∷◌, ◌===◌, map, first,
  length, is_some,
}
use chain_verse_backend.Base.Int.{pos, ◌+ℤ◌, ◌-ℤ◌}
use chain_verse_backend.Http.{
  Action, ok, raise, throw_if, or_throw, gets, modify, pure, ◌>>=◌, ◌>>◌, bad_request, not_found,
  conflict, duplicate_key,
}
use chain_verse_backend.Mongo.{Mongo}
use chain_verse_backend.Market.{
  is_published, Course, CartItem, has_id, is_item, is_of, State, find_course, find_courses,
  update_course, mint,
}

-- What the cart shows of a course.
pub record CourseCard : Type 0 where
  pub id : String
  pub title : String
  pub price : ℕ
  pub thumbnail_url : Option String
  pub tutor_name : String

pub record CartView : Type 0 where
  pub student_id : String
  pub items : List (CartItem × CourseCard)
  pub total_items : ℕ
  pub total_price : ℕ

abbrev pub raise_carts : Course → Course
raise_carts c = record c { total_carts = c.total_carts +ℤ pos 1 }

abbrev pub lower_carts : Course → Course
lower_carts c = record c { total_carts = c.total_carts -ℤ pos 1 }

abbrev pub card : Course → CourseCard
card c = record {
  id = c.id;
  title = c.title;
  price = c.price;
  thumbnail_url = c.thumbnail_url;
  tutor_name = c.tutor_name;
}

-- Each item with the course of its id, as the map of the fetched courses gives it; items of other
-- courses are dropped.
unfoldable pub with_cards : List Course → List CartItem → List (CartItem × CourseCard)
with_cards cs [] = []
with_cards cs (i ∷ is) = elim (first (has_id i.course_id) cs) [
  | none ↦ with_cards cs is
  | some c ↦ (i, card c) ∷ with_cards cs is
]

unfoldable pub price_sum : List (CartItem × CourseCard) → ℕ
price_sum [] = 0
price_sum ((_, c) ∷ r) = c.price + price_sum r

module _ (db : Mongo) where
  open db use {find, find_one, count, insert, update_one, delete_one, delete_many}

  -- `new this.cartItemModel({ studentId, courseId }).save()`, with its unique index.
  unfoldable pub save_item : String → String → Action (State db) CartItem
  unfolding mint
  save_item st co = do
    id ← mint db
    let item : CartItem = record { id = id; student_id = st; course_id = co; quantity = 1 }
    clash ← gets (λ s. find_one (is_item st co) s.cart_items)
    throw_if (is_some clash) duplicate_key
    modify (λ s. record s { cart_items = insert item s.cart_items })
    pure item

  unfoldable pub add : String → String → Action (State db) CartItem
  unfolding find_course update_course save_item
  add student_id course_id = do
    throw_if (course_id === "") (bad_request "Invalid course ID")
    course ← or_throw (← find_course db course_id) (not_found "Course not found")
    throw_if (not (is_published course.status)) (bad_request "Course is not available for purchase")
    existing ← gets (λ s. find_one (is_item student_id course_id) s.cart_items)
    throw_if (is_some existing) (conflict "Course already in cart")
    update_course db course_id raise_carts
    save_item student_id course_id

  unfoldable pub get_cart : String → Action (State db) CartView
  unfolding find_courses with_cards price_sum
  get_cart student_id = do
    items ← gets (λ s. find (is_of student_id) s.cart_items)
    courses ← find_courses db (map (λ (i : CartItem). i.course_id) items)
    let valid : List (CartItem × CourseCard) = with_cards courses items
    pure (record {
      student_id = student_id;
      items = valid;
      total_items = length valid;
      total_price = price_sum valid;
    })

  -- The payload of `update` is an optional quantity.
  unfoldable pub update : String → String → Option ℕ → Action (State db) CartItem
  update student_id course_id payload = do
    let put : CartItem → CartItem = λ i. record i { quantity = get_or payload i.quantity }
    item ← gets (λ s. find_one (is_item student_id course_id) s.cart_items)
    found ← or_throw item (not_found "Cart item not found")
    modify
        (λ s. record s { cart_items = update_one (is_item student_id course_id) put s.cart_items })
    pure (put found)

  unfoldable pub remove : String → String → Action (State db) (String × String)
  unfolding update_course
  remove student_id course_id = do
    item ← gets (λ s. find_one (is_item student_id course_id) s.cart_items)
    found ← or_throw item (not_found "Cart item not found")
    modify (λ s. record s { cart_items = delete_one (is_item student_id course_id) s.cart_items })
    update_course db course_id lower_carts
    pure (student_id, course_id)

  -- `Promise.all` over the updates: each of them runs, and the first failure is thrown.
  unfoldable pub lower_each : List CartItem → Action (State db) (Unit {0})
  unfolding update_course
  lower_each [] s = (ok tt, s)
  lower_each (i ∷ is) s =
      let (r, s') = update_course db i.course_id lower_carts s in
      let (r', s'') = lower_each is s' in (elim r [ ok _ ↦ r' | raise e ↦ raise e ], s'')

  unfoldable pub clear_cart : String → Action (State db) String
  unfolding lower_each
  clear_cart student_id = do
    items ← gets (λ s. find (is_of student_id) s.cart_items)
    lower_each items
    modify (λ s. record s { cart_items = delete_many (is_of student_id) s.cart_items })
    pure student_id

  unfoldable pub get_count : String → Action (State db) ℕ
  get_count student_id = gets (λ s. count (is_of student_id) s.cart_items)
