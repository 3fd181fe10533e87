-- ===== src/Cart/Counts.antt =====
-- The denormalised counter `totalCarts` of a course against the items in the carts.
use chain_verse_backend.Base.{
  ℕ, ◌+◌, String, ◌≡◌, refl, ap, ◌∙◌, ◌⊎◌, inl, inr, Bool, true, false, none, some, List, [], ◌∷◌,
  ◌===◌, arith, eq_iff, first, tally, drop_first, bit, select, tally-append, All, All-append,
  All-drop_first, All-drop_all, All-select, tally-select-drop_all, is_some, Option-cases,
  Bool-cases,
}
use chain_verse_backend.Base.Int.{pos, ◌+ℤ◌, ◌-ℤ◌}
use chain_verse_backend.Http.{ok}
use chain_verse_backend.Mongo.{Mongo}
use chain_verse_backend.Market.{Course, CartItem, first-amend_first, has_id, is_item, is_of, State}
use chain_verse_backend.Cart.{raise_carts, lower_carts, add, remove, lower_each, clear_cart}

module _ (db : Mongo) where
  open db use {
    Store, all, insert, update_one, delete_one, delete_many, to_object_id, object_id, all-insert,
    all-update_one, all-delete_one, all-delete_many, find_lem, find_one_lem,
  }

  -- The item names the course with this id.
  abbrev pub refers : String → CartItem → Bool
  refers k i = elim (to_object_id i.course_id) [ none ↦ false | some j ↦ j === k ]

  -- Every item names a course by an id, and every course counts the items that name it.
  pub record IsCounted (s : State db) : Type 0 where
    pub named : All (λ i. is_some (to_object_id i.course_id) ≡ true) (all s.cart_items)
    pub counted :
        (k : String) (c : Course)
        → first (has_id k) (all s.courses) ≡ some c
        → c.total_carts ≡ pos (tally (refers k) (all s.cart_items))

  -- The state after an item has been added.
  abbrev added : String → String → String → State db → State db
  added k st co s = record s {
    courses = update_one (has_id k) raise_carts s.courses;
    cart_items =
        insert (record { id = object_id s.minted; student_id = st; course_id = co; quantity = 1 })
          s.cart_items;
    minted = s.minted + 1;
  }

  add_cases :
      (st co : String) (s : State db)
      → ((add db st co s).1 ≡ s)
        ⊎ ((k : String) × (to_object_id co ≡ some k) × ((add db st co s).1 ≡ added k st co s))
  unfolding add
  add_cases st co s = ground arith

  added-IsCounted :
      (k st co : String) (s : State db)
      → to_object_id co ≡ some k
      → IsCounted s
      → IsCounted (added k st co s)
  unfolding ◌+ℤ◌
  added-IsCounted k st co s e h = record {
    named = rw all-insert (All-append _ (all s.cart_items) _ h.named (rw (e, is_some) refl, tt));
    counted = λ j c.
        rw (all-insert, all-update_one, tally-append, first-amend_first)
          (elim (Option-cases (first (has_id j) (all s.courses))) [
            | inl missing ↦ ground (arith, eq_iff k j)
            | inr (b, found) ↦ ground (arith, eq_iff k j, h.counted j b)
          ]);
  }

  -- In a state where every item names a course by an id and every course counts the items that
  -- name it, `add` keeps both so, whatever it answers.
  pub add-IsCounted : (st co : String) (s : State db) → IsCounted s → IsCounted (add db st co s).1
  add-IsCounted st co s h = elim (add_cases st co s) [
    | inl same ↦ rw same h
    | inr (k, e, put) ↦ rw put (added-IsCounted k st co s e h)
  ]

  -- The state after the first item of a student for a course has been taken out.
  abbrev removed : String → String → String → State db → State db
  removed k st co s = record s {
    courses = update_one (has_id k) lower_carts s.courses;
    cart_items = delete_one (is_item st co) s.cart_items;
  }

  tally-drop_first :
      (st co k : String) (l : List CartItem) (i : CartItem)
      → first (is_item st co) l ≡ some i
      → to_object_id co ≡ some k
      → (j : String)
      → tally (refers j) l ≡ tally (refers j) (drop_first (is_item st co) l) + bit (k === j)
  tally-drop_first st co k [] i h e j = cc
  tally-drop_first st co k (x ∷ l) i h e j = elim (Bool-cases (is_item st co x)) [
    | inl here ↦ ground (arith, eq_iff x.course_id co)
    | inr there ↦
        let f : first (is_item st co) l ≡ some i = ground arith in
        ground (arith, tally-drop_first st co k l i f e j)
  ]

  remove_cases :
      (st co : String) (s : State db)
      → ((remove db st co s).1 ≡ s)
        ⊎ ((i : CartItem) × (first (is_item st co) (all s.cart_items) ≡ some i)
            × (((k : String) × (to_object_id co ≡ some k)
                  × ((remove db st co s).1 ≡ removed k st co s))
                ⊎ (to_object_id co ≡ none)))
  unfolding remove
  remove_cases st co s = ground (arith, find_one_lem (is_item st co) s.cart_items)

  named_of_first :
      (st co : String) (l : List CartItem) (i : CartItem)
      → first (is_item st co) l ≡ some i
      → All (λ x. is_some (to_object_id x.course_id) ≡ true) l
      → is_some (to_object_id co) ≡ true
  named_of_first st co [] i h a = cc
  named_of_first st co (x ∷ l) i h a =
      ground (arith, eq_iff x.course_id co, named_of_first st co l i)

  removed-IsCounted :
      (k st co : String) (s : State db) (i : CartItem)
      → first (is_item st co) (all s.cart_items) ≡ some i
      → to_object_id co ≡ some k
      → IsCounted s
      → IsCounted (removed k st co s)
  unfolding ◌-ℤ◌
  removed-IsCounted k st co s i f e h = record {
    named = rw all-delete_one (All-drop_first _ (is_item st co) _ h.named);
    counted = λ j c.
        rw (all-delete_one, all-update_one, first-amend_first)
          (elim (Option-cases (first (has_id j) (all s.courses))) [
            | inl missing ↦ ground (arith, eq_iff k j)
            | inr (b, found) ↦ ground (
              arith,
              eq_iff k j,
              h.counted j b,
              tally-drop_first st co k (all s.cart_items) i f e j,
            )
          ]);
  }

  -- In a state where every item names a course by an id and every course counts the items that
  -- name it, `remove` keeps both so, whatever it answers.
  pub remove-IsCounted :
      (st co : String) (s : State db) → IsCounted s → IsCounted (remove db st co s).1
  remove-IsCounted st co s h = elim (remove_cases st co s) [
    | inl same ↦ rw same h
    | inr (i, f, inl (k, e, gone)) ↦ rw gone (removed-IsCounted k st co s i f e h)
    | inr (i, f, inr bad) ↦ ground (arith, named_of_first st co (all s.cart_items) i f h.named)
  ]

  -- The courses after the counter of each item's course has been lowered.
  lowered : List CartItem → Store Course → Store Course
  lowered [] cs = cs
  lowered (i ∷ is) cs = lowered is (elim (to_object_id i.course_id) [
    | none ↦ cs
    | some k ↦ update_one (has_id k) lower_carts cs
  ])

  lower_each-lowered :
      (is : List CartItem) (s : State db)
      → All (λ i. is_some (to_object_id i.course_id) ≡ true) is
      → lower_each db is s ≡ (ok tt, record s { courses = lowered is s.courses })
  unfolding lower_each lowered
  lower_each-lowered [] s h = refl
  lower_each-lowered (i ∷ is) s h = elim (Option-cases (to_object_id i.course_id)) [
    | inl bad ↦ ground (arith)
    | inr (k, e) ↦ ground (
      arith,
      lower_each-lowered is (record s { courses = update_one (has_id k) lower_carts s.courses })
          h.1,
    )
  ]

  lowered_counts :
      (is : List CartItem) (cs : Store Course) (k : String) (n : ℕ)
      → ((b : Course)
          → first (has_id k) (all cs) ≡ some b
          → b.total_carts ≡ pos (tally (refers k) is + n))
      → (c : Course) → first (has_id k) (all (lowered is cs)) ≡ some c
      → c.total_carts ≡ pos n
  unfolding lowered ◌-ℤ◌
  lowered_counts [] cs k n h = λ c f. ground (arith, h c f)
  lowered_counts (i ∷ is) cs k n h = elim (Option-cases (to_object_id i.course_id)) [
    | inl bad ↦ rw (bad, lowered) (lowered_counts is cs k n (λ b f. ground (arith, h b f)))
    | inr (j, e) ↦
        rw (e, lowered)
          (lowered_counts is (update_one (has_id j) lower_carts cs) k n (λ b.
            rw (all-update_one, first-amend_first)
              (elim (Option-cases (first (has_id k) (all cs))) [
                | inl missing ↦ ground (arith, eq_iff j k)
                | inr (a, found) ↦ ground (arith, eq_iff j k, h a)
              ])))
  ]

  abbrev cleared : String → State db → State db
  cleared st s = record s {
    courses = lowered (select (is_of st) (all s.cart_items)) s.courses;
    cart_items = delete_many (is_of st) s.cart_items;
  }

  clear_cart-cleared :
      (st : String) (s : State db) → IsCounted s → clear_cart db st s ≡ (ok st, cleared st s)
  unfolding clear_cart
  clear_cart-cleared st s h =
      let named = All-select _ (is_of st) (all s.cart_items) h.named in
      ground (
        arith,
        find_lem (is_of st) s.cart_items,
        lower_each-lowered (select (is_of st) (all s.cart_items)) s named,
      )

  -- In a state where every item names a course by an id and every course counts the items that
  -- name it, `clear_cart` keeps both so, and it cannot fail.
  pub clear_cart-IsCounted :
      (st : String) (s : State db)
      → IsCounted s
      → IsCounted (clear_cart db st s).1 × ((clear_cart db st s).0 ≡ ok st)
  clear_cart-IsCounted st s h = rw (clear_cart-cleared st s h) (
    record {
      named = rw all-delete_many (All-drop_all _ (is_of st) _ h.named);
      counted = λ k. rw all-delete_many (
          lowered_counts (select (is_of st) (all s.cart_items)) s.courses k _
            (λ b f. h.counted k b f ∙ ap pos (tally-select-drop_all (refers k) (is_of st) _)));
    },
    refl,
  )
