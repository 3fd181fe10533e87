-- ===== src/Counters.antt =====
-- Records that name a course by a text, and how many of them name the course with one id.
use chain_verse_backend.Base.{
  ◌+◌, String, ◌≡◌, inl, inr, Bool, true, false, none, some, List, [], ◌∷◌, ◌===◌, arith, first,
  tally, drop_first, bit, is_some, Bool-cases,
}
use chain_verse_backend.Mongo.{Mongo}

module _ (db : Mongo) {I : Type 0} (course_of : I → String) where
  open db use {to_object_id}

  -- The text is an id of the course.
  abbrev pub refers_to : String → I → Bool
  refers_to k i = elim (to_object_id (course_of i)) [ none ↦ false | some j ↦ j === k ]

  abbrev pub IsNamed : I → Type 0
  IsNamed i = is_some (to_object_id (course_of i)) ≡ true

  -- Without the first record that passes a test for the course, one less names it.
  pub tally-refers_to-drop_first :
      (p : I → Bool) (co k : String) (l : List I) (i : I)
      → ((x : I) → p x ≡ true → course_of x ≡ co)
      → first p l ≡ some i
      → to_object_id co ≡ some k
      → (j : String) → tally (refers_to j) l ≡ tally (refers_to j) (drop_first p l) + bit (k === j)
  tally-refers_to-drop_first p co k [] i own h e j = cc
  tally-refers_to-drop_first p co k (x ∷ l) i own h e j = elim (Bool-cases (p x)) [
    | inl here ↦ ground (arith, own x here)
    | inr there ↦
        let f : first p l ≡ some i = ground arith in
        ground (arith, tally-refers_to-drop_first p co k l i own f e j)
  ]
