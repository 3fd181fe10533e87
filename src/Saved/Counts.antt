-- ===== src/Saved/Counts.antt =====
-- The denormalised counter `totalWishlists` of a course against the saved courses.
use chain_verse_backend.Base.{
  ◌+◌, String, ◌≡◌, refl, ◌⊎◌, inl, inr, true, some, [], ◌∷◌, ◌++◌, arith, eq_iff, first, tally,
  tally-append, All, All-append, All-drop_first, is_some, Option-cases,
}
use chain_verse_backend.Base.Int.{pos, ◌+ℤ◌, ◌-ℤ◌}
use chain_verse_backend.Mongo.{Mongo}
use chain_verse_backend.Market.{Course, SavedCourse, first-amend_first, has_id, State, course_saved}
use chain_verse_backend.Counters.{refers_to, IsNamed, tally-refers_to-drop_first}
use chain_verse_backend.Saved.{raise_wishlists, lower_wishlists, is_saved, save_for, unsave}

abbrev pub course_of : SavedCourse → String
course_of x = x.course_id

module _ (db : Mongo) where
  open db use {
    Store, all, insert, update_one, delete_one, to_object_id, object_id, all-insert, all-update_one,
    all-delete_one, find_one_lem,
  }

  -- Every record names a course by an id, and every course counts the records that name it.
  pub record IsWished (s : State db) : Type 0 where
    pub named : All (IsNamed db course_of) (all s.saved)
    pub counted :
        (k : String) (c : Course)
        → first (has_id k) (all s.courses) ≡ some c
        → c.total_wishlists ≡ pos (tally (refers_to db course_of k) (all s.saved))

  -- The state after a course has been saved.
  abbrev pub saved_to : String → String → String → State db → State db
  saved_to k st co s = record s {
    courses = update_one (has_id k) raise_wishlists s.courses;
    saved = insert (record { id = object_id s.minted; student_id = st; course_id = co }) s.saved;
    events = s.events ++ course_saved st co ∷ [];
    minted = s.minted + 1;
  }

  save_for_cases :
      (st co : String) (s : State db)
      → ((save_for db st co s).1 ≡ s)
        ⊎ ((k : String) × (to_object_id co ≡ some k)
            × ((save_for db st co s).1 ≡ saved_to k st co s))
  unfolding save_for
  save_for_cases st co s = ground arith

  saved_to-IsWished :
      (k st co : String) (s : State db)
      → to_object_id co ≡ some k
      → IsWished s
      → IsWished (saved_to k st co s)
  unfolding ◌+ℤ◌
  saved_to-IsWished k st co s e h = record {
    named = rw all-insert (All-append _ (all s.saved) _ h.named (rw (e, is_some) refl, tt));
    counted = λ j c.
        rw (all-insert, all-update_one, tally-append, first-amend_first)
          (elim (Option-cases (first (has_id j) (all s.courses))) [
            | inl missing ↦ ground (arith, eq_iff k j)
            | inr (b, found) ↦ ground (arith, eq_iff k j, h.counted j b)
          ]);
  }

  -- A call of `save_for`, whatever its answer, keeps it so that every saved record names a
  -- course by an id and that every course counts in `total_wishlists` the saved records that
  -- name it.
  pub save_for-IsWished :
      (st co : String) (s : State db) → IsWished s → IsWished (save_for db st co s).1
  save_for-IsWished st co s h = elim (save_for_cases st co s) [
    | inl same ↦ rw same h
    | inr (k, e, put) ↦ rw put (saved_to-IsWished k st co s e h)
  ]

  abbrev unsaved : String → String → String → State db → State db
  unsaved k st co s = record s {
    courses = update_one (has_id k) lower_wishlists s.courses;
    saved = delete_one (is_saved st co) s.saved;
  }

  unsave_cases :
      (st co : String) (s : State db)
      → ((unsave db st co s).1 ≡ s)
        ⊎ ((x : SavedCourse) × (k : String) × (first (is_saved st co) (all s.saved) ≡ some x)
            × (to_object_id co ≡ some k)
            × ((unsave db st co s).1 ≡ unsaved k st co s))
  unfolding unsave
  unsave_cases st co s = ground (arith, find_one_lem (is_saved st co) s.saved)

  is_saved-course_of :
      (st co : String) (x : SavedCourse) → is_saved st co x ≡ true → x.course_id ≡ co
  is_saved-course_of st co x h = ground (arith, eq_iff x.course_id co)

  unsaved-IsWished :
      (k st co : String) (s : State db) (x : SavedCourse)
      → first (is_saved st co) (all s.saved) ≡ some x
      → to_object_id co ≡ some k
      → IsWished s
      → IsWished (unsaved k st co s)
  unfolding ◌-ℤ◌
  unsaved-IsWished k st co s x f e h = record {
    named = rw all-delete_one (All-drop_first _ (is_saved st co) _ h.named);
    counted = λ j c.
        rw (all-delete_one, all-update_one, first-amend_first)
          (elim (Option-cases (first (has_id j) (all s.courses))) [
            | inl missing ↦ ground (arith, eq_iff k j)
            | inr (b, found) ↦ ground (
              arith,
              eq_iff k j,
              h.counted j b,
              tally-refers_to-drop_first db course_of (is_saved st co) co k (all s.saved) x
                  (is_saved-course_of st co) f e j,
            )
          ]);
  }

  -- A call of `unsave`, whatever its answer, keeps it so that every saved record names a
  -- course by an id and that every course counts in `total_wishlists` the saved records that
  -- name it.
  pub unsave-IsWished :
      (st co : String) (s : State db) → IsWished s → IsWished (unsave db st co s).1
  unsave-IsWished st co s h = elim (unsave_cases st co s) [
    | inl same ↦ rw same h
    | inr (x, k, f, e, gone) ↦ rw gone (unsaved-IsWished k st co s x f e h)
  ]
