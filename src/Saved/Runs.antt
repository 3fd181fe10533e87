-- ===== src/Saved/Runs.antt =====
-- The requests of src/student-saved-courses/student-saved-courses.controller.ts one after another.
use chain_verse_backend.Base.{
  ◌≡◌, refl, inl, inr, String, List, [], ◌∷◌, arith, Option-cases, Bool-cases, is_blank,
}
use chain_verse_backend.Http.{Result-cases}
use chain_verse_backend.Mongo.{Mongo}
use chain_verse_backend.Market.{SavedCourse, State, find_course}
use chain_verse_backend.Saved.{save_for, saved_cards, list_saved, unsave, is_saved_by}
use chain_verse_backend.Saved.Counts.{IsWished, save_for-IsWished, unsave-IsWished}

-- A request: the student of the token saves a course, and the student of the path is listed or
-- forgets one.
pub data SavedRequest : Type 0 where
  save_course unsave_course : (student course : String) → SavedRequest
  see_saved : (student : String) → SavedRequest

module _ (db : Mongo) where
  open db use {find, to_object_id}

  -- The state after a request, whatever its answer.
  unfoldable pub serve_saved : SavedRequest → State db → State db
  serve_saved (save_course st co) s = (save_for db st co s).1
  serve_saved (see_saved st) s = (list_saved db st s).1
  serve_saved (unsave_course st co) s = (unsave db st co s).1

  unfoldable pub serve_all_saved : List SavedRequest → State db → State db
  serve_all_saved [] s = s
  serve_all_saved (r ∷ rs) s = serve_all_saved rs (serve_saved r s)

  find_course_same : (id : String) (s : State db) → (find_course db id s).1 ≡ s
  unfolding find_course
  find_course_same id s = elim (Option-cases (to_object_id id)) [
    | inl bad ↦ ground arith
    | inr (k, good) ↦ ground arith
  ]

  saved_cards_same : (xs : List SavedCourse) (s : State db) → (saved_cards db xs s).1 ≡ s
  unfolding saved_cards
  saved_cards_same [] s = refl
  saved_cards_same (x ∷ xs) s = elim (Result-cases (find_course db x.course_id s).0) [
    | inl (e, bad) ↦ ground (arith, find_course_same x.course_id s)
    | inr (c, good) ↦ elim (Result-cases (saved_cards db xs s).0) [
      | inl (e, worse) ↦ ground (arith, find_course_same x.course_id s, saved_cards_same xs s)
      | inr (cards, better) ↦ ground (arith, find_course_same x.course_id s, saved_cards_same xs s)
    ]
  ]

  list_saved_same : (st : String) (s : State db) → (list_saved db st s).1 ≡ s
  unfolding list_saved
  list_saved_same st s = elim (Bool-cases (is_blank st)) [
    | inl bad ↦ ground arith
    | inr good ↦ elim (Result-cases (saved_cards db (find (is_saved_by st) s.saved) s).0) [
      | inl (e, worse) ↦ ground (arith, saved_cards_same (find (is_saved_by st) s.saved) s)
      | inr (cards, better) ↦ ground (arith, saved_cards_same (find (is_saved_by st) s.saved) s)
    ]
  ]

  serve_saved-IsWished :
      (r : SavedRequest) (s : State db) → IsWished db s → IsWished db (serve_saved r s)
  unfolding serve_saved
  serve_saved-IsWished (save_course st co) s h = save_for-IsWished db st co s h
  serve_saved-IsWished (see_saved st) s h = rw (list_saved_same st s) h
  serve_saved-IsWished (unsave_course st co) s h = unsave-IsWished db st co s h

  -- Where every saved record names a course by an id and every course counts in
  -- `total_wishlists` the saved records that name it, any requests to the saved courses,
  -- whatever their answers, keep both so.
  pub serve_all_saved-IsWished :
      (rs : List SavedRequest) (s : State db) → IsWished db s → IsWished db (serve_all_saved rs s)
  unfolding serve_all_saved
  serve_all_saved-IsWished [] s h = h
  serve_all_saved-IsWished (r ∷ rs) s h =
      serve_all_saved-IsWished rs (serve_saved r s) (serve_saved-IsWished r s h)
