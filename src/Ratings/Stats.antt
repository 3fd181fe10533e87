-- ===== src/Ratings/Stats.antt =====
-- The denormalised statistics of a course against its ratings.
use chain_verse_backend.Base.{
  ℕ, ◌+◌, ◌≤◌, String, ◌≡◌, ◌≢◌, refl, sym, ◌∙◌, ◌⊎◌, inl, inr, false, ◌&&◌, some, List, [], ◌∷◌,
  ◌===◌, arith, eq_iff, first, tally, amend_first, select, length, All, All-append, All-drop_first,
  All-select, Option-cases, Bool-cases,
}
use chain_verse_backend.Http.{ok}
use chain_verse_backend.Mongo.{Mongo}
use chain_verse_backend.Market.{Course, CourseRating, first-amend_first, has_id, is_live, State}
use chain_verse_backend.Ratings.{
  Rounding, CreateRating, UpdateRating, RatingSummary, is_rating, is_rating_of, out_of_range,
  average, put_rating, put_averages, rate, update_rating, remove_rating, find_all_for_course,
}
use chain_verse_backend.Courses.Lookup.{first_of_live}
use chain_verse_backend.Ratings.Means.{IsInRange}
use chain_verse_backend.Ratings.Changes.{
  select-amend_first, select-drop_first, select-snoc, All-amend_first-IsInRange, average_cases,
}

module _ (rnd : Rounding) (db : Mongo) where
  open db use {
    all, insert, update_one, delete_one, to_object_id, object_id, find, all-insert, all-update_one,
    all-delete_one, find_one_lem, find_lem,
  }

  -- The ratings of a course, by the text of its id.
  abbrev pub ratings_of : String → State db → List CourseRating
  ratings_of k s = select (is_rating_of k) (all s.ratings)

  -- Ratings are in range, and each course has their number and their average.
  pub record IsRated (s : State db) : Type 0 where
    pub bounded : All IsInRange (all s.ratings)
    pub counted :
        (k : String) (c : Course)
        → first (has_id k) (all s.courses) ≡ some c
        → (c.total_reviews ≡ length (ratings_of k s))
          × (c.average_rating ≡ average rnd (ratings_of k s))

  -- A change of the ratings of one course, followed by a refresh of its statistics.
  refreshed-IsRated :
      (co : String) (s t : State db)
      → ((j : String) → co ≢ j → ratings_of j t ≡ ratings_of j s)
      → all t.courses ≡ amend_first (has_id co) (put_averages rnd (ratings_of co t)) (all s.courses)
      → All IsInRange (all t.ratings)
      → IsRated s
      → IsRated t
  refreshed-IsRated co s t others put range h = record {
    bounded = range;
    counted = λ k c.
        rw (put, first-amend_first)
          (elim (Bool-cases (co === k)) [
            | inl same ↦ elim (Option-cases (first (has_id k) (all s.courses))) [
              | inl missing ↦ ground arith
              | inr (b, found) ↦ ground (arith, eq_iff co k)
            ]
            | inr other ↦ λ f. ground (arith, eq_iff co k, others k, h.counted k c)
          ]);
  }

  abbrev rated : String → String → CreateRating → State db → State db
  rated co st d s =
      let r : CourseRating = record {
        id = object_id s.minted;
        course_id = co;
        student_id = st;
        rating = d.rating;
        feedback = d.feedback;
      } in
      record s {
        ratings = insert r s.ratings;
        courses =
            update_one (has_id co) (put_averages rnd (find (is_rating_of co) (insert r s.ratings)))
              s.courses;
        minted = s.minted + 1;
      }

  rate_cases :
      (co st : String) (d : CreateRating) (s : State db)
      → to_object_id co ≡ some co
      → ((rate rnd db co st d s).1 ≡ s)
        ⊎ ((out_of_range d.rating ≡ false) × ((rate rnd db co st d s).1 ≡ rated co st d s))
  unfolding rate
  rate_cases co st d s e = ground arith

  -- A call of `rate` with a course id in its cast form, whatever its answer, keeps it so that
  -- all ratings are from 1 to 5 and that each course shows the number of its ratings and their
  -- rounded average.
  pub rate-IsRated :
      (co st : String) (d : CreateRating) (s : State db)
      → to_object_id co ≡ some co
      → IsRated s
      → IsRated (rate rnd db co st d s).1
  rate-IsRated co st d s e h = elim (rate_cases co st d s e) [
    | inl same ↦ rw same h
    | inr (good, put) ↦
        let r : CourseRating = record {
          id = object_id s.minted;
          course_id = co;
          student_id = st;
          rating = d.rating;
          feedback = d.feedback;
        } in
        rw put (
          refreshed-IsRated co s (rated co st d s)
            (λ j ne. rw all-insert (select-snoc co j r (all s.ratings) refl ne))
            (rw (all-update_one, find_lem) refl)
            (rw all-insert (All-append IsInRange (all s.ratings) (r ∷ []) h.bounded (ground arith)))
            h)
  ]

  abbrev amended : String → String → UpdateRating → State db → State db
  amended co st d s = record s {
    ratings = update_one (is_rating co st) (put_rating d) s.ratings;
    courses =
        update_one (has_id co)
          (put_averages rnd
            (find (is_rating_of co) (update_one (is_rating co st) (put_rating d) s.ratings)))
          s.courses;
  }

  update_rating_cases :
      (co st : String) (d : UpdateRating) (s : State db)
      → to_object_id co ≡ some co
      → ((update_rating rnd db co st d s).1 ≡ s)
        ⊎ (((n : ℕ) → d.rating ≡ some n → out_of_range n ≡ false)
            × ((update_rating rnd db co st d s).1 ≡ amended co st d s))
  unfolding update_rating
  update_rating_cases co st d s e = elim (Option-cases d.rating) [
    | inl none_given ↦ ground arith
    | inr (m, given) ↦ ground arith
  ]

  -- A call of `update_rating` with a course id in its cast form, whatever its answer, keeps it
  -- so that all ratings are from 1 to 5 and that each course shows the number of its ratings
  -- and their rounded average.
  pub update_rating-IsRated :
      (co st : String) (d : UpdateRating) (s : State db)
      → to_object_id co ≡ some co
      → IsRated s
      → IsRated (update_rating rnd db co st d s).1
  update_rating-IsRated co st d s e h = elim (update_rating_cases co st d s e) [
    | inl same ↦ rw same h
    | inr (good, put) ↦ rw put (
        refreshed-IsRated co s (amended co st d s)
          (λ j ne.
            rw all-update_one
              (select-amend_first co j st (put_rating d) (all s.ratings) (λ r. refl) ne))
          (rw (all-update_one, find_lem) refl)
          (rw all-update_one (
            All-amend_first-IsInRange (is_rating co st) d (all s.ratings)
              (λ n g. ground (arith, good n g)) h.bounded))
          h)
  ]

  abbrev removed : String → String → State db → State db
  removed co st s = record s {
    ratings = delete_one (is_rating co st) s.ratings;
    courses =
        update_one (has_id co)
          (put_averages rnd (find (is_rating_of co) (delete_one (is_rating co st) s.ratings)))
          s.courses;
  }

  remove_rating_cases :
      (co st : String) (s : State db)
      → to_object_id co ≡ some co
      → ((remove_rating rnd db co st s).1 ≡ s)
        ⊎ ((remove_rating rnd db co st s).1 ≡ removed co st s)
  unfolding remove_rating
  remove_rating_cases co st s e = ground arith

  -- A call of `remove_rating` with a course id in its cast form, whatever its answer, keeps it
  -- so that all ratings are from 1 to 5 and that each course shows the number of its ratings
  -- and their rounded average.
  pub remove_rating-IsRated :
      (co st : String) (s : State db)
      → to_object_id co ≡ some co
      → IsRated s
      → IsRated (remove_rating rnd db co st s).1
  remove_rating-IsRated co st s e h = elim (remove_rating_cases co st s e) [
    | inl same ↦ rw same h
    | inr put ↦ rw put (
        refreshed-IsRated co s (removed co st s)
          (λ j ne. rw all-delete_one (select-drop_first co j st (all s.ratings) ne))
          (rw (all-update_one, find_lem) refl)
          (rw all-delete_one (All-drop_first IsInRange (is_rating co st) (all s.ratings) h.bounded))
          h)
  ]

  -- In a state in which all ratings are from 1 to 5 and each course shows the number and the
  -- average of its ratings, where `find_all_for_course` answers for an id in its cast form
  -- that at most one course has: that course is there, the answer has the number and the
  -- average that the course shows, and the number is 0 or the average, in hundredths, is from
  -- 100 to 500.
  pub find_all_for_course-ok :
      (co : String) (s : State db) (v : RatingSummary)
      → IsRated s
      → to_object_id co ≡ some co
      → tally (has_id co) (all s.courses) ≤ 1
      → (find_all_for_course rnd db co s).0 ≡ ok v
      → (c : Course) × (first (has_id co) (all s.courses) ≡ some c)
        × (v.total_ratings ≡ c.total_reviews)
        × (v.average_rating ≡ c.average_rating)
        × ((v.total_ratings ≡ 0) ⊎ ((100 ≤ v.average_rating) × (v.average_rating ≤ 500)))
  unfolding find_all_for_course
  find_all_for_course-ok co s v h e once done =
      let query = find_one_lem (λ x. has_id co x && is_live x) s.courses in
      elim (Option-cases (first (λ x. has_id co x && is_live x) (all s.courses))) [
        | inl missing ↦ ground (arith, query)
        | inr (c, live) ↦
            let l : List CourseRating = ratings_of co s in
            let found = first_of_live co (all s.courses) c once live in
            let total : v.total_ratings ≡ length l =
              ground (arith, query, find_lem (is_rating_of co) s.ratings) in
            let mean : v.average_rating ≡ average rnd l =
              ground (arith, query, find_lem (is_rating_of co) s.ratings) in
            let range = All-select IsInRange (is_rating_of co) (all s.ratings) h.bounded in
            (
              c,
              found,
              total ∙ sym (h.counted co c found).0,
              mean ∙ sym (h.counted co c found).1,
              rw (total, mean) (average_cases rnd l range),
            )
      ]
