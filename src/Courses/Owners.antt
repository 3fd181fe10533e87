-- ===== src/Courses/Owners.antt =====
-- What a tutor sees of courses through src/tutor-course/tutor-course.service.ts.
use chain_verse_backend.Base.{String, ◌≡◌, ◌↔◌, inl, inr, ◌&&◌, arith, eq_iff, first, Option-cases}
use chain_verse_backend.Http.{ok}
use chain_verse_backend.Mongo.{Mongo}
use chain_verse_backend.Market.{Course, State, has_id, is_live}
use chain_verse_backend.Courses.{find_owned}
use chain_verse_backend.Courses.Edits.{Live}

module _ (db : Mongo) where
  open db use {all, to_object_id, find_one_lem}

  -- The tutor facade answers with a course exactly if the id is an object id, the course is
  -- the first live one with it, and the tutor owns it.
  pub find_owned-ok_iff :
      (id tutor : String) (c : Course) (s : State db)
      → ((find_owned db id tutor s).0 ≡ ok c) ↔ (Live db id s c × (c.tutor_id ≡ tutor))
  unfolding find_owned
  find_owned-ok_iff id tutor c s = (
    (λ h. elim (Option-cases (to_object_id id)) [
      | inl bad ↦ absurd (ground arith)
      | inr (k, e) ↦ elim (Option-cases (first (λ x. has_id k x && is_live x) (all s.courses))) [
        | inl bad ↦ absurd (ground (arith, find_one_lem (λ x. has_id k x && is_live x) s.courses))
        | inr (b, f) ↦
            let l = find_one_lem (λ x. has_id k x && is_live x) s.courses in
            ((k, e, ground (arith, l)), ground (arith, l, eq_iff b.tutor_id tutor))
      ]
    ]),
    (λ ((k, e, f), own).
        ground
          (arith, eq_iff c.tutor_id tutor, find_one_lem (λ x. has_id k x && is_live x) s.courses)),
  )
