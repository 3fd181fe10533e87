-- ===== src/Enrollment/Free.antt =====
-- `enrollFree`: what an answer says of the state.
use chain_verse_backend.Base.{
  ◌↔◌, ℕ, ◌+◌, String, ◌≡◌, ap, ◌⊎◌, inl, inr, false, ◌&&◌, none, some, [], ◌∷◌, ◌++◌, ◌===◌, arith,
  first, Option-cases,
}
use chain_verse_backend.Http.{Failure, Result, Result-cases, ok, raise}
use chain_verse_backend.Mongo.{Mongo}
use chain_verse_backend.Market.{
  Status, Course, Enrollment, State, student_enrolled, has_id, is_live,
}
use chain_verse_backend.Enrollment.{enroll_free, is_enrollment, raise_enrollments}

module _ (db : Mongo) where
  open db use {all, insert, update_one, to_object_id, object_id, find_one_lem, to_object_id_idem}

  abbrev pub free_entry : ℕ → String → String → State db → Enrollment
  free_entry now st co s = record {
    id = object_id s.minted;
    student_id = st;
    course_id = co;
    is_paid = false;
    amount_paid = 0;
    status = "completed";
    created_at = now;
  }

  -- The state after an enrollment: the document, the counter and one event.
  abbrev pub enrolled_free : ℕ → String → String → String → String → Course → State db → State db
  enrolled_free now student course st co c s = record s {
    enrollments = insert (free_entry now st co s) s.enrollments;
    courses = update_one (has_id co) raise_enrollments s.courses;
    events = s.events ++ student_enrolled student course c.tutor_id c.tutor_email none ∷ [];
    minted = s.minted + 1;
  }

  -- What a call needs to go through.
  pub record Admits (s : State db) (student course st co : String) (c : Course) : Type 0 where
    pub student_named : to_object_id student ≡ some st
    pub course_named : to_object_id course ≡ some co
    pub found : first (λ c. c.id === co && is_live c) (all s.courses) ≡ some c
    pub is_published : c.status ≡ Status.published
    pub is_free : c.price ≡ 0
    pub is_new : first (is_enrollment st co) (all s.enrollments) ≡ none

  -- A call of `enroll_free` that fails changes nothing.
  pub enroll_free-raise :
      (now : ℕ) (student course : String) (s : State db) (e : Failure)
      → (enroll_free db now student course s).0 ≡ raise e
      → (enroll_free db now student course s).1 ≡ s
  unfolding enroll_free
  enroll_free-raise now student course s e h = ground arith

  -- Where both ids are object ids, a live course has the id, is published and free, and the
  -- student has no enrollment in it, `enroll_free` enrolls: the answer and the whole state are
  -- given.
  pub enroll_free-Admits :
      (now : ℕ) (student course st co : String) (c : Course) (s : State db)
      → Admits s student course st co c
      → enroll_free db now student course s
        ≡ (ok (free_entry now st co s), enrolled_free now student course st co c s)
  unfolding enroll_free
  enroll_free-Admits now student course st co c s h = ground (
    arith,
    find_one_lem (λ x. x.id === co && is_live x) s.courses,
    find_one_lem (is_enrollment st co) s.enrollments,
  )

  -- Where `enroll_free` answers with an enrollment, both ids were object ids, a live course
  -- had the id, was published and free, and the student had no enrollment in it.
  pub enroll_free-ok :
      (now : ℕ) (student course : String) (s : State db) (r : Enrollment)
      → (enroll_free db now student course s).0 ≡ ok r
      → (st : String) × (co : String) × (c : Course) × Admits s student course st co c
  unfolding enroll_free
  enroll_free-ok now student course s r h = elim (Option-cases (to_object_id student)) [
    | inl bad ↦ ground arith
    | inr (st, es) ↦ elim (Option-cases (to_object_id course)) [
      | inl bad ↦ ground arith
      | inr (co, ec) ↦ elim (Option-cases (first (λ c. c.id === co && is_live c) (all s.courses))) [
        | inl bad ↦ ground (arith, find_one_lem (λ x. x.id === co && is_live x) s.courses)
        | inr (c, f) ↦ (
          st,
          co,
          c,
          ground (
            arith,
            find_one_lem (λ x. x.id === co && is_live x) s.courses,
            find_one_lem (is_enrollment st co) s.enrollments,
          ),
        )
      ]
    ]
  ]

  -- `enroll_free` answers with an enrollment exactly where both ids are object ids, a live
  -- course has the id, is published and free, and the student has no enrollment in it; and
  -- then it adds that enrollment, counts it on the course and emits one event.
  pub enroll_free-ok_iff :
      (now : ℕ) (student course : String) (s : State db)
      → ((r : Enrollment) × ((enroll_free db now student course s).0 ≡ ok r)) ↔ (
          (st : String) × (co : String) × (c : Course) × Admits s student course st co c
          × (enroll_free db now student course s
              ≡ (ok (free_entry now st co s), enrolled_free now student course st co c s)))
  enroll_free-ok_iff now student course s = (
    λ (r, good).
        let (st, co, c, a) = enroll_free-ok now student course s r good in
        (st, co, c, a, enroll_free-Admits now student course st co c s a),
    λ (st, co, c, a, put).
        (free_entry now st co s, ap (λ (t : Result Enrollment × State db). t.0) put),
  )

  -- A call leaves the state alone, or it makes one enrollment.
  pub enroll_free_cases :
      (now : ℕ) (student course : String) (s : State db)
      → ((enroll_free db now student course s).1 ≡ s)
        ⊎ ((st : String) × (co : String) × (c : Course) × Admits s student course st co c
            × ((enroll_free db now student course s).1
                ≡ enrolled_free now student course st co c s))
  enroll_free_cases now student course s =
      elim (Result-cases (enroll_free db now student course s).0) [
        | inl (e, bad) ↦ inl (enroll_free-raise now student course s e bad)
        | inr (r, good) ↦
            let (st, co, c, a) = enroll_free-ok now student course s r good in
            inr (
              st,
              co,
              c,
              a,
              ap (λ (t : Result Enrollment × State db). t.1)
                  (enroll_free-Admits now student course st co c s a),
            )
      ]
