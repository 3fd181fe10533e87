-- ===== src/Enrollment/Access.antt =====
-- Reading enrollments: the guard of course content, and the list of a student's courses.
use chain_verse_backend.Base.{
  String, ◌≡◌, refl, ◌↔◌, inl, inr, true, none, some, List, [], ◌∷◌, arith, eq_iff, first,
  Option-cases, ◌===◌, ◌≢◌, map, ◌&&◌,
}
use chain_verse_backend.Http.{ok}
use chain_verse_backend.Mongo.{Mongo}
use chain_verse_backend.Market.{Course, Enrollment, State, contains, is_live, find_courses_cases}
use chain_verse_backend.Enrollment.{
  Key, map_get, course_map, join_courses, is_enrollment, get_my_courses, can_activate,
}

map_get-object : (k : String) (cs : List Course) → map_get (Key.object k) (course_map cs) ≡ none
map_get-object k [] = refl
map_get-object k (c ∷ cs) = map_get-object k cs

join_courses-nil : (cs : List Course) (es : List Enrollment) → join_courses (course_map cs) es ≡ []
unfolding join_courses
join_courses-nil cs [] = refl
join_courses-nil cs (e ∷ es) =
    rw (map_get-object e.course_id cs, join_courses) (join_courses-nil cs es)

module _ (db : Mongo) where
  open db use {all, to_object_id, find, find_one_lem}

  -- Where `get_my_courses` answers with a list, the list is empty, whatever the student is
  -- enrolled in.
  pub get_my_courses-nil :
      (student : String) (s : State db) (r : List (Enrollment × Course))
      → (get_my_courses db student s).0 ≡ ok r
      → r ≡ []
  unfolding get_my_courses
  get_my_courses-nil student s r h = elim (Option-cases (to_object_id student)) [
    | inl bad ↦ ground arith
    | inr (st, e) ↦
        let es : List Enrollment = find (λ x. x.student_id === st) s.enrollments in
        let ids : List String = map (λ (x : Enrollment). x.course_id) es in
        elim (find_courses_cases db ids s) [
          | inl (x, bad) ↦ ground arith
          | inr (ks, good) ↦
              let cs : List Course = find (λ c. contains ks c.id && is_live c) s.courses in
              ground (arith, join_courses-nil cs es)
        ]
  ]

  -- The ids are object ids, and the student has an enrollment in the course.
  abbrev pub Permits : String → String → State db → Type 0
  Permits user course s =
      (course ≢ "")
      × (st : String) × (co : String) × (e : Enrollment) × (to_object_id user ≡ some st)
      × (to_object_id course ≡ some co)
      × (first (is_enrollment st co) (all s.enrollments) ≡ some e)

  -- The guard admits a request exactly if the course id is not empty, both ids are object ids,
  -- and the student has an enrollment in the course.
  pub can_activate-ok_iff :
      (user course : String) (s : State db)
      → ((can_activate db user course s).0 ≡ ok true) ↔ Permits user course s
  unfolding can_activate
  can_activate-ok_iff user course s = (
    (λ h. elim (Option-cases (to_object_id user)) [
      | inl bad ↦ absurd (ground arith)
      | inr (st, es) ↦ elim (Option-cases (to_object_id course)) [
        | inl bad ↦ absurd (ground arith)
        | inr (co, ec) ↦ elim (Option-cases (first (is_enrollment st co) (all s.enrollments))) [
          | inl bad ↦ absurd (ground (arith, find_one_lem (is_enrollment st co) s.enrollments))
          | inr (e, f) ↦ (ground (arith, eq_iff course ""), st, co, e, es, ec, f)
        ]
      ]
    ]),
    (λ (some_course, st, co, e, es, ec, f).
        ground (arith, eq_iff course "", find_one_lem (is_enrollment st co) s.enrollments)),
  )

  -- The guard writes nothing.
  pub can_activate-state :
      (user course : String) (s : State db) → (can_activate db user course s).1 ≡ s
  unfolding can_activate
  can_activate-state user course s = ground arith
