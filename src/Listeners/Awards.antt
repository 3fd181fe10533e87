-- ===== src/Listeners/Awards.antt =====
-- The points of a student against the events that name the student.
use chain_verse_backend.Base.{
  ℕ, ◌+◌, ◌*◌, String, ◌≡◌, refl, ap, ◌∙◌, inl, inr, Bool, false, none, some, List, [], ◌∷◌, ◌++◌,
  ◌===◌, arith, select, tally, Option-cases, Bool-cases, bit, if◌then◌else◌, text_refl,
}
use chain_verse_backend.Base.Int.{ℤ, pos, ◌+ℤ◌, int_laws}
use chain_verse_backend.Http.{ok}
use chain_verse_backend.Mongo.{Mongo}
use chain_verse_backend.Market.{Course, Event, State, student_enrolled, course_saved}
use chain_verse_backend.Points.{PointsRecord, earns, sum_points}
use chain_verse_backend.Listeners.{Desk, enrollee, on_student_enrolled, deliver}
use chain_verse_backend.Saved.{save_for}
use chain_verse_backend.Enrollment.{enroll_free}
use chain_verse_backend.Enrollment.Free.{Admits, enroll_free-Admits}

-- The event tells of an enrollment of the student.
abbrev pub is_reward : String → Event → Bool
is_reward u e = elim (enrollee e) [ none ↦ false | some (student, course) ↦ student === u ]

+ℤ_pos_pos : (z : ℤ) (a b : ℕ) → z +ℤ pos a +ℤ pos b ≡ z +ℤ pos (a + b)
+ℤ_pos_pos z a b = omega int_laws

is_reward-none : (u : String) (e : Event) → enrollee e ≡ none → bit (is_reward u e) ≡ 0
is_reward-none u e h = rw (h, bit) refl

is_reward-some :
    (u student course : String) (e : Event)
    → enrollee e ≡ some (student, course)
    → bit (is_reward u e) ≡ bit (student === u)
is_reward-some u student course e h = rw (h, bit) refl

module _ (db : Mongo) where
  open db use {all, all-insert, find, find_lem}

  abbrev pub points_of : String → Desk db → ℤ
  points_of u d = sum_points (select (earns u) (all d.book.docs))

  sum_points-snoc :
      (u : String) (r : PointsRecord) (l : List PointsRecord)
      → sum_points (select (earns u) (l ++ r ∷ []))
        ≡ sum_points (select (earns u) l) +ℤ (if earns u r then r.points else pos 0)
  sum_points-snoc u r [] = elim (Bool-cases (earns u r)) [
    | inl e ↦ rw e (omega int_laws)
    | inr e ↦ rw e (omega int_laws)
  ]
  sum_points-snoc u r (x ∷ l) = elim (Bool-cases (earns u x)) [
    | inl e ↦ rw (e, sum_points-snoc u r l) (omega int_laws)
    | inr e ↦ rw e (sum_points-snoc u r l)
  ]

  points_of-on_student_enrolled :
      (u student course : String) (d : Desk db)
      → points_of u (on_student_enrolled db student course d)
        ≡ points_of u d +ℤ pos (10 * bit (student === u))
  unfolding on_student_enrolled
  points_of-on_student_enrolled u student course d = elim (Bool-cases (student === u)) [
    | inl e ↦ rw (all-insert, sum_points-snoc, e) refl
    | inr e ↦ rw (all-insert, sum_points-snoc, e) refl
  ]

  -- The delivery of a list of events adds to the points of a user 10 for each event
  -- `student.enrolled` of the list that names the user, and nothing for any other event.
  pub deliver-points_of :
      (u : String) (es : List Event) (d : Desk db)
      → points_of u (deliver db es d) ≡ points_of u d +ℤ pos (10 * tally (is_reward u) es)
  unfolding deliver
  deliver-points_of u [] d = omega int_laws
  deliver-points_of u (e ∷ es) d = elim (Option-cases (enrollee e)) [
    | inl other ↦
        rw (other, deliver)
          (deliver-points_of u es d
            ∙ ap (λ (n : ℕ). points_of u d +ℤ pos n) (omega (arith, is_reward-none u e other)))
    | inr ((student, course), named) ↦
        let t : ℕ = tally (is_reward u) es in
        let b : ℕ = bit (student === u) in
        rw (named, deliver)
          (deliver-points_of u es (on_student_enrolled db student course d)
            ∙ ap (λ (z : ℤ). z +ℤ pos (10 * t)) (points_of-on_student_enrolled u student course d)
            ∙ +ℤ_pos_pos (points_of u d) (10 * b) (10 * t)
            ∙ ap (λ (n : ℕ). points_of u d +ℤ pos n)
                (omega (arith, is_reward-some u student course e named)))
  ]

  -- Where a student is admitted to a free course, `enroll_free` appends events whose delivery
  -- adds 10 to the points of that student and nothing to those of any other.
  pub enroll_free-points :
      (now : ℕ) (student course st co : String) (c : Course) (s : State db) (d : Desk db)
      (u : String)
      → Admits db s student course st co c
      → (new : List Event) × ((enroll_free db now student course s).1.events ≡ s.events ++ new)
        × (points_of u (deliver db new d) ≡ points_of u d +ℤ pos (10 * bit (student === u)))
  enroll_free-points now student course st co c s d u a = (
    student_enrolled student course c.tutor_id c.tutor_email none ∷ [],
    rw (enroll_free-Admits db now student course st co c s a) refl,
    deliver-points_of u (student_enrolled student course c.tutor_id c.tutor_email none ∷ []) d
        ∙ ap (λ (n : ℕ). points_of u d +ℤ pos n) (omega arith),
  )

  save_for-emits :
      (student course : String) (s : State db) (r : String × List String)
      → (save_for db student course s).0 ≡ ok r
      → ((save_for db student course s).1.events ≡ s.events ++ course_saved student course ∷ [])
        × ((save_for db student course s).1.enrollments ≡ s.enrollments)
  unfolding save_for
  save_for-emits student course s r h = (ground arith, ground arith)

  -- Where `save_for` succeeds, it leaves the enrollments as they were and emits one event,
  -- whose delivery adds the 10 points of an enrollment to the student.
  pub save_for-points :
      (student course : String) (s : State db) (r : String × List String) (d : Desk db)
      → (save_for db student course s).0 ≡ ok r
      → ((save_for db student course s).1.enrollments ≡ s.enrollments)
        × ((save_for db student course s).1.events ≡ s.events ++ course_saved student course ∷ [])
        × (points_of student (deliver db (course_saved student course ∷ []) d)
            ≡ points_of student d +ℤ pos 10)
  save_for-points student course s r d h =
      let (emitted, kept) = save_for-emits student course s r h in
      (
        kept,
        emitted,
        deliver-points_of student (course_saved student course ∷ []) d
            ∙ ap (λ (n : ℕ). points_of student d +ℤ pos n) (rw (text_refl student) (omega arith)),
      )
