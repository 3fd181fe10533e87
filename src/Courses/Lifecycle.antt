-- ===== src/Courses/Lifecycle.antt =====
-- The life of a course: which changes of status the requests can make.
use chain_verse_backend.Base.{
  ℕ, ◌≤◌, ◌<◌, String, ◌≡◌, refl, ap, sym, ◌∙◌, inl, inr, ◌&&◌, some, [], ◌∷◌, ◌===◌, arith, eq_iff,
  first, tally, amend_first, Bool-cases, All, first-passes, first-append,
}
use mathlib.Core.Path.{subst}
use chain_verse_backend.Mongo.{Mongo}
use chain_verse_backend.Market.{Course, State, has_id, is_live, first-amend_first}
use chain_verse_backend.CourseForms.{new_course, CreateCourseDto, revise, apply_decision}
use chain_verse_backend.Courses.{create}
use chain_verse_backend.Courses.Commands.{
  Command, create_course, update_course, submit_course, review_course, publish_course,
  unpublish_course, delete_course, enroll_in_course, serve,
}
use chain_verse_backend.Courses.Moves.{
  Move, submit-Move, publish-Move, unpublish-Move, apply_decision-Move, apply_decision-id,
  revise-id, revise-Move,
}
use chain_verse_backend.Courses.Lookup.{first_of_live, All-amend_first, All-first}
use chain_verse_backend.Courses.Edits.{
  Change, Live, publish-Change, unpublish-Change, update-Change, delete-Change,
  submit_for_review-Change, review-Change, enroll_student-Change,
}

module _ (db : Mongo) where
  open db use {
    Store, all, insert, update_one, to_object_id, object_id, all-insert, all-update_one,
    object_id-injective,
  }

  -- No two courses have one id, and every id has been generated.
  pub record IsKeyed (s : State db) : Type 0 where
    pub unique : (k : String) → tally (has_id k) (all s.courses) ≤ 1
    pub generated : All (λ c. (n : ℕ) × (c.id ≡ object_id n) × (n < s.minted)) (all s.courses)

  -- The course that a request works on is the one that its id finds.
  pub Live-first :
      (id : String) (s : State db) (c : Course)
      → ((k : String) → tally (has_id k) (all s.courses) ≤ 1)
      → Live db id s c
      → first (has_id c.id) (all s.courses) ≡ some c
  Live-first id s c u (co, e, l) =
      let same : c.id ≡ co =
        ground (
          arith,
          eq_iff c.id co,
          first-passes (λ x. has_id co x && is_live x) (all s.courses) c l,
        ) in
      subst (λ y. first (has_id y) (all s.courses) ≡ some c) (sym same)
        (first_of_live co (all s.courses) c (u co) l)

  -- A change keeps a property of courses that its guard and its edit keep.
  pub Change-All :
      (P : Course → Type 0) (id : String) (f : Course → Course → Course) (G : Course → Type 0)
      (s : State db) (cs : Store Course)
      → ((k : String) → tally (has_id k) (all s.courses) ≤ 1)
      → ((c : Course) → G c → P c → P (f c c))
      → Change db id f G s cs
      → All P (all s.courses)
      → All P (all cs)
  Change-All P id f G s cs u keep (inl same) a = rw same a
  Change-All P id f G s cs u keep (inr (c, g, live, put)) a =
      let at = Live-first id s c u live in
      rw (put, all-update_one)
        (All-amend_first P (has_id c.id) (f c) (all s.courses) c at
          (keep c g (All-first P (has_id c.id) (all s.courses) c at a)) a)

  -- An edit that keeps ids changes the status of a course only from what was loaded.
  pub Change-Move :
      (id : String) (f : Course → Course → Course) (G : Course → Type 0) (s : State db)
      (cs : Store Course)
      → ((k : String) → tally (has_id k) (all s.courses) ≤ 1)
      → ((c x : Course) → (f c x).id ≡ x.id)
      → ((c : Course) → G c → Move c.status (f c c).status)
      → Change db id f G s cs
      → (k : String) (c d : Course) → first (has_id k) (all s.courses) ≡ some c
      → first (has_id k) (all cs) ≡ some d
      → Move c.status d.status
  Change-Move id f G s cs u keep moves (inl same) k c d p q =
      let e : c ≡ d = ground arith in subst (λ x. Move c.status x.status) e (Move.stay c.status)
  Change-Move id f G s cs u keep moves (inr (b, g, live, put)) k c d p q =
      let at = Live-first id s b u live in
      let seen : first (has_id k) (amend_first (has_id b.id) (f b) (all s.courses)) ≡ some d =
        ap (first (has_id k)) (sym (ap (λ (x : Store Course). all x) put ∙ all-update_one _ _ _))
        ∙ q in
      let split = first-amend_first b.id k (f b) (all s.courses) (keep b) in
      elim (Bool-cases (b.id === k)) [
        | inl here ↦
            let e : b ≡ c = ground (arith, eq_iff b.id k) in
            let e' : f b b ≡ d = ground (arith, eq_iff b.id k) in
            subst (λ x. Move c.status x.status) e'
              (subst (λ x. Move x.status (f b b).status) e (moves b g))
        | inr there ↦
            let e : c ≡ d = ground arith in
            subst (λ x. Move c.status x.status) e (Move.stay c.status)
      ]

  pub create-courses :
      (now : ℕ) (dto : CreateCourseDto) (id email name : String) (s : State db)
      → (create db now dto id email name s).1.courses
        ≡ insert (new_course now (object_id s.minted) dto id email name) s.courses
  unfolding create
  create-courses now dto id email name s = ground arith

  -- Where no two courses have one id and every id has been generated, a request takes the
  -- status of a course that is there before and after it along an allowed move, which may be
  -- to stay.
  pub serve-Move :
      (cmd : Command) (s : State db)
      → IsKeyed s
      → (k : String) (c d : Course) → first (has_id k) (all s.courses) ≡ some c
      → first (has_id k) (all (serve db cmd s).courses) ≡ some d
      → Move c.status d.status
  unfolding serve
  serve-Move (create_course now dto id email name) s h = λ k c d p q.
      let e : c ≡ d = ground (
        arith,
        create-courses now dto id email name s,
        all-insert (new_course now (object_id s.minted) dto id email name) s.courses,
        first-append (has_id k) (all s.courses)
            (new_course now (object_id s.minted) dto id email name ∷ []),
      ) in
      subst (λ x. Move c.status x.status) e (Move.stay c.status)
  serve-Move (update_course id dto tutor is_admin) s h =
      Change-Move id (revise dto is_admin) _ s _ h.unique (revise-id dto is_admin)
        (λ c g. revise-Move dto is_admin c) (update-Change db id dto tutor is_admin s)
  serve-Move (submit_course id tutor) s h =
      Change-Move id _ _ s _ h.unique (λ c x. refl) (λ c g. submit-Move c.status g.0)
        (submit_for_review-Change db id tutor s)
  serve-Move (review_course now id decision reason) s h =
      Change-Move id (λ _. apply_decision now decision reason) _ s _ h.unique
        (apply_decision-id now decision reason) (apply_decision-Move now decision reason)
        (review-Change db now id decision reason s)
  serve-Move (publish_course now id tutor is_admin) s h =
      Change-Move id _ _ s _ h.unique (λ c x. refl) (λ c g. publish-Move c.status g.0)
        (publish-Change db now id tutor is_admin s)
  serve-Move (unpublish_course id tutor is_admin) s h =
      Change-Move id _ _ s _ h.unique (λ c x. refl) (λ c g. unpublish-Move c.status g.0)
        (unpublish-Change db id tutor is_admin s)
  serve-Move (delete_course now id tutor is_admin reason) s h =
      Change-Move id _ _ s _ h.unique (λ c x. refl) (λ c g. Move.stay c.status)
        (delete-Change db now id tutor is_admin reason s)
  serve-Move (enroll_in_course id student) s h =
      Change-Move id _ _ s _ h.unique (λ c x. refl) (λ c g. Move.stay c.status)
        (enroll_student-Change db id student s)
