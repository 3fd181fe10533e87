-- ===== src/Courses/Approval.antt =====
-- Approval of courses in the states that requests reach.
use chain_verse_backend.Base.{
  ℕ, ◌≤◌, ◌<◌, String, ◌≡◌, refl, ◌∙◌, inl, inr, Bool, true, false, ◌&&◌, Option, List, [], ◌∷◌,
  arith, eq_iff, tally, amend_first, Bool-cases, is_some, All, All-append, tally-append,
}
use chain_verse_backend.Mongo.{Mongo}
use chain_verse_backend.Market.{Status, is_published, Course, State, has_id}
use chain_verse_backend.CourseForms.{
  new_course, CreateCourseDto, UpdateCourseDto, Decision, approve, reject, is_publishable,
  set_status, revise, is_guarded, apply_decision, published_at_time,
}
use chain_verse_backend.Courses.{
  create, update, submit_for_review, review, publish, unpublish, delete, enroll_student,
}
use chain_verse_backend.Courses.Commands.{
  Command, create_course, update_course, submit_course, review_course, publish_course,
  unpublish_course, delete_course, enroll_in_course, serve,
}
use chain_verse_backend.Courses.Moves.{apply_decision-id, revise-id}
use chain_verse_backend.Courses.Lifecycle.{IsKeyed, Change-All, create-courses}
use chain_verse_backend.Courses.Edits.{
  Change, find_one-state, publish-Change, unpublish-Change, update-Change, delete-Change,
  submit_for_review-Change, review-Change, enroll_student-Change,
}

-- The course has been approved at some time, if it is past review.
abbrev pub is_past_review : Status → Bool
is_past_review Status.approved = true
is_past_review Status.published = true
is_past_review Status.unpublished = true
is_past_review _ = false

abbrev pub IsReviewed : Course → Type 0
IsReviewed c = is_past_review c.status ≡ true → is_some c.approved_at ≡ true

apply_decision-IsReviewed :
    (now : ℕ) (d : Decision) (r : Option String) (c : Course)
    → IsReviewed (apply_decision now d r c)
apply_decision-IsReviewed now approve r c h = refl
apply_decision-IsReviewed now reject r c h = cc

publish-IsReviewed :
    (now : ℕ) (c : Course)
    → is_publishable c.status ≡ true
    → IsReviewed c
    → IsReviewed (published_at_time now c)
publish-IsReviewed now c g h _ = h (past c.status g)
  where
    past : (t : Status) → is_publishable t ≡ true → is_past_review t ≡ true
    past Status.approved g = refl
    past Status.unpublished g = refl
    past _ g = cc

unpublish-IsReviewed :
    (c : Course)
    → is_published c.status ≡ true
    → IsReviewed c
    → IsReviewed (set_status Status.unpublished c)
unpublish-IsReviewed c g h _ = h (past c.status g)
  where
    past : (t : Status) → is_published t ≡ true → is_past_review t ≡ true
    past Status.published g = refl
    past _ g = cc

revise-IsReviewed :
    (dto : UpdateCourseDto) (a : Bool) (c : Course) → IsReviewed c → IsReviewed (revise dto a c c)
revise-IsReviewed dto a c h = elim (Bool-cases (is_guarded a c && is_some dto.curriculum)) [
  | inl sent ↦ rw sent (λ e. cc)
  | inr kept ↦ rw kept h
]

tally-amend_first :
    (j k : String) (f : Course → Course) (l : List Course)
    → ((c : Course) → (f c).id ≡ c.id)
    → tally (has_id k) (amend_first (has_id j) f l) ≡ tally (has_id k) l
tally-amend_first j k f [] keep = refl
tally-amend_first j k f (c ∷ l) keep = ground (arith, keep c, tally-amend_first j k f l keep)

module _ (db : Mongo) where
  open db use {
    Store, all, insert, update_one, object_id, all-insert, all-update_one, object_id-injective,
  }

  -- The courses have their own generated ids, and those past review carry the time of an approval.
  pub record IsSound (s : State db) : Type 0 where
    pub keyed : IsKeyed db s
    pub reviewed : All IsReviewed (all s.courses)

  -- The same for the requests that work on a course that is there.
  serve-IsReviewed :
      (cmd : Command) (s : State db) → IsSound s → All IsReviewed (all (serve db cmd s).courses)
  unfolding serve
  serve-IsReviewed (create_course now dto id email name) s h =
      rw (create-courses db now dto id email name s, all-insert)
        (All-append _ (all s.courses) _ h.reviewed ((λ e. cc), tt))
  serve-IsReviewed (update_course id dto tutor is_admin) s h =
      Change-All db IsReviewed id (revise dto is_admin) _ s _ h.keyed.unique
        (λ c g. revise-IsReviewed dto is_admin c) (update-Change db id dto tutor is_admin s)
        h.reviewed
  serve-IsReviewed (submit_course id tutor) s h =
      Change-All db IsReviewed id _ _ s _ h.keyed.unique (λ c g r e. cc)
        (submit_for_review-Change db id tutor s) h.reviewed
  serve-IsReviewed (review_course now id decision reason) s h =
      Change-All db IsReviewed id (λ _. apply_decision now decision reason) _ s _ h.keyed.unique
        (λ c g r. apply_decision-IsReviewed now decision reason c)
        (review-Change db now id decision reason s) h.reviewed
  serve-IsReviewed (publish_course now id tutor is_admin) s h =
      Change-All db IsReviewed id _ _ s _ h.keyed.unique (λ c g. publish-IsReviewed now c g.0)
        (publish-Change db now id tutor is_admin s) h.reviewed
  serve-IsReviewed (unpublish_course id tutor is_admin) s h =
      Change-All db IsReviewed id _ _ s _ h.keyed.unique (λ c g. unpublish-IsReviewed c g.0)
        (unpublish-Change db id tutor is_admin s) h.reviewed
  serve-IsReviewed (delete_course now id tutor is_admin reason) s h =
      Change-All db IsReviewed id _ _ s _ h.keyed.unique (λ c g r. r)
        (delete-Change db now id tutor is_admin reason s) h.reviewed
  serve-IsReviewed (enroll_in_course id student) s h =
      Change-All db IsReviewed id _ _ s _ h.keyed.unique (λ c g r. r)
        (enroll_student-Change db id student s) h.reviewed

  -- Ids stay as they are under a change.
  Change-tally :
      (id : String) (f : Course → Course → Course) (G : Course → Type 0) (s : State db)
      (cs : Store Course)
      → ((c x : Course) → (f c x).id ≡ x.id)
      → Change db id f G s cs
      → (k : String) → tally (has_id k) (all cs) ≡ tally (has_id k) (all s.courses)
  Change-tally id f G s cs keep (inl same) k = rw same
  Change-tally id f G s cs keep (inr (c, g, live, put)) k =
      rw (put, all-update_one) (tally-amend_first c.id k (f c) (all s.courses) (keep c))

  IsOld : ℕ → Course → Type 0
  IsOld m c = (n : ℕ) × (c.id ≡ object_id n) × (n < m)

  -- Only `create` generates an id.
  minted-serve : (cmd : Command) (s : State db) → (s.minted ≤ (serve db cmd s).minted)
  unfolding serve
  minted-serve (create_course now dto id email name) s = unfold create in ground arith
  minted-serve (update_course id dto tutor is_admin) s =
      unfold update in ground (arith, find_one-state db id s)
  minted-serve (submit_course id tutor) s =
      unfold submit_for_review in ground (arith, find_one-state db id s)
  minted-serve (review_course now id decision reason) s =
      unfold review in ground (arith, find_one-state db id s)
  minted-serve (publish_course now id tutor is_admin) s =
      unfold publish in ground (arith, find_one-state db id s)
  minted-serve (unpublish_course id tutor is_admin) s =
      unfold unpublish in ground (arith, find_one-state db id s)
  minted-serve (delete_course now id tutor is_admin reason) s =
      unfold delete in ground (arith, find_one-state db id s)
  minted-serve (enroll_in_course id student) s =
      unfold enroll_student in ground (arith, find_one-state db id s)

  create-minted :
      (now : ℕ) (dto : CreateCourseDto) (id email name : String) (s : State db)
      → s.minted < (create db now dto id email name s).1.minted
  unfolding create
  create-minted now dto id email name s = ground arith

  old-tally : (m : ℕ) (l : List Course) → All (IsOld m) l → tally (has_id (object_id m)) l ≡ 0
  unfolding IsOld
  old-tally m [] a = refl
  old-tally m (c ∷ l) ((n, e, lt), a) =
      ground (arith, eq_iff c.id (object_id m), object_id-injective n m, old-tally m l a)

  IsOld-later : (m n : ℕ) → m ≤ n → (l : List Course) → All (IsOld m) l → All (IsOld n) l
  unfolding IsOld
  IsOld-later m n le [] a = tt
  IsOld-later m n le (c ∷ l) ((k, e, lt), a) = ((k, e, omega arith), IsOld-later m n le l a)

  Change-IsKeyed :
      (id : String) (f : Course → Course → Course) (G : Course → Type 0) (s t : State db)
      → IsKeyed db s
      → ((c x : Course) → (f c x).id ≡ x.id)
      → s.minted ≤ t.minted
      → Change db id f G s t.courses
      → IsKeyed db t
  unfolding IsOld
  Change-IsKeyed id f G s t h keep le ch = record {
    unique = λ k. rw (Change-tally id f G s t.courses keep ch k) (h.unique k);
    generated = IsOld-later s.minted t.minted le (all t.courses) (
        Change-All db (IsOld s.minted) id f G s t.courses h.unique
          (λ c g o. (o.0, keep c c ∙ o.1, o.2)) ch h.generated);
  }

  serve-IsKeyed : (cmd : Command) (s : State db) → IsKeyed db s → IsKeyed db (serve db cmd s)
  unfolding serve IsOld
  serve-IsKeyed (create_course now dto id email name) s h =
      let c = new_course now (object_id s.minted) dto id email name in
      record {
        unique = λ k.
            rw (create-courses db now dto id email name s, all-insert, tally-append)
              (ground (
                arith,
                h.unique k,
                eq_iff (object_id s.minted) k,
                old-tally s.minted (all s.courses) h.generated,
              ));
        generated =
            rw (create-courses db now dto id email name s, all-insert)
              (All-append _ (all s.courses) _
                (IsOld-later s.minted _ (minted-serve (create_course now dto id email name) s) _
                  h.generated)
                ((s.minted, refl, create-minted now dto id email name s), tt));
      }
  serve-IsKeyed (update_course id dto tutor is_admin) s h =
      Change-IsKeyed id (revise dto is_admin) _ s _ h (revise-id dto is_admin)
        (minted-serve (update_course id dto tutor is_admin) s)
        (update-Change db id dto tutor is_admin s)
  serve-IsKeyed (submit_course id tutor) s h =
      Change-IsKeyed id _ _ s _ h (λ c x. refl) (minted-serve (submit_course id tutor) s)
        (submit_for_review-Change db id tutor s)
  serve-IsKeyed (review_course now id decision reason) s h =
      Change-IsKeyed id (λ _. apply_decision now decision reason) _ s _ h
        (apply_decision-id now decision reason)
        (minted-serve (review_course now id decision reason) s)
        (review-Change db now id decision reason s)
  serve-IsKeyed (publish_course now id tutor is_admin) s h =
      Change-IsKeyed id _ _ s _ h (λ c x. refl)
        (minted-serve (publish_course now id tutor is_admin) s)
        (publish-Change db now id tutor is_admin s)
  serve-IsKeyed (unpublish_course id tutor is_admin) s h =
      Change-IsKeyed id _ _ s _ h (λ c x. refl)
        (minted-serve (unpublish_course id tutor is_admin) s)
        (unpublish-Change db id tutor is_admin s)
  serve-IsKeyed (delete_course now id tutor is_admin reason) s h =
      Change-IsKeyed id _ _ s _ h (λ c x. refl)
        (minted-serve (delete_course now id tutor is_admin reason) s)
        (delete-Change db now id tutor is_admin reason s)
  serve-IsKeyed (enroll_in_course id student) s h =
      Change-IsKeyed id _ _ s _ h (λ c x. refl) (minted-serve (enroll_in_course id student) s)
        (enroll_student-Change db id student s)

  pub serve_all : List Command → State db → State db
  serve_all [] s = s
  serve_all (cmd ∷ cmds) s = serve_all cmds (serve db cmd s)

  -- Where ids are unique and generated, and every course that is approved, published or
  -- unpublished carries the time of an approval, both hold after any sequence of requests.
  pub serve_all-IsSound :
      (cmds : List Command) (s : State db) → IsSound s → IsSound (serve_all cmds s)
  unfolding serve_all
  serve_all-IsSound [] s h = h
  serve_all-IsSound (cmd ∷ cmds) s h =
      serve_all-IsSound cmds (serve db cmd s)
        (record { keyed = serve-IsKeyed cmd s h.keyed; reviewed = serve-IsReviewed cmd s h })

  pub empty-IsSound : (s : State db) → all s.courses ≡ [] → IsSound s
  empty-IsSound s e = record {
    keyed = record { unique = λ k. rw e (omega arith); generated = rw e tt };
    reviewed = rw e tt;
  }
