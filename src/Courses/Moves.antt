-- ===== src/Courses/Moves.antt =====
-- The changes of status that the life of a course allows, and those that the edits make.
use chain_verse_backend.Base.{
  ℕ, String, ◌≡◌, refl, inl, inr, Bool, true, ◌&&◌, Option, arith, Bool-cases, is_some,
}
use chain_verse_backend.Market.{Status, is_published, Course}
use chain_verse_backend.CourseForms.{
  UpdateCourseDto, Decision, approve, reject, is_submittable, is_publishable, is_pending, status_of,
  revise, is_guarded, apply_decision,
}

-- The changes of status that the life of a course allows.
pub data Move : Status → Status → Type 0 where
  stay : (t : Status) → Move t t
  submit : Move Status.draft Status.pending
  resubmit : Move Status.rejected Status.pending
  accept : Move Status.pending Status.approved
  decline : Move Status.pending Status.rejected
  release : Move Status.approved Status.published
  rerelease : Move Status.unpublished Status.published
  withdraw : Move Status.published Status.unpublished
  reopen : Move Status.published Status.pending

pub submit-Move : (t : Status) → is_submittable t ≡ true → Move t Status.pending
submit-Move Status.draft h = Move.submit
submit-Move Status.rejected h = Move.resubmit
submit-Move _ h = cc

pub publish-Move : (t : Status) → is_publishable t ≡ true → Move t Status.published
publish-Move Status.approved h = Move.release
publish-Move Status.unpublished h = Move.rerelease
publish-Move _ h = cc

pub unpublish-Move : (t : Status) → is_published t ≡ true → Move t Status.unpublished
unpublish-Move Status.published h = Move.withdraw
unpublish-Move _ h = cc

pub decide-Move : (d : Decision) (t : Status) → is_pending t ≡ true → Move t (status_of d)
decide-Move approve Status.pending h = Move.accept
decide-Move reject Status.pending h = Move.decline
decide-Move _ _ h = cc

pub apply_decision-Move :
    (now : ℕ) (d : Decision) (r : Option String) (c : Course)
    → is_pending c.status ≡ true
    → Move c.status (apply_decision now d r c).status
apply_decision-Move now approve r c h = decide-Move approve c.status h
apply_decision-Move now reject r c h = decide-Move reject c.status h

pub apply_decision-id :
    (now : ℕ) (d : Decision) (r : Option String) (c x : Course)
    → (apply_decision now d r x).id ≡ x.id
apply_decision-id now approve r c x = refl
apply_decision-id now reject r c x = refl

pub reopen-Move : (t : Status) → is_published t ≡ true → Move t Status.pending
reopen-Move Status.published h = Move.reopen
reopen-Move _ h = cc

pub revise-id : (dto : UpdateCourseDto) (a : Bool) (c x : Course) → (revise dto a c x).id ≡ x.id
revise-id dto a c x = ground arith

pub revise-Move :
    (dto : UpdateCourseDto) (a : Bool) (c : Course) → Move c.status (revise dto a c c).status
revise-Move dto a c = elim (Bool-cases (is_guarded a c && is_some dto.curriculum)) [
  | inl sent ↦ rw sent (reopen-Move c.status (ground arith))
  | inr kept ↦ rw kept (Move.stay c.status)
]
