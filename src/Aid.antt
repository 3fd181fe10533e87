-- ===== src/Aid.antt =====
-- Financial aid, src/financial-aid: the entity and the repository contract of domain/, and the
-- use cases, which work on any repository.
pub mod Stores
pub mod Single
pub mod Reviews
use mathlib.Core.Option.{get_or}
use chain_verse_backend.Base.{
  ℕ, ◌+◌, String, Bool, true, false, not, ◌&&◌, Option, none, some, List, [], ◌∷◌, ◌++◌, ◌===◌,
  is_some, if◌then◌else◌,
}
use chain_verse_backend.Http.{
  Action, ok, raise, throw_if, or_throw, modify, pure, ◌>>=◌, ◌>>◌, not_found, conflict,
}

-- `FinancialAidApplication`
pub record AidApplication : Type 0 where
  pub id : String
  pub student_id : String
  pub course_id : String
  pub reason : String
  pub status : String
  pub created_at : ℕ
  pub updated_at : ℕ

pub record CreateFinancialAidDto : Type 0 where
  pub student_id : String
  pub course_id : String
  pub reason : String

pub record UpdateFinancialAidDto : Type 0 where
  pub reason : Option String
  pub status : Option String

-- `FinancialAidApprovedPayload`
pub record AidApproved : Type 0 where
  pub application_id : String
  pub student_id : String
  pub course_id : String

-- `FinancialAidApplication.create`
abbrev pub new_application : ℕ → String → CreateFinancialAidDto → AidApplication
new_application now id d = record {
  id = id;
  student_id = d.student_id;
  course_id = d.course_id;
  reason = d.reason;
  status = "pending";
  created_at = now;
  updated_at = now;
}

abbrev pub is_approved : AidApplication → Bool
is_approved x = x.status === "approved"

-- `update`
abbrev pub update_fields : ℕ → UpdateFinancialAidDto → AidApplication → AidApplication
update_fields now d x = record x {
  reason = get_or d.reason x.reason;
  status = get_or d.status x.status;
  updated_at = now;
}

abbrev pub approval : AidApplication → AidApproved
approval x = record { application_id = x.id; student_id = x.student_id; course_id = x.course_id }

-- The abstract class `FinancialAidApplicationRepository`; `save` is given the time.
pub record AidRepository : Type 1 where
  pub Store : Type 0
  pub save : ℕ → AidApplication → Action Store AidApplication
  pub find_all : Action Store (List AidApplication)
  pub find_by_id : String → Action Store (Option AidApplication)
  pub find_by_student_id : String → Action Store (List AidApplication)
  pub find_by_student_and_course : String → String → Action Store (Option AidApplication)
  pub delete : String → Action Store (Unit {0})

module _ (repo : AidRepository) (uuid : ℕ → String) where
  -- The repository, the events emitted and the ids drawn.
  pub record AidDesk : Type 0 where
    pub store : repo.Store
    pub events : List AidApproved
    pub drawn : ℕ

  abbrev pub on_repo : {A : Type 0} → Action repo.Store A → Action AidDesk A
  on_repo m s = let (r, t) = m s.store in (r, record s { store = t })

  unfoldable pub draw_uuid : Action AidDesk String
  draw_uuid s = (ok (uuid s.drawn), record s { drawn = s.drawn + 1 })

  unfoldable pub apply_for_aid : ℕ → CreateFinancialAidDto → Action AidDesk AidApplication
  unfolding draw_uuid
  apply_for_aid now dto = do
    existing ← on_repo (repo.find_by_student_and_course dto.student_id dto.course_id)
    throw_if (is_some existing) (conflict "Application already submitted")
    id ← draw_uuid
    on_repo (repo.save now (new_application now id dto))

  unfoldable pub review_aid : ℕ → String → UpdateFinancialAidDto → Action AidDesk AidApplication
  review_aid now id dto = do
    found ← on_repo (repo.find_by_id id)
    application ← or_throw found (not_found "Financial aid application not found")
    let changed : AidApplication = update_fields now dto application
    on_repo (repo.save now changed)
    modify (λ s.
        if not (is_approved application) && is_approved changed
        then record s { events = s.events ++ approval changed ∷ [] }
        else s)
    pure changed

  unfoldable pub delete_aid : String → Action AidDesk String
  delete_aid id = do
    found ← on_repo (repo.find_by_id id)
    application ← or_throw found (not_found "Financial aid application not found")
    on_repo (repo.delete id)
    pure id

  unfoldable pub find_aid : String → Action AidDesk AidApplication
  find_aid id = do
    found ← on_repo (repo.find_by_id id)
    or_throw found (not_found "Financial aid application not found")

  unfoldable pub find_all_aid : Action AidDesk (List AidApplication)
  find_all_aid = on_repo repo.find_all

  unfoldable pub find_aid_of_student : String → Action AidDesk (List AidApplication)
  find_aid_of_student student_id = on_repo (repo.find_by_student_id student_id)
