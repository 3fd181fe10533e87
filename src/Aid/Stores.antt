-- ===== src/Aid/Stores.antt =====
-- The two repositories of src/financial-aid/infrastructure, and the contract that the comments of the
-- abstract class state.
use chain_verse_backend.Base.{
  ℕ, ◌+◌, String, ◌≡◌, refl, Bool, true, ◌&&◌, Option, none, some, List, [], ◌∷◌, ◌++◌, ◌===◌,
  is_some, select, first, amend_first, drop_first, if◌then◌else◌,
}
use chain_verse_backend.Http.{Action, ok, throw, cast_error}
use chain_verse_backend.Mongo.{Mongo}
use chain_verse_backend.Aid.{AidApplication, AidRepository}

abbrev pub has_aid_id : String → AidApplication → Bool
has_aid_id k x = x.id === k

abbrev pub is_aid_of : String → AidApplication → Bool
is_aid_of st x = x.student_id === st

abbrev pub is_aid_for : String → String → AidApplication → Bool
is_aid_for st co x = x.student_id === st && x.course_id === co

-- An application in the place of the one with its id, or at the end.
abbrev pub put_aid : AidApplication → List AidApplication → List AidApplication
put_aid x l =
    if is_some (first (has_aid_id x.id) l)
    then amend_first (has_aid_id x.id) (λ _. x) l
    else l ++ x ∷ []

-- What the comments of the abstract class promise of a repository.
pub record Contract (repo : AidRepository) : Type 0 where
  pub held : repo.Store → List AidApplication
  pub save-ok : (now : ℕ) (x : AidApplication) (s : repo.Store) → (repo.save now x s).0 ≡ ok x
  pub held-save :
      (now : ℕ) (x : AidApplication) (s : repo.Store)
      → held (repo.save now x s).1 ≡ put_aid x (held s)
  pub find_by_id_lem :
      (id : String) (s : repo.Store)
      → repo.find_by_id id s ≡ (ok (first (has_aid_id id) (held s)), s)
  pub find_by_student_and_course_lem :
      (st co : String) (s : repo.Store)
      → repo.find_by_student_and_course st co s ≡ (ok (first (is_aid_for st co) (held s)), s)
  pub delete-ok : (id : String) (s : repo.Store) → (repo.delete id s).0 ≡ ok tt
  pub held-delete :
      (id : String) (s : repo.Store)
      → held (repo.delete id s).1 ≡ drop_first (has_aid_id id) (held s)

-- `InMemoryFinancialAidApplicationRepository`. An application that it finds is the object in its
-- list; the use cases save what they change.
abbrev pub in_memory : AidRepository
in_memory = record {
  Store = List AidApplication;
  save = λ now x l. (ok x, put_aid x l);
  find_all = λ l. (ok l, l);
  find_by_id = λ id l. (ok (first (has_aid_id id) l), l);
  find_by_student_id = λ st l. (ok (select (is_aid_of st) l), l);
  find_by_student_and_course = λ st co l. (ok (first (is_aid_for st co) l), l);
  delete = λ id l. (ok tt, drop_first (has_aid_id id) l);
}

abbrev pub in_memory_contract : Contract in_memory
in_memory_contract = record {
  held = λ l. l;
  save-ok = λ now x l. refl;
  held-save = λ now x l. refl;
  find_by_id_lem = λ id l. refl;
  find_by_student_and_course_lem = λ st co l. refl;
  delete-ok = λ id l. refl;
  held-delete = λ id l. refl;
}

abbrev pub put_review : ℕ → AidApplication → AidApplication → AidApplication
put_review now x d = record d { reason = x.reason; status = x.status; updated_at = now }

module _ (db : Mongo) where
  open db use {find, find_one, insert, update_one, delete_one, to_object_id, object_id}

  -- The documents, which have the fields of the entity.
  pub record AidDocs : Type 0 where
    pub docs : db.Store AidApplication
    pub minted : ℕ

  unfoldable pub save_doc : ℕ → AidApplication → Action AidDocs AidApplication
  save_doc now x s = elim (to_object_id x.id) [
    | none ↦ throw (cast_error x.id) s
    | some k ↦ elim (find_one (has_aid_id k) s.docs) [
      | some d ↦ (
        ok (put_review now x d),
        record s { docs = update_one (has_aid_id k) (put_review now x) s.docs },
      )
      | none ↦
          let created : AidApplication = record x {
            id = object_id s.minted;
            created_at = now;
            updated_at = now;
          } in
          (ok created, record s { docs = insert created s.docs; minted = s.minted + 1 })
    ]
  ]

  unfoldable pub find_doc : String → Action AidDocs (Option AidApplication)
  find_doc id s = elim (to_object_id id) [
    | none ↦ throw (cast_error id) s
    | some k ↦ (ok (find_one (has_aid_id k) s.docs), s)
  ]

  unfoldable pub delete_doc : String → Action AidDocs (Unit {0})
  delete_doc id s = elim (to_object_id id) [
    | none ↦ throw (cast_error id) s
    | some k ↦ (ok tt, record s { docs = delete_one (has_aid_id k) s.docs })
  ]

  -- `MongooseFinancialAidApplicationRepository`, the one that the module provides.
  abbrev pub mongoose : AidRepository
  mongoose = record {
    Store = AidDocs;
    save = save_doc;
    find_all = λ s. (ok (find (λ _. true) s.docs), s);
    find_by_id = find_doc;
    find_by_student_id = λ st s. (ok (find (is_aid_of st) s.docs), s);
    find_by_student_and_course = λ st co s. (ok (find_one (is_aid_for st co) s.docs), s);
    delete = delete_doc;
  }
