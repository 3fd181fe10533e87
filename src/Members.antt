-- ===== src/Members.antt =====
-- `OrganizationMemberService` of src/organization-member/organization-member.service.ts and
-- `SessionService` of src/session/session.service.ts.
pub mod Roster
use mathlib.Core.Option.{get_or}
use chain_verse_backend.Base.{
  ℕ, String, Bool, true, false, ◌&&◌, Option, none, some, List, ◌===◌, is_some,
}
use chain_verse_backend.Http.{
  Action, ok, raise, throw_if, gets, ◌>>=◌, ◌>>◌, conflict, duplicate_key,
}
use chain_verse_backend.Mongo.{Mongo}
use chain_verse_backend.Documents.{Shelf, add_doc, load_doc, amend_doc, erase_doc}

pub record OrganizationMember : Type 0 where
  pub id : String
  pub organization_id : String
  pub user_id : String
  pub role : String
  pub deleted_at : Option ℕ

pub record Session : Type 0 where
  pub id : String
  pub user_id : String
  pub token : String
  pub ip_address : String
  pub user_agent : String
  pub login_time : ℕ
  pub is_open : Bool

-- What the hooks of soft deletion let a query see.
abbrev pub is_present : OrganizationMember → Bool
is_present m = elim m.deleted_at [ none ↦ true | some _ ↦ false ]

-- The filter `{ organizationId, userId }`, with the hook of soft deletion.
abbrev pub is_member : String → String → OrganizationMember → Bool
is_member org user m = m.organization_id === org && (m.user_id === user && is_present m)

abbrev pub put_role : Option String → OrganizationMember → OrganizationMember
put_role role m = record m { role = get_or role m.role }

abbrev pub close_session : Session → Session
close_session x = record x { is_open = false }

abbrev member_id : OrganizationMember → String
member_id m = m.id

abbrev session_id : Session → String
session_id x = x.id

abbrev no_member : String
no_member = "Organization member not found"

abbrev no_session : String
no_session = "Session not found"

module _ (db : Mongo) where
  open db use {find, find_one}

  -- The unique index holds among the members that are not deleted, as the query does.
  unfoldable pub add_member :
      String → String → String → Action (Shelf db OrganizationMember) OrganizationMember
  unfolding add_doc
  add_member org user role = do
    existing ← gets (λ s. find_one (is_member org user) s.docs)
    throw_if (is_some existing) (conflict "User is already a member of this organization")
    add_doc db (λ id. record {
      id = id;
      organization_id = org;
      user_id = user;
      role = role;
      deleted_at = none;
    })

  unfoldable pub find_by_organization :
      String → Action (Shelf db OrganizationMember) (List OrganizationMember)
  find_by_organization org =
      gets (λ s. find (λ m. m.organization_id === org && is_present m) s.docs)

  unfoldable pub find_by_user :
      String → Action (Shelf db OrganizationMember) (List OrganizationMember)
  find_by_user user = gets (λ s. find (λ m. m.user_id === user && is_present m) s.docs)

  unfoldable pub find_member : String → Action (Shelf db OrganizationMember) OrganizationMember
  unfolding load_doc
  find_member id = load_doc db member_id no_member is_present id

  unfoldable pub update_role :
      String → Option String → Action (Shelf db OrganizationMember) OrganizationMember
  unfolding amend_doc
  update_role id role = amend_doc db member_id no_member id (put_role role)

  unfoldable pub remove_member : String → Action (Shelf db OrganizationMember) String
  unfolding erase_doc
  remove_member id = erase_doc db member_id no_member id

  unfoldable pub create_session :
      ℕ → String → String → String → String → Action (Shelf db Session) Session
  unfolding add_doc
  create_session now user token ip agent = add_doc db (λ id. record {
    id = id;
    user_id = user;
    token = token;
    ip_address = ip;
    user_agent = agent;
    login_time = now;
    is_open = true;
  })

  unfoldable pub find_all_sessions : Action (Shelf db Session) (List Session)
  find_all_sessions = gets (λ s. find (λ _. true) s.docs)

  unfoldable pub find_sessions_of : String → Action (Shelf db Session) (List Session)
  find_sessions_of user = gets (λ s. find (λ x. x.user_id === user) s.docs)

  unfoldable pub find_session : String → Action (Shelf db Session) Session
  unfolding load_doc
  find_session id = load_doc db session_id no_session (λ _. true) id

  unfoldable pub invalidate : String → Action (Shelf db Session) Session
  unfolding amend_doc
  invalidate id = amend_doc db session_id no_session id close_session

  unfoldable pub remove_session : String → Action (Shelf db Session) String
  unfolding erase_doc
  remove_session id = erase_doc db session_id no_session id
