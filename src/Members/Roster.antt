-- ===== src/Members/Roster.antt =====
-- Sequences of requests on the members of organizations.
use chain_verse_backend.Base.{
  ◌≤◌, String, ◌≡◌, refl, ◌⊎◌, inl, inr, Bool, Option, none, List, [], ◌∷◌, ◌++◌, ◌===◌, arith,
  eq_iff, first, tally, amend_first, tally-append, tally-drop_first-le, first-eq-none→tally,
  Option-cases, Bool-cases,
}
use chain_verse_backend.Mongo.{Mongo}
use chain_verse_backend.Documents.{Shelf}
use chain_verse_backend.Members.{
  OrganizationMember, is_member, put_role, add_member, update_role, remove_member,
}

-- The requests that change the members.
pub data MemberRequest : Type 0 where
  add : (org user role : String) → MemberRequest
  change : String → Option String → MemberRequest
  remove : String → MemberRequest

tally-amend_first-same :
    (p q : OrganizationMember → Bool) (f : OrganizationMember → OrganizationMember)
    (l : List OrganizationMember)
    → ((m : OrganizationMember) → p (f m) ≡ p m)
    → tally p (amend_first q f l) ≡ tally p l
tally-amend_first-same p q f [] h = refl
tally-amend_first-same p q f (m ∷ l) h = ground (arith, h m, tally-amend_first-same p q f l h)

-- A new member, of whom the organization has no record.
tally-new :
    (org user o u : String) (m : OrganizationMember) (l : List OrganizationMember)
    → m.organization_id ≡ org
    → m.user_id ≡ user
    → first (is_member org user) l ≡ none
    → tally (is_member o u) l ≤ 1
    → tally (is_member o u) (l ++ m ∷ []) ≤ 1
tally-new org user o u m l eo eu fresh few = elim (Bool-cases (is_member o u m)) [
  | inl here ↦
      let same_org : org ≡ o = ground (arith, eq_iff m.organization_id o) in
      let same_user : user ≡ u = ground (arith, eq_iff m.user_id u) in
      let zero_there : tally (is_member o u) l ≡ 0 =
        rw (← same_org, ← same_user) (first-eq-none→tally (is_member org user) l fresh) in
      rw (tally-append, here) (omega (arith, zero_there))
  | inr other ↦ rw (tally-append, other) (omega (arith, few))
]

module _ (db : Mongo) where
  open db use {
    all, object_id, find_one_lem, all-insert, all-update_one, all-delete_one, update_one,
    delete_one,
  }

  unfoldable pub serve_member :
      MemberRequest → Shelf db OrganizationMember → Shelf db OrganizationMember
  serve_member (MemberRequest.add org user role) s = (add_member db org user role s).1
  serve_member (MemberRequest.change id role) s = (update_role db id role s).1
  serve_member (MemberRequest.remove id) s = (remove_member db id s).1

  unfoldable pub serve_members :
      List MemberRequest → Shelf db OrganizationMember → Shelf db OrganizationMember
  serve_members [] s = s
  serve_members (r ∷ rs) s = serve_members rs (serve_member r s)

  -- Nobody is a member of an organization twice, but for deleted records.
  abbrev pub IsRoster : Shelf db OrganizationMember → Type 0
  IsRoster s = (org user : String) → tally (is_member org user) (all s.docs) ≤ 1

  new_member : String → String → String → Shelf db OrganizationMember → OrganizationMember
  new_member org user role s = record {
    id = object_id s.minted;
    organization_id = org;
    user_id = user;
    role = role;
    deleted_at = none;
  }

  add_member_cases :
      (org user role : String) (s : Shelf db OrganizationMember)
      → ((add_member db org user role s).1.docs ≡ s.docs)
        ⊎ ((first (is_member org user) (all s.docs) ≡ none)
            × ((add_member db org user role s).1.docs
                ≡ db.insert (new_member org user role s) s.docs))
  unfolding add_member new_member
  add_member_cases org user role s = ground (arith, find_one_lem (is_member org user) s.docs)

  add_member-IsRoster :
      (org user role : String) (s : Shelf db OrganizationMember)
      → IsRoster s
      → IsRoster (add_member db org user role s).1
  unfolding new_member
  add_member-IsRoster org user role s h o u = elim (add_member_cases org user role s) [
    | inl same ↦ rw same (h o u)
    | inr (fresh, put) ↦
        rw (put, all-insert)
          (tally-new org user o u (new_member org user role s) (all s.docs) refl refl fresh (h o u))
  ]

  update_role_cases :
      (id : String) (role : Option String) (s : Shelf db OrganizationMember)
      → ((update_role db id role s).1.docs ≡ s.docs)
        ⊎ ((k : String) × ((update_role db id role s).1.docs
              ≡ update_one (λ m. m.id === k) (put_role role) s.docs))
  unfolding update_role
  update_role_cases id role s = elim (Option-cases (db.to_object_id id)) [
    | inl bad ↦ inl (ground arith)
    | inr (k, e) ↦ inr (k, ground arith)
  ]

  update_role-IsRoster :
      (id : String) (role : Option String) (s : Shelf db OrganizationMember)
      → IsRoster s
      → IsRoster (update_role db id role s).1
  update_role-IsRoster id role s h o u = elim (update_role_cases id role s) [
    | inl same ↦ rw same (h o u)
    | inr (k, put) ↦
        rw
          (
            put,
            all-update_one,
            tally-amend_first-same (is_member o u) (λ m. m.id === k) (put_role role) (all s.docs)
                (λ m. refl),
          )
          (h o u)
  ]

  remove_member_cases :
      (id : String) (s : Shelf db OrganizationMember)
      → ((remove_member db id s).1.docs ≡ s.docs)
        ⊎ ((k : String) × ((remove_member db id s).1.docs ≡ delete_one (λ m. m.id === k) s.docs))
  unfolding remove_member
  remove_member_cases id s = elim (Option-cases (db.to_object_id id)) [
    | inl bad ↦ inl (ground arith)
    | inr (k, e) ↦ inr (k, ground arith)
  ]

  remove_member-IsRoster :
      (id : String) (s : Shelf db OrganizationMember)
      → IsRoster s
      → IsRoster (remove_member db id s).1
  remove_member-IsRoster id s h o u = elim (remove_member_cases id s) [
    | inl same ↦ rw same (h o u)
    | inr (k, gone) ↦
        rw (gone, all-delete_one)
          (omega (arith, h o u, tally-drop_first-le (is_member o u) (λ m. m.id === k) (all s.docs)))
  ]

  serve_member-IsRoster :
      (r : MemberRequest) (s : Shelf db OrganizationMember)
      → IsRoster s
      → IsRoster (serve_member r s)
  unfolding serve_member
  serve_member-IsRoster (MemberRequest.add org user role) s h =
      add_member-IsRoster org user role s h
  serve_member-IsRoster (MemberRequest.change id role) s h = update_role-IsRoster id role s h
  serve_member-IsRoster (MemberRequest.remove id) s h = remove_member-IsRoster id s h

  -- Where nobody is twice a member of one organization, deleted records aside, nobody is after
  -- any sequence of requests that add members, change their roles and remove them.
  pub serve_members-IsRoster :
      (rs : List MemberRequest) (s : Shelf db OrganizationMember)
      → IsRoster s
      → IsRoster (serve_members rs s)
  unfolding serve_members
  serve_members-IsRoster [] s h = h
  serve_members-IsRoster (r ∷ rs) s h =
      serve_members-IsRoster rs (serve_member r s) (serve_member-IsRoster r s h)
