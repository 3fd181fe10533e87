-- ===== src/Tests/Rosters.antt =====
-- An organization that a user joins twice.
use chain_verse_backend.Base.{List, [], ◌∷◌, some, arith}
use chain_verse_backend.Mongo.Memory.{memory}
use chain_verse_backend.Documents.{Shelf}
use chain_verse_backend.Members.{OrganizationMember}
use chain_verse_backend.Members.Roster.{
  MemberRequest, IsRoster, serve_members, serve_members-IsRoster,
}

abbrev nobody : Shelf memory OrganizationMember
nobody = record { docs = []; minted = 0 }

abbrev requests : List MemberRequest
requests =
    MemberRequest.add "o" "u" "admin"
    ∷ MemberRequest.add "o" "u" "admin"
    ∷ MemberRequest.change "a" (some "owner")
    ∷ []

serve_members-IsRoster_example : IsRoster memory (serve_members memory requests nobody)
serve_members-IsRoster_example =
    serve_members-IsRoster memory requests nobody (λ org user. omega arith)
