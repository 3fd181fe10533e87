-- ===== src/Tests/Gates.antt =====
-- The guards on the header of a student.
use chain_verse_backend.Base.{String, ◌≡◌, ◌⊎◌, refl, none, some, true, false, List, [], ◌∷◌}
use chain_verse_backend.Http.{ok}
use chain_verse_backend.Mongo.Memory.{memory}
use chain_verse_backend.Market.{contains}
use chain_verse_backend.StudentAuth.{Services, Claims}
use chain_verse_backend.StudentAuth.Session.{is_kind}
use chain_verse_backend.Guards.{User, bearer, guard}
use chain_verse_backend.Guards.Tokens.{IsAccess, guard-ok}
use chain_verse_backend.Tests.Teachers.{services}

abbrev access : Claims
access = record {
  sub = some "a";
  kind = none;
  email = some "a@b.c";
  role = some "student";
  jti = none;
  token_family = none;
}

abbrev gatekeeper : Services
gatekeeper = record services { verify = λ t token. some access }

abbrev visitor : User
visitor = record { id = "a"; email = "a@b.c"; role = "student" }

abbrev roles : List String
roles = "admin" ∷ "student" ∷ []

passed : guard gatekeeper 0 (some "Bearer xyz") roles ≡ ok visitor
unfolding guard
passed = refl

guard-ok_example :
    (token : String) × (c : Claims) × (bearer (some "Bearer xyz") ≡ some token)
    × (gatekeeper.verify 0 token ≡ some c)
    × (is_kind "refresh" c ≡ false)
    × (c.sub ≡ some "a")
    × (c.role ≡ some "student")
    × ((roles ≡ []) ⊎ (contains roles "student" ≡ true))
    × IsAccess memory gatekeeper c
guard-ok_example = guard-ok memory gatekeeper 0 (some "Bearer xyz") roles visitor passed
