-- ===== src/Guards.antt =====
-- The guards of src/common/guards in front of the handlers: `JwtAuthGuard`, `RolesGuard` and
-- `CourseOwnershipGuard`. The messages of the JWT library's own errors are all "Invalid token" here.
pub mod Tokens
use Prim.Native.Char.{code}
use chain_verse_backend.Base.{
  ℕ, String, Bool, true, false, not, ◌&&◌, Option, none, some, List, [], ◌∷◌, ◌===◌, ◌==◌, is_blank,
  is_empty, if◌then◌else◌,
}
use chain_verse_backend.Http.{
  Action, Result, ok, raise, throw_if, or_throw, pure, ◌>>=◌, ◌>>◌, unauthorized, forbidden,
  not_found,
}
use chain_verse_backend.Mongo.{Mongo}
use chain_verse_backend.Market.{Course, State, contains, find_course}
use chain_verse_backend.StudentAuth.{Services, Claims}
use chain_verse_backend.StudentAuth.Session.{is_kind}

-- `request.user`
pub record User : Type 0 where
  pub id : String
  pub email : String
  pub role : String

-- `startsWith` and what comes after it.
abbrev pub after_prefix : String → String → Option String
after_prefix String.[] s = some s
after_prefix (String.◌∷◌ c p) String.[] = none
after_prefix (String.◌∷◌ c p) (String.◌∷◌ d s) = if code c == code d then after_prefix p s else none

-- The text up to the first space.
abbrev pub first_word : String → String
first_word String.[] = String.[]
first_word (String.◌∷◌ c s) = if code c == 32 then String.[] else String.◌∷◌ c (first_word s)

-- `authHeader.split(' ')[1]` of a header that starts with `Bearer `.
abbrev pub bearer : Option String → Option String
bearer none = none
bearer (some h) = elim (after_prefix "Bearer " h) [ none ↦ none | some s ↦ some (first_word s) ]

-- A claim that is a text and not empty.
abbrev pub given : Option String → Option String
given none = none
given (some t) = if is_blank t then none else some t

-- The user that the claims describe, where none of the three is missing.
abbrev pub identity : Claims → Option User
identity c = elim (given c.sub) [
  | none ↦ none
  | some id ↦ elim (given c.email) [
    | none ↦ none
    | some email ↦ elim (given c.role) [
      | none ↦ none
      | some role ↦ some (record { id = id; email = email; role = role })
    ]
  ]
]

module _ (env : Services) where
  -- `JwtAuthGuard.canActivate`, with the user that it attaches to the request.
  unfoldable pub authenticate : ℕ → Option String → Result User
  authenticate now header = elim (bearer header) [
    | none ↦ raise (unauthorized "Missing or invalid authorization token")
    | some token ↦
        if is_blank token
        then raise (unauthorized "Token not provided")
        else elim (env.verify now token) [
          | none ↦ raise (unauthorized "Invalid token")
          | some c ↦
              if is_kind "refresh" c
              then raise (unauthorized "Refresh tokens cannot be used for authentication")
              else elim (identity c) [
                | none ↦ raise (unauthorized "Token is missing required claims")
                | some u ↦ ok u
              ]
        ]
  ]

  -- `RolesGuard.canActivate`, for the roles that the handler or its class names.
  unfoldable pub check_roles : List String → Option User → Result (Unit {0})
  check_roles roles user = if is_empty roles then ok tt else elim user [
    | none ↦ raise (forbidden "User role not found")
    | some u ↦
        if is_blank u.role
        then raise (forbidden "User role not found")
        else (if contains roles u.role then ok tt else raise (forbidden "Insufficient permissions"))
  ]

  -- `@UseGuards(JwtAuthGuard, RolesGuard)`
  unfoldable pub guard : ℕ → Option String → List String → Result User
  unfolding authenticate check_roles
  guard now header roles = elim (authenticate now header) [
    | raise e ↦ raise e
    | ok u ↦ elim (check_roles roles (some u)) [ raise e ↦ raise e | ok _ ↦ ok u ]
  ]

module _ (db : Mongo) where
  -- `CourseOwnershipGuard.canActivate`, with the course that it attaches to the request.
  unfoldable pub own_course : String → Option User → Action (State db) Course
  unfolding find_course
  own_course course_id user = do
    throw_if (is_blank course_id) (not_found "Course ID not found in route parameters")
    u ← or_throw user (forbidden "User not authenticated")
    throw_if (is_blank u.id) (forbidden "User ID not found in token")
    course ← or_throw (← find_course db course_id) (not_found "Course not found")
    throw_if (not (course.tutor_id === u.id))
        (forbidden "You do not have permission to access this course")
    pure course
