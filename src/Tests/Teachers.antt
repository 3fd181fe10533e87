-- ===== src/Tests/Teachers.antt =====
-- Accounts and refresh tokens of tutors, with services that compute.
use mathlib.Core.Option.{get_or}
use chain_verse_backend.Base.{ℕ, String, ◌≡◌, ◌≢◌, refl, some, false, [], ◌∷◌, ◌===◌, text_refl}
use chain_verse_backend.Http.{ok, raise, unauthorized}
use chain_verse_backend.Mongo.Memory.{memory, run_of}
use chain_verse_backend.StudentAuth.{Services, Claims, RefreshToken, TokenPair}
use chain_verse_backend.StudentAuth.Rotation.{IsClosed, revoked_message}
use chain_verse_backend.Tutors.{
  TutorAccount, TutorView, AccountStatus, TutorAuth, tutor_refresh_claims,
}
use chain_verse_backend.Tutors.Account.{CreateTutorDto, new_tutor}
use chain_verse_backend.Tutors.Session.{login_tutor, refresh_tutor_token}
use chain_verse_backend.Tutors.Inactive.{
  TutorRequest, IsInactive, serve_tutors, serve_tutors-IsInactive,
}
use chain_verse_backend.Tutors.Replay.{Shows, refresh_tutor_token-replay}

abbrev pub claims : Claims
claims = tutor_refresh_claims "a" "f" "t"

abbrev pub services : Services
services = record {
  hash_password = λ salt p. p;
  compare_password = λ p h. p === h;
  sha256 = λ t. t;
  sign = λ t c life. get_or c.jti "access";
  verify = λ t token. some claims;
  random = run_of;
  deliver = λ to. ok tt;
  compare_password-hash_password = λ salt p. text_refl p;
}

abbrev application : CreateTutorDto
application = record { first_name = "A"; last_name = "B"; email = "a@b.c"; password = "12345678" }

abbrev empty : TutorAuth memory
empty = record {
  tutors = [];
  refresh_tokens = [];
  reset_tokens = [];
  events = [];
  mails = [];
  minted = 0;
  drawn = 1;
}

serve_tutors-IsInactive_example :
    IsInactive memory services
      (serve_tutors memory services (TutorRequest.create 0 application ∷ []) empty)
    × ((now : ℕ) (email p : String) (v : TutorView × TokenPair)
        → (login_tutor memory services now email p
            (serve_tutors memory services (TutorRequest.create 0 application ∷ []) empty)).0
          ≢ ok v)
serve_tutors-IsInactive_example =
    serve_tutors-IsInactive memory services (TutorRequest.create 0 application ∷ []) empty tt

abbrev tutor : TutorAccount
tutor = record (new_tutor 0 "a" application "12345678") { account_status = AccountStatus.active }

abbrev token : RefreshToken
token = record {
  token_hash = "t";
  token_family = "f";
  student_id = "a";
  expires_at = 10;
  is_revoked = false;
}

abbrev staff : TutorAuth memory
staff = record empty { tutors = tutor ∷ []; refresh_tokens = token ∷ [] }

staff-Shows : Shows memory services 0 "t" staff token
staff-Shows = record {
  some_text = refl;
  payload = claims;
  reads = refl;
  is_refresh = refl;
  of_family = refl;
  some_family = refl;
  found = refl;
}

abbrev used_staff : TutorAuth memory
used_staff = (refresh_tutor_token memory services 0 "t" staff).1

refresh_tutor_token-replay_example :
    ((refresh_tutor_token memory services 1 "t" used_staff).0
      ≡ raise (unauthorized revoked_message))
    × IsClosed "f" (refresh_tutor_token memory services 1 "t" used_staff).1.refresh_tokens
refresh_tutor_token-replay_example =
    refresh_tutor_token-replay memory services 0 1 "t" staff token claims staff-Shows refl refl refl
