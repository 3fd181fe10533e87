-- ===== src/CourseForms.antt =====
-- The requests on a course, src/admin-course/dto, and what `AdminCourseService` of
-- src/admin-course/admin-course.service.ts does to a loaded course, without the queries.
use Prim.Native.String.{◌++◌ as text_append}
use mathlib.Core.Option.{get_or}
use chain_verse_backend.Base.{
  ℕ, ◌+◌, String, Bool, true, false, not, ◌&&◌, ◌||◌, Option, none, some, List, [], ◌∷◌,
  if◌then◌else◌, is_some, or_default,
}
use chain_verse_backend.Base.Int.{ℤ, pos}
use chain_verse_backend.Http.{Failure, not_found}
use chain_verse_backend.Market.{Status, is_published, Section, Course, Mail, contains}

-- `CreateCourseDto`
pub record CreateCourseDto : Type 0 where
  pub title : String
  pub description : String
  pub category : String
  pub tags : List String
  pub price : ℕ
  pub thumbnail_url : Option String
  pub thumbnail_images : List String
  pub level : String
  pub duration : Option String
  pub duration_hours : ℕ
  pub language : Option String
  pub has_certificate : Bool
  pub curriculum : List Section

-- `UpdateCourseDto`, with the own keys of the object: a key may be there with no value.
pub record UpdateCourseDto : Type 0 where
  pub keys : List String
  pub title : Option String
  pub description : Option String
  pub category : Option String
  pub tags : Option (List String)
  pub price : Option ℕ
  pub thumbnail_url : Option String
  pub thumbnail_images : Option (List String)
  pub level : Option String
  pub duration : Option String
  pub duration_hours : Option ℕ
  pub language : Option String
  pub has_certificate : Option Bool
  pub curriculum : Option (List Section)

pub data Decision : Type 0 where
  approve reject : Decision

abbrev pub status_of : Decision → Status
status_of approve = Status.approved
status_of reject = Status.rejected

abbrev pub is_pending : Status → Bool
is_pending Status.pending = true
is_pending _ = false

-- `draft` or `rejected`; `approved` or `unpublished`.
abbrev pub is_submittable : Status → Bool
is_submittable Status.draft = true
is_submittable Status.rejected = true
is_submittable _ = false

abbrev pub is_publishable : Status → Bool
is_publishable Status.approved = true
is_publishable Status.unpublished = true
is_publishable _ = false

-- The keys that the owner may change of a published course.
abbrev pub open_fields : List String
open_fields = "description" ∷ "curriculum" ∷ "thumbnailUrl" ∷ "thumbnailImages" ∷ []

abbrev pub has_closed_field : List String → Bool
has_closed_field [] = false
has_closed_field (k ∷ ks) = not (contains open_fields k) || has_closed_field ks

abbrev pub or_else {ℓ} : {A : Type ℓ} → Option A → Option A → Option A
or_else none b = b
or_else (some a) b = some a

-- The document that `create` saves.
abbrev pub new_course : ℕ → String → CreateCourseDto → String → String → String → Course
new_course now id dto tutor_id tutor_email tutor_name = record {
  id = id;
  title = dto.title;
  description = dto.description;
  category = dto.category;
  tags = dto.tags;
  price = dto.price;
  thumbnail_url = dto.thumbnail_url;
  thumbnail_images = dto.thumbnail_images;
  tutor_id = tutor_id;
  tutor_email = tutor_email;
  tutor_name = tutor_name;
  level = dto.level;
  duration = dto.duration;
  duration_hours = dto.duration_hours;
  language = dto.language;
  has_certificate = dto.has_certificate;
  status = Status.draft;
  curriculum = dto.curriculum;
  total_enrollments = 0;
  total_reviews = 0;
  average_rating = 0;
  total_wishlists = pos 0;
  total_carts = pos 0;
  view_count = 0;
  published_at = none;
  approved_at = none;
  rejection_reason = none;
  deleted_at = none;
  deleted_by = none;
  deletion_reason = none;
  created_at = now;
}

-- What the schema requires of a course, and an update may leave out.
abbrev pub lacks_required : UpdateCourseDto → Bool
lacks_required d =
    not (is_some d.title && (is_some d.description && (is_some d.category && is_some d.price)))

-- `Object.assign(course, dto)`: the fields of the class are own fields of every instance, so that
-- one that was not sent unsets the course's. It is read as the default of the schema from then on,
-- and one that is required is refused before it is saved.
abbrev pub assign : UpdateCourseDto → Course → Course
assign d c = record c {
  title = get_or d.title c.title;
  description = get_or d.description c.description;
  category = get_or d.category c.category;
  tags = get_or d.tags [];
  price = get_or d.price c.price;
  thumbnail_url = d.thumbnail_url;
  thumbnail_images = get_or d.thumbnail_images [];
  level = get_or d.level "beginner";
  duration = d.duration;
  duration_hours = get_or d.duration_hours 0;
  language = d.language;
  has_certificate = get_or d.has_certificate false;
  curriculum = get_or d.curriculum [];
}

abbrev pub set_status : Status → Course → Course
set_status t c = record c { status = t }

abbrev pub missing : String → Failure
missing id = not_found (text_append "Course " (text_append id " not found"))

abbrev pub published_at_time : ℕ → Course → Course
published_at_time now c = record c { status = Status.published; published_at = some now }

abbrev pub approved_now : ℕ → Course → Course
approved_now now c = record c {
  status = Status.approved;
  approved_at = some now;
  rejection_reason = none;
}

abbrev pub rejected_for : String → Course → Course
rejected_for reason c = record c { status = Status.rejected; rejection_reason = some reason }

-- The decision on the fields of the course, and the letter to its tutor.
abbrev pub apply_decision : ℕ → Decision → Option String → Course → Course
apply_decision now approve reason = approved_now now
apply_decision now reject reason =
    rejected_for (or_default reason "Course does not meet quality standards")

abbrev pub letter : Decision → Option String → Course → Mail
letter approve reason c = record {
  to = c.tutor_email;
  subject = "Course Approved";
  body =
      text_append "Your course \""
        (text_append c.title "\" has been approved and is ready to be published.");
}
letter reject reason c = record {
  to = c.tutor_email;
  subject = "Course Rejected";
  body = text_append "Your course \"" (
      text_append c.title (
        text_append "\" has been rejected. Reason: "
          (or_default reason "Course does not meet quality standards")));
}

abbrev pub deleted_now : ℕ → String → String → Course → Course
deleted_now now who reason c = record c {
  deleted_at = some now;
  deleted_by = some who;
  deletion_reason = some reason;
}

abbrev pub deleter : Bool → String → String
deleter is_admin tutor_id =
    if is_admin then text_append "admin:" tutor_id else text_append "tutor:" tutor_id

-- The change that `update` makes of a course, in the branch of what was loaded.
abbrev pub is_guarded : Bool → Course → Bool
is_guarded is_admin c = is_published c.status && not is_admin

abbrev pub revise : UpdateCourseDto → Bool → Course → Course → Course
revise dto is_admin loaded c =
    if is_guarded is_admin loaded && is_some dto.curriculum
    then assign dto (set_status Status.pending c)
    else assign dto c

-- The updates of `updateCourseStats`; one that is not given changes nothing.
pub record CourseStats : Type 0 where
  pub average_rating : Option ℕ
  pub total_reviews : Option ℕ
  pub total_wishlists : Option ℤ
  pub total_carts : Option ℤ

abbrev pub put_stats : CourseStats → Course → Course
put_stats u c = record c {
  average_rating = get_or u.average_rating c.average_rating;
  total_reviews = get_or u.total_reviews c.total_reviews;
  total_wishlists = get_or u.total_wishlists c.total_wishlists;
  total_carts = get_or u.total_carts c.total_carts;
}

abbrev pub count_student : Course → Course → Course
count_student loaded c = record c { total_enrollments = loaded.total_enrollments + 1 }
