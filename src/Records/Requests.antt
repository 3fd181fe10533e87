-- ===== src/Records/Requests.antt =====
-- `ReportAbuseService` of src/report-abuse, `RemovalRequestService` of src/removal-request and
-- `PrivateTutoringBookingsService` of src/private-tutoring-bookings.
use mathlib.Core.Option.{get_or}
use chain_verse_backend.Base.{
  ℕ, String, Bool, true, false, ◌&&◌, ◌||◌, Option, none, some, List, ◌===◌, is_blank,
}
use chain_verse_backend.Http.{Action, throw_if, gets, ◌>>=◌, ◌>>◌, plain_error}
use chain_verse_backend.Mongo.{Mongo}
use chain_verse_backend.Documents.{Shelf, add_doc, load_doc, amend_doc, erase_doc}
use chain_verse_backend.CourseForms.{or_else}

pub record CreateAbuseReport : Type 0 where
  pub reason : String
  pub content_id : String
  pub content_type : String

pub record UpdateAbuseReport : Type 0 where
  pub status : Option String
  pub admin_notes : Option String

pub record AbuseReport : Type 0 where
  pub id : String
  pub reporter_user_id : String
  pub reason : String
  pub content_id : String
  pub content_type : String
  pub status : String
  pub admin_notes : Option String
  pub deleted_at : Option ℕ

abbrev pub abuse_report_id : AbuseReport → String
abuse_report_id d = d.id

-- What the hooks of soft deletion let a query see.
abbrev pub is_seen_abuse_report : AbuseReport → Bool
is_seen_abuse_report d = elim d.deleted_at [ none ↦ true | some _ ↦ false ]

abbrev pub put_abuse_report : UpdateAbuseReport → AbuseReport → AbuseReport
put_abuse_report payload d = record d {
  status = get_or payload.status d.status;
  admin_notes = or_else payload.admin_notes d.admin_notes;
}

abbrev pub no_abuse_report : String
no_abuse_report = "Abuse report not found"

module _ (db : Mongo) where
  -- A text that is required may not be empty.
  unfoldable pub create_abuse_report :
      String → CreateAbuseReport → Action (Shelf db AbuseReport) AbuseReport
  unfolding add_doc
  create_abuse_report caller payload = do
    throw_if
        (is_blank payload.content_type
          || (is_blank payload.content_id || (is_blank payload.reason || is_blank caller)))
        (plain_error "AbuseReport validation failed")
    add_doc db (λ id. record {
      id = id;
      reporter_user_id = caller;
      reason = payload.reason;
      content_id = payload.content_id;
      content_type = payload.content_type;
      status = "pending";
      admin_notes = none;
      deleted_at = none;
    })

  unfoldable pub find_abuse_reports : Action (Shelf db AbuseReport) (List AbuseReport)
  find_abuse_reports = gets (λ s. db.find is_seen_abuse_report s.docs)

  unfoldable pub find_by_reporter : String → Action (Shelf db AbuseReport) (List AbuseReport)
  find_by_reporter user =
      gets (λ s. db.find (λ d. d.reporter_user_id === user && is_seen_abuse_report d) s.docs)

  unfoldable pub find_abuse_report : String → Action (Shelf db AbuseReport) AbuseReport
  unfolding load_doc
  find_abuse_report id = load_doc db abuse_report_id no_abuse_report is_seen_abuse_report id

  unfoldable pub update_abuse_report :
      String → UpdateAbuseReport → Action (Shelf db AbuseReport) AbuseReport
  unfolding amend_doc
  update_abuse_report id payload =
      amend_doc db abuse_report_id no_abuse_report id (put_abuse_report payload)

  unfoldable pub remove_abuse_report : String → Action (Shelf db AbuseReport) String
  unfolding erase_doc
  remove_abuse_report id = erase_doc db abuse_report_id no_abuse_report id

pub record CreateRemovalRequest (J : Type 0) : Type 0 where
  pub content_id : String
  pub content_type : String
  pub reason : String
  pub metadata : Option J

pub record UpdateRemovalRequest (J : Type 0) : Type 0 where
  pub status : Option String
  pub admin_notes : Option String
  pub metadata : Option J

pub record RemovalRequest (J : Type 0) : Type 0 where
  pub id : String
  pub requested_by : String
  pub content_id : String
  pub content_type : String
  pub reason : String
  pub status : String
  pub admin_notes : Option String
  pub metadata : Option J
  pub deleted_at : Option ℕ

module _ {J : Type 0} where
  abbrev pub removal_request_id : RemovalRequest J → String
  removal_request_id d = d.id

  -- What the hooks of soft deletion let a query see.
  abbrev pub is_seen_removal_request : RemovalRequest J → Bool
  is_seen_removal_request d = elim d.deleted_at [ none ↦ true | some _ ↦ false ]

  abbrev pub put_removal_request : UpdateRemovalRequest J → RemovalRequest J → RemovalRequest J
  put_removal_request payload d = record d {
    status = get_or payload.status d.status;
    admin_notes = or_else payload.admin_notes d.admin_notes;
    metadata = or_else payload.metadata d.metadata;
  }

abbrev pub no_removal_request : String
no_removal_request = "Removal request not found"

module _ (db : Mongo) {J : Type 0} where
  -- A text that is required may not be empty.
  unfoldable pub create_removal_request :
      String → CreateRemovalRequest J → Action (Shelf db (RemovalRequest J)) (RemovalRequest J)
  unfolding add_doc
  create_removal_request caller payload = do
    throw_if
        (is_blank payload.reason
          || (is_blank payload.content_type || (is_blank payload.content_id || is_blank caller)))
        (plain_error "RemovalRequest validation failed")
    add_doc db (λ id. record {
      id = id;
      requested_by = caller;
      content_id = payload.content_id;
      content_type = payload.content_type;
      reason = payload.reason;
      status = "pending";
      admin_notes = none;
      metadata = payload.metadata;
      deleted_at = none;
    })

  unfoldable pub find_removal_requests :
      Action (Shelf db (RemovalRequest J)) (List (RemovalRequest J))
  find_removal_requests = gets (λ s. db.find is_seen_removal_request s.docs)

  unfoldable pub find_by_requester :
      String → Action (Shelf db (RemovalRequest J)) (List (RemovalRequest J))
  find_by_requester user =
      gets (λ s. db.find (λ d. d.requested_by === user && is_seen_removal_request d) s.docs)

  unfoldable pub find_removal_request :
      String → Action (Shelf db (RemovalRequest J)) (RemovalRequest J)
  unfolding load_doc
  find_removal_request id =
      load_doc db removal_request_id no_removal_request is_seen_removal_request id

  -- The document that is loaded is saved with the changes.
  unfoldable pub moderate_removal_request :
      String → UpdateRemovalRequest J → Action (Shelf db (RemovalRequest J)) (RemovalRequest J)
  unfolding find_removal_request amend_doc
  moderate_removal_request id payload = do
    request ← find_removal_request id
    amend_doc db removal_request_id no_removal_request request.id (put_removal_request payload)

  unfoldable pub remove_removal_request : String → Action (Shelf db (RemovalRequest J)) String
  unfolding erase_doc
  remove_removal_request id = erase_doc db removal_request_id no_removal_request id

pub record CreateBooking (J : Type 0) : Type 0 where
  pub title : String
  pub description : Option String
  pub metadata : Option J

pub record UpdateBooking (J : Type 0) : Type 0 where
  pub title : Option String
  pub description : Option String
  pub metadata : Option J

pub record Booking (J : Type 0) : Type 0 where
  pub id : String
  pub title : String
  pub description : Option String
  pub metadata : Option J

module _ {J : Type 0} where
  abbrev pub booking_id : Booking J → String
  booking_id d = d.id

  abbrev pub is_seen_booking : Booking J → Bool
  is_seen_booking d = true

  abbrev pub put_booking : UpdateBooking J → Booking J → Booking J
  put_booking payload d = record d {
    title = get_or payload.title d.title;
    description = or_else payload.description d.description;
    metadata = or_else payload.metadata d.metadata;
  }

abbrev pub no_booking : String
no_booking = "PrivateTutoringBookings item not found"

module _ (db : Mongo) {J : Type 0} where
  -- A text that is required may not be empty.
  unfoldable pub create_booking : CreateBooking J → Action (Shelf db (Booking J)) (Booking J)
  unfolding add_doc
  create_booking payload = do
    throw_if (is_blank payload.title) (plain_error "PrivateTutoringBooking validation failed")
    add_doc db (λ id. record {
      id = id;
      title = payload.title;
      description = payload.description;
      metadata = payload.metadata;
    })

  unfoldable pub find_bookings : Action (Shelf db (Booking J)) (List (Booking J))
  find_bookings = gets (λ s. db.find is_seen_booking s.docs)

  unfoldable pub find_booking : String → Action (Shelf db (Booking J)) (Booking J)
  unfolding load_doc
  find_booking id = load_doc db booking_id no_booking is_seen_booking id

  unfoldable pub update_booking :
      String → UpdateBooking J → Action (Shelf db (Booking J)) (Booking J)
  unfolding amend_doc
  update_booking id payload = amend_doc db booking_id no_booking id (put_booking payload)

  unfoldable pub remove_booking : String → Action (Shelf db (Booking J)) String
  unfolding erase_doc
  remove_booking id = erase_doc db booking_id no_booking id
