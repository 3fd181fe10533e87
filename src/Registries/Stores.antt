-- ===== src/Registries/Stores.antt =====
-- The controllers of `Registries` and the services behind them, one for each of sixteen modules of
-- src/. Their routes name the guards of each handler.
use chain_verse_backend.Base.{ℕ, String, Option, [], ◌∷◌}
use chain_verse_backend.Http.{Action}
use chain_verse_backend.StudentAuth.{Services}
use chain_verse_backend.Registries.{
  Ids, Barrier, anyone, roles, Routes, Registry, ItemRequest, ItemAnswer, serve_item,
}

abbrev pub editors : Barrier
editors = roles ("admin" ∷ "moderator" ∷ "tutor" ∷ [])

abbrev pub keepers : Barrier
keepers = roles ("admin" ∷ "moderator" ∷ [])

-- The guards that most of the controllers have.
abbrev pub staff_routes : String → Routes
staff_routes path = record {
  path = path;
  listing = anyone;
  reading = anyone;
  creating = editors;
  updating = editors;
  removing = keepers;
}

abbrev pub gamification_points_routes : Routes
gamification_points_routes = staff_routes "gamification/points"

abbrev pub moderator_settings_routes : Routes
moderator_settings_routes = staff_routes "admin/moderator/account-settings"

abbrev pub social_sharings_routes : Routes
social_sharings_routes = staff_routes "certificates/social-sharing"

abbrev pub contact_messages_routes : Routes
contact_messages_routes = record (staff_routes "contact-messages") { creating = anyone }

abbrev pub tutor_settings_routes : Routes
tutor_settings_routes = staff_routes "tutor/account-settings"

abbrev pub student_settings_routes : Routes
student_settings_routes = staff_routes "student/account-settings"

abbrev pub about_texts_routes : Routes
about_texts_routes = staff_routes "about"

abbrev pub managed_aids_routes : Routes
managed_aids_routes = staff_routes "admin/financial-aid"

abbrev pub tutor_reports_routes : Routes
tutor_reports_routes = staff_routes "tutor/reports-analytics"

abbrev pub student_reports_routes : Routes
student_reports_routes = record {
  path = "student/reports-analytics";
  listing = keepers;
  reading = keepers;
  creating = keepers;
  updating = keepers;
  removing = keepers;
}

abbrev pub course_reports_routes : Routes
course_reports_routes = staff_routes "courses/reports-analytics"

abbrev pub student_name_changes_routes : Routes
student_name_changes_routes = staff_routes "student/certificates/name-change-request"

abbrev pub name_change_reviews_routes : Routes
name_change_reviews_routes = staff_routes "admin/certificates/name-change-review"

abbrev pub filed_name_changes_routes : Routes
filed_name_changes_routes = staff_routes "student/certificates/name-change-request"

abbrev pub admin_accounts_routes : Routes
admin_accounts_routes = staff_routes "admin/auth"

abbrev pub terms_routes : Routes
terms_routes = staff_routes "terms-conditions"

module _ {J : Type 0} (ids : Ids) (env : Services) where
  -- `GamificationPointsService`
  abbrev pub gamification_points :
      ℕ → Option String → ItemRequest J → Action (Registry J) (ItemAnswer J)
  gamification_points =
      serve_item ids env gamification_points_routes "GamificationPoints item not found"

  -- `AdminModeratorAccountSettingsService`
  abbrev pub moderator_settings :
      ℕ → Option String → ItemRequest J → Action (Registry J) (ItemAnswer J)
  moderator_settings =
      serve_item ids env moderator_settings_routes "AdminModeratorAccountSettings item not found"

  -- `CertificateSocialSharingService`
  abbrev pub social_sharings :
      ℕ → Option String → ItemRequest J → Action (Registry J) (ItemAnswer J)
  social_sharings =
      serve_item ids env social_sharings_routes "CertificateSocialSharing item not found"

  -- `ContactMessageService`
  abbrev pub contact_messages :
      ℕ → Option String → ItemRequest J → Action (Registry J) (ItemAnswer J)
  contact_messages = serve_item ids env contact_messages_routes "ContactMessage item not found"

  -- `TutorAccountSettingsService`
  abbrev pub tutor_settings : ℕ → Option String → ItemRequest J → Action (Registry J) (ItemAnswer J)
  tutor_settings = serve_item ids env tutor_settings_routes "TutorAccountSettings item not found"

  -- `StudentAccountSettingsService`
  abbrev pub student_settings :
      ℕ → Option String → ItemRequest J → Action (Registry J) (ItemAnswer J)
  student_settings =
      serve_item ids env student_settings_routes "StudentAccountSettings item not found"

  -- `AboutManagementService`
  abbrev pub about_texts : ℕ → Option String → ItemRequest J → Action (Registry J) (ItemAnswer J)
  about_texts = serve_item ids env about_texts_routes "AboutManagement item not found"

  -- `AdminFinancialAidManagementService`
  abbrev pub managed_aids : ℕ → Option String → ItemRequest J → Action (Registry J) (ItemAnswer J)
  managed_aids = serve_item ids env managed_aids_routes "AdminFinancialAidManagement item not found"

  -- `TutorReportsAnalyticsService`
  abbrev pub tutor_reports : ℕ → Option String → ItemRequest J → Action (Registry J) (ItemAnswer J)
  tutor_reports = serve_item ids env tutor_reports_routes "TutorReportsAnalytics item not found"

  -- `StudentReportsAnalyticsService`
  abbrev pub student_reports :
      ℕ → Option String → ItemRequest J → Action (Registry J) (ItemAnswer J)
  student_reports =
      serve_item ids env student_reports_routes "StudentReportsAnalytics item not found"

  -- `CourseReportsAnalyticsService`
  abbrev pub course_reports : ℕ → Option String → ItemRequest J → Action (Registry J) (ItemAnswer J)
  course_reports = serve_item ids env course_reports_routes "CourseReportsAnalytics item not found"

  -- `StudentCertificateNameChangeRequestService`
  abbrev pub student_name_changes :
      ℕ → Option String → ItemRequest J → Action (Registry J) (ItemAnswer J)
  student_name_changes =
      serve_item ids env student_name_changes_routes
        "StudentCertificateNameChangeRequest item not found"

  -- `AdminCertificateNameChangeReviewService`
  abbrev pub name_change_reviews :
      ℕ → Option String → ItemRequest J → Action (Registry J) (ItemAnswer J)
  name_change_reviews =
      serve_item ids env name_change_reviews_routes
        "AdminCertificateNameChangeReview item not found"

  -- `StudentCertificateNameChangeRequestService`
  abbrev pub filed_name_changes :
      ℕ → Option String → ItemRequest J → Action (Registry J) (ItemAnswer J)
  filed_name_changes =
      serve_item ids env filed_name_changes_routes
        "StudentCertificateNameChangeRequest item not found"

  -- `AdminAuthService`
  abbrev pub admin_accounts : ℕ → Option String → ItemRequest J → Action (Registry J) (ItemAnswer J)
  admin_accounts = serve_item ids env admin_accounts_routes "AdminAuth item not found"

  -- `TermsConditionsManagementService`
  abbrev pub terms : ℕ → Option String → ItemRequest J → Action (Registry J) (ItemAnswer J)
  terms = serve_item ids env terms_routes "TermsConditionsManagement item not found"
