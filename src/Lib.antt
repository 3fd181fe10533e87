-- ===== src/Lib.antt =====
-- The services of the backend of an online course market, a NestJS server over MongoDB, and what
-- makes them correct.
--
-- Parts, with paths from the repository's root:
--   Http and Mongo: a handler is a function from a state to a result and a state; an exception is a
--     `raise`, and what was written before it stays written. `Mongo` is the interface of the
--     database, with the documented behaviour of each query as a law; `Mongo/Memory` fills it with
--     lists. Handlers run one after another: interleavings of two requests are not modelled.
--   Market: the documents of src/admin-course/schemas, src/student-cart/schemas and
--     src/student-enrollment/schemas, the queries by id with the hooks of
--     src/common/soft-delete/soft-delete.schema.ts, and the state that the course services share:
--     the collections, the events emitted, the mails handed over and the ids generated. Id texts are
--     cast by a parameter, and a text that is no object id is a `CastError`.
--   Cart: `StudentCartService` of src/student-cart/student-cart.service.ts, one function for each
--     method, under its name. Cart/Counts is about the counter `totalCarts`, Runs about requests one after
--     another, as in Saved, Ratings and Enrollment.
--   Enrollment: `StudentEnrollmentService` of
--     src/student-enrollment/student-enrollment.service.ts and `EnrollmentGuard` of
--     src/common/guards/enrollment.guard.ts. The loop of `checkoutCart` is `checkout_items`, its body
--     `checkout_item` under `attempt`, which stands for its try and catch. It clears the items of the
--     cart that Cart fills, and changes the courses that Courses publishes. Free is about
--     `enrollFree`, Rounds, Ledger, Totals and Miscount about `checkoutCart`, Access about reading.
--   CourseForms and Courses: `AdminCourseService` of src/admin-course/admin-course.service.ts, the
--     requests of which the facade src/tutor-course/tutor-course.service.ts passes on; CourseForms
--     has the edits of a course without the queries. Commands makes one step of a state of each
--     request; Moves, Lifecycle and Approval are about the status of a course in every sequence of
--     them, Owners about what a tutor sees.
--   Saved: `StudentSavedCoursesService` of
--     src/student-saved-courses/student-saved-courses.service.ts; Saved/Counts is about the counter
--     `totalWishlists`. Counters has what this counter and others share.
--   Ratings: `CourseRatingsFeedbackService` of
--     src/course-ratings-feedback/course-ratings-feedback.service.ts, which admits the students that
--     Enrollment enrolled; Ratings/Stats and Ratings/Changes are about the statistics of a course,
--     Ratings/Means about the average, which counts hundredths. Ratings are whole numbers.
--   Notifications and Points: `NotificationService` of src/notification/notification.service.ts and
--     `PointsService` of src/points/points.service.ts. Paging is the shape of an answer.
--     Documents has what these and Members do to a document by its id.
--   Members: `OrganizationMemberService` of src/organization-member/organization-member.service.ts
--     and `SessionService` of src/session/session.service.ts; Members/Roster is about who is a member.
--   Listeners: `PointsListener` and `NotificationListener` of src/events/listeners, which take the
--     events that Enrollment, Courses and Saved emit to Points and Notifications; Listeners/Awards is
--     about the points of a student.
--   Idempotency: `IdempotencyService` and `IdempotencyInterceptor` of src/idempotency, around any
--     handler. The record of an answer is written before the next request arrives.
--   Email: the address test of the sign-up, as a scanner.
--   StudentAuth: `StudentAuthService` of src/student-auth/student-auth.service.ts: Account has
--     `create`, `verifyEmail` and `resendVerificationEmail`, Session has `login`, `refreshToken` and
--     `logout`, Reset has `forgetPassword` and `resetPassword`; Rotation is about refresh
--     tokens, Lockout about failed logins, Single about resets and `logout`. Times are in milliseconds
--     and a parameter of each handler.
--   Tutors: `TutorService` of src/tutor/tutor.service.ts, for the accounts of tutors: Account has
--     `create`, `verifyEmail` and the profile, Session has `login`, `refreshToken` and `logout`, Reset
--     has the two handlers of a forgotten password; Keeping and Inactive are about the status of
--     accounts in every sequence of requests, Replay about refresh tokens.
--   Guards: `JwtAuthGuard`, `RolesGuard` and `CourseOwnershipGuard` of src/common/guards, in front of
--     the handlers; Guards/Tokens is about the tokens of StudentAuth and Tutors that they let through.
--   Discovery: `CourseDiscoveryService` of src/course-discovery/course-discovery.service.ts; Searches is
--     about `search`. Sorting has what is relied on of the sort of a query.
--   Analytics: `CourseAnalyticsService` and its controller, of src/course-analytics, which read what
--     Enrollment, Ratings, Saved and Cart write. CourseViews, TutorViews and PlatformViews have the
--     three views; Windows, Earnings and Groups are about them, Trends about the trend.
--   Registries: the sixteen services that keep their items in memory, which differ in names and
--     guards: Stores has one definition for each of them and one for its controller. Growth is about
--     what requests do to the items.
--   Cached: the registries and the FAQs of src/faq-management that stand behind the cache. Boards has
--     the registries, Faqs the FAQs, Age and Fresh are about answers that are out of date or never
--     are, and Slots is a cache in memory.
--   Stellar and Certificates: `StellarService` and `StellarSyncService` of src/stellar, and
--     `CourseCertificationNftAchievementsService` of src/course-certification-nft-achievements, which
--     writes the records of transactions that the synchronisation settles. Payments is about what is
--     accepted as a payment, Polling about the loop that waits for a transaction, which has ten rounds
--     as its fuel, Issues about what a round of the synchronisation may change, and Settling about what
--     it settles.
--   Records: the services of src/badge, src/organization, src/subscription-plan, src/report-abuse,
--     src/removal-request and src/private-tutoring-bookings.
--   Aid: src/financial-aid. Its use cases work on any repository; Stores has the contract and the
--     two repositories, Single and Reviews are about the use cases.
--   Base and its children: lists over the native numbers, integers, texts and Boolean tests.
--   Tests: concrete states, and the theorems applied to them.
--
-- Every other loop goes down a list, so that no fuel is needed. Numbers are unbounded: the counters of the
-- source are doubles that count far below 2^53. Prices count the smallest unit of money.
--
-- Parameters: the database with its text index and the sort of a query, the object ids and UUIDs,
-- bcrypt, SHA-256, the JWT library, the random source and the rounding of averages in floating point,
-- the local calendar, the interceptor of the cache, Horizon, Soroban and Friendbot, which are not in the
-- repository; the sending of a mail, which src/email hands to a remote service; and, for the checkout
-- alone, the check of a payment, which Stellar models as `verify_payment`.
--
-- Not modelled: the other services of src/, `findAll` of the course service, validation of requests
-- before a handler, HTTP, logging, delivery of mails, the note of a registration and the aggregation
-- `getCategories`. src/protocols and src/verification are code of other projects.
pub mod Aid
pub mod Analytics
pub mod Base
pub mod Cached
pub mod Cart
pub mod Certificates
pub mod Counters
pub mod CourseForms
pub mod Courses
pub mod Discovery
pub mod Documents
pub mod Email
pub mod Enrollment
pub mod Guards
pub mod Http
pub mod Idempotency
pub mod Listeners
pub mod Market
pub mod Members
pub mod Mongo
pub mod Notifications
pub mod Paging
pub mod Points
pub mod Ratings
pub mod Records
pub mod Registries
pub mod Saved
pub mod Sorting
pub mod Stellar
pub mod StudentAuth
pub mod Tests
pub mod Tutors
