-- ===== src/Notifications.antt =====
-- `NotificationService` of src/notification/notification.service.ts.
pub mod Pages
use mathlib.Core.Option.{get_or}
use chain_verse_backend.Base.{
  ℕ, ◌+◌, ◌*◌, ◌-◌, String, Bool, true, false, not, ◌&&◌, Option, none, some, List, [], ◌∷◌, ◌===◌,
  leb, if◌then◌else◌, ◌==◌,
}
use chain_verse_backend.Http.{
  Action, ok, raise, throw, throw_if, or_throw, gets, modify, pure, ◌>>=◌, ◌>>◌, not_found,
  plain_error, cast_error,
}
use chain_verse_backend.Mongo.{Mongo}
use chain_verse_backend.Documents.{Shelf, add_doc, load_doc, amend_doc, erase_doc}
use chain_verse_backend.CourseForms.{or_else}
use chain_verse_backend.Paging.{Page, ceil_div}

pub record Notification : Type 0 where
  pub id : String
  pub user_id : String
  pub title : String
  pub message : String
  pub kind : Option String
  pub is_read : Bool
  pub metadata : List (String × String)

-- `CreateNotificationDto` and `UpdateNotificationDto`
pub record CreateNotification : Type 0 where
  pub user_id : String
  pub title : String
  pub message : String
  pub kind : Option String
  pub metadata : List (String × String)

pub record UpdateNotification : Type 0 where
  pub title : Option String
  pub message : Option String
  pub kind : Option String
  pub is_read : Option Bool
  pub metadata : Option (List (String × String))

abbrev pub is_note_of : String → Notification → Bool
is_note_of u n = n.user_id === u

abbrev pub put_note : UpdateNotification → Notification → Notification
put_note d n = record n {
  title = get_or d.title n.title;
  message = get_or d.message n.message;
  kind = or_else d.kind n.kind;
  is_read = get_or d.is_read n.is_read;
  metadata = get_or d.metadata n.metadata;
}

abbrev pub set_read : Notification → Notification
set_read n = record n { is_read = true }

-- `Math.min(limit, 50)`
abbrev pub safe_limit : ℕ → ℕ
safe_limit n = if leb n 50 then n else 50

abbrev note_id : Notification → String
note_id n = n.id

abbrev no_note : String
no_note = "Notification not found"

module _ (db : Mongo) where
  open db use {find_window, count}

  abbrev pub Inbox : Type 0
  Inbox = Shelf db Notification

  unfoldable pub create_note : CreateNotification → Action Inbox Notification
  unfolding add_doc
  create_note d = add_doc db (λ id. record {
    id = id;
    user_id = d.user_id;
    title = d.title;
    message = d.message;
    kind = d.kind;
    is_read = false;
    metadata = d.metadata;
  })

  -- The two lists of pages differ in the filter. A page below the first is a negative skip, which
  -- the server refuses. The quotient of a limit of 0 is no number; it is written 0.
  unfoldable pub find_page : (Notification → Bool) → ℕ → ℕ → Action Inbox (Page Notification)
  find_page p page limit = do
    let n : ℕ = safe_limit limit
    throw_if (page == 0 && not (n == 0)) (plain_error "skip value must be non-negative")
    items ← gets (λ s. find_window p ((page - 1) * n) n s.docs)
    total ← gets (λ s. count p s.docs)
    pure (record {
      items = items;
      total = total;
      page = page;
      limit = n;
      total_pages = if n == 0 then 0 else ceil_div total n;
    })

  unfoldable pub find_all_notes : ℕ → ℕ → Action Inbox (Page Notification)
  unfolding find_page
  find_all_notes page limit = find_page (λ _. true) page limit

  unfoldable pub find_by_user_id : String → ℕ → ℕ → Action Inbox (Page Notification)
  unfolding find_page
  find_by_user_id user page limit = find_page (is_note_of user) page limit

  unfoldable pub find_note : String → Action Inbox Notification
  unfolding load_doc
  find_note id = load_doc db note_id no_note (λ _. true) id

  unfoldable pub update_note : String → UpdateNotification → Action Inbox Notification
  unfolding amend_doc
  update_note id d = amend_doc db note_id no_note id (put_note d)

  unfoldable pub mark_as_read : String → Action Inbox Notification
  unfolding amend_doc
  mark_as_read id = amend_doc db note_id no_note id set_read

  unfoldable pub remove_note : String → Action Inbox String
  unfolding erase_doc
  remove_note id = erase_doc db note_id no_note id
