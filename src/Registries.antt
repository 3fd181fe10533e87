-- ===== src/Registries.antt =====
-- The services that keep their items in memory, such as `GamificationPointsService` of
-- src/gamification-points/gamification-points.service.ts, and the controllers in front of them. They
-- differ in their paths, their messages and the roles that they name.
pub mod Stores
pub mod Growth
use chain_verse_backend.Base.{
  ℕ, ◌+◌, ◌≡◌, String, Bool, true, false, not, Option, none, some, List, [], ◌∷◌, ◌++◌, ◌===◌,
  first, amend_first, drop_first, if◌then◌else◌,
}
use chain_verse_backend.Http.{
  Action, Result, ok, raise, throw_if, or_throw, gets, modify, pure, ◌>>=◌, ◌>>◌, not_found,
  bad_request,
}
use chain_verse_backend.StudentAuth.{Services}
use chain_verse_backend.CourseForms.{or_else}
use chain_verse_backend.Guards.{guard}

-- `J` has the values of `metadata`, which is any JSON.
module _ (J : Type 0) where
  pub record CreateEntry : Type 0 where
    pub title : String
    pub description : Option String
    pub metadata : Option J

  pub record UpdateEntry : Type 0 where
    pub title : Option String
    pub description : Option String
    pub metadata : Option J

  -- `{ id, ...payload }`
  pub record Entry : Type 0 where
    pub id : String
    pub title : Option String
    pub description : Option String
    pub metadata : Option J

  -- The items, and how many UUIDs have been drawn.
  pub record Registry : Type 0 where
    pub items : List Entry
    pub drawn : ℕ

-- `crypto.randomUUID`, whose texts have 36 characters, and `isValidObjectId` of Mongoose, which on
-- texts asks for 12 bytes or 24 hexadecimal digits.
pub record Ids : Type 0 where
  pub uuid : ℕ → String
  pub is_valid_object_id : String → Bool
  pub uuid-not_valid : (n : ℕ) → is_valid_object_id (uuid n) ≡ false
  pub uuid-injective : (m n : ℕ) → uuid m ≡ uuid n → m ≡ n

-- What a handler asks of its caller: nothing, or a token with one of the roles.
pub data Barrier : Type 0 where
  anyone : Barrier
  roles : List String → Barrier

-- The guards of the five handlers of a controller, and its path.
pub record Routes : Type 0 where
  pub path : String
  pub listing : Barrier
  pub reading : Barrier
  pub creating : Barrier
  pub updating : Barrier
  pub removing : Barrier

module _ {J : Type 0} where
  abbrev pub is_entry : String → Entry J → Bool
  is_entry id e = e.id === id

  -- `Object.assign(item, payload)`: a field that was not sent is an own field of the instance too,
  -- and overwrites the item's with `undefined`.
  abbrev pub put_entry : UpdateEntry J → Entry J → Entry J
  put_entry payload e = record e {
    title = payload.title;
    description = payload.description;
    metadata = payload.metadata;
  }

  unfoldable pub find_items : Action (Registry J) (List (Entry J))
  find_items = gets (λ s. s.items)

  module _ (ids : Ids) where
    unfoldable pub create_item : CreateEntry J → Action (Registry J) (Entry J)
    create_item payload s =
        let created : Entry J = record {
          id = ids.uuid s.drawn;
          title = some payload.title;
          description = payload.description;
          metadata = payload.metadata;
        } in
        (ok created, record s { items = s.items ++ created ∷ []; drawn = s.drawn + 1 })

  module _ (message : String) where
    unfoldable pub find_item : String → Action (Registry J) (Entry J)
    find_item id = do
      item ← gets (λ s. first (is_entry id) s.items)
      or_throw item (not_found message)

    unfoldable pub update_item : String → UpdateEntry J → Action (Registry J) (Entry J)
    unfolding find_item
    update_item id payload = do
      item ← find_item id
      modify (λ s. record s { items = amend_first (is_entry id) (put_entry payload) s.items })
      pure (put_entry payload item)

    unfoldable pub remove_item : String → Action (Registry J) String
    remove_item id = do
      found ← gets (λ s. first (is_entry id) s.items)
      item ← or_throw found (not_found message)
      modify (λ s. record s { items = drop_first (is_entry id) s.items })
      pure id

-- The requests of a controller; a request by id has the text of its path.
pub data ItemRequest (J : Type 0) : Type 0 where
  list_items : ItemRequest J
  show_item : String → ItemRequest J
  add_item : CreateEntry J → ItemRequest J
  change_item : String → UpdateEntry J → ItemRequest J
  delete_item : String → ItemRequest J

pub data ItemAnswer (J : Type 0) : Type 0 where
  listed : List (Entry J) → ItemAnswer J
  shown created changed : Entry J → ItemAnswer J
  deleted : String → ItemAnswer J

module _ {J : Type 0} (ids : Ids) (env : Services) where
  -- The guards of a handler, for the header of the request.
  unfoldable pub admit : ℕ → Option String → Barrier → Action (Registry J) (Unit {0})
  unfolding guard
  admit now header anyone s = (ok tt, s)
  admit now header (roles rs) s = elim (guard env now header rs) [
    | raise e ↦ (raise e, s)
    | ok u ↦ (ok tt, s)
  ]

  -- `ParseObjectIdPipe`
  unfoldable pub parse_id : String → Action (Registry J) (Unit {0})
  parse_id id =
      throw_if (not (ids.is_valid_object_id id)) (bad_request "id must be a valid ObjectId")

  -- A request to a controller: its guards, its pipe and its handler.
  unfoldable pub serve_item :
      Routes → String → ℕ → Option String → ItemRequest J → Action (Registry J) (ItemAnswer J)
  unfolding admit parse_id find_items find_item create_item update_item remove_item
  serve_item at message now header list_items = do
    admit now header at.listing
    items ← find_items
    pure (listed items)
  serve_item at message now header (show_item id) = do
    admit now header at.reading
    parse_id id
    item ← find_item message id
    pure (shown item)
  serve_item at message now header (add_item payload) = do
    admit now header at.creating
    item ← create_item ids payload
    pure (created item)
  serve_item at message now header (change_item id payload) = do
    admit now header at.updating
    parse_id id
    item ← update_item message id payload
    pure (changed item)
  serve_item at message now header (delete_item id) = do
    admit now header at.removing
    parse_id id
    gone ← remove_item message id
    pure (deleted gone)
