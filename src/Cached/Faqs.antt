-- ===== src/Cached/Faqs.antt =====
-- `FaqManagementService` of src/faq-management/faq-management.service.ts, behind its controller's
-- cache. Its requests have the fields of the other registries, of which the schema has none: an
-- update leaves them out and sets the time of the update, as the schema has timestamps, and a new
-- document misses what the schema requires.
use Prim.Native.String.{◌++◌ as text_append}
use chain_verse_backend.Base.{ℕ, String, Bool, leb, List, [], ◌∷◌}
use chain_verse_backend.Http.{Action, ok, throw, plain_error}
use chain_verse_backend.Mongo.{Mongo}
use chain_verse_backend.Documents.{Shelf, load_doc, amend_doc, erase_doc}
use chain_verse_backend.Sorting.{Sorter}
use chain_verse_backend.Registries.{CreateEntry, UpdateEntry}
use chain_verse_backend.Cached.{Cache, Kept, cached_read, write_and_drop}

pub record Faq : Type 0 where
  pub id : String
  pub question : String
  pub answer : String
  pub is_active : Bool
  pub order : ℕ
  pub created_at : ℕ
  pub updated_at : ℕ

abbrev pub faq_cache_key : String
faq_cache_key = "/api/v1/faq"

abbrev pub faq_lifetime : ℕ
faq_lifetime = 600000

-- `${FAQ_CACHE_KEY}/${id}`
abbrev pub faq_item_key : String → String
faq_item_key id = text_append faq_cache_key (text_append "/" id)

abbrev pub no_faq : String
no_faq = "FaqManagement item not found"

abbrev pub faq_id : Faq → String
faq_id f = f.id

abbrev pub is_active_faq : Faq → Bool
is_active_faq f = f.is_active

-- `.sort({ order: 1 })`
abbrev pub is_ordered_before : Faq → Faq → Bool
is_ordered_before f g = leb f.order g.order

-- `timestamps: true` on an update.
abbrev pub touch : ℕ → Faq → Faq
touch now f = record f { updated_at = now }

module _ (db : Mongo) where
  unfoldable pub find_faq : String → Action (Shelf db Faq) Faq
  unfolding load_doc
  find_faq id = load_doc db faq_id no_faq is_active_faq id

  unfoldable pub create_faq : {J : Type 0} → CreateEntry J → Action (Shelf db Faq) Faq
  create_faq payload = throw (plain_error "FaqManagement validation failed")

  unfoldable pub update_faq : {J : Type 0} → ℕ → String → UpdateEntry J → Action (Shelf db Faq) Faq
  unfolding amend_doc
  update_faq now id payload = amend_doc db faq_id no_faq id (touch now)

  unfoldable pub remove_faq : String → Action (Shelf db Faq) String
  unfolding erase_doc
  remove_faq id = erase_doc db faq_id no_faq id

  module _ (sorter : Sorter) where
    -- What `findAll` answers with.
    abbrev pub all_faqs : Shelf db Faq → List Faq
    all_faqs s = sorter.sort is_ordered_before (db.find is_active_faq s.docs)

    module _ (cache : Cache) where
      unfoldable pub list_faqs : ℕ → Action (Kept cache (Shelf db Faq) (List Faq)) (List Faq)
      unfolding cached_read
      list_faqs now = cached_read cache now faq_lifetime faq_cache_key (λ s. ok (all_faqs s))

      unfoldable pub create_kept_faq :
          {J : Type 0} → CreateEntry J → Action (Kept cache (Shelf db Faq) (List Faq)) Faq
      unfolding write_and_drop create_faq
      create_kept_faq payload = write_and_drop cache (faq_cache_key ∷ []) (create_faq payload)

      unfoldable pub update_kept_faq :
          {J : Type 0}
          → ℕ
          → String
          → UpdateEntry J
          → Action (Kept cache (Shelf db Faq) (List Faq)) Faq
      unfolding write_and_drop update_faq
      update_kept_faq now id payload =
          write_and_drop cache (faq_cache_key ∷ faq_item_key id ∷ []) (update_faq now id payload)

      unfoldable pub remove_kept_faq : String → Action (Kept cache (Shelf db Faq) (List Faq)) String
      unfolding write_and_drop remove_faq
      remove_kept_faq id =
          write_and_drop cache (faq_cache_key ∷ faq_item_key id ∷ []) (remove_faq id)
