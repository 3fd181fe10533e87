-- ===== src/Cached/Boards.antt =====
-- The three registries that drop keys of the cache: `CoursePerformanceLeaderboardService`,
-- `CourseCategorizationFilteringService` and `PrivacyPolicyManagementService`, of the modules of
-- src/ with their names.
use Prim.Native.String.{◌++◌ as text_append}
use chain_verse_backend.Base.{ℕ, String, List, [], ◌∷◌}
use chain_verse_backend.Http.{Action}
use chain_verse_backend.Registries.{
  Ids, Registry, Entry, CreateEntry, UpdateEntry, find_items, create_item, update_item, remove_item,
}
use chain_verse_backend.Cached.{Cache, Kept, cached_read, write_and_drop}

-- What a board is configured with: `@CacheKey` and `@CacheTTL` of its list, the key that its writes
-- drop, and its message.
pub record Board : Type 0 where
  pub list_key : String
  pub lifetime : ℕ
  pub dropped_key : String
  pub message : String

abbrev pub leaderboard : Board
leaderboard = record {
  list_key = "leaderboard";
  lifetime = 300000;
  dropped_key = "/courses/performance-leaderboard";
  message = "CoursePerformanceLeaderboard item not found";
}

abbrev pub course_categories : Board
course_categories = record {
  list_key = "course-discovery";
  lifetime = 300000;
  dropped_key = "/courses/categorization-filtering";
  message = "CourseCategorizationFiltering item not found";
}

abbrev pub privacy_policies : Board
privacy_policies = record {
  list_key = "privacy-policy";
  lifetime = 3600000;
  dropped_key = "/privacy-policy";
  message = "PrivacyPolicyManagement item not found";
}

-- `${key}/${id}`
abbrev pub item_key : Board → String → String
item_key at id = text_append at.dropped_key (text_append "/" id)

abbrev pub Shown : Cache → Type 0 → Type 0
Shown cache J = Kept cache (Registry J) (List (Entry J))

module _ {J : Type 0} (cache : Cache) (ids : Ids) (at : Board) where
  unfoldable pub list_board : ℕ → Action (Shown cache J) (List (Entry J))
  unfolding cached_read find_items
  list_board now = cached_read cache now at.lifetime at.list_key (λ s. (find_items s).0)

  unfoldable pub create_on_board : CreateEntry J → Action (Shown cache J) (Entry J)
  unfolding write_and_drop create_item
  create_on_board payload = write_and_drop cache (at.dropped_key ∷ []) (create_item ids payload)

  unfoldable pub update_on_board : String → UpdateEntry J → Action (Shown cache J) (Entry J)
  unfolding write_and_drop update_item
  update_on_board id payload =
      write_and_drop cache (at.dropped_key ∷ item_key at id ∷ [])
        (update_item at.message id payload)

  unfoldable pub remove_from_board : String → Action (Shown cache J) String
  unfolding write_and_drop remove_item
  remove_from_board id =
      write_and_drop cache (at.dropped_key ∷ item_key at id ∷ []) (remove_item at.message id)
