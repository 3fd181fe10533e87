-- ===== src/Tests/Discoveries.antt =====
-- Searches on the small shop.
use chain_verse_backend.Base.{
  ◌≡◌, ◌≤◌, ◌↔◌, Bool, ◌&&◌, true, List, none, some, map, tally, take, drop, length,
}
use chain_verse_backend.Http.{ok}
use chain_verse_backend.Mongo.Memory.{memory}
use chain_verse_backend.Market.{Course}
use chain_verse_backend.Paging.{ceil_div}
use chain_verse_backend.Sorting.Insertion.{by_insertion}
use chain_verse_backend.Discovery.{
  TextIndex, SortBy, SearchCoursesDto, sanitize_course, page_limit, page_number, page_skip, matches,
  search,
}
use chain_verse_backend.Discovery.Searches.{Fits, Asks, Precedes, InOrder, search-Fits}
use chain_verse_backend.Tests.Fixtures.{shop}

abbrev index : TextIndex
index = record { finds = λ q c. true; score = λ q c. 0 }

abbrev cheap : SearchCoursesDto
cheap = record {
  query = none;
  category = none;
  level = none;
  tags = none;
  min_price = none;
  max_price = some 5;
  min_rating = none;
  sort_by = some SortBy.price_asc;
  limit = some 7;
  page = none;
  skip = none;
}

search-Fits_example :
    (ranking : List Course) × (search memory by_insertion index cheap shop ≡ (
      ok (record {
        items = map sanitize_course (take (page_limit cheap) (drop (page_skip cheap) ranking));
        total = length ranking;
        page = page_number cheap;
        limit = page_limit cheap;
        total_pages = ceil_div (length ranking) (page_limit cheap);
      }),
      shop,
    ))
    × ((p : Course → Bool)
        → tally p ranking ≡ tally (λ c. matches index cheap c && p c) shop.courses)
    × ((c : Course) → (matches index cheap c ≡ true) ↔ Fits index cheap c)
    × InOrder (Precedes index cheap) ranking
    × Asks cheap (page_skip cheap) (page_limit cheap)
    × (page_limit cheap ≤ 50)
search-Fits_example = search-Fits memory by_insertion index cheap shop
