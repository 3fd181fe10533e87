-- ===== src/Discovery/Searches.antt =====
-- What a search answers.
use chain_verse_backend.Base.{
  ℕ, zero, suc, ◌-◌, ◌*◌, ◌≤◌, ◌<◌, String, ◌≡◌, ◌↔◌, refl, ap, ◌∙◌, sym, inl, inr, Bool, true,
  false, ◌&&◌, Option, none, some, List, [], ◌∷◌, map, ◌===◌, arith, eq_iff, tally, tally-select,
  select, take, drop, length, length-select, All, Bool-cases, is_blank, leb, if◌then◌else◌,
}
use chain_verse_backend.Http.{ok}
use chain_verse_backend.Mongo.{Mongo, window}
use chain_verse_backend.Market.{Status, Course, State}
use chain_verse_backend.Paging.{ceil_div}
use chain_verse_backend.Sorting.{Sorter, Ordered, IsOrder}
use chain_verse_backend.Discovery.{
  TextIndex, SearchCoursesDto, SortBy, sanitize_course, passes_text, passes_tags, passes_bound,
  is_public, shares, page_limit, page_number, page_skip, comes_before, matches, search,
}

-- The course is public and meets every filter of the request.
pub record Fits (index : TextIndex) (dto : SearchCoursesDto) (c : Course) : Type 0 where
  pub published : c.status ≡ Status.published
  pub not_deleted : c.deleted_at ≡ none
  pub searched : (q : String) → dto.query ≡ some q → is_blank q ≡ false → index.finds q c ≡ true
  pub in_category : (v : String) → dto.category ≡ some v → is_blank v ≡ false → c.category ≡ v
  pub of_level : (v : String) → dto.level ≡ some v → is_blank v ≡ false → c.level ≡ v
  pub tagged :
      (t : String) (ts : List String) → dto.tags ≡ some (t ∷ ts) → shares (t ∷ ts) c.tags ≡ true
  pub cheapest : (m : ℕ) → dto.min_price ≡ some m → m ≤ c.price
  pub dearest : (m : ℕ) → dto.max_price ≡ some m → c.price ≤ m
  pub rated : (m : ℕ) → dto.min_rating ≡ some m → m ≤ c.average_rating

leb-true : (m n : ℕ) → m ≤ n → leb m n ≡ true
leb-true m n h = ground arith

matches-Fits :
    (index : TextIndex) (dto : SearchCoursesDto) (c : Course)
    → matches index dto c ≡ true
    → Fits index dto c
matches-Fits index dto c h = record {
  published = ground arith;
  not_deleted = ground arith;
  searched = λ q e b. ground arith;
  in_category = λ v e b. ground (arith, eq_iff c.category v);
  of_level = λ v e b. ground (arith, eq_iff c.level v);
  tagged = λ t ts e. ground arith;
  cheapest = λ m e. ground arith;
  dearest = λ m e. ground arith;
  rated = λ m e. ground arith;
}

passes_text-true :
    (o : Option String) (test : String → Bool)
    → ((v : String) → o ≡ some v → is_blank v ≡ false → test v ≡ true)
    → passes_text o test ≡ true
passes_text-true none test h = refl
passes_text-true (some v) test h = elim (Bool-cases (is_blank v)) [
  | inl e ↦ ground arith
  | inr e ↦ ground (arith, h v refl e)
]

passes_tags-true :
    (o : Option (List String)) (own : List String)
    → ((t : String) (ts : List String) → o ≡ some (t ∷ ts) → shares (t ∷ ts) own ≡ true)
    → passes_tags o own ≡ true
passes_tags-true none own h = refl
passes_tags-true (some []) own h = refl
passes_tags-true (some (t ∷ ts)) own h = h t ts refl

passes_bound-true :
    (o : Option ℕ) (test : ℕ → Bool)
    → ((m : ℕ) → o ≡ some m → test m ≡ true)
    → passes_bound o test ≡ true
passes_bound-true none test h = refl
passes_bound-true (some m) test h = h m refl

Fits-matches :
    (index : TextIndex) (dto : SearchCoursesDto) (c : Course)
    → Fits index dto c
    → matches index dto c ≡ true
Fits-matches index dto c f =
    let query = passes_text-true dto.query (λ q. index.finds q c) f.searched in
    let category =
      passes_text-true dto.category (λ v. c.category === v)
        (λ v e b. (eq_iff c.category v).1 (f.in_category v e b)) in
    let level =
      passes_text-true dto.level (λ v. c.level === v)
        (λ v e b. (eq_iff c.level v).1 (f.of_level v e b)) in
    let tags = passes_tags-true dto.tags c.tags f.tagged in
    let least_price =
      passes_bound-true dto.min_price (λ m. leb m c.price)
        (λ m e. leb-true m c.price (f.cheapest m e)) in
    let greatest_price =
      passes_bound-true dto.max_price (λ m. leb c.price m)
        (λ m e. leb-true c.price m (f.dearest m e)) in
    let rating =
      passes_bound-true dto.min_rating (λ m. leb m c.average_rating)
        (λ m e. leb-true m c.average_rating (f.rated m e)) in
    let public : is_public c ≡ true = rw (f.published, f.not_deleted) refl in
    rw (public, query, category, level, tags, least_price, greatest_price, rating) refl

abbrev pub least : ℕ → ℕ → ℕ
least m n = if leb m n then m else n

-- How many courses a request skips and how many it takes.
pub record Asks (dto : SearchCoursesDto) (skip limit : ℕ) : Type 0 where
  pub limit_of : (n : ℕ) → dto.limit ≡ some (suc n) → limit ≡ least (suc n) 50
  pub limit_default : dto.limit ≡ none → limit ≡ 20
  pub skip_of : (n : ℕ) → dto.skip ≡ some n → skip ≡ n
  pub skip_page : (p : ℕ) → dto.skip ≡ none → dto.page ≡ some (suc p) → skip ≡ p * limit
  pub skip_default : dto.skip ≡ none → dto.page ≡ none → skip ≡ 0

page-Asks : (dto : SearchCoursesDto) → Asks dto (page_skip dto) (page_limit dto)
page-Asks dto = record {
  limit_of = λ n e. ground arith;
  limit_default = λ e. ground arith;
  skip_of = λ n e. ground arith;
  skip_page = λ p none_given e.
      let number : page_number dto ≡ suc p = ground arith in
      let skip : page_skip dto ≡ (page_number dto - 1) * page_limit dto = ground arith in
      skip
      ∙ ap (λ (n : ℕ). (n - 1) * page_limit dto) number
      ∙ ap (λ (n : ℕ). n * page_limit dto) (omega arith);
  skip_default = λ none_given e.
      let number : page_number dto ≡ 1 = ground arith in
      let skip : page_skip dto ≡ (page_number dto - 1) * page_limit dto = ground arith in
      skip ∙ ap (λ (n : ℕ). (n - 1) * page_limit dto) number ∙ omega arith;
}

-- What it means for one course to stand before another in an answer.
pub record Precedes (index : TextIndex) (dto : SearchCoursesDto) (x y : Course) : Type 0 where
  pub cheapest_first : dto.sort_by ≡ some SortBy.price_asc → x.price ≤ y.price
  pub dearest_first : dto.sort_by ≡ some SortBy.price_desc → y.price ≤ x.price
  pub best_first : dto.sort_by ≡ some SortBy.rating → y.average_rating ≤ x.average_rating
  pub popular_first : dto.sort_by ≡ some SortBy.popular → y.total_enrollments ≤ x.total_enrollments
  pub newest_first : dto.sort_by ≡ some SortBy.newest → y.created_at ≤ x.created_at
  pub closest_first :
      (q : String)
      → dto.sort_by ≡ none
      → dto.query ≡ some q
      → is_blank q ≡ false
      → index.score q y ≤ index.score q x
  pub else_newest_first : dto.sort_by ≡ none → dto.query ≡ none → y.created_at ≤ x.created_at

comes_before-Precedes :
    (index : TextIndex) (dto : SearchCoursesDto) (x y : Course)
    → comes_before index dto x y ≡ true
    → Precedes index dto x y
comes_before-Precedes index dto x y h = record {
  cheapest_first = λ e. ground arith;
  dearest_first = λ e. ground arith;
  best_first = λ e. ground arith;
  popular_first = λ e. ground arith;
  newest_first = λ e. ground arith;
  closest_first = λ q e d b. ground arith;
  else_newest_first = λ e d. ground arith;
}

-- Every element stands before all that follow.
abbrev pub InOrder : (Course → Course → Type 0) → List Course → Type 0
InOrder r [] = Unit
InOrder r (x ∷ xs) = All (r x) xs × InOrder r xs

All-Precedes :
    (index : TextIndex) (dto : SearchCoursesDto) (x : Course) (l : List Course)
    → All (λ y. comes_before index dto x y ≡ true) l
    → All (Precedes index dto x) l
All-Precedes index dto x [] h = tt
All-Precedes index dto x (y ∷ l) h =
    (comes_before-Precedes index dto x y h.0, All-Precedes index dto x l h.1)

Ordered-InOrder :
    (index : TextIndex) (dto : SearchCoursesDto) (l : List Course)
    → Ordered (comes_before index dto) l
    → InOrder (Precedes index dto) l
Ordered-InOrder index dto [] h = tt
Ordered-InOrder index dto (x ∷ l) h =
    (All-Precedes index dto x l h.0, Ordered-InOrder index dto l h.1)

comes_before-IsOrder :
    (index : TextIndex) (dto : SearchCoursesDto) → IsOrder (comes_before index dto)
comes_before-IsOrder index dto = record {
  total = λ x y h. ground arith;
  trans = λ x y z h k. ground arith;
}

page_limit_bounds : (dto : SearchCoursesDto) → (0 < page_limit dto) × (page_limit dto ≤ 50)
page_limit_bounds dto = ground arith

window_pos : {A : Type 0} (n m : ℕ) (l : List A) → 0 < m → window n m l ≡ take m (drop n l)
window_pos n zero l h = elim h [ ]
window_pos n (suc m) l h = refl

tally-true : {A : Type 0} (l : List A) → tally (λ _. true) l ≡ length l
tally-true [] = refl
tally-true (x ∷ l) = omega (arith, tally-true l)

module _ (db : Mongo) (sorter : Sorter) (index : TextIndex) where
  open db use {all, find, count, find_lem, count_lem}

  -- The courses that the filters let through, in the order of the request.
  found : SearchCoursesDto → State db → List Course
  found dto s = sorter.sort (comes_before index dto) (select (matches index dto) (all s.courses))

  length-found :
      (dto : SearchCoursesDto) (s : State db)
      → length (found dto s) ≡ tally (matches index dto) (all s.courses)
  unfolding found
  length-found dto s =
      let l : List Course = select (matches index dto) (all s.courses) in
      sym (tally-true (sorter.sort (comes_before index dto) l))
      ∙ sorter.tally-sort (comes_before index dto) (λ _. true) l
      ∙ tally-true l
      ∙ length-select (matches index dto) (all s.courses)

  -- `search` changes nothing and answers with a window of one list, which holds every course as
  -- often as the collection holds it among those that match, and in which each stands before those
  -- that follow in the order asked for: the cheapest, dearest, best rated, most popular or newest
  -- first, or else by the score of the text. A course matches exactly where it is published, not
  -- deleted and meets every filter; the window skips and takes what the request asks for, and at
  -- most 50.
  pub search-Fits :
      (dto : SearchCoursesDto) (s : State db)
      → (ranking : List Course) × (search db sorter index dto s ≡ (
        ok (record {
          items = map sanitize_course (take (page_limit dto) (drop (page_skip dto) ranking));
          total = length ranking;
          page = page_number dto;
          limit = page_limit dto;
          total_pages = ceil_div (length ranking) (page_limit dto);
        }),
        s,
      ))
        × ((p : Course → Bool)
            → tally p ranking ≡ tally (λ c. matches index dto c && p c) (all s.courses))
        × ((c : Course) → (matches index dto c ≡ true) ↔ Fits index dto c)
        × InOrder (Precedes index dto) ranking
        × Asks dto (page_skip dto) (page_limit dto)
        × (page_limit dto ≤ 50)
  unfolding search found
  search-Fits dto s =
      let b = page_limit_bounds dto in
      (
        found dto s,
        rw
            (
              find_lem,
              count_lem,
              window_pos (page_skip dto) (page_limit dto) (found dto s) b.0,
              length-found dto s,
            )
            refl,
        λ p.
            sorter.tally-sort (comes_before index dto) p
              (select (matches index dto) (all s.courses))
            ∙ tally-select (matches index dto) p (all s.courses),
        λ c. (matches-Fits index dto c, Fits-matches index dto c),
        Ordered-InOrder index dto (found dto s) (
            sorter.sort-Ordered (comes_before index dto)
              (select (matches index dto) (all s.courses)) (comes_before-IsOrder index dto)),
        page-Asks dto,
        b.1,
      )
