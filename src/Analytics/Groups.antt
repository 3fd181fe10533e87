-- ===== src/Analytics/Groups.antt =====
-- The aggregations of the platform's analytics against the published courses.
use chain_verse_backend.Base.{
  ℕ, ◌+◌, ◌≤◌, String, ◌≡◌, refl, ◌∙◌, Bool, true, List, [], ◌∷◌, map, arith, tally, some, select,
  length, length-select, take,
}
use chain_verse_backend.Http.{ok}
use chain_verse_backend.Mongo.{Mongo}
use chain_verse_backend.Market.{Course, Enrollment, State, is_live}
use chain_verse_backend.Sorting.{Sorter, Ordered, IsOrder}
use chain_verse_backend.Sorting.Sums.{sum_by, sum_by-sort}
use chain_verse_backend.Analytics.{days_ago, is_since}
use chain_verse_backend.Analytics.PlatformViews.{
  PlatformAnalytics, CategoryCount, Group, join_group, group_by, is_offered, is_larger,
  has_more_enrollments, enrollments_of, top_course, category_count, category_key,
  get_platform_analytics,
}

abbrev pub courses_in : CategoryCount → ℕ
courses_in c = c.course_count

abbrev pub enrollments_in : CategoryCount → ℕ
enrollments_in c = c.total_enrollments

join_group_sums :
    (k : String) (c : Course) (gs : List Group)
    → (sum_by courses_in (map category_count (join_group k c gs))
        ≡ 1 + sum_by courses_in (map category_count gs))
      × (sum_by enrollments_in (map category_count (join_group k c gs))
          ≡ c.total_enrollments + sum_by enrollments_in (map category_count gs))
join_group_sums k c [] = (omega arith, omega arith)
join_group_sums k c (g ∷ gs) = ground (arith, join_group_sums k c gs)

-- Each document is in one group.
group_by_sums :
    (f : Course → String) (cs : List Course)
    → (sum_by courses_in (map category_count (group_by f cs)) ≡ length cs)
      × (sum_by enrollments_in (map category_count (group_by f cs)) ≡ sum_by enrollments_of cs)
group_by_sums f [] = (refl, refl)
group_by_sums f (c ∷ cs) =
    omega (arith, group_by_sums f cs, join_group_sums (f c) c (group_by f cs))

has_more_enrollments-IsOrder : IsOrder has_more_enrollments
has_more_enrollments-IsOrder = record {
  total = λ x y h. ground arith;
  trans = λ x y z h k. ground arith;
}

tally-le :
    {A : Type 0} (p q : A → Bool) (l : List A)
    → ((x : A) → p x ≡ true → q x ≡ true)
    → tally p l ≤ tally q l
tally-le p q [] h = omega arith
tally-le p q (x ∷ l) h = ground (arith, h x, tally-le p q l h)

module _ (sorter : Sorter) (db : Mongo) where
  open db use {all, find_lem, count_lem}

  -- `get_platform_analytics` answers and changes nothing: the numbers of courses by category
  -- are together the number of published courses, and their enrollments those of the published
  -- courses; the top courses are the first ten of a ranking of exactly the published courses
  -- by their enrollments; no more courses are published than there are, and no more
  -- enrollments recent than there are.
  pub get_platform_analytics-ok :
      (now : ℕ) (s : State db)
      → (v : PlatformAnalytics) × (ranking : List Course) × (get_platform_analytics sorter db now s
          ≡ (ok v, s))
        × (sum_by courses_in v.category_distribution ≡ v.overview.published_courses)
        × (sum_by enrollments_in v.category_distribution
            ≡ sum_by enrollments_of (select is_offered (all s.courses)))
        × (v.top_courses ≡ map top_course (take 10 ranking))
        × Ordered has_more_enrollments ranking
        × ((p : Course → Bool) → tally p ranking ≡ tally p (select is_offered (all s.courses)))
        × (v.overview.published_courses ≤ v.overview.total_courses)
        × (v.overview.recent_enrollments ≤ v.overview.total_enrollments)
  unfolding get_platform_analytics
  get_platform_analytics-ok now s =
      let offered : List Course = select is_offered (all s.courses) in
      let counts : List CategoryCount = map category_count (group_by category_key offered) in
      let recent : Enrollment → Bool = is_since (some (days_ago 30 now)) in
      let sums = group_by_sums category_key offered in
      (
        _,
        sorter.sort has_more_enrollments offered,
        refl,
        rw (find_lem, count_lem)
            (sum_by-sort sorter is_larger courses_in counts
              ∙ sums.0
              ∙ length-select is_offered (all s.courses)),
        rw find_lem (sum_by-sort sorter is_larger enrollments_in counts ∙ sums.1),
        rw find_lem refl,
        sorter.sort-Ordered has_more_enrollments offered has_more_enrollments-IsOrder,
        λ p. sorter.tally-sort has_more_enrollments p offered,
        omega (
          arith,
          count_lem is_offered s.courses,
          count_lem is_live s.courses,
          tally-le is_offered is_live (all s.courses) (λ c h. ground arith),
        ),
        omega (
          arith,
          count_lem recent s.enrollments,
          count_lem (λ _. true) s.enrollments,
          tally-le recent (λ _. true) (all s.enrollments) (λ e h. refl),
        ),
      )
