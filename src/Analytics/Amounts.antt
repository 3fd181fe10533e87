-- ===== src/Analytics/Amounts.antt =====
-- Sums of the amounts of enrollments, by the courses and by the months.
use chain_verse_backend.Base.{
  ℕ, ◌+◌, ◌≤◌, ◌<◌, String, ◌≡◌, refl, inl, inr, Bool, true, false, ◌&&◌, List, [], ◌∷◌, ◌===◌, map,
  arith, eq_iff, tally, select, length, leb, Bool-cases,
}
use chain_verse_backend.Market.{Course, Enrollment, contains, has_id}
use chain_verse_backend.Analytics.{sum_amounts}
use chain_verse_backend.Analytics.TutorViews.{Earnings, count_distinct, is_paid_within}

abbrev pub sum_earnings : List Earnings → ℕ
sum_earnings [] = 0
sum_earnings (e ∷ l) = e.amount + sum_earnings l

abbrev pub id_of : Course → String
id_of c = c.id

abbrev pub student_of : Enrollment → String
student_of e = e.student_id

pub tally-true :
    (ids : List String) (l : List Enrollment)
    → tally (λ e. contains ids e.course_id && true) l ≡ tally (λ e. contains ids e.course_id) l
tally-true ids [] = refl
tally-true ids (e ∷ l) = ground (arith, tally-true ids l)

-- What was paid for the courses with the ids.
abbrev pub amounts_for : List String → List Enrollment → ℕ
amounts_for ids l = sum_amounts (select (λ e. contains ids e.course_id) l)

-- No id twice.
abbrev pub Once : List String → Type 0
Once [] = Unit
Once (k ∷ ks) = (contains ks k ≡ false) × Once ks

pub absent-select :
    (k : String) (p : Course → Bool) (cs : List Course)
    → tally (has_id k) cs ≡ 0
    → contains (map id_of (select p cs)) k ≡ false
absent-select k p [] h = refl
absent-select k p (c ∷ cs) h = ground (arith, absent-select k p cs)

pub select-Once :
    (p : Course → Bool) (cs : List Course)
    → ((k : String) → tally (has_id k) cs ≤ 1)
    → Once (map id_of (select p cs))
select-Once p [] h = tt
select-Once p (c ∷ cs) h =
    let rest = select-Once p cs (λ k. ground (arith, h k)) in
    let alone : tally (has_id c.id) cs ≡ 0 = ground (arith, h c.id, eq_iff c.id c.id) in
    elim (Bool-cases (p c)) [
      | inl e ↦ rw e (absent-select c.id p cs alone, rest)
      | inr e ↦ rw e rest
    ]

pub amounts_for-cons :
    (k : String) (ks : List String) (l : List Enrollment)
    → contains ks k ≡ false
    → amounts_for (k ∷ ks) l
      ≡ sum_amounts (select (λ e. e.course_id === k && true) l) + amounts_for ks l
amounts_for-cons k ks [] h = omega arith
amounts_for-cons k ks (e ∷ l) h =
    ground (arith, eq_iff k e.course_id, eq_iff e.course_id k, amounts_for-cons k ks l h)

pub amounts_for-nil : (l : List Enrollment) → amounts_for [] l ≡ 0
amounts_for-nil [] = refl
amounts_for-nil (e ∷ l) = amounts_for-nil l

pub count_distinct-le : (ks : List String) → count_distinct ks ≤ length ks
count_distinct-le [] = omega arith
count_distinct-le (k ∷ ks) = ground (arith, count_distinct-le ks)

pub length-map : {A B : Type 0} (f : A → B) (l : List A) → length (map f l) ≡ length l
length-map f [] = refl
length-map f (x ∷ l) = omega (arith, length-map f l)

-- A month and what follows it are within what follows the month's start.
pub amounts-month-le :
    (ids : List String) (a b c : ℕ) (l : List Enrollment)
    → a ≤ b
    → b < c
    → sum_amounts (select (λ e. contains ids e.course_id && is_paid_within a b e) l)
        + sum_amounts (select (λ e. contains ids e.course_id && leb c e.created_at) l)
      ≤ sum_amounts (select (λ e. contains ids e.course_id && leb a e.created_at) l)
amounts-month-le ids a b c [] h k = omega arith
amounts-month-le ids a b c (e ∷ l) h k = ground (arith, amounts-month-le ids a b c l h k)
