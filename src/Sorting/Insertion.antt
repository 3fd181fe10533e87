-- ===== src/Sorting/Insertion.antt =====
-- A sort by insertion, which has the properties that a query relies on.
use chain_verse_backend.Base.{
  ◌+◌, ◌≡◌, refl, inl, inr, Bool, true, List, [], ◌∷◌, arith, tally, bit, All, Bool-cases,
  if◌then◌else◌,
}
use chain_verse_backend.Sorting.{Ordered, IsOrder, Sorter}

abbrev pub insert : {D : Type 0} → (D → D → Bool) → D → List D → List D
insert le x [] = x ∷ []
insert le x (y ∷ ys) = if le x y then x ∷ y ∷ ys else y ∷ insert le x ys

abbrev pub insertion_sort : {D : Type 0} → (D → D → Bool) → List D → List D
insertion_sort le [] = []
insertion_sort le (x ∷ xs) = insert le x (insertion_sort le xs)

tally-insert :
    {D : Type 0} (le : D → D → Bool) (p : D → Bool) (x : D) (ys : List D)
    → tally p (insert le x ys) ≡ bit (p x) + tally p ys
tally-insert le p x [] = refl
tally-insert le p x (y ∷ ys) = ground (arith, tally-insert le p x ys)

pub tally-insertion_sort :
    {D : Type 0} (le : D → D → Bool) (p : D → Bool) (xs : List D)
    → tally p (insertion_sort le xs) ≡ tally p xs
tally-insertion_sort le p [] = refl
tally-insertion_sort le p (x ∷ xs) =
    omega (arith, tally-insert le p x (insertion_sort le xs), tally-insertion_sort le p xs)

All-insert :
    {D : Type 0} (le : D → D → Bool) (P : D → Type 0) (x : D) (ys : List D)
    → P x
    → All P ys
    → All P (insert le x ys)
All-insert le P x [] hx h = (hx, tt)
All-insert le P x (y ∷ ys) hx h = elim (Bool-cases (le x y)) [
  | inl e ↦ rw e (hx, h)
  | inr e ↦ rw e (h.0, All-insert le P x ys hx h.1)
]

All-trans :
    {D : Type 0} (le : D → D → Bool) (x y : D) (ys : List D)
    → IsOrder le
    → le x y ≡ true
    → All (λ z. le y z ≡ true) ys
    → All (λ z. le x z ≡ true) ys
All-trans le x y [] o e h = tt
All-trans le x y (z ∷ ys) o e h = (o.trans x y z e h.0, All-trans le x y ys o e h.1)

insert-Ordered :
    {D : Type 0} (le : D → D → Bool) (x : D) (ys : List D)
    → IsOrder le
    → Ordered le ys
    → Ordered le (insert le x ys)
insert-Ordered le x [] o h = (tt, tt)
insert-Ordered le x (y ∷ ys) o h = elim (Bool-cases (le x y)) [
  | inl e ↦ rw e ((e, All-trans le x y ys o e h.0), h)
  | inr e ↦
      rw e
        (All-insert le (λ z. le y z ≡ true) x ys (o.total x y e) h.0, insert-Ordered le x ys o h.1)
]

pub insertion_sort-Ordered :
    {D : Type 0} (le : D → D → Bool) (xs : List D) → IsOrder le → Ordered le (insertion_sort le xs)
insertion_sort-Ordered le [] o = tt
insertion_sort-Ordered le (x ∷ xs) o =
    insert-Ordered le x (insertion_sort le xs) o (insertion_sort-Ordered le xs o)

abbrev pub by_insertion : Sorter
by_insertion = record {
  sort = insertion_sort;
  tally-sort = tally-insertion_sort;
  sort-Ordered = insertion_sort-Ordered;
}
