-- ===== src/Sorting.antt =====
-- The sort of a query, `.sort(…)`: the documents in an order, where the order of equals is not fixed.
pub mod Insertion
pub mod Sums
use chain_verse_backend.Base.{
  ℕ, zero, suc, ◌+◌, ◌≡◌, refl, inl, inr, Bool, true, false, not, List, [], ◌∷◌, arith, tally,
  select, take, drop, All, All-take, Bool-cases,
}

-- Each element comes before, or with, all that follow.
abbrev pub Ordered {ℓ} : {D : Type ℓ} → (D → D → Bool) → List D → Type 0
Ordered le [] = Unit
Ordered le (x ∷ xs) = All (λ y. le x y ≡ true) xs × Ordered le xs

pub record IsOrder {D : Type 0} (le : D → D → Bool) : Type 0 where
  pub total : (x y : D) → le x y ≡ false → le y x ≡ true
  pub trans : (x y z : D) → le x y ≡ true → le y z ≡ true → le x z ≡ true

pub record Sorter : Type 1 where
  pub sort : {D : Type 0} → (D → D → Bool) → List D → List D
  pub tally-sort :
      {D : Type 0} (le : D → D → Bool) (p : D → Bool) (xs : List D)
      → tally p (sort le xs) ≡ tally p xs
  pub sort-Ordered :
      {D : Type 0} (le : D → D → Bool) (xs : List D) → IsOrder le → Ordered le (sort le xs)

pub tally-not-select :
    {D : Type 0} (p : D → Bool) (xs : List D) → tally (λ x. not (p x)) (select p xs) ≡ 0
tally-not-select p [] = refl
tally-not-select p (x ∷ xs) = ground (arith, tally-not-select p xs)

pub tally_zero→All :
    {D : Type 0} (p : D → Bool) (xs : List D)
    → tally (λ x. not (p x)) xs ≡ 0
    → All (λ x. p x ≡ true) xs
tally_zero→All p [] h = tt
tally_zero→All p (x ∷ xs) h = elim (Bool-cases (p x)) [
  | inl e ↦ (e, tally_zero→All p xs (ground arith))
  | inr e ↦ ground arith
]

pub Ordered-drop :
    {D : Type 0} (le : D → D → Bool) (n : ℕ) (xs : List D) → Ordered le xs → Ordered le (drop n xs)
Ordered-drop le zero xs h = h
Ordered-drop le (suc n) [] h = tt
Ordered-drop le (suc n) (x ∷ xs) h = Ordered-drop le n xs h.1

pub Ordered-take :
    {D : Type 0} (le : D → D → Bool) (n : ℕ) (xs : List D) → Ordered le xs → Ordered le (take n xs)
Ordered-take le zero xs h = tt
Ordered-take le (suc n) [] h = tt
Ordered-take le (suc n) (x ∷ xs) h =
    (All-take (λ y. le x y ≡ true) n xs h.0, Ordered-take le n xs h.1)
