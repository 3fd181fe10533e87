-- ===== src/Sorting/Sums.antt =====
-- A sum over a list does not depend on the order, so a sort keeps it.
use chain_verse_backend.Base.{
  ℕ, zero, suc, ◌+◌, ◌≤◌, ◌≡◌, refl, Bool, List, [], ◌∷◌, arith, tally, ltb, leb, if◌then◌else◌,
}
use chain_verse_backend.Sorting.{Sorter}

module _ {D : Type 0} where
  abbrev pub sum_by : (D → ℕ) → List D → ℕ
  sum_by f [] = 0
  sum_by f (x ∷ xs) = f x + sum_by f xs

  -- The sum of what is below a cap.
  abbrev capped : (D → ℕ) → ℕ → List D → ℕ
  capped f m [] = 0
  capped f m (x ∷ xs) = (if leb (f x) m then f x else m) + capped f m xs

  capped-zero : (f : D → ℕ) (xs : List D) → capped f 0 xs ≡ 0
  capped-zero f [] = refl
  capped-zero f (x ∷ xs) = ground (arith, capped-zero f xs)

  -- One more in the cap adds one for each element that exceeds it.
  capped-suc :
      (f : D → ℕ) (m : ℕ) (xs : List D)
      → capped f (suc m) xs ≡ capped f m xs + tally (λ x. ltb m (f x)) xs
  capped-suc f m [] = omega arith
  capped-suc f m (x ∷ xs) = ground (arith, capped-suc f m xs)

  capped_all : (f : D → ℕ) (m : ℕ) (xs : List D) → sum_by f xs ≤ m → capped f m xs ≡ sum_by f xs
  capped_all f m [] h = refl
  capped_all f m (x ∷ xs) h = ground (arith, capped_all f m xs)

  capped_congr :
      (f : D → ℕ) (xs ys : List D)
      → ((p : D → Bool) → tally p xs ≡ tally p ys)
      → (m : ℕ) → capped f m xs ≡ capped f m ys
  capped_congr f xs ys h zero = omega (arith, capped-zero f xs, capped-zero f ys)
  capped_congr f xs ys h (suc m) =
      omega (
        arith,
        capped-suc f m xs,
        capped-suc f m ys,
        capped_congr f xs ys h m,
        h (λ x. ltb m (f x)),
      )

  -- Lists that have as many elements of every kind have the same sum.
  pub sum_by_congr :
      (f : D → ℕ) (xs ys : List D)
      → ((p : D → Bool) → tally p xs ≡ tally p ys)
      → sum_by f xs ≡ sum_by f ys
  sum_by_congr f xs ys h =
      let m : ℕ = sum_by f xs + sum_by f ys in
      omega (
        arith,
        capped_all f m xs (omega arith),
        capped_all f m ys (omega arith),
        capped_congr f xs ys h m,
      )

  pub sum_by-sort :
      (sorter : Sorter) (le : D → D → Bool) (f : D → ℕ) (xs : List D)
      → sum_by f (sorter.sort le xs) ≡ sum_by f xs
  sum_by-sort sorter le f xs =
      sum_by_congr f (sorter.sort le xs) xs (λ p. sorter.tally-sort le p xs)
