-- ===== src/Base/Lists.antt =====
-- Lists under Boolean tests: what a query selects, and what an update or a removal leaves.
use Prim.Native.Nat.{ℕ, zero, suc, ◌+◌, ◌≤◌}
use native.Mathlib.Nat.{zero-add, suc-add}
use mathlib.Core.Path.{◌≡◌, refl, ap, sym, ◌∙◌, subst}
use mathlib.Core.Logic.{◌⊎◌, inl, inr}
use mathlib.Core.Bool.{Bool, true, false, ◌&&◌}
use mathlib.Core.Option.{Option, none, some}
use mathlib.Core.List.{List, [], ◌∷◌, ◌++◌}
use native.Mathlib.Omega.{arith}
use chain_verse_backend.Base.Tests.{if◌then◌else◌, bit, Bool-cases}

module _ {ℓ} {A : Type ℓ} where
  abbrev pub length : List A → ℕ
  length [] = 0
  length (x ∷ xs) = suc (length xs)

  abbrev pub is_empty : List A → Bool
  is_empty [] = true
  is_empty (_ ∷ _) = false

  -- The elements that pass, in order.
  abbrev pub select : (A → Bool) → List A → List A
  select p [] = []
  select p (x ∷ xs) = if p x then x ∷ select p xs else select p xs

  -- The first element that passes.
  abbrev pub first : (A → Bool) → List A → Option A
  first p [] = none
  first p (x ∷ xs) = if p x then some x else first p xs

  -- How many pass.
  abbrev pub tally : (A → Bool) → List A → ℕ
  tally p [] = 0
  tally p (x ∷ xs) = bit (p x) + tally p xs

  -- A change of the first element that passes, and of all.
  abbrev pub amend_first : (A → Bool) → (A → A) → List A → List A
  amend_first p f [] = []
  amend_first p f (x ∷ xs) = if p x then f x ∷ xs else x ∷ amend_first p f xs

  abbrev pub amend_all : (A → Bool) → (A → A) → List A → List A
  amend_all p f [] = []
  amend_all p f (x ∷ xs) = (if p x then f x else x) ∷ amend_all p f xs

  -- The list without the first element that passes, and without any.
  abbrev pub drop_first : (A → Bool) → List A → List A
  drop_first p [] = []
  drop_first p (x ∷ xs) = if p x then xs else x ∷ drop_first p xs

  abbrev pub drop_all : (A → Bool) → List A → List A
  drop_all p [] = []
  drop_all p (x ∷ xs) = if p x then drop_all p xs else x ∷ drop_all p xs

  abbrev pub take : ℕ → List A → List A
  take zero xs = []
  take (suc n) [] = []
  take (suc n) (x ∷ xs) = x ∷ take n xs

  abbrev pub drop : ℕ → List A → List A
  drop zero xs = xs
  drop (suc n) [] = []
  drop (suc n) (x ∷ xs) = drop n xs

module _ {ℓ} {A : Type ℓ} where
  pub tally-append : (p : A → Bool) (xs ys : List A) → tally p (xs ++ ys) ≡ tally p xs + tally p ys
  tally-append p [] ys = omega arith
  tally-append p (x ∷ xs) ys = omega (arith, tally-append p xs ys)

  pub length-select : (p : A → Bool) (xs : List A) → length (select p xs) ≡ tally p xs
  length-select p [] = refl
  length-select p (x ∷ xs) = ground (arith, length-select p xs)

  pub first-eq-none→tally : (p : A → Bool) (xs : List A) → first p xs ≡ none → tally p xs ≡ 0
  first-eq-none→tally p [] h = refl
  first-eq-none→tally p (x ∷ xs) h = ground (arith, first-eq-none→tally p xs)

  pub first-passes : (p : A → Bool) (xs : List A) (x : A) → first p xs ≡ some x → p x ≡ true
  first-passes p [] x h = ground arith
  first-passes p (y ∷ xs) x h = ground (arith, first-passes p xs x)

  pub first-append :
      (p : A → Bool) (xs ys : List A)
      → first p (xs ++ ys) ≡ elim (first p xs) [ none ↦ first p ys | some x ↦ some x ]
  first-append p [] ys = refl
  first-append p (x ∷ xs) ys = ground (arith, first-append p xs ys)

-- A predicate of every element.
abbrev pub All {ℓ κ} : {A : Type ℓ} → (A → Type κ) → List A → Type κ
All P [] = Unit
All P (x ∷ xs) = P x × All P xs

pub All-append {ℓ κ} :
    {A : Type ℓ} (P : A → Type κ) (xs ys : List A) → All P xs → All P ys → All P (xs ++ ys)
All-append P [] ys hx hy = hy
All-append P (x ∷ xs) ys hx hy = (hx.0, All-append P xs ys hx.1 hy)

pub All-drop_first {ℓ κ} :
    {A : Type ℓ} (P : A → Type κ) (p : A → Bool) (xs : List A) → All P xs → All P (drop_first p xs)
All-drop_first P p [] h = h
All-drop_first P p (x ∷ xs) h = elim (Bool-cases (p x)) [
  | inl e ↦ rw e h.1
  | inr e ↦ rw e (h.0, All-drop_first P p xs h.1)
]

pub All-drop_all {ℓ κ} :
    {A : Type ℓ} (P : A → Type κ) (p : A → Bool) (xs : List A) → All P xs → All P (drop_all p xs)
All-drop_all P p [] h = h
All-drop_all P p (x ∷ xs) h = elim (Bool-cases (p x)) [
  | inl e ↦ rw e (All-drop_all P p xs h.1)
  | inr e ↦ rw e (h.0, All-drop_all P p xs h.1)
]

pub All-select {ℓ κ} :
    {A : Type ℓ} (P : A → Type κ) (p : A → Bool) (xs : List A) → All P xs → All P (select p xs)
All-select P p [] h = h
All-select P p (x ∷ xs) h = elim (Bool-cases (p x)) [
  | inl e ↦ rw e (h.0, All-select P p xs h.1)
  | inr e ↦ rw e (All-select P p xs h.1)
]

-- What a test selects and what it drops are the whole list.
pub tally-select-drop_all {ℓ} :
    {A : Type ℓ} (q p : A → Bool) (xs : List A)
    → tally q xs ≡ tally q (select p xs) + tally q (drop_all p xs)
tally-select-drop_all q p [] = refl
tally-select-drop_all q p (x ∷ xs) = ground (arith, tally-select-drop_all q p xs)

-- Where two tests find the same element, a change found by one is found by the other.
pub first-amend_found {ℓ} :
    {A : Type ℓ} (p q : A → Bool) (f : A → A) (xs : List A) (x : A)
    → first p xs ≡ some x
    → first q xs ≡ some x
    → p (f x) ≡ true
    → first p (amend_first q f xs) ≡ some (f x)
first-amend_found p q f [] x hp hq k = cc
first-amend_found p q f (y ∷ xs) x hp hq k =
    ground (arith, first-passes p xs x, first-passes q xs x, first-amend_found p q f xs x)

pub tally-drop_all {ℓ} : {A : Type ℓ} (p : A → Bool) (xs : List A) → tally p (drop_all p xs) ≡ 0
tally-drop_all p [] = refl
tally-drop_all p (x ∷ xs) = ground (arith, tally-drop_all p xs)

pub tally_zero→first {ℓ} :
    {A : Type ℓ} (p : A → Bool) (xs : List A) → tally p xs ≡ 0 → first p xs ≡ none
tally_zero→first p [] h = refl
tally_zero→first p (x ∷ xs) h = ground (arith, tally_zero→first p xs)

-- Without its first element that passes, a list with at most one has none.
pub tally-drop_first {ℓ} :
    {A : Type ℓ} (p : A → Bool) (xs : List A) → tally p xs ≤ 1 → tally p (drop_first p xs) ≡ 0
tally-drop_first p [] h = refl
tally-drop_first p (x ∷ xs) h = ground (arith, tally-drop_first p xs)

pub drop-nil {ℓ} : {A : Type ℓ} (n : ℕ) → drop {A = A} n [] ≡ []
drop-nil zero = refl
drop-nil (suc n) = refl

pub take-nil {ℓ} : {A : Type ℓ} (n : ℕ) → take {A = A} n [] ≡ []
take-nil zero = refl
take-nil (suc n) = refl

-- A first part and the part after it are a longer first part.
pub take-append-take-drop {ℓ} :
    {A : Type ℓ} (m n : ℕ) (xs : List A) → take m xs ++ take n (drop m xs) ≡ take (m + n) xs
take-append-take-drop zero n xs = rw zero-add
take-append-take-drop (suc m) n [] = take-nil n ∙ sym (take-nil (suc m + n))
take-append-take-drop (suc m) n (x ∷ xs) = rw suc-add (ap (◌∷◌ x) (take-append-take-drop m n xs))

pub take_all {ℓ} : {A : Type ℓ} (n : ℕ) (xs : List A) → length xs ≤ n → take n xs ≡ xs
take_all zero [] h = refl
take_all zero (x ∷ xs) h = absurd (omega arith)
take_all (suc n) [] h = refl
take_all (suc n) (x ∷ xs) h = ap (◌∷◌ x) (take_all n xs (omega arith))

pub length-take {ℓ} : {A : Type ℓ} (n : ℕ) (xs : List A) → length (take n xs) ≤ n
length-take zero xs = omega arith
length-take (suc n) [] = omega arith
length-take (suc n) (x ∷ xs) = omega (arith, length-take n xs)

pub All-take {ℓ κ} :
    {A : Type ℓ} (P : A → Type κ) (n : ℕ) (xs : List A) → All P xs → All P (take n xs)
All-take P zero xs h = tt
All-take P (suc n) [] h = tt
All-take P (suc n) (x ∷ xs) h = (h.0, All-take P n xs h.1)

pub All-drop {ℓ κ} :
    {A : Type ℓ} (P : A → Type κ) (n : ℕ) (xs : List A) → All P xs → All P (drop n xs)
All-drop P zero xs h = h
All-drop P (suc n) [] h = tt
All-drop P (suc n) (x ∷ xs) h = All-drop P n xs h.1

pub All-amend_first {ℓ κ} :
    {A : Type ℓ} (P : A → Type κ) (p : A → Bool) (f : A → A) (xs : List A)
    → ((x : A) → P x → P (f x))
    → All P xs
    → All P (amend_first p f xs)
All-amend_first P p f [] keep h = h
All-amend_first P p f (x ∷ xs) keep h = elim (Bool-cases (p x)) [
  | inl e ↦ rw e (keep x h.0, h.1)
  | inr e ↦ rw e (h.0, All-amend_first P p f xs keep h.1)
]

pub All-first {ℓ κ} :
    {A : Type ℓ} (P : A → Type κ) (p : A → Bool) (xs : List A) (y : A)
    → All P xs
    → first p xs ≡ some y
    → P y
All-first P p [] y h e = cc
All-first P p (x ∷ xs) y h e = elim (Bool-cases (p x)) [
  | inl here ↦ let same : x ≡ y = ground arith in subst P (same) h.0
  | inr there ↦ let later : first p xs ≡ some y = ground arith in All-first P p xs y h.1 later
]

pub append_nil {ℓ} : {A : Type ℓ} (xs : List A) → xs ++ [] ≡ xs
append_nil [] = refl
append_nil (x ∷ xs) = ap (◌∷◌ x) (append_nil xs)

pub tally-drop_first-le {ℓ} :
    {A : Type ℓ} (p q : A → Bool) (xs : List A) → tally p (drop_first q xs) ≤ tally p xs
tally-drop_first-le p q [] = omega arith
tally-drop_first-le p q (x ∷ xs) = ground (arith, tally-drop_first-le p q xs)

pub append_assoc {ℓ} : {A : Type ℓ} (xs ys zs : List A) → (xs ++ ys) ++ zs ≡ xs ++ (ys ++ zs)
append_assoc [] ys zs = refl
append_assoc (x ∷ xs) ys zs = ap (◌∷◌ x) (append_assoc xs ys zs)

pub length-append {ℓ} : {A : Type ℓ} (xs ys : List A) → length (xs ++ ys) ≡ length xs + length ys
length-append [] ys = omega arith
length-append (x ∷ xs) ys = omega (arith, length-append xs ys)

-- An element is at some place of a list.
abbrev pub Among : {A : Type 0} → A → List A → Type 0
Among x [] = ⊥
Among x (y ∷ ys) = (x ≡ y) ⊎ Among x ys

pub tally-select :
    {A : Type 0} (q p : A → Bool) (l : List A) → tally p (select q l) ≡ tally (λ x. q x && p x) l
tally-select q p [] = refl
tally-select q p (x ∷ l) = ground (arith, tally-select q p l)
