-- ===== src/Mongo/Memory.antt =====
-- A store in memory that has every property of the interface: the laws can hold together, and the
-- handlers run on it.
use chain_verse_backend.Base.{
  ℕ, zero, suc, take, drop, String, ◌≡◌, ◌≤◌, Bool, refl, ap, Option, none, some, List, [], ◌∷◌,
  ◌++◌, select, first, tally, amend_first, amend_all, drop_first, drop_all, arith,
}
use mathlib.Core.Path.{subst}
use chain_verse_backend.Mongo.{Mongo, window}

-- The ids of this store are runs of one letter, of length one and more.
abbrev pub run_of : ℕ → String
run_of zero = String.[]
run_of (suc n) = String.◌∷◌ "a" (run_of n)

abbrev pub cast_id : String → Option String
cast_id String.[] = none
cast_id (String.◌∷◌ c s) = some (String.◌∷◌ c s)

pub cast_id_idem : (x y : String) → cast_id x ≡ some y → cast_id y ≡ some y
cast_id_idem String.[] y h = cc
cast_id_idem (String.◌∷◌ c s) y h =
    let e : String.◌∷◌ c s ≡ y = cc in subst (λ z. cast_id z ≡ some z) e refl

rest : String → String
rest String.[] = String.[]
rest (String.◌∷◌ _ s) = s

pub run_of-injective : (m n : ℕ) → run_of m ≡ run_of n → m ≡ n
unfolding rest
run_of-injective zero zero h = refl
run_of-injective zero (suc n) h = cc
run_of-injective (suc m) zero h = cc
run_of-injective (suc m) (suc n) h = ap suc (run_of-injective m n (ap rest h))

pub suc_of : {m n : ℕ} → suc m ≡ suc n → m ≡ n
suc_of h = omega arith

tally-take : {D : Type 0} (q : D → Bool) (m : ℕ) (l : List D) → tally q (take m l) ≤ tally q l
tally-take q zero l = omega arith
tally-take q (suc m) [] = omega arith
tally-take q (suc m) (x ∷ l) = ground (arith, tally-take q m l)

tally-drop : {D : Type 0} (q : D → Bool) (n : ℕ) (l : List D) → tally q (drop n l) ≤ tally q l
tally-drop q zero l = omega arith
tally-drop q (suc n) [] = omega arith
tally-drop q (suc n) (x ∷ l) = ground (arith, tally-drop q n l)

pub tally-window :
    {D : Type 0} (q : D → Bool) (n m : ℕ) (l : List D) → tally q (window n m l) ≤ tally q l
tally-window q n zero l = tally-drop q n l
tally-window q n (suc m) l = omega (arith, tally-take q (suc m) (drop n l), tally-drop q n l)

abbrev pub memory : Mongo
memory = record {
  Store = List;
  all = λ s. s;
  find = select;
  find_one = first;
  find_window = λ p n m s. window n m (select p s);
  count = tally;
  insert = λ d s. s ++ d ∷ [];
  update_one = amend_first;
  update_many = amend_all;
  delete_one = drop_first;
  delete_many = drop_all;
  to_object_id = cast_id;
  object_id = λ n. run_of (suc n);
  find_lem = λ p s. refl;
  find_one_lem = λ p s. refl;
  length-find_window = λ p n m s. refl;
  tally-find_window = λ p q n m s. tally-window q n m (select p s);
  count_lem = λ p s. refl;
  all-insert = λ d s. refl;
  all-update_one = λ p f s. refl;
  all-update_many = λ p f s. refl;
  all-delete_one = λ p s. refl;
  all-delete_many = λ p s. refl;
  to_object_id_idem = cast_id_idem;
  to_object_id-object_id = λ n. refl;
  object_id-injective = λ m n h. suc_of (run_of-injective (suc m) (suc n) h);
}
