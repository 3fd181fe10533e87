-- ===== src/Mongo.antt =====
-- What the services rely on of Mongoose and MongoDB, which are not in the repository: a collection is
-- read in natural order, a query selects the documents that match its filter, an update or a removal
-- of one document takes the first match, and `save()` of a new document adds it.
pub mod Memory
use chain_verse_backend.Base.{
  ℕ, zero, suc, take, drop, String, ◌≡◌, ◌≤◌, length, Bool, Option, some, List, [], ◌∷◌, ◌++◌,
  select, first, tally, amend_first, amend_all, drop_first, drop_all,
}

-- What is left of a list after a skip and a limit.
abbrev pub window {ℓ} : {A : Type ℓ} → ℕ → ℕ → List A → List A
window n zero xs = drop n xs
window n (suc m) xs = take (suc m) (drop n xs)

pub record Mongo : Type 1 where
  -- A collection of documents, and what it holds in natural order.
  pub Store : Type 0 → Type 0
  pub all : {D : Type 0} → Store D → List D
  -- `Model.find`, `findOne`, `countDocuments`, by a filter.
  pub find : {D : Type 0} → (D → Bool) → Store D → List D
  pub find_one : {D : Type 0} → (D → Bool) → Store D → Option D
  pub count : {D : Type 0} → (D → Bool) → Store D → ℕ
  -- `Model.find(filter).skip(n).limit(m)`, where a limit of 0 is none.
  pub find_window : {D : Type 0} → (D → Bool) → ℕ → ℕ → Store D → List D
  -- `new Model(doc).save()`
  pub insert : {D : Type 0} → D → Store D → Store D
  -- `findOneAndUpdate`, `findByIdAndUpdate`, `doc.save()` of a loaded document; `updateMany`.
  pub update_one : {D : Type 0} → (D → Bool) → (D → D) → Store D → Store D
  pub update_many : {D : Type 0} → (D → Bool) → (D → D) → Store D → Store D
  -- `findOneAndDelete`, `findByIdAndDelete`, `deleteOne`; `deleteMany`.
  pub delete_one : {D : Type 0} → (D → Bool) → Store D → Store D
  pub delete_many : {D : Type 0} → (D → Bool) → Store D → Store D
  -- The cast of a text to an object id, written as a text again; `none` is a `CastError`.
  pub to_object_id : String → Option String
  -- The ids that the driver generates for new documents.
  pub object_id : ℕ → String
  pub find_lem : {D : Type 0} (p : D → Bool) (s : Store D) → find p s ≡ select p (all s)
  pub find_one_lem : {D : Type 0} (p : D → Bool) (s : Store D) → find_one p s ≡ first p (all s)
  -- Without a sort the documents of a window may be any of those that match, each at most once.
  pub length-find_window :
      {D : Type 0} (p : D → Bool) (n m : ℕ) (s : Store D)
      → length (find_window p n m s) ≡ length (window n m (select p (all s)))
  pub tally-find_window :
      {D : Type 0} (p q : D → Bool) (n m : ℕ) (s : Store D)
      → tally q (find_window p n m s) ≤ tally q (select p (all s))
  pub count_lem : {D : Type 0} (p : D → Bool) (s : Store D) → count p s ≡ tally p (all s)
  pub all-insert : {D : Type 0} (d : D) (s : Store D) → all (insert d s) ≡ all s ++ d ∷ []
  pub all-update_one :
      {D : Type 0} (p : D → Bool) (f : D → D) (s : Store D)
      → all (update_one p f s) ≡ amend_first p f (all s)
  pub all-update_many :
      {D : Type 0} (p : D → Bool) (f : D → D) (s : Store D)
      → all (update_many p f s) ≡ amend_all p f (all s)
  pub all-delete_one :
      {D : Type 0} (p : D → Bool) (s : Store D) → all (delete_one p s) ≡ drop_first p (all s)
  pub all-delete_many :
      {D : Type 0} (p : D → Bool) (s : Store D) → all (delete_many p s) ≡ drop_all p (all s)
  pub to_object_id_idem : (x y : String) → to_object_id x ≡ some y → to_object_id y ≡ some y
  pub to_object_id-object_id : (n : ℕ) → to_object_id (object_id n) ≡ some (object_id n)
  pub object_id-injective : (m n : ℕ) → object_id m ≡ object_id n → m ≡ n
