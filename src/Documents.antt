-- ===== src/Documents.antt =====
-- The services that keep the documents of one collection, and what they have in common: a new
-- document, and one by its id.
use chain_verse_backend.Base.{ℕ, ◌+◌, String, Bool, ◌&&◌, none, some, ◌===◌}
use chain_verse_backend.Http.{
  Action, ok, throw, or_throw, gets, modify, pure, ◌>>=◌, ◌>>◌, not_found, cast_error,
}
use chain_verse_backend.Mongo.{Mongo}

-- A collection, and the number of ids generated so far.
pub record Shelf (db : Mongo) (D : Type 0) : Type 0 where
  pub docs : db.Store D
  pub minted : ℕ

module _ (db : Mongo) {D : Type 0} where
  -- `new Model({ … }).save()`
  unfoldable pub add_doc : (String → D) → Action (Shelf db D) D
  add_doc make s =
      let d : D = make (db.object_id s.minted) in
      (ok d, record s { docs = db.insert d s.docs; minted = s.minted + 1 })

  unfoldable pub cast_doc : String → Action (Shelf db D) String
  cast_doc id s = elim (db.to_object_id id) [ none ↦ throw (cast_error id) s | some k ↦ (ok k, s) ]

  module _ (id_of : D → String) (message : String) where
    -- `findById(id)`, which sees what a hook of the schema lets it see.
    unfoldable pub load_doc : (D → Bool) → String → Action (Shelf db D) D
    unfolding cast_doc
    load_doc visible id = do
      k ← cast_doc id
      doc ← gets (λ s. db.find_one (λ d. id_of d === k && visible d) s.docs)
      or_throw doc (not_found message)

    -- `findByIdAndUpdate(id, …, { new: true })`, to which no hook applies.
    unfoldable pub amend_doc : String → (D → D) → Action (Shelf db D) D
    unfolding cast_doc
    amend_doc id f = do
      k ← cast_doc id
      doc ← gets (λ s. db.find_one (λ d. id_of d === k) s.docs)
      modify (λ s. record s { docs = db.update_one (λ d. id_of d === k) f s.docs })
      found ← or_throw doc (not_found message)
      pure (f found)

    -- `findByIdAndDelete(id)`, to which no hook applies.
    unfoldable pub erase_doc : String → Action (Shelf db D) String
    unfolding cast_doc
    erase_doc id = do
      k ← cast_doc id
      doc ← gets (λ s. db.find_one (λ d. id_of d === k) s.docs)
      modify (λ s. record s { docs = db.delete_one (λ d. id_of d === k) s.docs })
      found ← or_throw doc (not_found message)
      pure id
