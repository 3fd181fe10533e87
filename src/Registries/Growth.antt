-- ===== src/Registries/Growth.antt =====
-- What requests do to the items of a registry: a request by id reaches none.
use chain_verse_backend.Base.{
  some, ℕ, ◌≤◌, ◌≡◌, refl, sym, ◌∙◌, inl, inr, String, Bool, true, false, Option, none, List, [],
  ◌∷◌, ◌++◌, arith, ◌⊎◌, Bool-cases, All, All-append, bit, first, length, eq_iff, append_nil, tally,
  ap, length-append, append_assoc,
}
use chain_verse_backend.Http.{
  Failure, Action, pure, ◌>>◌, ◌>>=◌, ok, raise, not_found, bad_request, Result-cases,
}
use chain_verse_backend.StudentAuth.{Services}
use chain_verse_backend.Guards.{guard}
use chain_verse_backend.Registries.{
  Ids, Barrier, anyone, roles, Routes, Registry, Entry, ItemRequest, ItemAnswer, list_items,
  show_item, add_item, change_item, delete_item, shown, changed, deleted, create_item, find_items,
  serve_item, admit, parse_id, is_entry, find_item, update_item, remove_item,
}

-- One request: its time, its header and what it asks for.
pub record ItemCall (J : Type 0) : Type 0 where
  pub now : ℕ
  pub header : Option String
  pub request : ItemRequest J

abbrev pub by_id : {J : Type 0} → ItemRequest J → Bool
by_id list_items = false
by_id (add_item _) = false
by_id _ = true

abbrev pub adds : {J : Type 0} → ItemRequest J → Bool
adds (add_item _) = true
adds _ = false

abbrev pub adds_by : {J : Type 0} → ItemCall J → Bool
adds_by c = adds c.request

module _ {J : Type 0} (ids : Ids) (env : Services) where
  -- Every item has an id that is no object id.
  abbrev pub HasUuids : Registry J → Type 0
  HasUuids s = All (λ e. ids.is_valid_object_id e.id ≡ false) s.items

  absent :
      (id : String) (l : List (Entry J))
      → All (λ e. ids.is_valid_object_id e.id ≡ false) l
      → ids.is_valid_object_id id ≡ true
      → first (is_entry id) l ≡ none
  absent id [] h valid = refl
  absent id (e ∷ l) h valid = ground (arith, eq_iff e.id id, h.0, absent id l h.1)

  admit_cases :
      (now : ℕ) (header : Option String) (g : Barrier) (s : Registry J)
      → ((e : Failure) × (admit ids env now header g s ≡ (raise e, s)))
        ⊎ (admit ids env now header g s ≡ (ok tt, s))
  unfolding admit
  admit_cases now header anyone s = inr refl
  admit_cases now header (roles rs) s = elim (Result-cases (guard env now header rs)) [
    | inl (e, bad) ↦ inl (e, ground arith)
    | inr (u, good) ↦ inr (ground arith)
  ]

  -- Behind a gate and the pipe of its id, what finds no item is an exception.
  refused :
      (now : ℕ) (header : Option String) (g : Barrier) (id message : String) (s : Registry J)
      (m : Action (Registry J) (ItemAnswer J))
      → HasUuids s
      → (first (is_entry id) s.items ≡ none → m s ≡ (raise (not_found message), s))
      → (e : Failure) × ((admit ids env now header g >> (parse_id ids env id >> m)) s
          ≡ (raise e, s))
  unfolding parse_id
  refused now header g id message s m h missing = elim (admit_cases now header g s) [
    | inl (e, bad) ↦ (e, ground (arith, bad))
    | inr good ↦ elim (Bool-cases (ids.is_valid_object_id id)) [
      | inl valid ↦ (not_found message, ground (arith, good, missing (absent id s.items h valid)))
      | inr not_valid ↦ (bad_request "id must be a valid ObjectId", ground (arith, good))
    ]
  ]

  module _ (at : Routes) (message : String) where
    -- Where every item has a UUID for its id, any request by an id, to any controller with these
    -- routes, is refused with an exception and changes nothing: the pipe lets object ids through
    -- only.
    pub serve_item-by_id :
        (now : ℕ) (header : Option String) (r : ItemRequest J) (s : Registry J)
        → HasUuids s
        → by_id r ≡ true
        → (e : Failure) × (serve_item ids env at message now header r s ≡ (raise e, s))
    unfolding serve_item find_item update_item remove_item
    serve_item-by_id now header list_items s h b = cc
    serve_item-by_id now header (add_item p) s h b = cc
    serve_item-by_id now header (show_item id) s h b =
        refused now header at.reading id message s
          (find_item message id >>= λ item. pure (shown item)) h (λ f. ground arith)
    serve_item-by_id now header (change_item id p) s h b =
        refused now header at.updating id message s
          (update_item message id p >>= λ item. pure (changed item)) h (λ f. ground arith)
    serve_item-by_id now header (delete_item id) s h b =
        refused now header at.removing id message s
          (remove_item message id >>= λ gone. pure (deleted gone)) h (λ f. ground arith)

    unchanged :
        (now : ℕ) (header : Option String) (r : ItemRequest J) (s : Registry J)
        → (e : Failure) × (serve_item ids env at message now header r s ≡ (raise e, s))
        → (new : List (Entry J)) × ((serve_item ids env at message now header r s).1.items
            ≡ s.items ++ new)
          × (length new ≤ bit (adds r))
          × All (λ e. ids.is_valid_object_id e.id ≡ false) new
    unchanged now header r s (e, same) =
        ([], ground (arith, same, append_nil s.items), omega arith, tt)

    -- A run of requests.
    unfoldable pub serve_calls : List (ItemCall J) → Registry J → Registry J
    serve_calls [] s = s
    serve_calls (c ∷ cs) s =
        serve_calls cs (serve_item ids env at message c.now c.header c.request s).1

    -- What a request adds: nothing, or one item of a request to add.
    serve_item-adds :
        (now : ℕ) (header : Option String) (r : ItemRequest J) (s : Registry J)
        → HasUuids s
        → (new : List (Entry J)) × ((serve_item ids env at message now header r s).1.items
            ≡ s.items ++ new)
          × (length new ≤ bit (adds r))
          × All (λ e. ids.is_valid_object_id e.id ≡ false) new
    unfolding serve_item create_item find_items
    serve_item-adds now header list_items s h = elim (admit_cases now header at.listing s) [
      | inl (e, bad) ↦ ([], ground (arith, bad, append_nil s.items), omega arith, tt)
      | inr good ↦ ([], ground (arith, good, append_nil s.items), omega arith, tt)
    ]
    serve_item-adds now header (add_item p) s h = elim (admit_cases now header at.creating s) [
      | inl (e, bad) ↦ ([], ground (arith, bad, append_nil s.items), omega arith, tt)
      | inr good ↦ (
        record {
          id = ids.uuid s.drawn;
          title = some p.title;
          description = p.description;
          metadata = p.metadata;
        }
            ∷ [],
        ground (arith, good),
        omega arith,
        (ids.uuid-not_valid s.drawn, tt),
      )
    ]
    serve_item-adds now header (show_item id) s h =
        unchanged now header (show_item id) s (serve_item-by_id now header (show_item id) s h refl)
    serve_item-adds now header (change_item id p) s h =
        unchanged now header (change_item id p) s
          (serve_item-by_id now header (change_item id p) s h refl)
    serve_item-adds now header (delete_item id) s h =
        unchanged now header (delete_item id) s
          (serve_item-by_id now header (delete_item id) s h refl)

    -- Where every item has a UUID for its id, any requests to a controller, whatever their
    -- answers, leave the items there are as they are, put new ones at the end, no more than
    -- there are requests to add one, and keep it so that every item has a UUID.
    pub serve_calls-HasUuids :
        (calls : List (ItemCall J)) (s : Registry J)
        → HasUuids s
        → (new : List (Entry J)) × ((serve_calls calls s).items ≡ s.items ++ new)
          × (length new ≤ tally adds_by calls)
          × HasUuids (serve_calls calls s)
    unfolding serve_calls
    serve_calls-HasUuids [] s h = ([], sym (append_nil s.items), omega arith, h)
    serve_calls-HasUuids (c ∷ calls) s h =
        let t : Registry J = (serve_item ids env at message c.now c.header c.request s).1 in
        let (one, put, few, fresh) = serve_item-adds c.now c.header c.request s h in
        let kept : HasUuids t =
          rw put (All-append (λ e. ids.is_valid_object_id e.id ≡ false) s.items one h fresh) in
        let (new, puts, fewer, all_kept) = serve_calls-HasUuids calls t kept in
        (
          one ++ new,
          puts ∙ ap (λ (l : List (Entry J)). l ++ new) put ∙ append_assoc s.items one new,
          omega (arith, few, fewer, length-append one new),
          all_kept,
        )
