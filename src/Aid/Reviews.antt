-- ===== src/Aid/Reviews.antt =====
-- Reviews and their events, and an application that the database repository is asked to save.
use chain_verse_backend.Base.{
  ℕ, String, ◌≡◌, ◌≢◌, refl, ap, ◌∙◌, inl, inr, false, not, ◌&&◌, none, some, List, [], ◌∷◌, ◌++◌,
  arith, first, first-passes, first-amend_found, Bool-cases, append_nil, if◌then◌else◌,
}
use chain_verse_backend.Http.{Result, ok}
use chain_verse_backend.Aid.{
  AidApplication, AidRepository, AidDesk, AidApproved, UpdateFinancialAidDto, update_fields,
  approval, is_approved, review_aid,
}
use chain_verse_backend.Aid.Stores.{Contract, has_aid_id, put_aid}
use chain_verse_backend.Aid.Single.{own_aid_id}

-- The events of a change from one application to another.
abbrev pub news : AidApplication → AidApplication → List AidApproved
news x y = if not (is_approved x) && is_approved y then approval y ∷ [] else []

first-put_aid :
    (id : String) (now : ℕ) (dto : UpdateFinancialAidDto) (x : AidApplication)
    (l : List AidApplication)
    → first (has_aid_id id) l ≡ some x
    → first (has_aid_id id) (put_aid (update_fields now dto x) l) ≡ some (update_fields now dto x)
first-put_aid id now dto x l f =
    let own = own_aid_id id l x f in
    rw own (
      first-amend_found (has_aid_id id) (has_aid_id x.id) (λ _. update_fields now dto x) l x f own
        (first-passes (has_aid_id id) l x f))

ok-injective : {A : Type 0} {a b : A} → ◌≡◌ {A = Result A} (ok a) (ok b) → a ≡ b
ok-injective e = cc

module _ (repo : AidRepository) (uuid : ℕ → String) (contract : Contract repo) where
  open contract use {held, save-ok, held-save, find_by_id_lem}

  review_aid_found :
      (now : ℕ) (id : String) (dto : UpdateFinancialAidDto) (s : AidDesk repo uuid)
      (x : AidApplication)
      → first (has_aid_id id) (held s.store) ≡ some x
      → ((review_aid repo uuid now id dto s).0 ≡ ok (update_fields now dto x))
        × ((review_aid repo uuid now id dto s).1.events
            ≡ s.events ++ news x (update_fields now dto x))
        × (held (review_aid repo uuid now id dto s).1.store
            ≡ put_aid (update_fields now dto x) (held s.store))
  unfolding review_aid
  review_aid_found now id dto s x there =
      let query = find_by_id_lem id s.store in
      let saved = save-ok now (update_fields now dto x) s.store in
      (
        ground arith,
        elim (Bool-cases (not (is_approved x) && is_approved (update_fields now dto x))) [
          | inl new ↦ ground arith
          | inr old ↦ ground (arith, append_nil s.events)
        ],
        ground (arith, held-save now (update_fields now dto x) s.store),
      )

  review_aid_missing :
      (now : ℕ) (id : String) (dto : UpdateFinancialAidDto) (s : AidDesk repo uuid)
      (r : AidApplication)
      → first (has_aid_id id) (held s.store) ≡ none
      → (review_aid repo uuid now id dto s).0 ≢ ok r
  unfolding review_aid
  review_aid_missing now id dto s r missing done = ground (arith, find_by_id_lem id s.store)

  -- With a repository that keeps the contract, an application that is not approved and then is
  -- approved, set back to pending and approved again has its approval emitted twice.
  pub review_aid_reopened :
      (t u v : ℕ) (id : String) (s : AidDesk repo uuid) (x : AidApplication)
      → first (has_aid_id id) (held s.store) ≡ some x
      → is_approved x ≡ false
      → let approve : UpdateFinancialAidDto = record { reason = none; status = some "approved" } in
        let reopen : UpdateFinancialAidDto = record { reason = none; status = some "pending" } in
        let once : AidDesk repo uuid = (review_aid repo uuid t id approve s).1 in
        let open_again : AidDesk repo uuid = (review_aid repo uuid u id reopen once).1 in
        (review_aid repo uuid v id approve open_again).1.events
        ≡ (s.events ++ approval x ∷ []) ++ approval x ∷ []
  review_aid_reopened t u v id s x there fresh =
      let approve : UpdateFinancialAidDto = record { reason = none; status = some "approved" } in
      let reopen : UpdateFinancialAidDto = record { reason = none; status = some "pending" } in
      let once : AidDesk repo uuid = (review_aid repo uuid t id approve s).1 in
      let open_again : AidDesk repo uuid = (review_aid repo uuid u id reopen once).1 in
      let y : AidApplication = update_fields t approve x in
      let z : AidApplication = update_fields u reopen y in
      let one = review_aid_found t id approve s x there in
      let found_y : first (has_aid_id id) (held once.store) ≡ some y =
        rw (one.2) (first-put_aid id t approve x (held s.store) there) in
      let two = review_aid_found u id reopen once y found_y in
      let found_z : first (has_aid_id id) (held open_again.store) ≡ some z =
        rw (two.2) (first-put_aid id u reopen y (held once.store) found_y) in
      let three = review_aid_found v id approve open_again z found_z in
      let new : news x y ≡ approval x ∷ [] = rw fresh refl in
      three.1
      ∙ ap (λ (l : List AidApproved). l ++ approval x ∷ [])
          (two.1
            ∙ append_nil once.events
            ∙ one.1
            ∙ ap (λ (l : List AidApproved). s.events ++ l) new)
