-- ===== src/Certificates/Settling.antt =====
-- What one round of the synchronisation settles.
use mathlib.Core.Path.{subst}
use mathlib.Core.Option
use chain_verse_backend.Base.{
  ◌≡◌, refl, sym, ap, ◌∙◌, inl, inr, String, Bool, true, false, Option, none, some, List, [], ◌∷◌,
  ◌===◌, eq_iff, amend_first, first, Among, select, All, Bool-cases, arith,
}
use chain_verse_backend.Mongo.{Mongo}
use chain_verse_backend.Stellar.{Ledger}
use chain_verse_backend.Certificates.{
  CertificateTx, SyncStatus, is_pending_tx, put_status, status_for, save_answer, sync_tx, sync_each,
  sync_pending,
}
use chain_verse_backend.Certificates.Issues.{shown, put_status-shown, HasOwnIds, All-select-Among}

abbrev of_id : String → CertificateTx → Bool
of_id i u = u.id === i

Among-select :
    {A : Type 0} (p : A → Bool) (x : A) (xs : List A)
    → Among x xs
    → p x ≡ true
    → Among x (select p xs)
Among-select p x [] there e = there
Among-select p x (y ∷ xs) (inl same) e = rw (ap p (sym same) ∙ e) (inl same)
Among-select p x (y ∷ xs) (inr there) e = elim (Bool-cases (p y)) [
  | inl good ↦ rw good (inr (Among-select p x xs there e))
  | inr bad ↦ rw bad (Among-select p x xs there e)
]

-- What has the id of `t` is `t`.
abbrev Owns : CertificateTx → CertificateTx → Type 0
Owns t x = x.id ≡ t.id → x ≡ t

first-own :
    (t : CertificateTx) (xs : List CertificateTx)
    → ((x : CertificateTx) → Among x xs → Owns t x)
    → Among t xs
    → first (of_id t.id) xs ≡ some t
first-own t [] own there = absurd there
first-own t (x ∷ xs) own there = elim (Bool-cases (x.id === t.id)) [
  | inl e ↦ rw e (ap some (own x (inl refl) ((eq_iff x.id t.id).0 e)))
  | inr e ↦ rw e elim there [
    | inl same ↦
        let self : (x.id === t.id) ≡ true =
          (eq_iff x.id t.id).1 (ap (λ (y : CertificateTx). y.id) (sym same)) in
        cc
    | inr later ↦ first-own t xs (λ y among. own y (inr among)) later
  ]
]

first-amend_same :
    (i : String) (status : SyncStatus) (xs : List CertificateTx)
    → first (of_id i) (amend_first (of_id i) (put_status status) xs)
      ≡ Option.map (put_status status) (first (of_id i) xs)
first-amend_same i status [] = refl
first-amend_same i status (x ∷ xs) = elim (Bool-cases (x.id === i)) [
  | inl e ↦ rw (e, e) refl
  | inr e ↦ rw (e, e) (first-amend_same i status xs)
]

first-amend_other :
    (i j : String) (status : SyncStatus) (xs : List CertificateTx)
    → (j === i) ≡ false
    → first (of_id i) (amend_first (of_id j) (put_status status) xs) ≡ first (of_id i) xs
first-amend_other i j status [] other = refl
first-amend_other i j status (x ∷ xs) other =
    ground (arith, eq_iff x.id i, eq_iff x.id j, eq_iff j i, first-amend_other i j status xs other)

module _ (db : Mongo) (ledger : Ledger) (t : CertificateTx) (b : Bool) where
  open db use {all, all-update_one, find_lem}

  -- The first record with the id of `t` shows the answer.
  abbrev IsDone : db.Store CertificateTx → Type 0
  IsDone txs = first (of_id t.id) (all txs) ≡ some (put_status (status_for b) t)

  -- It will once the answer is saved.
  abbrev IsOpen : db.Store CertificateTx → Type 0
  IsOpen txs =
      Option.map (put_status (status_for b)) (first (of_id t.id) (all txs))
      ≡ some (put_status (status_for b) t)

  IsDone→IsOpen : (txs : db.Store CertificateTx) → IsDone txs → IsOpen txs
  IsDone→IsOpen txs h = ap (Option.map (put_status (status_for b))) h

  -- Its own round settles it.
  sync_tx_self :
      (txs : db.Store CertificateTx)
      → ledger.transaction t.transaction_hash ≡ some b
      → IsOpen txs
      → IsDone (sync_tx db ledger t txs)
  unfolding sync_tx save_answer
  sync_tx_self txs said h = rw (said, all-update_one, first-amend_same) h

  -- The round of another record leaves it alone.
  save_answer_other :
      (o : Option Bool) (r : CertificateTx) (txs : db.Store CertificateTx)
      → (r.id === t.id) ≡ false
      → first (of_id t.id) (all (save_answer db ledger o r txs)) ≡ first (of_id t.id) (all txs)
  unfolding save_answer
  save_answer_other none r txs other = refl
  save_answer_other (some c) r txs other =
      rw all-update_one (first-amend_other t.id r.id (status_for c) (all txs) other)

  sync_tx_other :
      (r : CertificateTx) (txs : db.Store CertificateTx)
      → (r.id === t.id) ≡ false
      → first (of_id t.id) (all (sync_tx db ledger r txs)) ≡ first (of_id t.id) (all txs)
  unfolding sync_tx
  sync_tx_other r txs other = save_answer_other (ledger.transaction r.transaction_hash) r txs other

  sync_tx-IsDone :
      (r : CertificateTx) (txs : db.Store CertificateTx)
      → ledger.transaction t.transaction_hash ≡ some b
      → Owns t r
      → IsDone txs
      → IsDone (sync_tx db ledger r txs)
  sync_tx-IsDone r txs said own h = elim (Bool-cases (r.id === t.id)) [
    | inl e ↦
        subst (λ (u : CertificateTx). IsDone (sync_tx db ledger u txs))
          (sym (own ((eq_iff r.id t.id).0 e))) (sync_tx_self txs said (IsDone→IsOpen txs h))
    | inr e ↦ sync_tx_other r txs e ∙ h
  ]

  sync_tx-IsOpen :
      (r : CertificateTx) (txs : db.Store CertificateTx)
      → ledger.transaction t.transaction_hash ≡ some b
      → Owns t r
      → IsOpen txs
      → IsOpen (sync_tx db ledger r txs)
  sync_tx-IsOpen r txs said own h = elim (Bool-cases (r.id === t.id)) [
    | inl e ↦
        subst (λ (u : CertificateTx). IsOpen (sync_tx db ledger u txs))
          (sym (own ((eq_iff r.id t.id).0 e)))
          (IsDone→IsOpen (sync_tx db ledger t txs) (sync_tx_self txs said h))
    | inr e ↦ ap (Option.map (put_status (status_for b))) (sync_tx_other r txs e) ∙ h
  ]

  sync_each-IsDone :
      (ts : List CertificateTx) (txs : db.Store CertificateTx)
      → ledger.transaction t.transaction_hash ≡ some b
      → All (Owns t) ts
      → IsDone txs
      → IsDone (sync_each db ledger ts txs)
  unfolding sync_each
  sync_each-IsDone [] txs said own h = h
  sync_each-IsDone (r ∷ ts) txs said own h =
      sync_each-IsDone ts (sync_tx db ledger r txs) said own.1 (sync_tx-IsDone r txs said own.0 h)

  sync_each-settles :
      (ts : List CertificateTx) (txs : db.Store CertificateTx)
      → ledger.transaction t.transaction_hash ≡ some b
      → All (Owns t) ts
      → Among t ts
      → IsOpen txs
      → IsDone (sync_each db ledger ts txs)
  unfolding sync_each
  sync_each-settles [] txs said own there h = absurd there
  sync_each-settles (r ∷ ts) txs said own (inl same) h =
      sync_each-IsDone ts (sync_tx db ledger r txs) said own.1 (
        subst (λ (u : CertificateTx). IsDone (sync_tx db ledger u txs)) same
          (sync_tx_self txs said h))
  sync_each-settles (r ∷ ts) txs said own (inr later) h =
      sync_each-settles ts (sync_tx db ledger r txs) said own.1 later
        (sync_tx-IsOpen r txs said own.0 h)

  -- Where no two records of transactions have one id, `sync_pending` leaves each pending one whose
  -- transaction the ledger shows confirmed where it shows it as successful, and failed where it
  -- shows it as not, whatever it answers about the others.
  pub sync_pending-settles :
      (txs : db.Store CertificateTx)
      → HasOwnIds db ledger (all txs)
      → Among t (all txs)
      → is_pending_tx t ≡ true
      → ledger.transaction t.transaction_hash ≡ some b
      → first (λ u. u.id === t.id) (all (sync_pending db ledger txs)) ≡ some (shown b t)
  unfolding sync_pending
  sync_pending-settles txs own there pending said =
      let before : first (of_id t.id) (all txs) ≡ some t =
        first-own t (all txs) (λ x among e. own x t among there e) there in
      let after : IsDone (sync_each db ledger (db.find is_pending_tx txs) txs) =
        sync_each-settles (db.find is_pending_tx txs) txs said
          (rw find_lem (
            All-select-Among (Owns t) is_pending_tx (all txs)
              (λ x among e same. own x t among there same)))
          (rw find_lem (Among-select is_pending_tx t (all txs) there pending))
          (ap (Option.map (put_status (status_for b))) before) in
      after ∙ ap some (put_status-shown b t)
