-- ===== src/Certificates/Issues.antt =====
-- What the rounds of the synchronisation do to the records of transactions.
use chain_verse_backend.Base.{
  ◌≡◌, ◌⊎◌, refl, sym, ap, ◌∙◌, inl, inr, Bool, true, false, if◌then◌else◌, Option, none, some,
  List, [], ◌∷◌, ◌===◌, eq_iff, amend_first, Among, select, All, Bool-cases,
}
use chain_verse_backend.Mongo.{Mongo}
use chain_verse_backend.Stellar.{Ledger}
use chain_verse_backend.Certificates.{
  CertificateTx, SyncStatus, is_pending_tx, put_status, status_for, save_answer, sync_tx, sync_each,
  sync_pending,
}

All-amend_where :
    {A : Type 0} (P : A → Type 0) (p : A → Bool) (f : A → A) (xs : List A)
    → ((x : A) → P x → p x ≡ true → P (f x))
    → All P xs
    → All P (amend_first p f xs)
All-amend_where P p f [] keep h = h
All-amend_where P p f (x ∷ xs) keep h = elim (Bool-cases (p x)) [
  | inl e ↦ rw e (keep x h.0 e, h.1)
  | inr e ↦ rw e (h.0, All-amend_where P p f xs keep h.1)
]

All-Among : {A : Type 0} (P : A → Type 0) (xs : List A) → ((x : A) → Among x xs → P x) → All P xs
All-Among P [] h = tt
All-Among P (x ∷ xs) h = (h x (inl refl), All-Among P xs (λ y there. h y (inr there)))

pub All-select-Among :
    {A : Type 0} (P : A → Type 0) (p : A → Bool) (xs : List A)
    → ((x : A) → Among x xs → p x ≡ true → P x)
    → All P (select p xs)
All-select-Among P p [] h = tt
All-select-Among P p (x ∷ xs) h =
    let rest = All-select-Among P p xs (λ y there. h y (inr there)) in
    elim (Bool-cases (p x)) [ inl e ↦ rw e (h x (inl refl) e, rest) | inr e ↦ rw e rest ]

-- A record as an answer of the ledger leaves it.
abbrev pub shown : Bool → CertificateTx → CertificateTx
shown answer t = record t { status = if answer then SyncStatus.confirmed else SyncStatus.failed }

pub put_status-shown :
    (answer : Bool) (t : CertificateTx) → put_status (status_for answer) t ≡ shown answer t
put_status-shown true t = refl
put_status-shown false t = refl

module _ (db : Mongo) (ledger : Ledger) where
  open db use {all, all-update_one, find_lem}

  -- A record as the ledger's answer has left it.
  pub record Settled (before : List CertificateTx) (u : CertificateTx) : Type 0 where
    pub loaded : CertificateTx
    pub answer : Bool
    pub there : Among loaded before
    pub was_pending : is_pending_tx loaded ≡ true
    pub answered : ledger.transaction loaded.transaction_hash ≡ some answer
    pub now : u ≡ shown answer loaded

  abbrev pub Follows : List CertificateTx → CertificateTx → Type 0
  Follows before u = Among u before ⊎ Settled before u

  -- No two records have one id.
  abbrev pub HasOwnIds : List CertificateTx → Type 0
  HasOwnIds l = (x y : CertificateTx) → Among x l → Among y l → x.id ≡ y.id → x ≡ y

  put_status-Follows :
      (before : List CertificateTx) (t x : CertificateTx) (answer : Bool)
      → HasOwnIds before
      → Among t before
      → is_pending_tx t ≡ true
      → ledger.transaction t.transaction_hash ≡ some answer
      → Follows before x
      → (x.id === t.id) ≡ true
      → Follows before (put_status (status_for answer) x)
  put_status-Follows before t x answer own there pending said (inl here) e =
      let same : x ≡ t = own x t here there ((eq_iff x.id t.id).0 e) in
      inr (record {
        loaded = t;
        answer = answer;
        there = there;
        was_pending = pending;
        answered = said;
        now = ap (put_status (status_for answer)) same ∙ put_status-shown answer t;
      })
  put_status-Follows before t x answer own there pending said (inr d) e =
      let one_id : d.loaded.id ≡ t.id =
        sym (ap (λ (y : CertificateTx). y.id) d.now) ∙ (eq_iff x.id t.id).0 e in
      let same : d.loaded ≡ t = own d.loaded t d.there there one_id in
      inr (record {
        loaded = t;
        answer = answer;
        there = there;
        was_pending = pending;
        answered = said;
        now =
            ap (put_status (status_for answer)) d.now
            ∙ ap (put_status (status_for answer)) same
            ∙ put_status-shown answer t;
      })

  save_answer-Follows :
      (before : List CertificateTx) (o : Option Bool) (t : CertificateTx)
      (txs : db.Store CertificateTx)
      → HasOwnIds before
      → Among t before
      → is_pending_tx t ≡ true
      → ledger.transaction t.transaction_hash ≡ o
      → All (Follows before) (all txs)
      → All (Follows before) (all (save_answer db ledger o t txs))
  unfolding save_answer
  save_answer-Follows before none t txs own there pending said h = h
  save_answer-Follows before (some b) t txs own there pending said h = rw all-update_one (
      All-amend_where (Follows before) (λ u. u.id === t.id) (put_status (status_for b)) (all txs)
        (λ x follows e. put_status-Follows before t x b own there pending said follows e) h)

  -- A record of the list that is gone through is pending and one of those before.
  abbrev IsLoaded : List CertificateTx → CertificateTx → Type 0
  IsLoaded before t = Among t before × (is_pending_tx t ≡ true)

  sync_each-Follows :
      (before ts : List CertificateTx) (txs : db.Store CertificateTx)
      → HasOwnIds before
      → All (IsLoaded before) ts
      → All (Follows before) (all txs)
      → All (Follows before) (all (sync_each db ledger ts txs))
  unfolding sync_each sync_tx
  sync_each-Follows before [] txs own loaded h = h
  sync_each-Follows before (t ∷ ts) txs own loaded h =
      sync_each-Follows before ts (sync_tx db ledger t txs) own loaded.1 (
        save_answer-Follows before (ledger.transaction t.transaction_hash) t txs own loaded.0.0
          loaded.0.1 refl h)

  -- Where no two records of transactions have one id, each record after `sync_pending` is one
  -- from before, or a pending one from before that is now confirmed where the ledger shows its
  -- transaction as successful and failed where it shows it as not.
  pub sync_pending-Follows :
      (txs : db.Store CertificateTx)
      → HasOwnIds (all txs)
      → All (Follows (all txs)) (all (sync_pending db ledger txs))
  unfolding sync_pending
  sync_pending-Follows txs own =
      sync_each-Follows (all txs) (db.find is_pending_tx txs) txs own
        (rw find_lem (
          All-select-Among (IsLoaded (all txs)) is_pending_tx (all txs)
            (λ x there pending. (there, pending))))
        (All-Among (Follows (all txs)) (all txs) (λ x there. inl there))
