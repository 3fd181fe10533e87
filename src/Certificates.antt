-- ===== src/Certificates.antt =====
-- `CourseCertificationNftAchievementsService` of src/course-certification-nft-achievements and
-- `StellarSyncService` of src/stellar/stellar-sync.service.ts, which share the records of the
-- transactions on the chain.
pub mod Polling
pub mod Issues
pub mod Settling
use chain_verse_backend.Base.{
  ℕ, zero, suc, ◌+◌, String, Bool, true, false, ◌||◌, Option, none, some, List, [], ◌∷◌, ◌++◌,
  ◌===◌, first, amend_first, drop_first, is_blank, if◌then◌else◌,
}
use chain_verse_backend.Http.{
  Action, Result, ok, raise, or_throw, gets, modify, pure, ◌>>=◌, ◌>>◌, not_found, plain_error,
}
use chain_verse_backend.Mongo.{Mongo}
use chain_verse_backend.CourseForms.{or_else}
use chain_verse_backend.Registries.{Ids}
use chain_verse_backend.Stellar.{Ledger}

-- `SorobanApi.GetTransactionStatus`
pub data TxStatus : Type 0 where
  success not_found_yet failed : TxStatus

-- What a call of the chain's server comes to: what it answers, or that it throws.
pub data Reply (A : Type 0) : Type 0 where
  replied : A → Reply A
  threw : Reply A

-- What the service asks of its configuration and of the Soroban server: `send` stands for building,
-- preparing, signing and sending the call of `mint`, and its hash is `none` where the status is
-- `ERROR`; `ask` is the answer to the question of a number about a hash.
pub record Chain : Type 0 where
  pub contract_address : Option String
  pub secret_key : Option String
  pub send : String → String → Reply (Option String)
  pub ask : String → ℕ → Reply TxStatus

pub record Certificate (J : Type 0) : Type 0 where
  pub id : String
  pub transaction_hash : Option String
  pub title : Option String
  pub student_id : Option String
  pub description : Option String
  pub metadata : Option J

pub record CreateCertificate (J : Type 0) : Type 0 where
  pub title : String
  pub student_id : String
  pub description : Option String
  pub metadata : Option J

pub record UpdateCertificate (J : Type 0) : Type 0 where
  pub title : Option String
  pub student_id : Option String
  pub description : Option String
  pub metadata : Option J

pub data SyncStatus : Type 0 where
  pending confirmed failed : SyncStatus

pub record CertificateTx : Type 0 where
  pub id : String
  pub certificate_id : String
  pub student_id : String
  pub transaction_hash : String
  pub status : SyncStatus

-- The payload of `certificate.issued`.
pub record CertificateIssued : Type 0 where
  pub certificate_id : String
  pub student_id : String
  pub course_title : String

-- Whether the loop goes on.
abbrev pub is_missing : Reply TxStatus → Bool
is_missing (replied TxStatus.not_found_yet) = true
is_missing _ = false

abbrev pub is_missing_text : Option String → Bool
is_missing_text none = true
is_missing_text (some s) = is_blank s

-- `if (getResult.status !== SUCCESS) throw …; return txHash`
abbrev pub confirmed_hash : String → Reply TxStatus → Option String
confirmed_hash hash (replied TxStatus.success) = some hash
confirmed_hash hash (replied TxStatus.not_found_yet) = none
confirmed_hash hash (replied TxStatus.failed) = none
confirmed_hash hash threw = none

module _ (chain : Chain) where
  -- The loop after question `i`, of which `n` rounds are left: a round waits and asks again.
  unfoldable pub poll : ℕ → ℕ → String → Reply TxStatus → Reply TxStatus
  poll zero i hash status = status
  poll (suc n) i hash (replied TxStatus.not_found_yet) =
      poll n (suc i) hash (chain.ask hash (suc i))
  poll (suc n) i hash (replied TxStatus.success) = replied TxStatus.success
  poll (suc n) i hash (replied TxStatus.failed) = replied TxStatus.failed
  poll (suc n) i hash threw = threw

  -- The hash, or `none` where the method throws.
  unfoldable pub issue_certificate_on_chain : String → String → Option String
  unfolding poll
  issue_certificate_on_chain certificate student =
      if is_missing_text chain.contract_address || is_missing_text chain.secret_key
      then none
      else elim (chain.send certificate student) [
        | threw ↦ none
        | replied none ↦ none
        | replied (some hash) ↦ confirmed_hash hash (poll 10 0 hash (chain.ask hash 0))
      ]

-- The items, the number of UUIDs drawn, the records of transactions with the number of their ids,
-- and the events emitted.
pub record Office (db : Mongo) (J : Type 0) : Type 0 where
  pub items : List (Certificate J)
  pub drawn : ℕ
  pub txs : db.Store CertificateTx
  pub minted : ℕ
  pub issued : List CertificateIssued

module _ {J : Type 0} where
  abbrev pub is_certificate : String → Certificate J → Bool
  is_certificate id c = c.id === id

  -- `Object.assign(item, payload)`: a field that was not sent is an own field of the instance too.
  abbrev pub put_certificate : UpdateCertificate J → Certificate J → Certificate J
  put_certificate payload c = record c {
    title = payload.title;
    student_id = payload.student_id;
    description = payload.description;
    metadata = payload.metadata;
  }

abbrev pub no_certificate : String
no_certificate = "CourseCertificationNftAchievements item not found"

abbrev pub is_pending_tx : CertificateTx → Bool
is_pending_tx t = elim t.status [ pending ↦ true | _ ↦ false ]

module _ (db : Mongo) {J : Type 0} (ids : Ids) (chain : Chain) where
  -- `certTxModel.create({ … })`; a text that is required may not be empty, and what `create` throws
  -- is caught.
  unfoldable pub record_tx : String → String → Option String → Office db J → Office db J
  record_tx certificate student none s = s
  record_tx certificate student (some hash) s =
      if is_blank hash || (is_blank certificate || is_blank student) then s else record s {
        txs =
            db.insert
              (record {
                id = db.object_id s.minted;
                certificate_id = certificate;
                student_id = student;
                transaction_hash = hash;
                status = SyncStatus.pending;
              })
              s.txs;
        minted = s.minted + 1;
      }

  unfoldable pub issue : CreateCertificate J → Action (Office db J) (Certificate J)
  unfolding issue_certificate_on_chain record_tx
  issue payload s =
      let id : String = ids.uuid s.drawn in
      let hash : Option String = issue_certificate_on_chain chain id payload.student_id in
      let created : Certificate J = record {
        id = id;
        transaction_hash = hash;
        title = some payload.title;
        student_id = some payload.student_id;
        description = payload.description;
        metadata = payload.metadata;
      } in
      let event : CertificateIssued = record {
        certificate_id = id;
        student_id = payload.student_id;
        course_title = payload.title;
      } in
      let t : Office db J = record_tx id payload.student_id hash s in
      (
        ok created,
        record t {
          items = t.items ++ created ∷ [];
          drawn = t.drawn + 1;
          issued = t.issued ++ event ∷ [];
        },
      )

module _ (db : Mongo) {J : Type 0} where
  unfoldable pub find_certificates : Action (Office db J) (List (Certificate J))
  find_certificates = gets (λ s. s.items)

  unfoldable pub find_certificate : String → Action (Office db J) (Certificate J)
  find_certificate id = do
    item ← gets (λ s. first (is_certificate id) s.items)
    or_throw item (not_found no_certificate)

  unfoldable pub update_certificate :
      String → UpdateCertificate J → Action (Office db J) (Certificate J)
  unfolding find_certificate
  update_certificate id payload = do
    item ← find_certificate id
    modify (λ s. record s {
      items = amend_first (is_certificate id) (put_certificate payload) s.items;
    })
    pure (put_certificate payload item)

  unfoldable pub remove_certificate : String → Action (Office db J) String
  remove_certificate id = do
    found ← gets (λ s. first (is_certificate id) s.items)
    item ← or_throw found (not_found no_certificate)
    modify (λ s. record s { items = drop_first (is_certificate id) s.items })
    pure id

abbrev pub put_status : SyncStatus → CertificateTx → CertificateTx
put_status status t = record t { status = status }

-- `tx?.successful ? 'confirmed' : 'failed'`
abbrev pub status_for : Bool → SyncStatus
status_for true = SyncStatus.confirmed
status_for false = SyncStatus.failed

module _ (db : Mongo) (ledger : Ledger) where
  -- `record.save()` after the ledger's answer; what it does not answer stays as it is.
  unfoldable pub save_answer :
      Option Bool → CertificateTx → db.Store CertificateTx → db.Store CertificateTx
  save_answer none t txs = txs
  save_answer (some b) t txs = db.update_one (λ u. u.id === t.id) (put_status (status_for b)) txs

  -- One round of `syncPending`.
  unfoldable pub sync_tx : CertificateTx → db.Store CertificateTx → db.Store CertificateTx
  unfolding save_answer
  sync_tx t txs = save_answer (ledger.transaction t.transaction_hash) t txs

  unfoldable pub sync_each : List CertificateTx → db.Store CertificateTx → db.Store CertificateTx
  sync_each [] txs = txs
  sync_each (t ∷ ts) txs = sync_each ts (sync_tx t txs)

  unfoldable pub sync_pending : db.Store CertificateTx → db.Store CertificateTx
  unfolding sync_each
  sync_pending txs = sync_each (db.find is_pending_tx txs) txs
