-- ===== src/Tests/Ledgers.antt =====
-- Payments, certificates and their transactions on a small ledger.
use chain_verse_backend.Base.{
  ℕ, zero, suc, ◌≡◌, ◌↔◌, true, refl, sym, ◌∙◌, inl, inr, none, some, [], ◌∷◌, ◌===◌, All, first,
}
use chain_verse_backend.Http.{raise, plain_error}
use chain_verse_backend.Mongo.Memory.{memory}
use chain_verse_backend.Stellar.{Ledger, Operation, verify_payment}
use chain_verse_backend.Certificates.{
  TxStatus, Reply, replied, Chain, CertificateTx, SyncStatus, issue_certificate_on_chain,
  sync_pending,
}
use chain_verse_backend.Certificates.Polling.{Confirms, issue_certificate_on_chain-some_iff}
use chain_verse_backend.Certificates.Issues.{Follows, HasOwnIds, shown, sync_pending-Follows}
use chain_verse_backend.Certificates.Settling.{sync_pending-settles}

abbrev paid : Operation
paid = record { kind = some "payment"; to = some "G"; amount = some "5" }

abbrev ledger : Ledger
ledger = record {
  transaction = λ hash. some (hash === "good");
  operations = λ hash. some (some (paid ∷ []));
  balances = λ key. raise (plain_error "Not Found");
  is_valid_public_key = λ key. true;
  friendbot = λ key. some true;
  random_keys = ("G", "S");
  network = none;
  to_lower = λ s. s;
  chv_contract = none;
}

verified : verify_payment ledger "good" "5" (some "G") ≡ true
unfolding verify_payment
verified = refl

-- A chain that confirms a transaction at the third question.
abbrev at_third : ℕ → Reply TxStatus
at_third zero = replied TxStatus.not_found_yet
at_third (suc zero) = replied TxStatus.not_found_yet
at_third (suc (suc n)) = replied TxStatus.success

abbrev chain : Chain
chain = record {
  contract_address = some "C";
  secret_key = some "S";
  send = λ certificate student. replied (some "good");
  ask = λ hash. at_third;
}

issue_certificate_on_chain-some_iff_example :
    (issue_certificate_on_chain chain "u" "s" ≡ some "good") ↔ Confirms chain "u" "s" "good"
issue_certificate_on_chain-some_iff_example =
    issue_certificate_on_chain-some_iff chain "u" "s" "good"

confirmed_late : issue_certificate_on_chain chain "u" "s" ≡ some "good"
unfolding issue_certificate_on_chain
confirmed_late = refl

abbrev waiting : CertificateTx
waiting = record {
  id = "a";
  certificate_id = "u";
  student_id = "s";
  transaction_hash = "good";
  status = SyncStatus.pending;
}

own_ids : HasOwnIds memory ledger (waiting ∷ [])
own_ids x y (inl a) (inl b) e = a ∙ sym b
own_ids x y (inl a) (inr there) e = absurd there
own_ids x y (inr there) my e = absurd there

sync_pending-Follows_example :
    All (Follows memory ledger (waiting ∷ [])) (sync_pending memory ledger (waiting ∷ []))
sync_pending-Follows_example = sync_pending-Follows memory ledger (waiting ∷ []) own_ids

sync_pending-settles_example :
    first (λ u. u.id === "a") (sync_pending memory ledger (waiting ∷ []))
    ≡ some (shown true waiting)
sync_pending-settles_example =
    sync_pending-settles memory ledger waiting true (waiting ∷ []) own_ids (inl refl) refl refl
