-- ===== src/Stellar/Payments.antt =====
-- Which payments of the ledger are accepted.
use chain_verse_backend.Base.{◌≡◌, ◌⊎◌, String, Option, none, some}
use chain_verse_backend.Stellar.{Operation}

-- The operation is a payment of one of three kinds, of the amount, to the destination where one is
-- given that is not empty.
pub record Pays (amount : String) (destination : Option String) (op : Operation) : Type 0 where
  pub is_payment :
      (op.kind ≡ some "payment")
      ⊎ ((op.kind ≡ some "path_payment_strict_receive")
          ⊎ (op.kind ≡ some "path_payment_strict_send"))
  pub of_amount : op.amount ≡ some amount
  pub at_destination : (destination ≡ none) ⊎ ((destination ≡ some "") ⊎ (op.to ≡ destination))
