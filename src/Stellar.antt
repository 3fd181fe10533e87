-- ===== src/Stellar.antt =====
-- `StellarService` of src/stellar/stellar.service.ts. The ledger is asked through Horizon, which is
-- not in the repository; amounts are texts, as Horizon writes them.
pub mod Payments
use mathlib.Core.Option.{get_or}
use mathlib.Core.Option
use chain_verse_backend.Base.{
  String, Bool, true, false, not, ◌&&◌, ◌||◌, Option, none, some, List, [], ◌∷◌, ◌===◌, first,
  is_some, is_blank, if◌then◌else◌,
}
use chain_verse_backend.Http.{Result, ok, raise, bad_request, service_unavailable}

-- An operation of a transaction, of which any field may be missing.
pub record Operation : Type 0 where
  pub kind : Option String
  pub to : Option String
  pub amount : Option String

pub record BalanceLine : Type 0 where
  pub asset_type : String
  pub asset_code : Option String
  pub asset_issuer : Option String
  pub balance : String

pub record Balance : Type 0 where
  pub public_key : String
  pub xlm : String
  pub chv : Option String
  pub all_balances : List BalanceLine

-- The answer, but for its network and message, which never change.
pub record NewAccount : Type 0 where
  pub public_key : String
  pub secret_key : String
  pub funded : Bool

-- What the service asks of Horizon, of Friendbot, of the Stellar library and of its configuration.
-- `none` is a call that throws, and what `loadAccount` throws goes through; the operations may also
-- come back as no list.
pub record Ledger : Type 0 where
  pub transaction : String → Option Bool
  pub operations : String → Option (Option (List Operation))
  pub balances : String → Result (List BalanceLine)
  pub is_valid_public_key : String → Bool
  pub friendbot : String → Option Bool
  pub random_keys : String × String
  pub network : Option String
  pub to_lower : String → String
  pub chv_contract : Option String

abbrev pub is_text : Option String → String → Bool
is_text none t = false
is_text (some s) t = s === t

abbrev pub is_payment_kind : Option String → Bool
is_payment_kind k =
    is_text k "payment"
    || (is_text k "path_payment_strict_receive" || is_text k "path_payment_strict_send")

-- `!expectedDestination || op.to === expectedDestination`
abbrev pub goes_to : Option String → Operation → Bool
goes_to none op = true
goes_to (some d) op = is_blank d || is_text op.to d

abbrev pub is_expected : String → Option String → Operation → Bool
is_expected amount destination op =
    is_payment_kind op.kind && goes_to destination op && is_text op.amount amount

abbrev pub native_asset : BalanceLine → Bool
native_asset b = b.asset_type === "native"

abbrev pub chv_asset : String → BalanceLine → Bool
chv_asset contract b =
    not (native_asset b) && (is_text b.asset_code "CHV" || is_text b.asset_issuer contract)

abbrev pub balance_of : BalanceLine → String
balance_of b = b.balance

module _ (ledger : Ledger) where
  -- `verified` of the answer; whatever throws is caught and is `false`.
  unfoldable pub verify_payment : String → String → Option String → Bool
  verify_payment hash amount destination = elim (ledger.transaction hash) [
    | none ↦ false
    | some successful ↦ if not successful then false else elim (ledger.operations hash) [
      | none ↦ false
      | some none ↦ false
      | some (some ops) ↦ is_some (first (is_expected amount destination) ops)
    ]
  ]

  unfoldable pub get_balance : String → Result Balance
  get_balance key =
      if not (ledger.is_valid_public_key key)
      then raise (bad_request "Invalid Stellar public key format")
      else elim (ledger.balances key) [
        | raise e ↦ raise e
        | ok lines ↦ ok (record {
          public_key = key;
          xlm = get_or (Option.map balance_of (first native_asset lines)) "0";
          chv = Option.map balance_of (first (chv_asset (get_or ledger.chv_contract "")) lines);
          all_balances = lines;
        })
      ]

  unfoldable pub is_testnet : Bool
  is_testnet = get_or (Option.map ledger.to_lower ledger.network) "testnet" === "testnet"

  unfoldable pub fund_via_friendbot : String → Result (Unit {0})
  fund_via_friendbot key = elim (ledger.friendbot key) [
    | none ↦ raise (service_unavailable "Unable to reach Friendbot. Try again shortly.")
    | some true ↦ ok tt
    | some false ↦
        raise (service_unavailable "Friendbot failed to fund the account. Try again shortly.")
  ]

  unfoldable pub create_account : Result NewAccount
  unfolding is_testnet fund_via_friendbot
  create_account =
      if not is_testnet
      then raise (bad_request "Automatic account creation is only available on Stellar testnet.")
      else elim (fund_via_friendbot ledger.random_keys.0) [
        | raise e ↦ raise e
        | ok _ ↦ elim (ledger.balances ledger.random_keys.0) [
          | raise e ↦ raise e
          | ok _ ↦ ok (record {
            public_key = ledger.random_keys.0;
            secret_key = ledger.random_keys.1;
            funded = true;
          })
        ]
      ]
